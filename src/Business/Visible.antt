-- ===== src/Business/Visible.antt =====
-- What visitors and customers reach of a business: the search and the page of
-- apps/backend/src/modules/business/business.service.ts, and the holds of booking.service.ts.
use booking_platform_claude.Prelude.{
  ℕ, ◌-◌, ◌*◌, min, ◌≡◌, refl, sym, ap, ◌∙◌, subst, Bool, true, false, ◌&&◌, inl, inr, none, some,
  List, keep, length, In, rewrite, update_where, Option-cases, Bool-cases, ◌==◌, arith,
}
use booking_platform_claude.Schema.{Business, BusinessStatus, is_approved, AuditLog, AuditAction}
use booking_platform_claude.Store.{Db, Client, Env}
use booking_platform_claude.Store.Action.{not_found, ok, err, ◌>>=◌, pure}
use booking_platform_claude.Store.Found.{find_first-update_where, update-rows}
use booking_platform_claude.Audit.{log_audit}
use booking_platform_claude.Booking.Types.{HoldBookingDto}
use booking_platform_claude.Booking.Slot.{load_and_validate_context}
use booking_platform_claude.Booking.Hold.{hold}
use booking_platform_claude.Coupon.{or_old}
use booking_platform_claude.Business.{
  SearchBusinessDto, SearchPage, search, is_match, skipped, find_one_public, business_of,
  assert_exists, set_business,
}
use booking_platform_claude.Business.Review.{suspend, review_entry}

-- A page of the search: its businesses are approved and match, the total counts all of these, and
-- as many are shown as the page holds or as are left behind the pages before it.
pub record IsPage (contains : ℕ → ℕ → Bool) (dto : SearchBusinessDto) (s : Db) (page : SearchPage)
    : Type 0 where
  pub in_table : (b : Business) → In b page.items → In b s.businesses
  pub approved : (b : Business) → In b page.items → is_approved b.status ≡ true
  pub matching : (b : Business) → In b page.items → is_match contains dto s b ≡ true
  pub counted : page.total ≡ length (keep (is_match contains dto s) s.businesses)
  pub page_size : page.page_size ≡ or_old dto.page_size 20
  pub shown :
      length page.items ≡ min page.page_size (page.total - (or_old dto.page 1 - 1) * page.page_size)

match_approved :
    (contains : ℕ → ℕ → Bool) (dto : SearchBusinessDto) (s : Db) (b : Business)
    → is_match contains dto s b ≡ true
    → is_approved b.status ≡ true
match_approved contains dto s b h = elim (Bool-cases (is_approved b.status)) [
  | inl hit ↦ hit
  | inr miss ↦ ground arith
]

asks_for :
    (id : ℕ) (dto : HoldBookingDto) (b : Business)
    → dto.business_id ≡ id
    → (b.id == dto.business_id && is_approved b.status) ≡ true
    → (b.id == id) ≡ true
asks_for id dto b same h = ground (arith, same)

module _ (c : Client) (env : Env) where
  -- A search returns and writes nothing; the businesses it shows stand in the table, are approved and match; the total counts all that do; and as many are shown as the page holds, or as are left behind the pages before it.
  pub search-IsPage :
      (contains : ℕ → ℕ → Bool) (dto : SearchBusinessDto) (s : Db)
      → (page : SearchPage) × (search c env contains dto s ≡ (ok page, s))
        × IsPage contains dto s page
  unfolding search
  search-IsPage contains dto s =
      let p = is_match contains dto s in
      let size = or_old dto.page_size 20 in
      let skip = skipped (or_old dto.page 1) size in
      let found : (b : Business)
          → In b (c.business.find_page (λ b. b.created_at) p skip size s.businesses)
          → In b s.businesses × (p b ≡ true) =
        c.business.find_page_some (λ b. b.created_at) p skip size s.businesses in
      let total = c.business.count_lem p s.businesses in
      (
        _,
        refl,
        record {
          in_table = λ b i. (found b i).0;
          approved = λ b i. match_approved contains dto s b (found b i).1;
          matching = λ b i. (found b i).1;
          counted = total;
          page_size = refl;
          shown =
              c.business.length-find_page (λ b. b.created_at) p skip size s.businesses
              ∙ ap (λ z. min size (z - skip)) (sym total);
        },
      )

  hidden_page :
      (id : ℕ) (s : Db)
      → ((b : Business) → business_of c env id s ≡ some b → is_approved b.status ≡ false)
      → find_one_public c env id s ≡ (err not_found, s)
  unfolding find_one_public
  hidden_page id s closed = elim (Option-cases (business_of c env id s)) [
    | inl nothing ↦ ground arith
    | inr (b, found) ↦ ground (arith, closed b found)
  ]

  refused_hold :
      (user_id : ℕ) (dto : HoldBookingDto) (s : Db)
      → c.business.find_first (λ b. b.id == dto.business_id && is_approved b.status) s.businesses
        ≡ none
      → hold c env user_id dto s ≡ (err not_found, s)
  unfolding hold load_and_validate_context
  refused_hold user_id dto s nothing = ground (arith, nothing)

  -- What a test that asks for the identifier finds after an update to a status that is not APPROVED.
  closed_row :
      (id : ℕ) (f : Business → Business) (q : Business → Bool) (rows : List Business) (b : Business)
      → ((x : Business) → is_approved (f x).status ≡ false)
      → ((x : Business) → q x ≡ true → (x.id == id) ≡ true)
      → c.business.find_first q (update_where (λ x. x.id == id) f rows) ≡ some b
      → is_approved b.status ≡ false
  closed_row id f q rows b closed asks found =
      find_first-update_where c.business (λ x. x.id == id) f (λ x. is_approved x.status ≡ false) q
        rows b
        (λ x hit. elim (Bool-cases (x.id == id)) [
          | inl same ↦ ground (arith, closed x, same)
          | inr other ↦ absurd (ground (arith, asks (rewrite (λ z. z.id == id) f x) hit, other))
        ])
        found

  -- A decision that returns has set the rows with the identifier.
  decided_rows :
      (id : ℕ) (f : Business → Business) (entry : AuditLog) (s t : Db) (b : Business)
      → (assert_exists c env id >>= λ _.
            set_business c env id f >>= λ r. log_audit c entry >>= λ _. pure r)
          s
        ≡ (ok b, t)
      → t.businesses ≡ update_where (λ x. x.id == id) f s.businesses
  unfolding assert_exists set_business log_audit
  decided_rows id f entry s t b e =
      elim (Option-cases (c.business.update (λ x. x.id == id) f s.businesses)) [
        | inl nothing ↦ absurd (ground arith)
        | inr ((r, u), made) ↦
            let rows = update-rows c.business (λ x. x.id == id) f s.businesses u r made in
            let left : t.businesses ≡ u = ground arith in left ∙ rows
      ]

  no_approved :
      (id : ℕ) (f : Business → Business) (dto : HoldBookingDto) (s t : Db)
      → dto.business_id ≡ id
      → ((x : Business) → is_approved (f x).status ≡ false)
      → t.businesses ≡ update_where (λ x. x.id == id) f s.businesses
      → c.business.find_first (λ b. b.id == dto.business_id && is_approved b.status) t.businesses
        ≡ none
  no_approved id f dto s t same closed rows =
      let q = λ (b : Business). b.id == dto.business_id && is_approved b.status in
      elim (Option-cases (c.business.find_first q t.businesses)) [
        | inl nothing ↦ nothing
        | inr (x, found) ↦
            let shut =
              closed_row id f q s.businesses x closed (λ z h. asks_for id dto z same h)
                (subst (λ z. c.business.find_first q z ≡ some x) rows found) in
            let (place, hit) = c.business.find_first_some q t.businesses x found in
            absurd (ground (arith, shut, hit))
      ]

  -- In the state that a suspension which returned left, the business's public page and every hold for the business, by any user, throw the 404 exception and write nothing.
  pub suspend-hides :
      (id admin_id reason user_id : ℕ) (dto : HoldBookingDto) (s t : Db) (b : Business)
      → suspend c env id admin_id reason s ≡ (ok b, t)
      → dto.business_id ≡ id
      → (find_one_public c env id t ≡ (err not_found, t))
        × (hold c env user_id dto t ≡ (err not_found, t))
  unfolding suspend
  suspend-hides id admin_id reason user_id dto s t b e same =
      let f = λ (x : Business). record x {
        status = BusinessStatus.suspended;
        reject_reason = some reason;
      } in
      let rows =
        decided_rows id f
          (review_entry c env admin_id AuditAction.business_suspended id (some reason)) s t b e in
      (
        hidden_page id t (λ x found.
            closed_row id f (λ z. z.id == id) s.businesses x (λ _. refl) (λ _ h. h)
              (subst (λ z. c.business.find_first (λ y. y.id == id) z ≡ some x) rows found)),
        refused_hold user_id dto t (no_approved id f dto s t same (λ _. refl) rows),
      )

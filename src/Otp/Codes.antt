-- ===== src/Otp/Codes.antt =====
-- One-time codes: when a code is accepted, and what a wrong one costs.
use booking_platform_claude.Prelude.{
  ℕ, ◌+◌, ◌≤◌, ◌<◌, ◌≡◌, refl, sym, Option, none, some, is_some, ==_iff, ==_refl, Bool, true, false,
  ◌==◌, ltb, leb, update_where, if◌then◌else◌, arith, Option-cases, inl, inr, In,
}
use booking_platform_claude.Schema.{OtpCode, OtpPurpose, purpose_eq}
use booking_platform_claude.Store.{Db, Client, Env}
use booking_platform_claude.Store.Action.{ok, throw_if, bad_request, too_many_requests, pure, ◌>>◌}
use booking_platform_claude.Store.Holds.{bind_ok}
use booking_platform_claude.Store.Found.{update-rows}
use booking_platform_claude.Otp.{
  is_open, count_attempt, consume, max_verify_attempts, update_code, verify_record, verify_otp,
}

-- A code for the phone and the purpose that is not used.
pub record IsUnused (phone : ℕ) (purpose : OtpPurpose) (r : OtpCode) : Type 0 where
  pub of_phone : r.phone ≡ phone
  pub of_purpose : r.purpose ≡ purpose
  pub not_consumed : r.consumed_at ≡ none

purpose_eq_refl : (p : OtpPurpose) → purpose_eq p p ≡ true
purpose_eq_refl OtpPurpose.register = refl
purpose_eq_refl OtpPurpose.login = refl
purpose_eq_refl OtpPurpose.reset_password = refl

same_purpose : (p q : OtpPurpose) → purpose_eq p q ≡ true → p ≡ q
same_purpose p q h = ground arith

unset : (o : Option ℕ) → is_some o ≡ false → o ≡ none
unset none h = refl
unset (some n) h = absurd (ground arith)

is_open-IsUnused :
    (phone : ℕ) (purpose : OtpPurpose) (r : OtpCode)
    → is_open phone purpose r ≡ true
    → IsUnused phone purpose r
is_open-IsUnused phone purpose r h = record {
  of_phone = (==_iff r.phone phone).0 (ground (arith, h));
  of_purpose = same_purpose r.purpose purpose (ground (arith, h));
  not_consumed = unset r.consumed_at (ground (arith, h));
}

IsUnused-is_open :
    (phone : ℕ) (purpose : OtpPurpose) (r : OtpCode)
    → IsUnused phone purpose r
    → is_open phone purpose r ≡ true
IsUnused-is_open phone purpose r h =
    rw (h.of_phone, h.of_purpose, h.not_consumed)
      (ground (arith, ==_refl phone, purpose_eq_refl purpose))

-- The row of a code after a check: marked as used now, or with one more attempt.
abbrev pub checked_row : ℕ → Bool → OtpCode → OtpCode
checked_row now true r = record r { consumed_at = some now }
checked_row now false r = record r { attempts = r.attempts + 1 }

-- A code of the table for the phone and the purpose that is neither used, expired nor worn out by wrong attempts, and the latest of those not used.
pub record IsUsable (phone : ℕ) (purpose : OtpPurpose) (now : ℕ) (s : Db) (r : OtpCode)
    : Type 0 where
  pub in_table : In r s.otp_codes
  pub is_unused : IsUnused phone purpose r
  pub latest :
      (x : OtpCode) → In x s.otp_codes → IsUnused phone purpose x → x.created_at ≤ r.created_at
  pub not_expired : now ≤ r.expires_at
  pub attempts_left : r.attempts < 5

module _ (sha256 : ℕ → ℕ) (c : Client) (env : Env) where
  update_code-rows :
      (id : ℕ) (change : OtpCode → OtpCode) (b d : Bool) (s t : Db)
      → (update_code sha256 c env id change >> pure d) s ≡ (ok b, t)
      → (b ≡ d) × (t.otp_codes ≡ update_where (λ x. x.id == id) change s.otp_codes)
  unfolding update_code
  update_code-rows id change b d s t e =
      elim (Option-cases (c.otp_code.update (λ x. x.id == id) change s.otp_codes)) [
        | inl nothing ↦ absurd (ground arith)
        | inr ((x, ys), done) ↦
            let rows = update-rows c.otp_code (λ x. x.id == id) change s.otp_codes ys x done in
            (ground arith, ground arith)
      ]

  chosen-rows :
      (id : ℕ) (d b : Bool) (s t : Db)
      → (if d
            then update_code sha256 c env id (consume env.now) >> pure true
            else update_code sha256 c env id count_attempt >> pure false)
          s
        ≡ (ok b, t)
      → (b ≡ d)
        × (t.otp_codes
            ≡ update_where
                (λ x. x.id == id)
                (if b then consume env.now else count_attempt)
                s.otp_codes)
  chosen-rows id true b s t e =
      let (same, rows) = update_code-rows id (consume env.now) b true s t e in (same, rw same rows)
  chosen-rows id false b s t e =
      let (same, rows) = update_code-rows id count_attempt b false s t e in (same, rw same rows)

  verify_record-rows :
      (r : OtpCode) (code : ℕ) (s t : Db) (b : Bool)
      → verify_record sha256 c env r code s ≡ (ok b, t)
      → (env.now ≤ r.expires_at)
        × (r.attempts < max_verify_attempts)
        × (b ≡ (r.code_hash == sha256 code))
        × (t.otp_codes
            ≡ update_where
                (λ x. x.id == r.id)
                (if b then consume env.now else count_attempt)
                s.otp_codes)
  unfolding verify_record
  verify_record-rows r code s t b e =
      let (u, s', fresh, e') = bind_ok (throw_if (ltb r.expires_at env.now) bad_request) _ s e in
      let (v, s'', left, e'') =
        bind_ok (throw_if (leb max_verify_attempts r.attempts) too_many_requests) _ s' e' in
      let (answer, rows) = chosen-rows r.id (r.code_hash == sha256 code) b s'' t e'' in
      let unread : s'' ≡ s = ground arith in
      (ground arith, ground arith, answer, rw (sym unread) rows)

row_of :
    (b : Bool) (s t : Db) (id now : ℕ)
    → t.otp_codes
      ≡ update_where (λ x. x.id == id) (if b then consume now else count_attempt) s.otp_codes
    → t.otp_codes ≡ update_where (λ x. x.id == id) (checked_row now b) s.otp_codes
row_of true s t id now h = h
row_of false s t id now h = h

-- The answer of a check of a code, with its effect on the table.
pub record IsAnswer (sha256 : ℕ → ℕ) (phone : ℕ) (purpose : OtpPurpose) (code now : ℕ) (s t : Db)
    (b : Bool) : Type 0 where
  pub checked : OtpCode
  pub usable : IsUsable phone purpose now s checked
  pub answer : b ≡ (checked.code_hash == sha256 code)
  pub effect : t.otp_codes ≡ update_where (λ x. x.id == checked.id) (checked_row now b) s.otp_codes

-- A check that returns has checked a usable code, the latest for the phone and the purpose of those not used, not expired and with fewer than five wrong attempts: the answer is whether the digests agree; the row gets the time of its use
-- if they do, and one more attempt if not, and the other rows stay.
pub verify_otp-IsAnswer :
    (sha256 : ℕ → ℕ) (c : Client) (env : Env) (phone : ℕ) (purpose : OtpPurpose) (code : ℕ)
    (s t : Db) (b : Bool)
    → verify_otp sha256 c env phone purpose code s ≡ (ok b, t)
    → IsAnswer sha256 phone purpose code env.now s t b
unfolding verify_otp
verify_otp-IsAnswer sha256 c env phone purpose code s t b e =
    elim (Option-cases
      (c.otp_code.find_latest (λ r. r.created_at) (is_open phone purpose) s.otp_codes)) [
        | inl nothing ↦ absurd (ground arith)
        | inr (r, found) ↦
            let (fresh, left, answer, effect) =
              verify_record-rows sha256 c env r code s t b (ground arith) in
            let (place, hit) =
              c.otp_code.find_latest_some (λ r. r.created_at) (is_open phone purpose) s.otp_codes r
                found in
            record {
              checked = r;
              usable = record {
                in_table = place;
                is_unused = is_open-IsUnused phone purpose r hit;
                latest = λ x i h.
                    c.otp_code.find_latest_max (λ r. r.created_at) (is_open phone purpose)
                      s.otp_codes r x found i (IsUnused-is_open phone purpose x h);
                not_expired = fresh;
                attempts_left = left;
              };
              answer = answer;
              effect = row_of b s t r.id env.now effect;
            }
      ]

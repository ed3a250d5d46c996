-- ===== src/Users/Profile.antt =====
-- The unique keys of users under `updateProfile` of apps/backend/src/modules/users/users.service.ts.
use booking_platform_claude.Prelude.{
  ℕ, ◌≡◌, refl, sym, subst, Bool, true, false, inl, inr, Option, none, some, List, ◌==◌, opt_eq,
  rewrite, arith, Option-cases, Bool-cases, All, All-In, AllPairs, In-AllPairs, All-of_In,
  All-of_any, AllPairs-with, AllPairs-update_where,
}
use booking_platform_claude.Schema.{User, user_clash}
use booking_platform_claude.Store.{Db, Client, Env}
use booking_platform_claude.Store.Action.{ok}
use booking_platform_claude.Store.Holds.{bind_holds, stored_row_holds}
use booking_platform_claude.Store.Found.{update-rows}
use booking_platform_claude.Auth.Tokens.{set_users}
use booking_platform_claude.Users.{
  UpdateProfileDto, is_of_other, with_profile, check_email, set_profile, update_profile,
}

-- No two users have one identifier, phone number or email.
abbrev pub UniqueUsers : List User → Type 0
UniqueUsers t = AllPairs (λ a b. user_clash a b ≡ false) t

-- The user has the email, if one is given.
abbrev has_email : Option ℕ → User → Bool
has_email none u = false
has_email (some email) u = opt_eq u.email (some email)

abbrev Free : ℕ → Option ℕ → User → Type 0
Free user_id email u = has_email email u ≡ true → (u.id == user_id) ≡ true

shared_email :
    (email : ℕ) (a b : User)
    → opt_eq a.email (some email) ≡ true
    → opt_eq b.email (some email) ≡ true
    → user_clash a b ≡ false
    → ⊥
shared_email email a b ha hb apart = ground (arith, ha, hb, apart)

module _ (user_id : ℕ) (dto : UpdateProfileDto) where
  clash_after :
      (a b : User)
      → (user_clash a b ≡ false) × Free user_id dto.email a × Free user_id dto.email b
      → user_clash
          (rewrite (λ u. u.id == user_id) (with_profile dto) a)
          (rewrite (λ u. u.id == user_id) (with_profile dto) b)
        ≡ false
  clash_after a b (apart, free_a, free_b) = elim (Option-cases dto.email) [
    | inl nothing ↦ ground (arith, apart, nothing)
    | inr (email, given) ↦ ground (arith, apart, free_a, free_b, given)
  ]

  module _ (c : Client) (env : Env) where
    -- The row with the email is the user's own.
    Free-found :
        (email : ℕ) (t : List User)
        → UniqueUsers t
        → is_of_other user_id (c.user.find_first (λ u. opt_eq u.email (some email)) t) ≡ false
        → All (Free user_id (some email)) t
    Free-found email t unique own =
        let p = λ (u : User). opt_eq u.email (some email) in
        elim (Option-cases (c.user.find_first p t)) [
          | inl nothing ↦ All-of_In (Free user_id (some email)) t (λ x i hit. absurd (
              ground (
                arith,
                hit,
                All-In (λ z. p z ≡ false) x t (All-of_any p t (c.user.find_first_none p t nothing))
                    i,
              )))
          | inr (r, found) ↦
              let (place, has) = c.user.find_first_some p t r found in
              let mine : (r.id == user_id) ≡ true = ground (arith, own, found) in
              All-of_In (Free user_id (some email)) t (λ x i hit.
                elim (In-AllPairs (λ a b. user_clash a b ≡ false) r x t unique place i) [
                  | inl same ↦ subst (λ z. (z.id == user_id) ≡ true) same mine
                  | inr (inl apart) ↦ absurd (shared_email email r x has hit apart)
                  | inr (inr apart) ↦ absurd (shared_email email x r hit has apart)
                ])
        ]

    -- The check writes nothing.
    check_email_reads : (o : Option ℕ) (s : Db) → (check_email c env user_id o s).1 ≡ s
    check_email_reads none s = refl
    check_email_reads (some email) s =
        elim (Bool-cases
          (is_of_other user_id (c.user.find_first (λ u. opt_eq u.email (some email)) s.users))) [
            | inl other ↦ ground (arith, other)
            | inr own ↦ ground (arith, own)
          ]

    check_email-Free :
        (o : Option ℕ) (a : Unit {0}) (s t : Db)
        → UniqueUsers s.users
        → check_email c env user_id o s ≡ (ok a, t)
        → All (Free user_id o) t.users
    check_email-Free none a s t unique e =
        All-of_In (Free user_id none) t.users (λ x i hit. absurd (ground (arith, hit)))
    check_email-Free (some email) a s t unique e =
        elim (Bool-cases
          (is_of_other user_id (c.user.find_first (λ u. opt_eq u.email (some email)) s.users))) [
            | inl other ↦ absurd (ground (arith, other))
            | inr own ↦
                let same : t ≡ s = ground (arith, own) in
                subst (λ z. All (Free user_id (some email)) z.users) (sym same)
                  (Free-found email s.users unique own)
          ]

    set_profile-UniqueUsers :
        (s : Db)
        → UniqueUsers s.users
        → All (Free user_id dto.email) s.users
        → UniqueUsers (set_profile c env user_id (with_profile dto) s).1.users
    unfolding set_profile
    set_profile-UniqueUsers s unique free =
        let p = λ (u : User). u.id == user_id in
        stored_row_holds (λ z. UniqueUsers z.users) (c.user.update p (with_profile dto) s.users)
          set_users s unique
          λ r rows made.
            subst UniqueUsers (sym (update-rows c.user p (with_profile dto) s.users rows r made)) (
              AllPairs-update_where p (with_profile dto) (λ a b. user_clash a b ≡ false) s.users
                clash_after
                (AllPairs-with (λ a b. user_clash a b ≡ false) (Free user_id dto.email) s.users free
                  unique))

-- if no two users have one identifier, phone number or email, then so it is after a call of `updateProfile`, whether it returns or throws.
pub update_profile-UniqueUsers :
    (c : Client) (env : Env) (user_id : ℕ) (dto : UpdateProfileDto) (s : Db)
    → UniqueUsers s.users
    → UniqueUsers (update_profile c env user_id dto s).1.users
unfolding update_profile
update_profile-UniqueUsers c env user_id dto s unique =
    bind_holds (λ z. UniqueUsers z.users) (check_email c env user_id dto.email) _ s
      (subst (λ z. UniqueUsers z.users) (sym (check_email_reads user_id dto c env dto.email s))
        unique)
      λ a t e ht.
        set_profile-UniqueUsers user_id dto c env t ht
          (check_email-Free user_id dto c env dto.email a s t unique e)

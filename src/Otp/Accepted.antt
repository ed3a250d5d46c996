-- ===== src/Otp/Accepted.antt =====
-- A code that `requestOtp` of apps/backend/src/modules/otp/otp.service.ts has sent, given to `verifyOtp`.
use booking_platform_claude.Prelude.{
  ℕ, ◌+◌, ◌≤◌, ◌<◌, ◌≡◌, refl, sym, ap, ◌∙◌, subst, Bool, true, false, inl, inr, Option, none, some,
  List, ◌∷◌, any, In, All-In, All-of_any, Option-cases, Bool-cases, ◌==◌, ==_refl, ltb, arith,
  if◌then◌else◌,
}
use booking_platform_claude.Schema.{OtpCode, OtpPurpose, purpose_eq, otp_code_clash}
use booking_platform_claude.Store.{Db, Client, Env}
use booking_platform_claude.Store.Action.{Action, ok, ◌>>◌, throw_if, bad_request, pure}
use booking_platform_claude.Store.{updated}
use booking_platform_claude.Otp.{
  OtpConfig, otp_ttl, is_open, is_cooling_down, latest_open, new_otp_code, request_otp, update_code,
  consume, count_attempt, verify_record, verify_otp,
}

purpose_eq_refl : (p : OtpPurpose) → purpose_eq p p ≡ true
purpose_eq_refl p = ground arith

-- The steps of `verifyOtp` for a code that is in time and agrees.
passed :
    (late same : Bool) (first other : Action Bool) (s : Db)
    → late ≡ false
    → same ≡ true
    → (first s).0 ≡ ok true
    → ((throw_if late bad_request >> (if same then first else other)) s).0 ≡ ok true
passed true same first other s e f h = cc
passed false false first other s e f h = cc
passed false true first other s e f h = h

module _ (sha256 : ℕ → ℕ) (c : Client) (env : Env) where
  -- The new code is behind no other usable one.
  newest :
      (phone : ℕ) (purpose : OtpPurpose) (t : List OtpCode) (x : OtpCode) (o : Option OtpCode)
      → c.otp_code.find_latest (λ r. r.created_at) (is_open phone purpose) t ≡ o
      → is_cooling_down env.now o ≡ false
      → In x t
      → is_open phone purpose x ≡ true
      → x.created_at < env.now
  newest phone purpose t x none e cool i hit =
      let nothing =
        All-of_any (is_open phone purpose) t
          (c.otp_code.find_latest_none (λ r. r.created_at) (is_open phone purpose) t e) in
      absurd (ground (arith, hit, All-In (λ z. is_open phone purpose z ≡ false) x t nothing i))
  newest phone purpose t x (some r) e cool i hit =
      let below =
        c.otp_code.find_latest_max (λ r. r.created_at) (is_open phone purpose) t r x e i hit in
      ground (arith, below, cool)

  new_is_open :
      (phone : ℕ) (purpose : OtpPurpose) (user_id : Option ℕ) (code : ℕ)
      → is_open phone purpose (new_otp_code sha256 c env phone purpose user_id code) ≡ true
  new_is_open phone purpose user_id code = ground (arith, ==_refl phone, purpose_eq_refl purpose)

  -- So it is the one that is found.
  latest_is_new :
      (phone : ℕ) (purpose : OtpPurpose) (user_id : Option ℕ) (code : ℕ) (s : Db)
      → is_cooling_down env.now (latest_open sha256 c env phone purpose s) ≡ false
      → c.otp_code.find_latest
          (λ r. r.created_at)
          (is_open phone purpose)
          (new_otp_code sha256 c env phone purpose user_id code ∷ s.otp_codes)
        ≡ some (new_otp_code sha256 c env phone purpose user_id code)
  unfolding latest_open
  latest_is_new phone purpose user_id code s cool =
      let new = new_otp_code sha256 c env phone purpose user_id code in
      let p = is_open phone purpose in
      elim (Option-cases (c.otp_code.find_latest (λ r. r.created_at) p (new ∷ s.otp_codes))) [
        | inl nothing ↦
            let missed =
              c.otp_code.find_latest_none (λ r. r.created_at) p (new ∷ s.otp_codes) nothing in
            absurd (ground (arith, missed, new_is_open phone purpose user_id code))
        | inr (r, found) ↦
            let (place, hit) =
              c.otp_code.find_latest_some (λ r. r.created_at) p (new ∷ s.otp_codes) r found in
            let above =
              c.otp_code.find_latest_max (λ r. r.created_at) p (new ∷ s.otp_codes) r new found
                (inl refl) (new_is_open phone purpose user_id code) in
            elim place [
              | inl same ↦ found ∙ ap some (sym same)
              | inr old ↦
                  let less = newest phone purpose s.otp_codes r _ refl cool old hit in
                  absurd (omega (arith, above, less))
            ]
      ]

  -- A request that returns was not in the cooldown, and put the new code in front.
  requested :
      (config : OtpConfig) (code phone : ℕ) (purpose : OtpPurpose) (user_id : Option ℕ) (s t : Db)
      (shown : Option ℕ)
      → request_otp sha256 c env config code phone purpose user_id s ≡ (ok shown, t)
      → (is_cooling_down env.now (latest_open sha256 c env phone purpose s) ≡ false)
        × (t.otp_codes ≡ new_otp_code sha256 c env phone purpose user_id code ∷ s.otp_codes)
  unfolding request_otp latest_open
  requested config code phone purpose user_id s t shown e =
      let new = new_otp_code sha256 c env phone purpose user_id code in
      elim (Bool-cases (any (otp_code_clash new) s.otp_codes)) [
        | inl clash ↦ absurd (ground (arith, c.otp_code.create_lem new s.otp_codes))
        | inr free ↦ (ground arith, ground (arith, c.otp_code.create_lem new s.otp_codes))
      ]

  accepted :
      (later : Env) (phone : ℕ) (purpose : OtpPurpose) (user_id : Option ℕ) (code : ℕ) (t : Db)
      → In (new_otp_code sha256 c env phone purpose user_id code) t.otp_codes
      → later.now ≤ env.now + otp_ttl
      → (verify_record sha256 c later
          (new_otp_code sha256 c env phone purpose user_id code)
          code
          t).0
        ≡ ok true
  unfolding verify_record update_code
  accepted later phone purpose user_id code t i in_time =
      let new = new_otp_code sha256 c env phone purpose user_id code in
      let p = λ (r : OtpCode). r.id == new.id in
      elim (Option-cases (c.otp_code.find_first p t.otp_codes)) [
        | inl nothing ↦
            let missed =
              All-In (λ r. p r ≡ false) new t.otp_codes
                (All-of_any p t.otp_codes (c.otp_code.find_first_none p t.otp_codes nothing)) i in
            absurd (ground (arith, missed, ==_refl new.id))
        | inr (r, found) ↦
            let made =
              c.otp_code.update_lem p (consume later.now) t.otp_codes
              ∙ ap (updated p (consume later.now) t.otp_codes) found in
            passed (ltb new.expires_at later.now) (new.code_hash == sha256 code)
              (update_code sha256 c later new.id (consume later.now) >> pure true)
              (update_code sha256 c later new.id count_attempt >> pure false) t
              (ground (arith, in_time)) (==_refl (sha256 code)) (ground (arith, made))
      ]

-- A code that was sent is accepted: after a call of `requestOtp` that returned, `verifyOtp` of the same phone number, purpose and code answers true, if it comes at most five minutes after the request, whatever the clock's identifiers then.
pub request_otp-verify_otp :
    (sha256 : ℕ → ℕ) (c : Client) (env later : Env) (config : OtpConfig) (code phone : ℕ)
    (purpose : OtpPurpose) (user_id : Option ℕ) (s t : Db) (shown : Option ℕ)
    → request_otp sha256 c env config code phone purpose user_id s ≡ (ok shown, t)
    → later.now ≤ env.now + otp_ttl
    → (verify_otp sha256 c later phone purpose code t).0 ≡ ok true
unfolding verify_otp latest_open
request_otp-verify_otp sha256 c env later config code phone purpose user_id s t shown e in_time =
    let new = new_otp_code sha256 c env phone purpose user_id code in
    let (cool, rows) = requested sha256 c env config code phone purpose user_id s t shown e in
    let found : latest_open sha256 c later phone purpose t ≡ some new =
      subst (λ z. c.otp_code.find_latest (λ r. r.created_at) (is_open phone purpose) z ≡ some new)
        (sym rows) (latest_is_new sha256 c env phone purpose user_id code s cool) in
    let place : In new t.otp_codes = subst (In new) (sym rows) (inl refl) in
    ground (arith, found, accepted sha256 c env later phone purpose user_id code t place in_time)

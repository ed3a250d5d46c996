-- ===== src/Auth/Rotation.antt =====
-- The rotation of refresh tokens: `refreshTokens` of apps/backend/src/modules/auth/auth.service.ts.
use booking_platform_claude.Prelude.{
  ℕ, ◌≡◌, sym, ap, ◌∙◌, subst, true, false, inl, inr, List, ◌∷◌, ◌==◌, is_some, any, update_where,
  rewrite, arith, Option-cases, Bool-cases, All, AllPairs, In, All-In, All-of_In, All-of_any,
  All-update_where, In-update_where, same_row, ==_refl, ==_iff,
}
use booking_platform_claude.Schema.{RefreshToken, refresh_token_clash}
use booking_platform_claude.Store.{Db, Client, Env}
use booking_platform_claude.Store.Action.{ok, err, unauthorized}
use booking_platform_claude.Store.Found.{update-rows}
use booking_platform_claude.Auth.Tokens.{
  Crypto, DeviceContext, TokenPair, revoke, revoke_by_id, issue_token_pair, new_refresh_token,
  refresh_tokens,
}

-- No two refresh tokens have one digest: the unique key of the column.
abbrev pub UniqueHashes : List RefreshToken → Type 0
UniqueHashes t = AllPairs (λ a b. (a.token_hash == b.token_hash) ≡ false) t

-- Whoever presents the digest in this table gets nothing.
abbrev AllDead : ℕ → List RefreshToken → Type 0
AllDead hash t =
    All (λ (r : RefreshToken). (r.token_hash == hash) ≡ true → is_some r.revoked_at ≡ true) t

revoked_row :
    (now : ℕ) (r x : RefreshToken) (hash : ℕ)
    → ((x.token_hash == hash) ≡ true → x ≡ r)
    → ((rewrite (λ z. z.id == r.id) (revoke now) x).token_hash == hash) ≡ true
    → is_some (rewrite (λ z. z.id == r.id) (revoke now) x).revoked_at ≡ true
revoked_row now r x hash only hit = elim (Bool-cases (x.id == r.id)) [
  | inl same ↦ ground (arith, same)
  | inr other ↦
      let one = only (ground (arith, other, hit)) in
      absurd (ground (arith, other, subst (λ z. (z.id == r.id) ≡ true) (sym one) (==_refl r.id)))
]

-- The presented row is revoked, and the new row has another digest.
AllDead-rotated :
    (now : ℕ) (r new : RefreshToken) (t : List RefreshToken)
    → UniqueHashes t
    → In r t
    → any (refresh_token_clash new) (update_where (λ z. z.id == r.id) (revoke now) t) ≡ false
    → AllDead r.token_hash (new ∷ update_where (λ z. z.id == r.id) (revoke now) t)
AllDead-rotated now r new t unique i free =
    let only =
      All-of_In (λ x. (x.token_hash == r.token_hash) ≡ true → x ≡ r) t
        (λ x j e. same_row (λ z. z.token_hash) x r t unique j i e) in
    let p = λ (z : RefreshToken). z.id == r.id in
    let apart =
      All-In (λ z. refresh_token_clash new z ≡ false) (rewrite p (revoke now) r)
        (update_where p (revoke now) t)
        (All-of_any (refresh_token_clash new) (update_where p (revoke now) t) free)
        (In-update_where p (revoke now) r t i) in
    (
      λ e. absurd (ground (arith, e, apart, ==_refl r.id)),
      All-update_where p (revoke now)
          (λ z. (z.token_hash == r.token_hash) ≡ true → is_some z.revoked_at ≡ true) t
          (λ x h. revoked_row now r x r.token_hash h) only,
    )

module _ (h : Crypto) (c : Client) where
  dead_refused :
      (later : Env) (raw again : ℕ) (ctx : DeviceContext) (t : Db)
      → AllDead (h.sha256 raw) t.refresh_tokens
      → refresh_tokens h c later again raw ctx t ≡ (err unauthorized, t)
  unfolding refresh_tokens
  dead_refused later raw again ctx t dead =
      let p = λ (r : RefreshToken). r.token_hash == h.sha256 raw in
      elim (Option-cases (c.refresh_token.find_first p t.refresh_tokens)) [
        | inl nothing ↦ ground arith
        | inr (r, found) ↦
            let (place, hit) = c.refresh_token.find_first_some p t.refresh_tokens r found in
            let gone =
              All-In
                (λ (z : RefreshToken).
                  (z.token_hash == h.sha256 raw) ≡ true → is_some z.revoked_at ≡ true)
                r t.refresh_tokens dead place hit in
            ground (arith, gone)
      ]

  rotated_rows :
      (env : Env) (raw new_raw : ℕ) (ctx : DeviceContext) (s t : Db) (pair : TokenPair)
      → refresh_tokens h c env new_raw raw ctx s ≡ (ok pair, t)
      → (r : RefreshToken) × (new : RefreshToken) × In r s.refresh_tokens
        × (r.token_hash ≡ h.sha256 raw)
        × (any
              (refresh_token_clash new)
              (update_where (λ z. z.id == r.id) (revoke env.now) s.refresh_tokens)
            ≡ false)
        × (t.refresh_tokens
            ≡ new ∷ update_where (λ z. z.id == r.id) (revoke env.now) s.refresh_tokens)
  unfolding refresh_tokens revoke_by_id issue_token_pair
  rotated_rows env raw new_raw ctx s t pair e =
      let p = λ (r : RefreshToken). r.token_hash == h.sha256 raw in
      elim (Option-cases (c.refresh_token.find_first p s.refresh_tokens)) [
        | inl nothing ↦ absurd (ground arith)
        | inr (r, found) ↦
            elim (Option-cases (c.user.find_first (λ u. u.id == r.user_id) s.users)) [
              | inl nobody ↦ absurd (ground arith)
              | inr (u, known) ↦
                  let q = λ (z : RefreshToken). z.id == r.id in
                  let new = new_refresh_token h c env 0 new_raw u.id ctx in
                  elim (Option-cases (c.refresh_token.update q (revoke env.now) s.refresh_tokens)) [
                    | inl missing ↦ absurd (ground arith)
                    | inr ((x, rows), made) ↦
                        elim (Bool-cases (any (refresh_token_clash new) rows)) [
                          | inl clash ↦ absurd (ground (arith, c.refresh_token.create_lem new rows))
                          | inr free ↦
                              let same =
                                update-rows c.refresh_token q (revoke env.now) s.refresh_tokens rows
                                  x made in
                              let (place, hit) =
                                c.refresh_token.find_first_some p s.refresh_tokens r found in
                              let after : t.refresh_tokens ≡ new ∷ rows =
                                ground (arith, c.refresh_token.create_lem new rows) in
                              (
                                r,
                                new,
                                place,
                                (==_iff r.token_hash (h.sha256 raw)).0 hit,
                                subst (λ z. any (refresh_token_clash new) z ≡ false) same free,
                                after ∙ ap (λ z. new ∷ z) same,
                              )
                        ]
                  ]
            ]
      ]

  -- if no two refresh tokens of the table have one digest, then in the state that a refresh which returned left, presenting the same refresh token again, by whatever device and at any time, gets the 401 exception, and nothing is written.
  pub refresh_tokens_once :
      (env later : Env) (raw new_raw again : ℕ) (ctx there : DeviceContext) (s t : Db)
      (pair : TokenPair)
      → UniqueHashes s.refresh_tokens
      → refresh_tokens h c env new_raw raw ctx s ≡ (ok pair, t)
      → refresh_tokens h c later again raw there t ≡ (err unauthorized, t)
  refresh_tokens_once env later raw new_raw again ctx there s t pair unique e =
      let (r, new, place, hash, free, rows) = rotated_rows env raw new_raw ctx s t pair e in
      dead_refused later raw again there t (
        subst (λ z. AllDead z t.refresh_tokens) hash
          (subst (AllDead r.token_hash) (sym rows)
            (AllDead-rotated env.now r new s.refresh_tokens unique place free)))

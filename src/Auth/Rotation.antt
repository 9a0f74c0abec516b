-- ===== src/Auth/Rotation.antt =====
-- A refresh token that was used, or logged out, is of no further use (Auth/Service).
use mali.Prelude.{◌≡◌, ◌≢◌, subst, refl, ap, sym, ◌∙◌, none, some, inl, inr, arith, String, ◌+◌}
use mali.Prelude.Tests.{Option-cases}
use mali.Prelude.Lists.{find}
use mali.Prelude.Text.{trim_space}
use mali.Time.{Time}
use mali.Domain.{Uuid, RefreshToken}
use mali.Context.{Result, ok, Platform, World, ◌>>=◌}
use mali.Context.Frames.{IsReadOnly, read_rules}
use mali.Context.Success.{result_cases}
use mali.Auth.Repo
use mali.Auth.Repo.{with_id, with_hash, revoked}
use mali.Auth.Service.{
  TokenLibrary, AuthService, RefreshTokenInput, RefreshTokenOutput, LogoutInput, hash_token,
  claims_of, token_record, access_token_ttl, refresh_token_ttl, generate_token, issue, check_stored,
  rotate, exchange, parse_refresh_token, parse_user_id_from_claims, refresh_token_use_case,
  logout_use_case,
}
use mali.Auth.Spent.{Spent, find-revoked, create_lem, revoke_lem}

module _ (l : TokenLibrary) (s : AuthService) where
  -- A revoked token is refused.
  rotate-Spent :
      (token device : String) (u : Uuid) (p : Platform) (w : World) (out : RefreshTokenOutput)
      → Spent (hash_token l s token) w.db
      → (rotate l s token device u p w).0 ≢ ok out
  unfolding rotate check_stored Repo.find_by_token_hash ◌>>=◌
  rotate-Spent token device u p w out (r, t, e, q) h = ground arith

  logout-Spent :
      (input : LogoutInput) (p : Platform) (w : World)
      → (logout_use_case l s input p w).0 ≡ ok tt
      → Spent (hash_token l s (trim_space input.refresh_token)) (logout_use_case l s input p w).1.db
  unfolding logout_use_case Repo.find_by_token_hash Repo.revoke_by_id ◌>>=◌
  logout-Spent input p w h =
      elim (Option-cases
        (find (with_hash (hash_token l s (trim_space input.refresh_token))) w.db.refresh_tokens)) [
          | inl absent ↦ absurd (ground arith)
          | inr (r, e) ↦
              let f =
                find-revoked (hash_token l s (trim_space input.refresh_token)) (p.clock w.ticks)
                  w.db.refresh_tokens r e in
              (revoked (p.clock w.ticks) r, p.clock w.ticks, ground arith, refl)
        ]

  issue-find :
      (u : Uuid) (device : String) (t : Time) (h : String) (r : RefreshToken) (p : Platform)
      (w : World) (out : RefreshTokenOutput)
      → (issue l s u device t p w).0 ≡ ok out
      → find (with_hash h) w.db.refresh_tokens ≡ some r
      → find (with_hash h) (issue l s u device t p w).1.db.refresh_tokens ≡ some r
  unfolding issue generate_token ◌>>=◌
  issue-find u device t h r p w out done e =
      elim (result_cases
        (l.sign s.access_secret (claims_of u t access_token_ttl "access" (p.uuid w.draws)))) [
          | inr (_, a) ↦ absurd (ground arith)
          | inl (access, a) ↦
              elim (result_cases (
                l.sign s.refresh_secret
                  (claims_of u t refresh_token_ttl "refresh" (p.uuid (w.draws + 1))))) [
                    | inr (_, b) ↦ absurd (ground arith)
                    | inl (token, b) ↦
                        let row =
                          token_record (p.uuid (w.draws + 2)) u (hash_token l s token) device t in
                        ground
                          (arith, create_lem row h r p (record w { draws = w.draws + 1 + 1 + 1 }))
                  ]
        ]

  module _ (token device : String) (u : Uuid) (p : Platform) (w : World) (out : RefreshTokenOutput)
      (done : (rotate l s token device u p w).0 ≡ ok out) where
    rotate-found : find (with_hash (hash_token l s token)) w.db.refresh_tokens ≢ none
    unfolding rotate Repo.find_by_token_hash ◌>>=◌
    rotate-found absent = ground arith

    module _ (r : RefreshToken)
        (e : find (with_hash (hash_token l s token)) w.db.refresh_tokens ≡ some r) where
      abbrev seen : World
      seen = record w { calls = w.calls + 1; ticks = w.ticks + 1 }

      abbrev after_revocation : Result (Unit {0}) × World
      after_revocation = Repo.revoke_by_id r.id (p.clock w.ticks) p seen

      rotate-revoked : after_revocation.0 ≡ ok tt
      unfolding rotate check_stored Repo.find_by_token_hash ◌>>=◌
      rotate-revoked = elim (result_cases after_revocation.0) [
        | inl (_, a) ↦ a
        | inr (_, a) ↦ absurd (ground arith)
      ]

      rotate-issued :
          rotate l s token device u p w ≡ issue l s u device (p.clock w.ticks) p after_revocation.1
      unfolding rotate check_stored Repo.find_by_token_hash ◌>>=◌
      rotate-issued = let a = rotate-revoked in ground arith

  rotate-spends :
      (token device : String) (u : Uuid) (p : Platform) (w : World) (out : RefreshTokenOutput)
      → (rotate l s token device u p w).0 ≡ ok out
      → Spent (hash_token l s token) (rotate l s token device u p w).1.db
  rotate-spends token device u p w out done =
      elim (Option-cases (find (with_hash (hash_token l s token)) w.db.refresh_tokens)) [
        | inl absent ↦ absurd (rotate-found token device u p w out done absent)
        | inr (r, e) ↦
            let a = rotate-revoked token device u p w out done r e in
            let i = rotate-issued token device u p w out done r e in
            let w₁ = seen token device u p w out done r e in
            let w₂ = (after_revocation token device u p w out done r e).1 in
            let f = revoke_lem (hash_token l s token) r (p.clock w.ticks) p w₁ a e in
            rw i (
              revoked (p.clock w.ticks) r,
              p.clock w.ticks,
              issue-find u device (p.clock w.ticks) (hash_token l s token)
                  (revoked (p.clock w.ticks) r) p w₂ out (ap (λ x. x.0) (sym i) ∙ done) f,
              refl,
            )
      ]

  parse_refresh_token-IsReadOnly : (token : String) → IsReadOnly (parse_refresh_token l s token)
  unfolding parse_refresh_token
  parse_refresh_token-IsReadOnly token = search read_rules depth 12

  -- An exchange that succeeds is a rotation on the same tables.
  Rotates : String → String → Platform → World → Type 0
  Rotates token device p w =
      (u : Uuid) × (v : World) × (v.db ≡ w.db)
      × (exchange l s token device p w ≡ rotate l s token device u p v)

  exchange-rotate :
      (token device : String) (p : Platform) (w : World) (out : RefreshTokenOutput)
      → (exchange l s token device p w).0 ≡ ok out
      → Rotates token device p w
  unfolding exchange Rotates ◌>>=◌
  exchange-rotate token device p w out done =
      elim (result_cases (parse_refresh_token l s token p w).0) [
        | inr (_, e) ↦ absurd (ground arith)
        | inl (claims, e) ↦ elim (Option-cases (parse_user_id_from_claims l s claims)) [
          | inl nobody ↦ absurd (ground arith)
          | inr (u, q) ↦ (
            u,
            (parse_refresh_token l s token p w).1,
            (parse_refresh_token-IsReadOnly token).at p w,
            ground arith,
          )
        ]
      ]

  refresh-exchange :
      (input : RefreshTokenInput) (p : Platform) (w : World) (out : RefreshTokenOutput)
      → (refresh_token_use_case l s input p w).0 ≡ ok out
      → refresh_token_use_case l s input p w
        ≡ exchange l s (trim_space input.refresh_token) (trim_space input.device_id) p w
  unfolding refresh_token_use_case ◌>>=◌
  refresh-exchange input p w out done = ground arith

  refresh-rotate :
      (input : RefreshTokenInput) (p : Platform) (w : World) (out : RefreshTokenOutput)
      → (refresh_token_use_case l s input p w).0 ≡ ok out
      → (u : Uuid) × (v : World) × (v.db ≡ w.db)
        × (refresh_token_use_case l s input p w
            ≡ rotate l s (trim_space input.refresh_token) (trim_space input.device_id) u p v)
  unfolding Rotates
  refresh-rotate input p w out done =
      let e = refresh-exchange input p w out done in
      let (u, v, same, q) =
        exchange-rotate (trim_space input.refresh_token) (trim_space input.device_id) p w out
          (ap (λ x. x.0) (sym e) ∙ done) in
      (u, v, same, e ∙ q)

  refresh-Spent :
      (input : RefreshTokenInput) (q : Platform) (v : World) (out : RefreshTokenOutput)
      → Spent (hash_token l s (trim_space input.refresh_token)) v.db
      → (refresh_token_use_case l s input q v).0 ≢ ok out
  refresh-Spent input q v out spent h =
      let (u, v₁, same, e) = refresh-rotate input q v out h in
      rotate-Spent (trim_space input.refresh_token) (trim_space input.device_id) u q v₁ out
        (subst (λ d. Spent (hash_token l s (trim_space input.refresh_token)) d) (sym same) spent)
        (ap (λ x. x.0) (sym e) ∙ h)

  -- A refresh token that was exchanged is not exchanged a second time: in the tables that the exchange
  -- left, every later request with it fails, from whatever device and whatever the outside answers.
  pub refresh_token_use_case-once :
      (input again : RefreshTokenInput) (p q : Platform) (w v : World)
      (out other : RefreshTokenOutput)
      → trim_space again.refresh_token ≡ trim_space input.refresh_token
      → (refresh_token_use_case l s input p w).0 ≡ ok out
      → v.db ≡ (refresh_token_use_case l s input p w).1.db
      → (refresh_token_use_case l s again q v).0 ≢ ok other
  refresh_token_use_case-once input again p q w v out other same done left =
      let (u, v₁, _, e) = refresh-rotate input p w out done in
      let spent =
        rotate-spends (trim_space input.refresh_token) (trim_space input.device_id) u p v₁ out
          (ap (λ x. x.0) (sym e) ∙ done) in
      refresh-Spent again q v other (
        subst (λ token. Spent (hash_token l s token) v.db) (sym same)
          (subst (λ d. Spent (hash_token l s (trim_space input.refresh_token)) d)
            (sym (left ∙ ap (λ x. x.1.db) e)) spent))

  -- A refresh token that was logged out is not exchanged: in the tables that the logout left, every
  -- request with it fails.
  pub refresh_token_use_case-logout_use_case :
      (input : LogoutInput) (again : RefreshTokenInput) (p q : Platform) (w v : World)
      (other : RefreshTokenOutput)
      → trim_space again.refresh_token ≡ trim_space input.refresh_token
      → (logout_use_case l s input p w).0 ≡ ok tt
      → v.db ≡ (logout_use_case l s input p w).1.db
      → (refresh_token_use_case l s again q v).0 ≢ ok other
  refresh_token_use_case-logout_use_case input again p q w v other same done left =
      refresh-Spent again q v other (
        subst (λ token. Spent (hash_token l s token) v.db) (sym same)
          (subst (λ d. Spent (hash_token l s (trim_space input.refresh_token)) d) (sym left)
            (logout-Spent input p w done)))

-- ===== src/Auth/Spent.antt =====
-- Lookup by hash in the table of refresh tokens (Auth/Repo) after each of its operations.
use mali.Prelude.{
  ◌≡◌, str_eq, eq_iff, subst, sym, true, some, List, [], ◌∷◌, inl, inr, arith, String,
}
use mali.Prelude.Tests.{Bool-cases}
use mali.Prelude.Lists.{find, update, exists}
use mali.Time.{Time}
use mali.Domain.{RefreshToken}
use mali.Store.{Db}
use mali.Context.{ok, Platform, World, ◌>>=◌}
use mali.Auth.Repo
use mali.Auth.Repo.{with_id, with_hash, revoked}

-- The table has the hash, and it is revoked.
abbrev pub Spent : String → Db → Type 0
Spent hash d =
    (r : RefreshToken) × (t : Time) × (find (with_hash hash) d.refresh_tokens ≡ some r)
    × (r.revoked_at ≡ some t)

find-exists :
    (h : String) (rs : List RefreshToken) (r : RefreshToken)
    → find (with_hash h) rs ≡ some r
    → exists (with_hash h) rs ≡ true
unfolding find exists
find-exists h [] r e = cc
find-exists h (x ∷ rs) r e = ground (arith, find-exists h rs r)

pub find-revoked :
    (h : String) (t : Time) (rs : List RefreshToken) (r : RefreshToken)
    → find (with_hash h) rs ≡ some r
    → find (with_hash h) (update (with_id r.id) (revoked t) rs) ≡ some (revoked t r)
unfolding find update
find-revoked h t [] r e = cc
find-revoked h t (x ∷ rs) r e = ground (arith, find-revoked h t rs r)

pub create_lem :
    (token : RefreshToken) (h : String) (r : RefreshToken) (p : Platform) (w : World)
    → (Repo.create token p w).0 ≡ ok tt
    → find (with_hash h) w.db.refresh_tokens ≡ some r
    → find (with_hash h) (Repo.create token p w).1.db.refresh_tokens ≡ some r
unfolding Repo.create ◌>>=◌ find
create_lem token h r p w done e = elim (Bool-cases (str_eq token.token_hash h)) [
  | inl same ↦
      let known = find-exists token.token_hash w.db.refresh_tokens r (
        subst (λ x. find (with_hash x) w.db.refresh_tokens ≡ some r)
          (sym ((eq_iff token.token_hash h).0 same)) e) in
      absurd (ground arith)
  | inr other ↦ ground arith
]

pub revoke_lem :
    (h : String) (r : RefreshToken) (t : Time) (p : Platform) (w : World)
    → (Repo.revoke_by_id r.id t p w).0 ≡ ok tt
    → find (with_hash h) w.db.refresh_tokens ≡ some r
    → find (with_hash h) (Repo.revoke_by_id r.id t p w).1.db.refresh_tokens ≡ some (revoked t r)
unfolding Repo.revoke_by_id ◌>>=◌
revoke_lem h r t p w done e = ground (arith, find-revoked h t w.db.refresh_tokens r e)

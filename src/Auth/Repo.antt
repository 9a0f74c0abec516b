-- ===== src/Auth/Repo.antt =====
-- repository/postgres/refresh_token_repo.go with repository/sqlc/refresh_tokens.sql.go: the table of
-- refresh tokens, whose rows are the records of the domain.
use mali.Prelude.{Bool, some, List, ◌∷◌, ◌||◌, String, str_eq}
use mali.Prelude.Tests.{◌==◌}
use mali.Prelude.Lists.{find, update, exists}
use mali.Time.{Time}
use mali.Domain.{Uuid, RefreshToken}
use mali.Store.{Db}
use mali.Context.{
  Error, unique_violation, wrapped, no_rows_error, M, or_raise, on_error, gets, modify, raise_if,
  call, ◌>>=◌, ◌>>◌,
}

abbrev pub with_id : Uuid → RefreshToken → Bool
with_id id r = r.id == id

abbrev pub with_hash : String → RefreshToken → Bool
with_hash hash r = str_eq r.token_hash hash

abbrev pub set_refresh_tokens : (List RefreshToken → List RefreshToken) → Db → Db
set_refresh_tokens f d = record d { refresh_tokens = f d.refresh_tokens }

abbrev duplicate : Error
duplicate = record {
  sentinel = unique_violation;
  message = "create refresh token: duplicate key value violates unique constraint";
}

-- Ids and hashes are unique in the table.
unfoldable pub create : RefreshToken → M (Unit {0})
unfolding exists
create token = do
  on_error (wrapped "create refresh token") call
  taken ← gets (λ d. exists (with_id token.id) d.refresh_tokens)
  known ← gets (λ d. exists (with_hash token.token_hash) d.refresh_tokens)
  raise_if (taken || known) duplicate
  modify (set_refresh_tokens (λ rows. token ∷ rows))

unfoldable pub find_by_token_hash : String → M RefreshToken
find_by_token_hash hash = do
  on_error (wrapped "find refresh token by hash") call
  found ← gets (λ d. find (with_hash hash) d.refresh_tokens)
  or_raise found (wrapped "find refresh token by hash" no_rows_error)

abbrev pub revoked : Time → RefreshToken → RefreshToken
revoked t r = record r { revoked_at = some t }

unfoldable pub revoke_by_id : Uuid → Time → M (Unit {0})
revoke_by_id id revoked_at = do
  on_error (wrapped "revoke refresh token") call
  modify (set_refresh_tokens (update (with_id id) (revoked revoked_at)))

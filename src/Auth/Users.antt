-- ===== src/Auth/Users.antt =====
-- repository/postgres/user_repo.go with repository/sqlc/users.sql.go: the table of users, whose rows are
-- the records of the domain. Emails and phones are unique in the table, as far as they are set.
use mali.Prelude.{Bool, false, Option, none, some, List, ◌∷◌, ◌||◌, String, str_eq, map}
use mali.Prelude.Tests.{◌==◌}
use mali.Prelude.Lists.{find, update, exists}
use mali.Domain.{Uuid, User}
use mali.Store.{Db}
use mali.Context.{
  Error, unique_violation, wrapped, no_rows_error, M, pure, or_raise, on_error, gets, modify,
  raise_if, now, new_uuid, call, ◌>>=◌, ◌>>◌,
}

-- A comparison with NULL does not hold.
abbrev pub is_text : Option String → String → Bool
is_text none text = false
is_text (some t) text = str_eq t text

abbrev pub with_email : String → User → Bool
with_email email u = is_text u.email email

abbrev pub with_phone : String → User → Bool
with_phone phone u = is_text u.phone phone

abbrev pub with_id : Uuid → User → Bool
with_id id u = u.id == id

abbrev pub set_users : (List User → List User) → Db → Db
set_users f d = record d { users = f d.users }

-- Whether a unique column already has the value.
abbrev pub taken_by : (String → User → Bool) → Option String → List User → Bool
taken_by column none users = false
taken_by column (some value) users = exists (column value) users

abbrev pub duplicate : Error
duplicate = record {
  sentinel = unique_violation;
  message = "create user: duplicate key value violates unique constraint";
}

-- What is stored of a new user.
pub record NewUser : Type 0 where
  pub email : Option String
  pub phone : Option String
  pub name : String
  pub password_hash : Option String

unfoldable pub create : NewUser → M User
unfolding exists
create new = do
  on_error (wrapped "create user") call
  users ← gets (λ d. d.users)
  raise_if (taken_by with_email new.email users || taken_by with_phone new.phone users) duplicate
  id ← new_uuid
  time ← now
  let user : User = record {
    id = id;
    email = new.email;
    phone = new.phone;
    name = new.name;
    password_hash = new.password_hash;
    created_at = time;
    updated_at = time;
  }
  modify (set_users (λ rows. user ∷ rows))
  pure user

unfoldable pub find_by_email : String → M User
find_by_email email = do
  on_error (wrapped "find user by email") call
  found ← gets (λ d. find (with_email email) d.users)
  or_raise found (wrapped "find user by email" no_rows_error)

unfoldable pub find_by_phone : String → M User
find_by_phone phone = do
  on_error (wrapped "find user by phone") call
  found ← gets (λ d. find (with_phone phone) d.users)
  or_raise found (wrapped "find user by phone" no_rows_error)

unfoldable pub find_by_id : Uuid → M User
find_by_id id = do
  on_error (wrapped "find user by id") call
  found ← gets (λ d. find (with_id id) d.users)
  or_raise found (wrapped "find user by id" no_rows_error)

unfoldable pub update_password : Uuid → String → M (Unit {0})
update_password id password_hash = do
  on_error (wrapped "update user password") call
  time ← now
  modify (
      set_users (
        update (with_id id)
          (λ u. record u { password_hash = some password_hash; updated_at = time })))

-- repository/postgres/user_admin_repo.go
unfoldable pub list_user_ids : M (List Uuid)
list_user_ids = do
  on_error (wrapped "list user ids") call
  users ← gets (λ d. d.users)
  pure (map (λ u. u.id) users)

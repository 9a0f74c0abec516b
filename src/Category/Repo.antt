-- ===== src/Category/Repo.antt =====
-- repository/postgres/category_repo.go with repository/sqlc/categories.sql.go: the table of categories,
-- whose rows are the records of the domain. A row without a user is the system's.
use mali.Prelude.{Bool, true, false, none, some, List, ◌∷◌}
use mali.Prelude.Tests.{◌==◌}
use mali.Prelude.Lists.{select, order_by}
use mali.Domain.{Uuid, Category}
use mali.Store.{Db}
use mali.Context.{
  failure, wrapped, Platform, M, pure, or_raise, on_error, gets, modify, new_uuid, platform, call,
  ◌>>=◌, ◌>>◌,
}

abbrev pub is_system : Category → Bool
is_system c = elim c.user_id [ none ↦ true | some _ ↦ false ]

-- A comparison with NULL does not hold.
abbrev pub is_of : Uuid → Category → Bool
is_of user_id c = elim c.user_id [ none ↦ false | some u ↦ u == user_id ]

-- `ORDER BY name ASC`
abbrev pub by_name : Platform → Category → Category → Bool
by_name p c d = p.collate c.name d.name

abbrev pub set_categories : (List Category → List Category) → Db → Db
set_categories f d = record d { categories = f d.categories }

unfoldable pub get_system_categories : M (List Category)
get_system_categories = do
  on_error (wrapped "get system categories") call
  rows ← gets (λ d. select is_system d.categories)
  p ← platform
  pure (order_by (by_name p) rows)

unfoldable pub get_user_categories : Uuid → M (List Category)
get_user_categories user_id = do
  on_error (wrapped "get user categories") call
  rows ← gets (λ d. select (is_of user_id) d.categories)
  p ← platform
  pure (order_by (by_name p) rows)

unfoldable pub create_user_category : Category → M Category
create_user_category category = do
  user_id ← or_raise category.user_id (failure "create user category: user id is required")
  on_error (wrapped "create user category") call
  id ← new_uuid
  let row : Category = record category { id = id; user_id = some user_id }
  modify (set_categories (λ rows. row ∷ rows))
  pure row

-- ===== src/Category/Service.antt =====
-- usecase/category_service.go.
use mali.Prelude.{Bool, true, false, some, ◌&&◌, List, ◌++◌, String, str_eq}
use mali.Prelude.Tests.{not}
use mali.Prelude.Text.{trim_space, to_lower, is_empty}
use mali.Domain.{Uuid, is_nil, Category}
use mali.Context.{
  Error, Result, ok, err, failure, invalid, wrapped, M, pure, on_error, raise_if, ◌>>=◌, ◌>>◌,
}
use mali.Category.Repo

-- Whether the repository is set.
pub record CategoryService : Type 0 where
  pub has_categories : Bool

pub record CreateCategoryInput : Type 0 where
  pub user_id : Uuid
  pub name : String
  pub icon : String
  pub color_hex : String
  pub category_type : String

unfoldable pub new_category_service : Bool → Result CategoryService
new_category_service true = ok (record { has_categories = true })
new_category_service false = err (invalid "category repository is required")

abbrev not_configured : Error
not_configured = failure "category service dependencies are not configured"

module _ (s : CategoryService) where
  unfoldable pub list_categories : Uuid → M (List Category)
  list_categories user_id = do
    raise_if (not s.has_categories) not_configured
    raise_if (is_nil user_id) (invalid "user_id is required")
    system_categories ← on_error (wrapped "get system categories") Repo.get_system_categories
    user_categories ← on_error (wrapped "get user categories") (Repo.get_user_categories user_id)
    pure (system_categories ++ user_categories)

  unfoldable pub create_category : CreateCategoryInput → M Category
  create_category input = do
    raise_if (not s.has_categories) not_configured
    raise_if (is_nil input.user_id) (invalid "user_id is required")
    let name = trim_space input.name
    let icon = trim_space input.icon
    let color_hex = trim_space input.color_hex
    let category_type = to_lower (trim_space input.category_type)
    raise_if (is_empty name) (invalid "category name is required")
    raise_if (is_empty icon) (invalid "category icon is required")
    raise_if (is_empty color_hex) (invalid "category color is required")
    raise_if (not (str_eq category_type "income") && not (str_eq category_type "expense"))
        (invalid "category type must be income or expense")
    on_error (wrapped "create user category") (
        Repo.create_user_category (record {
          id = 0;
          user_id = some input.user_id;
          name = name;
          icon = icon;
          color_hex = color_hex;
          category_type = category_type;
        }))

-- ===== src/Category/Tests.antt =====
-- Categories on concrete inputs.
use mali.Prelude.{ℕ, ◌≡◌, ◌↔◌, ◌⊎◌, refl, true, none, some, [], ◌∷◌, Memᴰ}
use mali.Prelude.Lists.{select, order_by}
use mali.Prelude.Text.{trim_space, to_lower}
use mali.Domain.{Category}
use mali.Context.{ok, World, ◌>>=◌}
use mali.Sample.{steady, world, tables}
use mali.Category.Repo
use mali.Category.Service.{CategoryService, CreateCategoryInput, list_categories, create_category}
use mali.Category.Shown.{list_categories_iff, create_category-list_categories}

abbrev service : CategoryService
service = record { has_categories = true }

abbrev food : Category
food = record {
  id = 71;
  user_id = none;
  name = "Food";
  icon = "restaurant";
  color_hex = "#FF6B6B";
  category_type = "expense";
}

abbrev theirs : Category
theirs = record food { id = 72; user_id = some 2; name = "Beads" }

abbrev seeded : World
seeded = record world { db = record tables { categories = food ∷ theirs ∷ [] } }

abbrev hobby : CreateCategoryInput
hobby = record {
  user_id = 1;
  name = " Chess ";
  icon = "knight";
  color_hex = "#000000";
  category_type = "Expense";
}

abbrev chess : Category
chess = record {
  id = 1000;
  user_id = some 1;
  name = "Chess";
  icon = "knight";
  color_hex = "#000000";
  category_type = "expense";
}

was_made : (create_category service hobby steady seeded).0 ≡ ok chess
unfolding create_category Repo.create_user_category trim_space to_lower ◌>>=◌
was_made = refl

abbrev later_on : World
later_on = (create_category service hobby steady seeded).1

was_listed : (list_categories service 1 steady later_on).0 ≡ ok (food ∷ chess ∷ [])
unfolding list_categories create_category Repo.create_user_category Repo.get_system_categories
    Repo.get_user_categories trim_space to_lower select order_by ◌>>=◌
was_listed = refl

own_before : (list_categories service 2 steady seeded).0 ≡ ok (food ∷ theirs ∷ [])
unfolding list_categories Repo.get_system_categories Repo.get_user_categories select order_by ◌>>=◌
own_before = refl

list_categories_iff_example :
    Memᴰ theirs (food ∷ theirs ∷ [])
    ↔ (Memᴰ theirs seeded.db.categories × ((theirs.user_id ≡ none) ⊎ (theirs.user_id ≡ some 2)))
list_categories_iff_example =
    list_categories_iff service 2 steady seeded (food ∷ theirs ∷ []) own_before theirs

create_category-list_categories_example : Memᴰ chess (food ∷ chess ∷ []) ↔ (◌≡◌ {A = ℕ} 1 1)
create_category-list_categories_example =
    create_category-list_categories service hobby 1 steady steady seeded later_on chess
      (food ∷ chess ∷ []) was_made refl was_listed

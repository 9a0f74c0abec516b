-- ===== src/Category/Shown.antt =====
-- Who is shown a category (Category/Service).
use mali.Prelude.{
  ◌≡◌, ◌≢◌, ◌↔◌, ◌⊎◌, ◌∙◌, refl, sym, ap, subst, inl, inr, true, none, some, List, ◌∷◌, ◌++◌, arith,
  Memᴰ,
}
use mali.Prelude.Tests.{==_iff, Option-cases}
use mali.Prelude.Lists.{select, order_by}
use mali.Prelude.Order.{mem-order_by, order_by-mem, mem-select, select-mem, mem-append, append-mem}
use mali.Domain.{Uuid, Category}
use mali.Context.{ok, Platform, World, ◌>>=◌}
use mali.Category.Repo
use mali.Category.Repo.{is_system, is_of, by_name}
use mali.Category.Service.{CategoryService, CreateCategoryInput, list_categories, create_category}

system_iff : (c : Category) → (is_system c ≡ true) ↔ (c.user_id ≡ none)
system_iff c = ((λ h. ground arith), (λ h. ground arith))

of_iff : (u : Uuid) (c : Category) → (is_of u c ≡ true) ↔ (c.user_id ≡ some u)
of_iff u c = elim (Option-cases c.user_id) [
  | inl e ↦ ((λ h. ground arith), (λ h. ground arith))
  | inr (v, e) ↦ ((λ h. ground (arith, ==_iff v u)), (λ h. ground (arith, ==_iff v u)))
]

module _ (s : CategoryService) (user : Uuid) (p : Platform) (w : World) (out : List Category)
    (done : (list_categories s user p w).0 ≡ ok out) where
  listed :
      out
      ≡ order_by (by_name p) (select is_system w.db.categories)
        ++ order_by (by_name p) (select (is_of user) w.db.categories)
  unfolding list_categories Repo.get_system_categories Repo.get_user_categories ◌>>=◌
  listed = ground arith

  -- A listing that succeeds shows the categories of the system and those of the user, and no others.
  pub list_categories_iff :
      (c : Category)
      → Memᴰ c out ↔ (Memᴰ c w.db.categories × ((c.user_id ≡ none) ⊎ (c.user_id ≡ some user)))
  list_categories_iff c = (
    (λ m. elim (mem-append _ _ (subst (Memᴰ c) listed m)) [
      | inl n ↦
          let (k, q) = mem-select is_system w.db.categories (mem-order_by (by_name p) _ n) in
          (k, inl ((system_iff c).0 q))
      | inr n ↦
          let (k, q) = mem-select (is_of user) w.db.categories (mem-order_by (by_name p) _ n) in
          (k, inr ((of_iff user c).0 q))
    ]),
    (λ (m, own). subst (Memᴰ c) (sym listed) (
        append-mem _ _ (elim own [
          | inl e ↦ inl (
              order_by-mem (by_name p) _
                (select-mem is_system w.db.categories m ((system_iff c).1 e)))
          | inr e ↦ inr (
              order_by-mem (by_name p) _
                (select-mem (is_of user) w.db.categories m ((of_iff user c).1 e)))
        ]))),
  )

create_category_ok :
    (s : CategoryService) (input : CreateCategoryInput) (p : Platform) (w : World) (c : Category)
    → (create_category s input p w).0 ≡ ok c
    → (c.user_id ≡ some input.user_id)
      × ((create_category s input p w).1.db.categories ≡ c ∷ w.db.categories)
unfolding create_category Repo.create_user_category ◌>>=◌
create_category_ok s input p w c h = (ground arith, ground arith)

none-ne-some : {u : Uuid} → none ≢ some u
none-ne-some e = cc

same_some : {u v : Uuid} → some u ≡ some v → u ≡ v
same_some e = cc

-- A category that a user has made is shown to that user, and to nobody else, in every listing that
-- succeeds on the categories that its making left.
pub create_category-list_categories :
    (s : CategoryService) (input : CreateCategoryInput) (user : Uuid) (p q : Platform) (w v : World)
    (c : Category) (out : List Category)
    → (create_category s input p w).0 ≡ ok c
    → v.db.categories ≡ (create_category s input p w).1.db.categories
    → (list_categories s user q v).0 ≡ ok out
    → Memᴰ c out ↔ (user ≡ input.user_id)
create_category-list_categories s input user p q w v c out made left done =
    let (owner, added) = create_category_ok s input p w c made in
    let (to, from) = list_categories_iff s user q v out done c in
    (
      (λ m. elim (to m).1 [
        | inl e ↦ absurd (none-ne-some (sym e ∙ owner))
        | inr e ↦ same_some (sym e ∙ owner)
      ]),
      (λ e.
          from
            (subst (Memᴰ c) (sym (left ∙ added)) (Memᴰ.head refl), inr (owner ∙ ap some (sym e)))),
    )

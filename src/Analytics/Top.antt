-- ===== src/Analytics/Top.antt =====
-- The top categories are those with the greatest amounts (Analytics/Service).
use mali.Prelude.{
  Bool, ℕ, zero, suc, ◌≤◌, ◌≡◌, ◌⊎◌, refl, sym, ap, subst, inl, inr, true, List, [], ◌∷◌, ◌++◌, map,
  String, arith, Memᴰ, Perm,
}
use mali.Prelude.Tests.{Option-cases}
use mali.Prelude.Lists.{order_by, take, length, length-take_le}
use mali.Prelude.Order.{
  IsOrder, IsOrdered, order_by-IsOrdered, order_by-perm, order_by-congr, IsOrdered-append,
}
use mali.Prelude.Pages.{drop_after, take-append-drop_after}
use mali.Rat.{Rat, IsRat, lt, le, of_ℕ}
use mali.Rat.Order.{AtMost, lt-AtMost, AtMost-lt, le-AtMost, lt_asymm, AtMost-trans}
use mali.Rat.Text.{set_string}
use mali.Rat.Text.Valid.{set_string-IsRat}
use mali.Context.{Result, ok, err}
use mali.Context.Success.{result_cases}
use mali.Amount.{parse_amount}
use mali.Analytics.Repo.{CategoryBreakdown}
use mali.Analytics.Service.{greater, category_summary, map_top_categories}

-- The amount of a category is the number that its text stands for.
abbrev pub IsAmount : CategoryBreakdown → Rat → Type 0
IsAmount b x = parse_amount b.total_amount ≡ ok x

abbrev pub AllReadable : List CategoryBreakdown → Type 0
AllReadable items = (b : CategoryBreakdown) → Memᴰ b items → (x : Rat) × IsAmount b x

-- The number of a category's text, 0 where it cannot be read.
pub or_zero : Result Rat → Rat
or_zero (ok x) = x
or_zero (err e) = of_ℕ 0

pub value : CategoryBreakdown → Rat
value b = or_zero (parse_amount b.total_amount)

parse_amount-IsRat : (s : String) (x : Rat) → parse_amount s ≡ ok x → IsRat x
unfolding parse_amount
parse_amount-IsRat s x h = elim (Option-cases (set_string s)) [
  | inl e ↦ absurd (ground arith)
  | inr (y, e) ↦ ground (arith, set_string-IsRat s y e)
]

value-IsRat : (b : CategoryBreakdown) → IsRat (value b)
unfolding value or_zero
value-IsRat b = elim (result_cases (parse_amount b.total_amount)) [
  | inl (x, e) ↦ rw e (parse_amount-IsRat b.total_amount x e)
  | inr (x, e) ↦ rw e (omega arith)
]

pub by_value : CategoryBreakdown → CategoryBreakdown → Bool
by_value a b = lt (value b) (value a)

by_value-IsOrder : IsOrder by_value
unfolding by_value
by_value-IsOrder = record {
  one_way = λ a b h. lt_asymm (value a) (value b) h;
  follows = λ a b c h k. AtMost-lt (value a) (value c) (
      AtMost-trans (value a) (value b) (value c) (value-IsRat b) (lt-AtMost (value a) (value b) h)
        (lt-AtMost (value b) (value c) k));
}

greater-by_value :
    (a b : CategoryBreakdown) (x y : Rat) → IsAmount a x → IsAmount b y → greater a b ≡ by_value a b
unfolding greater by_value value or_zero
greater-by_value a b x y e f = rw (e, f)

read-value : (b : CategoryBreakdown) (x : Rat) → IsAmount b x → value b ≡ x
unfolding value or_zero
read-value b x e = rw e

filled : {A : Type 0} (n : ℕ) (xs : List A) → (drop_after n xs ≡ []) ⊎ (length (take n xs) ≡ n)
unfolding drop_after
filled zero xs = inr refl
filled (suc n) [] = inl refl
filled (suc n) (x ∷ xs) = elim (filled n xs) [ inl e ↦ inl e | inr e ↦ inr (omega arith) ]

-- A choice of at most `limit` categories: they are shown from the greatest amount down, all the others are
-- hidden and have no greater amount than any that is shown, and none is hidden while there is room.
pub record IsTop (items : List CategoryBreakdown) (limit : ℕ)
    (shown hidden : List CategoryBreakdown) : Type 0 where
  pub all : Perm (shown ++ hidden) items
  pub fits : length shown ≤ limit
  pub full : (hidden ≡ []) ⊎ (length shown ≡ limit)
  pub descending : IsOrdered by_value shown
  pub greatest :
      (a b : CategoryBreakdown) (x y : Rat)
      → Memᴰ a shown
      → Memᴰ b hidden
      → IsAmount a x
      → IsAmount b y
      → le y x ≡ true

module _ (items : List CategoryBreakdown) (limit : ℕ) (readable : AllReadable items) where
  ranked : order_by greater items ≡ order_by by_value items
  ranked = order_by-congr greater by_value items (λ a b m n.
      let (x, e) = readable a m in let (y, f) = readable b n in greater-by_value a b x y e f)

  abbrev sorted : List CategoryBreakdown
  sorted = order_by by_value items

  in_order : IsOrdered by_value (take limit sorted ++ drop_after limit sorted)
  in_order =
      subst (IsOrdered by_value) (sym (take-append-drop_after limit sorted))
        (order_by-IsOrdered by_value by_value-IsOrder items)

  room : (drop_after limit sorted ≡ []) ⊎ (length (take limit sorted) ≡ limit)
  room = filled limit sorted

  no_greater :
      (a b : CategoryBreakdown) (x y : Rat)
      → Memᴰ a (take limit sorted)
      → Memᴰ b (drop_after limit sorted)
      → IsAmount a x
      → IsAmount b y
      → le y x ≡ true
  unfolding by_value
  no_greater a b x y m n e f =
      let above =
        (IsOrdered-append by_value (take limit sorted) (drop_after limit sorted) in_order).1 a b m
          n in
      le-AtMost y x (
        subst (λ v. AtMost y v) (read-value a x e)
          (subst (λ v. AtMost v (value a)) (read-value b y f)
            (lt-AtMost (value b) (value a) above)))

  -- As long as all amounts can be read, what is shown are the categories with the greatest amounts, from
  -- the greatest down: as many as there are, up to the limit.
  pub map_top_categories-IsTop :
      (shown : List CategoryBreakdown) × (hidden : List CategoryBreakdown) × (map_top_categories
          items limit
        ≡ map category_summary shown)
      × IsTop items limit shown hidden
  unfolding map_top_categories
  map_top_categories-IsTop = (
    take limit sorted,
    drop_after limit sorted,
    ap (λ xs. map category_summary (take limit xs)) ranked,
    record {
      all =
          subst (λ xs. Perm xs items) (sym (take-append-drop_after limit sorted))
            (order_by-perm by_value items);
      fits = length-take_le limit sorted;
      full = room;
      descending =
          (IsOrdered-append by_value (take limit sorted) (drop_after limit sorted) in_order).0;
      greatest = no_greater;
    },
  )

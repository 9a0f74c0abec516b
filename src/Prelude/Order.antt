-- ===== src/Prelude/Order.antt =====
-- What sorting does: it keeps the elements, and none comes before one that precedes it.
use mathlib.Core.Path.{◌≡◌, refl, subst, sym, ap, ◌∙◌}
use mathlib.Core.Logic.{◌⊎◌, inl, inr}
use mathlib.Core.Bool.{Bool, true, false, false≢true}
use native.Mathlib.Omega.{arith}
use mathlib.Core.List.{List, [], ◌∷◌, ◌++◌, map, Memᴰ, Perm}
use mathlib.Core.List.Perm
use mali.Prelude.Tests.{Bool-cases, if◌then◌else◌}
use mali.Prelude.Lists.{select, exists, distinct, insert_by, order_by}

-- A strict weak order: it goes one way, and what precedes neither of two neighbours is no exception.
pub record IsOrder {ℓ} {A : Type ℓ} (precedes : A → A → Bool) : Type ℓ where
  pub one_way : (a b : A) → precedes a b ≡ true → precedes b a ≡ false
  pub follows : (a b c : A) → precedes a b ≡ false → precedes b c ≡ false → precedes a c ≡ false

-- No element is preceded by a later one.
abbrev pub IsOrdered {ℓ} : {A : Type ℓ} → (A → A → Bool) → List A → Type ℓ
IsOrdered precedes [] = Unit
IsOrdered precedes (x ∷ xs) = ((y : _) → Memᴰ y xs → precedes y x ≡ false) × IsOrdered precedes xs

module _ {ℓ} {A : Type ℓ} (precedes : A → A → Bool) where
  pub insert_by-perm : (x : A) (ys : List A) → Perm (insert_by precedes x ys) (x ∷ ys)
  unfolding insert_by
  insert_by-perm x [] = Perm.rfl
  insert_by-perm x (y ∷ ys) = elim (Bool-cases (precedes y x)) [
    | inl e ↦ rw (e, insert_by) (Perm.trans (Perm.cons y (insert_by-perm x ys)) (Perm.swap x y ys))
    | inr e ↦ rw (e, insert_by) Perm.rfl
  ]

  pub order_by-perm : (xs : List A) → Perm (order_by precedes xs) xs
  unfolding order_by
  order_by-perm [] = Perm.rfl
  order_by-perm (x ∷ xs) =
      Perm.trans (insert_by-perm x (order_by precedes xs)) (Perm.cons x (order_by-perm xs))

  mem-insert_by :
      (x : A) (ys : List A) {y : A} → Memᴰ y (insert_by precedes x ys) → (y ≡ x) ⊎ Memᴰ y ys
  unfolding insert_by
  mem-insert_by x [] (Memᴰ.head e) = inl e
  mem-insert_by x [] (Memᴰ.tail m) = elim m [ ]
  mem-insert_by x (z ∷ ys) {y} m = elim (Bool-cases (precedes z x)) [
    | inl e ↦
        behind (subst (λ b. Memᴰ y (if b then z ∷ insert_by precedes x ys else x ∷ z ∷ ys)) e m)
          (mem-insert_by x ys)
    | inr e ↦
        before (subst (λ b. Memᴰ y (if b then z ∷ insert_by precedes x ys else x ∷ z ∷ ys)) e m)
  ]
    where
      behind :
          Memᴰ y (z ∷ insert_by precedes x ys)
          → (Memᴰ y (insert_by precedes x ys) → (y ≡ x) ⊎ Memᴰ y ys)
          → (y ≡ x) ⊎ Memᴰ y (z ∷ ys)
      behind (Memᴰ.head e) k = inr (Memᴰ.head e)
      behind (Memᴰ.tail n) k = elim (k n) [ inl e ↦ inl e | inr o ↦ inr (Memᴰ.tail o) ]

      before : Memᴰ y (x ∷ z ∷ ys) → (y ≡ x) ⊎ Memᴰ y (z ∷ ys)
      before (Memᴰ.head e) = inl e
      before (Memᴰ.tail n) = inr n

  insert_by-mem :
      (x : A) (ys : List A) {y : A} → (y ≡ x) ⊎ Memᴰ y ys → Memᴰ y (insert_by precedes x ys)
  unfolding insert_by
  insert_by-mem x [] (inl e) = Memᴰ.head e
  insert_by-mem x [] (inr m) = elim m [ ]
  insert_by-mem x (z ∷ ys) m = elim (Bool-cases (precedes z x)) [
    | inl e ↦ rw (e, insert_by) (behind m (insert_by-mem x ys))
    | inr e ↦ rw (e, insert_by) (before m)
  ]
    where
      behind :
          {y : A}
          → (y ≡ x) ⊎ Memᴰ y (z ∷ ys)
          → ((y ≡ x) ⊎ Memᴰ y ys → Memᴰ y (insert_by precedes x ys))
          → Memᴰ y (z ∷ insert_by precedes x ys)
      behind (inl e) k = Memᴰ.tail (k (inl e))
      behind (inr (Memᴰ.head e)) k = Memᴰ.head e
      behind (inr (Memᴰ.tail n)) k = Memᴰ.tail (k (inr n))

      before : {y : A} → (y ≡ x) ⊎ Memᴰ y (z ∷ ys) → Memᴰ y (x ∷ z ∷ ys)
      before (inl e) = Memᴰ.head e
      before (inr n) = Memᴰ.tail n

  pub mem-order_by : (xs : List A) {y : A} → Memᴰ y (order_by precedes xs) → Memᴰ y xs
  unfolding order_by
  mem-order_by (x ∷ xs) m = elim (mem-insert_by x (order_by precedes xs) m) [
    | inl e ↦ Memᴰ.head e
    | inr n ↦ Memᴰ.tail (mem-order_by xs n)
  ]
  mem-order_by [] m = m

  pub order_by-mem : (xs : List A) {y : A} → Memᴰ y xs → Memᴰ y (order_by precedes xs)
  unfolding order_by
  order_by-mem [] m = elim m [ ]
  order_by-mem (x ∷ xs) (Memᴰ.head e) = insert_by-mem x (order_by precedes xs) (inl e)
  order_by-mem (x ∷ xs) (Memᴰ.tail n) =
      insert_by-mem x (order_by precedes xs) (inr (order_by-mem xs n))

  module _ (o : IsOrder precedes) where
    headed :
        (x z : A) (ys : List A)
        → ((y : A) → Memᴰ y ys → precedes y z ≡ false)
        → precedes z x ≡ false
        → (y : A) → Memᴰ y (z ∷ ys)
        → precedes y x ≡ false
    headed x z ys below e y (Memᴰ.head q) = subst (λ v. precedes v x ≡ false) (sym q) e
    headed x z ys below e y (Memᴰ.tail n) = o.follows y z x (below y n) e

    insert_by-IsOrdered :
        (x : A) (ys : List A) → IsOrdered precedes ys → IsOrdered precedes (insert_by precedes x ys)
    unfolding insert_by
    insert_by-IsOrdered x [] s = ((λ y m. elim m [ ]), tt)
    insert_by-IsOrdered x (z ∷ ys) (below, s) = elim (Bool-cases (precedes z x)) [
      | inl e ↦
          rw (e, insert_by)
            (
              (λ y m. elim (mem-insert_by x ys m) [
                | inl q ↦ subst (λ v. precedes v z ≡ false) (sym q) (o.one_way z x e)
                | inr n ↦ below y n
              ]),
              insert_by-IsOrdered x ys s,
            )
      | inr e ↦ rw (e, insert_by) ((λ y m. headed x z ys below e y m), (below, s))
    ]

    pub order_by-IsOrdered : (xs : List A) → IsOrdered precedes (order_by precedes xs)
    unfolding order_by
    order_by-IsOrdered [] = tt
    order_by-IsOrdered (x ∷ xs) = insert_by-IsOrdered x _ (order_by-IsOrdered xs)

module _ {ℓ} {A : Type ℓ} (p : A → Bool) where
  pub mem-select : (xs : List A) {y : A} → Memᴰ y (select p xs) → Memᴰ y xs × (p y ≡ true)
  unfolding select
  mem-select (x ∷ xs) {y} m = elim (Bool-cases (p x)) [
    | inl e ↦
        kept e (subst (λ b. Memᴰ y (if b then x ∷ select p xs else select p xs)) e m)
          (mem-select xs)
    | inr e ↦
        let (n, q) =
          mem-select xs (subst (λ b. Memᴰ y (if b then x ∷ select p xs else select p xs)) e m) in
        (Memᴰ.tail n, q)
  ]
    where
      kept :
          p x ≡ true
          → Memᴰ y (x ∷ select p xs)
          → (Memᴰ y (select p xs) → Memᴰ y xs × (p y ≡ true))
          → Memᴰ y (x ∷ xs) × (p y ≡ true)
      kept e (Memᴰ.head q) k = (Memᴰ.head q, subst (λ v. p v ≡ true) (sym q) e)
      kept e (Memᴰ.tail n) k = let (o, q) = k n in (Memᴰ.tail o, q)
  mem-select [] m = elim m [ ]

  pub select-mem : (xs : List A) {y : A} → Memᴰ y xs → p y ≡ true → Memᴰ y (select p xs)
  unfolding select
  select-mem [] m h = elim m [ ]
  select-mem (x ∷ xs) {y} (Memᴰ.head e) h =
      let q : p x ≡ true = subst (λ v. p v ≡ true) e h in rw (q, select) (Memᴰ.head e)
  select-mem (x ∷ xs) {y} (Memᴰ.tail n) h = elim (Bool-cases (p x)) [
    | inl e ↦ rw (e, select) (Memᴰ.tail (select-mem xs n h))
    | inr e ↦ rw (e, select) (select-mem xs n h)
  ]

-- An element of a list is its head, or stands further on.
pub mem-cons_cases {ℓ κ} :
    {A : Type ℓ} {B : Type κ} {x y : A} {ys : List A}
    → Memᴰ x (y ∷ ys)
    → (x ≡ y → B)
    → (Memᴰ x ys → B)
    → B
mem-cons_cases (Memᴰ.head e) f g = f e
mem-cons_cases (Memᴰ.tail m) f g = g m

module _ {ℓ} {A : Type ℓ} where
  pub mem-append : (xs ys : List A) {x : A} → Memᴰ x (xs ++ ys) → Memᴰ x xs ⊎ Memᴰ x ys
  mem-append [] ys m = inr m
  mem-append (z ∷ xs) ys (Memᴰ.head e) = inl (Memᴰ.head e)
  mem-append (z ∷ xs) ys (Memᴰ.tail m) = elim (mem-append xs ys m) [
    | inl n ↦ inl (Memᴰ.tail n)
    | inr n ↦ inr n
  ]

  pub append-mem : (xs ys : List A) {x : A} → Memᴰ x xs ⊎ Memᴰ x ys → Memᴰ x (xs ++ ys)
  append-mem [] ys (inl m) = elim m [ ]
  append-mem [] ys (inr m) = m
  append-mem (z ∷ xs) ys (inl (Memᴰ.head e)) = Memᴰ.head e
  append-mem (z ∷ xs) ys (inl (Memᴰ.tail m)) = Memᴰ.tail (append-mem xs ys (inl m))
  append-mem (z ∷ xs) ys (inr m) = Memᴰ.tail (append-mem xs ys (inr m))

-- An order counts only on the elements that are there.
module _ {ℓ} {A : Type ℓ} (precedes rank : A → A → Bool) where
  insert_by-congr :
      (x : A) (ys : List A)
      → ((y : A) → Memᴰ y ys → precedes y x ≡ rank y x)
      → insert_by precedes x ys ≡ insert_by rank x ys
  unfolding insert_by
  insert_by-congr x [] h = refl
  insert_by-congr x (y ∷ ys) h =
      rw (h y (Memᴰ.head refl), insert_by-congr x ys (λ z m. h z (Memᴰ.tail m))) refl

  pub order_by-congr :
      (xs : List A)
      → ((x y : A) → Memᴰ x xs → Memᴰ y xs → precedes x y ≡ rank x y)
      → order_by precedes xs ≡ order_by rank xs
  unfolding order_by
  order_by-congr [] h = refl
  order_by-congr (x ∷ xs) h =
      rw (order_by-congr xs (λ y z m n. h y z (Memᴰ.tail m) (Memᴰ.tail n))) (
        insert_by-congr x (order_by rank xs)
          (λ y m. h y x (Memᴰ.tail (mem-order_by rank xs m)) (Memᴰ.head refl)))

-- What stands in front of an ordered list is not preceded by what stands behind.
pub IsOrdered-append {ℓ} :
    {A : Type ℓ} (precedes : A → A → Bool) (xs ys : List A)
    → IsOrdered precedes (xs ++ ys)
    → IsOrdered precedes xs × ((x y : A) → Memᴰ x xs → Memᴰ y ys → precedes y x ≡ false)
IsOrdered-append precedes [] ys o = (tt, λ x y m n. elim m [ ])
IsOrdered-append precedes (z ∷ xs) ys (below, o) =
    let (front, behind) = IsOrdered-append precedes xs ys o in
    (
      ((λ y m. below y (append-mem xs ys (inl m))), front),
      λ x y m n.
          mem-cons_cases m
            (λ e. subst (λ v. precedes y v ≡ false) (sym e) (below y (append-mem xs ys (inr n))))
            (λ k. behind x y k n),
    )

module _ {ℓ} {A : Type ℓ} (same : A → A → Bool) where
  pub mem-distinct : (xs : List A) {x : A} → Memᴰ x (distinct same xs) → Memᴰ x xs
  unfolding distinct
  mem-distinct [] m = m
  mem-distinct (z ∷ xs) {x} m = elim (Bool-cases (exists (same z) (distinct same xs))) [
    | inl e ↦ Memᴰ.tail (
        mem-distinct xs
          (subst (λ b. Memᴰ x (if b then distinct same xs else z ∷ distinct same xs)) e m))
    | inr e ↦
        mem-cons_cases
          (subst (λ b. Memᴰ x (if b then distinct same xs else z ∷ distinct same xs)) e m)
          (λ q. Memᴰ.head q) (λ n. Memᴰ.tail (mem-distinct xs n))
  ]

  exists-mem :
      (p : A → Bool) (xs : List A) → exists p xs ≡ true → (x : A) × Memᴰ x xs × (p x ≡ true)
  unfolding exists
  exists-mem p [] h = absurd (false≢true h)
  exists-mem p (x ∷ xs) h = elim (Bool-cases (p x)) [
    | inl e ↦ (x, Memᴰ.head refl, e)
    | inr e ↦ let (y, m, q) = exists-mem p xs (ground arith) in (y, Memᴰ.tail m, q)
  ]

  -- Where the same is equal, no element is lost.
  pub distinct-mem :
      ((a b : A) → same a b ≡ true → a ≡ b)
      → (xs : List A) {x : A} → Memᴰ x xs
      → Memᴰ x (distinct same xs)
  unfolding distinct
  distinct-mem eq [] m = m
  distinct-mem eq (z ∷ xs) {x} m = elim (Bool-cases (exists (same z) (distinct same xs))) [
    | inl e ↦
        rw (e, distinct)
          (mem-cons_cases m
            (λ q.
              let (y, n, k) = exists-mem (same z) (distinct same xs) e in
              subst (λ v. Memᴰ v (distinct same xs)) (sym (eq z y k) ∙ sym q) n)
            (distinct-mem eq xs))
    | inr e ↦
        rw (e, distinct)
          (mem-cons_cases m (λ q. Memᴰ.head q) (λ n. Memᴰ.tail (distinct-mem eq xs n)))
  ]

module _ {ℓ κ} {A : Type ℓ} {B : Type κ} (f : A → B) where
  pub map-mem : (xs : List A) {x : A} → Memᴰ x xs → Memᴰ (f x) (map f xs)
  map-mem [] m = elim m [ ]
  map-mem (z ∷ xs) (Memᴰ.head e) = Memᴰ.head (ap f e)
  map-mem (z ∷ xs) (Memᴰ.tail m) = Memᴰ.tail (map-mem xs m)

  pub mem-map : (xs : List A) {y : B} → Memᴰ y (map f xs) → (x : A) × Memᴰ x xs × (y ≡ f x)
  mem-map [] m = elim m [ ]
  mem-map (z ∷ xs) (Memᴰ.head e) = (z, Memᴰ.head refl, e)
  mem-map (z ∷ xs) (Memᴰ.tail m) = let (x, n, q) = mem-map xs m in (x, Memᴰ.tail n, q)

-- ===== src/Prelude/Pages.antt =====
-- Pages: a first part of a list, of which one more element was asked for than fits.
use Prim.Native.Nat.{ℕ, zero, suc, ◌≤◌, ◌<◌}
use mathlib.Core.Path.{◌≡◌, refl}
use mathlib.Core.Logic.{◌≢◌}
use mathlib.Core.List.{List, [], ◌∷◌, ◌++◌}
use mathlib.Core.Option.{some}
use native.Mathlib.Omega.{arith}
use mali.Prelude.Lists.{length, take, get_elem?}

module _ {A : Type 0} where
  pub get_elem?-last :
      (n : ℕ) (rows : List A)
      → n < length rows
      → (front : List A) × (t : A) × (take (suc n) rows ≡ front ++ t ∷ [])
        × (get_elem? rows n ≡ some t)
  get_elem?-last n [] h = absurd (omega arith)
  get_elem?-last zero (t ∷ rows) h = ([], t, refl, refl)
  get_elem?-last (suc n) (x ∷ rows) h =
      let (front, t, e, q) = get_elem?-last n rows (omega arith) in (x ∷ front, t, rw e, q)

  pub length-take_lt : (n : ℕ) (rows : List A) → n < length rows → length (take n rows) ≡ n
  length-take_lt zero rows h = refl
  length-take_lt (suc n) [] h = absurd (omega arith)
  length-take_lt (suc n) (x ∷ rows) h = omega (arith, length-take_lt n rows (omega arith))

  unfoldable pub drop_after : ℕ → List A → List A
  drop_after zero rows = rows
  drop_after (suc n) [] = []
  drop_after (suc n) (t ∷ rows) = drop_after n rows

  pub take-append-drop_after : (n : ℕ) (rows : List A) → take n rows ++ drop_after n rows ≡ rows
  unfolding drop_after
  take-append-drop_after zero rows = refl
  take-append-drop_after (suc n) [] = refl
  take-append-drop_after (suc n) (t ∷ rows) = rw (take-append-drop_after n rows)

  pub drop_after-ne-nil : (n : ℕ) (rows : List A) → n < length rows → drop_after n rows ≢ []
  unfolding drop_after
  drop_after-ne-nil zero [] h = absurd (omega arith)
  drop_after-ne-nil zero (t ∷ rows) h = λ e. cc
  drop_after-ne-nil (suc n) [] h = absurd (omega arith)
  drop_after-ne-nil (suc n) (t ∷ rows) h = drop_after-ne-nil n rows (omega arith)

  -- Of a list that is cut off behind one element more, the same page is taken.
  pub take-take : (n : ℕ) (rows : List A) → take n (take (suc n) rows) ≡ take n rows
  take-take zero rows = refl
  take-take (suc n) [] = refl
  take-take (suc n) (x ∷ rows) = rw (take-take n rows)

  pub take-all : (n : ℕ) (rows : List A) → length rows ≤ n → take n rows ≡ rows
  take-all zero [] h = refl
  take-all zero (x ∷ rows) h = absurd (omega arith)
  take-all (suc n) [] h = refl
  take-all (suc n) (x ∷ rows) h = rw (take-all n rows (omega arith))

  pub length-take-suc : (n : ℕ) (rows : List A) → length (take (suc n) rows) ≤ n → length rows ≤ n
  length-take-suc zero [] h = omega arith
  length-take-suc zero (x ∷ rows) h = absurd (omega arith)
  length-take-suc (suc n) [] h = omega arith
  length-take-suc (suc n) (x ∷ rows) h = omega (arith, length-take-suc n rows (omega arith))

  pub length-take-suc_lt :
      (n : ℕ) (rows : List A) → n < length (take (suc n) rows) → n < length rows
  length-take-suc_lt zero [] h = absurd (omega arith)
  length-take-suc_lt zero (x ∷ rows) h = omega arith
  length-take-suc_lt (suc n) [] h = absurd (omega arith)
  length-take-suc_lt (suc n) (x ∷ rows) h = omega (arith, length-take-suc_lt n rows (omega arith))

  pub get_elem?-take :
      (i n : ℕ) (rows : List A) → i < n → get_elem? (take n rows) i ≡ get_elem? rows i
  get_elem?-take i zero rows h = absurd (omega arith)
  get_elem?-take i (suc n) [] h = refl
  get_elem?-take zero (suc n) (x ∷ rows) h = refl
  get_elem?-take (suc i) (suc n) (x ∷ rows) h = get_elem?-take i n rows (omega arith)

-- ===== src/Transaction/Pages.antt =====
-- The pages of a listing (Transaction/Listing).
use mali.Prelude.{
  ℕ, zero, suc, ◌≤◌, ◌≡◌, ◌≢◌, refl, some, none, List, [], ◌∷◌, ◌++◌, ◌⊎◌, inl, inr, arith,
}
use mathlib.Core.List.{append-nil}
use mali.Prelude.Tests.{ltb, Bool-cases}
use mali.Prelude.Lists.{length}
use mali.Prelude.Pages.{
  get_elem?-last, length-take_lt, drop_after, take-append-drop_after, drop_after-ne-nil,
}
use mali.Domain.{Transaction}
use mali.Transaction.Service.{ListTransactionsOutput}
use mali.Transaction.Listing.{clamp_limit, page}

-- The limit that is used lies between 1 and 200.
clamp_limit_bounds : (n : ℕ) → (1 ≤ clamp_limit n) × (clamp_limit n ≤ 200)
clamp_limit_bounds n = ground arith

-- The rows that a page leaves for later: none, and then there is no cursor, or some, and then the page is
-- full and the cursor is the time and the id of its last row.
abbrev pub Continues : ℕ → List Transaction → ListTransactionsOutput → Type 0
Continues limit later out =
    (later ≡ []) × (out.next_cursor ≡ none)
    ⊎ ((front : List Transaction) × (last : Transaction) × (out.transactions ≡ front ++ last ∷ [])
        × (out.next_cursor ≡ some (record { transacted_at = last.transacted_at; id = last.id }))
        × (length out.transactions ≡ limit)
        × (later ≢ []))

-- A page is a first part of the rows that the query gave, never longer than the limit. Either nothing is
-- left and there is no cursor, or the page is full and the cursor names its last row.
pub page-Continues :
    (limit : ℕ) (rows : List Transaction)
    → 1 ≤ limit
    → (later : List Transaction) × ((page limit rows).transactions ++ later ≡ rows)
      × (length (page limit rows).transactions ≤ limit)
      × Continues limit later (page limit rows)
unfolding page
page-Continues zero rows h = absurd (omega arith)
page-Continues (suc n) rows h = elim (Bool-cases (ltb (suc n) (length rows))) [
  | inl more ↦
      let (front, t, e, q) = get_elem?-last n rows (ground arith) in
      (
        drop_after (suc n) rows,
        rw more (take-append-drop_after (suc n) rows),
        rw more (omega (arith, length-take_lt (suc n) rows (ground arith))),
        rw more (
            inr (
              front,
              t,
              e,
              ground (arith, q),
              length-take_lt (suc n) rows (ground arith),
              drop_after-ne-nil (suc n) rows (ground arith),
            )),
      )
  | inr done ↦ ([], rw done (append-nil rows), rw done (ground arith), rw done (inl (refl, refl)))
]

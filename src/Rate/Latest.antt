-- ===== src/Rate/Latest.antt =====
-- Which rate is the latest (Rate/Repo).
use mali.Prelude.{◌≤◌, ◌≡◌, true, some, List, [], ◌∷◌, String, arith, Memᴰ}
use mali.Prelude.Lists.{select, order_by, head?}
use mali.Prelude.Order.{
  IsOrder, IsOrdered, order_by-IsOrdered, mem-order_by, order_by-mem, mem-select, select-mem,
}
use mali.Domain.{Uuid}
use mali.Store.{RateRow}
use mali.Rate.Repo.{for_pair, later, latest}

later-IsOrder : IsOrder later
later-IsOrder = record { one_way = λ a b h. ground arith; follows = λ a b c h k. ground arith }

-- The row is one of the user's for the pair, and none of these is later.
pub record IsNewest (user_id : Uuid) (from_currency to_currency : String) (rows : List RateRow)
    (r : RateRow) : Type 0 where
  pub listed : Memᴰ r rows
  pub of_pair : for_pair user_id from_currency to_currency r ≡ true
  pub newest :
      (s : RateRow)
      → Memᴰ s rows
      → for_pair user_id from_currency to_currency s ≡ true
      → s.valid_at ≤ r.valid_at

module _ (user_id : Uuid) (from_currency to_currency : String) where
  head-newest :
      (xs : List RateRow) (r s : RateRow)
      → IsOrdered later xs
      → head? xs ≡ some r
      → Memᴰ s xs
      → s.valid_at ≤ r.valid_at
  head-newest [] r s o e m = elim m [ ]
  head-newest (x ∷ xs) r s o e (Memᴰ.head q) = rw q (ground arith)
  head-newest (x ∷ xs) r s o e (Memᴰ.tail n) = let h = o.0 s n in ground arith

  head-mem : (xs : List RateRow) (r : RateRow) → head? xs ≡ some r → Memᴰ r xs
  head-mem [] r e = absurd (cc)
  head-mem (x ∷ xs) r e = Memᴰ.head (cc)

  pub latest-IsNewest :
      (rows : List RateRow) (r : RateRow)
      → latest user_id from_currency to_currency rows ≡ some r
      → IsNewest user_id from_currency to_currency rows r
  unfolding latest
  latest-IsNewest rows r e =
      let chosen = select (for_pair user_id from_currency to_currency) rows in
      let (m, q) =
        mem-select (for_pair user_id from_currency to_currency) rows
          (mem-order_by later chosen (head-mem (order_by later chosen) r e)) in
      record {
        listed = m;
        of_pair = q;
        newest = λ s n h.
            head-newest (order_by later chosen) r s (order_by-IsOrdered later later-IsOrder chosen)
              e
              (order_by-mem later chosen
                (select-mem (for_pair user_id from_currency to_currency) rows n h));
      }

-- ===== src/Rate/Manual.antt =====
-- A rate that was set by hand, and then asked for (Rate/Service).
use mali.Prelude.{
  ◌≡◌, ◌≢◌, ◌⊎◌, inl, inr, Bool, true, false, Option, none, some, List, [], ◌∷◌, str_eq, arith,
  Memᴰ,
}
use mali.Prelude.Tests.{Option-cases, Bool-cases}
use mali.Prelude.Text.{is_empty}
use mali.Prelude.Int.{ℤ}
use mali.Rat.{Rat}
use mali.Prelude.Lists.{select, order_by, find, update, head?}
use mali.Prelude.Order.{order_by-mem, select-mem}
use mali.Domain.{Uuid, is_nil, ExchangeRate}
use mali.Store.{RateRow}
use mali.Context.{ok, err, invalid, Platform, World, ◌>>=◌}
use mali.Amount.{normalize_currency_code}
use mali.Rate.Repo
use mali.Rate.Repo.{to_domain, for_pair, same_key, later, latest, new_row, overwritten, set_rates}
use mali.Rate.Service.{RateService, GetLatestRateInput, get_latest_rate}
use mali.Rate.Latest.{IsNewest, latest-IsNewest}

-- What the guards of a request for a rate want.
abbrev pub IsComplete : RateService → GetLatestRateInput → Type 0
IsComplete s input =
    (s.has_rates ≡ true)
    × (is_nil input.user_id ≡ false)
    × (is_empty (normalize_currency_code input.from_currency) ≡ false)
    × (is_empty (normalize_currency_code input.to_currency) ≡ false)
    × (str_eq (normalize_currency_code input.from_currency)
          (normalize_currency_code input.to_currency)
        ≡ false)

abbrev pub asked : GetLatestRateInput → RateRow → Bool
asked input =
    for_pair input.user_id (normalize_currency_code input.from_currency)
      (normalize_currency_code input.to_currency)

abbrev pub answer : GetLatestRateInput → List RateRow → Option RateRow
answer input =
    latest input.user_id (normalize_currency_code input.from_currency)
      (normalize_currency_code input.to_currency)

latest-none :
    (input : GetLatestRateInput) (rows : List RateRow) (r : RateRow)
    → answer input rows ≡ none
    → Memᴰ r rows
    → asked input r ≡ false
unfolding latest
latest-none input rows r e m = elim (Bool-cases (asked input r)) [
  | inr other ↦ other
  | inl h ↦ absurd (
      empty (order_by later (select (asked input) rows)) e
        (order_by-mem later _ (select-mem (asked input) rows m h)))
]
  where
    empty : (xs : List RateRow) → head? xs ≡ none → Memᴰ r xs → ⊥
    empty [] q n = elim n [ ]
    empty (x ∷ xs) q n = cc

module _ (s : RateService) (input : GetLatestRateInput) (p : Platform) (w : World)
    (full : IsComplete s input) (up : p.fault w.calls ≡ none) where
  pub found_latest :
      (r : RateRow)
      → answer input w.db.rates ≡ some r
      → (get_latest_rate s input p w).0 ≡ ok (to_domain p r)
  unfolding get_latest_rate Repo.get_latest_for_pair ◌>>=◌
  found_latest r e = ground arith

  no_latest :
      answer input w.db.rates ≡ none
      → (get_latest_rate s input p w).0 ≡ err (invalid "rate not found")
  unfolding get_latest_rate Repo.get_latest_for_pair ◌>>=◌
  no_latest e = ground arith

  -- A request for a rate that is complete and reaches the server is answered with a rate of the user for
  -- the pair than which none is later; it fails, with "rate not found", only when the user has none.
  pub get_latest_rate-IsNewest :
      ((r : RateRow) × ((get_latest_rate s input p w).0 ≡ ok (to_domain p r))
        × IsNewest input.user_id
            (normalize_currency_code input.from_currency)
            (normalize_currency_code input.to_currency)
            w.db.rates
            r)
      ⊎ (((get_latest_rate s input p w).0 ≡ err (invalid "rate not found"))
          × ((r : RateRow) → Memᴰ r w.db.rates → asked input r ≡ false))
  get_latest_rate-IsNewest = elim (Option-cases (answer input w.db.rates)) [
    | inl e ↦ inr (no_latest e, (λ r m. latest-none input w.db.rates r e m))
    | inr (r, e) ↦ inl (r, found_latest r e, latest-IsNewest input.user_id _ _ w.db.rates r e)
  ]

-- What an upsert that succeeds has stored: the number of the text, as the column takes it.
pub record Stored (p : Platform) (e : ExchangeRate) (old new : List RateRow) (out : ExchangeRate)
    : Type 0 where
  pub value : Rat
  pub rate : ℤ
  pub id : Uuid
  pub read : p.scan e.rate ≡ some value
  pub taken : p.column 8 value ≡ some rate
  pub written :
      ((find (same_key e) old ≡ none)
        × (new ≡ new_row e rate id ∷ old)
        × (out ≡ to_domain p (new_row e rate id)))
      ⊎ ((r : RateRow) × (find (same_key e) old ≡ some r)
          × (new ≡ update (same_key e) (overwritten rate) old)
          × (out ≡ to_domain p (overwritten rate r)))

module _ (e : ExchangeRate) (p : Platform) (w : World) (out : ExchangeRate)
    (done : (Repo.upsert e p w).0 ≡ ok out) where
  scanned : p.scan e.rate ≢ none
  unfolding Repo.upsert ◌>>=◌
  scanned h = ground arith

  columned : (x : Rat) → p.scan e.rate ≡ some x → p.column 8 x ≢ none
  unfolding Repo.upsert ◌>>=◌
  columned x q h = ground arith

  module _ (x : Rat) (n : ℤ) (q : p.scan e.rate ≡ some x) (k : p.column 8 x ≡ some n) where
    inserted :
        find (same_key e) w.db.rates ≡ none
        → ((Repo.upsert e p w).1.db.rates ≡ new_row e n (p.uuid w.draws) ∷ w.db.rates)
          × (out ≡ to_domain p (new_row e n (p.uuid w.draws)))
    unfolding Repo.upsert ◌>>=◌
    inserted absent = (ground arith, ground arith)

    rewritten :
        (r : RateRow)
        → find (same_key e) w.db.rates ≡ some r
        → ((Repo.upsert e p w).1.db.rates ≡ update (same_key e) (overwritten n) w.db.rates)
          × (out ≡ to_domain p (overwritten n r))
    unfolding Repo.upsert ◌>>=◌
    rewritten r f = (ground arith, ground arith)

    stored : Stored p e w.db.rates (Repo.upsert e p w).1.db.rates out
    stored = record {
      value = x;
      rate = n;
      id = p.uuid w.draws;
      read = q;
      taken = k;
      written = elim (Option-cases (find (same_key e) w.db.rates)) [
        | inl absent ↦ inl (absent, (inserted absent).0, (inserted absent).1)
        | inr (r, f) ↦ inr (r, f, (rewritten r f).0, (rewritten r f).1)
      ];
    }

  pub upsert-Stored : Stored p e w.db.rates (Repo.upsert e p w).1.db.rates out
  upsert-Stored = elim (Option-cases (p.scan e.rate)) [
    | inl h ↦ absurd (scanned h)
    | inr (x, q) ↦ elim (Option-cases (p.column 8 x)) [
      | inl h ↦ absurd (columned x q h)
      | inr (n, k) ↦ stored x n q k
    ]
  ]

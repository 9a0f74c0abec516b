-- ===== src/Rate/Repo.antt =====
-- repository/postgres/exchange_rate_repo.go with repository/sqlc/exchange_rates.sql.go: the table of
-- exchange rates. It has no unique columns but its id.
use mali.Prelude.{Bool, Option, none, some, List, ◌∷◌, ◌&&◌, ◌||◌, String, str_eq, map}
use mali.Prelude.Tests.{◌==◌, ltb}
use mali.Prelude.Lists.{find, select, update, order_by, head?}
use mali.Prelude.Int.{ℤ}
use mali.Time.{Time}
use mali.Domain.{Uuid, ExchangeRate}
use mali.Store.{RateRow, Db}
use mali.Context.{
  wrapped, no_rows_error, Platform, M, pure, or_raise, on_error, gets, modify, new_uuid, platform,
  call, ◌>>=◌, ◌>>◌,
}
use mali.Wallet.Repo.{numeric_from_string, to_column}

-- mapSQLCExchangeRateToDomain
abbrev pub to_domain : Platform → RateRow → ExchangeRate
to_domain p r = record {
  id = r.id;
  user_id = r.user_id;
  from_currency = r.from_currency;
  to_currency = r.to_currency;
  rate = p.render 8 r.rate;
  source = r.source;
  valid_at = r.valid_at;
}

-- The rates of a user from one currency to another.
abbrev pub for_pair : Uuid → String → String → RateRow → Bool
for_pair user_id from_currency to_currency r =
    r.user_id == user_id && str_eq r.from_currency from_currency && str_eq r.to_currency to_currency

-- What the `UPDATE` of UpsertExchangeRate looks for.
abbrev pub keyed : Uuid → String → String → String → Time → RateRow → Bool
keyed user_id from_currency to_currency source valid_at r =
    for_pair user_id from_currency to_currency r && str_eq r.source source && r.valid_at == valid_at

abbrev pub same_key : ExchangeRate → RateRow → Bool
same_key e = keyed e.user_id e.from_currency e.to_currency e.source e.valid_at

abbrev pub set_rates : (List RateRow → List RateRow) → Db → Db
set_rates f d = record d { rates = f d.rates }

abbrev pub overwritten : ℤ → RateRow → RateRow
overwritten rate r = record r { rate = rate }

abbrev pub new_row : ExchangeRate → ℤ → Uuid → RateRow
new_row e rate id = record {
  id = id;
  user_id = e.user_id;
  from_currency = e.from_currency;
  to_currency = e.to_currency;
  rate = rate;
  source = e.source;
  valid_at = e.valid_at;
}

-- UpsertExchangeRate: rows with the key are overwritten; if there are none, one is added.
unfoldable pub store : ExchangeRate → ℤ → Option RateRow → M RateRow
store e rate none = do
  id ← new_uuid
  modify (set_rates (λ rows. new_row e rate id ∷ rows))
  pure (new_row e rate id)
store e rate (some r) = do
  modify (set_rates (update (same_key e) (overwritten rate)))
  pure (overwritten rate r)

unfoldable pub upsert : ExchangeRate → M ExchangeRate
unfolding numeric_from_string to_column store
upsert e = do
  x ← on_error (wrapped "parse exchange rate value") (numeric_from_string e.rate)
  on_error (wrapped "upsert exchange rate") call
  rate ← on_error (wrapped "upsert exchange rate") (to_column 8 x)
  found ← gets (λ d. find (same_key e) d.rates)
  row ← store e rate found
  p ← platform
  pure (to_domain p row)

-- `ORDER BY valid_at DESC`
abbrev pub later : RateRow → RateRow → Bool
later r s = ltb s.valid_at r.valid_at

-- GetLatestRateForPair
unfoldable pub latest : Uuid → String → String → List RateRow → Option RateRow
unfolding order_by select
latest user_id from_currency to_currency rows =
    head? (order_by later (select (for_pair user_id from_currency to_currency) rows))

unfoldable pub get_latest_for_pair : Uuid → String → String → M ExchangeRate
unfolding latest
get_latest_for_pair user_id from_currency to_currency = do
  on_error (wrapped "get latest rate for pair") call
  found ← gets (λ d. latest user_id from_currency to_currency d.rates)
  row ← or_raise found (wrapped "get latest rate for pair" no_rows_error)
  p ← platform
  pure (to_domain p row)

-- `ORDER BY valid_at DESC, from_currency ASC, to_currency ASC`
abbrev pub listed_before : Platform → RateRow → RateRow → Bool
listed_before p r s =
    later r s
    || (r.valid_at == s.valid_at
        && (p.collate r.from_currency s.from_currency
            || (str_eq r.from_currency s.from_currency && p.collate r.to_currency s.to_currency)))

unfoldable pub list_by_user : Uuid → M (List ExchangeRate)
unfolding order_by select
list_by_user user_id = do
  on_error (wrapped "list rates by user") call
  rows ← gets (λ d. select (λ r. r.user_id == user_id) d.rates)
  p ← platform
  pure (map (to_domain p) (order_by (listed_before p) rows))

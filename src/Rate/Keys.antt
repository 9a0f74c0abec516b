-- ===== src/Rate/Keys.antt =====
-- One rate for each user, pair, source and time, though the table has no such constraint.
use mali.Prelude.{◌≡◌, refl, sym, subst, inl, inr, Bool, none, List, [], ◌∷◌, String, arith}
use mali.Prelude.Int.{ℤ}
use mali.Prelude.Lists.{find, update}
use mali.Time.{Time}
use mali.Domain.{Uuid, ExchangeRate}
use mali.Store.{RateRow, Db}
use mali.Context.{Platform, World, M, pure, ◌>>=◌}
use mali.Context.Frames.{IsReadOnly, read_rules, FailsClean}
use mali.Context.Success.{result_cases}
use mali.Context.Invariant.{Preserves, preserving_rules}
use mali.Auth.Users
use mali.Rate.Repo
use mali.Rate.Repo.{keyed, same_key, new_row, overwritten}
use mali.Rate.Service.{
  RateService, SetManualRateInput, GetRatesInput, GetLatestRateInput, set_manual_rate, get_rates,
  get_latest_rate,
}
use mali.Rate.Worker.{
  RateFetchWorker, HttpClient, request, fetch_rates, store_rate, store_currencies, store_users,
  handle_fetch_exchange_rates_task,
}
use mali.Rate.Manual.{Stored, upsert-Stored}

abbrev pub UniqueKeys : List RateRow → Type 0
UniqueKeys [] = Unit
UniqueKeys (r ∷ rs) =
    (find (keyed r.user_id r.from_currency r.to_currency r.source r.valid_at) rs ≡ none)
    × UniqueKeys rs

-- What can be asked of the rates: by users, and by the scheduler.
pub data RateRequest : Type 0 where
  set_rate : SetManualRateInput → RateRequest
  list_rates : GetRatesInput → RateRequest
  latest_rate : GetLatestRateInput → RateRequest
  fetch : RateRequest

pub data RateAnswer : Type 0 where
  one : ExchangeRate → RateAnswer
  many : List ExchangeRate → RateAnswer
  fetched : RateAnswer

module _ (s : RateService) (worker : RateFetchWorker) where
  unfoldable pub serve_rates : RateRequest → M RateAnswer
  serve_rates (set_rate input) = set_manual_rate s input >>= λ r. pure (one r)
  serve_rates (list_rates input) = get_rates s input >>= λ rs. pure (many rs)
  serve_rates (latest_rate input) = get_latest_rate s input >>= λ r. pure (one r)
  serve_rates fetch = handle_fetch_exchange_rates_task worker >>= λ _. pure fetched

module _ (rate : ℤ) (q : RateRow → Bool) where
  find-update-none :
      (u : Uuid) (a b source : String) (t : Time) (rs : List RateRow)
      → find (keyed u a b source t) rs ≡ none
      → find (keyed u a b source t) (update q (overwritten rate) rs) ≡ none
  unfolding find update
  find-update-none u a b source t [] h = refl
  find-update-none u a b source t (r ∷ rs) h = ground (arith, find-update-none u a b source t rs)

  UniqueKeys-update :
      (rs : List RateRow) → UniqueKeys rs → UniqueKeys (update q (overwritten rate) rs)
  unfolding update
  UniqueKeys-update [] h = tt
  UniqueKeys-update (r ∷ rs) h = ground (
    arith,
    find-update-none r.user_id r.from_currency r.to_currency r.source r.valid_at rs,
    UniqueKeys-update rs h.1,
  )

Stored-UniqueKeys :
    (p : Platform) (e : ExchangeRate) (old new : List RateRow) (out : ExchangeRate)
    → Stored p e old new out
    → UniqueKeys old
    → UniqueKeys new
Stored-UniqueKeys p e old new out st h = elim st.written [
  | inl (absent, grown, _) ↦ rw grown (absent, h)
  | inr (r, _, grown, _) ↦ rw grown (UniqueKeys-update st.rate (same_key e) old h)
]

upsert-FailsClean : (e : ExchangeRate) → FailsClean (Repo.upsert e)
unfolding Repo.upsert ◌>>=◌
upsert-FailsClean e = record { at = λ p w x h. ground arith }

-- The invariant, as it is carried through a call.
HasUniqueKeys : Db → Type 0
HasUniqueKeys d = UniqueKeys d.rates

upsert-Preserves : (e : ExchangeRate) → Preserves HasUniqueKeys (Repo.upsert e)
unfolding HasUniqueKeys
upsert-Preserves e = record {
  at = λ p w h. elim (result_cases (Repo.upsert e p w).0) [
    | inl (out, q) ↦ Stored-UniqueKeys p e w.db.rates _ out (upsert-Stored e p w out q) h
    | inr (x, q) ↦ subst HasUniqueKeys (sym ((upsert-FailsClean e).at p w x q)) h
  ];
}

request-IsReadOnly : (client : HttpClient) → IsReadOnly (request client)
unfolding request
request-IsReadOnly client = record { at = λ p w. refl }

get_rates-IsReadOnly : (s : RateService) (input : GetRatesInput) → IsReadOnly (get_rates s input)
unfolding get_rates Repo.list_by_user
get_rates-IsReadOnly s input = search read_rules depth 14

get_latest_rate-IsReadOnly :
    (s : RateService) (input : GetLatestRateInput) → IsReadOnly (get_latest_rate s input)
unfolding get_latest_rate Repo.get_latest_for_pair
get_latest_rate-IsReadOnly s input = search read_rules depth 16

fetch_rates-IsReadOnly : (worker : RateFetchWorker) → IsReadOnly (fetch_rates worker)
unfolding fetch_rates
fetch_rates-IsReadOnly worker = search (read_rules, request-IsReadOnly) depth 14

list_user_ids-IsReadOnly : IsReadOnly Users.list_user_ids
unfolding Users.list_user_ids
list_user_ids-IsReadOnly = search read_rules depth 8

ruleset rate_rules = (
  preserving_rules, read_rules, upsert-Preserves, get_rates-IsReadOnly, get_latest_rate-IsReadOnly,
  fetch_rates-IsReadOnly, list_user_ids-IsReadOnly,
)

set_manual_rate-Preserves :
    (s : RateService) (input : SetManualRateInput)
    → Preserves HasUniqueKeys (set_manual_rate s input)
unfolding set_manual_rate
set_manual_rate-Preserves s input = search rate_rules depth 20

module _ (worker : RateFetchWorker) (rates : List (String × String)) (t : Time) where
  store_rate-Preserves :
      (u : Uuid) (c : String) → Preserves HasUniqueKeys (store_rate worker rates t u c)
  unfolding store_rate
  store_rate-Preserves u c = search rate_rules depth 10

  store_currencies-Preserves :
      (u : Uuid) (cs : List String) → Preserves HasUniqueKeys (store_currencies worker rates t u cs)
  unfolding store_currencies
  store_currencies-Preserves u [] = search rate_rules
  store_currencies-Preserves u (c ∷ cs) =
      let k = store_currencies-Preserves u cs in search (rate_rules, store_rate-Preserves)

  store_users-Preserves : (us : List Uuid) → Preserves HasUniqueKeys (store_users worker rates t us)
  unfolding store_users
  store_users-Preserves [] = search rate_rules
  store_users-Preserves (u ∷ us) =
      let k = store_users-Preserves us in search (rate_rules, store_currencies-Preserves)

task-Preserves :
    (worker : RateFetchWorker) → Preserves HasUniqueKeys (handle_fetch_exchange_rates_task worker)
unfolding handle_fetch_exchange_rates_task
task-Preserves worker = search (rate_rules, store_users-Preserves) depth 12

serve_rates-Preserves :
    (s : RateService) (worker : RateFetchWorker) (r : RateRequest)
    → Preserves HasUniqueKeys (serve_rates s worker r)
unfolding serve_rates
serve_rates-Preserves s worker (set_rate input) = search (rate_rules, set_manual_rate-Preserves)
serve_rates-Preserves s worker (list_rates input) = search rate_rules
serve_rates-Preserves s worker (latest_rate input) = search rate_rules
serve_rates-Preserves s worker fetch = search (rate_rules, task-Preserves)

-- Whatever is asked of the rates, by a user or by the scheduler, and whether or not it succeeds, no user
-- has two rates of one source for one pair and one time, if there were none before.
pub serve_rates-UniqueKeys :
    (s : RateService) (worker : RateFetchWorker) (r : RateRequest) (p : Platform) (w : World)
    → UniqueKeys w.db.rates
    → UniqueKeys (serve_rates s worker r p w).1.db.rates
unfolding HasUniqueKeys
serve_rates-UniqueKeys s worker r p w h = (serve_rates-Preserves s worker r).at p w h

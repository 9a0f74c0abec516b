-- ===== src/Rate/Worker.antt =====
-- worker/rate_fetch_worker.go: the rates of the provider, stored for every user.
use mali.Prelude.{ℕ, ◌+◌, Bool, ◌&&◌, Option, none, some, List, [], ◌∷◌, String, ◌^^◌, str_eq}
use mali.Prelude.Tests.{◌==◌, if◌then◌else◌, not}
use mali.Prelude.Text.{trim_space, to_upper, is_empty}
use mali.Rat.Text.{decimal}
use mali.Time.{Time}
use mali.Domain.{Uuid}
use mali.Context.{Result, failure, wrapped, M, pure, or_raise, on_error, raise_if, now, ◌>>=◌, ◌>>◌}
use mali.Auth.Users
use mali.Rate.Repo

-- What the worker uses of net/http and encoding/json: the answer to the request for the latest rates,
-- with the start of its body as text, and the entries of its `rates`, in the order in which Go ranges
-- over them, if the body can be decoded.
pub record Response : Type 0 where
  pub status : ℕ
  pub body : String
  pub rates : Option (List (String × String))

-- The answer to the call with a number.
pub record HttpClient : Type 0 where
  pub get : ℕ → Result Response

-- NewRateFetchWorker sees to it that the client is there.
pub record RateFetchWorker : Type 0 where
  pub has_users : Bool
  pub has_rates : Bool
  pub client : HttpClient
  -- how a user's id is written
  pub uuid_text : Uuid → String

abbrev pub base_currency_usd : String
base_currency_usd = "USD"

abbrev pub auto_fetch_source : String
auto_fetch_source = "auto_fetch"

abbrev pub supported_auto_fetch_currencies : List String
supported_auto_fetch_currencies = "ZAR" ∷ "BWP" ∷ []

unfoldable pub request : HttpClient → M Response
request client p w = (client.get w.calls, record w { calls = w.calls + 1 })

-- `result[strings.ToUpper(strings.TrimSpace(k))] = strings.TrimSpace(v)`: what is written last stands first.
unfoldable pub collect : List (String × String) → List (String × String) → List (String × String)
collect [] written = written
collect ((k, v) ∷ rest) written = collect rest ((to_upper (trim_space k), trim_space v) ∷ written)

unfoldable pub lookup_rate : String → List (String × String) → Option String
lookup_rate currency [] = none
lookup_rate currency ((k, v) ∷ rest) =
    if str_eq k currency then some v else lookup_rate currency rest

abbrev no_entries : List (String × String) → Bool
no_entries [] = Bool.true
no_entries (_ ∷ _) = Bool.false

-- The rate that the loop stores, if there is one.
abbrev pub usable : Option String → Option String
usable none = none
usable (some v) = if is_empty (trim_space v) then none else some (trim_space v)

unfoldable pub rate_for : List (String × String) → String → Option String
unfolding lookup_rate
rate_for rates currency = usable (lookup_rate currency rates)

module _ (worker : RateFetchWorker) where
  unfoldable pub fetch_rates : M (List (String × String))
  unfolding request collect decimal
  fetch_rates = do
    response ← on_error (wrapped "request frankfurter rates") (request worker.client)
    raise_if (not (response.status == 200)) (
        failure (
          "frankfurter returned status "
          ^^ decimal response.status
          ^^ ": "
          ^^ trim_space response.body))
    rates ← or_raise response.rates (failure "decode frankfurter response")
    raise_if (no_entries rates) (failure "frankfurter response did not contain rates")
    pure (collect rates [])

  -- The body of the two loops.
  unfoldable pub store_rate : List (String × String) → Time → Uuid → String → M (Unit {0})
  unfolding rate_for
  store_rate rates valid_at user_id currency = do
    rate ←
        or_raise (rate_for rates currency)
          (failure ("missing " ^^ currency ^^ " rate in provider response"))
    stored ←
        on_error
          (wrapped ("upsert fetched " ^^ currency ^^ " rate for user " ^^ worker.uuid_text user_id))
          (Repo.upsert (record {
            id = 0;
            user_id = user_id;
            from_currency = base_currency_usd;
            to_currency = currency;
            rate = rate;
            source = auto_fetch_source;
            valid_at = valid_at;
          }))
    pure tt

  unfoldable pub store_currencies :
      List (String × String) → Time → Uuid → List String → M (Unit {0})
  store_currencies rates valid_at user_id [] = pure tt
  store_currencies rates valid_at user_id (currency ∷ rest) = do
    store_rate rates valid_at user_id currency
    store_currencies rates valid_at user_id rest

  unfoldable pub store_users : List (String × String) → Time → List Uuid → M (Unit {0})
  store_users rates valid_at [] = pure tt
  store_users rates valid_at (user_id ∷ rest) = do
    store_currencies rates valid_at user_id supported_auto_fetch_currencies
    store_users rates valid_at rest

  unfoldable pub handle_fetch_exchange_rates_task : M (Unit {0})
  handle_fetch_exchange_rates_task = do
    raise_if (not (worker.has_users && worker.has_rates))
        (failure "rate fetch worker dependencies are not configured")
    rates ← fetch_rates
    user_ids ← on_error (wrapped "list users for rate fetch") Users.list_user_ids
    valid_at ← now
    store_users rates valid_at user_ids

-- ===== src/Rate/Tests.antt =====
-- Exchange rates on concrete inputs.
use mali.Prelude.{
  ◌+◌, ◌<◌, ◌≡◌, ◌⊎◌, refl, true, false, none, some, List, [], ◌∷◌, String, Memᴰ, arith,
}
use mali.Prelude.Int.{pos}
use mali.Prelude.Lists.{find, update}
use mali.Prelude.Text.{trim_space, to_upper}
use mali.Time.{hour}
use mali.Domain.{ExchangeRate, User}
use mali.Store.{RateRow}
use mali.Context.{ok, err, invalid, World, ◌>>=◌}
use mali.Sample.{steady, world, tables, today, round_column, render_column, reads}
use mali.Rat.Text.{set_string}
use mali.Amount.{normalize_currency_code, normalize_amount, parse_amount}
use mali.Auth.Users
use mali.Rate.Repo
use mali.Rate.Repo.{to_domain, latest}
use mali.Rate.Service.{
  RateService, SetManualRateInput, GetLatestRateInput, set_manual_rate, get_latest_rate,
}
use mali.Rate.Worker.{
  RateFetchWorker, Response, fetch_rates, lookup_rate, store_rate, store_currencies, store_users,
  supported_auto_fetch_currencies, handle_fetch_exchange_rates_task,
}
use mali.Rate.Latest.{IsNewest}
use mali.Rate.Manual.{IsComplete, asked, get_latest_rate-IsNewest}
use mali.Rate.Recent.{set_manual_rate-get_latest_rate}
use mali.Rate.Keys.{UniqueKeys, fetch, serve_rates, serve_rates-UniqueKeys}
use mali.Rate.Fetched.{HasRate}
use mali.Rate.Task.{Answered, handle_fetch_exchange_rates_task-HasRate}

abbrev service : RateService
service = record { has_rates = true }

abbrev old_rate : RateRow
old_rate = record {
  id = 61;
  user_id = 1;
  from_currency = "USD";
  to_currency = "ZAR";
  rate = pos 1_850_000_000;
  source = "auto_fetch";
  valid_at = today;
}

abbrev ann : User
ann = record {
  id = 1;
  email = some "ann@mali.app";
  phone = none;
  name = "Ann";
  password_hash = none;
  created_at = today;
  updated_at = today;
}

abbrev quoted : World
quoted = record world { db = record tables { rates = old_rate ∷ []; users = ann ∷ [] } }

abbrev query : GetLatestRateInput
query = record { user_id = 1; from_currency = " usd"; to_currency = "ZAR" }

query-IsComplete : IsComplete service query
unfolding normalize_currency_code trim_space to_upper
query-IsComplete = (refl, refl, refl, refl, refl)

get_latest_rate-IsNewest_example :
    ((r : RateRow) × ((get_latest_rate service query steady quoted).0 ≡ ok (to_domain steady r))
      × IsNewest query.user_id
          (normalize_currency_code query.from_currency)
          (normalize_currency_code query.to_currency)
          quoted.db.rates
          r)
    ⊎ (((get_latest_rate service query steady quoted).0 ≡ err (invalid "rate not found"))
        × ((r : RateRow) → Memᴰ r quoted.db.rates → asked query r ≡ false))
get_latest_rate-IsNewest_example =
    get_latest_rate-IsNewest service query steady quoted query-IsComplete refl

abbrev quote : SetManualRateInput
quote = record {
  user_id = 1;
  from_currency = "USD";
  to_currency = "zar";
  rate = " 19.25";
  valid_at = today + hour;
}

abbrev new_rate : ExchangeRate
new_rate = record {
  id = 1000;
  user_id = 1;
  from_currency = "USD";
  to_currency = "ZAR";
  rate = "19.25000000";
  source = "manual";
  valid_at = today + hour;
}

was_set : (set_manual_rate service quote steady quoted).0 ≡ ok new_rate
unfolding set_manual_rate normalize_currency_code normalize_amount parse_amount trim_space to_upper
    Repo.upsert find ◌>>=◌ reads round_column render_column set_string
was_set = refl

same_base :
    normalize_currency_code query.from_currency ≡ normalize_currency_code quote.from_currency
unfolding normalize_currency_code trim_space to_upper
same_base = refl

same_other : normalize_currency_code query.to_currency ≡ normalize_currency_code quote.to_currency
unfolding normalize_currency_code trim_space to_upper
same_other = refl

all_earlier :
    (y : RateRow) → Memᴰ y quoted.db.rates → asked query y ≡ true → y.valid_at < new_rate.valid_at
all_earlier y (Memᴰ.head e) q = ground arith
all_earlier y (Memᴰ.tail m) q = elim m [ ]

set_manual_rate-get_latest_rate_example :
    (get_latest_rate service query steady (set_manual_rate service quote steady quoted).1).0
    ≡ ok new_rate
set_manual_rate-get_latest_rate_example =
    set_manual_rate-get_latest_rate service quote query steady quoted
      (set_manual_rate service quote steady quoted).1 new_rate was_set refl refl same_base
      same_other all_earlier query-IsComplete refl

abbrev provider : Response
provider = record {
  status = 200;
  body = "";
  rates = some (("ZAR", "18.90") ∷ ("bwp ", "13.6") ∷ []);
}

abbrev fetcher : RateFetchWorker
fetcher = record {
  has_users = true;
  has_rates = true;
  client = record { get = λ n. ok provider };
  uuid_text = λ u. "a user";
}

quoted-UniqueKeys : UniqueKeys quoted.db.rates
unfolding find
quoted-UniqueKeys = (refl, tt)

serve_rates-UniqueKeys_example :
    UniqueKeys (serve_rates service fetcher fetch steady quoted).1.db.rates
serve_rates-UniqueKeys_example =
    serve_rates-UniqueKeys service fetcher fetch steady quoted quoted-UniqueKeys

was_fetched : (handle_fetch_exchange_rates_task fetcher steady quoted).0 ≡ ok tt
unfolding handle_fetch_exchange_rates_task fetch_rates store_users store_currencies store_rate
    lookup_rate trim_space to_upper Users.list_user_ids Repo.upsert find ◌>>=◌ reads round_column
    set_string update
was_fetched = refl

handle_fetch_exchange_rates_task-HasRate_example :
    (rates : List (String × String)) × Answered fetcher quoted.calls rates
    × ((u : User)
        → Memᴰ u quoted.db.users
        → (c : String) → Memᴰ c supported_auto_fetch_currencies
        → HasRate steady rates
            (steady.clock quoted.ticks)
            u.id
            c
            (handle_fetch_exchange_rates_task fetcher steady quoted).1.db)
handle_fetch_exchange_rates_task-HasRate_example =
    handle_fetch_exchange_rates_task-HasRate fetcher steady quoted was_fetched

-- ===== src/Rate/Service.antt =====
-- usecase/rate_service.go.
use mali.Prelude.{Bool, true, false, List, String, str_eq}
use mali.Prelude.Tests.{if◌then◌else◌, not}
use mali.Prelude.Text.{is_empty}
use mali.Rat.{is_positive}
use mali.Time.{Time, is_zero}
use mali.Domain.{Uuid, is_nil, ExchangeRate}
use mali.Context.{
  Error, Result, ok, err, failure, invalid, wrapped, is_not_found, M, pure, lift, on_error,
  raise_if, now, ◌>>=◌, ◌>>◌,
}
use mali.Amount.{normalize_currency_code, normalize_amount, parse_amount}
use mali.Rate.Repo

abbrev pub manual_rate_source : String
manual_rate_source = "manual"

-- `time.Time{}` stands for a time that is not given.
pub record SetManualRateInput : Type 0 where
  pub user_id : Uuid
  pub from_currency : String
  pub to_currency : String
  pub rate : String
  pub valid_at : Time

pub record GetRatesInput : Type 0 where
  pub user_id : Uuid

pub record GetLatestRateInput : Type 0 where
  pub user_id : Uuid
  pub from_currency : String
  pub to_currency : String

-- Whether the repository is set.
pub record RateService : Type 0 where
  pub has_rates : Bool

unfoldable pub new_rate_service : Bool → Result RateService
new_rate_service true = ok (record { has_rates = true })
new_rate_service false = err (invalid "exchange rate repository is required")

abbrev not_configured : Error
not_configured = failure "rate service dependencies are not configured"

-- The guards on a pair of currencies.
unfoldable pub check_pair : String → String → M (Unit {0})
check_pair from_currency to_currency = do
  raise_if (is_empty from_currency) (invalid "from_currency is required")
  raise_if (is_empty to_currency) (invalid "to_currency is required")
  raise_if (str_eq from_currency to_currency)
      (invalid "from_currency and to_currency must be different")

-- A time that is given, or else the present.
unfoldable pub time_or_now : Time → M Time
time_or_now t = if is_zero t then now else pure t

module _ (s : RateService) where
  unfoldable pub set_manual_rate : SetManualRateInput → M ExchangeRate
  unfolding check_pair time_or_now
  set_manual_rate input = do
    raise_if (not s.has_rates) not_configured
    raise_if (is_nil input.user_id) (invalid "user_id is required")
    let from_currency = normalize_currency_code input.from_currency
    let to_currency = normalize_currency_code input.to_currency
    check_pair from_currency to_currency
    let rate = normalize_amount input.rate
    x ← on_error (λ e. invalid "invalid rate") (lift (parse_amount rate))
    raise_if (not (is_positive x)) (invalid "rate must be greater than 0")
    valid_at ← time_or_now input.valid_at
    on_error (wrapped "set manual rate") (
        Repo.upsert (record {
          id = 0;
          user_id = input.user_id;
          from_currency = from_currency;
          to_currency = to_currency;
          rate = rate;
          source = manual_rate_source;
          valid_at = valid_at;
        }))

  unfoldable pub get_rates : GetRatesInput → M (List ExchangeRate)
  get_rates input = do
    raise_if (not s.has_rates) not_configured
    raise_if (is_nil input.user_id) (invalid "user_id is required")
    on_error (wrapped "list rates") (Repo.list_by_user input.user_id)

  abbrev latest_error : Error → Error
  latest_error e = if is_not_found e then invalid "rate not found" else wrapped "get latest rate" e

  unfoldable pub get_latest_rate : GetLatestRateInput → M ExchangeRate
  unfolding check_pair
  get_latest_rate input = do
    raise_if (not s.has_rates) not_configured
    raise_if (is_nil input.user_id) (invalid "user_id is required")
    let from_currency = normalize_currency_code input.from_currency
    let to_currency = normalize_currency_code input.to_currency
    check_pair from_currency to_currency
    on_error latest_error (Repo.get_latest_for_pair input.user_id from_currency to_currency)

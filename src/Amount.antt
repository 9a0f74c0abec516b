-- ===== src/Amount.antt =====
-- The helpers on amounts and codes that the services share (usecase/wallet_service.go).
use mali.Prelude.{String, none, some}
use mali.Prelude.Text.{trim_space, to_upper}
use mali.Rat.{Rat}
use mali.Rat.Text.{set_string}
use mali.Context.{Result, ok, err, failure}

unfoldable pub normalize_currency_code : String → String
normalize_currency_code code = to_upper (trim_space code)

unfoldable pub normalize_amount : String → String
normalize_amount amount = trim_space amount

unfoldable pub parse_amount : String → Result Rat
parse_amount value = elim (set_string value) [
  | none ↦ err (failure "invalid amount")
  | some x ↦ ok x
]

-- ===== src/Sync/Payload.antt =====
-- How usecase/sync_service.go reads the fields of a payload: what `json.Unmarshal` makes of it, field by
-- field, times in RFC 3339, and whole numbers.
use mali.Prelude.{ℕ, Bool, false, Option, none, some, String}
use mali.Prelude.Tests.{if◌then◌else◌}
use mali.Prelude.Text.{trim_space, is_empty}
use mali.Prelude.Int.{ℤ, pos}
use mali.Time.{Time, zero_time}
use mali.Time.Rfc3339.{parse_rfc3339}
use mali.Json.{
  Fields, Payload, fields_of, fold_field, read_text, read_optional_text, read_bool, read_int32,
}
use mali.Context.{failure, M, pure, or_raise}

abbrev pub field_or_raise : {A : Type 0} → Option A → M A
field_or_raise a = or_raise a (failure "invalid payload")

abbrev pub fields_in : Payload → M Fields
fields_in payload = field_or_raise (fields_of payload)

-- A field of the struct, which starts as Go's zero value.
unfoldable pub text_in : Fields → String → M String
unfolding fold_field
text_in fields key = field_or_raise (fold_field read_text key (some "") fields)

unfoldable pub optional_in : Fields → String → M (Option String)
unfolding fold_field
optional_in fields key = field_or_raise (fold_field read_optional_text key (some none) fields)

unfoldable pub bool_in : Fields → String → M Bool
unfolding fold_field
bool_in fields key = field_or_raise (fold_field read_bool key (some false) fields)

unfoldable pub int32_in : Fields → String → M ℤ
unfolding fold_field
int32_in fields key = field_or_raise (fold_field read_int32 key (some (pos 0)) fields)

-- A number below zero as zero.
abbrev pub natural : ℤ → ℕ
natural n = elim n [ pos k ↦ k | _ ↦ 0 ]

unfoldable pub time_of : String → String → M Time
unfolding parse_rfc3339
time_of text message = or_raise (parse_rfc3339 (trim_space text)) (failure message)

-- `contributed_at` may be blank.
unfoldable pub time_or_zero : String → String → M Time
unfolding time_of
time_or_zero text message =
    if is_empty (trim_space text) then pure zero_time else time_of text message

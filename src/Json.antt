-- ===== src/Json.antt =====
-- What the program uses of Go's encoding/json: values, and how `Unmarshal` fills a struct's fields.
--
-- A key fits a field of the same letters, in whatever case. Of several that fit, each is read in turn, so
-- that the last one counts; `null` leaves a field as it is; a value of another kind makes the whole
-- reading fail. A number is kept as its literal.
use mali.Prelude.{
  ℕ, ◌+◌, ◌*◌, ◌-◌, ◌^◌, Bool, ◌&&◌, Option, none, some, List, [], ◌∷◌, String, str_eq,
}
use mali.Prelude.Tests.{◌==◌, ltb, leb, if◌then◌else◌}
use mali.Prelude.Text.{codes, to_lower}
use mali.Prelude.Int.{ℤ, pos, neg}

mutual
  pub data Json : Type 0 where
    null : Json
    boolean : Bool → Json
    number : String → Json
    text : String → Json
    array : Items → Json
    object : Fields → Json

  pub data Items : Type 0 where
    nil : Items
    cons : Json → Items → Items

  pub data Fields : Type 0 where
    end : Fields
    field : String → Json → Fields → Fields

-- `json.RawMessage`: nothing, or a value.
abbrev pub Payload : Type 0
Payload = Option Json

-- What a struct is filled from: `null` fills nothing.
abbrev pub fields_of : Payload → Option Fields
fields_of none = none
fields_of (some null) = some end
fields_of (some (object fields)) = some fields
fields_of (some _) = none

-- The value of a field: the values under its key in turn, `none` once one could not be read.
module _ {A : Type 0} (read : A → Json → Option A) (key : String) where
  abbrev next : Option A → Json → Option A
  next none v = none
  next (some a) v = read a v

  unfoldable pub fold_field : Option A → Fields → Option A
  unfolding to_lower
  fold_field found end = found
  fold_field found (field k v rest) =
      fold_field (if str_eq (to_lower k) key then next found v else found) rest

-- `string`, `*string`, `bool`
abbrev pub read_text : String → Json → Option String
read_text old null = some old
read_text old (text t) = some t
read_text old _ = none

abbrev pub read_optional_text : Option String → Json → Option (Option String)
read_optional_text old null = some none
read_optional_text old (text t) = some (some t)
read_optional_text old _ = none

abbrev pub read_bool : Bool → Json → Option Bool
read_bool old null = some old
read_bool old (boolean b) = some b
read_bool old _ = none

-- The value of decimal digits, if there are only such.
whole : ℕ → List ℕ → Option ℕ
whole n [] = some n
whole n (c ∷ cs) =
    let rest = whole (n * 10 + (c - 48)) cs in if leb 48 c && leb c 57 then rest else none

some_digits : List ℕ → Option ℕ
unfolding whole
some_digits [] = none
some_digits (c ∷ cs) = whole 0 (c ∷ cs)

abbrev negative_int32 : Option ℕ → Option ℤ
negative_int32 none = none
negative_int32 (some n) = if leb n (2 ^ 31) then some (neg (pos n)) else none

abbrev positive_int32 : Option ℕ → Option ℤ
positive_int32 none = none
positive_int32 (some n) = if ltb n (2 ^ 31) then some (pos n) else none

signed_int32 : List ℕ → Option ℤ
unfolding some_digits neg
signed_int32 [] = none
signed_int32 (c ∷ cs) =
    if c == b'-' then negative_int32 (some_digits cs) else positive_int32 (some_digits (c ∷ cs))

-- A literal without a fraction or an exponent, in the range of an `int32`.
unfoldable pub parse_int32 : String → Option ℤ
unfolding signed_int32
parse_int32 literal = signed_int32 (codes literal)

-- `int32`
abbrev pub read_int32 : ℤ → Json → Option ℤ
read_int32 old null = some old
read_int32 old (number literal) = parse_int32 literal
read_int32 old _ = none

-- `json.Unmarshal` into a `map[string]json.RawMessage`: the value under a key, spelled as it is; the
-- last one counts.
unfoldable pub lookup : String → Fields → Option Json
lookup key end = none
lookup key (field k v rest) = elim (lookup key rest) [
  | some found ↦ some found
  | none ↦ if str_eq k key then some v else none
]

-- ===== src/Http/SyncLog.antt =====
-- delivery/http/middleware/sync_log.go: what a handler has done for a user is noted in the sync log.
use Prim.Native.Char.{Char, code}
use mali.Prelude.{Bool, true, false, ◌&&◌, Option, none, some, List, [], ◌∷◌, String, str_eq}
use mali.Prelude.Tests.{leb, ◌==◌, if◌then◌else◌, not}
use mali.Prelude.Lists.{get_elem?}
use mali.Prelude.Text.{trim_space, to_lower, to_upper, is_empty}
use mali.Domain.{Uuid, is_nil}
use mali.Json.{Json, text, null, lookup, fields_of}
use mali.Context.{M, pure, attempt, ◌>>=◌, ◌>>◌}
use mali.Sync.Log
use mali.Http.{Request, Response, Handler}

-- `strings.Trim(path, "/")`
abbrev unless_last_slash : Bool → Char → String → String
unless_last_slash true c String.[] = String.[]
unless_last_slash true c (String.◌∷◌ d s) = String.◌∷◌ c (String.◌∷◌ d s)
unless_last_slash false c s = String.◌∷◌ c s

unfoldable trim_slashes_left : String → String
trim_slashes_left String.[] = String.[]
trim_slashes_left (String.◌∷◌ c s) = if code c == b'/' then trim_slashes_left s else String.◌∷◌ c s

unfoldable trim_slashes_right : String → String
trim_slashes_right String.[] = String.[]
trim_slashes_right (String.◌∷◌ c s) = unless_last_slash (code c == b'/') c (trim_slashes_right s)

abbrev in_front : Char → List String → List String
in_front c [] = String.◌∷◌ c String.[] ∷ []
in_front c (s ∷ rest) = String.◌∷◌ c s ∷ rest

-- `strings.Split(s, "/")`
unfoldable split_slashes : String → List String
split_slashes String.[] = String.[] ∷ []
split_slashes (String.◌∷◌ c s) =
    let rest = split_slashes s in if code c == b'/' then String.[] ∷ rest else in_front c rest

unfoldable pub path_segments : String → List String
unfolding trim_slashes_left trim_slashes_right split_slashes
path_segments path = split_slashes (trim_slashes_right (trim_slashes_left path))

abbrev pub entity_type_of : String → Option String
entity_type_of segment =
    if str_eq segment "transactions"
    then some "transaction"
    else if str_eq segment "goals"
    then some "goal"
    else if str_eq segment "budgets"
    then some "budget"
    else if str_eq segment "wallets"
    then some "wallet"
    else none

abbrev is_segment : Option String → String → Bool
is_segment none name = false
is_segment (some s) name = str_eq s name

abbrev pub create_operation : List String → String → String
create_operation segments entity_type =
    if str_eq entity_type "budget"
    then "upsert"
    else if str_eq entity_type "goal" && is_segment (get_elem? segments 3) "contribute"
    then "contribute"
    else "create"

abbrev pub operation_of : String → List String → String → Option String
operation_of method segments entity_type =
    if str_eq method "POST"
    then some (create_operation segments entity_type)
    else if str_eq method "PATCH"
    then some "update"
    else if str_eq method "DELETE"
    then some "delete"
    else none

abbrev pub with_operation : String → Option String → Option (String × String)
with_operation entity_type none = none
with_operation entity_type (some operation) = some (entity_type, operation)

abbrev pub of_segments : String → List String → Option (String × String)
of_segments method (version ∷ name ∷ rest) =
    if not (str_eq version "v1") then none else elim (entity_type_of name) [
      | none ↦ none
      | some entity_type ↦
          with_operation entity_type (operation_of method (version ∷ name ∷ rest) entity_type)
    ]
of_segments method _ = none

-- The type of the entity and the operation, if it is to be logged.
unfoldable pub extract_entity_operation : Request → Option (String × String)
unfolding path_segments to_upper trim_space
extract_entity_operation r = of_segments (to_upper (trim_space r.method)) (path_segments r.path)

-- `json.Unmarshal` into a `string`, of which `null` makes the empty one.
abbrev as_text : Json → Option String
as_text null = some ""
as_text (text t) = some t
as_text _ = none

abbrev pub and_then : {A B : Type 0} → Option A → (A → Option B) → Option B
and_then none f = none
and_then (some a) f = f a

abbrev or_blank : Option String → String
or_blank none = ""
or_blank (some s) = s

-- What is to be written to the log: user, entity's type, id, operation.
abbrev pub entry_with :
    Uuid → String × String → Option Uuid → Option (Uuid × String × Uuid × String)
entry_with user_id operation none = none
entry_with user_id (entity_type, operation) (some entity_id) =
    if is_nil entity_id then none else some (user_id, entity_type, entity_id, operation)

-- The error of the writer is dropped.
abbrev pub write_entry : Request → Response → Option (Uuid × String × Uuid × String) → M Response
write_entry r answer none = pure answer
write_entry r answer (some (user_id, entity_type, entity_id, operation)) = do
  attempt (Log.create user_id entity_type entity_id operation r.body)
  pure answer

-- `uuid.Parse` of github.com/google/uuid is a parameter.
module _ (parse_uuid : String → Option Uuid) where
  unfoldable pub extract_entity_id_from_response : Response → String → Option Uuid
  unfolding lookup trim_space
  extract_entity_id_from_response answer key = and_then (fields_of answer.body) λ response.
      and_then (lookup key response) λ raw. and_then (fields_of (some raw)) λ entity.
        and_then (lookup "id" entity)
          λ id. and_then (as_text id) λ value. parse_uuid (trim_space value)

  -- The id of the path, if there is one, or else the one that is answered; a budget that is set has
  -- always the latter.
  unfoldable pub extract_entity_id : Request → Response → String → Option Uuid
  unfolding extract_entity_id_from_response trim_space to_lower
  extract_entity_id r answer entity_type =
      if str_eq entity_type "budget" && str_eq (to_lower r.method) "post"
      then extract_entity_id_from_response answer "budget"
      else if not (is_empty (trim_space r.id_param))
      then parse_uuid (trim_space r.id_param)
      else if str_eq entity_type "budget"
      then none
      else extract_entity_id_from_response answer entity_type

  unfoldable pub logged_user : Request → Option Uuid
  unfolding trim_space
  logged_user r =
      let raw = trim_space (or_blank r.user_id) in if is_empty raw then none else parse_uuid raw

  unfoldable pub log_entry : Request → Response → Option (Uuid × String × Uuid × String)
  unfolding logged_user extract_entity_operation extract_entity_id
  log_entry r answer =
      if leb 400 answer.status
      then none
      else and_then (logged_user r) λ user_id.
        and_then (extract_entity_operation r)
          λ operation. entry_with user_id operation (extract_entity_id r answer operation.0)

  unfoldable pub sync_log : Bool → Handler → Handler
  unfolding log_entry Log.create ◌>>=◌
  sync_log has_writer next r = next r >>= λ answer.
      if not has_writer then pure answer else write_entry r answer (log_entry r answer)

-- ===== src/Http/Wallets.antt =====
-- delivery/http/handler/wallet_handler.go: the handlers of requests for wallets, as
-- delivery/http/router/wallet_routes.go sets them up.
use mali.Prelude.{ℕ, Option, none, some, ◌⊎◌, inl, inr, List, [], ◌∷◌, String}
use mali.Prelude.Tests.{if◌then◌else◌}
use mali.Prelude.Text.{trim_space, is_empty}
use mali.Time.{Time}
use mali.Domain.{Uuid, Wallet}
use mali.Json.{Json, Items, text, boolean, array, object, field, end, nil, cons}
use mali.Context.{Error, ok, err, validation, M, pure, attempt, ◌>>=◌}
use mali.Wallet.{WalletService, create_wallet, list_wallets, update_name, delete}
use mali.Http.{Request, Response, Handler}

pub record CreateWalletRequest : Type 0 where
  pub name : String
  pub currency : String
  pub wallet_type : String
  pub balance : String

pub record UpdateWalletRequest : Type 0 where
  pub name : String

-- What the handlers use of other libraries: github.com/google/uuid, `BodyParser` of
-- github.com/gofiber/fiber, `Struct` of github.com/go-playground/validator with its error, and `Format`
-- of Go's time.
pub record HandlerLibrary : Type 0 where
  pub parse_uuid : String → Option Uuid
  pub show_uuid : Uuid → String
  pub format_time : Time → String
  pub parse_create : Request → Option CreateWalletRequest
  pub parse_update : Request → Option UpdateWalletRequest
  pub refuse_create : CreateWalletRequest → Option String
  pub refuse_update : UpdateWalletRequest → Option String

unfoldable pub respond_error : ℕ → String → String → Response
respond_error status code message = record {
  status = status;
  body = some (
      object (
        field "error" (object (field "code" (text code) (field "message" (text message) end)))
          end));
}

abbrev pub success : ℕ → String → Json → Response
success status key value = record { status = status; body = some (object (field key value end)) }

abbrev pub map_wallet_error : Error → ℕ × String
map_wallet_error e = elim e.sentinel [
  | validation ↦ (400, "VALIDATION_ERROR")
  | _ ↦ (500, "INTERNAL_ERROR")
]

abbrev pub respond_wallet_error : Error → Response
respond_wallet_error e =
    let (status, code) = map_wallet_error e in respond_error status code e.message

abbrev pub invalid_request : Response
invalid_request = respond_error 400 "INVALID_REQUEST" "invalid request payload"

abbrev pub validation_error : String → Response
validation_error message = respond_error 400 "VALIDATION_ERROR" message

abbrev or_blank : Option String → String
or_blank none = ""
or_blank (some s) = s

-- A text that is not blank, read as an id; what is said if it is missing, and if it cannot be read.
abbrev parsed : String → Option Uuid → String ⊎ Uuid
parsed message none = inl message
parsed message (some id) = inr id

module _ (l : HandlerLibrary) where
  unfoldable pub authenticated_user_id : Request → String ⊎ Uuid
  unfolding trim_space
  authenticated_user_id r =
      let raw = trim_space (or_blank r.user_id) in
      if is_empty raw
      then inl "missing authenticated user"
      else parsed "invalid authenticated user" (l.parse_uuid raw)

  unfoldable pub wallet_id_param : Request → String ⊎ Uuid
  unfolding trim_space
  wallet_id_param r =
      let raw = trim_space r.id_param in
      if is_empty raw
      then inl "wallet id is required"
      else parsed "invalid wallet id" (l.parse_uuid raw)

  unfoldable pub to_wallet_response : Wallet → Json
  to_wallet_response w = object (
      field "id" (text (l.show_uuid w.id)) (
        field "name" (text w.name) (
          field "currency" (text w.currency) (
            field "wallet_type" (text w.wallet_type) (
              field "balance" (text w.balance) (
                field "running_balance" (text w.balance) (
                  field "is_active" (boolean w.is_active)
                    (field "created_at" (text (l.format_time w.created_at)) end))))))))

  unfoldable pub wallet_items : List Wallet → Items
  unfolding to_wallet_response
  wallet_items [] = nil
  wallet_items (w ∷ ws) = cons (to_wallet_response w) (wallet_items ws)

  -- A call of the service, and its answer or its error.
  abbrev pub answer : {A : Type 0} → (A → Response) → M A → M Response
  answer show m =
      attempt m >>= λ o. elim o [ ok a ↦ pure (show a) | err e ↦ pure (respond_wallet_error e) ]

  module _ (s : WalletService) where
    abbrev pub for_authenticated : (Uuid → M Response) → String ⊎ Uuid → M Response
    for_authenticated serve (inl message) = pure (respond_error 401 "UNAUTHORIZED" message)
    for_authenticated serve (inr user_id) = serve user_id

    -- Each handler begins so. The service is there, as cmd/api/main.go gives it; `ensureConfigured` then
    -- does nothing.
    unfoldable pub for_user : (Uuid → M Response) → Handler
    unfolding authenticated_user_id respond_error
    for_user serve r = for_authenticated serve (authenticated_user_id r)

    unfoldable pub handle_list_wallets : Handler
    unfolding for_user wallet_items ◌>>=◌
    handle_list_wallets = for_user λ user_id.
        answer (λ wallets. success 200 "wallets" (array (wallet_items wallets)))
          (list_wallets s user_id)

    abbrev pub trimmed : CreateWalletRequest → CreateWalletRequest
    trimmed q = record {
      name = trim_space q.name;
      currency = trim_space q.currency;
      wallet_type = trim_space q.wallet_type;
      balance = trim_space q.balance;
    }

    abbrev pub create_checked : Uuid → CreateWalletRequest → Option String → M Response
    create_checked user_id q (some message) = pure (validation_error message)
    create_checked user_id q none =
        answer (λ w. success 201 "wallet" (to_wallet_response w))
          (create_wallet s (record {
            user_id = user_id;
            name = q.name;
            currency = q.currency;
            wallet_type = q.wallet_type;
            balance = q.balance;
          }))

    abbrev pub create_parsed : Uuid → Option CreateWalletRequest → M Response
    create_parsed user_id none = pure invalid_request
    create_parsed user_id (some q) =
        create_checked user_id (trimmed q) (l.refuse_create (trimmed q))

    unfoldable pub handle_create_wallet : Handler
    unfolding for_user to_wallet_response respond_error trim_space ◌>>=◌
    handle_create_wallet r = for_user (λ user_id. create_parsed user_id (l.parse_create r)) r

    abbrev pub done : String → Unit {0} → Response
    done message u = success 200 "message" (text message)

    abbrev pub update_checked : Uuid → Uuid → UpdateWalletRequest → Option String → M Response
    update_checked user_id wallet_id q (some message) = pure (validation_error message)
    update_checked user_id wallet_id q none =
        answer (done "wallet updated successfully")
          (update_name s (record { user_id = user_id; wallet_id = wallet_id; name = q.name }))

    abbrev pub update_parsed : Uuid → Uuid → Option UpdateWalletRequest → M Response
    update_parsed user_id wallet_id none = pure invalid_request
    update_parsed user_id wallet_id (some q) =
        let t : UpdateWalletRequest = record { name = trim_space q.name } in
        update_checked user_id wallet_id t (l.refuse_update t)

    abbrev pub update_of : Request → Uuid → String ⊎ Uuid → M Response
    update_of r user_id (inl message) = pure (validation_error message)
    update_of r user_id (inr wallet_id) = update_parsed user_id wallet_id (l.parse_update r)

    unfoldable pub handle_update_wallet : Handler
    unfolding for_user wallet_id_param respond_error trim_space ◌>>=◌
    handle_update_wallet r = for_user (λ user_id. update_of r user_id (wallet_id_param r)) r

    abbrev pub delete_of : Uuid → String ⊎ Uuid → M Response
    delete_of user_id (inl message) = pure (validation_error message)
    delete_of user_id (inr wallet_id) =
        answer (done "wallet deleted successfully")
          (delete s (record { user_id = user_id; wallet_id = wallet_id }))

    unfoldable pub handle_delete_wallet : Handler
    unfolding for_user wallet_id_param respond_error ◌>>=◌
    handle_delete_wallet r = for_user (λ user_id. delete_of user_id (wallet_id_param r)) r

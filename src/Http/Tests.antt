-- ===== src/Http/Tests.antt =====
-- Runs of the middleware, and instances of what is shown of it.
use mali.Prelude.{
  ℕ, ◌≡◌, ◌≤◌, refl, ◌⊎◌, inl, inr, true, false, Option, none, some, List, [], ◌∷◌, String, str_eq,
  arith,
}
use mali.Prelude.Tests.{if◌then◌else◌}
use mali.Prelude.Lists.{exists, find, update, head?}
use mali.Prelude.Text.{trim_space, to_lower, to_upper}
use mali.Domain.{Uuid}
use mali.Json.{text, object, field, end}
use mali.Context.{Result, ok, World, pure, ◌>>=◌}
use mali.Sample.{steady, world, cash}
use mali.Http.{Request, Response, Handler}
use mali.Wallet.{WalletService, update_name, get_owned_wallet}
use mali.Wallet.Repo
use mali.Wallet.Isolation.{UniqueIds}
use mali.Http.Wallets.{
  HandlerLibrary, authenticated_user_id, wallet_id_param, for_user, handle_update_wallet,
}
use mali.Http.Owner.{patch_one, routed, IsOwn, jwt_auth-IsOwn}
use mali.Http.Guard.{ParseWithClaims, split_once, bearer_token, hand_on, jwt_auth, unauthorized}
use mali.Http.Admitted.{IsRefused, IsAdmitted, jwt_auth-IsAdmitted}
use mali.Http.Limit.{Visit, limited, zadd, sliding_window, oldest, retry_after, auth_rate_limit}
use mali.Http.Window.{after_visits, admitted_count, admitted_count_le}
use mali.Http.SyncLog.{
  path_segments, extract_entity_operation, extract_entity_id, logged_user, log_entry, sync_log,
}

-- A goal is contributed to.
abbrev contribution : Request
contribution = record {
  method = "POST";
  path = "/v1/goals/7/contribute";
  authorization = "  bEARER  abc ";
  id_param = "7";
  body = some (object (field "amount" (text "5") end));
  user_id = none;
  request_id = none;
}

abbrev authenticated : Request
authenticated = record contribution { user_id = some "1" }

abbrev echo : Handler
echo r = pure (record { status = 201; body = r.body })

-- A library that reads the token `abc`, and one that reads a digit or two.
abbrev reads_abc : ParseWithClaims
reads_abc secret token time =
    if str_eq token "abc" then some (record { token_type = "access"; subject = "1" }) else none

abbrev reads_digits : String → Option Uuid
reads_digits s = if str_eq s "1" then some 1 else if str_eq s "7" then some 7 else none

token_found : bearer_token "  bEARER  abc " ≡ inr "abc"
unfolding bearer_token split_once trim_space to_lower
token_found = refl

no_scheme : bearer_token "abc" ≡ inl "invalid authorization header format"
unfolding bearer_token split_once trim_space to_lower
no_scheme = refl

lets_through :
    (jwt_auth reads_abc "secret" echo contribution steady world).0
    ≡ ok (record { status = 201; body = contribution.body })
unfolding jwt_auth bearer_token split_once hand_on trim_space to_lower ◌>>=◌
lets_through = refl

refuses_others :
    (jwt_auth (λ secret token time. none) "secret" echo contribution steady world).0
    ≡ ok (unauthorized contribution "invalid or expired token")
unfolding jwt_auth bearer_token split_once hand_on unauthorized trim_space to_lower ◌>>=◌
refuses_others = refl

jwt_auth-IsAdmitted_example :
    IsRefused reads_abc "secret" echo contribution steady world
    ⊎ IsAdmitted reads_abc "secret" echo contribution steady world
jwt_auth-IsAdmitted_example = jwt_auth-IsAdmitted reads_abc "secret" echo contribution steady world

abbrev visit : ℕ → String → Visit
visit now name = record {
  ip = "10.0.0.1";
  now = now;
  name = name;
  script_fails = false;
  range_fails = false;
}

-- Three requests of one address within a second, the last one first.
abbrev crowd : List Visit
crowd = visit 900 "c" ∷ visit 500 "b" ∷ visit 100 "a" ∷ []

third_is_limited :
    (auth_rate_limit true 2 1000
      (visit 900 "c")
      (after_visits 2 1000 (visit 500 "b" ∷ visit 100 "a" ∷ []))).0
    ≡ limited 1
unfolding auth_rate_limit after_visits sliding_window zadd oldest retry_after
third_is_limited = refl

two_are_admitted : admitted_count 2 1000 "10.0.0.1" 900 crowd ≡ 2
unfolding admitted_count after_visits auth_rate_limit sliding_window zadd
two_are_admitted = refl

admitted_count_le_example : admitted_count 2 1000 "10.0.0.1" 900 crowd ≤ 2
unfolding exists
admitted_count_le_example =
    admitted_count_le 2 1000 "10.0.0.1" 900 crowd
      (omega arith, refl, (omega arith, refl, (omega arith, refl, tt)))

splits : path_segments "/v1/goals/" ≡ "v1" ∷ "goals" ∷ []
unfolding path_segments
splits = refl

operation_found : extract_entity_operation authenticated ≡ some ("goal", "contribute")
unfolding extract_entity_operation path_segments trim_space to_upper
operation_found = refl

entry_found :
    log_entry reads_digits authenticated (record { status = 201; body = none })
    ≡ some (1, "goal", 7, "contribute")
unfolding log_entry logged_user extract_entity_operation extract_entity_id path_segments trim_space
    to_upper to_lower
entry_found = refl

abbrev library : HandlerLibrary
library = record {
  parse_uuid = λ s. if str_eq s "11" then some 11 else reads_digits s;
  show_uuid = λ u. "id";
  format_time = λ t. "time";
  parse_create = λ r. none;
  parse_update = λ r. some (record { name = " Purse " });
  refuse_create = λ q. none;
  refuse_update = λ q. none;
}

abbrev service : WalletService
service = record { has_repository = true; supported_currencies = "USD" ∷ [] }

abbrev renaming : Request
renaming = record contribution { method = "PATCH"; path = "/v1/wallets/11"; id_param = "11" }

abbrev after_renaming : Result Response × World
after_renaming = routed library service reads_abc "secret" true patch_one renaming steady world

was_renamed : head? after_renaming.1.db.wallets ≡ some (record cash { name = "Purse" })
unfolding jwt_auth bearer_token split_once hand_on sync_log log_entry logged_user
    extract_entity_operation extract_entity_id path_segments handle_update_wallet wallet_id_param
    authenticated_user_id for_user trim_space to_lower to_upper update_name get_owned_wallet
    Repo.find_by_id Repo.update_name find update ◌>>=◌
was_renamed = refl

world-UniqueIds : UniqueIds world.db.wallets
unfolding find
world-UniqueIds = ground arith

jwt_auth-IsOwn_example :
    (after_renaming.1.db.wallets ≡ world.db.wallets)
    ⊎ IsOwn library service reads_abc "secret" true patch_one renaming steady world
jwt_auth-IsOwn_example =
    jwt_auth-IsOwn library service reads_abc "secret" true patch_one renaming steady world
      world-UniqueIds

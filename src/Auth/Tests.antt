-- ===== src/Auth/Tests.antt =====
-- Tokens on concrete inputs.
use mali.Prelude.{◌≡◌, ◌≢◌, ◌+◌, refl, true, none, some, [], ◌∷◌, str_eq, ◌^^◌}
use mali.Prelude.Tests.{if◌then◌else◌}
use mali.Prelude.Lists.{find, update, exists}
use mali.Prelude.Text.{trim_space}
use mali.Time.{hour}
use mali.Domain.{RefreshToken}
use mali.Context.{ok, World, ◌>>=◌}
use mali.Sample.{steady, world, tables, today}
use mali.Auth.Repo
use mali.Auth.Service.{
  TokenLibrary, AuthService, RefreshTokenInput, RefreshTokenOutput, LogoutInput, exchange, rotate,
  check_stored, issue, parse_refresh_token, parse_user_id_from_claims, generate_token, hash_token,
  refresh_token_use_case, logout_use_case,
}
use mali.Auth.Rotation.{refresh_token_use_case-once, refresh_token_use_case-logout_use_case}

-- Signed texts and digests that show what they are made of.
abbrev library : TokenLibrary
library = record {
  sign =
      λ secret c. ok (secret ^^ (if str_eq c.token_type "refresh" then ":refresh" else ":access"));
  parse = λ secret token t. some (record { token_type = "refresh"; subject = some "1" });
  digest = λ value. "digest " ^^ value;
  parse_uuid = λ text. some 1;
}

abbrev service : AuthService
service = record { has_users = true; has_tokens = true; access_secret = "a"; refresh_secret = "b" }

abbrev stored : RefreshToken
stored = record {
  id = 41;
  user_id = 1;
  token_hash = "digest first";
  device_id = "phone";
  expires_at = today + hour;
  revoked_at = none;
  created_at = today;
}

abbrev logged_in : World
logged_in = record world { db = record tables { refresh_tokens = stored ∷ [] } }

abbrev request : RefreshTokenInput
request = record { refresh_token = "first"; device_id = "phone" }

abbrev tokens : RefreshTokenOutput
tokens = record { access_token = "a:access"; refresh_token = "b:refresh" }

exchanged : (refresh_token_use_case library service request steady logged_in).0 ≡ ok tokens
unfolding refresh_token_use_case exchange parse_refresh_token parse_user_id_from_claims rotate
    check_stored issue generate_token hash_token Repo.find_by_token_hash Repo.revoke_by_id
    Repo.create ◌>>=◌ find update exists trim_space
exchanged = refl

refresh_token_use_case-once_example :
    (refresh_token_use_case library service request steady
      (refresh_token_use_case library service request steady logged_in).1).0
    ≢ ok tokens
refresh_token_use_case-once_example =
    refresh_token_use_case-once library service request request steady steady logged_in
      (refresh_token_use_case library service request steady logged_in).1 tokens tokens refl
      exchanged refl

abbrev leaving : LogoutInput
leaving = record { refresh_token = " first " }

logged_out : (logout_use_case library service leaving steady logged_in).0 ≡ ok tt
unfolding logout_use_case hash_token Repo.find_by_token_hash Repo.revoke_by_id ◌>>=◌ find update
    trim_space
logged_out = refl

same_token : trim_space "first" ≡ trim_space " first "
unfolding trim_space
same_token = refl

refresh_token_use_case-logout_use_case_example :
    (refresh_token_use_case library service request steady
      (logout_use_case library service leaving steady logged_in).1).0
    ≢ ok tokens
refresh_token_use_case-logout_use_case_example =
    refresh_token_use_case-logout_use_case library service leaving request steady steady logged_in
      (logout_use_case library service leaving steady logged_in).1 tokens same_token logged_out refl

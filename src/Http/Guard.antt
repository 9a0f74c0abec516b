-- ===== src/Http/Guard.antt =====
-- delivery/http/middleware/jwt_auth.go. The header's scheme is compared by ASCII letters.
use Prim.Native.Char.{Char, code}
use mali.Prelude.{ℕ, Option, none, some, ◌⊎◌, inl, inr, String, str_eq}
use mali.Prelude.Tests.{◌==◌, if◌then◌else◌, not}
use mali.Prelude.Text.{trim_space, to_lower, is_empty}
use mali.Time.{Time}
use mali.Json.{text, object, field, end}
use mali.Context.{M, pure, now, ◌>>=◌}
use mali.Http.{Request, Response, Handler}

-- What is read of a token; an absent claim is an empty text.
pub record AccessTokenClaims : Type 0 where
  pub token_type : String
  pub subject : String

-- `jwt.ParseWithClaims` of github.com/golang-jwt/jwt with the key function of the source, by secret,
-- token and time: the claims of a valid token that is signed with HS256 and the secret.
abbrev pub ParseWithClaims : Type 0
ParseWithClaims = String → String → Time → Option AccessTokenClaims

abbrev or_blank : Option String → String
or_blank none = ""
or_blank (some s) = s

unfoldable pub unauthorized : Request → String → Response
unauthorized r message = record {
  status = 401;
  body = some (
      object (
        field "error"
          (object (
            field "code" (text "UNAUTHORIZED") (
              field "message" (text message)
                (field "request_id" (text (or_blank r.request_id)) end))))
          end));
}

abbrev pub before_too : Char → Option (String × String) → Option (String × String)
before_too c none = none
before_too c (some (a, b)) = some (String.◌∷◌ c a, b)

-- `strings.SplitN` into two parts, if the separator occurs.
unfoldable pub split_once : ℕ → String → Option (String × String)
split_once separator String.[] = none
split_once separator (String.◌∷◌ c s) =
    let rest = split_once separator s in
    if code c == separator then some (String.[], s) else before_too c rest

-- The token behind a scheme, or what is wrong.
abbrev token_after : String → String → String ⊎ String
token_after scheme rest =
    if not (str_eq (to_lower scheme) "bearer")
    then inl "invalid authorization header format"
    else if is_empty (trim_space rest)
    then inl "missing bearer token"
    else inr (trim_space rest)

abbrev token_of_parts : Option (String × String) → String ⊎ String
token_of_parts none = inl "invalid authorization header format"
token_of_parts (some (scheme, rest)) = token_after scheme rest

unfoldable pub bearer_token : String → String ⊎ String
unfolding split_once trim_space to_lower
bearer_token authorization =
    let header = trim_space authorization in
    if is_empty header
    then inl "missing authorization header"
    else token_of_parts (split_once 32 header)

-- The request with the user whom the claims name, handed on.
unfoldable pub hand_on : Handler → Request → Option AccessTokenClaims → M Response
unfolding unauthorized
hand_on next r none = pure (unauthorized r "invalid or expired token")
hand_on next r (some claims) =
    if not (str_eq claims.token_type "access")
    then pure (unauthorized r "invalid token type")
    else if is_empty claims.subject
    then pure (unauthorized r "missing token subject")
    else next (record r { user_id = some claims.subject })

module _ (parse : ParseWithClaims) (access_secret : String) (next : Handler) where
  abbrev with_token : Request → String ⊎ String → M Response
  with_token r (inl message) = pure (unauthorized r message)
  with_token r (inr token) =
      now >>= λ time. hand_on next r (parse (trim_space access_secret) token time)

  unfoldable pub jwt_auth : Handler
  unfolding bearer_token hand_on unauthorized trim_space ◌>>=◌
  jwt_auth r =
      if is_empty (trim_space access_secret)
      then pure (unauthorized r "auth middleware is not configured")
      else with_token r (bearer_token r.authorization)

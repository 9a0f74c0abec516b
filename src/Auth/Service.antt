-- ===== src/Auth/Service.antt =====
-- RefreshTokenUseCase and LogoutUseCase of usecase/auth_service.go.
use mali.Prelude.{◌+◌, ◌*◌, ◌/◌, Bool, true, false, Option, none, some, ◌&&◌, ◌||◌, String, str_eq}
use mali.Prelude.Tests.{◌==◌, if◌then◌else◌, not}
use mali.Prelude.Text.{trim_space, is_empty}
use mali.Time.{Time, second, minute, hour, after}
use mali.Domain.{Uuid, RefreshToken}
use mali.Context.{
  Error, Result, failure, invalid, unauthorised, wrapped, is_not_found, M, pure, lift, or_raise,
  on_error, raise_if, now, new_uuid, ◌>>=◌, ◌>>◌,
}
use mali.Auth.Repo

-- The claims that the service signs, and those that it reads: the times are in seconds, and a claim that
-- is absent or no text is an empty token type, or no subject.
pub record SignedClaims : Type 0 where
  pub subject : Uuid
  pub jti : Uuid
  pub token_type : String
  pub issued_at : Time
  pub expires_at : Time

pub record ReadClaims : Type 0 where
  pub token_type : String
  pub subject : Option String

-- What the service uses of github.com/golang-jwt/jwt, crypto/sha256 and github.com/google/uuid.
pub record TokenLibrary : Type 0 where
  -- `SignedString` with HS256, by secret
  pub sign : String → SignedClaims → Result String
  -- `ParseWithClaims` at a time: the claims of a token that is signed with the secret and valid
  pub parse : String → String → Time → Option ReadClaims
  -- the hexadecimal SHA-256 sum
  pub digest : String → String
  pub parse_uuid : String → Option Uuid

pub record RefreshTokenInput : Type 0 where
  pub refresh_token : String
  pub device_id : String

pub record RefreshTokenOutput : Type 0 where
  pub access_token : String
  pub refresh_token : String

pub record LogoutInput : Type 0 where
  pub refresh_token : String

-- Whether the repositories are set, and the secrets.
pub record AuthService : Type 0 where
  pub has_users : Bool
  pub has_tokens : Bool
  pub access_secret : String
  pub refresh_secret : String

abbrev pub access_token_ttl : Time
access_token_ttl = 15 * minute

abbrev pub refresh_token_ttl : Time
refresh_token_ttl = 30 * (24 * hour)

abbrev pub claims_of : Uuid → Time → Time → String → Uuid → SignedClaims
claims_of user_id time ttl token_type jti = record {
  subject = user_id;
  jti = jti;
  token_type = token_type;
  issued_at = time / second;
  expires_at = (time + ttl) / second;
}

abbrev pub token_record : Uuid → Uuid → String → String → Time → RefreshToken
token_record id user_id hash device_id time = record {
  id = id;
  user_id = user_id;
  token_hash = hash;
  device_id = device_id;
  expires_at = time + refresh_token_ttl;
  revoked_at = none;
  created_at = time;
}

abbrev pub not_configured : Error
not_configured = failure "auth service dependencies are not configured"

abbrev pub lookup_error : Error → Error
lookup_error e =
    if is_not_found e
    then unauthorised "refresh token not found"
    else wrapped "find refresh token" e

module _ (l : TokenLibrary) (s : AuthService) where
  unfoldable pub hash_token : String → String
  hash_token value = l.digest value

  unfoldable pub generate_token : Uuid → Time → Time → String → String → M String
  generate_token user_id time ttl token_type secret = do
    jti ← new_uuid
    lift (l.sign secret (claims_of user_id time ttl token_type jti))

  unfoldable pub parse_refresh_token : String → M ReadClaims
  parse_refresh_token token = do
    time ← now
    claims ← or_raise (l.parse s.refresh_secret token time) (unauthorised "invalid refresh token")
    raise_if (not (str_eq claims.token_type "refresh")) (unauthorised "invalid token type")
    pure claims

  unfoldable pub parse_user_id_from_claims : ReadClaims → Option Uuid
  parse_user_id_from_claims claims = elim claims.subject [
    | none ↦ none
    | some sub ↦ if is_empty (trim_space sub) then none else l.parse_uuid sub
  ]

  -- The checks of the stored token.
  unfoldable pub check_stored : RefreshToken → Time → String → Uuid → M (Unit {0})
  check_stored stored time device_id user_id = do
    raise_if (elim stored.revoked_at [ none ↦ false | some _ ↦ true ])
        (unauthorised "refresh token revoked")
    raise_if (after time stored.expires_at) (unauthorised "refresh token expired")
    raise_if (not (str_eq stored.device_id device_id)) (unauthorised "invalid refresh token device")
    raise_if (not (stored.user_id == user_id)) (unauthorised "invalid refresh token subject")

  -- The two tokens that take the place of the old one; the second is stored.
  unfoldable pub issue : Uuid → String → Time → M RefreshTokenOutput
  unfolding generate_token hash_token
  issue user_id device_id time = do
    access_token ←
        on_error (wrapped "generate access token")
          (generate_token user_id time access_token_ttl "access" s.access_secret)
    refresh_token ←
        on_error (wrapped "generate refresh token")
          (generate_token user_id time refresh_token_ttl "refresh" s.refresh_secret)
    id ← new_uuid
    on_error (wrapped "store refresh token")
        (Repo.create (token_record id user_id (hash_token refresh_token) device_id time))
    pure (record { access_token = access_token; refresh_token = refresh_token })

  -- RefreshTokenUseCase from the lookup of the stored token on.
  unfoldable pub rotate : String → String → Uuid → M RefreshTokenOutput
  unfolding hash_token check_stored issue
  rotate refresh_token device_id user_id = do
    time ← now
    stored ← on_error lookup_error (Repo.find_by_token_hash (hash_token refresh_token))
    check_stored stored time device_id user_id
    on_error (wrapped "revoke refresh token") (Repo.revoke_by_id stored.id time)
    issue user_id device_id time

  -- RefreshTokenUseCase for a token and a device that are not empty.
  unfoldable pub exchange : String → String → M RefreshTokenOutput
  unfolding parse_refresh_token parse_user_id_from_claims rotate
  exchange refresh_token device_id = do
    claims ← parse_refresh_token refresh_token
    user_id ← or_raise (parse_user_id_from_claims claims) (unauthorised "invalid refresh token")
    rotate refresh_token device_id user_id

  unfoldable pub refresh_token_use_case : RefreshTokenInput → M RefreshTokenOutput
  unfolding exchange
  refresh_token_use_case input = do
    raise_if (not (s.has_users && s.has_tokens)) not_configured
    raise_if (is_empty s.access_secret || is_empty s.refresh_secret)
        (failure "jwt secrets are not configured")
    let refresh_token = trim_space input.refresh_token
    let device_id = trim_space input.device_id
    raise_if (is_empty refresh_token) (invalid "refresh token is required")
    raise_if (is_empty device_id) (invalid "device_id is required")
    exchange refresh_token device_id

  unfoldable pub logout_use_case : LogoutInput → M (Unit {0})
  unfolding hash_token
  logout_use_case input = do
    raise_if (not s.has_tokens) not_configured
    let refresh_token = trim_space input.refresh_token
    raise_if (is_empty refresh_token) (invalid "refresh token is required")
    stored ← on_error lookup_error (Repo.find_by_token_hash (hash_token refresh_token))
    time ← now
    on_error (wrapped "revoke refresh token") (Repo.revoke_by_id stored.id time)

-- ===== src/Auth/Accounts.antt =====
-- RegisterUseCase and LoginUseCase of usecase/auth_service.go.
use mali.Prelude.{Bool, true, false, Option, none, some, ◌&&◌, ◌||◌, String}
use mali.Prelude.Tests.{if◌then◌else◌, not}
use mali.Prelude.Text.{trim_space, is_empty}
use mali.Domain.{Uuid, User}
use mali.Context.{
  Error, Result, ok, err, unique_violation, failure, invalid, conflicting, unauthorised, wrapped,
  is_not_found, M, pure, lift, or_raise, on_error, raise_if, now, new_uuid, ◌>>=◌, ◌>>◌,
}
use mali.Auth.Users
use mali.Auth.Service.{TokenLibrary, AuthService, RefreshTokenOutput, not_configured, issue}

-- What the service uses of golang.org/x/crypto/bcrypt.
pub record PasswordLibrary : Type 0 where
  -- `GenerateFromPassword`: it draws a salt, and refuses passwords of more than 72 bytes
  pub hash : Uuid → String → Result String
  -- `CompareHashAndPassword` finds that they fit
  pub fits : String → String → Bool

pub record RegisterInput : Type 0 where
  pub email : String
  pub phone : String
  pub name : String
  pub password : String

pub record LoginInput : Type 0 where
  pub email : String
  pub phone : String
  pub password : String
  pub device_id : String

pub record LoginOutput : Type 0 where
  pub access_token : String
  pub refresh_token : String
  pub user : User

unfoldable pub new_auth_service : Bool → Bool → String → String → Result AuthService
unfolding trim_space
new_auth_service users tokens access_secret refresh_secret =
    if is_empty (trim_space access_secret)
    then err (invalid "access token secret is required")
    else if is_empty (trim_space refresh_secret)
    then err (invalid "refresh token secret is required")
    else ok (record {
      has_users = users;
      has_tokens = tokens;
      access_secret = access_secret;
      refresh_secret = refresh_secret;
    })

unfoldable pub normalize_optional_field : String → Option String
normalize_optional_field value = let v = trim_space value in if is_empty v then none else some v

abbrev pub is_given : Option String → Bool
is_given none = false
is_given (some _) = true

abbrev pub is_unique_constraint_violation : Error → Bool
is_unique_constraint_violation e = elim e.sentinel [ unique_violation ↦ true | _ ↦ false ]

abbrev pub register_error : Error → Error
register_error e =
    if is_unique_constraint_violation e
    then conflicting "user already exists"
    else wrapped "create user" e

-- RegisterUseCase from the hash of the password on.
unfoldable pub sign_up : PasswordLibrary → Option String → Option String → String → String → M User
sign_up passwords email phone name password = do
  salt ← new_uuid
  password_hash ← on_error (wrapped "hash password") (lift (passwords.hash salt password))
  on_error register_error (
      Users.create
        (record { email = email; phone = phone; name = name; password_hash = some password_hash }))

unfoldable pub register_use_case : PasswordLibrary → AuthService → RegisterInput → M User
unfolding normalize_optional_field sign_up
register_use_case passwords s input = do
  raise_if (not s.has_users) (failure "user repository is not configured")
  let email = normalize_optional_field input.email
  let phone = normalize_optional_field input.phone
  let name = trim_space input.name
  let password = trim_space input.password
  raise_if (not (is_given email || is_given phone)) (invalid "email or phone is required")
  raise_if (is_empty name) (invalid "name is required")
  raise_if (is_empty password) (invalid "password is required")
  sign_up passwords email phone name password

abbrev pub invalid_credentials : Error
invalid_credentials = unauthorised "invalid credentials"

abbrev pub find_error : Error → Error
find_error e = if is_not_found e then invalid_credentials else wrapped "find user" e

-- The email counts if it is given, or else the phone.
abbrev by_phone : Option String → M User
by_phone none = or_raise none (invalid "email or phone is required")
by_phone (some phone) = Users.find_by_phone phone

abbrev by_contact : Option String → Option String → M User
by_contact none phone = by_phone phone
by_contact (some email) phone = Users.find_by_email email

unfoldable pub find_user_for_login : Option String → Option String → M User
find_user_for_login email phone = on_error find_error (by_contact email phone)

-- The hash that there is to compare with.
abbrev pub stored_hash : User → Option String
stored_hash user = elim user.password_hash [
  | none ↦ none
  | some hash ↦ if is_empty (trim_space hash) then none else some hash
]

-- The password fits the user.
unfoldable pub authenticate : PasswordLibrary → User → String → M (Unit {0})
unfolding trim_space
authenticate passwords user password = do
  hash ← or_raise (stored_hash user) invalid_credentials
  raise_if (not (passwords.fits hash password)) invalid_credentials

abbrev pub with_user : User → RefreshTokenOutput → LoginOutput
with_user user tokens = record {
  access_token = tokens.access_token;
  refresh_token = tokens.refresh_token;
  user = user;
}

module _ (l : TokenLibrary) (passwords : PasswordLibrary) (s : AuthService) where
  -- The tokens of a user who has logged in.
  unfoldable pub open_session : User → String → M LoginOutput
  unfolding issue
  open_session user device_id = do
    time ← now
    tokens ← issue l s user.id device_id time
    pure (with_user user tokens)

  -- LoginUseCase from the lookup of the user on.
  unfoldable pub sign_in : Option String → Option String → String → String → M LoginOutput
  unfolding find_user_for_login authenticate open_session
  sign_in email phone password device_id = do
    user ← find_user_for_login email phone
    authenticate passwords user password
    open_session user device_id

  unfoldable pub login_use_case : LoginInput → M LoginOutput
  unfolding normalize_optional_field sign_in
  login_use_case input = do
    raise_if (not (s.has_users && s.has_tokens)) not_configured
    raise_if (is_empty s.access_secret || is_empty s.refresh_secret)
        (failure "jwt secrets are not configured")
    let email = normalize_optional_field input.email
    let phone = normalize_optional_field input.phone
    let password = trim_space input.password
    let device_id = trim_space input.device_id
    raise_if (not (is_given email || is_given phone)) (invalid "email or phone is required")
    raise_if (is_empty password) (invalid "password is required")
    raise_if (is_empty device_id) (invalid "device_id is required")
    sign_in email phone password device_id

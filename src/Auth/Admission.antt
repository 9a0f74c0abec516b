-- ===== src/Auth/Admission.antt =====
-- Registration and login on concrete inputs.
use mali.Prelude.{
  ◌≡◌, refl, sym, subst, true, false, none, some, [], ◌∷◌, String, str_eq, ◌^^◌, ◌+◌,
}
use mali.Prelude.Lists.{find, exists}
use mali.Prelude.Text.{trim_space, is_empty}
use mali.Domain.{User}
use mali.Context.{ok, err, World, ◌>>=◌}
use mali.Sample.{steady, world, tables, today}
use mali.Auth.Users
use mali.Auth.Service.{TokenLibrary, AuthService, issue, generate_token, hash_token}
use mali.Auth.Repo
use mali.Auth.Accounts.{
  PasswordLibrary, RegisterInput, LoginInput, LoginOutput, normalize_optional_field, sign_up,
  sign_in, find_user_for_login, stored_hash, is_given, authenticate, open_session,
  invalid_credentials, register_use_case, login_use_case,
}
use mali.Auth.Enrolment.{
  Registered, UniqueContacts, register_use_case-Registered, register_use_case-UniqueContacts,
}
use mali.Auth.Entry.{IsComplete, account, login_use_case_ok, login_use_case_err}
use mali.Auth.Return.{Fits, login_use_case-register_use_case}

abbrev library : TokenLibrary
library = record {
  sign = λ secret c. ok (secret ^^ c.token_type);
  parse = λ secret token t. none;
  digest = λ value. "digest " ^^ value;
  parse_uuid = λ text. some 1;
}

-- Hashes that show the password.
abbrev passwords : PasswordLibrary
passwords = record {
  hash = λ salt password. ok ("hash " ^^ password);
  fits = λ hash password. str_eq hash ("hash " ^^ password);
}

abbrev service : AuthService
service = record { has_users = true; has_tokens = true; access_secret = "a"; refresh_secret = "b" }

abbrev applicant : RegisterInput
applicant = record { email = " ann@mali.app"; phone = ""; name = "Ann"; password = "secret" }

abbrev entrant : LoginInput
entrant = record { email = "ann@mali.app"; phone = ""; password = "secret "; device_id = "phone" }

abbrev ann : User
ann = record {
  id = 1001;
  email = some "ann@mali.app";
  phone = none;
  name = "Ann";
  password_hash = some "hash secret";
  created_at = today;
  updated_at = today;
}

abbrev enrolled : World
enrolled = record world { db = record tables { users = ann ∷ [] } }

registered : (register_use_case passwords service applicant steady world).0 ≡ ok ann
unfolding register_use_case sign_up normalize_optional_field Users.create ◌>>=◌ trim_space exists
registered = refl

register_use_case-Registered_example :
    Registered passwords applicant ann world.db
      (register_use_case passwords service applicant steady world).1.db
register_use_case-Registered_example =
    register_use_case-Registered passwords service applicant steady world ann registered

twice : UniqueContacts enrolled.db.users
unfolding exists
twice = (refl, refl, tt)

register_use_case-UniqueContacts_example :
    UniqueContacts (register_use_case passwords service applicant steady enrolled).1.db.users
register_use_case-UniqueContacts_example =
    register_use_case-UniqueContacts passwords service applicant steady enrolled twice

abbrev session : LoginOutput
session = record { access_token = "aaccess"; refresh_token = "brefresh"; user = ann }

logged_in : (login_use_case library passwords service entrant steady enrolled).0 ≡ ok session
unfolding login_use_case sign_in find_user_for_login authenticate open_session issue generate_token
    hash_token normalize_optional_field Users.find_by_email Repo.create ◌>>=◌ trim_space find exists
logged_in = refl

login_use_case_ok_example :
    (user : User) × (hash : String) × (account entrant enrolled.db.users ≡ some user)
    × (stored_hash user ≡ some hash)
    × (passwords.fits hash (trim_space entrant.password) ≡ true)
    × (session.user ≡ user)
login_use_case_ok_example =
    login_use_case_ok library passwords service entrant steady enrolled session logged_in

abbrev intruder : LoginInput
intruder = record entrant { password = "guess" }

complete :
    (input : LoginInput)
    → is_given (normalize_optional_field input.email) ≡ true
    → is_empty (trim_space input.password) ≡ false
    → is_empty (trim_space input.device_id) ≡ false
    → IsComplete service input
complete input email password device = (refl, refl, rw email, password, device)

shut_out : IsComplete service intruder
unfolding normalize_optional_field trim_space
shut_out = complete intruder refl refl refl

same_some : {A : Type 0} {a b : A} → some a ≡ some b → a ≡ b
same_some e = cc

wrong :
    (user : User) (hash : String)
    → account intruder enrolled.db.users ≡ some user
    → stored_hash user ≡ some hash
    → passwords.fits hash (trim_space intruder.password) ≡ false
unfolding normalize_optional_field trim_space find
wrong user hash e f =
    let own : stored_hash ann ≡ some hash =
      subst (λ u. stored_hash u ≡ some hash) (same_some (sym e)) f in
    subst (λ h. passwords.fits h (trim_space intruder.password) ≡ false) (same_some own) refl

login_use_case_err_example :
    (login_use_case library passwords service intruder steady enrolled).0 ≡ err invalid_credentials
login_use_case_err_example =
    login_use_case_err library passwords service intruder steady enrolled shut_out refl wrong

welcome : IsComplete service entrant
unfolding normalize_optional_field trim_space
welcome = complete entrant refl refl refl

same_hash : {a b : String} → ok a ≡ ok b → a ≡ b
same_hash e = cc

passwords-Fits : Fits passwords (trim_space applicant.password)
unfolding trim_space
passwords-Fits salt hash e =
    subst (λ h. (passwords.fits h "secret" ≡ true) × (is_empty (trim_space h) ≡ false))
      (same_hash e) (refl, refl)

same_contact : normalize_optional_field applicant.email ≡ some "ann@mali.app"
unfolding normalize_optional_field trim_space
same_contact = refl

own_contact : normalize_optional_field entrant.email ≡ some "ann@mali.app"
unfolding normalize_optional_field trim_space
own_contact = refl

same_password : trim_space entrant.password ≡ trim_space applicant.password
unfolding trim_space
same_password = refl

abbrev signed_up : World
signed_up = (register_use_case passwords service applicant steady world).1

login_use_case-register_use_case_example :
    login_use_case library passwords service entrant steady signed_up
    ≡ open_session library passwords service ann
        (trim_space entrant.device_id)
        steady
        (record signed_up { calls = signed_up.calls + 1 })
login_use_case-register_use_case_example =
    login_use_case-register_use_case library passwords service applicant entrant steady steady world
      signed_up ann "ann@mali.app" passwords-Fits registered same_contact own_contact same_password
      refl welcome refl

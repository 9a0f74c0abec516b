-- ===== src/Auth/Return.antt =====
-- Who registers can log in (Auth/Enrolment, Auth/Entry).
use mali.Prelude.{◌+◌, ◌≡◌, ◌∙◌, ap, true, false, none, some, List, ◌∷◌, String, arith, eq_iff}
use mali.Prelude.Text.{trim_space, is_empty}
use mali.Prelude.Lists.{find}
use mali.Domain.{Uuid, User}
use mali.Context.{ok, Platform, World}
use mali.Context.Success.{bind_run}
use mali.Auth.Service.{TokenLibrary, AuthService}
use mali.Auth.Accounts.{
  PasswordLibrary, RegisterInput, LoginInput, normalize_optional_field, stored_hash, authenticate,
  sign_in, open_session, register_use_case, login_use_case,
}
use mali.Auth.Entry.{IsComplete, account, lookup, entrance, found_some, accepted, login_complete}
use mali.Auth.Enrolment.{register_use_case-Registered}

-- What bcrypt promises of a password: its hash fits it, and is not blank.
abbrev pub Fits : PasswordLibrary → String → Type 0
Fits passwords password =
    (salt : Uuid) (hash : String)
    → passwords.hash salt password ≡ ok hash
    → (passwords.fits hash password ≡ true) × (is_empty (trim_space hash) ≡ false)

first_account :
    (input : LoginInput) (email : String) (u : User) (users : List User)
    → normalize_optional_field input.email ≡ some email
    → u.email ≡ some email
    → account input (u ∷ users) ≡ some u
unfolding find
first_account input email u users e f = ground (arith, eq_iff email email)

own_hash :
    (u : User) (hash : String)
    → u.password_hash ≡ some hash
    → is_empty (trim_space hash) ≡ false
    → stored_hash u ≡ some hash
own_hash u hash e f = ground arith

-- Who has registered with an email and a password can log in with them from then on, as long as the users
-- are those that there were after the registration: if the login's input is complete and the server is
-- reached, it goes on to issue tokens to that user. A hash of the password must fit it, and not be blank.
pub login_use_case-register_use_case :
    (l : TokenLibrary) (passwords : PasswordLibrary) (s : AuthService) (input : RegisterInput)
    (entry : LoginInput) (p p' : Platform) (w w' : World) (u : User) (email : String)
    → Fits passwords (trim_space input.password)
    → (register_use_case passwords s input p w).0 ≡ ok u
    → normalize_optional_field input.email ≡ some email
    → normalize_optional_field entry.email ≡ some email
    → trim_space entry.password ≡ trim_space input.password
    → w'.db.users ≡ (register_use_case passwords s input p w).1.db.users
    → IsComplete s entry
    → p'.fault w'.calls ≡ none
    → login_use_case l passwords s entry p' w'
      ≡ open_session l passwords s u
          (trim_space entry.device_id)
          p'
          (record w' { calls = w'.calls + 1 })
unfolding sign_in
login_use_case-register_use_case l passwords s input entry p p' w w' u email law done given same
      secret users full up =
    let r = register_use_case-Registered passwords s input p w u done in
    let (fits, shown) = law r.salt r.hash r.hashed in
    let there : account entry w'.db.users ≡ some u =
      ap (account entry) (users ∙ ap (λ d. d.users) r.added)
      ∙ first_account entry email u w.db.users same (r.email ∙ given) in
    login_complete l passwords s entry p' w' full
    ∙ bind_run (lookup l passwords s entry) (entrance l passwords s entry) p' w' u _
        (found_some l passwords s entry p' w' u up there)
    ∙ bind_run (authenticate passwords u (trim_space entry.password))
        (λ _. open_session l passwords s u (trim_space entry.device_id)) p' _ tt _
        (accepted l passwords s u r.hash _ p' _ (own_hash u r.hash r.stored shown)
          (ap (passwords.fits r.hash) secret ∙ fits))

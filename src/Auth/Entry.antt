-- ===== src/Auth/Entry.antt =====
-- Who can log in (Auth/Accounts).
use mali.Prelude.{
  ◌+◌, ◌≡◌, ◌&&◌, ◌||◌, refl, ap, ◌∙◌, true, false, none, some, Option, List, inl, inr, arith,
  String,
}
use mali.Prelude.Tests.{Option-cases}
use mali.Prelude.Lists.{find}
use mali.Prelude.Text.{trim_space, is_empty}
use mali.Domain.{User}
use mali.Context.{ok, err, Platform, World, M, ◌>>=◌, ◌>>◌}
use mali.Context.Success.{bind_ok, bind_run, bind_err}
use mali.Auth.Users
use mali.Auth.Users.{with_email, with_phone, taken_by, NewUser}
use mali.Auth.Service.{TokenLibrary, AuthService}
use mali.Auth.Accounts.{
  PasswordLibrary, LoginInput, LoginOutput, is_given, open_session, sign_in,
  normalize_optional_field, invalid_credentials, find_user_for_login, stored_hash, authenticate,
  login_use_case,
}

-- The account that a login is for.
abbrev pub account : LoginInput → List User → Option User
account input users = elim (normalize_optional_field input.email) [
  | some email ↦ find (with_email email) users
  | none ↦ elim (normalize_optional_field input.phone) [
    | some phone ↦ find (with_phone phone) users
    | none ↦ none
  ]
]

module _ (input : LoginInput) (p : Platform) (w : World) where
  found_account :
      (u : User)
      → (find_user_for_login
          (normalize_optional_field input.email)
          (normalize_optional_field input.phone)
          p
          w).0
        ≡ ok u
      → account input w.db.users ≡ some u
  unfolding find_user_for_login Users.find_by_email Users.find_by_phone ◌>>=◌
  found_account u h = ground arith

authenticate_ok :
    (passwords : PasswordLibrary) (u : User) (password : String) (p : Platform) (w : World)
    → (authenticate passwords u password p w).0 ≡ ok tt
    → (hash : String) × (stored_hash u ≡ some hash) × (passwords.fits hash password ≡ true)
unfolding authenticate ◌>>=◌
authenticate_ok passwords u password p w h = elim (Option-cases (stored_hash u)) [
  | inl e ↦ absurd (ground arith)
  | inr (hash, e) ↦ (hash, e, ground arith)
]

-- What the guards of a login want.
abbrev pub IsComplete : AuthService → LoginInput → Type 0
IsComplete s input =
    ((s.has_users && s.has_tokens) ≡ true)
    × ((is_empty s.access_secret || is_empty s.refresh_secret) ≡ false)
    × ((is_given (normalize_optional_field input.email)
          || is_given (normalize_optional_field input.phone))
        ≡ true)
    × (is_empty (trim_space input.password) ≡ false)
    × (is_empty (trim_space input.device_id) ≡ false)

module _ (l : TokenLibrary) (passwords : PasswordLibrary) (s : AuthService) where
  abbrev signed_in : LoginInput → M LoginOutput
  signed_in input =
      sign_in l passwords s (normalize_optional_field input.email)
        (normalize_optional_field input.phone) (trim_space input.password)
        (trim_space input.device_id)

  -- Its two parts.
  abbrev pub lookup : LoginInput → M User
  lookup input =
      find_user_for_login (normalize_optional_field input.email)
        (normalize_optional_field input.phone)

  abbrev pub entrance : LoginInput → User → M LoginOutput
  entrance input user = do
    authenticate passwords user (trim_space input.password)
    open_session l passwords s user (trim_space input.device_id)

  login-signed_in :
      (input : LoginInput) (p : Platform) (w : World) (out : LoginOutput)
      → (login_use_case l passwords s input p w).0 ≡ ok out
      → (signed_in input p w).0 ≡ ok out
  unfolding login_use_case ◌>>=◌
  login-signed_in input p w out h = ground arith

  pub login_complete :
      (input : LoginInput) (p : Platform) (w : World)
      → IsComplete s input
      → login_use_case l passwords s input p w ≡ signed_in input p w
  unfolding login_use_case ◌>>=◌
  login_complete input p w (a, b, c, d, e) = rw (login_use_case, a, b, c, d, e) refl

  open_session_user :
      (u : User) (device : String) (p : Platform) (w : World) (out : LoginOutput)
      → (open_session l passwords s u device p w).0 ≡ ok out
      → out.user ≡ u
  unfolding open_session ◌>>=◌
  open_session_user u device p w out h = ground arith

  -- A login that succeeds is for an account that is there, found by the email or, without one, by the
  -- phone, which has a password hash that the given password fits; it answers with that account.
  pub login_use_case_ok :
      (input : LoginInput) (p : Platform) (w : World) (out : LoginOutput)
      → (login_use_case l passwords s input p w).0 ≡ ok out
      → (user : User) × (hash : String) × (account input w.db.users ≡ some user)
        × (stored_hash user ≡ some hash)
        × (passwords.fits hash (trim_space input.password) ≡ true)
        × (out.user ≡ user)
  unfolding sign_in
  login_use_case_ok input p w out h =
      let (user, q, k, _) = bind_ok _ _ p w out (login-signed_in input p w out h) in
      let (_, r, o, _) = bind_ok _ _ p _ out k in
      let (hash, a, b) = authenticate_ok passwords user (trim_space input.password) p _ r in
      (user, hash, found_account input p w user q, a, b, open_session_user user _ p _ out o)

  found_none :
      (input : LoginInput) (p : Platform) (w : World)
      → p.fault w.calls ≡ none
      → (is_given (normalize_optional_field input.email)
          || is_given (normalize_optional_field input.phone))
        ≡ true
      → account input w.db.users ≡ none
      → (find_user_for_login
          (normalize_optional_field input.email)
          (normalize_optional_field input.phone)
          p
          w).0
        ≡ err invalid_credentials
  unfolding find_user_for_login Users.find_by_email Users.find_by_phone ◌>>=◌
  found_none input p w up given absent = ground arith

  pub found_some :
      (input : LoginInput) (p : Platform) (w : World) (u : User)
      → p.fault w.calls ≡ none
      → account input w.db.users ≡ some u
      → find_user_for_login
          (normalize_optional_field input.email)
          (normalize_optional_field input.phone)
          p
          w
        ≡ (ok u, record w { calls = w.calls + 1 })
  unfolding find_user_for_login Users.find_by_email Users.find_by_phone ◌>>=◌
  found_some input p w u up there = ground arith

  refused :
      (u : User) (password : String) (p : Platform) (w : World)
      → ((hash : String) → stored_hash u ≡ some hash → passwords.fits hash password ≡ false)
      → (authenticate passwords u password p w).0 ≡ err invalid_credentials
  unfolding authenticate ◌>>=◌
  refused u password p w wrong = elim (Option-cases (stored_hash u)) [
    | inl e ↦ ground arith
    | inr (hash, e) ↦ ground (arith, wrong hash e)
  ]

  -- A login without an account and one whose password does not fit are answered alike, with "invalid
  -- credentials", once the input is complete and the server is reached.
  pub login_use_case_err :
      (input : LoginInput) (p : Platform) (w : World)
      → IsComplete s input
      → p.fault w.calls ≡ none
      → ((user : User) (hash : String)
          → account input w.db.users ≡ some user
          → stored_hash user ≡ some hash
          → passwords.fits hash (trim_space input.password) ≡ false)
      → (login_use_case l passwords s input p w).0 ≡ err invalid_credentials
  unfolding sign_in
  login_use_case_err input p w full up wrong =
      ap (λ x. x.0) (login_complete input p w full)
      ∙ elim (Option-cases (account input w.db.users)) [
        | inl absent ↦
            bind_err (lookup input) (entrance input) p w _ (found_none input p w up full.2 absent)
        | inr (u, e) ↦
            ap (λ x. x.0)
              (bind_run (lookup input) (entrance input) p w u _ (found_some input p w u up e))
            ∙ bind_err (authenticate passwords u (trim_space input.password))
                (λ _. open_session l passwords s u (trim_space input.device_id)) p _ _
                (refused u (trim_space input.password) p _ (λ hash. wrong u hash e))
      ]

  pub accepted :
      (u : User) (hash password : String) (p : Platform) (w : World)
      → stored_hash u ≡ some hash
      → passwords.fits hash password ≡ true
      → authenticate passwords u password p w ≡ (ok tt, w)
  unfolding authenticate ◌>>=◌
  accepted u hash password p w e f = ground arith

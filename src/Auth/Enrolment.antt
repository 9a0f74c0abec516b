-- ===== src/Auth/Enrolment.antt =====
-- What a registration stores (Auth/Accounts).
use mali.Prelude.{
  ◌+◌, ◌≡◌, ◌≢◌, ◌||◌, ◌∙◌, refl, sym, subst, ap, false, some, List, [], ◌∷◌, inl, inr, arith,
  Option, String,
}
use mali.Prelude.Text.{trim_space}
use mali.Domain.{Uuid, User}
use mali.Store.{Db}
use mali.Context.{Error, Result, ok, err, Platform, World, on_error, wrapped, ◌>>=◌}
use mali.Context.Frames.{FailsClean, clean_rules}
use mali.Context.Success.{result_cases, on_error_ok}
use mali.Auth.Users
use mali.Auth.Users.{with_email, with_phone, taken_by, NewUser}
use mali.Auth.Service.{AuthService}
use mali.Auth.Accounts.{
  PasswordLibrary, RegisterInput, normalize_optional_field, register_error, sign_up,
  register_use_case,
}

create_ok :
    (new : NewUser) (p : Platform) (w : World) (u : User)
    → (Users.create new p w).0 ≡ ok u
    → (u.email ≡ new.email)
      × (u.phone ≡ new.phone)
      × (u.password_hash ≡ new.password_hash)
      × ((taken_by with_email new.email w.db.users || taken_by with_phone new.phone w.db.users)
          ≡ false)
      × ((Users.create new p w).1.db ≡ Users.set_users (λ users. u ∷ users) w.db)
unfolding Users.create ◌>>=◌
create_ok new p w u h = (ground arith, ground arith, ground arith, ground arith, ground arith)

-- What a registration has stored.
pub record Registered (passwords : PasswordLibrary) (input : RegisterInput) (u : User)
    (old new : Db) : Type 0 where
  pub salt : Uuid
  pub hash : String
  pub hashed : passwords.hash salt (trim_space input.password) ≡ ok hash
  pub email : u.email ≡ normalize_optional_field input.email
  pub phone : u.phone ≡ normalize_optional_field input.phone
  pub stored : u.password_hash ≡ some hash
  pub free :
      (taken_by with_email (normalize_optional_field input.email) old.users
        || taken_by with_phone (normalize_optional_field input.phone) old.users)
      ≡ false
  pub added : new ≡ Users.set_users (λ users. u ∷ users) old

err-ne-ok : {A : Type 0} {a : A} {x : Error} → err x ≢ ok a
err-ne-ok h = cc

module _ (passwords : PasswordLibrary) (s : AuthService) (input : RegisterInput) (p : Platform)
    (w : World) (u : User) where
  register-sign_up :
      (register_use_case passwords s input p w).0 ≡ ok u
      → register_use_case passwords s input p w
        ≡ sign_up passwords
            (normalize_optional_field input.email)
            (normalize_optional_field input.phone)
            (trim_space input.name)
            (trim_space input.password)
            p
            w
  unfolding register_use_case ◌>>=◌
  register-sign_up h = ground arith

  abbrev enrolled : String → NewUser
  enrolled hash = record {
    email = normalize_optional_field input.email;
    phone = normalize_optional_field input.phone;
    name = trim_space input.name;
    password_hash = some hash;
  }

  abbrev salted : World
  salted = record w { draws = w.draws + 1 }

  abbrev signed_up : Result User × World
  signed_up =
      sign_up passwords (normalize_optional_field input.email)
        (normalize_optional_field input.phone) (trim_space input.name) (trim_space input.password) p
        w

  sign_up_hashed :
      (hash : String)
      → passwords.hash (p.uuid w.draws) (trim_space input.password) ≡ ok hash
      → signed_up ≡ on_error register_error (Users.create (enrolled hash)) p salted
  unfolding sign_up ◌>>=◌
  sign_up_hashed hash e = rw (sign_up, e) refl

  sign_up_unhashed :
      (x : Error)
      → passwords.hash (p.uuid w.draws) (trim_space input.password) ≡ err x
      → signed_up.0 ≡ err (wrapped "hash password" x)
  unfolding sign_up ◌>>=◌
  sign_up_unhashed x e = rw (sign_up, e) refl

  -- A registration that succeeds has added one user, with the email and the phone that were given and a
  -- hash of the password; nobody had the email or the phone; no table has changed but for that row.
  pub register_use_case-Registered :
      (register_use_case passwords s input p w).0 ≡ ok u
      → Registered passwords input u w.db (register_use_case passwords s input p w).1.db
  register_use_case-Registered h =
      let run = register-sign_up h in
      let done = ap (λ x. x.0) (sym run) ∙ h in
      elim (result_cases (passwords.hash (p.uuid w.draws) (trim_space input.password))) [
        | inr (x, e) ↦ absurd (err-ne-ok (sym (sign_up_unhashed x e) ∙ done))
        | inl (hash, e) ↦
            let go = sign_up_hashed hash e in
            let (k, last) =
              on_error_ok _ (Users.create (enrolled hash)) p salted u
                (ap (λ x. x.0) (sym go) ∙ done) in
            let (email, phone, stored, free, added) = create_ok (enrolled hash) p salted u k in
            record {
              salt = p.uuid w.draws;
              hash = hash;
              hashed = e;
              email = email;
              phone = phone;
              stored = stored;
              free = free;
              added = ap (λ x. x.1.db) (run ∙ go) ∙ ap (λ v. v.db) last ∙ added;
            }
      ]

-- No two users have the same email, nor the same phone.
abbrev pub UniqueContacts : List User → Type 0
UniqueContacts [] = Unit
UniqueContacts (u ∷ users) =
    (taken_by with_email u.email users ≡ false)
    × (taken_by with_phone u.phone users ≡ false)
    × UniqueContacts users

create-FailsClean : (new : NewUser) → FailsClean (Users.create new)
unfolding Users.create ◌>>=◌
create-FailsClean new = record { at = λ p w e h. ground arith }

register-FailsClean :
    (passwords : PasswordLibrary) (s : AuthService) (input : RegisterInput)
    → FailsClean (register_use_case passwords s input)
unfolding register_use_case sign_up
register-FailsClean passwords s input = search (clean_rules, create-FailsClean) depth 16

added-UniqueContacts :
    (email phone : Option String) (u : User) (users : List User)
    → u.email ≡ email
    → u.phone ≡ phone
    → (taken_by with_email email users || taken_by with_phone phone users) ≡ false
    → UniqueContacts users
    → UniqueContacts (u ∷ users)
added-UniqueContacts email phone u users e f free old =
    (rw e (ground arith), rw f (ground arith), old)

-- Registrations, whether or not they succeed, keep emails and phones unique among the users.
pub register_use_case-UniqueContacts :
    (passwords : PasswordLibrary) (s : AuthService) (input : RegisterInput) (p : Platform)
    (w : World)
    → UniqueContacts w.db.users
    → UniqueContacts (register_use_case passwords s input p w).1.db.users
register_use_case-UniqueContacts passwords s input p w old =
    elim (result_cases (register_use_case passwords s input p w).0) [
      | inr (e, q) ↦
          subst (λ d. UniqueContacts d.users)
            (sym ((register-FailsClean passwords s input).at p w e q)) old
      | inl (u, q) ↦
          let r = register_use_case-Registered passwords s input p w u q in
          subst (λ d. UniqueContacts d.users) (sym r.added)
            (added-UniqueContacts _ _ u w.db.users r.email r.phone r.free old)
    ]

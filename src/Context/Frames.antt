-- ===== src/Context/Frames.antt =====
-- Calls that read, and calls that fail cleanly: one rule for each way to build a call.
use mali.Prelude.{◌≡◌, refl, ◌∙◌, Bool, true, false, Option, none, some, arith}
use mali.Prelude.Tests.{if◌then◌else◌}
use mali.Store.{Db}
use mali.Context.{
  Error, Result, ok, err, Platform, World, M, pure, raise, lift, or_raise, attempt, wrap_result,
  on_error, gets, modify, raise_if, now, new_uuid, platform, call, ◌>>=◌, continue, transaction,
  restore,
}

-- No table changes.
pub record IsReadOnly {A : Type 0} (m : M A) : Type 0 where
  pub at : (p : Platform) (w : World) → (m p w).1.db ≡ w.db

-- No table changes if the call fails.
pub record FailsClean {A : Type 0} (m : M A) : Type 0 where
  pub at : (p : Platform) (w : World) (e : Error) → (m p w).0 ≡ err e → (m p w).1.db ≡ w.db

module _ {A : Type 0} where
  pub IsReadOnly-pure : (a : A) → IsReadOnly (pure a)
  unfolding pure
  IsReadOnly-pure a = record { at = λ p w. refl }

  pub IsReadOnly-raise : (e : Error) → IsReadOnly (raise {A = A} e)
  unfolding raise
  IsReadOnly-raise e = record { at = λ p w. refl }

  pub IsReadOnly-lift : (r : Result A) → IsReadOnly (lift r)
  unfolding lift
  IsReadOnly-lift r = record { at = λ p w. refl }

  pub IsReadOnly-or_raise : (o : Option A) (e : Error) → IsReadOnly (or_raise o e)
  unfolding or_raise
  IsReadOnly-or_raise none e = record { at = λ p w. refl }
  IsReadOnly-or_raise (some a) e = record { at = λ p w. refl }

  pub IsReadOnly-gets : (f : Db → A) → IsReadOnly (gets f)
  unfolding gets
  IsReadOnly-gets f = record { at = λ p w. refl }

  pub IsReadOnly-attempt : (m : M A) → IsReadOnly m → IsReadOnly (attempt m)
  unfolding attempt
  IsReadOnly-attempt m h = record { at = λ p w. h.at p w }

  pub IsReadOnly-on_error : (f : Error → Error) (m : M A) → IsReadOnly m → IsReadOnly (on_error f m)
  unfolding on_error
  IsReadOnly-on_error f m h = record { at = λ p w. h.at p w }

  pub IsReadOnly-if :
      (b : Bool) (m n : M A) → IsReadOnly m → IsReadOnly n → IsReadOnly (if b then m else n)
  IsReadOnly-if true m n hm hn = hm
  IsReadOnly-if false m n hm hn = hn

  pub FailsClean-IsReadOnly : (m : M A) → IsReadOnly m → FailsClean m
  FailsClean-IsReadOnly m h = record { at = λ p w e _. h.at p w }

  wrap_result-err :
      (f : Error → Error) (r : Result A) {e : Error}
      → wrap_result f r ≡ err e
      → (e' : Error) × (r ≡ err e')
  wrap_result-err f (ok a) h = cc
  wrap_result-err f (err e') h = (e', refl)

  pub FailsClean-on_error : (f : Error → Error) (m : M A) → FailsClean m → FailsClean (on_error f m)
  unfolding on_error
  FailsClean-on_error f m h = record {
    at = λ p w e q. let (e', q') = wrap_result-err f (m p w).0 q in h.at p w e' q';
  }

  pub FailsClean-if :
      (b : Bool) (m n : M A) → FailsClean m → FailsClean n → FailsClean (if b then m else n)
  FailsClean-if true m n hm hn = hm
  FailsClean-if false m n hm hn = hn

  restore-err :
      (before : World) (o : Result A × World) (e : Error)
      → (restore before o).0 ≡ err e
      → (restore before o).1.db ≡ before.db
  restore-err before (ok a, w) e h = cc
  restore-err before (err f, w) e h = refl

  -- The rollback of a failed transaction.
  pub FailsClean-transaction : (m : M A) → FailsClean (transaction m)
  unfolding transaction
  FailsClean-transaction m = record { at = λ p w e h. restore-err w _ e h }

pub IsReadOnly-raise_if : (b : Bool) (e : Error) → IsReadOnly (raise_if b e)
unfolding raise_if
IsReadOnly-raise_if true e = record { at = λ p w. refl }
IsReadOnly-raise_if false e = record { at = λ p w. refl }

pub IsReadOnly-now : IsReadOnly now
unfolding now
IsReadOnly-now = record { at = λ p w. refl }

pub IsReadOnly-new_uuid : IsReadOnly new_uuid
unfolding new_uuid
IsReadOnly-new_uuid = record { at = λ p w. refl }

pub IsReadOnly-platform : IsReadOnly platform
unfolding platform
IsReadOnly-platform = record { at = λ p w. refl }

pub IsReadOnly-call : IsReadOnly call
unfolding call
IsReadOnly-call = record { at = λ p w. ground arith }

pub FailsClean-modify : (f : Db → Db) → FailsClean (modify f)
unfolding modify
FailsClean-modify f = record { at = λ p w e h. cc }

module _ {A B : Type 0} (m : M A) (f : A → M B) where
  pub IsReadOnly-bind : IsReadOnly m → ((a : A) → IsReadOnly (f a)) → IsReadOnly (m >>= f)
  unfolding ◌>>=◌
  IsReadOnly-bind hm hf = record { at = λ p w. let (r, w') = m p w in after p r w' ∙ hm.at p w }
    where
      after : (p : Platform) (r : Result A) (w' : World) → (continue p f r w').1.db ≡ w'.db
      after p (ok a) w' = (hf a).at p w'
      after p (err e) w' = refl

  pub FailsClean-bind : IsReadOnly m → ((a : A) → FailsClean (f a)) → FailsClean (m >>= f)
  unfolding ◌>>=◌
  FailsClean-bind hm hf = record {
    at = λ p w e h. let (r, w') = m p w in after p r w' e h ∙ hm.at p w;
  }
    where
      after :
          (p : Platform) (r : Result A) (w' : World) (e : Error)
          → (continue p f r w').0 ≡ err e
          → (continue p f r w').1.db ≡ w'.db
      after p (ok a) w' e h = (hf a).at p w' e h
      after p (err x) w' e h = refl

-- A last step that only shapes the answer cannot fail.
pub FailsClean-then_pure :
    {A B : Type 0} (m : M A) (g : A → B) → FailsClean m → FailsClean (m >>= λ a. pure (g a))
unfolding ◌>>=◌
FailsClean-then_pure {A} m g h = record { at = λ p w e q. after p w e (m p w) (h.at p w) q }
  where
    after :
        (p : Platform) (w : World) (e : Error) (o : Result A × World)
        → ((x : Error) → o.0 ≡ err x → o.1.db ≡ w.db)
        → (continue p (λ a. pure (g a)) o.0 o.1).0 ≡ err e
        → (continue p (λ a. pure (g a)) o.0 o.1).1.db ≡ w.db
    after p w e (ok a, w') k q = cc
    after p w e (err x, w') k q = k x refl

pub ruleset read_rules = (
  IsReadOnly-pure, IsReadOnly-raise, IsReadOnly-lift, IsReadOnly-or_raise, IsReadOnly-gets,
  IsReadOnly-attempt, IsReadOnly-on_error, IsReadOnly-if, IsReadOnly-raise_if, IsReadOnly-now,
  IsReadOnly-new_uuid, IsReadOnly-platform, IsReadOnly-call, IsReadOnly-bind,
)

pub ruleset clean_rules = (
  read_rules, FailsClean-on_error, FailsClean-if, FailsClean-transaction, FailsClean-modify,
  FailsClean-bind, FailsClean-IsReadOnly,
)

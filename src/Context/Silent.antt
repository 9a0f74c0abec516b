-- ===== src/Context/Silent.antt =====
-- Calls after which the event emitters have received nothing new: one rule for each way to build a call.
use mali.Prelude.{◌≡◌, refl, ◌∙◌, Bool, true, false, Option, none, some, arith}
use mali.Prelude.Tests.{if◌then◌else◌}
use mali.Store.{Db}
use mali.Context.{
  Error, Result, ok, err, Platform, World, M, pure, raise, lift, or_raise, attempt, on_error, gets,
  modify, raise_if, now, new_uuid, platform, call, ◌>>=◌, continue,
}

pub record IsSilent {A : Type 0} (m : M A) : Type 0 where
  pub at : (p : Platform) (w : World) → (m p w).1.milestones ≡ w.milestones

module _ {A : Type 0} where
  pub IsSilent-pure : (a : A) → IsSilent (pure a)
  unfolding pure
  IsSilent-pure a = record { at = λ p w. refl }

  pub IsSilent-raise : (e : Error) → IsSilent (raise {A = A} e)
  unfolding raise
  IsSilent-raise e = record { at = λ p w. refl }

  pub IsSilent-lift : (r : Result A) → IsSilent (lift r)
  unfolding lift
  IsSilent-lift r = record { at = λ p w. refl }

  pub IsSilent-or_raise : (o : Option A) (e : Error) → IsSilent (or_raise o e)
  unfolding or_raise
  IsSilent-or_raise none e = record { at = λ p w. refl }
  IsSilent-or_raise (some a) e = record { at = λ p w. refl }

  pub IsSilent-gets : (f : Db → A) → IsSilent (gets f)
  unfolding gets
  IsSilent-gets f = record { at = λ p w. refl }

  pub IsSilent-attempt : (m : M A) → IsSilent m → IsSilent (attempt m)
  unfolding attempt
  IsSilent-attempt m h = record { at = λ p w. h.at p w }

  pub IsSilent-on_error : (f : Error → Error) (m : M A) → IsSilent m → IsSilent (on_error f m)
  unfolding on_error
  IsSilent-on_error f m h = record { at = λ p w. h.at p w }

  pub IsSilent-if : (b : Bool) (m n : M A) → IsSilent m → IsSilent n → IsSilent (if b then m else n)
  IsSilent-if true m n hm hn = hm
  IsSilent-if false m n hm hn = hn

pub IsSilent-raise_if : (b : Bool) (e : Error) → IsSilent (raise_if b e)
unfolding raise_if
IsSilent-raise_if true e = record { at = λ p w. refl }
IsSilent-raise_if false e = record { at = λ p w. refl }

pub IsSilent-now : IsSilent now
unfolding now
IsSilent-now = record { at = λ p w. refl }

pub IsSilent-new_uuid : IsSilent new_uuid
unfolding new_uuid
IsSilent-new_uuid = record { at = λ p w. refl }

pub IsSilent-platform : IsSilent platform
unfolding platform
IsSilent-platform = record { at = λ p w. refl }

pub IsSilent-call : IsSilent call
unfolding call
IsSilent-call = record { at = λ p w. ground arith }

module _ {A B : Type 0} (m : M A) (f : A → M B) where
  pub IsSilent-bind : IsSilent m → ((a : A) → IsSilent (f a)) → IsSilent (m >>= f)
  unfolding ◌>>=◌
  IsSilent-bind hm hf = record { at = λ p w. let (r, w') = m p w in after p r w' ∙ hm.at p w }
    where
      after :
          (p : Platform) (r : Result A) (w' : World)
          → (continue p f r w').1.milestones ≡ w'.milestones
      after p (ok a) w' = (hf a).at p w'
      after p (err e) w' = refl

pub IsSilent-modify : (f : Db → Db) → IsSilent (modify f)
unfolding modify
IsSilent-modify f = record { at = λ p w. refl }

pub ruleset silent_rules = (
  IsSilent-pure, IsSilent-raise, IsSilent-lift, IsSilent-or_raise, IsSilent-gets, IsSilent-attempt,
  IsSilent-on_error, IsSilent-if, IsSilent-raise_if, IsSilent-now, IsSilent-new_uuid,
  IsSilent-platform, IsSilent-call, IsSilent-bind, IsSilent-modify,
)

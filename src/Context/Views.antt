-- ===== src/Context/Views.antt =====
-- Calls after which a view of the tables is what it was, whether they succeed or fail: one rule for each
-- way to build a call.
use mali.Prelude.{◌≡◌, refl, ◌∙◌, Bool, true, false, Option, none, some, ap}
use mali.Prelude.Tests.{if◌then◌else◌}
use mali.Store.{Db}
use mali.Context.{
  Error, Result, ok, err, Platform, World, M, pure, raise, lift, or_raise, attempt, on_error, gets,
  modify, raise_if, now, new_uuid, platform, call, ◌>>=◌, ◌>>◌, continue, transaction, restore,
  wrapped,
}
use mali.Context.Frames.{IsReadOnly, IsReadOnly-call}

pub record Keeps {V : Type 0} (view : Db → V) {A : Type 0} (m : M A) : Type 0 where
  pub at : (p : Platform) (w : World) → view (m p w).1.db ≡ view w.db

restored :
    {A V : Type 0} (view : Db → V) (w : World) (o : Result A × World)
    → view o.1.db ≡ view w.db
    → view (restore w o).1.db ≡ view w.db
restored view w (ok a, w') q = q
restored view w (err e, w') q = refl

module _ {V : Type 0} {view : Db → V} where
  module _ {A : Type 0} where
    pub Keeps-IsReadOnly : (m : M A) → IsReadOnly m → Keeps view m
    Keeps-IsReadOnly m h = record { at = λ p w. ap view (h.at p w) }

    pub Keeps-pure : (a : A) → Keeps view (pure a)
    unfolding pure
    Keeps-pure a = record { at = λ p w. refl }

    pub Keeps-raise : (e : Error) → Keeps view (raise {A = A} e)
    unfolding raise
    Keeps-raise e = record { at = λ p w. refl }

    pub Keeps-lift : (r : Result A) → Keeps view (lift r)
    unfolding lift
    Keeps-lift r = record { at = λ p w. refl }

    pub Keeps-or_raise : (o : Option A) (e : Error) → Keeps view (or_raise o e)
    unfolding or_raise
    Keeps-or_raise none e = record { at = λ p w. refl }
    Keeps-or_raise (some a) e = record { at = λ p w. refl }

    pub Keeps-gets : (f : Db → A) → Keeps view (gets f)
    unfolding gets
    Keeps-gets f = record { at = λ p w. refl }

    pub Keeps-attempt : (m : M A) → Keeps view m → Keeps view (attempt m)
    unfolding attempt
    Keeps-attempt m h = record { at = λ p w. h.at p w }

    pub Keeps-on_error : (f : Error → Error) (m : M A) → Keeps view m → Keeps view (on_error f m)
    unfolding on_error
    Keeps-on_error f m h = record { at = λ p w. h.at p w }

    pub Keeps-if :
        (b : Bool) (m n : M A) → Keeps view m → Keeps view n → Keeps view (if b then m else n)
    Keeps-if true m n hm hn = hm
    Keeps-if false m n hm hn = hn

  pub Keeps-raise_if : (b : Bool) (e : Error) → Keeps view (raise_if b e)
  unfolding raise_if
  Keeps-raise_if true e = record { at = λ p w. refl }
  Keeps-raise_if false e = record { at = λ p w. refl }

  pub Keeps-now : Keeps view now
  unfolding now
  Keeps-now = record { at = λ p w. refl }

  pub Keeps-new_uuid : Keeps view new_uuid
  unfolding new_uuid
  Keeps-new_uuid = record { at = λ p w. refl }

  pub Keeps-platform : Keeps view platform
  unfolding platform
  Keeps-platform = record { at = λ p w. refl }

  pub Keeps-call : Keeps view call
  Keeps-call = Keeps-IsReadOnly call IsReadOnly-call

  pub Keeps-modify : (f : Db → Db) → ((d : Db) → view (f d) ≡ view d) → Keeps view (modify f)
  unfolding modify
  Keeps-modify f h = record { at = λ p w. h w.db }

  pub Keeps-bind :
      {A B : Type 0} (m : M A) (f : A → M B)
      → Keeps view m
      → ((a : A) → Keeps view (f a))
      → Keeps view (m >>= f)
  unfolding ◌>>=◌
  Keeps-bind {A} {B} m f hm hf = record {
    at = λ p w. let (r, w') = m p w in after p r w' ∙ hm.at p w;
  }
    where
      after :
          (p : Platform) (r : Result A) (w' : World) → view (continue p f r w').1.db ≡ view w'.db
      after p (ok a) w' = (hf a).at p w'
      after p (err e) w' = refl

  -- A rollback restores the view too.
  pub Keeps-transaction : {A : Type 0} (m : M A) → Keeps view m → Keeps view (transaction m)
  unfolding transaction
  Keeps-transaction m h = record { at = λ p w. restored view w _ (body.at p w) }
    where
      body : Keeps view (do
        on_error (wrapped "begin transaction") call
        a ← m
        on_error (wrapped "commit transaction") call
        pure a)
      body = Keeps-bind _ _ (Keeps-on_error _ _ Keeps-call) λ _.
          Keeps-bind _ _ h λ a. Keeps-bind _ _ (Keeps-on_error _ _ Keeps-call) λ _. Keeps-pure a

pub ruleset view_rules = (
  Keeps-pure, Keeps-raise, Keeps-lift, Keeps-or_raise, Keeps-gets, Keeps-attempt, Keeps-on_error,
  Keeps-if, Keeps-raise_if, Keeps-now, Keeps-new_uuid, Keeps-platform, Keeps-call, Keeps-bind,
  Keeps-modify, Keeps-transaction,
)

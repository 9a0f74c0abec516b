-- ===== src/Context/Invariant.antt =====
-- Calls that keep what holds of the tables, whether they succeed or fail: one rule for each way to build a
-- call.
use mali.Prelude.{sym, subst, Bool, true, false}
use mali.Prelude.Tests.{if◌then◌else◌}
use mali.Store.{Db}
use mali.Context.{
  Error, Result, ok, err, Platform, World, M, on_error, modify, ◌>>=◌, continue, transaction,
  restore, wrapped, call, pure,
}
use mali.Context.Frames.{IsReadOnly, IsReadOnly-on_error, IsReadOnly-call, IsReadOnly-pure}

pub record Preserves (P : Db → Type 0) {A : Type 0} (m : M A) : Type 0 where
  pub at : (p : Platform) (w : World) → P w.db → P (m p w).1.db

module _ (P : Db → Type 0) where
  module _ {A : Type 0} where
    pub Preserves-IsReadOnly : (m : M A) → IsReadOnly m → Preserves P m
    Preserves-IsReadOnly m h = record { at = λ p w k. subst P (sym (h.at p w)) k }

    pub Preserves-on_error :
        (f : Error → Error) (m : M A) → Preserves P m → Preserves P (on_error f m)
    unfolding on_error
    Preserves-on_error f m h = record { at = λ p w k. h.at p w k }

    pub Preserves-if :
        (b : Bool) (m n : M A) → Preserves P m → Preserves P n → Preserves P (if b then m else n)
    Preserves-if true m n hm hn = hm
    Preserves-if false m n hm hn = hn

  pub Preserves-modify : (f : Db → Db) → ((d : Db) → P d → P (f d)) → Preserves P (modify f)
  unfolding modify
  Preserves-modify f h = record { at = λ p w k. h w.db k }

  pub Preserves-bind :
      {A B : Type 0} (m : M A) (f : A → M B)
      → Preserves P m
      → ((a : A) → Preserves P (f a))
      → Preserves P (m >>= f)
  unfolding ◌>>=◌
  Preserves-bind m f hm hf = record {
    at = λ p w k. let (r, w') = m p w in after p r w' (hm.at p w k);
  }
    where
      after : (p : Platform) (r : Result _) (w' : World) → P w'.db → P (continue p f r w').1.db
      after p (ok a) w' k = (hf a).at p w' k
      after p (err e) w' k = k

  kept_by_restore :
      {A : Type 0} (before : World) (o : Result A × World)
      → P before.db
      → P o.1.db
      → P (restore before o).1.db
  kept_by_restore before (ok a, w) b k = k
  kept_by_restore before (err e, w) b k = b

  pub Preserves-transaction : {A : Type 0} (m : M A) → Preserves P m → Preserves P (transaction m)
  unfolding transaction
  Preserves-transaction m h = record { at = λ p w k. kept_by_restore w _ k (body.at p w k) }
    where
      reached : Preserves P (on_error (wrapped "begin transaction") call)
      reached = Preserves-IsReadOnly _ (IsReadOnly-on_error _ call IsReadOnly-call)

      committed : Preserves P (on_error (wrapped "commit transaction") call)
      committed = Preserves-IsReadOnly _ (IsReadOnly-on_error _ call IsReadOnly-call)

      body : Preserves P (
          on_error (wrapped "begin transaction") call >>= λ _.
          m >>= λ a. on_error (wrapped "commit transaction") call >>= λ _. pure a)
      body = Preserves-bind _ _ reached λ _.
          Preserves-bind m _ h
            λ a. Preserves-bind _ _ committed λ _. Preserves-IsReadOnly (pure a) (IsReadOnly-pure a)

pub ruleset preserving_rules =
    (Preserves-IsReadOnly, Preserves-on_error, Preserves-if, Preserves-bind)

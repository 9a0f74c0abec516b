-- ===== src/Context/Success.antt =====
-- What a call that succeeds has done, part by part.
use mali.Prelude.{◌≡◌, ◌⊎◌, refl, inl, inr, arith, ◌+◌}
use mali.Context.{Result, Error, err, ok, Platform, World, ◌>>=◌, transaction, on_error, M}

pub result_cases :
    {A : Type 0} (r : Result A) → ((a : A) × (r ≡ ok a)) ⊎ ((e : Error) × (r ≡ err e))
result_cases (ok a) = inl (a, refl)
result_cases (err e) = inr (e, refl)

-- A sequence that succeeded: its first part did, and then its second.
pub bind_ok :
    {A B : Type 0} (m : M A) (f : A → M B) (p : Platform) (w : World) (b : B)
    → ((m >>= f) p w).0 ≡ ok b
    → (a : A) × ((m p w).0 ≡ ok a)
      × ((f a p (m p w).1).0 ≡ ok b)
      × (((m >>= f) p w).1 ≡ (f a p (m p w).1).1)
unfolding ◌>>=◌
bind_ok m f p w b h = elim (result_cases (m p w).0) [
  | inl (a, e) ↦ (a, e, ground arith, ground arith)
  | inr (e, q) ↦ absurd (ground arith)
]

pub transaction_ok :
    {A : Type 0} (m : M A) (p : Platform) (w : World) (a : A)
    → (transaction m p w).0 ≡ ok a
    → let w₁ = record w { calls = w.calls + 1 } in
      ((m p w₁).0 ≡ ok a) × ((transaction m p w).1.db ≡ (m p w₁).1.db)
unfolding transaction ◌>>=◌
transaction_ok m p w a h = elim (result_cases (m p (record w { calls = w.calls + 1 })).0) [
  | inl (b, e) ↦ (ground arith, ground arith)
  | inr (_, e) ↦ absurd (ground arith)
]

module _ {A B : Type 0} (m : M A) (f : A → M B) (p : Platform) (w : World) where
  -- A first part that succeeds hands on to the second; one that fails ends the sequence.
  pub bind_run : (a : A) (w' : World) → m p w ≡ (ok a, w') → (m >>= f) p w ≡ f a p w'
  unfolding ◌>>=◌
  bind_run a w' h = rw (◌>>=◌, h) refl

  pub bind_err : (e : Error) → (m p w).0 ≡ err e → ((m >>= f) p w).0 ≡ err e
  unfolding ◌>>=◌
  bind_err e h = ground (arith, h)

pub on_error_ok :
    {A : Type 0} (f : Error → Error) (m : M A) (p : Platform) (w : World) (a : A)
    → (on_error f m p w).0 ≡ ok a
    → ((m p w).0 ≡ ok a) × ((on_error f m p w).1 ≡ (m p w).1)
unfolding on_error
on_error_ok f m p w a h = elim (result_cases (m p w).0) [
  | inl (b, e) ↦ (ground arith, refl)
  | inr (_, e) ↦ absurd (ground arith)
]

-- ===== src/Rate/Fetched.antt =====
-- What the worker has stored when its task succeeds (Rate/Worker).
use mali.Prelude.{◌≡◌, ◌⊎◌, refl, inl, inr, true, some, List, [], ◌∷◌, String, eq_iff, arith}
use mali.Prelude.Tests.{Bool-cases}
use mali.Prelude.Int.{ℤ}
use mali.Prelude.Lists.{find, update}
use mali.Rat.{Rat}
use mali.Time.{Time}
use mali.Domain.{Uuid, ExchangeRate}
use mali.Store.{RateRow, Db}
use mali.Context.{Platform}
use mali.Rate.Repo.{keyed, same_key, new_row, overwritten}
use mali.Rate.Worker.{rate_for, base_currency_usd, auto_fetch_source}
use mali.Rate.Manual.{Stored}

-- The record that the worker hands to the repository.
abbrev pub automatic : Uuid → String → String → Time → ExchangeRate
automatic u currency text t = record {
  id = 0;
  user_id = u;
  from_currency = base_currency_usd;
  to_currency = currency;
  rate = text;
  source = auto_fetch_source;
  valid_at = t;
}

-- The number is that of the provider's rate for the currency, as the column takes it.
abbrev pub IsRateOf : Platform → List (String × String) → String → ℤ → Type 0
IsRateOf p rates currency n =
    (text : String) × (value : Rat) × (rate_for rates currency ≡ some text)
    × (p.scan text ≡ some value)
    × (p.column 8 value ≡ some n)

-- The user has the provider's rate from US dollars to the currency, of that time.
abbrev pub HasRate : Platform → List (String × String) → Time → Uuid → String → Db → Type 0
HasRate p rates t u currency d =
    (r : RateRow) × (find (keyed u base_currency_usd currency auto_fetch_source t) d.rates ≡ some r)
    × IsRateOf p rates currency r.rate

keyed-new_row : (e : ExchangeRate) (n : ℤ) (id : Uuid) → same_key e (new_row e n id) ≡ true
keyed-new_row e n id = ground (
  arith,
  eq_iff e.from_currency e.from_currency,
  eq_iff e.to_currency e.to_currency,
  eq_iff e.source e.source,
)

find-overwritten :
    (e : ExchangeRate) (n : ℤ) (rs : List RateRow) (r : RateRow)
    → find (same_key e) rs ≡ some r
    → find (same_key e) (update (same_key e) (overwritten n) rs) ≡ some (overwritten n r)
unfolding find update
find-overwritten e n [] r h = cc
find-overwritten e n (x ∷ rs) r h = ground (arith, find-overwritten e n rs r)

-- The row that was stored is found under its key.
pub Stored-find :
    (p : Platform) (e : ExchangeRate) (old new : List RateRow) (out : ExchangeRate)
    (st : Stored p e old new out)
    → (r : RateRow) × (find (same_key e) new ≡ some r) × (r.rate ≡ st.rate)
unfolding find
Stored-find p e old new out st = elim st.written [
  | inl (_, grown, _) ↦
      (new_row e st.rate st.id, rw grown (rw (keyed-new_row e st.rate st.id) refl), refl)
  | inr (r, found, grown, _) ↦
      (overwritten st.rate r, rw grown (find-overwritten e st.rate old r found), refl)
]

module _ (u : Uuid) (a b source : String) (t : Time) (e : ExchangeRate) where
  -- A row has both keys only if these name one currency.
  one_currency :
      (r : RateRow) → keyed u a b source t r ≡ true → same_key e r ≡ true → e.to_currency ≡ b
  one_currency r h k = ground (arith, eq_iff r.to_currency b, eq_iff r.to_currency e.to_currency)

  find-update-other :
      (n : ℤ) (rs : List RateRow) (r : RateRow)
      → find (keyed u a b source t) rs ≡ some r
      → (find (keyed u a b source t) (update (same_key e) (overwritten n) rs) ≡ some r)
        ⊎ ((find (keyed u a b source t) (update (same_key e) (overwritten n) rs)
              ≡ some (overwritten n r))
            × (e.to_currency ≡ b))
  unfolding find update
  find-update-other n [] r h = absurd (ground arith)
  find-update-other n (x ∷ rs) r h = elim (Bool-cases (keyed u a b source t x)) [
    | inr other ↦ elim (find-update-other n rs r (ground arith)) [
      | inl q ↦ inl (ground arith)
      | inr (q, c) ↦ inr (ground arith, c)
    ]
    | inl own ↦ elim (Bool-cases (same_key e x)) [
      | inl hit ↦ inr (ground arith, one_currency x own hit)
      | inr miss ↦ inl (ground arith)
    ]
  ]

  -- Another upsert leaves a row as it is, or gives it the rate of its own currency.
  pub Stored-keeps :
      (p : Platform) (old new : List RateRow) (out : ExchangeRate) (st : Stored p e old new out)
      (r : RateRow)
      → find (keyed u a b source t) old ≡ some r
      → (r' : RateRow) × (find (keyed u a b source t) new ≡ some r')
        × ((r'.rate ≡ r.rate) ⊎ ((r'.rate ≡ st.rate) × (e.to_currency ≡ b)))
  unfolding find
  Stored-keeps p old new out st r h = elim st.written [
    | inl (_, grown, _) ↦ elim (Bool-cases (keyed u a b source t (new_row e st.rate st.id))) [
      | inl own ↦ (
        new_row e st.rate st.id,
        rw grown (rw own refl),
        inr (refl, one_currency (new_row e st.rate st.id) own (keyed-new_row e st.rate st.id)),
      )
      | inr other ↦ (r, rw grown (rw other h), inl refl)
    ]
    | inr (x, _, grown, _) ↦ elim (find-update-other st.rate old r h) [
      | inl q ↦ (r, rw grown q, inl refl)
      | inr (q, c) ↦ (overwritten st.rate r, rw grown q, inr (refl, c))
    ]
  ]

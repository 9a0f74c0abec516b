-- ===== src/Rate/Recent.antt =====
-- A rate that was set by hand is the latest, if the user has no later one; and what setting rates keeps.
use mali.Prelude.{
  ◌+◌, ◌<◌, ◌≡◌, ◌∙◌, refl, sym, ap, subst, inl, inr, Bool, true, false, none, some, List, [], ◌∷◌,
  String, eq_iff, arith, Memᴰ,
}
use mali.Prelude.Tests.{Bool-cases}
use mali.Prelude.Int.{ℤ}
use mali.Prelude.Lists.{select, order_by, insert_by, find, find_passes, head?}
use mali.Prelude.Order.{mem-order_by, mem-select}
use mali.Time.{Time, is_zero}
use mali.Domain.{Uuid, ExchangeRate}
use mali.Store.{RateRow}
use mali.Context.{ok, wrapped, on_error, Platform, World, ◌>>=◌}
use mali.Context.Success.{on_error_ok}
use mali.Amount.{normalize_currency_code, normalize_amount}
use mali.Rate.Repo
use mali.Rate.Repo.{to_domain, for_pair, keyed, same_key, later, latest, new_row, overwritten}
use mali.Rate.Service.{
  RateService, GetLatestRateInput, SetManualRateInput, manual_rate_source, set_manual_rate,
  get_latest_rate,
}
use mali.Rate.Manual.{IsComplete, asked, answer, found_latest, Stored, upsert-Stored}

-- The record that SetManualRate hands to the repository.
abbrev pub manual : SetManualRateInput → Time → ExchangeRate
manual input t = record {
  id = 0;
  user_id = input.user_id;
  from_currency = normalize_currency_code input.from_currency;
  to_currency = normalize_currency_code input.to_currency;
  rate = normalize_amount input.rate;
  source = manual_rate_source;
  valid_at = t;
}

module _ (s : RateService) (input : SetManualRateInput) (p : Platform) (w : World)
    (out : ExchangeRate) (done : (set_manual_rate s input p w).0 ≡ ok out) where
  given_time :
      is_zero input.valid_at ≡ false
      → set_manual_rate s input p w
        ≡ on_error (wrapped "set manual rate") (Repo.upsert (manual input input.valid_at)) p w
  unfolding set_manual_rate ◌>>=◌
  given_time e = ground arith

  present_time :
      is_zero input.valid_at ≡ true
      → set_manual_rate s input p w
        ≡ on_error
            (wrapped "set manual rate")
            (Repo.upsert (manual input (p.clock w.ticks)))
            p
            (record w { ticks = w.ticks + 1 })
  unfolding set_manual_rate ◌>>=◌
  present_time e = ground arith

  pub set_manual_rate-Stored :
      (t : Time) × Stored p (manual input t) w.db.rates (set_manual_rate s input p w).1.db.rates out
  set_manual_rate-Stored = elim (Bool-cases (is_zero input.valid_at)) [
    | inl e ↦ (
      p.clock w.ticks,
      through (p.clock w.ticks) (record w { ticks = w.ticks + 1 }) refl (present_time e),
    )
    | inr e ↦ (input.valid_at, through input.valid_at w refl (given_time e))
  ]
    where
      through :
          (t : Time) (v : World)
          → v.db.rates ≡ w.db.rates
          → set_manual_rate s input p w
            ≡ on_error (wrapped "set manual rate") (Repo.upsert (manual input t)) p v
          → Stored p (manual input t) w.db.rates (set_manual_rate s input p w).1.db.rates out
      through t v same run =
          let (k, left) =
            on_error_ok (wrapped "set manual rate") (Repo.upsert (manual input t)) p v out
              (ap (λ x. x.0) (sym run) ∙ done) in
          subst (λ x. Stored p (manual input t) w.db.rates x.1.db.rates out) (sym run)
            (subst (λ x. Stored p (manual input t) w.db.rates x.db.rates out) (sym left)
              (subst
                (λ rows.
                  Stored p (manual input t) rows (Repo.upsert (manual input t) p v).1.db.rates out)
                same (upsert-Stored (manual input t) p v out k)))

head-insert_by :
    (r : RateRow) (ys : List RateRow)
    → ((y : RateRow) → Memᴰ y ys → later y r ≡ false)
    → head? (insert_by later r ys) ≡ some r
unfolding insert_by
head-insert_by r [] h = refl
head-insert_by r (y ∷ ys) h = rw (h y (Memᴰ.head refl), insert_by) refl

-- A new row that is later than all of its pair is the latest.
latest-new :
    (u : Uuid) (a b : String) (r : RateRow) (rows : List RateRow)
    → for_pair u a b r ≡ true
    → ((y : RateRow) → Memᴰ y rows → for_pair u a b y ≡ true → y.valid_at < r.valid_at)
    → latest u a b (r ∷ rows) ≡ some r
unfolding latest select order_by
latest-new u a b r rows own earlier = rw (own) (
    head-insert_by r (order_by later (select (for_pair u a b) rows)) (λ y m.
      let (n, q) = mem-select (for_pair u a b) rows (mem-order_by later _ m) in
      let below = earlier y n q in ground arith))

find-mem :
    (q : RateRow → Bool) (rows : List RateRow) (r : RateRow) → find q rows ≡ some r → Memᴰ r rows
unfolding find
find-mem q [] r e = absurd (cc)
find-mem q (x ∷ rows) r e = elim (Bool-cases (q x)) [
  | inl h ↦ Memᴰ.head (ground arith)
  | inr h ↦ Memᴰ.tail (find-mem q rows r (ground arith))
]

own_pair :
    (e : ExchangeRate) (n : ℤ) (id : Uuid)
    → for_pair e.user_id e.from_currency e.to_currency (new_row e n id) ≡ true
own_pair e n id =
    ground (arith, eq_iff e.from_currency e.from_currency, eq_iff e.to_currency e.to_currency)

keyed_pair :
    (e : ExchangeRate) (r : RateRow)
    → same_key e r ≡ true
    → (for_pair e.user_id e.from_currency e.to_currency r ≡ true) × (r.valid_at ≡ e.valid_at)
keyed_pair e r h = (ground arith, ground arith)

Stored-latest :
    (p : Platform) (e : ExchangeRate) (old new : List RateRow) (out : ExchangeRate)
    → Stored p e old new out
    → ((y : RateRow)
        → Memᴰ y old
        → for_pair e.user_id e.from_currency e.to_currency y ≡ true
        → y.valid_at < e.valid_at)
    → (r : RateRow) × (latest e.user_id e.from_currency e.to_currency new ≡ some r)
      × (out ≡ to_domain p r)
Stored-latest p e old new out st earlier = elim st.written [
  | inl (absent, grown, shown) ↦ (
    new_row e st.rate st.id,
    ap (latest e.user_id e.from_currency e.to_currency) grown
        ∙ latest-new e.user_id e.from_currency e.to_currency (new_row e st.rate st.id) old
            (own_pair e st.rate st.id) earlier,
    shown,
  )
  | inr (r, found, grown, shown) ↦
      let (pair, same) = keyed_pair e r (find_passes (same_key e) old r found) in
      let below = earlier r (find-mem (same_key e) old r found) pair in absurd (omega arith)
]

Stored-time :
    (p : Platform) (e : ExchangeRate) (old new : List RateRow) (out : ExchangeRate)
    → Stored p e old new out
    → out.valid_at ≡ e.valid_at
Stored-time p e old new out st = elim st.written [
  | inl (_, _, shown) ↦ ap (λ x. x.valid_at) shown
  | inr (r, found, _, shown) ↦
      ap (λ x. x.valid_at) shown ∙ (keyed_pair e r (find_passes (same_key e) old r found)).1
]

same_latest :
    {u u' : Uuid} {a a' b b' : String} {rows rows' : List RateRow}
    → u ≡ u'
    → a ≡ a'
    → b ≡ b'
    → rows ≡ rows'
    → latest u a b rows ≡ latest u' a' b' rows'
same_latest e f g h = cc

same_pair :
    {u u' : Uuid} {a a' b b' : String} (r : RateRow)
    → u ≡ u'
    → a ≡ a'
    → b ≡ b'
    → for_pair u a b r ≡ for_pair u' a' b' r
same_pair r e f g = rw (e, f, g)

-- A rate that a user has set, and that is later than all that the user had for the pair, is the latest one
-- for the pair, in the tables that setting it left, once the request is complete and reaches the server.
pub set_manual_rate-get_latest_rate :
    (s : RateService) (input : SetManualRateInput) (query : GetLatestRateInput) (p : Platform)
    (w v : World) (out : ExchangeRate)
    → (set_manual_rate s input p w).0 ≡ ok out
    → v.db.rates ≡ (set_manual_rate s input p w).1.db.rates
    → query.user_id ≡ input.user_id
    → normalize_currency_code query.from_currency ≡ normalize_currency_code input.from_currency
    → normalize_currency_code query.to_currency ≡ normalize_currency_code input.to_currency
    → ((y : RateRow) → Memᴰ y w.db.rates → asked query y ≡ true → y.valid_at < out.valid_at)
    → IsComplete s query
    → p.fault v.calls ≡ none
    → (get_latest_rate s query p v).0 ≡ ok out
set_manual_rate-get_latest_rate s input query p w v out done left user base other earlier full up =
    let (t, st) = set_manual_rate-Stored s input p w out done in
    let at : out.valid_at ≡ t = Stored-time p (manual input t) _ _ out st in
    let (r, chosen, shown) =
      Stored-latest p (manual input t) w.db.rates _ out st
        (λ y m q. subst (λ x. y.valid_at < x) at (earlier y m (same_pair y user base other ∙ q))) in
    let there : answer query v.db.rates ≡ some r = same_latest user base other left ∙ chosen in
    found_latest s query p v full up r there ∙ ap ok (sym shown)

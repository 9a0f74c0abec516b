-- ===== src/Rate/Task.antt =====
-- A task that succeeds has stored every user's rates (Rate/Worker).
use mali.Prelude.{
  ℕ, ◌+◌, ◌≡◌, ◌∙◌, sym, ap, subst, inl, inr, some, List, [], ◌∷◌, String, map, arith, Memᴰ,
}
use mali.Prelude.Tests.{Option-cases}
use mali.Prelude.Order.{mem-cons_cases}
use mali.Time.{Time}
use mali.Domain.{Uuid, User, ExchangeRate}
use mali.Store.{RateRow, Db}
use mali.Context.{ok, Platform, World, M, pure, on_error, wrapped, now, ◌>>=◌}
use mali.Context.Success.{result_cases, bind_ok, on_error_ok}
use mali.Auth.Users
use mali.Rate.Repo
use mali.Rate.Repo.{same_key}
use mali.Rate.Worker.{
  RateFetchWorker, Response, collect, rate_for, base_currency_usd, auto_fetch_source,
  supported_auto_fetch_currencies, fetch_rates, store_rate, store_currencies, store_users,
  handle_fetch_exchange_rates_task,
}
use mali.Rate.Manual.{Stored, upsert-Stored}
use mali.Rate.Fetched.{automatic, IsRateOf, HasRate, Stored-find, Stored-keeps}

module _ (p : Platform) (rates : List (String × String)) (t : Time) where
  IsRateOf-Stored :
      (u : Uuid) (c text : String) (old new : List RateRow) (out : ExchangeRate)
      → rate_for rates c ≡ some text
      → (st : Stored p (automatic u c text t) old new out) → IsRateOf p rates c st.rate
  IsRateOf-Stored u c text old new out q st = (text, st.value, q, st.read, st.taken)

  -- A rate that a user has stays, whatever is stored of the provider's.
  HasRate-Stored :
      (u u' : Uuid) (c c' text : String) (d d' : Db) (out : ExchangeRate)
      → rate_for rates c ≡ some text
      → Stored p (automatic u c text t) d.rates d'.rates out
      → HasRate p rates t u' c' d
      → HasRate p rates t u' c' d'
  HasRate-Stored u u' c c' text d d' out q st (r, f, v) =
      let (r', f', w) =
        Stored-keeps u' base_currency_usd c' auto_fetch_source t (automatic u c text t) p d.rates
          d'.rates out st r f in
      (
        r',
        f',
        elim w [
          | inl e ↦ subst (IsRateOf p rates c') (sym e) v
          | inr (e, same) ↦
              subst (λ x. IsRateOf p rates x r'.rate) same
                (subst (IsRateOf p rates c) (sym e)
                  (IsRateOf-Stored u c text d.rates d'.rates out q st))
        ],
      )

  -- What a part of the task has done: it has stored the rates of a currency, and kept what was there.
  record Keeps (before after : Db) : Type 0 where
    kept : (u : Uuid) (c : String) → HasRate p rates t u c before → HasRate p rates t u c after

  module _ (worker : RateFetchWorker) where
    store_rate-upsert :
        (u : Uuid) (c : String) (w : World)
        → (store_rate worker rates t u c p w).0 ≡ ok tt
        → (text : String) × (out : ExchangeRate) × (rate_for rates c ≡ some text)
          × ((Repo.upsert (automatic u c text t) p w).0 ≡ ok out)
          × ((store_rate worker rates t u c p w).1 ≡ (Repo.upsert (automatic u c text t) p w).1)
    unfolding store_rate ◌>>=◌
    store_rate-upsert u c w h = elim (Option-cases (rate_for rates c)) [
      | inl e ↦ absurd (ground arith)
      | inr (text, e) ↦ elim (result_cases (Repo.upsert (automatic u c text t) p w).0) [
        | inr (x, q) ↦ absurd (ground arith)
        | inl (out, q) ↦ (text, out, e, q, ground arith)
      ]
    ]

    store_rate_lem :
        (u : Uuid) (c : String) (w : World)
        → (store_rate worker rates t u c p w).0 ≡ ok tt
        → HasRate p rates t u c (store_rate worker rates t u c p w).1.db
          × Keeps w.db (store_rate worker rates t u c p w).1.db
    store_rate_lem u c w h =
        let (text, out, e, q, same) = store_rate-upsert u c w h in
        let w' = (Repo.upsert (automatic u c text t) p w).1 in
        let st = upsert-Stored (automatic u c text t) p w out q in
        let (r, f, n) = Stored-find p (automatic u c text t) w.db.rates w'.db.rates out st in
        subst (λ x. HasRate p rates t u c x.db × Keeps w.db x.db) (sym same)
          (
            (
              r,
              f,
              subst (IsRateOf p rates c) (sym n)
                  (IsRateOf-Stored u c text w.db.rates w'.db.rates out e st),
            ),
            record { kept = λ u' c' k. HasRate-Stored u u' c c' text w.db w'.db out e st k },
          )

    -- Every currency of the list has been stored for the user.
    AllCurrencies : Uuid → List String → Db → Type 0
    AllCurrencies u cs d = (c : String) → Memᴰ c cs → HasRate p rates t u c d

    store_currencies_lem :
        (u : Uuid) (cs : List String) (w : World)
        → (store_currencies worker rates t u cs p w).0 ≡ ok tt
        → AllCurrencies u cs (store_currencies worker rates t u cs p w).1.db
          × Keeps w.db (store_currencies worker rates t u cs p w).1.db
    unfolding store_currencies AllCurrencies pure
    store_currencies_lem u [] w h = ((λ c m. elim m [ ]), record { kept = λ _ _ k. k })
    store_currencies_lem u (c ∷ cs) w h =
        let (_, first, rest, same) =
          bind_ok (store_rate worker rates t u c) (λ _. store_currencies worker rates t u cs) p w tt
            h in
        let w' = (store_rate worker rates t u c p w).1 in
        let d' = (store_currencies worker rates t u cs p w').1.db in
        let (has, keep) = store_rate_lem u c w first in
        let (all, keeps) = store_currencies_lem u cs w' rest in
        subst (λ x. AllCurrencies u (c ∷ cs) x.db × Keeps w.db x.db) (sym same)
          (
            (λ x m.
                mem-cons_cases m
                  (λ e. subst (λ y. HasRate p rates t u y d') (sym e) (keeps.kept u c has))
                  (all x)),
            record { kept = λ u' c' k. keeps.kept u' c' (keep.kept u' c' k) },
          )

    AllUsers : List Uuid → Db → Type 0
    AllUsers us d =
        (u : Uuid)
        → Memᴰ u us
        → (c : String) → Memᴰ c supported_auto_fetch_currencies
        → HasRate p rates t u c d

    store_users_lem :
        (us : List Uuid) (w : World)
        → (store_users worker rates t us p w).0 ≡ ok tt
        → AllUsers us (store_users worker rates t us p w).1.db
          × Keeps w.db (store_users worker rates t us p w).1.db
    unfolding store_users AllUsers AllCurrencies pure
    store_users_lem [] w h = ((λ u m. elim m [ ]), record { kept = λ _ _ k. k })
    store_users_lem (u ∷ us) w h =
        let (_, first, rest, same) =
          bind_ok (store_currencies worker rates t u supported_auto_fetch_currencies)
            (λ _. store_users worker rates t us) p w tt h in
        let w' = (store_currencies worker rates t u supported_auto_fetch_currencies p w).1 in
        let d' = (store_users worker rates t us p w').1.db in
        let (all, keep) = store_currencies_lem u supported_auto_fetch_currencies w first in
        let (others, keeps) = store_users_lem us w' rest in
        subst (λ x. AllUsers (u ∷ us) x.db × Keeps w.db x.db) (sym same)
          (
            (λ x m c n.
                mem-cons_cases m
                  (λ e. subst (λ y. HasRate p rates t y c d') (sym e) (keeps.kept u c (all c n)))
                  (λ k. others x k c n)),
            record { kept = λ u' c' k. keeps.kept u' c' (keep.kept u' c' k) },
          )

id-mem : (us : List User) (u : User) → Memᴰ u us → Memᴰ u.id (map (λ x. x.id) us)
id-mem [] u m = elim m [ ]
id-mem (x ∷ us) u (Memᴰ.head e) = Memᴰ.head (ap (λ y. y.id) e)
id-mem (x ∷ us) u (Memᴰ.tail m) = Memᴰ.tail (id-mem us u m)

-- What the provider answered, collected.
abbrev pub Answered : RateFetchWorker → ℕ → List (String × String) → Type 0
Answered worker n rates =
    (response : Response) × (entries : List (String × String)) × (worker.client.get n ≡ ok response)
    × (response.rates ≡ some entries)
    × (rates ≡ collect entries [])

list_user_ids_ok :
    (p : Platform) (w : World) (ids : List Uuid)
    → (Users.list_user_ids p w).0 ≡ ok ids
    → (ids ≡ map (λ x. x.id) w.db.users)
      × ((Users.list_user_ids p w).1 ≡ record w { calls = w.calls + 1 })
unfolding Users.list_user_ids ◌>>=◌
list_user_ids_ok p w ids h = (ground arith, ground arith)

module _ (worker : RateFetchWorker) (p : Platform) (w : World) where
  fetch_rates_ok :
      (rates : List (String × String))
      → (fetch_rates worker p w).0 ≡ ok rates
      → Answered worker w.calls rates
        × ((fetch_rates worker p w).1 ≡ record w { calls = w.calls + 1 })
  unfolding fetch_rates ◌>>=◌
  fetch_rates_ok rates h = elim (result_cases (worker.client.get w.calls)) [
    | inr (x, e) ↦ absurd (ground arith)
    | inl (response, e) ↦ elim (Option-cases response.rates) [
      | inl q ↦ absurd (ground arith)
      | inr (entries, q) ↦ ((response, entries, e, q, ground arith), ground arith)
    ]
  ]

  -- The task behind its guard, in parts.
  abbrev for_each : List (String × String) → List Uuid → M (Unit {0})
  for_each rates user_ids = do valid_at ← now; store_users worker rates valid_at user_ids

  abbrev for_users : List (String × String) → M (Unit {0})
  for_users rates = do
    user_ids ← on_error (wrapped "list users for rate fetch") Users.list_user_ids
    for_each rates user_ids

  abbrev fetched : World
  fetched = record w { calls = w.calls + 1 }

  unguarded :
      (handle_fetch_exchange_rates_task worker p w).0 ≡ ok tt
      → handle_fetch_exchange_rates_task worker p w ≡ (fetch_rates worker >>= for_users) p w
  unfolding handle_fetch_exchange_rates_task ◌>>=◌
  unguarded h = ground arith

  -- A task that succeeds goes on to store what was fetched for those who are users.
  task-users :
      (handle_fetch_exchange_rates_task worker p w).0 ≡ ok tt
      → (rates : List (String × String)) × Answered worker w.calls rates
        × (v : World) × ((store_users worker rates
              (p.clock w.ticks)
              (map (λ x. x.id) w.db.users)
              p
              v).0
            ≡ ok tt)
        × ((handle_fetch_exchange_rates_task worker p w).1
            ≡ (store_users worker rates (p.clock w.ticks) (map (λ x. x.id) w.db.users) p v).1)
  unfolding now ◌>>=◌
  task-users h =
      let (rates, f, k, left) =
        bind_ok (fetch_rates worker) for_users p w tt (ap (λ x. x.0) (sym (unguarded h)) ∙ h) in
      let (answered, w₁) = fetch_rates_ok rates f in
      let (ids, g, stored, done) =
        bind_ok (on_error (wrapped "list users for rate fetch") Users.list_user_ids)
          (for_each rates) p fetched tt (ap (λ v. (for_users rates p v).0) (sym w₁) ∙ k) in
      let (g', w₂) =
        on_error_ok (wrapped "list users for rate fetch") Users.list_user_ids p fetched ids g in
      let (all, w₃) = list_user_ids_ok p fetched ids g' in
      (
        rates,
        answered,
        record fetched { calls = fetched.calls + 1; ticks = w.ticks + 1 },
        ap (λ x. (for_each rates x p (record fetched { calls = fetched.calls + 1 })).0) (sym all)
            ∙ ap (λ v. (for_each rates ids p v).0) (sym (w₂ ∙ w₃))
            ∙ stored,
        ap (λ x. x.1) (unguarded h)
            ∙ left
            ∙ ap (λ v. (for_users rates p v).1) w₁
            ∙ done
            ∙ ap (λ v. (for_each rates ids p v).1) (w₂ ∙ w₃)
            ∙ ap (λ x. (for_each rates x p (record fetched { calls = fetched.calls + 1 })).1) all,
      )

  -- A task that succeeds has stored, under the time of the clock, each user's rates from US dollars to the
  -- currencies that are supported: as the provider gave them, by the number that is read from the text.
  pub handle_fetch_exchange_rates_task-HasRate :
      (handle_fetch_exchange_rates_task worker p w).0 ≡ ok tt
      → (rates : List (String × String)) × Answered worker w.calls rates
        × ((u : User)
            → Memᴰ u w.db.users
            → (c : String) → Memᴰ c supported_auto_fetch_currencies
            → HasRate p rates
                (p.clock w.ticks)
                u.id
                c
                (handle_fetch_exchange_rates_task worker p w).1.db)
  unfolding AllUsers
  handle_fetch_exchange_rates_task-HasRate h =
      let (rates, answered, v, ready, same) = task-users h in
      (
        rates,
        answered,
        λ u m c n.
            subst (λ x. HasRate p rates (p.clock w.ticks) u.id c x.db) (sym same)
              ((store_users_lem p rates (p.clock w.ticks) worker (map (λ x. x.id) w.db.users) v
                  ready).0
                u.id (id-mem w.db.users u m) c n),
      )

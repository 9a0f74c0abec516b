-- ===== src/Transaction/Moves.antt =====
-- The change of one balance, and the second half of a transfer (Transaction/Repo).
use mali.Prelude.{◌≡◌, ◌≢◌, subst, none, some, List, inl, inr, arith, String}
use mali.Prelude.Tests.{Option-cases}
use mali.Prelude.Lists.{find, update}
use mali.Prelude.Int.{ℤ}
use mali.Rat.{Rat, add, mul}
use mali.Rat.Text.{set_string}
use mali.Domain.{Uuid, CreateTransactionInput}
use mali.Store.{WalletRow}
use mali.Context.{failure, Error, err, ok, Platform, World, ◌>>=◌}
use mali.Wallet.Repo.{with_id as wallet_with_id, set_wallets}
use mali.Transaction.Repo.{
  lockable, of_column, lock_wallet_for_update, apply_wallet_balance_delta, rat_to_decimal_string,
  parse_decimal, credit,
}
use mali.Context.Success.{result_cases}

-- The wallet `i` of the user `u` changed by `x`: an active wallet of the user was locked, and the balance
-- is the old one plus the number that the server reads from the text of `x`, as the column takes it.
pub record Moved (u i : Uuid) (x : Rat) (p : Platform) (old new : List WalletRow) : Type 0 where
  pub locked : find (lockable u i) old ≢ none
  pub row : WalletRow
  pub found : find (wallet_with_id i) old ≡ some row
  pub change : Rat
  pub read : p.cast (rat_to_decimal_string x) ≡ some change
  pub balance : ℤ
  pub stored : p.column 4 (add (of_column row.balance) change) ≡ some balance
  pub result : new ≡ update (wallet_with_id i) (λ r. record r { balance = balance }) old

lock_ok :
    (u i : Uuid) (p : Platform) (w : World)
    → (lock_wallet_for_update u i p w).0 ≡ ok tt
    → (find (lockable u i) w.db.wallets ≢ none) × ((lock_wallet_for_update u i p w).1.db ≡ w.db)
unfolding lock_wallet_for_update ◌>>=◌
lock_ok u i p w h = (λ e. ground arith, ground arith)

Applied : Uuid → String → Platform → World → World → Type 0
Applied i text p w w' =
    (row : WalletRow) × (change : Rat) × (balance : ℤ) × (find (wallet_with_id i) w.db.wallets
      ≡ some row)
    × (p.cast text ≡ some change)
    × (p.column 4 (add (of_column row.balance) change) ≡ some balance)
    × (w'.db ≡ set_wallets (update (wallet_with_id i) (λ r. record r { balance = balance })) w.db)

apply_ok :
    (i : Uuid) (text : String) (p : Platform) (w : World)
    → (apply_wallet_balance_delta i text p w).0 ≡ ok tt
    → Applied i text p w (apply_wallet_balance_delta i text p w).1
unfolding apply_wallet_balance_delta Applied ◌>>=◌
apply_ok i text p w h = elim (Option-cases (find (wallet_with_id i) w.db.wallets)) [
  | inl absent ↦ absurd (ground arith)
  | inr (r, e) ↦ elim (Option-cases (p.cast text)) [
    | inl unread ↦ absurd (ground arith)
    | inr (d, q) ↦ elim (Option-cases (p.column 4 (add (of_column r.balance) d))) [
      | inl large ↦ absurd (ground arith)
      | inr (v, c) ↦ (r, d, v, e, q, c, ground arith)
    ]
  ]
]

-- A lock, something read, and the change of the balance.
pub locked-Moved :
    (u i : Uuid) (x : Rat) (p : Platform) (w : World)
    → let w₁ = (lock_wallet_for_update u i p w).1 in
      let w₂ = (apply_wallet_balance_delta i (rat_to_decimal_string x) p w₁).1 in
      (lock_wallet_for_update u i p w).0 ≡ ok tt
      → (apply_wallet_balance_delta i (rat_to_decimal_string x) p w₁).0 ≡ ok tt
      → Moved u i x p w.db.wallets w₂.db.wallets × (w₂.db ≡ set_wallets (λ _. w₂.db.wallets) w.db)
unfolding Applied
locked-Moved u i x p w h k =
    let (l, same) = lock_ok u i p w h in
    let (r, d, v, e, q, c, s) =
      apply_ok i (rat_to_decimal_string x) p (lock_wallet_for_update u i p w).1 k in
    (
      record {
        locked = l;
        row = r;
        found = subst (λ d. find (wallet_with_id i) d.wallets ≡ some r) same e;
        change = d;
        read = q;
        balance = v;
        stored = c;
        result = ground arith;
      },
      ground arith,
    )

-- The other wallet of a transfer is changed by the amount at the exchange rate.
pub record Credited (input : CreateTransactionInput) (amount : Rat) (p : Platform)
    (old new : List WalletRow) : Type 0 where
  pub to_wallet : Uuid
  pub to_given : input.transfer_to_wallet_id ≡ some to_wallet
  pub rate_text : String
  pub rate_given : input.exchange_rate ≡ some rate_text
  pub rate : Rat
  pub rate_read : set_string rate_text ≡ some rate
  pub moved : Moved input.user_id to_wallet (mul amount rate) p old new

pub parse_ok : (text : String) (x : Rat) → set_string text ≡ some x → parse_decimal text ≡ ok x
unfolding parse_decimal
parse_ok text x h = rw (h, parse_decimal)

pub parse_err :
    (text : String) → set_string text ≡ none → (e : Error) × (parse_decimal text ≡ err e)
unfolding parse_decimal
parse_err text h = (failure "invalid decimal value", rw (h, parse_decimal))

module _ (input : CreateTransactionInput) (amount : Rat) (p : Platform) (w : World)
    (h : (credit input amount p w).0 ≡ ok tt) where
  credit_to : input.transfer_to_wallet_id ≢ none
  unfolding credit ◌>>=◌
  credit_to e = ground arith

  credit_rate : input.exchange_rate ≢ none
  unfolding credit ◌>>=◌
  credit_rate e = ground arith

  module _ (to : Uuid) (text : String) (e : input.transfer_to_wallet_id ≡ some to)
      (f : input.exchange_rate ≡ some text) where
    credit_lock : (lock_wallet_for_update input.user_id to p w).0 ≡ ok tt
    unfolding credit ◌>>=◌
    credit_lock = elim (result_cases (lock_wallet_for_update input.user_id to p w).0) [
      | inl (_, l) ↦ l
      | inr (_, l) ↦ absurd (ground arith)
    ]

    credit_read : set_string text ≢ none
    unfolding credit ◌>>=◌
    credit_read q = let (_, g) = parse_err text q in let l = credit_lock in ground arith

    module _ (rate : Rat) (q : set_string text ≡ some rate) where
      credit_apply :
          let w₁ = (lock_wallet_for_update input.user_id to p w).1 in
          ((apply_wallet_balance_delta to (rat_to_decimal_string (mul amount rate)) p w₁).0 ≡ ok tt)
          × ((credit input amount p w).1
              ≡ (apply_wallet_balance_delta to (rat_to_decimal_string (mul amount rate)) p w₁).1)
      unfolding credit ◌>>=◌
      credit_apply =
          let g = parse_ok text rate q in let l = credit_lock in (ground arith, ground arith)

-- Only the wallets differ.
abbrev pub WalletsOnly : World → World → Type 0
WalletsOnly w w' = w'.db ≡ set_wallets (λ _. w'.db.wallets) w.db

pub credit-Credited :
    (input : CreateTransactionInput) (amount : Rat) (p : Platform) (w : World)
    → (credit input amount p w).0 ≡ ok tt
    → let w' = (credit input amount p w).1 in
      Credited input amount p w.db.wallets w'.db.wallets × WalletsOnly w w'
credit-Credited input amount p w h = elim (Option-cases input.transfer_to_wallet_id) [
  | inl no_wallet ↦ absurd (credit_to input amount p w h no_wallet)
  | inr (to, e) ↦ elim (Option-cases input.exchange_rate) [
    | inl no_rate ↦ absurd (credit_rate input amount p w h no_rate)
    | inr (text, f) ↦ elim (Option-cases (set_string text)) [
      | inl unread ↦ absurd (credit_read input amount p w h to text e f unread)
      | inr (rate, q) ↦
          let l = credit_lock input amount p w h to text e f in
          let (a, same) = credit_apply input amount p w h to text e f rate q in
          let (m, only) = locked-Moved input.user_id to (mul amount rate) p w l a in
          rw same (
            record {
              to_wallet = to;
              to_given = e;
              rate_text = text;
              rate_given = f;
              rate = rate;
              rate_read = q;
              moved = m;
            },
            only,
          )
    ]
  ]
]

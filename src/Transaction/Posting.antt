-- ===== src/Transaction/Posting.antt =====
-- What a recorded transaction has done to the tables (Transaction/Repo).
use mali.Prelude.{
  ◌≡◌, refl, ap, sym, subst, ◌∙◌, Option, none, some, List, ◌∷◌, inl, inr, arith, String, ◌+◌,
}
use mali.Prelude.Tests.{Option-cases}
use mali.Prelude.Int.{ℤ}
use mali.Rat.{Rat}
use mali.Time.{Time}
use mali.Domain.{Uuid, Transaction, CreateTransactionInput}
use mali.Store.{TransactionRow, Db}
use mali.Context.{ok, Platform, World, ◌>>=◌}
use mali.Wallet.Repo.{set_wallets}
use mali.Transaction.Repo.{
  to_domain, move_balances, insert_row, insert_transaction, post, create_and_apply,
  set_transactions, store_rate, new_row,
}
use mali.Context.Success.{result_cases, bind_ok, transaction_ok}
use mali.Transaction.Balances.{Settled, move_balances-Settled}

store_rate_keeps : (o : Option String) (p : Platform) (w : World) → (store_rate o p w).1 ≡ w
unfolding store_rate ◌>>=◌
store_rate_keeps none p w = refl
store_rate_keeps (some text) p w = ground arith

-- The row that was inserted: the input with its amount as the server reads and stores it.
pub record Inserted (input : CreateTransactionInput) (p : Platform) (t : Transaction)
    (old new : List TransactionRow) : Type 0 where
  pub number : Rat
  pub cast : p.cast input.amount ≡ some number
  pub amount : ℤ
  pub stored : p.column 4 number ≡ some amount
  pub rate : Option ℤ
  pub id : Uuid
  pub created_at : Time
  pub added : new ≡ new_row input amount rate id created_at ∷ old
  pub answered : t ≡ to_domain p (new_row input amount rate id created_at)

abbrev TransactionsOnly : World → World → Type 0
TransactionsOnly w w' = w'.db ≡ set_transactions (λ _. w'.db.transactions) w.db

module _ (input : CreateTransactionInput) (p : Platform) (w : World) (t : Transaction)
    (h : (insert_transaction input p w).0 ≡ ok t) where
  insert-Inserted :
      let w' = (insert_transaction input p w).1 in
      Inserted input p t w.db.transactions w'.db.transactions × TransactionsOnly w w'
  unfolding insert_transaction insert_row ◌>>=◌
  insert-Inserted = elim (Option-cases (p.cast input.amount)) [
    | inl unread ↦ absurd (ground arith)
    | inr (x, e) ↦ elim (Option-cases (p.column 4 x)) [
      | inl large ↦ absurd (ground arith)
      | inr (v, q) ↦
          let kept = store_rate_keeps input.exchange_rate p (record w { calls = w.calls + 1 }) in
          elim (result_cases
            (store_rate input.exchange_rate p (record w { calls = w.calls + 1 })).0) [
              | inl (r, s) ↦ (
                record {
                  number = x;
                  cast = e;
                  amount = v;
                  stored = q;
                  rate = r;
                  id = p.uuid w.draws;
                  created_at = p.clock w.ticks;
                  added = ground arith;
                  answered = ground arith;
                },
                ground arith,
              )
              | inr (_, s) ↦ absurd (ground arith)
            ]
    ]
  ]

post_ok :
    (input : CreateTransactionInput) (p : Platform) (w : World) (t : Transaction)
    → (post input p w).0 ≡ ok t
    → let w₁ = (move_balances input p w).1 in
      ((move_balances input p w).0 ≡ ok tt)
      × ((insert_transaction input p w₁).0 ≡ ok t)
      × ((post input p w).1 ≡ (insert_transaction input p w₁).1)
unfolding post
post_ok input p w t h =
    let (_, a, b, c) = bind_ok (move_balances input) (λ _. insert_transaction input) p w t h in
    (a, b, c)

-- A transaction that was recorded.
pub record Posted (input : CreateTransactionInput) (p : Platform) (t : Transaction) (old new : Db)
    : Type 0 where
  pub amount : Rat
  pub settled : Settled input amount p old.wallets new.wallets
  pub inserted : Inserted input p t old.transactions new.transactions
  pub only : new ≡ record old { wallets = new.wallets; transactions = new.transactions }

assemble :
    (input : CreateTransactionInput) (p : Platform) (t : Transaction) (old mid new : Db)
    (amount : Rat)
    → mid ≡ set_wallets (λ _. mid.wallets) old
    → new ≡ set_transactions (λ _. new.transactions) mid
    → Settled input amount p old.wallets mid.wallets
    → Inserted input p t mid.transactions new.transactions
    → Posted input p t old new
assemble input p t old mid new amount e f s i =
    let ws : new.wallets ≡ mid.wallets = ap (λ d. d.wallets) f in
    let ts : mid.transactions ≡ old.transactions = ap (λ d. d.transactions) e in
    record {
      amount = amount;
      settled = subst (λ rows. Settled input amount p old.wallets rows) (sym ws) s;
      inserted = subst (λ rows. Inserted input p t rows new.transactions) ts i;
      only = cc;
    }

-- When a transaction is recorded, its balances have moved: an expense or a transfer has taken the amount
-- from its wallet, income has added it, and a transfer has then added the amount times the exchange
-- rate to the other wallet. Each change is the number that the server reads from the text with 12
-- decimals, and each balance is stored as its column takes it; for each wallet an active one of the
-- user was locked. One row was added, and it is what was answered; the tables changed in nothing else.
pub create_and_apply-Posted :
    (input : CreateTransactionInput) (p : Platform) (w : World) (t : Transaction)
    → (create_and_apply input p w).0 ≡ ok t
    → Posted input p t w.db (create_and_apply input p w).1.db
unfolding create_and_apply
create_and_apply-Posted input p w t h =
    let (run, same) = transaction_ok (post input) p w t h in
    let (moved, added, last) = post_ok input p (record w { calls = w.calls + 1 }) t run in
    let (amount, s, ws) = move_balances-Settled input p (record w { calls = w.calls + 1 }) moved in
    let (i, ts) =
      insert-Inserted input p (move_balances input p (record w { calls = w.calls + 1 })).1 t
        added in
    rw (same ∙ ap (λ x. x.db) last) (assemble input p t _ _ _ amount ws ts s i)

-- ===== src/Transaction/Later.antt =====
-- A transaction that is deleted stays so, whatever is logged or deleted later.
use mali.Prelude.{
  ◌≡◌, refl, sym, subst, ◌∙◌, true, Option, none, some, List, [], ◌∷◌, inl, inr, arith, String,
}
use mali.Prelude.Tests.{◌==◌, Bool-cases, Option-cases}
use mali.Prelude.Lists.{find, update}
use mali.Prelude.Int.{ℤ}
use mali.Rat.{Rat}
use mali.Domain.{Uuid, CreateTransactionInput}
use mali.Store.{WalletRow, TransactionRow, Db}
use mali.Context.{Platform, World, M, modify, ◌>>=◌}
use mali.Context.Frames.{IsReadOnly, read_rules}
use mali.Context.Invariant.{Preserves, Preserves-modify, Preserves-transaction, preserving_rules}
use mali.Wallet.Repo.{set_wallets, to_column}
use mali.Transaction.Repo.{
  with_id, deletable, set_transactions, lock_wallet_for_update, apply_wallet_balance_delta, credit,
  move_balances, store_rate, new_row, insert_row, insert_transaction, post, create_and_apply,
  soft_delete,
}
use mali.Transaction.Service.{
  LogTransactionInput, DeleteTransactionInput, TransactionService, or_else, log_new,
  log_transaction, create_transaction, delete_transaction,
}
use mali.Transaction.Atomic.{
  get_owned_wallet-IsReadOnly, find_earlier-IsReadOnly, transfer_part-IsReadOnly,
}

-- The row under the id is there, and if it belongs to the user it is deleted.
pub record IsGone (u i : Uuid) (rows : List TransactionRow) : Type 0 where
  pub row : TransactionRow
  pub found : find (with_id i) rows ≡ some row
  pub deleted : row.user_id ≡ u → row.is_deleted ≡ true

module _ (u i : Uuid) where
  abbrev Gone : Db → Type 0
  Gone d = IsGone u i d.transactions

  abbrev gone : TransactionRow → TransactionRow
  gone r = record r { is_deleted = true }

  -- Of a row that is found, and of whatever user and id the deleted ones are.
  pub find-update :
      (v j : Uuid) (rows : List TransactionRow) (r : TransactionRow)
      → find (with_id i) rows ≡ some r
      → (s : TransactionRow) × (find (with_id i) (update (deletable v j) gone rows) ≡ some s)
        × (s.user_id ≡ r.user_id)
        × (r.is_deleted ≡ true → s.is_deleted ≡ true)
  unfolding find update
  find-update v j [] r h = absurd (ground arith)
  find-update v j (x ∷ rows) r h = elim (Bool-cases (x.id == i)) [
    | inl e ↦ elim (Bool-cases (deletable v j x)) [
      | inl d ↦ (gone x, ground arith, ground arith, λ _. refl)
      | inr d ↦ (x, ground arith, ground arith, λ k. ground arith)
    ]
    | inr e ↦ let (s, f, o, k) = find-update v j rows r (ground arith) in (s, ground arith, o, k)
  ]

  update-IsGone :
      (v j : Uuid) (rows : List TransactionRow)
      → IsGone u i rows
      → IsGone u i (update (deletable v j) gone rows)
  update-IsGone v j rows g =
      let (s, e, o, k) = find-update v j rows g.row g.found in
      record { row = s; found = e; deleted = λ own. k (g.deleted (sym o ∙ own)) }

  update-Preserves :
      (v j : Uuid) → Preserves Gone (modify (set_transactions (update (deletable v j) gone)))
  update-Preserves v j =
      Preserves-modify Gone (set_transactions (update (deletable v j) gone))
        (λ d k. update-IsGone v j d.transactions k)

  soft_delete-Preserves : (v j : Uuid) → Preserves Gone (soft_delete v j)
  unfolding soft_delete
  soft_delete-Preserves v j = search (preserving_rules, read_rules, update-Preserves) depth 12

  delete_transaction-Preserves :
      (s : TransactionService) (input : DeleteTransactionInput)
      → Preserves Gone (delete_transaction s input)
  unfolding delete_transaction
  delete_transaction-Preserves s input =
      search (preserving_rules, read_rules, soft_delete-Preserves) depth 14

  set_wallets-Preserves :
      (f : List WalletRow → List WalletRow) → Preserves Gone (modify (set_wallets f))
  set_wallets-Preserves f = Preserves-modify Gone (set_wallets f) (λ d k. k)

  apply-Preserves :
      (v : Uuid) (delta : String) → Preserves Gone (apply_wallet_balance_delta v delta)
  unfolding apply_wallet_balance_delta to_column
  apply-Preserves v delta = search (preserving_rules, read_rules, set_wallets-Preserves) depth 16

  credit-Preserves :
      (input : CreateTransactionInput) (amount : Rat) → Preserves Gone (credit input amount)
  unfolding credit lock_wallet_for_update
  credit-Preserves input amount = search (preserving_rules, read_rules, apply-Preserves) depth 16

  move_balances-Preserves : (input : CreateTransactionInput) → Preserves Gone (move_balances input)
  unfolding move_balances lock_wallet_for_update
  move_balances-Preserves input =
      search (preserving_rules, read_rules, apply-Preserves, credit-Preserves) depth 16

  inserted-IsGone :
      (row : TransactionRow) (rows : List TransactionRow)
      → find (with_id row.id) rows ≡ none
      → IsGone u i rows
      → IsGone u i (row ∷ rows)
  unfolding find
  inserted-IsGone row rows fresh g = record {
    row = g.row;
    found = ground (arith, g.found);
    deleted = g.deleted;
  }

  -- The primary key: no row comes under the id of one that is there.
  insert_row-IsGone :
      (input : CreateTransactionInput) (amount : ℤ) (rate : Option ℤ) (p q : Platform) (w : World)
      → IsGone u i w.db.transactions
      → IsGone u i (insert_row q input amount rate p w).1.db.transactions
  unfolding insert_row ◌>>=◌
  insert_row-IsGone input amount rate p q w g =
      elim (Option-cases (find (with_id (p.uuid w.draws)) w.db.transactions)) [
        | inl fresh ↦
            let row = new_row input amount rate (p.uuid w.draws) (p.clock w.ticks) in
            let added : (insert_row q input amount rate p w).1.db.transactions
                ≡ row ∷ w.db.transactions =
              ground arith in
            subst (IsGone u i) (sym added) (inserted-IsGone row w.db.transactions fresh g)
        | inr (r, taken) ↦
            let same : (insert_row q input amount rate p w).1.db.transactions ≡ w.db.transactions =
              ground arith in
            subst (IsGone u i) (sym same) g
      ]

  insert_row-Preserves :
      (q : Platform) (input : CreateTransactionInput) (amount : ℤ) (rate : Option ℤ)
      → Preserves Gone (insert_row q input amount rate)
  insert_row-Preserves q input amount rate = record {
    at = λ p w g. insert_row-IsGone input amount rate p q w g;
  }

  store_rate-IsReadOnly : (rate : Option String) → IsReadOnly (store_rate rate)
  unfolding store_rate to_column
  store_rate-IsReadOnly none = search read_rules
  store_rate-IsReadOnly (some rate) = search read_rules depth 9

  insert-Preserves : (input : CreateTransactionInput) → Preserves Gone (insert_transaction input)
  unfolding insert_transaction to_column
  insert-Preserves input =
      search (preserving_rules, read_rules, store_rate-IsReadOnly, insert_row-Preserves) depth 16

  post-Preserves : (input : CreateTransactionInput) → Preserves Gone (post input)
  unfolding post
  post-Preserves input =
      search (preserving_rules, read_rules, move_balances-Preserves, insert-Preserves) depth 9

  apply_all-Preserves : (input : CreateTransactionInput) → Preserves Gone (create_and_apply input)
  unfolding create_and_apply
  apply_all-Preserves input = Preserves-transaction Gone (post input) (post-Preserves input)

  log_new-Preserves : (input : LogTransactionInput) → Preserves Gone (log_new input)
  unfolding log_new
  log_new-Preserves input =
      search
        (
          preserving_rules, read_rules, get_owned_wallet-IsReadOnly, transfer_part-IsReadOnly,
          apply_all-Preserves,
        )
        depth 22

  or_else-Preserves :
      {A : Type 0} (o : Option A) (m : M A) → Preserves Gone m → Preserves Gone (or_else o m)
  unfolding or_else
  or_else-Preserves none m h = h
  or_else-Preserves (some a) m h = search (preserving_rules, read_rules)

  log_transaction-Preserves :
      (s : TransactionService) (input : LogTransactionInput)
      → Preserves Gone (log_transaction s input)
  unfolding log_transaction
  log_transaction-Preserves s input =
      search
        (
          preserving_rules, read_rules, find_earlier-IsReadOnly, or_else-Preserves,
          log_new-Preserves,
        )
        depth 10

  create_transaction-Preserves :
      (s : TransactionService) (input : LogTransactionInput)
      → Preserves Gone (create_transaction s input)
  unfolding create_transaction
  create_transaction-Preserves s input =
      search
        (
          preserving_rules, read_rules, find_earlier-IsReadOnly, or_else-Preserves,
          log_transaction-Preserves,
        )
        depth 10

-- The tables later on: after any number of calls, by whomever, that log or delete transactions, whether or not
-- they succeed, and of changes that leave the table of transactions as it is.
pub data Later : Db → Db → Type 0 where
  unchanged : {d : Db} → Later d d
  logging :
      {d : Db} (s : TransactionService) (input : LogTransactionInput) (p : Platform) (w : World)
      → Later d w.db
      → Later d (create_transaction s input p w).1.db
  deleting :
      {d : Db} (s : TransactionService) (input : DeleteTransactionInput) (p : Platform) (w : World)
      → Later d w.db
      → Later d (delete_transaction s input p w).1.db
  elsewhere : {d e : Db} (e' : Db) → e'.transactions ≡ e.transactions → Later d e → Later d e'

pub Later-IsGone :
    (u i : Uuid) {d e : Db} → Later d e → IsGone u i d.transactions → IsGone u i e.transactions
Later-IsGone u i unchanged g = g
Later-IsGone u i (logging s input p w before) g =
    (create_transaction-Preserves u i s input).at p w (Later-IsGone u i before g)
Later-IsGone u i (deleting s input p w before) g =
    (delete_transaction-Preserves u i s input).at p w (Later-IsGone u i before g)
Later-IsGone u i (elsewhere e' same before) g =
    subst (IsGone u i) (sym same) (Later-IsGone u i before g)

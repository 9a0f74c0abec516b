-- ===== src/Transaction/Reads.antt =====
-- What users can read of transactions: their own, not deleted ones, in pages.
use mali.Prelude.{◌≡◌, ◌≢◌, true, false, some, List, [], ◌∷◌, inl, inr, arith}
use mali.Prelude.Tests.{Option-cases}
use mali.Prelude.Lists.{find, update, exists}
use mali.Domain.{Uuid, Transaction}
use mali.Store.{TransactionRow}
use mali.Context.{ok, Platform, World, ◌>>=◌}
use mali.Transaction.Repo
use mali.Transaction.Repo.{with_id, deletable, to_domain, set_transactions}
use mali.Transaction.Later.{IsGone, Later, Later-IsGone, find-update}
use mali.Transaction.Service.{
  TransactionService, GetTransactionInput, DeleteTransactionInput, get_transaction,
  delete_transaction,
}

-- The row behind a transaction that is shown.
pub record Shown (input : GetTransactionInput) (p : Platform) (w : World) (t : Transaction)
    : Type 0 where
  pub row : TransactionRow
  pub found : find (with_id input.transaction_id) w.db.transactions ≡ some row
  pub shown : t ≡ to_domain p row
  pub owned : row.user_id ≡ input.user_id
  pub kept : row.is_deleted ≡ false

-- A transaction that is shown is the row under the requested id; that row belongs to the user and is not
-- deleted.
pub get_transaction-Shown :
    (s : TransactionService) (input : GetTransactionInput) (p : Platform) (w : World)
    (t : Transaction)
    → (get_transaction s input p w).0 ≡ ok t
    → Shown input p w t
unfolding get_transaction Repo.find_by_id ◌>>=◌
get_transaction-Shown s input p w t h =
    elim (Option-cases (find (with_id input.transaction_id) w.db.transactions)) [
      | inl absent ↦ absurd (ground arith)
      | inr (r, e) ↦ record {
        row = r;
        found = e;
        shown = ground arith;
        owned = ground arith;
        kept = ground arith;
      }
    ]

-- After the update no row under this id of this user is left undeleted.
find-update_deleted :
    (u i : Uuid) (rs : List TransactionRow) (r : TransactionRow)
    → find (with_id i) (update (deletable u i) (λ x. record x { is_deleted = true }) rs) ≡ some r
    → r.user_id ≡ u
    → r.is_deleted ≡ true
unfolding find update
find-update_deleted u i [] r h own = cc
find-update_deleted u i (x ∷ rs) r h own = ground (arith, find-update_deleted u i rs r)

delete_transaction_lem :
    (s : TransactionService) (input : DeleteTransactionInput) (p : Platform) (w : World)
    → (delete_transaction s input p w).0 ≡ ok tt
    → (delete_transaction s input p w).1.db
      ≡ set_transactions
          (update
            (deletable input.user_id input.transaction_id)
            (λ r. record r { is_deleted = true }))
          w.db
unfolding delete_transaction Repo.soft_delete ◌>>=◌
delete_transaction_lem s input p w h = ground arith

exists-found :
    (u i : Uuid) (rows : List TransactionRow)
    → exists (deletable u i) rows ≡ true
    → (r : TransactionRow) × (find (with_id i) rows ≡ some r)
unfolding exists find
exists-found u i [] h = absurd (ground arith)
exists-found u i (x ∷ rows) h = elim (Option-cases (find (with_id i) (x ∷ rows))) [
  | inr (r, e) ↦ (r, e)
  | inl e ↦ let (r, q) = exists-found u i rows (ground arith) in (r, ground arith)
]

delete_transaction-affected :
    (s : TransactionService) (input : DeleteTransactionInput) (p : Platform) (w : World)
    → (delete_transaction s input p w).0 ≡ ok tt
    → exists (deletable input.user_id input.transaction_id) w.db.transactions ≡ true
unfolding delete_transaction Repo.soft_delete ◌>>=◌
delete_transaction-affected s input p w h = ground arith

delete_transaction-IsGone :
    (s : TransactionService) (u i : Uuid) (p : Platform) (w : World)
    → (delete_transaction s (record { user_id = u; transaction_id = i }) p w).0 ≡ ok tt
    → IsGone u i
        (delete_transaction s (record { user_id = u; transaction_id = i }) p w).1.db.transactions
delete_transaction-IsGone s u i p w h =
    let input : DeleteTransactionInput = record { user_id = u; transaction_id = i } in
    let (r, e) = exists-found u i w.db.transactions (delete_transaction-affected s input p w h) in
    let (row, found, _, _) = find-update u i u i w.db.transactions r e in
    rw (delete_transaction_lem s input p w h) (record {
      row = row;
      found = found;
      deleted = λ own. find-update_deleted u i w.db.transactions row found own;
    })

-- A deleted transaction is never shown to its user again: not in the tables that the deletion left, and not
-- after any number of later calls, by whomever, that log or delete transactions, and of changes to other
-- tables.
pub get_transaction-delete_transaction :
    (s : TransactionService) (u i : Uuid) (p q : Platform) (w v : World) (t : Transaction)
    → (delete_transaction s (record { user_id = u; transaction_id = i }) p w).0 ≡ ok tt
    → Later (delete_transaction s (record { user_id = u; transaction_id = i }) p w).1.db v.db
    → (get_transaction s (record { user_id = u; transaction_id = i }) q v).0 ≢ ok t
get_transaction-delete_transaction s u i p q w v t h later shown =
    let k = get_transaction-Shown s (record { user_id = u; transaction_id = i }) q v t shown in
    let gone = Later-IsGone u i later (delete_transaction-IsGone s u i p w h) in
    ground (arith, k.found, k.owned, k.kept, gone.found, gone.deleted)

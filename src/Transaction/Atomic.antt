-- ===== src/Transaction/Atomic.antt =====
-- A transaction is recorded and its balances moved together, or nothing is changed.
use mali.Prelude.{◌≡◌, ◌≢◌, true, false, Option, none, some, arith, String}
use mali.Prelude.Lists.{find}
use mali.Domain.{Uuid, Transaction, CreateTransactionInput}
use mali.Context.{Error, Result, ok, err, Platform, World, M, ◌>>=◌}
use mali.Context.Frames.{
  IsReadOnly, FailsClean, FailsClean-transaction, FailsClean-bind, FailsClean-then_pure, read_rules,
  clean_rules,
}
use mali.Store.{TransactionRow}
use mali.Wallet.{get_owned_wallet}
use mali.Wallet.Repo
use mali.Transaction.Repo.{post, create_and_apply, find_by_sync_id, with_sync_id, to_domain}
use mali.Transaction.Service.{
  LogTransactionInput, TransactionService, given_id, find_earlier, earlier_record, transfer_part,
  or_else, log_new, log_transaction, create_transaction,
}

pub get_owned_wallet-IsReadOnly : (u i : Uuid) → IsReadOnly (get_owned_wallet u i)
unfolding get_owned_wallet Repo.find_by_id
get_owned_wallet-IsReadOnly u i = search read_rules depth 9

earlier_record-IsReadOnly : (u : Uuid) (r : Result Transaction) → IsReadOnly (earlier_record u r)
earlier_record-IsReadOnly u (ok t) = search read_rules
earlier_record-IsReadOnly u (err e) = search read_rules

pub find_earlier-IsReadOnly : (u : Uuid) (o : Option Uuid) → IsReadOnly (find_earlier u o)
unfolding find_earlier find_by_sync_id
find_earlier-IsReadOnly u none = search read_rules
find_earlier-IsReadOnly u (some i) = search (read_rules, earlier_record-IsReadOnly) depth 9

pub transfer_part-IsReadOnly :
    (i : LogTransactionInput) (t : String) → IsReadOnly (transfer_part i t)
unfolding transfer_part
transfer_part-IsReadOnly i t = search (read_rules, get_owned_wallet-IsReadOnly) depth 12

create_and_apply-FailsClean : (i : CreateTransactionInput) → FailsClean (create_and_apply i)
unfolding create_and_apply
create_and_apply-FailsClean i = FailsClean-transaction (post i)

log_new-FailsClean : (i : LogTransactionInput) → FailsClean (log_new i)
unfolding log_new
log_new-FailsClean i =
    search
      (
        clean_rules, get_owned_wallet-IsReadOnly, transfer_part-IsReadOnly,
        create_and_apply-FailsClean,
      )
      depth 20

or_else-FailsClean : {A : Type 0} (o : Option A) (m : M A) → FailsClean m → FailsClean (or_else o m)
unfolding or_else
or_else-FailsClean none m h = h
or_else-FailsClean (some a) m h = search clean_rules

log_transaction-FailsClean :
    (s : TransactionService) (i : LogTransactionInput) → FailsClean (log_transaction s i)
unfolding log_transaction
log_transaction-FailsClean s i =
    search (clean_rules, find_earlier-IsReadOnly, or_else-FailsClean, log_new-FailsClean) depth 9

create_transaction-FailsClean :
    (s : TransactionService) (i : LogTransactionInput) → FailsClean (create_transaction s i)
unfolding create_transaction
create_transaction-FailsClean s i =
    FailsClean-bind _ _ (find_earlier-IsReadOnly i.user_id (given_id i.sync_id)) λ earlier.
      or_else-FailsClean _ _ (
        FailsClean-then_pure (log_transaction s i) (λ t. (t, false))
          (log_transaction-FailsClean s i))

-- A call that fails to log a transaction, before or in the midst of moving balances, has changed no
-- table: no balance has moved and no record has been made.
pub create_transaction-err :
    (s : TransactionService) (i : LogTransactionInput) (p : Platform) (w : World) (e : Error)
    → (create_transaction s i p w).0 ≡ err e
    → (create_transaction s i p w).1.db ≡ w.db
create_transaction-err s i = (create_transaction-FailsClean s i).at

find_earlier-some :
    (u i : Uuid) (p : Platform) (w : World) (r : TransactionRow)
    → p.fault w.calls ≡ none
    → find (with_sync_id i) w.db.transactions ≡ some r
    → r.user_id ≡ u
    → (find_earlier u (some i) p w).0 ≡ ok (some (to_domain p r))
unfolding find_earlier find_by_sync_id ◌>>=◌
find_earlier-some u i p w r up found own = ground arith

-- A sync id that the user's table already has is not logged again: the record is returned, marked as
-- existing, and no table changes. The lookup has to reach the server.
pub create_transaction-existing :
    (s : TransactionService) (input : LogTransactionInput) (i : Uuid) (p : Platform) (w : World)
    (r : TransactionRow)
    → input.sync_id ≡ some i
    → i ≢ 0
    → p.fault w.calls ≡ none
    → find (with_sync_id i) w.db.transactions ≡ some r
    → r.user_id ≡ input.user_id
    → ((create_transaction s input p w).0 ≡ ok (to_domain p r, true))
      × ((create_transaction s input p w).1.db ≡ w.db)
unfolding create_transaction ◌>>=◌
create_transaction-existing s input i p w r given not_nil up found own =
    grind (arith, find_earlier-some input.user_id i p w r up found own, find_earlier-IsReadOnly)

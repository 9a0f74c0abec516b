-- ===== src/Transaction/Tests.antt =====
-- Transactions on concrete inputs.
use mali.Prelude.{◌≤◌, ◌≡◌, ◌≢◌, refl, true, none, some, List, [], ◌∷◌, ◌++◌, arith}
use mali.Prelude.Lists.{find, update, exists, length}
use mali.Prelude.Text.{trim_space, to_upper, to_lower}
use mali.Rat.{negate, mul, add}
use mali.Prelude.Int.{pos, ◌+ℤ◌, ◌*ℤ◌}
use mali.Rat.Text.{set_string, float_string}
use mali.Domain.{Transaction, CreateTransactionInput}
use mali.Store.{TransactionRow}
use mali.Context.{World, Error, err, ok, failure, wrapped, transaction, ◌>>=◌}
use mali.Sample.{steady, failing_at, world, lunch, today, reads, round_column, render_column}
use mali.Wallet.{get_owned_wallet}
use mali.Wallet.Repo as Wallets
use mali.Transaction.Repo
use mali.Transaction.Repo.{to_domain, new_row, create_and_apply}
use mali.Transaction.Service.{
  LogTransactionInput, TransactionService, GetTransactionInput, DeleteTransactionInput,
  create_transaction, log_transaction, log_new, get_transaction, delete_transaction,
}
use mali.Transaction.Listing.{page}
use mali.Transaction.Atomic.{create_transaction-err, create_transaction-existing}
use mali.Transaction.Reads.{Shown, get_transaction-Shown, get_transaction-delete_transaction}
use mali.Transaction.Later.{unchanged, deleting}
use mali.Transaction.Posting.{Posted, create_and_apply-Posted}
use mali.Transaction.Pages.{Continues, page-Continues}

abbrev service : TransactionService
service = record { has_transactions = true; has_wallets = true }

-- From the first wallet to the second, at a rate of 20.
abbrev moved : LogTransactionInput
moved = record {
  user_id = 1;
  wallet_id = 11;
  category_id = none;
  tx_type = "Transfer";
  amount = "12.50";
  currency = "usd";
  notes = "";
  source = "manual";
  transacted_at = today;
  sync_id = none;
  transfer_to_wallet_id = some 12;
  exchange_rate = "20";
}

abbrev reset : Error
reset =
    wrapped "log transaction" (wrapped "apply wallet balance delta" (failure "connection reset"))

-- The first wallet is debited; then the credit of the second one fails.
half_done : (create_transaction service moved (failing_at 6) world).0 ≡ err reset
unfolding create_transaction log_transaction log_new Repo.create_and_apply Repo.post
    Repo.move_balances transaction get_owned_wallet Wallets.find_by_id ◌>>=◌ find update trim_space
    to_upper to_lower set_string float_string round_column render_column reads negate mul add ◌+ℤ◌
    ◌*ℤ◌
half_done = refl

create_transaction-err_example :
    (create_transaction service moved (failing_at 6) world).1.db ≡ world.db
create_transaction-err_example =
    create_transaction-err service moved (failing_at 6) world reset half_done

create_transaction-existing_example :
    ((create_transaction service (record moved { sync_id = some 77 }) steady world).0
      ≡ ok (to_domain steady lunch, true))
    × ((create_transaction service (record moved { sync_id = some 77 }) steady world).1.db
        ≡ world.db)
unfolding find
create_transaction-existing_example =
    create_transaction-existing service (record moved { sync_id = some 77 }) 77 steady world lunch
      refl (ground arith) refl refl refl

abbrev lunch_request : GetTransactionInput
lunch_request = record { user_id = 1; transaction_id = 21 }

lunch_shown : (get_transaction service lunch_request steady world).0 ≡ ok (to_domain steady lunch)
unfolding get_transaction Repo.find_by_id find ◌>>=◌
lunch_shown = refl

get_transaction-Shown_example : Shown lunch_request steady world (to_domain steady lunch)
get_transaction-Shown_example =
    get_transaction-Shown service lunch_request steady world (to_domain steady lunch) lunch_shown

abbrev lunch_removal : DeleteTransactionInput
lunch_removal = record { user_id = 1; transaction_id = 21 }

lunch_deleted : (delete_transaction service lunch_removal steady world).0 ≡ ok tt
unfolding delete_transaction Repo.soft_delete exists ◌>>=◌
lunch_deleted = refl

-- The lunch is deleted, and then the same is tried again.
abbrev twice_deleted : World
twice_deleted =
    (delete_transaction service lunch_removal steady
      (delete_transaction service lunch_removal steady world).1).1

get_transaction-delete_transaction_example :
    (get_transaction service lunch_request steady twice_deleted).0 ≢ ok (to_domain steady lunch)
get_transaction-delete_transaction_example =
    get_transaction-delete_transaction service 1 21 steady steady world twice_deleted
      (to_domain steady lunch) lunch_deleted
      (deleting service lunch_removal steady
        (delete_transaction service lunch_removal steady world).1 unchanged)

abbrev three : List Transaction
three = to_domain steady lunch ∷ to_domain steady lunch ∷ to_domain steady lunch ∷ []

page-Continues_example :
    (later : List Transaction) × ((page 2 three).transactions ++ later ≡ three)
    × (length (page 2 three).transactions ≤ 2)
    × Continues 2 later (page 2 three)
page-Continues_example = page-Continues 2 three (omega arith)

abbrev moved_input : CreateTransactionInput
moved_input = record {
  user_id = 1;
  wallet_id = 11;
  category_id = none;
  tx_type = "transfer";
  amount = "12.50";
  currency = "USD";
  notes = none;
  source = "manual";
  transacted_at = today;
  sync_id = none;
  transfer_to_wallet_id = some 12;
  exchange_rate = some "20";
}

abbrev moved_row : TransactionRow
moved_row = new_row moved_input (pos 125_000) (some (pos 2_000_000_000)) 1000 today

moved_done : (create_and_apply moved_input steady world).0 ≡ ok (to_domain steady moved_row)
unfolding Repo.create_and_apply Repo.post Repo.move_balances transaction ◌>>=◌ find update exists
    set_string float_string round_column render_column reads negate mul add ◌+ℤ◌ ◌*ℤ◌
    Repo.store_rate
moved_done = refl

create_and_apply-Posted_example :
    Posted moved_input steady
      (to_domain steady moved_row)
      world.db
      (create_and_apply moved_input steady world).1.db
create_and_apply-Posted_example =
    create_and_apply-Posted moved_input steady world (to_domain steady moved_row) moved_done

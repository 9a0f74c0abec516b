-- ===== src/Sync/Tests.antt =====
-- Synchronisation on concrete inputs.
use mali.Prelude.{
  List, true, ◌≤◌, ◌≡◌, refl, false, none, some, Option, [], ◌∷◌, arith, String, str_eq,
}
use mali.Prelude.Tests.{if◌then◌else◌}
use mali.Domain.{Uuid}
use mali.Json.{text, object, field, end}
use mali.Store.{SyncLogRow}
use mali.Context.{ok, World}
use mali.Sample.{steady, world, tables, today}
use mali.Transaction.Service.{TransactionService}
use mali.Goal.Service.{GoalService}
use mali.Budget.Service.{BudgetService}
use mali.Wallet.{WalletService}
use mali.Sync.Interfaces.{
  SyncChange, SyncPushInput, SyncPushResult, SyncPullInput, SyncDelta, SyncPullResult,
}
use mali.Sync.Service.{clamp_limit, push, pull}
use mali.Sync.Wiring.{main_service, supported_wallet_currencies, wired}
use mali.Sync.Push.{AreNew, Accounts, tried, apply_all, push_complete, push-apply_all}
use mali.Sync.Pull.{IsPage, pull-IsPage}
use mali.Sync.Listing.{IsListing}
use mali.Sync.Others.{others}
use mali.Sync.Isolation.{push-others}

abbrev reads_uuid : String → Option Uuid
reads_uuid t = if str_eq t "a" then some 81 else if str_eq t "b" then some 82 else none

abbrev rename : SyncChange
rename = record {
  sync_id = " a ";
  entity = "Wallet";
  operation = "delete";
  payload = some (object (field "wallet_id" (text "b") end));
}

abbrev batch : SyncPushInput
batch = record {
  user_id = 1;
  changes = rename ∷ rename ∷ record rename { sync_id = "b"; entity = "category" } ∷ [];
}

push_complete_example :
    (r : SyncPushResult) × ((push reads_uuid main_service batch steady world).0 ≡ ok r)
    × Accounts batch.changes r.accepted_ids r.conflicts
    × AreNew [] r.accepted_ids
push_complete_example =
    push_complete reads_uuid main_service batch steady world (omega arith) (omega arith)
      (omega arith)

push-apply_all_example :
    (r : SyncPushResult) × (push reads_uuid main_service batch steady world
      ≡ (ok r, (push reads_uuid main_service batch steady world).1))
    × (apply_all reads_uuid main_service 1
          (tried reads_uuid main_service [] batch.changes)
          steady
          world
        ≡ (ok r.accepted_ids, (push reads_uuid main_service batch steady world).1))
push-apply_all_example =
    push-apply_all reads_uuid main_service batch steady world (omega arith) (omega arith)
      (omega arith)

abbrev transactions : TransactionService
transactions = record { has_transactions = true; has_wallets = true }

abbrev goals : GoalService
goals = record { has_repository = true; has_emitter = false }

abbrev budgets : BudgetService
budgets = record { has_repository = true; has_emitter = false }

abbrev wallets : WalletService
wallets = record { has_repository = true; supported_currencies = supported_wallet_currencies }

push-others_example :
    others 1 (push reads_uuid (wired transactions goals budgets wallets) batch steady world).1.db
    ≡ others 1 world.db
push-others_example = push-others reads_uuid transactions goals budgets wallets batch steady world

abbrev entry : SyncLogRow
entry = record {
  id = 91;
  user_id = 1;
  entity_type = "wallet";
  entity_id = 11;
  operation = "update";
  payload = object end;
  synced_at = today;
}

-- Two changes of the user at the same time, the later id first, and one of another user.
abbrev logged : World
logged = record world {
  db = record tables {
    sync_log = record entry { id = 92 } ∷ entry ∷ record entry { id = 90; user_id = 2 } ∷ [];
  };
}

abbrev first_page : SyncPullInput
first_page = record { user_id = 1; since = 1; limit = 1; cursor = none }

pull-IsPage_example :
    (r : SyncPullResult) × ((pull
        (wired transactions goals budgets wallets)
        first_page
        steady
        logged).0
      ≡ ok r)
    × ((all : List SyncDelta) × IsListing first_page logged.db.sync_log all
        × IsPage (clamp_limit 1) all r)
    × (1 ≤ clamp_limit 1)
    × (clamp_limit 1 ≤ 100)
pull-IsPage_example =
    pull-IsPage transactions goals budgets wallets first_page steady logged (omega arith)
      (omega arith) refl refl

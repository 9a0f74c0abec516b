-- ===== src/Sync/Isolation.antt =====
-- A batch that a user pushes leaves alone what is not theirs.
pub mod Money
pub mod Plans
use mali.Prelude.{◌≡◌, ◌∙◌, refl, Option, none, some, List, [], ◌∷◌, inl, inr, String}
use mali.Prelude.Tests.{Option-cases}
use mali.Prelude.Text.{trim_space, to_lower}
use mali.Domain.{Uuid}
use mali.Json.{Payload, Fields}
use mali.Context.{Platform, World}
use mali.Context.Views.{Keeps, view_rules, Keeps-bind, Keeps-pure, Keeps-attempt}
use mali.Transaction.Service.{TransactionService}
use mali.Goal.Service.{GoalService}
use mali.Budget.Service.{BudgetService}
use mali.Wallet.{WalletService}
use mali.Sync.Interfaces.{SyncChange, SyncPushInput}
use mali.Sync.Payload.{text_in, optional_in, bool_in, int32_in, time_of, time_or_zero}
use mali.Sync.Changes.{
  optional_uuid, create_transaction, delete_transaction, apply_transaction_change, create_goal,
  update_goal, contribute, delete_goal, apply_goal_change, apply_budget_change, create_wallet,
  update_wallet, delete_wallet, apply_wallet_change, apply_change,
}
use mali.Sync.Service.{id_of, refusal, apply_one, push_changes, push}
use mali.Sync.Wiring.{wired, transaction_ops, goal_ops, budget_ops, wallet_ops}
use mali.Sync.Others.{others}
use mali.Sync.Isolation.Money.{
  create_wallet-Keeps, update_name-Keeps, delete-Keeps, create_transaction-Keeps,
  delete_transaction-Keeps,
}
use mali.Sync.Isolation.Plans.{
  create_goal-Keeps, update_goal-Keeps, delete_goal-Keeps, contribute-Keeps, upsert_budget-Keeps,
}

-- Reading a payload touches nothing.
module _ (u : Uuid) where
  text_in-Keeps : (fields : Fields) (key : String) → Keeps (others u) (text_in fields key)
  unfolding text_in
  text_in-Keeps fields key = search view_rules

  optional_in-Keeps : (fields : Fields) (key : String) → Keeps (others u) (optional_in fields key)
  unfolding optional_in
  optional_in-Keeps fields key = search view_rules

  bool_in-Keeps : (fields : Fields) (key : String) → Keeps (others u) (bool_in fields key)
  unfolding bool_in
  bool_in-Keeps fields key = search view_rules

  int32_in-Keeps : (fields : Fields) (key : String) → Keeps (others u) (int32_in fields key)
  unfolding int32_in
  int32_in-Keeps fields key = search view_rules

  time_of-Keeps : (text message : String) → Keeps (others u) (time_of text message)
  unfolding time_of
  time_of-Keeps text message = search view_rules

  time_or_zero-Keeps : (text message : String) → Keeps (others u) (time_or_zero text message)
  unfolding time_or_zero time_of
  time_or_zero-Keeps text message = search view_rules

  optional_uuid-Keeps :
      (parse_uuid : String → Option Uuid) (o : Option String) (message : String)
      → Keeps (others u) (optional_uuid parse_uuid o message)
  unfolding optional_uuid
  optional_uuid-Keeps parse_uuid none message = search view_rules
  optional_uuid-Keeps parse_uuid (some text) message = search view_rules depth 9

ruleset payload_rules = (
  view_rules, text_in-Keeps, optional_in-Keeps, bool_in-Keeps, int32_in-Keeps, time_of-Keeps,
  time_or_zero-Keeps, optional_uuid-Keeps,
)

module _ (parse_uuid : String → Option Uuid) (u : Uuid) where
  apply_transaction_change-Keeps :
      (s : TransactionService) (payload : Payload) (id operation : String)
      → Keeps
          (others u)
          (apply_transaction_change parse_uuid (transaction_ops s) u payload id operation)
  unfolding apply_transaction_change create_transaction delete_transaction
  apply_transaction_change-Keeps s payload id operation =
      search (payload_rules, create_transaction-Keeps, delete_transaction-Keeps) depth 30

  apply_goal_change-Keeps :
      (s : GoalService) (payload : Payload) (operation : String)
      → Keeps (others u) (apply_goal_change parse_uuid (goal_ops s) u payload operation)
  unfolding apply_goal_change create_goal update_goal contribute delete_goal
  apply_goal_change-Keeps s payload operation =
      search
        (payload_rules, create_goal-Keeps, update_goal-Keeps, delete_goal-Keeps, contribute-Keeps)
        depth 30 fits 4000

  apply_budget_change-Keeps :
      (s : BudgetService) (payload : Payload) (operation : String)
      → Keeps (others u) (apply_budget_change parse_uuid (budget_ops s) u payload operation)
  unfolding apply_budget_change
  apply_budget_change-Keeps s payload operation =
      search (payload_rules, upsert_budget-Keeps) depth 30

  apply_wallet_change-Keeps :
      (s : WalletService) (payload : Payload) (operation : String)
      → Keeps (others u) (apply_wallet_change parse_uuid (wallet_ops s) u payload operation)
  unfolding apply_wallet_change create_wallet update_wallet delete_wallet
  apply_wallet_change-Keeps s payload operation =
      search (payload_rules, create_wallet-Keeps, update_name-Keeps, delete-Keeps) depth 30

  module _ (t : TransactionService) (g : GoalService) (b : BudgetService) (v : WalletService) where
    apply_change-Keeps :
        (change : SyncChange) (id entity operation : String)
        → Keeps (others u) (apply_change parse_uuid (wired t g b v) u change id entity operation)
    unfolding apply_change
    apply_change-Keeps change id entity operation =
        search
          (
            view_rules, apply_transaction_change-Keeps, apply_goal_change-Keeps,
            apply_budget_change-Keeps, apply_wallet_change-Keeps,
          )
          depth 9

    apply_one-Keeps :
        (change : SyncChange) → Keeps (others u) (apply_one parse_uuid (wired t g b v) u change)
    apply_one-Keeps change =
        apply_change-Keeps change (id_of change) (to_lower (trim_space change.entity))
          (to_lower (trim_space change.operation))

    push_changes-Keeps :
        (seen : List String) (changes : List SyncChange)
        → Keeps (others u) (push_changes parse_uuid (wired t g b v) u seen changes)
    unfolding push_changes
    push_changes-Keeps seen [] = search view_rules
    push_changes-Keeps seen (change ∷ changes) =
        elim (Option-cases (refusal parse_uuid seen (id_of change))) [
          | inr (reason, e) ↦
              rw (push_changes, e)
                (Keeps-bind _ _ (push_changes-Keeps seen changes) λ _. Keeps-pure _)
          | inl e ↦
              rw (push_changes, e)
                (Keeps-bind _ _ (Keeps-attempt _ (apply_one-Keeps change)) λ _.
                  Keeps-bind _ _ (push_changes-Keeps (id_of change ∷ seen) changes)
                    λ _. Keeps-pure _)
        ]

-- Whatever a user pushes, and whatever comes of it, the transactions, goals and budgets of all other
-- users are the same rows in the same order as before, and the accounts, refresh tokens, exchange rates,
-- categories and the sync log are as they were.
pub push-others :
    (parse_uuid : String → Option Uuid) (t : TransactionService) (g : GoalService)
    (b : BudgetService) (v : WalletService) (input : SyncPushInput) (p : Platform) (w : World)
    → others input.user_id (push parse_uuid (wired t g b v) input p w).1.db
      ≡ others input.user_id w.db
unfolding push
push-others parse_uuid t g b v input =
    let kept : Keeps (others input.user_id) (push parse_uuid (wired t g b v) input) =
      search (view_rules, push_changes-Keeps) in
    kept.at

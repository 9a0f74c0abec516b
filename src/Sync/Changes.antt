-- ===== src/Sync/Changes.antt =====
-- applyChange of usecase/sync_service.go and the four functions it calls; `parse_uuid` is `uuid.Parse`.
-- A month or a year below zero is handed on as zero, which the budget service treats alike.
use mali.Prelude.{Option, none, some, String, str_eq}
use mali.Prelude.Tests.{not, if◌then◌else◌}
use mali.Prelude.Text.{trim_space, is_empty}
use mali.Domain.{Uuid}
use mali.Json.{Payload}
use mali.Context.{failure, M, pure, raise, or_raise, raise_if, ◌>>=◌, ◌>>◌}
use mali.Sync.Interfaces.{TransactionOps, GoalOps, BudgetOps, WalletOps, SyncService, SyncChange}
use mali.Sync.Payload.{
  fields_in, text_in, optional_in, bool_in, int32_in, natural, time_of, time_or_zero,
}

abbrev unsupported_operation : {A : Type 0} → M A
unsupported_operation = raise (failure "unsupported operation")

module _ (parse_uuid : String → Option Uuid) where
  abbrev uuid_of : String → String → M Uuid
  uuid_of text message = or_raise (parse_uuid (trim_space text)) (failure message)

  abbrev some_uuid : String → String → M (Option Uuid)
  some_uuid text message = do id ← uuid_of text message; pure (some id)

  -- Absent or blank: nothing.
  unfoldable pub optional_uuid : Option String → String → M (Option Uuid)
  optional_uuid none message = pure none
  optional_uuid (some text) message =
      if is_empty (trim_space text) then pure none else some_uuid text message

  module _ (s : TransactionOps) (user_id : Uuid) where
    unfoldable pub create_transaction : Payload → String → M (Unit {0})
    unfolding text_in optional_in optional_uuid time_of
    create_transaction payload sync_id = do
      fields ← fields_in payload
      wallet ← text_in fields "wallet_id"
      category ← optional_in fields "category_id"
      tx_type ← text_in fields "type"
      amount ← text_in fields "amount"
      currency ← text_in fields "currency"
      notes ← text_in fields "notes"
      source ← text_in fields "source"
      at ← text_in fields "transacted_at"
      to_wallet ← optional_in fields "transfer_to_wallet_id"
      rate ← text_in fields "exchange_rate"
      wallet_id ← uuid_of wallet "invalid wallet_id"
      category_id ← optional_uuid category "invalid category_id"
      transacted_at ← time_of at "invalid transacted_at"
      transfer_to_wallet_id ← optional_uuid to_wallet "invalid transfer_to_wallet_id"
      s.create_transaction (record {
        user_id = user_id;
        wallet_id = wallet_id;
        category_id = category_id;
        tx_type = trim_space tx_type;
        amount = trim_space amount;
        currency = trim_space currency;
        notes = trim_space notes;
        source = trim_space source;
        transacted_at = transacted_at;
        sync_id = parse_uuid sync_id;
        transfer_to_wallet_id = transfer_to_wallet_id;
        exchange_rate = trim_space rate;
      })
      pure tt

    unfoldable pub delete_transaction : Payload → M (Unit {0})
    unfolding text_in
    delete_transaction payload = do
      fields ← fields_in payload
      transaction ← text_in fields "transaction_id"
      transaction_id ← uuid_of transaction "invalid transaction_id"
      s.delete_transaction (record { user_id = user_id; transaction_id = transaction_id })

    unfoldable pub apply_transaction_change : Payload → String → String → M (Unit {0})
    unfolding create_transaction delete_transaction
    apply_transaction_change payload sync_id operation =
        if str_eq operation "create"
        then create_transaction payload sync_id
        else if str_eq operation "delete"
        then delete_transaction payload
        else unsupported_operation

  module _ (s : GoalOps) (user_id : Uuid) where
    unfoldable pub create_goal : Payload → M (Unit {0})
    unfolding text_in int32_in time_of
    create_goal payload = do
      fields ← fields_in payload
      name ← text_in fields "name"
      emoji ← text_in fields "emoji"
      goal_type ← text_in fields "goal_type"
      target_amount ← text_in fields "target_amount"
      currency ← text_in fields "currency"
      saved_amount ← text_in fields "saved_amount"
      until ← text_in fields "deadline"
      priority ← int32_in fields "priority"
      deadline ← time_of until "invalid deadline"
      s.create_goal (record {
        user_id = user_id;
        name = trim_space name;
        emoji = trim_space emoji;
        goal_type = trim_space goal_type;
        target_amount = trim_space target_amount;
        currency = trim_space currency;
        saved_amount = trim_space saved_amount;
        deadline = deadline;
        priority = priority;
      })
      pure tt

    unfoldable pub update_goal : Payload → M (Unit {0})
    unfolding text_in int32_in bool_in time_of
    update_goal payload = do
      fields ← fields_in payload
      goal ← text_in fields "goal_id"
      name ← text_in fields "name"
      emoji ← text_in fields "emoji"
      goal_type ← text_in fields "goal_type"
      target_amount ← text_in fields "target_amount"
      currency ← text_in fields "currency"
      until ← text_in fields "deadline"
      priority ← int32_in fields "priority"
      is_completed ← bool_in fields "is_completed"
      goal_id ← uuid_of goal "invalid goal_id"
      deadline ← time_of until "invalid deadline"
      s.update_goal (record {
        user_id = user_id;
        goal_id = goal_id;
        name = trim_space name;
        emoji = trim_space emoji;
        goal_type = trim_space goal_type;
        target_amount = trim_space target_amount;
        currency = trim_space currency;
        deadline = deadline;
        priority = priority;
        is_completed = is_completed;
      })

    unfoldable pub contribute : Payload → M (Unit {0})
    unfolding text_in time_or_zero
    contribute payload = do
      fields ← fields_in payload
      goal ← text_in fields "goal_id"
      amount ← text_in fields "amount"
      currency ← text_in fields "currency"
      notes ← text_in fields "notes"
      at ← text_in fields "contributed_at"
      goal_id ← uuid_of goal "invalid goal_id"
      contributed_at ← time_or_zero at "invalid contributed_at"
      s.contribute (record {
        user_id = user_id;
        goal_id = goal_id;
        amount = trim_space amount;
        currency = trim_space currency;
        notes = trim_space notes;
        contributed_at = contributed_at;
      })
      pure tt

    unfoldable pub delete_goal : Payload → M (Unit {0})
    unfolding text_in
    delete_goal payload = do
      fields ← fields_in payload
      goal ← text_in fields "goal_id"
      goal_id ← uuid_of goal "invalid goal_id"
      s.delete_goal user_id goal_id

    unfoldable pub apply_goal_change : Payload → String → M (Unit {0})
    unfolding create_goal update_goal contribute delete_goal
    apply_goal_change payload operation =
        if str_eq operation "create"
        then create_goal payload
        else if str_eq operation "update"
        then update_goal payload
        else if str_eq operation "contribute"
        then contribute payload
        else if str_eq operation "delete"
        then delete_goal payload
        else unsupported_operation

  module _ (s : BudgetOps) (user_id : Uuid) where
    unfoldable pub apply_budget_change : Payload → String → M (Unit {0})
    unfolding text_in int32_in bool_in
    apply_budget_change payload operation = do
      raise_if (not (str_eq operation "upsert")) (failure "unsupported operation")
      fields ← fields_in payload
      category ← text_in fields "category_id"
      currency ← text_in fields "currency"
      amount ← text_in fields "amount"
      month ← int32_in fields "month"
      year ← int32_in fields "year"
      rollover ← bool_in fields "rollover"
      category_id ← uuid_of category "invalid category_id"
      s.upsert_budget (record {
        user_id = user_id;
        category_id = category_id;
        currency = trim_space currency;
        amount = trim_space amount;
        month = natural month;
        year = natural year;
        rollover = rollover;
      })
      pure tt

  module _ (s : WalletOps) (user_id : Uuid) where
    unfoldable pub create_wallet : Payload → M (Unit {0})
    unfolding text_in
    create_wallet payload = do
      fields ← fields_in payload
      name ← text_in fields "name"
      currency ← text_in fields "currency"
      wallet_type ← text_in fields "wallet_type"
      balance ← text_in fields "balance"
      s.create_wallet (record {
        user_id = user_id;
        name = trim_space name;
        currency = trim_space currency;
        wallet_type = trim_space wallet_type;
        balance = trim_space balance;
      })
      pure tt

    unfoldable pub update_wallet : Payload → M (Unit {0})
    unfolding text_in
    update_wallet payload = do
      fields ← fields_in payload
      wallet ← text_in fields "wallet_id"
      name ← text_in fields "name"
      wallet_id ← uuid_of wallet "invalid wallet_id"
      s.update_name (record { user_id = user_id; wallet_id = wallet_id; name = trim_space name })

    unfoldable pub delete_wallet : Payload → M (Unit {0})
    unfolding text_in
    delete_wallet payload = do
      fields ← fields_in payload
      wallet ← text_in fields "wallet_id"
      wallet_id ← uuid_of wallet "invalid wallet_id"
      s.delete (record { user_id = user_id; wallet_id = wallet_id })

    unfoldable pub apply_wallet_change : Payload → String → M (Unit {0})
    unfolding create_wallet update_wallet delete_wallet
    apply_wallet_change payload operation =
        if str_eq operation "create"
        then create_wallet payload
        else if str_eq operation "update"
        then update_wallet payload
        else if str_eq operation "delete"
        then delete_wallet payload
        else unsupported_operation

  -- applyChange: the entity and the operation are trimmed and in lower case.
  module _ (s : SyncService) (user_id : Uuid) where
    unfoldable pub apply_change : SyncChange → String → String → String → M (Unit {0})
    unfolding apply_transaction_change apply_goal_change apply_budget_change apply_wallet_change
    apply_change change sync_id entity operation =
        if str_eq entity "transaction"
        then apply_transaction_change s.transaction_service user_id change.payload sync_id operation
        else if str_eq entity "goal"
        then apply_goal_change s.goal_service user_id change.payload operation
        else if str_eq entity "budget"
        then apply_budget_change s.budget_service user_id change.payload operation
        else if str_eq entity "wallet"
        then apply_wallet_change s.wallet_service user_id change.payload operation
        else raise (failure "unsupported entity")

-- ===== src/Sync/Service.antt =====
-- Push and Pull of usecase/sync_service.go, over any services and any sync log. `seenSyncIDs` is a list
-- of texts.
use mali.Prelude.{
  ℕ, Bool, true, false, ◌||◌, Option, none, some, List, [], ◌∷◌, String, str_eq, map,
}
use mali.Prelude.Tests.{◌==◌, ltb, not, if◌then◌else◌}
use mali.Prelude.Lists.{length, take, exists, get_elem?}
use mali.Prelude.Text.{trim_space, to_lower, is_empty}
use mali.Time.{is_zero}
use mali.Domain.{Uuid, is_nil}
use mali.Context.{
  Result, ok, err, invalid, wrapped, M, pure, attempt, on_error, raise_if, ◌>>=◌, ◌>>◌,
}
use mali.Sync.Interfaces.{
  SyncChange, SyncPushInput, SyncPushResult, SyncPullCursor, SyncPullInput, SyncLogEntry, SyncDelta,
  SyncPullResult, SyncService,
}
use mali.Sync.Changes.{apply_change}

abbrev pub max_sync_push_changes : ℕ
max_sync_push_changes = 100

abbrev pub id_of : SyncChange → String
id_of change = trim_space change.sync_id

abbrev pub is_valid_id : (String → Option Uuid) → String → Bool
is_valid_id parse_uuid id = elim (parse_uuid id) [ some _ ↦ true | none ↦ false ]

abbrev pub has_seen : List String → String → Bool
has_seen seen id = exists (str_eq id) seen

abbrev pub accept : String → SyncPushResult → SyncPushResult
accept id r = record r { accepted_ids = id ∷ r.accepted_ids }

abbrev pub reject : SyncChange → String → String → SyncPushResult → SyncPushResult
reject change id reason r = record r {
  conflicts =
      record {
        sync_id = id;
        entity = to_lower (trim_space change.entity);
        operation = to_lower (trim_space change.operation);
        reason = reason;
      }
      ∷ r.conflicts;
}

-- What came of one change, before what came of those behind it.
abbrev outcome_of : SyncChange → String → Result (Unit {0}) → SyncPushResult → SyncPushResult
outcome_of change id (ok _) r = accept id r
outcome_of change id (err e) r = reject change id e.message r

-- The reason for which a change is not even tried, if there is one.
unfoldable pub refusal : (String → Option Uuid) → List String → String → Option String
unfolding exists
refusal parse_uuid seen id =
    if is_empty id
    then some "sync_id is required"
    else if not (is_valid_id parse_uuid id)
    then some "invalid sync_id"
    else if has_seen seen id
    then some "duplicate sync_id in request"
    else none

module _ (parse_uuid : String → Option Uuid) (s : SyncService) where
  abbrev pub apply_one : Uuid → SyncChange → M (Unit {0})
  apply_one user_id change =
      apply_change parse_uuid s user_id change (id_of change) (to_lower (trim_space change.entity))
        (to_lower (trim_space change.operation))

  -- The loop of Push; `seen` is what seenSyncIDs holds.
  unfoldable pub push_changes : Uuid → List String → List SyncChange → M SyncPushResult
  unfolding apply_change refusal
  push_changes user_id seen [] = pure (record { accepted_ids = []; conflicts = [] })
  push_changes user_id seen (change ∷ changes) = elim (refusal parse_uuid seen (id_of change)) [
    | some reason ↦ do
      rest ← push_changes user_id seen changes
      pure (reject change (id_of change) reason rest)
    | none ↦ do
      outcome ← attempt (apply_one user_id change)
      rest ← push_changes user_id (id_of change ∷ seen) changes
      pure (outcome_of change (id_of change) outcome rest)
  ]

  unfoldable pub push : SyncPushInput → M SyncPushResult
  unfolding push_changes
  push input = do
    raise_if (is_nil input.user_id) (invalid "user_id is required")
    raise_if (length input.changes == 0) (invalid "at least one change is required")
    raise_if (ltb max_sync_push_changes (length input.changes))
        (invalid "changes cannot exceed 100")
    push_changes input.user_id [] input.changes

abbrev pub to_delta : SyncLogEntry → SyncDelta
to_delta row = record {
  id = row.id;
  entity_type = row.entity_type;
  entity_id = row.entity_id;
  operation = row.operation;
  payload = row.payload;
  synced_at = row.synced_at;
}

abbrev pub clamp_limit : ℕ → ℕ
clamp_limit n = let limit = if n == 0 then 50 else n in if ltb 100 limit then 100 else limit

abbrev pub invalid_cursor : Option SyncPullCursor → Bool
invalid_cursor none = false
invalid_cursor (some c) = is_nil c.id || is_zero c.synced_at

abbrev cursor_of : Option SyncDelta → Option SyncPullCursor
cursor_of none = none
cursor_of (some last) = some (record { synced_at = last.synced_at; id = last.id })

-- One row more than the limit was asked for: if it came, there is a next page.
unfoldable pub page : ℕ → List SyncDelta → SyncPullResult
page limit changes =
    if ltb limit (length changes)
    then record {
      changes = take limit changes;
      next_cursor = elim limit [ ℕ.zero ↦ none | ℕ.suc n ↦ cursor_of (get_elem? changes n) ];
    }
    else record { changes = changes; next_cursor = none }

unfoldable pub pull : SyncService → SyncPullInput → M SyncPullResult
unfolding page
pull s input = do
  raise_if (is_nil input.user_id) (invalid "user_id is required")
  raise_if (is_zero input.since) (invalid "since is required")
  let limit = clamp_limit input.limit
  raise_if (invalid_cursor input.cursor) (invalid "invalid cursor")
  rows ← on_error (wrapped "list sync changes") (
      s.sync_log_repository.list_by_user_since (record {
        user_id = input.user_id;
        since = input.since;
        limit = ℕ.suc limit;
        cursor = input.cursor;
      }))
  pure (page limit (map to_delta rows))

-- ===== src/Sync/Log.antt =====
-- repository/postgres/sync_log_repo.go: the sync_log table. The text of the listing's query is read as
-- the rows that it selects.
use mali.Prelude.{Bool, true, Option, none, some, List, [], ◌∷◌, ◌++◌, ◌&&◌, ◌||◌, String, map}
use mali.Prelude.Tests.{◌==◌, ltb}
use mali.Prelude.Lists.{select, order_by, take}
use mali.Time.{Time}
use mali.Domain.{Uuid}
use mali.Json.{Json, object, end, Payload}
use mali.Store.{SyncLogRow}
use mali.Context.{wrapped, M, pure, on_error, gets, modify, now, new_uuid, call, ◌>>=◌, ◌>>◌}
use mali.Sync.Interfaces.{SyncPullCursor, SyncLogListInput, SyncLogEntry}

abbrev pub or_empty : Payload → Json
or_empty none = object end
or_empty (some json) = json

unfoldable pub create : Uuid → String → Uuid → String → Payload → M (Unit {0})
unfolding ◌>>=◌
create user_id entity_type entity_id operation payload = do
  on_error (wrapped "insert sync log") call
  id ← new_uuid
  synced_at ← now
  let row : SyncLogRow = record {
    id = id;
    user_id = user_id;
    entity_type = entity_type;
    entity_id = entity_id;
    operation = operation;
    payload = or_empty payload;
    synced_at = synced_at;
  }
  modify (λ d. record d { sync_log = d.sync_log ++ row ∷ [] })

-- (synced_at, id) in the order of the listing
abbrev pub earlier : Time → Uuid → Time → Uuid → Bool
earlier t i u j = ltb t u || (t == u && ltb i j)

abbrev pub beyond : Option SyncPullCursor → SyncLogRow → Bool
beyond none r = true
beyond (some c) r = earlier c.synced_at c.id r.synced_at r.id

abbrev pub selected : SyncLogListInput → SyncLogRow → Bool
selected q r = r.user_id == q.user_id && ltb q.since r.synced_at && beyond q.cursor r

abbrev pub precedes : SyncLogRow → SyncLogRow → Bool
precedes r s = earlier r.synced_at r.id s.synced_at s.id

-- scanSyncLogEntry
abbrev pub scan_sync_log_entry : SyncLogRow → SyncLogEntry
scan_sync_log_entry r = record {
  id = r.id;
  entity_type = r.entity_type;
  entity_id = r.entity_id;
  operation = r.operation;
  payload = r.payload;
  synced_at = r.synced_at;
}

unfoldable pub run_query : SyncLogListInput → List SyncLogRow → List SyncLogRow
unfolding select order_by
run_query q rows = take q.limit (order_by precedes (select (selected q) rows))

unfoldable pub list_by_user_since : SyncLogListInput → M (List SyncLogEntry)
unfolding run_query
list_by_user_since q = do
  on_error (wrapped "query sync log by user since") call
  rows ← gets (λ d. run_query q d.sync_log)
  pure (map scan_sync_log_entry rows)

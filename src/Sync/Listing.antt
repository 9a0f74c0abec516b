-- ===== src/Sync/Listing.antt =====
-- Which changes a pull is about, and in which order: an account of it that does not use the query of
-- Sync/Log.
use mali.Prelude.{
  ℕ, ◌<◌, ◌≤◌, ◌≡◌, refl, ◌⊎◌, inl, inr, Bool, true, Option, none, some, List, [], ◌∷◌, arith, map,
  Memᴰ, Perm,
}
use mali.Prelude.Tests.{Bool-cases}
use mali.Prelude.Lists.{select, order_by}
use mali.Prelude.Order.{IsOrder, IsOrdered, order_by-perm, order_by-IsOrdered}
use mali.Store.{SyncLogRow}
use mali.Sync.Interfaces.{SyncPullCursor, SyncPullInput, SyncLogListInput, SyncDelta}
use mali.Sync.Log.{beyond, selected, precedes, scan_sync_log_entry}
use mali.Sync.Service.{to_delta}

-- Behind a cursor: at a later time, or at its time with a greater id.
abbrev pub IsBehind : Option SyncPullCursor → SyncLogRow → Type 0
IsBehind none r = Unit
IsBehind (some c) r = (c.synced_at < r.synced_at) ⊎ ((r.synced_at ≡ c.synced_at) × (c.id < r.id))

-- The user's own rows, later than `since`, behind the cursor.
pub record IsDue (input : SyncPullInput) (r : SyncLogRow) : Type 0 where
  pub own : r.user_id ≡ input.user_id
  pub recent : input.since < r.synced_at
  pub behind : IsBehind input.cursor r

-- The rows of which `P` holds, each as often as it is there.
pub data Keeps (P : SyncLogRow → Type 0) : List SyncLogRow → List SyncLogRow → Type 0 where
  none_left : Keeps P [] []
  kept :
      {rows out : List SyncLogRow} (r : SyncLogRow)
      → P r
      → Keeps P rows out
      → Keeps P (r ∷ rows) (r ∷ out)
  passed :
      {rows out : List SyncLogRow} (r : SyncLogRow)
      → ¬ P r
      → Keeps P rows out
      → Keeps P (r ∷ rows) out

-- By time, and by id at the same time.
abbrev pub IsAtMost : SyncLogRow → SyncLogRow → Type 0
IsAtMost r s = (r.synced_at < s.synced_at) ⊎ ((r.synced_at ≡ s.synced_at) × (r.id ≤ s.id))

abbrev pub InOrder : List SyncLogRow → Type 0
InOrder [] = Unit
InOrder (r ∷ rows) = ((s : SyncLogRow) → Memᴰ s rows → IsAtMost r s) × InOrder rows

-- A row of the log as it is sent.
abbrev pub sent : SyncLogRow → SyncDelta
sent r = record {
  id = r.id;
  entity_type = r.entity_type;
  entity_id = r.entity_id;
  operation = r.operation;
  payload = r.payload;
  synced_at = r.synced_at;
}

-- All changes that a pull is about.
pub record IsListing (input : SyncPullInput) (rows : List SyncLogRow) (all : List SyncDelta)
    : Type 0 where
  pub due : List SyncLogRow
  pub kept : Keeps (IsDue input) rows due
  pub ordered : List SyncLogRow
  pub same : Perm ordered due
  pub in_order : InOrder ordered
  pub all_sent : all ≡ map sent ordered

abbrev asking : SyncPullInput → ℕ → SyncLogListInput
asking input limit = record {
  user_id = input.user_id;
  since = input.since;
  limit = limit;
  cursor = input.cursor;
}

beyond-IsBehind :
    (cursor : Option SyncPullCursor) (r : SyncLogRow) → beyond cursor r ≡ true → IsBehind cursor r
beyond-IsBehind none r h = tt
beyond-IsBehind (some c) r h = ground arith

IsBehind-beyond :
    (cursor : Option SyncPullCursor) (r : SyncLogRow) → IsBehind cursor r → beyond cursor r ≡ true
IsBehind-beyond none r h = refl
IsBehind-beyond (some c) r h = ground arith

selected-IsDue :
    (input : SyncPullInput) (limit : ℕ) (r : SyncLogRow)
    → selected (asking input limit) r ≡ true
    → IsDue input r
selected-IsDue input limit r h = record {
  own = ground arith;
  recent = ground arith;
  behind = beyond-IsBehind input.cursor r (ground arith);
}

IsDue-selected :
    (input : SyncPullInput) (limit : ℕ) (r : SyncLogRow)
    → IsDue input r
    → selected (asking input limit) r ≡ true
IsDue-selected input limit r due =
    let own = due.own in
    let recent = due.recent in let b = IsBehind-beyond input.cursor r due.behind in ground arith

select-Keeps :
    (P : SyncLogRow → Type 0) (p : SyncLogRow → Bool) (rows : List SyncLogRow)
    → ((r : SyncLogRow) → p r ≡ true → P r)
    → ((r : SyncLogRow) → P r → p r ≡ true)
    → Keeps P rows (select p rows)
unfolding select
select-Keeps P p [] f g = none_left
select-Keeps P p (r ∷ rows) f g = elim (Bool-cases (p r)) [
  | inl e ↦ rw (e, select) (kept r (f r e) (select-Keeps P p rows f g))
  | inr e ↦
      rw (e, select)
        (passed r (λ k. let q = g r k in absurd (ground arith)) (select-Keeps P p rows f g))
]

precedes-IsOrder : IsOrder precedes
precedes-IsOrder = record { one_way = λ a b h. ground arith; follows = λ a b c h k. ground arith }

IsOrdered-InOrder : (rows : List SyncLogRow) → IsOrdered precedes rows → InOrder rows
IsOrdered-InOrder [] o = tt
IsOrdered-InOrder (r ∷ rows) (below, o) =
    ((λ s m. let h = below s m in ground arith), IsOrdered-InOrder rows o)

map-sent : (rows : List SyncLogRow) → map to_delta (map scan_sync_log_entry rows) ≡ map sent rows
map-sent [] = refl
map-sent (r ∷ rows) = rw (map-sent rows)

-- What the query lists, without its limit, is such a listing.
pub query-IsListing :
    (input : SyncPullInput) (limit : ℕ) (rows : List SyncLogRow)
    → IsListing input rows (
        map to_delta (
          map scan_sync_log_entry
            (order_by precedes (select (selected (asking input limit)) rows))))
query-IsListing input limit rows =
    let due = select (selected (asking input limit)) rows in
    record {
      due = due;
      kept =
          select-Keeps (IsDue input) _ rows (selected-IsDue input limit)
            (IsDue-selected input limit);
      ordered = order_by precedes due;
      same = order_by-perm precedes due;
      in_order = IsOrdered-InOrder _ (order_by-IsOrdered precedes precedes-IsOrder due);
      all_sent = map-sent _;
    }

-- ===== src/Sync/Pull.antt =====
-- The pages that Pull of usecase/sync_service.go makes of the sync log.
use mali.Prelude.{
  ℕ, zero, suc, ◌≤◌, ◌≡◌, ◌≢◌, refl, ◌∙◌, ap, false, some, none, List, [], ◌∷◌, ◌++◌, ◌⊎◌, inl, inr,
  arith, map,
}
use mathlib.Core.List.{append-nil}
use mali.Prelude.Tests.{ltb, ◌==◌, Bool-cases}
use mali.Prelude.Lists.{length, take, select, order_by}
use mali.Prelude.Pages.{
  get_elem?-last, length-take_lt, drop_after, take-append-drop_after, drop_after-ne-nil, take-take,
  take-all, length-take-suc, length-take-suc_lt, get_elem?-take,
}
use mali.Time.{zero_time}
use mali.Store.{SyncLogRow}
use mali.Context.{ok, Platform, World, ◌>>=◌}
use mali.Transaction.Service.{TransactionService}
use mali.Goal.Service.{GoalService}
use mali.Budget.Service.{BudgetService}
use mali.Wallet.{WalletService}
use mali.Sync.Interfaces.{SyncPullInput, SyncPullResult, SyncDelta, SyncLogListInput}
use mali.Sync.Log.{selected, precedes, scan_sync_log_entry, list_by_user_since, run_query}
use mali.Sync.Listing.{IsListing, query-IsListing}
use mali.Sync.Service.{to_delta, clamp_limit, invalid_cursor, page, pull}
use mali.Sync.Wiring.{wired}

-- What a page leaves for later: nothing, and then there is no cursor, or something, and then the page is
-- full and the cursor is the time and the id of its last change.
abbrev pub Continues : ℕ → List SyncDelta → SyncPullResult → Type 0
Continues limit later r =
    (later ≡ []) × (r.next_cursor ≡ none)
    ⊎ ((front : List SyncDelta) × (last : SyncDelta) × (r.changes ≡ front ++ last ∷ [])
        × (r.next_cursor ≡ some (record { synced_at = last.synced_at; id = last.id }))
        × (length r.changes ≡ limit)
        × (later ≢ []))

abbrev pub IsPage : ℕ → List SyncDelta → SyncPullResult → Type 0
IsPage limit all r =
    (later : List SyncDelta) × (r.changes ++ later ≡ all)
    × (length r.changes ≤ limit)
    × Continues limit later r

page-IsPage :
    (limit : ℕ) (all : List SyncDelta)
    → 1 ≤ limit
    → IsPage limit all (page limit (take (suc limit) all))
unfolding page
page-IsPage zero all h = absurd (omega arith)
page-IsPage (suc n) all h = elim (Bool-cases (ltb (suc n) (length (take (suc (suc n)) all)))) [
  | inl more ↦
      let long = length-take-suc_lt (suc n) all (ground arith) in
      let (front, t, e, q) = get_elem?-last n all (omega arith) in
      (
        drop_after (suc n) all,
        rw (more, take-take (suc n) all) (take-append-drop_after (suc n) all),
        rw (more, take-take (suc n) all) (omega (arith, length-take_lt (suc n) all long)),
        rw (more, take-take (suc n) all)
            (inr (
              front,
              t,
              e,
              rw (get_elem?-take n (suc (suc n)) all (omega arith), q) refl,
              length-take_lt (suc n) all long,
              drop_after-ne-nil (suc n) all long,
            )),
      )
  | inr done ↦
      let short = length-take-suc (suc n) all (ground arith) in
      rw (done, take-all (suc (suc n)) all (omega arith))
        ([], append-nil all, short, inl (refl, refl))
]

map-take : {A B : Type 0} (f : A → B) (n : ℕ) (xs : List A) → map f (take n xs) ≡ take n (map f xs)
map-take f zero xs = refl
map-take f (suc n) [] = refl
map-take f (suc n) (x ∷ xs) = rw (map-take f n xs) refl

-- What the query would list without its limit.
abbrev listed : SyncPullInput → List SyncLogRow → List SyncDelta
listed input rows = map to_delta (
    map scan_sync_log_entry (
      order_by precedes (
        select
          (selected (record {
            user_id = input.user_id;
            since = input.since;
            limit = 0;
            cursor = input.cursor;
          }))
          rows)))

clamp_limit_bounds : (n : ℕ) → (1 ≤ clamp_limit n) × (clamp_limit n ≤ 100)
clamp_limit_bounds n = ground arith

abbrev asked : SyncPullInput → SyncLogListInput
asked input = record {
  user_id = input.user_id;
  since = input.since;
  limit = suc (clamp_limit input.limit);
  cursor = input.cursor;
}

read_log :
    (input : SyncPullInput) (p : Platform) (w : World)
    → p.fault w.calls ≡ none
    → (list_by_user_since (asked input) p w).0
      ≡ ok (map scan_sync_log_entry (run_query (asked input) w.db.sync_log))
unfolding list_by_user_since ◌>>=◌
read_log input p w up = ground (arith, up)

run_query-listed :
    (input : SyncPullInput) (rows : List SyncLogRow)
    → map to_delta (map scan_sync_log_entry (run_query (asked input) rows))
      ≡ take (suc (clamp_limit input.limit)) (listed input rows)
unfolding run_query
run_query-listed input rows =
    let found = order_by precedes (select (selected (asked input)) rows) in
    ap (map to_delta) (map-take scan_sync_log_entry (suc (clamp_limit input.limit)) found)
    ∙ map-take to_delta (suc (clamp_limit input.limit)) (map scan_sync_log_entry found)

is_false : (m n : ℕ) → m ≢ n → (m == n) ≡ false
is_false m n h = ground arith

module _ (t : TransactionService) (g : GoalService) (b : BudgetService) (v : WalletService) where
  pulled :
      (input : SyncPullInput) (p : Platform) (w : World)
      → input.user_id ≢ 0
      → input.since ≢ zero_time
      → invalid_cursor input.cursor ≡ false
      → p.fault w.calls ≡ none
      → (pull (wired t g b v) input p w).0
        ≡ ok (
            page
              (clamp_limit input.limit)
              (take (suc (clamp_limit input.limit)) (listed input w.db.sync_log)))
  unfolding pull ◌>>=◌
  pulled input p w user since cursor up =
      first
      ∙ ap (λ rows. ok (page (clamp_limit input.limit) rows)) (run_query-listed input w.db.sync_log)
    where
      first :
          (pull (wired t g b v) input p w).0
          ≡ ok (
              page
                (clamp_limit input.limit)
                (map to_delta (map scan_sync_log_entry (run_query (asked input) w.db.sync_log))))
      first =
          rw
            (
              pull,
              is_false input.user_id 0 user,
              is_false input.since zero_time since,
              cursor,
              read_log input p w up,
            )
            refl

  -- A pull that reaches the server returns a first part of the user's own changes that are later than
  -- `since` and behind the cursor, all of these and no others, in the order of time and id: at most as many
  -- as the limit, which is between 1 and 100. Either nothing is left and there is no cursor, or the page
  -- is full and the cursor names its last change.
  pub pull-IsPage :
      (input : SyncPullInput) (p : Platform) (w : World)
      → input.user_id ≢ 0
      → input.since ≢ zero_time
      → invalid_cursor input.cursor ≡ false
      → p.fault w.calls ≡ none
      → (r : SyncPullResult) × ((pull (wired t g b v) input p w).0 ≡ ok r)
        × ((all : List SyncDelta) × IsListing input w.db.sync_log all
            × IsPage (clamp_limit input.limit) all r)
        × (1 ≤ clamp_limit input.limit)
        × (clamp_limit input.limit ≤ 100)
  pull-IsPage input p w user since cursor up =
      let (low, high) = clamp_limit_bounds input.limit in
      (
        _,
        pulled input p w user since cursor up,
        (
          listed input w.db.sync_log,
          query-IsListing input 0 w.db.sync_log,
          page-IsPage (clamp_limit input.limit) (listed input w.db.sync_log) low,
        ),
        low,
        high,
      )

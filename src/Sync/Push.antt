-- ===== src/Sync/Push.antt =====
-- What Push of usecase/sync_service.go makes of a batch, whatever the services do.
use mali.Prelude.{
  ◌≤◌, ◌≡◌, ◌≢◌, refl, false, Option, none, some, List, [], ◌∷◌, inl, inr, arith, String,
}
use mali.Prelude.Tests.{Option-cases}
use mali.Prelude.Lists.{length, exists}
use mali.Prelude.Text.{trim_space, to_lower}
use mali.Domain.{Uuid}
use mali.Context.{Result, ok, err, Platform, World, M, pure, attempt, ◌>>=◌}
use mali.Context.Success.{result_cases}
use mali.Sync.Interfaces.{SyncChange, SyncConflict, SyncPushInput, SyncPushResult, SyncService}
use mali.Sync.Service.{id_of, has_seen, apply_one, accept, reject, refusal, push_changes, push}

-- Texts none of which occurs in `seen`, nor twice.
abbrev pub AreNew : List String → List String → Type 0
AreNew seen [] = Unit
AreNew seen (id ∷ ids) = (has_seen seen id ≡ false) × AreNew (id ∷ seen) ids

-- The report, change by change in the batch's order: each is accepted under its trimmed id, or is a conflict
-- with that id and with its entity and operation in lower case. So the lists have nothing else.
pub data Accounts : List SyncChange → List String → List SyncConflict → Type 0 where
  finished : Accounts [] [] []
  accepted :
      {changes : List SyncChange} {ids : List String} {conflicts : List SyncConflict}
      (change : SyncChange)
      → Accounts changes ids conflicts
      → Accounts (change ∷ changes) (trim_space change.sync_id ∷ ids) conflicts
  rejected :
      {changes : List SyncChange} {ids : List String} {conflicts : List SyncConflict}
      (change : SyncChange) (reason : String)
      → Accounts changes ids conflicts
      → Accounts (change ∷ changes) ids (
          record {
            sync_id = trim_space change.sync_id;
            entity = to_lower (trim_space change.entity);
            operation = to_lower (trim_space change.operation);
            reason = reason;
          }
          ∷ conflicts)

AreNew-weaken :
    (seen more : List String) (ids : List String)
    → ((id : String) → has_seen more id ≡ false → has_seen seen id ≡ false)
    → AreNew more ids
    → AreNew seen ids
unfolding exists
AreNew-weaken seen more [] sub h = tt
AreNew-weaken seen more (id ∷ ids) sub h =
    (sub id h.0, AreNew-weaken (id ∷ seen) (id ∷ more) ids (λ x q. ground (arith, sub x)) h.1)

has_seen-tail :
    (seen : List String) (i id : String) → has_seen (i ∷ seen) id ≡ false → has_seen seen id ≡ false
unfolding exists
has_seen-tail seen i id h = ground arith

module _ (parse_uuid : String → Option Uuid) (s : SyncService) where
  -- The changes that are tried: of each valid id the first, in the order of the batch.
  unfoldable pub tried : List String → List SyncChange → List SyncChange
  unfolding refusal
  tried seen [] = []
  tried seen (change ∷ changes) = elim (refusal parse_uuid seen (id_of change)) [
    | some reason ↦ tried seen changes
    | none ↦ change ∷ tried (id_of change ∷ seen) changes
  ]

  -- Changes applied one behind the other, and the ids of those that succeed.
  abbrev if_ok : Result (Unit {0}) → String → List String → List String
  if_ok (ok _) id ids = id ∷ ids
  if_ok (err _) id ids = ids

  unfoldable pub apply_all : Uuid → List SyncChange → M (List String)
  apply_all user_id [] = pure []
  apply_all user_id (change ∷ changes) = do
    outcome ← attempt (apply_one parse_uuid s user_id change)
    ids ← apply_all user_id changes
    pure (if_ok outcome (id_of change) ids)

  refusal-new :
      (seen : List String) (id : String)
      → refusal parse_uuid seen id ≡ none
      → has_seen seen id ≡ false
  unfolding refusal
  refusal-new seen id h = ground arith

  record IsReport (user_id : Uuid) (seen : List String) (changes : List SyncChange) (p : Platform)
      (w : World) : Type 0 where
    result : SyncPushResult
    returned : (push_changes parse_uuid s user_id seen changes p w).0 ≡ ok result
    complete : Accounts changes result.accepted_ids result.conflicts
    distinct : AreNew seen result.accepted_ids
    reference :
        apply_all user_id (tried seen changes) p w
        ≡ (ok result.accepted_ids, (push_changes parse_uuid s user_id seen changes p w).1)

  push_changes-IsReport :
      (user_id : Uuid) (seen : List String) (changes : List SyncChange) (p : Platform) (w : World)
      → IsReport user_id seen changes p w
  unfolding push_changes tried apply_all ◌>>=◌
  push_changes-IsReport user_id seen [] p w = record {
    result = record { accepted_ids = []; conflicts = [] };
    returned = refl;
    complete = finished;
    distinct = tt;
    reference = refl;
  }
  push_changes-IsReport user_id seen (change ∷ changes) p w =
      elim (Option-cases (refusal parse_uuid seen (id_of change))) [
        | inr (reason, e) ↦
            let ih = push_changes-IsReport user_id seen changes p w in
            record {
              result = reject change (id_of change) reason ih.result;
              returned = rw (push_changes, e, ih.returned) refl;
              complete = rejected change reason ih.complete;
              distinct = ih.distinct;
              reference = rw (apply_all, tried, push_changes, e, ih.returned) ih.reference;
            }
        | inl e ↦
            let ih =
              push_changes-IsReport user_id (id_of change ∷ seen) changes p
                (apply_one parse_uuid s user_id change p w).1 in
            elim (result_cases (apply_one parse_uuid s user_id change p w).0) [
              | inl (_, q) ↦ record {
                result = accept (id_of change) ih.result;
                returned = rw (push_changes, e, q, ih.returned) refl;
                complete = accepted change ih.complete;
                distinct = (refusal-new seen (id_of change) e, ih.distinct);
                reference =
                    rw (apply_all, tried, push_changes, e, q, ih.reference, ih.returned) refl;
              }
              | inr (x, q) ↦ record {
                result = reject change (id_of change) x.message ih.result;
                returned = rw (push_changes, e, q, ih.returned) refl;
                complete = rejected change x.message ih.complete;
                distinct =
                    AreNew-weaken seen (id_of change ∷ seen) ih.result.accepted_ids
                      (has_seen-tail seen (id_of change)) ih.distinct;
                reference =
                    rw (apply_all, tried, push_changes, e, q, ih.reference, ih.returned) refl;
              }
            ]
      ]

  module _ (input : SyncPushInput) (p : Platform) (w : World) (user : input.user_id ≢ 0)
      (some_change : 1 ≤ length input.changes) (few : length input.changes ≤ 100) where
    guarded :
        push parse_uuid s input p w ≡ push_changes parse_uuid s input.user_id [] input.changes p w
    unfolding push ◌>>=◌
    guarded = ground arith

    -- A batch of 1 to 100 changes of a user always gets a report, whatever the services answer. It accounts
    -- for each change, in the batch's order and nothing else: the change is either accepted under its id,
    -- or a conflict that has its id, entity and operation. No id is accepted twice.
    pub push_complete :
        (r : SyncPushResult) × ((push parse_uuid s input p w).0 ≡ ok r)
        × Accounts input.changes r.accepted_ids r.conflicts
        × AreNew [] r.accepted_ids
    push_complete =
        let report = push_changes-IsReport input.user_id [] input.changes p w in
        (report.result, rw guarded report.returned, report.complete, report.distinct)

    -- A batch of 1 to 100 changes of a user does to the tables, and to all else, what applying the changes that are tried does, one
    -- behind the other in the batch's order, where an error does not stop those that follow; and its
    -- accepted ids are those of the changes that succeed then, in that order.
    pub push-apply_all :
        (r : SyncPushResult) × (push parse_uuid s input p w
          ≡ (ok r, (push parse_uuid s input p w).1))
        × (apply_all input.user_id (tried [] input.changes) p w
            ≡ (ok r.accepted_ids, (push parse_uuid s input p w).1))
    push-apply_all =
        let report = push_changes-IsReport input.user_id [] input.changes p w in
        (report.result, ground (arith, guarded, report.returned), rw guarded report.reference)

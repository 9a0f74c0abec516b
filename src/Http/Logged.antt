-- ===== src/Http/Logged.antt =====
-- What the middleware SyncLog adds to what a handler does (Http/SyncLog).
use mali.Prelude.{
  ◌<◌, ◌≡◌, refl, ap, subst, ◌∙◌, ◌⊎◌, inl, inr, Bool, true, false, Option, none, some, [], ◌∷◌,
  ◌++◌, String, arith,
}
use mali.Prelude.Tests.{leb, if◌then◌else◌, Bool-cases, Option-cases}
use mali.Domain.{Uuid}
use mali.Store.{Db, SyncLogRow}
use mali.Context.{Result, ok, Platform, World, ◌>>=◌}
use mali.Context.Success.{result_cases}
use mali.Json.{Payload}
use mali.Sync.Log
use mali.Http.{Request, Response, Handler}
use mali.Http.Address.{IsAddressed, extract_entity_operation-IsAddressed}
use mali.Http.SyncLog.{
  extract_entity_operation, extract_entity_id, logged_user, log_entry, sync_log, and_then,
  entry_with, write_entry,
}

-- The tables without the sync log.
abbrev pub without_log : Db → Db
without_log d = record d { sync_log = [] }

and_then-some :
    {A B : Type 0} (o : Option A) (f : A → Option B) (b : B)
    → and_then o f ≡ some b
    → (a : A) × (o ≡ some a) × (f a ≡ some b)
and_then-some none f b h = absurd (ground arith)
and_then-some (some a) f b h = (a, refl, h)

entry_with-some :
    (user u : Uuid) (operation : String × String) (o : Option Uuid) (t : String) (i : Uuid)
    (m : String)
    → entry_with user operation o ≡ some (u, t, i, m)
    → (user ≡ u) × (operation ≡ (t, m)) × (o ≡ some i)
entry_with-some user u operation none t i m h = absurd (ground arith)
entry_with-some user u (t', m') (some i') t i m h = (ground arith, ground arith, ground arith)

-- What the log's writer does: it appends a row with what it was given, or nothing.
module _ (user : Uuid) (entity_type : String) (entity : Uuid) (operation : String)
    (payload : Payload) (p : Platform) (w : World) where
  abbrev after_create : Db
  after_create = (Log.create user entity_type entity operation payload p w).1.db

  create-row :
      (without_log after_create ≡ without_log w.db)
      × ((after_create.sync_log ≡ w.db.sync_log)
          ⊎ ((row : SyncLogRow) × (user ≡ row.user_id)
              × (entity_type ≡ row.entity_type)
              × (entity ≡ row.entity_id)
              × (operation ≡ row.operation)
              × (after_create.sync_log ≡ w.db.sync_log ++ row ∷ [])))
  unfolding Log.create ◌>>=◌
  create-row = elim (Option-cases (p.fault w.calls)) [
    | inl e ↦ (
      ground arith,
      inr (
        record {
          id = p.uuid w.draws;
          user_id = user;
          entity_type = entity_type;
          entity_id = entity;
          operation = operation;
          payload = Log.or_empty payload;
          synced_at = p.clock w.ticks;
        },
        refl,
        refl,
        refl,
        refl,
        ground arith,
      ),
    )
    | inr (m, e) ↦ (ground arith, inl (ground arith))
  ]

module _ (parse_uuid : String → Option Uuid) (r : Request) where
  -- The row says who did what, as far as the request and the answer tell.
  pub record IsNote (answer : Response) (row : SyncLogRow) : Type 0 where
    pub fine : answer.status < 400
    pub user : logged_user parse_uuid r ≡ some row.user_id
    pub operation : extract_entity_operation r ≡ some (row.entity_type, row.operation)
    pub addressed : IsAddressed r row.entity_type row.operation
    pub entity : extract_entity_id parse_uuid r answer row.entity_type ≡ some row.entity_id

  inner : {A : Type 0} (b : Bool) (o x y : A) → b ≡ false → (if b then o else x) ≡ y → x ≡ y
  inner true o x y e h = absurd (ground arith)
  inner false o x y e h = h

  log_entry-fields :
      (answer : Response) (user entity : Uuid) (entity_type operation : String)
      → log_entry parse_uuid r answer ≡ some (user, entity_type, entity, operation)
      → (answer.status < 400)
        × (logged_user parse_uuid r ≡ some user)
        × (extract_entity_operation r ≡ some (entity_type, operation))
        × (extract_entity_id parse_uuid r answer entity_type ≡ some entity)
  unfolding log_entry
  log_entry-fields answer user entity entity_type operation h =
      elim (Bool-cases (leb 400 answer.status)) [
        | inl e ↦ absurd (ground arith)
        | inr e ↦
            let (u, own, h₁) = and_then-some (logged_user parse_uuid r) _ _ (inner _ _ _ _ e h) in
            let (o, done, h₂) = and_then-some (extract_entity_operation r) _ _ h₁ in
            let (same, op, id) = entry_with-some u user o _ _ _ _ h₂ in
            (
              ground arith,
              own ∙ ap some same,
              done ∙ ap some op,
              subst (λ t. extract_entity_id parse_uuid r answer t ≡ some entity) (ap (λ x. x.0) op)
                  id,
            )
      ]

  -- The handler's outcome, with or without a note in the log.
  abbrev pub IsNoted : Result Response → Db → Db → Type 0
  IsNoted outcome before after =
      (after.sync_log ≡ before.sync_log)
      ⊎ ((answer : Response) × (row : SyncLogRow) × (outcome ≡ ok answer)
          × IsNote answer row
          × (after.sync_log ≡ before.sync_log ++ row ∷ []))

  module _ (has_writer : Bool) (next : Handler) (p : Platform) (w : World) where
    abbrev handled : Result Response × World
    handled = next r p w

    abbrev logged : Result Response × World
    logged = sync_log parse_uuid has_writer next r p w

    -- What is written for an entry of the handler's answer.
    noted :
        (answer : Response) (entry : Option (Uuid × String × Uuid × String))
        → log_entry parse_uuid r answer ≡ entry
        → ((write_entry r answer entry p handled.1).0 ≡ ok answer)
          × (without_log (write_entry r answer entry p handled.1).1.db ≡ without_log handled.1.db)
          × IsNoted (ok answer) handled.1.db (write_entry r answer entry p handled.1).1.db
    unfolding ◌>>=◌
    noted answer none e = (refl, refl, inl refl)
    noted answer (some (user, entity_type, entity, operation)) e =
        let (fine, own, op, id) = log_entry-fields answer user entity entity_type operation e in
        let (others, log) = create-row user entity_type entity operation r.body p handled.1 in
        (
          refl,
          others,
          elim log [
            | inl same ↦ inl same
            | inr (row, u, t, i, o, grown) ↦ inr (
              answer,
              row,
              refl,
              record {
                fine = fine;
                user = own ∙ ap some u;
                operation = op ∙ ap some (rw (t, o) refl);
                addressed =
                    extract_entity_operation-IsAddressed r row.entity_type row.operation
                      (op ∙ ap some (rw (t, o) refl));
                entity =
                    subst (λ x. extract_entity_id parse_uuid r answer x ≡ some row.entity_id) t
                      (id ∙ ap some i);
              },
              grown,
            )
          ],
        )

    pub sync_log-IsNoted :
        (logged.0 ≡ handled.0)
        × (without_log logged.1.db ≡ without_log handled.1.db)
        × IsNoted handled.0 handled.1.db logged.1.db
    unfolding sync_log ◌>>=◌
    sync_log-IsNoted = elim (result_cases handled.0) [
      | inr (e, h) ↦ rw h (refl, refl, inl refl)
      | inl (answer, h) ↦ elim (Bool-cases has_writer) [
        | inl b ↦ rw (h, b) (noted answer (log_entry parse_uuid r answer) refl)
        | inr b ↦ rw (h, b) (refl, refl, inl refl)
      ]
    ]

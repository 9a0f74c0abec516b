-- ===== src/Context.antt =====
-- How a call runs: Go's errors, the state that calls share, and the outside world.
--
-- `M A` is a function of the source that returns `(A, error)`: it reads the platform, and carries the
-- state on, after an error too, since what was written stays written.
pub mod Frames
pub mod Invariant
pub mod Silent
pub mod Success
pub mod Views
use mali.Prelude.{ℕ, ◌+◌, Bool, true, false, Option, none, some, List, String, ◌^^◌}
use mali.Prelude.Int.{ℤ}
use mali.Rat.{Rat}
use mali.Time.{Time}
use mali.Domain.{Uuid}
use mali.Store.{Db}

-- What `errors.Is` and `errors.As` can find in a chain of wrapped errors.
pub data Sentinel : Type 0 where
  plain validation conflict unauthorized no_rows unique_violation : Sentinel

pub record Error : Type 0 where
  pub sentinel : Sentinel
  pub message : String

pub data Result {ℓ} (A : Type ℓ) : Type ℓ where
  ok : A → Result A
  err : Error → Result A

-- `fmt.Errorf(text)`
abbrev pub failure : String → Error
failure text = record { sentinel = plain; message = text }

-- `fmt.Errorf("%w: text", ErrValidation)` and its two siblings
abbrev pub invalid : String → Error
invalid text = record { sentinel = validation; message = "validation error: " ^^ text }

abbrev pub conflicting : String → Error
conflicting text = record { sentinel = conflict; message = "conflict: " ^^ text }

abbrev pub unauthorised : String → Error
unauthorised text = record { sentinel = unauthorized; message = "unauthorized: " ^^ text }

-- `pgx.ErrNoRows`
abbrev pub no_rows_error : Error
no_rows_error = record { sentinel = no_rows; message = "no rows in result set" }

-- `fmt.Errorf("text: %w", err)`
abbrev pub wrapped : String → Error → Error
wrapped text e = record { sentinel = e.sentinel; message = text ^^ ": " ^^ e.message }

-- `errors.Is(err, pgx.ErrNoRows)`
abbrev pub is_not_found : Error → Bool
is_not_found e = elim e.sentinel [ no_rows ↦ true | _ ↦ false ]

-- What the program does not implement: the database server and its driver, the clock, random
-- identifiers. Each answer is indexed by how many such questions were asked before it.
pub record Platform : Type 0 where
  -- the driver's error, if a call of the database or of an event emitter fails
  pub fault : ℕ → Option String
  -- `gen_random_uuid()` and `uuid.New()`
  pub uuid : ℕ → Uuid
  -- `time.Now()` and `NOW()`
  pub clock : ℕ → Time
  -- a text given to the server as `::numeric`
  pub cast : String → Option Rat
  -- `pgtype.Numeric.Scan` of a text
  pub scan : String → Option Rat
  -- a number stored in a DECIMAL(18,s) column: rounded to s digits, or refused when out of range
  pub column : ℕ → Rat → Option ℤ
  -- the text of a DECIMAL(18,s) value
  pub render : ℕ → ℤ → String
  -- whether a text stands before another in the database's collation
  pub collate : String → String → Bool
  -- the error, if a year's month, or the one that is so many months before it, is out of the server's
  -- range of dates
  pub window_fault : ℕ → ℕ → ℕ → Option String

-- usecase/goal_service.go: GoalMilestoneReachedEvent
pub record MilestoneEvent : Type 0 where
  pub user_id : Uuid
  pub goal_id : Uuid
  pub milestone : ℕ
  pub saved_amount : String
  pub target_amount : String
  pub progress : String
  pub occurred_at : Time

-- usecase/budget_service.go: BudgetExceededEvent
pub record ExceededEvent : Type 0 where
  pub user_id : Uuid
  pub budget_id : Uuid
  pub category_id : Uuid
  pub month : ℕ
  pub year : ℕ
  pub threshold : ℕ
  pub budget_amount : String
  pub spent_amount : String
  pub percent_used : String
  pub occurred_at : Time

pub record World : Type 0 where
  pub db : Db
  -- how many calls, identifiers and times were asked for
  pub calls : ℕ
  pub draws : ℕ
  pub ticks : ℕ
  -- what the event emitters have received
  pub milestones : List MilestoneEvent
  pub exceeded : List ExceededEvent
  -- `lastEmittedThreshold` of the budget service, by budget, month and year; 0 where it has no entry
  pub emitted : Uuid → ℕ → ℕ → ℕ

abbrev pub M : Type 0 → Type 0
M A = Platform → World → Result A × World

module _ {A : Type 0} where
  unfoldable pub pure : A → M A
  pure a p w = (ok a, w)

  unfoldable pub raise : Error → M A
  raise e p w = (err e, w)

  unfoldable pub lift : Result A → M A
  lift r p w = (r, w)

  unfoldable pub or_raise : Option A → Error → M A
  or_raise none e p w = (err e, w)
  or_raise (some a) e p w = (ok a, w)

  -- The error of a call as a value, for the code that looks at it.
  unfoldable pub attempt : M A → M (Result A)
  attempt m p w = let (r, w') = m p w in (ok r, w')

  abbrev pub wrap_result : (Error → Error) → Result A → Result A
  wrap_result f (ok a) = ok a
  wrap_result f (err e) = err (f e)

  -- `if err != nil { return f(err) }`
  unfoldable pub on_error : (Error → Error) → M A → M A
  on_error f m p w = let (r, w') = m p w in (wrap_result f r, w')

  unfoldable pub gets : (Db → A) → M A
  gets f p w = (ok (f w.db), w)

  -- `tx, err := BeginTx(…)` with the deferred `Rollback`: unless the body and the commit succeed,
  -- the tables are as they were.
  abbrev pub restore : World → Result A × World → Result A × World
  restore before (ok a, w) = (ok a, w)
  restore before (err e, w) = (err e, record w { db = before.db })

unfoldable pub modify : (Db → Db) → M (Unit {0})
modify f p w = (ok tt, record w { db = f w.db })

-- `if bad { return err }`
unfoldable pub raise_if : Bool → Error → M (Unit {0})
raise_if true e p w = (err e, w)
raise_if false e p w = (ok tt, w)

unfoldable pub now : M Time
now p w = (ok (p.clock w.ticks), record w { ticks = w.ticks + 1 })

unfoldable pub new_uuid : M Uuid
new_uuid p w = (ok (p.uuid w.draws), record w { draws = w.draws + 1 })

unfoldable pub platform : M Platform
platform p w = (ok p, w)

-- A call over the network: it fails with the driver's error, and then has done nothing.
unfoldable pub call : M (Unit {0})
call p w = elim (p.fault w.calls) [
  | none ↦ (ok tt, record w { calls = w.calls + 1 })
  | some message ↦ (err (failure message), record w { calls = w.calls + 1 })
]

abbrev pub continue : {A B : Type 0} → Platform → (A → M B) → Result A → World → Result B × World
continue p f (ok a) w = f a p w
continue p f (err e) w = (err e, w)

-- Opening this opens every way to build a call.
infixl 5 ◌>>=◌ ◌>>◌
unfoldable pub ◌>>=◌ : {A B : Type 0} → M A → (A → M B) → M B
unfolding pure raise lift or_raise attempt on_error gets modify raise_if now new_uuid platform call
◌>>=◌ m f p w = let (r, w') = m p w in continue p f r w'

abbrev pub ◌>>◌ : {A B : Type 0} → M A → M B → M B
m >> k = m >>= λ _. k

unfoldable pub transaction : {A : Type 0} → M A → M A
unfolding ◌>>=◌
transaction body p w = restore w (
    (do
      on_error (wrapped "begin transaction") call
      a ← body
      on_error (wrapped "commit transaction") call
      pure a)
      p w)

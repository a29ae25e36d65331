-- ===== src/Outbox.antt =====
-- The transactional outbox: internal/outbox/store_postgres.go (the queries on outbox_events) and
-- internal/outbox/runner.go (the runner that polls it). ORDER BY created_at is the table's order;
-- the rows that UPDATE … RETURNING gives back come in that order too, which PostgreSQL does not
-- promise. The goroutines of a tick, one for each event type, are an order in which the claimed
-- events are processed, that the caller of tick chooses.
pub mod Claim
pub mod WellFormed
pub mod Retry
pub mod Insert
use fishhub_server.Prelude.{
  ℕ, zero, suc, ◌+◌, String, ◌==◌, Option, none, some, Bool, true, false, List, [], ◌∷◌, ◌++◌, ltb,
  leb, if◌then◌else◌, update_where,
}
use fishhub_server.Schema.{
  Payload, Status, pending, processing, completed, dead, OutboxRow, Event, Db,
}
use fishhub_server.World.{
  Error, failed, Result, ok, err, World, Action, pure, call, draw, ignore, modify_db, ◌>>=◌, ◌>>◌,
}

-- status = 'pending' OR (status = 'processing' AND claimed_at < now() - claim_timeout_seconds)
unfoldable pub claimable_as : Status → Option ℕ → ℕ → ℕ → Bool
claimable_as pending claimed_at timeout now = true
claimable_as processing none timeout now = false
claimable_as processing (some at) timeout now = ltb (at + timeout) now
claimable_as completed claimed_at timeout now = false
claimable_as dead claimed_at timeout now = false

unfoldable pub claimable : ℕ → OutboxRow → Bool
unfolding claimable_as
claimable now r = claimable_as r.status r.claimed_at r.claim_timeout_seconds now

abbrev pub event_of : OutboxRow → Event
event_of r = record {
  id = r.id;
  event_type = r.event_type;
  payload = r.payload;
  attempts = r.attempts;
}

abbrev pub claimed : ℕ → OutboxRow → OutboxRow
claimed now r = record r { status = processing; claimed_at = some now }

-- The UPDATE of ClaimBatch: at most limit claimable rows, the oldest first.
unfoldable pub claim_rows : ℕ → ℕ → List OutboxRow → List OutboxRow × List Event
claim_rows now limit [] = ([], [])
claim_rows now zero (r ∷ rs) = (r ∷ rs, [])
claim_rows now (suc n) (r ∷ rs) =
    let taken = claim_rows now n rs in
    let passed = claim_rows now (suc n) rs in
    if claimable now r
    then (claimed now r ∷ taken.0, event_of r ∷ taken.1)
    else (r ∷ passed.0, passed.1)

abbrev pub set_outbox : List OutboxRow → World → World
set_outbox rows w = record w { db = record w.db { outbox = rows } }

-- postgresStore.ClaimBatch. The statement commits by itself, so a row that cannot be read back
-- stays claimed.
unfoldable pub claim_batch : ℕ → Action (List Event)
unfolding call
claim_batch limit = do
  events ← call "outbox: claim batch" (λ w.
      let (rows, events) = claim_rows w.now limit w.db.outbox in (ok events, set_outbox rows w))
  call "outbox: scan row" (pure events)

abbrev pub complete : OutboxRow → OutboxRow
complete r = record r { status = completed }

-- postgresStore.MarkCompleted
unfoldable pub mark_completed : String → Action (Unit {0})
unfolding call update_where
mark_completed id =
    call "outbox: mark completed"
      (modify_db (λ db. record db { outbox = update_where (λ r. r.id == id) complete db.outbox }))

abbrev pub fail_row : ℕ → ℕ → String → OutboxRow → OutboxRow
fail_row new_attempts max_attempts message r = record r {
  attempts = new_attempts;
  last_error = some message;
  status = if leb max_attempts new_attempts then dead else pending;
}

-- postgresStore.RecordFailure
unfoldable pub record_failure : String → ℕ → ℕ → String → Action (Unit {0})
unfolding call update_where
record_failure id attempts max_attempts message = call "outbox: record failure" (
    modify_db (λ db. record db {
      outbox =
          update_where (λ r. r.id == id) (fail_row (attempts + 1) max_attempts message) db.outbox;
    }))

-- A new row, with the defaults of the table.
abbrev pub new_row : String → String → Payload → ℕ → OutboxRow
new_row id event_type payload timeout = record {
  id = id;
  event_type = event_type;
  payload = payload;
  status = pending;
  claimed_at = none;
  claim_timeout_seconds = timeout;
  attempts = 0;
  last_error = none;
}

-- The statement of Insert, once its id is drawn.
abbrev pub add_event : String → Payload → ℕ → String → Action (Unit {0})
add_event event_type payload timeout id =
    modify_db (λ db. record db { outbox = db.outbox ++ new_row id event_type payload timeout ∷ [] })

-- postgresStore.Insert, in the transaction of the caller, whose text wraps the error.
unfoldable pub insert : String → String → Payload → ℕ → Action (Unit {0})
unfolding call draw
insert wrap event_type payload timeout =
    call wrap (do id ← draw wrap; add_event event_type payload timeout id)

-- EventProcessor.Process
abbrev pub Processor : Type 0
Processor = Event → Action (Unit {0})

-- The map of NewRunner: the last processor that is registered for an event type.
unfoldable pub registry : List (String × Processor) → String → Option Processor
registry [] event_type = none
registry ((key, p) ∷ ps) event_type = elim (registry ps event_type) [
  | some later ↦ some later
  | none ↦ if key == event_type then some p else none
]

abbrev pub batch_size : ℕ
batch_size = 50

-- err.Error() of a failure that Process returns; the text of a sentinel error is left out.
abbrev pub error_text : Error → String
error_text (failed text) = text
error_text _ = ""

unfoldable pub record_outcome : ℕ → Event → Result (Unit {0}) × World → Result (Unit {0}) × World
record_outcome max_attempts e (ok _, w) = ignore (mark_completed e.id) w
record_outcome max_attempts e (err x, w) =
    ignore (record_failure e.id e.attempts max_attempts (error_text x)) w

-- Runner.process. The errors of the store are only logged.
unfoldable pub process : Processor → ℕ → Event → Action (Unit {0})
unfolding record_outcome
process p max_attempts e w = record_outcome max_attempts e (p e w)

unfoldable pub dispatch : Option Processor → ℕ → Event → Action (Unit {0})
dispatch none max_attempts e = pure tt
dispatch (some p) max_attempts e = process p max_attempts e

-- The loops over the batches of a tick. An event without a processor is skipped.
unfoldable pub process_all : (String → Option Processor) → ℕ → List Event → World → World
unfolding dispatch process
process_all processors max_attempts [] w = w
process_all processors max_attempts (e ∷ es) w =
    process_all processors max_attempts es (dispatch (processors e.event_type) max_attempts e w).1

unfoldable pub run_claimed :
    (String → Option Processor)
    → ℕ
    → (List Event → List Event)
    → Result (List Event) × World
    → World
run_claimed processors max_attempts schedule (ok events, w) =
    process_all processors max_attempts (schedule events) w
run_claimed processors max_attempts schedule (err _, w) = w

-- Runner.tick
unfoldable pub tick : (String → Option Processor) → ℕ → (List Event → List Event) → World → World
unfolding run_claimed process_all claim_batch
tick processors max_attempts schedule w =
    run_claimed processors max_attempts schedule (claim_batch batch_size w)

-- Runner.Run over a number of rounds of the ticker.
unfoldable pub run :
    (String → Option Processor) → ℕ → (List Event → List Event) → ℕ → ℕ → World → World
unfolding tick
run processors max_attempts schedule interval zero w = w
run processors max_attempts schedule interval (suc n) w =
    run processors max_attempts schedule interval n
      (tick processors max_attempts schedule (record w { now = w.now + interval }))

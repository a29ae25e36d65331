-- ===== src/Outbox/WellFormed.antt =====
-- The budget of attempts that every row of the outbox keeps (internal/outbox/runner.go).
use fishhub_server.Prelude.{
  ℕ, zero, suc, ◌+◌, ◌≤◌, ◌<◌, String, ◌==◌, ◌≡◌, refl, Option, none, some, true, inl, inr,
  List-cases, List, [], ◌∷◌, arith, All, All-update_where, All-append,
}
use fishhub_server.Schema.{Payload, Status, pending, processing, completed, dead, OutboxRow, Event}
use fishhub_server.World.{Result, ok, err, World}
use fishhub_server.Outbox.{
  claimed, claimable, fail_row, complete, claim_rows, claim_batch, insert, mark_completed,
  record_failure, new_row, record_outcome, run_claimed, error_text, Processor, process, dispatch,
  process_all, tick, run, batch_size,
}

-- A row that is still to be processed has attempts left; a dead one has used them up.
abbrev pub Budget : ℕ → Status → ℕ → Type 0
Budget max_attempts pending n = n < max_attempts
Budget max_attempts processing n = n < max_attempts
Budget max_attempts completed n = Unit
Budget max_attempts dead n = max_attempts ≤ n

abbrev pub InBudget : ℕ → OutboxRow → Type 0
InBudget max_attempts r = Budget max_attempts r.status r.attempts

abbrev pub IsWellFormed : ℕ → World → Type 0
IsWellFormed max_attempts w = All (InBudget max_attempts) w.db.outbox

fail_row-InBudget :
    (max_attempts n : ℕ) (m : String) (r : OutboxRow)
    → InBudget max_attempts (fail_row n max_attempts m r)
fail_row-InBudget max_attempts n m r = ground arith

claimed-InBudget :
    (max_attempts now : ℕ) (r : OutboxRow)
    → claimable now r ≡ true
    → InBudget max_attempts r
    → InBudget max_attempts (claimed now r)
unfolding claimable
claimed-InBudget max_attempts now r c h = ground arith

claim_rows-InBudget :
    (max_attempts now limit : ℕ) (rows : List OutboxRow)
    → All (InBudget max_attempts) rows
    → All (InBudget max_attempts) (claim_rows now limit rows).0
unfolding claim_rows
claim_rows-InBudget max_attempts now zero [] h = h
claim_rows-InBudget max_attempts now (suc n) [] h = h
claim_rows-InBudget max_attempts now zero (r ∷ rs) h = h
claim_rows-InBudget max_attempts now (suc n) (r ∷ rs) h = ground (
  arith,
  claim_rows-InBudget max_attempts now n rs h.1,
  claim_rows-InBudget max_attempts now (suc n) rs h.1,
  claimed-InBudget max_attempts now r,
)

claim_batch-IsWellFormed :
    (max_attempts limit : ℕ) (w : World)
    → IsWellFormed max_attempts w
    → IsWellFormed max_attempts (claim_batch limit w).1
unfolding claim_batch
claim_batch-IsWellFormed max_attempts limit w h =
    ground (arith, claim_rows-InBudget max_attempts w.now limit w.db.outbox)

mark_completed-IsWellFormed :
    (max_attempts : ℕ) (id : String) (w : World)
    → IsWellFormed max_attempts w
    → IsWellFormed max_attempts (mark_completed id w).1
unfolding mark_completed
mark_completed-IsWellFormed max_attempts id w h = ground (
  arith,
  All-update_where (InBudget max_attempts) (λ r. r.id == id) complete w.db.outbox (λ r _. tt) h,
)

-- An event that is inserted has all its attempts before it.
pub insert-IsWellFormed :
    (max_attempts : ℕ) (wrap type : String) (payload : Payload) (timeout : ℕ) (w : World)
    → 0 < max_attempts
    → IsWellFormed max_attempts w
    → IsWellFormed max_attempts (insert wrap type payload timeout w).1
unfolding insert
insert-IsWellFormed max_attempts wrap type payload timeout w pos h = elim (List-cases w.supply) [
  | inl none_left ↦ ground arith
  | inr (id, ids, e) ↦ ground (
    arith,
    All-append (InBudget max_attempts) w.db.outbox (new_row id type payload timeout ∷ []) h
        (pos, tt),
  )
]

record_failure-IsWellFormed :
    (max_attempts attempts : ℕ) (id message : String) (w : World)
    → IsWellFormed max_attempts w
    → IsWellFormed max_attempts (record_failure id attempts max_attempts message w).1
unfolding record_failure
record_failure-IsWellFormed max_attempts attempts id message w h = ground (
  arith,
  All-update_where (InBudget max_attempts) (λ r. r.id == id)
      (fail_row (attempts + 1) max_attempts message) w.db.outbox
      (λ r _. fail_row-InBudget max_attempts (attempts + 1) message r) h,
)

-- A processor that leaves the rows of the outbox within their budgets.
abbrev pub KeepsOutbox : ℕ → Processor → Type 0
KeepsOutbox max_attempts p =
    (e : Event) (w : World) → IsWellFormed max_attempts w → IsWellFormed max_attempts (p e w).1

record_outcome-IsWellFormed :
    (max_attempts : ℕ) (e : Event) (o : Result (Unit {0}) × World)
    → IsWellFormed max_attempts o.1
    → IsWellFormed max_attempts (record_outcome max_attempts e o).1
unfolding record_outcome
record_outcome-IsWellFormed max_attempts e (ok _, w) h =
    mark_completed-IsWellFormed max_attempts e.id w h
record_outcome-IsWellFormed max_attempts e (err x, w) h =
    record_failure-IsWellFormed max_attempts e.attempts e.id (error_text x) w h

dispatch-IsWellFormed :
    (max_attempts : ℕ) (o : Option Processor) (e : Event) (w : World)
    → ((p : Processor) → o ≡ some p → KeepsOutbox max_attempts p)
    → IsWellFormed max_attempts w
    → IsWellFormed max_attempts (dispatch o max_attempts e w).1
unfolding dispatch process
dispatch-IsWellFormed max_attempts none e w keep h = h
dispatch-IsWellFormed max_attempts (some p) e w keep h =
    record_outcome-IsWellFormed max_attempts e (p e w) (keep p refl e w h)

module _ (max_attempts : ℕ) (processors : String → Option Processor)
    (keep : (type : String) (p : Processor)
      → processors type ≡ some p
      → KeepsOutbox max_attempts p) where
  process_all-IsWellFormed :
      (es : List Event) (w : World)
      → IsWellFormed max_attempts w
      → IsWellFormed max_attempts (process_all processors max_attempts es w)
  unfolding process_all
  process_all-IsWellFormed [] w h = h
  process_all-IsWellFormed (e ∷ es) w h =
      process_all-IsWellFormed es _
        (dispatch-IsWellFormed max_attempts (processors e.event_type) e w (keep e.event_type) h)

  run_claimed-IsWellFormed :
      (schedule : List Event → List Event) (o : Result (List Event) × World)
      → IsWellFormed max_attempts o.1
      → IsWellFormed max_attempts (run_claimed processors max_attempts schedule o)
  unfolding run_claimed
  run_claimed-IsWellFormed schedule (ok events, w) h =
      process_all-IsWellFormed (schedule events) w h
  run_claimed-IsWellFormed schedule (err x, w) h = h

  pub tick-IsWellFormed :
      (schedule : List Event → List Event) (w : World)
      → IsWellFormed max_attempts w
      → IsWellFormed max_attempts (tick processors max_attempts schedule w)
  unfolding tick
  tick-IsWellFormed schedule w h =
      run_claimed-IsWellFormed schedule (claim_batch batch_size w)
        (claim_batch-IsWellFormed max_attempts batch_size w h)

  -- If the processors leave the outbox within its budgets, so does every run of the runner, whatever
  -- calls fail and in whatever order the events of a tick are processed: a pending or processing
  -- row has attempts left, and a dead row has used up all of them.
  pub run-IsWellFormed :
      (schedule : List Event → List Event) (interval n : ℕ) (w : World)
      → IsWellFormed max_attempts w
      → IsWellFormed max_attempts (run processors max_attempts schedule interval n w)
  unfolding run
  run-IsWellFormed schedule interval zero w h = h
  run-IsWellFormed schedule interval (suc n) w h =
      run-IsWellFormed schedule interval n _
        (tick-IsWellFormed schedule (record w { now = w.now + interval }) h)

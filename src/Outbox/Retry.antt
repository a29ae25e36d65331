-- ===== src/Outbox/Retry.antt =====
-- The life of one event under the runner, and the order in which events of one type reach their
-- processor (internal/outbox/runner.go).
use fishhub_server.Prelude.{
  ℕ, zero, suc, ◌+◌, ◌<◌, String, ◌≡◌, refl, Option, some, List, [], ◌∷◌, arith, ap, ◌∙◌, eq_refl,
}
use fishhub_server.Schema.{pending, dead, OutboxRow, Event}
use fishhub_server.World.{failed, err, World}
use fishhub_server.Outbox.{
  process_all, claimed, fail_row, claim_rows, claimable, record_failure, record_outcome,
  process_all, Processor, tick, run,
}

-- The world with one row in its outbox, and no fault to come.
abbrev pub lone : OutboxRow → World → World
lone r w = record w { db = record w.db { outbox = r ∷ [] }; faults = [] }

abbrev pub waiting : OutboxRow → OutboxRow
waiting r = record r { status = pending }

module _ (processors : String → Option Processor) (p : Processor) (max_attempts : ℕ)
    (schedule : List Event → List Event) (message : String)
    (always_fails : (e : Event) (w : World) → p e w ≡ (err (failed message), w))
    (in_order : (e : Event) → schedule (e ∷ []) ≡ e ∷ []) where
  tick_fails :
      (r : OutboxRow) (w : World)
      → processors r.event_type ≡ some p
      → tick processors max_attempts schedule (lone (waiting r) w)
        ≡ lone (fail_row (r.attempts + 1) max_attempts message (claimed w.now r)) w
  unfolding tick claim_rows claimable record_failure
  tick_fails r w registered =
      simp (in_order, process_all, registered, always_fails, record_outcome)
        (rw (record_failure, eq_refl))

  step_pending :
      (r : OutboxRow) (w : World)
      → processors r.event_type ≡ some p
      → r.attempts + 1 < max_attempts
      → (r' : OutboxRow) × (tick processors max_attempts schedule (lone (waiting r) w)
          ≡ lone (waiting r') w)
        × (r'.attempts ≡ r.attempts + 1)
        × (r'.event_type ≡ r.event_type)
        × (r'.id ≡ r.id)
  step_pending r w registered room = (
    fail_row (r.attempts + 1) max_attempts message (claimed w.now r),
    tick_fails r w registered
        ∙ ap
            (λ s.
              lone
                (record (fail_row (r.attempts + 1) max_attempts message (claimed w.now r)) {
                  status = s;
                })
                w)
            (ground arith),
    refl,
    refl,
    refl,
  )

  -- While attempts are left, an event whose processor fails every time is pending again after each
  -- round, with one more attempt counted for each.
  pub run_pending :
      (interval n : ℕ) (r : OutboxRow) (w : World)
      → processors r.event_type ≡ some p
      → r.attempts + n < max_attempts
      → (r' : OutboxRow) × (w' : World) × (run processors max_attempts schedule interval n
            (lone (waiting r) w)
          ≡ lone (waiting r') w')
        × (r'.attempts ≡ r.attempts + n)
        × (r'.id ≡ r.id)
  unfolding run
  run_pending interval zero r w registered room = (r, w, refl, omega arith, refl)
  run_pending interval (suc n) r w registered room =
      let later : World = record w { now = w.now + interval } in
      let (r1, e, counted, type, same) = step_pending r later registered (omega arith) in
      let (r2, w2, e2, counted2, same2) =
        run_pending interval n r1 later (ap processors type ∙ registered) (omega arith) in
      (
        r2,
        w2,
        ap (run processors max_attempts schedule interval n) e ∙ e2,
        omega arith,
        same2 ∙ same,
      )

  -- An event that is pending and alone in the outbox, where no other call fails, and whose processor
  -- fails every time with the same error and changes nothing: after as many rounds as it had attempts
  -- left it is the only row, dead, with all its attempts counted, and nothing else has changed in
  -- the database or at the broker.
  pub run_dead :
      (interval n : ℕ) (r : OutboxRow) (w : World)
      → processors r.event_type ≡ some p
      → r.attempts + suc n ≡ max_attempts
      → (r' : OutboxRow) × (w' : World) × (run processors max_attempts schedule interval
            (suc n)
            (lone (waiting r) w)
          ≡ lone r' w')
        × (r'.status ≡ dead)
        × (r'.attempts ≡ max_attempts)
        × (r'.id ≡ r.id)
        × (w'.db ≡ w.db)
        × (w'.published ≡ w.published)
  unfolding run
  run_dead interval zero r w registered last = (
    fail_row (r.attempts + 1) max_attempts message (claimed (w.now + interval) r),
    record w { now = w.now + interval },
    tick_fails r (record w { now = w.now + interval }) registered,
    ground arith,
    omega arith,
    refl,
    refl,
    refl,
  )
  run_dead interval (suc n) r w registered last =
      let later : World = record w { now = w.now + interval } in
      let (r1, e, counted, type, same) = step_pending r later registered (omega arith) in
      let (r2, w2, e2, is_dead, counted2, same2, same_db, same_sent) =
        run_dead interval n r1 later (ap processors type ∙ registered) (omega arith) in
      (
        r2,
        w2,
        ap (run processors max_attempts schedule interval (suc n)) e ∙ e2,
        is_dead,
        counted2,
        same2 ∙ same,
        same_db,
        same_sent,
      )

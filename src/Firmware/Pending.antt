-- ===== src/Firmware/Pending.antt =====
-- The pending updates of a device to a version, under requests, reports of the devices and failures
-- (internal/firmware/service.go).
use fishhub_server.Prelude.{
  ℕ, String, ◌≡◌, Bool, true, false, List, [], ◌∷◌, arith, All, any, update_first, any-All-false,
  sym, ap, starts_with, if◌then◌else◌, All-false-any, refl, ◌==◌, ◌&&◌, Bool-cases, inl, inr,
  List-cases, eq_iff,
}
use mathlib.Core.Path.{subst, subst₂}
use fishhub_server.Schema.{Db, UpdateRecord}
use fishhub_server.World.{World, Error, Result, ok, err, continue, ignore, pure}
use fishhub_server.World.Post.{Post, returns, errs}
use fishhub_server.Firmware.Update.{Confirmed, Retried, confirm_update-Post, retry_update-Post}
use fishhub_server.Firmware.Store.{
  is_pending, is_pending_for, is_of, reset, succeed, fail_with, mark_succeeded, mark_failed,
  insert_pending, reset_pending, set_firmware_version,
}
use fishhub_server.Firmware.{reason_of, Config, confirm_update, retry_update, ingest_status}

-- No older row is a pending update of the same device to the same version.
abbrev pub OnePending : List UpdateRecord → Type 0
OnePending [] = Unit
OnePending (r ∷ rs) =
    All (λ o. is_pending_for r.device_id r.desired_version o ≡ false) rs × OnePending rs

module _ (p : UpdateRecord → Bool) (f : UpdateRecord → UpdateRecord)
    (same_device : (r : UpdateRecord) → (f r).device_id ≡ r.device_id)
    (same_version : (r : UpdateRecord) → (f r).desired_version ≡ r.desired_version)
    (quiet : (r : UpdateRecord) → is_pending (f r).status ≡ false) where
  still_none :
      (d v : String) (rs : List UpdateRecord)
      → All (λ o. is_pending_for d v o ≡ false) rs
      → All (λ o. is_pending_for d v o ≡ false) (update_first p f rs)
  unfolding update_first
  still_none d v [] h = h
  still_none d v (r ∷ rs) h = ground (arith, quiet r, still_none d v rs h.1)

  update_first-OnePending :
      (rs : List UpdateRecord) → OnePending rs → OnePending (update_first p f rs)
  unfolding update_first
  update_first-OnePending [] h = h
  update_first-OnePending (r ∷ rs) h = elim (Bool-cases (p r)) [
    | inl hit ↦ rw hit (rw (same_device r, same_version r) h)
    | inr miss ↦
        rw miss (still_none r.device_id r.desired_version rs h.0, update_first-OnePending rs h.1)
  ]

pending_match :
    (d v : String) (r : UpdateRecord)
    → is_pending_for d v r ≡ true
    → (r.device_id ≡ d) × (r.desired_version ≡ v)
pending_match d v r h = ground (arith, eq_iff r.device_id d, eq_iff r.desired_version v)

-- With one pending row at most for a device and a version, marking it as succeeded leaves none.
pub succeed_leaves_none :
    (d v : String) (now : ℕ) (rs : List UpdateRecord)
    → OnePending rs
    → any (is_pending_for d v) (update_first (is_pending_for d v) (succeed now) rs) ≡ false
unfolding update_first any
succeed_leaves_none d v now [] h = refl
succeed_leaves_none d v now (r ∷ rs) h = elim (Bool-cases (is_pending_for d v r)) [
  | inl hit ↦
      let (device, version) = pending_match d v r hit in
      ground (
        arith,
        All-false-any (is_pending_for d v) rs
            (subst₂ (λ x y. All (λ o. is_pending_for x y o ≡ false) rs) device version h.0),
      )
  | inr miss ↦ rw miss (rw miss (succeed_leaves_none d v now rs h.1))
]

-- A row of another device, or one that is not pending, does not count.
other_device :
    (d : String) (nonce : String) (now : ℕ) (x y : String) (r : UpdateRecord)
    → (x == d) ≡ false
    → is_of d r ≡ true
    → is_pending_for x y (reset nonce now r) ≡ false
other_device d nonce now x y r differs hit =
    ground (arith, eq_iff r.device_id d, eq_iff r.device_id x, eq_iff x d)

reset_others :
    (d nonce : String) (now : ℕ) (x y : String) (rs : List UpdateRecord)
    → (x == d) ≡ false
    → All (λ o. is_pending_for x y o ≡ false) rs
    → All (λ o. is_pending_for x y o ≡ false) (update_first (is_of d) (reset nonce now) rs)
unfolding update_first
reset_others d nonce now x y [] differs h = tt
reset_others d nonce now x y (r ∷ rs) differs h =
    ground
      (arith, other_device d nonce now x y r differs, reset_others d nonce now x y rs differs h.1)

reset-OnePending :
    (d nonce : String) (now : ℕ) (rs : List UpdateRecord)
    → OnePending rs
    → OnePending (update_first (is_of d) (reset nonce now) rs)
unfolding update_first
reset-OnePending d nonce now [] h = tt
reset-OnePending d nonce now (r ∷ rs) h = elim (Bool-cases (is_of d r)) [
  | inl hit ↦ rw hit h
  | inr miss ↦ rw miss (
    reset_others d nonce now r.device_id r.desired_version rs miss h.0,
    reset-OnePending d nonce now rs h.1,
  )
]

abbrev pub Safe : World → Type 0
Safe w = OnePending w.db.firmware_updates

mark_succeeded-Safe : (d v : String) (w : World) → Safe w → Safe (mark_succeeded d v w).1
unfolding mark_succeeded
mark_succeeded-Safe d v w h = ground (
  arith,
  update_first-OnePending (is_pending_for d v) (succeed w.now) (λ r. refl) (λ r. refl) (λ r. refl)
      w.db.firmware_updates h,
)

mark_failed-Safe : (d reason : String) (w : World) → Safe w → Safe (mark_failed d reason w).1
unfolding mark_failed
mark_failed-Safe d reason w h = ground (
  arith,
  update_first-OnePending (λ r. r.device_id == d && is_pending r.status) (fail_with reason w.now)
      (λ r. refl) (λ r. refl) (λ r. refl) w.db.firmware_updates h,
)

reset_pending-Safe : (d nonce : String) (w : World) → Safe w → Safe (reset_pending d nonce w).1
unfolding reset_pending
reset_pending-Safe d nonce w h =
    ground (arith, reset-OnePending d nonce w.now w.db.firmware_updates)

insert_pending-Safe :
    (d v nonce : String) (w : World)
    → any (is_pending_for d v) w.db.firmware_updates ≡ false
    → Safe w
    → Safe (insert_pending d v nonce w).1
unfolding insert_pending
insert_pending-Safe d v nonce w none_yet h = elim (List-cases w.supply) [
  | inl none_left ↦ ground arith
  | inr (id, ids, e) ↦
      rw (e, insert_pending)
        (ground (arith, any-All-false (is_pending_for d v) w.db.firmware_updates none_yet))
]

set_firmware_version-Safe :
    (d v : String) (w : World) → Safe w → Safe (set_firmware_version d v w).1
unfolding set_firmware_version
set_firmware_version-Safe d v w h = ground arith

Confirmed-Safe : (c : Config) (d : String) (w w' : World) → Safe w → Confirmed c d w w' → Safe w'
Confirmed-Safe c d w w' h done =
    subst (λ (db : Db). OnePending db.firmware_updates) (sym done.added)
      (
        subst₂ (λ x y. All (λ o. is_pending_for x y o ≡ false) w.db.firmware_updates)
            (sym done.for_device) (sym done.for_version)
            (any-All-false (is_pending_for d done.release.version) w.db.firmware_updates
              done.none_before),
        h,
      )

Retried-Safe : (c : Config) (d : String) (w w' : World) → Safe w → Retried c d w w' → Safe w'
Retried-Safe c d w w' h done =
    subst (λ (db : Db). OnePending db.firmware_updates) (sym done.restarted)
      (reset-OnePending d done.nonce w.now w.db.firmware_updates h)

unchanged-Safe : (w w' : World) → Safe w → w'.db ≡ w.db → Safe w'
unchanged-Safe w w' h same = subst (λ (db : Db). OnePending db.firmware_updates) (sym same) h

-- A state that every way to end keeps is kept.
Post-Safe :
    {A : Type 0} {Q : A → World → Type 0} {E : Error → World → Type 0} {o : Result A × World}
    → Post Q E o
    → ((a : A) (w : World) → Q a w → Safe w)
    → ((e : Error) (w : World) → E e w → Safe w)
    → Safe o.1
Post-Safe {o} (returns a w e q) f g =
    subst (λ (t : World). Safe t) (sym (ap (λ t. t.1) e)) (f a w q)
Post-Safe {o} (errs x w e q) f g = subst (λ (t : World). Safe t) (sym (ap (λ t. t.1) e)) (g x w q)

confirm_update-Safe :
    (c : Config) (d u : String) (w : World) → Safe w → Safe (confirm_update c d u w).1
confirm_update-Safe c d u w h =
    Post-Safe (confirm_update-Post c d w u) (λ _ w' done. Confirmed-Safe c d w w' h done)
      (λ _ w' same. unchanged-Safe w w' h same)

retry_update-Safe : (c : Config) (d u : String) (w : World) → Safe w → Safe (retry_update c d u w).1
retry_update-Safe c d u w h =
    Post-Safe (retry_update-Post c d w u) (λ _ w' done. Retried-Safe c d w w' h done)
      (λ _ w' same. unchanged-Safe w w' h same)

report-Safe :
    (d v result : String) (w : World) (succeeded has_reason : Bool)
    → Safe w
    → Safe
        ((if succeeded
            then ignore (mark_succeeded d v)
            else if has_reason
            then ignore (mark_failed d (reason_of result))
            else pure tt)
          w).1
report-Safe d v result w true has_reason h = mark_succeeded-Safe d v w h
report-Safe d v result w false true h = mark_failed-Safe d (reason_of result) w h
report-Safe d v result w false false h = h

ingest_status-Safe :
    (d v result : String) (w : World) → Safe w → Safe (ingest_status d v result w).1
unfolding ingest_status
ingest_status-Safe d v result w h =
    go (set_firmware_version d v w) (set_firmware_version-Safe d v w h)
  where
    go :
        (o : Result (Unit {0}) × World)
        → Safe o.1
        → Safe
            (continue o (λ _.
              if result == "ok"
              then ignore (mark_succeeded d v)
              else if starts_with result "failed:"
              then ignore (mark_failed d (reason_of result))
              else pure tt)).1
    go (ok _, w') k = report-Safe d v result w' (result == "ok") (starts_with result "failed:") k
    go (err e, w') k = k

-- One request, one report of a device, or anything else that happens to the world and leaves the
-- table of updates alone: time that passes, calls that will fail, other tables.
pub data Step : World → World → Type 0 where
  confirms : (c : Config) (d u : String) (w : World) → Step w (confirm_update c d u w).1
  retries : (c : Config) (d u : String) (w : World) → Step w (retry_update c d u w).1
  reports : (d v result : String) (w : World) → Step w (ingest_status d v result w).1
  elsewhere : (w w' : World) → w'.db.firmware_updates ≡ w.db.firmware_updates → Step w w'

pub data Steps (w : World) : World → Type 0 where
  here : Steps w w
  next : {v v' : World} → Steps w v → Step v v' → Steps w v'

Step-Safe : {w w' : World} → Step w w' → Safe w → Safe w'
Step-Safe (confirms c d u w) h = confirm_update-Safe c d u w h
Step-Safe (retries c d u w) h = retry_update-Safe c d u w h
Step-Safe (reports d v result w) h = ingest_status-Safe d v result w h
Step-Safe (elsewhere w w' same) h = subst OnePending (sym same) h

-- From a table in which no update is pending behind another of the same device to the same version,
-- any sequence of requests, device reports and failures leads to such a table.
pub Steps-Safe : {w w' : World} → Safe w → Steps w w' → Safe w'
Steps-Safe h here = h
Steps-Safe h (next steps step) = Step-Safe step (Steps-Safe h steps)

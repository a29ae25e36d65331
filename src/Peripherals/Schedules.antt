-- ===== src/Peripherals/Schedules.antt =====
-- A schedule that is set and then read back (SetSchedule of internal/peripheral/service.go,
-- with GetPeripheral of store.go).
use fishhub_server.Prelude.{
  ℕ, String, ◌==◌, ◌≡◌, refl, sym, ◌∙◌, Bool, true, false, Option, none, some, List, [], ◌∷◌,
  if◌then◌else◌, find_first, find_first-true, find_first-update_first, arith,
}
use mathlib.Core.Path.{subst}
use fishhub_server.Schema.{Db, Schedule, CronEntry, PeripheralRow}
use fishhub_server.World.{World, peripheral_not_found, ok, Action, pure, draw, call, ◌>>=◌, ◌>>◌}
use fishhub_server.World.Post.{
  Post, returns, errs, Post-bind, Post-call, Post-draw, Post-map, Post-both, Post-always, Same,
}
use fishhub_server.Peripherals.Keeping.{send_schedule-Keeps}
use fishhub_server.Peripherals.Model.{
  Peripheral, scan, read_schedule, parse_schedule, joined_port, peripheral_of,
}
use fishhub_server.Peripherals.Store.{
  is_reachable, find_reachable, update_reachable, updating, scheduled, set_peripheral_schedule, got,
  get_peripheral,
}
use fishhub_server.Peripherals.{assign_ids, send_schedule, set_schedule}

-- The same entries, each with the id that it had if that is not empty.
pub data Named : List CronEntry → List CronEntry → Type 0 where
  none_named : Named [] []
  one_named :
      {es fs : List CronEntry} (e : CronEntry) (id : String)
      → ((e.id == "") ≡ false → id ≡ e.id)
      → Named es fs
      → Named (e ∷ es) (record e { id = id } ∷ fs)

assign_ids-Named :
    (es : List CronEntry) (w : World)
    → Post (λ fs w'. Named es fs × Same w w') (λ _ _. Unit {0}) (assign_ids es w)
unfolding assign_ids
assign_ids-Named [] w = returns [] w refl (none_named, (refl, refl))
assign_ids-Named (e ∷ es) w =
    Post-bind {Q = λ id w'. ((e.id == "") ≡ false → id ≡ e.id) × Same w w'}
      ((if e.id == "" then draw "uuid" else pure e.id) w) followed (first_id (e.id == "") refl)
      (λ id w1 (kept, same).
        Post-bind (assign_ids es w1) (λ rest. pure (record e { id = id } ∷ rest))
          (assign_ids-Named es w1)
          (λ fs w2 (named, same').
            returns _ w2 refl (one_named e id kept named, (same'.0 ∙ same.0, same'.1 ∙ same.1))))
  where
    followed : String → Action (List CronEntry)
    followed id = do rest ← assign_ids es; pure (record e { id = id } ∷ rest)

    first_id :
        (b : Bool)
        → (e.id == "") ≡ b
        → Post
            (λ id w'. ((e.id == "") ≡ false → id ≡ e.id) × Same w w')
            (λ _ _. Unit {0})
            ((if b then draw "uuid" else pure e.id) w)
    first_id true empty = Post-draw "uuid" w (λ v left. ((λ k. ground arith), (refl, refl))) tt
    first_id false full = returns e.id w refl ((λ _. refl), (refl, refl))

-- The table has the schedule in the reachable row.
abbrev pub Stored : String → String → String → Schedule → World → Type 0
Stored device_id user_id id s w =
    (r : PeripheralRow) × (now : ℕ) × (find_first (is_reachable w.db.devices device_id user_id id)
        w.db.peripherals
      ≡ some (scheduled s now r))

set_peripheral_schedule-Stored :
    (d u id : String) (s : Schedule) (w : World)
    → (s.type == "") ≡ false
    → Post
        (λ p w'. (p.schedule ≡ some s) × Stored d u id s w')
        (λ _ _. Unit {0})
        (set_peripheral_schedule d u id s w)
unfolding set_peripheral_schedule updating find_reachable update_reachable read_schedule
    parse_schedule
set_peripheral_schedule-Stored d u id s w typed =
    Post-call "set peripheral schedule: update"
      (λ x.
        updating d u id (scheduled s x.now) (scan "set peripheral schedule: unmarshal" none)
          (find_reachable d u id x) x)
      w (λ later. go later (find_first (is_reachable w.db.devices d u id) w.db.peripherals) refl)
      (λ _. tt)
  where
    go :
        (later : List Bool) (found : Option PeripheralRow)
        → find_first (is_reachable w.db.devices d u id) w.db.peripherals ≡ found
        → Post
            (λ p w'. (p.schedule ≡ some s) × Stored d u id s w')
            (λ _ _. Unit {0})
            (updating d u id
              (scheduled s w.now)
              (scan "set peripheral schedule: unmarshal" none)
              found
              (record w { faults = later }))
    go later none e = errs peripheral_not_found _ refl tt
    go later (some r) e = rw typed (
        returns _ _ refl (
          refl,
          (
            r,
            w.now,
            find_first-update_first (is_reachable w.db.devices d u id) (scheduled s w.now)
                w.db.peripherals e
                (find_first-true (is_reachable w.db.devices d u id) w.db.peripherals r e),
          ),
        ))

-- What SetSchedule has done: the schedule with its entries named is in the table, and returned.
abbrev pub Set : String → String → String → Schedule → Peripheral → World → Type 0
Set d u id s p w =
    (entries : List CronEntry) × Named s.entries entries
    × (p.schedule ≡ some (record s { entries = entries }))
    × Stored d u id (record s { entries = entries }) w

set_schedule-Set :
    (text : Schedule → String) (d u id : String) (s : Schedule) (w : World)
    → (s.type == "") ≡ false
    → Post (λ p w'. Set d u id s p w') (λ _ _. Unit {0}) (set_schedule text d u id s w)
unfolding set_schedule
set_schedule-Set text d u id s w typed =
    Post-bind (assign_ids s.entries w) stored (assign_ids-Named s.entries w)
      (λ entries w1 (named, _).
        let s' : Schedule = record s { entries = entries } in
        Post-bind (set_peripheral_schedule d u id s' w1) (sent s')
          (set_peripheral_schedule-Stored d u id s' w1 typed)
          (λ p w2 (is_s, kept).
            Post-bind (send_schedule text d s' p w2) (λ _. pure p)
              (Post-both
                (Post-always (λ w3. w3.db ≡ w2.db) (send_schedule text d s' p w2)
                  (send_schedule-Keeps (λ db. db ≡ w2.db) text d s' p w2 refl))
                (λ _ _ k. k) (λ _ _ _. tt))
              (λ _ w3 same.
                returns p w3 refl
                  (entries, named, is_s, subst (StoredIn d u id s') (sym same) kept))))
  where
    StoredIn : String → String → String → Schedule → Db → Type 0
    StoredIn a b c x db =
        (r : PeripheralRow) × (now : ℕ) × (find_first (is_reachable db.devices a b c) db.peripherals
          ≡ some (scheduled x now r))

    sent : Schedule → Peripheral → Action Peripheral
    sent s' p = do send_schedule text d s' p; pure p

    stored : List CronEntry → Action Peripheral
    stored entries = do
      p ← set_peripheral_schedule d u id (record s { entries = entries })
      sent (record s { entries = entries }) p

-- A row with a schedule that has a type is read with that schedule.
get_Stored :
    (d u id : String) (s : Schedule) (w : World)
    → (s.type == "") ≡ false
    → Stored d u id s w
    → (q : Peripheral) × ((get_peripheral d u id (record w { faults = [] })).0 ≡ ok q)
      × (q.schedule ≡ some s)
unfolding get_peripheral call got find_reachable read_schedule parse_schedule
get_Stored d u id s w typed (r, now, found) = (
  peripheral_of (joined_port w.db.ports r.port_id) (some s) (scheduled s now r),
  rw (found, typed) refl,
  refl,
)

-- For every text of a schedule, device, user, peripheral, schedule with a type and state: if
-- set_schedule returns a peripheral, that peripheral has the schedule, where each entry has the id
-- that it had if that is not empty, and a read of the peripheral that meets no fault returns one
-- with the same schedule.
pub get_peripheral-set_schedule :
    (text : Schedule → String) (d u id : String) (s : Schedule) (w : World)
    → (s.type == "") ≡ false
    → Post
        (λ p w'.
          (entries : List CronEntry) × Named s.entries entries
          × (p.schedule ≡ some (record s { entries = entries }))
          × (q : Peripheral) × ((get_peripheral d u id (record w' { faults = [] })).0 ≡ ok q)
          × (q.schedule ≡ p.schedule))
        (λ _ _. Unit {0})
        (set_schedule text d u id s w)
get_peripheral-set_schedule text d u id s w typed =
    Post-map (set_schedule-Set text d u id s w typed) (λ p w' (entries, named, is_s, kept).
      let (q, read, has) = get_Stored d u id (record s { entries = entries }) w' typed kept in
      (entries, named, is_s, q, read, has ∙ sym is_s))

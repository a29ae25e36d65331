-- ===== src/Account/Order.antt =====
-- The order in which the pushes of a device's time zone reach the broker (internal/outbox/runner.go
-- with internal/account/outbox_processor.go).
use fishhub_server.Prelude.{
  ℕ, ◌+◌, ◌<◌, String, ◌==◌, ◌≡◌, refl, sym, ap, ◌∙◌, Bool, true, false, Option, some, List, [],
  ◌∷◌, ◌++◌, leb, eq_refl, arith, update_where, map, All,
}
use mathlib.Core.List.{append_assoc, append-nil}
use fishhub_server.Schema.{Event, OutboxRow, device_config_push, pending}
use fishhub_server.World.{World, Message, publish, call}
use fishhub_server.Outbox.{
  Processor, new_row, process_all, claimed, complete, claim_rows, claimable, record_failure,
  mark_completed, record_outcome, process, tick, run,
}
use fishhub_server.Account.{
  push_config, config_push_type, config_push_timeout, config_topic, config_fields,
}
use fishhub_server.Account.Timezones.{posix_tz}

-- The message of a push.
abbrev pub push_message : String → String → Message
push_message device_id timezone = record {
  topic = config_topic device_id;
  body = ("timezone", posix_tz timezone) ∷ [];
}

abbrev pub message_of : Event → Message
message_of e =
    let (device_id, timezone) = config_fields e.payload in push_message device_id timezone

-- An event that waits to push a time zone to a device.
abbrev pub push : String → String → String → OutboxRow
push id device_id timezone =
    new_row id config_push_type (device_config_push device_id timezone) config_push_timeout

-- The world in which the two pushes of a device wait, the older one first.
abbrev pub two_waiting : String → String → String → String → String → List Bool → World → World
two_waiting first second device_id older newer faults w = record w {
  db = record w.db { outbox = push first device_id older ∷ push second device_id newer ∷ [] };
  faults = faults;
}

module _ (processors : String → Option Processor) (max_attempts : ℕ) (room : 1 < max_attempts)
    (schedule : List Event → List Event) (in_order : (es : List Event) → schedule es ≡ es)
    (registered : processors config_push_type ≡ some push_config)
    (first second device_id older newer : String) (apart : (first == second) ≡ false)
    (apart' : (second == first) ≡ false) where
  -- After a tick in which the first push was refused by the broker and the second one was made.
  abbrev refused_once : ℕ → World → World
  refused_once at w = record w {
    db = record w.db {
      outbox =
          record (claimed at (push first device_id older)) {
            attempts = 1;
            last_error = some "mqtt publish";
            status = pending;
          }
          ∷ complete (claimed at (push second device_id newer))
          ∷ [];
    };
    faults = [];
    published = w.published ++ push_message device_id newer ∷ [];
  }

  spare : leb max_attempts 1 ≡ false
  spare = ground arith

  tick_refused :
      (w : World)
      → tick processors max_attempts schedule
          (two_waiting first second device_id older newer (false ∷ false ∷ true ∷ []) w)
        ≡ refused_once w.now w
  unfolding tick claim_rows claimable push_config mark_completed record_failure
  tick_refused w = simp (
    in_order, process_all, registered, process, record_outcome, push_config, publish, call,
    record_failure, mark_completed, update_where, apart, apart', eq_refl, spare,
  )

  tick_again :
      (at : ℕ) (w : World)
      → (tick processors max_attempts schedule (refused_once at w)).published
        ≡ (w.published ++ push_message device_id newer ∷ []) ++ push_message device_id older ∷ []
  unfolding tick claim_rows claimable push_config mark_completed record_failure
  tick_again at w = simp (
    in_order, process_all, registered, process, record_outcome, push_config, publish, call,
    record_failure, mark_completed, update_where,
  )

  -- For two different ids, any two time zones and any device: where the runner has two pushes
  -- waiting, the older one first, an attempt is left after the first, the broker refuses the first
  -- publication and nothing else fails, two rounds of the runner publish the newer time zone first
  -- and the older one after it, on the topic of the device's configuration.
  pub run_reverses :
      (interval : ℕ) (w : World)
      → (run processors max_attempts schedule interval 2
          (two_waiting first second device_id older newer (false ∷ false ∷ true ∷ []) w)).published
        ≡ (w.published ++ push_message device_id newer ∷ []) ++ push_message device_id older ∷ []
  unfolding run
  run_reverses interval w =
      rw (tick_refused (record w { now = w.now + interval }))
        (tick_again (w.now + interval) (record w { now = w.now + interval + interval }))

-- The world after a push that was made and recorded.
abbrev after_push : Event → World → World
after_push e w = record w {
  db = record w.db { outbox = update_where (λ r. r.id == e.id) complete w.db.outbox };
  faults = [];
  published = w.published ++ message_of e ∷ [];
}

pushed :
    (max_attempts : ℕ) (e : Event) (w : World)
    → (process push_config max_attempts e (record w { faults = [] })).1 ≡ after_push e w
unfolding process record_outcome push_config mark_completed
pushed max_attempts e w = refl

module _ (processors : String → Option Processor) (max_attempts : ℕ)
    (registered : processors config_push_type ≡ some push_config) where
  -- For any list of pushes: where nothing fails, the runner's loop publishes each of them once, in
  -- the order of the list.
  pub process_all_in_order :
      (es : List Event) (w : World)
      → All (λ e. e.event_type ≡ config_push_type) es
      → (process_all processors max_attempts es (record w { faults = [] })).published
        ≡ w.published ++ map message_of es
  unfolding process_all
  process_all_in_order [] w pushes = sym (append-nil w.published)
  process_all_in_order (e ∷ es) w (is_push, pushes) =
      rw (process_all, ap processors is_push ∙ registered, pushed max_attempts e w)
        (process_all_in_order es (after_push e w) pushes
          ∙ append_assoc w.published (message_of e ∷ []) (map message_of es))

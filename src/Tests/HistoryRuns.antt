-- ===== src/Tests/HistoryRuns.antt =====
-- A client that reads the events of a trigger.
use Prim.Native.String.compare
use text.Mathlib.Text.{is_eq}
use fishhub_server.Prelude.{
  ℕ, zero, suc, String, ◌==◌, ◌≡◌, refl, ap, false, Option, none, some, [], ◌∷◌, if◌then◌else◌,
  select, any, arith,
}
use fishhub_server.Schema.{TriggerEvent}
use fishhub_server.World.{World}
use fishhub_server.Pages.{Cursor, sort_desc}
use fishhub_server.TriggerEvents.History.{Codec, event_key, events_of, read_events}
use fishhub_server.TriggerEvents.History.Pages.{read_events-all}
use fishhub_server.Triggers.Store.{find_trigger}
use fishhub_server.Tests.TriggerRuns.{trigger, with_alert}

-- A text for a cursor: the time as a row of signs, and then the id.
cursor_text : ℕ → String → String
cursor_text zero id = String.◌∷◌ "i" id
cursor_text (suc t) id = String.◌∷◌ "t" (cursor_text t id)

later : Option Cursor → Option Cursor
later none = none
later (some (t, id)) = some (suc t, id)

cursor_from : String → Option Cursor
cursor_from String.[] = none
cursor_from (String.◌∷◌ c s) =
    let more = cursor_from s in if String.◌∷◌ c "" == "i" then some (zero, s) else later more

cursor_from-cursor_text : (t : ℕ) (id : String) → cursor_from (cursor_text t id) ≡ some (t, id)
unfolding cursor_from cursor_text later
cursor_from-cursor_text zero id = refl
cursor_from-cursor_text (suc t) id = ap later (cursor_from-cursor_text t id)

cursor_text-written : (t : ℕ) (id : String) → (cursor_text t id == "") ≡ false
unfolding cursor_text
cursor_text-written zero id = ap is_eq (compare.cons-nil "i" id)
cursor_text-written (suc t) id = ap is_eq (compare.cons-nil "t" (cursor_text t id))

abbrev codec : Codec
codec = record {
  marshal = λ (t, id). cursor_text t id;
  unmarshal = cursor_from;
  encode = λ b. b;
  decode = some;
}

abbrev event : String → ℕ → TriggerEvent
event id fired_at = record {
  id = id;
  trigger_event_id = id;
  trigger_id = "tr1";
  fired_at = fired_at;
  received_at = fired_at;
  readings = [];
}

abbrev with_events : World
with_events = record with_alert {
  db = record with_alert.db { trigger_events = event "e1" 5 ∷ event "e2" 7 ∷ event "e3" 5 ∷ [] };
}

three_events : events_of "tr1" with_events ≡ event "e1" 5 ∷ event "e2" 7 ∷ event "e3" 5 ∷ []
unfolding select
three_events = refl

in_order :
    sort_desc event_key (events_of "tr1" with_events)
    ≡ event "e2" 7 ∷ event "e3" 5 ∷ event "e1" 5 ∷ []
unfolding sort_desc select
in_order = refl

read_events-all_example :
    read_events codec "d1" "u1" "tr1" 4 "" (record with_events { faults = [] })
    ≡ sort_desc event_key (events_of "tr1" with_events)
unfolding cursor_from cursor_text select any find_trigger
read_events-all_example =
    read_events-all codec "d1" "u1" "tr1" with_events trigger (λ b. refl)
      (λ (t, id). cursor_from-cursor_text t id) (λ (t, id). cursor_text-written t id) refl 4
      ((refl, (refl, tt)), ((refl, tt), (tt, tt))) (omega arith)

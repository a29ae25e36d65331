-- ===== src/Alerts.antt =====
-- Alerts: the processor of alert jobs (internal/actions/alert/processor.go), which cmd/worker runs on
-- the queue trigger-actions, the table of alerts (internal/alerts/store_postgres.go), the units of
-- internal/alerts/units.go and ListAlertsHandler of internal/api/alerts_handler.go. The parser of
-- text/template is a parameter. A payload is read as it was written.
pub mod Raised
pub mod Reported
use Prim.Native.String
use Prim.Native.Char.{code}
use Prim.Native.Nat.{Ordering, compare as compare_ℕ}
use fishhub_server.Prelude.{
  ℕ, String, ◌==◌, ◌||◌, Bool, true, false, Option, none, some, List, [], ◌∷◌, ◌++◌, if◌then◌else◌,
  select, find_first, map,
}
use fishhub_server.Schema.{Db, Alert, AlertContext, Reading}
use fishhub_server.World.{
  failed, Result, ok, err, World, Job, Response, respond, Action, call, draw, gets, lift, pure,
  raise, ◌>>=◌, ◌>>◌,
}
use fishhub_server.Text.{is_slash, cut_at}
use fishhub_server.Pages.{Cursor, page_of, next_key}
use fishhub_server.Triggers.Configs.{read_text}
use fishhub_server.Triggers.Store.{get_action_config, get_trigger_by_id}
use fishhub_server.TriggerEvents.History.{Codec, read_cursor, encoded}

-- validSeverities
abbrev pub is_valid_severity : String → Bool
is_valid_severity s = s == "info" || s == "warning" || s == "critical"

-- The data of the template: the first reading, or the zero values.
abbrev pub alert_context : List Reading → ℕ → AlertContext
alert_context [] fired_at = record { peripheral = ""; value = "0"; fired_at = fired_at }
alert_context (r ∷ rs) fired_at = record {
  peripheral = r.peripheral;
  value = r.value;
  fired_at = fired_at;
}

abbrev pub or_failed : {A : Type 0} → String → Option A → Result A
or_failed what none = err (failed what)
or_failed what (some a) = ok a

abbrev pub add_alert : Alert → World → World
add_alert a w = record w { db = record w.db { alerts = w.db.alerts ++ a ∷ [] } }

-- The INSERT of Create
abbrev pub insert_alert : Alert → Action (Unit {0})
insert_alert a = do
  id ← draw "create alert"
  (λ w. (ok tt, add_alert (record a { id = id; created_at = w.now }) w))

-- postgresStore.Create
unfoldable pub create_alert : Alert → Action (Unit {0})
unfolding call
create_alert a = call "create alert" (insert_alert a)

-- Processor.Process: render is renderAlert's template, parsed and executed.
unfoldable pub process_alert : (String → AlertContext → Option String) → Job → Action (Unit {0})
process_alert render job = do
  action ← get_action_config job.action_id
  severity ←
      lift
        (or_failed "alert processor: unmarshal action config" (read_text "severity" action.config))
  template ← lift (
      or_failed "alert processor: unmarshal action config"
        (read_text "message_template" action.config))
  (if is_valid_severity severity
      then pure tt
      else raise (failed "alert processor: invalid severity"))
  t ← get_trigger_by_id job.trigger_id
  message ← lift (
      or_failed "alert processor: render template"
        (render template (alert_context job.readings job.fired_at)))
  create_alert (record {
    id = "";
    user_id = t.user_id;
    device_id = t.device_id;
    trigger_id = job.trigger_id;
    event_id = job.event_id;
    severity = severity;
    message = message;
    context = alert_context job.readings job.fired_at;
    created_at = 0;
  })

abbrev pub alert_key : Alert → Cursor
alert_key a = (a.created_at, a.id)

abbrev pub alerts_of : String → World → List Alert
alerts_of user_id w = select (λ (a : Alert). a.user_id == user_id) w.db.alerts

-- postgresStore.ListByUserCursor
unfoldable pub list_by_user_cursor : String → Option Cursor → ℕ → Action (List Alert)
unfolding call
list_by_user_cursor user_id after size =
    call "list alerts cursor" (gets (λ w. page_of alert_key size after (alerts_of user_id w)))

abbrev pub is_dash : ℕ → Bool
is_dash c = elim (compare_ℕ c b'-') [ Ordering.eq ↦ true | _ ↦ false ]

-- The part before the last dash.
unfoldable pub cut_dash : String → Option String
cut_dash String.[] = none
cut_dash (String.◌∷◌ c s) =
    let later = cut_dash s in
    elim later [
      | some part ↦ some (String.◌∷◌ c part)
      | none ↦ if is_dash (code c) then some "" else none
    ]

abbrev pub kind_of : String → Option String → String
kind_of kind_pin none = kind_pin
kind_of kind_pin (some kind) = kind

-- unitLookup, at the key
abbrev pub unit_lookup : String → Option String
unit_lookup key =
    if key == "ds18b20/temperature" then some "Cel" else if key == "ph/ph" then some "" else none

abbrev pub unit_of_parts : Option (String × String) → Option String
unit_of_parts none = none
unit_of_parts (some (kind_pin, measurement)) =
    unit_lookup (String.◌++◌ (kind_of kind_pin (cut_dash kind_pin)) (String.◌++◌ "/" measurement))

-- UnitFor
unfoldable pub unit_for : String → Option String
unfolding cut_dash
unit_for peripheral = unit_of_parts (cut_at is_slash peripheral)

-- AlertContextResponse and AlertResponse, with the alert as it is stored
pub record AlertShown : Type 0 where
  pub alert : Alert
  pub unit : String

abbrev pub or_blank : Option String → String
or_blank none = ""
or_blank (some unit) = unit

-- toAlertResponse
abbrev pub to_alert_response : Alert → AlertShown
to_alert_response a = record { alert = a; unit = or_blank (unit_for a.context.peripheral) }

-- AlertsPageResponse
pub record AlertsPage : Type 0 where
  pub alerts : List AlertShown
  pub next : Option String

abbrev pub no_alerts : AlertsPage
no_alerts = record { alerts = []; next = none }

-- defaultAlertPageSize
abbrev pub alert_page_size : ℕ
alert_page_size = 20

abbrev pub alerts_response : Codec → Result (List Alert) → Response × AlertsPage
alerts_response c (ok rows) = (
  respond 200 "",
  record {
    alerts = map to_alert_response rows;
    next = encoded c (next_key alert_key alert_page_size rows);
  },
)
alerts_response c (err _) = (respond 500 "internal_error", no_alerts)

abbrev pub list_alerts_from :
    Codec → String → Option (Option Cursor) → World → (Response × AlertsPage) × World
list_alerts_from c user_id none w = ((respond 400 "invalid_request", no_alerts), w)
list_alerts_from c user_id (some after) w =
    let (r, w') = list_by_user_cursor user_id after alert_page_size w in (alerts_response c r, w')

-- ListAlertsHandler.ServeHTTP: the answer, and the page that its body shows.
unfoldable pub list_alerts_handler :
    Codec → String → String → World → (Response × AlertsPage) × World
list_alerts_handler c user_id raw w = list_alerts_from c user_id (read_cursor c raw) w

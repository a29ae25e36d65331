-- ===== src/TriggerEvents/History.antt =====
-- The list of the events of a trigger, page by page: ListTriggerEventsHandler of
-- internal/api/trigger_events_handler.go with ListByTriggerCursor of internal/trigger_events/store.go
-- and internal/api/cursor.go. The encodings of encoding/json and of encoding/base64 are parameters.
pub mod Pages
use fishhub_server.Prelude.{
  ℕ, zero, suc, String, ◌==◌, Bool, Option, none, some, List, [], ◌∷◌, ◌++◌, if◌then◌else◌, select,
}
use fishhub_server.Schema.{TriggerEvent}
use fishhub_server.World.{
  trigger_not_found, Result, ok, err, World, Response, respond, Action, call, gets,
}
use fishhub_server.Pages.{Cursor, page_of, next_key}
use fishhub_server.Triggers.Store.{Trigger, get_trigger}

-- json.Marshal and json.Unmarshal of a cursorToken, EncodeToString and DecodeString of
-- base64.RawURLEncoding
pub record Codec : Type 0 where
  pub marshal : Cursor → String
  pub unmarshal : String → Option Cursor
  pub encode : String → String
  pub decode : String → Option String

abbrev pub encode_cursor : Codec → Cursor → String
encode_cursor c k = c.encode (c.marshal k)

abbrev pub decoded : Codec → Option String → Option Cursor
decoded c none = none
decoded c (some b) = c.unmarshal b

abbrev pub decode_cursor : Codec → String → Option Cursor
decode_cursor c raw = decoded c (c.decode raw)

abbrev pub given : Option Cursor → Option (Option Cursor)
given none = none
given (some k) = some (some k)

-- The cursor of the query string: none of all where the text is no cursor, and no position where it
-- is empty.
unfoldable pub read_cursor : Codec → String → Option (Option Cursor)
read_cursor c raw = if raw == "" then some none else given (decode_cursor c raw)

abbrev pub event_key : TriggerEvent → Cursor
event_key e = (e.fired_at, e.id)

abbrev pub events_of : String → World → List TriggerEvent
events_of trigger_id w =
    select (λ (e : TriggerEvent). e.trigger_id == trigger_id) w.db.trigger_events

-- postgresStore.ListByTriggerCursor
unfoldable pub list_by_trigger_cursor : String → Option Cursor → ℕ → Action (List TriggerEvent)
unfolding call
list_by_trigger_cursor trigger_id after size =
    call "list trigger events cursor"
      (gets (λ w. page_of event_key size after (events_of trigger_id w)))

-- TriggerEventsPageResponse
pub record EventsPage : Type 0 where
  pub events : List TriggerEvent
  pub next_cursor : Option String

abbrev pub no_events : EventsPage
no_events = record { events = []; next_cursor = none }

abbrev pub encoded : Codec → Option Cursor → Option String
encoded c none = none
encoded c (some k) = some (encode_cursor c k)

abbrev pub events_page : Codec → ℕ → List TriggerEvent → EventsPage
events_page c size events = record {
  events = events;
  next_cursor = encoded c (next_key event_key size events);
}

abbrev pub events_response : Codec → ℕ → Result (List TriggerEvent) → Response × EventsPage
events_response c size (ok events) = (respond 200 "", events_page c size events)
events_response c size (err _) = (respond 500 "internal_error", no_events)

-- defaultEventPageSize
abbrev pub event_page_size : ℕ
event_page_size = 20

abbrev pub list_found :
    Codec → String → Option Cursor → Result Trigger × World → (Response × EventsPage) × World
list_found c trigger_id after (ok _, w) =
    let (r, w') = list_by_trigger_cursor trigger_id after event_page_size w in
    (events_response c event_page_size r, w')
list_found c trigger_id after (err trigger_not_found, w) =
    ((respond 404 "trigger_not_found", no_events), w)
list_found c trigger_id after (err _, w) = ((respond 500 "internal_error", no_events), w)

abbrev pub list_from :
    Codec
    → String
    → String
    → String
    → Option (Option Cursor)
    → World
    → (Response × EventsPage) × World
list_from c device_id user_id trigger_id none w = ((respond 400 "invalid_request", no_events), w)
list_from c device_id user_id trigger_id (some after) w =
    list_found c trigger_id after (get_trigger device_id user_id trigger_id w)

-- ListTriggerEventsHandler.ServeHTTP: the answer, and the page that its body shows.
unfoldable pub list_events_handler :
    Codec → String → String → String → String → World → (Response × EventsPage) × World
list_events_handler c device_id user_id trigger_id raw w =
    list_from c device_id user_id trigger_id (read_cursor c raw) w

abbrev pub and_then : (String → List TriggerEvent) → Option String → List TriggerEvent
and_then more none = []
and_then more (some raw) = more raw

abbrev pub shown :
    (String → World → List TriggerEvent) → (Response × EventsPage) × World → List TriggerEvent
shown more ((_, page), w) = page.events ++ and_then (λ raw. more raw w) page.next_cursor

-- The events that a client is shown that sends each cursor back, for a number of requests.
unfoldable pub read_events :
    Codec → String → String → String → ℕ → String → World → List TriggerEvent
unfolding list_events_handler
read_events c device_id user_id trigger_id zero raw w = []
read_events c device_id user_id trigger_id (suc n) raw w =
    shown (λ raw' w'. read_events c device_id user_id trigger_id n raw' w')
      (list_events_handler c device_id user_id trigger_id raw w)

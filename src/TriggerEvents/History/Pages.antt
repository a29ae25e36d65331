-- ===== src/TriggerEvents/History/Pages.antt =====
-- A client that follows the cursors of ListTriggerEventsHandler
-- (internal/api/trigger_events_handler.go).
use fishhub_server.Prelude.{
  ℕ, zero, suc, ◌<◌, String, ◌==◌, ◌≡◌, refl, ap, ◌∙◌, false, Option, none, some, [], ◌++◌, length,
}
use fishhub_server.Schema.{TriggerRow}
use fishhub_server.World.{World, ok, call, respond}
use fishhub_server.Pages.{Cursor, sort_desc, page_of, next_key, follow}
use fishhub_server.Pages.Sorted.{Distinct}
use fishhub_server.Pages.Complete.{follow_all}
use fishhub_server.Triggers.Store.{find_trigger, get_trigger, trigger_of, actions_of}
use fishhub_server.TriggerEvents.History.{
  Codec, encode_cursor, read_cursor, event_key, events_of, events_page, encoded, event_page_size,
  list_by_trigger_cursor, list_found, list_from, list_events_handler, and_then, shown, read_events,
}

module _ (c : Codec) (device_id user_id trigger_id : String) (w : World) (r : TriggerRow)
    (text : (b : String) → c.decode (c.encode b) ≡ some b)
    (token : (k : Cursor) → c.unmarshal (c.marshal k) ≡ some k)
    (written : (k : Cursor) → (encode_cursor c k == "") ≡ false)
    (found : find_trigger device_id user_id trigger_id w ≡ some r) where
  read_cursor-encode_cursor : (k : Cursor) → read_cursor c (encode_cursor c k) ≡ some (some k)
  unfolding read_cursor
  read_cursor-encode_cursor k = rw (written k, text (c.marshal k), token k) refl

  read_cursor-empty : read_cursor c "" ≡ some none
  unfolding read_cursor
  read_cursor-empty = refl

  get_trigger-found :
      get_trigger device_id user_id trigger_id (record w { faults = [] })
      ≡ (ok (trigger_of "" (actions_of r.id w.db) r), record w { faults = [] })
  unfolding call get_trigger actions_of find_trigger
  get_trigger-found = rw found refl

  list_events_handler-page :
      (raw : String) (after : Option Cursor)
      → read_cursor c raw ≡ some after
      → list_events_handler c device_id user_id trigger_id raw (record w { faults = [] }) ≡ (
        (
          respond 200 "",
          events_page c event_page_size
              (page_of event_key event_page_size after (events_of trigger_id w)),
        ),
        record w { faults = [] },
      )
  unfolding list_events_handler list_by_trigger_cursor
  list_events_handler-page raw after reads =
      ap (λ o. list_from c device_id user_id trigger_id o (record w { faults = [] })) reads
      ∙ ap (list_found c trigger_id after) get_trigger-found

  onward :
      (n : ℕ)
      → ((k : Cursor)
          → read_events c device_id user_id trigger_id n
              (encode_cursor c k)
              (record w { faults = [] })
            ≡ follow event_key event_page_size n (some k) (events_of trigger_id w))
      → (o : Option Cursor)
      → and_then
          (λ raw. read_events c device_id user_id trigger_id n raw (record w { faults = [] }))
          (encoded c o)
        ≡ elim o [
          | none ↦ []
          | some k ↦ follow event_key event_page_size n (some k) (events_of trigger_id w)
        ]
  onward n rest none = refl
  onward n rest (some k) = rest k

  read_events-follow :
      (n : ℕ) (raw : String) (after : Option Cursor)
      → read_cursor c raw ≡ some after
      → read_events c device_id user_id trigger_id n raw (record w { faults = [] })
        ≡ follow event_key event_page_size n after (events_of trigger_id w)
  unfolding read_events follow
  read_events-follow zero raw after reads = refl
  read_events-follow (suc n) raw after reads =
      ap (shown (λ raw' w'. read_events c device_id user_id trigger_id n raw' w'))
        (list_events_handler-page raw after reads)
      ∙ ap (λ l. page_of event_key event_page_size after (events_of trigger_id w) ++ l)
          (onward n
            (λ k. read_events-follow n (encode_cursor c k) (some k) (read_cursor-encode_cursor k))
            (next_key event_key event_page_size
              (page_of event_key event_page_size after (events_of trigger_id w))))

  -- If every call succeeds, the trigger is found, a cursor's text is read back and is not empty, and
  -- no two events of the trigger have one id, then a client that starts without a cursor and sends
  -- each one back, for more requests than there are events, is shown every event of the trigger
  -- once, the latest first.
  pub read_events-all :
      (n : ℕ)
      → Distinct event_key (events_of trigger_id w)
      → length (events_of trigger_id w) < n
      → read_events c device_id user_id trigger_id n "" (record w { faults = [] })
        ≡ sort_desc event_key (events_of trigger_id w)
  read_events-all n distinct enough =
      read_events-follow n "" none read_cursor-empty
      ∙ follow_all event_key (events_of trigger_id w) 19 n distinct enough

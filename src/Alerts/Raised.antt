-- ===== src/Alerts/Raised.antt =====
-- What a job of the queue does to the table of alerts (internal/actions/alert/processor.go).
use fishhub_server.Prelude.{
  ℕ, String, ◌==◌, ◌≡◌, refl, sym, ap, ◌∙◌, Bool-cases, inl, inr, true, Option, none, some, List,
  [], ◌∷◌, ◌++◌, ◌&&◌, is_none, find_first, if◌then◌else◌,
}
use fishhub_server.Schema.{Db, Device, Alert, AlertContext, ActionRow, TriggerRow, TriggerAction}
use fishhub_server.World.{failed, Result, ok, World, Job, call, draw, pure, raise}
use fishhub_server.World.Post.{Post, returns, errs, Post-bind, Post-call, Post-draw, Post-map}
use fishhub_server.Triggers.Configs.{read_text}
use fishhub_server.Triggers.Store.{
  Trigger, live_device, action_of_row, action_or_error, owned_trigger, by_id, get_action_config,
  get_trigger_by_id,
}
use fishhub_server.Alerts.{
  is_valid_severity, alert_context, or_failed, insert_alert, create_alert, process_alert,
}

abbrev pub live_trigger : String → Db → Option TriggerRow
live_trigger id db = find_first (λ (r : TriggerRow). r.id == id && is_none r.deleted_at) db.triggers

abbrev pub action_row : String → Db → Option ActionRow
action_row id db = find_first (λ (a : ActionRow). a.id == id) db.actions

-- One alert was added: of the owner of the device that the trigger is on, with the severity that the
-- action's configuration names and the text that its template gives for the job's first reading.
pub data Raised (render : String → AlertContext → Option String) (job : Job) (before after : Db)
    : Type 0 where
  raised :
      (a : Alert) (action : ActionRow) (template : String) (r : TriggerRow) (d : Device)
      → after ≡ record before { alerts = before.alerts ++ a ∷ [] }
      → action_row job.action_id before ≡ some action
      → live_trigger job.trigger_id before ≡ some r
      → live_device before.devices r.device_id ≡ some d
      → a.user_id ≡ d.user_id
      → a.device_id ≡ r.device_id
      → a.trigger_id ≡ job.trigger_id
      → a.event_id ≡ job.event_id
      → a.context ≡ alert_context job.readings job.fired_at
      → read_text "severity" action.config ≡ some a.severity
      → is_valid_severity a.severity ≡ true
      → read_text "message_template" action.config ≡ some template
      → render template a.context ≡ some a.message
      → Raised render job before after

module _ (render : String → AlertContext → Option String) (job : Job) (w0 : World) where
  -- An error leaves the database as it was.
  abbrev Kept : {A : Type 0} → (A → Type 0) → Result A × World → Type 0
  Kept Q o = Post (λ a w. Q a × (w.db ≡ w0.db)) (λ _ w. w.db ≡ w0.db) o

  lift-Kept :
      {A : Type 0} (what : String) (o : Option A) (w : World)
      → w.db ≡ w0.db
      → Kept (λ a. o ≡ some a) (or_failed what o, w)
  lift-Kept what none w same = errs _ w refl same
  lift-Kept what (some a) w same = returns a w refl (refl, same)

  get_action_config-Kept :
      (w : World)
      → w.db ≡ w0.db
      → Kept
          (λ t. (a : ActionRow) × (action_row job.action_id w0.db ≡ some a) × (t ≡ action_of_row a))
          (get_action_config job.action_id w)
  unfolding get_action_config find_first
  get_action_config-Kept w same =
      Post-call "get action config" _ w
        (λ later.
          go (action_row job.action_id w.db) (ap (action_row job.action_id) (sym same))
            (record w { faults = later }) same)
        (λ later. same)
    where
      go :
          (o : Option ActionRow)
          → action_row job.action_id w0.db ≡ o
          → (w' : World) → w'.db ≡ w0.db
          → Kept
              (λ t.
                (a : ActionRow) × (action_row job.action_id w0.db ≡ some a) × (t ≡ action_of_row a))
              (action_or_error o, w')
      go none e w' same' = errs _ w' refl same'
      go (some a) e w' same' = returns _ w' refl ((a, e, refl), same')

  -- The trigger that is found, and the owner of its device.
  abbrev Owned : Trigger → Type 0
  Owned t =
      (r : TriggerRow) × (d : Device) × (live_trigger job.trigger_id w0.db ≡ some r)
      × (live_device w0.db.devices r.device_id ≡ some d)
      × (t.user_id ≡ d.user_id)
      × (t.device_id ≡ r.device_id)

  get_trigger_by_id-Kept :
      (w : World) → w.db ≡ w0.db → Kept Owned (get_trigger_by_id job.trigger_id w)
  unfolding get_trigger_by_id find_first
  get_trigger_by_id-Kept w same =
      Post-call "get trigger by id" _ w
        (λ later.
          trigger (live_trigger job.trigger_id w.db) (ap (live_trigger job.trigger_id) (sym same))
            (record w { faults = later }) same)
        (λ later. same)
    where
      owner :
          (r : TriggerRow)
          → live_trigger job.trigger_id w0.db ≡ some r
          → (o : Option Device) → live_device w0.db.devices r.device_id ≡ o
          → (w' : World) → w'.db ≡ w0.db
          → Kept Owned (owned_trigger r o, w')
      owner r e none found w' same' = errs _ w' refl same'
      owner r e (some d) found w' same' = returns _ w' refl ((r, d, e, found, refl, refl), same')

      trigger :
          (o : Option TriggerRow)
          → live_trigger job.trigger_id w0.db ≡ o
          → (w' : World) → w'.db ≡ w0.db
          → Kept Owned (by_id w'.db.devices o, w')
      trigger none e w' same' = errs _ w' refl same'
      trigger (some r) e w' same' =
          owner r e (live_device w'.db.devices r.device_id)
            (ap (λ (db : Db). live_device db.devices r.device_id) (sym same')) w' same'

  severity-Kept :
      (s : String) (w : World)
      → w.db ≡ w0.db
      → Kept
          (λ _. is_valid_severity s ≡ true)
          ((if is_valid_severity s
              then pure tt
              else raise (failed "alert processor: invalid severity"))
            w)
  severity-Kept s w same = elim (Bool-cases (is_valid_severity s)) [
    | inl valid ↦ rw valid (returns _ w refl (refl, same))
    | inr wrong ↦ rw wrong (errs _ w refl same)
  ]

  create_alert-Post :
      (a : Alert) (w : World)
      → w.db ≡ w0.db
      → Post
          (λ _ w'.
            (id : String) × (now : ℕ) × (w'.db ≡ record w0.db {
              alerts = w0.db.alerts ++ record a { id = id; created_at = now } ∷ [];
            }))
          (λ _ w'. w'.db ≡ w0.db)
          (create_alert a w)
  unfolding create_alert
  create_alert-Post a w same =
      Post-call "create alert" (insert_alert a) w
        (λ later.
          Post-bind {Q = λ _ w'. (w'.db ≡ w0.db)}
            (draw "create alert" (record w { faults = later })) _
            (Post-draw "create alert" (record w { faults = later }) (λ _ _. same) same)
            (λ id w' same'. returns _ _ refl (
              id,
              w'.now,
              ap
                  (λ (db : Db). record db {
                    alerts = db.alerts ++ record a { id = id; created_at = w'.now } ∷ [];
                  })
                  same',
            )))
        (λ later. same)

  of_config :
      (key : String) (t : TriggerAction) (a : ActionRow)
      → t ≡ action_of_row a
      → read_text key t.config ≡ read_text key a.config
  of_config key t a is = ap (λ (t : TriggerAction). read_text key t.config) is

  -- In every state, whatever calls fail, a job either ends in an error that leaves the database as it
  -- was, or adds one alert: to the owner of the active device that the job's active trigger is on,
  -- with one of the three severities, which the configuration of the job's action names, and with
  -- the text that the action's template gives for the first reading.
  pub process_alert-Raised :
      Post
        (λ _ w'. Raised render job w0.db w'.db)
        (λ _ w'. w'.db ≡ w0.db)
        (process_alert render job w0)
  unfolding process_alert
  process_alert-Raised =
      Post-bind _ _ (get_action_config-Kept w0 refl) (λ t w1 ((action, is_action, is), same1).
        Post-bind _ _
          (lift-Kept "alert processor: unmarshal action config" (read_text "severity" t.config) w1
            same1)
          (λ severity w2 (named, same2).
            Post-bind _ _
              (lift-Kept "alert processor: unmarshal action config"
                (read_text "message_template" t.config) w2 same2)
              (λ template w3 (written, same3).
                Post-bind _ _ (severity-Kept severity w3 same3) (λ _ w4 (valid, same4).
                  Post-bind _ _ (get_trigger_by_id-Kept w4 same4)
                    (λ tr w5 ((r, d, is_trigger, is_device, user, device), same5).
                      Post-bind _ _
                        (lift-Kept "alert processor: render template"
                          (render template (alert_context job.readings job.fired_at)) w5 same5)
                        (λ message w6 (shows, same6).
                          Post-map (create_alert-Post _ w6 same6) (λ _ w7 (id, now, db).
                            raised _ action template r d db is_action is_trigger is_device user
                              device refl refl refl (sym (of_config "severity" t action is) ∙ named)
                              valid (sym (of_config "message_template" t action is) ∙ written)
                              shows)))))))

-- If no call fails and an id can be drawn, a job whose action, active trigger and active device are
-- there, whose action names one of the three severities and has a template that can be rendered,
-- returns and adds the alert, stamped with that id and the time.
pub process_alert_raises :
    (render : String → AlertContext → Option String) (job : Job) (w : World) (id : String)
    (ids : List String) (action : ActionRow) (r : TriggerRow) (d : Device)
    (severity template message : String)
    → action_row job.action_id w.db ≡ some action
    → live_trigger job.trigger_id w.db ≡ some r
    → live_device w.db.devices r.device_id ≡ some d
    → read_text "severity" action.config ≡ some severity
    → read_text "message_template" action.config ≡ some template
    → is_valid_severity severity ≡ true
    → render template (alert_context job.readings job.fired_at) ≡ some message
    → process_alert render job (record w { faults = []; supply = id ∷ ids }) ≡ (
      ok tt,
      record w {
        faults = [];
        supply = ids;
        db = record w.db {
          alerts =
              w.db.alerts
              ++ record {
                id = id;
                user_id = d.user_id;
                device_id = r.device_id;
                trigger_id = job.trigger_id;
                event_id = job.event_id;
                severity = severity;
                message = message;
                context = alert_context job.readings job.fired_at;
                created_at = w.now;
              }
                ∷ [];
        };
      },
    )
unfolding process_alert get_action_config get_trigger_by_id create_alert call draw
process_alert_raises render job w id ids action r d severity template message is_action is_trigger
      is_device named written valid shows =
    rw (is_action, named, written, valid, is_trigger, is_device, shows) refl

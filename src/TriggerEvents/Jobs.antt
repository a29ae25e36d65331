-- ===== src/TriggerEvents/Jobs.antt =====
-- Which jobs a report of a trigger event enqueues (internal/trigger_events/mqtt_handler.go).
use fishhub_server.Prelude.{
  ℕ, String, ◌≡◌, refl, sym, ap, ◌∙◌, ◌⊎◌, Bool, Bool-cases, inl, inr, true, false, Option, none,
  some, List, [], ◌∷◌, ◌++◌, All, All-append, if◌then◌else◌, find_first, select, ◌==◌,
}
use mathlib.Core.Path.{subst}
use mathlib.Core.List.{append_assoc, append-nil}
use mathlib.Core.List.{Mem, mem-cons_self, mem-cons_of_mem}
use fishhub_server.Schema.{ActionRow, TriggerEvent}
use fishhub_server.World.{Result, ok, World, Job, draw, gets}
use fishhub_server.World.Post.{Post, returns, errs, Post-call, Post-bind, Post-draw, Post-state}
use fishhub_server.Text.{device_id_from_topic}
use fishhub_server.TriggerEvents.{
  Config, EventMessage, is_device_side, is_action_of, is_event, owns_trigger,
  trigger_belongs_to_device, ingest, ingest_row, scan_into, add_trigger_event, ingest_statement,
  get_actions, job_of, add_job, enqueue, enqueue_each, enqueue_found, enqueue_actions,
  enqueue_ingested, event_of, ingest_at, ingest_owned, lacks_field, handle_message, handle_from,
  handle,
}

-- The jobs grow by jobs with a property.
abbrev pub Grows : (Job → Type 0) → World → World → Type 0
Grows P w w' = (added : List Job) × (w'.jobs ≡ w.jobs ++ added) × All P added

module _ (P : Job → Type 0) where
  Grows-here : (w w' : World) → w'.jobs ≡ w.jobs → Grows P w w'
  Grows-here w w' same = ([], same ∙ sym (append-nil w.jobs), tt)

  Grows-next : (w v u : World) → Grows P w v → Grows P v u → Grows P w u
  Grows-next w v u (xs, e, px) (ys, f, py) =
      (xs ++ ys, f ∙ ap (λ js. js ++ ys) e ∙ append_assoc w.jobs xs ys, All-append P xs ys px py)

-- The job is of an action in the table, one of its trigger that the server runs.
abbrev pub IsJobOf : List ActionRow → Job → Type 0
IsJobOf rows job =
    (a : ActionRow) × Mem a rows
    × (job.action_id ≡ a.id)
    × ((a.trigger_id == job.trigger_id) ≡ true)
    × (job.job_type ≡ a.action_type)
    × (is_device_side a.action_type ≡ false)

-- A job of an action that the server runs, for a trigger.
abbrev pub IsJobFor : List ActionRow → String → Job → Type 0
IsJobFor rows trigger_id job = (job.trigger_id ≡ trigger_id) × IsJobOf rows job

-- The rows that a query selects are in the table and pass its test.
select-Selected :
    (p : ActionRow → Bool) (rows xs : List ActionRow)
    → ((x : ActionRow) → Mem x xs → Mem x rows)
    → All (λ x. Mem x rows × (p x ≡ true)) (select p xs)
unfolding select
select-Selected p rows [] within = tt
select-Selected p rows (x ∷ xs) within = elim (Bool-cases (p x)) [
  | inl hit ↦ rw hit (
    (within x mem-cons_self, hit),
    select-Selected p rows xs (λ y m. within y (mem-cons_of_mem x m)),
  )
  | inr miss ↦ rw miss (select-Selected p rows xs (λ y m. within y (mem-cons_of_mem x m)))
]

enqueue-Grows :
    (rows : List ActionRow) (e : TriggerEvent) (a : ActionRow) (id : String) (w : World)
    → Mem a rows × (is_action_of e.trigger_id a ≡ true)
    → is_device_side a.action_type ≡ false
    → Grows (IsJobFor rows e.trigger_id) w (enqueue (job_of e a id) w).1
unfolding enqueue
enqueue-Grows rows e a id w (within, its) server =
    Post-state (Grows (IsJobFor rows e.trigger_id) w) (enqueue (job_of e a id) w) (
      Post-call "enqueue job" (add_job (job_of e a id)) w
        (λ later.
          returns tt (record w { faults = later; jobs = w.jobs ++ job_of e a id ∷ [] }) refl
            (job_of e a id ∷ [], refl, ((refl, (a, within, refl, its, refl, server)), tt)))
        (λ later. Grows-here (IsJobFor rows e.trigger_id) w (record w { faults = later }) refl))

enqueue_each-Grows :
    (rows : List ActionRow) (c : Config) (e : TriggerEvent) (actions : List ActionRow) (w : World)
    → All (λ a. Mem a rows × (is_action_of e.trigger_id a ≡ true)) actions
    → Grows (IsJobFor rows e.trigger_id) w (enqueue_each c e actions w)
unfolding enqueue_each
enqueue_each-Grows rows c e [] w all = Grows-here (IsJobFor rows e.trigger_id) w w refl
enqueue_each-Grows rows c e (a ∷ actions) w (its, all) =
    Grows-next (IsJobFor rows e.trigger_id) w middle (enqueue_each c e actions middle)
      (one (is_device_side a.action_type) refl) (enqueue_each-Grows rows c e actions middle all)
  where
    middle : World
    middle = if is_device_side a.action_type then w else (enqueue (job_of e a (c.new_uuid w)) w).1

    one :
        (b : Bool)
        → is_device_side a.action_type ≡ b
        → Grows
            (IsJobFor rows e.trigger_id)
            w
            (if b then w else (enqueue (job_of e a (c.new_uuid w)) w).1)
    one true device = Grows-here (IsJobFor rows e.trigger_id) w w refl
    one false server = enqueue-Grows rows e a (c.new_uuid w) w its server

get_actions-Post :
    (trigger_id : String) (w : World)
    → Post
        (λ actions w'.
          (w'.jobs ≡ w.jobs)
          × All (λ a. Mem a w.db.actions × (is_action_of trigger_id a ≡ true)) actions)
        (λ _ w'. w'.jobs ≡ w.jobs)
        (get_actions trigger_id w)
unfolding get_actions
get_actions-Post trigger_id w =
    Post-call "get actions" (gets (λ v. select (is_action_of trigger_id) v.db.actions)) w
      (λ later.
        returns (select (is_action_of trigger_id) w.db.actions) (record w { faults = later }) refl
          (refl, select-Selected (is_action_of trigger_id) w.db.actions w.db.actions (λ _ m. m)))
      (λ _. refl)

enqueue_actions-Grows :
    (c : Config) (e : TriggerEvent) (w : World)
    → Grows (IsJobFor w.db.actions e.trigger_id) w (enqueue_actions c e w)
unfolding enqueue_actions enqueue_found
enqueue_actions-Grows c e w = go (get_actions e.trigger_id w) (get_actions-Post e.trigger_id w)
  where
    go :
        (o : Result (List ActionRow) × World)
        → Post
            (λ actions w'.
              (w'.jobs ≡ w.jobs)
              × All (λ a. Mem a w.db.actions × (is_action_of e.trigger_id a ≡ true)) actions)
            (λ _ w'. w'.jobs ≡ w.jobs)
            o
        → Grows (IsJobFor w.db.actions e.trigger_id) w (enqueue_found c e o)
    go o (returns actions w1 is (same, all)) = rw is (
        Grows-next (IsJobFor w.db.actions e.trigger_id) w w1 (enqueue_each c e actions w1)
          (Grows-here (IsJobFor w.db.actions e.trigger_id) w w1 same)
          (enqueue_each-Grows w.db.actions c e actions w1 all))
    go o (errs x w1 is same) = rw is (Grows-here (IsJobFor w.db.actions e.trigger_id) w w1 same)

-- The trigger that an ingested event names: the reported one, or the one of the event that is
-- stored under the same trigger_event_id.
abbrev pub Names : TriggerEvent → World → String → Type 0
Names e w trigger_id =
    (trigger_id ≡ e.trigger_id)
    ⊎ ((row : TriggerEvent) × (find_first (is_event e.trigger_event_id) w.db.trigger_events
          ≡ some row)
        × (trigger_id ≡ row.trigger_id))

ingest-Post :
    (e : TriggerEvent) (w : World)
    → Post
        (λ r w'. (w'.jobs ≡ w.jobs) × (w'.db.actions ≡ w.db.actions) × Names e w r.trigger_id)
        (λ _ w'. w'.jobs ≡ w.jobs)
        (ingest e w)
unfolding ingest
ingest-Post e w =
    Post-call "ingest trigger event" (ingest_statement e) w
      (λ later. go later (find_first (is_event e.trigger_event_id) w.db.trigger_events) refl)
      (λ _. refl)
  where
    stored : String → World → Result TriggerEvent × World
    stored id v =
        let row = record e { id = id; received_at = v.now } in (ok row, add_trigger_event row v)

    go :
        (later : List Bool) (found : Option TriggerEvent)
        → find_first (is_event e.trigger_event_id) w.db.trigger_events ≡ found
        → Post
            (λ r w'. (w'.jobs ≡ w.jobs) × (w'.db.actions ≡ w.db.actions) × Names e w r.trigger_id)
            (λ _ w'. w'.jobs ≡ w.jobs)
            (ingest_row e found (record w { faults = later }))
    go later (some row) is_row =
        returns (scan_into e row) (record w { faults = later }) refl
          (refl, refl, inr (row, is_row, refl))
    go later none is_new =
        Post-bind {Q = λ _ w1. (w1.jobs ≡ w.jobs) × (w1.db ≡ w.db)}
          (draw "ingest trigger event" (record w { faults = later })) stored
          (Post-draw "ingest trigger event" (record w { faults = later }) (λ _ _. (refl, refl))
            refl)
          (λ id w1 (same, same_db).
            returns (record e { id = id; received_at = w1.now })
              (add_trigger_event (record e { id = id; received_at = w1.now }) w1) refl
              (same, ap (λ db. db.actions) same_db, inl refl))

-- A job that a report may enqueue: one of an action that the server runs, for a trigger that the
-- reported event names, where the reported trigger is one of the device of the topic.
abbrev pub MayRun : Config → String → String → World → Job → Type 0
MayRun c topic payload w job =
    (device_id : String) × (m : EventMessage) × (fired_at : ℕ) × (device_id_from_topic
        "trigger_events" topic
      ≡ some device_id)
    × (c.unmarshal payload ≡ some m)
    × (owns_trigger m.trigger_id device_id w ≡ true)
    × Names (event_of m fired_at) w job.trigger_id
    × IsJobOf w.db.actions job

Grows-map :
    (P R : Job → Type 0) (w w' : World)
    → ((job : Job) → P job → R job)
    → Grows P w w'
    → Grows R w w'
Grows-map P R w w' f (added, e, all) = (added, e, each added all)
  where
    each : (js : List Job) → All P js → All R js
    each [] h = tt
    each (j ∷ js) (p, ps) = (f j p, each js ps)

module _ (c : Config) (topic payload device_id : String) (m : EventMessage) (w : World)
    (from_device : device_id_from_topic "trigger_events" topic ≡ some device_id)
    (is_message : c.unmarshal payload ≡ some m)
    (owns : owns_trigger m.trigger_id device_id w ≡ true) where
  ingested-Grows :
      (fired_at : ℕ) (w1 : World)
      → w1.db ≡ w.db
      → w1.jobs ≡ w.jobs
      → Grows (MayRun c topic payload w) w (enqueue_ingested c (ingest (event_of m fired_at) w1))
  unfolding enqueue_ingested
  ingested-Grows fired_at w1 same same_jobs =
      go (ingest (event_of m fired_at) w1) (ingest-Post (event_of m fired_at) w1)
    where
      go :
          (o : Result TriggerEvent × World)
          → Post
              (λ r w'.
                (w'.jobs ≡ w1.jobs)
                × (w'.db.actions ≡ w1.db.actions)
                × Names (event_of m fired_at) w1 r.trigger_id)
              (λ _ w'. w'.jobs ≡ w1.jobs)
              o
          → Grows (MayRun c topic payload w) w (enqueue_ingested c o)
      go o (errs x w2 e kept) = rw e (Grows-here (MayRun c topic payload w) w w2 (kept ∙ same_jobs))
      go o (returns r w2 e (kept, same_actions, names)) = rw e (
          Grows-next (MayRun c topic payload w) w w2 (enqueue_actions c r w2)
            (Grows-here (MayRun c topic payload w) w w2 (kept ∙ same_jobs))
            (Grows-map (IsJobFor w2.db.actions r.trigger_id) (MayRun c topic payload w) w2
              (enqueue_actions c r w2)
              (λ job (is_for, is_of). (
                device_id,
                m,
                fired_at,
                from_device,
                is_message,
                owns,
                rw is_for (
                    subst (λ db. Names (event_of m fired_at) (record w1 { db = db }) r.trigger_id)
                      same names),
                subst (λ rows. IsJobOf rows job) (same_actions ∙ ap (λ db. db.actions) same) is_of,
              ))
              (enqueue_actions-Grows c r w2)))

trigger_belongs_to_device-Post :
    (trigger_id device_id : String) (w : World)
    → Post
        (λ b w'. (owns_trigger trigger_id device_id w ≡ b) × (w'.db ≡ w.db) × (w'.jobs ≡ w.jobs))
        (λ _ w'. w'.jobs ≡ w.jobs)
        (trigger_belongs_to_device trigger_id device_id w)
unfolding trigger_belongs_to_device
trigger_belongs_to_device-Post trigger_id device_id w =
    Post-call "trigger belongs to device" (gets (owns_trigger trigger_id device_id)) w
      (λ later.
        returns (owns_trigger trigger_id device_id w) (record w { faults = later }) refl
          (refl, refl, refl))
      (λ _. refl)

module _ (c : Config) (topic payload device_id : String) (m : EventMessage) (w : World)
    (from_device : device_id_from_topic "trigger_events" topic ≡ some device_id)
    (is_message : c.unmarshal payload ≡ some m) where
  owned-Grows :
      (o : Result Bool × World)
      → Post
          (λ b w'.
            (owns_trigger m.trigger_id device_id w ≡ b) × (w'.db ≡ w.db) × (w'.jobs ≡ w.jobs))
          (λ _ w'. w'.jobs ≡ w.jobs)
          o
      → Grows (MayRun c topic payload w) w (ingest_owned c m o)
  unfolding ingest_owned ingest_at
  owned-Grows o (errs x w1 e same) = rw e (Grows-here (MayRun c topic payload w) w w1 same)
  owned-Grows o (returns false w1 e (owns, same, same_jobs)) =
      rw e (Grows-here (MayRun c topic payload w) w w1 same_jobs)
  owned-Grows o (returns true w1 e (owns, same, same_jobs)) = rw e (at (c.parse_time m.fired_at))
    where
      at : (time : Option ℕ) → Grows (MayRun c topic payload w) w (ingest_at c m time w1)
      at none = Grows-here (MayRun c topic payload w) w w1 same_jobs
      at (some fired_at) =
          ingested-Grows c topic payload device_id m w from_device is_message owns fired_at w1 same
            same_jobs

  complete-Grows : Grows (MayRun c topic payload w) w (handle_message c device_id (some m) w)
  unfolding handle_message
  complete-Grows = elim (Bool-cases (lacks_field m)) [
    | inl lacks ↦ rw lacks (Grows-here (MayRun c topic payload w) w w refl)
    | inr complete ↦ rw complete (
        owned-Grows (trigger_belongs_to_device m.trigger_id device_id w)
          (trigger_belongs_to_device-Post m.trigger_id device_id w))
  ]

-- For every configuration, topic, payload and state: the jobs after a report are the jobs before it
-- with some added behind. Each of these is for the trigger that the payload names, or for the trigger
-- of the event that is stored under the same trigger_event_id; it carries the id and the type of an
-- action of its trigger that is in the table and that the server runs; and the topic is one of
-- trigger events of a device of which the trigger that the payload names is a live one.
pub handle-Grows :
    (c : Config) (topic payload : String) (w : World)
    → Grows (MayRun c topic payload w) w (handle c topic payload w)
unfolding handle handle_from handle_message
handle-Grows c topic payload w = from_topic (device_id_from_topic "trigger_events" topic) refl
  where
    read :
        (device_id : String) (message : Option EventMessage)
        → device_id_from_topic "trigger_events" topic ≡ some device_id
        → c.unmarshal payload ≡ message
        → Grows (MayRun c topic payload w) w (handle_message c device_id message w)
    read device_id none from_device is_message = Grows-here (MayRun c topic payload w) w w refl
    read device_id (some m) from_device is_message =
        complete-Grows c topic payload device_id m w from_device is_message

    from_topic :
        (device : Option String)
        → device_id_from_topic "trigger_events" topic ≡ device
        → Grows (MayRun c topic payload w) w (handle_from c device payload w)
    from_topic none e = Grows-here (MayRun c topic payload w) w w refl
    from_topic (some device_id) e = read device_id (c.unmarshal payload) e refl

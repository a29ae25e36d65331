-- ===== src/World.antt =====
-- How the services act: on the database, the MQTT broker, the clock and the random source, with
-- errors as values. Models database/sql transactions as the services use them (db.BeginTx, defer
-- tx.Rollback(), tx.Commit()), the Go error values that the handlers tell apart by errors.Is, and
-- the publisher interface of internal/mqtt/publisher.go.
-- Each call that leaves the process may fail: the list faults says which ones do, in the order in
-- which they are made (after its end, none does). The values that the database and the random
-- source draw (gen_random_uuid, crypto/rand, uuid.New) are the list supply. The clock stands still
-- within one operation.
pub mod Post
pub mod Keeps
use fishhub_server.Prelude.{
  ℕ, String, Option, none, some, Bool, true, false, List, [], ◌∷◌, ◌++◌, if◌then◌else◌,
}
use fishhub_server.Schema.{Db, Reading}

pub data Error : Type 0 where
  -- fmt.Errorf around an error of a driver or of a client
  failed : String → Error
  -- device.ErrNotFound
  device_not_found : Error
  -- firmware: ErrNoRelease, ErrUpdateAlreadyPending, ErrNoPendingUpdate, ErrDeviceNotFound,
  -- ErrRecordNotFound
  no_release update_already_pending no_pending_update firmware_device_not_found : Error
  record_not_found : Error
  -- auth: ErrUnsupportedProvider, ErrInvalidIDToken, ErrProviderConflict, ErrUserNotFound,
  -- ErrEmailTaken, ErrTokenNotFound, ErrTokenExpired, ErrTokenRevoked
  unsupported_provider invalid_id_token provider_conflict user_not_found : Error
  email_taken token_not_found token_expired token_revoked : Error
  -- provisioning: ErrCodeNotFound, ErrCodeAlreadyUsed
  code_not_found code_already_used : Error
  -- account: ErrAccountNotFound, ErrInvalidTimezone
  account_not_found invalid_timezone : Error
  -- devicemodel: ErrNotFound, ErrPortNotFound
  model_not_found port_not_found : Error
  -- peripheral: ErrNotAnActuator, ErrNotFound, ErrAlreadyExists, ErrInvalidCommand, ErrPortInUse
  not_an_actuator peripheral_not_found peripheral_exists invalid_command port_in_use : Error
  -- trigger: ErrNotFound, ErrInvalidPeripheral
  trigger_not_found invalid_peripheral : Error
  -- senml: ErrEmptyPayload, ErrMissingBaseTime, ErrEmptyEntries; measurement: ErrInfluxWrite
  empty_payload missing_base_time empty_entries influx_write : Error
  -- a panic on a nil pointer
  nil_pointer : Error

pub data Result {ℓ} (A : Type ℓ) : Type ℓ where
  ok : A → Result A
  err : Error → Result A

-- A message that was handed to the broker.
pub record Message : Type 0 where
  pub topic : String
  pub body : List (String × String)

-- queue.Job with its queue.AlertJobPayload, on the queue trigger-actions.
pub record Job : Type 0 where
  pub id : String
  pub job_type : String
  pub action_id : String
  pub event_id : String
  pub trigger_id : String
  pub fired_at : ℕ
  pub readings : List Reading

pub record World : Type 0 where
  pub db : Db
  pub faults : List Bool
  pub supply : List String
  pub now : ℕ
  pub published : List Message
  pub jobs : List Job

-- apierr.Write and render: the status code of a response and the code of its error body, which is
-- empty where there is none.
pub record Response : Type 0 where
  pub status : ℕ
  pub error : String

abbrev pub respond : ℕ → String → Response
respond status error = record { status = status; error = error }

abbrev pub Action : Type 0 → Type 0
Action A = World → Result A × World

module _ {A : Type 0} where
  abbrev pub pure : A → Action A
  pure a w = (ok a, w)

  abbrev pub raise : Error → Action A
  raise e w = (err e, w)

  abbrev pub lift : Result A → Action A
  lift r w = (r, w)

  -- What the database holds, and the clock.
  abbrev pub gets : (World → A) → Action A
  gets f w = (ok (f w), w)

module _ {A B : Type 0} where
  abbrev pub continue : Result A × World → (A → Action B) → Result B × World
  continue (ok a, w) f = f a w
  continue (err e, w) f = (err e, w)

  infixl 5 ◌>>=◌ ◌>>◌
  abbrev pub ◌>>=◌ : Action A → (A → Action B) → Action B
  ◌>>=◌ m f w = continue (m w) f

  abbrev pub ◌>>◌ : Action A → Action B → Action B
  ◌>>◌ m n w = continue (m w) (λ _. n)

abbrev pub modify_db : (Db → Db) → Action (Unit {0})
modify_db f w = (ok tt, record w { db = f w.db })

-- The head of the list, and false after its end.
fails : List Bool → Bool
fails [] = false
fails (b ∷ bs) = b

rest : List Bool → List Bool
rest [] = []
rest (b ∷ bs) = bs

module _ {A : Type 0} where
  -- A call that leaves the process, with the text that wraps its error.
  unfoldable pub call : String → Action A → Action A
  unfolding fails rest
  call what m w =
      if fails w.faults
      then (err (failed what), record w { faults = rest w.faults })
      else m (record w { faults = rest w.faults })

  -- A value that is drawn: the next one of the supply. A supply that is empty is a failing source.
  unfoldable pub draw_from : List String → String → (String → Action A) → Action A
  draw_from [] what k w = (err (failed what), w)
  draw_from (v ∷ vs) what k w = k v (record w { supply = vs })

module _ {A : Type 0} where
  settle : Db → Result A × World → Result A × World
  settle saved (ok a, w) = (ok a, w)
  settle saved (err e, w) = (err e, record w { db = saved })

  -- A transaction: begin, the body, commit. Every return with an error rolls the database back.
  unfoldable pub transaction : String → String → Action A → Action A
  unfolding settle
  transaction begin_text commit_text body w =
      settle w.db ((do call begin_text (pure tt); a ← body; call commit_text (pure tt); pure a) w)

unfoldable pub draw : String → Action String
unfolding draw_from
draw what w = draw_from w.supply what pure w

-- publisher.Publish and publisher.PublishRetained
unfoldable pub publish : String → String → List (String × String) → Action (Unit {0})
unfolding call
publish what topic body = call what (λ w.
    (ok tt, record w { published = w.published ++ record { topic = topic; body = body } ∷ [] }))

-- if err := m; err != nil { log }: the error is dropped, and what was done stays done.
abbrev pub ignore : {A : Type 0} → Action A → Action (Unit {0})
ignore m w = (ok tt, (m w).1)

-- ===== src/Provisioning/Activate.antt =====
-- The activation of a device (ActivationService.Activate of internal/provisioning/activation.go).
use fishhub_server.Prelude.{
  ℕ, String, ◌≡◌, refl, ap, ◌∙◌, ◌⊎◌, Bool, inl, inr, Option, none, some, List, [], find_first,
}
use mathlib.Core.Path.{subst}
use fishhub_server.Schema.{Db, Account, mqtt_provision, device_config_push}
use fishhub_server.World.{
  Error, failed, account_not_found, code_already_used, Result, ok, err, World, Action, pure, lift,
  call, draw, modify_db, transaction, ◌>>=◌, ◌>>◌,
}
use fishhub_server.World.Post.{
  Post, returns, errs, Post-bind, Post-call, Post-draw, Post-both, Post-err, Post-ok,
  Post-transaction,
}
use fishhub_server.Outbox.{insert}
use fishhub_server.Outbox.Insert.{insert-Post, with_event}
use fishhub_server.Device.{or_error}
use fishhub_server.Account.{is_account_of, find_by_user_id, timezone_read, timezone_or_utc}
use fishhub_server.Provisioning.{
  Config, is_code, claim_code, with_activated, activate_row, provision_type, config_push_type,
  claim_timeout, set_up, default_model_id, complete_activation, activate,
}
use fishhub_server.Provisioning.Claim.{
  Claimed, claim_code-Claimed, IsSpent, Claimed-IsSpent, claim_code-spent,
}

-- The database with the credentials stored and the two events of the device behind the others.
abbrev pub after_set_up : String → String → String → String → String → String → Db → Db
after_set_up provision_id push_id device_id password model_id timezone db =
    with_event push_id config_push_type (device_config_push device_id timezone) claim_timeout (
      with_event provision_id provision_type (mqtt_provision device_id device_id password)
        claim_timeout (with_activated device_id device_id password model_id db))

abbrev pub IsSetUp : String → String → String → String → Db → Db → Type 0
IsSetUp device_id password model_id timezone before after =
    (provision_id : String) × (push_id : String) × (after
      ≡ after_set_up provision_id push_id device_id password model_id timezone before)

activate_row-Post :
    (device_id username password model_id : String) (w : World)
    → Post
        (λ _ w'. w'.db ≡ with_activated device_id username password model_id w.db)
        (λ _ _. Unit {0})
        (activate_row device_id username password model_id w)
unfolding activate_row
activate_row-Post device_id username password model_id w =
    Post-call "activate device" (modify_db (with_activated device_id username password model_id)) w
      (λ later.
        returns tt
          (record w {
            faults = later;
            db = with_activated device_id username password model_id w.db;
          })
          refl refl)
      (λ _. tt)

set_up-Post :
    (device_id password model_id timezone : String) (w : World)
    → Post
        (λ _ w'. IsSetUp device_id password model_id timezone w.db w'.db)
        (λ _ _. Unit {0})
        (set_up device_id password model_id timezone w)
unfolding set_up
set_up-Post device_id password model_id timezone w =
    Post-bind (activate_row device_id device_id password model_id w)
      (λ _. do
        insert "enqueue mqtt provision" provision_type (mqtt_provision device_id device_id password)
            claim_timeout
        insert "enqueue config push" config_push_type (device_config_push device_id timezone)
            claim_timeout)
      (activate_row-Post device_id device_id password model_id w)
      (λ _ w1 same1.
        Post-bind
          (insert "enqueue mqtt provision" provision_type
            (mqtt_provision device_id device_id password) claim_timeout w1)
          (λ _.
            insert "enqueue config push" config_push_type (device_config_push device_id timezone)
              claim_timeout)
          (Post-both
            (insert-Post "enqueue mqtt provision" provision_type
              (mqtt_provision device_id device_id password) claim_timeout w1)
            (λ _ _ h. h) (λ _ _ _. tt))
          (λ _ w2 (provision_id, same2).
            Post-both
              (insert-Post "enqueue config push" config_push_type
                (device_config_push device_id timezone) claim_timeout w2)
              (λ _ w3 (push_id, same3). (provision_id, push_id, rw (same3, same2, same1) refl))
              (λ _ _ _. tt)))

-- The time zone of the user's account, or UTC.
abbrev pub IsTimezoneOf : String → Db → String → Type 0
IsTimezoneOf user_id db timezone =
    (timezone ≡ "UTC")
    ⊎ ((a : Account) × (find_first (is_account_of user_id) db.accounts ≡ some a)
        × (timezone ≡ a.timezone))

account-Post :
    (user_id : String) (w : World)
    → Post
        (λ a w'. (find_first (is_account_of user_id) w.db.accounts ≡ some a) × (w'.db ≡ w.db))
        (λ _ w'. w'.db ≡ w.db)
        (find_by_user_id user_id w)
unfolding find_by_user_id
account-Post user_id w =
    Post-call "find account by user id"
      (λ w. (or_error account_not_found (find_first (is_account_of user_id) w.db.accounts), w)) w
      (λ later. go later (find_first (is_account_of user_id) w.db.accounts) refl) (λ _. refl)
  where
    go :
        (later : List Bool) (found : Option Account)
        → find_first (is_account_of user_id) w.db.accounts ≡ found
        → Post
            (λ a w'. (find_first (is_account_of user_id) w.db.accounts ≡ some a) × (w'.db ≡ w.db))
            (λ _ w'. w'.db ≡ w.db)
            (or_error account_not_found found, record w { faults = later })
    go later none e = errs account_not_found (record w { faults = later }) refl refl
    go later (some a) e = returns a (record w { faults = later }) refl (e, refl)

timezone-Post :
    (user_id : String) (w : World)
    → Post
        (λ tz w'. IsTimezoneOf user_id w.db tz × (w'.db ≡ w.db))
        (λ _ w'. w'.db ≡ w.db)
        (timezone_or_utc user_id w)
unfolding timezone_or_utc timezone_read
timezone-Post user_id w = go (find_by_user_id user_id w) (account-Post user_id w)
  where
    go :
        (o : Result Account × World)
        → Post
            (λ a w'. (find_first (is_account_of user_id) w.db.accounts ≡ some a) × (w'.db ≡ w.db))
            (λ _ w'. w'.db ≡ w.db)
            o
        → Post
            (λ tz w'. IsTimezoneOf user_id w.db tz × (w'.db ≡ w.db))
            (λ _ w'. w'.db ≡ w.db)
            (ok (timezone_read o).0, (timezone_read o).1)
    go o (returns a w' e (found, same)) =
        rw e (returns a.timezone w' refl (inr (a, found, refl), same))
    go o (errs x w' e same) = rw e (returns "UTC" w' refl (inl refl, same))

model-Post :
    (c : Config) (w : World)
    → Post
        (λ m w'. (c.default_model ≡ some m) × (w'.db ≡ w.db))
        (λ _ w'. w'.db ≡ w.db)
        (default_model_id c w)
unfolding default_model_id
model-Post c w =
    Post-call "resolve default model"
      (lift (or_error (failed "resolve default model") c.default_model)) w
      (λ later. go later c.default_model refl) (λ _. refl)
  where
    go :
        (later : List Bool) (model : Option String)
        → c.default_model ≡ model
        → Post
            (λ m w'. (c.default_model ≡ some m) × (w'.db ≡ w.db))
            (λ _ w'. w'.db ≡ w.db)
            (or_error (failed "resolve default model") model, record w { faults = later })
    go later none e = errs (failed "resolve default model") (record w { faults = later }) refl refl
    go later (some m) e = returns m (record w { faults = later }) refl (e, refl)

-- What an activation has done for a device whose code is claimed.
abbrev pub Completed : Config → String → String → Db → String × String → Db → Type 0
Completed c device_id user_id before result after =
    (password : String) × (model_id : String) × (timezone : String) × (c.default_model
      ≡ some model_id)
    × IsTimezoneOf user_id before timezone
    × IsSetUp device_id password model_id timezone before after
    × (result ≡ (c.sign device_id user_id, device_id))

-- An error leaves the codes as they are.
abbrev KeepsCodes : Db → Error → World → Type 0
KeepsCodes before e w = w.db.provisioning_codes ≡ before.provisioning_codes

complete_activation-Completed :
    (c : Config) (device_id user_id : String) (w : World)
    → Post
        (λ a w'. Completed c device_id user_id w.db a w'.db)
        (KeepsCodes w.db)
        (complete_activation c device_id user_id w)
unfolding complete_activation
complete_activation-Completed c device_id user_id w =
    Post-bind (timezone_or_utc user_id w)
      (λ timezone. do password ← draw "generate mqtt password"; finish timezone password)
      (Post-both (timezone-Post user_id w) (λ _ _ h. h)
        (λ _ _ same. ap (λ (d : Db). d.provisioning_codes) same))
      (λ timezone w1 (zone, same1).
        Post-bind {Q = λ _ w2. w2.db ≡ w.db} (draw "generate mqtt password" w1) (finish timezone)
          (Post-draw "generate mqtt password" w1 (λ _ _. same1)
            (ap (λ (d : Db). d.provisioning_codes) same1))
          (λ password w2 same2. finished timezone password w2 zone same2))
  where
    signed : Action (String × String)
    signed = do
      token ← call "sign device jwt" (pure (c.sign device_id user_id))
      pure (token, device_id)

    stored : String → String → String → Action (String × String)
    stored timezone password model_id = do
      transaction "begin tx" "commit tx" (set_up device_id password model_id timezone)
      signed

    codes : {db db' : Db} → db' ≡ db → db'.provisioning_codes ≡ db.provisioning_codes
    codes same = ap (λ (d : Db). d.provisioning_codes) same

    finish : String → String → Action (String × String)
    finish timezone password = do model_id ← default_model_id c; stored timezone password model_id

    finished :
        (timezone password : String) (w2 : World)
        → IsTimezoneOf user_id w.db timezone
        → w2.db ≡ w.db
        → Post
            (λ a w'. Completed c device_id user_id w.db a w'.db)
            (KeepsCodes w.db)
            (finish timezone password w2)
    finished timezone password w2 zone same2 =
        Post-bind (default_model_id c w2) (stored timezone password)
          (Post-both (model-Post c w2) (λ _ _ h. h) (λ _ _ same. codes (same ∙ same2)))
          (λ model_id w3 (is_model, same3).
            Post-bind
              (transaction "begin tx" "commit tx" (set_up device_id password model_id timezone) w3)
              (λ _. signed)
              (Post-both
                (Post-transaction (λ _ db. IsSetUp device_id password model_id timezone w3.db db)
                  "begin tx" "commit tx" (set_up device_id password model_id timezone) w3
                  (λ later.
                    set_up-Post device_id password model_id timezone
                      (record w3 { faults = later })))
                (λ _ _ h. h) (λ _ _ same. codes (same ∙ same3 ∙ same2)))
              (λ _ w4 (provision_id, push_id, same4).
                Post-bind {Q = λ token w5. (token ≡ c.sign device_id user_id) × (w5.db ≡ w4.db)}
                  (call "sign device jwt" (pure (c.sign device_id user_id)) w4)
                  (λ token. pure (token, device_id))
                  (Post-call "sign device jwt" (pure (c.sign device_id user_id)) w4
                    (λ later. returns _ _ refl (refl, refl))
                    (λ later. ap (λ (d : Db). d.provisioning_codes) same4 ∙ codes (same3 ∙ same2)))
                  (λ token w5 (is_token, same5).
                    returns (token, device_id) w5 refl
                      (
                        password,
                        model_id,
                        timezone,
                        is_model,
                        zone,
                        (
                          provision_id,
                          push_id,
                          same5
                              ∙ same4
                              ∙ ap
                                  (after_set_up provision_id push_id device_id password model_id
                                    timezone)
                                  (same3 ∙ same2),
                        ),
                        ap (λ t. (t, device_id)) is_token,
                      ))))

-- The database after the claim, and what the rest of the activation has done to it.
abbrev pub Activated : Config → ℕ → String → Db → String × String → Db → Type 0
Activated c now code before result after =
    (device_id : String) × (user_id : String) × (claimed : Db) × Claimed c now code before
      (device_id, user_id) claimed
    × Completed c device_id user_id claimed result after

activate-Post :
    (c : Config) (code : String) (w : World)
    → Post
        (λ a w'. Activated c w.now code w.db a w'.db)
        (λ _ w'. (w'.db ≡ w.db) ⊎ IsSpent code w'.db)
        (activate c code w)
unfolding activate
activate-Post c code w =
    Post-bind (claim_code c code w) (λ claimed. complete_activation c claimed.0 claimed.1)
      (Post-both (claim_code-Claimed c code w) (λ _ _ h. h) (λ _ _ same. inl same))
      (λ claimed w1 is_claimed.
        Post-both (complete_activation-Completed c claimed.0 claimed.1 w1)
          (λ a w2 done. (claimed.0, claimed.1, w1.db, is_claimed, done))
          (λ _ w2 kept.
            let (r, found, spent) = Claimed-IsSpent c w.now code w.db claimed w1.db is_claimed in
            inr (r, ap (find_first (is_code code)) kept ∙ found, spent)))

-- For every configuration, code and state: if activate returns, an unused row of the code was
-- claimed for a new device of the row's user; the device's row then holds its id as the user name,
-- a password and the default model; the outbox has a mqtt.provision_device event with the same
-- credentials and a device.config_push event with the time zone of the user's account, or UTC,
-- behind the others; and the result is the token that is signed for the device and its user, with
-- the device's id.
pub activate-Activated :
    (c : Config) (code : String) (w w' : World) (result : String × String)
    → activate c code w ≡ (ok result, w')
    → Activated c w.now code w.db result w'.db
activate-Activated c code w w' result e =
    subst (λ (t : Result (String × String) × World). Activated c w.now code w.db result t.1.db) e
      (Post-ok (activate-Post c code w) (ap (λ t. t.0) e))

-- For every configuration, code and state: if activate returns an error, the database is the old
-- one or the code is burnt: a call of activate with the same code that meets no fault then answers
-- code_already_used, and changes nothing.
pub activate_burns :
    (c : Config) (code : String) (w w' : World) (x : Error)
    → activate c code w ≡ (err x, w')
    → (w'.db ≡ w.db)
      ⊎ (activate c code (record w' { faults = [] })
          ≡ (err code_already_used, record w' { faults = [] }))
unfolding activate
activate_burns c code w w' x e = go after
  where
    after : (w'.db ≡ w.db) ⊎ IsSpent code w'.db
    after =
        subst (λ (t : Result (String × String) × World). (t.1.db ≡ w.db) ⊎ IsSpent code t.1.db) e
          (Post-err (activate-Post c code w) (ap (λ t. t.0) e))

    go :
        (w'.db ≡ w.db) ⊎ IsSpent code w'.db
        → (w'.db ≡ w.db)
          ⊎ (activate c code (record w' { faults = [] })
              ≡ (err code_already_used, record w' { faults = [] }))
    go (inl same) = inl same
    go (inr spent) = inr (rw (claim_code-spent c code w' spent) refl)

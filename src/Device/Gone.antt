-- ===== src/Device/Gone.antt =====
-- What is left of a device that was deleted (internal/device/service.go and store.go), for its user, for
-- the device itself and for the readings that it publishes.
use fishhub_server.Prelude.{
  ℕ, String, ◌==◌, ◌&&◌, ◌≡◌, refl, ap, ◌∙◌, Bool, Bool-cases, inl, inr, not, false, Option, none,
  some, List, [], ◌∷◌, any, find_first, find_first-none, update_where, arith, eq_refl,
}
use mathlib.Core.Path.{subst}
use fishhub_server.Schema.{Device}
use fishhub_server.World.{Result, ok, err, device_not_found, World, Action, respond, call}
use fishhub_server.World.Post.{Post, returns, errs, Post-bind, Post-call, Post-ok}
use fishhub_server.Text.{device_id_from_topic}
use fishhub_server.Senml.{SenmlRecord}
use fishhub_server.Measurements.Influx.{InfluxClient}
use fishhub_server.Measurements.{write_found, handle}
use fishhub_server.Device.{
  is_owned, is_live, find_by_id_and_user_id, find_by_id, delete_found, delete_device, delete,
  patch_device, get_activation_status, activation_status_handler,
}

-- A row with the id that another user owns.
abbrev pub is_foreign : String → String → Device → Bool
is_foreign device_id user_id d = d.id == device_id && not (d.user_id == user_id)

module _ (device_id user_id : String) (now : ℕ) where
  abbrev marked : List Device → List Device
  marked ds =
      update_where (is_owned device_id user_id) (λ (x : Device). record x { deleted_at = some now })
        ds

  marked-not_owned : (ds : List Device) → any (is_owned device_id user_id) (marked ds) ≡ false
  unfolding any update_where
  marked-not_owned [] = refl
  marked-not_owned (d ∷ ds) = elim (Bool-cases (is_owned device_id user_id d)) [
    | inl mine ↦ rw mine (ground (arith, marked-not_owned ds))
    | inr other ↦ rw (other, other) (marked-not_owned ds)
  ]

  marked-not_live :
      (ds : List Device)
      → any (is_foreign device_id user_id) ds ≡ false
      → any (is_live device_id) (marked ds) ≡ false
  unfolding any update_where
  marked-not_live [] h = refl
  marked-not_live (d ∷ ds) h = elim (Bool-cases (is_owned device_id user_id d)) [
    | inl mine ↦ rw mine (ground (arith, marked-not_live ds))
    | inr other ↦ rw other (ground (arith, marked-not_live ds))
  ]

module _ (provisioner_delete : String → Action (Unit {0})) (device_id user_id : String)
    (w w' : World)
    (keeps : (username : String) (v : World)
      → (provisioner_delete username v).1.db.devices ≡ v.db.devices)
    (deleted : delete provisioner_delete device_id user_id w ≡ (ok tt, w')) where
  abbrev IsMarked : World → Type 0
  IsMarked v = v.db.devices ≡ marked device_id user_id w.now w.db.devices

  delete_device-Post :
      Post (λ _ v. IsMarked v) (λ _ _. Unit {0}) (delete_device device_id user_id w)
  unfolding delete_device
  delete_device-Post =
      Post-call "delete device"
        (λ v.
          delete_found device_id user_id (find_first (is_owned device_id user_id) v.db.devices) v)
        w (λ later. go (find_first (is_owned device_id user_id) w.db.devices) later) (λ _. tt)
    where
      go :
          (o : Option Device) (later : List Bool)
          → Post
              (λ _ v. IsMarked v)
              (λ _ _. Unit {0})
              (delete_found device_id user_id o (record w { faults = later }))
      go none later = errs _ _ refl tt
      go (some d) later = returns _ _ refl refl

  delete-Post :
      Post (λ _ v. IsMarked v) (λ _ _. Unit {0}) (delete provisioner_delete device_id user_id w)
  unfolding delete
  delete-Post = Post-bind (delete_device device_id user_id w) _ delete_device-Post (λ username v is.
      elim (Bool-cases (username == "")) [
        | inl none_there ↦ rw none_there (returns tt v refl is)
        | inr some_there ↦ rw some_there (returns tt _ refl (keeps username v ∙ is))
      ])

  is_marked : IsMarked w'
  is_marked =
      subst (λ (o : Result (Unit {0}) × World). IsMarked o.1) deleted
        (Post-ok delete-Post (ap (λ o. o.0) deleted))

  not_owned : find_first (is_owned device_id user_id) w'.db.devices ≡ none
  not_owned = find_first-none (is_owned device_id user_id) w'.db.devices (
      ap (any (is_owned device_id user_id)) is_marked
      ∙ marked-not_owned device_id user_id w.now w.db.devices)

  not_live :
      any (is_foreign device_id user_id) w.db.devices ≡ false
      → find_first (is_live device_id) w'.db.devices ≡ none
  not_live own = find_first-none (is_live device_id) w'.db.devices (
      ap (any (is_live device_id)) is_marked
      ∙ marked-not_live device_id user_id w.now w.db.devices own)

  find_by_id-gone :
      any (is_foreign device_id user_id) w.db.devices ≡ false
      → find_by_id device_id (record w' { faults = [] })
        ≡ (err device_not_found, record w' { faults = [] })
  unfolding find_by_id call
  find_by_id-gone own = rw (not_live own) refl

  find_by_id_and_user_id-gone :
      find_by_id_and_user_id device_id user_id (record w' { faults = [] })
      ≡ (err device_not_found, record w' { faults = [] })
  unfolding find_by_id_and_user_id call
  find_by_id_and_user_id-gone = rw not_owned refl

  patch_device-gone :
      (name : String)
      → patch_device device_id user_id name (record w' { faults = [] })
        ≡ (err device_not_found, record w' { faults = [] })
  unfolding patch_device call
  patch_device-gone name = rw not_owned refl

  activation_status_handler-gone :
      any (is_foreign device_id user_id) w.db.devices ≡ false
      → activation_status_handler (some device_id) device_id (record w' { faults = [] })
        ≡ respond 404 "device_not_found"
  unfolding activation_status_handler get_activation_status call
  activation_status_handler-gone own = rw (eq_refl device_id, not_live own) refl

  -- If every row with the id of a device is its user's, and the client of the broker leaves the table
  -- of devices alone: in the state in which Delete has returned, and where no call fails, the user
  -- finds the device no more and can rename it no more, a request for its status is answered with
  -- 404 even with the token of the device, and a message on its topic of readings changes nothing.
  pub delete-Gone :
      (name topic payload : String) (influx : Option InfluxClient)
      (unmarshal : String → Option (List SenmlRecord))
      → any (is_foreign device_id user_id) w.db.devices ≡ false
      → device_id_from_topic "readings" topic ≡ some device_id
      → (find_by_id_and_user_id device_id user_id (record w' { faults = [] })
          ≡ (err device_not_found, record w' { faults = [] }))
        × (patch_device device_id user_id name (record w' { faults = [] })
            ≡ (err device_not_found, record w' { faults = [] }))
        × (activation_status_handler (some device_id) device_id (record w' { faults = [] })
            ≡ respond 404 "device_not_found")
        × (handle influx unmarshal topic payload (record w' { faults = [] })
            ≡ record w' { faults = [] })
  unfolding handle
  delete-Gone name topic payload influx unmarshal own from_device = (
    find_by_id_and_user_id-gone,
    patch_device-gone name,
    activation_status_handler-gone own,
    rw from_device (ap (write_found influx (unmarshal payload)) (find_by_id-gone own)),
  )

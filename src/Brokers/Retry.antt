-- ===== src/Brokers/Retry.antt =====
-- A device whose credentials are tried again (internal/provisioning/outbox_processor.go with
-- internal/hivemq/client.go).
use Prim.Native.String
use fishhub_server.Prelude.{ℕ, String, ◌≡◌, refl, ap, Bool-cases, inl, inr, true, false, [], leb}
use fishhub_server.World.{Result, ok, err, failed, World}
use fishhub_server.Text.{contains}
use fishhub_server.Peripherals.Pushes.{decimal}
use fishhub_server.Schema.{Event}
use fishhub_server.Provisioning.{provision_fields, unless_exists, provision_device}
use fishhub_server.Brokers.{Send, request}
use fishhub_server.Brokers.Hivemq.{
  credentials_path, credential_path, role_path, credentials_body, provision,
}

-- The error of a role that could not be attached, for the status of the broker's answer.
abbrev pub not_attached : ℕ → String
not_attached status =
    String.◌++◌ "hivemq: attach role"
      (String.◌++◌ ": " (String.◌++◌ "unexpected status " (decimal status)))

module _ (send : Send) (role username password : String) (event : Event) where
  conflict :
      (w w' : World)
      → provision_fields event.payload ≡ (username, password)
      → send "POST" credentials_path (credentials_body username password) w ≡ (ok 409, w')
      → provision_device (provision send role) event w ≡ (ok tt, w')
  unfolding provision_device unless_exists provision request contains
  conflict w w' fields posts = rw (fields, posts) refl

  deleted_state :
      (w2 w3 : World) (r : Result ℕ)
      → send "DELETE" (credential_path username) [] w2 ≡ (r, w3)
      → (request send "DELETE" (credential_path username) [] w2).1 ≡ w3
  unfolding request
  deleted_state w2 w3 (err e) deletes = rw deletes refl
  deleted_state w2 w3 (ok n) deletes = elim (Bool-cases (leb 300 n)) [
    | inl refused ↦ rw (deletes, refused) refl
    | inr fine ↦ rw (deletes, fine) refl
  ]

  rolled_back :
      (status created : ℕ) (w w1 w2 w3 : World) (r : Result ℕ)
      → provision_fields event.payload ≡ (username, password)
      → leb 300 created ≡ false
      → leb 300 status ≡ true
      → contains (not_attached status) "409" ≡ false
      → send "POST" credentials_path (credentials_body username password) w ≡ (ok created, w1)
      → send "PUT" (role_path role username "attach") [] w1 ≡ (ok status, w2)
      → send "DELETE" (credential_path username) [] w2 ≡ (r, w3)
      → provision_device (provision send role) event w ≡ (err (failed (not_attached status)), w3)
  unfolding provision_device unless_exists provision request
  rolled_back status created w w1 w2 w3 r fields fine refused other posts puts deletes =
      rw (fields, posts, fine, puts, refused, other)
        (ap (λ v. (err (failed (not_attached status)), v)) (deleted_state w2 w3 r deletes))

  -- Where HiveMQ creates the credential of a device and then refuses to attach its role, with a
  -- status whose error does not contain 409: the event fails, whatever the deletion of the
  -- credential gives. If the broker then answers a second attempt with 409, since the credential is
  -- still there, the event succeeds with that one request, which attaches no role.
  pub provision_device_unattached :
      (status created : ℕ) (w w1 w2 w3 w4 : World) (r : Result ℕ)
      → provision_fields event.payload ≡ (username, password)
      → leb 300 created ≡ false
      → leb 300 status ≡ true
      → contains (not_attached status) "409" ≡ false
      → send "POST" credentials_path (credentials_body username password) w ≡ (ok created, w1)
      → send "PUT" (role_path role username "attach") [] w1 ≡ (ok status, w2)
      → send "DELETE" (credential_path username) [] w2 ≡ (r, w3)
      → send "POST" credentials_path (credentials_body username password) w3 ≡ (ok 409, w4)
      → (provision_device (provision send role) event w ≡ (err (failed (not_attached status)), w3))
        × (provision_device (provision send role) event w3 ≡ (ok tt, w4))
  provision_device_unattached status created w w1 w2 w3 w4 r fields fine refused other posts puts
        deletes again =
      (
        rolled_back status created w w1 w2 w3 r fields fine refused other posts puts deletes,
        conflict w3 w4 fields again,
      )

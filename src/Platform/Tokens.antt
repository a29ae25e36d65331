-- ===== src/Platform/Tokens.antt =====
-- The token that an activation returns, and the middleware that reads it back
-- (internal/provisioning/activation.go, internal/devicejwt/devicejwt.go,
-- internal/platform/middleware.go).
use Prim.Native.String
use Prim.Native.String.append
use fishhub_server.Prelude.{ℕ, String, ◌==◌, ◌≡◌, refl, sym, ap, ◌∙◌, inr, false, some, find_first}
use fishhub_server.Schema.{ProvisioningCode}
use fishhub_server.World.{World, ok, respond}
use fishhub_server.Text.{cut_at, trim_space}
use fishhub_server.DeviceJwt.{DeviceSigner, device_claims, sign_device, text_claim}
use fishhub_server.Device.{activation_status_handler}
use fishhub_server.Provisioning.{Config, is_unused, activate}
use fishhub_server.Provisioning.Activate.{Activated, activate-Activated}
use fishhub_server.Platform.{
  equal_fold, bearer_token, with_signer, device_authenticator, status_from, status_route,
}

abbrev pub bearer : String → String
bearer token = String.◌++◌ "Bearer " token

bearer-spelled :
    (t : String)
    → bearer t
      ≡ String.◌∷◌ "B" (
          String.◌∷◌ "e"
            (String.◌∷◌ "a" (String.◌∷◌ "r" (String.◌∷◌ "e" (String.◌∷◌ "r" (String.◌∷◌ " " t))))))
bearer-spelled t =
    append.cons "B" "earer " t
    ∙ ap (String.◌∷◌ "B") (
        append.cons "e" "arer " t
        ∙ ap (String.◌∷◌ "e") (
            append.cons "a" "rer " t
            ∙ ap (String.◌∷◌ "a") (
                append.cons "r" "er " t
                ∙ ap (String.◌∷◌ "r") (
                    append.cons "e" "r " t
                    ∙ ap (String.◌∷◌ "e") (
                        append.cons "r" " " t
                        ∙ ap (String.◌∷◌ "r")
                            (append.cons " " "" t ∙ ap (String.◌∷◌ " ") (append.nil t)))))))

bearer_token-bearer : (t : String) → bearer_token (bearer t) ≡ trim_space t
unfolding bearer_token cut_at equal_fold
bearer_token-bearer t = ap bearer_token (bearer-spelled t) ∙ refl

device_authenticator-bearer :
    (s : DeviceSigner) (device_id user_id token : String)
    → trim_space token ≡ token
    → (token == "") ≡ false
    → with_signer (some s) token ≡ inr (record { device_id = device_id; user_id = user_id })
    → device_authenticator (some s) (bearer token)
      ≡ inr (record { device_id = device_id; user_id = user_id })
unfolding device_authenticator
device_authenticator-bearer s device_id user_id token plain written is =
    rw (bearer_token-bearer token, plain, written) is

with_signer-sign_device :
    (s : DeviceSigner) (device_id user_id : String) (now : ℕ)
    → s.parse (s.sign (device_claims s device_id user_id now))
      ≡ some (device_claims s device_id user_id now)
    → (device_id == "") ≡ false
    → (user_id == "") ≡ false
    → with_signer (some s) (sign_device (some s) device_id user_id now)
      ≡ inr (record { device_id = device_id; user_id = user_id })
unfolding sign_device text_claim
with_signer-sign_device s device_id user_id now reads a b = rw (reads, a, b) refl

other_device :
    (device_id user_id other : String) (v : World)
    → (other == device_id) ≡ false
    → status_from (inr (record { device_id = device_id; user_id = user_id })) other v
      ≡ respond 403 "forbidden"
unfolding activation_status_handler
other_device device_id user_id other v differs = rw differs refl

module _ (s : DeviceSigner) (c : Config) (issued : ℕ) (code : String) (w w' : World)
    (result : String × String)
    (reads : (d u : String)
      → s.parse (s.sign (device_claims s d u issued)) ≡ some (device_claims s d u issued))
    (plain : (d u : String)
      → trim_space (sign_device (some s) d u issued) ≡ sign_device (some s) d u issued)
    (written : (d u : String) → (sign_device (some s) d u issued == "") ≡ false)
    (signs : (d u : String) → c.sign d u ≡ sign_device (some s) d u issued)
    (owned : (r : ProvisioningCode)
      → find_first (is_unused code) w.db.provisioning_codes ≡ some r
      → (r.user_id == "") ≡ false) where
  -- Where the signer's tokens are read back, and are not empty and without spaces around them: the
  -- token that an activation returns, sent in a header Authorization with the scheme Bearer, is let
  -- through as the device with the id that was returned and as the user of the code; and it is
  -- forbidden to ask for the status of another device with it.
  pub activate-device_authenticator :
      (other : String) (v : World)
      → activate c code w ≡ (ok result, w')
      → (result.1 == "") ≡ false
      → (other == result.1) ≡ false
      → (r : ProvisioningCode) × (find_first (is_unused code) w.db.provisioning_codes ≡ some r)
        × (device_authenticator (some s) (bearer result.0)
            ≡ inr (record { device_id = result.1; user_id = r.user_id }))
        × (status_route (some s) (bearer result.0) other v ≡ respond 403 "forbidden")
  unfolding status_route
  activate-device_authenticator other v e some_id differs =
      go (activate-Activated c code w w' result e)
    where
      go :
          Activated c w.now code w.db result w'.db
          → (r : ProvisioningCode) × (find_first (is_unused code) w.db.provisioning_codes ≡ some r)
            × (device_authenticator (some s) (bearer result.0)
                ≡ inr (record { device_id = result.1; user_id = r.user_id }))
            × (status_route (some s) (bearer result.0) other v ≡ respond 403 "forbidden")
      go
            (
              device_id,
              user_id,
              claimed,
              (r, default_model, is_code, is_default, user, db),
              (password, model_id, timezone, is_model, zone, set, is_result),
            ) =
          let id : result.1 ≡ device_id = ap (λ (t : String × String). t.1) is_result in
          let is_token : result.0 ≡ sign_device (some s) device_id user_id issued =
            ap (λ (t : String × String). t.0) is_result ∙ signs device_id user_id in
          let passes : device_authenticator (some s) (bearer result.0)
              ≡ inr (record { device_id = result.1; user_id = r.user_id }) =
            ap (λ t. device_authenticator (some s) (bearer t)) is_token
            ∙ device_authenticator-bearer s device_id user_id
                (sign_device (some s) device_id user_id issued) (plain device_id user_id)
                (written device_id user_id)
                (with_signer-sign_device s device_id user_id issued (reads device_id user_id)
                  (ap (λ t. t == "") (sym id) ∙ some_id) (ap (λ t. t == "") user ∙ owned r is_code))
            ∙ ap (λ d. inr (record { device_id = d; user_id = user_id })) (sym id)
            ∙ ap (λ u. inr (record { device_id = result.1; user_id = u })) user in
          (
            r,
            is_code,
            passes,
            ap (λ o. status_from o other v) passes
                ∙ other_device result.1 r.user_id other v differs,
          )

-- ===== src/DeviceJwt.antt =====
-- Tokens of devices: internal/devicejwt/devicejwt.go. The signer of internal/jwtutil and jwt.Parse are
-- parameters.
use fishhub_server.Prelude.{ℕ, ◌+◌, String, ◌==◌, Option, none, some, List, [], ◌∷◌, if◌then◌else◌}
use fishhub_server.Schema.{JsonValue, json_text, json_other}

-- A signer that has a key: the issuer, jwtutil.Signer.Sign, and jwt.Parse with the public key and
-- RS256, none for a token that it refuses. A number is the text of its JSON.
pub record DeviceSigner : Type 0 where
  pub issuer : String
  pub sign : List (String × JsonValue) → String
  pub parse : String → Option (List (String × JsonValue))
  pub decimal : ℕ → String

-- ten years of 365 days
abbrev pub device_token_ttl : ℕ
device_token_ttl = 315_360_000

-- The claims of deviceSigner.Sign
abbrev pub device_claims : DeviceSigner → String → String → ℕ → List (String × JsonValue)
device_claims s device_id user_id now =
    ("iss", json_text s.issuer)
    ∷ ("sub", json_text device_id)
    ∷ ("user_id", json_text user_id)
    ∷ ("iat", json_other (s.decimal now))
    ∷ ("exp", json_other (s.decimal (now + device_token_ttl)))
    ∷ []

-- deviceSigner.Sign, where none is the signer without a key
unfoldable pub sign_device : Option DeviceSigner → String → String → ℕ → String
sign_device none device_id user_id now = ""
sign_device (some s) device_id user_id now = s.sign (device_claims s device_id user_id now)

-- claims[key].(string), empty for a claim that is missing or no text
unfoldable pub text_claim : String → List (String × JsonValue) → String
text_claim key [] = ""
text_claim key ((k, json_text t) ∷ rest) =
    let later = text_claim key rest in if k == key then t else later
text_claim key ((k, v) ∷ rest) = let later = text_claim key rest in if k == key then "" else later

-- ===== src/Platform.antt =====
-- The middleware in front of the handlers: internal/platform/middleware.go. A request is what it has
-- of a header Authorization, and of a cookie session. The log and the duration are left out.
pub mod Tokens
use Prim.Native.Char.{code}
use fishhub_server.Prelude.{
  ℕ, ◌+◌, String, ◌==◌, ◌&&◌, ◌||◌, Bool, true, false, Option, none, some, List, if◌then◌else◌, leb,
  eqb, ◌⊎◌, inl, inr,
}
use fishhub_server.Schema.{JsonValue}
use fishhub_server.World.{Result, ok, err, World, Response, respond}
use fishhub_server.Text.{cut_at, trim_space}
use fishhub_server.DeviceJwt.{DeviceSigner, text_claim}
use fishhub_server.Device.{activation_status_handler}
use fishhub_server.Auth.{Config, validate_session_jwt}

abbrev pub is_blank : ℕ → Bool
is_blank c = eqb c 32

abbrev pub fold_case : ℕ → ℕ
fold_case c = if leb 65 c && leb c 90 then c + 32 else c

-- strings.EqualFold with a text of the letters a to z but k and s, which no other letter folds to.
unfoldable pub equal_fold : String → String → Bool
equal_fold String.[] String.[] = true
equal_fold String.[] (String.◌∷◌ d t) = false
equal_fold (String.◌∷◌ c s) String.[] = false
equal_fold (String.◌∷◌ c s) (String.◌∷◌ d t) = eqb (fold_case (code c)) (code d) && equal_fold s t

abbrev pub bearer_of : Option (String × String) → String
bearer_of none = ""
bearer_of (some (scheme, token)) = if equal_fold scheme "bearer" then trim_space token else ""

-- bearerToken, of the header Authorization
unfoldable pub bearer_token : String → String
unfolding cut_at equal_fold trim_space
bearer_token header = bearer_of (cut_at is_blank header)

-- device.Info
pub record DeviceInfo : Type 0 where
  pub device_id : String
  pub user_id : String

abbrev pub unauthorized : {A : Type 0} → Response ⊎ A
unauthorized = inl (respond 401 "unauthorized")

abbrev pub info_of : String → String → Response ⊎ DeviceInfo
info_of device_id user_id =
    if device_id == "" || user_id == ""
    then unauthorized
    else inr (record { device_id = device_id; user_id = user_id })

abbrev pub with_claims : Option (List (String × JsonValue)) → Response ⊎ DeviceInfo
with_claims none = unauthorized
with_claims (some claims) = info_of (text_claim "sub" claims) (text_claim "user_id" claims)

abbrev pub with_signer : Option DeviceSigner → String → Response ⊎ DeviceInfo
with_signer none raw = unauthorized
with_signer (some s) raw = with_claims (s.parse raw)

-- DeviceAuthenticator: the answer, or what the next handler finds in the context.
unfoldable pub device_authenticator : Option DeviceSigner → String → Response ⊎ DeviceInfo
unfolding bearer_token text_claim
device_authenticator signer header =
    let raw = bearer_token header in if raw == "" then unauthorized else with_signer signer raw

-- The cookie, where there is no token in the header.
abbrev pub session_token : String → Option String → String
session_token header none = bearer_token header
session_token header (some cookie) =
    let token = bearer_token header in if token == "" then cookie else token

abbrev pub as_user : Result String → Response ⊎ String
as_user (ok user_id) = inr user_id
as_user (err _) = unauthorized

-- SessionAuthenticator: the answer, or the user of the claims in the context.
unfoldable pub session_authenticator : Config → String → Option String → Response ⊎ String
session_authenticator c header cookie =
    let token = session_token header cookie in
    if token == "" then unauthorized else as_user (validate_session_jwt c token)

abbrev pub status_from : Response ⊎ DeviceInfo → String → World → Response
status_from (inl r) device_id w = r
status_from (inr info) device_id w = activation_status_handler (some info.device_id) device_id w

-- The route GET /devices/{id}/status of main.go, behind DeviceAuthenticator.
unfoldable pub status_route : Option DeviceSigner → String → String → World → Response
status_route signer header device_id w =
    status_from (device_authenticator signer header) device_id w

-- ===== src/Tests/TokenRuns.antt =====
-- A device that shows the token of its activation.
use Prim.Native.String.compare
use text.Mathlib.Text.{is_eq}
use fishhub_server.Prelude.{
  String, ◌==◌, ◌≡◌, refl, sym, ap, ◌∙◌, inr, Bool, ◌&&◌, false, true, Option, none, some, List, [],
  ◌∷◌, if◌then◌else◌, find_first,
}
use fishhub_server.Schema.{JsonValue, ProvisioningCode, json_text, json_other}
use fishhub_server.World.{World, ok, respond, draw, transaction}
use fishhub_server.Outbox.{insert}
use fishhub_server.Text.{trim_left, trim_right, trim_space}
use fishhub_server.Account.{timezone_or_utc, find_by_user_id, timezone_read}
use fishhub_server.DeviceJwt.{DeviceSigner, device_claims, sign_device, text_claim}
use fishhub_server.Provisioning.{
  Config, is_unused, claim_code, lookup_code, lock_code, mark_code, claim_locked, activate_row,
  set_up, default_model_id, complete_activation, activate,
}
use fishhub_server.Platform.{device_authenticator, status_route}
use fishhub_server.Platform.Tokens.{bearer, activate-device_authenticator}
use fishhub_server.Tests.Worlds.{start}

-- A text with its end marked.
spell : String → String → String
spell String.[] rest = String.◌∷◌ "e" rest
spell (String.◌∷◌ c s) rest = String.◌∷◌ "c" (String.◌∷◌ c (spell s rest))

abbrev pairs : (String → String) → Option (String × String) → Option (String × String)
pairs f none = none
pairs f (some (s, rest)) = some (f s, rest)

read_one : String → Option (String × String)
read_one String.[] = none
read_one (String.◌∷◌ c String.[]) = if String.◌∷◌ c "" == "e" then some ("", "") else none
read_one (String.◌∷◌ c (String.◌∷◌ d s)) =
    let later = read_one s in
    if String.◌∷◌ c "" == "e" then some ("", String.◌∷◌ d s) else pairs (λ t. String.◌∷◌ d t) later

read_one-spell : (s rest : String) → read_one (spell s rest) ≡ some (s, rest)
unfolding read_one spell
read_one-spell String.[] String.[] = refl
read_one-spell String.[] (String.◌∷◌ d rest) = refl
read_one-spell (String.◌∷◌ c s) rest = ap (pairs (λ t. String.◌∷◌ c t)) (read_one-spell s rest)

spell-written : (s rest : String) → (spell s rest == "") ≡ false
unfolding spell
spell-written String.[] rest = ap is_eq (compare.cons-nil "e" rest)
spell-written (String.◌∷◌ c s) rest = ap is_eq (compare.cons-nil "c" (String.◌∷◌ c (spell s rest)))

and_false : (b : Bool) → (b && false) ≡ false
and_false true = refl
and_false false = refl

trim_right-spell :
    (s rest : String) → trim_right rest ≡ rest → trim_right (spell s rest) ≡ spell s rest
unfolding spell trim_right
trim_right-spell String.[] rest h = rw (and_false (trim_right rest == "")) (ap (String.◌∷◌ "e") h)
trim_right-spell (String.◌∷◌ c s) rest h =
    rw
      (
        trim_right-spell s rest h,
        spell-written s rest,
        and_false (String.◌∷◌ c (spell s rest) == ""),
      )
      refl

trim_left-spell : (s rest : String) → trim_left (spell s rest) ≡ spell s rest
unfolding spell trim_left
trim_left-spell String.[] rest = refl
trim_left-spell (String.◌∷◌ c s) rest = refl

trim_space-spell : (s t : String) → trim_space (spell s (spell t "")) ≡ spell s (spell t "")
unfolding trim_space
trim_space-spell s t =
    ap trim_right (trim_left-spell s (spell t ""))
    ∙ trim_right-spell s (spell t "") (trim_right-spell t "" empty)
  where
    empty : trim_right "" ≡ ""
    empty = refl

abbrev claims_of : String → Option (String × String) → Option (List (String × JsonValue))
claims_of d none = none
claims_of d (some (u, _)) = some (
    ("iss", json_text "i")
    ∷ ("sub", json_text d)
    ∷ ("user_id", json_text u)
    ∷ ("iat", json_other "")
    ∷ ("exp", json_other "")
    ∷ [])

abbrev read_two : Option (String × String) → Option (List (String × JsonValue))
read_two none = none
read_two (some (d, rest)) = claims_of d (read_one rest)

abbrev token_is_read : String → Option (List (String × JsonValue))
token_is_read token = read_two (read_one token)

abbrev signer : DeviceSigner
signer = record {
  issuer = "i";
  sign = λ claims. spell (text_claim "sub" claims) (spell (text_claim "user_id" claims) "");
  parse = token_is_read;
  decimal = λ n. "";
}

reads_back :
    (d u : String)
    → signer.parse (signer.sign (device_claims signer d u 900))
      ≡ some (device_claims signer d u 900)
unfolding text_claim
reads_back d u =
    ap read_two (read_one-spell d (spell u "")) ∙ ap (claims_of d) (read_one-spell u "")

abbrev config : Config
config = record { default_model = some "m1"; sign = λ d u. sign_device (some signer) d u 900 }

abbrev activated : World
activated = (activate config "ABC123" start).1

abbrev token : String
token = sign_device (some signer) "s1" "u1" 900

activates : activate config "ABC123" start ≡ (ok (token, "s1"), activated)
unfolding activate claim_code lookup_code lock_code mark_code claim_locked complete_activation
    timezone_or_utc find_by_user_id timezone_read default_model_id set_up activate_row insert draw
    transaction
activates = refl

has_user :
    (r : ProvisioningCode)
    → find_first (is_unused "ABC123") start.db.provisioning_codes ≡ some r
    → (r.user_id == "") ≡ false
unfolding find_first
has_user r e = ap (λ (o : Option ProvisioningCode). no_user o) (sym e)
  where
    no_user : Option ProvisioningCode → Bool
    no_user none = false
    no_user (some r) = r.user_id == ""

activate-device_authenticator_example :
    (r : ProvisioningCode) × (find_first (is_unused "ABC123") start.db.provisioning_codes ≡ some r)
    × (device_authenticator (some signer) (bearer token)
        ≡ inr (record { device_id = "s1"; user_id = r.user_id }))
    × (status_route (some signer) (bearer token) "d1" activated ≡ respond 403 "forbidden")
unfolding sign_device text_claim
activate-device_authenticator_example =
    activate-device_authenticator signer config 900 "ABC123" start activated (token, "s1")
      reads_back (λ d u. trim_space-spell d u) (λ d u. spell-written d (spell u "")) (λ d u. refl)
      has_user "d1" activated activates refl refl

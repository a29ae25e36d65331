-- ===== src/Auth.antt =====
-- Sign-in and sessions: internal/auth/service.go, with the handler of internal/account/events.go
-- that keeps an account for every user. The identity providers, the token signer, the parser of
-- JSON web tokens and the hash (SHA-256, in hexadecimal) are parameters.
pub mod Github
pub mod Vouched
pub mod Store
pub mod Rotation
pub mod Handlers
use fishhub_server.Prelude.{
  ℕ, ◌+◌, ◌*◌, String, ◌==◌, Bool, Option, none, some, ltb, is_none, if◌then◌else◌,
}
use fishhub_server.Schema.{User, RefreshToken}
use fishhub_server.World.{
  Error, failed, unsupported_provider, invalid_id_token, provider_conflict, email_taken,
  token_expired, token_revoked, Result, ok, err, World, Action, pure, raise, lift, call, draw,
  ◌>>=◌, ◌>>◌,
}
use Store.{upsert, create, find_by_hash, revoke}

pub record Identity : Type 0 where
  pub email : String
  pub sub : String
  pub name : String

-- OIDCConfig, and the libraries that the service calls.
pub record Config : Type 0 where
  -- IDTokenVerifier.Verify of a provider that is configured, none for a token that it refuses, and
  -- IDToken.Claims of the token, none for claims that cannot be read
  pub verifier : String → Option (String → Option (Option Identity))
  pub github_fetch : Option (String → Action Identity)
  -- UserEventHandler.OnUserVerified: user id, email, display name
  pub on_user_verified : Option (String → String → String → Action (Unit {0}))
  -- Signer.Sign over sub, iat, exp
  pub sign : String → ℕ → ℕ → String
  -- jwt.Parse with the signer's key and RS256: the claim sub of a valid token, if it is a string
  pub parse : String → Option String
  pub hash : String → String
  pub jwt_ttl : ℕ

-- 30 days
abbrev pub refresh_token_ttl : ℕ
refresh_token_ttl = 2592000

as_conflict : Result User × World → Result User × World
as_conflict (ok u, w) = (ok u, w)
as_conflict (err email_taken, w) = (err provider_conflict, w)
as_conflict (err e, w) = (err e, w)

-- name, or the address where there is none
abbrev pub display_name : String → String → String
display_name name email = if name == "" then email else name

notify : Option (String → String → String → Action (Unit {0})) → User → String → Action User
notify none user shown = pure user
notify (some on_user_verified) user shown = do on_user_verified user.id user.email shown; pure user

-- oidcService.upsertAndNotify
unfoldable pub upsert_and_notify : Config → String → String → String → String → Action User
unfolding as_conflict notify
upsert_and_notify c provider email name sub = do
  user ← (λ w. as_conflict (upsert email provider sub w))
  notify c.on_user_verified user (display_name name email)

verified : Option (Option Identity) → Result Identity
verified none = err invalid_id_token
verified (some none) = err (failed "extract claims")
verified (some (some i)) = ok i

verify_with : Option (String → Option (Option Identity)) → String → Result Identity
unfolding verified
verify_with none raw = err unsupported_provider
verify_with (some verify) raw = verified (verify raw)

-- oidcService.verifyOIDC
unfoldable pub verify_oidc : Config → String → String → Action User
unfolding verify_with
verify_oidc c provider raw = do
  i ← lift (verify_with (c.verifier provider) raw)
  upsert_and_notify c provider i.email i.name i.sub

fetch_with : Option (String → Action Identity) → String → Action Identity
fetch_with none token = raise unsupported_provider
fetch_with (some fetch) token = fetch token

-- oidcService.verifyGitHub
unfoldable pub verify_github : Config → String → Action User
unfolding fetch_with
verify_github c access_token = do
  i ← fetch_with c.github_fetch access_token
  upsert_and_notify c "github" i.email i.name i.sub

-- oidcService.VerifyAndUpsert
unfoldable pub verify_and_upsert : Config → String → String → Action User
unfolding verify_github verify_oidc
verify_and_upsert c provider credential =
    if provider == "github" then verify_github c credential else verify_oidc c provider credential

-- oidcService.IssueSessionJWT
unfoldable pub issue_session_jwt : Config → String → Action String
unfolding call
issue_session_jwt c user_id =
    call "sign jwt" (λ w. (ok (c.sign user_id w.now (w.now + c.jwt_ttl)), w))

session_of : Option String → Result String
session_of none = err (failed "invalid session token")
session_of (some sub) = if sub == "" then err (failed "missing sub claim") else ok sub

-- oidcService.ValidateSessionJWT
unfoldable pub validate_session_jwt : Config → String → Result String
unfolding session_of
validate_session_jwt c raw = session_of (c.parse raw)

-- oidcService.IssueRefreshToken
unfoldable pub issue_refresh_token : Config → String → Action String
issue_refresh_token c user_id = do
  raw ← draw "generate refresh token"
  (λ w. create user_id (c.hash raw) (w.now + refresh_token_ttl) w)
  pure raw

-- The two tests of RotateRefreshToken on the token that it found.
unfoldable pub check_token : RefreshToken → Action (Unit {0})
check_token t w =
    if is_none t.revoked_at
    then (if ltb t.expires_at w.now then (err token_expired, w) else (ok tt, w))
    else (err token_revoked, w)

-- oidcService.RotateRefreshToken: the new refresh token and the session.
unfoldable pub rotate_refresh_token : Config → String → Action (String × String)
rotate_refresh_token c raw = do
  t ← find_by_hash (c.hash raw)
  check_token t
  revoke t.id
  new_raw ← draw "generate refresh token"
  (λ w. create t.user_id (c.hash new_raw) (w.now + refresh_token_ttl) w)
  session ← issue_session_jwt c t.user_id
  pure (new_raw, session)

-- oidcService.RevokeRefreshToken
unfoldable pub revoke_refresh_token : Config → String → Action (Unit {0})
revoke_refresh_token c raw = do t ← find_by_hash (c.hash raw); revoke t.id

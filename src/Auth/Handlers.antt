-- ===== src/Auth/Handlers.antt =====
-- The HTTP handlers of sign-in: internal/auth/handler.go. A request is what was read of its body,
-- with none for a body that is no JSON; a missing field is empty. The logout always clears the
-- cookie and answers 200.
use fishhub_server.Prelude.{String, ◌==◌, Option, none, some, if◌then◌else◌}
use fishhub_server.Schema.{User}
use fishhub_server.World.{
  unsupported_provider, invalid_id_token, provider_conflict, token_not_found, token_expired,
  token_revoked, Result, ok, err, World, Response, respond,
}
use fishhub_server.Auth.{
  Config, verify_and_upsert, issue_session_jwt, issue_refresh_token, rotate_refresh_token,
  revoke_refresh_token,
}

pub record VerifyRequest : Type 0 where
  pub provider : String
  pub id_token : String
  pub access_token : String

refresh_issued : Result String × World → Response × World
refresh_issued (ok _, w) = (respond 200 "", w)
refresh_issued (err _, w) = (respond 500 "internal_error", w)

session_issued : Config → User → Result String × World → Response × World
unfolding refresh_issued
session_issued c user (ok _, w) = refresh_issued (issue_refresh_token c user.id w)
session_issued c user (err _, w) = (respond 500 "internal_error", w)

signed_in : Config → Result User × World → Response × World
unfolding session_issued
signed_in c (ok user, w) = session_issued c user (issue_session_jwt c user.id w)
signed_in c (err unsupported_provider, w) = (respond 422 "invalid_request", w)
signed_in c (err invalid_id_token, w) = (respond 401 "unauthorized", w)
signed_in c (err provider_conflict, w) = (respond 409 "provider_conflict", w)
signed_in c (err _, w) = (respond 500 "internal_error", w)

-- The credential that the provider asks for.
abbrev pub credential_of : VerifyRequest → String
credential_of r = if r.provider == "github" then r.access_token else r.id_token

-- VerifyHandler.ServeHTTP
unfoldable pub verify_handler : Config → Option VerifyRequest → World → Response × World
unfolding signed_in
verify_handler c none w = (respond 400 "invalid_request", w)
verify_handler c (some r) w =
    if r.provider == ""
    then (respond 400 "invalid_request", w)
    else if credential_of r == ""
    then (respond 400 "invalid_request", w)
    else signed_in c (verify_and_upsert c r.provider (credential_of r) w)

refreshed : Result (String × String) × World → Response × World
refreshed (ok _, w) = (respond 200 "", w)
refreshed (err token_not_found, w) = (respond 401 "unauthorized", w)
refreshed (err token_expired, w) = (respond 401 "unauthorized", w)
refreshed (err token_revoked, w) = (respond 401 "unauthorized", w)
refreshed (err _, w) = (respond 500 "internal_error", w)

-- RefreshHandler.ServeHTTP
unfoldable pub refresh_handler : Config → Option String → World → Response × World
unfolding refreshed
refresh_handler c none w = (respond 400 "invalid_request", w)
refresh_handler c (some raw) w =
    if raw == ""
    then (respond 400 "invalid_request", w)
    else refreshed (rotate_refresh_token c raw w)

-- LogoutHandler.ServeHTTP. A body that cannot be read is one without a token; the outcome of the
-- revocation is dropped.
unfoldable pub logout_handler : Config → Option String → World → Response × World
logout_handler c none w = (respond 200 "", w)
logout_handler c (some raw) w =
    if raw == "" then (respond 200 "", w) else (respond 200 "", (revoke_refresh_token c raw w).1)

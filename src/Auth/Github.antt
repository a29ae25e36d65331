-- ===== src/Auth/Github.antt =====
-- The profile of a GitHub user: internal/auth/github.go. The HTTP client and encoding/json are
-- parameters: the status and the body of an answer, and what is read of the body, with none for a body
-- that is refused. The text of an error is left out.
use fishhub_server.Prelude.{
  ℕ, String, ◌==◌, ◌&&◌, Bool, Option, none, some, List, if◌then◌else◌, eqb, find_first,
}
use fishhub_server.World.{
  failed, invalid_id_token, Result, ok, err, Action, pure, raise, lift, ◌>>=◌,
}
use fishhub_server.Device.{or_error}
use fishhub_server.Peripherals.Pushes.{decimal}
use fishhub_server.Auth.{Identity}

pub record GithubUser : Type 0 where
  pub id : ℕ
  pub email : String
  pub name : String
  pub login : String

pub record GithubEmail : Type 0 where
  pub email : String
  pub primary : Bool
  pub verified : Bool

pub record Github : Type 0 where
  -- GET of a path of the API with an access token
  pub get : String → String → Action (ℕ × String)
  pub decode_user : String → Option GithubUser
  pub decode_emails : String → Option (List GithubEmail)

-- StatusOK
abbrev pub body_or_error : ℕ × String → Action String
body_or_error (status, body) = if eqb status 200 then pure body else raise invalid_id_token

abbrev pub github_name : GithubUser → String
github_name u = if u.name == "" then u.login else u.name

-- gitHubHTTPFetcher.fetchUser
unfoldable pub fetch_user : Github → String → Action Identity
fetch_user g token = do
  answer ← g.get "/user" token
  body ← body_or_error answer
  u ← lift (or_error (failed "decode github user") (g.decode_user body))
  pure (record { email = u.email; sub = decimal u.id; name = github_name u })

abbrev pub is_primary : GithubEmail → Bool
is_primary e = e.primary && e.verified

abbrev pub address_or_error : Option GithubEmail → Result String
address_or_error none = err invalid_id_token
address_or_error (some e) = ok e.email

-- gitHubHTTPFetcher.fetchPrimaryEmail
unfoldable pub fetch_primary_email : Github → String → Action String
unfolding find_first
fetch_primary_email g token = do
  answer ← g.get "/user/emails" token
  body ← body_or_error answer
  emails ← lift (or_error (failed "decode github emails") (g.decode_emails body))
  lift (address_or_error (find_first is_primary emails))

abbrev pub with_address : Github → String → Identity → Action Identity
with_address g token i =
    if i.email == ""
    then (do email ← fetch_primary_email g token; pure (record i { email = email }))
    else pure i

-- gitHubHTTPFetcher.Fetch
unfoldable pub fetch : Github → String → Action Identity
unfolding fetch_user fetch_primary_email
fetch g token = do i ← fetch_user g token; with_address g token i

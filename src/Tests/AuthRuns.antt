-- ===== src/Tests/AuthRuns.antt =====
-- Runs of the rotation of refresh tokens.
use fishhub_server.Prelude.{◌≡◌, ◌≢◌, refl, ap, none, some, length, arith}
use fishhub_server.World.{World, ok, draw}
use fishhub_server.World.Post.{Post}
use fishhub_server.Auth.{Config, rotate_refresh_token, check_token, issue_session_jwt}
use fishhub_server.Auth.Store.{find_by_hash, revoke, create, insert_token}
use fishhub_server.Auth.Rotation.{
  Rotated, Failed, rotate_refresh_token-Rotated, rotate_refresh_token_once,
}
use fishhub_server.Tests.Worlds.{start}

abbrev pub config : Config
config = record {
  verifier = λ _. none;
  github_fetch = none;
  on_user_verified = none;
  sign = λ sub _ _. sub;
  parse = λ raw. some raw;
  hash = λ raw. raw;
  jwt_ttl = 900;
}

rotate_refresh_token-Rotated_example :
    Post
      (λ r w'. Rotated config "raw" start r w')
      (λ _ w'. Failed config "raw" start w')
      (rotate_refresh_token config "raw" start)
rotate_refresh_token-Rotated_example = rotate_refresh_token-Rotated config "raw" start

-- The rotation of the token leaves two rows.
abbrev rotated : World
rotated = (rotate_refresh_token config "raw" start).1

two_rows : length rotated.db.refresh_tokens ≡ 2
unfolding rotate_refresh_token find_by_hash check_token revoke create insert_token issue_session_jwt
    draw
two_rows = refl

changed : rotated.db.refresh_tokens ≢ start.db.refresh_tokens
changed e = omega (arith, two_rows, ap (λ rows. length rows) e)

rotate_refresh_token_once_example : (rotate_refresh_token config "raw" rotated).0 ≢ ok ("s3", "u1")
rotate_refresh_token_once_example =
    rotate_refresh_token_once config "raw" start rotated ("s3", "u1") changed refl

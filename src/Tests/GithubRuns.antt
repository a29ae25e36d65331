-- ===== src/Tests/GithubRuns.antt =====
-- A sign-in of a user of GitHub who hides the address.
use fishhub_server.Prelude.{◌≡◌, refl, true, false, some, List, [], ◌∷◌, find_first, any}
use fishhub_server.World.{World, ok, call, draw}
use fishhub_server.Auth.{Config, verify_and_upsert, verify_github, upsert_and_notify}
use fishhub_server.Auth.Github.{
  GithubUser, GithubEmail, Github, fetch_user, fetch_primary_email, fetch,
}
use fishhub_server.Auth.Vouched.{Shows, IsAddressOf, verify_and_upsert-IsAddressOf}
use fishhub_server.Auth.Store.{same_identity, upsert, upsert_row}
use fishhub_server.Peripherals.Pushes.{decimal}
use fishhub_server.Schema.{User}
use fishhub_server.Tests.Worlds.{start}
use fishhub_server.Tests.AuthRuns.{config}

abbrev ana : GithubUser
ana = record { id = 7; email = ""; name = "Ana"; login = "ana" }

abbrev old_email : GithubEmail
old_email = record { email = "old@ana.org"; primary = false; verified = true }

abbrev new_email : GithubEmail
new_email = record { email = "new@ana.org"; primary = true; verified = true }

abbrev emails : List GithubEmail
emails = old_email ∷ new_email ∷ []

abbrev github : Github
github = record {
  get = λ path _ w. (ok (200, path), w);
  decode_user = λ _. some ana;
  decode_emails = λ _. some emails;
}

abbrev with_github : Config
with_github = record config { github_fetch = some (fetch github) }

abbrev signed : User
signed = record {
  id = "s1";
  email = "new@ana.org";
  provider = "github";
  provider_sub = "7";
  created_at = 1000;
}

signs_in : (verify_and_upsert with_github "github" "token" start).0 ≡ ok signed
unfolding verify_and_upsert verify_github upsert_and_notify fetch fetch_user fetch_primary_email
    upsert upsert_row call draw find_first any
signs_in = refl

verify_and_upsert-IsAddressOf_example :
    (u : GithubUser) × (v : World) × Shows github "token" start u v
    × (same_identity "github" (decimal u.id) signed ≡ true)
    × IsAddressOf github "token" v u signed.email
verify_and_upsert-IsAddressOf_example =
    verify_and_upsert-IsAddressOf with_github github "token" signed start refl signs_in

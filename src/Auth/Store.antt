-- ===== src/Auth/Store.antt =====
-- The tables of users and of refresh tokens: internal/auth/store_postgres.go. The unique indexes
-- on users (email; provider and provider_sub) and on refresh_tokens (token_hash) are tested where a
-- row is written; the foreign keys are not modelled.
use fishhub_server.Prelude.{
  ℕ, String, ◌==◌, ◌&&◌, not, Bool, Option, none, some, List, [], ◌∷◌, ◌++◌, find_first, any,
  update_where, is_none, if◌then◌else◌, ◌≡◌, refl, true, Bool-cases, inl, inr, eq_refl,
  find_first-true,
}
use fishhub_server.Schema.{User, RefreshToken}
use fishhub_server.World.{
  failed, email_taken, user_not_found, token_not_found, ok, err, World, Action, call, draw, ◌>>=◌,
}
use fishhub_server.World.Post.{Post, returns, errs, Post-bind, Post-call, Post-draw}
use fishhub_server.Device.{or_error}

abbrev pub same_identity : String → String → User → Bool
same_identity provider provider_sub u = u.provider == provider && u.provider_sub == provider_sub

-- The row of somebody else that has the address.
abbrev pub takes_email : String → String → String → User → Bool
takes_email email provider provider_sub u =
    u.email == email && not (same_identity provider provider_sub u)

abbrev pub set_users : List User → World → World
set_users rows w = record w { db = record w.db { users = rows } }

abbrev pub set_tokens : List RefreshToken → World → World
set_tokens rows w = record w { db = record w.db { refresh_tokens = rows } }

abbrev pub with_email : String → User → User
with_email email u = record u { email = email }

abbrev pub new_user : String → String → String → ℕ → String → User
new_user email provider provider_sub now id = record {
  id = id;
  email = email;
  provider = provider;
  provider_sub = provider_sub;
  created_at = now;
}

insert_user : String → String → String → String → Action User
insert_user email provider provider_sub id w = (
  ok (new_user email provider provider_sub w.now id),
  set_users (w.db.users ++ new_user email provider provider_sub w.now id ∷ []) w,
)

write_user : String → String → String → Option User → Action User
unfolding insert_user
write_user email provider provider_sub none w =
    (do id ← draw "upsert user"; insert_user email provider provider_sub id) w
write_user email provider provider_sub (some u) w = (
  ok (with_email email u),
  set_users (update_where (same_identity provider provider_sub) (with_email email) w.db.users) w,
)

-- The statement of Upsert: INSERT … ON CONFLICT (provider, provider_sub) DO UPDATE.
unfoldable pub upsert_row : String → String → String → Action User
unfolding write_user
upsert_row email provider provider_sub w =
    if any (takes_email email provider provider_sub) w.db.users
    then (err email_taken, w)
    else write_user email provider provider_sub
        (find_first (same_identity provider provider_sub) w.db.users) w

-- postgresStore.Upsert
unfoldable pub upsert : String → String → String → Action User
unfolding call upsert_row
upsert email provider provider_sub = call "upsert user" (upsert_row email provider provider_sub)

-- The row that Upsert returns has the address, and is of the identity.
pub upsert-Post :
    (email provider provider_sub : String) (w : World)
    → Post
        (λ u _. (u.email ≡ email) × (same_identity provider provider_sub u ≡ true))
        (λ _ _. Unit {0})
        (upsert email provider provider_sub w)
unfolding upsert upsert_row write_user insert_user
upsert-Post email provider provider_sub w =
    Post-call "upsert user" (upsert_row email provider provider_sub) w
      (λ later. row (record w { faults = later })) (λ _. tt)
  where
    IsRow : User → World → Type 0
    IsRow u _ = (u.email ≡ email) × (same_identity provider provider_sub u ≡ true)

    written :
        (o : Option User) (v : World)
        → find_first (same_identity provider provider_sub) v.db.users ≡ o
        → Post IsRow (λ _ _. Unit {0}) (write_user email provider provider_sub o v)
    written none v e =
        Post-bind {Q = λ _ _. Unit {0}} (draw "upsert user" v) _
          (Post-draw "upsert user" v (λ _ _. tt) tt)
          (λ id v1 _. returns _ _ refl (refl, rw (eq_refl provider, eq_refl provider_sub) refl))
    written (some u) v e =
        returns (with_email email u) _ refl
          (refl, find_first-true (same_identity provider provider_sub) v.db.users u e)

    row : (v : World) → Post IsRow (λ _ _. Unit {0}) (upsert_row email provider provider_sub v)
    row v = elim (Bool-cases (any (takes_email email provider provider_sub) v.db.users)) [
      | inl taken ↦ rw taken (errs email_taken v refl tt)
      | inr free ↦
          rw free (written (find_first (same_identity provider provider_sub) v.db.users) v refl)
    ]

-- postgresStore.FindByID
unfoldable pub find_by_id : String → Action User
unfolding call find_first
find_by_id id =
    call "find user by id"
      (λ w. (or_error user_not_found (find_first (λ u. u.id == id) w.db.users), w))

abbrev pub has_hash : String → RefreshToken → Bool
has_hash hash t = t.token_hash == hash

abbrev pub new_token : String → String → ℕ → ℕ → String → RefreshToken
new_token user_id hash expires_at now id = record {
  id = id;
  user_id = user_id;
  token_hash = hash;
  expires_at = expires_at;
  revoked_at = none;
  created_at = now;
}

abbrev pub add_token : String → String → ℕ → String → Action RefreshToken
add_token user_id hash expires_at id w = (
  ok (new_token user_id hash expires_at w.now id),
  set_tokens (w.db.refresh_tokens ++ new_token user_id hash expires_at w.now id ∷ []) w,
)

-- The statement of Create, with the unique index on the hash.
unfoldable pub insert_token : String → String → ℕ → Action RefreshToken
insert_token user_id hash expires_at w =
    if any (has_hash hash) w.db.refresh_tokens
    then (err (failed "create refresh token"), w)
    else (do id ← draw "create refresh token"; add_token user_id hash expires_at id) w

-- postgresRefreshTokenStore.Create
unfoldable pub create : String → String → ℕ → Action RefreshToken
unfolding call insert_token
create user_id hash expires_at = call "create refresh token" (insert_token user_id hash expires_at)

-- The statement of FindByHash.
abbrev pub read_token : String → Action RefreshToken
read_token hash w = (or_error token_not_found (find_first (has_hash hash) w.db.refresh_tokens), w)

-- postgresRefreshTokenStore.FindByHash
unfoldable pub find_by_hash : String → Action RefreshToken
unfolding call find_first
find_by_hash hash = call "find refresh token by hash" (read_token hash)

-- id = $1 AND revoked_at IS NULL
abbrev pub is_open_token : String → RefreshToken → Bool
is_open_token id t = t.id == id && is_none t.revoked_at

abbrev pub revoke_token : ℕ → RefreshToken → RefreshToken
revoke_token now t = record t { revoked_at = some now }

-- The statement of Revoke, and the number of rows that it affected.
abbrev pub revoke_rows : String → Action (Unit {0})
revoke_rows id w =
    if any (is_open_token id) w.db.refresh_tokens
    then (
      ok tt,
      set_tokens (update_where (is_open_token id) (revoke_token w.now) w.db.refresh_tokens) w,
    )
    else (err token_not_found, w)

-- postgresRefreshTokenStore.Revoke
unfoldable pub revoke : String → Action (Unit {0})
unfolding call any update_where
revoke id = call "revoke refresh token" (revoke_rows id)

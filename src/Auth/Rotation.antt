-- ===== src/Auth/Rotation.antt =====
-- The rotation of refresh tokens (RotateRefreshToken of internal/auth/service.go).
use fishhub_server.Prelude.{
  ℕ, ◌+◌, String, ◌≡◌, ◌≢◌, ◌⊎◌, inl, inr, refl, sym, ap, ◌∙◌, Bool, true, false, Option, none,
  some, List, [], ◌∷◌, ◌++◌, arith, eq_iff, ltb, is_none, find_first, any, update_where,
  if◌then◌else◌, find_first-update_where,
}
use mathlib.Core.Path.{ap₂}
use mathlib.Core.List.{append-nil}
use fishhub_server.Schema.{RefreshToken}
use fishhub_server.World.{
  failed, token_not_found, token_expired, token_revoked, Result, ok, err, World, continue, draw,
  pure, ◌>>=◌, ◌>>◌,
}
use fishhub_server.World.Post.{Post, returns, errs, Post-bind, Post-call, Post-draw, Post-ok, Same}
use fishhub_server.Device.{or_error}
use fishhub_server.Auth.Store.{
  has_hash, is_open_token, revoke_token, new_token, add_token, insert_token, create, read_token,
  find_by_hash, revoke_rows, revoke, set_tokens,
}
use fishhub_server.Auth.{
  Config, check_token, issue_session_jwt, refresh_token_ttl, rotate_refresh_token,
}

-- The table after the token that was found is revoked.
abbrev revoked_in : RefreshToken → World → List RefreshToken
revoked_in t w = update_where (is_open_token t.id) (revoke_token w.now) w.db.refresh_tokens

-- The token that a rotation may use: it is stored, not revoked and not expired.
pub record Usable (c : Config) (raw : String) (w : World) (t : RefreshToken) : Type 0 where
  pub stored : find_first (has_hash (c.hash raw)) w.db.refresh_tokens ≡ some t
  pub open_token : is_none t.revoked_at ≡ true
  pub in_time : ltb t.expires_at w.now ≡ false

-- What RotateRefreshToken has done when it returns without an error.
pub record Rotated (c : Config) (raw : String) (before : World) (r : String × String)
    (after : World) : Type 0 where
  pub token : RefreshToken
  pub usable : Usable c raw before token
  pub id : String
  pub tokens :
      after.db.refresh_tokens
      ≡ revoked_in token before
        ++ new_token token.user_id (c.hash r.0) (before.now + refresh_token_ttl) before.now id ∷ []
  pub session : r.1 ≡ c.sign token.user_id before.now (before.now + c.jwt_ttl)

-- How a rotation that fails leaves the tokens: as they were, or with the old one revoked.
abbrev pub Failed : Config → String → World → World → Type 0
Failed c raw before after =
    (after.db.refresh_tokens ≡ before.db.refresh_tokens)
    ⊎ ((t : RefreshToken) × (extra : List RefreshToken) × Usable c raw before t
        × (after.db.refresh_tokens ≡ revoked_in t before ++ extra))

module _ (c : Config) (raw : String) (w0 : World) where
  find_by_hash-Post :
      Post
        (λ t w'. (find_first (has_hash (c.hash raw)) w0.db.refresh_tokens ≡ some t) × Same w0 w')
        (λ _ w'. Failed c raw w0 w')
        (find_by_hash (c.hash raw) w0)
  unfolding find_by_hash
  find_by_hash-Post =
      Post-call "find refresh token by hash" (read_token (c.hash raw)) w0
        (λ later. go later (find_first (has_hash (c.hash raw)) w0.db.refresh_tokens) refl)
        (λ later. inl refl)
    where
      go :
          (later : List Bool) (found : Option RefreshToken)
          → find_first (has_hash (c.hash raw)) w0.db.refresh_tokens ≡ found
          → Post
              (λ t w'.
                (find_first (has_hash (c.hash raw)) w0.db.refresh_tokens ≡ some t) × Same w0 w')
              (λ _ w'. Failed c raw w0 w')
              (or_error token_not_found found, record w0 { faults = later })
      go later none e = errs token_not_found _ refl (inl refl)
      go later (some t) e = returns t _ refl (e, (refl, refl))

  check_token-Post :
      (t : RefreshToken) (w : World)
      → find_first (has_hash (c.hash raw)) w0.db.refresh_tokens ≡ some t
      → Same w0 w
      → Post (λ _ w'. Usable c raw w0 t × Same w0 w') (λ _ w'. Failed c raw w0 w') (check_token t w)
  unfolding check_token
  check_token-Post t w stored same = go (is_none t.revoked_at) (ltb t.expires_at w.now) refl refl
    where
      go :
          (is_open late : Bool)
          → is_none t.revoked_at ≡ is_open
          → ltb t.expires_at w.now ≡ late
          → Post
              (λ _ w'. Usable c raw w0 t × Same w0 w')
              (λ _ w'. Failed c raw w0 w')
              (if is_open
                then (if late then (err token_expired, w) else (ok tt, w))
                else (err token_revoked, w))
      go true true o l = errs token_expired w refl (inl (ap (λ db. db.refresh_tokens) same.0))
      go true false o l = returns tt w refl (
        record {
          stored = stored;
          open_token = o;
          in_time = ap (ltb t.expires_at) (sym same.1) ∙ l;
        },
        same,
      )
      go false late o l = errs token_revoked w refl (inl (ap (λ db. db.refresh_tokens) same.0))

  -- The tokens are those of the start with the old one revoked, and the clock stands still.
  abbrev Spent : RefreshToken → World → Type 0
  Spent t w = (w.db.refresh_tokens ≡ revoked_in t w0) × (w.now ≡ w0.now)

  revoke-Post :
      (t : RefreshToken) (w : World)
      → Same w0 w
      → Post (λ _ w'. Spent t w') (λ _ w'. Failed c raw w0 w') (revoke t.id w)
  unfolding revoke
  revoke-Post t w same =
      Post-call "revoke refresh token" (revoke_rows t.id) w
        (λ later. go later (any (is_open_token t.id) w.db.refresh_tokens))
        (λ later. inl (ap (λ db. db.refresh_tokens) same.0))
    where
      go :
          (later : List Bool) (found : Bool)
          → Post
              (λ _ w'. Spent t w')
              (λ _ w'. Failed c raw w0 w')
              (if found
                then (ok tt, set_tokens (revoked_in t w) (record w { faults = later }))
                else (err token_not_found, record w { faults = later }))
      go later true = returns tt _ refl (
        ap₂
            (λ (tokens : List RefreshToken) (now : ℕ).
              update_where (is_open_token t.id) (revoke_token now) tokens)
            (ap (λ db. db.refresh_tokens) same.0) same.1,
        same.1,
      )
      go later false = errs token_not_found _ refl (inl (ap (λ db. db.refresh_tokens) same.0))

module _ (c : Config) (raw : String) (w0 : World) (t : RefreshToken)
    (usable : Usable c raw w0 t) where
  -- A failure after the old token is revoked.
  spent-Failed : (w : World) → w.db.refresh_tokens ≡ revoked_in t w0 → Failed c raw w0 w
  spent-Failed w spent = inr (t, [], usable, spent ∙ sym (append-nil _))

  -- The table with the new token behind the old ones.
  abbrev Stored : String → RefreshToken → World → Type 0
  Stored new_raw n w =
      ((id : String) × (w.db.refresh_tokens
          ≡ revoked_in t w0
            ++ new_token t.user_id (c.hash new_raw) (w0.now + refresh_token_ttl) w0.now id ∷ []))
      × (w.now ≡ w0.now)

  create-Post :
      (new_raw : String) (expires : ℕ) (w : World)
      → expires ≡ w0.now + refresh_token_ttl
      → Spent c raw w0 t w
      → Post
          (λ n w'. Stored new_raw n w')
          (λ _ w'. Failed c raw w0 w')
          (create t.user_id (c.hash new_raw) expires w)
  unfolding create
  create-Post new_raw expires w e spent =
      Post-call "create refresh token" (insert_token t.user_id (c.hash new_raw) expires) w
        (λ later. go later (any (has_hash (c.hash new_raw)) w.db.refresh_tokens))
        (λ later. spent-Failed (record w { faults = later }) spent.0)
    where
      go :
          (later : List Bool) (taken : Bool)
          → Post
              (λ n w'. Stored new_raw n w')
              (λ _ w'. Failed c raw w0 w')
              (if taken
                then (err (failed "create refresh token"), record w { faults = later })
                else continue
                    (draw "create refresh token" (record w { faults = later }))
                    (add_token t.user_id (c.hash new_raw) expires))
      go later true = errs _ _ refl (spent-Failed (record w { faults = later }) spent.0)
      go later false =
          Post-bind {Q = λ id w'. Spent c raw w0 t w'}
            (draw "create refresh token" (record w { faults = later }))
            (add_token t.user_id (c.hash new_raw) expires)
            (Post-draw "create refresh token" (record w { faults = later }) (λ v left. spent)
              (spent-Failed (record w { faults = later }) spent.0))
            (λ id w' kept.
              returns (new_token t.user_id (c.hash new_raw) expires w'.now id)
                (set_tokens
                  (w'.db.refresh_tokens
                    ++ new_token t.user_id (c.hash new_raw) expires w'.now id ∷ [])
                  w')
                refl ((id, rw (kept.0, e, kept.1)), kept.1))

  session-Post :
      (new_raw : String) (n : RefreshToken) (w : World)
      → Stored new_raw n w
      → Post
          (λ r w'. Rotated c raw w0 r w')
          (λ _ w'. Failed c raw w0 w')
          ((do session ← issue_session_jwt c t.user_id; pure (new_raw, session)) w)
  unfolding issue_session_jwt
  session-Post new_raw n w ((id, stored), clock) =
      Post-bind
        {Q = λ session w'.
          (session ≡ c.sign t.user_id w0.now (w0.now + c.jwt_ttl)) × (w'.db ≡ w.db)}
        (issue_session_jwt c t.user_id w) (λ session. pure (new_raw, session))
        (Post-call "sign jwt" (λ x. (ok (c.sign t.user_id x.now (x.now + c.jwt_ttl)), x)) w
          (λ later. returns _ (record w { faults = later }) refl (rw clock, refl))
          (λ later. inr (t, _, usable, stored)))
        (λ session w' (signed, same).
          returns (new_raw, session) w' refl
            (record {
              token = t;
              usable = usable;
              id = id;
              tokens = ap (λ db. db.refresh_tokens) same ∙ stored;
              session = signed;
            }))

  renew-Post :
      (w : World)
      → Spent c raw w0 t w
      → Post
          (λ r w'. Rotated c raw w0 r w')
          (λ _ w'. Failed c raw w0 w')
          ((do
            new_raw ← draw "generate refresh token"
            (λ x. create t.user_id (c.hash new_raw) (x.now + refresh_token_ttl) x)
            session ← issue_session_jwt c t.user_id
            pure (new_raw, session))
            w)
  renew-Post w spent =
      Post-bind {Q = λ new_raw w'. Spent c raw w0 t w'} (draw "generate refresh token" w) _
        (Post-draw "generate refresh token" w (λ v left. spent) (spent-Failed w spent.0))
        (λ new_raw w1 kept.
          Post-bind (create t.user_id (c.hash new_raw) (w1.now + refresh_token_ttl) w1) _
            (create-Post new_raw (w1.now + refresh_token_ttl) w1
              (ap (λ (n : ℕ). n + refresh_token_ttl) kept.1) kept)
            (λ n w2 stored. session-Post new_raw n w2 stored))

-- A rotation that succeeds revokes the one token that it was given, which was stored, open and in
-- time, stores one new token of the same user for 30 days, and returns it with a session of that
-- user. One that fails leaves the tokens as they were, or has revoked the token that it was given,
-- which was usable, with nothing said of rows added behind the others.
pub rotate_refresh_token-Rotated :
    (c : Config) (raw : String) (w : World)
    → Post (λ r w'. Rotated c raw w r w') (λ _ w'. Failed c raw w w') (rotate_refresh_token c raw w)
unfolding rotate_refresh_token
rotate_refresh_token-Rotated c raw w =
    Post-bind (find_by_hash (c.hash raw) w) _ (find_by_hash-Post c raw w) (λ t w1 (stored, same1).
      Post-bind (check_token t w1) _ (check_token-Post c raw w t w1 stored same1)
        (λ _ w2 (usable, same2).
          Post-bind (revoke t.id w2) _ (revoke-Post c raw w t w2 same2)
            (λ _ w3 spent. renew-Post c raw w t usable w3 spent)))

-- What is known of the token after a rotation has begun to write.
abbrev Burnt : Config → String → World → Type 0
Burnt c raw w =
    (t : RefreshToken) × (find_first (has_hash (c.hash raw)) w.db.refresh_tokens ≡ some t)
    × (is_none t.revoked_at ≡ false)

revoked-closed :
    (id : String) (now : ℕ) (t : RefreshToken)
    → t.id ≡ id
    → is_none (if is_open_token id t then revoke_token now t else t).revoked_at ≡ false
revoked-closed id now t e = ground (arith, eq_iff t.id id)

revoked-Burnt :
    (c : Config) (raw : String) (w later : World) (t : RefreshToken) (extra : List RefreshToken)
    → Usable c raw w t
    → later.db.refresh_tokens ≡ revoked_in t w ++ extra
    → Burnt c raw later
revoked-Burnt c raw w later t extra usable tokens = (
  (if is_open_token t.id t then revoke_token w.now t else t),
  ap (find_first (has_hash (c.hash raw))) tokens
      ∙ find_first-update_where (has_hash (c.hash raw)) (is_open_token t.id) (revoke_token w.now)
          w.db.refresh_tokens extra (λ y. refl) usable.stored,
  revoked-closed t.id w.now t refl,
)

Burnt-Rotated :
    (c : Config) (raw : String) (w w' : World) (r : String × String)
    → Burnt c raw w
    → ¬ (Rotated c raw w r w')
Burnt-Rotated c raw w w' r (t, found, closed) done =
    let same : t ≡ done.token = cc (sym found ∙ done.usable.stored) in
    cc (sym closed ∙ ap (λ (x : RefreshToken). is_none x.revoked_at) same ∙ done.usable.open_token)

Failed-Burnt :
    (c : Config) (raw : String) (w after later : World)
    → Failed c raw w after
    → after.db.refresh_tokens ≢ w.db.refresh_tokens
    → later.db.refresh_tokens ≡ after.db.refresh_tokens
    → Burnt c raw later
Failed-Burnt c raw w after later (inl same) changed tokens = absurd (changed same)
Failed-Burnt c raw w after later (inr (t, extra, usable, spent)) changed tokens =
    revoked-Burnt c raw w later t extra usable (tokens ∙ spent)

-- A refresh token is good for one rotation: once a rotation has changed the stored tokens, even if
-- it then returned an error, no later rotation of the same token succeeds on those tokens.
pub rotate_refresh_token_once :
    (c : Config) (raw : String) (w later : World) (r : String × String)
    → (rotate_refresh_token c raw w).1.db.refresh_tokens ≢ w.db.refresh_tokens
    → later.db.refresh_tokens ≡ (rotate_refresh_token c raw w).1.db.refresh_tokens
    → (rotate_refresh_token c raw later).0 ≢ ok r
rotate_refresh_token_once c raw w later r changed tokens again =
    Burnt-Rotated c raw later _ r (burnt (rotate_refresh_token-Rotated c raw w))
      (Post-ok (rotate_refresh_token-Rotated c raw later) again)
  where
    burnt :
        Post
          (λ r w'. Rotated c raw w r w')
          (λ _ w'. Failed c raw w w')
          (rotate_refresh_token c raw w)
        → Burnt c raw later
    burnt (returns r1 w1 e done) = revoked-Burnt c raw w later done.token _ done.usable (
        tokens
        ∙ ap (λ (o : Result (String × String) × World). o.1.db.refresh_tokens) e
        ∙ done.tokens)
    burnt (errs x w1 e broken) =
        Failed-Burnt c raw w w1 later broken
          (λ same.
            changed (ap (λ (o : Result (String × String) × World). o.1.db.refresh_tokens) e ∙ same))
          (tokens ∙ ap (λ (o : Result (String × String) × World). o.1.db.refresh_tokens) e)

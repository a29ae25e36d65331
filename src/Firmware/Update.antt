-- ===== src/Firmware/Update.antt =====
-- What a request to update, or to try an update again, does to the table of updates
-- (ConfirmUpdate and RetryUpdate of internal/firmware/service.go).
use fishhub_server.Prelude.{
  ℕ, String, ◌≡◌, refl, sym, ◌∙◌, ap, Bool, true, false, Option, none, some, List, ◌∷◌, arith, any,
  if◌then◌else◌, find_first, update_first, List-cases, inl, inr, ◌⊎◌, ◌-◌, ltb, Bool-cases,
  find_first-true, find_first-update_first,
}
use mathlib.Core.Path.{ap₂}
use fishhub_server.Schema.{
  Db, UpdateRecord, UpdateState, update_pending, update_succeeded, update_failed,
}
use fishhub_server.World.{
  Error, no_release, update_already_pending, no_pending_update, record_not_found, continue, Result,
  ok, err, World, ◌>>=◌, ◌>>◌, pure, raise, gets, draw,
}
use fishhub_server.World.Post.{
  Post, returns, errs, Post-bind, Post-always, Post-call, Post-draw, Post-map, Post-Reads, Reads,
  Same,
}
use fishhub_server.Device.{check_ownership, or_error}
use fishhub_server.Firmware.Store.{
  is_pending, is_pending_for, is_of, reset, store_row, new_record, insert_pending, has_pending,
  latest_record, reset_pending, set_updates,
}
use fishhub_server.Firmware.{
  Config, Release, send_release, confirm_update, retry_update, compute_status, may_retry, to_retry,
  status_of,
}

pub send_release-Reads : (c : Config) (d : String) (r : Release) → Reads (send_release c d r)
unfolding send_release
send_release-Reads c d r w = elim (List-cases w.supply) [
  | inl none_left ↦ rw (none_left, send_release) (ground arith, ground arith)
  | inr (id, ids, e) ↦ rw (e, send_release) (ground arith, ground arith)
]

pub check_ownership-Reads : (d u : String) → Reads (check_ownership d u)
unfolding check_ownership
check_ownership-Reads d u w = (ground arith, ground arith)

-- What ConfirmUpdate has done when it returns without an error.
pub record Confirmed (c : Config) (d : String) (before after : World) : Type 0 where
  pub release : Release
  pub is_latest : c.latest ≡ some release
  pub none_before : any (is_pending_for d release.version) before.db.firmware_updates ≡ false
  pub row : UpdateRecord
  pub for_device : row.device_id ≡ d
  pub for_version : row.desired_version ≡ release.version
  pub waits : is_pending row.status ≡ true
  pub added : after.db ≡ record before.db { firmware_updates = row ∷ before.db.firmware_updates }

insert_pending-Post :
    (c : Config) (d : String) (release : Release) (nonce : String) (w w0 : World)
    → c.latest ≡ some release
    → any (is_pending_for d release.version) w0.db.firmware_updates ≡ false
    → w.db ≡ w0.db
    → Post
        (λ _ w'. Confirmed c d w0 w')
        (λ _ w'. w'.db ≡ w0.db)
        (insert_pending d release.version nonce w)
unfolding insert_pending
insert_pending-Post c d release nonce w w0 latest none_yet same =
    Post-call "insert pending" (do id ← draw "insert pending"; store_row d release.version nonce id)
      w
      (λ later.
        Post-bind {Q = λ id w'. w'.db ≡ w0.db} (draw "insert pending" (record w { faults = later }))
          (store_row d release.version nonce)
          (Post-draw "insert pending" (record w { faults = later }) (λ v left. same) same)
          (λ id w' kept.
            returns tt
              (set_updates (new_record id d release.version nonce w'.now ∷ w'.db.firmware_updates)
                w')
              refl
              (record {
                release = release;
                is_latest = latest;
                none_before = none_yet;
                row = new_record id d release.version nonce w'.now;
                for_device = refl;
                for_version = refl;
                waits = refl;
                added =
                    ap {B = Db}
                      (λ db. record db {
                        firmware_updates =
                            new_record id d release.version nonce w'.now ∷ db.firmware_updates;
                      })
                      kept;
              })))
      (λ later. same)

-- What the check for a pending update tells.
has_pending-Post :
    (d version : String) (w w0 : World)
    → w.db ≡ w0.db
    → Post
        (λ found w'.
          (found ≡ any (is_pending_for d version) w0.db.firmware_updates) × (w'.db ≡ w0.db))
        (λ _ w'. w'.db ≡ w0.db)
        (has_pending d version w)
unfolding has_pending
has_pending-Post d version w w0 same =
    Post-call "check pending" (gets (λ x. any (is_pending_for d version) x.db.firmware_updates)) w
      (λ later.
        returns (any (is_pending_for d version) w.db.firmware_updates) (record w { faults = later })
          refl (ap (λ db. any (is_pending_for d version) db.firmware_updates) same, same))
      (λ later. same)

module _ (c : Config) (d : String) (w0 : World) where
  after_check :
      (release : Release) (w : World) (found : Bool)
      → c.latest ≡ some release
      → found ≡ any (is_pending_for d release.version) w0.db.firmware_updates
      → w.db ≡ w0.db
      → Post
          (λ _ w'. Confirmed c d w0 w')
          (λ _ w'. w'.db ≡ w0.db)
          ((do
            (if found then raise update_already_pending else pure tt)
            nonce ← send_release c d release
            insert_pending d release.version nonce)
            w)
  after_check release w true latest told same = errs update_already_pending w refl same
  after_check release w false latest told same =
      Post-bind (send_release c d release w) _
        (Post-always (λ w'. w'.db ≡ w0.db) _ ((send_release-Reads c d release w).0 ∙ same))
        (λ nonce w' kept. insert_pending-Post c d release nonce w' w0 latest (sym told) kept)

  with_release :
      (latest : Option Release) (w : World)
      → c.latest ≡ latest
      → w.db ≡ w0.db
      → Post
          (λ _ w'. Confirmed c d w0 w')
          (λ _ w'. w'.db ≡ w0.db)
          (continue
            (or_error no_release latest, w)
            (λ release. do
              is_pending ← has_pending d release.version
              (if is_pending then raise update_already_pending else pure tt)
              nonce ← send_release c d release
              insert_pending d release.version nonce))
  with_release none w latest same = errs no_release w refl same
  with_release (some release) w latest same =
      Post-bind (has_pending d release.version w) _ (has_pending-Post d release.version w w0 same)
        (λ found w' (told, kept). after_check release w' found latest told kept)

  -- A confirmed update adds one pending row for the device and the latest version, where there was
  -- none; whatever fails, an update that is not confirmed leaves the database as it was.
  pub confirm_update-Post :
      (u : String)
      → Post (λ _ w'. Confirmed c d w0 w') (λ _ w'. w'.db ≡ w0.db) (confirm_update c d u w0)
  unfolding confirm_update
  confirm_update-Post u =
      Post-bind (check_ownership d u w0) _
        (Post-always (λ w'. w'.db ≡ w0.db) _ (check_ownership-Reads d u w0).0)
        (λ _ w same. with_release c.latest w refl same)

-- The update has failed, or is pending for longer than the timeout.
abbrev pub HasEnded : Config → ℕ → UpdateRecord → Type 0
HasEnded c now r =
    (r.status ≡ update_failed)
    ⊎ ((r.status ≡ update_pending) × (ltb c.update_timeout (now - r.requested_at) ≡ true))

compute_status-HasEnded :
    (c : Config) (now : ℕ) (r : UpdateRecord)
    → may_retry (compute_status c now r) ≡ true
    → HasEnded c now r
unfolding compute_status status_of
compute_status-HasEnded c now r may = go r.status refl may
  where
    go :
        (s : UpdateState)
        → r.status ≡ s
        → may_retry (status_of s r.requested_at c.update_timeout now) ≡ true
        → HasEnded c now r
    go update_succeeded is h = ground arith
    go update_failed is h = inl is
    go update_pending is h = elim (Bool-cases (ltb c.update_timeout (now - r.requested_at))) [
      | inl late ↦ inr (is, late)
      | inr early ↦ ground arith
    ]

-- What RetryUpdate has done when it returns without an error.
pub record Retried (c : Config) (d : String) (before after : World) : Type 0 where
  pub release : Release
  pub is_latest : c.latest ≡ some release
  pub row : UpdateRecord
  pub newest : find_first (is_of d) before.db.firmware_updates ≡ some row
  pub allowed : may_retry (compute_status c before.now row) ≡ true
  pub ended : HasEnded c before.now row
  pub nonce : String
  pub again :
      find_first (is_of d) after.db.firmware_updates
      ≡ some (record row {
        nonce = nonce;
        status = update_pending;
        last_error = "";
        requested_at = before.now;
        updated_at = before.now;
      })
  pub restarted : after.db ≡ record before.db {
    firmware_updates = update_first (is_of d) (reset nonce before.now) before.db.firmware_updates;
  }

reset_pending_lem :
    (d nonce : String) (w w0 : World)
    → Same w0 w
    → Post
        (λ _ w'. w'.db ≡ record w0.db {
          firmware_updates = update_first (is_of d) (reset nonce w0.now) w0.db.firmware_updates;
        })
        (λ _ w'. w'.db ≡ w0.db)
        (reset_pending d nonce w)
unfolding reset_pending
reset_pending_lem d nonce w w0 same =
    Post-call "reset pending"
      (λ w.
        if any (is_of d) w.db.firmware_updates
        then (
          ok tt,
          set_updates (update_first (is_of d) (reset nonce w.now) w.db.firmware_updates) w,
        )
        else (err record_not_found, w))
      w (λ later. go later (any (is_of d) w.db.firmware_updates)) (λ later. same.0)
  where
    go :
        (later : List Bool) (found : Bool)
        → Post
            (λ _ w'. w'.db ≡ record w0.db {
              firmware_updates = update_first (is_of d) (reset nonce w0.now) w0.db.firmware_updates;
            })
            (λ _ w'. w'.db ≡ w0.db)
            (if found
              then (
                ok tt,
                set_updates
                    (update_first (is_of d) (reset nonce w.now) w.db.firmware_updates)
                    (record w { faults = later }),
              )
              else (err record_not_found, record w { faults = later }))
    go later true = returns tt _ refl (
        ap₂ {C = Db}
          (λ db now. record db {
            firmware_updates = update_first (is_of d) (reset nonce now) db.firmware_updates;
          })
          same.0 same.1)
    go later false = errs record_not_found _ refl same.0

latest_record-Post :
    (d : String) (w w0 : World)
    → Same w0 w
    → Post
        (λ row w'. (find_first (is_of d) w0.db.firmware_updates ≡ some row) × Same w0 w')
        (λ _ w'. w'.db ≡ w0.db)
        (latest_record d w)
unfolding latest_record
latest_record-Post d w w0 same =
    Post-call "latest record"
      (λ x. (or_error record_not_found (find_first (is_of d) x.db.firmware_updates), x)) w
      (λ later.
        go later (find_first (is_of d) w.db.firmware_updates)
          (ap (λ db. find_first (is_of d) db.firmware_updates) (sym same.0)))
      (λ later. same.0)
  where
    go :
        (later : List Bool) (found : Option UpdateRecord)
        → find_first (is_of d) w0.db.firmware_updates ≡ found
        → Post
            (λ row w'. (find_first (is_of d) w0.db.firmware_updates ≡ some row) × Same w0 w')
            (λ _ w'. w'.db ≡ w0.db)
            (or_error record_not_found found, record w { faults = later })
    go later none e = errs record_not_found _ refl same.0
    go later (some row) e = returns row _ refl (e, same)

abbrev MayRetry : Config → String → World → Type 0
MayRetry c d w0 =
    (row : UpdateRecord) × (find_first (is_of d) w0.db.firmware_updates ≡ some row)
    × (may_retry (compute_status c w0.now row) ≡ true)

module _ (c : Config) (d : String) (w0 : World) where
  to_retry-err :
      (now : ℕ) (e : Error) (w : World)
      → w.db ≡ w0.db
      → Post
          (λ _ w'. MayRetry c d w0 × Same w0 w')
          (λ _ w'. w'.db ≡ w0.db)
          (to_retry c now (err e, w))
  unfolding to_retry
  to_retry-err now record_not_found w same = errs no_pending_update w refl same
  to_retry-err now _ w same = errs _ w refl same

  to_retry-ok :
      (row : UpdateRecord) (w : World) (allowed : Bool)
      → find_first (is_of d) w0.db.firmware_updates ≡ some row
      → may_retry (compute_status c w0.now row) ≡ allowed
      → Same w0 w
      → Post
          (λ _ w'. MayRetry c d w0 × Same w0 w')
          (λ _ w'. w'.db ≡ w0.db)
          (if allowed then (ok tt, w) else (err no_pending_update, w))
  to_retry-ok row w true found may same = returns tt w refl ((row, found, may), same)
  to_retry-ok row w false found may same = errs no_pending_update w refl same.0

  -- Only the newest row of the device decides whether it may be tried again.
  to_retry-Post :
      (now : ℕ) (o : Result UpdateRecord × World)
      → now ≡ w0.now
      → Post
          (λ row w'. (find_first (is_of d) w0.db.firmware_updates ≡ some row) × Same w0 w')
          (λ _ w'. w'.db ≡ w0.db)
          o
      → Post (λ _ w'. MayRetry c d w0 × Same w0 w') (λ _ w'. w'.db ≡ w0.db) (to_retry c now o)
  unfolding to_retry
  to_retry-Post now o clock (returns row w e (found, same)) =
      rw e (rw clock (to_retry-ok row w (may_retry (compute_status c w0.now row)) found refl same))
  to_retry-Post now o clock (errs x w e same) = rw e (to_retry-err now x w same)

  retry_release :
      (latest : Option Release) (w : World)
      → c.latest ≡ latest
      → Same w0 w
      → Post
          (λ _ w'. Retried c d w0 w')
          (λ _ w'. w'.db ≡ w0.db)
          (continue
            (or_error no_release latest, w)
            (λ release. do
              (λ x. to_retry c x.now (latest_record d x))
              nonce ← send_release c d release
              reset_pending d nonce))
  retry_release none w latest same = errs no_release w refl same.0
  retry_release (some release) w latest same =
      Post-bind (to_retry c w.now (latest_record d w)) _
        (to_retry-Post w.now _ same.1 (latest_record-Post d w w0 same))
        (λ _ w1 ((row, found, may), same1).
          Post-bind (send_release c d release w1) (reset_pending d)
            (Post-Reads (send_release c d release) w1 w0 (send_release-Reads c d release) same1)
            (λ nonce w2 same2. Post-map (reset_pending_lem d nonce w2 w0 same2) (λ _ w3 restarted.
              record {
                release = release;
                is_latest = latest;
                row = row;
                newest = found;
                allowed = may;
                ended = compute_status-HasEnded c w0.now row may;
                nonce = nonce;
                again =
                    ap (λ db. find_first (is_of d) db.firmware_updates) restarted
                    ∙ find_first-update_first (is_of d) (reset nonce w0.now) w0.db.firmware_updates
                        found (find_first-true (is_of d) w0.db.firmware_updates row found);
                restarted = restarted;
              })))

  -- A retry starts the newest update of the device again, if that has failed or timed out; whatever
  -- fails, a retry that returns an error leaves the database as it was.
  pub retry_update-Post :
      (u : String)
      → Post (λ _ w'. Retried c d w0 w') (λ _ w'. w'.db ≡ w0.db) (retry_update c d u w0)
  unfolding retry_update
  retry_update-Post u =
      Post-bind (check_ownership d u w0) _
        (Post-Reads (check_ownership d u) w0 w0 (check_ownership-Reads d u) (refl, refl))
        (λ _ w same. retry_release c.latest w refl same)

-- ===== src/Firmware/Race.antt =====
-- Two confirmations of one update at the same time (ConfirmUpdate of internal/firmware/service.go,
-- whose look-up of a pending update and whose insertion are two statements without a transaction).
use fishhub_server.Prelude.{
  String, ◌≡◌, refl, sym, ap, ◌∙◌, Bool, true, false, Option, none, some, List, ◌∷◌, if◌then◌else◌,
  eq_refl, arith,
}
use mathlib.Core.Path.{subst, subst₂}
use fishhub_server.Schema.{Db, UpdateRecord}
use fishhub_server.World.{
  no_release, update_already_pending, Result, ok, err, World, Action, pure, raise, continue, draw,
  ◌>>=◌, ◌>>◌,
}
use fishhub_server.World.Post.{
  Post, returns, errs, Post-bind, Post-both, Post-call, Post-draw, Post-ok, Post-Reads,
}
use fishhub_server.Device.{check_ownership, or_error}
use fishhub_server.Firmware.Store.{
  has_pending, insert_pending, store_row, new_record, is_pending_for, is_pending,
}
use fishhub_server.Firmware.{Config, Release, send_release, confirm_update}
use fishhub_server.Firmware.Update.{send_release-Reads}
use fishhub_server.Firmware.Pending.{Safe, OnePending}

-- ConfirmUpdate up to its last early return.
unfoldable pub may_confirm : Config → String → String → Action Release
may_confirm c device_id user_id = do
  check_ownership device_id user_id
  release ← (λ w. (or_error no_release c.latest, w))
  waiting ← has_pending device_id release.version
  (if waiting then raise update_already_pending else pure tt)
  pure release

-- The rest of ConfirmUpdate.
unfoldable pub send_update : Config → String → Release → Action (Unit {0})
send_update c device_id release = do
  nonce ← send_release c device_id release
  insert_pending device_id release.version nonce

-- For every configuration, device, user and state: ConfirmUpdate is its two parts, one after the
-- other.
pub confirm_update-split :
    (c : Config) (d u : String) (w : World)
    → confirm_update c d u w ≡ (do release ← may_confirm c d u; send_update c d release) w
unfolding confirm_update may_confirm send_update
confirm_update-split c d u w = checked (check_ownership d u w)
  where
    guard : Release → Bool → Action (Unit {0})
    guard release waiting = if waiting then raise update_already_pending else pure tt

    send : Release → Action (Unit {0})
    send release = do nonce ← send_release c d release; insert_pending d release.version nonce

    found :
        (release : Release) (o : Result Bool × World)
        → continue o (λ waiting. do guard release waiting; send release)
          ≡ continue (continue o (λ waiting. do guard release waiting; pure release)) send
    found release (ok true, w2) = refl
    found release (ok false, w2) = refl
    found release (err e, w2) = refl

    latest :
        (o : Option Release) (w1 : World)
        → continue
            (or_error no_release o, w1)
            (λ release. do
              waiting ← has_pending d release.version
              guard release waiting
              send release)
          ≡ continue
              (continue
                (or_error no_release o, w1)
                (λ release. do
                  waiting ← has_pending d release.version
                  guard release waiting
                  pure release))
              send
    latest none w1 = refl
    latest (some release) w1 = found release (has_pending d release.version w1)

    checked :
        (o : Result (Unit {0}) × World)
        → continue o (λ _. do
          release ← (λ w. (or_error no_release c.latest, w))
          waiting ← has_pending d release.version
          guard release waiting
          send release)
          ≡ continue
              (continue o (λ _. do
                release ← (λ w. (or_error no_release c.latest, w))
                waiting ← has_pending d release.version
                guard release waiting
                pure release))
              send
    checked (ok _, w1) = latest c.latest w1
    checked (err e, w1) = refl

-- One pending row more, for a device and a version.
abbrev Added : String → String → World → World → Type 0
Added d v w w' =
    (row : UpdateRecord) × (row.device_id ≡ d)
    × (row.desired_version ≡ v)
    × (is_pending row.status ≡ true)
    × (w'.db.firmware_updates ≡ row ∷ w.db.firmware_updates)

insert_pending-Added :
    (d v nonce : String) (w w0 : World)
    → w.db ≡ w0.db
    → Post (λ _ w'. Added d v w0 w') (λ _ _. Unit {0}) (insert_pending d v nonce w)
unfolding insert_pending
insert_pending-Added d v nonce w w0 same =
    Post-call "insert pending" (do id ← draw "insert pending"; store_row d v nonce id) w
      (λ later.
        Post-bind {Q = λ _ w1. w1.db ≡ w0.db} (draw "insert pending" (record w { faults = later }))
          (store_row d v nonce)
          (Post-draw "insert pending" (record w { faults = later }) (λ _ _. same) tt)
          (λ id w1 kept. returns tt _ refl (
            new_record id d v nonce w1.now,
            refl,
            refl,
            refl,
            ap (λ (db : Db). new_record id d v nonce w1.now ∷ db.firmware_updates) kept,
          )))
      (λ _. tt)

send_update-Added :
    (c : Config) (d : String) (release : Release) (w : World)
    → Post (λ _ w'. Added d release.version w w') (λ _ _. Unit {0}) (send_update c d release w)
unfolding send_update
send_update-Added c d release w =
    Post-bind (send_release c d release w) (insert_pending d release.version)
      (Post-both
        (Post-Reads (send_release c d release) w w (send_release-Reads c d release) (refl, refl))
        (λ _ _ same. same.0) (λ _ _ _. tt))
      (λ nonce w1 same. insert_pending-Added d release.version nonce w1 w same)

may_confirm-latest :
    (c : Config) (d u : String) (w : World)
    → Post (λ release _. c.latest ≡ some release) (λ _ _. Unit {0}) (may_confirm c d u w)
unfolding may_confirm
may_confirm-latest c d u w = checked (check_ownership d u w)
  where
    tail : Release → Action Release
    tail release = do
      waiting ← has_pending d release.version
      (if waiting then raise update_already_pending else pure tt)
      pure release

    found :
        (release : Release) (o : Result Bool × World)
        → c.latest ≡ some release
        → Post
            (λ r _. c.latest ≡ some r)
            (λ _ _. Unit {0})
            (continue o (λ waiting. do
              (if waiting then raise update_already_pending else pure tt)
              pure release))
    found release (ok true, w2) e = errs update_already_pending w2 refl tt
    found release (ok false, w2) e = returns release w2 refl e
    found release (err x, w2) e = errs x w2 refl tt

    latest :
        (o : Option Release) (w1 : World)
        → c.latest ≡ o
        → Post
            (λ r _. c.latest ≡ some r)
            (λ _ _. Unit {0})
            (continue (or_error no_release o, w1) tail)
    latest none w1 e = errs no_release w1 refl tt
    latest (some release) w1 e = found release (has_pending d release.version w1) e

    checked :
        (o : Result (Unit {0}) × World)
        → Post
            (λ r _. c.latest ≡ some r)
            (λ _ _. Unit {0})
            (continue o (λ _. do release ← (λ w. (or_error no_release c.latest, w)); tail release))
    checked (ok _, w1) = latest c.latest w1 refl
    checked (err e, w1) = errs e w1 refl tt

-- Two requests for one device, each of which has passed its early returns before the other writes.
unfoldable pub confirm_both : Config → String → String → String → Action (Unit {0})
confirm_both c device_id user_id other_user = do
  first ← may_confirm c device_id user_id
  second ← may_confirm c device_id other_user
  send_update c device_id first
  send_update c device_id second

two_pending :
    (d v : String) (r1 r2 : UpdateRecord) (rows : List UpdateRecord)
    → r1.device_id ≡ d
    → r1.desired_version ≡ v
    → is_pending r1.status ≡ true
    → r2.device_id ≡ d
    → r2.desired_version ≡ v
    → ¬ OnePending (r2 ∷ r1 ∷ rows)
two_pending d v r1 r2 rows d1 v1 waits d2 v2 h =
    let apart : is_pending_for d v r1 ≡ false =
      subst₂ (λ x y. is_pending_for x y r1 ≡ false) d2 v2 h.0.0 in
    ground (arith, eq_refl d, eq_refl v)

confirm_both-Post :
    (c : Config) (d u1 u2 : String) (w : World)
    → Post (λ _ w'. ¬ Safe w') (λ _ _. Unit {0}) (confirm_both c d u1 u2 w)
unfolding confirm_both
confirm_both-Post c d u1 u2 w =
    Post-bind (may_confirm c d u1 w) _ (may_confirm-latest c d u1 w) (λ first w1 is_first.
      Post-bind (may_confirm c d u2 w1) _ (may_confirm-latest c d u2 w1) (λ second w2 is_second.
        Post-bind (send_update c d first w2) _ (send_update-Added c d first w2)
          (λ _ w3 (r1, d1, v1, p1, e1).
            Post-both (send_update-Added c d second w3)
              (λ _ w4 (r2, d2, v2, p2, e2) safe.
                let same : first ≡ second = cc (sym is_first ∙ is_second) in
                two_pending d first.version r1 r2 w2.db.firmware_updates d1 v1 p1 d2
                  (v2 ∙ ap (λ (r : Release). r.version) (sym same))
                  (subst OnePending (e2 ∙ ap (λ rows. r2 ∷ rows) e1) safe))
              (λ _ _ _. tt))))

-- For every configuration, device, pair of users and state: if two confirmations of which each has
-- found no pending update before the other writes both succeed, the table has an update that is
-- pending behind another of the same device to the same version.
pub confirm_both_breaks :
    (c : Config) (d u1 u2 : String) (w : World)
    → (confirm_both c d u1 u2 w).0 ≡ ok tt
    → ¬ Safe (confirm_both c d u1 u2 w).1
confirm_both_breaks c d u1 u2 w h = Post-ok (confirm_both-Post c d u1 u2 w) h

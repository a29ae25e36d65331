-- ===== src/Firmware/Reports.antt =====
-- What the report of a device does to its updates (IngestStatus of internal/firmware/service.go),
-- and the report that a retry cannot be closed by.
use Prim.Native.String
use fishhub_server.Prelude.{
  String, ◌⊎◌, ◌==◌, ◌≡◌, refl, ap, ◌∙◌, false, some, List, [], ◌∷◌, arith, any, find_first,
  update_first, find_first-update_first, find_first-update_other, inl, inr, find_first-true, ℕ,
  zero, suc, ◌++◌,
}
use fishhub_server.Schema.{UpdateRecord, update_pending}
use fishhub_server.World.{ok, err, no_release, World, Message, Result, call, pure, draw, publish}
use fishhub_server.Device.{check_ownership, or_error}
use fishhub_server.World.Post.{
  Post, returns, errs, Post-bind, Post-both, Post-call, Post-draw, Post-ok,
}
use fishhub_server.Firmware.Store.{
  is_of, is_pending_for, reset, succeed, set_firmware_version, mark_succeeded, latest_record,
  reset_pending,
}
use fishhub_server.Firmware.{
  Config, Release, retry_update, ingest_status, send_release, to_retry, publish_manifest,
}
use fishhub_server.Firmware.Update.{Retried, retry_update-Post}
use fishhub_server.Firmware.Pending.{Safe, succeed_leaves_none}

-- Where no call fails, a report of success leaves no update of the device to that version pending.
pub ingest_status_closes :
    (d v : String) (w : World)
    → Safe w
    → w.faults ≡ []
    → any (is_pending_for d v) (ingest_status d v "ok" w).1.db.firmware_updates ≡ false
unfolding ingest_status set_firmware_version mark_succeeded
ingest_status_closes d v w h fine =
    rw (fine, ingest_status, set_firmware_version, mark_succeeded)
      (succeed_leaves_none d v w.now w.db.firmware_updates h)

-- What a report of success does to the table: it closes one update, or nothing at all.
report_effect :
    (d v : String) (w : World)
    → let after = (ingest_status d v "ok" w).1.db.firmware_updates in
      (after ≡ w.db.firmware_updates)
      ⊎ (after ≡ update_first (is_pending_for d v) (succeed w.now) w.db.firmware_updates)
unfolding ingest_status set_firmware_version mark_succeeded
report_effect d v w = ground arith

other_version :
    (d v : String) (r : UpdateRecord)
    → (r.desired_version == v) ≡ false
    → is_pending_for d v r ≡ false
other_version d v r h = ground arith

-- A number of reports that the device runs a version, one after the other.
abbrev pub ok_reports : String → String → ℕ → World → World
ok_reports d v zero w = w
ok_reports d v (suc n) w = ok_reports d v n (ingest_status d v "ok" w).1

ok_reports_keep :
    (d v : String) (row : UpdateRecord)
    → (row.desired_version == v) ≡ false
    → (n : ℕ) (w : World) → find_first (is_of d) w.db.firmware_updates ≡ some row
    → find_first (is_of d) (ok_reports d v n w).db.firmware_updates ≡ some row
ok_reports_keep d v row differs zero w found = found
ok_reports_keep d v row differs (suc n) w found =
    ok_reports_keep d v row differs n (ingest_status d v "ok" w).1 (elim (report_effect d v w) [
      | inl same_rows ↦ rw same_rows found
      | inr closed ↦ rw closed (
          find_first-update_other (is_of d) (is_pending_for d v) (succeed w.now)
            w.db.firmware_updates (λ y. refl) found (other_version d v row differs))
    ])

-- The manifest of a release, as it is published to a device.
abbrev pub manifest_to : String → Release → String → String → Message
manifest_to d release url nonce = record {
  topic = String.◌++◌ "fishhub/" (String.◌++◌ d "/firmware");
  body =
      ("version", release.version)
      ∷ ("url", url)
      ∷ ("sha256", release.sha256)
      ∷ ("nonce", nonce)
      ∷ [];
}

abbrev with_message : Message → World → World
with_message m w = record w { published = w.published ++ m ∷ [] }

-- One message more has been published to the broker, the manifest of a release.
abbrev pub HasSent : String → Release → World → World → Type 0
HasSent d release w w' =
    (url : String) × (nonce : String) × (w'.published
      ≡ w.published ++ manifest_to d release url nonce ∷ [])

module _ (c : Config) (d u : String) (release : Release) (latest : c.latest ≡ some release) where
  check_ownership-quiet : (w : World) → (check_ownership d u w).1.published ≡ w.published
  unfolding check_ownership
  check_ownership-quiet w = ground arith

  to_retry-quiet : (w : World) → (to_retry c w.now (latest_record d w)).1.published ≡ w.published
  unfolding to_retry latest_record
  to_retry-quiet w = ground arith

  reset_pending-quiet :
      (nonce : String) (w : World) → (reset_pending d nonce w).1.published ≡ w.published
  unfolding reset_pending
  reset_pending-quiet nonce w = ground arith

  send_release-HasSent :
      (w : World)
      → Post (λ _ w'. HasSent d release w w') (λ _ _. Unit {0}) (send_release c d release w)
  unfolding send_release publish_manifest publish
  send_release-HasSent w =
      Post-bind {Q = λ _ w1. w1.published ≡ w.published} (draw "generate nonce" w) _
        (Post-draw "generate nonce" w (λ _ _. refl) tt)
        (λ nonce w1 same1.
          Post-bind {Q = λ _ w2. w2.published ≡ w.published}
            (call "presign url" (pure (c.presign release.object_key c.presign_expiry)) w1) _
            (Post-call "presign url" (pure (c.presign release.object_key c.presign_expiry)) w1
              (λ later.
                returns (c.presign release.object_key c.presign_expiry)
                  (record w1 { faults = later }) refl same1)
              (λ _. tt))
            (λ url w2 same2.
              Post-bind {Q = λ _ w3. HasSent d release w w3}
                (publish_manifest d release url nonce w2) _
                (Post-call "publish manifest"
                  (λ v. (ok tt, with_message (manifest_to d release url nonce) v)) w2
                  (λ later.
                    returns tt
                      (with_message (manifest_to d release url nonce)
                        (record w2 { faults = later }))
                      refl
                      (url, nonce, ap (λ ms. ms ++ manifest_to d release url nonce ∷ []) same2))
                  (λ _. tt))
                (λ _ w3 sent. returns nonce w3 refl sent)))

  retry_update-HasSent :
      (w : World) → Post (λ _ w'. HasSent d release w w') (λ _ _. Unit {0}) (retry_update c d u w)
  unfolding retry_update
  retry_update-HasSent w =
      Post-bind {Q = λ _ w1. w1.published ≡ w.published} (check_ownership d u w) _
        (quietly (check_ownership d u w) (check_ownership-quiet w))
        (λ _ w1 same1.
          Post-bind {Q = λ r w2. (r ≡ release) × (w2.published ≡ w.published)}
            (or_error no_release c.latest, w1) _ (rw latest (returns release w1 refl (refl, same1)))
            (λ r w2 (is, same2).
              Post-bind {Q = λ _ w3. w3.published ≡ w.published}
                (to_retry c w2.now (latest_record d w2)) _
                (quietly (to_retry c w2.now (latest_record d w2)) (to_retry-quiet w2 ∙ same2))
                (λ _ w3 same3.
                  Post-bind {Q = λ _ w4. HasSent d release w w4} (send_release c d r w3) _
                    (rw is (
                      Post-both (send_release-HasSent w3)
                        (λ _ w4 (url, nonce, sent). (
                          url,
                          nonce,
                          sent ∙ ap (λ ms. ms ++ manifest_to d release url nonce ∷ []) same3,
                        ))
                        (λ _ _ _. tt)))
                    (λ nonce w4 (url, sent_nonce, sent).
                      Post-both (quietly (reset_pending d nonce w4) (reset_pending-quiet nonce w4))
                        (λ _ w5 same5. (url, sent_nonce, same5 ∙ sent)) (λ _ _ _. tt)))))
    where
      quietly :
          {A : Type 0} (o : Result A × World) {before : List Message}
          → o.1.published ≡ before
          → Post (λ _ v. v.published ≡ before) (λ _ _. Unit {0}) o
      quietly (ok a, v) same = returns a v refl same
      quietly (err e, v) same = errs e v refl tt

-- A retry that returns has published the manifest of the latest release to the device, and nothing
-- else. If the newest update of the device asks for another version than that release, then after
-- any number of reports that the device runs the release, on the database of the retry and whatever
-- fails meanwhile, that update is still the newest one, still pending and still asks for its version.
pub retry_version_stuck :
    (c : Config) (d u : String) (release : Release) (r : UpdateRecord) (n : ℕ) (w later : World)
    → c.latest ≡ some release
    → find_first (is_of d) w.db.firmware_updates ≡ some r
    → (r.desired_version == release.version) ≡ false
    → (retry_update c d u w).0 ≡ ok tt
    → later.db ≡ (retry_update c d u w).1.db
    → HasSent d release w (retry_update c d u w).1
      × (row : UpdateRecord) × (find_first
            (is_of d)
            (ok_reports d release.version n later).db.firmware_updates
          ≡ some row)
      × (row.status ≡ update_pending)
      × (row.desired_version ≡ r.desired_version)
retry_version_stuck c d u release r n w later latest newest differs fine same =
    let done : Retried c d w (retry_update c d u w).1 = Post-ok (retry_update-Post c d w u) fine in
    let row : UpdateRecord = reset done.nonce w.now r in
    let at_retry : find_first (is_of d) later.db.firmware_updates ≡ some row =
      ap (λ db. find_first (is_of d) db.firmware_updates) (same ∙ done.restarted)
      ∙ find_first-update_first (is_of d) (reset done.nonce w.now) w.db.firmware_updates newest
          (find_first-true (is_of d) w.db.firmware_updates r newest) in
    (
      Post-ok (retry_update-HasSent c d u release latest w) fine,
      row,
      ok_reports_keep d release.version row differs n later at_retry,
      refl,
      refl,
    )

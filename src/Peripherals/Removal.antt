-- ===== src/Peripherals/Removal.antt =====
-- What a deletion of a peripheral does (Delete of internal/peripheral/service.go).
use fishhub_server.Prelude.{
  ℕ, String, ◌≡◌, refl, Bool, Option, none, some, List, find_first, update_first,
}
use fishhub_server.Schema.{Db, PeripheralRow}
use fishhub_server.World.{peripheral_not_found, World}
use fishhub_server.World.Post.{
  Post, returns, errs, Post-bind, Post-call, Post-both, Post-transaction,
}
use fishhub_server.Outbox.{insert}
use fishhub_server.Outbox.Insert.{insert-Post, with_event}
use fishhub_server.Peripherals.Model.{Peripheral}
use fishhub_server.Peripherals.Pushes.{push_type, push_timeout}
use fishhub_server.Peripherals.Store.{
  is_reachable, find_reachable, update_reachable, updating, deleted, scan_deleted,
  delete_peripheral,
}
use fishhub_server.Peripherals.{delete_payload, delete_and_push, delete}

-- The database with the reachable row marked as deleted.
abbrev pub without : String → String → String → ℕ → Db → Db
without device_id user_id id now db = record db {
  peripherals =
      update_first (is_reachable db.devices device_id user_id id) (deleted now) db.peripherals;
}

-- What the store has done: the row that was found is marked, and returned.
abbrev pub Marked : String → String → String → ℕ → Db → Peripheral → Db → Type 0
Marked device_id user_id id now before p after =
    (r : PeripheralRow) × (find_first (is_reachable before.devices device_id user_id id)
        before.peripherals
      ≡ some r)
    × (p.kind ≡ r.kind)
    × (p.pin ≡ r.pin)
    × (after ≡ without device_id user_id id now before)

delete_peripheral-Marked :
    (device_id user_id id : String) (w : World)
    → Post
        (λ p w'. Marked device_id user_id id w.now w.db p w'.db)
        (λ _ _. Unit {0})
        (delete_peripheral device_id user_id id w)
unfolding delete_peripheral updating find_reachable update_reachable
delete_peripheral-Marked device_id user_id id w =
    Post-call "delete peripheral"
      (λ x.
        updating device_id user_id id (deleted x.now) scan_deleted
          (find_reachable device_id user_id id x) x)
      w
      (λ later.
        go later (find_first (is_reachable w.db.devices device_id user_id id) w.db.peripherals)
          refl)
      (λ _. tt)
  where
    go :
        (later : List Bool) (found : Option PeripheralRow)
        → find_first (is_reachable w.db.devices device_id user_id id) w.db.peripherals ≡ found
        → Post
            (λ p w'. Marked device_id user_id id w.now w.db p w'.db)
            (λ _ _. Unit {0})
            (updating device_id user_id id
              (deleted w.now)
              scan_deleted
              found
              (record w { faults = later }))
    go later none e = errs peripheral_not_found _ refl tt
    go later (some r) e = returns _ _ refl (r, e, refl, refl, refl)

-- What Delete has done: the mark, with the event that tells the device behind the others.
abbrev pub Deleted : String → String → String → ℕ → Db → Db → Type 0
Deleted device_id user_id id now before after =
    (p : Peripheral) × (middle : Db) × (event_id : String) × Marked device_id user_id id now before
      p middle
    × (after ≡ with_event event_id push_type (delete_payload device_id p) push_timeout middle)

pub delete-Deleted :
    (device_id user_id id : String) (w : World)
    → Post
        (λ _ w'. Deleted device_id user_id id w.now w.db w'.db)
        (λ _ w'. w'.db ≡ w.db)
        (delete device_id user_id id w)
unfolding delete delete_and_push
delete-Deleted device_id user_id id w =
    Post-transaction (λ _ db. Deleted device_id user_id id w.now w.db db)
      "delete peripheral: begin tx" "delete peripheral: commit"
      (delete_and_push device_id user_id id) w
      (λ later.
        Post-bind (delete_peripheral device_id user_id id (record w { faults = later }))
          (λ p.
            insert "delete peripheral: enqueue push" push_type (delete_payload device_id p)
              push_timeout)
          (delete_peripheral-Marked device_id user_id id (record w { faults = later }))
          (λ p w1 marked.
            Post-both
              (insert-Post "delete peripheral: enqueue push" push_type (delete_payload device_id p)
                push_timeout w1)
              (λ _ w2 (event_id, added). (p, w1.db, event_id, marked, added)) (λ _ _ _. tt)))

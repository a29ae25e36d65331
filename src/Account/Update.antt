-- ===== src/Account/Update.antt =====
-- A change of the time zone and the devices of the user (UpdateTimezone of
-- internal/account/service.go).
use fishhub_server.Prelude.{
  ℕ, String, ◌≡◌, refl, sym, ap, ◌∙◌, Bool, Bool-cases, inl, inr, true, Option, none, some, List,
  [], ◌∷◌, ◌++◌, find_first, update_where,
}
use mathlib.Core.List.{append_assoc, append-nil}
use fishhub_server.Schema.{Db, Account, OutboxRow, device_config_push}
use fishhub_server.World.{account_not_found, invalid_timezone, ok, World, pure, transaction, ◌>>◌}
use fishhub_server.World.Post.{
  Post, returns, errs, Post-bind, Post-call, Post-map, Post-both, Post-transaction,
}
use fishhub_server.Outbox.{insert, new_row}
use fishhub_server.Outbox.Insert.{insert-Post}
use fishhub_server.Account.{
  is_account_of, with_timezone, set_timezone, write_timezone, store_timezone, device_ids,
  list_ids_by_user_id, config_push_type, config_push_timeout, enqueue_pushes, change_timezone,
  update_timezone,
}

-- The row of an event that pushes the time zone to a device.
abbrev pub push_row : String → String → String → OutboxRow
push_row timezone id device_id =
    new_row id config_push_type (device_config_push device_id timezone) config_push_timeout

-- One row for each device, in the order of the devices, each waiting with no attempt made.
pub data PushRows (timezone : String) : List String → List OutboxRow → Type 0 where
  no_rows : PushRows timezone [] []
  one_more :
      {ids : List String} {rows : List OutboxRow} (id device_id : String)
      → PushRows timezone ids rows
      → PushRows timezone (device_id ∷ ids) (push_row timezone id device_id ∷ rows)

-- The database with more events behind the others.
abbrev pub with_events : List OutboxRow → Db → Db
with_events rows db = record db { outbox = db.outbox ++ rows }

abbrev pub Pushed : String → List String → Db → Db → Type 0
Pushed timezone ids before after =
    (rows : List OutboxRow) × PushRows timezone ids rows × (after ≡ with_events rows before)

enqueue_pushes-Pushed :
    (timezone : String) (ids : List String) (w : World)
    → Post
        (λ _ w'. Pushed timezone ids w.db w'.db)
        (λ _ _. Unit {0})
        (enqueue_pushes timezone ids w)
unfolding enqueue_pushes
enqueue_pushes-Pushed timezone [] w = returns tt w refl (
  [],
  no_rows,
  ap (λ (l : List OutboxRow). record w.db { outbox = l }) (sym (append-nil w.db.outbox)),
)
enqueue_pushes-Pushed timezone (d ∷ ids) w =
    Post-bind {Q = λ _ w1. (id : String) × (w1.db ≡ with_events (push_row timezone id d ∷ []) w.db)}
      (insert "enqueue config push" config_push_type (device_config_push d timezone)
        config_push_timeout w)
      (λ _. enqueue_pushes timezone ids)
      (Post-both
        (insert-Post "enqueue config push" config_push_type (device_config_push d timezone)
          config_push_timeout w)
        (λ _ _ h. h) (λ _ _ _. tt))
      (λ _ w1 (id, added).
        Post-map (enqueue_pushes-Pushed timezone ids w1) (λ _ w2 (rows, pushes, all). (
          push_row timezone id d ∷ rows,
          one_more id d pushes,
          all
              ∙ ap (with_events rows) added
              ∙ ap (λ (l : List OutboxRow). record w.db { outbox = l })
                  (append_assoc w.db.outbox (push_row timezone id d ∷ []) rows),
        )))

-- The database with the time zone of the user's account changed.
abbrev pub moved : String → String → ℕ → Db → Db
moved user_id timezone now db = record db {
  accounts = update_where (is_account_of user_id) (with_timezone timezone now) db.accounts;
}

abbrev pub Moved : String → String → ℕ → Db → Account → Db → Type 0
Moved user_id timezone now before a after =
    (old : Account) × (find_first (is_account_of user_id) before.accounts ≡ some old)
    × (a ≡ with_timezone timezone now old)
    × (after ≡ moved user_id timezone now before)

set_timezone-Moved :
    (user_id timezone : String) (w : World) (found : Option Account)
    → find_first (is_account_of user_id) w.db.accounts ≡ found
    → Post
        (λ a w'. Moved user_id timezone w.now w.db a w'.db)
        (λ _ _. Unit {0})
        (set_timezone user_id timezone found w)
set_timezone-Moved user_id timezone w none e = errs account_not_found w refl tt
set_timezone-Moved user_id timezone w (some a) e = returns _ _ refl (a, e, refl, refl)

store_timezone-Moved :
    (user_id timezone : String) (w : World)
    → Post
        (λ a w'. Moved user_id timezone w.now w.db a w'.db)
        (λ _ _. Unit {0})
        (store_timezone user_id timezone w)
unfolding store_timezone
store_timezone-Moved user_id timezone w =
    Post-call "update timezone" (write_timezone user_id timezone) w
      (λ later.
        set_timezone-Moved user_id timezone (record w { faults = later })
          (find_first (is_account_of user_id) w.db.accounts) refl)
      (λ _. tt)

-- What a change of the time zone has done: the account of the user has the new time zone, and the
-- outbox has one new event for each of the user's devices.
abbrev pub Retimed : String → String → ℕ → List String → Db → Account → Db → Type 0
Retimed user_id timezone now ids before a after =
    (middle : Db) × Moved user_id timezone now before a middle × Pushed timezone ids middle after

change_timezone-Retimed :
    (user_id timezone : String) (ids : List String) (w : World)
    → Post
        (λ a w'. Retimed user_id timezone w.now ids w.db a w'.db)
        (λ _ _. Unit {0})
        (change_timezone user_id timezone ids w)
unfolding change_timezone
change_timezone-Retimed user_id timezone ids w =
    Post-bind (store_timezone user_id timezone w)
      (λ account. do enqueue_pushes timezone ids; pure account)
      (store_timezone-Moved user_id timezone w)
      (λ account w1 m.
        Post-bind (enqueue_pushes timezone ids w1) (λ _. pure account)
          (enqueue_pushes-Pushed timezone ids w1) (λ _ w2 p. returns account w2 refl (w1.db, m, p)))

list_ids-Post :
    (user_id : String) (w : World)
    → Post
        (λ ids w'. (ids ≡ device_ids user_id w.db) × (w'.db ≡ w.db) × (w'.now ≡ w.now))
        (λ _ w'. w'.db ≡ w.db)
        (list_ids_by_user_id user_id w)
unfolding list_ids_by_user_id
list_ids-Post user_id w =
    Post-call "list devices" (λ w. (ok (device_ids user_id w.db), w)) w
      (λ later. returns _ _ refl (refl, refl, refl)) (λ _. refl)

-- For every test of time zone names, user, time zone and state: if update_timezone returns an
-- account, the name passed the test, the account that was returned is the user's first row with the
-- new time zone, and the database is the old one with that change and with one pending
-- device.config_push event for each device of the user behind the others. If it returns an error,
-- the database is the old one.
pub update_timezone-Post :
    (is_location : String → Bool) (user_id timezone : String) (w : World)
    → Post
        (λ a w'.
          (is_location timezone ≡ true)
          × Retimed user_id timezone w.now (device_ids user_id w.db) w.db a w'.db)
        (λ _ w'. w'.db ≡ w.db)
        (update_timezone is_location user_id timezone w)
unfolding update_timezone
update_timezone-Post is_location user_id timezone w = elim (Bool-cases (is_location timezone)) [
  | inr unknown ↦ rw unknown (errs invalid_timezone w refl refl)
  | inl known ↦ rw known (
      Post-bind (list_ids_by_user_id user_id w)
        (λ ids. transaction "begin tx" "commit tx" (change_timezone user_id timezone ids))
        (list_ids-Post user_id w)
        (λ ids w1 (listed, same, time).
          Post-both
            (Post-transaction (λ a db. Retimed user_id timezone w1.now ids w1.db a db) "begin tx"
              "commit tx" (change_timezone user_id timezone ids) w1
              (λ later.
                change_timezone-Retimed user_id timezone ids (record w1 { faults = later })))
            (λ a w2 q. (refl, rw (sym listed, sym same, sym time) q)) (λ _ w2 q. q ∙ same)))
]

-- ===== src/Outbox/Insert.antt =====
-- What an insertion into the outbox does (postgresStore.Insert of internal/outbox/store_postgres.go).
use fishhub_server.Prelude.{ℕ, String, ◌≡◌, refl, ap, [], ◌∷◌, ◌++◌}
use fishhub_server.Schema.{Db, Payload}
use fishhub_server.World.{World, draw, ◌>>=◌}
use fishhub_server.World.Post.{Post, returns, Post-bind, Post-call, Post-draw}
use fishhub_server.Outbox.{insert, add_event, new_row}

-- The database with one more event, behind the others.
abbrev pub with_event : String → String → Payload → ℕ → Db → Db
with_event id type payload timeout db = record db {
  outbox = db.outbox ++ new_row id type payload timeout ∷ [];
}

pub insert-Post :
    (wrap type : String) (payload : Payload) (timeout : ℕ) (w : World)
    → Post
        (λ _ w'. (id : String) × (w'.db ≡ with_event id type payload timeout w.db))
        (λ _ w'. w'.db ≡ w.db)
        (insert wrap type payload timeout w)
unfolding insert
insert-Post wrap type payload timeout w =
    Post-call wrap (do id ← draw wrap; add_event type payload timeout id) w
      (λ later.
        Post-bind {Q = λ id w'. w'.db ≡ w.db} (draw wrap (record w { faults = later }))
          (add_event type payload timeout)
          (Post-draw wrap (record w { faults = later }) (λ v left. refl) refl)
          (λ id w' same.
            returns tt (record w' { db = with_event id type payload timeout w'.db }) refl
              (id, ap (with_event id type payload timeout) same)))
      (λ later. refl)

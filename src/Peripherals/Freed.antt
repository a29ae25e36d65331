-- ===== src/Peripherals/Freed.antt =====
-- What a deleted peripheral held (Delete of internal/peripheral/service.go).
use fishhub_server.Prelude.{
  ℕ, String, ◌==◌, ◌≡◌, inl, inr, refl, sym, ap, ◌∙◌, ◌&&◌, eqb, Bool, Bool-cases, true, false,
  Option, none, some, List, [], ◌∷◌, is_none, All, any, find_first, find_first-All, find_first-true,
  update_first, arith, eq_iff,
}
use mathlib.Core.Path.{subst}
use fishhub_server.Schema.{Db, PeripheralRow}
use fishhub_server.World.{World}
use fishhub_server.World.Post.{Post, Post-both}
use fishhub_server.Outbox.Insert.{with_event}
use fishhub_server.Peripherals.Pushes.{push_type, push_timeout}
use fishhub_server.Peripherals.Violations.{has_name, has_pin, has_port}
use fishhub_server.Peripherals.Create.{NewPeripheral}
use fishhub_server.Peripherals.Store.{is_reachable, deleted}
use fishhub_server.Peripherals.{delete_payload, delete}
use fishhub_server.Peripherals.Removal.{Deleted, without, delete-Deleted}
use fishhub_server.Peripherals.Register.{Free}
use fishhub_server.Peripherals.Apart.{Apart, clash, same_port}

eq_sym : (s t : String) → (s == t) ≡ (t == s)
eq_sym s t = ground (arith, eq_iff s t, eq_iff t s)

same_port_sym : (a b : Option String) → same_port a b ≡ same_port b a
same_port_sym none none = refl
same_port_sym none (some b) = refl
same_port_sym (some a) none = refl
same_port_sym (some a) (some b) = eq_sym a b

eqb_sym : (a b : ℕ) → eqb a b ≡ eqb b a
eqb_sym a b = ground arith

clash_sym : (r o : PeripheralRow) → clash r o ≡ false → clash o r ≡ false
clash_sym r o h = ground (
  arith,
  eq_sym r.id o.id,
  eq_sym r.device_id o.device_id,
  eq_sym r.name o.name,
  eqb_sym r.pin o.pin,
  same_port_sym r.port_id o.port_id,
)

-- What is asked for in place of a row: its device, its name, its pin and its port.
abbrev pub InPlaceOf : PeripheralRow → NewPeripheral → Type 0
InPlaceOf r n =
    (n.device_id ≡ r.device_id)
    × (n.name ≡ r.name)
    × (n.port.pin ≡ r.pin)
    × (r.port_id ≡ some n.port.id)

module _ (r o : PeripheralRow) (n : NewPeripheral) (active : is_none r.deleted_at ≡ true)
    (place : InPlaceOf r n) (apart : clash r o ≡ false) where
  not_named : has_name n.device_id n.name o ≡ false
  not_named =
      rw (place.0, place.1) (ground (arith, eq_sym r.device_id o.device_id, eq_sym r.name o.name))

  not_pinned : has_pin n.device_id n.port o ≡ false
  not_pinned =
      rw (place.0, place.2) (ground (arith, eq_sym r.device_id o.device_id, eqb_sym r.pin o.pin))

  not_on_port : has_port n.port o ≡ false
  not_on_port = go o.port_id (ground (arith, place.3))
    where
      go :
          (port_id : Option String)
          → (is_none o.deleted_at && same_port (some n.port.id) port_id) ≡ false
          → (is_none o.deleted_at && elim port_id [ none ↦ false | some i ↦ i == n.port.id ])
            ≡ false
      go none k = ground arith
      go (some i) k = ground (arith, eq_sym i n.port.id)

-- A test that only the row itself passes is one that no row passes once it is deleted.
module _ (q : PeripheralRow → Bool) (now : ℕ) (r : PeripheralRow) (gone : q (deleted now r) ≡ false)
    (after : (o : PeripheralRow) → clash r o ≡ false → q o ≡ false) where
  others : (rs : List PeripheralRow) → All (λ o. clash r o ≡ false) rs → any q rs ≡ false
  unfolding any
  others [] h = refl
  others (o ∷ rs) h = ground (arith, after o h.0, others rs h.1)

  deleted-any :
      (p : PeripheralRow → Bool) (rs : List PeripheralRow)
      → Apart rs
      → find_first p rs ≡ some r
      → any q (update_first p (deleted now) rs) ≡ false
  unfolding find_first update_first any
  deleted-any p [] h e = refl
  deleted-any p (o ∷ rs) h e = elim (Bool-cases (p o)) [
    | inl hit ↦
        let same : o ≡ r = ground arith in
        rw hit (
          ground (
            arith,
            subst (λ x. q (deleted now x) ≡ false) (sym same) gone,
            others rs (subst (λ x. All (λ y. clash x y ≡ false) rs) same h.0),
          ))
    | inr miss ↦ rw miss (
        ground (
          arith,
          after o
              (clash_sym o r (find_first-All p (λ x. clash o x ≡ false) rs r (ground arith) h.0)),
          deleted-any p rs h.1,
        ))
  ]

module _ (device_id user_id id : String) (r : PeripheralRow) (n : NewPeripheral) where
  without-Free :
      (now : ℕ) (db : Db)
      → Apart db.peripherals
      → find_first (is_reachable db.devices device_id user_id id) db.peripherals ≡ some r
      → is_none r.deleted_at ≡ true
      → InPlaceOf r n
      → Free n (without device_id user_id id now db)
  without-Free now db h e active place = (
    deleted-any (has_name n.device_id n.name) now r (ground arith)
        (λ o k. not_named r o n active place k) (is_reachable db.devices device_id user_id id)
        db.peripherals h e,
    deleted-any (has_pin n.device_id n.port) now r (ground arith)
        (λ o k. not_pinned r o n active place k) (is_reachable db.devices device_id user_id id)
        db.peripherals h e,
    deleted-any (has_port n.port) now r (ground arith) (λ o k. not_on_port r o n active place k)
        (is_reachable db.devices device_id user_id id) db.peripherals h e,
  )

-- For every device, user, peripheral and state in which no two peripherals clash: if delete returns,
-- the reachable row with that id was marked as deleted and one pending peripheral.push event that
-- deletes its address was added behind the others, and what the row held, its name and its pin on
-- the device and its port, is free for another registration. If it returns an error, the database
-- is the old one.
pub delete_frees :
    (device_id user_id id : String) (r : PeripheralRow) (n : NewPeripheral) (w : World)
    → Apart w.db.peripherals
    → find_first (is_reachable w.db.devices device_id user_id id) w.db.peripherals ≡ some r
    → InPlaceOf r n
    → Post
        (λ _ w'. Deleted device_id user_id id w.now w.db w'.db × Free n w'.db)
        (λ _ w'. w'.db ≡ w.db)
        (delete device_id user_id id w)
delete_frees device_id user_id id r n w h e place =
    Post-both (delete-Deleted device_id user_id id w) (λ _ w' done. (done, freed w'.db done))
      (λ _ _ same. same)
  where
    active : is_none r.deleted_at ≡ true
    active =
        let passes : is_reachable w.db.devices device_id user_id id r ≡ true =
          find_first-true (is_reachable w.db.devices device_id user_id id) w.db.peripherals r e in
        ground arith

    freed : (db : Db) → Deleted device_id user_id id w.now w.db db → Free n db
    freed db (p, middle, event_id, (_, _, _, _, marked), added) =
        subst (Free n)
          (sym (
            added
            ∙ ap (with_event event_id push_type (delete_payload device_id p) push_timeout) marked))
          (without-Free device_id user_id id r n w.now w.db h e active place)

-- ===== src/Peripherals/Apart.antt =====
-- When no two rows of the table of peripherals clash, and the changes of a table that keep it so.
use fishhub_server.Prelude.{
  ℕ, String, ◌==◌, ◌≡◌, ◌&&◌, ◌||◌, not, eqb, Bool, Bool-cases, inl, inr, true, false, Option, none,
  some, List, [], ◌∷◌, ◌++◌, is_none, any, All, All-append, update_first, arith, eq_iff,
}
use fishhub_server.Schema.{PeripheralRow}
use fishhub_server.Peripherals.Violations.{has_name, has_pin, has_port}
use fishhub_server.Peripherals.Create.{NewPeripheral, new_peripheral, has_id}
use fishhub_server.Peripherals.Store.{deleted, renamed, name_taken}

abbrev pub same_port : Option String → Option String → Bool
same_port (some a) (some b) = a == b
same_port (some a) none = false
same_port none b = false

abbrev pub same_place : PeripheralRow → PeripheralRow → Bool
same_place r o =
    (r.device_id == o.device_id && (r.name == o.name || eqb r.pin o.pin))
    || same_port r.port_id o.port_id

-- Two rows with one id, or two active ones with one name or one pin on one device, or with one port.
abbrev pub clash : PeripheralRow → PeripheralRow → Bool
clash r o = r.id == o.id || (is_none r.deleted_at && is_none o.deleted_at && same_place r o)

abbrev pub Apart : List PeripheralRow → Type 0
Apart [] = Unit {0}
Apart (r ∷ rs) = All (λ o. clash r o ≡ false) rs × Apart rs

-- A row that clashes with none before it can be added.
pub Apart-append :
    (rs : List PeripheralRow) (n : PeripheralRow)
    → Apart rs
    → All (λ r. clash r n ≡ false) rs
    → Apart (rs ++ n ∷ [])
Apart-append [] n h k = (tt, tt)
Apart-append (r ∷ rs) n h k =
    (All-append (λ o. clash r o ≡ false) rs (n ∷ []) h.0 (k.0, tt), Apart-append rs n h.1 k.1)

free_place :
    (n : NewPeripheral) (now : ℕ) (id : String) (r : PeripheralRow)
    → has_name n.device_id n.name r ≡ false
    → has_pin n.device_id n.port r ≡ false
    → has_port n.port r ≡ false
    → has_id id r ≡ false
    → clash r (new_peripheral n now id) ≡ false
free_place n now id r a b c d = go r.port_id c
  where
    go :
        (port_id : Option String)
        → (is_none r.deleted_at && elim port_id [ none ↦ false | some i ↦ i == n.port.id ]) ≡ false
        → (r.id == id
            || (is_none r.deleted_at
                && true
                && ((r.device_id == n.device_id && (r.name == n.name || eqb r.pin n.port.pin))
                    || same_port port_id (some n.port.id))))
          ≡ false
    go none e = ground arith
    go (some i) e = ground arith

-- A row that passes the tests of the indexes clashes with none.
pub new_peripheral-All :
    (n : NewPeripheral) (now : ℕ) (id : String) (rs : List PeripheralRow)
    → any (has_name n.device_id n.name) rs ≡ false
    → any (has_pin n.device_id n.port) rs ≡ false
    → any (has_port n.port) rs ≡ false
    → any (has_id id) rs ≡ false
    → All (λ r. clash r (new_peripheral n now id) ≡ false) rs
unfolding any
new_peripheral-All n now id [] a b c d = tt
new_peripheral-All n now id (r ∷ rs) a b c d = (
  free_place n now id r (ground arith) (ground arith) (ground arith) (ground arith),
  new_peripheral-All n now id rs (ground arith) (ground arith) (ground arith) (ground arith),
)

-- A change of one row that keeps it apart from the others it was apart from.
module _ (p : PeripheralRow → Bool) (f : PeripheralRow → PeripheralRow)
    (keeps : (r o : PeripheralRow) → clash r o ≡ false → clash (f r) o ≡ false)
    (keeps' : (r o : PeripheralRow) → clash r o ≡ false → clash r (f o) ≡ false) where
  update_first-All :
      (r : PeripheralRow) (rs : List PeripheralRow)
      → All (λ o. clash r o ≡ false) rs
      → All (λ o. clash r o ≡ false) (update_first p f rs)
  unfolding update_first
  update_first-All r [] h = tt
  update_first-All r (o ∷ rs) h = elim (Bool-cases (p o)) [
    | inl hit ↦ rw hit (keeps' r o h.0, h.1)
    | inr miss ↦ rw miss (h.0, update_first-All r rs h.1)
  ]

  All-keeps :
      (r : PeripheralRow) (rs : List PeripheralRow)
      → All (λ o. clash r o ≡ false) rs
      → All (λ o. clash (f r) o ≡ false) rs
  All-keeps r [] h = tt
  All-keeps r (o ∷ rs) h = (keeps r o h.0, All-keeps r rs h.1)

  pub update_first-Apart : (rs : List PeripheralRow) → Apart rs → Apart (update_first p f rs)
  unfolding update_first
  update_first-Apart [] h = tt
  update_first-Apart (r ∷ rs) h = elim (Bool-cases (p r)) [
    | inl hit ↦ rw hit (All-keeps r rs h.0, h.1)
    | inr miss ↦ rw miss (update_first-All r rs h.0, update_first-Apart rs h.1)
  ]

pub deleted-Apart :
    (p : PeripheralRow → Bool) (now : ℕ) (rs : List PeripheralRow)
    → Apart rs
    → Apart (update_first p (deleted now) rs)
deleted-Apart p now =
    update_first-Apart p (deleted now) (λ r o h. ground arith) (λ r o h. ground arith)

-- A renaming, where no other active row of the device has the name.
module _ (p : PeripheralRow → Bool) (device_id id name : String) (now : ℕ)
    (is_row : (r : PeripheralRow) → p r ≡ true → (r.id ≡ id) × (r.device_id ≡ device_id)) where
  renamed_apart :
      (r o : PeripheralRow)
      → p r ≡ true
      → clash r o ≡ false
      → (has_name device_id name o && not (o.id == id)) ≡ false
      → clash (renamed name now r) o ≡ false
  renamed_apart r o hit apart free =
      let (same, of_device) = is_row r hit in
      ground (
        arith,
        eq_iff r.id o.id,
        eq_iff o.id id,
        eq_iff r.device_id o.device_id,
        eq_iff o.device_id device_id,
        eq_iff name o.name,
        eq_iff o.name name,
      )

  apart_renamed :
      (r o : PeripheralRow)
      → p o ≡ true
      → clash r o ≡ false
      → (has_name device_id name r && not (r.id == id)) ≡ false
      → clash r (renamed name now o) ≡ false
  apart_renamed r o hit apart free =
      let (same, of_device) = is_row o hit in
      ground (
        arith,
        eq_iff r.id o.id,
        eq_iff r.id id,
        eq_iff r.device_id o.device_id,
        eq_iff r.device_id device_id,
        eq_iff r.name name,
      )

  renamed-All :
      (r : PeripheralRow) (rs : List PeripheralRow)
      → p r ≡ true
      → All (λ o. clash r o ≡ false) rs
      → name_taken device_id id name rs ≡ false
      → All (λ o. clash (renamed name now r) o ≡ false) rs
  unfolding name_taken any
  renamed-All r [] hit h free = tt
  renamed-All r (o ∷ rs) hit h free =
      (renamed_apart r o hit h.0 (ground arith), renamed-All r rs hit h.1 (ground arith))

  All-renamed :
      (r : PeripheralRow) (rs : List PeripheralRow)
      → All (λ o. clash r o ≡ false) rs
      → (has_name device_id name r && not (r.id == id)) ≡ false
      → All (λ o. clash r o ≡ false) (update_first p (renamed name now) rs)
  unfolding update_first
  All-renamed r [] h free = tt
  All-renamed r (o ∷ rs) h free = elim (Bool-cases (p o)) [
    | inl hit ↦ rw hit (apart_renamed r o hit h.0 free, h.1)
    | inr miss ↦ rw miss (h.0, All-renamed r rs h.1 free)
  ]

  pub renamed-Apart :
      (rs : List PeripheralRow)
      → Apart rs
      → name_taken device_id id name rs ≡ false
      → Apart (update_first p (renamed name now) rs)
  unfolding update_first name_taken any
  renamed-Apart [] h free = tt
  renamed-Apart (r ∷ rs) h free = elim (Bool-cases (p r)) [
    | inl hit ↦ rw hit (renamed-All r rs hit h.0 (ground arith), h.1)
    | inr miss ↦ rw miss (All-renamed r rs h.0 (ground arith), renamed-Apart rs h.1 (ground arith))
  ]

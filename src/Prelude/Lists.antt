-- ===== src/Prelude/Lists.antt =====
-- Lists as tables: lengths over the native numbers, selection by a Boolean test, the first row that
-- passes a test, and updates of rows in place.
use Prim.Native.Nat.{ℕ, zero, suc, ◌≤◌}
use mathlib.Core.Path.{◌≡◌, refl, subst}
use mathlib.Core.Logic.{◌⊎◌, inl, inr}
use mathlib.Core.Bool.{Bool, true, false, ◌||◌}
use mathlib.Core.Option.{Option, none, some}
use mathlib.Core.List.{List, [], ◌∷◌, ◌++◌}
use native.Mathlib.Omega.{arith}
use fishhub_server.Prelude.Tests.{if◌then◌else◌, Bool-cases}

module _ {ℓ} {A : Type ℓ} where
  abbrev pub length : List A → ℕ
  length [] = 0
  length (x ∷ xs) = suc (length xs)

  abbrev pub take : ℕ → List A → List A
  take zero xs = []
  take (suc n) [] = []
  take (suc n) (x ∷ xs) = x ∷ take n xs

  -- WHERE: the rows that pass a test, in the table's order.
  unfoldable pub select : (A → Bool) → List A → List A
  select p [] = []
  select p (x ∷ xs) = let rest = select p xs in if p x then x ∷ rest else rest

  -- WHERE … LIMIT 1.
  unfoldable pub find_first : (A → Bool) → List A → Option A
  find_first p [] = none
  find_first p (x ∷ xs) = if p x then some x else find_first p xs

  -- EXISTS.
  unfoldable pub any : (A → Bool) → List A → Bool
  any p [] = false
  any p (x ∷ xs) = p x || any p xs

  -- UPDATE … WHERE.
  unfoldable pub update_where : (A → Bool) → (A → A) → List A → List A
  update_where p f [] = []
  update_where p f (x ∷ xs) = (if p x then f x else x) ∷ update_where p f xs

  -- UPDATE of the first row that passes the test.
  unfoldable pub update_first : (A → Bool) → (A → A) → List A → List A
  update_first p f [] = []
  update_first p f (x ∷ xs) = if p x then f x ∷ xs else x ∷ update_first p f xs

  -- A predicate on every row.
  abbrev pub All {κ} : (A → Type κ) → List A → Type κ
  All P [] = Unit
  All P (x ∷ xs) = P x × All P xs

module _ {ℓ} {A : Type ℓ} where
  pub length-take-le : (n : ℕ) (xs : List A) → length (take n xs) ≤ n
  length-take-le zero xs = omega arith
  length-take-le (suc n) [] = omega arith
  length-take-le (suc n) (x ∷ xs) = omega (arith, length-take-le n xs)

  pub any-append : (p : A → Bool) (xs ys : List A) → any p (xs ++ ys) ≡ (any p xs || any p ys)
  unfolding any
  any-append p [] ys = refl
  any-append p (x ∷ xs) ys = ground (arith, any-append p xs ys)

  -- A predicate that a row keeps under an update holds of the table that is updated.
  pub All-update_where {κ} :
      (P : A → Type κ) (p : A → Bool) (f : A → A) (xs : List A)
      → ((x : A) → P x → P (f x))
      → All P xs
      → All P (update_where p f xs)
  unfolding update_where
  All-update_where P p f [] keep h = h
  All-update_where P p f (x ∷ xs) keep h = (if_keeps (p x), All-update_where P p f xs keep h.1)
    where
      if_keeps : (b : Bool) → P (if b then f x else x)
      if_keeps true = keep x h.0
      if_keeps false = h.0

  pub All-append {κ} : (P : A → Type κ) (xs ys : List A) → All P xs → All P ys → All P (xs ++ ys)
  All-append P [] ys hx hy = hy
  All-append P (x ∷ xs) ys hx hy = (hx.0, All-append P xs ys hx.1 hy)

module _ {ℓ κ} {A : Type ℓ} where
  pub All-last : (P : A → Type κ) (xs : List A) (x : A) → All P (xs ++ x ∷ []) → P x
  All-last P [] x h = h.0
  All-last P (y ∷ ys) x h = All-last P ys x h.1

-- To split on a computed list and keep the equation.
pub List-cases {ℓ} :
    {A : Type ℓ} (xs : List A) → (xs ≡ []) ⊎ ((x : A) × (rest : List A) × (xs ≡ x ∷ rest))
List-cases [] = inl refl
List-cases (x ∷ xs) = inr (x, xs, refl)

module _ {ℓ} {A : Type ℓ} where
  pub any-All-false : (p : A → Bool) (xs : List A) → any p xs ≡ false → All (λ x. p x ≡ false) xs
  unfolding any
  any-All-false p [] h = tt
  any-All-false p (x ∷ xs) h = ground (arith, any-All-false p xs)

  pub All-false-any : (p : A → Bool) (xs : List A) → All (λ x. p x ≡ false) xs → any p xs ≡ false
  unfolding any
  All-false-any p [] h = refl
  All-false-any p (x ∷ xs) h = ground (arith, All-false-any p xs h.1)

  -- The first row that passes the test is the one that is updated.
  pub find_first-update_first :
      (p : A → Bool) (f : A → A) (xs : List A) {x : A}
      → find_first p xs ≡ some x
      → p (f x) ≡ true
      → find_first p (update_first p f xs) ≡ some (f x)
  unfolding find_first update_first
  find_first-update_first p f [] h k = ground arith
  find_first-update_first p f (y ∷ ys) {x} h k = elim (Bool-cases (p y)) [
    | inl yes_y ↦ ground arith
    | inr no_y ↦ ground (arith, find_first-update_first p f ys {x = x})
  ]

  pub find_first-any :
      (p : A → Bool) (xs : List A) {x : A} → find_first p xs ≡ some x → any p xs ≡ true
  unfolding find_first any
  find_first-any p [] h = ground arith
  find_first-any p (y ∷ ys) {x} h = ground (arith, find_first-any p ys {x = x})

  -- An update of the first row that passes another test leaves the row that is found, if that
  -- row does not pass it.
  pub find_first-update_other :
      (p q : A → Bool) (f : A → A) (xs : List A) {x : A}
      → ((y : A) → p (f y) ≡ p y)
      → find_first p xs ≡ some x
      → q x ≡ false
      → find_first p (update_first q f xs) ≡ some x
  unfolding find_first update_first
  find_first-update_other p q f [] same h k = ground arith
  find_first-update_other p q f (y ∷ ys) {x} same h k =
      ground (arith, same y, find_first-update_other p q f ys {x = x} same)

  -- Where rows are updated in place and others added behind them, the row that is found is still
  -- the same one, updated.
  pub find_first-update_where :
      (p q : A → Bool) (f : A → A) (xs ys : List A) {x : A}
      → ((y : A) → p (f y) ≡ p y)
      → find_first p xs ≡ some x
      → find_first p (update_where q f xs ++ ys) ≡ some (if q x then f x else x)
  unfolding find_first update_where
  find_first-update_where p q f [] ys same h = ground arith
  find_first-update_where p q f (z ∷ zs) ys {x} same h = elim (Bool-cases (p z)) [
    | inl hit ↦ ground (arith, same z)
    | inr miss ↦ ground (arith, same z, find_first-update_where p q f zs ys {x = x} same)
  ]

module _ {ℓ} {A : Type ℓ} (p : A → Bool) where
  -- The row that is found passes the test.
  pub find_first-true : (xs : List A) (x : A) → find_first p xs ≡ some x → p x ≡ true
  unfolding find_first
  find_first-true [] x e = ground arith
  find_first-true (y ∷ ys) x e = elim (Bool-cases (p y)) [
    | inl hit ↦ subst (λ z. p z ≡ true) (ground arith) hit
    | inr miss ↦ find_first-true ys x (ground arith)
  ]

  -- The row that is found has what every row has.
  pub find_first-All {κ} :
      (P : A → Type κ) (xs : List A) (x : A) → find_first p xs ≡ some x → All P xs → P x
  unfolding find_first
  find_first-All P [] x e h = ground arith
  find_first-All P (y ∷ ys) x e h = elim (Bool-cases (p y)) [
    | inl hit ↦ subst P (ground arith) h.0
    | inr miss ↦ find_first-All P ys x (ground arith) h.1
  ]

  pub find_first-none : (xs : List A) → any p xs ≡ false → find_first p xs ≡ none
  unfolding any find_first
  find_first-none [] h = refl
  find_first-none (y ∷ ys) h = ground (arith, find_first-none ys)

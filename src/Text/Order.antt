-- ===== src/Text/Order.antt =====
-- The order of texts: that of uuid columns, whose texts have one length.
use Prim.Native.Char.{code}
use Prim.Native.Nat.{compare as compare_ℕ, Ordering}
use Prim.Native.String.{compare, then}
use Prim.Native.String.compare
use fishhub_server.Prelude.{ℕ, String, ◌≡◌, refl, sym, ap, ◌∙◌, arith}

then_trans :
    (o p q x y z : Ordering)
    → (o ≡ Ordering.lt → p ≡ Ordering.lt → q ≡ Ordering.lt)
    → (o ≡ Ordering.lt → p ≡ Ordering.eq → q ≡ Ordering.lt)
    → (o ≡ Ordering.eq → p ≡ Ordering.lt → q ≡ Ordering.lt)
    → (o ≡ Ordering.eq → p ≡ Ordering.eq → q ≡ Ordering.eq)
    → then o x ≡ Ordering.lt
    → then p y ≡ Ordering.lt
    → (x ≡ Ordering.lt → y ≡ Ordering.lt → z ≡ Ordering.lt)
    → then q z ≡ Ordering.lt
then_trans Ordering.lt Ordering.lt q x y z a b c d h k rest = ap (λ r. then r z) (a refl refl)
then_trans Ordering.lt Ordering.eq q x y z a b c d h k rest = ap (λ r. then r z) (b refl refl)
then_trans Ordering.lt Ordering.gt q x y z a b c d h k rest = ground arith
then_trans Ordering.eq Ordering.lt q x y z a b c d h k rest = ap (λ r. then r z) (c refl refl)
then_trans Ordering.eq Ordering.eq q x y z a b c d h k rest =
    ap (λ r. then r z) (d refl refl) ∙ rest h k
then_trans Ordering.eq Ordering.gt q x y z a b c d h k rest = ground arith
then_trans Ordering.gt p q x y z a b c d h k rest = ground arith

lt_lt :
    (a b c : ℕ)
    → compare_ℕ a b ≡ Ordering.lt
    → compare_ℕ b c ≡ Ordering.lt
    → compare_ℕ a c ≡ Ordering.lt
lt_lt a b c h k = ground arith

lt_eq :
    (a b c : ℕ)
    → compare_ℕ a b ≡ Ordering.lt
    → compare_ℕ b c ≡ Ordering.eq
    → compare_ℕ a c ≡ Ordering.lt
lt_eq a b c h k = ground arith

eq_lt :
    (a b c : ℕ)
    → compare_ℕ a b ≡ Ordering.eq
    → compare_ℕ b c ≡ Ordering.lt
    → compare_ℕ a c ≡ Ordering.lt
eq_lt a b c h k = ground arith

eq_eq :
    (a b c : ℕ)
    → compare_ℕ a b ≡ Ordering.eq
    → compare_ℕ b c ≡ Ordering.eq
    → compare_ℕ a c ≡ Ordering.eq
eq_eq a b c h k = ground arith

pub lt_trans :
    (s t u : String)
    → compare s t ≡ Ordering.lt
    → compare t u ≡ Ordering.lt
    → compare s u ≡ Ordering.lt
lt_trans String.[] String.[] String.[] h k = h
lt_trans String.[] (String.◌∷◌ d t) String.[] h k = ground (arith, sym (compare.cons-nil d t) ∙ k)
lt_trans String.[] String.[] (String.◌∷◌ e u) h k = compare.nil-cons e u
lt_trans String.[] (String.◌∷◌ d t) (String.◌∷◌ e u) h k = compare.nil-cons e u
lt_trans (String.◌∷◌ c s) String.[] u h k = ground (arith, sym (compare.cons-nil c s) ∙ h)
lt_trans (String.◌∷◌ c s) (String.◌∷◌ d t) String.[] h k =
    ground (arith, sym (compare.cons-nil d t) ∙ k)
lt_trans (String.◌∷◌ c s) (String.◌∷◌ d t) (String.◌∷◌ e u) h k =
    compare.cons-cons c e s u
    ∙ then_trans (compare_ℕ (code c) (code d)) (compare_ℕ (code d) (code e))
        (compare_ℕ (code c) (code e)) (compare s t) (compare t u) (compare s u)
        (lt_lt (code c) (code d) (code e)) (lt_eq (code c) (code d) (code e))
        (eq_lt (code c) (code d) (code e)) (eq_eq (code c) (code d) (code e))
        (sym (compare.cons-cons c d s t) ∙ h) (sym (compare.cons-cons d e t u) ∙ k)
        (λ h' k'. lt_trans s t u h' k')

-- Of two texts that the order finds greater, the other one is the less.
then_flip :
    (o p x y : Ordering)
    → (o ≡ Ordering.gt → p ≡ Ordering.lt)
    → (o ≡ Ordering.eq → p ≡ Ordering.eq)
    → (x ≡ Ordering.gt → y ≡ Ordering.lt)
    → then o x ≡ Ordering.gt
    → then p y ≡ Ordering.lt
then_flip Ordering.lt p x y a b c h = ground arith
then_flip Ordering.eq p x y a b c h = ap (λ r. then r y) (b refl) ∙ c h
then_flip Ordering.gt p x y a b c h = ap (λ r. then r y) (a refl)

gt_lt : (a b : ℕ) → compare_ℕ a b ≡ Ordering.gt → compare_ℕ b a ≡ Ordering.lt
gt_lt a b h = ground arith

eq_flip : (a b : ℕ) → compare_ℕ a b ≡ Ordering.eq → compare_ℕ b a ≡ Ordering.eq
eq_flip a b h = ground arith

pub gt_flip : (s t : String) → compare s t ≡ Ordering.gt → compare t s ≡ Ordering.lt
gt_flip String.[] String.[] h = ground arith
gt_flip String.[] (String.◌∷◌ d t) h = ground (arith, sym (compare.nil-cons d t) ∙ h)
gt_flip (String.◌∷◌ c s) String.[] h = compare.nil-cons c s
gt_flip (String.◌∷◌ c s) (String.◌∷◌ d t) h =
    compare.cons-cons d c t s
    ∙ then_flip (compare_ℕ (code c) (code d)) (compare_ℕ (code d) (code c)) (compare s t)
        (compare t s) (gt_lt (code c) (code d)) (eq_flip (code c) (code d)) (λ k. gt_flip s t k)
        (sym (compare.cons-cons c d s t) ∙ h)

-- ===== src/Pages/Order.antt =====
-- The order of the rows in a list that is read page by page.
use Prim.Native.Nat.{Ordering}
use Prim.Native.String.{compare}
use text.Mathlib.Text.{is_eq}
use text.Mathlib.TextPositions.{compare_refl}
use fishhub_server.Prelude.{String, ◌==◌, ◌≡◌, refl, ap, true, false, ◌||◌, arith}
use fishhub_server.Text.Order.{lt_trans, gt_flip}
use fishhub_server.Pages.{Cursor, is_before, is_lt}

pub is_before_irrefl : (k : Cursor) → is_before k k ≡ false
is_before_irrefl (t, i) = ground (arith, compare_refl i)

id_trans :
    (i j k : String)
    → is_lt (compare i j) ≡ true
    → is_lt (compare j k) ≡ true
    → is_lt (compare i k) ≡ true
id_trans i j k h g = ap is_lt (lt_trans i j k (lt_of (compare i j) h) (lt_of (compare j k) g))
  where
    lt_of : (o : Ordering) → is_lt o ≡ true → o ≡ Ordering.lt
    lt_of Ordering.lt e = refl
    lt_of Ordering.eq e = ground arith
    lt_of Ordering.gt e = ground arith

pub is_before_trans :
    (a b c : Cursor) → is_before a b ≡ true → is_before b c ≡ true → is_before a c ≡ true
is_before_trans (t, i) (u, j) (v, k) h g = ground (arith, id_trans i j k)

-- Of two different ids, one is before the other.
id_total : (i j : String) → (i == j) ≡ false → (is_lt (compare i j) || is_lt (compare j i)) ≡ true
id_total i j differs = go (compare i j) refl differs
  where
    go :
        (o : Ordering) → compare i j ≡ o → is_eq o ≡ false → (is_lt o || is_lt (compare j i)) ≡ true
    go Ordering.lt e d = refl
    go Ordering.eq e d = ground arith
    go Ordering.gt e d = ap is_lt (gt_flip i j e)

pub is_before_total :
    (a b : Cursor) → (a.1 == b.1) ≡ false → (is_before a b || is_before b a) ≡ true
is_before_total (t, i) (u, j) differs = ground (arith, id_total i j differs)

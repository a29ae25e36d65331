-- ===== src/Pages/Complete.antt =====
-- A client that follows the cursors of a list (internal/api/cursor.go).
use fishhub_server.Prelude.{
  ℕ, zero, suc, ◌<◌, ◌≡◌, refl, sym, ap, ◌∙◌, Bool, true, false, Option, none, some, List, [], ◌∷◌,
  ◌++◌, All, length, take, select, eqb, arith,
}
use mathlib.Core.Path.{subst}
use mathlib.Core.List.{append_assoc, append-nil}
use fishhub_server.Pages.{
  Cursor, is_before, insert_desc, sort_desc, is_after, page_of, last_key, follow,
}
use fishhub_server.Pages.Order.{is_before_irrefl, is_before_trans}
use fishhub_server.Pages.Sorted.{Desc, Distinct, sort_desc-Desc, sort_desc-select}

module _ {A : Type 0} (key : A → Cursor) where
  All-middle : (P : A → Type 0) (xs : List A) (y : A) (ys : List A) → All P (xs ++ y ∷ ys) → P y
  All-middle P [] y ys h = h.0
  All-middle P (x ∷ xs) y ys h = All-middle P xs y ys h.1

  select-All : (p : A → Bool) (xs : List A) → All (λ x. p x ≡ true) xs → select p xs ≡ xs
  unfolding select
  select-All p [] h = refl
  select-All p (x ∷ xs) h = rw (h.0) (ap (λ l. x ∷ l) (select-All p xs h.1))

  asym : (a b : Cursor) → is_before b a ≡ true → is_before a b ≡ false
  asym a b h = ground (arith, is_before_trans a b a, is_before_irrefl a)

  -- What the cursor of a row lets through is what stands behind the row.
  select-behind :
      (xs : List A) (y : A) (ys : List A)
      → Desc key (xs ++ y ∷ ys)
      → select (is_after key (some (key y))) (xs ++ y ∷ ys) ≡ ys
  unfolding select
  select-behind [] y ys h =
      rw (is_before_irrefl (key y)) (select-All (is_after key (some (key y))) ys h.0)
  select-behind (x ∷ xs) y ys h =
      rw (asym (key x) (key y) (All-middle (λ z. is_before (key z) (key x) ≡ true) xs y ys h.0))
        (select-behind xs y ys h.1)

  -- A page holds all that is left, or it is full and has a last row.
  data Taken (size : ℕ) (rows : List A) : Type 0 where
    all_left : eqb (length (take size rows)) size ≡ false → take size rows ≡ rows → Taken size rows
    full_page :
        (xs : List A) (y : A) (ys : List A)
        → rows ≡ xs ++ y ∷ ys
        → take size rows ≡ xs ++ y ∷ []
        → eqb (length (take size rows)) size ≡ true
        → Taken size rows

  taken : (m : ℕ) (rows : List A) → Taken (suc m) rows
  taken m [] = all_left (ground arith) refl
  taken zero (x ∷ rows) = full_page [] x rows refl refl refl
  taken (suc m) (x ∷ rows) = go (taken m rows)
    where
      go : Taken (suc m) rows → Taken (suc (suc m)) (x ∷ rows)
      go (all_left short is_all) = all_left (ground arith) (ap (λ l. x ∷ l) is_all)
      go (full_page xs y ys splits page full) =
          full_page (x ∷ xs) y ys (ap (λ l. x ∷ l) splits) (ap (λ l. x ∷ l) page) (ground arith)

  last_key-last : (xs : List A) (y : A) → last_key key (xs ++ y ∷ []) ≡ some (key y)
  last_key-last [] y = refl
  last_key-last (x ∷ []) y = refl
  last_key-last (x ∷ z ∷ xs) y = last_key-last (z ∷ xs) y

  length-middle : (xs : List A) (y : A) (ys : List A) → length ys < length (xs ++ y ∷ ys)
  length-middle [] y ys = omega arith
  length-middle (x ∷ xs) y ys = ground (arith, length-middle xs y ys)

  length-insert_desc : (x : A) (ys : List A) → length (insert_desc key x ys) ≡ suc (length ys)
  unfolding insert_desc
  length-insert_desc x [] = refl
  length-insert_desc x (y ∷ ys) = ground (arith, length-insert_desc x ys)

  length-sort_desc : (xs : List A) → length (sort_desc key xs) ≡ length xs
  unfolding sort_desc
  length-sort_desc [] = refl
  length-sort_desc (x ∷ xs) = length-insert_desc x (sort_desc key xs) ∙ ap suc (length-sort_desc xs)

  All-true : (xs : List A) → All (λ x. true ≡ true) xs
  All-true [] = tt
  All-true (x ∷ xs) = (refl, All-true xs)

  module _ (rows : List A) (distinct : Distinct key rows) (m : ℕ) where
    page_is :
        (after : Option Cursor) (left : List A)
        → select (is_after key after) (sort_desc key rows) ≡ left
        → page_of key (suc m) after rows ≡ take (suc m) left
    unfolding page_of
    page_is after left e =
        ap (take (suc m)) (sort_desc-select key (is_after key after) rows distinct ∙ e)

    -- One request: what it shows, and what is left behind its last row.
    follow_once :
        (n : ℕ) (after : Option Cursor) (before left : List A)
        → ((y : A) (l ys : List A)
            → sort_desc key rows ≡ l ++ y ∷ ys
            → length ys < n
            → follow key (suc m) n (some (key y)) rows ≡ ys)
        → sort_desc key rows ≡ before ++ left
        → select (is_after key after) (sort_desc key rows) ≡ left
        → length left < suc n
        → follow key (suc m) (suc n) after rows ≡ left
    unfolding follow
    follow_once n after before left rest splits shows enough = go (taken m left)
      where
        go : Taken (suc m) left → follow key (suc m) (suc n) after rows ≡ left
        go (all_left short is_all) =
            rw (page_is after left shows, short) (append-nil (take (suc m) left) ∙ is_all)
        go (full_page xs y ys is page full) =
            rw (page_is after left shows, full, page, last_key-last xs y)
              (ap (λ l. (xs ++ y ∷ []) ++ l)
                  (rest y (before ++ xs) ys
                    (splits ∙ ap (λ l. before ++ l) is ∙ sym (append_assoc before xs (y ∷ ys)))
                    (ground (arith, length-middle xs y ys, ap length is)))
                ∙ append_assoc xs (y ∷ []) ys
                ∙ sym is)

    follow_from :
        (n : ℕ) (after : Option Cursor) (before left : List A)
        → sort_desc key rows ≡ before ++ left
        → select (is_after key after) (sort_desc key rows) ≡ left
        → length left < n
        → follow key (suc m) n after rows ≡ left
    follow_from zero after before left splits shows enough = ground arith
    follow_from (suc n) after before left splits shows enough =
        follow_once n after before left
          (λ y l ys is short.
            follow_from n (some (key y)) (l ++ y ∷ []) ys (is ∙ sym (append_assoc l (y ∷ []) ys))
              (ap (select (is_after key (some (key y)))) is
                ∙ select-behind l y ys (subst (Desc key) is (sort_desc-Desc key rows distinct)))
              short)
          splits shows enough

  pub follow_all :
      (rows : List A) (m n : ℕ)
      → Distinct key rows
      → length rows < n
      → follow key (suc m) n none rows ≡ sort_desc key rows
  follow_all rows m n distinct enough =
      follow_from rows distinct m n none [] (sort_desc key rows) refl
        (select-All (λ x. true) (sort_desc key rows) (All-true (sort_desc key rows)))
        (ground (arith, length-sort_desc rows))

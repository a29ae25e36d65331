-- ===== src/Pages/Sorted.antt =====
-- The order of a list of rows with different ids, and of the rows that pass a test.
use fishhub_server.Prelude.{
  ◌==◌, ◌≡◌, refl, sym, ap, ◌∙◌, inl, inr, Bool, Bool-cases, true, false, List, [], ◌∷◌,
  if◌then◌else◌, All, select, arith,
}
use fishhub_server.Pages.{Cursor, is_before, insert_desc, sort_desc}
use fishhub_server.Pages.Order.{is_before_trans, is_before_total}

module _ {A : Type 0} (key : A → Cursor) where
  -- Every row behind another one has a smaller key.
  abbrev pub Desc : List A → Type 0
  Desc [] = Unit {0}
  Desc (x ∷ xs) = All (λ y. is_before (key y) (key x) ≡ true) xs × Desc xs

  -- No two rows have one id.
  abbrev pub Distinct : List A → Type 0
  Distinct [] = Unit {0}
  Distinct (x ∷ xs) = All (λ y. ((key y).1 == (key x).1) ≡ false) xs × Distinct xs

  All-map : {P Q : A → Type 0} (xs : List A) → ((x : A) → P x → Q x) → All P xs → All Q xs
  All-map [] f h = tt
  All-map (x ∷ xs) f h = (f x h.0, All-map xs f h.1)

  insert_desc-All :
      (P : A → Type 0) (x : A) (ys : List A) → P x → All P ys → All P (insert_desc key x ys)
  unfolding insert_desc
  insert_desc-All P x [] h hs = (h, tt)
  insert_desc-All P x (y ∷ ys) h hs = elim (Bool-cases (is_before (key y) (key x))) [
    | inl below ↦ rw below (h, hs)
    | inr above ↦ rw above (hs.0, insert_desc-All P x ys h hs.1)
  ]

  sort_desc-All : (P : A → Type 0) (xs : List A) → All P xs → All P (sort_desc key xs)
  unfolding sort_desc
  sort_desc-All P [] h = tt
  sort_desc-All P (x ∷ xs) h = insert_desc-All P x (sort_desc key xs) h.0 (sort_desc-All P xs h.1)

  insert_desc-Desc :
      (x : A) (ys : List A)
      → All (λ y. ((key y).1 == (key x).1) ≡ false) ys
      → Desc ys
      → Desc (insert_desc key x ys)
  unfolding insert_desc
  insert_desc-Desc x [] other h = (tt, tt)
  insert_desc-Desc x (y ∷ ys) other h = elim (Bool-cases (is_before (key y) (key x))) [
    | inl below ↦
        rw below
          ((below, All-map ys (λ z k. is_before_trans (key z) (key y) (key x) k below) h.0), h)
    | inr above ↦ rw above (
      insert_desc-All (λ z. is_before (key z) (key y) ≡ true) x ys
          (ground (arith, is_before_total (key y) (key x) other.0)) h.0,
      insert_desc-Desc x ys other.1 h.1,
    )
  ]

  pub sort_desc-Desc : (xs : List A) → Distinct xs → Desc (sort_desc key xs)
  unfolding sort_desc
  sort_desc-Desc [] h = tt
  sort_desc-Desc (x ∷ xs) h =
      insert_desc-Desc x (sort_desc key xs)
        (sort_desc-All (λ y. ((key y).1 == (key x).1) ≡ false) xs h.0) (sort_desc-Desc xs h.1)

  -- A row above all the others goes in front.
  insert_desc-first :
      (x : A) (ys : List A)
      → All (λ y. is_before (key y) (key x) ≡ true) ys
      → insert_desc key x ys ≡ x ∷ ys
  unfolding insert_desc
  insert_desc-first x [] h = refl
  insert_desc-first x (y ∷ ys) h = rw (h.0) refl

  select-All : (P : A → Type 0) (p : A → Bool) (xs : List A) → All P xs → All P (select p xs)
  unfolding select
  select-All P p [] h = tt
  select-All P p (x ∷ xs) h = elim (Bool-cases (p x)) [
    | inl hit ↦ rw hit (h.0, select-All P p xs h.1)
    | inr miss ↦ rw miss (select-All P p xs h.1)
  ]

  abbrev chosen : A → List A → Bool → List A
  chosen x l b = if b then insert_desc key x l else l

  select-insert_desc :
      (p : A → Bool) (x : A) (ys : List A)
      → Desc ys
      → select p (insert_desc key x ys)
        ≡ (if p x then insert_desc key x (select p ys) else select p ys)
  unfolding select insert_desc
  select-insert_desc p x [] h = refl
  select-insert_desc p x (y ∷ ys) h = elim (Bool-cases (is_before (key y) (key x))) [
    | inl below ↦ elim (Bool-cases (p x)) [
      | inl hit ↦
          rw (below, hit)
            (sym (
              insert_desc-first x (select p (y ∷ ys)) (
                select-All (λ z. is_before (key z) (key x) ≡ true) p (y ∷ ys)
                  (
                    below,
                    All-map ys (λ z k. is_before_trans (key z) (key y) (key x) k below) h.0,
                  ))))
      | inr miss ↦ rw (below, miss) refl
    ]
    | inr above ↦ elim (Bool-cases (p y)) [
      | inl keeps ↦ elim (Bool-cases (p x)) [
        | inl hit ↦
            rw (above, keeps, hit, above)
              (ap (λ l. y ∷ l) (select-insert_desc p x ys h.1 ∙ ap (chosen x (select p ys)) hit))
        | inr miss ↦
            rw (above, keeps, miss)
              (ap (λ l. y ∷ l) (select-insert_desc p x ys h.1 ∙ ap (chosen x (select p ys)) miss))
      ]
      | inr drops ↦ rw (above, drops) (select-insert_desc p x ys h.1)
    ]
  ]

  -- The rows that pass a test, in order, are the rows in order that pass it.
  pub sort_desc-select :
      (p : A → Bool) (xs : List A)
      → Distinct xs
      → sort_desc key (select p xs) ≡ select p (sort_desc key xs)
  unfolding sort_desc select
  sort_desc-select p [] h = refl
  sort_desc-select p (x ∷ xs) h = elim (Bool-cases (p x)) [
    | inl hit ↦ rw hit (
        ap (insert_desc key x) (sort_desc-select p xs h.1)
        ∙ sym (
            select-insert_desc p x (sort_desc key xs) (sort_desc-Desc xs h.1)
            ∙ ap (chosen x (select p (sort_desc key xs))) hit))
    | inr miss ↦ rw miss (
        sort_desc-select p xs h.1
        ∙ sym (
            select-insert_desc p x (sort_desc key xs) (sort_desc-Desc xs h.1)
            ∙ ap (chosen x (select p (sort_desc key xs))) miss))
  ]

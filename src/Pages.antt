-- ===== src/Pages.antt =====
-- Lists that are read page by page: the cursor of internal/api/cursor.go and the queries of
-- ListByTriggerCursor (internal/trigger_events/store.go) and ListByUserCursor
-- (internal/alerts/store_postgres.go), which differ in the column of the time alone. A cursor is the
-- time and the id of the last row that was shown; its text is left out.
pub mod Order
pub mod Sorted
pub mod Complete
use Prim.Native.Nat.{Ordering}
use Prim.Native.String.{compare}
use fishhub_server.Prelude.{
  ℕ, zero, suc, String, ◌&&◌, ◌||◌, Bool, true, false, Option, none, some, List, [], ◌∷◌, ◌++◌, ltb,
  eqb, if◌then◌else◌, length, take, select,
}

abbrev pub Cursor : Type 0
Cursor = ℕ × String

abbrev pub is_lt : Ordering → Bool
is_lt Ordering.lt = true
is_lt Ordering.eq = false
is_lt Ordering.gt = false

-- (t, i) < (u, j), the comparison of rows in SQL
abbrev pub is_before : Cursor → Cursor → Bool
is_before (t, i) (u, j) = ltb t u || (eqb t u && is_lt (compare i j))

module _ {A : Type 0} (key : A → Cursor) where
  unfoldable pub insert_desc : A → List A → List A
  insert_desc x [] = x ∷ []
  insert_desc x (y ∷ ys) =
      let rest = insert_desc x ys in if is_before (key y) (key x) then x ∷ y ∷ ys else y ∷ rest

  -- ORDER BY time DESC, id DESC
  unfoldable pub sort_desc : List A → List A
  unfolding insert_desc
  sort_desc [] = []
  sort_desc (x ∷ xs) = insert_desc x (sort_desc xs)

  -- The condition on the cursor, if there is one.
  abbrev pub is_after : Option Cursor → A → Bool
  is_after none x = true
  is_after (some k) x = is_before (key x) k

  -- The query, with its LIMIT.
  unfoldable pub page_of : ℕ → Option Cursor → List A → List A
  unfolding select
  page_of size after rows = take size (sort_desc (select (is_after after) rows))

  abbrev pub last_key : List A → Option Cursor
  last_key [] = none
  last_key (x ∷ []) = some (key x)
  last_key (x ∷ y ∷ rest) = last_key (y ∷ rest)

  -- next_key: only after a full page
  abbrev pub next_key : ℕ → List A → Option Cursor
  next_key size rows = if eqb (length rows) size then last_key rows else none

  -- What a client reads that follows the cursors, for a number of requests.
  unfoldable pub follow : ℕ → ℕ → Option Cursor → List A → List A
  follow size zero after rows = []
  follow size (suc n) after rows =
      let page = page_of size after rows in
      page ++ elim (next_key size page) [ none ↦ [] | some k ↦ follow size n (some k) rows ]

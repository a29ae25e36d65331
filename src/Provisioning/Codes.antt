-- ===== src/Provisioning/Codes.antt =====
-- The code of a user that is asked for again (GetOrCreateCode of
-- internal/provisioning/store.go).
use fishhub_server.Prelude.{
  ◌≤◌, String, ◌≡◌, refl, ap, ◌∙◌, Bool-cases, inl, inr, Option, none, some, List, [], ◌∷◌, ◌++◌,
  any, select, length, eq_refl, arith,
}
use fishhub_server.Schema.{Db, ProvisioningCode}
use fishhub_server.World.{ok, failed, World, Action, call, draw, pure, gets, transaction, ◌>>=◌}
use fishhub_server.World.Post.{
  Post, returns, errs, Post-bind, Post-call, Post-draw, Post-ok, Post-transaction,
}
use fishhub_server.Provisioning.{
  is_free_of, is_code, new_code, code_of, generate_code, insert_code, code_or_new, free_codes,
  get_or_create_code,
}

-- The one unused code of a user.
abbrev pub HasFreeCode : String → String → Db → Type 0
HasFreeCode user_id code db =
    (row : ProvisioningCode) × (select (is_free_of user_id) db.provisioning_codes ≡ row ∷ [])
    × (row.code ≡ code)

select-new :
    (user_id code : String) (rows : List ProvisioningCode)
    → select (is_free_of user_id) rows ≡ []
    → select (is_free_of user_id) (rows ++ new_code code user_id ∷ []) ≡ new_code code user_id ∷ []
unfolding select
select-new user_id code [] h = rw (eq_refl user_id) refl
select-new user_id code (r ∷ rs) h = elim (Bool-cases (is_free_of user_id r)) [
  | inl hit ↦ ground arith
  | inr miss ↦ rw miss (select-new user_id code rs (ground arith))
]

insert_code-HasFreeCode :
    (user_id code : String) (w : World)
    → free_codes user_id w ≡ []
    → Post
        (λ made w'. HasFreeCode user_id made w'.db)
        (λ _ _. Unit {0})
        (insert_code code user_id w)
unfolding insert_code
insert_code-HasFreeCode user_id code w free =
    elim (Bool-cases (any (is_code code) w.db.provisioning_codes)) [
      | inl taken ↦ rw taken (errs (failed "insert provisioning code") w refl tt)
      | inr fresh ↦ rw fresh (
          returns code _ refl
            (new_code code user_id, select-new user_id code w.db.provisioning_codes free, refl))
    ]

generate_code-Post : (w : World) → Post (λ _ w1. w1.db ≡ w.db) (λ _ _. Unit {0}) (generate_code w)
unfolding generate_code
generate_code-Post w =
    Post-bind {Q = λ _ w1. w1.db ≡ w.db} (draw "generate code" w) (λ bytes. pure (code_of bytes))
      (Post-draw "generate code" w (λ _ _. refl) tt)
      (λ bytes w1 same. returns (code_of bytes) w1 refl same)

code_or_new-none :
    (user_id : String) (w : World)
    → free_codes user_id w ≡ []
    → Post
        (λ code w'. HasFreeCode user_id code w'.db)
        (λ _ _. Unit {0})
        (code_or_new user_id none w)
unfolding code_or_new
code_or_new-none user_id w free =
    Post-bind {Q = λ _ w1. w1.db ≡ w.db} (generate_code w)
      (λ code. call "insert provisioning code" (insert_code code user_id)) (generate_code-Post w)
      (λ code w1 same.
        Post-call "insert provisioning code" (insert_code code user_id) w1
          (λ later.
            insert_code-HasFreeCode user_id code (record w1 { faults = later })
              (ap (λ (db : Db). select (is_free_of user_id) db.provisioning_codes) same ∙ free))
          (λ _. tt))

module _ (limit_1 : List ProvisioningCode → Option ProvisioningCode) (no_row : limit_1 [] ≡ none)
    (one_row : (r : ProvisioningCode) → limit_1 (r ∷ []) ≡ some r) (user_id : String) where
  code_or_new-HasFreeCode :
      (w : World) (rows : List ProvisioningCode)
      → free_codes user_id w ≡ rows
      → length rows ≤ 1
      → Post
          (λ code w'. HasFreeCode user_id code w'.db)
          (λ _ _. Unit {0})
          (code_or_new user_id (limit_1 rows) w)
  unfolding code_or_new
  code_or_new-HasFreeCode w [] e few = rw no_row (code_or_new-none user_id w e)
  code_or_new-HasFreeCode w (r ∷ []) e few = rw one_row (returns r.code w refl (r, e, refl))
  code_or_new-HasFreeCode w (r ∷ s ∷ rs) e few = ground arith

  get_or_create_code-HasFreeCode :
      (w : World)
      → length (free_codes user_id w) ≤ 1
      → Post
          (λ code w'. HasFreeCode user_id code w'.db)
          (λ _ w'. w'.db ≡ w.db)
          (get_or_create_code limit_1 user_id w)
  unfolding get_or_create_code
  get_or_create_code-HasFreeCode w few =
      Post-transaction (HasFreeCode user_id) "begin tx" "commit tx" body w
        (λ later. looked_up (record w { faults = later }) few)
    where
      lookup : Action (Option ProvisioningCode)
      lookup = call "lookup code" (gets (λ v. limit_1 (free_codes user_id v)))

      body : Action String
      body = do found ← lookup; code_or_new user_id found

      looked_up :
          (v : World)
          → length (free_codes user_id v) ≤ 1
          → Post (λ code w'. HasFreeCode user_id code w'.db) (λ _ _. Unit {0}) (body v)
      looked_up v few_there =
          Post-bind
            {Q = λ found w1.
              (found ≡ limit_1 (free_codes user_id w1)) × (length (free_codes user_id w1) ≤ 1)}
            (lookup v) (code_or_new user_id)
            (Post-call "lookup code" (gets (λ u. limit_1 (free_codes user_id u))) v
              (λ later. returns _ (record v { faults = later }) refl (refl, few_there)) (λ _. tt))
            (λ found w1 (e, few1).
              rw e (code_or_new-HasFreeCode w1 (free_codes user_id w1) refl few1))

  -- Where a statement with LIMIT 1 returns the row that matches it, if there is just one, and none
  -- if there is none: after a call that returned a code, in a state in which its user had at most
  -- one unused code, the user has just one, which is that code; and a call for the same user on the
  -- same codes that meets no fault returns it again and leaves the state as it is.
  pub get_or_create_code_again :
      (code : String) (w later : World)
      → length (free_codes user_id w) ≤ 1
      → (get_or_create_code limit_1 user_id w).0 ≡ ok code
      → later.db.provisioning_codes ≡ (get_or_create_code limit_1 user_id w).1.db.provisioning_codes
      → HasFreeCode user_id code later.db
        × (get_or_create_code limit_1 user_id (record later { faults = [] })
            ≡ (ok code, record later { faults = [] }))
  unfolding get_or_create_code code_or_new transaction call
  get_or_create_code_again code w later few h same =
      let (row, found, is_row) = Post-ok (get_or_create_code-HasFreeCode w few) h in
      let again : free_codes user_id later ≡ row ∷ [] =
        ap (select (is_free_of user_id)) same ∙ found in
      ((row, again, is_row), simp (again, one_row, is_row))

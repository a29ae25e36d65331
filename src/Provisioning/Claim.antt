-- ===== src/Provisioning/Claim.antt =====
-- The claim of a code (ClaimCode of internal/provisioning/store.go).
use fishhub_server.Prelude.{
  ℕ, String, ◌==◌, ◌≡◌, refl, sym, ap, ◌∙◌, Bool, Bool-cases, false, inl, inr, Option, none, some,
  List, [], ◌∷◌, is_none, find_first, update_where, arith,
}
use fishhub_server.Schema.{Db, ProvisioningCode}
use fishhub_server.World.{
  failed, code_already_used, err, World, pure, call, draw, modify_db, transaction, ◌>>=◌, ◌>>◌,
}
use fishhub_server.World.Post.{
  Post, returns, errs, Post-bind, Post-call, Post-draw, Post-both, Post-Reads, Post-transaction,
}
use fishhub_server.Provisioning.{
  Config, is_code, is_unused, user_of, new_device, with_device, insert_device, use_code, with_used,
  lookup_code, lock_code, mark_code, claim_locked, claim_code,
}

-- The database after a claim: one more device, of the model, and the code used for it.
abbrev pub after_claim : ℕ → String → String → String → String → Db → Db
after_claim now code device_id user_id model_id db =
    with_used now code device_id (with_device (new_device device_id user_id model_id) db)

abbrev pub Claimed : Config → ℕ → String → Db → String × String → Db → Type 0
Claimed c now code before result after =
    (r : ProvisioningCode) × (model_id : String) × (find_first (is_unused code)
        before.provisioning_codes
      ≡ some r)
    × (c.default_model ≡ some model_id)
    × (result.1 ≡ r.user_id)
    × (after ≡ after_claim now code result.0 result.1 model_id before)

lock-Post :
    (code : String) (w : World)
    → Post
        (λ user_id w'.
          ((r : ProvisioningCode) × (find_first (is_unused code) w.db.provisioning_codes ≡ some r)
            × (user_id ≡ r.user_id))
          × (w'.db ≡ w.db)
          × (w'.now ≡ w.now))
        (λ _ _. Unit {0})
        (lock_code code w)
unfolding lock_code
lock-Post code w =
    Post-call "lock code" (λ w. (user_of (find_first (is_unused code) w.db.provisioning_codes), w))
      w (λ later. go later (find_first (is_unused code) w.db.provisioning_codes) refl) (λ _. tt)
  where
    go :
        (later : List Bool) (found : Option ProvisioningCode)
        → find_first (is_unused code) w.db.provisioning_codes ≡ found
        → Post
            (λ user_id w'.
              ((r : ProvisioningCode) × (find_first (is_unused code) w.db.provisioning_codes
                  ≡ some r)
                × (user_id ≡ r.user_id))
              × (w'.db ≡ w.db)
              × (w'.now ≡ w.now))
            (λ _ _. Unit {0})
            (user_of found, record w { faults = later })
    go later none e = errs code_already_used (record w { faults = later }) refl tt
    go later (some r) e =
        returns r.user_id (record w { faults = later }) refl ((r, e, refl), refl, refl)

abbrev Inserted : Config → String → World → String → World → Type 0
Inserted c user_id w id w' =
    (model_id : String) × (c.default_model ≡ some model_id)
    × (w'.db ≡ with_device (new_device id user_id model_id) w.db)
    × (w'.now ≡ w.now)

insert_device-Post :
    (c : Config) (user_id : String) (w : World) (model : Option String)
    → c.default_model ≡ model
    → Post (Inserted c user_id w) (λ _ _. Unit {0}) (insert_device model user_id w)
insert_device-Post c user_id w none e = errs (failed "insert device") w refl tt
insert_device-Post c user_id w (some m) e =
    Post-bind {Q = λ _ w'. (w'.db ≡ w.db) × (w'.now ≡ w.now)} (draw "insert device" w)
      (λ id. do modify_db (with_device (new_device id user_id m)); pure id)
      (Post-draw "insert device" w (λ v left. (refl, refl)) tt)
      (λ id w' (same, time).
        returns id (record w' { db = with_device (new_device id user_id m) w'.db }) refl
          (m, e, ap (with_device (new_device id user_id m)) same, time))

mark-Post :
    (code device_id : String) (w : World)
    → Post
        (λ _ w'. w'.db ≡ with_used w.now code device_id w.db)
        (λ _ _. Unit {0})
        (mark_code code device_id w)
unfolding mark_code
mark-Post code device_id w =
    Post-call "claim code" (λ w. modify_db (with_used w.now code device_id) w) w
      (λ later.
        returns tt (record w { faults = later; db = with_used w.now code device_id w.db }) refl
          refl)
      (λ _. tt)

locked-Post :
    (c : Config) (code : String) (w : World)
    → Post (λ a w'. Claimed c w.now code w.db a w'.db) (λ _ _. Unit {0}) (claim_locked c code w)
unfolding claim_locked
locked-Post c code w =
    Post-bind (lock_code code w)
      (λ user_id. do
        device_id ← call "insert device" (insert_device c.default_model user_id)
        mark_code code device_id
        pure (device_id, user_id))
      (lock-Post code w)
      (λ user_id w1 ((r, found, owner), same1, time1).
        Post-bind {Q = Inserted c user_id w1}
          (call "insert device" (insert_device c.default_model user_id) w1)
          (λ device_id. do mark_code code device_id; pure (device_id, user_id))
          (Post-call "insert device" (insert_device c.default_model user_id) w1
            (λ later.
              insert_device-Post c user_id (record w1 { faults = later }) c.default_model refl)
            (λ _. tt))
          (λ device_id w2 (m, is_model, same2, time2).
            Post-bind (mark_code code device_id w2) (λ _. pure (device_id, user_id))
              (mark-Post code device_id w2)
              (λ _ w3 same3.
                returns (device_id, user_id) w3 refl
                  (
                    r,
                    m,
                    found,
                    is_model,
                    owner,
                    same3
                        ∙ ap (λ t. with_used t code device_id w2.db) (time2 ∙ time1)
                        ∙ ap (with_used w.now code device_id)
                            (same2 ∙ ap (with_device (new_device device_id user_id m)) same1),
                  ))))

-- The look-up changes nothing, and returns only where the first row of the code is unused.
lookup-Post :
    (code : String) (w : World)
    → Post (λ _ w'. (w'.db ≡ w.db) × (w'.now ≡ w.now)) (λ _ w'. w'.db ≡ w.db) (lookup_code code w)
unfolding lookup_code
lookup-Post code w = Post-Reads (lookup_code code) w w (λ v. ground arith) (refl, refl)

-- For every configuration, code and state: if claim_code returns a device and a user, there was an
-- unused row of the code, the user is the row's, and the database is the old one with one more
-- device of that user and with the code marked as used for it. If it returns an error, the database
-- is the old one.
pub claim_code-Claimed :
    (c : Config) (code : String) (w : World)
    → Post (λ a w'. Claimed c w.now code w.db a w'.db) (λ _ w'. w'.db ≡ w.db) (claim_code c code w)
unfolding claim_code
claim_code-Claimed c code w =
    Post-bind (lookup_code code w) (λ _. transaction "begin tx" "commit tx" (claim_locked c code))
      (lookup-Post code w)
      (λ _ w1 (same, time).
        Post-both
          (Post-transaction (λ a db. Claimed c w1.now code w1.db a db) "begin tx" "commit tx"
            (claim_locked c code) w1 (λ later. locked-Post c code (record w1 { faults = later })))
          (λ a w2 q. rw (sym same, sym time) q) (λ _ w2 q. q ∙ same))

-- The first row of the code is a used one.
abbrev pub IsSpent : String → Db → Type 0
IsSpent code db =
    (r : ProvisioningCode) × (find_first (is_code code) db.provisioning_codes ≡ some r)
    × (is_none r.used_at ≡ false)

find_first-used :
    (code device_id : String) (now : ℕ) (rows : List ProvisioningCode) {r : ProvisioningCode}
    → find_first (is_unused code) rows ≡ some r
    → (used : ProvisioningCode) × (find_first
          (is_code code)
          (update_where (is_code code) (use_code now device_id) rows)
        ≡ some used)
      × (is_none used.used_at ≡ false)
unfolding find_first update_where
find_first-used code device_id now [] h = ground arith
find_first-used code device_id now (x ∷ xs) {r} h = elim (Bool-cases (x.code == code)) [
  | inl hit ↦ (use_code now device_id x, simp hit, refl)
  | inr miss ↦
      let later : find_first (is_unused code) xs ≡ some r = ground arith in
      let (used, first, spent) = find_first-used code device_id now xs later in
      (used, simp miss first, spent)
]

pub Claimed-IsSpent :
    (c : Config) (now : ℕ) (code : String) (before : Db) (result : String × String) (after : Db)
    → Claimed c now code before result after
    → IsSpent code after
Claimed-IsSpent c now code before result after (r, m, found, is_model, owner, same) =
    rw same (find_first-used code result.0 now before.provisioning_codes found)

-- A code that is spent is refused, and nothing changes.
pub claim_code-spent :
    (c : Config) (code : String) (w : World)
    → IsSpent code w.db
    → claim_code c code (record w { faults = [] })
      ≡ (err code_already_used, record w { faults = [] })
unfolding claim_code lookup_code
claim_code-spent c code w (r, found, spent) = simp (found, spent)

-- ===== src/Outbox/Claim.antt =====
-- What a claim of a batch returns and leaves claimable (internal/outbox/store_postgres.go).
use fishhub_server.Prelude.{
  ℕ, zero, suc, ◌+◌, ◌≤◌, ◌≡◌, refl, false, List, [], ◌∷◌, map, arith, take, select,
}
use fishhub_server.Schema.{OutboxRow}
use fishhub_server.Outbox.{claimable, claimed, event_of, claim_rows}

abbrev pub drop : ℕ → List OutboxRow → List OutboxRow
drop zero xs = xs
drop (suc n) [] = []
drop (suc n) (x ∷ xs) = drop n xs

-- The claimed events are the oldest claimable rows, at most limit of them, in the table's order.
pub claim_rows-select :
    (now limit : ℕ) (rows : List OutboxRow)
    → (claim_rows now limit rows).1 ≡ map event_of (take limit (select (claimable now) rows))
unfolding claim_rows select
claim_rows-select now zero [] = refl
claim_rows-select now (suc n) [] = refl
claim_rows-select now zero (r ∷ rs) = refl
claim_rows-select now (suc n) (r ∷ rs) =
    ground (arith, claim_rows-select now n rs, claim_rows-select now (suc n) rs)

-- A row that is claimed is out of reach until its claim times out.
pub claimable-claimed :
    (now later : ℕ) (r : OutboxRow)
    → later ≤ now + r.claim_timeout_seconds
    → claimable later (claimed now r) ≡ false
unfolding claimable
claimable-claimed now later r h = ground arith

-- A second claim at the same moment finds the claimable rows that the first one left, and no others.
pub claim_rows_exclusive :
    (now limit : ℕ) (rows : List OutboxRow)
    → select (claimable now) (claim_rows now limit rows).0
      ≡ drop limit (select (claimable now) rows)
unfolding claim_rows select
claim_rows_exclusive now zero [] = refl
claim_rows_exclusive now (suc n) [] = refl
claim_rows_exclusive now zero (r ∷ rs) = refl
claim_rows_exclusive now (suc n) (r ∷ rs) = ground (
  arith,
  claim_rows_exclusive now n rs,
  claim_rows_exclusive now (suc n) rs,
  claimable-claimed now now r (omega arith),
)

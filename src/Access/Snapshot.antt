-- ===== src/Access/Snapshot.antt =====
-- The states of a snapshot of src/backchannel/accessStateStore.ts.
use dreamsso.Common.{
  ℕ, Option, some, List, ◌≡◌, any, map, arith, Option-cases, Bool-cases, inl, inr,
}
use dreamsso.Access.{AccessState, AccessRow, first_authority, access_state, snapshot_of}

pub snapshot_of-states :
    (rows : List AccessRow) (states : List AccessState) (authority : Option (ℕ × ℕ))
    → snapshot_of rows ≡ some (states, authority)
    → states ≡ map access_state rows
unfolding snapshot_of
snapshot_of-states rows states authority read =
    elim (Bool-cases (any (λ (row : AccessRow). row.catalog_synced) rows)) [
      | inr free ↦ grind arith
      | inl synced ↦ elim (Option-cases (first_authority rows)) [
        | inl missing ↦ grind arith
        | inr (known, e) ↦ grind arith
      ]
    ]

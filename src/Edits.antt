-- ===== src/Edits.antt =====
-- src/baileys/connection.ts (editedAt, claimEditPosition, editSuperseded): the newest edit of each
-- message that a connection remembers.
pub mod Memory
pub mod Positions
pub mod Chains
pub mod Newest
mod Tests
use baileys_api.Prelude.{
  ℕ, zero, suc, ◌-◌, String, Bool, true, false, not, Option, none, some, List, [], ◌∷◌, ◌++◌, eqb,
  ltb, length, if◌then◌else◌,
}
use baileys_api.Entries.{lookup, remove}

-- EDIT_POSITION_MEMORY
abbrev pub edit_position_memory : ℕ
edit_position_memory = 1000

pub record EditPosition : Type 0 where
  pub at : ℕ
  pub seq : ℕ
  pub rank : ℕ

-- The comparison of editSuperseded.
abbrev pub is_before : EditPosition → EditPosition → Bool
is_before position applied =
    if not (eqb position.at applied.at)
    then ltb position.at applied.at
    else if not (eqb position.seq applied.seq)
    then ltb position.seq applied.seq
    else ltb position.rank applied.rank

abbrev pub is_before_applied : EditPosition → Option EditPosition → Bool
is_before_applied position none = false
is_before_applied position (some applied) = is_before position applied

unfoldable pub edit_superseded : List (String × EditPosition) → String → EditPosition → Bool
unfolding lookup
edit_superseded edited_at target position = is_before_applied position (lookup edited_at target)

-- The loop of claimEditPosition over the map: `excess` is its size less EDIT_POSITION_MEMORY, and
-- `is_delivering` is `editDeliveries.has`.
unfoldable pub forget_surplus :
    (String → Bool) → ℕ → List (String × EditPosition) → List (String × EditPosition)
forget_surplus is_delivering excess [] = []
forget_surplus is_delivering zero ((candidate, p) ∷ m) = (candidate, p) ∷ m
forget_surplus is_delivering (suc excess) ((candidate, p) ∷ m) = elim (is_delivering candidate) [
  | true ↦ (candidate, p) ∷ forget_surplus is_delivering (suc excess) m
  | false ↦ forget_surplus is_delivering excess m
]

-- `delete` and `set`: the entry goes to the end.
unfoldable pub reinsert :
    List (String × EditPosition) → String → EditPosition → List (String × EditPosition)
unfolding remove
reinsert edited_at target position = remove edited_at target ++ ((target, position) ∷ [])

-- The map after the call, and what is returned.
unfoldable pub claim_edit_position :
    (String → Bool)
    → String
    → EditPosition
    → List (String × EditPosition)
    → List (String × EditPosition) × Bool
unfolding edit_superseded forget_surplus reinsert
claim_edit_position is_delivering target position edited_at =
    let entries = reinsert edited_at target position in
    if edit_superseded edited_at target position
    then (edited_at, false)
    else (forget_surplus is_delivering (length entries - edit_position_memory) entries, true)

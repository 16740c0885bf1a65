-- ===== src/Edits/Positions.antt =====
-- src/baileys/connection.ts (claimEditPosition): what a claim leaves in the map of positions.
use baileys_api.Prelude.{
  ℕ, zero, suc, ◌-◌, ◌≡◌, refl, String, Bool, true, false, none, some, List, [], ◌∷◌, ◌++◌, ◌==◌,
  length, arith, if◌then◌else◌, eq_iff, eq_refl,
}
use baileys_api.Entries.{lookup, remove, lookup-remove}
use baileys_api.Edits.{
  edit_position_memory, EditPosition, is_before, edit_superseded, forget_surplus, reinsert,
  claim_edit_position,
}

-- The first is not newer than the second.
abbrev pub IsUpTo : EditPosition → EditPosition → Type 0
IsUpTo p q = is_before q p ≡ false

pub IsUpTo-trans : (p q r : EditPosition) → IsUpTo p q → IsUpTo q r → IsUpTo p r
IsUpTo-trans p q r h k = ground arith

pub IsUpTo-refl : (p : EditPosition) → IsUpTo p p
IsUpTo-refl p = ground arith

lookup-append :
    (m : List (String × EditPosition)) (k j : String) (p : EditPosition)
    → lookup m k ≡ none
    → lookup (m ++ ((k, p) ∷ [])) j ≡ (if k == j then some p else lookup m j)
unfolding lookup
lookup-append [] k j p h = refl
lookup-append ((i, b) ∷ m) k j p h =
    ground (arith, lookup-append m k j p, eq_iff i k, eq_iff i j, eq_iff k j)

pub lookup-reinsert :
    (m : List (String × EditPosition)) (k j : String) (p : EditPosition)
    → lookup (reinsert m k p) j ≡ (if k == j then some p else lookup m j)
unfolding reinsert
lookup-reinsert m k j p =
    ground
      (arith, lookup-append (remove m k) k j p, lookup-remove m k k, lookup-remove m k j, eq_refl k)

-- A message that is being delivered keeps its position.
pub lookup-forget_surplus :
    (is_delivering : String → Bool) (n : ℕ) (m : List (String × EditPosition)) (k : String)
    → is_delivering k ≡ true
    → lookup (forget_surplus is_delivering n m) k ≡ lookup m k
unfolding lookup forget_surplus
lookup-forget_surplus b n [] k h = refl
lookup-forget_surplus b zero ((j, p) ∷ m) k h = refl
lookup-forget_surplus b (suc n) ((j, p) ∷ m) k h =
    ground
      (arith, lookup-forget_surplus b (suc n) m k h, lookup-forget_surplus b n m k h, eq_iff j k)

-- What a claim does to a message that is being delivered: its own position is the one that is
-- claimed, and that of another message stays.
pub lookup-claim_edit_position :
    (is_delivering : String → Bool) (m : List (String × EditPosition)) (k j : String)
    (p : EditPosition)
    → is_delivering j ≡ true
    → lookup (claim_edit_position is_delivering k p m).0 j
      ≡ (if edit_superseded m k p then lookup m j else if k == j then some p else lookup m j)
unfolding claim_edit_position
lookup-claim_edit_position b m k j p h =
    let entries = reinsert m k p in
    ground (
      arith,
      lookup-forget_surplus b (length entries - edit_position_memory) entries j h,
      lookup-reinsert m k j p,
    )

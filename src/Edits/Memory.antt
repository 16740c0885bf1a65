-- ===== src/Edits/Memory.antt =====
-- src/baileys/connection.ts (claimEditPosition): how many positions a claim leaves, and one that it
-- does not leave.
use baileys_api.Prelude.{
  ℕ, zero, suc, ◌+◌, ◌-◌, ◌≤◌, ◌≡◌, ◌⊎◌, inl, inr, refl, String, Bool, true, false, none, List, [],
  ◌∷◌, ◌++◌, length, All, arith, Bool-cases,
}
use baileys_api.Entries.{lookup, remove}
use baileys_api.Edits.{
  edit_position_memory, EditPosition, edit_superseded, forget_surplus, reinsert,
  claim_edit_position,
}

-- Every message of the map is being delivered.
abbrev pub AllDelivering : (String → Bool) → List (String × EditPosition) → Type 0
AllDelivering is_delivering = All (λ (e : String × EditPosition). is_delivering e.0 ≡ true)

forget_surplus-length :
    (b : String → Bool) (n : ℕ) (m : List (String × EditPosition))
    → (length (forget_surplus b n m) + n ≡ length m) ⊎ AllDelivering b (forget_surplus b n m)
unfolding forget_surplus
forget_surplus-length b n [] = inr tt
forget_surplus-length b zero ((k, p) ∷ m) = inl (omega arith)
forget_surplus-length b (suc n) ((k, p) ∷ m) = elim (Bool-cases (b k)) [
  | inl e ↦ elim (forget_surplus-length b (suc n) m) [
    | inl h ↦ inl (ground (arith, e, h))
    | inr h ↦ inr (ground (arith, e, h))
  ]
  | inr e ↦ elim (forget_surplus-length b n m) [
    | inl h ↦ inl (ground (arith, e, h))
    | inr h ↦ inr (ground (arith, e, h))
  ]
]

-- After a claim that is granted, the map has at most 1000 entries, unless each of them is of a
-- message that is being delivered.
pub claim_edit_position-length :
    (is_delivering : String → Bool) (m : List (String × EditPosition)) (k : String)
    (p : EditPosition)
    → (claim_edit_position is_delivering k p m).1 ≡ true
    → let m' = (claim_edit_position is_delivering k p m).0 in
      (length m' ≤ edit_position_memory) ⊎ AllDelivering is_delivering m'
unfolding claim_edit_position
claim_edit_position-length b m k p h =
    elim (forget_surplus-length b (length (reinsert m k p) - edit_position_memory)
      (reinsert m k p)) [ inl e ↦ inl (ground arith) | inr e ↦ inr (ground arith) ]

forget_surplus-last :
    (b : String → Bool) (n : ℕ) (m : List (String × EditPosition)) (k : String) (p : EditPosition)
    → AllDelivering b m
    → b k ≡ false
    → forget_surplus b (suc n) (m ++ ((k, p) ∷ [])) ≡ m
unfolding forget_surplus
forget_surplus-last b n [] k p h e = ground arith
forget_surplus-last b n ((j, q) ∷ m) k p h e = ground (arith, forget_surplus-last b n m k p h.1 e)

length-append :
    (m : List (String × EditPosition)) (x : String × EditPosition)
    → length (m ++ (x ∷ [])) ≡ length m + 1
length-append [] x = refl
length-append (y ∷ m) x = ground (arith, length-append m x)

remove-absent : (m : List (String × EditPosition)) (k : String) → lookup m k ≡ none → remove m k ≡ m
unfolding lookup remove
remove-absent [] k h = refl
remove-absent ((j, q) ∷ m) k h = ground (arith, remove-absent m k)

claim-forgets :
    (b : String → Bool) (m : List (String × EditPosition)) (k : String) (p : EditPosition)
    → edit_position_memory ≤ length m
    → AllDelivering b m
    → lookup m k ≡ none
    → b k ≡ false
    → claim_edit_position b k p m ≡ (m, true)
unfolding claim_edit_position reinsert edit_superseded
claim-forgets b m k p full busy fresh idle =
    let excess : length m + 1 - 1000 ≡ suc (length m - 1000) = omega (arith, full) in
    rw fresh (
      rw (remove-absent m k fresh) (
        rw (length-append m (k, p))
          (rw excess (rw (forget_surplus-last b (length m - 1000) m k p busy idle) refl))))

-- Where the map is full and each of its messages is being delivered, a claim for a message that is
-- not in it and is not being delivered is granted, and the map stays as it was: the position that
-- was claimed is the one that is taken out, so that an older edit of that message is not superseded
-- afterwards.
pub claim_edit_position-forgets :
    (is_delivering : String → Bool) (m : List (String × EditPosition)) (k : String)
    (p older : EditPosition)
    → edit_position_memory ≤ length m
    → AllDelivering is_delivering m
    → lookup m k ≡ none
    → is_delivering k ≡ false
    → (claim_edit_position is_delivering k p m ≡ (m, true))
      × (edit_superseded (claim_edit_position is_delivering k p m).0 k older ≡ false)
unfolding edit_superseded
claim_edit_position-forgets b m k p older full busy fresh idle =
    rw (claim-forgets b m k p full busy fresh idle) (rw fresh (refl, refl))

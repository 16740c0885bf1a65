-- ===== src/Edits/Tests.antt =====
-- The theorems on edits at concrete messages.
use Prim.Native.String.{◌++◌}
use baileys_api.Prelude.{
  ℕ, zero, suc, ◌≤◌, ◌≡◌, ◌⊎◌, refl, String, Bool, true, false, not, none, List, [], ◌∷◌, ◌==◌,
  length, arith,
}
use baileys_api.Text.{append_apart-false}
use baileys_api.Entries.{lookup, assign, remove}
use baileys_api.Edits.{edit_position_memory, EditPosition, edit_superseded, claim_edit_position}
use baileys_api.Edits.Memory.{
  AllDelivering, claim_edit_position-length, claim_edit_position-forgets,
}
use baileys_api.Edits.Chains.{
  delivering, Edits, enqueue_edit_delivery, leave, deliver, Event, defers, decrypts, delivers,
  handle, run,
}
use baileys_api.Edits.Newest.{IsNewest}
use baileys_api.Edits.Newest.Kept.{StaysDelivering, run-IsNewest}

abbrev newer : EditPosition
newer = record { at = 20; seq = 1; rank = 0 }

abbrev older : EditPosition
older = record { at = 10; seq = 2; rank = 0 }

-- A plaintext edit that is claimed and queued.
abbrev queued : Edits
queued = record {
  edited_at = ("A", newer) ∷ [];
  edit_deliveries = ("A", delivering newer 0 ∷ []) ∷ [];
  posted = [];
  batches = [];
  upserted = [];
}

-- An older edit comes in behind it; the post fails once.
abbrev late : List Event
late = defers "A" older ∷ delivers "A" false ∷ delivers "A" true ∷ decrypts "A" true ∷ []

late_stays : StaysDelivering 3 "A" queued late
unfolding StaysDelivering handle deliver enqueue_edit_delivery leave lookup assign remove
    edit_superseded
late_stays = (refl, (refl, (refl, (refl, tt))))

run-IsNewest_example : IsNewest "A" (run 3 queued late)
unfolding lookup
run-IsNewest_example =
    run-IsNewest 3 "A" late queued late_stays
      (newer, record { remembered = refl; queued = (refl, tt); in_order = tt })

claim_edit_position-length_example :
    let m = (claim_edit_position (λ s. false) "A" newer []).0 in
    (length m ≤ edit_position_memory) ⊎ AllDelivering (λ s. false) m
unfolding claim_edit_position edit_superseded
claim_edit_position-length_example = claim_edit_position-length (λ s. false) [] "A" newer refl

-- Messages with the ids "x", "xx", "xxx" and so on.
abbrev ids : ℕ → String
ids zero = "x"
ids (suc n) = "x" ++ ids n

not_a : (n : ℕ) → (ids n == "A") ≡ false
not_a zero = refl
not_a (suc n) = append_apart-false "x" "A" "" "" (ids n) "" refl refl

abbrev crowd : ℕ → List (String × EditPosition)
crowd zero = []
crowd (suc n) = (ids n, newer) ∷ crowd n

length-crowd : (n : ℕ) → length (crowd n) ≡ n
length-crowd zero = refl
length-crowd (suc n) = ground (arith, length-crowd n)

abbrev others : String → Bool
others s = not (s == "A")

crowd_delivering : (n : ℕ) → AllDelivering others (crowd n)
crowd_delivering zero = tt
crowd_delivering (suc n) = (ground (arith, not_a n), crowd_delivering n)

crowd_lacks : (n : ℕ) → lookup (crowd n) "A" ≡ none
unfolding lookup
crowd_lacks zero = refl
crowd_lacks (suc n) = ground (arith, not_a n, crowd_lacks n)

claim_edit_position-forgets_example :
    (claim_edit_position others "A" newer (crowd 1000) ≡ (crowd 1000, true))
    × (edit_superseded (claim_edit_position others "A" newer (crowd 1000)).0 "A" older ≡ false)
claim_edit_position-forgets_example =
    claim_edit_position-forgets others (crowd 1000) "A" newer older
      (omega (arith, length-crowd 1000)) (crowd_delivering 1000) (crowd_lacks 1000) refl

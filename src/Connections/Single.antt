-- ===== src/Connections/Single.antt =====
-- src/baileys/connectionsHandler.ts: which of the connections that were ever made are live, and which
-- are registered.
pub mod Shrinks
pub mod Effects
pub mod Moves
pub mod Invariant
use baileys_api.Prelude.{
  ℕ, suc, ◌<◌, ◌≡◌, refl, String, true, false, List, Option, none, some, eqb, ◌==◌, arith, eq_iff,
  eq_refl, if◌then◌else◌,
}
use baileys_api.Entries.{
  lookup, assign, remove, IsMap, lookup-assign, lookup-remove, assign-IsMap, remove-IsMap,
}
use baileys_api.Connections.Options.{Connection}

-- Every entry is of a connection of its phone, and every live connection is its phone's entry.
pub record IsRegistry (connections : List (String × ℕ)) (objects : ℕ → Connection) (next : ℕ)
    : Type 0 where
  pub entries :
      (phone : String) (o : ℕ)
      → lookup connections phone ≡ some o
      → (o < next) × ((objects o).phone ≡ phone)
  pub single :
      (o : ℕ)
      → o < next
      → (objects o).is_discarded ≡ false
      → lookup connections (objects o).phone ≡ some o
  pub unique : IsMap connections

module _ {connections : List (String × ℕ)} {objects : ℕ → Connection} {next : ℕ}
    (r : IsRegistry connections objects next) where
  open r use {entries, single, unique}

  pub put-IsRegistry :
      (o : ℕ) (c : Connection)
      → c.phone ≡ (objects o).phone
      → ((objects o).is_discarded ≡ true → c.is_discarded ≡ true)
      → IsRegistry connections (λ j. if eqb o j then c else objects j) next
  put-IsRegistry o c e d = record {
    entries = λ phone q h. ground (arith, entries phone q);
    single = λ q b h. ground (arith, single q);
    unique = unique;
  }

  pub remove-IsRegistry :
      (phone : String)
      → ((o : ℕ) → lookup connections phone ≡ some o → (objects o).is_discarded ≡ true)
      → IsRegistry (remove connections phone) objects next
  remove-IsRegistry phone d = record {
    entries = λ q o h. ground (arith, entries q o, lookup-remove connections phone q);
    single = λ o b h. ground (
      arith,
      single o,
      d o,
      lookup-remove connections phone (objects o).phone,
      eq_iff phone (objects o).phone,
    );
    unique = remove-IsMap connections phone unique;
  }

  pub add-IsRegistry :
      (phone : String) (c : Connection)
      → c.phone ≡ phone
      → ((o : ℕ) → lookup connections phone ≡ some o → (objects o).is_discarded ≡ true)
      → IsRegistry
          (assign connections phone next)
          (λ j. if eqb next j then c else objects j)
          (suc next)
  add-IsRegistry phone c e d = record {
    entries = λ q o h.
        ground (arith, entries q o, lookup-assign connections phone q next, eq_iff phone q);
    single = λ o b h. ground (
      arith,
      single o,
      d o,
      lookup-assign connections phone (objects o).phone next,
      lookup-assign connections phone phone next,
      eq_refl phone,
      eq_iff phone (objects o).phone,
    );
    unique = assign-IsMap connections phone next unique;
  }

-- ===== src/Entries.antt =====
-- Objects used as maps with texts as keys, and a Set: their entries in the order of insertion.
use baileys_api.Prelude.{
  ℕ, ◌+◌, ◌≡◌, refl, String, Bool, true, false, ◌||◌, List, [], ◌∷◌, Option, none, some, ◌==◌, eqb,
  if◌then◌else◌, arith, eq_iff, eq_refl,
}

module _ {ℓ} {A : Type ℓ} where
  unfoldable pub lookup : List (String × A) → String → Option A
  lookup [] k = none
  lookup ((j, a) ∷ m) k = if j == k then some a else lookup m k

  -- `m[k] = a`: in the place of an entry that is there, or last
  unfoldable pub assign : List (String × A) → String → A → List (String × A)
  assign [] k a = (k, a) ∷ []
  assign ((j, b) ∷ m) k a = let rest = assign m k a in if j == k then (j, a) ∷ m else (j, b) ∷ rest

  -- `delete m[k]`
  unfoldable pub remove : List (String × A) → String → List (String × A)
  remove [] k = []
  remove ((j, b) ∷ m) k = let rest = remove m k in if j == k then rest else (j, b) ∷ rest

  unfoldable pub keys : List (String × A) → List String
  keys [] = []
  keys ((j, b) ∷ m) = j ∷ keys m

  unfoldable pub values : List (String × A) → List A
  values [] = []
  values ((j, b) ∷ m) = b ∷ values m

  -- The sum of a weight over the values.
  unfoldable pub total : (A → ℕ) → List (String × A) → ℕ
  total w [] = 0
  total w ((j, b) ∷ m) = w b + total w m

  -- No key has two entries.
  unfoldable pub IsMap : List (String × A) → Type ℓ
  unfolding lookup
  IsMap [] = Unit {ℓ}
  IsMap ((j, b) ∷ m) = (lookup m j ≡ none) × IsMap m

  pub lookup-assign :
      (m : List (String × A)) (k j : String) (a : A)
      → lookup (assign m k a) j ≡ (if k == j then some a else lookup m j)
  unfolding lookup assign
  lookup-assign [] k j a = refl
  lookup-assign ((i, b) ∷ m) k j a =
      ground (arith, lookup-assign m k j a, eq_iff i k, eq_iff i j, eq_iff k j, eq_refl k)

  pub lookup-remove :
      (m : List (String × A)) (k j : String)
      → lookup (remove m k) j ≡ (if k == j then none else lookup m j)
  unfolding lookup remove
  lookup-remove [] k j = ground arith
  lookup-remove ((i, b) ∷ m) k j =
      ground (arith, lookup-remove m k j, eq_iff i k, eq_iff i j, eq_iff k j)

  pub assign-IsMap : (m : List (String × A)) (k : String) (a : A) → IsMap m → IsMap (assign m k a)
  unfolding lookup assign IsMap
  assign-IsMap [] k a h = (refl, tt)
  assign-IsMap ((j, b) ∷ m) k a h =
      ground (arith, assign-IsMap m k a h.1, lookup-assign m k j a, eq_iff j k, eq_iff k j)

  pub remove-IsMap : (m : List (String × A)) (k : String) → IsMap m → IsMap (remove m k)
  unfolding lookup remove IsMap
  remove-IsMap [] k h = tt
  remove-IsMap ((j, b) ∷ m) k h = ground (arith, remove-IsMap m k h.1, lookup-remove m k j)

  remove-absent : (m : List (String × A)) (k : String) → lookup m k ≡ none → remove m k ≡ m
  unfolding lookup remove
  remove-absent [] k h = refl
  remove-absent ((j, b) ∷ m) k h = ground (arith, remove-absent m k)

  -- A removed entry takes its own weight along, and nothing else.
  pub total-remove :
      (w : A → ℕ) (m : List (String × A)) (k : String) {a : A}
      → IsMap m
      → lookup m k ≡ some a
      → total w (remove m k) + w a ≡ total w m
  unfolding lookup remove total IsMap
  total-remove w [] k h e = cc
  total-remove w ((j, b) ∷ m) k {a = a} h e =
      ground (arith, remove-absent m k, total-remove w m k {a = a} h.1, eq_iff j k)

-- `s.add(a)` on a Set
unfoldable pub add : List ℕ → ℕ → List ℕ
add [] a = a ∷ []
add (b ∷ s) a = let rest = add s a in if eqb b a then b ∷ s else b ∷ rest

-- `s.has(a)`
unfoldable pub has : List ℕ → ℕ → Bool
has [] a = false
has (b ∷ s) a = eqb b a || has s a

pub has-add : (s : List ℕ) (a : ℕ) → has (add s a) a ≡ true
unfolding has add
has-add [] a = ground arith
has-add (b ∷ s) a = ground (arith, has-add s a)

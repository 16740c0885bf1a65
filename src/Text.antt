-- ===== src/Text.antt =====
-- Facts on texts that begin with literals, for the keys and the markers that the program builds.
use Prim.Native.Char.{Char, code}
use Prim.Native.String.{◌++◌, count}
use text.Mathlib.TextLemmas.{append_inj, append_assoc, nil-append, cons-append}
use baileys_api.Prelude.{
  ℕ, String, ◌≡◌, ◌≢◌, false, refl, arith, eq_iff, ◌==◌, eq-false, eqb, sym, ◌∙◌, Option, none,
  some, if◌then◌else◌,
}

-- Texts apart at one place, of the same length up to there, stay apart whatever follows.
pub append_apart :
    (a b c d x y : String) → count a ≡ count b → (a == b) ≡ false → (a ++ c) ++ x ≢ (b ++ d) ++ y
append_apart a b c d x y n h e =
    let joined = sym (append_assoc a c x) ∙ e ∙ append_assoc b d y in
    ground (arith, eq_iff a b, (append_inj joined n).0)

pub append_apart-false :
    (a b c d x y : String)
    → count a ≡ count b
    → (a == b) ≡ false
    → ((a ++ c) ++ x == (b ++ d) ++ y) ≡ false
append_apart-false a b c d x y n h = eq-false (append_apart a b c d x y n h)

-- `text.startsWith(prefix) ? text.slice(prefix.length) : null`
unfoldable pub strip_prefix : String → String → Option String
strip_prefix String.[] text = some text
strip_prefix (String.◌∷◌ c prefix) String.[] = none
strip_prefix (String.◌∷◌ c prefix) (String.◌∷◌ d text) =
    if eqb (code c) (code d) then strip_prefix prefix text else none

abbrev keep_first :
    Char → Option (String × String) → Option (String × String) → Option (String × String)
keep_first c none found = found
keep_first c (some (a, b)) found = some (String.◌∷◌ c a, b)

-- `lastIndexOf` of a character, and the slices before and after it.
unfoldable pub split_last : ℕ → String → Option (String × String)
split_last mark String.[] = none
split_last mark (String.◌∷◌ c s) =
    keep_first c (split_last mark s) (if eqb (code c) mark then some (String.[], s) else none)

-- The character occurs nowhere in the text.
abbrev pub Lacks : ℕ → String → Type 0
Lacks mark String.[] = Unit
Lacks mark (String.◌∷◌ c s) = (code c ≢ mark) × Lacks mark s

pub strip_prefix-append : (prefix text : String) → strip_prefix prefix (prefix ++ text) ≡ some text
unfolding strip_prefix
strip_prefix-append String.[] text = rw nil-append
strip_prefix-append (String.◌∷◌ c prefix) text =
    rw cons-append (ground (arith, strip_prefix-append prefix text))

split_last-Lacks : (mark : ℕ) (s : String) → Lacks mark s → split_last mark s ≡ none
unfolding split_last
split_last-Lacks mark String.[] h = refl
split_last-Lacks mark (String.◌∷◌ c s) (h, k) = ground (arith, split_last-Lacks mark s k)

pub split_last-append :
    (mark : Char) (a b : String)
    → Lacks (code mark) b
    → split_last (code mark) (a ++ String.◌∷◌ mark b) ≡ some (a, b)
unfolding split_last
split_last-append mark String.[] b h =
    rw nil-append (ground (arith, split_last-Lacks (code mark) b h))
split_last-append mark (String.◌∷◌ c a) b h =
    rw cons-append (ground (arith, split_last-append mark a b h))

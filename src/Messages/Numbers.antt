-- ===== src/Messages/Numbers.antt =====
-- src/baileys/helpers/normalizeBrazilPhoneNumber.ts: normalizing a number twice.
use baileys_api.Prelude.{
  ℕ, zero, suc, String, true, false, ◌&&◌, Option, none, some, ◌≡◌, inl, inr, refl, ap, subst,
  arith, Bool-cases, Option-cases,
}
use baileys_api.Messages.{
  is_digit, are_digits, add_ninth_digit, after_country, with_country, match,
  normalize_brazil_phone_number,
}

-- No text has two numbers of digits.
digits_apart : (n : ℕ) (s : String) → are_digits (suc n) s ≡ true → are_digits n s ≡ false
unfolding are_digits
digits_apart zero String.[] h = cc
digits_apart zero (String.◌∷◌ c s) h = refl
digits_apart (suc n) String.[] h = cc
digits_apart (suc n) (String.◌∷◌ c s) h = ground (arith, digits_apart n s)

add_ninth_digit_once :
    (number longer : String) → add_ninth_digit number ≡ some longer → add_ninth_digit longer ≡ none
unfolding add_ninth_digit are_digits
add_ninth_digit_once String.[] longer h = cc
add_ninth_digit_once (String.◌∷◌ c String.[]) longer h = cc
add_ninth_digit_once (String.◌∷◌ c (String.◌∷◌ d number)) longer h =
    elim (Bool-cases (is_digit c && is_digit d && are_digits 8 number)) [
      | inl hit ↦
          let e : String.◌∷◌ c (String.◌∷◌ d (String.◌∷◌ "9" number)) ≡ longer = ground arith in
          subst (λ s. add_ninth_digit s ≡ none) e (ground (arith, digits_apart 7 number))
      | inr miss ↦ absurd (ground arith)
    ]

matched_once :
    (phone_number longer : String)
    → match phone_number ≡ some longer
    → add_ninth_digit longer ≡ none
matched_once phone_number longer h = elim (Option-cases (after_country phone_number)) [
  | inl e ↦ absurd (ground arith)
  | inr (number, e) ↦ add_ninth_digit_once number longer (ground arith)
]

normalized_again :
    (phone_number : String) (m : Option String)
    → match phone_number ≡ m
    → normalize_brazil_phone_number (with_country phone_number m) ≡ with_country phone_number m
unfolding normalize_brazil_phone_number after_country
normalized_again phone_number none e = ap (with_country phone_number) e
normalized_again phone_number (some longer) e =
    ap (with_country (with_country phone_number (some longer))) (matched_once phone_number longer e)

-- The number that a normalization gives is its own: it does not match a second time.
pub normalize_brazil_phone_number_idempotent :
    (phone_number : String)
    → normalize_brazil_phone_number (normalize_brazil_phone_number phone_number)
      ≡ normalize_brazil_phone_number phone_number
unfolding normalize_brazil_phone_number
normalize_brazil_phone_number_idempotent phone_number =
    normalized_again phone_number (match phone_number) refl

-- ===== src/Messages.antt =====
-- src/baileys/helpers: the pure decisions on phone numbers and JIDs (normalizeBrazilPhoneNumber.ts,
-- shouldIgnoreJid.ts and messageEditSenders.ts).

pub mod Numbers
pub mod Senders
pub mod History
mod Tests
use Prim.Native.Char.{Char, code}
use baileys_api.Prelude.{
  ℕ, zero, suc, ◌+◌, String, Bool, true, false, not, ◌&&◌, ◌||◌, Option, none, some, List, [], ◌∷◌,
  ◌==◌, eqb, leb, truthy, if◌then◌else◌,
}
use baileys_api.Config.{BaileysConfig}

-- `\d`
abbrev pub is_digit : Char → Bool
is_digit c = leb b'0' (code c) && leb (code c) b'9'

-- `^\d{n}$`
unfoldable pub are_digits : ℕ → String → Bool
are_digits zero String.[] = true
are_digits zero (String.◌∷◌ c s) = false
are_digits (suc n) String.[] = false
are_digits (suc n) (String.◌∷◌ c s) = is_digit c && are_digits n s

-- After `+55`: two digits of the area code, and eight of the number.
unfoldable pub add_ninth_digit : String → Option String
unfolding are_digits
add_ninth_digit String.[] = none
add_ninth_digit (String.◌∷◌ c String.[]) = none
add_ninth_digit (String.◌∷◌ c (String.◌∷◌ d number)) =
    if is_digit c && is_digit d && are_digits 8 number
    then some (String.◌∷◌ c (String.◌∷◌ d (String.◌∷◌ "9" number)))
    else none

unfoldable pub after_country : String → Option String
after_country String.[] = none
after_country (String.◌∷◌ a String.[]) = none
after_country (String.◌∷◌ a (String.◌∷◌ b String.[])) = none
after_country (String.◌∷◌ a (String.◌∷◌ b (String.◌∷◌ c rest))) =
    if eqb (code a) b'+' && eqb (code b) b'5' && eqb (code c) b'5' then some rest else none

abbrev pub and_then : Option String → (String → Option String) → Option String
and_then none f = none
and_then (some s) f = f s

abbrev pub with_country : String → Option String → String
with_country phone_number none = phone_number
with_country phone_number (some rest) = String.◌∷◌ "+" (String.◌∷◌ "5" (String.◌∷◌ "5" rest))

abbrev pub match : String → Option String
match phone_number = and_then (after_country phone_number) add_ninth_digit

unfoldable pub normalize_brazil_phone_number : String → String
unfolding after_country add_ninth_digit
normalize_brazil_phone_number phone_number = with_country phone_number (match phone_number)

-- The kinds of JID, as the Baileys library tells them apart.
pub record JidKinds : Type 0 where
  pub is_jid_group : String → Bool
  pub is_jid_status_broadcast : String → Bool
  pub is_jid_broadcast : String → Bool
  pub is_jid_newsletter : String → Bool
  pub is_jid_bot : String → Bool
  pub is_jid_meta_ai : String → Bool

unfoldable pub should_ignore_jid : JidKinds → BaileysConfig → String → Bool
should_ignore_jid kinds settings jid =
    if kinds.is_jid_group jid && settings.ignore_group_messages
    then true
    else if kinds.is_jid_status_broadcast jid && settings.ignore_status_messages
    then true
    else if kinds.is_jid_broadcast jid
        && not (kinds.is_jid_status_broadcast jid)
        && settings.ignore_broadcast_messages
    then true
    else if kinds.is_jid_newsletter jid && settings.ignore_newsletter_messages
    then true
    else if kinds.is_jid_bot jid && settings.ignore_bot_messages
    then true
    else if kinds.is_jid_meta_ai jid && settings.ignore_meta_ai_messages
    then true
    else false

-- ===== src/Messages/Tests.antt =====
-- The theorems on phone numbers and senders at concrete inputs.
use baileys_api.Prelude.{String, ◌≡◌, refl, false, ◌&&◌, Option, none, some, [], ◌∷◌}
use baileys_api.Messages.{normalize_brazil_phone_number, after_country, add_ninth_digit, are_digits}
use baileys_api.Messages.Senders.{OwnJids, MessageKey, message_edit_sender_candidates}
use baileys_api.Messages.Senders.Candidates.{
  has_pair, IsDistinctPairs, is_original, is_author, message_edit_sender_candidates_lem,
}

ninth_digit : normalize_brazil_phone_number "+551112345678" ≡ "+5511912345678"
unfolding normalize_brazil_phone_number after_country add_ninth_digit are_digits
ninth_digit = refl

abbrev same : String → Option String
same jid = some jid

abbrev me : OwnJids
me = record { id = some "me@s"; lid = some "me@lid" }

abbrev theirs : MessageKey
theirs = record {
  from_me = false;
  remote_jid = some "you@s";
  remote_jid_alt = some "you@lid";
  participant = none;
  participant_alt = none;
}

message_edit_sender_candidates_lem_example :
    let found = message_edit_sender_candidates same theirs theirs me ("you@lid" ∷ []) in
    (has_pair found "you@s" "you@lid" ≡ (
      is_original same theirs theirs me ("you@lid" ∷ []) "you@s"
      && is_author same theirs me "you@lid"))
    × IsDistinctPairs found
message_edit_sender_candidates_lem_example =
    message_edit_sender_candidates_lem same theirs theirs me ("you@lid" ∷ []) "you@s" "you@lid"

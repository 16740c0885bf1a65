-- ===== src/Messages/History/Tests.antt =====
-- The theorems on history dumps at a concrete dump.
use baileys_api.Prelude.{ℕ, ◌≡◌, refl, String, List, [], ◌∷◌, All}
use baileys_api.Entries.{lookup, assign}
use baileys_api.Messages.Senders.{includes}
use baileys_api.Messages.History.{
  Value, leaf, text, object, end, field, is_stripped, strip, member, frames_from, history_frames,
}
use baileys_api.Messages.History.Frames.{strip_all, all_messages, IsWithin, history_frames-IsWithin}

abbrev photo : Value
photo =
    object (
      field "key" (object (field "remoteJid" (text "1@g.us") end))
        (field "mediaKey" (leaf "7") end))

abbrev bare_photo : Value
bare_photo = object (field "key" (object (field "remoteJid" (text "1@g.us") end)) end)

abbrev dump : List Value
dump = photo ∷ photo ∷ photo ∷ []

abbrev subjects : List (String × String)
subjects = ("1@g.us", "Family") ∷ []

abbrev ten : Value → ℕ
ten value = 10

-- A subject is charged once in a frame.
two_frames :
    history_frames ten 30 subjects dump
    ≡ record { messages = bare_photo ∷ bare_photo ∷ []; group_names = subjects }
      ∷ record { messages = bare_photo ∷ []; group_names = subjects }
      ∷ []
unfolding history_frames frames_from strip is_stripped includes member lookup assign
two_frames = refl

history_frames-IsWithin_example :
    (all_messages (history_frames ten 30 subjects dump) ≡ strip_all dump)
    × All (IsWithin ten 30 subjects) (history_frames ten 30 subjects dump)
history_frames-IsWithin_example = history_frames-IsWithin ten 30 subjects dump

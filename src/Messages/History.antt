-- ===== src/Messages/History.antt =====
-- src/baileys/helpers/historySync.ts: what a history dump is stripped of, and its split into frames.
pub mod Stripped
pub mod Frames
mod Tests
use baileys_api.Prelude.{
  ℕ, ◌+◌, String, Bool, true, false, ◌&&◌, Option, none, some, List, [], ◌∷◌, ◌++◌, ◌==◌, ltb,
  truthy, if◌then◌else◌,
}
use baileys_api.Entries.{lookup, assign}
use baileys_api.Messages.Senders.{includes}

-- A decoded message. A leaf is null, a number, a Boolean or binary data, by its JSON text.
mutual
  pub data Value : Type 0 where
    leaf : String → Value
    text : String → Value
    array : Items → Value
    object : Fields → Value

  pub data Fields : Type 0 where
    end : Fields
    field : String → Value → Fields → Fields

  pub data Items : Type 0 where
    nil : Items
    cons : Value → Items → Items

abbrev pub strip_keys : List String
strip_keys =
    "jpegThumbnail" ∷ "thumbnailSha256" ∷ "thumbnailEncSha256" ∷ "fileSha256" ∷ "fileEncSha256"
    ∷ "midQualityFileSha256" ∷ "mediaKey" ∷ "scansSidecar" ∷ "streamingSidecar"
    ∷ "firstFrameSidecar" ∷ "waveform" ∷ "futureproofBuffer" ∷ "messageSecret" ∷ "senderKeyHash"
    ∷ "recipientKeyHash" ∷ "deviceListMetadata" ∷ "initialHistBootstrapInlinePayload" ∷ []

-- `STRIP_KEYS.has(key)`
unfoldable pub is_stripped : String → Bool
unfolding includes
is_stripped key = includes strip_keys key

abbrev pub keep_field : Bool → String → Value → Fields → Fields
keep_field true key item output = output
keep_field false key item output = field key item output

unfoldable mutual
  unfolding is_stripped

  pub strip : Value → Value
  strip (leaf value) = leaf value
  strip (text value) = text value
  strip (array items) = array (strip_items items)
  strip (object fields) = object (strip_fields fields)

  pub strip_items : Items → Items
  strip_items nil = nil
  strip_items (cons item items) = cons (strip item) (strip_items items)

  pub strip_fields : Fields → Fields
  strip_fields end = end
  strip_fields (field key item fields) =
      keep_field (is_stripped key) key (strip item) (strip_fields fields)

unfoldable pub member : Fields → String → Option Value
member end name = none
member (field key item fields) name =
    let rest = member fields name in if key == name then some item else rest

-- `value?.name`
abbrev pub property : Option Value → String → Option Value
property none name = none
property (some (leaf value)) name = none
property (some (text value)) name = none
property (some (array items)) name = none
property (some (object fields)) name = member fields name

abbrev pub as_text : Option Value → Option String
as_text none = none
as_text (some (leaf value)) = none
as_text (some (text value)) = some value
as_text (some (array items)) = none
as_text (some (object fields)) = none

-- `stripped.key?.remoteJid`
abbrev pub remote_jid : Value → Option String
remote_jid stripped = as_text (property (property (some stripped) "key") "remoteJid")

pub record HistoryFrame : Type 0 where
  pub messages : List Value
  pub group_names : List (String × String)

-- The variables of the loop: `frame` and `framed`, and `frame_bytes`.
pub record Framing : Type 0 where
  pub frame : HistoryFrame
  pub frame_bytes : ℕ

abbrev pub nothing_framed : Framing
nothing_framed = record { frame = record { messages = []; group_names = [] }; frame_bytes = 0 }

abbrev pub is_started : List Value → Bool
is_started [] = false
is_started (message ∷ messages) = true

abbrev pub name_in : List (String × String) → Option String → Option (String × String)
name_in names none = none
name_in names (some jid) = elim (truthy (lookup names jid)) [
  | none ↦ none
  | some name ↦ some (jid, name)
]

-- The chat of a message, where it has a name.
abbrev pub chat_name : List (String × String) → Value → Option (String × String)
chat_name names stripped = name_in names (truthy (remote_jid stripped))

abbrev pub add_name : List (String × String) → Option (String × String) → List (String × String)
add_name framed none = framed
add_name framed (some (jid, name)) = assign framed jid name

-- `byte_length` is Buffer.byteLength(JSON.stringify(value) ?? "null", "utf8").
module _ (byte_length : Value → ℕ) (max_bytes : ℕ) (names : List (String × String)) where
  abbrev pub entry_bytes : String → String → ℕ
  entry_bytes jid name = byte_length (object (field jid (text name) end))

  abbrev pub name_bytes : List (String × String) → Option (String × String) → ℕ
  name_bytes carried none = 0
  name_bytes carried (some (jid, name)) = elim (lookup carried jid) [
    | none ↦ entry_bytes jid name
    | some there ↦ 0
  ]

  abbrev pub cost : Value → List (String × String) → ℕ
  cost stripped carried = byte_length stripped + name_bytes carried (chat_name names stripped)

  abbrev pub is_full : Framing → Value → Bool
  is_full s stripped =
      is_started s.frame.messages
      && ltb max_bytes (s.frame_bytes + cost stripped s.frame.group_names)

  abbrev pub put : Framing → Value → Framing
  put s stripped = record {
    frame = record {
      messages = s.frame.messages ++ (stripped ∷ []);
      group_names = add_name s.frame.group_names (chat_name names stripped);
    };
    frame_bytes = s.frame_bytes + cost stripped s.frame.group_names;
  }

  -- The frames from one point of the loop on.
  unfoldable pub frames_from : Framing → List Value → List HistoryFrame
  unfolding strip member lookup assign
  frames_from s [] = if is_started s.frame.messages then s.frame ∷ [] else []
  frames_from s (message ∷ messages) =
      let stripped = strip message in
      let full = is_full s stripped in
      let rest = frames_from (put (if full then nothing_framed else s) stripped) messages in
      if full then s.frame ∷ rest else rest

  unfoldable pub history_frames : List Value → List HistoryFrame
  unfolding frames_from
  history_frames messages = frames_from nothing_framed messages

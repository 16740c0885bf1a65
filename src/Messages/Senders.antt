-- ===== src/Messages/Senders.antt =====
-- src/baileys/helpers/messageEditSenders.ts: under which authors and editors a message edit is tried.
pub mod Candidates
use baileys_api.Prelude.{
  String, Bool, true, false, ◌&&◌, ◌||◌, Option, none, some, List, [], ◌∷◌, ◌++◌, ◌==◌, truthy,
  if◌then◌else◌,
}

pub record OwnJids : Type 0 where
  pub id : Option String
  pub lid : Option String

-- WAMessageKey; `none` is null, undefined, or a flag that is not set.
pub record MessageKey : Type 0 where
  pub from_me : Bool
  pub remote_jid : Option String
  pub remote_jid_alt : Option String
  pub participant : Option String
  pub participant_alt : Option String

pub record MessageEditSenders : Type 0 where
  pub orig_msg_sender : String
  pub edit_sender : String

-- `a || b`
abbrev pub or_else : Option String → Option String → Option String
or_else a b = elim (truthy a) [ none ↦ b | some s ↦ some s ]

unfoldable pub includes : List String → String → Bool
includes [] x = false
includes (y ∷ l) x = y == x || includes l x

unfoldable pub push : List String → String → List String
push [] x = x ∷ []
push (y ∷ l) x = y ∷ push l x

-- Every pair of one list and another, those of the first element first.
unfoldable pub pairs_with : String → List String → List MessageEditSenders → List MessageEditSenders
pairs_with orig [] rest = rest
pairs_with orig (edit ∷ edits) rest =
    record { orig_msg_sender = orig; edit_sender = edit } ∷ pairs_with orig edits rest

unfoldable pub all_pairs : List String → List String → List MessageEditSenders
unfolding pairs_with
all_pairs [] edits = []
all_pairs (orig ∷ origs) edits = pairs_with orig edits (all_pairs origs edits)

-- `jid_normalized_user` is the library's; an error of it is `none`.
module _ (jid_normalized_user : String → Option String) where
  abbrev pub normalize_given : Option String → Option String
  normalize_given none = none
  normalize_given (some jid) = truthy (jid_normalized_user jid)

  abbrev pub normalize : Option String → Option String
  normalize jid = normalize_given (truthy jid)

  abbrev pub push_new : List String → Option String → List String
  push_new out none = out
  push_new out (some jid) = if includes out jid then out else push out jid

  -- The loop of `unique`, with what it has so far.
  unfoldable pub unique_from : List String → List (Option String) → List String
  unfolding includes push
  unique_from out [] = out
  unique_from out (jid ∷ jids) = unique_from (push_new out (normalize jid)) jids

  unfoldable pub unique : List (Option String) → List String
  unfolding unique_from
  unique jids = unique_from [] jids

  unfoldable pub message_author_jids : MessageKey → OwnJids → List String
  unfolding unique
  message_author_jids key me =
      if key.from_me
      then unique (me.lid ∷ me.id ∷ [])
      else unique (
          or_else key.participant key.remote_jid
          ∷ or_else key.participant_alt key.remote_jid_alt
          ∷ [])

  abbrev pub all_some : List String → List (Option String)
  all_some [] = []
  all_some (s ∷ l) = some s ∷ all_some l

  unfoldable pub original_senders : MessageKey → List String → List String → List String
  unfolding unique
  original_senders target_key edit_senders stored_senders = unique (
      (if target_key.from_me
        then all_some edit_senders
        else or_else target_key.participant target_key.remote_jid ∷ [])
      ++ all_some stored_senders)

  unfoldable pub message_edit_sender_candidates :
      MessageKey → MessageKey → OwnJids → List String → List MessageEditSenders
  unfolding message_author_jids original_senders all_pairs
  message_edit_sender_candidates edit_key target_key me stored_senders =
      let edit_senders = message_author_jids edit_key me in
      all_pairs (original_senders target_key edit_senders stored_senders) edit_senders

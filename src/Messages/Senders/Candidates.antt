-- ===== src/Messages/Senders/Candidates.antt =====
-- src/baileys/helpers/messageEditSenders.ts: which pairs are candidates.
use baileys_api.Prelude.{
  String, ◌≡◌, refl, Bool, false, ◌&&◌, ◌||◌, Option, none, some, List, [], ◌∷◌, ◌++◌, ◌==◌, arith,
  eq_iff, if◌then◌else◌, Bool-cases, inl, inr, true, same_text, ap, ◌∙◌,
}
use baileys_api.Messages.Senders.{
  OwnJids, MessageKey, MessageEditSenders, or_else, all_some, includes, push, pairs_with, all_pairs,
  normalize, push_new, unique_from, unique, message_author_jids, original_senders,
  message_edit_sender_candidates,
}

-- No element occurs twice.
unfoldable pub IsDistinct : List String → Type 0
unfolding includes
IsDistinct [] = Unit {0}
IsDistinct (x ∷ l) = (includes l x ≡ false) × IsDistinct l

includes-push : (l : List String) (x y : String) → includes (push l x) y ≡ (x == y || includes l y)
unfolding includes push
includes-push [] x y = refl
includes-push (z ∷ l) x y = ground (arith, includes-push l x y)

push-IsDistinct :
    (l : List String) (x : String) → includes l x ≡ false → IsDistinct l → IsDistinct (push l x)
unfolding includes push IsDistinct
push-IsDistinct [] x h d = (refl, tt)
push-IsDistinct (y ∷ l) x h d =
    ground (arith, push-IsDistinct l x, includes-push l x y, eq_iff x y, eq_iff y x)

push_new-IsDistinct :
    (n : String → Option String) (out : List String) (jid : Option String)
    → IsDistinct out
    → IsDistinct (push_new n out jid)
push_new-IsDistinct n out none d = d
push_new-IsDistinct n out (some jid) d = elim (Bool-cases (includes out jid)) [
  | inl e ↦ rw e d
  | inr e ↦ rw e (push-IsDistinct out jid e d)
]

unique_from-IsDistinct :
    (n : String → Option String) (out : List String) (jids : List (Option String))
    → IsDistinct out
    → IsDistinct (unique_from n out jids)
unfolding unique_from
unique_from-IsDistinct n out [] d = d
unique_from-IsDistinct n out (jid ∷ jids) d =
    unique_from-IsDistinct n (push_new n out (normalize n jid)) jids
      (push_new-IsDistinct n out (normalize n jid) d)

unique-IsDistinct :
    (n : String → Option String) (jids : List (Option String)) → IsDistinct (unique n jids)
unfolding unique IsDistinct
unique-IsDistinct n jids = unique_from-IsDistinct n [] jids tt

unfoldable pub has_pair : List MessageEditSenders → String → String → Bool
has_pair [] orig edit = false
has_pair (p ∷ l) orig edit =
    p.orig_msg_sender == orig && p.edit_sender == edit || has_pair l orig edit

-- No pair occurs twice.
unfoldable pub IsDistinctPairs : List MessageEditSenders → Type 0
unfolding has_pair
IsDistinctPairs [] = Unit {0}
IsDistinctPairs (p ∷ l) = (has_pair l p.orig_msg_sender p.edit_sender ≡ false) × IsDistinctPairs l

has_pair-pairs_with :
    (o : String) (edits : List String) (rest : List MessageEditSenders) (orig edit : String)
    → has_pair (pairs_with o edits rest) orig edit
      ≡ (o == orig && includes edits edit || has_pair rest orig edit)
unfolding has_pair pairs_with includes
has_pair-pairs_with o [] rest orig edit = ground arith
has_pair-pairs_with o (e ∷ edits) rest orig edit =
    ground (arith, has_pair-pairs_with o edits rest orig edit)

has_pair-all_pairs :
    (origs edits : List String) (orig edit : String)
    → has_pair (all_pairs origs edits) orig edit ≡ (includes origs orig && includes edits edit)
unfolding has_pair all_pairs includes
has_pair-all_pairs [] edits orig edit = refl
has_pair-all_pairs (o ∷ origs) edits orig edit = ground (
  arith,
  has_pair-pairs_with o edits (all_pairs origs edits) orig edit,
  has_pair-all_pairs origs edits orig edit,
)

pairs_with-IsDistinctPairs :
    (o : String) (edits : List String) (rest : List MessageEditSenders)
    → IsDistinct edits
    → ((e : String) → has_pair rest o e ≡ false)
    → IsDistinctPairs rest
    → IsDistinctPairs (pairs_with o edits rest)
unfolding pairs_with IsDistinct IsDistinctPairs includes
pairs_with-IsDistinctPairs o [] rest d f r = r
pairs_with-IsDistinctPairs o (e ∷ edits) rest d f r = (
  ground (arith, has_pair-pairs_with o edits rest o e, d.0, f e),
  pairs_with-IsDistinctPairs o edits rest d.1 f r,
)

all_pairs-IsDistinctPairs :
    (origs edits : List String)
    → IsDistinct origs
    → IsDistinct edits
    → IsDistinctPairs (all_pairs origs edits)
unfolding all_pairs IsDistinct IsDistinctPairs
all_pairs-IsDistinctPairs [] edits d e = tt
all_pairs-IsDistinctPairs (o ∷ origs) edits d e =
    pairs_with-IsDistinctPairs o edits (all_pairs origs edits) e
      (λ x. ground (arith, has_pair-all_pairs origs edits o x, d.0))
      (all_pairs-IsDistinctPairs origs edits d.1 e)

message_author_jids-IsDistinct :
    (n : String → Option String) (key : MessageKey) (me : OwnJids)
    → IsDistinct (message_author_jids n key me)
unfolding message_author_jids
message_author_jids-IsDistinct n key me = elim (Bool-cases key.from_me) [
  | inl e ↦ rw e (unique-IsDistinct n (me.lid ∷ me.id ∷ []))
  | inr e ↦ rw e (
      unique-IsDistinct n (
        or_else key.participant key.remote_jid
        ∷ or_else key.participant_alt key.remote_jid_alt
        ∷ []))
]

original_senders-IsDistinct :
    (n : String → Option String) (target_key : MessageKey) (authors stored : List String)
    → IsDistinct (original_senders n target_key authors stored)
unfolding original_senders
original_senders-IsDistinct n target_key authors stored = unique-IsDistinct n (
    (if target_key.from_me
      then all_some n authors
      else or_else target_key.participant target_key.remote_jid ∷ [])
    ++ all_some n stored)

-- A JID that is given and whose normal form is this text.
abbrev pub names : (String → Option String) → Option String → String → Bool
names n jid x = same_text (normalize n jid) x

-- A text among these JIDs.
abbrev pub any_names : (String → Option String) → List (Option String) → String → Bool
any_names n [] x = false
any_names n (jid ∷ jids) x = names n jid x || any_names n jids x

includes-push_new :
    (n : String → Option String) (out : List String) (jid : Option String) (x : String)
    → includes (push_new n out jid) x ≡ (includes out x || same_text jid x)
includes-push_new n out none x = ground arith
includes-push_new n out (some jid) x =
    ground (arith, includes-push out jid x, eq_iff jid x, includes_self out jid)
  where
    includes_self :
        (l : List String) (y : String) → includes l y ≡ true → y ≡ x → includes l x ≡ true
    includes_self l y h e = cc

includes-unique_from :
    (n : String → Option String) (out : List String) (jids : List (Option String)) (x : String)
    → includes (unique_from n out jids) x ≡ (includes out x || any_names n jids x)
unfolding unique_from
includes-unique_from n out [] x = ground arith
includes-unique_from n out (jid ∷ jids) x = ground (
  arith,
  includes-unique_from n (push_new n out (normalize n jid)) jids x,
  includes-push_new n out (normalize n jid) x,
)

includes-unique :
    (n : String → Option String) (jids : List (Option String)) (x : String)
    → includes (unique n jids) x ≡ any_names n jids x
unfolding unique includes
includes-unique n jids x = includes-unique_from n [] jids x

-- Under what the author of a message may be known: this account under its LID and its phone number
-- where the message is its own, and else the participant, or the chat, under both of its forms.
abbrev pub author_jids : MessageKey → OwnJids → List (Option String)
author_jids key me =
    if key.from_me
    then me.lid ∷ me.id ∷ []
    else (or_else key.participant key.remote_jid
        ∷ or_else key.participant_alt key.remote_jid_alt
        ∷ [])

abbrev pub normal_forms : (String → Option String) → List (Option String) → List (Option String)
normal_forms n [] = []
normal_forms n (jid ∷ jids) = normalize n jid ∷ normal_forms n jids

-- The text is an author of the edit.
abbrev pub is_author : (String → Option String) → MessageKey → OwnJids → String → Bool
is_author n edit_key me x = any_names n (author_jids edit_key me) x

-- The text is an original sender: an author of the edit, normalized once more, where the edited
-- message is of the one who edits it, and else who wrote it, or else a sender that was stored.
abbrev pub is_original :
    (String → Option String) → MessageKey → MessageKey → OwnJids → List String → String → Bool
is_original n edit_key target_key me stored x =
    (if target_key.from_me
      then any_names n (normal_forms n (author_jids edit_key me)) x
      else names n (or_else target_key.participant target_key.remote_jid) x)
    || any_names n (all_some n stored) x

any_names-append :
    (n : String → Option String) (a b : List (Option String)) (x : String)
    → any_names n (a ++ b) x ≡ (any_names n a x || any_names n b x)
any_names-append n [] b x = refl
any_names-append n (j ∷ a) b x = ground (arith, any_names-append n a b x)

any_names-push :
    (n : String → Option String) (out : List String) (j x : String)
    → any_names n (all_some n (push out j)) x
      ≡ (any_names n (all_some n out) x || names n (some j) x)
unfolding push
any_names-push n [] j x = ground arith
any_names-push n (y ∷ out) j x = let ih = any_names-push n out j x in ground (arith, ih)

any_names-includes :
    (n : String → Option String) (out : List String) (j x : String)
    → includes out j ≡ true
    → names n (some j) x ≡ true
    → any_names n (all_some n out) x ≡ true
unfolding includes
any_names-includes n [] j x h k = cc
any_names-includes n (y ∷ out) j x h k = elim (Bool-cases (y == j)) [
  | inl e ↦
      let same : y ≡ j = ground (arith, e, eq_iff y j) in
      let first : names n (some y) x ≡ true = rw same k in ground (arith, first)
  | inr e ↦ let ih = any_names-includes n out j x (ground (arith, h, e)) k in ground (arith, ih)
]

any_names-push_new :
    (n : String → Option String) (out : List String) (jid : Option String) (x : String)
    → any_names n (all_some n (push_new n out jid)) x
      ≡ (any_names n (all_some n out) x || names n jid x)
any_names-push_new n out none x = ground arith
any_names-push_new n out (some j) x = elim (Bool-cases (includes out j)) [
  | inl e ↦ rw e (elim (Bool-cases (names n (some j) x)) [
    | inl k ↦ rw (k, any_names-includes n out j x e k) refl
    | inr k ↦ rw k (or_false (any_names n (all_some n out) x))
  ])
  | inr e ↦ rw e (any_names-push n out j x)
]
  where
    or_false : (b : Bool) → b ≡ (b || false)
    or_false true = refl
    or_false false = refl

any_names-unique_from :
    (n : String → Option String) (out : List String) (jids : List (Option String)) (x : String)
    → any_names n (all_some n (unique_from n out jids)) x
      ≡ (any_names n (all_some n out) x || any_names n (normal_forms n jids) x)
unfolding unique_from
any_names-unique_from n out [] x = ground arith
any_names-unique_from n out (jid ∷ jids) x = ground (
  arith,
  any_names-unique_from n (push_new n out (normalize n jid)) jids x,
  any_names-push_new n out (normalize n jid) x,
)

message_author_jids_lem :
    (n : String → Option String) (key : MessageKey) (me : OwnJids)
    → message_author_jids n key me ≡ unique n (author_jids key me)
unfolding message_author_jids
message_author_jids_lem n key me = elim (Bool-cases key.from_me) [
  | inl e ↦ rw e refl
  | inr e ↦ rw e refl
]

includes-authors :
    (n : String → Option String) (key : MessageKey) (me : OwnJids) (x : String)
    → includes (message_author_jids n key me) x ≡ is_author n key me x
includes-authors n key me x =
    rw (message_author_jids_lem n key me) (includes-unique n (author_jids key me) x)

any_names-authors :
    (n : String → Option String) (key : MessageKey) (me : OwnJids) (x : String)
    → any_names n (all_some n (message_author_jids n key me)) x
      ≡ any_names n (normal_forms n (author_jids key me)) x
unfolding unique
any_names-authors n key me x =
    rw (message_author_jids_lem n key me) (any_names-unique_from n [] (author_jids key me) x)

includes-originals :
    (n : String → Option String) (edit_key target_key : MessageKey) (me : OwnJids)
    (stored : List String) (x : String)
    → includes (original_senders n target_key (message_author_jids n edit_key me) stored) x
      ≡ is_original n edit_key target_key me stored x
unfolding original_senders
includes-originals n edit_key target_key me stored x =
    let authors = all_some n (message_author_jids n edit_key me) in
    let other = or_else target_key.participant target_key.remote_jid ∷ [] in
    elim (Bool-cases target_key.from_me) [
      | inl e ↦ rw e (
          includes-unique n (authors ++ all_some n stored) x
          ∙ any_names-append n authors (all_some n stored) x
          ∙ ap (λ b. b || any_names n (all_some n stored) x) (any_names-authors n edit_key me x))
      | inr e ↦ rw e (includes-unique n (other ++ all_some n stored) x)
    ]

-- The candidates of an edit are the pairs of an original sender and an author of the edit, each in
-- its normal form, and none of them occurs twice. The author is this account, under its LID or its
-- phone number, where the edit is its own, and else the participant, or the chat, under either form;
-- the original sender is such an author where the edited message is of the one who edits it, and
-- else its participant or chat, or in both cases a sender that was stored.
pub message_edit_sender_candidates_lem :
    (n : String → Option String) (edit_key target_key : MessageKey) (me : OwnJids)
    (stored : List String) (orig edit : String)
    → let found = message_edit_sender_candidates n edit_key target_key me stored in
      (has_pair found orig edit
        ≡ (is_original n edit_key target_key me stored orig && is_author n edit_key me edit))
      × IsDistinctPairs found
unfolding message_edit_sender_candidates
message_edit_sender_candidates_lem n edit_key target_key me stored orig edit =
    let authors = message_author_jids n edit_key me in
    let originals = original_senders n target_key authors stored in
    (
      has_pair-all_pairs originals authors orig edit
          ∙ ap (λ b. b && includes authors edit)
              (includes-originals n edit_key target_key me stored orig)
          ∙ ap (λ b. is_original n edit_key target_key me stored orig && b)
              (includes-authors n edit_key me edit),
      all_pairs-IsDistinctPairs originals authors
          (original_senders-IsDistinct n target_key authors stored)
          (message_author_jids-IsDistinct n edit_key me),
    )

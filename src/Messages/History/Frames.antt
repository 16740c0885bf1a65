-- ===== src/Messages/History/Frames.antt =====
-- src/baileys/helpers/historySync.ts: what the frames hold, and their budget.
use baileys_api.Prelude.{
  ℕ, ◌+◌, ◌≤◌, ◌≡◌, ◌⊎◌, inl, inr, refl, ◌∙◌, ap, String, true, false, Option, none, some, List, [],
  ◌∷◌, ◌++◌, ◌==◌, length, All, truthy, get_or, arith, eq_iff, Bool-cases, Option-cases,
  if◌then◌else◌,
}
use baileys_api.Entries.{lookup, assign, lookup-assign}
use baileys_api.Messages.History.{
  Value, strip, HistoryFrame, Framing, nothing_framed, is_started, name_in, chat_name, add_name,
  entry_bytes, name_bytes, is_full, put, frames_from, history_frames,
}

unfoldable pub strip_all : List Value → List Value
unfolding strip
strip_all [] = []
strip_all (m ∷ l) = strip m ∷ strip_all l

unfoldable pub all_messages : List HistoryFrame → List Value
all_messages [] = []
all_messages (f ∷ l) = f.messages ++ all_messages l

++-assoc : (a b c : List Value) → ((a ++ b) ++ c) ≡ (a ++ (b ++ c))
++-assoc [] b c = refl
++-assoc (x ∷ a) b c = ap (◌∷◌ x) (++-assoc a b c)

++-nil : (a : List Value) → (a ++ []) ≡ a
++-nil [] = refl
++-nil (x ∷ a) = ap (◌∷◌ x) (++-nil a)

module _ (byte_length : Value → ℕ) (max_bytes : ℕ) (names : List (String × String)) where
  abbrev step : Framing → Value → Framing
  step s m = put byte_length max_bytes names s (strip m)

  last_frame_messages :
      (f : HistoryFrame)
      → all_messages (if is_started f.messages then f ∷ [] else []) ≡ f.messages ++ []
  unfolding all_messages
  last_frame_messages f = elim (Bool-cases (is_started f.messages)) [
    | inl e ↦ rw e refl
    | inr e ↦ rw e (empty f.messages e)
  ]
    where
      empty : (l : List Value) → is_started l ≡ false → [] ≡ l ++ []
      empty [] h = refl
      empty (x ∷ l) h = cc

  frames_from_complete :
      (s : Framing) (l : List Value)
      → all_messages (frames_from byte_length max_bytes names s l) ≡ s.frame.messages ++ strip_all l
  unfolding frames_from strip_all all_messages
  frames_from_complete s [] = last_frame_messages s.frame
  frames_from_complete s (m ∷ l) =
      elim (Bool-cases (is_full byte_length max_bytes names s (strip m))) [
        | inl e ↦ rw e (ap (◌++◌ s.frame.messages) (frames_from_complete (step nothing_framed m) l))
        | inr e ↦ rw e (
            frames_from_complete (step s m) l
            ∙ ++-assoc s.frame.messages (strip m ∷ []) (strip_all l))
      ]

  -- The bytes of the messages of a frame, and of the names that it carries.
  unfoldable pub message_bytes : List Value → ℕ
  message_bytes [] = 0
  message_bytes (m ∷ l) = byte_length m + message_bytes l

  unfoldable pub group_bytes : List (String × String) → ℕ
  group_bytes [] = 0
  group_bytes ((jid, name) ∷ l) = entry_bytes byte_length max_bytes names jid name + group_bytes l

  message_bytes-append :
      (l : List Value) (m : Value) → message_bytes (l ++ (m ∷ [])) ≡ message_bytes l + byte_length m
  unfolding message_bytes
  message_bytes-append [] m = omega arith
  message_bytes-append (x ∷ l) m = omega (arith, message_bytes-append l m)

  group_bytes-assign :
      (l : List (String × String)) (jid name : String)
      → get_or (lookup l jid) name ≡ name
      → group_bytes (assign l jid name)
        ≡ group_bytes l + name_bytes byte_length max_bytes names l (some (jid, name))
  unfolding group_bytes lookup assign
  group_bytes-assign [] jid name h = ground arith
  group_bytes-assign ((i, b) ∷ l) jid name h = elim (Bool-cases (i == jid)) [
    | inl e ↦ ground arith
    | inr e ↦ ground (arith, group_bytes-assign l jid name)
  ]

  -- A frame within its budget: one message, or no more bytes than the budget has.
  unfoldable pub IsWithin : HistoryFrame → Type 0
  unfolding message_bytes group_bytes
  IsWithin f =
      (length f.messages ≡ 1) ⊎ (message_bytes f.messages + group_bytes f.group_names ≤ max_bytes)

  -- What holds at every turn of the loop.
  record IsFit (s : Framing) : Type 0 where
    weighed : s.frame_bytes ≡ message_bytes s.frame.messages + group_bytes s.frame.group_names
    within : (length s.frame.messages ≤ 1) ⊎ (s.frame_bytes ≤ max_bytes)
    named :
        (jid name : String)
        → lookup s.frame.group_names jid ≡ some name
        → lookup names jid ≡ some name

  nothing_framed-IsFit : IsFit nothing_framed
  unfolding message_bytes group_bytes lookup
  nothing_framed-IsFit = record {
    weighed = refl;
    within = inl (omega arith);
    named = λ jid name h. absurd (cc);
  }

  truthy-some : (o : Option String) {s : String} → truthy o ≡ some s → o ≡ some s
  truthy-some none h = cc
  truthy-some (some x) h = ground arith

  name_in-some :
      (o : Option String) {jid name : String}
      → name_in names o ≡ some (jid, name)
      → lookup names jid ≡ some name
  name_in-some none h = cc
  name_in-some (some j) h = elim (Option-cases (truthy (lookup names j))) [
    | inl e ↦ absurd (ground arith)
    | inr (n, e) ↦ ground (arith, truthy-some (lookup names j) e)
  ]

  add_name_named :
      (carried : List (String × String)) (chat : Option (String × String))
      → ((jid name : String) → chat ≡ some (jid, name) → lookup names jid ≡ some name)
      → ((jid name : String) → lookup carried jid ≡ some name → lookup names jid ≡ some name)
      → (jid name : String) → lookup (add_name carried chat) jid ≡ some name
      → lookup names jid ≡ some name
  add_name_named carried none c h jid name e = h jid name e
  add_name_named carried (some (j, n)) c h jid name e =
      ground (arith, lookup-assign carried j jid n, c j n refl, h jid name, eq_iff j jid)

  add_name_bytes :
      (carried : List (String × String)) (chat : Option (String × String))
      → ((jid name : String) → chat ≡ some (jid, name) → lookup names jid ≡ some name)
      → ((jid name : String) → lookup carried jid ≡ some name → lookup names jid ≡ some name)
      → group_bytes (add_name carried chat)
        ≡ group_bytes carried + name_bytes byte_length max_bytes names carried chat
  add_name_bytes carried none c h = omega arith
  add_name_bytes carried (some (j, n)) c h =
      group_bytes-assign carried j n (elim (Option-cases (lookup carried j)) [
        | inl e ↦ rw e refl
        | inr (v, e) ↦ ground (arith, c j n refl, h j v e)
      ])

  put-IsFit :
      (s : Framing) (m : Value)
      → is_full byte_length max_bytes names s m ≡ false
      → IsFit s
      → IsFit (put byte_length max_bytes names s m)
  put-IsFit s m e h = record {
    weighed = omega (
      arith,
      h.weighed,
      message_bytes-append s.frame.messages m,
      add_name_bytes s.frame.group_names (chat_name names m) (λ j n c. name_in-some _ c) h.named,
    );
    within = elim (Bool-cases (is_started s.frame.messages)) [
      | inl x ↦ inr (ground arith)
      | inr x ↦ inl (alone s.frame.messages x)
    ];
    named =
        add_name_named s.frame.group_names (chat_name names m) (λ j n c. name_in-some _ c) h.named;
  }
    where
      alone : (l : List Value) → is_started l ≡ false → length (l ++ (m ∷ [])) ≤ 1
      alone [] x = omega arith
      alone (y ∷ l) x = cc

  IsFit-IsWithin : (s : Framing) → IsFit s → is_started s.frame.messages ≡ true → IsWithin s.frame
  unfolding IsWithin
  IsFit-IsWithin s h x = elim h.within [
    | inl few ↦ inl (one s.frame.messages x few)
    | inr fits ↦ inr (omega (arith, fits, h.weighed))
  ]
    where
      one : (l : List Value) → is_started l ≡ true → length l ≤ 1 → length l ≡ 1
      one [] x few = cc
      one (y ∷ l) x few = omega (arith, few)

  frames_from-IsWithin :
      (s : Framing) (l : List Value)
      → IsFit s
      → All IsWithin (frames_from byte_length max_bytes names s l)
  unfolding frames_from
  frames_from-IsWithin s [] h = elim (Bool-cases (is_started s.frame.messages)) [
    | inl e ↦ rw e (IsFit-IsWithin s h e, tt)
    | inr e ↦ rw e tt
  ]
  frames_from-IsWithin s (m ∷ l) h =
      elim (Bool-cases (is_full byte_length max_bytes names s (strip m))) [
        | inl e ↦ rw e (
          IsFit-IsWithin s h (ground arith),
          frames_from-IsWithin (step nothing_framed m) l
              (put-IsFit nothing_framed (strip m) refl nothing_framed-IsFit),
        )
        | inr e ↦ rw e (frames_from-IsWithin (step s m) l (put-IsFit s (strip m) e h))
      ]

-- The frames of a dump hold all its messages, stripped and in their order. A frame has one message,
-- or its messages and the names that it carries have no more bytes together than the budget.
pub history_frames-IsWithin :
    (byte_length : Value → ℕ) (max_bytes : ℕ) (names : List (String × String))
    (messages : List Value)
    → (all_messages (history_frames byte_length max_bytes names messages) ≡ strip_all messages)
      × All
          (IsWithin byte_length max_bytes names)
          (history_frames byte_length max_bytes names messages)
unfolding history_frames
history_frames-IsWithin byte_length max_bytes names messages = (
  frames_from_complete byte_length max_bytes names nothing_framed messages,
  frames_from-IsWithin byte_length max_bytes names nothing_framed messages
      (nothing_framed-IsFit byte_length max_bytes names),
)

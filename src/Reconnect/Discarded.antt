-- ===== src/Reconnect/Discarded.antt =====
-- src/baileys/connection.ts (isDiscarded in the reconnects of a connection): when a connection is given
-- up, and what it still does then.
use baileys_api.Prelude.{
  ℕ, zero, suc, ◌+◌, ◌≤◌, ◌<◌, ◌≡◌, ◌⊎◌, refl, String, Bool, true, false, ◌&&◌, ◌||◌, Option, none,
  some, List, [], ◌∷◌, length, leb, ltb, arith, if◌then◌else◌, if_both, if_cases, inl, inr, ◌∙◌, ap,
}
use baileys_api.Reconnect.{
  Task, advancing, yielding, striking_alone, backing_off, connecting, closing, striking, Life,
  logged_out, replaced, lost, Connection, opened, pairing, closed, Update, notify, wait_for,
  drop_socket, discard, connect, handle_reconnecting, track_connection_replaced, rebuild, on_strike,
  reconnect, reconnect_alone, settle_update, on_connection, handle_connection_update,
  finish_connect, resume, pick, resume_picked, Event, updates, resumes, discards, close_one, emit,
  handle, run, is_reconnecting, note_open, reconnecting, close_socket, is_opened, is_other_number,
  update, wrong_phone_number,
}

-- Ten attempts at most since the last that opened, or the connection is discarded.
abbrev pub IsBounded : Life → Type 0
IsBounded l = (l.is_discarded ≡ true) ⊎ (l.reconnect_count ≤ 10)

discard-IsBounded : (l : Life) → IsBounded (discard l)
discard-IsBounded l = if_cases IsBounded l.is_discarded (λ e. inl e) (λ e. inl refl)

connect-IsBounded : (l : Life) → IsBounded l → IsBounded (connect l)
connect-IsBounded l h = if_both IsBounded (l.is_discarded || l.has_socket) h h

handle_reconnecting-IsBounded : (l : Life) → IsBounded (handle_reconnecting l).0
handle_reconnecting-IsBounded l =
    let counted = record l { reconnect_count = l.reconnect_count + 1 } in
    if_cases (λ (x : Life × Bool). IsBounded x.0) (ltb 10 counted.reconnect_count)
      {x = (discard counted, true)} {y = (notify reconnecting counted, false)}
      (λ e. discard-IsBounded counted) (λ e. inr (ground arith))

rebuild-IsBounded : (b : Bool) (l : Life) → IsBounded l → IsBounded (rebuild b l)
rebuild-IsBounded false l h = connect-IsBounded (drop_socket l) h
rebuild-IsBounded true l h =
    let q = track_connection_replaced (drop_socket l) in
    if_both IsBounded (leb 5 (length q.replaced_at)) {x = wait_for backing_off q} {y = connect q} h
      (connect-IsBounded q h)

on_strike-IsBounded :
    (b : Bool) (l : Life) (strikes : Bool) → IsBounded l → IsBounded (on_strike b (l, strikes))
on_strike-IsBounded b l true h = h
on_strike-IsBounded b l false h = rebuild-IsBounded b l h

reconnect-IsBounded : (b : Bool) (l : Life) → IsBounded (reconnect b l)
reconnect-IsBounded b l =
    on_strike-IsBounded b (handle_reconnecting l).0 (handle_reconnecting l).1
      (handle_reconnecting-IsBounded l)

reconnect_alone-IsBounded :
    (l : Life) (strikes : Bool) → IsBounded l → IsBounded (reconnect_alone (l, strikes))
reconnect_alone-IsBounded l true h = h
reconnect_alone-IsBounded l false h = h

settle_update-IsBounded :
    (phone_number : String) (u : Update) (l : Life)
    → IsBounded l
    → IsBounded (settle_update phone_number u l)
settle_update-IsBounded phone_number u l h =
    let fresh = notify update (note_open l) in
    let same = notify update l in
    if_both IsBounded (is_opened u.connection && is_other_number phone_number u.user)
      {x = notify wrong_phone_number l}
      {y = if is_opened u.connection || u.is_online then fresh else same} h
      (if_both IsBounded (is_opened u.connection || u.is_online) {x = fresh} {y = same}
        (inr (omega arith)) h)

on_connection-IsBounded :
    (phone_number : String) (u : Update) (c : Option Connection) (l : Life)
    → IsBounded l
    → IsBounded (on_connection phone_number u c l)
on_connection-IsBounded phone_number u none l h = settle_update-IsBounded phone_number u l h
on_connection-IsBounded phone_number u (some opened) l h =
    settle_update-IsBounded phone_number u l h
on_connection-IsBounded phone_number u (some pairing) l h =
    settle_update-IsBounded phone_number u l h
on_connection-IsBounded phone_number u (some (closed logged_out)) l h = inl refl
on_connection-IsBounded phone_number u (some (closed replaced)) l h = h
on_connection-IsBounded phone_number u (some (closed lost)) l h =
    if_both IsBounded l.has_opened {x = reconnect false l} {y = wait_for advancing l}
      (reconnect-IsBounded false l) h

update-IsBounded :
    (phone_number : String) (u : Update) (l : Life)
    → IsBounded l
    → IsBounded (handle_connection_update phone_number u l)
unfolding handle_connection_update
update-IsBounded phone_number u l h =
    let started = record l { is_reconnect = false } in
    let again = reconnect_alone (handle_reconnecting started) in
    let other = on_connection phone_number u u.connection l in
    if_both IsBounded l.is_discarded {x = l} {y = if is_reconnecting u l then again else other} h (
      if_both IsBounded (is_reconnecting u l) {x = again} {y = other}
        (reconnect_alone-IsBounded (handle_reconnecting started).0 (handle_reconnecting started).1
          (handle_reconnecting-IsBounded started))
        (on_connection-IsBounded phone_number u u.connection l h))

finish_connect-IsBounded : (b : Bool) (l : Life) → IsBounded l → IsBounded (finish_connect b l)
finish_connect-IsBounded true l h = if_both IsBounded l.is_discarded h h
finish_connect-IsBounded false l h = discard-IsBounded l

resume-IsBounded : (t : Task) (b : Bool) (l : Life) → IsBounded l → IsBounded (resume t b l)
unfolding resume
resume-IsBounded advancing true l h =
    rebuild-IsBounded false (handle_reconnecting (record l { reconnect_count = 0 })).0
      (handle_reconnecting-IsBounded (record l { reconnect_count = 0 }))
resume-IsBounded advancing false l h = reconnect-IsBounded false l
resume-IsBounded yielding true l h = discard-IsBounded l
resume-IsBounded yielding false l h = reconnect-IsBounded true l
resume-IsBounded striking_alone b l h = h
resume-IsBounded (striking was_replaced) b l h = rebuild-IsBounded was_replaced _ h
resume-IsBounded backing_off b l h = connect-IsBounded l h
resume-IsBounded connecting b l h = finish_connect-IsBounded b l h
resume-IsBounded closing true l h = inr (omega arith)
resume-IsBounded closing false l h = h

resume_picked-IsBounded :
    (o : Option (Task × List Task)) (answer : Bool) (l : Life)
    → IsBounded l
    → IsBounded (resume_picked o answer l)
resume_picked-IsBounded none answer l h = h
resume_picked-IsBounded (some (t, rest)) answer l h =
    resume-IsBounded t answer (record l { tasks = rest }) h

close_one-IsBounded :
    (phone_number : String) (u : Update) (n : ℕ) (l : Life)
    → IsBounded l
    → IsBounded (close_one phone_number u n l)
close_one-IsBounded phone_number u zero l h = h
close_one-IsBounded phone_number u (suc others) l h =
    update-IsBounded phone_number u (close_socket others l) h

emit-IsBounded :
    (phone_number : String) (u : Update) (c : Option Connection) (l : Life)
    → IsBounded l
    → IsBounded (emit phone_number u c l)
emit-IsBounded phone_number u none l h = update-IsBounded phone_number u l h
emit-IsBounded phone_number u (some opened) l h = update-IsBounded phone_number u l h
emit-IsBounded phone_number u (some pairing) l h = update-IsBounded phone_number u l h
emit-IsBounded phone_number u (some (closed reason)) l h =
    close_one-IsBounded phone_number u l.open_sockets l h

-- A discarded connection that goes on without a candidate.
goes_on :
    (l : Life)
    → l.is_discarded ≡ true
    → l.reconnect_count < 10
    → ((reconnect false l).is_discarded ≡ true)
      × ((reconnect false l).notices ≡ reconnecting ∷ l.notices)
      × ((reconnect false l).tasks ≡ l.tasks)
goes_on l e few = ground arith

module _ (phone_number : String) where
  handle-IsBounded :
      (event : Event) (l : Life) → IsBounded l → IsBounded (handle phone_number event l)
  unfolding handle
  handle-IsBounded (updates u) l h = emit-IsBounded phone_number u u.connection l h
  handle-IsBounded (resumes i answer) l h = resume_picked-IsBounded (pick l.tasks i) answer l h
  handle-IsBounded discards l h = discard-IsBounded l

  -- A connection that is discarded or counts at most ten attempts to reconnect stays so, whatever its
  -- sockets report and in whatever order its waits end.
  pub run-IsBounded :
      (events : List (ℕ × Event)) (l : Life) → IsBounded l → IsBounded (run phone_number l events)
  unfolding run
  run-IsBounded [] l h = h
  run-IsBounded ((wait, event) ∷ events) l h =
      let later = record l { clock = l.clock + wait } in
      run-IsBounded events (handle phone_number event later) (handle-IsBounded event later h)

  -- A connection that is discarded while it waits for advanceImportCandidate, and gets no candidate,
  -- still reports that it is reconnecting, unless it has made ten attempts, and makes no socket.
  pub discards-reconnecting :
      (l : Life) (i : ℕ) (rest : List Task)
      → pick l.tasks i ≡ some (advancing, rest)
      → l.reconnect_count < 10
      → let q = handle phone_number (resumes i false) (handle phone_number discards l) in
        (q.is_discarded ≡ true) × (q.notices ≡ reconnecting ∷ l.notices) × (q.tasks ≡ rest)
  unfolding handle resume
  discards-reconnecting l i rest e few =
      let q = discard l in
      let discarded : q.is_discarded ≡ true = ground arith in
      let same_tasks : q.tasks ≡ l.tasks = ground arith in
      let same_notices : q.notices ≡ l.notices = ground arith in
      let same_count : q.reconnect_count ≡ l.reconnect_count = ground arith in
      let (dead, told, left) =
        goes_on (record q { tasks = rest }) discarded (omega (arith, few, same_count)) in
      rw same_tasks (rw e (dead, told ∙ ap (λ x. reconnecting ∷ x) same_notices, left))

-- ===== src/Reconnect/Single.antt =====
-- src/baileys/connection.ts (the reconnects of a connection): the sockets that it has, and the ones
-- that it is about to make.
use baileys_api.Prelude.{
  ℕ, zero, suc, ◌+◌, ◌≤◌, ◌≡◌, refl, String, Bool, true, false, Option, none, some, List, [], ◌∷◌,
  length, leb, arith, if◌then◌else◌, if_both,
}
use baileys_api.Reconnect.{
  Task, advancing, yielding, striking_alone, backing_off, connecting, closing, striking, Life,
  logged_out, replaced, lost, Connection, opened, pairing, closed, Update, wait_for, drop_socket,
  discard, connect, handle_reconnecting, track_connection_replaced, rebuild, on_strike, reconnect,
  lose, reconnect_alone, settle_update, on_connection, handle_connection_update, finish_connect,
  resume, keep_first, close_socket, pick, resume_picked, Event, updates, resumes, discards,
  close_one, emit, handle, run, is_reconnecting,
}

-- A wait that a new socket may come of.
abbrev pub builds : Task → ℕ
builds striking_alone = 0
builds closing = 0
builds _ = 1

abbrev pub builders : List Task → ℕ
builders [] = 0
builders (t ∷ l) = builds t + builders l

abbrev pub load : Life → ℕ
load l = builders l.tasks + l.open_sockets

load-discard : (l : Life) → load (discard l) ≤ load l
load-discard l = ground arith

load-connect : (l : Life) → load (connect l) ≤ load l + 1
load-connect l = ground arith

load-handle_reconnecting : (l : Life) → load (handle_reconnecting l).0 ≤ load l
load-handle_reconnecting l = ground arith

load-rebuild : (b : Bool) (l : Life) → load (rebuild b l) ≤ load l + 1
load-rebuild false l = load-connect (drop_socket l)
load-rebuild true l =
    let q = track_connection_replaced (drop_socket l) in
    if_both (λ (x : Life). load x ≤ load l + 1) (leb 5 (length q.replaced_at))
      {x = wait_for backing_off q} {y = connect q} (omega arith) (load-connect q)

load-on_strike :
    (b : Bool) (l : Life) (strikes : Bool) → load (on_strike b (l, strikes)) ≤ load l + 1
load-on_strike b l true = omega arith
load-on_strike b l false = load-rebuild b l

load-reconnect : (b : Bool) (l : Life) → load (reconnect b l) ≤ load l + 1
load-reconnect b l = omega (
  arith,
  load-on_strike b (handle_reconnecting l).0 (handle_reconnecting l).1,
  load-handle_reconnecting l,
)

load-reconnect_alone : (l : Life) (strikes : Bool) → load (reconnect_alone (l, strikes)) ≤ load l
load-reconnect_alone l true = omega arith
load-reconnect_alone l false = omega arith

load-settle_update :
    (phone_number : String) (u : Update) (l : Life) → load (settle_update phone_number u l) ≤ load l
load-settle_update phone_number u l = ground arith

load-lose : (l : Life) → load (lose l) ≤ load l + 1
load-lose l =
    if_both (λ (x : Life). load x ≤ load l + 1) l.has_opened {x = reconnect false l}
      {y = wait_for advancing l} (load-reconnect false l) (omega arith)

-- What an update may add: the close of a socket, a wait for the next one.
abbrev adds : Option Connection → ℕ
adds (some (closed reason)) = 1
adds _ = 0

load-on_connection :
    (phone_number : String) (u : Update) (c : Option Connection) (l : Life)
    → load (on_connection phone_number u c l) ≤ load l + adds c
load-on_connection phone_number u none l = ground (arith, load-settle_update phone_number u l)
load-on_connection phone_number u (some opened) l =
    ground (arith, load-settle_update phone_number u l)
load-on_connection phone_number u (some pairing) l =
    ground (arith, load-settle_update phone_number u l)
load-on_connection phone_number u (some (closed logged_out)) l = omega arith
load-on_connection phone_number u (some (closed replaced)) l = omega arith
load-on_connection phone_number u (some (closed lost)) l = load-lose l

load-update :
    (phone_number : String) (u : Update) (l : Life)
    → load (handle_connection_update phone_number u l) ≤ load l + adds u.connection
unfolding handle_connection_update
load-update phone_number u l =
    let P = λ (x : Life). load x ≤ load l + adds u.connection in
    let started = record l { is_reconnect = false } in
    let again = reconnect_alone (handle_reconnecting started) in
    let other = on_connection phone_number u u.connection l in
    if_both P l.is_discarded {x = l} {y = if is_reconnecting u l then again else other}
      (omega arith)
      (if_both P (is_reconnecting u l) {x = again} {y = other}
        (omega (
          arith,
          load-reconnect_alone (handle_reconnecting started).0 (handle_reconnecting started).1,
          load-handle_reconnecting started,
        ))
        (load-on_connection phone_number u u.connection l))

load-finish_connect : (b : Bool) (l : Life) → load (finish_connect b l) ≤ load l + 1
load-finish_connect true l = ground arith
load-finish_connect false l = omega (arith, load-discard l)

load-resume : (t : Task) (b : Bool) (l : Life) → load (resume t b l) ≤ load l + builds t
unfolding resume
load-resume advancing true l =
    let q = (handle_reconnecting (record l { reconnect_count = 0 })).0 in
    omega (arith, load-rebuild false q, load-handle_reconnecting (record l { reconnect_count = 0 }))
load-resume advancing false l = load-reconnect false l
load-resume yielding true l = omega (arith, load-discard l)
load-resume yielding false l = load-reconnect true l
load-resume striking_alone b l = omega arith
load-resume (striking was_replaced) b l = load-rebuild was_replaced _
load-resume backing_off b l = load-connect l
load-resume connecting b l = load-finish_connect b l
load-resume closing true l = omega arith
load-resume closing false l = omega arith

load-kept :
    (t : Task) (o : Option (Task × List Task)) (x : Task) (rest : List Task) (n : ℕ)
    → keep_first t o ≡ some (x, rest)
    → ((y : Task) (r : List Task) → o ≡ some (y, r) → builds y + builders r ≡ n)
    → builds x + builders rest ≡ builds t + n
load-kept t none x rest n e h = absurd (ground (arith, e))
load-kept t (some (y, r)) x rest n e h = ground (arith, e, h y r refl)

pub load-pick :
    (l : List Task) (i : ℕ) (t : Task) (rest : List Task)
    → pick l i ≡ some (t, rest)
    → builds t + builders rest ≡ builders l
unfolding pick
load-pick [] i t rest e = absurd (ground (arith, e))
load-pick (x ∷ l) zero t rest e = ground (arith, e)
load-pick (x ∷ l) (suc i) t rest e = load-kept x (pick l i) t rest (builders l) e (load-pick l i)

adds_one : (c : Option Connection) → adds c ≤ 1
adds_one none = omega arith
adds_one (some opened) = omega arith
adds_one (some pairing) = omega arith
adds_one (some (closed reason)) = omega arith

load-close_one :
    (phone_number : String) (u : Update) (n : ℕ) (l : Life)
    → l.open_sockets ≡ n
    → load (close_one phone_number u n l) ≤ load l
load-close_one phone_number u zero l e = omega arith
load-close_one phone_number u (suc others) l e =
    omega (arith, e, load-update phone_number u (close_socket others l), adds_one u.connection)

load-emit :
    (phone_number : String) (u : Update) (c : Option Connection) (l : Life)
    → u.connection ≡ c
    → load (emit phone_number u c l) ≤ load l
load-emit phone_number u none l e = ground (arith, load-update phone_number u l, e)
load-emit phone_number u (some opened) l e = ground (arith, load-update phone_number u l, e)
load-emit phone_number u (some pairing) l e = ground (arith, load-update phone_number u l, e)
load-emit phone_number u (some (closed reason)) l e =
    load-close_one phone_number u l.open_sockets l refl

load-resume_picked :
    (o : Option (Task × List Task)) (answer : Bool) (l : Life)
    → ((t : Task) (rest : List Task)
        → o ≡ some (t, rest)
        → builds t + builders rest ≡ builders l.tasks)
    → load (resume_picked o answer l) ≤ load l
load-resume_picked none answer l h = omega arith
load-resume_picked (some (t, rest)) answer l h =
    omega (arith, h t rest refl, load-resume t answer (record l { tasks = rest }))

module _ (phone_number : String) where
  load-handle : (event : Event) (l : Life) → load (handle phone_number event l) ≤ load l
  unfolding handle
  load-handle (updates u) l = load-emit phone_number u u.connection l refl
  load-handle discards l = load-discard l
  load-handle (resumes i answer) l =
      load-resume_picked (pick l.tasks i) answer l (load-pick l.tasks i)

  -- A connection that has one open socket, or one wait that a socket may come of, and not both, stays
  -- so: whatever its sockets report, in whatever order its waits end and whenever it is discarded,
  -- it never makes a socket while another of its own is open, and no two of its waits make one each.
  pub run-IsSingle :
      (events : List (ℕ × Event)) (l : Life)
      → builders l.tasks + l.open_sockets ≤ 1
      → builders (run phone_number l events).tasks + (run phone_number l events).open_sockets ≤ 1
  unfolding run
  run-IsSingle [] l h = h
  run-IsSingle ((wait, event) ∷ events) l h =
      let later = record l { clock = l.clock + wait } in
      run-IsSingle events (handle phone_number event later)
        (omega (arith, h, load-handle event later))

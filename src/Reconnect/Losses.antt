-- ===== src/Reconnect/Losses.antt =====
-- src/baileys/connection.ts (reconnectCount): a connection whose sockets are lost one after another.
use baileys_api.Prelude.{
  ℕ, suc, ◌+◌, ◌≤◌, ◌<◌, ◌≡◌, refl, String, true, false, some, List, [], ◌∷◌, length, ltb, arith,
  ◌∙◌, ap, ◌++◌,
}
use baileys_api.Reconnect.{
  Life, closed, lost, Update, Event, updates, resumes, pick, resume, handle, run, Notice,
  reconnecting, reconnect_loop_detected, handle_connection_update,
}

-- A connection that has opened, with its socket open, nothing to wait for, and this many attempts to
-- reconnect counted.
abbrev pub live : ℕ → Life → Life
live attempts l = record l {
  reconnect_count = attempts;
  has_opened = true;
  is_discarded = false;
  has_socket = true;
  tasks = [];
  open_sockets = 1;
}

-- What one loss, and the new socket after it, leave behind.
abbrev pub lost_once : ℕ × ℕ → Life → Life
lost_once (before, after) l = record l {
  notices = reconnecting ∷ l.notices;
  clock = l.clock + before + after;
}

unfoldable pub lost_all : List (ℕ × ℕ) → Life → Life
lost_all [] l = l
lost_all (wait ∷ waits) l = lost_all waits (lost_once wait l)

-- A connection that is given up: nothing is open and nothing is waited for, and the loop is reported.
pub record IsGivenUp (l : Life) : Type 0 where
  pub dead : l.is_discarded ≡ true
  pub socket : l.has_socket ≡ false
  pub none_open : l.open_sockets ≡ 0
  pub idle : l.tasks ≡ []
  pub earlier : List Notice
  pub reported : l.notices ≡ reconnect_loop_detected ∷ earlier

module _ (phone_number : String) (u : Update) where
  -- Each time the socket is lost, and the wait that follows ends well.
  unfoldable pub losses : List (ℕ × ℕ) → List (ℕ × Event)
  losses [] = []
  losses ((before, after) ∷ waits) = (before, updates u) ∷ ((after, resumes 0 true) ∷ losses waits)

  module _ (lost_socket : u.connection ≡ some (closed lost))
      (no_login : u.is_new_login ≡ false) where
    run-lost_once :
        (n before after : ℕ) (l : Life) (events : List (ℕ × Event))
        → n < 10
        → run phone_number (live n l) ((before, updates u) ∷ (after, resumes 0 true) ∷ events)
          ≡ run phone_number (live (n + 1) (lost_once (before, after) l)) events
    unfolding run handle handle_connection_update resume pick
    run-lost_once n before after l events few =
        let counts : ltb 10 (n + 1) ≡ false = ground arith in
        rw (lost_socket, no_login, counts) refl

    given_up :
        (before after : ℕ) (l : Life)
        → IsGivenUp
            (run phone_number (live 10 l) ((before, updates u) ∷ (after, resumes 0 true) ∷ []))
    unfolding run handle handle_connection_update resume pick
    given_up before after l =
        rw (lost_socket, no_login)
          (record {
            dead = refl;
            socket = refl;
            none_open = refl;
            idle = refl;
            earlier = l.notices;
            reported = refl;
          })

    survives :
        (waits : List (ℕ × ℕ)) (n : ℕ) (l : Life)
        → n + length waits ≤ 10
        → run phone_number (live n l) (losses waits) ≡ live (n + length waits) (lost_all waits l)
    unfolding losses lost_all run
    survives [] n l h = let same : n + 0 ≡ n = omega arith in rw same refl
    survives ((before, after) ∷ waits) n l h =
        let next : n + suc (length waits) ≡ n + 1 + length waits = omega arith in
        run-lost_once n before after l (losses waits) (omega (arith, h))
        ∙ rw next (survives waits (n + 1) (lost_once (before, after) l) (omega (arith, h)))

    dies :
        (waits : List (ℕ × ℕ)) (n : ℕ) (l : Life) (last : ℕ × ℕ)
        → n + length waits ≡ 10
        → IsGivenUp (run phone_number (live n l) (losses (waits ++ (last ∷ []))))
    unfolding losses
    dies [] n l (before, after) h =
        let tenth : n ≡ 10 = omega (arith, h) in rw tenth (given_up before after l)
    dies ((before, after) ∷ waits) n l last h =
        rw (run-lost_once n before after l (losses (waits ++ (last ∷ []))) (omega (arith, h)))
          (dies waits (n + 1) (lost_once (before, after) l) last (omega (arith, h)))

    -- A connection that has opened loses its sockets one after another, and none of the new ones
    -- opens: up to the tenth attempt that it counts, it makes a new socket after each loss, counts
    -- it and reports it, and after the next loss it is discarded, reports the loop, and neither has
    -- a socket nor waits for one.
    pub losses-IsGivenUp :
        (waits : List (ℕ × ℕ)) (n : ℕ) (l : Life) (last : ℕ × ℕ)
        → n + length waits ≡ 10
        → (run phone_number (live n l) (losses waits) ≡ live 10 (lost_all waits l))
          × IsGivenUp (run phone_number (live n l) (losses (waits ++ (last ∷ []))))
    losses-IsGivenUp waits n l last h =
        (ten (survives waits n l (omega (arith, h))), dies waits n l last h)
      where
        ten :
            run phone_number (live n l) (losses waits) ≡ live (n + length waits) (lost_all waits l)
            → run phone_number (live n l) (losses waits) ≡ live 10 (lost_all waits l)
        ten e = e ∙ ap (λ m. live m (lost_all waits l)) h

-- ===== src/Reconnect/Tests.antt =====
-- The theorems on reconnects for a socket that is lost before it opens.
use baileys_api.Prelude.{
  ℕ, ◌+◌, ◌≤◌, ◌≡◌, refl, true, false, none, some, List, [], ◌∷◌, ◌++◌, arith,
}
use baileys_api.Reconnect.{
  advancing, Life, lost, closed, Update, Event, updates, resumes, discards, reconnecting, pick,
  handle, run,
}
use baileys_api.Reconnect.Single.{builders, run-IsSingle}
use baileys_api.Reconnect.Discarded.{discards-reconnecting}
use baileys_api.Reconnect.Losses.{live, losses, lost_all, IsGivenUp, losses-IsGivenUp}

-- A connection with its first socket.
abbrev fresh : Life
fresh = record {
  reconnect_count = 0;
  is_reconnect = true;
  has_opened = false;
  is_discarded = false;
  session_ended = false;
  has_socket = true;
  replaced_at = [];
  tasks = [];
  notices = [];
  open_sockets = 1;
  clock = 1000;
}

abbrev loss : Update
loss = record {
  connection = some (closed lost);
  qr = none;
  is_new_login = false;
  is_online = false;
  user = none;
}

-- The socket is lost, there is no other candidate, and a new socket is made.
abbrev renewed : List (ℕ × Event)
renewed = (1, updates loss) ∷ (5, resumes 0 false) ∷ (9, resumes 0 true) ∷ []

run-IsSingle_example :
    builders (run "5511" fresh renewed).tasks + (run "5511" fresh renewed).open_sockets ≤ 1
run-IsSingle_example = run-IsSingle "5511" renewed fresh (omega arith)

abbrev pauses : List (ℕ × ℕ)
pauses = (1, 5) ∷ (9, 5) ∷ []

losses-IsGivenUp_example :
    (run "5511" (live 8 fresh) (losses "5511" loss pauses) ≡ live 10 (lost_all pauses fresh))
    × IsGivenUp (run "5511" (live 8 fresh) (losses "5511" loss (pauses ++ ((1, 5) ∷ []))))
losses-IsGivenUp_example = losses-IsGivenUp "5511" loss refl refl pauses 8 fresh (1, 5) refl

abbrev waiting : Life
waiting = record fresh { tasks = advancing ∷ []; open_sockets = 0 }

discards-reconnecting_example :
    let q = handle "5511" (resumes 0 false) (handle "5511" discards waiting) in
    (q.is_discarded ≡ true) × (q.notices ≡ reconnecting ∷ []) × (q.tasks ≡ [])
unfolding pick
discards-reconnecting_example = discards-reconnecting "5511" waiting 0 [] refl (omega arith)

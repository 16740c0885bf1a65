-- ===== src/Watchdog/Stall/Verdict.antt =====
-- src/baileys/connection.ts (handleSendStall): what it tells and asks of others, and when.
use baileys_api.Prelude.{
  ℕ, ◌+◌, ◌≡◌, refl, ◌∙◌, ap, ◌⊎◌, String, Bool, true, false, not, Option, none, some, inl, inr,
  List, [], ◌∷◌, arith, if◌then◌else◌, if_both, if_cases,
}
use baileys_api.Redis.{Redis}
use baileys_api.Exec
use baileys_api.Exec.{refused, arrive, call}
use baileys_api.Exec.{
  Env, Exec, State, Error, Result, ok, throw, pure, catch, settle, gets, modify, ◌>>=◌, ◌>>◌,
  recover, continue,
}
use baileys_api.Cluster.Site.{Site}
use baileys_api.Cluster.SendStallStore.{Recorded, can_restart, clear_send_stall, record_restart}
use baileys_api.Watchdog.{until, send_stall_restart_cooldown_ms}
use baileys_api.Watchdog.Stall.{
  restart, suppressed, Notice, report, restart_request, Local, set_restart_requested, set_rollback,
  abort, is_stall_episode_current, Lookup, ended, decided, look_up, lookup_failed, clear_or_restore,
  undo, roll_back_stall_strike, after_strike, strike_failed, struck, strike, go_on, conclude,
  handle_send_stall, rearm, cool_down, suppress, end_episode, give_up, give_up_session,
  give_up_phone, should_yield_to_lease_owner,
}

abbrev pub Nothing : {A : Type 0} {r : Redis} → A → State r Local → Type 0
Nothing a s = Unit {0}

-- No restart is asked for: nothing leaves the connection, or a report that it is suppressed.
abbrev pub IsQuiet : ℕ → List Notice → Type 0
IsQuiet streak notices =
    (notices ≡ [])
    ⊎ ((allowed_at : Option ℕ) × (notices ≡ report suppressed streak allowed_at ∷ []))

module _ {r : Redis} where
  -- The code returns at this state, with a result and a state that are as said.
  abbrev pub Returns :
      {A : Type 0} → Exec r Local A → State r Local → (A → State r Local → Type 0) → Type 0
  Returns {A} m s Q = (a : A) × ((m s).0 ≡ ok a) × Q a (m s).1

  then-Returns :
      {A B : Type 0} (m : Exec r Local A) (f : A → Exec r Local B) (s : State r Local)
      (P : A → State r Local → Type 0) (Q : B → State r Local → Type 0)
      → Returns m s P
      → ((a : A) → P a (m s).1 → Returns (f a) (m s).1 Q)
      → Returns (m >>= f) s Q
  then-Returns m f s P Q (a, e, p) k = rw e (k a p)

  catch-Returns :
      {A : Type 0} (m : Exec r Local A) (h : Error → Exec r Local A) (s : State r Local)
      → ((e : Error) (t : State r Local) → Returns (h e) t Nothing)
      → Returns (catch m h) s Nothing
  catch-Returns {A} m h s k = recovered (m s).0 (m s).1
    where
      recovered : (a : Result A) (t : State r Local) → Returns (recover a h) t Nothing
      recovered (ok a) t = (a, refl, tt)
      recovered (throw e) t = k e t

  abbrev after : {A B : Type 0} → Exec r Local B → A → Exec r Local (A × B)
  after n x = n >>= (λ y. pure (x, y))

  both-inv :
      {A B : Type 0} (m : Exec r Local A) (n : Exec r Local B) (s : State r Local) (a : A) (b : B)
      → ((m >>= after n) s).0 ≡ ok (a, b)
      → (t : State r Local) × (m s ≡ (ok a, t)) × (n t ≡ (ok b, ((m >>= after n) s).1))
  both-inv {A} {B} m n s a b = first (m s).0 (m s).1
    where
      second :
          (x : A) (y : Result B) (u : State r Local)
          → (continue {B = A × B} y (λ (y : B). pure (x, y)) u).0 ≡ ok (a, b)
          → (x ≡ a)
            × ◌≡◌ {A = Result B × State r Local}
                (y, u)
                (ok b, (continue {B = A × B} y (λ (y : B). pure (x, y)) u).1)
      second x (ok y) u e = (cc, cc)
      second x (throw y) u e = cc

      first :
          (x : Result A) (t : State r Local)
          → (continue x (after n) t).0 ≡ ok (a, b)
          → (w : State r Local) × ◌≡◌ {A = Result A × State r Local} (x, t) (ok a, w)
            × (n w ≡ (ok b, (continue x (after n) t).1))
      first (ok x) t e =
          let (same, rest) = second x (n t).0 (n t).1 e in (t, ap (λ (x : A). (ok x, t)) same, rest)
      first (throw x) t e = cc

  module _ (env : Env r Local) (site : Site) (phone_number : String) where
    -- A restart is asked for. At `checked` the connection was open, not discarded, on the socket of
    -- this episode and over the threshold; then the strike was written, the lease was read and
    -- showed no other owner (or could not be read), and in the state that this read left, the
    -- connection is neither discarded nor logged out and the restart still wanted. Nothing but the
    -- note of how to take the strike back comes after that.
    pub record IsRequested (generation streak : ℕ) (notices : List Notice) (final : State r Local)
        : Type 0 where
      pub checked : State r Local
      pub written : State r Local
      pub last : State r Local
      pub recorded : Recorded
      pub stalled : is_stall_episode_current generation checked.local ≡ true
      pub strikes :
          record_restart env site phone_number
            (record checked { local = set_restart_requested true checked.local })
          ≡ (ok recorded, written)
      pub not_elsewhere :
          should_yield_to_lease_owner env site phone_number written ≡ (ok false, last)
      pub alive : last.local.watchdog.is_discarded ≡ false
      pub logged_in : last.local.watchdog.session_ended ≡ false
      pub wanted : last.local.watchdog.restart_requested ≡ true
      pub remembers : final ≡ record last { local = set_rollback (some recorded) last.local }
      pub allowed_at : Option ℕ
      pub told : notices ≡ report restart streak allowed_at ∷ restart_request ∷ []

    abbrev pub IsVerdict : ℕ → ℕ → List Notice → State r Local → Type 0
    IsVerdict generation streak notices final =
        IsQuiet streak notices ⊎ IsRequested generation streak notices final

    abbrev Quiet : ℕ → List Notice → State r Local → Type 0
    Quiet streak notices final = IsQuiet streak notices

    quiet :
        (generation streak : ℕ) (m : Exec r Local (List Notice)) (s : State r Local)
        → Returns m s (Quiet streak)
        → Returns m s (IsVerdict generation streak)
    quiet generation streak m s (a, e, q) = (a, e, inl q)

    lookup_failed-returns :
        (generation : ℕ) (s : State r Local)
        → Returns (lookup_failed env site phone_number generation) s Nothing
    unfolding lookup_failed
    lookup_failed-returns generation s =
        if_both (λ (m : Exec r Local Lookup). Returns m s Nothing)
          (is_stall_episode_current generation s.local)
          {x = cool_down env site phone_number (env.date_now s.turn)}
          {y = rearm env site phone_number} (decided false none, refl, tt) (ended, refl, tt)

    undo-returns :
        (rollback : Option Recorded) (s : State r Local)
        → Returns (undo env site phone_number rollback) s Nothing
    undo-returns none s = (tt, refl, tt)
    undo-returns (some rollback) s =
        catch-Returns (clear_or_restore env site phone_number rollback) _ s (λ e t. (tt, refl, tt))

    roll_back-returns :
        (s : State r Local) → Returns (roll_back_stall_strike env site phone_number) s Nothing
    unfolding roll_back_stall_strike
    roll_back-returns s = undo-returns s.local.watchdog.stall_strike_rollback _

    module _ (streak : ℕ) where
      give_up-returns :
          (s : State r Local) → Returns (give_up env site phone_number) s (Quiet streak)
      unfolding give_up
      give_up-returns s =
          then-Returns (roll_back_stall_strike env site phone_number) (λ u. pure []) s Nothing
            (Quiet streak) (roll_back-returns s) (λ u p. ([], refl, inl refl))

      give_up_session-returns :
          (s : State r Local) → Returns (give_up_session env site phone_number) s (Quiet streak)
      unfolding give_up_session
      give_up_session-returns s =
          let t : State r Local = record s { local = set_rollback none s.local } in
          then-Returns (catch (clear_send_stall env site phone_number) (λ e. pure tt))
            (λ u. pure []) t Nothing (Quiet streak)
            (catch-Returns (clear_send_stall env site phone_number) _ t (λ e t. (tt, refl, tt)))
            (λ u p. ([], refl, inl refl))

      give_up_phone-returns :
          (s : State r Local) → Returns (give_up_phone env site phone_number) s (Quiet streak)
      unfolding give_up_phone
      give_up_phone-returns s =
          then-Returns (roll_back_stall_strike env site phone_number) (λ u. modify abort >> pure [])
            s Nothing (Quiet streak) (roll_back-returns s) (λ u p. ([], refl, inl refl))

      strike_failed-returns :
          (generation : ℕ) (s : State r Local)
          → Returns (strike_failed env site phone_number generation streak) s (Quiet streak)
      unfolding strike_failed
      strike_failed-returns generation s =
          let t : State r Local = record s { local = set_restart_requested false s.local } in
          if_both (λ (m : Exec r Local (List Notice)). Returns m t (Quiet streak))
            (is_stall_episode_current generation t.local)
            {x = suppress env site phone_number streak (env.date_now s.turn)}
            {y = end_episode env site phone_number}
            (report suppressed streak none ∷ [], refl, inr (none, refl)) ([], refl, inl refl)

      -- After the strike is written and the lease read, at `last`.
      after_strike-returns :
          (generation : ℕ) (allowed_at : Option ℕ) (elsewhere : Bool) (recorded : Recorded)
          (checked written last : State r Local)
          → is_stall_episode_current generation checked.local ≡ true
          → record_restart env site phone_number
              (record checked { local = set_restart_requested true checked.local })
            ≡ (ok recorded, written)
          → should_yield_to_lease_owner env site phone_number written ≡ (ok elsewhere, last)
          → let final : State r Local = record last {
            local = set_rollback (some recorded) last.local;
          } in
            Returns
              (after_strike env site phone_number streak allowed_at elsewhere final.local.watchdog)
              final
              (IsVerdict generation streak)
      unfolding after_strike
      after_strike-returns generation allowed_at elsewhere recorded checked written last current
            strikes reads =
          let final : State r Local = record last {
            local = set_rollback (some recorded) last.local;
          } in
          let P =
            λ (m : Exec r Local (List Notice)). Returns m final (IsVerdict generation streak) in
          let off = give_up env site phone_number in
          let on : Exec r Local (List Notice) =
            pure (report restart streak allowed_at ∷ restart_request ∷ []) in
          let w = last.local.watchdog in
          let fourth = if not w.restart_requested then off else on in
          let third = if elsewhere then give_up_phone env site phone_number else fourth in
          let second = if w.is_discarded then off else third in
          if_cases P w.session_ended {x = give_up_session env site phone_number} {y = second}
            (λ e.
              quiet generation streak (give_up_session env site phone_number) final
                (give_up_session-returns final))
            (λ living.
              if_cases P w.is_discarded {x = off} {y = third}
                (λ e. quiet generation streak off final (give_up-returns final))
                (λ kept.
                  if_cases P elsewhere {x = give_up_phone env site phone_number} {y = fourth}
                    (λ e.
                      quiet generation streak (give_up_phone env site phone_number) final
                        (give_up_phone-returns final))
                    (λ mine.
                      if_cases P (not w.restart_requested) {x = off} {y = on}
                        (λ e. quiet generation streak off final (give_up-returns final))
                        (λ asked. (
                          report restart streak allowed_at ∷ restart_request ∷ [],
                          refl,
                          inr (record {
                            checked = checked;
                            written = written;
                            last = last;
                            recorded = recorded;
                            stalled = current;
                            strikes = strikes;
                            not_elsewhere = reads ∙ ap (λ (b : Bool). (ok b, last)) mine;
                            alive = kept;
                            logged_in = living;
                            wanted = ground arith;
                            remembers = refl;
                            allowed_at = allowed_at;
                            told = refl;
                          }),
                        )))))

      -- What the second `try` leaves behind.
      strike-inv :
          (recorded : Recorded) (elsewhere : Bool) (s : State r Local)
          → (strike env site phone_number s).0 ≡ ok (recorded, elsewhere)
          → (written : State r Local) × (record_restart env site phone_number s
              ≡ (ok recorded, written))
            × (should_yield_to_lease_owner env site phone_number written
                ≡ (ok elsewhere, (strike env site phone_number s).1))
      unfolding strike
      strike-inv recorded elsewhere s e =
          both-inv (record_restart env site phone_number)
            (should_yield_to_lease_owner env site phone_number) s recorded elsewhere e

      struck-returns :
          (generation : ℕ) (allowed_at : Option ℕ) (a : Result (Recorded × Bool))
          (checked : State r Local)
          → is_stall_episode_current generation checked.local ≡ true
          → let t : State r Local = record checked {
            local = set_restart_requested true checked.local;
          } in
            (strike env site phone_number t).0 ≡ a
            → Returns
                (struck env site phone_number generation streak allowed_at a)
                (strike env site phone_number t).1
                (IsVerdict generation streak)
      struck-returns generation allowed_at (throw e) checked current a =
          quiet generation streak (strike_failed env site phone_number generation streak) _
            (strike_failed-returns generation _)
      struck-returns generation allowed_at (ok (recorded, elsewhere)) checked current a =
          let t : State r Local = record checked {
            local = set_restart_requested true checked.local;
          } in
          let (written, strikes, reads) = strike-inv recorded elsewhere t a in
          after_strike-returns generation allowed_at elsewhere recorded checked written
            (strike env site phone_number t).1 current strikes reads

      go_on-returns :
          (generation : ℕ) (allowed_at : Option ℕ) (s : State r Local)
          → Returns
              (go_on env site phone_number generation streak allowed_at)
              s
              (IsVerdict generation streak)
      unfolding go_on
      go_on-returns generation allowed_at s =
          let t : State r Local = record s { local = set_restart_requested true s.local } in
          if_cases (λ (m : Exec r Local (List Notice)). Returns m s (IsVerdict generation streak))
            (is_stall_episode_current generation s.local) {y = end_episode env site phone_number}
            (λ current.
              struck-returns generation allowed_at (strike env site phone_number t).0 s current
                refl)
            (λ over. ([], refl, inl (inl refl)))

      conclude-returns :
          (generation : ℕ) (verdict : Lookup) (s : State r Local)
          → Returns
              (conclude env site phone_number generation streak verdict)
              s
              (IsVerdict generation streak)
      conclude-returns generation ended s = ([], refl, inl (inl refl))
      conclude-returns generation (decided true a) s = go_on-returns generation a s
      conclude-returns generation (decided false a) s =
          (report suppressed streak a ∷ [], refl, inl (inr (a, refl)))

    -- Whatever the server answers, and whatever else happens between its answers, handleSendStall
    -- does not reject. Either nothing leaves the connection, or one report that the restart is
    -- suppressed, or a report of the restart and the request for it. The last comes only after the
    -- connection was found open, live and stalled on the socket of the episode, its strike was
    -- written, and a read of the lease after that did not show another owner, and only if by then
    -- the connection is neither discarded nor logged out and still wants the restart.
    pub handle_send_stall-returns :
        (enabled : Bool) (streak : ℕ) (s : State r Local)
        → (notices : List Notice) × ((handle_send_stall env site phone_number enabled streak s).0
            ≡ ok notices)
          × IsVerdict s.local.watchdog.socket_generation streak notices
              (handle_send_stall env site phone_number enabled streak s).1
    unfolding handle_send_stall
    handle_send_stall-returns enabled streak s =
        let generation = s.local.watchdog.socket_generation in
        let tried =
          catch (look_up env site phone_number generation)
            (λ e. lookup_failed env site phone_number generation) in
        let skipped : Exec r Local Lookup = pure (decided false none) in
        then-Returns (if enabled then tried else skipped)
          (conclude env site phone_number generation streak) s Nothing (IsVerdict generation streak)
          (if_both (λ (m : Exec r Local Lookup). Returns m s Nothing) enabled {x = tried}
            {y = skipped}
            (catch-Returns (look_up env site phone_number generation)
              (λ e. lookup_failed env site phone_number generation) s
              (λ e t. lookup_failed-returns generation t))
            (decided false none, refl, tt))
          (λ verdict p. conclude-returns streak generation verdict _)

    -- If the first command for an episode is refused, no restart is asked for, and the watchdog is
    -- silent for 30 seconds and not for good; if the episode was over by then, it is not silent.
    pub handle_send_stall-refused :
        (streak : ℕ) (s : State r Local)
        → env.delivery s.turn ≡ refused
        → let t = arrive env s in
          let (told, q) = handle_send_stall env site phone_number true streak s in
          let current = is_stall_episode_current s.local.watchdog.socket_generation t.local in
          (told ≡ ok (if current then report suppressed streak none ∷ [] else []))
          × (q.local.watchdog.send_stall_silent_until ≡ (
              if current
              then until (env.date_now t.turn + send_stall_restart_cooldown_ms)
              else until 0))
          × (q.local.watchdog.restart_requested ≡ t.local.watchdog.restart_requested)
    unfolding handle_send_stall look_up lookup_failed can_restart Exec.get call
    handle_send_stall-refused streak s down = ground arith

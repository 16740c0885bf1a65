-- ===== src/Coordinator/Rebalance/Victims.antt =====
-- src/cluster/coordinator.ts: which phones a rebalance can move, and in what order it lets go of one.
use baileys_api.Prelude.{
  ℕ, String, ◌≡◌, Bool, true, false, Option, none, some, List, [], ◌∷◌, arith, ◌⊎◌, inl, inr,
  if◌then◌else◌, ◌||◌, ap, ◌∙◌, sym, suc,
}
use baileys_api.Redis.{Redis}
use baileys_api.Exec
use baileys_api.Exec.{Env, Exec, State, ok, throw, pure, catch, call, arrive, ◌>>=◌}
use baileys_api.Exec.Steps.{>>=-inv}
use baileys_api.Cluster.Site.{Site}
use baileys_api.Cluster.LeaseStore.{set_release_cooldown}
use baileys_api.Coordinator.State.{Options, Node, Activity, Handler, Sessions}
use baileys_api.Coordinator.Claim.{run_claim_cycle, filter}
use baileys_api.Coordinator.Renew.{insert, sort}
use baileys_api.Coordinator.Rebalance.{
  run_rebalance_cycle, pick_rebalance_victim, first_paired, or_forced, candidates, candidates_of,
  idle_phones, phones_of, phones_by_activity, add_candidate, steer,
}

-- The element stands in the list.
abbrev pub Has : {A : Type 0} → A → List A → Type 0
Has x [] = ⊥
Has x (y ∷ l) = (x ≡ y) ⊎ Has x l

module _ {A : Type 0} where
  Has-insert :
      (before : A → A → Bool) (x y : A) (l : List A) → Has x (insert before y l) → (x ≡ y) ⊎ Has x l
  Has-insert before x y [] h = h
  Has-insert before x y (z ∷ l) h = ground (arith, Has-insert before x y l)

  Has-sort : (before : A → A → Bool) (x : A) (l : List A) → Has x (sort before l) → Has x l
  Has-sort before x [] h = h
  Has-sort before x (y ∷ l) h =
      ground (arith, Has-insert before x y (sort before l) h, Has-sort before x l)

  Has-filter : (p : A → Bool) (x : A) (l : List A) → Has x (filter p l) → Has x l
  Has-filter p x [] h = h
  Has-filter p x (y ∷ l) h = ground (arith, Has-filter p x l)

Has-phones_of :
    (phone : String) (l : List (String × Activity))
    → Has phone (phones_of l)
    → (activity : Activity) × Has (phone, activity) l
Has-phones_of phone [] h = absurd h
Has-phones_of phone ((q, a) ∷ l) (inl e) = (a, inl (ap (λ (p : String). (p, a)) e))
Has-phones_of phone ((q, a) ∷ l) (inr h) =
    let (b, there) = Has-phones_of phone l h in (b, inr there)

Has-add_candidate :
    {phone : String} {activity : Activity} (q : String) (o : Option Activity)
    (l : List (String × Activity))
    → Has (phone, activity) (add_candidate q o l)
    → ((phone ≡ q) × (o ≡ some activity)) ⊎ Has (phone, activity) l
Has-add_candidate q none l there = inr there
Has-add_candidate q (some a) l (inl e) =
    inl (ap (λ (p : String × Activity). p.0) e, ap (λ (p : String × Activity). some p.1) (sym e))
Has-add_candidate q (some a) l (inr there) = inr there

module _ {r : Redis} {H : Type 0} (env : Env r (Node H)) (site : Site) (handler : Handler r H)
    (sessions : Sessions r H) where
  paired_or_later :
      (q : String) (phones : List String) (paired : Bool) (t : State r (Node H)) {phone : String}
      → ((first_paired env site handler sessions phones t).0 ≡ ok (some phone) → Has phone phones)
      → ((if paired then pure (some q) else first_paired env site handler sessions phones) t).0
        ≡ ok (some phone)
      → Has phone (q ∷ phones)
  paired_or_later q phones true t later h = inl (ground arith)
  paired_or_later q phones false t later h = inr (later h)

  first_paired_lem :
      (phones : List String) (s : State r (Node H)) {phone : String}
      → (first_paired env site handler sessions phones s).0 ≡ ok (some phone)
      → Has phone phones
  unfolding first_paired
  first_paired_lem [] s h = cc
  first_paired_lem (q ∷ phones) s {phone} h =
      let (paired, asked, rest, step) =
        >>=-inv (catch (sessions.is_paired q) (λ e. pure false)) _ s h in
      paired_or_later q phones paired _ (first_paired_lem phones _) rest

  -- The phone has a connection that this process can report on.
  abbrev pub IsConnected : H → String → Type 0
  IsConnected h phone =
      (activity : Activity) × (handler.connection_activity h phone ≡ some activity)

  Has-candidates_of :
      (h : H) (phones : List String) (phone : String) (activity : Activity)
      → Has (phone, activity) (candidates_of env site handler sessions h phones)
      → Has phone phones × (handler.connection_activity h phone ≡ some activity)
  Has-candidates_of h [] phone activity there = absurd there
  Has-candidates_of h (q ∷ phones) phone activity there =
      elim (Has-add_candidate q (handler.connection_activity h q) _ there) [
        | inl (same, found) ↦ (inl same, ap (handler.connection_activity h) same ∙ found)
        | inr later ↦
            let (stands, found) = Has-candidates_of h phones phone activity later in
            (inr stands, found)
      ]

  -- The candidates, in either order of preference, have connections.
  abbrev IsCandidate : State r (Node H) → String → Type 0
  IsCandidate s phone =
      Has phone (handler.active_phone_numbers s.local.handler) × IsConnected s.local.handler phone

  candidate_lem :
      (s : State r (Node H)) (phone : String)
      → (activity : Activity) × Has (phone, activity) (candidates env site handler sessions s.local)
      → IsCandidate s phone
  candidate_lem s phone (activity, there) =
      let (stands, found) =
        Has-candidates_of s.local.handler (handler.active_phone_numbers s.local.handler) phone
          activity there in
      (stands, (activity, found))

  idle_lem :
      (s : State r (Node H)) (now : ℕ) (phone : String)
      → Has phone (idle_phones env site handler sessions now s.local)
      → IsCandidate s phone
  idle_lem s now phone there =
      let (activity, sorted) = Has-phones_of phone _ there in
      candidate_lem s phone (activity, Has-filter _ _ _ (Has-sort _ _ _ sorted))

  forced_lem :
      (s : State r (Node H)) (phone : String)
      → Has phone (
          phones_by_activity env site handler sessions
            (candidates env site handler sessions s.local))
      → IsCandidate s phone
  forced_lem s phone there =
      let (activity, sorted) = Has-phones_of phone _ there in
      candidate_lem s phone (activity, Has-sort _ _ _ sorted)

  or_forced_lem :
      (forced : Bool) (l : List (String × Activity)) (picked : Option String) (t : State r (Node H))
      {phone : String} {P : String → Type 0}
      → ((q : String) → picked ≡ some q → P q)
      → ((q : String) → Has q (phones_by_activity env site handler sessions l) → P q)
      → (or_forced env site handler sessions forced l picked t).0 ≡ ok (some phone)
      → P phone
  or_forced_lem forced l (some q) t {phone} {P} idle any h = idle phone (ground arith)
  or_forced_lem true l none t {phone} {P} idle any h =
      any phone (first_paired_lem (phones_by_activity env site handler sessions l) t h)
  or_forced_lem false l none t {phone} {P} idle any h = cc

  -- The victim of a rebalance, forced or not, is a phone that this process has a connection for.
  pub pick_rebalance_victim-IsConnected :
      (forced : Bool) (s : State r (Node H)) {phone : String}
      → (pick_rebalance_victim env site handler sessions forced s).0 ≡ ok (some phone)
      → Has phone (handler.active_phone_numbers s.local.handler) × IsConnected s.local.handler phone
  unfolding pick_rebalance_victim
  pick_rebalance_victim-IsConnected forced s {phone} h =
      let idle = idle_phones env site handler sessions (env.performance_now s.turn) s.local in
      let (picked, done, rest, step) =
        >>=-inv (first_paired env site handler sessions idle) _ s h in
      or_forced_lem forced (candidates env site handler sessions s.local) picked _ {phone = phone}
        {P = IsCandidate s}
        (λ q e.
          idle_lem s (env.performance_now s.turn) q
            (first_paired_lem idle s {phone = q} (done ∙ ap ok e)))
        (λ q there. forced_lem s q there) rest

  -- While this process drains, or counts Redis as unreachable, the claim cycle and the rebalance
  -- cycle return at once: no call is sent, and nothing is claimed or given away.
  pub background_paused :
      (shuffle : List (String × Options) → List (String × Options)) (s : State r (Node H))
      → (s.local.coordinator.draining || s.local.coordinator.redis_degraded) ≡ true
      → (run_claim_cycle env site handler sessions shuffle s ≡ (ok tt, s))
        × (run_rebalance_cycle env site handler sessions s ≡ (ok tt, s))
  unfolding run_claim_cycle run_rebalance_cycle
  background_paused shuffle s paused = (ground (arith, paused), ground (arith, paused))

  -- With a release cooldown of 0, steering a handoff makes one call, writes nothing and raises no
  -- error: the server refuses the cooldown, and the target is never sent.
  pub steer-unset :
      (victim target : String) (s : State r (Node H))
      → site.config.release_cooldown_ms ≡ 0
      → ((steer env site handler sessions victim target s).0 ≡ ok tt)
        × ((steer env site handler sessions victim target s).1.db ≡ (arrive env s).db)
        × ((steer env site handler sessions victim target s).1.turn ≡ suc s.turn)
  unfolding steer set_release_cooldown Exec.set call
  steer-unset victim target s zero_cooldown =
      (ground (arith, zero_cooldown), ground (arith, zero_cooldown), ground (arith, zero_cooldown))

-- ===== src/Config/Checked.antt =====
-- src/config.ts: what holds of the settings of a process that has started.
use baileys_api.Prelude.{
  ℕ, ◌+◌, ◌*◌, ◌≤◌, ◌<◌, ◌≡◌, ◌⊎◌, inl, inr, refl, subst, All, List, [], ◌∷◌, String, Bool, true,
  false, Option, none, some, arith, Option-cases,
}
use baileys_api.Exec.{Result, ok, throw}
use baileys_api.Config.{
  Config, ◌>>=◌, given, int_from_env, bounded, role_text, role_of, read_baileys, read_webhook,
  read_cluster, read_proxy,
}
use baileys_api.Config.Start.{run_checks, checks, check_config, with_role, read_config}

settled :
    {A B : Type 0} (rest : A → Result B) (m : Result A) {whole : B}
    → (m >>= rest) ≡ ok whole
    → (part : A) × (m ≡ ok part) × (rest part ≡ ok whole)
settled rest (throw e) h = cc
settled rest (ok value) h = (value, refl, h)

given-some : (o : Option String) (raw : String) → given o ≡ some raw → o ≡ some raw
given-some none raw h = cc
given-some (some text) raw h = ground arith

-- A start that goes on has passed every check.
run_checks-All :
    (l : List (Bool × String)) {u : Unit {0}}
    → run_checks l ≡ ok u
    → All (λ (p : Bool × String). p.0 ≡ false) l
unfolding run_checks
run_checks-All [] h = tt
run_checks-All ((true, message) ∷ l) h = cc
run_checks-All ((false, message) ∷ l) h = (refl, run_checks-All l h)

-- A number that is read is the default of a variable that is missing or empty, or what the variable
-- says, and then not below its minimum.
pub int_from_env_read :
    (env : String → Option String) (number : String → Option ℕ) (name : String)
    (fallback min value : ℕ)
    → int_from_env env number name fallback min ≡ ok value
    → ((given (env name) ≡ none) × (value ≡ fallback))
      ⊎ ((raw : String) × (env name ≡ some raw) × (number raw ≡ some value) × (min ≤ value))
unfolding int_from_env
int_from_env_read env number name fallback min value = elim (Option-cases (given (env name))) [
  | inl e ↦ rw (e, int_from_env) (λ h. inl (refl, ground arith))
  | inr (raw, e) ↦ rw (e, int_from_env) (λ h. inr (bounded_read raw e h))
]
  where
    bounded_read :
        (raw : String)
        → given (env name) ≡ some raw
        → bounded env number name min raw (number raw) ≡ ok value
        → (raw : String) × (env name ≡ some raw) × (number raw ≡ some value) × (min ≤ value)
    bounded_read raw e h = elim (Option-cases (number raw)) [
      | inl n ↦ absurd (ground arith)
      | inr (v, n) ↦ (raw, given-some (env name) raw e, ground arith, ground arith)
    ]

-- Timings of which each leaves room for the ones inside it.
pub record IsConsistent (c : Config) : Type 0 where
  pub renews_in_time : 2 * c.cluster.lease_renew_interval_ms ≤ c.cluster.lease_ttl_ms
  pub beats_in_time : 2 * c.cluster.heartbeat_interval_ms ≤ c.cluster.instance_ttl_ms
  pub quarantine_grows : c.cluster.quarantine_base_ms ≤ c.cluster.quarantine_max_ms
  pub waits_for_the_mutex :
      (c.baileys.tx_acquire_timeout_ms ≡ 0)
      ⊎ ((90000 ≤ c.baileys.tx_acquire_timeout_ms)
          × (c.baileys.tx_hold_warn_ms < c.baileys.tx_acquire_timeout_ms))
  pub answers_before_the_proxy :
      c.baileys.send_timeout_ms + c.baileys.audio_preprocess_timeout_ms < c.proxy.request_timeout_ms

check_config-IsConsistent : (c d : Config) → check_config c ≡ ok d → (c ≡ d) × IsConsistent d
unfolding check_config
check_config-IsConsistent c d h =
    let (u, passed, same) = settled (λ _. ok c) (run_checks (checks c)) h in
    let all = run_checks-All (checks c) passed in
    let e : c ≡ d = ground arith in
    (
      e,
      subst IsConsistent e (record {
        renews_in_time = ground (arith, all);
        beats_in_time = ground (arith, all);
        quarantine_grows = ground (arith, all);
        waits_for_the_mutex = ground (arith, all);
        answers_before_the_proxy = ground (arith, all);
      }),
    )

-- A process that has started has consistent timings, whatever its environment says.
pub read_config-IsConsistent :
    (env : String → Option String) (number : String → Option ℕ) (c : Config)
    → read_config env number ≡ ok c
    → IsConsistent c
unfolding read_config
read_config-IsConsistent env number c h =
    let (b, _, h1) = settled _ (read_baileys env number) h in
    let (w, _, h2) = settled _ (read_webhook env number) h1 in
    let (l, _, h3) = settled _ (read_cluster env number) h2 in
    let (p, _, h4) = settled _ (read_proxy env number) h3 in
    let (r, _, h5) =
      settled _ (with_role l (role_text env number) (role_of (role_text env number))) h4 in
    (check_config-IsConsistent (record { baileys = b; webhook = w; cluster = r; proxy = p }) c h5).1

-- ===== src/Coordinator/Operations.antt =====
-- src/cluster/coordinator.ts: the operations of explicit intent that a route calls.
use baileys_api.Prelude.{ℕ, String, Bool, true, false, Option, none, some, ◌==◌, not, if◌then◌else◌}
use baileys_api.Redis.{Redis}
use baileys_api.Exec
use baileys_api.Exec.{
  Env, Exec, Error, Result, ok, throw, owned_elsewhere, not_connected, failure, pure, raise, catch,
  settle, ◌>>=◌, ◌>>◌,
}
use baileys_api.Cluster.Site.{Site}
use baileys_api.Cluster.SendStallStore.{clear_send_stall}
use baileys_api.Coordinator.State.{Options, Node, Handler, Sessions, is_epoch}
use baileys_api.Coordinator.{
  held_epoch, announce, ignore, acquire_explicit_lease, abandon_explicit_lease,
  run_under_explicit_lease, clear_quarantine_for_explicit_intent, release_held_lease,
  has_connection,
}

pub data RestartOutcome : Type 0 where
  restarted not_found superseded : RestartOutcome

-- `live ?? metadata`
abbrev pub fresh : Option Options → Options → Options
fresh none metadata = metadata
fresh (some live) metadata = live

-- `!metadata?.webhookUrl` negated
abbrev pub has_webhook : Option Options → Bool
has_webhook none = false
has_webhook (some metadata) = not (metadata.webhook_url == "")

module _ {r : Redis} {H : Type 0} (env : Env r (Node H)) (site : Site) where
  module _ (handler : Handler r H) (sessions : Sessions r H) where
    unfoldable pub connect_with_lease : String → Options → Exec r (Node H) (Unit {0})
    unfolding acquire_explicit_lease clear_quarantine_for_explicit_intent run_under_explicit_lease
    connect_with_lease phone_number options = do
      epoch ← acquire_explicit_lease env site phone_number
      clear_quarantine_for_explicit_intent env site phone_number
      run_under_explicit_lease env site phone_number epoch
          (handler.connect phone_number (λ n. some (record options { lease_epoch = some epoch })))
      pure tt

    -- `seed` is seedImportedSession at the given credentials and candidates.
    unfoldable pub import_session_with_lease :
        String → Exec r (Node H) Bool → Options → Exec r (Node H) (Unit {0})
    unfolding acquire_explicit_lease clear_quarantine_for_explicit_intent run_under_explicit_lease
    import_session_with_lease phone_number seed options = do
      epoch ← acquire_explicit_lease env site phone_number
      clear_quarantine_for_explicit_intent env site phone_number
      run_under_explicit_lease env site phone_number epoch (do
        seeded ← seed
        if seeded
            then handler.connect phone_number
                (λ n. some (record options { lease_epoch = some epoch; force_restart = true }))
            else raise (failure "failed to seed imported session (auth write fenced off)"))
      pure tt

    unfoldable pub unwind_restart_lease : String → ℕ → Exec r (Node H) (Unit {0})
    unfolding abandon_explicit_lease
    unwind_restart_lease phone_number epoch = do
      held ← Exec.gets (held_epoch phone_number)
      live ← Exec.gets (λ n. has_connection env site handler sessions phone_number n.handler)
      if not (is_epoch held epoch)
          then pure tt
          else if live
          then handler.update_lease_epoch phone_number epoch
          else abandon_explicit_lease env site phone_number epoch

    -- The options to spawn with, asked for after the handler's drain; none is a veto.
    abbrev pub spawn_options : String → ℕ → Options → Node H → Option Options
    spawn_options phone_number epoch metadata n =
        if is_epoch (held_epoch phone_number n) epoch
        then some
            (record (fresh (handler.current_connection_options n.handler phone_number) metadata) {
              is_reconnect = true;
              lease_epoch = some epoch;
              force_restart = true;
            })
        else none

    abbrev pub outcome_of : Bool → RestartOutcome
    outcome_of true = restarted
    outcome_of false = superseded

    unfoldable pub rebuild : String → ℕ → Options → Exec r (Node H) RestartOutcome
    unfolding clear_quarantine_for_explicit_intent run_under_explicit_lease
    rebuild phone_number epoch metadata = do
      clear_quarantine_for_explicit_intent env site phone_number
      proceeded ←
          run_under_explicit_lease env site phone_number epoch
            (handler.connect phone_number (spawn_options phone_number epoch metadata))
      pure (outcome_of proceeded)

    -- `!metadata?.webhookUrl || !(await isRedisAuthStatePaired(phoneNumber))` negated, with the
    -- metadata.
    unfoldable pub restorable : String → Exec r (Node H) (Option Options)
    restorable phone_number = do
      metadata ← sessions.auth_metadata phone_number
      if has_webhook metadata
          then (do
            paired ← sessions.is_paired phone_number
            pure (if paired then metadata else none))
          else pure none

    abbrev pub or_not_found : String → ℕ → Option Options → Exec r (Node H) (Option Options)
    or_not_found phone_number epoch none = do unwind_restart_lease phone_number epoch; pure none
    or_not_found phone_number epoch (some metadata) = pure (some metadata)

    -- The `try` block, none where it answered "not-found"; its errors unwind the lease.
    unfoldable pub inspect_session : String → ℕ → Exec r (Node H) (Option Options)
    unfolding restorable unwind_restart_lease
    inspect_session phone_number epoch =
        catch (do metadata ← restorable phone_number; or_not_found phone_number epoch metadata)
          (λ error. ignore (unwind_restart_lease phone_number epoch) >> raise error)

    unfoldable pub restart_with_lease : String → Exec r (Node H) RestartOutcome
    unfolding acquire_explicit_lease inspect_session rebuild
    restart_with_lease phone_number = do
      epoch ← acquire_explicit_lease env site phone_number
      metadata ← inspect_session phone_number epoch
      elim metadata [ none ↦ pure not_found | some found ↦ rebuild phone_number epoch found ]

    abbrev pub is_not_connected : Error → Bool
    is_not_connected not_connected = true
    is_not_connected _ = false

    unfoldable pub offline_logout : String → Exec r (Node H) (Unit {0})
    offline_logout phone_number = do
      cleared ← sessions.clear_auth_state phone_number
      if cleared
          then pure tt
          else raise (failure "failed to clear auth state for offline logout (write fenced off)")

    -- The `finally` block.
    unfoldable pub discard_identity : String → Exec r (Node H) (Unit {0})
    unfolding clear_quarantine_for_explicit_intent release_held_lease
    discard_identity phone_number = do
      clear_quarantine_for_explicit_intent env site phone_number
      ignore (clear_send_stall env site phone_number)
      ignore (release_held_lease env site phone_number)
      announce phone_number

    abbrev pub conclude : {T : Type 0} → Exec r (Node H) (Unit {0}) → Result T → Exec r (Node H) T
    conclude cleanup (ok a) = cleanup >> pure a
    conclude cleanup (throw e) = cleanup >> raise e

    unfoldable pub logout_with_lease : String → Exec r (Node H) (Unit {0})
    unfolding acquire_explicit_lease offline_logout discard_identity
    logout_with_lease phone_number = do
      acquire_explicit_lease env site phone_number
      settle
          (catch (handler.logout phone_number)
            (λ error. if is_not_connected error then offline_logout phone_number else raise error))
          (conclude (discard_identity phone_number))

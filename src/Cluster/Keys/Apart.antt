-- ===== src/Cluster/Keys/Apart.antt =====
-- src/cluster/keys.ts: the keys of leases, among each other and against those of epochs.
use text.Mathlib.TextLemmas.{append_cancel_left}
use baileys_api.Prelude.{String, ◌≡◌, false, ◌==◌, refl}
use baileys_api.Text.{append_apart-false}
use baileys_api.Cluster.Keys.{lease, lease_epoch}

module _ (p q : String) where
  pub lease-lease_epoch : (lease p == lease_epoch q) ≡ false
  unfolding lease lease_epoch
  lease-lease_epoch =
      append_apart-false "@baileys-api:cluster:lease:" "@baileys-api:cluster:lease-" "" "epoch:" p q
        refl refl

  pub lease_epoch-lease : (lease_epoch p == lease q) ≡ false
  unfolding lease lease_epoch
  lease_epoch-lease =
      append_apart-false "@baileys-api:cluster:lease-" "@baileys-api:cluster:lease:" "epoch:" "" p q
        refl refl

pub lease_inj : (p q : String) → lease p ≡ lease q → p ≡ q
unfolding lease
lease_inj p q = append_cancel_left "@baileys-api:cluster:lease:" p q

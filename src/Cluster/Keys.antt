-- ===== src/Cluster/Keys.antt =====
-- src/cluster/keys.ts: the Redis keys of the cluster, as the texts that the program builds.
pub mod Apart
use Prim.Native.String.{◌++◌}
use baileys_api.Prelude.{String}

unfoldable pub lease : String → String
lease phone_number = "@baileys-api:cluster:lease:" ++ phone_number

unfoldable pub lease_epoch : String → String
lease_epoch phone_number = "@baileys-api:cluster:lease-epoch:" ++ phone_number

unfoldable pub instance_key : String → String
instance_key instance_id = "@baileys-api:cluster:instance:" ++ instance_id

unfoldable pub handoff : String → String
handoff phone_number = "@baileys-api:cluster:handoff:" ++ phone_number

unfoldable pub cooldown : String → String
cooldown phone_number = "@baileys-api:cluster:cooldown:" ++ phone_number

unfoldable pub quarantine : String → String
quarantine phone_number = "@baileys-api:cluster:quarantine:" ++ phone_number

unfoldable pub send_stall : String → String
send_stall phone_number = "@baileys-api:cluster:send-stall:" ++ phone_number

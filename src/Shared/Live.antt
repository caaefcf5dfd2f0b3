-- ===== src/Shared/Live.antt =====
-- packages/shared/src/live-hash.ts and the message of types.ts that it reads.
use ukpc_remote_control.Prelude.{
  String, Bool, Option, none, some, [], ◌∷◌, Number, num, Dict, get_or, if◌then◌else◌,
}
use ukpc_remote_control.Shared.Types.{Caps, truthy}
use ukpc_remote_control.Shared.Json.{Json}
use ukpc_remote_control.Shared.Dashboard.{PartialVolatile}

-- `volatile` is the object that was sent, `live` its fields of `Volatile`.
pub record StateMsg : Type 0 where
  pub online : Option Bool
  pub agent_ver : Option String
  pub android_id : Option String
  pub caps : Option Caps
  pub volatile : Option Json
  pub live : PartialVolatile
  pub ts : Option Json

abbrev pub digit : Bool → String
digit b = if b then "1" else "0"

abbrev pub online_entry : Option Bool → Dict String
online_entry none = []
online_entry (some b) = ("online", digit b) ∷ []

-- `text_of_ts` is `String(msg.ts)` and `print` is `String(n)`.
module _ (text_of_ts : Option Json → String) (print : Number → String) where
  unfoldable pub live_hash_patch : StateMsg → Dict String
  live_hash_patch msg =
      ("ts", text_of_ts msg.ts)
      ∷ ("screenOn", digit (truthy msg.live.screen_on))
      ∷ ("charging", digit (truthy msg.live.charging))
      ∷ ("batteryPct", print (get_or msg.live.battery_pct (num 0)))
      ∷ ("net", get_or msg.live.net "")
      ∷ ("rssi", print (get_or msg.live.rssi (num 0)))
      ∷ online_entry msg.online

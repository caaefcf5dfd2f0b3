-- ===== src/Shared/Keys.antt =====
-- packages/shared/src/redis-keys.ts: the names of the Redis keys.
use ukpc_remote_control.Prelude.{String, ◌+s◌}

abbrev pub device : String → String
device device_id = "device:" +s device_id

abbrev pub device_caps : String → String
device_caps device_id = "device:caps:" +s device_id

abbrev pub session : String → String
session session_id = "session:" +s session_id

abbrev pub active_session : String → String
active_session device_id = "device:activeSession:" +s device_id

abbrev pub token_used : String → String
token_used jti = "token:used:" +s jti

abbrev pub relay_load : String → String
relay_load node = "relay:" +s node +s ":load"

abbrev pub relay_nodes : String
relay_nodes = "relay:nodes"

abbrev pub hw_dump : String → String
hw_dump nonce = "hw:dump:" +s nonce

abbrev pub hw_dump_req : String → String
hw_dump_req nonce = "hw:dumpreq:" +s nonce

abbrev pub hw_auto_dump : String → String
hw_auto_dump device_id = "hw:autodump:" +s device_id

abbrev pub hw_heartbeat : String → String
hw_heartbeat device_id = "hw:hb:" +s device_id

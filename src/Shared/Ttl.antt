-- ===== src/Shared/Ttl.antt =====
-- packages/shared/src/types.ts: `TTL`, the lifetimes of Redis keys in seconds.
use ukpc_remote_control.Prelude.{ℕ}

abbrev pub device : ℕ
device = 180

abbrev pub session : ℕ
session = 7200

abbrev pub token_used : ℕ
token_used = 120

abbrev pub relay_load : ℕ
relay_load = 30

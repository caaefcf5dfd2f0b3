-- ===== src/Ingest.antt =====
-- apps/rc-ingest/src/ingest.service.ts: the state that messages of devices change, and the handling of
-- state messages.
--
-- The handlers run one after the other (`this.tail`) on the state `World`: Redis, the tables, and the
-- commands published to devices. Redis and Postgres answer every command; the one statement that may
-- throw is the insertion of capabilities for a device that has no row. Logging is left out. The clock,
-- the configuration, the functions of JavaScript and random numbers are in `Env`.
pub mod Live
pub mod Limits
pub mod Events
pub mod Dumps
pub mod Dispatch
pub mod Coherence
pub mod Resets
pub mod Readback
use ukpc_remote_control.Prelude.{
  ℕ, zero, suc, ◌+◌, ◌*◌, ◌-◌, String, Bool, true, false, not, ◌&&◌, ◌||◌, ◌==◌, ◌+s◌, Option, none,
  some, List, [], ◌∷◌, ◌++◌, map, Number, finite, pos, num, num_lt, is_finite, ltb, Dict, lookup,
  insert, adjust, get_or, is_empty, if◌then◌else◌,
}
use ukpc_remote_control.Shared.Types.{Caps, Encoder, blocked, unlicensed}
use ukpc_remote_control.Shared.Keys
use ukpc_remote_control.Shared.Ttl
use ukpc_remote_control.Shared.Json.{Json}
use ukpc_remote_control.Shared.Live.{StateMsg}
use ukpc_remote_control.Shared.Hash.{caps_hash, caps_diff}
use ukpc_remote_control.Db.{Db, DeviceRow, CapsRow, Change}
use ukpc_remote_control.Api.Redis.{Redis}

abbrev pub hour_ms : ℕ
hour_ms = 3600000

abbrev pub day_ms : ℕ
day_ms = 24 * hour_ms

pub record Env : Type 0 where
  pub now : ℕ
  pub hb_store_sec : ℕ  -- `hbStoreSec`, in whole seconds
  pub auto_dump : Bool
  pub uuid : String
  pub publish_fails : Bool
  pub stringify : Caps → String  -- `stableStringify`
  pub sha1 : String → String
  pub to_number : Option Json → Number  -- `Number(x)`
  pub ts_text : Option Json → String  -- `String(msg.ts)`
  pub print : Number → List ℕ  -- `String(n)`, in code units
  pub parse : List ℕ → Number  -- `Number(s)`
  pub text_of : List ℕ → String  -- the same text
  pub knox_text : Caps → String  -- `caps.knox`, `caps.projectMedia` and `String(flag)` as they are sent
  pub media_text : Caps → String
  pub flag_text : Bool → String

-- `hw.dump`, the one command of the ingest
pub record DumpCommand : Type 0 where
  pub device_id : String
  pub n : ℕ
  pub nonce : String

-- |a - b| < span
abbrev pub is_near : ℕ → ℕ → ℕ → Bool
is_near span a b = ltb (a - b + (b - a)) span

sane_number : Number → ℕ → ℕ
sane_number (finite (pos n)) now = if ltb 0 n && is_near day_ms n now then n else now
sane_number _ now = now

-- `saneTs`
unfoldable pub sane_ts : Env → Option Json → ℕ
unfolding sane_number
sane_ts e ts = sane_number (e.to_number ts) e.now

-- a new row of `devices`
abbrev pub new_device : ℕ → DeviceRow
new_device group = record {
  android_id = none;
  hmdm_internal_id = none;
  model = none;
  os_version = none;
  group_id = group;
  label = none;
  last_seen = none;
  synced_at = none;
  stale = false;
  needs_reprovisioning = false;
}

-- the columns after a factory reset: everything granted is gone
abbrev pub reset_caps : CapsRow → CapsRow
reset_caps c = record c {
  a11y = false;
  overlay = false;
  secure_settings = false;
  project_media = blocked;
  knox = unlicensed;
}

-- `r.encoder_name ? { … } : undefined`
abbrev pub encoder_in : Option String → Option Bool → Option Encoder
encoder_in none hw = none
encoder_in (some name) hw =
    if name == "" then none else some (record { name = name; hw = get_or hw false })

abbrev pub caps_in : CapsRow → Caps
caps_in c = record {
  project_media = c.project_media;
  a11y = c.a11y;
  knox = c.knox;
  overlay = c.overlay;
  secure_settings = c.secure_settings;
  encoder = encoder_in c.encoder_name c.encoder_hw;
}

-- `findCaps`
unfoldable pub find_caps : Db → String → Option Caps
find_caps db d = elim (lookup d db.capabilities) [ none ↦ none | some c ↦ some (caps_in c) ]

abbrev pub name_in : Option Encoder → Option String
name_in none = none
name_in (some e) = some e.name

abbrev pub hw_in : Option Encoder → Option Bool
hw_in none = none
hw_in (some e) = some e.hw

-- the row that `upsertCaps` writes
abbrev pub caps_row : Caps → String → String → CapsRow
caps_row caps ver hash = record {
  agent_ver = ver;
  project_media = caps.project_media;
  a11y = caps.a11y;
  knox = caps.knox;
  overlay = caps.overlay;
  secure_settings = caps.secure_settings;
  encoder_name = name_in caps.encoder;
  encoder_hw = hw_in caps.encoder;
  caps_hash = hash;
}

-- the fields of the cache
abbrev pub cache_entry : Env → Caps → String → String → Dict String
cache_entry e caps ver hash =
    ("agentVer", ver)
    ∷ ("projectMedia", e.media_text caps)
    ∷ ("a11y", e.flag_text caps.a11y)
    ∷ ("knox", e.knox_text caps)
    ∷ ("overlay", e.flag_text caps.overlay)
    ∷ ("secureSettings", e.flag_text caps.secure_settings)
    ∷ ("capsHash", hash)
    ∷ []

-- a text that is not empty
abbrev pub given : Option String → Option String
given none = none
given (some s) = if s == "" then none else some s

-- `stored && stored !== reported`
abbrev pub is_other : Option String → String → Bool
is_other none reported = false
is_other (some stored) reported = not (stored == "") && not (stored == reported)

abbrev pub android_id_of : Option DeviceRow → Option String
android_id_of none = none
android_id_of (some row) = row.android_id

module _ (r : Redis) where
  pub record World : Type 0 where
    pub store : r.Store
    pub db : Db
    pub sent : List DumpCommand

  abbrev pub with_devices : World → Dict DeviceRow → World
  with_devices w rows = record w { db = record w.db { devices = rows } }

  abbrev pub with_caps : World → Dict CapsRow → World
  with_caps w rows = record w { db = record w.db { capabilities = rows } }

  abbrev pub drop_cache : World → String → World
  drop_cache w d = record w { store = r.del w.store (Keys.device_caps d) }

  -- `capsHash` of the cache
  abbrev pub cached : World → String → Option String
  cached w d = lookup "capsHash" (r.hgetall w.store (Keys.device_caps d))

  add_device : World → String → Option ℕ → World
  add_device w d none = w
  add_device w d (some group) =
      drop_cache (with_devices w (insert d (new_device group) w.db.devices)) d

  ensure_at : World → String → Option DeviceRow → World
  unfolding add_device
  ensure_at w d none = add_device w d w.db.default_group
  ensure_at w d (some row) = w

  -- `ensureDevice`: a row that is new makes the cache useless
  unfoldable pub ensure_device : World → String → World
  unfolding ensure_at
  ensure_device w d = ensure_at w d (lookup d w.db.devices)

  -- the branch of a device that reports another Android id
  unfoldable pub reset_device : World → String → String → World
  reset_device w d reported =
      let w1 = with_devices w (
        adjust d (λ row. record row { android_id = some reported; needs_reprovisioning = true })
          w.db.devices) in
      drop_cache (with_caps w1 (adjust d reset_caps w1.db.capabilities)) d

  unfoldable pub note_android : World → String → String → World
  note_android w d reported =
      with_devices w (adjust d (λ row. record row { android_id = some reported }) w.db.devices)

  -- `checkFactoryReset`: the state and whether the device was reset
  unfoldable pub check_factory_reset : World → String → String → World × Bool
  unfolding reset_device note_android
  check_factory_reset w d reported =
      if is_other (android_id_of (lookup d w.db.devices)) reported
      then (reset_device w d reported, true)
      else (note_android w d reported, false)

  -- the statements after the comparison with the cache, `d` having a row: the foreign key
  unfoldable pub store_caps : Env → World → String → Caps → String → String → World
  store_caps e w d caps ver hash =
      let changes = caps_diff (find_caps w.db d) caps in
      let w1 = with_caps w (insert d (caps_row caps ver hash) w.db.capabilities) in
      let w2 = record w1 {
        db = record w1.db {
          capability_events =
              if is_empty changes
              then w1.db.capability_events
              else w1.db.capability_events ++ (d, changes) ∷ [];
        };
      } in
      record w2 { store = r.hset w2.store (Keys.device_caps d) (cache_entry e caps ver hash) }

  store_known : Env → World → String → Caps → String → String → Option DeviceRow → World
  unfolding store_caps
  store_known e w d caps ver hash none = w  -- the insertion throws
  store_known e w d caps ver hash (some row) = store_caps e w d caps ver hash

  is_cached : Option String → String → Bool
  is_cached none hash = false
  is_cached (some h) hash = h == hash

  -- the end of `onState`, from the hash of the capabilities on
  unfoldable pub learn_caps : Env → World → String → Option Caps → Option String → World
  unfolding store_known is_cached
  learn_caps e w d (some caps) (some ver) =
      let hash = caps_hash e.stringify e.sha1 caps ver in
      if is_cached (cached w d) hash
      then w
      else store_known e w d caps ver hash (lookup d w.db.devices)
  learn_caps e w d _ _ = w

  unfoldable pub touch : Env → World → String → World
  touch e w d =
      with_devices w (adjust d (λ row. record row { last_seen = some e.now }) w.db.devices)

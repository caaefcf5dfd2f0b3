-- ===== src/Ingest/Live.antt =====
-- apps/rc-ingest/src/ingest.service.ts: `writeLive`, `storeHeartbeatSample` and `onState`.
use ukpc_remote_control.Prelude.{
  ℕ, String, Bool, true, false, not, ◌&&◌, ◌||◌, ◌==◌, Option, none, some, List, [], ◌∷◌, num,
  num_eq, Dict, is_empty, ltb, if◌then◌else◌,
}
use ukpc_remote_control.Shared.Keys
use ukpc_remote_control.Shared.Ttl
use ukpc_remote_control.Shared.Json.{Json, object, field_then}
use ukpc_remote_control.Shared.Live.{StateMsg, live_hash_patch}
use ukpc_remote_control.Shared.Hw.{HwSample, normalize_hw_sample}
use ukpc_remote_control.Shared.Hw.Live.{Patch, hw_live_patch, volatile_has_hw}
use ukpc_remote_control.Db.{SampleRow, SampleSource, hb, dump, add_unique}
use ukpc_remote_control.Api.Redis.{Redis}
use ukpc_remote_control.Ingest.{
  Env, World, sane_ts, given, ensure_device, check_factory_reset, learn_caps, touch,
}

abbrev pub same_source : SampleSource → SampleSource → Bool
same_source hb hb = true
same_source dump dump = true
same_source _ _ = false

-- UNIQUE (device_id, source, sample_ts)
abbrev pub same_sample : SampleRow → SampleRow → Bool
same_sample a b =
    a.device_id == b.device_id && same_source a.source b.source && num_eq a.sample_ts b.sample_ts

-- `{ ...msg.volatile, ts }`
abbrev pub with_ts : Json → ℕ → Json
with_ts (object fields) ts = object (field_then "ts" (Json.number (num ts)) fields)
with_ts v ts = v

-- the code units of a dictionary's values as texts
abbrev pub texts_in : Env → Dict (List ℕ) → Dict String
texts_in e [] = []
texts_in e ((key, value) ∷ rest) = (key, e.text_of value) ∷ texts_in e rest

-- `msg.online === false`
abbrev pub is_off : Option Bool → Bool
is_off none = false
is_off (some b) = not b

module _ (r : Redis) where
  -- the statement and the key that is set afterwards
  unfoldable pub add_sample : Env → World r → String → ℕ → Option HwSample → World r
  add_sample e w d ts none = w
  add_sample e w d ts (some sample) =
      let row : SampleRow = record {
        device_id = d;
        source = hb;
        sample_ts = num ts;
        body = sample;
      } in
      let w1 = record w {
        db = record w.db { hw_samples = (add_unique same_sample row w.db.hw_samples).0 };
      } in
      if ltb 0 e.hb_store_sec
      then record w1 { store = r.set w1.store (Keys.hw_heartbeat d) "1" e.hb_store_sec }
      else w1

  pub sample_of : StateMsg → ℕ → Option Json → Option HwSample
  sample_of msg ts none = none
  sample_of msg ts (some v) = normalize_hw_sample (with_ts v ts)

  unfoldable pub store_heartbeat_sample : Env → World r → String → StateMsg → World r
  unfolding add_sample sample_of
  store_heartbeat_sample e w d msg =
      if is_off msg.online || not (volatile_has_hw msg.volatile)
      then w
      else if ltb 0 e.hb_store_sec && r.exists w.store (Keys.hw_heartbeat d)
      then w
      else let ts = sane_ts e msg.ts in add_sample e w d ts (sample_of msg ts msg.volatile)

  -- the calls of `hset` and `hdel` of a patch, each only if it has something to do
  unfoldable pub write_patch : Env → r.Store → String → Patch → r.Store
  write_patch e s d p =
      let s1 = if is_empty p.set then s else r.hset s (Keys.device d) (texts_in e p.set) in
      if is_empty p.del then s1 else r.hdel s1 (Keys.device d) p.del

  unfoldable pub write_state : Env → World r → String → StateMsg → World r
  unfolding write_patch store_heartbeat_sample
  write_state e w d msg =
      let s1 =
        r.hset w.store (Keys.device d)
          (live_hash_patch e.ts_text (λ n. e.text_of (e.print n)) msg) in
      let s2 = write_patch e s1 d (hw_live_patch e.print e.parse msg.volatile) in
      store_heartbeat_sample e (record w { store = s2 }) d msg

  -- the live state, its time to live and `last_seen`
  unfoldable pub seen : Env → World r → String → StateMsg → World r
  unfolding write_state
  seen e w d msg =
      let w1 = write_state e w d msg in
      touch r e (record w1 { store = r.expire w1.store (Keys.device d) Ttl.device }) d

  unfoldable pub after_check : Env → World r × Bool → String → StateMsg → World r
  unfolding seen
  after_check e (w, true) d msg = seen e w d msg
  after_check e (w, false) d msg = learn_caps r e (seen e w d msg) d msg.caps (given msg.agent_ver)

  unfoldable pub check_of : World r → String → Option String → World r × Bool
  check_of w d none = (w, false)
  check_of w d (some reported) = check_factory_reset r w d reported

  unfoldable pub on_state : Env → World r → String → StateMsg → World r
  unfolding check_of after_check
  on_state e w d msg = after_check e (check_of (ensure_device r w d) d (given msg.android_id)) d msg

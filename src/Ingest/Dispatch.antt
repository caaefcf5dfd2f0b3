-- ===== src/Ingest/Dispatch.antt =====
-- apps/rc-ingest/src/ingest.service.ts: `onMessage`.
--
-- `parse` is `JSON.parse`, `none` where it throws; `state_of` reads a message as `StateMsg` declares it;
-- `reply` is as in Dumps.
use ukpc_remote_control.Prelude.{
  ℕ, String, Bool, ◌&&◌, ◌||◌, ◌==◌, ◌+s◌, Option, none, some, is_some, if◌then◌else◌,
}
use ukpc_remote_control.Shared.Json.{Json, null, array, field}
use ukpc_remote_control.Shared.Topics.{device_id_from_topic, is_sys, has_inner}
use ukpc_remote_control.Shared.Live.{StateMsg}
use ukpc_remote_control.Api.Redis.{Redis}
use ukpc_remote_control.Ingest.{Env, World, given, ensure_device}
use ukpc_remote_control.Ingest.Live.{on_state}
use ukpc_remote_control.Ingest.Events.{on_sys, on_event}
use ukpc_remote_control.Ingest.Dumps.{on_hw_dump, elems_in}

abbrev pub probe_key : String → String
probe_key d = "probe:wait:" +s d

-- `msg.caps && msg.agentVer`
abbrev pub has_caps : StateMsg → Bool
has_caps msg = is_some msg.caps && is_some (given msg.agent_ver)

module _ (r : Redis) (parse : String → Option Json) (state_of : Json → StateMsg)
    (reply : ℕ → ℕ → String) where
  unfoldable pub answer_probe : Env → World r → String → String → StateMsg → World r
  answer_probe e w d raw msg =
      let key = probe_key d in
      let w1 = record w { store = r.expire (r.lpush w.store key raw) key 10 } in
      if has_caps msg then on_state r e w1 d msg else w1

  unfoldable pub on_probe : Env → World r → String → String → Json → Option Json → World r
  unfolding answer_probe
  on_probe e w d raw msg (some (array hw)) = on_hw_dump r reply e w d msg (elems_in hw)
  on_probe e w d raw msg _ = answer_probe e w d raw (state_of msg)

  -- reading a field of `null` throws: in `onState` after the device is there
  on_null : Env → World r → String → String → World r
  on_null e w topic d =
      if has_inner "event" topic || has_inner "probe" topic then w else ensure_device r w d

  on_parsed : Env → World r → String → String → String → Option Json → World r
  unfolding on_probe on_null
  on_parsed e w topic d raw none = w
  on_parsed e w topic d raw (some null) = on_null e w topic d
  on_parsed e w topic d raw (some msg) =
      if has_inner "event" topic
      then on_event r e w d msg
      else if has_inner "probe" topic
      then on_probe e w d raw msg (field "hw" msg)
      else on_state r e w d (state_of msg)

  unfoldable pub on_message : Env → World r → String → String → World r
  unfolding on_parsed
  on_message e w topic raw =
      let d = device_id_from_topic topic in
      if is_sys topic
      then on_sys r w topic (parse raw)
      else if d == ""
      then w
      else on_parsed e w topic d raw (parse raw)

-- ===== src/Ingest/Readback.antt =====
-- The live state that the ingest writes (`writeLive` of apps/rc-ingest/src/ingest.service.ts) as the API reads it
-- (`toDeviceState` of apps/rc-api/src/devices/devices.service.ts).
use ukpc_remote_control.Prelude.{
  ℕ, ◌≡◌, refl, ap, ◌∙◌, String, Bool, true, false, not, ◌&&◌, ◌||◌, ◌==◌, Option, none, some,
  arith, differ, eq_refl, get_or, Number, num, ltb, lookup, Bool-cases, inl, inr,
}
use ukpc_remote_control.Shared.Types.{truthy}
use ukpc_remote_control.Shared.Json.{Json}
use ukpc_remote_control.Shared.Keys
use ukpc_remote_control.Shared.Live.{StateMsg, digit, online_entry, live_hash_patch}
use ukpc_remote_control.Shared.Hw.{HwSample}
use ukpc_remote_control.Shared.Hw.Live.{hw_live_patch, volatile_has_hw}
use ukpc_remote_control.Api.Redis.{Redis}
use ukpc_remote_control.Api.Devices.{JoinedRow, is_set, number_or, to_device_state}
use ukpc_remote_control.Ingest.{Env, World, sane_ts}
use ukpc_remote_control.Ingest.Live.{
  is_off, sample_of, texts_in, add_sample, store_heartbeat_sample, write_patch, write_state,
}
use ukpc_remote_control.Ingest.Coherence.Patch.{
  IsPlain, lookup-hw_live_patch, includes-hw_live_patch, lookup-texts_in,
}

apart : (d j : String) → (Keys.hw_heartbeat d == Keys.device j) ≡ false
apart d j = differ "h" "d" "w:hb:" "evice:" d j refl

is_set-digit : (b : Bool) → is_set (some (digit b)) ≡ b
is_set-digit true = refl
is_set-digit false = refl

module _ (r : Redis) (e : Env) where
  -- the fields of the live state of a device
  abbrev live_field : r.Store → String → String → Option String
  live_field s d f = lookup f (r.hgetall s (Keys.device d))

  add_sample-field :
      (w : World r) (d : String) (ts : ℕ) (o : Option HwSample) (f : String)
      → live_field (add_sample r e w d ts o).store d f ≡ live_field w.store d f
  unfolding add_sample
  add_sample-field w d ts none f = refl
  add_sample-field w d ts (some sample) f = elim (Bool-cases (ltb 0 e.hb_store_sec)) [
    | inl b ↦ rw b (
        ap (lookup f) (
          r.hgetall-set w.store (Keys.hw_heartbeat d) (Keys.device d) "1" e.hb_store_sec
          ∙ rw (apart d d) refl))
    | inr b ↦ rw b refl
  ]

  store_heartbeat_sample-field :
      (w : World r) (d : String) (msg : StateMsg) (f : String)
      → live_field (store_heartbeat_sample r e w d msg).store d f ≡ live_field w.store d f
  unfolding store_heartbeat_sample
  store_heartbeat_sample-field w d msg f =
      let done =
        add_sample-field w d (sane_ts e msg.ts) (sample_of r msg (sane_ts e msg.ts) msg.volatile)
          f in
      elim (Bool-cases (is_off msg.online || not (volatile_has_hw msg.volatile))) [
        | inl b ↦ rw b refl
        | inr b ↦
            rw b
              (elim (Bool-cases (ltb 0 e.hb_store_sec && r.exists w.store (Keys.hw_heartbeat d))) [
                | inl t ↦ rw t refl
                | inr t ↦ rw t done
              ])
      ]

  write_patch-field :
      (s : r.Store) (d f : String) (v : Option Json)
      → IsPlain f
      → live_field (write_patch r e s d (hw_live_patch e.print e.parse v)) d f ≡ live_field s d f
  unfolding write_patch
  write_patch-field s d f v plain =
      let p = hw_live_patch e.print e.parse v in
      let texts = texts_in e p.set in
      let free = lookup-texts_in e f p.set (lookup-hw_live_patch e.print e.parse f plain v) in
      let kept = includes-hw_live_patch e.print e.parse f plain v in
      let a = r.field-hset s (Keys.device d) (Keys.device d) f texts in
      let b = r.field-hdel s (Keys.device d) (Keys.device d) f p.del in
      let c =
        r.field-hdel (r.hset s (Keys.device d) texts) (Keys.device d) (Keys.device d) f p.del in
      ground (arith, a, b, c, free, kept)

  -- what a message says of a field is read back
  write_state-field :
      (w : World r) (d f value : String) (msg : StateMsg)
      → IsPlain f
      → lookup f (live_hash_patch e.ts_text (λ n. e.text_of (e.print n)) msg) ≡ some value
      → live_field (write_state r e w d msg).store d f ≡ some value
  unfolding write_state
  write_state-field w d f value msg plain there =
      let live = live_hash_patch e.ts_text (λ n. e.text_of (e.print n)) msg in
      let s1 = r.hset w.store (Keys.device d) live in
      let s2 = write_patch r e s1 d (hw_live_patch e.print e.parse msg.volatile) in
      let written = r.field-hset w.store (Keys.device d) (Keys.device d) f live in
      store_heartbeat_sample-field (record w { store = s2 }) d msg f
      ∙ write_patch-field s1 d f msg.volatile plain
      ∙ ground (arith, written, there, eq_refl (Keys.device d))

  -- The API reads the live state of a device as the last message said it, where it said whether the device
  -- is online, and numbers can be read back from their texts.
  pub live_round :
      (number_of : String → Number)
      → ((x : Number) → number_of (e.text_of (e.print x)) ≡ x)
      → (w : World r) (d : String) (msg : StateMsg) (online : Bool) (row : JoinedRow)
      → msg.online ≡ some online
      → let state =
          to_device_state number_of row
            (r.hgetall (write_state r e w d msg).store (Keys.device d)) in
        (state.online ≡ online)
        × (state.volatile.screen_on ≡ truthy msg.live.screen_on)
        × (state.volatile.charging ≡ truthy msg.live.charging)
        × (state.volatile.battery_pct ≡ get_or msg.live.battery_pct (num 0))
        × (state.volatile.net ≡ get_or msg.live.net "")
        × (state.volatile.rssi ≡ get_or msg.live.rssi (num 0))
  unfolding to_device_state live_hash_patch lookup
  live_round number_of inverse w d msg online row said =
      let live = live_hash_patch e.ts_text (λ n. e.text_of (e.print n)) msg in
      let on : lookup "online" live ≡ some (digit online) =
        ap (λ o. lookup "online" (online_entry o)) said in
      let is_on =
        write_state-field w d "online" (digit online) msg
          (λ k. differ "h" "o" "w_" "nline" k "" refl) on in
      let screen =
        write_state-field w d "screenOn" _ msg (λ k. differ "h" "s" "w_" "creenOn" k "" refl)
          refl in
      let power =
        write_state-field w d "charging" _ msg (λ k. differ "h" "c" "w_" "harging" k "" refl)
          refl in
      let battery =
        write_state-field w d "batteryPct" _ msg (λ k. differ "h" "b" "w_" "atteryPct" k "" refl)
          refl in
      let net = write_state-field w d "net" _ msg (λ k. differ "h" "n" "w_" "et" k "" refl) refl in
      let rssi =
        write_state-field w d "rssi" _ msg (λ k. differ "h" "r" "w_" "ssi" k "" refl) refl in
      (
        ap is_set is_on ∙ is_set-digit online,
        ap is_set screen ∙ is_set-digit (truthy msg.live.screen_on),
        ap is_set power ∙ is_set-digit (truthy msg.live.charging),
        ap (number_or number_of) battery ∙ inverse (get_or msg.live.battery_pct (num 0)),
        ap (λ o. get_or o "unknown") net,
        ap (number_or number_of) rssi ∙ inverse (get_or msg.live.rssi (num 0)),
      )

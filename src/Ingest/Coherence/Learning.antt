-- ===== src/Ingest/Coherence/Learning.antt =====
-- apps/rc-ingest/src/ingest.service.ts: what `onState` makes of reported capabilities.
use ukpc_remote_control.Prelude.{
  ℕ, ◌≡◌, refl, ap, ◌∙◌, String, Bool, true, false, ◌==◌, Option, none, some, arith, eq_iff,
  eq_refl, lookup, lookup-insert, is_some, inl, inr, Bool-cases, if◌then◌else◌,
}
use ukpc_remote_control.Shared.Types.{Caps}
use ukpc_remote_control.Shared.Keys
use ukpc_remote_control.Shared.Live.{StateMsg}
use ukpc_remote_control.Shared.Hash.{caps_hash}
use ukpc_remote_control.Db.{DeviceRow}
use ukpc_remote_control.Api.Redis.{Redis}
use ukpc_remote_control.Ingest.{
  Env, World, cached, caps_row, cache_entry, new_device, given, ensure_device, ensure_at, is_other,
  android_id_of, add_device, reset_device, note_android, check_factory_reset, store_caps,
  store_known, is_cached, learn_caps,
}
use ukpc_remote_control.Ingest.Live.{seen, check_of, after_check, on_state}
use ukpc_remote_control.Ingest.Coherence.{
  device_caps-injective, Backed, Backed-Keeps, Coherent, is_some-adjust, ensure_device-Coherent,
  check_factory_reset-Coherent,
}
use ukpc_remote_control.Ingest.Coherence.Store.{seen-Coherent, seen_known}

module _ (r : Redis) (e : Env) where
  -- the hash of `j` after the cache of `d` is written
  cached-store_caps :
      (w : World r) (d j : String) (caps : Caps) (ver hash : String)
      → cached r (store_caps r e w d caps ver hash) j
        ≡ (if Keys.device_caps d == Keys.device_caps j then some hash else cached r w j)
  unfolding store_caps lookup
  cached-store_caps w d j caps ver hash =
      let f =
        r.field-hset w.store (Keys.device_caps d) (Keys.device_caps j) "capsHash"
          (cache_entry e caps ver hash) in
      f

  stored_Backed :
      (w : World r) (d j : String) (caps : Caps) (ver h : String)
      → d ≡ j
      → caps_hash e.stringify e.sha1 caps ver ≡ h
      → Backed r e (store_caps r e w d caps ver (caps_hash e.stringify e.sha1 caps ver)).db j h
  unfolding store_caps
  stored_Backed w d j caps ver h same hashed =
      let hash = caps_hash e.stringify e.sha1 caps ver in
      let f = lookup-insert d j (caps_row caps ver hash) w.db.capabilities in
      record {
        caps = caps;
        ver = ver;
        row = f ∙ rw (same, eq_refl j, hashed) refl;
        hashed = hashed;
      }

  kept_Backed :
      (w : World r) (d j : String) (caps : Caps) (ver hash h : String)
      → (d == j) ≡ false
      → Backed r e w.db j h
      → Backed r e (store_caps r e w d caps ver hash).db j h
  unfolding store_caps
  kept_Backed w d j caps ver hash h other b =
      Backed-Keeps r e w.db (store_caps r e w d caps ver hash).db j h
        (lookup-insert d j (caps_row caps ver hash) w.db.capabilities ∙ rw other refl) b

  store_caps-Coherent :
      (w : World r) (d : String) (caps : Caps) (ver : String)
      → Coherent r e w
      → Coherent r e (store_caps r e w d caps ver (caps_hash e.stringify e.sha1 caps ver))
  unfolding store_caps
  store_caps-Coherent w d caps ver c j h known there =
      let hash = caps_hash e.stringify e.sha1 caps ver in
      let f = cached-store_caps w d j caps ver hash in
      elim (Bool-cases (Keys.device_caps d == Keys.device_caps j)) [
        | inl b ↦
            stored_Backed w d j caps ver h
              (device_caps-injective d j ((eq_iff (Keys.device_caps d) (Keys.device_caps j)).0 b))
              (ground (arith, f, b, there))
        | inr b ↦
            kept_Backed w d j caps ver hash h
              (ground (arith, b, eq_iff d j, eq_refl (Keys.device_caps d)))
              (c j h known (ground (arith, f, b, there)))
      ]

  store_known-Coherent :
      (w : World r) (d : String) (caps : Caps) (ver : String) (o : Option DeviceRow)
      → lookup d w.db.devices ≡ o
      → Coherent r e w
      → Coherent r e (store_known r e w d caps ver (caps_hash e.stringify e.sha1 caps ver) o)
  unfolding store_known
  store_known-Coherent w d caps ver none p c = c
  store_known-Coherent w d caps ver (some row) p c = store_caps-Coherent w d caps ver c

  learn_caps-Coherent :
      (w : World r) (d : String) (caps : Option Caps) (ver : Option String)
      → Coherent r e w
      → Coherent r e (learn_caps r e w d caps ver)
  unfolding learn_caps
  learn_caps-Coherent w d none ver c = c
  learn_caps-Coherent w d (some caps) none c = c
  learn_caps-Coherent w d (some caps) (some ver) c =
      elim (Bool-cases (is_cached r (cached r w d) (caps_hash e.stringify e.sha1 caps ver))) [
        | inl b ↦ rw b c
        | inr b ↦ rw b (store_known-Coherent w d caps ver (lookup d w.db.devices) refl c)
      ]

  after_check-Coherent :
      (checked : World r × Bool) (d : String) (msg : StateMsg)
      → Coherent r e checked.0
      → Coherent r e (after_check r e checked d msg)
  unfolding after_check
  after_check-Coherent (w, true) d msg c = seen-Coherent r e w d msg c
  after_check-Coherent (w, false) d msg c =
      learn_caps-Coherent (seen r e w d msg) d msg.caps (given msg.agent_ver)
        (seen-Coherent r e w d msg c)

  check_of-Coherent :
      (w : World r) (d : String) (reported : Option String)
      → Coherent r e w
      → Coherent r e (check_of r w d reported).0
  unfolding check_of
  check_of-Coherent w d none c = c
  check_of-Coherent w d (some reported) c = check_factory_reset-Coherent r e w d reported c

  -- A state message of any device keeps this true of all devices: the hash that is cached for a device
  -- with a row is that of the capabilities in the table.
  pub on_state-Coherent :
      (w : World r) (d : String) (msg : StateMsg)
      → Coherent r e w
      → Coherent r e (on_state r e w d msg)
  unfolding on_state
  on_state-Coherent w d msg c =
      after_check-Coherent (check_of r (ensure_device r w d) d (given msg.android_id)) d msg (
        check_of-Coherent (ensure_device r w d) d (given msg.android_id)
          (ensure_device-Coherent r e w d c))

  -- No other capabilities have the hash of these.
  abbrev pub Unique : Caps → String → Type 0
  Unique caps ver =
      (a : Caps) (v : String)
      → caps_hash e.stringify e.sha1 a v ≡ caps_hash e.stringify e.sha1 caps ver
      → (a ≡ caps) × (v ≡ ver)

  store_known_lem :
      (w : World r) (d : String) (caps : Caps) (ver hash : String) (o : Option DeviceRow)
      → is_some o ≡ true
      → lookup d (store_known r e w d caps ver hash o).db.capabilities
        ≡ some (caps_row caps ver hash)
  unfolding store_known store_caps
  store_known_lem w d caps ver hash none known = ground (arith, known)
  store_known_lem w d caps ver hash (some row) known =
      lookup-insert d d (caps_row caps ver hash) w.db.capabilities ∙ rw (eq_refl d) refl

  cached_lem : (o : Option String) (hash : String) → is_cached r o hash ≡ true → o ≡ some hash
  unfolding is_cached
  cached_lem none hash b = ground (arith, b)
  cached_lem (some h) hash b = ap some ((eq_iff h hash).0 b)

  learn_caps_lem :
      (w : World r) (d : String) (caps : Caps) (ver : String)
      → Coherent r e w
      → is_some (lookup d w.db.devices) ≡ true
      → Unique caps ver
      → lookup d (learn_caps r e w d (some caps) (some ver)).db.capabilities
        ≡ some (caps_row caps ver (caps_hash e.stringify e.sha1 caps ver))
  unfolding learn_caps
  learn_caps_lem w d caps ver c known unique =
      let hash = caps_hash e.stringify e.sha1 caps ver in
      elim (Bool-cases (is_cached r (cached r w d) hash)) [
        | inl b ↦ rw b (
            let behind = c d hash known (cached_lem (cached r w d) hash b) in
            let (same, version) = unique behind.caps behind.ver behind.hashed in
            behind.row ∙ rw (same, version) refl)
        | inr b ↦ rw b (store_known_lem w d caps ver hash (lookup d w.db.devices) known)
      ]

  add_device_known :
      (w : World r) (d : String) (group : Option ℕ)
      → is_some group ≡ true
      → is_some (lookup d (add_device r w d group).db.devices) ≡ true
  unfolding add_device
  add_device_known w d none given_group = ground (arith, given_group)
  add_device_known w d (some g) given_group =
      let f = lookup-insert d d (new_device g) w.db.devices in ground (arith, f, eq_refl d)

  ensure_at_known :
      (w : World r) (d : String) (o : Option DeviceRow)
      → lookup d w.db.devices ≡ o
      → is_some w.db.default_group ≡ true
      → is_some (lookup d (ensure_at r w d o).db.devices) ≡ true
  unfolding ensure_at
  ensure_at_known w d none p group = add_device_known w d w.db.default_group group
  ensure_at_known w d (some row) p group = ap is_some p

  pub ensure_device_known :
      (w : World r) (d : String)
      → is_some w.db.default_group ≡ true
      → is_some (lookup d (ensure_device r w d).db.devices) ≡ true
  unfolding ensure_device
  ensure_device_known w d group = ensure_at_known w d (lookup d w.db.devices) refl group

  check_of_known :
      (w : World r) (d : String) (reported : Option String)
      → is_some (lookup d w.db.devices) ≡ true
      → is_some (lookup d (check_of r w d reported).0.db.devices) ≡ true
  unfolding check_of check_factory_reset note_android reset_device
  check_of_known w d none known = known
  check_of_known w d (some reported) known =
      elim (Bool-cases (is_other (android_id_of (lookup d w.db.devices)) reported)) [
        | inl b ↦ rw b (
            is_some-adjust r e d d
              (λ row. record row { android_id = some reported; needs_reprovisioning = true })
              w.db.devices
            ∙ known)
        | inr b ↦ rw b (
            is_some-adjust r e d d (λ row. record row { android_id = some reported }) w.db.devices
            ∙ known)
      ]

  after_check_lem :
      (checked : World r × Bool) (d : String) (msg : StateMsg) (caps : Caps) (ver : String)
      → Coherent r e checked.0
      → is_some (lookup d checked.0.db.devices) ≡ true
      → Unique caps ver
      → checked.1 ≡ false
      → msg.caps ≡ some caps
      → given msg.agent_ver ≡ some ver
      → lookup d (after_check r e checked d msg).db.capabilities
        ≡ some (caps_row caps ver (caps_hash e.stringify e.sha1 caps ver))
  unfolding after_check
  after_check_lem (w, true) d msg caps ver c known unique kept has_caps has_ver =
      ground (arith, kept)
  after_check_lem (w, false) d msg caps ver c known unique kept has_caps has_ver =
      let w1 = seen r e w d msg in
      ap (λ o. lookup d (learn_caps r e w1 d o (given msg.agent_ver)).db.capabilities) has_caps
      ∙ ap (λ o. lookup d (learn_caps r e w1 d (some caps) o).db.capabilities) has_ver
      ∙ learn_caps_lem w1 d caps ver (seen-Coherent r e w d msg c) (seen_known r e w d d msg known)
          unique

  -- After a message with capabilities and a version of a device that was not reset, the table has these
  -- capabilities, whether the cache held their hash or not: where the cached hash of every device that has
  -- a row is backed by the table, new devices have a group, and no other capabilities have the same hash.
  pub on_state_learns :
      (w : World r) (d : String) (msg : StateMsg) (caps : Caps) (ver : String)
      → Coherent r e w
      → is_some w.db.default_group ≡ true
      → Unique caps ver
      → (check_of r (ensure_device r w d) d (given msg.android_id)).1 ≡ false
      → msg.caps ≡ some caps
      → given msg.agent_ver ≡ some ver
      → lookup d (on_state r e w d msg).db.capabilities
        ≡ some (caps_row caps ver (caps_hash e.stringify e.sha1 caps ver))
  unfolding on_state
  on_state_learns w d msg caps ver c group unique kept has_caps has_ver =
      let w1 = ensure_device r w d in
      let reported = given msg.android_id in
      after_check_lem (check_of r w1 d reported) d msg caps ver
        (check_of-Coherent w1 d reported (ensure_device-Coherent r e w d c))
        (check_of_known w1 d reported (ensure_device_known w d group)) unique kept has_caps has_ver

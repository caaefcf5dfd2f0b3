-- ===== src/Ingest/Resets.antt =====
-- A factory reset that `checkFactoryReset` finds (apps/rc-ingest/src/ingest.service.ts), and the readiness of
-- the device afterwards (apps/rc-api/src/devices/devices.service.ts).
use mathlib.Core.Path.{subst}
use ukpc_remote_control.Prelude.{
  ℕ, ◌≡◌, ◌≢◌, refl, sym, ap, ◌∙◌, String, Bool, true, false, ◌==◌, Option, none, some, List, [],
  ◌∷◌, arith, eq_iff, eq_refl, Number, Dict, lookup, adjust, lookup-insert, lookup-adjust, on_some,
  Bool-cases, inl, inr,
}
use ukpc_remote_control.Shared.Types.{Caps, ready, degraded}
use ukpc_remote_control.Shared.Readiness.{compute_readiness}
use ukpc_remote_control.Shared.Readiness.Decision.{admits_iff}
use ukpc_remote_control.Shared.Hash.{caps_hash}
use ukpc_remote_control.Shared.Live.{StateMsg}
use ukpc_remote_control.Db.{Db, DeviceRow, CapsRow}
use ukpc_remote_control.Api.Redis.{Redis}
use ukpc_remote_control.Api.Devices.{
  JoinedRow, of_device, with_caps, joined_at, find_row, to_device_state,
}
use ukpc_remote_control.Ingest.{
  Env, World, new_device, given, is_other, android_id_of, add_device, ensure_at, ensure_device,
  reset_device, note_android, check_factory_reset, touch, store_known, store_caps, learn_caps,
  is_cached, cached,
}
use ukpc_remote_control.Ingest.Live.{seen, check_of, after_check, on_state, write_state}
use ukpc_remote_control.Ingest.Coherence.Store.{write_state-Untouched}

-- The device has a row and waits for reprovisioning.
abbrev pub IsMarked : Option DeviceRow → Type 0
IsMarked none = ⊥
IsMarked (some row) = row.needs_reprovisioning ≡ true

adjust-IsMarked :
    (d j : String) (f : DeviceRow → DeviceRow) (rows : Dict DeviceRow)
    → ((row : DeviceRow) → row.needs_reprovisioning ≡ true → (f row).needs_reprovisioning ≡ true)
    → IsMarked (lookup j rows)
    → IsMarked (lookup j (adjust d f rows))
adjust-IsMarked d j f rows keeps h =
    subst IsMarked (sym (lookup-adjust d j f rows)) (elim (Bool-cases (d == j)) [
      | inl b ↦ rw b (on_some-IsMarked (lookup j rows) h)
      | inr b ↦ rw b h
    ])
  where
    on_some-IsMarked : (o : Option DeviceRow) → IsMarked o → IsMarked (on_some f o)
    on_some-IsMarked none k = elim k [ ]
    on_some-IsMarked (some row) k = keeps row k

abbrev pub Marked : (r : Redis) → World r → String → Type 0
Marked r w d = IsMarked (lookup d w.db.devices)

module _ (r : Redis) (e : Env) where
  touch-Marked : (w : World r) (d j : String) → Marked r w j → Marked r (touch r e w d) j
  unfolding touch
  touch-Marked w d j h =
      adjust-IsMarked d j (λ row. record row { last_seen = some e.now }) w.db.devices (λ row k. k) h

  add_device-Marked :
      (w : World r) (d j : String) (group : Option ℕ)
      → lookup d w.db.devices ≡ none
      → Marked r w j
      → Marked r (add_device r w d group) j
  unfolding add_device
  add_device-Marked w d j none p h = h
  add_device-Marked w d j (some g) p h =
      subst IsMarked (sym (lookup-insert d j (new_device g) w.db.devices))
        (elim (Bool-cases (d == j)) [
          | inl b ↦
              elim (subst IsMarked (ap (λ k. lookup k w.db.devices) (sym ((eq_iff d j).0 b)) ∙ p)
                h) [ ]
          | inr b ↦ rw b h
        ])

  ensure_at-Marked :
      (w : World r) (d j : String) (o : Option DeviceRow)
      → lookup d w.db.devices ≡ o
      → Marked r w j
      → Marked r (ensure_at r w d o) j
  unfolding ensure_at
  ensure_at-Marked w d j (some row) p h = h
  ensure_at-Marked w d j none p h = add_device-Marked w d j w.db.default_group p h

  seen-Marked :
      (w : World r) (d j : String) (msg : StateMsg) → Marked r w j → Marked r (seen r e w d msg) j
  unfolding seen touch
  seen-Marked w d j msg h =
      adjust-IsMarked d j (λ row. record row { last_seen = some e.now })
        (write_state r e w d msg).db.devices (λ row k. k)
        (subst (λ t. IsMarked (lookup j t)) (sym (write_state-Untouched r e w d msg).same_devices)
          h)

  check_of-Marked :
      (w : World r) (d j : String) (reported : Option String)
      → Marked r w j
      → Marked r (check_of r w d reported).0 j
  unfolding check_of check_factory_reset note_android reset_device
  check_of-Marked w d j none h = h
  check_of-Marked w d j (some reported) h =
      elim (Bool-cases (is_other (android_id_of (lookup d w.db.devices)) reported)) [
        | inl b ↦ rw b (
            adjust-IsMarked d j
              (λ row. record row { android_id = some reported; needs_reprovisioning = true })
              w.db.devices (λ row k. refl) h)
        | inr b ↦ rw b (
            adjust-IsMarked d j (λ row. record row { android_id = some reported }) w.db.devices
              (λ row k. k) h)
      ]

  store_known-devices :
      (w : World r) (d : String) (caps : Caps) (ver hash : String) (o : Option DeviceRow)
      → (store_known r e w d caps ver hash o).db.devices ≡ w.db.devices
  unfolding store_known store_caps
  store_known-devices w d caps ver hash none = refl
  store_known-devices w d caps ver hash (some row) = refl

  learn_caps-devices :
      (w : World r) (d : String) (caps : Option Caps) (ver : Option String)
      → (learn_caps r e w d caps ver).db.devices ≡ w.db.devices
  unfolding learn_caps
  learn_caps-devices w d none ver = refl
  learn_caps-devices w d (some caps) none = refl
  learn_caps-devices w d (some caps) (some ver) =
      let hash = caps_hash e.stringify e.sha1 caps ver in
      elim (Bool-cases (is_cached r (cached r w d) hash)) [
        | inl b ↦ rw b refl
        | inr b ↦ rw b (store_known-devices w d caps ver hash (lookup d w.db.devices))
      ]

  after_check-Marked :
      (checked : World r × Bool) (d j : String) (msg : StateMsg)
      → Marked r checked.0 j
      → Marked r (after_check r e checked d msg) j
  unfolding after_check
  after_check-Marked (w, true) d j msg h = seen-Marked w d j msg h
  after_check-Marked (w, false) d j msg h =
      subst (λ t. IsMarked (lookup j t))
        (sym (learn_caps-devices (seen r e w d msg) d msg.caps (given msg.agent_ver)))
        (seen-Marked w d j msg h)

  on_state-Marked :
      (w : World r) (d j : String) (msg : StateMsg)
      → Marked r w j
      → Marked r (on_state r e w d msg) j
  unfolding on_state ensure_device
  on_state-Marked w d j msg h =
      after_check-Marked (check_of r (ensure_device r w d) d (given msg.android_id)) d j msg (
        check_of-Marked (ensure_device r w d) d j (given msg.android_id)
          (ensure_at-Marked w d j (lookup d w.db.devices) refl h))

-- state messages one after the other, each with the clock and the configuration of its time
unfoldable pub on_states : (r : Redis) → World r → List (Env × (String × StateMsg)) → World r
on_states r w [] = w
on_states r w ((e, (d, msg)) ∷ rest) = on_states r (on_state r e w d msg) rest

on_states-Marked :
    (r : Redis) (w : World r) (j : String) (msgs : List (Env × (String × StateMsg)))
    → Marked r w j
    → Marked r (on_states r w msgs) j
unfolding on_states
on_states-Marked r w j [] h = h
on_states-Marked r w j ((f, (d, msg)) ∷ rest) h =
    on_states-Marked r (on_state r f w d msg) j rest (on_state-Marked r f w d j msg h)

reset_device-Marked :
    (r : Redis) (w : World r) (d reported : String) (o : Option DeviceRow)
    → lookup d w.db.devices ≡ o
    → is_other (android_id_of o) reported ≡ true
    → Marked r (reset_device r w d reported) d
unfolding reset_device
reset_device-Marked r w d reported none p h = ground (arith, h)
reset_device-Marked r w d reported (some row) p h =
    let f : DeviceRow → DeviceRow =
      λ row. record row { android_id = some reported; needs_reprovisioning = true } in
    subst IsMarked (sym (lookup-adjust d d f w.db.devices)) (rw (eq_refl d, p) refl)

-- the row of the queries of a device that waits
pub Waits : Option JoinedRow → Type 0
Waits none = ⊥
Waits (some row) = row.needs_reprovisioning ≡ true

with_caps-Waits :
    (group_name : ℕ → Option String) (d : String) (row : DeviceRow) (c : Option CapsRow)
    → row.needs_reprovisioning ≡ true
    → (with_caps (of_device group_name d row) c).needs_reprovisioning ≡ true
with_caps-Waits group_name d row none h = h
with_caps-Waits group_name d row (some c) h = h

joined-Waits :
    (group_name : ℕ → Option String) (db : Db) (d : String) (o : Option DeviceRow)
    → IsMarked o
    → Waits (joined_at group_name db d o)
unfolding joined_at Waits
joined-Waits group_name db d none h = h
joined-Waits group_name db d (some row) h =
    with_caps-Waits group_name d row (lookup d db.capabilities) h

unfit :
    (number_of : String → Number) (row : JoinedRow) (hash : Dict String)
    → row.needs_reprovisioning ≡ true
    → let tier = (compute_readiness (to_device_state number_of row hash)).tier in
      (tier ≢ ready) × (tier ≢ degraded)
unfolding to_device_state
unfit number_of row hash h =
    let state = to_device_state number_of row hash in
    (
      λ t. ground (arith, h, ((admits_iff state).0 (inl t)).1.provisioned),
      λ t. ground (arith, h, ((admits_iff state).0 (inr t)).1.provisioned),
    )

-- The device has a row, and is not taken for READY or DEGRADED.
abbrev pub Barred : (String → Number) → Option JoinedRow → Dict String → Type 0
Barred number_of none hash = ⊥
Barred number_of (some row) hash =
    let tier = (compute_readiness (to_device_state number_of row hash)).tier in
    (tier ≢ ready) × (tier ≢ degraded)

Barred-Waits :
    (number_of : String → Number) (o : Option JoinedRow) (hash : Dict String)
    → Waits o
    → Barred number_of o hash
unfolding Waits
Barred-Waits number_of none hash h = h
Barred-Waits number_of (some row) hash h = unfit number_of row hash h

-- A device that reports another Android id than the stored one is not offered for sessions from then on,
-- whatever state messages follow and whatever its live state is: no state message takes the mark back.
pub reset_bars :
    (r : Redis) (w : World r) (d reported : String) (msgs : List (Env × (String × StateMsg)))
    → is_other (android_id_of (lookup d w.db.devices)) reported ≡ true
    → (group_name : ℕ → Option String) (number_of : String → Number) (hash : Dict String)
    → Barred number_of
        (find_row group_name (on_states r (check_factory_reset r w d reported).0 msgs).db d)
        hash
unfolding find_row check_factory_reset
reset_bars r w d reported msgs other group_name number_of hash =
    let reset : Marked r (reset_device r w d reported) d =
      reset_device-Marked r w d reported (lookup d w.db.devices) refl other in
    rw other (
      let after = on_states r (reset_device r w d reported) msgs in
      Barred-Waits number_of (joined_at group_name after.db d (lookup d after.db.devices)) hash (
        joined-Waits group_name after.db d (lookup d after.db.devices)
          (on_states-Marked r (reset_device r w d reported) d msgs reset)))

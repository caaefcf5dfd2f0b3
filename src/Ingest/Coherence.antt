-- ===== src/Ingest/Coherence.antt =====
-- The cache of capabilities in Redis and the table `device_capabilities`
-- (apps/rc-ingest/src/ingest.service.ts): what a cached hash says of the table, and the steps that keep
-- this true.
pub mod Patch
pub mod Store
pub mod Learning
use package.text.Mathlib.TextLemmas.{append_cancel_left}
use ukpc_remote_control.Prelude.{
  ℕ, ◌≡◌, ◌≢◌, refl, sym, ap, ◌∙◌, String, Bool, true, false, not, ◌&&◌, ◌||◌, ◌==◌, ◌+s◌, Option,
  none, some, List, [], ◌∷◌, ◌++◌, arith, eq_iff, eq_refl, Dict, lookup, insert, adjust,
  lookup-insert, lookup-adjust, or_else, on_some, inl, inr, ◌⊎◌, Bool-cases, is_some, if◌then◌else◌,
}
use ukpc_remote_control.Shared.Types.{Caps}
use ukpc_remote_control.Shared.Keys
use ukpc_remote_control.Shared.Hash.{caps_hash}
use ukpc_remote_control.Db.{Db, DeviceRow, CapsRow}
use ukpc_remote_control.Api.Redis.{Redis}
use ukpc_remote_control.Ingest.{
  Env, World, cached, caps_row, reset_caps, new_device, ensure_device, ensure_at, add_device,
  reset_device, note_android, check_factory_reset, touch, android_id_of, is_other,
}

-- Distinct devices have distinct caches.
pub device_caps-injective : (d j : String) → Keys.device_caps d ≡ Keys.device_caps j → d ≡ j
device_caps-injective d j e = append_cancel_left "device:caps:" d j e

module _ (r : Redis) (e : Env) where
  -- The hash `h` of device `d` is that of the capabilities in the table.
  pub record Backed (db : Db) (d h : String) : Type 0 where
    pub caps : Caps
    pub ver : String
    pub row : lookup d db.capabilities ≡ some (caps_row caps ver h)
    pub hashed : caps_hash e.stringify e.sha1 caps ver ≡ h

  abbrev pub Known : Db → String → Type 0
  Known db d = is_some (lookup d db.devices) ≡ true

  -- Every hash in the cache of a device that has a row is backed by the table: a cache may be left of a
  -- device whose row was deleted.
  abbrev pub Coherent : World r → Type 0
  Coherent w = (d h : String) → Known w.db d → cached r w d ≡ some h → Backed w.db d h

  -- A change of the store that brings no hash into the cache.
  abbrev pub Quiet : r.Store → r.Store → Type 0
  Quiet s t =
      (d h : String)
      → lookup "capsHash" (r.hgetall t (Keys.device_caps d)) ≡ some h
      → lookup "capsHash" (r.hgetall s (Keys.device_caps d)) ≡ some h

  -- A change of the tables that keeps what is behind a hash.
  pub Backed-Keeps :
      (a b : Db) (d h : String)
      → lookup d b.capabilities ≡ lookup d a.capabilities
      → Backed a d h
      → Backed b d h
  Backed-Keeps a b d h k p = record {
    caps = p.caps;
    ver = p.ver;
    row = k ∙ p.row;
    hashed = p.hashed;
  }

  pub Coherent-Quiet :
      (w : World r) (s : r.Store) → Quiet w.store s → Coherent w → Coherent (record w { store = s })
  Coherent-Quiet w s q c d h known k = c d h known (q d h k)

  -- an UPDATE of a row of `devices`
  pub is_some-adjust :
      (d j : String) (f : DeviceRow → DeviceRow) (rows : Dict DeviceRow)
      → is_some (lookup j (adjust d f rows)) ≡ is_some (lookup j rows)
  is_some-adjust d j f rows = ground (arith, lookup-adjust d j f rows)

  pub touch-Coherent : (w : World r) (d : String) → Coherent w → Coherent (touch r e w d)
  unfolding touch
  touch-Coherent w d c j h known k =
      let same = is_some-adjust d j (λ row. record row { last_seen = some e.now }) w.db.devices in
      Backed-Keeps w.db (touch r e w d).db j h refl (c j h (sym same ∙ known) k)

  pub note_android-Coherent :
      (w : World r) (d reported : String) → Coherent w → Coherent (note_android r w d reported)
  unfolding note_android
  note_android-Coherent w d reported c j h known k =
      let same =
        is_some-adjust d j (λ row. record row { android_id = some reported }) w.db.devices in
      Backed-Keeps w.db (note_android r w d reported).db j h refl (c j h (sym same ∙ known) k)

  dropped_same :
      (s : r.Store) (d j h : String)
      → (Keys.device_caps d == Keys.device_caps j) ≡ true
      → lookup "capsHash" (r.hgetall (r.del s (Keys.device_caps d)) (Keys.device_caps j)) ≡ some h
      → (lookup "capsHash" (r.hgetall s (Keys.device_caps j)) ≡ some h) × ((d == j) ≡ false)
  unfolding lookup
  dropped_same s d j h b k =
      let e = r.hgetall-del s (Keys.device_caps d) (Keys.device_caps j) in ground (arith, e, b, k)

  dropped_other :
      (s : r.Store) (d j h : String)
      → (Keys.device_caps d == Keys.device_caps j) ≡ false
      → lookup "capsHash" (r.hgetall (r.del s (Keys.device_caps d)) (Keys.device_caps j)) ≡ some h
      → (lookup "capsHash" (r.hgetall s (Keys.device_caps j)) ≡ some h) × ((d == j) ≡ false)
  dropped_other s d j h b k =
      let e = r.hgetall-del s (Keys.device_caps d) (Keys.device_caps j) in
      (
        sym (ap (lookup "capsHash") (e ∙ rw b)) ∙ k,
        ground (arith, b, eq_refl (Keys.device_caps d), eq_iff d j),
      )

  -- After `DEL` of the cache of `d`, a device that has a hash is another one and had it before.
  pub dropped :
      (s : r.Store) (d j h : String)
      → lookup "capsHash" (r.hgetall (r.del s (Keys.device_caps d)) (Keys.device_caps j)) ≡ some h
      → (lookup "capsHash" (r.hgetall s (Keys.device_caps j)) ≡ some h) × ((d == j) ≡ false)
  dropped s d j h k = elim (Bool-cases (Keys.device_caps d == Keys.device_caps j)) [
    | inl b ↦ dropped_same s d j h b k
    | inr b ↦ dropped_other s d j h b k
  ]

  pub reset_device-Coherent :
      (w : World r) (d reported : String) → Coherent w → Coherent (reset_device r w d reported)
  unfolding reset_device
  reset_device-Coherent w d reported c j h known k =
      let (before, other) = dropped w.store d j h k in
      let same =
        is_some-adjust d j
          (λ row. record row { android_id = some reported; needs_reprovisioning = true })
          w.db.devices in
      Backed-Keeps w.db (reset_device r w d reported).db j h
        (lookup-adjust d j reset_caps w.db.capabilities ∙ rw other)
        (c j h (sym same ∙ known) before)

  add_device-Coherent :
      (w : World r) (d : String) (group : Option ℕ) → Coherent w → Coherent (add_device r w d group)
  unfolding add_device
  add_device-Coherent w d none c j h known k = c j h known k
  add_device-Coherent w d (some g) c j h known k =
      let (before, other) = dropped w.store d j h k in
      let same = lookup-insert d j (new_device g) w.db.devices in
      Backed-Keeps w.db (add_device r w d (some g)).db j h refl
        (c j h (ground (arith, same, other, known)) before)

  ensure_at-Coherent :
      (w : World r) (d : String) (o : Option DeviceRow) → Coherent w → Coherent (ensure_at r w d o)
  unfolding ensure_at
  ensure_at-Coherent w d none c = add_device-Coherent w d w.db.default_group c
  ensure_at-Coherent w d (some row) c = c

  pub ensure_device-Coherent :
      (w : World r) (d : String) → Coherent w → Coherent (ensure_device r w d)
  unfolding ensure_device
  ensure_device-Coherent w d c = ensure_at-Coherent w d (lookup d w.db.devices) c

  pub check_factory_reset-Coherent :
      (w : World r) (d reported : String)
      → Coherent w
      → Coherent (check_factory_reset r w d reported).0
  unfolding check_factory_reset
  check_factory_reset-Coherent w d reported c =
      elim (Bool-cases (is_other (android_id_of (lookup d w.db.devices)) reported)) [
        | inl b ↦ rw b (reset_device-Coherent w d reported c)
        | inr b ↦ rw b (note_android-Coherent w d reported c)
      ]

-- ===== src/Ingest/Coherence/Store.antt =====
-- apps/rc-ingest/src/ingest.service.ts: the writes to Redis of `writeLive` and `touch`, which leave every
-- cached hash as it is.
use ukpc_remote_control.Prelude.{
  differ, ℕ, ◌≡◌, refl, sym, ap, ◌∙◌, String, Bool, true, false, not, ◌&&◌, ◌||◌, Option, none,
  some, List, arith, Number, num, Dict, lookup, is_some, ltb, inl, inr, Bool-cases, if◌then◌else◌,
}
use ukpc_remote_control.Shared.Json.{Json}
use ukpc_remote_control.Shared.Keys
use ukpc_remote_control.Shared.Ttl
use ukpc_remote_control.Shared.Live.{StateMsg, live_hash_patch, online_entry}
use ukpc_remote_control.Shared.Hw.{HwSample}
use ukpc_remote_control.Shared.Hw.Live.{Patch, hw_live_patch, volatile_has_hw}
use ukpc_remote_control.Db.{SampleRow, hb, add_unique}
use ukpc_remote_control.Api.Redis.{Redis}
use ukpc_remote_control.Ingest.{Env, World, sane_ts, touch}
use ukpc_remote_control.Ingest.Live.{
  same_sample, texts_in, write_patch, write_state, store_heartbeat_sample, add_sample, sample_of,
  is_off, seen,
}
use ukpc_remote_control.Ingest.Coherence.Patch.{IsPlain, lookup-hw_live_patch, lookup-texts_in}
use ukpc_remote_control.Ingest.Coherence.{
  Coherent, Quiet, Backed-Keeps, is_some-adjust, touch-Coherent,
}

no_hash : IsPlain "capsHash"
no_hash k = differ "h" "c" "w_" "apsHash" k "" refl

online_no_hash : (o : Option Bool) → lookup "capsHash" (online_entry o) ≡ none
unfolding lookup
online_no_hash none = refl
online_no_hash (some b) = refl

live_no_hash :
    (f : Option Json → String) (p : Number → String) (msg : StateMsg)
    → lookup "capsHash" (live_hash_patch f p msg) ≡ none
unfolding live_hash_patch lookup
live_no_hash f p msg = online_no_hash msg.online

module _ (r : Redis) (e : Env) where
  hset_Quiet :
      (s : r.Store) (k : String) (p : Dict String)
      → lookup "capsHash" p ≡ none
      → Quiet r e s (r.hset s k p)
  hset_Quiet s k p free d h there =
      let f = r.field-hset s k (Keys.device_caps d) "capsHash" p in ground (arith, f, free, there)

  hdel_Quiet : (s : r.Store) (k : String) (fs : List String) → Quiet r e s (r.hdel s k fs)
  hdel_Quiet s k fs d h there =
      let f = r.field-hdel s k (Keys.device_caps d) "capsHash" fs in ground (arith, f, there)

  expire_Quiet : (s : r.Store) (k : String) (n : ℕ) → Quiet r e s (r.expire s k n)
  expire_Quiet s k n d h there =
      sym (ap (lookup "capsHash") (r.hgetall-expire s k (Keys.device_caps d) n)) ∙ there

  set_Quiet : (s : r.Store) (k v : String) (n : ℕ) → Quiet r e s (r.set s k v n)
  unfolding lookup
  set_Quiet s k v n d h there =
      let f = r.hgetall-set s k (Keys.device_caps d) v n in ground (arith, f, there)

  write_patch_Quiet :
      (s : r.Store) (d : String) (p : Patch)
      → lookup "capsHash" p.set ≡ none
      → Quiet r e s (write_patch r e s d p)
  unfolding write_patch
  write_patch_Quiet s d p free j h there =
      let q =
        hset_Quiet s (Keys.device d) (texts_in e p.set) (lookup-texts_in e "capsHash" p.set free) j
          h in
      let a = hdel_Quiet s (Keys.device d) p.del j h in
      let b = hdel_Quiet (r.hset s (Keys.device d) (texts_in e p.set)) (Keys.device d) p.del j h in
      ground (arith, q, a, b, there)

  -- a step that brings no hash into the cache and leaves these two tables as they are
  pub record Untouched (w x : World r) : Type 0 where
    pub quiet : Quiet r e w.store x.store
    pub same_caps : x.db.capabilities ≡ w.db.capabilities
    pub same_devices : x.db.devices ≡ w.db.devices

  pub Coherent-Untouched : (w x : World r) → Untouched w x → Coherent r e w → Coherent r e x
  Coherent-Untouched w x u c j h known there =
      Backed-Keeps r e w.db x.db j h (ap (lookup j) u.same_caps)
        (c j h (sym (ap (λ t. is_some (lookup j t)) u.same_devices) ∙ known) (u.quiet j h there))

  abbrev sampled : World r → String → ℕ → HwSample → Bool → World r
  sampled w d ts sample kept =
      let row : SampleRow = record {
        device_id = d;
        source = hb;
        sample_ts = num ts;
        body = sample;
      } in
      let w1 = record w {
        db = record w.db { hw_samples = (add_unique same_sample row w.db.hw_samples).0 };
      } in
      if kept
      then record w1 { store = r.set w1.store (Keys.hw_heartbeat d) "1" e.hb_store_sec }
      else w1

  sampled-Untouched :
      (w : World r) (d : String) (ts : ℕ) (sample : HwSample) (kept : Bool)
      → Untouched w (sampled w d ts sample kept)
  sampled-Untouched w d ts sample true = record {
    quiet = set_Quiet w.store (Keys.hw_heartbeat d) "1" e.hb_store_sec;
    same_caps = refl;
    same_devices = refl;
  }
  sampled-Untouched w d ts sample false = record {
    quiet = λ j h there. there;
    same_caps = refl;
    same_devices = refl;
  }

  add_sample-Untouched :
      (w : World r) (d : String) (ts : ℕ) (o : Option HwSample)
      → Untouched w (add_sample r e w d ts o)
  unfolding add_sample
  add_sample-Untouched w d ts none = record {
    quiet = λ j h there. there;
    same_caps = refl;
    same_devices = refl;
  }
  add_sample-Untouched w d ts (some sample) = sampled-Untouched w d ts sample (ltb 0 e.hb_store_sec)

  store_heartbeat_sample-Untouched :
      (w : World r) (d : String) (msg : StateMsg) → Untouched w (store_heartbeat_sample r e w d msg)
  unfolding store_heartbeat_sample
  store_heartbeat_sample-Untouched w d msg =
      let done =
        add_sample-Untouched w d (sane_ts e msg.ts)
          (sample_of r msg (sane_ts e msg.ts) msg.volatile) in
      let idle : Untouched w w = record {
        quiet = λ j h there. there;
        same_caps = refl;
        same_devices = refl;
      } in
      elim (Bool-cases (is_off msg.online || not (volatile_has_hw msg.volatile))) [
        | inl b ↦ rw b idle
        | inr b ↦
            rw b
              (elim (Bool-cases (ltb 0 e.hb_store_sec && r.exists w.store (Keys.hw_heartbeat d))) [
                | inl t ↦ rw t idle
                | inr t ↦ rw t done
              ])
      ]

  pub write_state-Untouched :
      (w : World r) (d : String) (msg : StateMsg) → Untouched w (write_state r e w d msg)
  unfolding write_state
  write_state-Untouched w d msg =
      let live = live_hash_patch e.ts_text (λ n. e.text_of (e.print n)) msg in
      let hw = hw_live_patch e.print e.parse msg.volatile in
      let s1 = r.hset w.store (Keys.device d) live in
      let s2 = write_patch r e s1 d hw in
      let u = store_heartbeat_sample-Untouched (record w { store = s2 }) d msg in
      record {
        quiet = λ j h there.
            hset_Quiet w.store (Keys.device d) live
              (live_no_hash e.ts_text (λ n. e.text_of (e.print n)) msg) j h
              (write_patch_Quiet s1 d hw
                (lookup-hw_live_patch e.print e.parse "capsHash" no_hash msg.volatile) j h
                (u.quiet j h there));
        same_caps = u.same_caps;
        same_devices = u.same_devices;
      }

  expired-Untouched :
      (w : World r) (d : String) (msg : StateMsg)
      → Untouched w (record (write_state r e w d msg) {
        store = r.expire (write_state r e w d msg).store (Keys.device d) Ttl.device;
      })
  expired-Untouched w d msg =
      let u = write_state-Untouched w d msg in
      record {
        quiet = λ j h there.
            u.quiet j h
              (expire_Quiet (write_state r e w d msg).store (Keys.device d) Ttl.device j h there);
        same_caps = u.same_caps;
        same_devices = u.same_devices;
      }

  pub seen-Coherent :
      (w : World r) (d : String) (msg : StateMsg) → Coherent r e w → Coherent r e (seen r e w d msg)
  unfolding seen
  seen-Coherent w d msg c =
      touch-Coherent r e
        (record (write_state r e w d msg) {
          store = r.expire (write_state r e w d msg).store (Keys.device d) Ttl.device;
        })
        d (Coherent-Untouched w _ (expired-Untouched w d msg) c)

  pub seen_known :
      (w : World r) (d j : String) (msg : StateMsg)
      → is_some (lookup j w.db.devices) ≡ true
      → is_some (lookup j (seen r e w d msg).db.devices) ≡ true
  unfolding seen touch
  seen_known w d j msg known =
      let u = write_state-Untouched w d msg in
      is_some-adjust r e d j (λ row. record row { last_seen = some e.now })
        (write_state r e w d msg).db.devices
      ∙ ap (λ t. is_some (lookup j t)) u.same_devices
      ∙ known

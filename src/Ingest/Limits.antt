-- ===== src/Ingest/Limits.antt =====
-- apps/rc-ingest/src/ingest.service.ts: `allow`, the limit on what a device may have written.
use ukpc_remote_control.Prelude.{
  ℕ, zero, suc, ◌≡◌, ◌-◌, String, Bool, arith, nat_eq, leb, ltb, eq_refl, if◌then◌else◌,
}
use ukpc_remote_control.Api.Redis.{Redis}
use ukpc_remote_control.Ingest.{World}

module _ (r : Redis) where
  unfoldable pub allow : r.Store → String → ℕ → ℕ → r.Store × Bool
  allow s key max window_sec =
      let n = (r.incr s key).1 in
      let s1 = (r.incr s key).0 in
      (if nat_eq n 1 then r.expire s1 key window_sec else s1, leb n max)

  -- the same on the state of the handlers
  abbrev pub allow_in : World r → String → ℕ → ℕ → World r × Bool
  allow_in w key max window_sec =
      let (s, ok) = allow w.store key max window_sec in (record w { store = s }, ok)

  -- how many of `n` calls are allowed
  unfoldable pub granted : ℕ → r.Store → String → ℕ → ℕ → ℕ
  granted zero s key max window_sec = 0
  granted (suc n) s key max window_sec =
      let rest = granted n (allow s key max window_sec).0 key max window_sec in
      if (allow s key max window_sec).1 then suc rest else rest

  count-allow :
      (s : r.Store) (key : String) (max window_sec : ℕ)
      → r.count (allow s key max window_sec).0 key ≡ suc (r.count s key)
  unfolding allow
  count-allow s key max window_sec =
      let c = r.count-incr s key key in
      let x = r.count-expire (r.incr s key).0 key key window_sec in
      ground (arith, c, x, eq_refl key)

  -- A call is allowed exactly if fewer than `max` came before it in the window.
  pub allow_lem :
      (s : r.Store) (key : String) (max window_sec : ℕ)
      → (allow s key max window_sec).1 ≡ ltb (r.count s key) max
  unfolding allow
  allow_lem s key max window_sec = let i = r.incr_lem s key in ground (arith, i)

  -- Of `n` calls after the first `count` ones of a window, as many are allowed as are left of `max`.
  pub granted_lem :
      (n : ℕ) (s : r.Store) (key : String) (max window_sec : ℕ)
      → granted n s key max window_sec
        ≡ (if leb n (max - r.count s key) then n else max - r.count s key)
  unfolding granted
  granted_lem zero s key max window_sec = ground arith
  granted_lem (suc n) s key max window_sec =
      let ih = granted_lem n (allow s key max window_sec).0 key max window_sec in
      let c = count-allow s key max window_sec in
      let a = allow_lem s key max window_sec in ground (arith, ih, c, a)

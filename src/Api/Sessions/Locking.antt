-- ===== src/Api/Sessions/Locking.antt =====
-- The lock of a device in apps/rc-api/src/sessions/sessions.service.ts.

use mathlib.Core.Path.{subst}
use ukpc_remote_control.Shared.Readiness.{compute_readiness}
use ukpc_remote_control.Prelude.{
  ℕ, String, Bool, true, false, not, ◌≡◌, ◌≢◌, ◌+s◌, differ, eq_iff, if◌then◌else◌, refl, sym, ap,
  ◌∙◌, inl, inr, Option, none, some, arith, Bool-cases,
}
use ukpc_remote_control.Shared.Keys
use ukpc_remote_control.Shared.Ttl
use ukpc_remote_control.Shared.Types.{Tier, ready, degraded, not_ready, offline}
use ukpc_remote_control.Api.Redis.{Redis}
use ukpc_remote_control.Api.Sessions.{
  Env, Ticket, Result, ok, err, session_failed, not_marked, dial, attempt_at, probe_key, probed,
  wake_up, reach, forbidden, World, caught, attempt, launch, fail, start, reissue_viewer,
  reissue_from,
}

probe_key-lock_key : (device : String) → ("probe:wait:" +s device) ≢ Keys.active_session device
probe_key-lock_key device same = ground (
  arith,
  differ "p" "d" "robe:wait:" "evice:activeSession:" device device refl,
  eq_iff ("probe:wait:" +s device) (Keys.active_session device),
  same,
)

module _ (r : Redis) where
  abbrev pub lock : World r → String → Option String
  lock w device = r.get w.store (Keys.active_session device)

  pub probed-lock :
      (w : World r) (device : String)
      → r.get (r.del w.store (probe_key r device)) (Keys.active_session device) ≡ lock w device
  probed-lock w device =
      r.get-del_ne w.store (probe_key r device) (Keys.active_session device)
        (probe_key-lock_key device)

  -- how a `try` block may end that began with the lock of the session
  Left : Env → String → World r × Result Ticket → Type 0
  Left e device (v, err (session_failed reason sid)) = lock v device ≡ none
  Left e device (v, err not_marked) = (e.mark_fails ≡ true) × (lock v device ≡ some e.sid)
  Left e device (v, _) = Unit

  Left-if :
      (e : Env) (device : String) (b : Bool) (x y : World r × Result Ticket)
      → (b ≡ true → Left e device x)
      → Left e device y
      → Left e device (if b then x else y)
  Left-if e device true x y h k = h refl
  Left-if e device false x y h k = k

  -- `fail` gives the lock back itself, unless it cannot mark the row.
  fail-Left :
      (e : Env) (w : World r) (device reason : String)
      → lock w device ≡ some e.sid
      → Left e device (fail r e w e.sid device reason)
  unfolding fail Left
  fail-Left e w device reason h =
      Left-if e device e.mark_fails _ _ (λ b. (b, h))
        (r.get-del w.store (Keys.active_session device))

  launch-Left :
      (e : Env) (w : World r) (device : String) (operator : ℕ)
      → Left e device (launch r e w device operator)
  unfolding launch Left
  launch-Left e w device operator =
      Left-if e device e.update_fails _ _ (λ b. tt)
        (Left-if e device e.publish_fails _ _ (λ b. tt) tt)

  wake_up-Left :
      (e : Env) (w : World r) (device : String) (operator : ℕ)
      → lock w device ≡ some e.sid
      → Left e device (wake_up r e w device operator)
  unfolding wake_up probed Left
  wake_up-Left e w device operator h =
      Left-if e device (not e.woke) _ _ (λ b. fail-Left e w device "device_unreachable" h)
        (Left-if e device (e.probe_fails 8000) _ _ (λ b. tt)
          (Left-if e device (e.probe_answers 8000) _ _
            (λ b. launch-Left e (probed r w device) device operator)
            (fail-Left e (probed r w device) device "device_unreachable"
              (probed-lock w device ∙ h))))

  reach-Left :
      (e : Env) (w : World r) (device : String) (operator : ℕ)
      → lock w device ≡ some e.sid
      → Left e device (reach r e w device operator)
  unfolding reach probed Left
  reach-Left e w device operator h =
      Left-if e device (e.probe_fails 3000) _ _ (λ b. tt)
        (Left-if e device (e.probe_answers 3000) _ _
          (λ b. launch-Left e (probed r w device) device operator)
          (wake_up-Left e (probed r w device) device operator (probed-lock w device ∙ h)))

  attempt_at-Left :
      (e : Env) (w : World r) (device entry : String) (operator : ℕ) (tier : Tier)
      → lock w device ≡ some e.sid
      → Left e device (attempt_at r e w device operator entry tier)
  unfolding attempt_at dial Left
  attempt_at-Left e w device entry operator ready h =
      Left-if e device e.insert_fails _ _ (λ b. tt) (reach-Left e _ device operator h)
  attempt_at-Left e w device entry operator degraded h =
      Left-if e device e.insert_fails _ _ (λ b. tt) (reach-Left e _ device operator h)
  attempt_at-Left e w device entry operator not_ready h = tt
  attempt_at-Left e w device entry operator offline h = tt

  -- how a start ends that is refused: the device is free, or `fail` could not mark the row, and the
  -- lock of the session stays
  abbrev pub Rejected : Env → String → World r × Result Ticket → Type 0
  Rejected e device (v, ok t) = Unit
  Rejected e device (v, err not_marked) = (e.mark_fails ≡ true) × (lock v device ≡ some e.sid)
  Rejected e device (v, err x) = lock v device ≡ none

  caught-Rejected :
      (e : Env) (device : String) (p : World r × Result Ticket)
      → Left e device p
      → Rejected e device (caught r device p)
  unfolding caught Left
  caught-Rejected e device (v, ok t) h = tt
  caught-Rejected e device (v, err (session_failed reason sid)) h = h
  caught-Rejected e device (v, err not_marked) h = h
  caught-Rejected e device (v, err x) h = r.get-del v.store (Keys.active_session device)

  abbrev pub locked : Env → World r → String → World r
  locked e w device = record w {
    store = (r.set_nx w.store (Keys.active_session device) e.sid Ttl.session).0;
  }

  pub start_free :
      (e : Env) (w : World r) (device entry : String) (operator : ℕ)
      → e.has_access ≡ true
      → lock w device ≡ none
      → start r e w device operator entry
        ≡ caught r device (attempt r e (locked e w device) device operator entry)
  unfolding start
  start_free e w device entry operator a free =
      let taken = (r.set_nx_free w.store (Keys.active_session device) e.sid Ttl.session free).0 in
      ground (arith, taken)

  pub start_denied :
      (e : Env) (w : World r) (device entry : String) (operator : ℕ)
      → e.has_access ≡ false
      → start r e w device operator entry ≡ (w, err forbidden)
  unfolding start
  start_denied e w device entry operator a = ground arith

  start_held :
      (e : Env) (w : World r) (device entry sid : String) (operator : ℕ)
      → e.has_access ≡ true
      → lock w device ≡ some sid
      → start r e w device operator entry ≡ reissue_from r e w device operator (some sid)
  unfolding start reissue_viewer
  start_held e w device entry sid operator a held =
      let taken = r.set_nx_taken w.store (Keys.active_session device) e.sid sid Ttl.session held in
      ground (arith, ap (λ p. p.0) taken, ap (λ p. p.1) taken)

  -- A start that is refused on a free device leaves the device free, whatever answers and
  -- failures of its statements `Env` has, but in one case: where the UPDATE in `fail` throws, the
  -- device stays locked by the session that was not started.
  pub failed_start_frees :
      (e : Env) (w : World r) (device entry : String) (operator : ℕ)
      → lock w device ≡ none
      → Rejected e device (start r e w device operator entry)
  unfolding attempt
  failed_start_frees e w device entry operator free = elim (Bool-cases e.has_access) [
    | inl a ↦
        let taken = (r.set_nx_free w.store (Keys.active_session device) e.sid Ttl.session free).1 in
        subst (Rejected e device) (sym (start_free e w device entry operator a free)) (
          caught-Rejected e device _ (
            attempt_at-Left e (locked e w device) device entry operator
              (compute_readiness e.device_state).tier taken))
    | inr a ↦ subst (Rejected e device) (sym (start_denied e w device entry operator a)) free
  ]

  reissue_kept :
      (e : Env) (w : World r) (device sid : String) (operator : ℕ)
      → (reissue_from r e w device operator (some sid)).0 ≡ w
  unfolding reissue_from
  reissue_kept e w device sid operator = ground arith

  -- The start of a session on a device whose lock is held changes nothing, whoever asks.
  pub held_lock_kept :
      (e : Env) (w : World r) (device entry sid : String) (operator : ℕ)
      → lock w device ≡ some sid
      → (start r e w device operator entry).0 ≡ w
  held_lock_kept e w device entry sid operator held = elim (Bool-cases e.has_access) [
    | inl a ↦
        ap (λ p. p.0) (start_held e w device entry sid operator a held)
        ∙ reissue_kept e w device sid operator
    | inr a ↦ ap (λ p. p.0) (start_denied e w device entry operator a)
  ]

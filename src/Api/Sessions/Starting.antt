-- ===== src/Api/Sessions/Starting.antt =====
-- What holds after a session was started (apps/rc-api/src/sessions/sessions.service.ts).
use Prim.Native.String.{slice}
use text.Mathlib.TextPositions.{slice-append_left}
use text.Mathlib.TextLemmas
use ukpc_remote_control.Prelude.{
  ℕ, append_assoc, Bool, List, String, true, false, ◌≡◌, ◌≢◌, ◌⊎◌, refl, sym, ap, ◌∙◌, inl, inr,
  none, some, [], ◌∷◌, ◌++◌, arith, eq_refl, ◌==◌, ◌+s◌, lookup, lookup-insert, insert, Bool-cases,
  Dict,
}
use ukpc_remote_control.Shared.Keys
use ukpc_remote_control.Shared.Ttl
use ukpc_remote_control.Shared.Types.{Tier, ready, degraded, not_ready, offline}
use ukpc_remote_control.Shared.Readiness.{compute_readiness}
use ukpc_remote_control.Api.Redis.{Redis}
use ukpc_remote_control.Api.Sessions.{
  starting, SessionRow, Env, Ticket, Result, ok, err, HttpError, session_failed, not_marked,
  forbidden, Command, probe, probed, wake_up, reach, start_command, new_row, World, caught, attempt,
  launch, dial, attempt_at, prepare, fail, start, pick_least_loaded, change_row, ticket_of,
}
use ukpc_remote_control.Api.Sessions.Locking.{lock, probed-lock, locked, start_free, start_denied}

session_key-prefix :
    (sid device : String)
    → Keys.session sid ≡ Keys.active_session device
    → ("session:" == "session:") ≡ ("device:a" == "session:")
session_key-prefix sid device e =
    ap (λ s. s == "session:")
      (sym (slice-append_left "session:" sid)
        ∙ ap (λ s. slice s 0 8) e
        ∙ ap (λ s. slice s 0 8) (TextLemmas.append_assoc "device:a" "ctiveSession:" device)
        ∙ slice-append_left "device:a" ("ctiveSession:" +s device))

-- The keys of a session and of the lock of a device never clash.
pub session_key-lock_key : (sid device : String) → Keys.session sid ≢ Keys.active_session device
session_key-lock_key sid device e = let q : true ≡ false = session_key-prefix sid device e in cc

-- the row of a session that was started
abbrev pub started_row : Env → String → ℕ → String → SessionRow
started_row e device operator entry = record (new_row device operator entry) {
  state = starting;
  relay_node = pick_least_loaded e;
}

lookup-inserted :
    (sid : String) (row : SessionRow) (rows : Dict SessionRow)
    → lookup sid (insert sid row rows) ≡ some row
lookup-inserted sid row rows =
    let same : (sid == sid) ≡ true = ground (arith, eq_refl sid) in
    lookup-insert sid sid row rows ∙ ground arith

pub lookup-change_row :
    (sid : String) (change : SessionRow → SessionRow) (rows : Dict SessionRow) (row : SessionRow)
    → lookup sid rows ≡ some row
    → lookup sid (change_row sid change rows) ≡ some (change row)
lookup-change_row sid change rows row h = rw (h, change_row) (lookup-inserted sid (change row) rows)

-- the probes that are sent until one is answered
abbrev pub probes : String → Bool → List (String × Command)
probes device true = (device, probe) ∷ []
probes device false = (device, probe) ∷ (device, probe) ∷ []

module _ (r : Redis) where
  pub record Started (e : Env) (w v : World r) (device entry : String) (operator : ℕ) (t : Ticket)
      : Type 0 where
    pub fit :
        ((compute_readiness e.device_state).tier ≡ ready)
        ⊎ ((compute_readiness e.device_state).tier ≡ degraded)
    pub held : lock r v device ≡ some e.sid
    pub named : t.session_id ≡ e.sid
    pub row : lookup e.sid v.sessions ≡ some (started_row e device operator entry)
    pub told :
        v.published
        ≡ w.published
          ++ probes device (e.probe_answers 3000)
          ++ (device, start_command e device) ∷ []

  caught_ok :
      (device : String) (p : World r × Result Ticket) (w : World r) (t : Ticket)
      → caught r device p ≡ (w, ok t)
      → p ≡ (w, ok t)
  unfolding caught
  caught_ok device (v, ok u) w t h = h
  caught_ok device (v, err (session_failed reason sid)) w t h = cc
  caught_ok device (v, err not_marked) w t h = cc
  caught_ok device (v, err y) w t h = cc

  err_not_ok :
      (w v : World r) (x : HttpError) (t : Ticket)
      → ¬ Path (World r × Result Ticket) (w, err x) (v, ok t)
  err_not_ok w v x t h = cc

  prepare-lock :
      (e : Env) (w : World r) (device : String) (operator : ℕ)
      → lock r (prepare r e w device operator) device ≡ lock r w device
  unfolding prepare
  prepare-lock e w device operator =
      r.get-expire _ (Keys.session e.sid) (Keys.active_session device) Ttl.session
      ∙ r.get-hset w.store (Keys.session e.sid) (Keys.active_session device) _
          (session_key-lock_key e.sid device)

  prepare-row :
      (e : Env) (w : World r) (device : String) (operator : ℕ) (row : SessionRow)
      → lookup e.sid w.sessions ≡ some row
      → lookup e.sid (prepare r e w device operator).sessions
        ≡ some (record row { state = starting; relay_node = pick_least_loaded e })
  unfolding prepare
  prepare-row e w device operator row h = lookup-change_row e.sid _ w.sessions row h

  launch_ok :
      (e : Env) (w v : World r) (device entry : String) (operator : ℕ) (t : Ticket)
      → launch r e w device operator ≡ (v, ok t)
      → (v ≡ record (prepare r e w device operator) {
        published = w.published ++ (device, start_command e device) ∷ [];
      })
        × (t.session_id ≡ e.sid)
  unfolding launch ticket_of prepare
  launch_ok e w v device entry operator t h = elim (Bool-cases e.update_fails) [
    | inl a ↦ ground arith
    | inr a ↦ elim (Bool-cases e.publish_fails) [ inl b ↦ ground arith | inr b ↦ ground arith ]
  ]

  abbrev inserted : Env → World r → String → ℕ → String → World r
  inserted e w device operator entry = record w {
    sessions = insert e.sid (new_row device operator entry) w.sessions;
  }

  woken_ok :
      (e : Env) (w v : World r) (device : String) (operator : ℕ) (t : Ticket)
      → wake_up r e w device operator ≡ (v, ok t)
      → launch r e (probed r w device) device operator ≡ (v, ok t)
  unfolding wake_up fail
  woken_ok e w v device operator t h = elim (Bool-cases e.woke) [
    | inr a ↦ ground arith
    | inl a ↦ elim (Bool-cases (e.probe_fails 8000)) [
      | inl b ↦ ground arith
      | inr b ↦ elim (Bool-cases (e.probe_answers 8000)) [
        | inl c ↦ ground arith
        | inr c ↦ ground arith
      ]
    ]
  ]

  -- the state that a launch may begin with
  record Ready (e : Env) (w u : World r) (device entry : String) (operator : ℕ) : Type 0 where
    kept : lock r u device ≡ lock r w device
    row : lookup e.sid u.sessions ≡ some (new_row device operator entry)
    sent : u.published ≡ w.published ++ probes device (e.probe_answers 3000)

  dial_ok :
      (e : Env) (w v : World r) (device entry : String) (operator : ℕ) (t : Ticket)
      → dial r e w device operator entry ≡ (v, ok t)
      → (u : World r) × Ready e w u device entry operator
        × (launch r e u device operator ≡ (v, ok t))
  unfolding dial reach wake_up probed fail
  dial_ok e w v device entry operator t h =
      let begun = inserted e w device operator entry in
      let once = probed r begun device in
      let row = lookup-inserted e.sid (new_row device operator entry) w.sessions in
      let still = probed-lock r begun device in
      elim (Bool-cases e.insert_fails) [
        | inl a ↦ ground arith
        | inr a ↦ elim (Bool-cases (e.probe_fails 3000)) [
          | inl b ↦ ground arith
          | inr b ↦ elim (Bool-cases (e.probe_answers 3000)) [
            | inl c ↦ (once, record { kept = still; row = row; sent = rw c refl }, ground arith)
            | inr c ↦ (
              probed r once device,
              record {
                kept = probed-lock r once device ∙ still;
                row = row;
                sent =
                    rw c (append_assoc w.published ((device, probe) ∷ []) ((device, probe) ∷ []));
              },
              woken_ok e once v device operator t (ground arith),
            )
          ]
        ]
      ]

  attempt_at_ok :
      (e : Env) (w v : World r) (device entry : String) (operator : ℕ) (t : Ticket) (tier : Tier)
      → attempt_at r e w device operator entry tier ≡ (v, ok t)
      → ((tier ≡ ready) ⊎ (tier ≡ degraded)) × (dial r e w device operator entry ≡ (v, ok t))
  unfolding attempt_at
  attempt_at_ok e w v device entry operator t ready h = (inl refl, h)
  attempt_at_ok e w v device entry operator t degraded h = (inr refl, h)
  attempt_at_ok e w v device entry operator t not_ready h = cc
  attempt_at_ok e w v device entry operator t offline h = cc

  -- A start that succeeds on a free device was on a device that is READY or DEGRADED. The device is
  -- then locked by the new session, the ticket is of this session, its row says `starting` with the
  -- operator who asked and the relay of least load, and what was sent is the probe, twice if the first was
  -- not answered, and then the command to the agent of the device.
  pub start-Started :
      (e : Env) (w v : World r) (device entry : String) (operator : ℕ) (t : Ticket)
      → lock r w device ≡ none
      → start r e w device operator entry ≡ (v, ok t)
      → Started e w v device entry operator t
  unfolding attempt
  start-Started e w v device entry operator t free h = elim (Bool-cases e.has_access) [
    | inl a ↦
        let tried : attempt r e (locked r e w device) device operator entry ≡ (v, ok t) =
          caught_ok device _ v t (sym (start_free r e w device entry operator a free) ∙ h) in
        let (fit, dialled) =
          attempt_at_ok e (locked r e w device) v device entry operator t _ tried in
        let (u, begins, launched) =
          dial_ok e (locked r e w device) v device entry operator t dialled in
        let (same, named) = launch_ok e u v device entry operator t launched in
        let taken = (r.set_nx_free w.store (Keys.active_session device) e.sid Ttl.session free).1 in
        record {
          fit = fit;
          held =
              ap (λ x. lock r x device) same
              ∙ prepare-lock e u device operator
              ∙ begins.kept
              ∙ taken;
          named = named;
          row =
              ap (λ x. lookup e.sid x.sessions) same
              ∙ prepare-row e u device operator (new_row device operator entry) begins.row;
          told =
              ap (λ x. x.published) same
              ∙ ap (λ sent. sent ++ (device, start_command e device) ∷ []) begins.sent;
        }
    | inr a ↦
        absurd (err_not_ok w v forbidden t (sym (start_denied r e w device entry operator a) ∙ h))
  ]

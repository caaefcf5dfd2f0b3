-- ===== src/Api/Sessions.antt =====
-- apps/rc-api/src/sessions/sessions.service.ts: opening and closing remote sessions.
--
-- A handler runs without interruption on the state `World`: Redis, the table `sessions` and what was
-- published over MQTT. What other parts answer (the access check, the state of the device, probes,
-- wake-ups, the list of relays) is in `Env`, and so is which of the statements fails. The wake-up
-- after an answered probe and the delay before the launch change no outcome and are left out.
pub mod Locking
pub mod Nodes
pub mod Starting
pub mod Ending
use ukpc_remote_control.Prelude.{
  ℕ, zero, suc, ◌+◌, String, Bool, true, false, not, ◌&&◌, ◌||◌, ◌==◌, ◌+s◌, Option, none, some,
  List, [], ◌∷◌, ◌++◌, map, Number, num, num_lt, infinity, nat_eq, get_or, is_some, lookup, insert,
  if◌then◌else◌, Dict,
}
use ukpc_remote_control.Shared.Types.{
  Tier, ready, degraded, not_ready, offline, Blocker, DeviceState, Readiness,
}
use ukpc_remote_control.Shared.Readiness.{compute_readiness}
use ukpc_remote_control.Shared.Keys
use ukpc_remote_control.Shared.Ttl
use ukpc_remote_control.Api.Redis.{Redis}

pub data SessionState : Type 0 where
  probing starting active closed failed : SessionState

-- a row of the table `sessions`
pub record SessionRow : Type 0 where
  pub device_id : String
  pub operator_id : ℕ
  pub relay_node : String
  pub state : SessionState
  pub entry_point : String
  pub fail_reason : Option String
  pub ended : Bool  -- `ended_at` is set

pub data Command : Type 0 where
  session_start : (session_id ws_url token : String) → Command
  session_stop : (session_id : String) → Command
  probe : Command

pub data HttpError : Type 0 where
  forbidden : HttpError
  not_found : HttpError
  device_busy : HttpError
  unprocessable : Tier → List Blocker → HttpError
  session_failed : (reason session_id : String) → HttpError
  unavailable : HttpError  -- an exception of a client
  not_marked : HttpError  -- the exception of the UPDATE in `fail`

pub record Ticket : Type 0 where
  pub session_id : String
  pub ws_url : String
  pub token : String

pub data Result {ℓ} (A : Type ℓ) : Type ℓ where
  ok : A → Result A
  err : HttpError → Result A

-- the claims of a signed token
pub data Claims : Type 0 where
  agent_claims : (sid did node jti : String) → (seconds : ℕ) → Claims
  viewer_claims : (sid did : String) → (uid : ℕ) → (node jti : String) → (seconds : ℕ) → Claims

pub record Env : Type 0 where
  pub has_access : Bool  -- `assertGroupAccess` returns
  pub sid : String  -- `randomUUID()`, three times
  pub agent_jti : String
  pub viewer_jti : String
  pub device_state : DeviceState
  pub insert_fails : Bool
  pub probe_fails : ℕ → Bool  -- the publication, by the time limit in milliseconds
  pub probe_answers : ℕ → Bool  -- by the time limit
  pub woke : Bool
  pub nodes : List (String × Number)  -- `relay:nodes` with `Number(load ?? 0)` of each
  pub update_fails : Bool
  pub publish_fails : Bool
  pub mark_fails : Bool  -- the UPDATE in `fail`
  pub relay_node : String  -- the configuration
  pub ws_scheme : String
  pub public_host : String
  pub agent_seconds : ℕ
  pub started_at : String
  pub sign : Claims → String
  pub print : ℕ → String

-- the loop of `pickLeastLoaded`
least : String → Number → List (String × Number) → String
least best load [] = best
least best load ((n, x) ∷ rest) =
    let smaller = least n x rest in
    let same = least best load rest in if num_lt x load then smaller else same

pick_from : String → List (String × Number) → String
unfolding least
pick_from default [] = default
pick_from default ((n, x) ∷ rest) = least n infinity ((n, x) ∷ rest)

unfoldable pub pick_least_loaded : Env → String
unfolding pick_from
pick_least_loaded e = pick_from e.relay_node e.nodes

abbrev pub new_row : String → ℕ → String → SessionRow
new_row device operator entry = record {
  device_id = device;
  operator_id = operator;
  relay_node = "pending";
  state = probing;
  entry_point = entry;
  fail_reason = none;
  ended = false;
}

-- an UPDATE by the id of a session
abbrev pub change_row : String → (SessionRow → SessionRow) → Dict SessionRow → Dict SessionRow
change_row sid change rows = elim (lookup sid rows) [
  | none ↦ rows
  | some row ↦ insert sid (change row) rows
]

-- the command to the agent
abbrev pub start_command : Env → String → Command
start_command e device =
    session_start e.sid (e.ws_scheme +s "://" +s e.public_host +s "/agent")
      (e.sign (agent_claims e.sid device (pick_least_loaded e) e.agent_jti e.agent_seconds))

unfoldable pub ticket_of : Env → String → String → ℕ → String → Ticket
ticket_of e sid device operator node = record {
  session_id = sid;
  ws_url = e.ws_scheme +s "://" +s e.public_host +s "/viewer";
  token = e.sign (viewer_claims sid device operator node e.viewer_jti 1800);
}

-- `SET state = 'closed', ended_at = now()`
abbrev pub mark_ended : SessionState → SessionRow → SessionRow
mark_ended closed row = row
mark_ended _ row = record row { state = closed; ended = true }

-- `WHERE state <> 'closed'`
abbrev pub end_row : SessionRow → SessionRow
end_row row = mark_ended row.state row

module _ (r : Redis) where
  pub record World : Type 0 where
    pub store : r.Store
    pub sessions : Dict SessionRow
    pub published : List (String × Command)  -- with the id of the device

  abbrev pub delete_key : World → String → World
  delete_key w k = record w { store = r.del w.store k }

  abbrev pub with_row : World → String → (SessionRow → SessionRow) → World
  with_row w sid change = record w { sessions = change_row sid change w.sessions }

  -- `fail`: the row is marked, the lock is given back, and the error is thrown
  unfoldable pub fail : Env → World → String → String → String → World × Result Ticket
  fail e w sid device reason =
      let w1 =
        with_row w sid
          (λ row. record row { state = failed; fail_reason = some reason; ended = true }) in
      if e.mark_fails
      then (w, err not_marked)
      else (delete_key w1 (Keys.active_session device), err (session_failed reason sid))

  -- the row is updated, and the relay is told of the session over Redis
  unfoldable pub prepare : Env → World → String → ℕ → World
  prepare e w device operator =
      let node = pick_least_loaded e in
      let w1 = with_row w e.sid (λ row. record row { state = starting; relay_node = node }) in
      record w1 {
        store =
            r.expire
              (r.hset w1.store (Keys.session e.sid) (
                ("deviceId", device)
                ∷ ("operatorId", e.print operator)
                ∷ ("node", node)
                ∷ ("state", "starting")
                ∷ ("startedAt", e.started_at)
                ∷ []))
              (Keys.session e.sid) Ttl.session;
      }

  -- the part of `start` from the choice of a relay on
  unfoldable pub launch : Env → World → String → ℕ → World × Result Ticket
  unfolding ticket_of prepare
  launch e w device operator =
      let w1 = prepare e w device operator in
      if e.update_fails
      then (w, err unavailable)
      else if e.publish_fails
      then (w1, err unavailable)
      else (
        record w1 { published = w1.published ++ (device, start_command e device) ∷ [] },
        ok (ticket_of e e.sid device operator (pick_least_loaded e)),
      )

  abbrev pub probe_key : String → String
  probe_key device = "probe:wait:" +s device

  -- `devices.probe`, up to the answer
  unfoldable pub probed : World → String → World
  probed w device = record w {
    store = r.del w.store (probe_key device);
    published = w.published ++ (device, probe) ∷ [];
  }

  -- the wake-up after a probe that is not answered, and the second probe
  unfoldable pub wake_up : Env → World → String → ℕ → World × Result Ticket
  unfolding fail launch probed
  wake_up e w device operator =
      if not e.woke
      then fail e w e.sid device "device_unreachable"
      else if e.probe_fails 8000
      then (delete_key w (probe_key device), err unavailable)
      else if e.probe_answers 8000
      then launch e (probed w device) device operator
      else fail e (probed w device) e.sid device "device_unreachable"

  unfoldable pub reach : Env → World → String → ℕ → World × Result Ticket
  unfolding wake_up launch probed
  reach e w device operator =
      if e.probe_fails 3000
      then (delete_key w (probe_key device), err unavailable)
      else if e.probe_answers 3000
      then launch e (probed w device) device operator
      else wake_up e (probed w device) device operator

  -- the part of the `try` block after the check of the readiness
  unfoldable pub dial : Env → World → String → ℕ → String → World × Result Ticket
  unfolding reach
  dial e w device operator entry =
      let w1 = record w { sessions = insert e.sid (new_row device operator entry) w.sessions } in
      if e.insert_fails then (w, err unavailable) else reach e w1 device operator

  -- the check of the readiness
  unfoldable pub attempt_at : Env → World → String → ℕ → String → Tier → World × Result Ticket
  attempt_at e w device operator entry ready = dial e w device operator entry
  attempt_at e w device operator entry degraded = dial e w device operator entry
  attempt_at e w device operator entry tier =
      (w, err (unprocessable tier (get_or (compute_readiness e.device_state).blockers [])))

  -- the `try` block of `start`
  unfoldable pub attempt : Env → World → String → ℕ → String → World × Result Ticket
  unfolding attempt_at
  attempt e w device operator entry =
      attempt_at e w device operator entry (compute_readiness e.device_state).tier

  -- the `catch` block: the lock is given back, and the error is thrown again. The promise of `fail` is
  -- returned without `await`, so what it throws is not caught here.
  unfoldable pub caught : String → World × Result Ticket → World × Result Ticket
  caught device (w, ok t) = (w, ok t)
  caught device (w, err (session_failed reason sid)) = (w, err (session_failed reason sid))
  caught device (w, err not_marked) = (w, err not_marked)
  caught device (w, err x) = (delete_key w (Keys.active_session device), err x)

  unfoldable pub reissue_from : Env → World → String → ℕ → Option String → World × Result Ticket
  unfolding ticket_of
  reissue_from e w device operator none = (w, err device_busy)
  reissue_from e w device operator (some sid) =
      let sess = r.hgetall w.store (Keys.session sid) in
      let node = get_or (lookup "node" sess) "" in
      if sid == "" || not (get_or (lookup "operatorId" sess) "" == e.print operator) || node == ""
      then (w, err device_busy)
      else (w, ok (ticket_of e sid device operator node))

  unfoldable pub reissue_viewer : Env → World → String → ℕ → World × Result Ticket
  unfolding reissue_from
  reissue_viewer e w device operator =
      reissue_from e w device operator (r.get w.store (Keys.active_session device))

  unfoldable pub start : Env → World → String → ℕ → String → World × Result Ticket
  unfolding caught
  start e w device operator entry =
      if not e.has_access
      then (w, err forbidden)
      else let (store, occupied) =
          r.set_nx w.store (Keys.active_session device) e.sid Ttl.session in
        let w1 = record w { store = store } in
        if occupied
        then caught device (attempt e w1 device operator entry)
        else reissue_viewer e w1 device operator

  unfoldable pub close_row : World → String → SessionRow → World × Result (Unit {0})
  close_row w sid row =
      let w1 = with_row w sid end_row in
      let w2 = delete_key (delete_key w1 (Keys.active_session row.device_id)) (Keys.session sid) in
      (record w2 { published = w2.published ++ (row.device_id, session_stop sid) ∷ [] }, ok tt)

  -- `role` is the role of the operator who asks
  unfoldable pub close_found :
      World → String → ℕ → String → Option SessionRow → World × Result (Unit {0})
  unfolding close_row
  close_found w sid operator role none = (w, err not_found)
  close_found w sid operator role (some row) =
      if nat_eq row.operator_id operator || role == "admin"
      then close_row w sid row
      else (w, err not_found)

  unfoldable pub close : World → String → ℕ → String → World × Result (Unit {0})
  unfolding close_found
  close w sid operator role = close_found w sid operator role (lookup sid w.sessions)

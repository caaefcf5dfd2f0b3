-- ===== src/Relay/Invariant/Reachable.antt =====
-- The invariant holds in every state that the events of the relay lead to.
use ukpc_remote_control.Prelude.{ℕ, String, ◌≡◌, refl, Option, none, some, List, [], ◌∷◌, lookup}
use ukpc_remote_control.Relay.{Role, agent, viewer, Relay, refuse}
use ukpc_remote_control.Relay.Events.{
  Payload, Connection, Event, connects, opens, speaks, ends, fires, ticks, on_connection, turn_away,
  Once, fresh, taken, failed, answered, claim_token, check_payload, on_role, token_id, role_of,
  on_close, step, run, start,
}
use ukpc_remote_control.Relay.Invariant.{WellFormed}
use ukpc_remote_control.Relay.Invariant.Handlers.{
  if_WellFormed, opened-WellFormed, emits-WellFormed, on_close-WellFormed, on_timer-WellFormed,
  on_message-WellFormed, admit-WellFormed, tick-WellFormed,
}

turn_away-WellFormed :
    (s : Relay) (ws : ℕ) (why : String) → WellFormed s → WellFormed (turn_away s ws why)
turn_away-WellFormed s ws why w = opened-WellFormed _ _ (emits-WellFormed s (refuse ws why ∷ []) w)

answered-WellFormed :
    (s : Relay) (now : ℕ) (c : Connection) (p : Payload) (o : Once)
    → WellFormed s
    → WellFormed (answered s now c p o)
unfolding answered
answered-WellFormed s now c p fresh w = admit-WellFormed s now c agent p w
answered-WellFormed s now c p taken w = turn_away-WellFormed s c.ws "replay" w
answered-WellFormed s now c p failed w = turn_away-WellFormed s c.ws "unauthorized" w

claim_token-WellFormed :
    (s : Relay) (now : ℕ) (c : Connection) (p : Payload) (j : Option String)
    → WellFormed s
    → WellFormed (claim_token s now c p j)
unfolding claim_token
claim_token-WellFormed s now c p none w = turn_away-WellFormed s c.ws "missing_jti" w
claim_token-WellFormed s now c p (some jti) w =
    answered-WellFormed _ now c p c.once (emits-WellFormed s _ w)

check_payload-WellFormed :
    (s : Relay) (now : ℕ) (c : Connection) (role : Role) (o : Option Payload)
    → WellFormed s
    → WellFormed (check_payload s now c role o)
unfolding check_payload
check_payload-WellFormed s now c role none w = turn_away-WellFormed s c.ws "unauthorized" w
check_payload-WellFormed s now c agent (some p) w =
    if_WellFormed _ _ _ (turn_away-WellFormed s c.ws "wrong_node" w)
      (claim_token-WellFormed s now c p (token_id p.jti) w)
check_payload-WellFormed s now c viewer (some p) w =
    if_WellFormed _ _ _ (turn_away-WellFormed s c.ws "wrong_node" w)
      (admit-WellFormed s now c viewer p w)

module _ (verify : String → Role → Option Payload) (print : ℕ → String) where
  on_role-WellFormed :
      (s : Relay) (now : ℕ) (c : Connection) (o : Option Role)
      → WellFormed s
      → WellFormed (on_role verify s now c o)
  unfolding on_role
  on_role-WellFormed s now c none w = turn_away-WellFormed s c.ws "bad_path" w
  on_role-WellFormed s now c (some role) w =
      check_payload-WellFormed s now c role (verify c.token role) w

  handled-ends :
      (s : Relay) (ws : ℕ) (o : Option (Role × ℕ))
      → s.attached ws ≡ o
      → WellFormed s
      → WellFormed (on_close s ws o)
  unfolding on_close
  handled-ends s ws none e w = w
  handled-ends s ws (some (role, r)) e w = on_close-WellFormed s ws r role (w.handled ws r role e) w

  -- Every event, at any time, keeps the invariant.
  pub step-WellFormed :
      (s : Relay) (now : ℕ) (e : Event) → WellFormed s → WellFormed (step verify print s now e)
  unfolding step on_connection
  step-WellFormed s now (connects c) w = on_role-WellFormed s now c (role_of c.pathname) w
  step-WellFormed s now (opens ws) w = opened-WellFormed s _ w
  step-WellFormed s now (speaks ws m) w = on_message-WellFormed s now (s.attached ws) m w
  step-WellFormed s now (ends ws) w =
      handled-ends _ ws (s.attached ws) refl (opened-WellFormed s _ w)
  step-WellFormed s now (fires t) w = on_timer-WellFormed s t (s.pending t) w
  step-WellFormed s now (ticks buffered) w = tick-WellFormed buffered now print s w

  run-WellFormed :
      (s : Relay) (es : List (ℕ × Event)) → WellFormed s → WellFormed (run verify print s es)
  unfolding run
  run-WellFormed s [] w = w
  run-WellFormed s ((now, e) ∷ es) w =
      run-WellFormed (step verify print s now e) es (step-WellFormed s now e w)

start-WellFormed : (node : String) → WellFormed (start node)
unfolding lookup
start-WellFormed node = record {
  named = λ id r e. cc;
  in_use = λ id r e. cc;
  remembered = λ t r e. cc;
  unwatched = λ t r e. cc;
  started = λ t r e. cc;
  numbered = λ t r e. cc;
  handled = λ ws r role e. cc;
}

-- From the start of the relay on, whatever events come in whatever order, the invariant holds.
pub run-start-WellFormed :
    (verify : String → Role → Option Payload) (print : ℕ → String) (node : String)
    (es : List (ℕ × Event))
    → WellFormed (run verify print (start node) es)
run-start-WellFormed verify print node es =
    run-WellFormed verify print (start node) es (start-WellFormed node)

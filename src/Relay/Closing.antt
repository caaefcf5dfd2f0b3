-- ===== src/Relay/Closing.antt =====
-- How sessions end in the relay (apps/rc-relay/src/relay.server.ts).
use ukpc_remote_control.Prelude.{
  ℕ, String, false, ◌≡◌, ◌≢◌, refl, Option, none, some, arith, lookup, lookup-remove, eq_iff,
  eq_refl,
}
use ukpc_remote_control.Relay.{
  Role, agent, viewer, Relay, update, close_session, on_viewer_join, opened,
}
use ukpc_remote_control.Relay.Events.{
  Payload, ends, fires, step, on_close, on_timer, viewer_gone, is_socket,
}
use ukpc_remote_control.Relay.Invariant.{
  heap-on_viewer_join, sessions-on_viewer_join, pending-on_viewer_join,
}

-- After a session is closed its name is free, both of its sockets are shut, its timer does not run,
-- and the other names lead to the sessions that they led to.
pub close_session_lem :
    (s : Relay) (r : ℕ) (reason : String)
    → let t = close_session s r reason in
      let x = s.heap r in
      (lookup x.id t.sessions ≡ none)
      × (opened t x.agent ≡ false)
      × (opened t x.viewer ≡ false)
      × ((i : ℕ) → x.viewer_gone_timer ≡ some i → t.pending i ≡ none)
      × ((id : String) → id ≢ x.id → lookup id t.sessions ≡ lookup id s.sessions)
unfolding close_session
close_session_lem s r reason = (
  ground (arith, lookup-remove (s.heap r).id (s.heap r).id s.sessions, eq_refl (s.heap r).id),
  ground arith,
  ground arith,
  (λ i e. ground arith),
  (λ id ne. ground (arith, lookup-remove (s.heap r).id id s.sessions, eq_iff (s.heap r).id id)),
)

module _ (s : Relay) (r : ℕ) where
  no_timer-returned : (w : ℕ) → (on_viewer_join (viewer_gone s r) r w).pending s.next_timer ≡ none
  unfolding viewer_gone
  no_timer-returned w = ground (arith, pending-on_viewer_join (viewer_gone s r) r w)

  viewer-returned : (w : ℕ) → ((on_viewer_join (viewer_gone s r) r w).heap r).viewer ≡ some w
  viewer-returned w = ground (arith, heap-on_viewer_join (viewer_gone s r) r w r)

  sessions-returned : (w : ℕ) → (on_viewer_join (viewer_gone s r) r w).sessions ≡ s.sessions
  unfolding viewer_gone
  sessions-returned w = sessions-on_viewer_join (viewer_gone s r) r w

  abbrev fired : Relay
  fired = record (viewer_gone s r) { pending = update (viewer_gone s r).pending s.next_timer none }

  timer-gone :
      on_timer (viewer_gone s r) s.next_timer ((viewer_gone s r).pending s.next_timer)
      ≡ close_session fired r "viewer_disconnect"
  unfolding on_timer viewer_gone
  timer-gone = ground arith

  closed-gone :
      let t = close_session fired r "viewer_disconnect" in
      (lookup (s.heap r).id t.sessions ≡ none) × (opened t (s.heap r).agent ≡ false)
  unfolding viewer_gone
  closed-gone =
      let m = close_session_lem fired r "viewer_disconnect" in
      let id : (fired.heap r).id ≡ (s.heap r).id = ground arith in
      let agent : (fired.heap r).agent ≡ (s.heap r).agent = ground arith in
      (rw id at m.0, rw agent at m.1)

module _ (verify : String → Role → Option Payload) (print : ℕ → String) (s : Relay) (r v : ℕ)
    (handler : s.attached v ≡ some (viewer, r)) (watching : (s.heap r).viewer ≡ some v) where
  abbrev shut : Relay
  shut = record s { is_open = update s.is_open v false }

  -- the state after the viewer's socket has ended
  abbrev pub left : ℕ → Relay
  left now = step verify print s now (ends v)

  ends-viewer_gone : (now : ℕ) → left now ≡ viewer_gone shut r
  unfolding step on_close
  ends-viewer_gone now = rw (handler, on_close) (rw (watching, is_socket) (ground arith))

  -- A viewer that comes back before its 1.5 seconds are over keeps the session: the timer that was
  -- set when it left no longer runs, so its time passes without effect, and the map is unchanged.
  pub viewer_returns :
      (now later w : ℕ)
      → let back = on_viewer_join (left now) r w in
        (step verify print back later (fires s.next_timer) ≡ back)
        × (back.sessions ≡ s.sessions)
        × ((back.heap r).viewer ≡ some w)
  unfolding step
  viewer_returns now later w = rw (ends-viewer_gone now) (
      rw (no_timer-returned shut r w, on_timer)
        (refl, sessions-returned shut r w, viewer-returned shut r w))

  -- A viewer that stays away ends the session when the timer fires: its name is free and the agent's
  -- socket is shut.
  pub viewer_stays_away :
      (now later : ℕ)
      → let gone = step verify print (left now) later (fires s.next_timer) in
        (lookup (s.heap r).id gone.sessions ≡ none) × (opened gone (s.heap r).agent ≡ false)
  unfolding step
  viewer_stays_away now later =
      rw (ends-viewer_gone now) (rw (timer-gone shut r) (closed-gone shut r))

agent-left :
    (s : Relay) (r ws : ℕ)
    → (s.heap r).agent ≡ some ws
    → on_close s ws (some (agent, r)) ≡ close_session s r "agent_disconnect"
unfolding on_close
agent-left s r ws e = rw (e, is_socket) (ground arith)

close_session-others :
    (s : Relay) (r q : ℕ) (reason : String) → r ≢ q → (close_session s r reason).heap q ≡ s.heap q
unfolding close_session
close_session-others s r q reason ne = ground arith

-- A close event that comes late ends the wrong session. Suppose the agent's socket of a session that
-- the map has dropped ends, and meanwhile a new session has taken the name: then the handler removes
-- the name of the new session from the map, though the new session still has its sockets.
pub late_close_drops_new_session :
    (verify : String → Role → Option Payload) (print : ℕ → String) (s : Relay) (now ws old new : ℕ)
    (id : String)
    → s.attached ws ≡ some (agent, old)
    → (s.heap old).agent ≡ some ws
    → (s.heap old).id ≡ id
    → lookup id s.sessions ≡ some new
    → old ≢ new
    → let t = step verify print s now (ends ws) in
      (lookup id t.sessions ≡ none) × (t.heap new ≡ s.heap new)
unfolding step on_close
late_close_drops_new_session verify print s now ws old new id handler mine named taken other =
    let shut = record s { is_open = update s.is_open ws false } in
    rw handler (
      rw (agent-left shut old ws mine) (
        rw named at ((close_session_lem shut old "agent_disconnect").0),
        close_session-others shut old new "agent_disconnect" other,
      ))

-- ===== src/Relay/Invariant.antt =====
-- What holds of the relay (apps/rc-relay/src/relay.server.ts) between two events.
mod Handlers
pub mod Reachable
use ukpc_remote_control.Prelude.{
  ℕ, suc, ◌<◌, String, Bool, true, false, ◌≡◌, refl, Option, none, some, List, [], ◌∷◌, arith,
  lookup, insert, remove, lookup-insert, lookup-remove, ◌==◌, eq_iff, Option-cases, Bool-cases, inl,
  inr, if◌then◌else◌,
}
use ukpc_remote_control.Relay.{
  RelaySession, Role, agent, viewer, Relay, Effect, update, put, emit, close_session, get_or_create,
  on_agent_join, on_viewer_join, on_agent_message, on_viewer_message, clear_timer, close_socket,
}
use ukpc_remote_control.Relay.Events.{
  Payload, Message, Connection, Event, connects, opens, speaks, ends, fires, ticks, step, run,
  start,
}

-- Each name in the map leads to an object with that name; a timer that runs is the one that its
-- session remembers, and that session has no viewer; handlers lead to objects in use.
pub record WellFormed (s : Relay) : Type 0 where
  pub named : (id : String) (r : ℕ) → lookup id s.sessions ≡ some r → (s.heap r).id ≡ id
  pub in_use : (id : String) (r : ℕ) → lookup id s.sessions ≡ some r → r < s.next
  pub remembered : (t r : ℕ) → s.pending t ≡ some r → (s.heap r).viewer_gone_timer ≡ some t
  pub unwatched : (t r : ℕ) → s.pending t ≡ some r → (s.heap r).viewer ≡ none
  pub started : (t r : ℕ) → s.pending t ≡ some r → r < s.next
  pub numbered : (t r : ℕ) → s.pending t ≡ some r → t < s.next_timer
  pub handled : (ws r : ℕ) (role : Role) → s.attached ws ≡ some (role, r) → r < s.next

pub on_agent_message-WellFormed :
    (s : Relay) (r : ℕ) (bytes : List ℕ) (flag : Bool) (now : ℕ)
    → WellFormed s
    → WellFormed (on_agent_message s r bytes flag now)
unfolding on_agent_message
on_agent_message-WellFormed s r bytes flag now w = record {
  named = λ id q e. ground (arith, w.named id q);
  in_use = λ id q e. ground (arith, w.in_use id q);
  remembered = λ t q e. ground (arith, w.remembered t q);
  unwatched = λ t q e. ground (arith, w.unwatched t q);
  started = λ t q e. ground (arith, w.started t q);
  numbered = λ t q e. ground (arith, w.numbered t q);
  handled = λ ws q role e. ground (arith, w.handled ws q role);
}

pub close_session-WellFormed :
    (s : Relay) (r : ℕ) (reason : String) → WellFormed s → WellFormed (close_session s r reason)
unfolding close_session
close_session-WellFormed s r reason w = record {
  named = λ id q e. ground (arith, w.named id q, lookup-remove (s.heap r).id id s.sessions);
  in_use = λ id q e. ground (arith, w.in_use id q, lookup-remove (s.heap r).id id s.sessions);
  remembered = λ t q e. ground (arith, w.remembered t q);
  unwatched = λ t q e. ground (arith, w.unwatched t q);
  started = λ t q e. ground (arith, w.started t q);
  numbered = λ t q e. ground (arith, w.numbered t q);
  handled = λ ws q role e. ground (arith, w.handled ws q role);
}

pub on_viewer_message-WellFormed :
    (s : Relay) (r : ℕ) (bytes : List ℕ) (flag : Bool) (now : ℕ)
    → WellFormed s
    → WellFormed (on_viewer_message s r bytes flag now)
unfolding on_viewer_message
on_viewer_message-WellFormed s r bytes flag now w = record {
  named = λ id q e. ground (arith, w.named id q);
  in_use = λ id q e. ground (arith, w.in_use id q);
  remembered = λ t q e. ground (arith, w.remembered t q);
  unwatched = λ t q e. ground (arith, w.unwatched t q);
  started = λ t q e. ground (arith, w.started t q);
  numbered = λ t q e. ground (arith, w.numbered t q);
  handled = λ ws q role e. ground (arith, w.handled ws q role);
}

pub on_agent_join-WellFormed :
    (s : Relay) (r ws : ℕ) (device : String)
    → r < s.next
    → WellFormed s
    → WellFormed (on_agent_join s r ws device)
unfolding on_agent_join
on_agent_join-WellFormed s r ws device used w = record {
  named = λ id q e. ground (arith, w.named id q);
  in_use = λ id q e. ground (arith, w.in_use id q);
  remembered = λ t q e. ground (arith, w.remembered t q);
  unwatched = λ t q e. ground (arith, w.unwatched t q);
  started = λ t q e. ground (arith, w.started t q);
  numbered = λ t q e. ground (arith, w.numbered t q);
  handled = λ v q role e. ground (arith, w.handled v q role);
}

-- the session after a viewer has joined
abbrev pub watched_by : ℕ → RelaySession → RelaySession
watched_by ws x = record x { viewer = some ws; viewer_gone_timer = none }

abbrev pub cancelled : Option ℕ → (ℕ → Option ℕ) → ℕ → Option ℕ
cancelled none pending = pending
cancelled (some t) pending = update pending t none

module _ (s : Relay) (r ws : ℕ) where
  pub heap-on_viewer_join :
      (q : ℕ) → (on_viewer_join s r ws).heap q ≡ update s.heap r (watched_by ws (s.heap r)) q
  unfolding on_viewer_join
  heap-on_viewer_join q = ground arith

  pub sessions-on_viewer_join : (on_viewer_join s r ws).sessions ≡ s.sessions
  unfolding on_viewer_join
  sessions-on_viewer_join = ground arith

  pub next-on_viewer_join : (on_viewer_join s r ws).next ≡ s.next
  unfolding on_viewer_join
  next-on_viewer_join = ground arith

  pub next_timer-on_viewer_join : (on_viewer_join s r ws).next_timer ≡ s.next_timer
  unfolding on_viewer_join
  next_timer-on_viewer_join = ground arith

  pub pending-on_viewer_join :
      (on_viewer_join s r ws).pending ≡ cancelled (s.heap r).viewer_gone_timer s.pending
  unfolding on_viewer_join
  pending-on_viewer_join = ground arith

  pub attached-on_viewer_join :
      (on_viewer_join s r ws).attached ≡ update s.attached ws (some (viewer, r))
  unfolding on_viewer_join
  attached-on_viewer_join = ground arith

pub on_viewer_join-WellFormed :
    (s : Relay) (r ws : ℕ) → r < s.next → WellFormed s → WellFormed (on_viewer_join s r ws)
on_viewer_join-WellFormed s r ws used w = record {
  named = λ id q e.
      ground (arith, w.named id q, heap-on_viewer_join s r ws q, sessions-on_viewer_join s r ws);
  in_use = λ id q e.
      ground (arith, w.in_use id q, next-on_viewer_join s r ws, sessions-on_viewer_join s r ws);
  remembered = λ t q e.
      ground (arith, w.remembered t q, heap-on_viewer_join s r ws q, pending-on_viewer_join s r ws);
  unwatched = λ t q e. ground (
    arith,
    w.unwatched t q,
    w.remembered t q,
    heap-on_viewer_join s r ws q,
    pending-on_viewer_join s r ws,
  );
  started = λ t q e.
      ground (arith, w.started t q, next-on_viewer_join s r ws, pending-on_viewer_join s r ws);
  numbered = λ t q e.
      ground
        (arith, w.numbered t q, next_timer-on_viewer_join s r ws, pending-on_viewer_join s r ws);
  handled = λ v q role e.
      ground
        (arith, w.handled v q role, next-on_viewer_join s r ws, attached-on_viewer_join s r ws);
}

pub get_or_create-WellFormed :
    (s : Relay) (id device : String) (operator now : ℕ)
    → WellFormed s
    → WellFormed (get_or_create s id device operator now).0
unfolding get_or_create
get_or_create-WellFormed s id device operator now w = record {
  named = λ j q e.
      ground (arith, w.named j q, w.in_use j q, lookup-insert id j s.next s.sessions, eq_iff id j);
  in_use = λ j q e. ground (arith, w.in_use j q, lookup-insert id j s.next s.sessions);
  remembered = λ t q e. ground (arith, w.remembered t q, w.started t q);
  unwatched = λ t q e. ground (arith, w.unwatched t q, w.started t q);
  started = λ t q e. ground (arith, w.started t q);
  numbered = λ t q e. ground (arith, w.numbered t q);
  handled = λ v q role e. ground (arith, w.handled v q role);
}

pub get_or_create-in_use :
    (s : Relay) (id device : String) (operator now : ℕ)
    → WellFormed s
    → (get_or_create s id device operator now).1 < (get_or_create s id device operator now).0.next
unfolding get_or_create
get_or_create-in_use s id device operator now w = elim (Option-cases (lookup id s.sessions)) [
  | inl e ↦ rw (e, get_or_create) (omega arith)
  | inr (r, e) ↦ rw (e, get_or_create) (w.in_use id r e)
]

-- ===== src/Relay/Invariant/Handlers.antt =====
-- Each handler of the relay keeps the invariant.
use ukpc_remote_control.Prelude.{
  ℕ, ◌<◌, String, Bool, true, false, ◌≡◌, refl, Option, none, some, List, [], ◌∷◌, arith,
  Option-cases, Bool-cases, inl, inr, if◌then◌else◌, get_or,
}
use ukpc_remote_control.Relay.{
  Role, agent, viewer, Relay, Effect, emits, put, update, name_device, get_or_create,
  on_agent_message, on_viewer_message,
}
use ukpc_remote_control.Relay.Events.{
  Payload, Message, Connection, admit, viewer_gone, is_socket, on_message, on_close, on_timer,
  throttle, tick_session, tick_sessions, tick, agent_messages, viewer_messages,
}
use ukpc_remote_control.Relay.Invariant.{
  WellFormed, on_agent_message-WellFormed, on_viewer_message-WellFormed, on_agent_join-WellFormed,
  on_viewer_join-WellFormed, get_or_create-WellFormed, get_or_create-in_use,
  close_session-WellFormed,
}

-- `t` differs from `s` in nothing that the invariant speaks of.
record Similar (s t : Relay) : Type 0 where
  sessions : t.sessions ≡ s.sessions
  next : t.next ≡ s.next
  pending : t.pending ≡ s.pending
  next_timer : t.next_timer ≡ s.next_timer
  attached : t.attached ≡ s.attached
  id : (r : ℕ) → (t.heap r).id ≡ (s.heap r).id
  viewer : (r : ℕ) → (t.heap r).viewer ≡ (s.heap r).viewer
  timer : (r : ℕ) → (t.heap r).viewer_gone_timer ≡ (s.heap r).viewer_gone_timer

Similar-WellFormed : (s t : Relay) → Similar s t → WellFormed s → WellFormed t
Similar-WellFormed s t m w = record {
  named = λ id q e. ground (arith, w.named id q, m.sessions, m.id q);
  in_use = λ id q e. ground (arith, w.in_use id q, m.sessions, m.next);
  remembered = λ i q e. ground (arith, w.remembered i q, m.pending, m.timer q);
  unwatched = λ i q e. ground (arith, w.unwatched i q, m.pending, m.viewer q);
  started = λ i q e. ground (arith, w.started i q, m.pending, m.next);
  numbered = λ i q e. ground (arith, w.numbered i q, m.pending, m.next_timer);
  handled = λ v q role e. ground (arith, w.handled v q role, m.attached, m.next);
}

pub opened-WellFormed :
    (s : Relay) (f : ℕ → Bool) → WellFormed s → WellFormed (record s { is_open = f })
opened-WellFormed s f w =
    Similar-WellFormed s (record s { is_open = f })
      (record {
        sessions = refl;
        next = refl;
        pending = refl;
        next_timer = refl;
        attached = refl;
        id = λ r. refl;
        viewer = λ r. refl;
        timer = λ r. refl;
      })
      w

pub emits-WellFormed : (s : Relay) (es : List Effect) → WellFormed s → WellFormed (emits s es)
emits-WellFormed s es w =
    Similar-WellFormed s (emits s es)
      (record {
        sessions = refl;
        next = refl;
        pending = refl;
        next_timer = refl;
        attached = refl;
        id = λ r. refl;
        viewer = λ r. refl;
        timer = λ r. refl;
      })
      w

pub name_device-WellFormed :
    (s : Relay) (r : ℕ) (d : String)
    → WellFormed s
    → WellFormed (put s r (name_device d (s.heap r)))
name_device-WellFormed s r d w =
    Similar-WellFormed s _
      (record {
        sessions = refl;
        next = refl;
        pending = refl;
        next_timer = refl;
        attached = refl;
        id = λ q. ground arith;
        viewer = λ q. ground arith;
        timer = λ q. ground arith;
      })
      w

pub agent_messages-WellFormed :
    (s : Relay) (r : ℕ) (ms : List Message) (now : ℕ)
    → WellFormed s
    → WellFormed (agent_messages s r ms now)
unfolding agent_messages
agent_messages-WellFormed s r [] now w = w
agent_messages-WellFormed s r (m ∷ ms) now w =
    agent_messages-WellFormed (on_agent_message s r m.bytes m.is_binary now) r ms now
      (on_agent_message-WellFormed s r m.bytes m.is_binary now w)

pub viewer_messages-WellFormed :
    (s : Relay) (r : ℕ) (ms : List Message) (now : ℕ)
    → WellFormed s
    → WellFormed (viewer_messages s r ms now)
unfolding viewer_messages
viewer_messages-WellFormed s r [] now w = w
viewer_messages-WellFormed s r (m ∷ ms) now w =
    viewer_messages-WellFormed (on_viewer_message s r m.bytes m.is_binary now) r ms now
      (on_viewer_message-WellFormed s r m.bytes m.is_binary now w)

-- The timer of a viewer that has gone.
pub viewer_gone-WellFormed :
    (s : Relay) (r ws : ℕ)
    → r < s.next
    → (s.heap r).viewer ≡ some ws
    → WellFormed s
    → WellFormed (viewer_gone s r)
unfolding viewer_gone
viewer_gone-WellFormed s r ws used watched w = record {
  named = λ id q e. ground (arith, w.named id q);
  in_use = λ id q e. ground (arith, w.in_use id q);
  remembered = λ t q e. ground (arith, w.remembered t q, w.unwatched t q, w.numbered t q);
  unwatched = λ t q e. ground (arith, w.unwatched t q);
  started = λ t q e. ground (arith, w.started t q);
  numbered = λ t q e. ground (arith, w.numbered t q);
  handled = λ v q role e. ground (arith, w.handled v q role);
}

pub if_WellFormed :
    (b : Bool) (s t : Relay) → WellFormed s → WellFormed t → WellFormed (if b then s else t)
if_WellFormed true s t w v = w
if_WellFormed false s t w v = v

module _ (buffered : ℕ → ℕ) (now : ℕ) where
  pub tick_session-WellFormed :
      (s : Relay) (r : ℕ) → WellFormed s → WellFormed (tick_session buffered now s r)
  unfolding tick_session
  tick_session-WellFormed s r w =
      let v : WellFormed (throttle buffered s r) = emits-WellFormed s _ w in
      if_WellFormed _ _ (throttle buffered s r) (close_session-WellFormed _ r "idle_timeout" v) v

  pub tick_sessions-WellFormed :
      (s : Relay) (xs : List (String × ℕ))
      → WellFormed s
      → WellFormed (tick_sessions buffered now s xs)
  unfolding tick_sessions
  tick_sessions-WellFormed s [] w = w
  tick_sessions-WellFormed s ((id, r) ∷ xs) w =
      tick_sessions-WellFormed (tick_session buffered now s r) xs (tick_session-WellFormed s r w)

  pub tick-WellFormed :
      (print : ℕ → String) (s : Relay) → WellFormed s → WellFormed (tick print buffered now s)
  unfolding tick
  tick-WellFormed print s w =
      tick_sessions-WellFormed _ s.sessions (emits-WellFormed _ _ (emits-WellFormed s _ w))

pub on_close-WellFormed :
    (s : Relay) (ws r : ℕ) (role : Role)
    → r < s.next
    → WellFormed s
    → WellFormed (on_close s ws (some (role, r)))
unfolding on_close
on_close-WellFormed s ws r agent used w =
    if_WellFormed _ _ s (close_session-WellFormed s r "agent_disconnect" w) w
on_close-WellFormed s ws r viewer used w = elim (Bool-cases (is_socket (s.heap r).viewer ws)) [
  | inl e ↦ rw e (elim (Option-cases (s.heap r).viewer) [
    | inl n ↦ absurd (ground arith)
    | inr (v, n) ↦ viewer_gone-WellFormed s r v used n w
  ])
  | inr e ↦ rw e w
]

pub fired-WellFormed :
    (s : Relay) (t : ℕ) → WellFormed s → WellFormed (record s { pending = update s.pending t none })
fired-WellFormed s t w = record {
  named = w.named;
  in_use = w.in_use;
  remembered = λ i q e. ground (arith, w.remembered i q);
  unwatched = λ i q e. ground (arith, w.unwatched i q);
  started = λ i q e. ground (arith, w.started i q);
  numbered = λ i q e. ground (arith, w.numbered i q);
  handled = w.handled;
}

pub on_timer-WellFormed :
    (s : Relay) (t : ℕ) (o : Option ℕ) → WellFormed s → WellFormed (on_timer s t o)
unfolding on_timer
on_timer-WellFormed s t none w = w
on_timer-WellFormed s t (some r) w =
    let v = fired-WellFormed s t w in
    if_WellFormed _ _ _ v (close_session-WellFormed _ r "viewer_disconnect" v)

pub on_message-WellFormed :
    (s : Relay) (now : ℕ) (o : Option (Role × ℕ)) (m : Message)
    → WellFormed s
    → WellFormed (on_message s now o m)
unfolding on_message
on_message-WellFormed s now none m w = w
on_message-WellFormed s now (some (agent, r)) m w =
    on_agent_message-WellFormed s r m.bytes m.is_binary now w
on_message-WellFormed s now (some (viewer, r)) m w =
    on_viewer_message-WellFormed s r m.bytes m.is_binary now w

pub admit-WellFormed :
    (s : Relay) (now : ℕ) (c : Connection) (role : Role) (p : Payload)
    → WellFormed s
    → WellFormed (admit s now c role p)
unfolding admit
admit-WellFormed s now c agent p w =
    let did = get_or p.did "" in
    let v = get_or_create-WellFormed s p.sid did (get_or p.uid 0) now w in
    let used = get_or_create-in_use s p.sid did (get_or p.uid 0) now w in
    let (s1, r) = get_or_create s p.sid did (get_or p.uid 0) now in
    agent_messages-WellFormed _ r c.early now
      (on_agent_join-WellFormed _ r c.ws did used (name_device-WellFormed s1 r did v))
admit-WellFormed s now c viewer p w =
    let did = get_or p.did "" in
    let v = get_or_create-WellFormed s p.sid did (get_or p.uid 0) now w in
    let used = get_or_create-in_use s p.sid did (get_or p.uid 0) now w in
    let (s1, r) = get_or_create s p.sid did (get_or p.uid 0) now in
    viewer_messages-WellFormed _ r c.early now
      (on_viewer_join-WellFormed _ r c.ws used (name_device-WellFormed s1 r did v))

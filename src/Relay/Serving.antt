-- ===== src/Relay/Serving.antt =====
-- What `onConnection` does for a connection that it lets in (apps/rc-relay/src/relay.server.ts).
use ukpc_remote_control.Prelude.{
  ℕ, String, ◌≡◌, ◌≢◌, refl, sym, ◌∙◌, Option, none, some, List, [], ◌∷◌, arith, lookup,
  lookup-insert, eq_refl, get_or,
}
use mathlib.Core.Path.{subst}
use ukpc_remote_control.Relay.{
  RelaySession, Role, agent, viewer, Relay, put, name_device, get_or_create, on_agent_join,
  on_viewer_join, on_agent_message, on_viewer_message,
}
use ukpc_remote_control.Relay.Events.{
  Payload, Message, Connection, admit, agent_messages, viewer_messages, on_connection, token_id,
}
use ukpc_remote_control.Relay.Joining.{IsAdmissible, claimed, record_claim, on_connection-admit}
use ukpc_remote_control.Relay.Invariant.{
  heap-on_viewer_join, sessions-on_viewer_join, attached-on_viewer_join,
}

-- the place of a role in a session
abbrev pub seat : Role → RelaySession → Option ℕ
seat agent x = x.agent
seat viewer x = x.viewer

-- The socket `ws` has the place of its role in the session of the name `sid`, which is in the map, and its
-- messages go there; it is the session of this name that was there before, if there was one, and no
-- other session is changed.
pub record Served (s t : Relay) (ws : ℕ) (role : Role) (sid : String) : Type 0 where
  pub session : ℕ
  pub named : lookup sid t.sessions ≡ some session
  pub handled : t.attached ws ≡ some (role, session)
  pub seated : seat role (t.heap session) ≡ some ws
  pub same : (r : ℕ) → lookup sid s.sessions ≡ some r → session ≡ r
  pub others : (q : ℕ) → q ≢ session → t.heap q ≡ s.heap q

-- messages change no place, no handler and no other session
record Stays (s t : Relay) (r : ℕ) : Type 0 where
  sessions : t.sessions ≡ s.sessions
  attached : t.attached ≡ s.attached
  agent : (t.heap r).agent ≡ (s.heap r).agent
  viewer : (t.heap r).viewer ≡ (s.heap r).viewer
  others : (q : ℕ) → q ≢ r → t.heap q ≡ s.heap q

Stays-trans : (s t u : Relay) (r : ℕ) → Stays s t r → Stays t u r → Stays s u r
Stays-trans s t u r h k = record {
  sessions = k.sessions ∙ h.sessions;
  attached = k.attached ∙ h.attached;
  agent = k.agent ∙ h.agent;
  viewer = k.viewer ∙ h.viewer;
  others = λ q ne. k.others q ne ∙ h.others q ne;
}

none_yet : (s : Relay) (r : ℕ) → Stays s s r
none_yet s r = record {
  sessions = refl;
  attached = refl;
  agent = refl;
  viewer = refl;
  others = λ q ne. refl;
}

on_agent_message-Stays :
    (s : Relay) (r : ℕ) (m : Message) (now : ℕ)
    → Stays s (on_agent_message s r m.bytes m.is_binary now) r
unfolding on_agent_message
on_agent_message-Stays s r m now = record {
  sessions = refl;
  attached = refl;
  agent = ground arith;
  viewer = ground arith;
  others = λ q ne. ground arith;
}

on_viewer_message-Stays :
    (s : Relay) (r : ℕ) (m : Message) (now : ℕ)
    → Stays s (on_viewer_message s r m.bytes m.is_binary now) r
unfolding on_viewer_message
on_viewer_message-Stays s r m now = record {
  sessions = refl;
  attached = refl;
  agent = ground arith;
  viewer = ground arith;
  others = λ q ne. ground arith;
}

agent_messages-Stays :
    (s : Relay) (r : ℕ) (ms : List Message) (now : ℕ) → Stays s (agent_messages s r ms now) r
unfolding agent_messages
agent_messages-Stays s r [] now = none_yet s r
agent_messages-Stays s r (m ∷ ms) now =
    let t = on_agent_message s r m.bytes m.is_binary now in
    Stays-trans s t (agent_messages t r ms now) r (on_agent_message-Stays s r m now)
      (agent_messages-Stays t r ms now)

viewer_messages-Stays :
    (s : Relay) (r : ℕ) (ms : List Message) (now : ℕ) → Stays s (viewer_messages s r ms now) r
unfolding viewer_messages
viewer_messages-Stays s r [] now = none_yet s r
viewer_messages-Stays s r (m ∷ ms) now =
    let t = on_viewer_message s r m.bytes m.is_binary now in
    Stays-trans s t (viewer_messages t r ms now) r (on_viewer_message-Stays s r m now)
      (viewer_messages-Stays t r ms now)

-- what the join of a socket does to a session that is in the map
record Joins (s t : Relay) (ws : ℕ) (role : Role) (r : ℕ) : Type 0 where
  sessions : t.sessions ≡ s.sessions
  handled : t.attached ws ≡ some (role, r)
  seated : seat role (t.heap r) ≡ some ws
  others : (q : ℕ) → q ≢ r → t.heap q ≡ s.heap q

on_agent_join-Joins :
    (s : Relay) (r ws : ℕ) (device : String) → Joins s (on_agent_join s r ws device) ws agent r
unfolding on_agent_join
on_agent_join-Joins s r ws device = record {
  sessions = ground arith;
  handled = ground arith;
  seated = ground arith;
  others = λ q ne. ground arith;
}

on_viewer_join-Joins : (s : Relay) (r ws : ℕ) → Joins s (on_viewer_join s r ws) ws viewer r
on_viewer_join-Joins s r ws = record {
  sessions = sessions-on_viewer_join s r ws;
  handled = ground (arith, attached-on_viewer_join s r ws);
  seated = ground (arith, heap-on_viewer_join s r ws r);
  others = λ q ne. ground (arith, heap-on_viewer_join s r ws q);
}

Joins-Stays :
    (s t u : Relay) (ws : ℕ) (role : Role) (r : ℕ)
    → Joins s t ws role r
    → Stays t u r
    → Joins s u ws role r
Joins-Stays s t u ws agent r h k = record {
  sessions = k.sessions ∙ h.sessions;
  handled = ground (arith, k.attached, h.handled);
  seated = k.agent ∙ h.seated;
  others = λ q ne. k.others q ne ∙ h.others q ne;
}
Joins-Stays s t u ws viewer r h k = record {
  sessions = k.sessions ∙ h.sessions;
  handled = ground (arith, k.attached, h.handled);
  seated = k.viewer ∙ h.seated;
  others = λ q ne. k.others q ne ∙ h.others q ne;
}

-- the session of a name, found or made
record Got (s t : Relay) (sid : String) (r : ℕ) : Type 0 where
  named : lookup sid t.sessions ≡ some r
  same : (q : ℕ) → lookup sid s.sessions ≡ some q → r ≡ q
  others : (q : ℕ) → q ≢ r → t.heap q ≡ s.heap q

get_or_create-Got :
    (s : Relay) (sid device : String) (operator now : ℕ)
    → let (t, r) = get_or_create s sid device operator now in Got s t sid r
unfolding get_or_create
get_or_create-Got s sid device operator now = record {
  named = ground (arith, lookup-insert sid sid s.next s.sessions, eq_refl sid);
  same = λ q e. ground (arith, e);
  others = λ q ne. ground (arith, ne);
}

name_device-others :
    (s : Relay) (r q : ℕ) (d : String)
    → q ≢ r
    → (put s r (name_device d (s.heap r))).heap q ≡ s.heap q
name_device-others s r q d ne = ground (arith, ne)

joined-Served :
    (s t1 t : Relay) (ws : ℕ) (role : Role) (sid d : String) (r : ℕ)
    → Got s t1 sid r
    → Joins (put t1 r (name_device d (t1.heap r))) t ws role r
    → Served s t ws role sid
joined-Served s t1 t ws role sid d r g j = record {
  session = r;
  named = ground (arith, j.sessions, g.named);
  handled = j.handled;
  seated = j.seated;
  same = g.same;
  others = λ q ne. j.others q ne ∙ name_device-others t1 r q d ne ∙ g.others q ne;
}

admit-Served :
    (s : Relay) (now : ℕ) (c : Connection) (role : Role) (p : Payload)
    → Served s (admit s now c role p) c.ws role p.sid
unfolding admit
admit-Served s now c agent p =
    let d = get_or p.did "" in
    let (s1, r) = get_or_create s p.sid d (get_or p.uid 0) now in
    let s2 = put s1 r (name_device d (s1.heap r)) in
    let s3 = on_agent_join s2 r c.ws d in
    joined-Served s s1 _ c.ws agent p.sid d r (get_or_create-Got s p.sid d (get_or p.uid 0) now) (
      Joins-Stays s2 s3 _ c.ws agent r (on_agent_join-Joins s2 r c.ws d)
        (agent_messages-Stays s3 r c.early now))
admit-Served s now c viewer p =
    let d = get_or p.did "" in
    let (s1, r) = get_or_create s p.sid d (get_or p.uid 0) now in
    let s2 = put s1 r (name_device d (s1.heap r)) in
    let s3 = on_viewer_join s2 r c.ws in
    joined-Served s s1 _ c.ws viewer p.sid d r (get_or_create-Got s p.sid d (get_or p.uid 0) now) (
      Joins-Stays s2 s3 _ c.ws viewer r (on_viewer_join-Joins s2 r c.ws)
        (viewer_messages-Stays s3 r c.early now))

-- recording a claim touches no session
recorded-Served :
    (s t : Relay) (ws : ℕ) (role : Role) (sid : String) (jti : Option String)
    → Served (record_claim s jti) t ws role sid
    → Served s t ws role sid
recorded-Served s t ws role sid none h = h
recorded-Served s t ws role sid (some jti) h = record {
  session = h.session;
  named = h.named;
  handled = h.handled;
  seated = h.seated;
  same = h.same;
  others = h.others;
}

claimed-Served :
    (s t : Relay) (ws : ℕ) (role : Role) (sid : String) (p : Payload)
    → Served (claimed s role p) t ws role sid
    → Served s t ws role sid
claimed-Served s t ws agent sid p h = recorded-Served s t ws agent sid (token_id p.jti) h
claimed-Served s t ws viewer sid p h = h

-- A connection that shows all that is asked gets the place of its role in the session that its token names,
-- which is the one that has the name already, if there is one; the messages of its socket go to this
-- session, and no other session is changed. The messages that came before the handlers change none of this.
pub on_connection_complete :
    (verify : String → Role → Option Payload) (s : Relay) (now : ℕ) (c : Connection) (role : Role)
    (p : Payload)
    → IsAdmissible verify s.node c role p
    → Served s (on_connection verify s now c) c.ws role p.sid
on_connection_complete verify s now c role p a = claimed-Served s _ c.ws role p.sid p (
    subst (λ t. Served (claimed s role p) t c.ws role p.sid)
      (sym (on_connection-admit verify s now c role p a))
      (admit-Served (claimed s role p) now c role p))

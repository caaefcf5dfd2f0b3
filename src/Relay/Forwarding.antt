-- ===== src/Relay/Forwarding.antt =====
-- What the relay (apps/rc-relay/src/relay.server.ts) passes between the agent and the viewer.
use ukpc_remote_control.Prelude.{
  ℕ, ◌+◌, Bool, true, ◌≡◌, ◌≢◌, refl, ◌∙◌, sym, ap, Option, none, some, List, [], ◌∷◌, ◌++◌,
  append-nil, append_assoc, arith, nat_eq, length, if◌then◌else◌,
}
use ukpc_remote_control.Relay.{
  Relay, Effect, send, delivery, clear_timer, first_byte, is_binary_frame, on_agent_message,
  on_viewer_join,
}
use ukpc_remote_control.Relay.Events.{Message, agent_messages}

-- A message of the agent is passed on unchanged to the viewer of its session if that is open, and to
-- nobody else; a frame that begins with 0x01 to 0x04 goes as binary. The session's other fields, all
-- other sessions and the map stay as they are, but for the configuration, the count of bytes and the
-- time of the last activity.
pub on_agent_message_lem :
    (s : Relay) (r : ℕ) (bytes : List ℕ) (flag : Bool) (now : ℕ)
    → let t = on_agent_message s r bytes flag now in
      let x = s.heap r in
      let binary = is_binary_frame flag bytes in
      (t.out ≡ s.out ++ delivery s x.viewer bytes binary)
      × (t.heap r ≡ record x {
        codec_config = if nat_eq (first_byte bytes) 1 then some bytes else x.codec_config;
        bytes_out = if binary then x.bytes_out + length bytes else x.bytes_out;
        last_activity = now;
      })
      × ((q : ℕ) → q ≢ r → t.heap q ≡ s.heap q)
      × (t.sessions ≡ s.sessions)
unfolding on_agent_message
on_agent_message_lem s r bytes flag now =
    (ground arith, ground arith, (λ q ne. ground arith), ground arith)

-- the bytes of the frames that count as binary
abbrev pub binary_bytes : List Message → ℕ
binary_bytes [] = 0
binary_bytes (m ∷ ms) =
    (if is_binary_frame m.is_binary m.bytes then length m.bytes else 0) + binary_bytes ms

-- the configuration after some messages: that of the last frame which begins with 0x01
abbrev pub last_config : Option (List ℕ) → List Message → Option (List ℕ)
last_config c [] = c
last_config c (m ∷ ms) = last_config (if nat_eq (first_byte m.bytes) 1 then some m.bytes else c) ms

-- what a viewer that is open receives
abbrev pub deliveries : ℕ → List Message → List Effect
deliveries ws [] = []
deliveries ws (m ∷ ms) = send ws m.bytes (is_binary_frame m.is_binary m.bytes) ∷ deliveries ws ms

on_agent_message-is_open :
    (s : Relay) (r : ℕ) (bytes : List ℕ) (flag : Bool) (now : ℕ)
    → (on_agent_message s r bytes flag now).is_open ≡ s.is_open
unfolding on_agent_message
on_agent_message-is_open s r bytes flag now = refl

record Streamed (s t : Relay) (r : ℕ) (ms : List Message) : Type 0 where
  config : (t.heap r).codec_config ≡ last_config (s.heap r).codec_config ms
  counted : (t.heap r).bytes_out ≡ (s.heap r).bytes_out + binary_bytes ms
  viewer : (t.heap r).viewer ≡ (s.heap r).viewer
  is_open : t.is_open ≡ s.is_open
  others : (q : ℕ) → q ≢ r → t.heap q ≡ s.heap q

agent_messages-Streamed :
    (s : Relay) (r : ℕ) (ms : List Message) (now : ℕ) → Streamed s (agent_messages s r ms now) r ms
unfolding agent_messages
agent_messages-Streamed s r [] now = record {
  config = refl;
  counted = omega arith;
  viewer = refl;
  is_open = refl;
  others = λ q ne. refl;
}
agent_messages-Streamed s r (m ∷ ms) now =
    let rest = agent_messages-Streamed (on_agent_message s r m.bytes m.is_binary now) r ms now in
    let once = on_agent_message_lem s r m.bytes m.is_binary now in
    record {
      config = ground (arith, rest.config, once.1);
      counted = ground (arith, rest.counted, once.1);
      viewer = ground (arith, rest.viewer, once.1);
      is_open = rest.is_open ∙ on_agent_message-is_open s r m.bytes m.is_binary now;
      others = λ q ne. rest.others q ne ∙ once.2 q ne;
    }

agent_messages-out :
    (s : Relay) (r : ℕ) (ms : List Message) (now ws : ℕ)
    → (s.heap r).viewer ≡ some ws
    → s.is_open ws ≡ true
    → (agent_messages s r ms now).out ≡ s.out ++ deliveries ws ms
unfolding agent_messages
agent_messages-out s r [] now ws v o = sym (append-nil s.out)
agent_messages-out s r (m ∷ ms) now ws v o =
    let t = on_agent_message s r m.bytes m.is_binary now in
    let once = on_agent_message_lem s r m.bytes m.is_binary now in
    let v' : (t.heap r).viewer ≡ some ws = ground (arith, once.1) in
    let o' : t.is_open ws ≡ true =
      ground (arith, on_agent_message-is_open s r m.bytes m.is_binary now) in
    let first : t.out ≡ s.out ++ send ws m.bytes (is_binary_frame m.is_binary m.bytes) ∷ [] =
      ground (arith, once.0) in
    agent_messages-out t r ms now ws v' o'
    ∙ ap (λ (l : List Effect). l ++ deliveries ws ms) first
    ∙ append_assoc s.out (send ws m.bytes (is_binary_frame m.is_binary m.bytes) ∷ [])
        (deliveries ws ms)

-- However many messages the agent sends while the viewer's socket is open, the viewer receives each
-- one, unchanged, once and in order, and nothing else is sent; the bytes of the binary frames are
-- counted, the configuration kept is that of the last frame which begins with 0x01, and no other
-- session changes.
pub agent_stream :
    (s : Relay) (r : ℕ) (ms : List Message) (now ws : ℕ)
    → (s.heap r).viewer ≡ some ws
    → s.is_open ws ≡ true
    → let t = agent_messages s r ms now in
      (t.out ≡ s.out ++ deliveries ws ms)
      × ((t.heap r).bytes_out ≡ (s.heap r).bytes_out + binary_bytes ms)
      × ((t.heap r).codec_config ≡ last_config (s.heap r).codec_config ms)
      × ((q : ℕ) → q ≢ r → t.heap q ≡ s.heap q)
agent_stream s r ms now ws v o =
    let m = agent_messages-Streamed s r ms now in
    (agent_messages-out s r ms now ws v o, m.counted, m.config, m.others)

clear_timer-out : (s : Relay) (r : ℕ) (o : Option ℕ) → (clear_timer s r o).out ≡ s.out
unfolding clear_timer
clear_timer-out s r none = refl
clear_timer-out s r (some t) = refl

regroup :
    {x : Effect} (xs ys as' bs cs : List Effect)
    → xs ≡ ys
    → as' ≡ x ∷ []
    → xs ++ as' ++ bs ++ cs ≡ ys ++ x ∷ (bs ++ cs)
regroup xs ys as' bs cs p q = rw (p, q) (simp append_assoc)

on_viewer_join-config :
    (s : Relay) (r ws : ℕ) (bytes : List ℕ)
    → (s.heap r).codec_config ≡ some bytes
    → (rest : List Effect) × ((on_viewer_join s r ws).out ≡ s.out ++ send ws bytes true ∷ rest)
unfolding on_viewer_join
on_viewer_join-config s r ws bytes e =
    (_, regroup _ _ _ _ _ (clear_timer-out s r (s.heap r).viewer_gone_timer) (ground arith))

-- A viewer that joins late can decode: whatever the agent has sent before, the first thing that the
-- relay sends on the join is the last configuration frame of the agent.
pub late_viewer_gets_config :
    (s : Relay) (r : ℕ) (ms : List Message) (now ws : ℕ) (bytes : List ℕ)
    → last_config (s.heap r).codec_config ms ≡ some bytes
    → let t = agent_messages s r ms now in
      (rest : List Effect) × ((on_viewer_join t r ws).out ≡ t.out ++ send ws bytes true ∷ rest)
late_viewer_gets_config s r ms now ws bytes e =
    on_viewer_join-config (agent_messages s r ms now) r ws bytes
      ((agent_messages-Streamed s r ms now).config ∙ e)

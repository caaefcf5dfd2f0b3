-- ===== src/Relay/Joining.antt =====
-- Who is let in by `onConnection` (apps/rc-relay/src/relay.server.ts).
use ukpc_remote_control.Prelude.{
  ℕ, String, false, ◌≡◌, refl, ◌⊎◌, inl, inr, Option, none, some, arith, Bool-cases,
}
use ukpc_remote_control.Shared.Keys
use ukpc_remote_control.Shared.Ttl
use ukpc_remote_control.Relay.{Role, agent, viewer, Relay, Effect, redis_set, emit}
use ukpc_remote_control.Relay.Events.{
  Payload, Connection, Once, fresh, taken, failed, role_of, is_wrong_node, token_id, turn_away,
  answered, claim_token, check_payload, on_role, on_connection, admit,
}

-- What a connection must show: a path that names a role, a token that is good for this role and this
-- node, and for an agent a token that was not used before.
pub record IsAdmissible (verify : String → Role → Option Payload) (node : String) (c : Connection)
    (role : Role) (p : Payload) : Type 0 where
  pub path : role_of c.pathname ≡ some role
  pub verified : verify c.token role ≡ some p
  pub here : is_wrong_node p.node node ≡ false
  pub unused : role ≡ agent → (c.once ≡ fresh) × ((jti : String) × (token_id p.jti ≡ some jti))

-- The connection was turned away: its socket is closed, and no session, handler or timer changes.
pub record IsRefused (s t : Relay) (ws : ℕ) : Type 0 where
  pub shut : t.is_open ws ≡ false
  pub sessions : t.sessions ≡ s.sessions
  pub heap : t.heap ≡ s.heap
  pub attached : t.attached ≡ s.attached
  pub pending : t.pending ≡ s.pending

turned_away : (s : Relay) (ws : ℕ) (why : String) → IsRefused s (turn_away s ws why) ws
turned_away s ws why = record {
  shut = ground arith;
  sessions = refl;
  heap = refl;
  attached = refl;
  pending = refl;
}

turned_away_after :
    (s : Relay) (e : Effect) (ws : ℕ) (why : String) → IsRefused s (turn_away (emit s e) ws why) ws
turned_away_after s e ws why = record {
  shut = ground arith;
  sessions = refl;
  heap = refl;
  attached = refl;
  pending = refl;
}

answered_fresh :
    (s : Relay) (now : ℕ) (c : Connection) (p : Payload) (o : Once)
    → o ≡ fresh
    → answered s now c p o ≡ admit s now c agent p
unfolding answered
answered_fresh s now c p o e = rw e

-- the state in which an admissible connection is served: the claim of an agent's token is recorded
abbrev pub record_claim : Relay → Option String → Relay
record_claim s none = s
record_claim s (some jti) = emit s (redis_set (Keys.token_used jti) "1" Ttl.token_used)

abbrev pub claimed : Relay → Role → Payload → Relay
claimed s viewer p = s
claimed s agent p = record_claim s (token_id p.jti)

module _ (verify : String → Role → Option Payload) (s : Relay) (now : ℕ) (c : Connection) where
  abbrev pub Outcome : Relay → Type 0
  Outcome t =
      IsRefused s t c.ws ⊎ ((role : Role) × (p : Payload) × IsAdmissible verify s.node c role p)

  module _ (p : Payload) (path : role_of c.pathname ≡ some agent)
      (good : verify c.token agent ≡ some p) (here : is_wrong_node p.node s.node ≡ false) where
    answered_cases :
        (e : Effect) (jti : String) (o : Once)
        → token_id p.jti ≡ some jti
        → c.once ≡ o
        → Outcome (answered (emit s e) now c p o)
    unfolding answered
    answered_cases e jti fresh j q = inr (
      agent,
      p,
      record { path = path; verified = good; here = here; unused = λ _. (q, (jti, j)) },
    )
    answered_cases e jti taken j q = inl (turned_away_after s e c.ws "replay")
    answered_cases e jti failed j q = inl (turned_away_after s e c.ws "unauthorized")

    claim_cases : (j : Option String) → token_id p.jti ≡ j → Outcome (claim_token s now c p j)
    unfolding claim_token
    claim_cases none j = inl (turned_away s c.ws "missing_jti")
    claim_cases (some jti) j = answered_cases _ jti c.once j refl

  payload_cases :
      (role : Role) (o : Option Payload)
      → role_of c.pathname ≡ some role
      → verify c.token role ≡ o
      → Outcome (check_payload s now c role o)
  unfolding check_payload
  payload_cases role none path good = inl (turned_away s c.ws "unauthorized")
  payload_cases agent (some p) path good = elim (Bool-cases (is_wrong_node p.node s.node)) [
    | inl e ↦ rw e (inl (turned_away s c.ws "wrong_node"))
    | inr e ↦ rw e (claim_cases p path good e (token_id p.jti) refl)
  ]
  payload_cases viewer (some p) path good = elim (Bool-cases (is_wrong_node p.node s.node)) [
    | inl e ↦ rw e (inl (turned_away s c.ws "wrong_node"))
    | inr e ↦ inr (viewer, p, record { path = path; verified = good; here = e; unused = λ h. cc })
  ]

  role_cases : (o : Option Role) → role_of c.pathname ≡ o → Outcome (on_role verify s now c o)
  unfolding on_role
  role_cases none e = inl (turned_away s c.ws "bad_path")
  role_cases (some role) e = payload_cases role (verify c.token role) e refl

  -- A connection is turned away, with no effect on any session, unless its path names a role, its
  -- token is good for this role and this node, and, for an agent, Redis had not seen the token.
  pub on_connection_sound : Outcome (on_connection verify s now c)
  unfolding on_connection
  on_connection_sound = role_cases (role_of c.pathname) refl

  -- where the branches lead for a connection that shows all this
  pub on_connection-admit :
      (role : Role) (p : Payload)
      → IsAdmissible verify s.node c role p
      → on_connection verify s now c ≡ admit (claimed s role p) now c role p
  unfolding on_connection on_role check_payload claim_token
  on_connection-admit agent p a =
      let (once, (jti, j)) = a.unused refl in
      rw (a.path, on_role)
        (rw (a.verified, check_payload)
          (rw (a.here) (rw (j, claim_token, record_claim) (answered_fresh _ now c p c.once once))))
  on_connection-admit viewer p a = rw (a.path, on_role) (rw (a.verified, check_payload) (rw a.here))

-- ===== src/Examples/Streaming.antt =====
-- Tests of apps/rc-relay/src/relay.server.ts.
use ukpc_remote_control.Prelude.{
  ℕ, ◌+◌, String, true, false, ◌≡◌, ◌≢◌, refl, Option, none, some, List, [], ◌∷◌, ◌++◌, arith,
  lookup, insert, remove,
}
use ukpc_remote_control.Relay.{
  Role, agent, viewer, Relay, Effect, send, notify, viewer_join, mark_active, redis_set, opened,
  on_viewer_join, on_agent_join, get_or_create, on_agent_message, close_session,
}
use ukpc_remote_control.Relay.Events.{
  Payload, Message, Connection, Event, connects, opens, ends, fires, ticks, fresh, taken,
  on_connection, admit, agent_messages, step, run, start, tick,
}
use ukpc_remote_control.Relay.Invariant.{WellFormed}
use ukpc_remote_control.Relay.Invariant.Reachable.{run-start-WellFormed}
use ukpc_remote_control.Relay.Forwarding.{
  agent_stream, deliveries, last_config, binary_bytes, late_viewer_gets_config,
}
use ukpc_remote_control.Relay.Joining.{IsAdmissible, Outcome, on_connection_sound}
use ukpc_remote_control.Relay.Serving.{Served, on_connection_complete}
use ukpc_remote_control.Relay.Closing.{viewer_stays_away, late_close_drops_new_session}

-- every token is good, and names session "s1" of device "TAB-1"
abbrev pass : Payload
pass = record { sid = "s1"; did = some "TAB-1"; uid = some 7; node = some "local"; jti = some "j1" }

abbrev verify : String → Role → Option Payload
verify token role = some pass

abbrev print : ℕ → String
print n = "n"

abbrev agent_dials : Connection
agent_dials = record { ws = 1; pathname = "/agent"; token = "t"; early = []; once = fresh }

abbrev viewer_dials : ℕ → Connection
viewer_dials ws = record { ws = ws; pathname = "/viewer"; token = "t"; early = []; once = fresh }

abbrev arrivals : List (ℕ × Event)
arrivals =
    (0, opens 1) ∷ (0, connects agent_dials) ∷ (5, opens 2) ∷ (5, connects (viewer_dials 2)) ∷ []

joined : Relay
joined = run verify print (start "local") arrivals

abbrev config : Message
config = record { bytes = 1 ∷ 9 ∷ []; is_binary = true }

abbrev frame : Message
frame = record { bytes = 2 ∷ 7 ∷ 7 ∷ []; is_binary = true }

relay_runs : Unit {0}
unfolding joined on_agent_join get_or_create run step on_connection admit agent_messages
    on_viewer_join on_agent_message close_session tick lookup insert remove
relay_runs = tt

joined_tests :
    ((joined.heap 0).viewer ≡ some 2)
    × (joined.is_open 2 ≡ true)
    × (lookup "s1" joined.sessions ≡ some 0)
    × (joined.out
        ≡ redis_set "token:used:j1" "1" 120 ∷ notify 1 viewer_join ∷ mark_active "s1" ∷ [])
    × (joined.attached 2 ≡ some (viewer, 0))
    × (joined.attached 1 ≡ some (agent, 0))
unfolding relay_runs
joined_tests = (refl, refl, refl, refl, refl, refl)

replay_test :
    (on_connection verify joined 9 (record agent_dials { ws = 3; once = taken })).attached 3 ≡ none
unfolding relay_runs
replay_test = refl

run-start-WellFormed_example : WellFormed (run verify print (start "local") arrivals)
run-start-WellFormed_example = run-start-WellFormed verify print "local" arrivals

agent_stream_example :
    let t = agent_messages joined 0 (config ∷ frame ∷ []) 9 in
    (t.out ≡ joined.out ++ deliveries 2 (config ∷ frame ∷ []))
    × ((t.heap 0).bytes_out ≡ (joined.heap 0).bytes_out + binary_bytes (config ∷ frame ∷ []))
    × ((t.heap 0).codec_config ≡ last_config (joined.heap 0).codec_config (config ∷ frame ∷ []))
    × ((q : ℕ) → q ≢ 0 → t.heap q ≡ joined.heap q)
agent_stream_example = agent_stream joined 0 (config ∷ frame ∷ []) 9 2 joined_tests.0 joined_tests.1

late_viewer_gets_config_example :
    let t = agent_messages joined 0 (config ∷ frame ∷ []) 9 in
    (rest : List Effect) × ((on_viewer_join t 0 4).out ≡ t.out ++ send 4 (1 ∷ 9 ∷ []) true ∷ rest)
late_viewer_gets_config_example =
    late_viewer_gets_config joined 0 (config ∷ frame ∷ []) 9 4 (1 ∷ 9 ∷ []) refl

on_connection_sound_example :
    Outcome verify joined 9 agent_dials (on_connection verify joined 9 agent_dials)
on_connection_sound_example = on_connection_sound verify joined 9 agent_dials

joined-node : joined.node ≡ "local"
unfolding relay_runs
joined-node = refl

dial-IsAdmissible : IsAdmissible verify "local" agent_dials agent pass
dial-IsAdmissible = record {
  path = refl;
  verified = refl;
  here = refl;
  unused = λ h. (refl, ("j1", refl));
}

on_connection_complete_example :
    Served (start "local") (on_connection verify (start "local") 9 agent_dials) 1 agent "s1"
on_connection_complete_example =
    on_connection_complete verify (start "local") 9 agent_dials agent pass dial-IsAdmissible

viewer_stays_away_example :
    let gone =
      step verify print (step verify print joined 9 (ends 2)) 99 (fires joined.next_timer) in
    (lookup (joined.heap 0).id gone.sessions ≡ none) × (opened gone (joined.heap 0).agent ≡ false)
viewer_stays_away_example =
    viewer_stays_away verify print joined 0 2 joined_tests.4 joined_tests.0 9 99

-- The session is closed as idle; before the agent's socket has ended, the viewer dials again.
dialled_again : Relay
dialled_again =
    run verify print joined
      ((900000, ticks (λ ws. 0)) ∷ (900001, opens 5) ∷ (900001, connects (viewer_dials 5)) ∷ [])

dialled_again_tests :
    (dialled_again.attached 1 ≡ some (agent, 0))
    × ((dialled_again.heap 0).agent ≡ some 1)
    × ((dialled_again.heap 0).id ≡ "s1")
    × (lookup "s1" dialled_again.sessions ≡ some 1)
    × (dialled_again.is_open 5 ≡ true)
unfolding relay_runs dialled_again
dialled_again_tests = (refl, refl, refl, refl, refl)

late_close_drops_new_session_example :
    let t = step verify print dialled_again 900002 (ends 1) in
    (lookup "s1" t.sessions ≡ none) × (t.heap 1 ≡ dialled_again.heap 1)
late_close_drops_new_session_example =
    late_close_drops_new_session verify print dialled_again 900002 1 0 1 "s1" dialled_again_tests.0
      dialled_again_tests.1 dialled_again_tests.2 dialled_again_tests.3 (omega arith)

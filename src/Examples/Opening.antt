-- ===== src/Examples/Opening.antt =====
-- Tests of apps/rc-api/src/sessions/sessions.service.ts.
use ukpc_remote_control.Prelude.{
  ap, ◌==◌, ℕ, String, true, false, ◌≡◌, refl, Option, none, some, [], ◌∷◌, arith, lookup, insert,
  remove, num,
}
use ukpc_remote_control.Shared.Readiness.{blockers_of, compute_readiness, warns_of}
use ukpc_remote_control.Shared.Semver.{semver_lt}
use ukpc_remote_control.Api.Sessions.{
  Env, World, Ticket, ok, err, not_marked, SessionRow, closed, new_row, start, close, close_found,
  close_row, dial, attempt, attempt_at, launch, prepare, fail, caught, reach, wake_up, probed,
  ticket_of, reissue_viewer, reissue_from, pick_least_loaded,
}
use ukpc_remote_control.Api.Sessions.Locking.{lock, Rejected, failed_start_frees, held_lock_kept}
use ukpc_remote_control.Api.Sessions.Starting.{Started, start-Started}
use ukpc_remote_control.Api.Sessions.Ending.{Ended, May, close-Ended, close_frees_lock_of_other}
use ukpc_remote_control.Examples.Devices.{tablet}
use ukpc_remote_control.Examples.Store.{store, set_once}

abbrev env : Env
env = record {
  has_access = true;
  sid = "s1";
  agent_jti = "j1";
  viewer_jti = "j2";
  device_state = tablet;
  insert_fails = false;
  probe_fails = λ ms. false;
  probe_answers = λ ms. true;
  woke = false;
  nodes = ("a", num 5) ∷ ("b", num 3) ∷ ("c", num 3) ∷ [];
  update_fails = false;
  publish_fails = false;
  mark_fails = false;
  relay_node = "local";
  ws_scheme = "wss";
  public_host = "rc.example";
  agent_seconds = 120;
  started_at = "0";
  sign = λ c. "signed";
  print = λ n. "7";
}

abbrev empty : World store
empty = record {
  store = record { texts = []; hashes = []; counts = []; lists = [] };
  sessions = [];
  published = [];
}

opening_runs : Unit {0}
unfolding start caught attempt attempt_at dial reach wake_up probed launch prepare fail ticket_of
    reissue_viewer reissue_from pick_least_loaded lookup insert remove set_once compute_readiness
    blockers_of warns_of semver_lt close close_found close_row
opening_runs = tt

opened : World store
unfolding opening_runs
opened = (start store env empty "TAB-1" 7 "fleet").0

opened_tests :
    (lookup "device:activeSession:TAB-1" opened.store.texts ≡ some "s1")
    × (pick_least_loaded env ≡ "b")
unfolding opening_runs opened
opened_tests = (refl, refl)

-- a device that does not answer
abbrev silent : Env
silent = record env { probe_answers = λ ms. false }

failed_start_frees_example :
    Rejected store silent "TAB-1" (start store silent empty "TAB-1" 7 "fleet")
unfolding opening_runs
failed_start_frees_example = failed_start_frees store silent empty "TAB-1" "fleet" 7 refl

-- the device does not answer, and the row cannot be marked: the lock stays, and the answer is the error
stuck_tests :
    let (w, x) = start store (record silent { mark_fails = true }) empty "TAB-1" 7 "fleet" in
    (x ≡ err not_marked) × (lock store w "TAB-1" ≡ some "s1")
unfolding opening_runs
stuck_tests = (refl, refl)

held_lock_kept_example : (start store env opened "TAB-1" 8 "fleet").0 ≡ opened
unfolding opening_runs opened
held_lock_kept_example = held_lock_kept store env opened "TAB-1" "fleet" "s1" 8 refl

abbrev ticket : Ticket
ticket = record { session_id = "s1"; ws_url = "wss://rc.example/viewer"; token = "signed" }

start-Started_example : Started store env empty opened "TAB-1" "fleet" 7 ticket
unfolding opening_runs opened
start-Started_example = start-Started store env empty opened "TAB-1" "fleet" 7 ticket refl refl

-- an earlier session of the device, which was closed, is in the table beside the new one
abbrev past_row : SessionRow
past_row = record (new_row "TAB-1" 7 "fleet") { state = closed; ended = true }

both : World store
both = record opened { sessions = ("s0", past_row) ∷ opened.sessions }

close-Ended_example :
    ((close store both "s0" 7 "operator").1 ≡ ok tt)
    × Ended store both (close store both "s0" 7 "operator").0 "s0" past_row
unfolding opening_runs opened both
close-Ended_example = close-Ended store both "s0" "operator" 7 past_row refl refl

operator_of : Option SessionRow → ℕ
operator_of none = 0
operator_of (some row) = row.operator_id

not_past :
    (row : SessionRow)
    → Path (Option SessionRow) (some past_row) (some row)
    → ¬ May 8 "operator" row
unfolding operator_of
not_past row p m = let q : 7 ≡ row.operator_id = ap operator_of p in ground arith

s0-s1 : Path String "s0" "s1" → ⊥
s0-s1 e = let q : true ≡ false = ap (λ s. s == "s0") e in cc

close_frees_lock_of_other_example :
    (lock store (close store both "s0" 7 "operator").0 "TAB-1" ≡ none)
    × (lookup "s1" (close store both "s0" 7 "operator").0.sessions ≡ lookup "s1" both.sessions)
unfolding opening_runs opened both
close_frees_lock_of_other_example =
    close_frees_lock_of_other store both "s0" "s1" "operator" 7 past_row refl refl s0-s1 refl

-- ===== src/Examples/Serving.antt =====
-- Tests of the services of apps/rc-api/src and of apps/rc-web/src/lib.
use ukpc_remote_control.Prelude.{
  ℕ, zero, suc, ◌≡◌, ◌≤◌, refl, ap, String, Bool, true, false, ◌&&◌, none, some, List, [], ◌∷◌,
  arith, codes, any, num, lookup, ltb, if◌then◌else◌,
}
use Prim.Native.Char.{code}
use ukpc_remote_control.Shared.Json.{Json, text, object, no_fields, field_then, field, find}
use ukpc_remote_control.Shared.Readiness.{compute_readiness}
use ukpc_remote_control.Shared.Dashboard.{DashRow, to_state}
use ukpc_remote_control.Db.{Db}
use ukpc_remote_control.Ingest.{World, new_device}
use ukpc_remote_control.Ingest.Dumps.{on_hw_dump}
use ukpc_remote_control.Ingest.Dumps.Answers.{stored}
use ukpc_remote_control.Api.Access.{
  Grants, OperatorRow, may_access, is_visible, active_operator, operator_at, has_group, overseer,
  access_agrees,
}
use ukpc_remote_control.Api.Bounds.{clamp, clamp_bounds}
use ukpc_remote_control.Api.Devices.{join_row, to_device_state}
use ukpc_remote_control.Api.Devices.Service.{Reader, Desk, may_open}
use ukpc_remote_control.Api.Hw.{waiting, dumped, ask_dump, device_error, take_dump}
use ukpc_remote_control.Api.Hw.Answered.{dump_round}
use ukpc_remote_control.Api.Fleet.{Day, dash_row, row_to_state}
use ukpc_remote_control.Api.Fleet.Service.{health, is_rollout_key, split_at_colons}
use ukpc_remote_control.Api.Fleet.Counts.{counted, health_total}
use ukpc_remote_control.Api.Fleet.Agreement.{readiness_agrees}
use ukpc_remote_control.Api.Fleet.Rollouts.{Answers, wanted}
use ukpc_remote_control.Shared.Rollout.{bucket_of}
use ukpc_remote_control.Shared.Rollout.Names.{is_valid_version, bucket_named}
use ukpc_remote_control.Api.Auth.{Verified, login_sso}
use ukpc_remote_control.Api.Auth.Signing.{Signs, login_sso-Signs}
use ukpc_remote_control.Api.Sync.{MdmDevice, sync}
use ukpc_remote_control.Api.Sync.Staleness.{sync-Marked}
use ukpc_remote_control.Web.Decode.{Event, bytes, paint_ended, paint, opened, step, run}
use ukpc_remote_control.Web.Decode.Frames.{Decodable, run-Decodable}
use ukpc_remote_control.Web.Decode.Painting.{newest, is_paint, jpeg_painted}
use ukpc_remote_control.Web.Pointer.{sent_moves, Apart, sent_moves-Apart}
use ukpc_remote_control.Examples.Ingesting.{env, first}
use ukpc_remote_control.Examples.Store.{store, set_once}

sent_moves-Apart_example : Apart 0 (sent_moves 0 (40 ∷ 50 ∷ 70 ∷ []))
sent_moves-Apart_example = sent_moves-Apart 0 (40 ∷ 50 ∷ 70 ∷ [])

-- a delta, a key frame and a delta again
abbrev frames : List Event
frames =
    bytes (3 ∷ 0 ∷ 0 ∷ 0 ∷ 0 ∷ 0 ∷ 0 ∷ 0 ∷ 0 ∷ 7 ∷ [])
    ∷ bytes (2 ∷ 0 ∷ 0 ∷ 0 ∷ 0 ∷ 0 ∷ 0 ∷ 0 ∷ 0 ∷ 7 ∷ [])
    ∷ bytes (3 ∷ 0 ∷ 0 ∷ 0 ∷ 0 ∷ 0 ∷ 0 ∷ 0 ∷ 0 ∷ 8 ∷ [])
    ∷ []

run-Decodable_example : Decodable false (run opened frames).1
run-Decodable_example = run-Decodable frames

abbrev jpeg_of : ℕ → Event
jpeg_of n = bytes (4 ∷ 0 ∷ 0 ∷ 0 ∷ 0 ∷ 0 ∷ 0 ∷ 0 ∷ 0 ∷ n ∷ [])

-- two more JPEGs come while the first is painted: the first of them is dropped
jpeg_painted_example :
    let arrived = step opened (jpeg_of 9) in
    let after = run arrived.0 (jpeg_of 7 ∷ jpeg_of 8 ∷ []) in
    (arrived.1 ≡ paint (9 ∷ []) ∷ [])
    × (any is_paint after.1 ≡ false)
    × ((step after.0 paint_ended).1 ≡ paint (8 ∷ []) ∷ [])
unfolding newest
jpeg_painted_example =
    jpeg_painted opened (0 ∷ 0 ∷ 0 ∷ 0 ∷ 0 ∷ 0 ∷ 0 ∷ 0 ∷ 9 ∷ []) (jpeg_of 7 ∷ jpeg_of 8 ∷ []) refl
      refl

clamp_bounds_example : (1 ≤ clamp (some (num 9)) 1 4 2) × (clamp (some (num 9)) 1 4 2 ≤ 4)
clamp_bounds_example = clamp_bounds (some (num 9)) 1 4 2 (omega arith) (omega arith)

abbrev anna : OperatorRow
anna = record {
  id = 7;
  username = "anna";
  display_name = none;
  password_hash = none;
  hmdm_user_id = none;
  role = "operator";
  active = true;
}

abbrev grants : Grants
grants = record { operators = anna ∷ []; group_access = (7, 1) ∷ [] }

access_agrees_example :
    may_access grants 7 (some 1) ≡ (is_visible grants 7 1 && active_operator grants 7)
access_agrees_example = access_agrees grants 7 1

abbrev day : Day
day = record {
  last_session = λ d. none;
  drops = λ d. none;
  events = λ d. none;
  number_of = λ s. num 0;
  hw_of = λ hash. none;
}

abbrev known : Db
known = record first.db { devices = ("TAB-1", new_device 1) ∷ [] }

readiness_agrees_example :
    (compute_readiness
        (row_to_state day.number_of (join_row (λ g. none) known "TAB-1" (new_device 1)) [])
      ≡ compute_readiness
          (to_device_state day.number_of (join_row (λ g. none) known "TAB-1" (new_device 1)) []))
    × (compute_readiness
          (to_state (dash_row day (join_row (λ g. none) known "TAB-1" (new_device 1)) []))
        ≡ compute_readiness
            (to_device_state day.number_of (join_row (λ g. none) known "TAB-1" (new_device 1)) []))
readiness_agrees_example = readiness_agrees day (λ g. none) known "TAB-1" (new_device 1) []

abbrev less : String → String → Bool
less a b = false

health_total_example :
    counted
      (health store less day first.store (join_row (λ g. none) known "TAB-1" (new_device 1) ∷ [])).0
    ≡ (health store less day first.store (join_row (λ g. none) known "TAB-1" (new_device 1) ∷ [])).1
health_total_example =
    health_total store less day first.store (join_row (λ g. none) known "TAB-1" (new_device 1) ∷ [])

abbrev shown_rows : List DashRow
shown_rows = dash_row day (join_row (λ g. none) known "TAB-1" (new_device 1)) [] ∷ []

-- the device reports no version
wanted_tests :
    (wanted shown_rows 0 "rollout:unknown:1.4.8" ≡ some ("TAB-1" ∷ []))
    × (wanted shown_rows 0 "rollout:unknown:1.4" ≡ none)
unfolding is_rollout_key split_at_colons is_valid_version bucket_named bucket_of dash_row lookup
wanted_tests = (refl, refl)

abbrev reader : Reader
reader = record {
  grants = grants;
  group_name = λ g. none;
  number_of = λ s. num 0;
  hw_of = λ hash. none;
  ordered = λ rows. rows;
  matches = λ q row. true;
}

abbrev desk : Desk store
desk = record { store = first.store; db = known; sessions = []; published = [] }

abbrev verified : Verified
verified = record { valid = true; user = some "bob"; serial = some "TAB-1" }

login_sso-Signs_example :
    Signs
      (anna ∷ [])
      true
      (some verified)
      "TAB-1"
      (login_sso (anna ∷ []) 8 true (some verified) "TAB-1")
login_sso-Signs_example = login_sso-Signs (anna ∷ []) 8 true (some verified) "TAB-1"

abbrev mdm_device : MdmDevice
mdm_device = record {
  number = "TAB-2";
  id = none;
  model = none;
  os_version = none;
  group_id = none;
  label = some "Till";
}

sync-Marked_example :
    lookup "TAB-1" (sync (λ g. g) known 5 (some (mdm_device ∷ [])))
    ≡ some (record (new_device 1) { stale = true })
unfolding lookup
sync-Marked_example = sync-Marked (λ g. g) known 1 5 (mdm_device ∷ []) "TAB-2" "TAB-1" refl refl

-- counts as a text: one letter for each sample, and a comma between them
abbrev ticks : ℕ → String
ticks zero = ""
ticks (suc n) = String.◌∷◌ "i" (ticks n)

abbrev print_counts : ℕ → ℕ → String
print_counts zero n = String.◌∷◌ "," (ticks n)
print_counts (suc m) n = String.◌∷◌ "i" (print_counts m n)

abbrev count_ticks : String → ℕ
count_ticks String.[] = 0
count_ticks (String.◌∷◌ c s) = suc (count_ticks s)

abbrev read_counts : String → ℕ × ℕ
read_counts String.[] = (0, 0)
read_counts (String.◌∷◌ c s) =
    let rest = read_counts s in if ltb (code c) 50 then (0, count_ticks s) else (suc rest.0, rest.1)

read_ticks : (n : ℕ) → count_ticks (ticks n) ≡ n
read_ticks zero = refl
read_ticks (suc n) = ap suc (read_ticks n)

read-print_counts : (m n : ℕ) → read_counts (print_counts m n) ≡ (m, n)
read-print_counts zero n = ap (λ k. (0, k)) (read_ticks n)
read-print_counts (suc m) n = ap (λ p. (suc p.0, p.1)) (read-print_counts m n)

abbrev dump_reply : Json
dump_reply = object (field_then "nonce" (text (codes "n1")) no_fields)

dump_asked : (ask_dump store reader desk "TAB-1" 7 none "n1").1 ≡ waiting
unfolding ask_dump device_error may_open may_access has_group active_operator operator_at overseer
    lookup set_once
dump_asked = refl

abbrev asked : Desk store
asked = (ask_dump store reader desk "TAB-1" 7 none "n1").0

abbrev there : World store
there = record { store = asked.store; db = asked.db; sent = [] }

dump_round_example :
    (take_dump store read_counts
      (on_hw_dump store print_counts env there "TAB-1" dump_reply []).store
      "n1").1
    ≡ dumped
        (stored store print_counts env there "TAB-1" dump_reply []).1.0
        (stored store print_counts env there "TAB-1" dump_reply []).1.1
unfolding field find lookup
dump_round_example =
    dump_round store print_counts read_counts read-print_counts reader desk "TAB-1" 7 none "n1" env
      dump_reply [] refl refl refl dump_asked

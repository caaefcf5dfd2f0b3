-- ===== src/Examples/Ingesting.antt =====
-- Tests of apps/rc-ingest/src/ingest.service.ts, with short texts for the functions of JavaScript.
use package.text.Mathlib.TextLemmas.{append_cancel_left}
use ukpc_remote_control.Prelude.{
  ℕ, zero, ◌≡◌, ◌≤◌, refl, sym, ap, ◌∙◌, String, true, false, ◌+s◌, Option, none, some, List, [],
  ◌∷◌, arith, eq_iff, differ, is_empty, codes, Number, num, nan, lookup, insert, Bool-cases, inl,
  inr, if◌then◌else◌,
}
use ukpc_remote_control.Shared.Types.{Caps, allow, licensed}
use ukpc_remote_control.Shared.Json.{Json, number, text, object, no_fields, field_then, field, find}
use ukpc_remote_control.Shared.Live.{StateMsg}
use ukpc_remote_control.Shared.Hash.{changes_of, caps_diff, caps_hash}
use ukpc_remote_control.Shared.Hash.Diff.{caps_diff_iff}
use ukpc_remote_control.Shared.Topics.{event, device_id_from_topic}
use ukpc_remote_control.Shared.Topics.Round.{topics_round}
use ukpc_remote_control.Db.{Db, Change, units_eq}
use ukpc_remote_control.Ingest.Resets.{on_states, Barred, reset_bars}
use ukpc_remote_control.Api.Devices.{find_row}
use ukpc_remote_control.Ingest.{
  new_device, Env, World, caps_row, ensure_device, check_factory_reset,
}
use ukpc_remote_control.Ingest.Limits
use ukpc_remote_control.Ingest.Live.{on_state, check_of}
use ukpc_remote_control.Ingest.Events.{on_event}
use ukpc_remote_control.Ingest.Events.Replay.{on_event_twice, on_event-sent}
use ukpc_remote_control.Ingest.Dumps.{on_hw_dump, store_dump, max_dump_samples}
use ukpc_remote_control.Ingest.Dumps.Once.{on_hw_dump-answers}
use ukpc_remote_control.Ingest.Dumps.Answers.{answers, stored, store_dump_bounds}
use ukpc_remote_control.Ingest.Coherence.{Coherent}
use ukpc_remote_control.Ingest.Coherence.Learning.{Unique, on_state-Coherent, on_state_learns}
use ukpc_remote_control.Examples.Store.{store}

abbrev pub full : Caps
full = record {
  project_media = allow;
  a11y = true;
  knox = licensed;
  overlay = true;
  secure_settings = true;
  encoder = none;
}

abbrev number_in : Option Json → Number
number_in (some (number x)) = x
number_in _ = nan

abbrev pub env : Env
env = record {
  now = 1000;
  hb_store_sec = 90;
  auto_dump = true;
  uuid = "u1";
  publish_fails = false;
  stringify = λ c. if is_empty (changes_of c full) then "full:" else "other:";
  sha1 = λ s. s;
  to_number = number_in;
  ts_text = λ t. "1000";
  print = λ n. [];
  parse = λ s. nan;
  text_of = λ s. if units_eq s (codes "n1") then "n1" else "";
  knox_text = λ c. "licensed";
  media_text = λ c. "allow";
  flag_text = λ b. if b then "true" else "false";
}

abbrev empty_db : Db
empty_db = record {
  default_group = some 1;
  devices = [];
  capabilities = [];
  capability_events = [];
  hw_samples = [];
  hw_events = [];
  conn_events = [];
}

abbrev pub first : World store
first = record {
  store = record { texts = []; hashes = []; counts = []; lists = [] };
  db = empty_db;
  sent = [];
}

abbrev pub hello : StateMsg
hello = record {
  online = some true;
  agent_ver = some "1.4.8";
  android_id = some "a1";
  caps = some full;
  volatile = none;
  live = record {
    screen_on = some true;
    charging = none;
    battery_pct = none;
    net = none;
    rssi = none;
  };
  ts = some (number (num 900));
}

first-Coherent : Coherent store env first
unfolding lookup
first-Coherent d h known there = cc

on_state-Coherent_example : Coherent store env (on_state store env first "TAB-1" hello)
on_state-Coherent_example = on_state-Coherent store env first "TAB-1" hello first-Coherent

no_change : (xs : List Change) → is_empty xs ≡ true → xs ≡ []
no_change [] h = refl
no_change (x ∷ xs) h = cc

full-Unique : Unique store env full "1.4.8"
unfolding caps_hash changes_of caps_diff
full-Unique a v same = elim (Bool-cases (is_empty (changes_of a full))) [
  | inl b ↦
      let same1 : "full:" +s v ≡ "full:1.4.8" =
        ap (λ t. (if t then "full:" else "other:") +s v) (sym b) ∙ same in
      (
        (caps_diff_iff a full).0 (no_change (changes_of a full) b),
        append_cancel_left "full:" v "1.4.8" same1,
      )
  | inr b ↦
      let same1 : "other:" +s v ≡ "full:" +s "1.4.8" =
        ap (λ t. (if t then "full:" else "other:") +s v) (sym b) ∙ same in
      ground (
        arith,
        differ "o" "f" "ther:" "ull:" v "1.4.8" refl,
        eq_iff ("other:" +s v) ("full:" +s "1.4.8"),
        same1,
      )
]

not_reset : (check_of store (ensure_device store first "TAB-1") "TAB-1" (some "a1")).1 ≡ false
unfolding check_of ensure_device check_factory_reset lookup insert
not_reset = refl

on_state_learns_example :
    lookup "TAB-1" (on_state store env first "TAB-1" hello).db.capabilities
    ≡ some (caps_row full "1.4.8" (caps_hash env.stringify env.sha1 full "1.4.8"))
on_state_learns_example =
    on_state_learns store env first "TAB-1" hello full "1.4.8" first-Coherent refl full-Unique
      not_reset refl refl

granted_lem_example : Limits.granted store 5 first.store "k" 3 60 ≡ 3
unfolding lookup
granted_lem_example = Limits.granted_lem store 5 first.store "k" 3 60

topics_round_example : device_id_from_topic (event "TAB-1") ≡ "TAB-1"
topics_round_example = (topics_round "TAB-1" refl).2

abbrev panel_off : Json
panel_off =
    object (
      field_then "code" (text (codes "HW_PANEL_OFF"))
        (field_then "ts" (number (num 900)) no_fields))

abbrev dump_message : Json
dump_message = object (field_then "nonce" (text (codes "n1")) no_fields)

abbrev requested : World store
requested = record first { store = record first.store { texts = ("hw:dumpreq:n1", "1") ∷ [] } }

on_event_twice_example :
    (on_event store env (on_event store env first "TAB-1" panel_off) "TAB-1" panel_off).db.hw_events
    ≡ (on_event store env first "TAB-1" panel_off).db.hw_events
unfolding Limits.allow field find lookup
on_event_twice_example = on_event_twice store env env first "TAB-1" panel_off refl refl refl

abbrev cooling : World store
cooling = record first { store = record first.store { texts = ("hw:autodump:TAB-1", "1") ∷ [] } }

on_event-sent_example : (on_event store env cooling "TAB-1" panel_off).sent ≡ []
unfolding lookup
on_event-sent_example = on_event-sent store env cooling "TAB-1" "1" panel_off refl

abbrev reply : ℕ → ℕ → String
reply zero zero = "0/0"
reply _ _ = "more"

on_hw_dump-answers_example :
    let once = on_hw_dump store reply env requested "TAB-1" dump_message [] in
    let again = record env { now = 5000 } in
    let counts = (stored store reply env requested "TAB-1" dump_message []).1 in
    (answers store reply env once "n1" ≡ reply counts.0 counts.1 ∷ [])
    × (answers store reply again (on_hw_dump store reply again once "TAB-1" dump_message []) "n1"
        ≡ answers store reply env once "n1")
unfolding field find lookup
on_hw_dump-answers_example =
    on_hw_dump-answers store reply env 5000 requested "TAB-1" dump_message [] "n1"

store_dump_bounds_example :
    let counts = (store_dump store reply env (first, true) "TAB-1" none (dump_message ∷ [])).1 in
    (counts.1 ≤ counts.0) × (counts.0 ≤ max_dump_samples)
store_dump_bounds_example =
    store_dump_bounds store reply env (first, true) "TAB-1" none (dump_message ∷ [])

-- a device with the Android id "a0"
abbrev reset_world : World store
reset_world = record first {
  db = record empty_db {
    devices = ("TAB-1", record (new_device 1) { android_id = some "a0" }) ∷ [];
  };
}

reset_bars_example :
    Barred
      (λ s. num 0)
      (find_row
        (λ g. none)
        (on_states store
          (check_factory_reset store reset_world "TAB-1" "a1").0
          ((env, ("TAB-1", hello)) ∷ [])).db
        "TAB-1")
      (("online", "1") ∷ [])
unfolding lookup
reset_bars_example =
    reset_bars store reset_world "TAB-1" "a1" ((env, ("TAB-1", hello)) ∷ []) refl (λ g. none)
      (λ s. num 0) (("online", "1") ∷ [])

-- ===== src/Examples/Reports.antt =====
-- Tests of packages/shared/src/hw.ts and conn.ts.
use ukpc_remote_control.Prelude.{
  ◌≡◌, refl, true, none, some, [], ◌∷◌, num, infinity, finite, negsuc,
}
use ukpc_remote_control.Shared.Json.{
  Json, null, bool, number, text, array, object, no_elems, elem_then, no_fields, field_then, field,
  find, clean, without_nul,
}
use ukpc_remote_control.Shared.Hw.{
  HwSample, unread, a_num, texts, keep, kept, keep_fields, texts_of, time_of, normalize_hw_sample,
}
use ukpc_remote_control.Shared.Hw.Samples.{IsGood, normalize_hw_sample-IsGood}
use ukpc_remote_control.Shared.Conn.{
  BrokerConnEvent, AgentConnEntry, disconnected, positive, finite_of, clean_of, event_at,
  normalize_broker_event, num_entry, text_entry, num_details, text_details, ev_of, entry_of,
  normalize_agent_conn,
}
use ukpc_remote_control.Shared.Conn

abbrev raw_sample : Json
raw_sample = object (
    field_then "ts" (number (num 5)) (
      field_then "thermal" null (
        field_then "cpuPct" (number infinity) (
          field_then "fds" (number (num 90)) (
            field_then "anomaly"
              (array (elem_then (text (72 ∷ 0 ∷ 87 ∷ [])) (elem_then null no_elems)))
              (field_then "other" (bool true) no_fields))))))

abbrev sample : HwSample
sample = record {
  ts = num 5;
  fields =
      ("thermal", unread) ∷ ("fds", a_num (num 90)) ∷ ("anomaly", texts ((72 ∷ 87 ∷ []) ∷ [])) ∷ [];
}

report_runs : Unit {0}
unfolding normalize_hw_sample keep kept keep_fields texts_of time_of field find clean without_nul
    positive finite_of clean_of event_at normalize_broker_event num_entry text_entry num_details
    text_details ev_of entry_of normalize_agent_conn
report_runs = tt

sample_test : normalize_hw_sample raw_sample ≡ some sample
unfolding report_runs
sample_test = refl

normalize_hw_sample-IsGood_example : IsGood sample
unfolding report_runs
normalize_hw_sample-IsGood_example = normalize_hw_sample-IsGood raw_sample sample refl

abbrev raw_entry : Json
raw_entry = object (
    field_then "ts" (number (num 7)) (
      field_then "ev" (text (117 ∷ 112 ∷ [])) (
        field_then "rssi" (number (finite (negsuc 60)))
          (field_then "net" (text (49 ∷ 0 ∷ [])) no_fields))))

abbrev entry : AgentConnEntry
entry = record {
  ts = num 7;
  ev = 117 ∷ 112 ∷ [];
  reason = none;
  detail = ("rssi", Conn.a_num (finite (negsuc 60))) ∷ ("net", Conn.a_text (49 ∷ [])) ∷ [];
}

abbrev raw_event : Json
raw_event = object (
    field_then "ts" (number (num 9))
      (field_then "reason" (text (110 ∷ [])) (field_then "keepalive" (number (num 60)) no_fields)))

abbrev event : BrokerConnEvent
event = record {
  kind = disconnected;
  reason = some (110 ∷ []);
  connected_at = none;
  at = num 9;
  ip = none;
  keepalive = some (num 60);
}

-- ===== src/Api/Hw.antt =====
-- apps/rc-api/src/devices/hw.service.ts: `dump`, in the two parts before and after BRPOP, and the bounds of
-- the queries.
--
-- `parse_reply` reads the counts of an answer with `JSON.parse`.
pub mod Answered
use ukpc_remote_control.Prelude.{
  ℕ, ◌+◌, ◌*◌, String, Bool, true, false, not, ◌+s◌, Option, none, some, List, [], ◌∷◌, ◌++◌,
  Number, is_some, lookup, if◌then◌else◌,
}
use ukpc_remote_control.Shared.Keys
use ukpc_remote_control.Api.Redis.{Redis}
use ukpc_remote_control.Api.Bounds.{clamp}
use ukpc_remote_control.Api.Sessions.{HttpError, forbidden, not_found}
use ukpc_remote_control.Api.Devices.{DeviceCommand, hw_dump}
use ukpc_remote_control.Api.Devices.Service.{Reader, Desk, may_open}

abbrev pub dump_wait_sec : ℕ
dump_wait_sec = 6

-- minutes and number of samples, and number of events
abbrev pub sample_bounds : Option Number → Option Number → ℕ × ℕ
sample_bounds minutes limit = (clamp minutes 5 (7 * 24 * 60) 360, clamp limit 1 2000 720)

abbrev pub event_bound : Option Number → ℕ
event_bound limit = clamp limit 1 500 100

pub data Asked : Type 0 where
  waiting : Asked
  throttled : Asked
  refused : HttpError → Asked

pub data Dumped : Type 0 where
  dumped : (count inserted : ℕ) → Dumped
  timeout : Dumped

-- BRPOP takes the value that was pushed first
abbrev pub first_pushed : List String → Option String
first_pushed [] = none
first_pushed (x ∷ []) = some x
first_pushed (x ∷ y ∷ rest) = first_pushed (y ∷ rest)

module _ (r : Redis) where
  -- `assertDevice`
  unfoldable pub device_error : Reader → Desk r → String → ℕ → Option HttpError
  device_error rd w d op =
      if not (is_some (lookup d w.db.devices))
      then some not_found
      else if may_open r rd w op d
      then none
      else some forbidden

  ask_free : Desk r × Bool → String → ℕ → String → Desk r × Asked
  ask_free (w, false) d n nonce = (w, throttled)
  ask_free (w, true) d n nonce = (
    record w {
      store = r.set w.store (Keys.hw_dump_req nonce) "1" (dump_wait_sec + 10);
      published = w.published ++ (d, hw_dump n nonce) ∷ [];
    },
    waiting,
  )

  ask_checked : Option HttpError → Desk r → String → Option Number → String → Desk r × Asked
  unfolding ask_free
  ask_checked (some e) w d n nonce = (w, refused e)
  ask_checked none w d n nonce =
      let (s, free) = r.set_nx w.store ("hw:dumpthr:" +s d) "1" 3 in
      ask_free (record w { store = s }, free) d (clamp n 1 100 100) nonce

  -- up to BRPOP, with the nonce of `randomUUID`
  unfoldable pub ask_dump : Reader → Desk r → String → ℕ → Option Number → String → Desk r × Asked
  unfolding ask_checked device_error
  ask_dump rd w d op n nonce = ask_checked (device_error rd w d op) w d n nonce

  result_of : (String → ℕ × ℕ) → Option String → Dumped
  result_of parse_reply none = timeout
  result_of parse_reply (some body) =
      let (count, inserted) = parse_reply body in dumped count inserted

  -- from BRPOP on, the state being the one when its time ends or a value is there
  unfoldable pub take_dump : (String → ℕ × ℕ) → r.Store → String → r.Store × Dumped
  unfolding result_of
  take_dump parse_reply s nonce = (
    r.del (r.del s (Keys.hw_dump nonce)) (Keys.hw_dump_req nonce),
    result_of parse_reply (first_pushed (r.items s (Keys.hw_dump nonce))),
  )

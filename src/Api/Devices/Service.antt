-- ===== src/Api/Devices/Service.antt =====
-- apps/rc-api/src/devices/devices.service.ts: the queries, the commands to a device, and `remove`.
--
-- The order of a list (`d.stale ASC, d.last_seen DESC`) is the parameter `ordered`, the search by a text
-- (ILIKE) is `matches`, and `hw_of` is `hwFromHash` on a hash of Redis. Publications and the commands of Redis
-- succeed. The DELETE statements of `remove` are no transaction: `remove_device` takes how many of them succeed.
use ukpc_remote_control.Prelude.{
  ℕ, zero, suc, ◌*◌, ◌-◌, String, Bool, true, false, not, ◌&&◌, ◌==◌, ◌+s◌, Option, none, some,
  List, [], ◌∷◌, ◌++◌, map, filter, Number, get_or, is_some, take, drop, ltb, nat_eq, Dict, lookup,
  remove, if◌then◌else◌,
}
use ukpc_remote_control.Shared.Types.{Tier, ready, degraded, not_ready, offline, DeviceState}
use ukpc_remote_control.Shared.Readiness.{compute_readiness}
use ukpc_remote_control.Shared.Keys
use ukpc_remote_control.Shared.Hw.Live.{HwFields}
use ukpc_remote_control.Db.{Db, DeviceRow}
use ukpc_remote_control.Api.Redis.{Redis}
use ukpc_remote_control.Api.Access.{Grants, may_access, is_visible}
use ukpc_remote_control.Api.Sessions.{
  Result, ok, err, forbidden, not_found, unavailable, SessionRow,
}
use ukpc_remote_control.Api.Devices.{
  JoinedRow, empty_row, join_row, find_row, to_device_state, DeviceDto, to_dto, DeviceCommand,
  probe, selfheal, stop_session,
}

-- what the services read of the other tables and of JavaScript
pub record Reader : Type 0 where
  pub grants : Grants
  pub group_name : ℕ → Option String
  pub number_of : String → Number
  pub hw_of : Dict String → Option HwFields
  pub ordered : List JoinedRow → List JoinedRow
  pub matches : String → JoinedRow → Bool

pub record Filter : Type 0 where
  pub group : Option String
  pub tier : Option Tier
  pub q : Option String
  pub page : ℕ  -- 0 where none is given
  pub stale : Option Bool

abbrev tier_no : Tier → ℕ
tier_no ready = 0
tier_no degraded = 1
tier_no not_ready = 2
tier_no offline = 3

abbrev has_tier : Option Tier → DeviceDto → Bool
has_tier none d = true
has_tier (some t) d = nat_eq (tier_no d.readiness.tier) (tier_no t)

abbrev in_group : Option String → Option String → Bool
in_group none name = true
in_group (some g) none = false
in_group (some g) (some name) = name == g

abbrev has_stale : Option Bool → Bool → Bool
has_stale none b = true
has_stale (some true) b = b
has_stale (some false) b = not b

abbrev found_by : (String → JoinedRow → Bool) → Option String → JoinedRow → Bool
found_by matches none row = true
found_by matches (some q) row = matches q row

abbrev visible_row : Reader → ℕ → JoinedRow → Bool
visible_row rd op row = elim row.group_id [ none ↦ false | some g ↦ is_visible rd.grants op g ]

unfoldable pub join_all : (ℕ → Option String) → Db → Dict DeviceRow → List JoinedRow
join_all group_name db [] = []
join_all group_name db ((d, row) ∷ rows) =
    join_row group_name db d row ∷ join_all group_name db rows

abbrev group_at : Option DeviceRow → Option ℕ
group_at none = none
group_at (some row) = some row.group_id

-- the statements one after the other, of which the first `n` succeed: whether all of them did
abbrev pub run_all {ℓ} : {A : Type ℓ} → ℕ → List (A → A) → A → A × Bool
run_all n [] x = (x, true)
run_all zero (f ∷ fs) x = (x, false)
run_all (suc n) (f ∷ fs) x = run_all n fs (f x)

module _ (r : Redis) where
  pub record Desk : Type 0 where
    pub store : r.Store
    pub db : Db
    pub sessions : Dict SessionRow
    pub published : List (String × DeviceCommand)

  -- `assertGroupAccess`: whether it lets the operator pass
  unfoldable pub may_open : Reader → Desk → ℕ → String → Bool
  may_open rd w op d = may_access rd.grants op (group_at (lookup d w.db.devices))

  abbrev pub shown : Reader → Desk → JoinedRow → DeviceDto
  shown rd w row =
      let hash = r.hgetall w.store (Keys.device row.device_id) in
      let state = to_device_state rd.number_of row hash in
      to_dto row state (compute_readiness state) (rd.hw_of hash)

  -- the rows of the query of `list`
  unfoldable pub selected : Reader → Desk → Filter → ℕ → List JoinedRow
  unfolding join_all
  selected rd w f op =
      let chosen =
        filter
          (λ row.
            has_stale f.stale row.stale
            && visible_row rd op row
            && in_group f.group row.group_name
            && found_by rd.matches f.q row)
          (join_all rd.group_name w.db w.db.devices) in
      let page = if ltb f.page 1 then 1 else f.page in
      take 50 (drop ((page - 1) * 50) (rd.ordered chosen))

  unfoldable pub list : Reader → Desk → Filter → ℕ → List DeviceDto
  unfolding selected
  list rd w f op = filter (has_tier f.tier) (map (shown rd w) (selected rd w f op))

  found : Reader → Desk → Option JoinedRow → Result DeviceDto
  found rd w none = err not_found
  found rd w (some row) = ok (shown rd w row)

  unfoldable pub get : Reader → Desk → String → ℕ → Result DeviceDto
  unfolding found may_open
  get rd w d op =
      if may_open rd w op d then found rd w (find_row rd.group_name w.db d) else err forbidden

  unfoldable pub get_state : Reader → Desk → String → DeviceState
  get_state rd w d =
      to_device_state rd.number_of (get_or (find_row rd.group_name w.db d) (empty_row d))
        (r.hgetall w.store (Keys.device d))

  abbrev publish : Desk → String → DeviceCommand → Desk
  publish w d c = record w { published = w.published ++ (d, c) ∷ [] }

  abbrev pub probe_key : String → String
  probe_key d = "probe:wait:" +s d

  -- `answered`: whether BRPOP gives a value in time
  unfoldable pub probe_device : Desk → String → Bool → Desk × Bool
  probe_device w d answered =
      (publish (record w { store = r.del w.store (probe_key d) }) d probe, answered)

  unfoldable pub selfheal_device : Reader → Desk → String → ℕ → Desk × Result Bool
  unfolding may_open
  selfheal_device rd w d op =
      if may_open rd w op d then (publish w d selfheal, ok true) else (w, err forbidden)

  -- `if (sid)`: a text that is not empty
  abbrev pub running : Option String → Option String
  running none = none
  running (some sid) = if sid == "" then none else some sid

  unfoldable pub stop : Desk → String → Option String → Desk
  stop w d none = w
  stop w d (some sid) = publish w d (stop_session sid)

  unfoldable pub session_key : Option String → List String
  session_key none = []
  session_key (some sid) = Keys.session sid ∷ []

  -- DEL of several keys
  unfoldable pub del_all : r.Store → List String → r.Store
  del_all s [] = s
  del_all s (key ∷ keys) = del_all (r.del s key) keys

  abbrev in_db : (Db → Db) → Desk → Desk
  in_db f w = record w { db = f w.db }

  -- the DELETE statements of `remove`
  unfoldable pub deletes : String → List (Desk → Desk)
  deletes d =
      in_db
        (λ db. record db { capability_events = filter (λ e. not (e.0 == d)) db.capability_events })
      ∷ in_db
          (λ db. record db { hw_samples = filter (λ row. not (row.device_id == d)) db.hw_samples })
      ∷ in_db
          (λ db. record db { hw_events = filter (λ row. not (row.device_id == d)) db.hw_events })
      ∷ in_db (λ db. record db {
        conn_events = filter (λ row. not (row.device_id == d)) db.conn_events;
      })
      ∷ (λ w. record w { sessions = filter (λ s. not (s.1.device_id == d)) w.sessions })
      ∷ in_db (λ db. record db {
        devices = remove d db.devices;
        capabilities = remove d db.capabilities;  -- ON DELETE CASCADE
      })
      ∷ []

  -- the message and the keys of Redis
  unfoldable pub wipe : Desk → String → Desk
  unfolding stop session_key del_all
  wipe w d =
      let sid = running (r.get w.store (Keys.active_session d)) in
      let w1 = stop w d sid in
      record w1 {
        store = del_all w1.store (
            (Keys.device d ∷ Keys.device_caps d ∷ Keys.active_session d ∷ probe_key d ∷ [])
            ++ session_key sid);
      }

  -- a statement that fails throws
  abbrev pub ended : Desk × Bool → Desk × Result Bool
  ended (w, true) = (w, ok true)
  ended (w, false) = (w, err unavailable)

  -- `n` of the DELETE statements succeed
  unfoldable pub remove_device : Reader → Desk → String → ℕ → ℕ → Desk × Result Bool
  unfolding wipe may_open deletes
  remove_device rd w d op n =
      if not (is_some (lookup d w.db.devices))
      then (w, err not_found)
      else if may_open rd w op d
      then ended (run_all n (deletes d) (wipe w d))
      else (w, err forbidden)

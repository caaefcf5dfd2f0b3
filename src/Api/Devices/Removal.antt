-- ===== src/Api/Devices/Removal.antt =====
-- apps/rc-api/src/devices/devices.service.ts: what `remove` clears and what it leaves. The keys of Redis
-- that it does not name stay: those of heartbeats, of automatic dumps and of the limits.
use ukpc_remote_control.Prelude.{
  ℕ, ◌<◌, ◌≡◌, String, Bool, false, ◌==◌, ◌+s◌, none, some, List, [], ◌∷◌, ◌++◌, any, lookup,
}
use ukpc_remote_control.Shared.Keys
use ukpc_remote_control.Db.{Db}
use ukpc_remote_control.Api.Redis.{Redis}
use ukpc_remote_control.Api.Sessions.{Result, ok, err, unavailable, not_found, forbidden}
use ukpc_remote_control.Api.Devices.{DeviceCommand, stop_session}
use ukpc_remote_control.Api.Devices.Service.{Reader, Desk, may_open}

-- no row of a device in any table
pub record Gone (db : Db) (d : String) : Type 0 where
  pub device : lookup d db.devices ≡ none
  pub capabilities : lookup d db.capabilities ≡ none
  pub capability_events : any (λ e. e.0 == d) db.capability_events ≡ false
  pub samples : any (λ row. row.device_id == d) db.hw_samples ≡ false
  pub events : any (λ row. row.device_id == d) db.hw_events ≡ false
  pub connections : any (λ row. row.device_id == d) db.conn_events ≡ false

module _ (r : Redis) where
  -- what the message and the commands of Redis leave of a device
  pub record Wiped (w : Desk r) (s : r.Store) (sent : List (String × DeviceCommand)) (d : String)
      : Type 0 where
    pub live : r.hgetall s (Keys.device d) ≡ []
    pub cache : r.hgetall s (Keys.device_caps d) ≡ []
    pub lock : r.get s (Keys.active_session d) ≡ none
    pub waiting : r.items s ("probe:wait:" +s d) ≡ []
    pub idle : r.get w.store (Keys.active_session d) ≡ none → sent ≡ w.published
    -- of the session that runs
    pub session :
        (sid : String)
        → r.get w.store (Keys.active_session d) ≡ some sid
        → (sid == "") ≡ false
        → (r.hgetall s (Keys.session sid) ≡ []) × (sent ≡ w.published ++ (d, stop_session sid) ∷ [])

  -- the outcomes of a removal of which `n` statements succeed: it ends, it fails half way, or it is
  -- refused
  abbrev pub Removed : Reader → Desk r → String → ℕ → ℕ → Desk r × Result Bool → Type 0
  Removed rd w d op n (x, ok b) =
      Wiped w x.store x.published d
      × Gone x.db d
      × (any (λ s. s.1.device_id == d) x.sessions ≡ false)
      × ((j : String) → (d == j) ≡ false → lookup j x.db.devices ≡ lookup j w.db.devices)
  Removed rd w d op n (x, err unavailable) =
      (n < 6) × Wiped w x.store x.published d × (x.db.devices ≡ w.db.devices)
  Removed rd w d op n (x, err not_found) = (x ≡ w) × (lookup d w.db.devices ≡ none)
  Removed rd w d op n (x, err forbidden) = (x ≡ w) × (may_open r rd w op d ≡ false)
  Removed rd w d op n (x, err e) = ⊥

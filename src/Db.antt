-- ===== src/Db.antt =====
-- The tables of Postgres that the ingest, the API and the synchronization with the MDM share, with the
-- columns that their statements use. Times are milliseconds since the epoch.
use ukpc_remote_control.Prelude.{
  ℕ, String, Bool, true, false, ◌&&◌, ◌==◌, suc, nat_eq, num_eq, Option, List, [], ◌∷◌, ◌++◌,
  Number, Dict, any, if◌then◌else◌,
}
use ukpc_remote_control.Shared.Types.{KnoxState, ProjectMedia}
use ukpc_remote_control.Shared.Hw.{HwSample}
use ukpc_remote_control.Shared.Conn.{Detail}

pub record DeviceRow : Type 0 where
  pub android_id : Option String
  pub hmdm_internal_id : Option ℕ
  pub model : Option String
  pub os_version : Option String
  pub group_id : ℕ
  pub label : Option String
  pub last_seen : Option ℕ
  pub synced_at : Option ℕ
  pub stale : Bool
  pub needs_reprovisioning : Bool

-- a row of `device_capabilities`
pub record CapsRow : Type 0 where
  pub agent_ver : String
  pub project_media : ProjectMedia
  pub a11y : Bool
  pub knox : KnoxState
  pub overlay : Bool
  pub secure_settings : Bool
  pub encoder_name : Option String
  pub encoder_hw : Option Bool
  pub caps_hash : String

-- what changed in the capabilities of a device: the values before and after
pub data Cell : Type 0 where
  media : ProjectMedia → Cell
  knox : KnoxState → Cell
  flag : Bool → Cell
  encoder : (name : String) → (hw : Bool) → Cell
  absent : Cell

pub data Change : Type 0 where
  initial : Change
  changed : (field : String) → (before after : Cell) → Change

pub data SampleSource : Type 0 where
  hb dump : SampleSource

-- the rows with a unique key, and the key of each
pub record SampleRow : Type 0 where
  pub device_id : String
  pub source : SampleSource
  pub sample_ts : Number
  pub body : HwSample

pub record HwEventRow : Type 0 where
  pub device_id : String
  pub code : List ℕ
  pub msg : Option (List ℕ)
  pub ts : Number

-- equality of texts
abbrev pub units_eq : List ℕ → List ℕ → Bool
units_eq [] [] = true
units_eq (x ∷ xs) (y ∷ ys) = nat_eq x y && units_eq xs ys
units_eq _ _ = false

pub data ConnSource : Type 0 where
  broker agent : ConnSource

pub record ConnRow : Type 0 where
  pub device_id : String
  pub source : ConnSource
  pub event : List ℕ
  pub reason : Option (List ℕ)
  pub connected_at : Option Number
  pub at : Number
  pub ip : Option (List ℕ)
  pub keepalive : Option Number
  pub detail : Option (List (String × Detail))

pub record Db : Type 0 where
  pub default_group : Option ℕ  -- the group with the name 'default'
  pub devices : Dict DeviceRow
  pub capabilities : Dict CapsRow
  pub capability_events : List (String × List Change)
  pub hw_samples : List SampleRow
  pub hw_events : List HwEventRow
  pub conn_events : List ConnRow

-- `INSERT … ON CONFLICT … DO NOTHING`: the rows and whether one was added
abbrev pub add_unique {ℓ} : {A : Type ℓ} → (A → A → Bool) → A → List A → List A × Bool
add_unique same row rows = if any (same row) rows then (rows, false) else (rows ++ row ∷ [], true)

-- the same statement for several rows, and how many were added
unfoldable pub add_all {ℓ} : {A : Type ℓ} → (A → A → Bool) → List A → List A → List A × ℕ
add_all same [] rows = (rows, 0)
add_all same (row ∷ more) rows =
    let (rest, n) = add_all same more (add_unique same row rows).0 in
    (rest, if (add_unique same row rows).1 then suc n else n)

-- UNIQUE (device_id, code, ts) and UNIQUE (device_id, source, event, at)
abbrev pub same_event : HwEventRow → HwEventRow → Bool
same_event a b = a.device_id == b.device_id && units_eq a.code b.code && num_eq a.ts b.ts

abbrev pub same_conn_source : ConnSource → ConnSource → Bool
same_conn_source broker broker = true
same_conn_source agent agent = true
same_conn_source _ _ = false

abbrev pub same_conn : ConnRow → ConnRow → Bool
same_conn a b =
    a.device_id == b.device_id
    && same_conn_source a.source b.source
    && units_eq a.event b.event
    && num_eq a.at b.at

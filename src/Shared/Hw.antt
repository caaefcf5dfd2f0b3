-- ===== src/Shared/Hw.antt =====
-- packages/shared/src/hw.ts: hardware samples from a device, which are not trusted.
pub mod Lookup
pub mod Samples
pub mod Live
use ukpc_remote_control.Prelude.{
  ℕ, String, Bool, true, false, ◌&&◌, Option, none, some, List, [], ◌∷◌, Number, num, num_lt,
  is_finite, take, map, if◌then◌else◌,
}
use ukpc_remote_control.Shared.Json.{
  Json, null, bool, number, text, array, Elems, no_elems, elem_then, is_object, field, clean,
}

pub data Kind : Type 0 where
  a_number a_boolean a_string strings : Kind

-- `SAMPLE_FIELDS`
abbrev pub sample_fields : List (String × Kind)
sample_fields =
    ("phase", a_string)
    ∷ ("thermal", a_number)
    ∷ ("battTempC", a_number)
    ∷ ("zoneMaxC", a_number)
    ∷ ("memAvailMb", a_number)
    ∷ ("memTotalMb", a_number)
    ∷ ("lowMem", a_boolean)
    ∷ ("diskFreeMb", a_number)
    ∷ ("cpuPct", a_number)
    ∷ ("cpuKHz", a_number)
    ∷ ("gpuPct", a_number)
    ∷ ("gpuMHz", a_number)
    ∷ ("display", a_number)
    ∷ ("interactive", a_boolean)
    ∷ ("touchDevs", a_number)
    ∷ ("mainLagMs", a_number)
    ∷ ("appPssMb", a_number)
    ∷ ("threads", a_number)
    ∷ ("fds", a_number)
    ∷ ("fgPkg", a_string)
    ∷ ("uiIdleMs", a_number)
    ∷ ("lockTask", a_number)
    ∷ ("dimmed", a_boolean)
    ∷ ("anomaly", strings)
    ∷ []

abbrev pub max_str : ℕ
max_str = 128

abbrev pub max_anomaly : ℕ
max_anomaly = 16

-- a value of a sample
pub data Value : Type 0 where
  unread : Value  -- `null`: the agent could not read it
  a_num : Number → Value
  a_flag : Bool → Value
  a_text : List ℕ → Value
  texts : List (List ℕ) → Value

pub record HwSample : Type 0 where
  pub ts : Number
  pub fields : List (String × Value)

-- `v.filter(x => typeof x === 'string')`
unfoldable pub texts_of : Elems → List (List ℕ)
texts_of no_elems = []
texts_of (elem_then (text s) rest) = s ∷ texts_of rest
texts_of (elem_then _ rest) = texts_of rest

-- the branches on a value that is there: what is stored, if anything
unfoldable pub keep : Kind → Json → Option Value
unfolding texts_of
keep kind null = some unread
keep a_number (number x) = if is_finite x then some (a_num x) else none
keep a_boolean (bool b) = some (a_flag b)
keep a_string (text s) = some (a_text (clean max_str s))
keep strings (array elems) = some (texts (map (clean max_str) (take max_anomaly (texts_of elems))))
keep kind _ = none

unfoldable pub kept : Kind → Option Json → Option Value
unfolding keep
kept kind none = none
kept kind (some v) = keep kind v

store : String → Option Value → List (String × Value) → List (String × Value)
store key none rest = rest
store key (some v) rest = (key, v) ∷ rest

-- the loop over the known fields
unfoldable pub keep_fields : Json → List (String × Kind) → List (String × Value)
unfolding kept store
keep_fields raw [] = []
keep_fields raw ((key, kind) ∷ rest) = store key (kept kind (field key raw)) (keep_fields raw rest)

-- `typeof o.ts === 'number' && Number.isFinite(o.ts) && o.ts > 0`
unfoldable pub time_of : Option Json → Option Number
time_of (some (number x)) = if is_finite x && num_lt (num 0) x then some x else none
time_of _ = none

sample_at : Json → Option Number → Option HwSample
unfolding keep_fields
sample_at raw none = none
sample_at raw (some t) = some (record { ts = t; fields = keep_fields raw sample_fields })

unfoldable pub normalize_hw_sample : Json → Option HwSample
unfolding sample_at time_of
normalize_hw_sample raw = if is_object raw then sample_at raw (time_of (field "ts" raw)) else none

-- ===== src/Shared/Topics.antt =====
-- packages/shared/src/mqtt-topics.ts, and the topics of the broker's own events
-- (packages/shared/src/conn.ts). A topic is read by its parts between the slashes.
pub mod Round
use Prim.Native.String
use Prim.Native.Char.{code}
use ukpc_remote_control.Prelude.{
  ℕ, String, Bool, true, false, not, ◌&&◌, ◌||◌, ◌==◌, ◌+s◌, Option, none, some, List, [], ◌∷◌,
  nat_eq, codes, any, if◌then◌else◌,
}
use ukpc_remote_control.Shared.Conn.{ConnKind, connected, disconnected}

abbrev pub state : String → String
state device_id = "rc/state/" +s device_id

abbrev pub probe : String → String
probe device_id = "rc/probe/" +s device_id

abbrev pub cmd : String → String
cmd device_id = "rc/cmd/" +s device_id

abbrev pub event : String → String
event device_id = "rc/event/" +s device_id

-- a character before the parts of the rest
abbrev pub head_with : (String → String) → List String → List String
head_with f [] = f "" ∷ []
head_with f (part ∷ parts) = f part ∷ parts

-- `s.split('/')`
unfoldable pub split : String → List String
split String.[] = "" ∷ []
split (String.◌∷◌ c s) =
    let rest = split s in if nat_eq (code c) b'/' then "" ∷ rest else head_with (String.◌∷◌ c) rest

-- `parts[parts.length - 1] ?? ''`
abbrev pub last_of : List String → String
last_of [] = ""
last_of (part ∷ []) = part
last_of (part ∷ other ∷ parts) = last_of (other ∷ parts)

unfoldable pub device_id_from_topic : String → String
unfolding split
device_id_from_topic topic = last_of (split topic)

-- what `SYS_RE` matches
pub record SysClient : Type 0 where
  pub client_id : String
  pub kind : ConnKind

abbrev pub kind_of : String → Option ConnKind
kind_of part =
    if part == "connected"
    then some connected
    else if part == "disconnected"
    then some disconnected
    else none

-- all parts but the last, between slashes
abbrev pub init_text : List String → String
init_text [] = ""
init_text (part ∷ []) = ""
init_text (part ∷ last ∷ []) = part
init_text (part ∷ other ∷ third ∷ parts) = part +s "/" +s init_text (other ∷ third ∷ parts)

-- `.` of a regular expression matches no line end
abbrev ends_line : ℕ → Bool
ends_line c = nat_eq c 10 || nat_eq c 13 || nat_eq c 8232 || nat_eq c 8233

abbrev client_of : Option ConnKind → String → Option SysClient
client_of none id = none
client_of (some kind) id =
    if id == "" || any ends_line (codes id)
    then none
    else some (record { client_id = id; kind = kind })

sys_parts : List String → Option SysClient
sys_parts (a ∷ b ∷ node ∷ c ∷ rest) =
    if a == "$SYS" && b == "brokers" && not (node == "") && c == "clients"
    then client_of (kind_of (last_of rest)) (init_text rest)
    else none
sys_parts _ = none

unfoldable pub parse_sys_client_topic : String → Option SysClient
unfolding split sys_parts
parse_sys_client_topic topic = sys_parts (split topic)

-- `topic.startsWith('$SYS/')`
abbrev pub starts_sys : List String → Bool
starts_sys (a ∷ b ∷ rest) = a == "$SYS"
starts_sys _ = false

unfoldable pub is_sys : String → Bool
unfolding split
is_sys topic = starts_sys (split topic)

-- a part that is neither the first nor the last
abbrev inner : String → List String → Bool
inner name [] = false
inner name (part ∷ []) = false
inner name (part ∷ other ∷ parts) = part == name || inner name (other ∷ parts)

abbrev pub later : String → List String → Bool
later name [] = false
later name (part ∷ parts) = inner name parts

-- `topic.includes('/' + name + '/')`, for a name without slashes
unfoldable pub has_inner : String → String → Bool
unfolding split
has_inner name topic = later name (split topic)

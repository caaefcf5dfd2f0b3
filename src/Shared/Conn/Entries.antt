-- ===== src/Shared/Conn/Entries.antt =====
-- What normalized connection events and log entries may hold (packages/shared/src/conn.ts).
use mathlib.Core.Path.{subst}
use ukpc_remote_control.Prelude.{
  ℕ, ◌≡◌, refl, inl, inr, String, true, ◌&&◌, ◌==◌, Option, none, some, List, [], ◌∷◌, ◌++◌, Number,
  num, num_lt, is_finite, All, any, Bool-cases,
}
use ukpc_remote_control.Shared.Json.{
  Json, null, bool, number, text, array, object, is_object, field,
}
use ukpc_remote_control.Shared.Hw.Samples.{IsClean, clean-IsClean, IsTime}
use ukpc_remote_control.Shared.Conn.{
  ConnKind, connected, disconnected, BrokerConnEvent, positive, finite_of, clean_of, or_else,
  reason_of, time_key, event_at, normalize_broker_event, Detail, a_num, a_text, AgentConnEntry,
  agent_detail_num, agent_detail_str, num_entry, text_entry, num_details, text_details, ev_of,
  entry_of, normalize_agent_conn,
}

-- a predicate on what is there
abbrev pub IfSome {ℓ} : {A : Type ℓ} → (A → Type 0) → Option A → Type 0
IfSome P none = Unit
IfSome P (some a) = P a

positive-IsTime : (o : Option Json) → IfSome IsTime (positive o)
unfolding positive
positive-IsTime none = tt
positive-IsTime (some null) = tt
positive-IsTime (some (bool b)) = tt
positive-IsTime (some (text x)) = tt
positive-IsTime (some (array elems)) = tt
positive-IsTime (some (object o)) = tt
positive-IsTime (some (number x)) = elim (Bool-cases (is_finite x && num_lt (num 0) x)) [
  | inl e ↦ rw e e
  | inr e ↦ rw e tt
]

abbrev pub IsFinite : Number → Type 0
IsFinite x = is_finite x ≡ true

finite_of-IsFinite : (o : Option Json) → IfSome IsFinite (finite_of o)
unfolding finite_of
finite_of-IsFinite none = tt
finite_of-IsFinite (some null) = tt
finite_of-IsFinite (some (bool b)) = tt
finite_of-IsFinite (some (text x)) = tt
finite_of-IsFinite (some (array elems)) = tt
finite_of-IsFinite (some (object o)) = tt
finite_of-IsFinite (some (number x)) = elim (Bool-cases (is_finite x)) [
  | inl e ↦ rw e e
  | inr e ↦ rw e tt
]

clean_of-IsClean : (max : ℕ) (o : Option Json) → IfSome (IsClean max) (clean_of max o)
unfolding clean_of
clean_of-IsClean max none = tt
clean_of-IsClean max (some null) = tt
clean_of-IsClean max (some (bool b)) = tt
clean_of-IsClean max (some (number x)) = tt
clean_of-IsClean max (some (array elems)) = tt
clean_of-IsClean max (some (object o)) = tt
clean_of-IsClean max (some (text s)) = clean-IsClean max s

pub record IsEvent (kind : ConnKind) (e : BrokerConnEvent) : Type 0 where
  pub same_kind : e.kind ≡ kind
  pub timed : IsTime e.at
  pub connected_timed : IfSome IsTime e.connected_at
  pub clean_reason : IfSome (IsClean 64) e.reason
  pub clean_ip : IfSome (IsClean 64) e.ip
  pub finite_keepalive : IfSome IsFinite e.keepalive

or_else-IsTime :
    (a b : Option Number) → IfSome IsTime a → IfSome IsTime b → IfSome IsTime (or_else a b)
or_else-IsTime none b p q = q
or_else-IsTime (some x) b p q = p

reason_of-IsClean : (kind : ConnKind) (raw : Json) → IfSome (IsClean 64) (reason_of kind raw)
reason_of-IsClean connected raw = tt
reason_of-IsClean disconnected raw = clean_of-IsClean 64 (field "reason" raw)

event_at-IsEvent :
    (kind : ConnKind) (raw : Json) (t : Option Number)
    → IfSome IsTime t
    → IfSome (IsEvent kind) (event_at kind raw t)
unfolding event_at
event_at-IsEvent kind raw none h = tt
event_at-IsEvent kind raw (some t) h = record {
  same_kind = refl;
  timed = h;
  connected_timed = positive-IsTime (field "connected_at" raw);
  clean_reason = reason_of-IsClean kind raw;
  clean_ip = clean_of-IsClean 64 (field "ipaddress" raw);
  finite_keepalive = finite_of-IsFinite (field "keepalive" raw);
}

broker-IsEvent :
    (kind : ConnKind) (raw : Json) → IfSome (IsEvent kind) (normalize_broker_event kind raw)
unfolding normalize_broker_event
broker-IsEvent kind raw = elim (Bool-cases (is_object raw)) [
  | inl e ↦ rw e (
      event_at-IsEvent kind raw
        (or_else (positive (field (time_key kind) raw)) (positive (field "ts" raw)))
        (or_else-IsTime (positive (field (time_key kind) raw)) (positive (field "ts" raw))
          (positive-IsTime (field (time_key kind) raw)) (positive-IsTime (field "ts" raw))))
  | inr e ↦ rw e tt
]

-- A normalized event of the broker is of the kind asked for, its times are finite and positive, its
-- texts are short and without the code unit zero, and its keepalive is finite.
pub normalize_broker_event-IsEvent :
    (kind : ConnKind) (raw : Json) (e : BrokerConnEvent)
    → normalize_broker_event kind raw ≡ some e
    → IsEvent kind e
normalize_broker_event-IsEvent kind raw e h =
    subst (IfSome (IsEvent kind)) h (broker-IsEvent kind raw)

-- a known detail with a value of its kind
abbrev pub IsDetail : String × Detail → Type 0
IsDetail (key, a_num x) = (any (λ k. k == key) agent_detail_num ≡ true) × IsFinite x
IsDetail (key, a_text s) = (any (λ k. k == key) agent_detail_str ≡ true) × IsClean 64 s

append-All :
    (xs ys : List (String × Detail)) → All IsDetail xs → All IsDetail ys → All IsDetail (xs ++ ys)
append-All [] ys p q = q
append-All (x ∷ xs) ys (a, p) q = (a, append-All xs ys p q)

num_entry-All :
    (key : String) (o : Option Number)
    → any (λ k. k == key) agent_detail_num ≡ true
    → IfSome IsFinite o
    → All IsDetail (num_entry key o)
unfolding num_entry
num_entry-All key none e h = tt
num_entry-All key (some x) e h = ((e, h), tt)

text_entry-All :
    (key : String) (o : Option (List ℕ))
    → any (λ k. k == key) agent_detail_str ≡ true
    → IfSome (IsClean 64) o
    → All IsDetail (text_entry key o)
unfolding text_entry
text_entry-All key none e h = tt
text_entry-All key (some s) e h = ((e, h), tt)

num_details-All :
    (raw : Json) (keys : List String)
    → All (λ key. any (λ k. k == key) agent_detail_num ≡ true) keys
    → All IsDetail (num_details raw keys)
unfolding num_details
num_details-All raw [] h = tt
num_details-All raw (key ∷ keys) (e, h) =
    append-All (num_entry key (finite_of (field key raw))) (num_details raw keys)
      (num_entry-All key (finite_of (field key raw)) e (finite_of-IsFinite (field key raw)))
      (num_details-All raw keys h)

text_details-All :
    (raw : Json) (keys : List String)
    → All (λ key. any (λ k. k == key) agent_detail_str ≡ true) keys
    → All IsDetail (text_details raw keys)
unfolding text_details
text_details-All raw [] h = tt
text_details-All raw (key ∷ keys) (e, h) =
    append-All (text_entry key (clean_of 64 (field key raw))) (text_details raw keys)
      (text_entry-All key (clean_of 64 (field key raw)) e (clean_of-IsClean 64 (field key raw)))
      (text_details-All raw keys h)

pub record IsEntry (e : AgentConnEntry) : Type 0 where
  pub timed : IsTime e.ts
  pub clean_ev : IsClean 24 e.ev
  pub clean_reason : IfSome (IsClean 200) e.reason
  pub known_details : All IsDetail e.detail

entry_of-IsEntry :
    (raw : Json) (t : Option Number) (ev : Option (List ℕ))
    → IfSome IsTime t
    → IfSome IsEntry (entry_of raw t ev)
unfolding entry_of
entry_of-IsEntry raw none ev h = tt
entry_of-IsEntry raw (some t) none h = tt
entry_of-IsEntry raw (some t) (some ev) h = record {
  timed = h;
  clean_ev = clean-IsClean 24 ev;
  clean_reason = clean_of-IsClean 200 (field "reason" raw);
  known_details =
      append-All (num_details raw agent_detail_num) (text_details raw agent_detail_str)
        (num_details-All raw agent_detail_num (refl, (refl, (refl, (refl, (refl, tt))))))
        (text_details-All raw agent_detail_str (refl, (refl, (refl, tt))));
}

agent_conn-IsEntry : (raw : Json) → IfSome IsEntry (normalize_agent_conn raw)
unfolding normalize_agent_conn
agent_conn-IsEntry raw = elim (Bool-cases (is_object raw)) [
  | inl e ↦ rw e (
      entry_of-IsEntry raw (positive (field "ts" raw)) (ev_of (field "ev" raw))
        (positive-IsTime (field "ts" raw)))
  | inr e ↦ rw e tt
]

-- A normalized entry of an agent's log has a finite positive time, short texts without the code unit
-- zero, and only the known details, numbers being finite.
pub normalize_agent_conn-IsEntry :
    (raw : Json) (e : AgentConnEntry) → normalize_agent_conn raw ≡ some e → IsEntry e
normalize_agent_conn-IsEntry raw e h = subst (IfSome IsEntry) h (agent_conn-IsEntry raw)

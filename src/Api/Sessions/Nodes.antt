-- ===== src/Api/Sessions/Nodes.antt =====
-- The choice of a relay by `pickLeastLoaded` (apps/rc-api/src/sessions/sessions.service.ts).
use ukpc_remote_control.Prelude.{
  String, true, false, ◌≡◌, ◌≢◌, ◌⊎◌, refl, inl, inr, List, [], ◌∷◌, arith, Number, finite,
  infinity, nan, neg_infinity, ℤ, num_lt, All, Bool-cases,
}
use ukpc_remote_control.Api.Sessions.{Env, least, pick_from, pick_least_loaded}

abbrev pub Among : String × Number → List (String × Number) → Type 0
Among p [] = ⊥
Among p (q ∷ qs) = (p ≡ q) ⊎ Among p qs

-- the load is a finite number
abbrev pub IsLoad : String × Number → Type 0
IsLoad (n, finite k) = Unit
IsLoad (n, _) = ⊥

-- `name` is a node of the list, and no node of the list has a smaller load.
pub record IsLeast (name : String) (nodes : List (String × Number)) : Type 0 where
  pub load : ℤ
  pub listed : Among (name, finite load) nodes
  pub lowest : All (λ q. num_lt q.1 (finite load) ≡ false) nodes

-- What was found among the rest is found among all, if the head is not below it.
keep_looking :
    (name n best : String) (j k : ℤ) (rest : List (String × Number))
    → num_lt (finite j) (finite k) ≡ false
    → IsLeast name ((best, finite k) ∷ rest)
    → IsLeast name ((best, finite k) ∷ (n, finite j) ∷ rest)
keep_looking name n best j k rest e i = record {
  load = i.load;
  listed = elim i.listed [ inl p ↦ inl p | inr p ↦ inr (inr p) ];
  lowest = (i.lowest.0, (ground (arith, i.lowest.0), i.lowest.1));
}

move_on :
    (name n best : String) (j k : ℤ) (rest : List (String × Number))
    → num_lt (finite j) (finite k) ≡ true
    → IsLeast name ((n, finite j) ∷ rest)
    → IsLeast name ((best, finite k) ∷ (n, finite j) ∷ rest)
move_on name n best j k rest e i = record {
  load = i.load;
  listed = inr i.listed;
  lowest = (ground (arith, i.lowest.0), i.lowest);
}

least-IsLeast :
    (best : String) (k : ℤ) (rest : List (String × Number))
    → All IsLoad rest
    → IsLeast (least best (finite k) rest) ((best, finite k) ∷ rest)
unfolding least
least-IsLeast best k [] h = record { load = k; listed = inl refl; lowest = (ground arith, tt) }
least-IsLeast best k ((n, finite j) ∷ rest) h = elim (Bool-cases (num_lt (finite j) (finite k))) [
  | inl e ↦ rw e (move_on _ n best j k rest e (least-IsLeast n j rest h.1))
  | inr e ↦ rw e (keep_looking _ n best j k rest e (least-IsLeast best k rest h.1))
]
least-IsLeast best k ((n, nan) ∷ rest) h = absurd h.0
least-IsLeast best k ((n, infinity) ∷ rest) h = absurd h.0
least-IsLeast best k ((n, neg_infinity) ∷ rest) h = absurd h.0

chosen-IsLeast :
    (default : String) (nodes : List (String × Number))
    → nodes ≢ []
    → All IsLoad nodes
    → IsLeast (pick_from default nodes) nodes
unfolding pick_from least
chosen-IsLeast default [] ne h = absurd (ne refl)
chosen-IsLeast default ((n, finite k) ∷ rest) ne h = least-IsLeast n k rest h.1
chosen-IsLeast default ((n, nan) ∷ rest) ne h = absurd h.0
chosen-IsLeast default ((n, infinity) ∷ rest) ne h = absurd h.0
chosen-IsLeast default ((n, neg_infinity) ∷ rest) ne h = absurd h.0

-- Where relays are registered and their loads are finite numbers, the relay chosen is one of them and
-- no other has a smaller load.
pub pick-IsLeast :
    (e : Env) → e.nodes ≢ [] → All IsLoad e.nodes → IsLeast (pick_least_loaded e) e.nodes
unfolding pick_least_loaded
pick-IsLeast e ne h = chosen-IsLeast e.relay_node e.nodes ne h

-- ===== src/Shared/Semver/Order.antt =====
-- The order of versions that `semverLt` (packages/shared/src/semver.ts) decides.
use ukpc_remote_control.Prelude.{
  String, true, false, List, [], ◌∷◌, ◌≡◌, ◌↔◌, ◌⊎◌, refl, ℤ, ◌<ℤ◌, arith,
}
use ukpc_remote_control.Shared.Semver.{parse, parts_lt, read_parts, semver_lt, three}

-- `as` comes before `bs` in the lexicographic order.
abbrev pub LexLt : List ℤ → List ℤ → Type 0
LexLt [] bs = ⊥
LexLt (a ∷ as') [] = ⊥
LexLt (a ∷ as') (b ∷ bs) = (a <ℤ b) ⊎ ((a ≡ b) × LexLt as' bs)

lex_of_parts_lt : (as' bs : List ℤ) → parts_lt as' bs ≡ true → LexLt as' bs
unfolding parts_lt
lex_of_parts_lt [] bs h = cc
lex_of_parts_lt (a ∷ as') [] h = cc
lex_of_parts_lt (a ∷ as') (b ∷ bs) h = ground (arith, lex_of_parts_lt as' bs)

parts_lt_of_lex : (as' bs : List ℤ) → LexLt as' bs → parts_lt as' bs ≡ true
unfolding parts_lt
parts_lt_of_lex [] bs h = absurd h
parts_lt_of_lex (a ∷ as') [] h = absurd h
parts_lt_of_lex (a ∷ as') (b ∷ bs) h = ground (arith, parts_lt_of_lex as' bs)

parts_lt_trans :
    (as' bs cs : List ℤ) → parts_lt as' bs ≡ true → parts_lt bs cs ≡ true → parts_lt as' cs ≡ true
unfolding parts_lt
parts_lt_trans [] bs cs h k = cc
parts_lt_trans (a ∷ as') [] cs h k = cc
parts_lt_trans (a ∷ as') (b ∷ bs) [] h k = cc
parts_lt_trans (a ∷ as') (b ∷ bs) (c ∷ cs) h k = ground (arith, parts_lt_trans as' bs cs)

parts_lt_irrefl : (as' : List ℤ) → parts_lt as' as' ≡ false
unfolding parts_lt
parts_lt_irrefl [] = refl
parts_lt_irrefl (a ∷ as') = ground (arith, parts_lt_irrefl as')

-- Two lists of one length are compared one way, the other, or are the same.
abbrev SameLength : List ℤ → List ℤ → Type 0
SameLength [] [] = Unit
SameLength [] (b ∷ bs) = ⊥
SameLength (a ∷ as') [] = ⊥
SameLength (a ∷ as') (b ∷ bs) = SameLength as' bs

three-SameLength : (as' bs : List ℤ) → SameLength (three as') (three bs)
three-SameLength [] [] = tt
three-SameLength [] (b ∷ []) = tt
three-SameLength [] (b ∷ b' ∷ []) = tt
three-SameLength [] (b ∷ b' ∷ b'' ∷ bs) = tt
three-SameLength (a ∷ []) [] = tt
three-SameLength (a ∷ []) (b ∷ []) = tt
three-SameLength (a ∷ []) (b ∷ b' ∷ []) = tt
three-SameLength (a ∷ []) (b ∷ b' ∷ b'' ∷ bs) = tt
three-SameLength (a ∷ a' ∷ []) [] = tt
three-SameLength (a ∷ a' ∷ []) (b ∷ []) = tt
three-SameLength (a ∷ a' ∷ []) (b ∷ b' ∷ []) = tt
three-SameLength (a ∷ a' ∷ []) (b ∷ b' ∷ b'' ∷ bs) = tt
three-SameLength (a ∷ a' ∷ a'' ∷ as') [] = tt
three-SameLength (a ∷ a' ∷ a'' ∷ as') (b ∷ []) = tt
three-SameLength (a ∷ a' ∷ a'' ∷ as') (b ∷ b' ∷ []) = tt
three-SameLength (a ∷ a' ∷ a'' ∷ as') (b ∷ b' ∷ b'' ∷ bs) = tt

parts_lt_total :
    (as' bs : List ℤ)
    → SameLength as' bs
    → (parts_lt as' bs ≡ true) ⊎ (parts_lt bs as' ≡ true) ⊎ (as' ≡ bs)
unfolding parts_lt
parts_lt_total [] [] h = ground arith
parts_lt_total [] (b ∷ bs) h = absurd h
parts_lt_total (a ∷ as') [] h = absurd h
parts_lt_total (a ∷ as') (b ∷ bs) h = ground (arith, parts_lt_total as' bs)

parse-SameLength : (a b : String) → SameLength (parse a) (parse b)
unfolding parse
parse-SameLength a b = three-SameLength (read_parts a) (read_parts b)

-- `semverLt(a, b)` holds exactly when the three numbers read from `a` come before those read from
-- `b` in the lexicographic order.
pub semver_lt_iff : (a b : String) → (semver_lt a b ≡ true) ↔ LexLt (parse a) (parse b)
unfolding semver_lt
semver_lt_iff a b = (lex_of_parts_lt (parse a) (parse b), parts_lt_of_lex (parse a) (parse b))

-- `semverLt` is a strict order on versions: no version is below itself, the order is transitive,
-- and of two versions one is below the other or both read as the same three numbers.
pub semver_lt_order :
    (a b c : String)
    → (semver_lt a a ≡ false)
      × (semver_lt a b ≡ true → semver_lt b c ≡ true → semver_lt a c ≡ true)
      × ((semver_lt a b ≡ true) ⊎ (semver_lt b a ≡ true) ⊎ (parse a ≡ parse b))
unfolding semver_lt
semver_lt_order a b c = (
  parts_lt_irrefl (parse a),
  parts_lt_trans (parse a) (parse b) (parse c),
  parts_lt_total (parse a) (parse b) (parse-SameLength a b),
)

-- A version at or above a second one that is at or above a third is at or above the third.
pub semver_ge_trans :
    (a b c : String) → semver_lt a b ≡ false → semver_lt b c ≡ false → semver_lt a c ≡ false
unfolding semver_lt
semver_ge_trans a b c h k = ground (
  arith,
  parts_lt_total (parse a) (parse b) (parse-SameLength a b),
  parts_lt_trans (parse b) (parse a) (parse c),
)

-- ===== src/Shared/Hw/Samples.antt =====
-- What a normalized hardware sample may hold (packages/shared/src/hw.ts).
use ukpc_remote_control.Prelude.{
  ℕ, zero, suc, ◌≤◌, ◌≡◌, refl, inl, inr, String, true, false, ◌&&◌, Option, none, some, List, [],
  ◌∷◌, arith, Number, num, num_lt, is_finite, take, map, length, length-take-le, length-map, All,
  nat_eq, lookup, Bool-cases,
}
use mathlib.Core.Path.{subst}
use ukpc_remote_control.Shared.Json.{
  Json, null, bool, number, text, array, object, is_object, field, without_nul, clean,
}
use ukpc_remote_control.Shared.Hw.{
  Kind, a_number, a_boolean, a_string, strings, Value, unread, a_num, a_flag, a_text, texts,
  HwSample, sample_fields, max_str, max_anomaly, keep, kept, store, keep_fields, time_of, sample_at,
  normalize_hw_sample, texts_of,
}

-- a text without the code unit that Postgres refuses, and not longer than `max`
abbrev pub IsClean : ℕ → List ℕ → Type 0
IsClean max s = (length s ≤ max) × All (λ u. nat_eq u 0 ≡ false) s

-- what may be stored under a field of a kind
abbrev pub Fits : Kind → Value → Type 0
Fits kind unread = Unit
Fits a_number (a_num x) = is_finite x ≡ true
Fits a_boolean (a_flag b) = Unit
Fits a_string (a_text s) = IsClean max_str s
Fits strings (texts ss) = (length ss ≤ max_anomaly) × All (IsClean max_str) ss
Fits _ _ = ⊥

without_nul-All : (s : List ℕ) → All (λ u. nat_eq u 0 ≡ false) (without_nul s)
unfolding without_nul
without_nul-All [] = tt
without_nul-All (u ∷ us) = elim (Bool-cases (nat_eq u 0)) [
  | inl e ↦ rw e (without_nul-All us)
  | inr e ↦ rw e (e, without_nul-All us)
]

take-All :
    (n : ℕ) (s : List ℕ)
    → All (λ u. nat_eq u 0 ≡ false) s
    → All (λ u. nat_eq u 0 ≡ false) (take n s)
take-All zero s h = tt
take-All (suc n) [] h = tt
take-All (suc n) (u ∷ us) (a, h) = (a, take-All n us h)

pub clean-IsClean : (max : ℕ) (s : List ℕ) → IsClean max (clean max s)
unfolding clean
clean-IsClean max s =
    (length-take-le max (without_nul s), take-All max (without_nul s) (without_nul-All s))

map-clean-All : (max : ℕ) (ss : List (List ℕ)) → All (IsClean max) (map (clean max) ss)
map-clean-All max [] = tt
map-clean-All max (s ∷ ss) = (clean-IsClean max s, map-clean-All max ss)

-- whatever is stored fits its kind
FitsAny : Kind → Option Value → Type 0
FitsAny kind none = Unit
FitsAny kind (some v) = Fits kind v

keep-Fits : (kind : Kind) (v : Json) → FitsAny kind (keep kind v)
unfolding keep FitsAny
keep-Fits a_number null = tt
keep-Fits a_number (bool b) = tt
keep-Fits a_number (number x) = elim (Bool-cases (is_finite x)) [ inl e ↦ rw e e | inr e ↦ rw e tt ]
keep-Fits a_number (text s) = tt
keep-Fits a_number (array elems) = tt
keep-Fits a_number (object _) = tt
keep-Fits a_boolean null = tt
keep-Fits a_boolean (bool b) = tt
keep-Fits a_boolean (number x) = tt
keep-Fits a_boolean (text s) = tt
keep-Fits a_boolean (array elems) = tt
keep-Fits a_boolean (object _) = tt
keep-Fits a_string null = tt
keep-Fits a_string (bool b) = tt
keep-Fits a_string (number x) = tt
keep-Fits a_string (text s) = clean-IsClean max_str s
keep-Fits a_string (array elems) = tt
keep-Fits a_string (object _) = tt
keep-Fits strings null = tt
keep-Fits strings (bool b) = tt
keep-Fits strings (number x) = tt
keep-Fits strings (text s) = tt
keep-Fits strings (array elems) = (
  omega (
    arith,
    length-map (clean max_str) (take max_anomaly (texts_of elems)),
    length-take-le max_anomaly (texts_of elems),
  ),
  map-clean-All max_str (take max_anomaly (texts_of elems)),
)
keep-Fits strings (object _) = tt

-- A field of a sample is a known one, and its value fits it.
unfoldable pub FitsField : Option Kind → Value → Type 0
FitsField none v = ⊥
FitsField (some kind) v = Fits kind v

abbrev pub IsKnown : String × Value → Type 0
IsKnown (key, v) = FitsField (lookup key sample_fields) v

kept-Fits : (kind : Kind) (o : Option Json) → FitsAny kind (kept kind o)
unfolding kept FitsAny
kept-Fits kind none = tt
kept-Fits kind (some v) = keep-Fits kind v

store-All :
    (key : String) (kind : Kind) (o : Option Value) (rest : List (String × Value))
    → lookup key sample_fields ≡ some kind
    → FitsAny kind o
    → All IsKnown rest
    → All IsKnown (store key o rest)
unfolding store FitsAny FitsField
store-All key kind none rest e f h = h
store-All key kind (some v) rest e f h = (rw (e, FitsField) f, h)

keep_fields-All :
    (raw : Json) (fs : List (String × Kind))
    → All (λ f. lookup f.0 sample_fields ≡ some f.1) fs
    → All IsKnown (keep_fields raw fs)
unfolding keep_fields
keep_fields-All raw [] h = tt
keep_fields-All raw ((key, kind) ∷ rest) (e, h) =
    store-All key kind (kept kind (field key raw)) (keep_fields raw rest) e
      (kept-Fits kind (field key raw)) (keep_fields-All raw rest h)

sample_fields-All : All (λ f. lookup f.0 sample_fields ≡ some f.1) sample_fields
unfolding lookup
sample_fields-All = (
  refl,
  (
    refl,
    (
      refl,
      (
        refl,
        (
          refl,
          (
            refl,
            (
              refl,
              (
                refl,
                (
                  refl,
                  (
                    refl,
                    (
                      refl,
                      (
                        refl,
                        (
                          refl,
                          (
                            refl,
                            (
                              refl,
                              (
                                refl,
                                (refl, (refl, (refl, (refl, (refl, (refl, (refl, (refl, tt)))))))),
                              ),
                            ),
                          ),
                        ),
                      ),
                    ),
                  ),
                ),
              ),
            ),
          ),
        ),
      ),
    ),
  ),
)

abbrev pub IsTime : Number → Type 0
IsTime t = (is_finite t && num_lt (num 0) t) ≡ true

TimeAny : Option Number → Type 0
TimeAny none = Unit
TimeAny (some t) = IsTime t

time_of-TimeAny : (o : Option Json) → TimeAny (time_of o)
unfolding time_of TimeAny
time_of-TimeAny none = tt
time_of-TimeAny (some null) = tt
time_of-TimeAny (some (bool b)) = tt
time_of-TimeAny (some (text x)) = tt
time_of-TimeAny (some (array elems)) = tt
time_of-TimeAny (some (object o)) = tt
time_of-TimeAny (some (number x)) = elim (Bool-cases (is_finite x && num_lt (num 0) x)) [
  | inl e ↦ rw e e
  | inr e ↦ rw e tt
]

abbrev pub IsGood : HwSample → Type 0
IsGood s = IsTime s.ts × All IsKnown s.fields

GoodAny : Option HwSample → Type 0
GoodAny none = Unit
GoodAny (some s) = IsGood s

sample_at-GoodAny : (raw : Json) (t : Option Number) → TimeAny t → GoodAny (sample_at raw t)
unfolding sample_at TimeAny GoodAny
sample_at-GoodAny raw none h = tt
sample_at-GoodAny raw (some t) h = (h, keep_fields-All raw sample_fields sample_fields-All)

normalize-GoodAny : (raw : Json) → GoodAny (normalize_hw_sample raw)
unfolding normalize_hw_sample GoodAny
normalize-GoodAny raw = elim (Bool-cases (is_object raw)) [
  | inl e ↦
      rw e (sample_at-GoodAny raw (time_of (field "ts" raw)) (time_of-TimeAny (field "ts" raw)))
  | inr e ↦ rw e tt
]

-- A normalized sample has a time that is a finite positive number, and only known fields, each with a
-- value of its kind: numbers are finite, and texts are short and without the code unit zero.
pub normalize_hw_sample-IsGood :
    (raw : Json) (s : HwSample) → normalize_hw_sample raw ≡ some s → IsGood s
unfolding GoodAny
normalize_hw_sample-IsGood raw s h = subst GoodAny h (normalize-GoodAny raw)

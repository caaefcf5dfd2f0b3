-- ===== src/Shared/Semver.antt =====
-- packages/shared/src/semver.ts. A text is walked as its code points; `parseInt` is written out.
-- Numbers of more than 15 digits, which JavaScript rounds, are read exactly.
pub mod Order
use ukpc_remote_control.Prelude.{
  ℕ, zero, suc, ◌+◌, ◌-◌, ◌*◌, String, Bool, true, false, ◌&&◌, ◌||◌, Option, none, some, List, [],
  ◌∷◌, map, ℤ, pos, negsuc, ltb_ℤ, leb, nat_eq, get_or, codes, if◌then◌else◌,
}

is_digit : ℕ → Bool
is_digit c = leb b'0' c && leb c b'9'

-- the white space that `parseInt` skips
is_space : ℕ → Bool
is_space c =
    (leb 9 c && leb c 13)
    || nat_eq c 0x20
    || nat_eq c 0xa0
    || nat_eq c 0x1680
    || (leb 0x2000 c && leb c 0x200a)
    || nat_eq c 0x2028
    || nat_eq c 0x2029
    || nat_eq c 0x202f
    || nat_eq c 0x205f
    || nat_eq c 0x3000
    || nat_eq c 0xfeff

skip_space : List ℕ → List ℕ
unfolding is_space
skip_space [] = []
skip_space (c ∷ cs) = let rest = skip_space cs in if is_space c then rest else c ∷ cs

-- the digits up to the first other character; `none` where there is none, as for NaN
digits_from : ℕ → List ℕ → ℕ
unfolding is_digit
digits_from acc [] = acc
digits_from acc (c ∷ cs) =
    let more = digits_from (acc * 10 + (c - b'0')) cs in if is_digit c then more else acc

digits : List ℕ → Option ℕ
unfolding digits_from
digits [] = none
digits (c ∷ cs) = if is_digit c then some (digits_from 0 (c ∷ cs)) else none

abbrev negate : ℕ → ℤ
negate zero = pos 0
negate (suc n) = negsuc n

abbrev minus_of : Option ℕ → Option ℤ
minus_of none = none
minus_of (some n) = some (negate n)

abbrev plus_of : Option ℕ → Option ℤ
plus_of none = none
plus_of (some n) = some (pos n)

signed : List ℕ → Option ℤ
unfolding digits
signed [] = none
signed (c ∷ cs) =
    if nat_eq c b'-'
    then minus_of (digits cs)
    else if nat_eq c b'+'
    then plus_of (digits cs)
    else plus_of (digits (c ∷ cs))

-- `parseInt(n, 10)`, `none` for NaN
parse_int : List ℕ → Option ℤ
unfolding skip_space signed
parse_int cs = signed (skip_space cs)

-- `.split('.')`
abbrev cons_head : ℕ → List (List ℕ) → List (List ℕ)
cons_head c [] = (c ∷ []) ∷ []
cons_head c (part ∷ parts) = (c ∷ part) ∷ parts

split_dots : List ℕ → List (List ℕ)
split_dots [] = [] ∷ []
split_dots (c ∷ cs) =
    let rest = split_dots cs in if nat_eq c b'.' then [] ∷ rest else cons_head c rest

-- `.replace(/^v/, '')`
strip_v : List ℕ → List ℕ
strip_v [] = []
strip_v (c ∷ cs) = if nat_eq c b'v' then cs else c ∷ cs

-- `const [maj = 0, min = 0, pat = 0] = …`
abbrev three : List ℤ → List ℤ
three [] = pos 0 ∷ pos 0 ∷ pos 0 ∷ []
three (maj ∷ []) = maj ∷ pos 0 ∷ pos 0 ∷ []
three (maj ∷ min ∷ []) = maj ∷ min ∷ pos 0 ∷ []
three (maj ∷ min ∷ pat ∷ more) = maj ∷ min ∷ pat ∷ []

-- the array that the pattern takes apart
read_parts : String → List ℤ
unfolding strip_v split_dots parse_int
read_parts v = map (λ n. get_or (parse_int n) (pos 0)) (split_dots (strip_v (codes v)))

unfoldable pub parse : String → List ℤ
unfolding read_parts
parse v = three (read_parts v)

-- the loop of `semverLt` over the parts of the two versions
pub parts_lt : List ℤ → List ℤ → Bool
parts_lt [] bs = false
parts_lt (a ∷ as') [] = false
parts_lt (a ∷ as') (b ∷ bs) =
    if ltb_ℤ a b then true else if ltb_ℤ b a then false else parts_lt as' bs

unfoldable pub semver_lt : String → String → Bool
unfolding parse parts_lt
semver_lt a b = parts_lt (parse a) (parse b)

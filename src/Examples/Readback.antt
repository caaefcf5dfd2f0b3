-- ===== src/Examples/Readback.antt =====
-- Tests of the live state of a device, with numbers printed as tallies.

use Prim.Native.Char.{code}
use ukpc_remote_control.Prelude.{
  ℕ, zero, suc, ◌≡◌, refl, ap, String, true, List, [], ◌∷◌, Number, finite, pos, negsuc, nan,
  infinity, neg_infinity, nat_eq, if◌then◌else◌,
}
use ukpc_remote_control.Shared.Keys
use ukpc_remote_control.Api.Devices.{empty_row, to_device_state}
use ukpc_remote_control.Ingest.{Env}
use ukpc_remote_control.Ingest.Live.{write_state}
use ukpc_remote_control.Ingest.Readback.{live_round}
use ukpc_remote_control.Examples.Ingesting.{env, first, hello}
use ukpc_remote_control.Examples.Store.{store}

abbrev ones : ℕ → List ℕ
ones zero = []
ones (suc n) = 1 ∷ ones n

abbrev print : Number → List ℕ
print (finite (pos n)) = 0 ∷ ones n
print (finite (negsuc n)) = 1 ∷ ones n
print infinity = 0 ∷ 0 ∷ []
print neg_infinity = 1 ∷ 0 ∷ []
print nan = []

abbrev text_of : List ℕ → String
text_of [] = ""
text_of (u ∷ us) = if nat_eq u 0 then String.◌∷◌ "a" (text_of us) else String.◌∷◌ "b" (text_of us)

abbrev tally : String → ℕ
tally String.[] = 0
tally (String.◌∷◌ c s) = suc (tally s)

abbrev read : (ℕ → Number) → Number → String → Number
read f limit String.[] = f 0
read f limit (String.◌∷◌ c s) = if nat_eq (code c) b'a' then limit else f (suc (tally s))

abbrev number_of : String → Number
number_of String.[] = nan
number_of (String.◌∷◌ c s) =
    if nat_eq (code c) b'a'
    then read (λ n. finite (pos n)) infinity s
    else read (λ n. finite (negsuc n)) neg_infinity s

tally-ones : (n : ℕ) → tally (text_of (ones n)) ≡ n
tally-ones zero = refl
tally-ones (suc n) = ap suc (tally-ones n)

read_back : (x : Number) → number_of (text_of (print x)) ≡ x
read_back (finite (pos zero)) = refl
read_back (finite (pos (suc n))) = ap (λ k. finite (pos (suc k))) (tally-ones n)
read_back (finite (negsuc zero)) = refl
read_back (finite (negsuc (suc n))) = ap (λ k. finite (negsuc (suc k))) (tally-ones n)
read_back nan = refl
read_back infinity = refl
read_back neg_infinity = refl

abbrev tally_env : Env
tally_env = record env { print = print; text_of = text_of }

live_round_example :
    (to_device_state number_of (empty_row "TAB-1") (
      store.hgetall
        (write_state store tally_env first "TAB-1" hello).store
        (Keys.device "TAB-1"))).online
    ≡ true
live_round_example =
    (live_round store tally_env number_of read_back first "TAB-1" hello true (empty_row "TAB-1")
      refl).0

-- ===== src/Prelude/Parse.antt =====
-- strconv.ParseInt(s, 10, 64), strconv.Atoi and strconv.FormatInt, as package strconv defines them.
use Prim.Native.Nat.{ℕ, zero, suc, ◌+◌, ◌-◌, ◌*◌, ◌/◌, ◌%◌}
use mathlib.Core.Path.{◌≡◌, refl}
use mathlib.Core.Bool.{Bool, true, false, ◌||◌}
use mathlib.Core.Option.{Option, none, some}
use mathlib.Core.List.{[], ◌∷◌}
use projet_etude_app_demo.Prelude.Tests.{leb, ltb, ◌==◌, if◌then◌else◌}
use projet_etude_app_demo.Prelude.Int.{ℤ, pos, negsuc, sub_ℕ, word_mod, int64_min_abs}
use projet_etude_app_demo.Prelude.Strings.{Bytes, str}

pub data NumError : Type 0 where
  syntax range : NumError

-- The digit loop of strconv.ParseUint: the value so far, or the error met first.
parse_digits : ℕ → Bytes → ℕ × Option NumError
parse_digits acc [] = (acc, none)
parse_digits acc (c ∷ s) =
    let rest = parse_digits (acc * 10 + (c - 48)) s in
    if ltb c 48 || ltb 57 c
    then (0, some syntax)
    else if leb word_mod (acc * 10 + (c - 48))
    then (word_mod - 1, some range)
    else rest

parse_uint : Bytes → ℕ × Option NumError
unfolding parse_digits
parse_uint [] = (0, some syntax)
parse_uint (c ∷ s) = parse_digits 0 (c ∷ s)

-- The end of strconv.ParseInt: a value out of range comes back as the nearest bound.
bound_int : Bool → ℕ × Option NumError → ℤ × Option NumError
bound_int negative (n, some syntax) = (pos 0, some syntax)
bound_int false (n, some range) = (pos (int64_min_abs - 1), some range)
bound_int true (n, some range) = (sub_ℕ 0 int64_min_abs, some range)
bound_int false (n, none) =
    if leb int64_min_abs n then (pos (int64_min_abs - 1), some range) else (pos n, none)
bound_int true (n, none) =
    if ltb int64_min_abs n then (sub_ℕ 0 int64_min_abs, some range) else (sub_ℕ 0 n, none)

unfoldable pub parse_int : Bytes → ℤ × Option NumError
unfolding parse_uint bound_int
parse_int [] = (pos 0, some syntax)
parse_int (c ∷ s) =
    if c == b'-'
    then bound_int true (parse_uint s)
    else if c == b'+'
    then bound_int false (parse_uint s)
    else bound_int false (parse_uint (c ∷ s))

-- strconv.Atoi returns the same value and error: `int` has 64 bits.
abbrev pub atoi : Bytes → ℤ × Option NumError
atoi s = parse_int s

-- The decimal digits of a number, in front of `tail`; the fuel is one more than the number.
format_from : ℕ → ℕ → Bytes → Bytes
format_from zero n tail = tail
format_from (suc fuel) n tail =
    let more = format_from fuel (n / 10) ((48 + n % 10) ∷ tail) in
    if ltb n 10 then (48 + n) ∷ tail else more

unfoldable pub format_nat : ℕ → Bytes
unfolding format_from
format_nat n = format_from (suc n) n []

parse_test : parse_int (str "-42") ≡ (negsuc 41, none)
unfolding parse_int
parse_test = refl

parse_range_test : parse_int (str "99999999999999999999") ≡ (pos 9223372036854775807, some range)
unfolding parse_int
parse_range_test = refl

format_test : format_nat 1203 ≡ str "1203"
unfolding format_nat
format_test = refl

-- ===== src/Prelude/Strings.antt =====
-- Go strings: sequences of bytes, and what the program uses of package strings.
use Prim.Native.Nat.{ℕ, zero, suc}
use Prim.Native.Char.{code}
use Prim.Native.String.{String}
use mathlib.Core.Path.{◌≡◌, refl}
use mathlib.Core.Logic.{◌↔◌, ◌≢◌}
use mathlib.Core.Bool.{Bool, true, false, ◌&&◌, ◌||◌}
use mathlib.Core.Option.{Option, none, some}
use mathlib.Core.List.{List, [], ◌∷◌, ◌++◌, reverse}
use native.Mathlib.Omega.{arith}
use projet_etude_app_demo.Prelude.Tests.{leb, ◌==◌, if◌then◌else◌}

abbrev pub Bytes : Type 0
Bytes = List ℕ

-- An ASCII literal.
abbrev pub str : String → Bytes
str String.[] = []
str (String.◌∷◌ c s) = code c ∷ str s

-- s == t
unfoldable pub str_eq : Bytes → Bytes → Bool
str_eq [] [] = true
str_eq (a ∷ s) (b ∷ t) = a == b && str_eq s t
str_eq _ _ = false

pub eq_of_str_eq : (s t : Bytes) → str_eq s t ≡ true → s ≡ t
unfolding str_eq
eq_of_str_eq [] [] h = refl
eq_of_str_eq [] (b ∷ t) h = cc
eq_of_str_eq (a ∷ s) [] h = cc
eq_of_str_eq (a ∷ s) (b ∷ t) h = ground (arith, eq_of_str_eq s t)

pub str_eq_refl : (s : Bytes) → str_eq s s ≡ true
unfolding str_eq
str_eq_refl [] = refl
str_eq_refl (a ∷ s) = ground (arith, str_eq_refl s)

pub str_eq_iff : (s t : Bytes) → (str_eq s t ≡ true) ↔ (s ≡ t)
str_eq_iff s t = (eq_of_str_eq s t, λ e. rw e (str_eq_refl t))

pub ne_of_str_eq : (s t : Bytes) → str_eq s t ≡ false → s ≢ t
ne_of_str_eq s t h e = cc ((str_eq_iff s t).1 e)

-- s == ""
abbrev pub is_empty : Bytes → Bool
is_empty [] = true
is_empty (_ ∷ _) = false

-- strings.TrimPrefix after a strings.HasPrefix: the rest, if the prefix is there.
unfoldable pub cut_prefix : Bytes → Bytes → Option Bytes
cut_prefix [] s = some s
cut_prefix (p ∷ ps) [] = none
cut_prefix (p ∷ ps) (c ∷ s) = if p == c then cut_prefix ps s else none

unfoldable pub has_prefix : Bytes → Bytes → Bool
unfolding cut_prefix
has_prefix p s = elim (cut_prefix p s) [ none ↦ false | some _ ↦ true ]

pub cut_prefix-append : (p s : Bytes) → cut_prefix p (p ++ s) ≡ some s
unfolding cut_prefix
cut_prefix-append [] s = refl
cut_prefix-append (c ∷ p) s = ground (arith, cut_prefix-append p s)

-- strings.Contains(s, t)
unfoldable pub contains_str : Bytes → Bytes → Bool
unfolding has_prefix
contains_str [] t = is_empty t
contains_str (c ∷ s) t = has_prefix t (c ∷ s) || contains_str s t

-- strings.IndexByte and strings.SplitN(s, sep, 2): what stands before and after the first `sep`.
unfoldable pub split_at_byte : ℕ → Bytes → Option (Bytes × Bytes)
split_at_byte sep [] = none
split_at_byte sep (c ∷ s) =
    let rest = split_at_byte sep s in
    if c == sep then some ([], s) else elim rest [ none ↦ none | some (a, b) ↦ some (c ∷ a, b) ]

-- strings.Split(s, sep): at least one part.
unfoldable pub split_all : ℕ → Bytes → Bytes → List Bytes
split_all sep part [] = reverse part ∷ []
split_all sep part (c ∷ s) =
    let next = split_all sep [] s in
    let more = split_all sep (c ∷ part) s in if c == sep then reverse part ∷ next else more

-- unicode.IsSpace, on ASCII.
abbrev pub is_space : ℕ → Bool
is_space c = c == 32 || (leb 9 c && leb c 13)

-- U+0085 and U+00A0, of two bytes.
abbrev is_space2 : ℕ → ℕ → Bool
is_space2 a b = a == 0xc2 && (b == 0x85 || b == 0xa0)

-- U+1680, U+2000 to U+200A, U+2028, U+2029, U+202F, U+205F and U+3000, of three bytes.
abbrev is_space3 : ℕ → ℕ → ℕ → Bool
is_space3 a b c =
    (a == 0xe1 && b == 0x9a && c == 0x80)
    || (a == 0xe2
        && b == 0x80
        && ((leb 0x80 c && leb c 0x8a) || c == 0xa8 || c == 0xa9 || c == 0xaf))
    || (a == 0xe2 && b == 0x81 && c == 0x9f)
    || (a == 0xe3 && b == 0x80 && c == 0x80)

-- The bytes of the white space at the head of a text: 0 if there is none.
lead_width : Bytes → ℕ
lead_width [] = 0
lead_width (a ∷ []) = if is_space a then 1 else 0
lead_width (a ∷ b ∷ []) = if is_space a then 1 else if is_space2 a b then 2 else 0
lead_width (a ∷ b ∷ c ∷ _) =
    if is_space a then 1 else if is_space2 a b then 2 else if is_space3 a b c then 3 else 0

-- The same for a reversed text, whose encodings stand backwards.
tail_width : Bytes → ℕ
tail_width [] = 0
tail_width (a ∷ []) = if is_space a then 1 else 0
tail_width (a ∷ b ∷ []) = if is_space a then 1 else if is_space2 b a then 2 else 0
tail_width (a ∷ b ∷ c ∷ _) =
    if is_space a then 1 else if is_space2 b a then 2 else if is_space3 c b a then 3 else 0

-- Drops `pending` bytes, and then white space again and again.
trim_with : (Bytes → ℕ) → ℕ → Bytes → Bytes
trim_with width pending [] = []
trim_with width (suc n) (a ∷ s) = trim_with width n s
trim_with width zero (a ∷ s) = go (width (a ∷ s)) (λ n. trim_with width n s)
  where
    go : ℕ → (ℕ → Bytes) → Bytes
    go zero k = a ∷ s
    go (suc n) k = k n

-- strings.TrimSpace
unfoldable pub trim_space : Bytes → Bytes
unfolding trim_with lead_width tail_width
trim_space s = reverse (trim_with tail_width 0 (reverse (trim_with lead_width 0 s)))

-- The tests of strings.TrimSpace on both ends.
trim_test :
    trim_space (32 ∷ 9 ∷ 0xc2 ∷ 0xa0 ∷ 97 ∷ 32 ∷ 98 ∷ 0xe3 ∷ 0x80 ∷ 0x80 ∷ []) ≡ 97 ∷ 32 ∷ 98 ∷ []
unfolding trim_space
trim_test = refl

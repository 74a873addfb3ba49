-- ===== src/Prelude/Base64.antt =====
-- base64.RawURLEncoding of encoding/base64: EncodeToString, and DecodeString as it is, which passes
-- over line ends and does not look at the bits that are left in the last character.
use Prim.Native.Nat.{ℕ, ◌+◌, ◌-◌, ◌*◌, ◌/◌, ◌%◌, ◌<◌}
use mathlib.Core.Path.{◌≡◌, refl}
use mathlib.Core.Bool.{Bool, true, false, ◌||◌, ◌&&◌, not}
use mathlib.Core.Option
use mathlib.Core.Option.{Option, none, some}
use mathlib.Core.List.{List, [], ◌∷◌}
use native.Mathlib.Omega.{arith}
use projet_etude_app_demo.Prelude.Tests.{
  leb, ltb, ◌==◌, if◌then◌else◌, holds_below, true_of_holds_below,
}
use projet_etude_app_demo.Prelude.Lists.{All}
use projet_etude_app_demo.Prelude.Strings.{Bytes, str}

-- The alphabet A-Z a-z 0-9 - _.
unfoldable pub char_of : ℕ → ℕ
char_of n =
    if ltb n 26
    then 65 + n
    else if ltb n 52
    then 71 + n
    else if ltb n 62
    then n - 4
    else if n == 62
    then 45
    else 95

unfoldable pub index_of : ℕ → Option ℕ
index_of c =
    if leb 65 c && leb c 90
    then some (c - 65)
    else if leb 97 c && leb c 122
    then some (c - 71)
    else if leb 48 c && leb c 57
    then some (c + 4)
    else if c == 45
    then some 62
    else if c == 95
    then some 63
    else none

unfoldable pub encode : Bytes → Bytes
encode [] = []
encode (a ∷ []) = char_of (a / 4) ∷ char_of (a % 4 * 16) ∷ []
encode (a ∷ b ∷ []) = char_of (a / 4) ∷ char_of (a % 4 * 16 + b / 16) ∷ char_of (b % 16 * 4) ∷ []
encode (a ∷ b ∷ c ∷ s) =
    char_of (a / 4)
    ∷ char_of (a % 4 * 16 + b / 16)
    ∷ char_of (b % 16 * 4 + c / 64)
    ∷ char_of (c % 64)
    ∷ encode s

-- The values of the characters, line ends left out; none if a character is not of the alphabet.
unfoldable pub sextets : Bytes → Option (List ℕ)
sextets [] = some []
sextets (c ∷ s) =
    let rest = sextets s in
    if c == 10 || c == 13
    then rest
    else elim (index_of c) [ none ↦ none | some n ↦ Option.map (λ ns. n ∷ ns) rest ]

unfoldable pub regroup : List ℕ → Option Bytes
regroup [] = some []
regroup (a ∷ []) = none
regroup (a ∷ b ∷ []) = some ((a * 4 + b / 16) ∷ [])
regroup (a ∷ b ∷ c ∷ []) = some ((a * 4 + b / 16) ∷ (b % 16 * 16 + c / 4) ∷ [])
regroup (a ∷ b ∷ c ∷ d ∷ s) =
    Option.map (λ r. (a * 4 + b / 16) ∷ (b % 16 * 16 + c / 4) ∷ (c % 4 * 64 + d) ∷ r) (regroup s)

unfoldable pub decode : Bytes → Option Bytes
unfolding sextets regroup
decode s = elim (sextets s) [ none ↦ none | some ns ↦ regroup ns ]

encode_test : encode (str "hello") ≡ str "aGVsbG8"
unfolding encode char_of
encode_test = refl

decode_test : decode (str "aGVsbG8") ≡ some (str "hello")
unfolding decode index_of
decode_test = refl

-- The sextets that `encode` writes.
values : Bytes → List ℕ
values [] = []
values (a ∷ []) = (a / 4) ∷ (a % 4 * 16) ∷ []
values (a ∷ b ∷ []) = (a / 4) ∷ (a % 4 * 16 + b / 16) ∷ (b % 16 * 4) ∷ []
values (a ∷ b ∷ c ∷ s) =
    (a / 4) ∷ (a % 4 * 16 + b / 16) ∷ (b % 16 * 4 + c / 64) ∷ (c % 64) ∷ values s

abbrev pub IsByte : ℕ → Type 0
IsByte n = n < 256

-- Each character of the alphabet has its value, and is neither a line end nor a dot.
abbrev is_good : ℕ → Bool
is_good n =
    elim (index_of (char_of n)) [ none ↦ false | some m ↦ m == n ]
    && not (char_of n == 10)
    && not (char_of n == 13)
    && not (char_of n == 46)

good_table : holds_below is_good 64 ≡ true
unfolding holds_below char_of index_of
good_table = refl

good : (n : ℕ) → n < 64 → is_good n ≡ true
good n h = true_of_holds_below is_good 64 n h good_table

sextets-cons :
    (n : ℕ) (s : Bytes) {ns : List ℕ}
    → n < 64
    → sextets s ≡ some ns
    → sextets (char_of n ∷ s) ≡ some (n ∷ ns)
unfolding sextets
sextets-cons n s h e = ground (arith, good n h)

sextets-encode : (s : Bytes) → All IsByte s → sextets (encode s) ≡ some (values s)
unfolding encode values
sextets-encode [] h = unfold sextets in refl
sextets-encode (a ∷ []) (ha, _) =
    sextets-cons (a / 4) _ (omega arith)
      (sextets-cons (a % 4 * 16) [] (omega arith) (unfold sextets in refl))
sextets-encode (a ∷ b ∷ []) (ha, (hb, _)) = sextets-cons (a / 4) _ (omega arith) (
    sextets-cons (a % 4 * 16 + b / 16) _ (omega arith)
      (sextets-cons (b % 16 * 4) [] (omega arith) (unfold sextets in refl)))
sextets-encode (a ∷ b ∷ c ∷ s) (ha, (hb, (hc, h))) = sextets-cons (a / 4) _ (omega arith) (
    sextets-cons (a % 4 * 16 + b / 16) _ (omega arith) (
      sextets-cons (b % 16 * 4 + c / 64) _ (omega arith)
        (sextets-cons (c % 64) _ (omega arith) (sextets-encode s h))))

regroup-values : (s : Bytes) → All IsByte s → regroup (values s) ≡ some s
unfolding regroup values
regroup-values [] h = refl
regroup-values (a ∷ []) (ha, _) = ground arith
regroup-values (a ∷ b ∷ []) (ha, (hb, _)) = ground arith
regroup-values (a ∷ b ∷ c ∷ s) (ha, (hb, (hc, h))) = ground (arith, regroup-values s h)

-- Decoding gives back the bytes that were encoded.
pub decode-encode : (s : Bytes) → All IsByte s → decode (encode s) ≡ some s
unfolding decode
decode-encode s h = rw (sextets-encode s h, decode) (regroup-values s h)

no_dot : (n : ℕ) → n < 64 → (char_of n == 46) ≡ false
no_dot n h = ground (arith, good n h)

-- No encoding holds a dot.
pub encode-NoDot : (s : Bytes) → All IsByte s → All (λ c. (c == 46) ≡ false) (encode s)
unfolding encode
encode-NoDot [] h = tt
encode-NoDot (a ∷ []) (ha, _) =
    (no_dot (a / 4) (omega arith), (no_dot (a % 4 * 16) (omega arith), tt))
encode-NoDot (a ∷ b ∷ []) (ha, (hb, _)) = (
  no_dot (a / 4) (omega arith),
  (no_dot (a % 4 * 16 + b / 16) (omega arith), (no_dot (b % 16 * 4) (omega arith), tt)),
)
encode-NoDot (a ∷ b ∷ c ∷ s) (ha, (hb, (hc, h))) = (
  no_dot (a / 4) (omega arith),
  (
    no_dot (a % 4 * 16 + b / 16) (omega arith),
    (no_dot (b % 16 * 4 + c / 64) (omega arith), (no_dot (c % 64) (omega arith), encode-NoDot s h)),
  ),
)

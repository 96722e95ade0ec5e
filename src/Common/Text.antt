-- ===== src/Common/Text.antt =====
-- Text as the source reads it: truthiness, JavaScript's white space, lengths, decimal digits.
use Prim.Native.Nat.{ℕ, zero, suc, ◌+◌, ◌-◌, ◌*◌}
use Prim.Native.Char.{Char, code, nul}
use Prim.Native.String.{String, [], ◌∷◌, len}
use Prim.Native.String.{◌++◌ as text_append}
use mathlib.Core.Bool.{Bool, true, false, not, ◌&&◌, ◌||◌}
use mathlib.Core.Option.{Option, none, some}
use text.Mathlib.Text.{◌==◌, is_le}
use Prim.Native.String.{compare}
use zephipay_backend.Common.Tests.{ltb, leb, eqb, if◌then◌else◌}

-- A text is falsy exactly if it is empty.
abbrev pub nonempty : String → Bool
nonempty s = not (s == "")

-- `Boolean(value)` of an optional text.
abbrev pub truthy : Option String → Bool
truthy none = false
truthy (some s) = not (s == "")

-- The code points that `trim` removes: WhiteSpace and LineTerminator of ECMAScript.
pub is_space : ℕ → Bool
is_space c =
    (leb 9 c && leb c 13)
    || eqb c 32
    || eqb c 0xa0
    || eqb c 0x1680
    || (leb 0x2000 c && leb c 0x200a)
    || eqb c 0x2028
    || eqb c 0x2029
    || eqb c 0x202f
    || eqb c 0x205f
    || eqb c 0x3000
    || eqb c 0xfeff

trim_start : String → String
trim_start [] = []
trim_start (c ∷ s) = elim (is_space (code c)) [ true ↦ trim_start s | false ↦ c ∷ s ]

trim_end : String → String
trim_end [] = []
trim_end (c ∷ s) = let rest = trim_end s in if is_space (code c) && rest == "" then "" else c ∷ rest

unfoldable pub trim : String → String
unfolding is_space trim_start trim_end
trim s = trim_end (trim_start s)

-- The text of a template literal.
unfoldable pub concat : String → String → String
concat s t = text_append s t

-- `Buffer.byteLength(s, "utf8")`
unfoldable pub byte_length : String → ℕ
byte_length s = len s

-- `s.length`: UTF-16 code units.
unfoldable pub utf16_length : String → ℕ
utf16_length [] = 0
utf16_length (c ∷ s) = (if ltb (code c) 0x10000 then 1 else 2) + utf16_length s

abbrev pub all_chars : (ℕ → Bool) → String → Bool
all_chars p [] = true
all_chars p (c ∷ s) = p (code c) && all_chars p s

abbrev pub is_digit : ℕ → Bool
is_digit c = leb b'0' c && leb c b'9'

abbrev pub is_lower_hex : ℕ → Bool
is_lower_hex c = (leb b'a' c && leb c b'f') || is_digit c

-- The value of a run of decimal digits, as `BigInt` reads it.
pub decimal_from : ℕ → String → ℕ
decimal_from n [] = n
decimal_from n (c ∷ s) = decimal_from (n * 10 + (code c - 48)) s

unfoldable pub decimal : String → ℕ
unfolding decimal_from
decimal s = decimal_from 0 s

-- /^[a-f0-9]{64}$/
unfoldable pub is_hash : String → Bool
unfolding utf16_length
is_hash s = eqb (utf16_length s) 64 && all_chars is_lower_hex s

-- `a <= b` of two texts. The source orders by UTF-16 units, this by code points; on the ASCII of
-- ISO 8601 times, which are what it compares, the two are one.
abbrev pub text_le : String → String → Bool
text_le a b = is_le (compare a b)

abbrev pub char_at : String → ℕ → Char
char_at [] i = nul
char_at (c ∷ s) zero = c
char_at (c ∷ s) (suc i) = char_at s i

-- `toLowerCase` of an ASCII character.
abbrev pub lower_char : Char → Char
lower_char c =
    if leb b'A' (code c) && leb (code c) b'Z'
    then char_at "abcdefghijklmnopqrstuvwxyz" (code c - b'A')
    else c

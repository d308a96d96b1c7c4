-- ===== src/Prelude/Text.antt =====
-- Tests on characters, by their codes, and on the characters of a text.
use Prim.Native.Char.{code}
use Prim.Native.Nat.{ℕ, ◌+◌, ◌-◌, ◌*◌}
use Prim.Native.String.{String, [], ◌∷◌}
use mathlib.Core.Bool.{Bool, true, ◌&&◌, ◌||◌}
use mathlib.Core.Option.{Option, none, some}
use mathlib.Core.List.{List, [] as nil, ◌∷◌ as cons}
use saas_foundation.Prelude.Tests.{ltb, leb, if◌then◌else◌}

-- [a-z], [A-Za-z] and [0-9]
unfoldable pub is_lower : ℕ → Bool
is_lower c = leb b'a' c && leb c b'z'

unfoldable pub is_letter : ℕ → Bool
unfolding is_lower
is_letter c = is_lower c || leb b'A' c && leb c b'Z'

unfoldable pub is_digit : ℕ → Bool
is_digit c = leb b'0' c && leb c b'9'

-- Every character passes the test.
abbrev pub all_chars : (ℕ → Bool) → String → Bool
all_chars p [] = true
all_chars p (c ∷ s) = p (code c) && all_chars p s

-- `s.length`, in UTF-16 units, and the number of bytes of its UTF-8 form
abbrev pub units : String → ℕ
units [] = 0
units (c ∷ s) = (if ltb (code c) 65536 then 1 else 2) + units s

abbrev pub utf8_size : String → ℕ
utf8_size [] = 0
utf8_size (c ∷ s) =
    (if ltb (code c) 128
      then 1
      else if ltb (code c) 2048
      then 2
      else if ltb (code c) 65536
      then 3
      else 4)
    + utf8_size s

-- The value of a run of digits after a number, as `parseInt(raw, 10)` reads a text of digits.
unfoldable pub digits_from : ℕ → String → ℕ
digits_from n [] = n
digits_from n (c ∷ s) = digits_from (n * 10 + (code c - b'0')) s

-- `/^\d+$/.test(raw) ? Number.parseInt(raw, 10)`
unfoldable pub parse_digits : String → Option ℕ
unfolding digits_from is_digit
parse_digits [] = none
parse_digits (c ∷ s) = if all_chars is_digit (c ∷ s) then some (digits_from 0 (c ∷ s)) else none

-- `Buffer.from(s, "hex")`: pairs of hex digits, up to the first that is none.
unfoldable pub hex_digit : ℕ → Option ℕ
unfolding is_digit
hex_digit c =
    if is_digit c
    then some (c - b'0')
    else if leb b'a' c && leb c b'f'
    then some (c - 87)
    else if leb b'A' c && leb c b'F'
    then some (c - 55)
    else none

unfoldable pub hex_bytes : String → List ℕ
unfolding hex_digit
hex_bytes (c ∷ d ∷ s) =
    let rest = hex_bytes s in
    elim (hex_digit (code c)) [
      | none ↦ nil
      | some a ↦ elim (hex_digit (code d)) [ none ↦ nil | some b ↦ cons (a * 16 + b) rest ]
    ]
hex_bytes _ = nil

-- ===== src/Base/Hex.antt =====
-- Bytes and their hexadecimal text: `bytes.fromhex`, `hexdigest()`, and the two patterns of
-- app/factory_reset_proof.py. Bytes are lists of numbers below 256.
use Prim.Native.String.{◌++◌ as str_append}
use smart_monitor_back_end.Base.{
  ℕ, ◌+◌, ◌-◌, ◌*◌, ◌/◌, ◌%◌, ◌≡◌, refl, String, Bool, false, ◌&&◌, ◌||◌, Option, none, some, List,
  [], ◌∷◌, leb, eqb, if◌then◌else◌, all, length,
}
use smart_monitor_back_end.Base.Text.{codes}

-- [0-9A-F]
abbrev pub is_upper_hex : ℕ → Bool
is_upper_hex c = (leb 48 c && leb c 57) || (leb 65 c && leb c 70)

-- the value of a hexadecimal digit, of either case
unfoldable pub nibble : ℕ → Option ℕ
nibble c =
    if leb 48 c && leb c 57
    then some (c - 48)
    else if leb 65 c && leb c 70
    then some (c - 55)
    else if leb 97 c && leb c 102
    then some (c - 87)
    else none

abbrev byte : Option ℕ → Option ℕ → Option (List ℕ) → Option (List ℕ)
byte (some h) (some l) (some bs) = some ((h * 16 + l) ∷ bs)
byte _ _ _ = none

-- the white space that `bytes.fromhex` skips between two bytes
abbrev is_ascii_space : ℕ → Bool
is_ascii_space c = (leb 9 c && leb c 13) || eqb c 32

-- bytes.fromhex, with None for its ValueError
unfoldable pub from_hex : List ℕ → Option (List ℕ)
unfolding nibble
from_hex [] = some []
from_hex (c ∷ []) = if is_ascii_space c then some [] else none
from_hex (c ∷ d ∷ cs) =
    let skipped = from_hex (d ∷ cs) in
    let rest = from_hex cs in if is_ascii_space c then skipped else byte (nibble c) (nibble d) rest

hex_digit : ℕ → String
hex_digit n =
    if eqb n 0
    then "0"
    else if eqb n 1
    then "1"
    else if eqb n 2
    then "2"
    else if eqb n 3
    then "3"
    else if eqb n 4
    then "4"
    else if eqb n 5
    then "5"
    else if eqb n 6
    then "6"
    else if eqb n 7
    then "7"
    else if eqb n 8
    then "8"
    else if eqb n 9
    then "9"
    else if eqb n 10
    then "a"
    else if eqb n 11
    then "b"
    else if eqb n 12
    then "c"
    else if eqb n 13
    then "d"
    else if eqb n 14
    then "e"
    else "f"

-- hexdigest()
unfoldable pub hexdigest : List ℕ → String
unfolding hex_digit
hexdigest [] = ""
hexdigest (b ∷ bs) =
    str_append (hex_digit (b / 16)) (str_append (hex_digit (b % 16)) (hexdigest bs))

-- SM-[0-9A-F]{12}\Z
abbrev pub is_uid_codes : List ℕ → Bool
is_uid_codes (s ∷ m ∷ d ∷ cs) =
    eqb s 83 && eqb m 77 && eqb d 45 && eqb (length cs) 12 && all is_upper_hex cs
is_uid_codes _ = false

unfoldable pub is_uid : String → Bool
is_uid s = is_uid_codes (codes s)

-- [0-9A-F]{64}\Z
unfoldable pub is_hex_32_bytes : String → Bool
is_hex_32_bytes s = eqb (length (codes s)) 64 && all is_upper_hex (codes s)

from_hex-bytes : from_hex (codes "0a FF") ≡ some (10 ∷ 255 ∷ [])
unfolding from_hex
from_hex-bytes = refl

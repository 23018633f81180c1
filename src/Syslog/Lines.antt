-- ===== src/Syslog/Lines.antt =====
-- `lines_of` of scripts/syslog-bridge.py. A datagram is a list of bytes.
use postfix_m365_relay.Base.{
  ◌&&◌, take, not, ◌==◌, if◌then◌else◌, leb, keep, ◌||◌, Bool, Option, ◌∷◌, List, ℕ, [], true,
  false, none, some,
}

abbrev pub Bytes : Type 0
Bytes = List ℕ

abbrev pub between : ℕ → ℕ → ℕ → Bool
between low high b = leb low b && leb b high

abbrev is_digit : ℕ → Bool
is_digit = between 48 57

abbrev is_blank_or_digit : ℕ → Bool
is_blank_or_digit b = b == 32 || is_digit b

-- What is left after bytes of these kinds, if the text begins with them.
abbrev pub after_kinds : List (ℕ → Bool) → Bytes → Option Bytes
after_kinds [] bytes = some bytes
after_kinds (kind ∷ kinds) [] = none
after_kinds (kind ∷ kinds) (b ∷ bytes) = if kind b then after_kinds kinds bytes else none

abbrev pub is_byte : ℕ → ℕ → Bool
is_byte b c = c == b

-- `[A-Z][a-z]{2} [ \d]\d \d\d:\d\d:\d\d `
abbrev stamp_kinds : List (ℕ → Bool)
stamp_kinds =
    between 65 90
    ∷ between 97 122
    ∷ between 97 122
    ∷ is_byte 32
    ∷ is_blank_or_digit
    ∷ is_digit
    ∷ is_byte 32
    ∷ is_digit
    ∷ is_digit
    ∷ is_byte 58
    ∷ is_digit
    ∷ is_digit
    ∷ is_byte 58
    ∷ is_digit
    ∷ is_digit
    ∷ is_byte 32
    ∷ []

abbrev pub or_else : Option Bytes → Bytes → Bytes
or_else none bytes = bytes
or_else (some rest) bytes = rest

abbrev pub first_of : Option Bytes → Option Bytes → Option Bytes
first_of none other = other
first_of (some rest) other = some rest

-- `<\d{1,3}>`
abbrev pub after_priority : Bytes → Option Bytes
after_priority bytes = first_of (after_kinds (is_byte 60 ∷ is_digit ∷ is_byte 62 ∷ []) bytes) (
    first_of (after_kinds (is_byte 60 ∷ is_digit ∷ is_digit ∷ is_byte 62 ∷ []) bytes)
      (after_kinds (is_byte 60 ∷ is_digit ∷ is_digit ∷ is_digit ∷ is_byte 62 ∷ []) bytes))

-- `HEADER.sub(b"", datagram, count=1)`: the time is removed only behind a priority.
unfoldable pub without_header : Bytes → Bytes
without_header bytes = elim (after_priority bytes) [
  | none ↦ bytes
  | some rest ↦ or_else (after_kinds stamp_kinds rest) rest
]

-- `body.split(b"\n")`
abbrev pub prepend : ℕ → List Bytes → List Bytes
prepend b [] = (b ∷ []) ∷ []
prepend b (line ∷ lines) = (b ∷ line) ∷ lines

unfoldable pub split_lines : Bytes → List Bytes
split_lines [] = [] ∷ []
split_lines (b ∷ bytes) =
    let rest = split_lines bytes in if b == 10 then [] ∷ rest else prepend b rest

-- `[\x00-\x08\x0b-\x1f\x7f]`
abbrev pub is_control : ℕ → Bool
is_control b = leb b 8 || between 11 31 b || b == 127

unfoldable pub mask : Bytes → Bytes
mask [] = []
mask (b ∷ bytes) = (if is_control b then 63 else b) ∷ mask bytes

abbrev pub is_white : ℕ → Bool
is_white b = between 9 13 b || b == 32

abbrev pub is_nothing : Bytes → Bool
is_nothing [] = true
is_nothing (b ∷ bytes) = false

unfoldable pub rstrip : Bytes → Bytes
rstrip [] = []
rstrip (b ∷ bytes) =
    let rest = rstrip bytes in if is_white b && is_nothing rest then [] else b ∷ rest

abbrev pub max_line : ℕ
max_line = 2048

-- The loop over the lines.
unfoldable pub printable_lines : List Bytes → List Bytes
printable_lines [] = []
printable_lines (line ∷ lines) =
    let text = rstrip (mask line) in
    let rest = printable_lines lines in if is_nothing text then rest else take max_line text ∷ rest

unfoldable pub lines_of : Bytes → List Bytes
lines_of datagram =
    printable_lines (split_lines (keep (λ b. not (b == 13)) (without_header datagram)))

-- ===== src/Base/Utf8.antt =====
-- `str::from_utf8`, `chars` and the character classes of the Rust standard library, on UTF-8 bytes.
use sth_core_pq.Base.Tests.{ltb, leb, ◌==◌, if◌then◌else◌, is_some, unwrap_or}
use sth_core_pq.Base.Texts.{Text}
use Prim.Native.Nat.{ℕ, ◌+◌, ◌-◌, ◌*◌, ◌%◌}
use mathlib.Core.Bool.{Bool, ◌&&◌, ◌||◌}
use mathlib.Core.Option.{Option, none, some}
use mathlib.Core.List.{List, [], ◌∷◌}

-- A character being read: the bytes it still needs, the range of the next one, the value so far.
record Partial : Type 0 where
  left : ℕ
  low : ℕ
  high : ℕ
  value : ℕ

abbrev within : ℕ → ℕ → ℕ → Bool
within low high b = leb low b && leb b high

-- The first byte of a character.
lead : ℕ → Option Partial
lead b =
    if ltb b 0x80
    then some record { left = 0; low = 0x80; high = 0xbf; value = b }
    else if within 0xc2 0xdf b
    then some record { left = 1; low = 0x80; high = 0xbf; value = b % 32 }
    else if within 0xe0 0xef b
    then some record {
      left = 2;
      low = if b == 0xe0 then 0xa0 else 0x80;
      high = if b == 0xed then 0x9f else 0xbf;
      value = b % 16;
    }
    else if within 0xf0 0xf4 b
    then some record {
      left = 3;
      low = if b == 0xf0 then 0x90 else 0x80;
      high = if b == 0xf4 then 0x8f else 0xbf;
      value = b % 8;
    }
    else none

next_byte : Partial → ℕ → Option Partial
next_byte p b =
    if p.left == 0
    then lead b
    else if within p.low p.high b
    then some record { left = p.left - 1; low = 0x80; high = 0xbf; value = p.value * 64 + b % 64 }
    else none

emit : Partial → Option (List ℕ) → Option (List ℕ)
emit p none = none
emit p (some cs) = some (if p.left == 0 then p.value ∷ cs else cs)

decode : Partial → List ℕ → Option (List ℕ)
decode p [] = if p.left == 0 then some [] else none
decode p (b ∷ bs) = elim (next_byte p b) [ none ↦ none | some q ↦ emit q (decode q bs) ]

-- The characters of a byte sequence, if it is UTF-8.
from_utf8 : List ℕ → Option (List ℕ)
from_utf8 = decode record { left = 0; low = 0x80; high = 0xbf; value = 0 }

pub chars : Text → List ℕ
chars s = unwrap_or [] (from_utf8 s)

pub is_utf8 : List ℕ → Bool
is_utf8 bs = is_some (from_utf8 bs)

-- `char::is_control`
pub is_control : ℕ → Bool
is_control c = ltb c 0x20 || within 0x7f 0x9f c

-- `char::is_whitespace`
pub is_whitespace : ℕ → Bool
is_whitespace c =
    within 0x09 0x0d c
    || c == 0x20
    || c == 0x85
    || c == 0xa0
    || c == 0x1680
    || within 0x2000 0x200a c
    || within 0x2028 0x2029 c
    || c == 0x202f
    || c == 0x205f
    || c == 0x3000

-- `trim_start` on characters.
pub trim_start : List ℕ → List ℕ
trim_start [] = []
trim_start (c ∷ cs) = let rest = trim_start cs in if is_whitespace c then rest else c ∷ cs

-- ===== src/Bytes/Reader.antt =====
-- `ByteReader`: a cursor over a byte slice. A method returns its result and the reader after it.
-- `hex::encode` is a parameter.
use sth_core_pq.Base.{
  ℕ, ◌+◌, ◌-◌, min, List, ltb, if◌then◌else◌, length, take, drop, get_elem?, unwrap_or, Result, ok,
  err, Option, Text,
}
use sth_core_pq.Bytes.{from_le_bytes}

pub record ByteReader : Type 0 where
  pub buf : List ℕ
  pub pos : ℕ

-- `Error::Serialization`, with the numbers of its message: bytes needed, offset, bytes left.
pub data Error : Type 0 where
  unexpected_end : ℕ → ℕ → ℕ → Error

abbrev pub Read : Type 0 → Type 0
Read A = ByteReader → Result Error A × ByteReader

abbrev pub continue :
    {A B : Type 0} → (A → Read B) → Result Error A × ByteReader → Result Error B × ByteReader
continue f (ok v, r) = f v r
continue f (err e, r) = (err e, r)

infixl 5 ◌>>=◌
abbrev pub ◌>>=◌ : {A B : Type 0} → Read A → (A → Read B) → Read B
◌>>=◌ m f r = continue f (m r)

abbrev pub pure : {A : Type 0} → A → Read A
pure a r = (ok a, r)

pub new : List ℕ → ByteReader
new buf = record { buf = buf; pos = 0 }

unfoldable pub remaining : ByteReader → ℕ
remaining r = length r.buf - r.pos

pub position : ByteReader → ℕ
position r = r.pos

unfoldable pub bytes : ℕ → Read (List ℕ)
bytes n r =
    if ltb (remaining r) n
    then (err (unexpected_end n r.pos (remaining r)), r)
    else (ok (take n (drop r.pos r.buf)), record { buf = r.buf; pos = r.pos + n })

pub hex : (List ℕ → Text) → ℕ → Read Text
hex encode n = do b ← bytes n; pure (encode b)

pub peek_u8 : ℕ → ByteReader → Option ℕ
peek_u8 ahead r = get_elem? r.buf (r.pos + ahead)

-- The index 0 is in range, since `bytes 1` returns one byte.
unfoldable pub u8 : Read ℕ
u8 = do b ← bytes 1; pure (unwrap_or 0 (get_elem? b 0))

unfoldable pub u16_le : Read ℕ
u16_le = do b ← bytes 2; pure (from_le_bytes b)

unfoldable pub u32_le : Read ℕ
u32_le = do b ← bytes 4; pure (from_le_bytes b)

unfoldable pub u64_le : Read ℕ
u64_le = do b ← bytes 8; pure (from_le_bytes b)

pub rest : ByteReader → List ℕ × ByteReader
rest r = (drop r.pos r.buf, record { buf = r.buf; pos = length r.buf })

unfoldable pub slice : ℕ → ℕ → ByteReader → List ℕ
slice start end r =
    let end' = min end (length r.buf) in
    let start' = min start end' in take (end' - start') (drop start' r.buf)

-- ===== src/Bytes/Writer.antt =====
-- `ByteWriter`: each method appends to the buffer. `hex::decode` is a parameter.
use sth_core_pq.Base.{ℕ, Bool, List, [], ◌∷◌, ◌++◌, ◌==◌, length, Text, Option, none, some}
use sth_core_pq.Bytes.{to_le_bytes}

pub record ByteWriter : Type 0 where
  pub buf : List ℕ

pub new : ByteWriter
new = record { buf = [] }

unfoldable pub u8 : ℕ → ByteWriter → ByteWriter
u8 v w = record { buf = w.buf ++ (v ∷ []) }

unfoldable pub u16_le : ℕ → ByteWriter → ByteWriter
u16_le v w = record { buf = w.buf ++ to_le_bytes 2 v }

unfoldable pub u32_le : ℕ → ByteWriter → ByteWriter
u32_le v w = record { buf = w.buf ++ to_le_bytes 4 v }

unfoldable pub u64_le : ℕ → ByteWriter → ByteWriter
u64_le v w = record { buf = w.buf ++ to_le_bytes 8 v }

unfoldable pub bytes : List ℕ → ByteWriter → ByteWriter
bytes b w = record { buf = w.buf ++ b }

-- `none` is the error of `hex::decode`, which leaves the buffer alone.
pub hex : (Text → Option (List ℕ)) → Text → ByteWriter → Option ByteWriter
hex decode h w = elim (decode h) [ none ↦ none | some b ↦ some (record { buf = w.buf ++ b }) ]

unfoldable pub len : ByteWriter → ℕ
len w = length w.buf

pub is_empty : ByteWriter → Bool
is_empty w = length w.buf == 0

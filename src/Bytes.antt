-- ===== src/Bytes.antt =====
-- The little-endian byte buffers of src/crypto/bytes.rs: what `to_le_bytes` and `from_le_bytes` of
-- the standard library do, the writer, the reader, and that the reader reads what the writer wrote.
pub mod Writer
pub mod Reader
pub mod Bounds
pub mod RoundTrip
use sth_core_pq.Base.{ℕ, zero, suc, ◌+◌, ◌*◌, ◌/◌, ◌%◌, List, [], ◌∷◌}

-- `v.to_le_bytes()` of a number of k bytes.
unfoldable pub to_le_bytes : ℕ → ℕ → List ℕ
to_le_bytes zero v = []
to_le_bytes (suc k) v = v % 256 ∷ to_le_bytes k (v / 256)

unfoldable pub from_le_bytes : List ℕ → ℕ
from_le_bytes [] = 0
from_le_bytes (b ∷ bs) = b + 256 * from_le_bytes bs

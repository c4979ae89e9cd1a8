-- ===== src/Bytes/Bounds.antt =====
-- The reader never moves past the end of its buffer, and an error moves it nowhere.
use sth_core_pq.Base.{
  ℕ, ◌+◌, ◌-◌, ◌≤◌, ◌<◌, ◌≡◌, refl, ◌⊎◌, inl, inr, List, length, Result, ok, err, arith, Bool-cases,
  ltb, take, drop,
}
use sth_core_pq.Bytes.Reader.{
  ByteReader, Error, ◌>>=◌, pure, unexpected_end, remaining, bytes, u8, u16_le, u32_le, u64_le,
}

-- The position lies in the buffer, so that `buf.len() - pos` cannot underflow.
pub record IsValid (r : ByteReader) : Type 0 where
  pub within : r.pos ≤ length r.buf

-- A method that reads n bytes: it moves the position by n over the same buffer, which has them; or
-- fewer are left, and it returns the error with those numbers and leaves the reader alone.
abbrev pub Reads : {A : Type 0} → ℕ → ByteReader → Result Error A × ByteReader → Type 0
Reads n r (ok a, r') = (r' ≡ record { buf = r.buf; pos = r.pos + n }) × (r.pos + n ≤ length r.buf)
Reads n r (err e, r') =
    (r' ≡ r) × (e ≡ unexpected_end n r.pos (length r.buf - r.pos)) × (length r.buf < r.pos + n)

bytes-cases :
    (n : ℕ) (r : ByteReader)
    → IsValid r
    → (bytes n r ≡ (ok (take n (drop r.pos r.buf)), record { buf = r.buf; pos = r.pos + n }))
        × (r.pos + n ≤ length r.buf)
      ⊎ (bytes n r ≡ (err (unexpected_end n r.pos (length r.buf - r.pos)), r))
        × (length r.buf < r.pos + n)
unfolding bytes remaining
bytes-cases n r v = elim (Bool-cases (ltb (length r.buf - r.pos) n)) [
  | inl short ↦ inr (rw short refl, ground (arith, v.within))
  | inr fits ↦ inl (rw fits refl, ground (arith, v.within))
]

bytes-Reads : (n : ℕ) (r : ByteReader) → IsValid r → Reads n r (bytes n r)
bytes-Reads n r v = elim (bytes-cases n r v) [
  | inl (e, fits) ↦ rw e (refl, fits)
  | inr (e, short) ↦ rw e (refl, refl, short)
]

-- A method that decodes what `bytes` returned.
decoded-Reads :
    {A : Type 0} (f : List ℕ → A) (n : ℕ) (r : ByteReader)
    → IsValid r
    → Reads n r ((bytes n >>= λ b. pure (f b)) r)
decoded-Reads f n r v = elim (bytes-cases n r v) [
  | inl (e, fits) ↦ rw e (refl, fits)
  | inr (e, short) ↦ rw e (refl, refl, short)
]

-- On a reader in its buffer, `bytes n`, and `u8`, `u16_le`, `u32_le` and `u64_le` with n = 1, 2, 4
-- and 8, read n bytes or fail, as `Reads` says.
pub reads :
    (n : ℕ) (r : ByteReader)
    → IsValid r
    → Reads n r (bytes n r)
      × Reads 1 r (u8 r)
      × Reads 2 r (u16_le r)
      × Reads 4 r (u32_le r)
      × Reads 8 r (u64_le r)
unfolding u8 u16_le u32_le u64_le
reads n r v = (
  bytes-Reads n r v,
  decoded-Reads _ 1 r v,
  decoded-Reads _ 2 r v,
  decoded-Reads _ 4 r v,
  decoded-Reads _ 8 r v,
)

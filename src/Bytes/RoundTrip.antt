-- ===== src/Bytes/RoundTrip.antt =====
-- What the writer appended, the reader reads back.
use sth_core_pq.Base.{
  ℕ, zero, suc, ◌+◌, ◌-◌, ◌*◌, ◌/◌, ◌^◌, ◌<◌, ◌≡◌, refl, sym, ap, ◌∙◌, false, List, [], ◌∷◌, ◌++◌,
  length, ok, arith, All, length-append, take-append, drop-append, ltb,
}
use mathlib.Core.List.{append_assoc, append-nil}
use native.Mathlib.Nat.{pow-suc}
use sth_core_pq.Bytes.{to_le_bytes, from_le_bytes}
use sth_core_pq.Bytes.Writer
use sth_core_pq.Bytes.Writer.{ByteWriter}
use sth_core_pq.Bytes.Reader
use sth_core_pq.Bytes.Reader.{ByteReader, Error, Read, pure, ◌>>=◌}

pub length-to_le_bytes : (k v : ℕ) → length (to_le_bytes k v) ≡ k
unfolding to_le_bytes
length-to_le_bytes zero v = refl
length-to_le_bytes (suc k) v = omega (arith, length-to_le_bytes k (v / 256))

pub from_le_bytes-to_le_bytes : (k v : ℕ) → v < 256 ^ k → from_le_bytes (to_le_bytes k v) ≡ v
unfolding to_le_bytes from_le_bytes
from_le_bytes-to_le_bytes zero v h = omega arith
from_le_bytes-to_le_bytes (suc k) v h =
    let h' : v < 256 ^ k * 256 = rw pow-suc at h in
    omega (arith, from_le_bytes-to_le_bytes k (v / 256) (omega arith))

-- One value to write: a u8, u16, u32 or u64, or raw bytes.
pub data Field : Type 0 where
  byte word dword qword : ℕ → Field
  raw : List ℕ → Field

abbrev pub IsField : Field → Type 0
IsField (Field.byte v) = v < 256
IsField (Field.word v) = v < 2 ^ 16
IsField (Field.dword v) = v < 2 ^ 32
IsField (Field.qword v) = v < 2 ^ 64
IsField (Field.raw b) = Unit

pub write : Field → ByteWriter → ByteWriter
write (Field.byte v) w = Writer.u8 v w
write (Field.word v) w = Writer.u16_le v w
write (Field.dword v) w = Writer.u32_le v w
write (Field.qword v) w = Writer.u64_le v w
write (Field.raw b) w = Writer.bytes b w

pub write_all : List Field → ByteWriter → ByteWriter
write_all [] w = w
write_all (f ∷ fs) w = write_all fs (write f w)

-- A read with the method of the field's kind; of raw bytes, as many as the field has.
pub read : Field → Read Field
read (Field.byte _) = do v ← Reader.u8; pure (Field.byte v)
read (Field.word _) = do v ← Reader.u16_le; pure (Field.word v)
read (Field.dword _) = do v ← Reader.u32_le; pure (Field.dword v)
read (Field.qword _) = do v ← Reader.u64_le; pure (Field.qword v)
read (Field.raw b) = do c ← Reader.bytes (length b); pure (Field.raw c)

pub read_all : List Field → Read (List Field)
read_all [] = pure []
read_all (f ∷ fs) = do v ← read f; vs ← read_all fs; pure (v ∷ vs)

-- The bytes of a field.
encode : Field → List ℕ
encode (Field.byte v) = v ∷ []
encode (Field.word v) = to_le_bytes 2 v
encode (Field.dword v) = to_le_bytes 4 v
encode (Field.qword v) = to_le_bytes 8 v
encode (Field.raw b) = b

encode_all : List Field → List ℕ
encode_all [] = []
encode_all (f ∷ fs) = encode f ++ encode_all fs

write-encode : (f : Field) (w : ByteWriter) → (write f w).buf ≡ w.buf ++ encode f
unfolding write encode Writer.u8 Writer.u16_le Writer.u32_le Writer.u64_le Writer.bytes
write-encode (Field.byte v) w = refl
write-encode (Field.word v) w = refl
write-encode (Field.dword v) w = refl
write-encode (Field.qword v) w = refl
write-encode (Field.raw b) w = refl

write_all-encode_all :
    (fs : List Field) (w : ByteWriter) → (write_all fs w).buf ≡ w.buf ++ encode_all fs
unfolding write_all encode_all
write_all-encode_all [] w = sym (append-nil w.buf)
write_all-encode_all (f ∷ fs) w =
    write_all-encode_all fs (write f w) ∙ rw (write-encode f w, append_assoc) refl

bytes-append :
    (n : ℕ) (front b back : List ℕ)
    → n ≡ length b
    → Reader.bytes n (record { buf = front ++ (b ++ back); pos = length front })
      ≡ (ok b, record { buf = front ++ (b ++ back); pos = length front + n })
unfolding Reader.bytes Reader.remaining
bytes-append n front b back e =
    let total = length-append front (b ++ back) in
    let fits : ltb (length (front ++ (b ++ back)) - length front) n ≡ false =
      ground (arith, total, length-append b back) in
    rw (fits, drop-append (length front) front (b ++ back) refl, take-append n b back e) refl

number-append :
    (k v : ℕ) (front back : List ℕ)
    → v < 256 ^ k
    → (Reader.bytes k >>= λ b. pure (from_le_bytes b))
        (record { buf = front ++ (to_le_bytes k v ++ back); pos = length front })
      ≡ (ok v, record { buf = front ++ (to_le_bytes k v ++ back); pos = length front + k })
number-append k v front back h =
    rw (bytes-append k front (to_le_bytes k v) back (sym (length-to_le_bytes k v)))
      (rw (from_le_bytes-to_le_bytes k v h) refl)

read-encode :
    (f : Field) (front back : List ℕ)
    → IsField f
    → read f (record { buf = front ++ (encode f ++ back); pos = length front })
      ≡ (ok f, record { buf = front ++ (encode f ++ back); pos = length front + length (encode f) })
unfolding read encode Reader.u8 Reader.u16_le Reader.u32_le Reader.u64_le
read-encode (Field.byte v) front back h = rw (bytes-append 1 front (v ∷ []) back refl, read)
read-encode (Field.word v) front back h =
    rw (number-append 2 v front back (omega arith), length-to_le_bytes 2 v)
read-encode (Field.dword v) front back h =
    rw (number-append 4 v front back (omega arith), length-to_le_bytes 4 v)
read-encode (Field.qword v) front back h =
    rw (number-append 8 v front back (omega arith), length-to_le_bytes 8 v)
read-encode (Field.raw b) front back h = rw (bytes-append (length b) front b back refl) refl

read_all-encode_all :
    (fs : List Field) (front back : List ℕ)
    → All IsField fs
    → read_all fs (record { buf = front ++ (encode_all fs ++ back); pos = length front }) ≡ (
      ok fs,
      record {
        buf = front ++ (encode_all fs ++ back);
        pos = length front + length (encode_all fs);
      },
    )
unfolding read_all encode_all
read_all-encode_all [] front back h =
    ap (λ p. (ok [], record { buf = front ++ back; pos = p })) (omega arith)
read_all-encode_all (f ∷ fs) front back (hf, hfs) =
    let more = encode_all fs in
    let buf = front ++ (encode f ++ (more ++ back)) in
    let start = length front + length (encode f) in
    let ih =
      rw (append_assoc front (encode f) (more ++ back), length-append front (encode f)) at
        (read_all-encode_all fs (front ++ encode f) back hfs) in
    rw
      (
        append_assoc (encode f) more back,
        read-encode f front (more ++ back) hf,
        ih,
        length-append (encode f) more,
      )
      (ap (λ p. (ok (f ∷ fs), record { buf = buf; pos = p })) (omega arith))

-- Write any sequence of fields, each in the range of its type, with the writer's methods; what
-- stood in the buffer before and what follows do not matter. The matching reads from where the
-- writing began return the same fields and end where it ended.
pub read_all-write_all :
    (fs : List Field) (w : ByteWriter) (back : List ℕ)
    → All IsField fs
    → let buf = (write_all fs w).buf ++ back in
      read_all fs (record { buf = buf; pos = length w.buf })
      ≡ (ok fs, record { buf = buf; pos = Writer.len (write_all fs w) })
unfolding Writer.len
read_all-write_all fs w back h =
    let written = encode_all fs in
    rw (write_all-encode_all fs w, append_assoc w.buf written back, length-append w.buf written)
      (read_all-encode_all fs w.buf back h)

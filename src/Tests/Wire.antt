-- ===== src/Tests/Wire.antt =====
-- Writing and reading on concrete bytes.
use sth_core_pq.Base.{◌≡◌, List, [], ◌∷◌, ◌++◌, ok, arith}
use sth_core_pq.Bytes.Writer
use sth_core_pq.Bytes.Reader
use sth_core_pq.Bytes.Reader.{ByteReader}
use sth_core_pq.Bytes.Bounds.{Reads, reads}
use sth_core_pq.Bytes.RoundTrip.{Field, write_all, read_all, read_all-write_all}

abbrev header : List Field
header =
    Field.byte 3
    ∷ Field.dword 100000
    ∷ Field.qword 18446744073709551615
    ∷ Field.raw (9 ∷ 9 ∷ [])
    ∷ []

read_all-write_all_example :
    let buf = (write_all header (record { buf = 255 ∷ [] })).buf ++ (1 ∷ 2 ∷ []) in
    read_all header (record { buf = buf; pos = 1 }) ≡ (
      ok header,
      record { buf = buf; pos = Writer.len (write_all header (record { buf = 255 ∷ [] })) },
    )
read_all-write_all_example =
    read_all-write_all header (record { buf = 255 ∷ [] }) (1 ∷ 2 ∷ [])
      (omega arith, (omega arith, (omega arith, (tt, tt))))

abbrev short : ByteReader
short = record { buf = 1 ∷ 2 ∷ 3 ∷ []; pos = 1 }

reads_example :
    Reads 2 short (Reader.bytes 2 short)
    × Reads 1 short (Reader.u8 short)
    × Reads 2 short (Reader.u16_le short)
    × Reads 4 short (Reader.u32_le short)
    × Reads 8 short (Reader.u64_le short)
reads_example = reads 2 short (record { within = omega arith })

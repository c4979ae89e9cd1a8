-- ===== src/Ledger/Codec.antt =====
-- src/storage.rs: the bytes of a stored block, `encode_block`, `next_frame` and `decode_block`, and
-- `prepare_block`. The serializers of the header and of a transaction are fields of `Env`: what they
-- read back need not be what was written, and may be an error.
use sth_core_pq.Base.{
  ℕ, zero, suc, ◌+◌, ◌^◌, ◌%◌, Option, none, some, List, [], ◌∷◌, ◌++◌, length, take, drop, lookup,
  Text, ltb, if◌then◌else◌, Result, ok, err, ◌>>=◌,
}
use sth_core_pq.Bytes.{to_le_bytes, from_le_bytes}
use sth_core_pq.Models.{Transaction, Block}
use sth_core_pq.Ledger.{LedgerError, corrupt_record, truncated_record, empty_record}
use sth_core_pq.Ledger.Env.{Env}
use sth_core_pq.Ledger.Tree.{Tree, height_key}

-- Four bytes of length, and the bytes.
unfoldable pub frame : List ℕ → List ℕ
frame bytes = to_le_bytes 4 (length bytes) ++ bytes

-- The next frame and the bytes behind it. The position in the source is here what is left of the bytes.
unfoldable pub next_frame : List ℕ → Result LedgerError (Option (List ℕ × List ℕ))
next_frame [] = ok none
next_frame (b ∷ bs) =
    let bytes = b ∷ bs in
    let len = from_le_bytes (take 4 bytes) in
    let rest = drop 4 bytes in
    if ltb (length bytes) 4
    then err corrupt_record
    else if ltb (length rest) len
    then err truncated_record
    else ok (some (take len rest, drop len rest))

module _ {Value : Type 0} (env : Env Value) where
  unfoldable pub encode_txs : List (Transaction Value) → Result LedgerError (List ℕ)
  encode_txs [] = ok []
  encode_txs (tx ∷ txs) =
      env.serialize_transaction tx >>= λ bytes. encode_txs txs >>= λ rest. ok (frame bytes ++ rest)

  unfoldable pub encode_block : Block Value → Result LedgerError (List ℕ)
  encode_block b = env.serialize_block b >>= λ header.
      encode_txs b.transactions >>= λ rest. ok (frame header ++ rest)

  -- The loop over the frames behind the header. Each takes four bytes or more, so a fuel of the
  -- number of bytes is enough.
  unfoldable pub decode_txs :
      ℕ → Option Text → ℕ → ℕ → List ℕ → Result LedgerError (List (Transaction Value))
  decode_txs zero id height seq bytes = ok []
  decode_txs (suc f) id height seq bytes = next_frame bytes >>= λ o. elim o [
    | none ↦ ok []
    | some (raw, rest) ↦ env.deserialize_transaction raw >>= λ tx.
        decode_txs f id height ((seq + 1) % 2 ^ 32) rest >>= λ txs.
        let read : Transaction Value = record tx {
          block_id = id;
          block_height = some height;
          sequence = some seq;
        } in
        ok (read ∷ txs)
  ]

  unfoldable pub decode_block : List ℕ → Result LedgerError (Block Value)
  decode_block bytes = next_frame bytes >>= λ o. elim o [
    | none ↦ err empty_record
    | some (header, rest) ↦ env.deserialize_block_header header >>= λ b.
        decode_txs (length rest) b.id b.height 0 rest >>= λ txs.
        let read : Block Value = record b { transactions = b.transactions ++ txs } in ok read
  ]

  unfoldable pub get_block_by_height : Tree Value → ℕ → Result LedgerError (Option (Block Value))
  get_block_by_height t height = elim (lookup (height_key height) t.blocks) [
    | none ↦ ok none
    | some bytes ↦ decode_block bytes >>= λ b. ok (some b)
  ]

  unfoldable pub fill_ids : List (Transaction Value) → Result LedgerError (List (Transaction Value))
  fill_ids [] = ok []
  fill_ids (tx ∷ txs) = elim (tx.id) [ some id ↦ ok id | none ↦ env.transaction_id tx ] >>= λ id.
      fill_ids txs >>= λ rest.
      let filled : Transaction Value = record tx { id = some id } in ok (filled ∷ rest)

  unfoldable pub prepare_block : Block Value → Result LedgerError (Block Value × List ℕ)
  prepare_block b = elim (b.id) [ some id ↦ ok id | none ↦ env.block_id b ] >>= λ id.
      fill_ids b.transactions >>= λ txs.
      let filled : Block Value = record b { id = some id; transactions = txs } in
      encode_block filled >>= λ encoded. ok (filled, encoded)

-- ===== src/Lib.antt =====
-- A model of sth-core-pq, the Rust node of a delegated proof-of-stake chain, and what holds of it.
--
-- A node keeps a ledger of wallets, takes transactions from its API and from peers into a pool, and
-- applies blocks that the delegates forge in turn. The parts modelled are these; they are translated
-- by hand from the functions of the same names, and paths are from the repository's root:
--
-- * Round (src/delegate/round.rs): the round of a height, the slot of a timestamp, and the shuffle
--   that gives the forging order of a round.
-- * Bytes (src/crypto/bytes.rs): the reader and the writer under the wire formats, in Bytes/Reader
--   and Bytes/Writer.
-- * AntiSpam (src/antispam.rs): the limits on what a peer or a sender may put into the pool.
--   AntiSpam/Calls has the calls that the pool makes, in any order.
-- * NodePool (src/node_pool.rs): the rate-limited pool of REST nodes for the first synchronisation.
-- * Models (src/models/transaction.rs, and parts of src/storage.rs and src/config.rs): the data that
--   the rules read.
-- * Rules (src/rules.rs): the rules of native tokens: Rules/Format and Rules/Manifest are the
--   stateless checks, Rules/Wallet is the check against the chain's state, read through `TokenView`.
-- * SmartObjects (src/rules.rs and src/models/transaction.rs): the rules of named on-chain objects.
--   SmartObjects/Format is the stateless check, SmartObjects/Wallet the check against the sender's
--   wallet, SmartObjects/Service the data of a Service Node.
-- * Signatures (src/rules.rs): second signatures, of the legacy core and of version 3 with its
--   ML-DSA blocks. The cryptography behind it is the record `Crypto`.
-- * Batch (src/sync.rs): the token state inside a batch of blocks, which implements `TokenView` over
--   the database and takes the effects of each accepted transaction.
-- * Ledger (src/storage.rs): the chain's state. Ledger has the data, Ledger/Tree the sled tree with
--   one map for each key prefix, Ledger/Apply the changes to one wallet, Ledger/Deltas,
--   Ledger/Effects, Ledger/Market, Ledger/Core and Ledger/Accumulate the changes of a block
--   (`accumulate_deltas`), Ledger/Write and Ledger/Tip how a block is written
--   (`write_wallets_undo`, `write_block`, `apply_locked`), Ledger/Rollback and Ledger/Undo how it is
--   taken back (`rollback_last_block`, `rollback_to`), Ledger/Ranking the delegate ranking and the
--   forging set of a round, Ledger/Missed the missed slots and `apply_blocks`, Ledger/Search the
--   search of a height by its time. Ledger/Codec has the bytes of a stored
--   block, which are decoded at every read. Ledger/Env is what this code calls outside.
-- * Base has the shared types and lemmas, and Tests the theorems at concrete inputs, and runs.
--
-- State is a record, an operation a function from the state to the state and a result, and a run a
-- list of operations. A Rust integer is a natural number; sums that the source leaves to wrap are
-- written with the modulus, saturating ones with `min`. Instants are nanoseconds, and each reading
-- of a clock is an argument. A string is the list of its UTF-8 bytes. An error is the name that its
-- message begins with, without the numbers in it.
--
-- Fuel: the outer loop of the shuffle has the length of the list plus one, and each of its rounds
-- moves the index on; `decimal` has the number plus one, and ten divides it down. That the shuffle's
-- is enough is part of `shuffle-swaps`. `rollback_to` has the tip plus one, since each rollback
-- lowers the tip, `search_height` the upper end plus one, and `decode_txs` the number of bytes.
-- `acquire` takes one clock reading for each of its rounds.
--
-- Parameters: SHA-256, hex, base58 and base64, and the reading of JSON are third-party code. The
-- serializers of a block header and of a transaction, and the ids made from their bytes, which the
-- ledger calls, are fields of Ledger/Env as well, and nothing is assumed of them: reading back may
-- lose data or fail, and a theorem that needs more says so. The database behind `BatchTokenView` is the record `Stored` of what the view reads from it.
--
-- A sled transaction that aborts leaves the tree as it was, so its steps return a result; JSON in
-- the tree is the value it encodes. The iteration order of a `BTreeMap` is that of the model's list.
--
-- Not modelled: the ledger's queries and audit, the pool, the serializers of transactions
-- and blocks, the forger, the peer protocols, the REST API and the command line, and the third-party
-- copies under vendor.
pub mod Base
pub mod Batch
pub mod Round
pub mod Bytes
pub mod AntiSpam
pub mod Models
pub mod Ledger
pub mod NodePool
pub mod Rules
pub mod Signatures
pub mod SmartObjects
pub mod Tests

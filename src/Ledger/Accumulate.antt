-- ===== src/Ledger/Accumulate.antt =====
-- src/storage.rs: `accumulate_deltas`, the changes of one block: the generator's reward and fees, and
-- the transactions in order. `batch` are the blocks that are applied together.
use sth_core_pq.Base.{
  ℕ, ◌+◌, ◌*◌, ◌^◌, ◌%◌, ◌&&◌, Option, none, some, List, [], ◌∷◌, length, Text, ltb, ◌==◌,
  if◌then◌else◌, Result, ok, ◌>>=◌, add_u64,
}
use sth_core_pq.Base.Int.{pos, ◌+ℤ◌}
use sth_core_pq.Models.{Transaction, Block, TokenAsset, type_group_token, token_type}
use sth_core_pq.SmartObjects.{SmartObjectAsset}
use sth_core_pq.Ledger.{WalletDelta, LedgerError}
use sth_core_pq.Ledger.Env.{Env, default, token_of, sobj_of, sender_of}
use sth_core_pq.Ledger.Tree.{Tree}
use sth_core_pq.Ledger.Deltas.{Deltas, change, pay, charge}
use sth_core_pq.Ledger.Effects.{object_effect}
use sth_core_pq.Ledger.Market.{token_effect}
use sth_core_pq.Ledger.Tip.{is_init}
use sth_core_pq.Ledger.Core.{core_type, core_effect}

module _ {Value : Type 0} (env : Env Value) (t : Tree Value) where
  -- Amount, fee and nonce of the sender.
  unfoldable pub debit_sender : Transaction Value → WalletDelta → WalletDelta
  debit_sender tx d = record (charge (pos tx.amount +ℤ pos tx.fee) d) {
    nonce = add_u64 d.nonce 1;
    public_key = some tx.sender_public_key;
  }

  -- The branch of a transaction: by its object, by its token, or by its type in group 1.
  unfoldable pub tx_effect :
      Block Value
      → List (Block Value)
      → ℕ
      → Transaction Value
      → Text
      → Option SmartObjectAsset
      → Option TokenAsset
      → Deltas
      → Result LedgerError Deltas
  tx_effect b batch index tx sender (some e) a ds = ok (object_effect env t e tx.id sender ds)
  tx_effect b batch index tx sender none (some a) ds =
      token_effect env t b index tx a sender (token_type tx.type_) ds
  tx_effect b batch index tx sender none none ds =
      if tx.type_group == 1
      then core_effect env t b batch tx sender (core_type tx.type_) ds
      else ok ds

  unfoldable pub accumulate_tx :
      Block Value → List (Block Value) → ℕ → Transaction Value → Deltas → Result LedgerError Deltas
  accumulate_tx b batch index tx ds = sender_of env tx.sender_public_key >>= λ sender.
      tx_effect b batch index tx sender (sobj_of env tx) (token_of env tx)
        (change sender (debit_sender tx) ds)

  unfoldable pub accumulate_txs :
      Block Value
      → List (Block Value)
      → ℕ
      → List (Transaction Value)
      → Deltas
      → Result LedgerError Deltas
  accumulate_txs b batch index [] ds = ok ds
  accumulate_txs b batch index (tx ∷ txs) ds =
      accumulate_tx b batch index tx ds >>= λ es. accumulate_txs b batch (index + 1) txs es

  unfoldable pub count_inits : List (Transaction Value) → ℕ
  count_inits [] = 0
  count_inits (tx ∷ txs) =
      let n = count_inits txs in
      if tx.type_group == type_group_token && is_init tx.type_ then n + 1 else n

  -- A product of u64.
  unfoldable pub burned : Block Value → ℕ
  burned b =
      let n = count_inits b.transactions in
      if ltb 0 n && ltb 0 (length env.burn_address)
      then n * (env.milestone b.height).init_burn % 2 ^ 64
      else 0

  unfoldable pub forged : Block Value → WalletDelta → WalletDelta
  forged b d = record (charge (pos (burned b)) (pay (pos b.total_fee) (pay (pos b.reward) d))) {
    public_key = some b.generator_public_key;
    produced_blocks = add_u64 d.produced_blocks 1;
    forged_fees = add_u64 d.forged_fees b.total_fee;
    forged_rewards = add_u64 d.forged_rewards b.reward;
    last_block = some (record { id = default [] b.id; height = b.height; timestamp = b.timestamp });
  }

  unfoldable pub pay_burn : Block Value → Deltas → Deltas
  pay_burn b ds = if ltb 0 (burned b) then change env.burn_address (pay (pos (burned b))) ds else ds

  unfoldable pub accumulate_deltas :
      Block Value → List (Block Value) → Deltas → Result LedgerError Deltas
  accumulate_deltas b batch ds = sender_of env b.generator_public_key >>= λ generator.
      accumulate_txs b batch 0 b.transactions (change generator (forged b) (pay_burn b ds))

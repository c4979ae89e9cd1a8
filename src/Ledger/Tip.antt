-- ===== src/Ledger/Tip.antt =====
-- src/storage.rs: the tip of the chain: `check_tip`, `write_block`, `apply_locked` and the whole of
-- `rollback_last_block`. Events and logging are left out; Ledger/Missed has what `apply_locked` does after its transaction.
use sth_core_pq.Base.{
  ℕ, ◌+◌, ◌-◌, Bool, true, false, not, none, some, List, [], ◌∷◌, Text, Map, lookup, insert, remove,
  ltb, ◌==◌, if◌then◌else◌, Result, ok, ◌>>=◌, ◌>>◌, fail_if,
}
use sth_core_pq.Models.{Transaction, Block, TokenType, token_type}
use sth_core_pq.Rules.Manifest.{is_some_and}
use sth_core_pq.Ledger.{WalletDelta, LedgerError, stale_tip, stale_previous}
use sth_core_pq.Ledger.Env.{Env, default, tx_addresses}
use sth_core_pq.Ledger.Tree.{Tree, UndoRecord, height_key, tx_order_key}
use sth_core_pq.Ledger.Write.{write_wallets_undo, insert_some}
use sth_core_pq.Ledger.Rollback.{count_ids}

-- A block with its bytes.
abbrev pub Prepared : Type 0 → Type 0
Prepared Value = Block Value × List ℕ

abbrev pub undo_depth : ℕ
undo_depth = 1_000

abbrev pub is_init : ℕ → Bool
is_init n = elim (token_type n) [ TokenType.init ↦ true | _ ↦ false ]

unfoldable pub index_addresses : List Text → ℕ → ℕ → Text → Map Text → Map Text
index_addresses [] height seq id m = m
index_addresses (a ∷ rest) height seq id m =
    index_addresses rest height seq id (insert (tx_order_key a height seq) id m)

module _ {Value : Type 0} where
  -- `get_last_height`
  abbrev pub tip : Tree Value → ℕ
  tip t = default 0 t.last_height

  unfoldable pub check_tip : Block Value → Tree Value → Result LedgerError (Unit {0})
  check_tip first t =
      if tip t == 0
      then ok tt
      else fail_if (not (first.height == tip t + 1)) stale_tip
        >> fail_if (is_some_and (λ h. not (h == tip t)) (lookup first.previous_block t.block_ids))
            stale_previous

  unfoldable pub bump_tx_count : ℕ → ℕ → Tree Value → Tree Value
  bump_tx_count more less t =
      if more == less then t else record t { tx_count = some (default 0 t.tx_count + more - less) }

  -- `if height > last`
  unfoldable pub raise_tip : ℕ → Tree Value → Tree Value
  raise_tip height t = if ltb (tip t) height then record t { last_height = some height } else t

  unfoldable pub put_undo : Bool → ℕ → UndoRecord → Tree Value → Tree Value
  put_undo false height undo t = t
  put_undo true height undo t =
      let kept = insert (height_key height) undo t.undo in
      record t {
        undo =
            if ltb undo_depth height then remove (height_key (height - undo_depth)) kept else kept;
      }

module _ {Value : Type 0} (env : Env Value) where
  unfoldable pub index_tx :
      ℕ → ℕ → Transaction Value → Text → Tree Value → Result LedgerError (Tree Value)
  index_tx height index tx id t = tx_addresses env tx >>= λ addresses.
      let seq = default index tx.sequence in
      ok (record t {
        txs = insert id height t.txs;
        tx_list = insert (tx_order_key [] height seq) id t.tx_list;
        wallet_txs = index_addresses addresses height seq id t.wallet_txs;
      })

  unfoldable pub index_txs :
      ℕ → ℕ → List (Transaction Value) → Tree Value → Result LedgerError (Tree Value)
  index_txs height index [] t = ok t
  index_txs height index (tx ∷ txs) t =
      elim (tx.id) [ none ↦ ok t | some id ↦ index_tx height index tx id t ] >>= λ u.
      index_txs height (index + 1) txs u

  unfoldable pub write_block : Block Value → List ℕ → Tree Value → Result LedgerError (Tree Value)
  write_block b encoded t =
      index_txs b.height 0 b.transactions (record t {
        blocks = insert (height_key b.height) encoded t.blocks;
        block_ids = insert_some (λ id. id) (λ _. b.height) b.id t.block_ids;
      })
      >>= λ u. ok (raise_tip b.height (bump_tx_count (count_ids b.transactions) 0 u))

  unfoldable pub write_blocks : List (Prepared Value) → Tree Value → Result LedgerError (Tree Value)
  write_blocks [] t = ok t
  write_blocks ((b, encoded) ∷ bs) t = write_block b encoded t >>= λ u. write_blocks bs u

  -- The sled transaction of `apply_locked`, on the blocks that `prepare_block` gave and the changes
  -- that `accumulate_deltas` gave.
  unfoldable pub apply_locked :
      Prepared Value
      → List (Prepared Value)
      → Map WalletDelta
      → Bool
      → Tree Value
      → Result LedgerError (Tree Value)
  apply_locked first rest deltas undo_on t =
      check_tip first.0 t
      >> (write_wallets_undo env.to_lowercase deltas t >>= λ (ws, undo, u).
          write_blocks (first ∷ rest) u >>= λ v. ok (put_undo undo_on first.0.height undo v))

-- ===== src/Ledger/Undo.antt =====
-- src/storage.rs: `rollback_last_block` as a whole, and `rollback_to`.
use sth_core_pq.Base.{
  ℕ, zero, suc, ◌+◌, ◌-◌, ◌%◌, max, not, ◌&&◌, ◌||◌, Option, none, some, List, [], ◌∷◌, Text,
  text_eq, Map, is_some, lookup, insert, remove, retain, ltb, leb, ◌==◌, if◌then◌else◌, Result, ok,
  err, ◌>>=◌,
}
use sth_core_pq.Models.{Transaction, Block, token_type, type_group_token}
use sth_core_pq.Round.{round_info}
use sth_core_pq.SmartObjects.{SmartObjectAsset}
use sth_core_pq.Ledger.{LedgerError, genesis, finality_violation, block_not_found, no_undo_record}
use sth_core_pq.Ledger.Env.{Env, default, token_of, sobj_of, sender_of, tx_addresses}
use sth_core_pq.Ledger.Codec.{get_block_by_height}
use sth_core_pq.Ledger.Tree.{Tree, UndoRecord, MissedSlot, height_key, tx_order_key}
use sth_core_pq.Ledger.Write.{sobj_name_key}
use sth_core_pq.Ledger.Rollback.{
  latest_cert, drop_cert, drop_market, restore_wallets, undo_order, prev_owners, count_ids,
  remove_some,
}
use sth_core_pq.Ledger.Tip.{tip, is_init, bump_tx_count}

-- `bump_missed_total(public_key, -1)`: a total of zero leaves the map.
unfoldable pub lower_missed : Text → Map ℕ → Map ℕ
lower_missed pk m =
    let n = default 0 (lookup pk m) - 1 in if n == 0 then remove pk m else insert pk n m

unfoldable pub lower_all : List MissedSlot → Map ℕ → Map ℕ
lower_all [] m = m
lower_all (s ∷ ss) m = lower_all ss (lower_missed s.public_key m)

unfoldable pub unindex : List Text → ℕ → ℕ → Map Text → Map Text
unindex [] height seq m = m
unindex (a ∷ rest) height seq m = unindex rest height seq (remove (tx_order_key a height seq) m)

module _ {Value : Type 0} where
  unfoldable pub put_back_owner : Text → Text → Tree Value → Tree Value
  put_back_owner id owner t = record t {
    sobj_owners = insert id owner t.sobj_owners;
    token_owners =
        if is_some (lookup id t.token_owners)
        then insert id owner t.token_owners
        else t.token_owners;
  }

  unfoldable pub drop_missed_at : ℕ → Tree Value → Tree Value
  drop_missed_at height t = elim (lookup (height_key height) t.missed_at) [
    | none ↦ t
    | some list ↦ record t {
      missed_at = remove (height_key height) t.missed_at;
      missed_total = lower_all list t.missed_total;
    }
  ]

module _ {Value : Type 0} (env : Env Value) where
  -- The token transactions of the block, the newest first.
  unfoldable pub undo_orders : ℕ → ℕ → List (Transaction Value) → Tree Value → Tree Value
  undo_orders height index [] t = t
  undo_orders height index (tx ∷ txs) t =
      let later = undo_orders height (index + 1) txs t in
      if tx.type_group == type_group_token
      then elim (token_of env tx) [
        | none ↦ later
        | some a ↦ undo_order height index tx a (token_type tx.type_) later
      ]
      else later

  unfoldable pub undo_name : Option SmartObjectAsset → Tree Value → Tree Value
  undo_name none t = t
  undo_name (some e) t =
      if e.action == 0
      then elim (e.content.name) [
        | none ↦ t
        | some n ↦ record t {
          sobj_names = remove (sobj_name_key env.to_lowercase n e.type_) t.sobj_names;
        }
      ]
      else t

  unfoldable pub give_back :
      Map Text → Transaction Value → Text → Tree Value → Result LedgerError (Tree Value)
  give_back owners tx id t =
      elim (lookup id owners) [ some o ↦ ok o | none ↦ sender_of env tx.sender_public_key ]
      >>= λ owner. ok (put_back_owner id owner t)

  -- A transfer or a buy gives the object back.
  unfoldable pub undo_handover :
      Map Text
      → Transaction Value
      → Option SmartObjectAsset
      → Tree Value
      → Result LedgerError (Tree Value)
  undo_handover owners tx none t = ok t
  undo_handover owners tx (some e) t =
      if e.action == 3 || e.action == 5
      then elim (e.registration_id) [ none ↦ ok t | some id ↦ give_back owners tx id t ]
      else ok t

  unfoldable pub undo_init : Transaction Value → Tree Value → Tree Value
  undo_init tx t =
      if tx.type_group == type_group_token && is_init tx.type_
      then elim (token_of env tx) [
        | none ↦ t
        | some a ↦ record t {
          token_owners = remove a.id t.token_owners;
          token_symbols = retain (λ id. not (text_eq id a.id)) t.token_symbols;
        }
      ]
      else t

  unfoldable pub undo_tx :
      Map Text → ℕ → ℕ → Transaction Value → Text → Tree Value → Result LedgerError (Tree Value)
  undo_tx owners height index tx id t =
      undo_handover owners tx (sobj_of env tx) (undo_name (sobj_of env tx) t) >>= λ u.
      tx_addresses env tx >>= λ addresses.
      let seq = default index tx.sequence in
      let v = undo_init tx u in
      ok (record v {
        txs = remove id v.txs;
        tx_list = remove (tx_order_key [] height seq) v.tx_list;
        wallet_txs = unindex addresses height seq v.wallet_txs;
      })

  unfoldable pub undo_txs :
      Map Text → ℕ → ℕ → List (Transaction Value) → Tree Value → Result LedgerError (Tree Value)
  undo_txs owners height index [] t = ok t
  undo_txs owners height index (tx ∷ txs) t =
      elim (tx.id) [ none ↦ ok t | some id ↦ undo_tx owners height index tx id t ] >>= λ u.
      undo_txs owners height (index + 1) txs u

  -- The sled transaction.
  unfoldable pub undo_block :
      ℕ → Block Value → UndoRecord → Tree Value → Result LedgerError (Tree Value)
  undo_block height b undo t =
      undo_txs (prev_owners undo []) height 0 b.transactions
        (undo_orders height 0 b.transactions (restore_wallets undo (drop_market undo t)))
      >>= λ u.
          let v = bump_tx_count 0 (count_ids b.transactions) u in
          ok (record v {
            block_ids = remove_some b.id v.block_ids;
            blocks = remove (height_key height) v.blocks;
            undo = remove (height_key height) v.undo;
            last_height = some (height - 1);
          })

  unfoldable pub drop_round : ℕ → Tree Value → Tree Value
  drop_round height t =
      let n = max (env.milestone height).active_delegates 1 in
      if height % n == 0
      then record t { rounds = remove (height_key (round_info height n).next_round) t.rounds }
      else t

  abbrev pub after_undo :
      ℕ → Tree Value → Result LedgerError (Tree Value) → Result LedgerError ℕ × Tree Value
  after_undo height t (err e) = (err e, t)
  after_undo height t (ok u) = (ok (height - 1), drop_round height (drop_missed_at height u))

  unfoldable pub undo_tip : ℕ → Tree Value → Result LedgerError ℕ × Tree Value
  undo_tip height t = elim (get_block_by_height env t height) [
    | err e ↦ (err e, t)
    | ok found ↦ elim found [
      | none ↦ (err block_not_found, t)
      | some b ↦ elim (lookup (height_key height) t.undo) [
        | none ↦ (err no_undo_record, t)
        | some undo ↦ after_undo height t (undo_block height b undo t)
      ]
    ]
  ]

  -- A certificate at the tip or above refuses, or in soft mode is dropped.
  unfoldable pub rollback_last_block : Tree Value → Result LedgerError ℕ × Tree Value
  rollback_last_block t =
      if leb (tip t) 1 then (err genesis, t) else elim (latest_cert t.finality) [
        | none ↦ undo_tip (tip t) t
        | some c ↦
            if ltb c.height (tip t)
            then undo_tip (tip t) t
            else if (env.milestone (tip t)).finality_active
            then (err finality_violation, t)
            else undo_tip (tip t) (record t { finality = drop_cert c.height t.finality })
      ]

  -- On fuel: each rollback lowers the tip by one.
  unfoldable pub rollback_to_from :
      ℕ → ℕ → ℕ → Tree Value → Option (Result LedgerError ℕ × Tree Value)
  rollback_to_from zero top height t = none
  rollback_to_from (suc f) top height t =
      let (r, u) = rollback_last_block t in
      let more : Option (Result LedgerError ℕ × Tree Value) = elim r [
        | err e ↦ some (err e, u)
        | ok below ↦ rollback_to_from f below height u
      ] in
      if ltb height top then more else some (ok top, t)

  unfoldable pub rollback_to : ℕ → Tree Value → Option (Result LedgerError ℕ × Tree Value)
  rollback_to height t = rollback_to_from (suc (tip t)) (tip t) height t

-- ===== src/Ledger/Supply.antt =====
-- What a transaction and a whole block move: a block creates its reward and nothing else.
use sth_core_pq.Base.{
  ℕ, ◌+◌, ◌≡◌, subst, Bool, true, false, Option, none, some, List, [], ◌∷◌, Text, ok, bind-ok,
  ok_injective, ltb, Bool-cases, inl, inr, ◌==◌, if◌then◌else◌, arith,
}
use sth_core_pq.Base.Int.{pos, ◌+ℤ◌, int_laws}
use sth_core_pq.Models.{Transaction, Block, TokenAsset, token_type}
use sth_core_pq.SmartObjects.{SmartObjectAsset}
use sth_core_pq.Ledger.{WalletDelta}
use sth_core_pq.Ledger.Env.{Env, sender_of, token_of, sobj_of}
use sth_core_pq.Ledger.Tree.{Tree}
use sth_core_pq.Ledger.Deltas.{Deltas, change, pay, charge}
use sth_core_pq.Ledger.Core.{core_type, core_effect}
use sth_core_pq.Ledger.Accumulate.{
  debit_sender, tx_effect, accumulate_tx, accumulate_txs, forged, burned, pay_burn,
  accumulate_deltas,
}
use sth_core_pq.Ledger.Flows.{
  total, Flows, Between, change-Flows, pay-Between, Flows-trans, Flows-refl, Flows-total,
  Flows-join, Flows-cut,
}
use sth_core_pq.Ledger.Conserve.{Level, object_effect-Level}
use sth_core_pq.Ledger.ConserveTokens.{token_effect-Level}
use sth_core_pq.Ledger.Conservation.{paid_by_type, core_effect-Flows}

module _ {Value : Type 0} (env : Env Value) (t : Tree Value) (b : Block Value)
    (batch : List (Block Value)) where
  -- What a transaction pays out to addresses.
  unfoldable pub paid_by_branch :
      Transaction Value → Option SmartObjectAsset → Option TokenAsset → ℕ
  paid_by_branch tx (some e) a = 0
  paid_by_branch tx none (some a) = 0
  paid_by_branch tx none none =
      if tx.type_group == 1 then paid_by_type env t batch tx (core_type tx.type_) else 0

  unfoldable pub paid_out : Transaction Value → ℕ
  paid_out tx = paid_by_branch tx (sobj_of env tx) (token_of env tx)

  unfoldable pub paid_out_all : List (Transaction Value) → ℕ
  paid_out_all [] = 0
  paid_out_all (tx ∷ txs) = paid_out tx + paid_out_all txs

  unfoldable pub taken_all : List (Transaction Value) → ℕ
  taken_all [] = 0
  taken_all (tx ∷ txs) = tx.amount + tx.fee + taken_all txs

  tx_effect-Flows :
      (index : ℕ) (tx : Transaction Value) (sender : Text) (e : Option SmartObjectAsset)
      (a : Option TokenAsset) (ds es : Deltas)
      → tx_effect env t b batch index tx sender e a ds ≡ ok es
      → Flows ds es (paid_by_branch tx e a) 0
  unfolding tx_effect paid_by_branch
  tx_effect-Flows index tx sender (some e) a ds es h =
      subst (Level ds) (ok_injective _ es h) (object_effect-Level env t e tx.id sender ds)
  tx_effect-Flows index tx sender none (some a) ds es h =
      token_effect-Level env t b index tx a sender (token_type tx.type_) ds es h
  tx_effect-Flows index tx sender none none ds es h = group_step (tx.type_group == 1) h
    where
      group_step :
          (c : Bool)
          → (if c then core_effect env t b batch tx sender (core_type tx.type_) ds else ok ds)
            ≡ ok es
          → Flows ds es (if c then paid_by_type env t batch tx (core_type tx.type_) else 0) 0
      group_step true h = core_effect-Flows env t b batch tx sender (core_type tx.type_) ds es h
      group_step false h = subst (Level ds) (ok_injective ds es h) (Flows-refl ds)

  debit_sender-Between :
      (tx : Transaction Value) (d : WalletDelta)
      → Between d.balance (debit_sender env t tx d).balance 0 (tx.amount + tx.fee)
  unfolding debit_sender charge
  debit_sender-Between tx d = grind int_laws

  accumulate_tx-Flows :
      (index : ℕ) (tx : Transaction Value) (ds es : Deltas)
      → accumulate_tx env t b batch index tx ds ≡ ok es
      → Flows ds es (paid_out tx) (tx.amount + tx.fee)
  unfolding accumulate_tx paid_out
  accumulate_tx-Flows index tx ds es h =
      let (sender, r, e) = bind-ok (sender_of env tx.sender_public_key) _ h in
      let charged = change sender (debit_sender env t tx) ds in
      Flows-join
        (change-Flows sender (debit_sender env t tx) ds 0 (tx.amount + tx.fee)
          (debit_sender-Between tx))
        (tx_effect-Flows index tx sender (sobj_of env tx) (token_of env tx) charged es e)

  accumulate_txs-Flows :
      (index : ℕ) (txs : List (Transaction Value)) (ds es : Deltas)
      → accumulate_txs env t b batch index txs ds ≡ ok es
      → Flows ds es (paid_out_all txs) (taken_all txs)
  unfolding accumulate_txs paid_out_all taken_all
  accumulate_txs-Flows index [] ds es h = subst (Level ds) (ok_injective ds es h) (Flows-refl ds)
  accumulate_txs-Flows index (tx ∷ txs) ds es h =
      let (m, r, e) = bind-ok (accumulate_tx env t b batch index tx ds) _ h in
      Flows-trans (accumulate_tx-Flows index tx ds m r)
        (accumulate_txs-Flows (index + 1) txs m es e)

  forged-Between :
      (d : WalletDelta)
      → Between d.balance (forged env t b d).balance (b.reward + b.total_fee) (burned env t b)
  unfolding forged pay charge
  forged-Between d = grind int_laws

  pay_burn-Flows : (ds : Deltas) → Flows ds (pay_burn env t b ds) (burned env t b) 0
  unfolding pay_burn
  pay_burn-Flows ds = burn_step (burned env t b)
    where
      burn_step :
          (n : ℕ) → Flows ds (if ltb 0 n then change env.burn_address (pay (pos n)) ds else ds) n 0
      burn_step n = elim (Bool-cases (ltb 0 n)) [
        | inl e ↦ rw e (change-Flows env.burn_address (pay (pos n)) ds n 0 (pay-Between n))
        | inr e ↦ rw e (record { net = ground (arith, e) })
      ]

  -- The balance changes of a block sum up to its reward and its fees, less what its transactions take
  -- from their senders, plus what they pay out: the amounts of transfers and of claimed and refunded
  -- locks. Payments of a multi-payment, trades and the burned fees of token issues cancel out.
  pub accumulate_deltas-total :
      (ds es : Deltas)
      → accumulate_deltas env t b batch ds ≡ ok es
      → total es +ℤ pos (taken_all b.transactions)
        ≡ total ds +ℤ pos (b.reward + b.total_fee + paid_out_all b.transactions)
  unfolding accumulate_deltas
  accumulate_deltas-total ds es h =
      let (g, r, e) = bind-ok (sender_of env b.generator_public_key) _ h in
      let start = pay_burn env t b ds in
      let made =
        change-Flows g (forged env t b) start (b.reward + b.total_fee) (burned env t b)
          forged-Between in
      let rest = accumulate_txs-Flows 0 b.transactions (change g (forged env t b) start) es e in
      Flows-total (Flows-cut (burned env t b) (pay_burn-Flows ds) made rest)

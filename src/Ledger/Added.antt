-- ===== src/Ledger/Added.antt =====
-- What a block that is applied on top of a chain changes of the core of its tree.
use sth_core_pq.Base.{
  ℕ, ◌+◌, ◌<◌, ◌≡◌, sym, ap, ◌∙◌, subst, true, some, List, [], ◌∷◌, Map, insert, ok, bind-ok,
  ok_injective, arith,
}
use sth_core_pq.Models.{Block}
use sth_core_pq.Ledger.{WalletDelta}
use sth_core_pq.Ledger.Env.{Env, default}
use sth_core_pq.Ledger.Tree.{Tree, height_key}
use sth_core_pq.Ledger.Write.{write_wallets_undo}
use sth_core_pq.Ledger.Rollback.{count_ids}
use sth_core_pq.Ledger.Tip.{
  tip, check_tip, write_block, write_blocks, put_undo, apply_locked, bump_tx_count, raise_tip,
  index_txs,
}
use sth_core_pq.Ledger.Restore.{Written, write_wallets_undo-settled}
use sth_core_pq.Ledger.Frames.{Core, core, index_txs-core}

abbrev pub at_height : ℕ → Core → Core
at_height h (w, b, u, l, f) = (w, b, u, some h, f)

-- What a block adds to the core of a tree.
abbrev pub with_block : {Value : Type 0} → Block Value → List ℕ → Core → Core
with_block b encoded (w, bs, u, l, f) =
    (w, insert (height_key b.height) encoded bs, u, some b.height, f)

module _ {Value : Type 0} where
  pub bump_tx_count-core : (a b : ℕ) (t : Tree Value) → core (bump_tx_count a b t) ≡ core t
  unfolding bump_tx_count
  bump_tx_count-core a b t = ground arith

  raise_tip-core :
      (h : ℕ) (t : Tree Value) → tip t < h → core (raise_tip h t) ≡ at_height h (core t)
  unfolding raise_tip
  raise_tip-core h t r = ground arith

  check_tip-next :
      (b : Block Value) (t : Tree Value) (u : Unit {0})
      → 0 < tip t
      → check_tip b t ≡ ok u
      → b.height ≡ tip t + 1
  unfolding check_tip
  check_tip-next b t u r h = ground arith

module _ {Value : Type 0} (env : Env Value) where
  -- What `write_block` leaves of a tree.
  write_block-core :
      (b : Block Value) (encoded : List ℕ) (t v : Tree Value)
      → write_block env b encoded t ≡ ok v
      → tip t < b.height
      → core v ≡ with_block b encoded (core t)
  unfolding write_block
  write_block-core b encoded t v h r =
      let (u, e, f) = bind-ok (index_txs env b.height 0 b.transactions _) _ h in
      let c = index_txs-core env b.height 0 b.transactions _ u e in
      let n = count_ids b.transactions in
      let q : core (bump_tx_count n 0 u)
          ≡ core (record t { blocks = insert (height_key b.height) encoded t.blocks }) =
        bump_tx_count-core n 0 u ∙ c in
      let below : tip (bump_tx_count n 0 u) < b.height =
        subst (λ l. default 0 l < b.height) (sym (ap (λ x. x.3) q)) r in
      sym (ap core (ok_injective _ v f))
      ∙ raise_tip-core b.height (bump_tx_count n 0 u) below
      ∙ ap (at_height b.height) q

  -- The block of the tip is applied with its undo record: the core has the block.
  pub apply_locked-core :
      (b : Block Value) (encoded : List ℕ) (ds : Map WalletDelta) (t t' : Tree Value)
      → 0 < tip t
      → apply_locked env (b, encoded) [] ds true t ≡ ok t'
      → (x : Written Value) × (write_wallets_undo env.to_lowercase ds t ≡ ok x)
        × (b.height ≡ tip t + 1)
        × (v : Tree Value) × (core v ≡ with_block b encoded (core x.2))
        × (put_undo true b.height x.1 v ≡ t')
  unfolding apply_locked write_blocks
  apply_locked-core b encoded ds t t' r h =
      let (c, e, f) = bind-ok (check_tip b t) _ h in
      let (x, wx, g) = bind-ok (write_wallets_undo env.to_lowercase ds t) _ f in
      let (w, ww, k) = bind-ok (write_blocks env ((b, encoded) ∷ []) x.2) _ g in
      let (v, wv, m) = bind-ok (write_block env b encoded x.2) _ ww in
      let next = check_tip-next b t c r e in
      let settled = write_wallets_undo-settled env.to_lowercase ds t x wx in
      let below : tip x.2 < b.height = ground (arith, next, ap (λ s. default 0 s.0) settled) in
      (
        x,
        wx,
        next,
        v,
        write_block-core b encoded x.2 v wv below,
        ap (λ z. put_undo true b.height x.1 z) (ok_injective v w m) ∙ ok_injective _ t' k,
      )

-- ===== src/Ledger/Return.antt =====
-- `rollback_to` comes to an end: each rollback lowers the tip by one.
use sth_core_pq.Base.{
  ℕ, zero, suc, ◌-◌, ◌<◌, ◌≤◌, ◌≡◌, refl, sym, ap, ◌∙◌, Bool, true, false, Option, none, some, [],
  lookup, ltb, leb, Result, ok, err, bind-ok, ok_injective, if◌then◌else◌, arith,
}
use sth_core_pq.Models.{Block}
use sth_core_pq.Ledger.{LedgerError, genesis, finality_violation, block_not_found, no_undo_record}
use sth_core_pq.Ledger.Env.{Env, default}
use sth_core_pq.Ledger.Codec.{get_block_by_height}
use sth_core_pq.Ledger.Tree.{Tree, UndoRecord, height_key, FinalityCert}
use sth_core_pq.Ledger.Rollback.{latest_cert, drop_cert, prev_owners}
use sth_core_pq.Ledger.Tip.{tip}
use sth_core_pq.Ledger.Undo.{
  undo_txs, undo_block, after_undo, undo_tip, rollback_last_block, rollback_to_from, rollback_to,
}
use sth_core_pq.Ledger.Inverse.{drop_round-core}

err_not_ok : (e : LedgerError) (n : ℕ) → Path (Result LedgerError ℕ) (err e) (ok n) → ⊥
err_not_ok e n h = cc

-- Two tests in a row.
either :
    {A P : Type 0} (a b : Bool) {x y z w : A}
    → (if a then x else if b then y else z) ≡ w
    → (x ≡ w → P)
    → (y ≡ w → P)
    → (z ≡ w → P)
    → P
either true b h f g k = f h
either false true h f g k = g h
either false false h f g k = k h

module _ {Value : Type 0} (env : Env Value) where
  abbrev Lowered : ℕ → ℕ → Tree Value → Type 0
  Lowered h n u = (n ≡ h - 1) × (tip u ≡ n)

  undo_block-tip :
      (h : ℕ) (b : Block Value) (undo : UndoRecord) (t u : Tree Value)
      → undo_block env h b undo t ≡ ok u
      → u.last_height ≡ some (h - 1)
  unfolding undo_block
  undo_block-tip h b undo t u e =
      let (v, r, f) = bind-ok (undo_txs env (prev_owners undo []) h 0 b.transactions _) _ e in
      ap (λ x. x.last_height) (sym (ok_injective _ u f))

  -- An error is no success.
  refused :
      {P : Type 0} (e : LedgerError) (n : ℕ) (t v : Tree Value)
      → Path (Result LedgerError ℕ × Tree Value) (err e, t) (ok n, v)
      → P
  refused e n t v h = absurd (err_not_ok e n (ap (λ x. x.0) h))

  after_step :
      (h n : ℕ) (t v : Tree Value) (r : Result LedgerError (Tree Value))
      → ((u : Tree Value) → r ≡ ok u → u.last_height ≡ some (h - 1))
      → after_undo env h t r ≡ (ok n, v)
      → Lowered h n v
  after_step h n t v (err e) k h' = refused e n t v h'
  after_step h n t v (ok u) k h' = (
    sym (ok_injective (h - 1) n (ap (λ x. x.0) h')),
    ap (λ x. tip x.1) (sym h')
        ∙ ap (λ c. default 0 c.3) (drop_round-core env h u)
        ∙ ap (default 0) (k u refl)
        ∙ ok_injective (h - 1) n (ap (λ x. x.0) h'),
  )

  tip_step :
      (h n : ℕ) (t v : Tree Value) (o : Result LedgerError (Option (Block Value)))
      (p : Option UndoRecord)
      → Path
          (Result LedgerError ℕ × Tree Value)
          (elim o [
            | err e ↦ (err e, t)
            | ok found ↦ elim found [
              | none ↦ (err block_not_found, t)
              | some b ↦ elim p [
                | none ↦ (err no_undo_record, t)
                | some undo ↦ after_undo env h t (undo_block env h b undo t)
              ]
            ]
          ])
          (ok n, v)
      → Lowered h n v
  tip_step h n t v (err x) p e = refused x n t v e
  tip_step h n t v (ok none) p e = refused block_not_found n t v e
  tip_step h n t v (ok (some b)) none e = refused no_undo_record n t v e
  tip_step h n t v (ok (some b)) (some undo) e =
      after_step h n t v (undo_block env h b undo t) (undo_block-tip h b undo t) e

  undo_tip-Lowered : (h n : ℕ) (t v : Tree Value) → undo_tip env h t ≡ (ok n, v) → Lowered h n v
  unfolding undo_tip
  undo_tip-Lowered h n t v e =
      tip_step h n t v (get_block_by_height env t h) (lookup (height_key h) t.undo) e

  pub rollback_last_block-Lowered :
      (n : ℕ) (t v : Tree Value)
      → rollback_last_block env t ≡ (ok n, v)
      → (1 < tip t) × Lowered (tip t) n v
  unfolding rollback_last_block
  rollback_last_block-Lowered n t v e = first (leb (tip t) 1) refl e
    where
      newest :
          (o : Option FinalityCert)
          → (elim o [
            | none ↦ undo_tip env (tip t) t
            | some c ↦
                if ltb c.height (tip t)
                then undo_tip env (tip t) t
                else if (env.milestone (tip t)).finality_active
                then (err finality_violation, t)
                else undo_tip env (tip t) (record t { finality = drop_cert c.height t.finality })
          ])
            ≡ (ok n, v)
          → Lowered (tip t) n v
      newest none e = undo_tip-Lowered (tip t) n t v e
      newest (some c) e =
          either (ltb c.height (tip t)) ((env.milestone (tip t)).finality_active) e
            (undo_tip-Lowered (tip t) n t v) (λ x. refused finality_violation n t v x)
            (undo_tip-Lowered (tip t) n (record t { finality = drop_cert c.height t.finality }) v)

      first :
          (c : Bool)
          → leb (tip t) 1 ≡ c
          → (if c then (err genesis, t) else elim (latest_cert t.finality) [
            | none ↦ undo_tip env (tip t) t
            | some c ↦
                if ltb c.height (tip t)
                then undo_tip env (tip t) t
                else if (env.milestone (tip t)).finality_active
                then (err finality_violation, t)
                else undo_tip env (tip t) (record t { finality = drop_cert c.height t.finality })
          ])
            ≡ (ok n, v)
          → (1 < tip t) × Lowered (tip t) n v
      first true q e = refused genesis n t v e
      first false q e = (ground (arith, q), newest (latest_cert t.finality) e)

  -- The loop returns, and a success is a tip that is not above the height.
  abbrev Returns : ℕ → Option (Result LedgerError ℕ × Tree Value) → Type 0
  Returns height o =
      (r : Result LedgerError ℕ × Tree Value) × (o ≡ some r)
      × ((n : ℕ) → r.0 ≡ ok n → (tip r.1 ≡ n) × (n ≤ height))

  failed_step : (height : ℕ) (e : LedgerError) (u : Tree Value) → Returns height (some (err e, u))
  failed_step height e u = ((err e, u), refl, λ n h. absurd (err_not_ok e n h))

  result_step :
      (f height : ℕ) (r : Result LedgerError ℕ) (u : Tree Value)
      → ((n : ℕ) → r ≡ ok n → Returns height (rollback_to_from env f n height u))
      → Returns height
          (elim r [ err e ↦ some (err e, u) | ok below ↦ rollback_to_from env f below height u ])
  result_step f height (err e) u k = failed_step height e u
  result_step f height (ok n) u k = k n refl

  test_step :
      (height n : ℕ) (t : Tree Value) (o : Option (Result LedgerError ℕ × Tree Value)) (c : Bool)
      → ltb height n ≡ c
      → tip t ≡ n
      → (height < n → Returns height o)
      → Returns height (if c then o else some (ok n, t))
  test_step height n t o true q e k = k (ground (arith, q))
  test_step height n t o false q e k =
      ((ok n, t), refl, λ m h. (e ∙ ok_injective n m h, ground (arith, q, ok_injective n m h)))

  rollback_to_from-Returns :
      (f top height : ℕ) (t : Tree Value)
      → top < f
      → tip t ≡ top
      → Returns height (rollback_to_from env f top height t)
  unfolding rollback_to_from
  rollback_to_from-Returns zero top height t h q = absurd (omega arith)
  rollback_to_from-Returns (suc f) top height t h q =
      test_step height top t _ (ltb height top) refl q (λ above.
        result_step f height (rollback_last_block env t).0 (rollback_last_block env t).1 (λ n e.
          let (low, (down, same)) =
            rollback_last_block-Lowered n t (rollback_last_block env t).1
              (ap (λ r. (r, (rollback_last_block env t).1)) e) in
          rollback_to_from-Returns f n height (rollback_last_block env t).1
            (omega (arith, down, low, q)) same))

  -- Rolling back to a height always comes to an end, with a tip or with the error of a rollback; when
  -- it succeeds the tip it returns is the tip of the chain and not above the height.
  pub rollback_to-returns :
      (height : ℕ) (t : Tree Value)
      → (r : Result LedgerError ℕ × Tree Value) × (rollback_to env height t ≡ some r)
        × ((n : ℕ) → r.0 ≡ ok n → (tip r.1 ≡ n) × (n ≤ height))
  unfolding rollback_to
  rollback_to-returns height t =
      rollback_to_from-Returns (suc (tip t)) (tip t) height t (omega arith) refl

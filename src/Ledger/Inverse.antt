-- ===== src/Ledger/Inverse.antt =====
-- A block that is applied and then rolled back leaves every wallet as it was.
use sth_core_pq.Base.{
  All, ℕ, ◌+◌, ◌-◌, ◌<◌, ◌≤◌, ◌^◌, ◌≡◌, ◌≢◌, refl, sym, ap, ◌∙◌, subst, Bool-cases, inl, inr,
  text_eq→eq, true, false, Option, Option-cases, none, some, List, [], ◌∷◌, Text, Map, lookup,
  insert, remove, lookup-insert, lookup-remove, text_eq, text_eq_refl, Unique, ok, arith,
}
use sth_core_pq.Models.{Block}
use sth_core_pq.Ledger.{WalletDelta, WalletState}
use sth_core_pq.Ledger.Env.{Env, default}
use sth_core_pq.Ledger.Tree.{Tree, UndoRecord, FinalityCert, height_key, to_be_bytes_injective}
use sth_core_pq.Ledger.Write.{write_wallets_undo}
use sth_core_pq.Ledger.Rollback.{
  latest_cert, drop_market, restore_wallets, restore_indexes, put_previous, prev_owners, count_ids,
}
use sth_core_pq.Ledger.Tip.{tip, put_undo, apply_locked, bump_tx_count}
use sth_core_pq.Ledger.Undo.{
  undo_orders, undo_block, undo_tip, rollback_last_block, drop_round, drop_missed_at,
}
use sth_core_pq.Ledger.Restore.{
  Written, recorded, restore_wallets-lookup, write_wallets_undo-recorded, write_wallets_undo-Unique,
  write_wallets_undo-settled,
}
use sth_core_pq.Ledger.Codec.{decode_block, get_block_by_height}
use sth_core_pq.Ledger.Frames.{Sent, Core, core, undo_txs-Undone, undo_orders-core}
use sth_core_pq.Ledger.Added.{with_block, bump_tx_count-core, apply_locked-core}

-- Keys of different heights differ.
height_key_ne :
    (a b : ℕ) → a < 2 ^ 64 → b < 2 ^ 64 → a ≢ b → text_eq (height_key a) (height_key b) ≡ false
unfolding height_key
height_key_ne a b ha hb n = elim (Bool-cases (text_eq (height_key a) (height_key b))) [
  | inl e ↦
      absurd (n (to_be_bytes_injective 8 a b ha hb (text_eq→eq (height_key a) (height_key b) e)))
  | inr e ↦ e
]

abbrev below_block : ℕ → Core → Core
below_block h (w, bs, u, l, f) =
    (w, remove (height_key h) bs, remove (height_key h) u, some (h - 1), f)

module _ {Value : Type 0} where
  drop_market-core : (undo : UndoRecord) (t : Tree Value) → core (drop_market undo t) ≡ core t
  unfolding drop_market
  drop_market-core [] t = refl
  drop_market-core ((a, p) ∷ undo) t = drop_market-core undo _

  -- Restoring the wallets changes the wallets and their indexes.
  abbrev others : Tree Value → Map (List ℕ) × Map UndoRecord × Option ℕ × List FinalityCert
  others t = (t.blocks, t.undo, t.last_height, t.finality)

  put_previous-others :
      (a : Text) (p : Option WalletState) (t : Tree Value)
      → others (put_previous a p (restore_indexes a p t)) ≡ others t
  unfolding put_previous restore_indexes
  put_previous-others a (some w) t = refl
  put_previous-others a none t = ground arith

  restore_wallets-others :
      (undo : UndoRecord) (t : Tree Value) → others (restore_wallets undo t) ≡ others t
  unfolding restore_wallets
  restore_wallets-others [] t = refl
  restore_wallets-others ((a, p) ∷ undo) t =
      restore_wallets-others undo _ ∙ put_previous-others a p t

  -- The undo record of a height survives the removal of the old one.
  put_undo-lookup :
      (h : ℕ) (undo : UndoRecord) (t : Tree Value)
      → h < 2 ^ 64
      → lookup (height_key h) (put_undo true h undo t).undo ≡ some undo
  unfolding put_undo
  put_undo-lookup h undo t r = ground (
    arith,
    lookup-insert (height_key h) (height_key h) undo t.undo,
    text_eq_refl (height_key h),
    lookup-remove (height_key (h - 1_000)) (height_key h) (insert (height_key h) undo t.undo),
    height_key_ne (h - 1_000) h,
  )

module _ {Value : Type 0} (env : Env Value) where
  pub drop_round-core :
      (h : ℕ) (t : Tree Value) → core (drop_round env h (drop_missed_at h t)) ≡ core t
  unfolding drop_round drop_missed_at
  drop_round-core h t = ground arith

  undo_block-core :
      (h : ℕ) (b : Block Value) (undo : UndoRecord) (t : Tree Value)
      → All (Sent env) b.transactions
      → (u : Tree Value) × (undo_block env h b undo t ≡ ok u)
        × (core u ≡ below_block h (core (restore_wallets undo (drop_market undo t))))
  unfolding undo_block
  undo_block-core h b undo t k =
      let restored = restore_wallets undo (drop_market undo t) in
      let (u, e, c) =
        undo_txs-Undone env (prev_owners undo []) h 0 b.transactions
          (undo_orders env h 0 b.transactions restored) k in
      let q : core (bump_tx_count 0 (count_ids b.transactions) u) ≡ core restored =
        bump_tx_count-core 0 (count_ids b.transactions) u
        ∙ c
        ∙ undo_orders-core env h 0 b.transactions restored in
      rw (e, undo_block) (_, refl, ap (below_block h) q)

  rollback_last_block-undo_tip :
      (t : Tree Value)
      → 1 < tip t
      → ((c : FinalityCert) → latest_cert t.finality ≡ some c → c.height < tip t)
      → rollback_last_block env t ≡ undo_tip env (tip t) t
  unfolding rollback_last_block
  rollback_last_block-undo_tip t r certs = elim (Option-cases (latest_cert t.finality)) [
    | inl e ↦ ground (arith, e)
    | inr (c, e) ↦ ground (arith, e, certs c e)
  ]

  -- A tip that no certificate covers, with its block and its undo record.
  rollback_last_block-core :
      (h : ℕ) (b : Block Value) (undo : UndoRecord) (t : Tree Value)
      → tip t ≡ h
      → 1 < h
      → ((c : FinalityCert) → latest_cert t.finality ≡ some c → c.height < h)
      → get_block_by_height env t h ≡ ok (some b)
      → lookup (height_key h) t.undo ≡ some undo
      → All (Sent env) b.transactions
      → (u : Tree Value) × (rollback_last_block env t ≡ (ok (h - 1), u))
        × (core u ≡ below_block h (core (restore_wallets undo (drop_market undo t))))
  unfolding undo_tip
  rollback_last_block-core h b undo t th r certs lb lu k =
      let (u, e, c) = undo_block-core h b undo t k in
      let tipped : undo_tip env h t ≡ (ok (h - 1), drop_round env h (drop_missed_at h u)) =
        rw (lb, undo_tip) (rw (lu, undo_tip) (rw e refl)) in
      let rolled : rollback_last_block env t ≡ undo_tip env h t =
        rollback_last_block-undo_tip t (subst (λ n. 1 < n) (sym th) r)
          (λ c e. subst (λ n. c.height < n) (sym th) (certs c e))
        ∙ ap (λ n. undo_tip env n t) th in
      (_, rolled ∙ tipped, drop_round-core h u ∙ c)

  -- The stored block is read back as its bytes decode.
  get_block_by_height-stored :
      (h : ℕ) (encoded : List ℕ) (read : Block Value) (t : Tree Value)
      → lookup (height_key h) t.blocks ≡ some encoded
      → decode_block env encoded ≡ ok read
      → get_block_by_height env t h ≡ ok (some read)
  unfolding get_block_by_height
  get_block_by_height-stored h encoded read t l d = rw (l, get_block_by_height) (rw d refl)

  rollback_put_undo :
      (b read : Block Value) (encoded : List ℕ) (ds : Map WalletDelta) (t : Tree Value)
      (x : Written Value) (v : Tree Value)
      → Unique ds
      → 0 < tip t
      → b.height < 2 ^ 64
      → ((c : FinalityCert) → latest_cert t.finality ≡ some c → c.height ≤ tip t)
      → write_wallets_undo env.to_lowercase ds t ≡ ok x
      → b.height ≡ tip t + 1
      → core v ≡ with_block b encoded (core x.2)
      → decode_block env encoded ≡ ok read
      → All (Sent env) read.transactions
      → (u : Tree Value) × (rollback_last_block env (put_undo true b.height x.1 v)
          ≡ (ok (tip t), u))
        × (tip u ≡ tip t)
        × ((address : Text) → lookup address u.wallets ≡ lookup address t.wallets)
  unfolding put_undo
  rollback_put_undo b read encoded ds t x v uds r fits certs wx next cv decoded sent =
      let s = put_undo true b.height x.1 v in
      let key = height_key b.height in
      let settled = write_wallets_undo-settled env.to_lowercase ds t x wx in
      let same : v.finality ≡ t.finality = ap (λ c. c.4) cv ∙ ap (λ p. p.1) settled in
      let own : (c : FinalityCert) → latest_cert s.finality ≡ some c → c.height < b.height =
        λ c e. omega (arith, next, certs c (sym (ap latest_cert same) ∙ e)) in
      let held : lookup key s.blocks ≡ some encoded =
        ap (λ c. lookup key c.1) cv
        ∙ ground (arith, lookup-insert key key encoded x.2.blocks, text_eq_refl key) in
      let (u, e, c) =
        rollback_last_block-core b.height read x.1 s (ap (λ c. default 0 c.3) cv)
          (omega (arith, next)) own
          (get_block_by_height-stored b.height encoded read s held decoded)
          (put_undo-lookup b.height x.1 v fits) sent in
      let down : b.height - 1 ≡ tip t = omega (arith, next) in
      let unique = write_wallets_undo-Unique env.to_lowercase ds t x uds wx in
      (
        u,
        e ∙ ap (λ n. (ok n, u)) down,
        ap (λ c. default 0 c.3) c ∙ down,
        λ address.
            ap (λ c. lookup address c.0) c
            ∙ restore_wallets-lookup address x.1 (drop_market x.1 s) unique
            ∙ ap (λ w. recorded (lookup address x.1) (lookup address w))
                (ap (λ c. c.0) (drop_market-core x.1 s) ∙ ap (λ c. c.0) cv)
            ∙ write_wallets_undo-recorded env.to_lowercase address ds t x uds wx,
      )

  -- When a block is applied on top of a chain that is not empty, with the changes to its wallets and
  -- an undo record, no finality certificate reaches it, and its bytes decode to a block whose
  -- transactions all have a public key with an address as their sender, then rolling the last block
  -- back succeeds, goes back to the old tip and leaves every wallet as it was before the block. What
  -- else the decoded block has does not matter.
  pub rollback_last_block-apply_locked :
      (b read : Block Value) (encoded : List ℕ) (ds : Map WalletDelta) (t t' : Tree Value)
      → Unique ds
      → 0 < tip t
      → b.height < 2 ^ 64
      → ((c : FinalityCert) → latest_cert t.finality ≡ some c → c.height ≤ tip t)
      → decode_block env encoded ≡ ok read
      → All (Sent env) read.transactions
      → apply_locked env (b, encoded) [] ds true t ≡ ok t'
      → (u : Tree Value) × (rollback_last_block env t' ≡ (ok (tip t), u))
        × (tip u ≡ tip t)
        × ((address : Text) → lookup address u.wallets ≡ lookup address t.wallets)
  rollback_last_block-apply_locked b read encoded ds t t' uds r fits certs decoded sent h =
      let (x, wx, next, v, cv, pv) = apply_locked-core env b encoded ds t t' r h in
      let (u, e, low, back) =
        rollback_put_undo b read encoded ds t x v uds r fits certs wx next cv decoded sent in
      (u, subst (λ z. rollback_last_block env z ≡ (ok (tip t), u)) pv e, low, back)

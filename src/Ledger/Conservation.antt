-- ===== src/Ledger/Conservation.antt =====
-- What the core types move.
use sth_core_pq.Base.{
  err, ℕ, ◌≡◌, refl, sym, subst, Bool, true, false, Option, none, some, List, [], ◌∷◌, Text, Result,
  ok, bind-ok, ok_injective, ok_or, arith,
}
use sth_core_pq.Base.Int.{pos}
use sth_core_pq.Models.{
  Transaction, Block, Payment, MultiSignatureAsset, SecondSignatureAsset, is_pq,
}
use sth_core_pq.Ledger.{WalletDelta, LedgerError, bad_public_key}
use sth_core_pq.Ledger.Env.{Env, sender_of, payments_of}
use sth_core_pq.Ledger.Tree.{Tree}
use sth_core_pq.Ledger.Deltas.{Deltas, change, pay, charge, and_then, find_lock}
use sth_core_pq.Ledger.Core.{
  CoreType, core_effect, transfer_effect, commit_effect, pay_all, set_votes, set_vote, set_username,
  commit, register_key, resign, set_multi, add_lock, remove_lock, lock_effect, claim_lock,
  refund_lock, with_lock, multi_effect,
}
use sth_core_pq.Ledger.Flows.{
  Flows, change-Flows, pay-Between, charge-Between, Flows-trans, Flows-refl, Flows-even,
  Flows-Level,
}
use sth_core_pq.Ledger.Conserve.{Level, Level-trans, Neutral, change-Level, option-Level, if-Level}

pay_all-Level : (sender : Text) (ps : List Payment) (ds : Deltas) → Level ds (pay_all sender ps ds)
unfolding pay_all
pay_all-Level sender [] ds = Flows-refl ds
pay_all-Level sender (p ∷ ps) ds =
    let n = p.amount in
    Level-trans
      (Flows-even n (omega arith) (omega arith) (
        Flows-trans (change-Flows p.recipient_id (pay (pos n)) ds n 0 (pay-Between n))
          (change-Flows sender (charge (pos n)) _ 0 n (charge-Between n))))
      (pay_all-Level sender ps _)

set_votes-Level : (sender : Text) (vs : List Text) (ds : Deltas) → Level ds (set_votes sender vs ds)
unfolding set_votes set_vote
set_votes-Level sender [] ds = Flows-refl ds
set_votes-Level sender (v ∷ vs) ds =
    Level-trans (change-Level sender _ ds (λ d. refl)) (set_votes-Level sender vs _)

-- The amount of a lock that a claim pays out: none without a recipient.
abbrev pub claimed : {Value : Type 0} → Option (Transaction Value) → ℕ
claimed none = 0
claimed (some l) = elim (l.recipient_id) [ none ↦ 0 | some r ↦ l.amount ]

abbrev pub refunded : {Value : Type 0} → Option (Transaction Value) → ℕ
refunded none = 0
refunded (some l) = l.amount

-- The lock, where its lookup succeeds.
abbrev pub read_lock :
    {Value : Type 0} → Result LedgerError (Option (Transaction Value)) → Option (Transaction Value)
read_lock (err e) = none
read_lock (ok o) = o

module _ {Value : Type 0} (env : Env Value) (t : Tree Value) (batch : List (Block Value)) where
  -- What a core transaction pays out of what was taken from its sender, or from a lock.
  unfoldable pub paid_by_type : Transaction Value → CoreType → ℕ
  paid_by_type tx CoreType.transfer = elim (tx.recipient_id) [ none ↦ 0 | some r ↦ tx.amount ]
  paid_by_type tx CoreType.htlc_claim = claimed (
      and_then (and_then (and_then tx.asset (λ a. a.claim)) (λ c. some c.lock_transaction_id))
        (λ id. read_lock (find_lock env t batch id)))
  paid_by_type tx CoreType.htlc_refund =
      refunded
        (and_then (and_then tx.asset (λ a. a.refund)) (λ id. read_lock (find_lock env t batch id)))
  paid_by_type tx _ = 0

module _ {Value : Type 0} (env : Env Value) (t : Tree Value) where
  commit_effect-Level :
      (height : ℕ) (tx : Transaction Value) (sender r : Text) (ds : Deltas)
      → Level ds (commit_effect env t height tx sender r ds)
  unfolding commit_effect commit
  commit_effect-Level height tx sender r ds =
      if-Level _ ds
        (option-Level _ ds (Flows-refl ds) (λ hash. change-Level sender _ ds (λ d. refl)))
        (Flows-refl ds)

  transfer_step :
      (height : ℕ) (tx : Transaction Value) (sender : Text) (o : Option Text) (ds : Deltas)
      → Flows ds
          (elim o [
            | none ↦ ds
            | some r ↦ commit_effect env t height tx sender r (change r (pay (pos tx.amount)) ds)
          ])
          (elim o [ none ↦ 0 | some r ↦ tx.amount ])
          0
  transfer_step height tx sender none ds = Flows-refl ds
  transfer_step height tx sender (some r) ds =
      Flows-Level (change-Flows r (pay (pos tx.amount)) ds tx.amount 0 (pay-Between tx.amount))
        (commit_effect-Level height tx sender r _)

  lock_effect-Level :
      (b : Block Value) (tx : Transaction Value) (sender : Text) (ds : Deltas)
      → Level ds (lock_effect env t b tx sender ds)
  unfolding lock_effect add_lock
  lock_effect-Level b tx sender ds =
      option-Level (and_then tx.asset (λ a. a.lock)) ds (Flows-refl ds) (λ l.
        option-Level tx.id ds (Flows-refl ds) (λ id.
          option-Level tx.recipient_id ds (Flows-refl ds)
            (λ r. change-Level sender _ ds (λ d. refl))))

  -- The recipient of a claimed lock.
  claim_step :
      (l : Transaction Value) (o : Option Text) (ds : Deltas)
      → Flows ds
          (elim o [ none ↦ ds | some r ↦ change r (pay (pos l.amount)) ds ])
          (elim o [ none ↦ 0 | some r ↦ l.amount ])
          0
  claim_step l none ds = Flows-refl ds
  claim_step l (some r) ds =
      change-Flows r (pay (pos l.amount)) ds l.amount 0 (pay-Between l.amount)

  claim_lock-Flows :
      (id : Text) (l : Transaction Value) (ds es : Deltas)
      → claim_lock env t id l ds ≡ ok es
      → Flows ds es (claimed (some l)) 0
  unfolding claim_lock remove_lock
  claim_lock-Flows id l ds es h =
      let (owner, r, e) = bind-ok (sender_of env l.sender_public_key) _ h in
      subst (λ x. Flows ds x (claimed (some l)) 0) (ok_injective _ es e)
        (Flows-Level (claim_step l l.recipient_id ds) (change-Level owner _ _ (λ d. refl)))

  refund_lock-Flows :
      (id : Text) (l : Transaction Value) (ds es : Deltas)
      → refund_lock env t id l ds ≡ ok es
      → Flows ds es l.amount 0
  unfolding refund_lock remove_lock
  refund_lock-Flows id l ds es h =
      let (owner, r, e) = bind-ok (sender_of env l.sender_public_key) _ h in
      subst (λ x. Flows ds x l.amount 0) (ok_injective _ es e)
        (change-Flows owner _ ds l.amount 0 (pay-Between l.amount))

  found_step :
      (f : Transaction Value → Deltas → Result LedgerError Deltas)
      (paid : Option (Transaction Value) → ℕ) (o : Option (Transaction Value)) (ds es : Deltas)
      → paid none ≡ 0
      → ((l : Transaction Value) (xs : Deltas) → f l ds ≡ ok xs → Flows ds xs (paid (some l)) 0)
      → Path (Result LedgerError Deltas) (elim o [ none ↦ ok ds | some l ↦ f l ds ]) (ok es)
      → Flows ds es (paid o) 0
  found_step f paid none ds es z k h =
      subst (λ n. Flows ds es n 0) (sym z) (subst (Level ds) (ok_injective ds es h) (Flows-refl ds))
  found_step f paid (some l) ds es z k h = k l es h

  with_lock-Flows :
      (f : Text → Transaction Value → Deltas → Result LedgerError Deltas)
      (paid : Option (Transaction Value) → ℕ) (batch : List (Block Value)) (o : Option Text)
      (ds es : Deltas)
      → paid none ≡ 0
      → ((id : Text) (l : Transaction Value) (xs : Deltas)
          → f id l ds ≡ ok xs
          → Flows ds xs (paid (some l)) 0)
      → with_lock env t f batch o ds ≡ ok es
      → Flows ds es (paid (and_then o (λ id. read_lock (find_lock env t batch id)))) 0
  with_lock-Flows f paid batch none ds es z k h =
      found_step (λ l xs. f [] l xs) paid none ds es z (λ l xs e. k [] l xs e) h
  with_lock-Flows f paid batch (some id) ds es z k h =
      let (o, r, e) = bind-ok (find_lock env t batch id) _ h in
      subst (λ l. Flows ds es (paid (read_lock l)) 0) (sym r)
        (found_step (f id) paid o ds es z (k id) e)

  register_key-Neutral :
      (pq : Bool) (s : SecondSignatureAsset) (height : ℕ) → Neutral (register_key pq s height)
  unfolding register_key
  register_key-Neutral true s height d = refl
  register_key-Neutral false s height d = refl

  multi_effect-Level :
      (o : Option MultiSignatureAsset) (ds es : Deltas)
      → multi_effect env t o ds ≡ ok es
      → Level ds es
  unfolding multi_effect set_multi
  multi_effect-Level none ds es h = subst (Level ds) (ok_injective ds es h) (Flows-refl ds)
  multi_effect-Level (some m) ds es h =
      let (a, r, e) = bind-ok (ok_or (env.multi_address m) bad_public_key) _ h in
      subst (Level ds) (ok_injective _ es e) (change-Level a (set_multi m) ds (λ d. refl))

  option-step :
      {A : Type 0} (o : Option A) (f : A → WalletDelta → WalletDelta) (sender : Text)
      (ds es : Deltas)
      → ((a : A) → Neutral (f a))
      → Path
          (Result LedgerError Deltas)
          (elim o [ none ↦ ok ds | some a ↦ ok (change sender (f a) ds) ])
          (ok es)
      → Level ds es
  option-step none f sender ds es n h = subst (Level ds) (ok_injective ds es h) (Flows-refl ds)
  option-step (some a) f sender ds es n h =
      subst (Level ds) (ok_injective _ es h) (change-Level sender (f a) ds (n a))

  -- What a core transaction pays out, and to nobody else.
  pub core_effect-Flows :
      (b : Block Value) (batch : List (Block Value)) (tx : Transaction Value) (sender : Text)
      (k : CoreType) (ds es : Deltas)
      → core_effect env t b batch tx sender k ds ≡ ok es
      → Flows ds es (paid_by_type env t batch tx k) 0
  unfolding core_effect paid_by_type transfer_effect set_username register_key resign set_multi
      multi_effect
  core_effect-Flows b batch tx sender CoreType.transfer ds es h =
      subst (λ x. Flows ds x (paid_by_type env t batch tx CoreType.transfer) 0)
        (ok_injective _ es h) (transfer_step b.height tx sender tx.recipient_id ds)
  core_effect-Flows b batch tx sender CoreType.multi_payment ds es h =
      subst (Level ds) (ok_injective _ es h) (pay_all-Level sender (payments_of tx.asset) ds)
  core_effect-Flows b batch tx sender CoreType.vote ds es h =
      subst (Level ds) (ok_injective _ es h) (set_votes-Level sender _ ds)
  core_effect-Flows b batch tx sender CoreType.delegate_registration ds es h =
      option-step (and_then tx.asset (λ a. a.delegate)) set_username sender ds es (λ a d. refl) h
  core_effect-Flows b batch tx sender CoreType.second_signature ds es h =
      option-step (and_then tx.asset (λ a. a.signature)) (λ s. register_key (is_pq tx) s b.height)
        sender ds es (λ s. register_key-Neutral (is_pq tx) s b.height) h
  core_effect-Flows b batch tx sender CoreType.delegate_resignation ds es h =
      subst (Level ds) (ok_injective _ es h) (change-Level sender resign ds (λ d. refl))
  core_effect-Flows b batch tx sender CoreType.multi_signature ds es h =
      multi_effect-Level (and_then tx.asset (λ a. a.multi_signature)) ds es h
  core_effect-Flows b batch tx sender CoreType.htlc_lock ds es h =
      subst (Level ds) (ok_injective _ es h) (lock_effect-Level b tx sender ds)
  core_effect-Flows b batch tx sender CoreType.htlc_claim ds es h =
      with_lock-Flows (claim_lock env t) claimed batch
        (and_then (and_then tx.asset (λ a. a.claim)) (λ c. some c.lock_transaction_id)) ds es refl
        (λ id l xs e. claim_lock-Flows id l ds xs e) h
  core_effect-Flows b batch tx sender CoreType.htlc_refund ds es h =
      with_lock-Flows (refund_lock env t) refunded batch (and_then tx.asset (λ a. a.refund)) ds es
        refl (λ id l xs e. refund_lock-Flows id l ds xs e) h
  core_effect-Flows b batch tx sender CoreType.ipfs ds es h =
      subst (Level ds) (ok_injective ds es h) (Flows-refl ds)

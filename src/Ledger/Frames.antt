-- ===== src/Ledger/Frames.antt =====
-- What the writes of transactions, and taking them back, leave alone.
use sth_core_pq.Base.{
  All, ℕ, ◌+◌, ◌≡◌, refl, sym, ap, ◌∙◌, Bool, true, false, Option, none, some, Option-cases, List,
  [], ◌∷◌, inl, inr, Text, Map, lookup, Result, ok, ◌>>=◌, bind-ok, ok_injective, if◌then◌else◌,
  arith,
}
use sth_core_pq.Models.{Transaction, TokenAsset, TokenType, token_type, TokenOrder}
use sth_core_pq.SmartObjects.{SmartObjectAsset}
use sth_core_pq.Ledger.{LedgerError, WalletState}
use sth_core_pq.Ledger.Env.{Env, default, token_of, sobj_of, sender_of, tx_addresses}
use sth_core_pq.Ledger.Tree.{Tree, UndoRecord, FinalityCert, write_order}
use sth_core_pq.Ledger.Rollback.{undo_order, drop_order, reopen, reopened}
use sth_core_pq.Ledger.Tip.{index_tx, index_txs}
use sth_core_pq.Ledger.Undo.{
  undo_orders, undo_name, put_back_owner, give_back, undo_handover, undo_init, undo_tx, undo_txs,
}

-- The wallets, the blocks, the undo records and the tip.
abbrev pub Core : Type 0
Core = Map WalletState × Map (List ℕ) × Map UndoRecord × Option ℕ × List FinalityCert

module _ {Value : Type 0} where
  abbrev pub core : Tree Value → Core
  core t = (t.wallets, t.blocks, t.undo, t.last_height, t.finality)

  write_order-core : (o : TokenOrder) (t : Tree Value) → core (write_order o t) ≡ core t
  unfolding write_order
  write_order-core o t = ground arith

  drop_order-core : (id : Text) (t : Tree Value) → core (drop_order id t) ≡ core t
  unfolding drop_order
  drop_order-core id t = ground arith

  reopen-core :
      (k : TokenType) (tx : Transaction Value) (a : TokenAsset) (t : Tree Value)
      → core (reopen k tx a t) ≡ core t
  unfolding reopen
  reopen-core k tx a t = elim (Option-cases (lookup (default [] a.order_id) t.orders)) [
    | inl e ↦ rw (e, reopen) refl
    | inr (o, e) ↦ rw (e, reopen) (write_order-core (reopened k tx a o) t)
  ]

  undo_order-core :
      (h i : ℕ) (tx : Transaction Value) (a : TokenAsset) (k : TokenType) (t : Tree Value)
      → core (undo_order h i tx a k t) ≡ core t
  unfolding undo_order
  undo_order-core h i tx a TokenType.sell t = drop_order-core _ t
  undo_order-core h i tx a TokenType.buy t = reopen-core TokenType.buy tx a _
  undo_order-core h i tx a TokenType.cancel t = reopen-core TokenType.cancel tx a t
  undo_order-core h i tx a _ t = refl

  -- It succeeds and leaves the core alone.
  abbrev pub Undone : Result LedgerError (Tree Value) → Tree Value → Type 0
  Undone m t = (u : Tree Value) × (m ≡ ok u) × (core u ≡ core t)

  if-Undone :
      (b : Bool) {x y : Result LedgerError (Tree Value)} (t : Tree Value)
      → Undone x t
      → Undone y t
      → Undone (if b then x else y) t
  if-Undone true t hx hy = hx
  if-Undone false t hx hy = hy

  option-Undone :
      {A : Type 0} (o : Option A) {x : Result LedgerError (Tree Value)}
      {f : A → Result LedgerError (Tree Value)} (t : Tree Value)
      → Undone x t
      → ((a : A) → Undone (f a) t)
      → Undone (elim o [ none ↦ x | some a ↦ f a ]) t
  option-Undone none t hx hf = hx
  option-Undone (some a) t hx hf = hf a

  bind-Undone :
      {m : Result LedgerError (Tree Value)} {f : Tree Value → Result LedgerError (Tree Value)}
      (t : Tree Value)
      → Undone m t
      → ((u : Tree Value) → Undone (f u) u)
      → Undone (m >>= f) t
  bind-Undone {f = f} t (u, e, c) hf = let (v, d, k) = hf u in rw e (v, d, k ∙ c)

-- Its sender's public key has an address.
abbrev pub Sent : {Value : Type 0} → Env Value → Transaction Value → Type 0
Sent env tx = (a : Text) × (sender_of env tx.sender_public_key ≡ ok a)

module _ {Value : Type 0} (env : Env Value) where
  pub undo_orders-core :
      (h i : ℕ) (txs : List (Transaction Value)) (t : Tree Value)
      → core (undo_orders env h i txs t) ≡ core t
  unfolding undo_orders
  undo_orders-core h i [] t = refl
  undo_orders-core h i (tx ∷ txs) t = elim (Option-cases (token_of env tx)) [
    | inl e ↦ ground (arith, e, undo_orders-core h (i + 1) txs t)
    | inr (a, e) ↦ ground (
      arith,
      e,
      undo_orders-core h (i + 1) txs t,
      undo_order-core h i tx a (token_type tx.type_) (undo_orders env h (i + 1) txs t),
    )
  ]

  undo_name-core :
      (o : Option SmartObjectAsset) (t : Tree Value) → core (undo_name env o t) ≡ core t
  unfolding undo_name
  undo_name-core none t = refl
  undo_name-core (some e) t = ground arith

  undo_init-core : (tx : Transaction Value) (t : Tree Value) → core (undo_init env tx t) ≡ core t
  unfolding undo_init
  undo_init-core tx t = ground arith

  index_tx-ok :
      (h i : ℕ) (tx : Transaction Value) (id : Text) (t u : Tree Value)
      → index_tx env h i tx id t ≡ ok u
      → (addresses : List Text) × (tx_addresses env tx ≡ ok addresses) × (core u ≡ core t)
  unfolding index_tx
  index_tx-ok h i tx id t u e =
      let (addresses, r, f) = bind-ok (tx_addresses env tx) _ e in
      (addresses, r, sym (ap core (ok_injective _ u f)))

  tx_addresses-ok :
      (tx : Transaction Value) (a : Text)
      → sender_of env tx.sender_public_key ≡ ok a
      → (addresses : List Text) × (tx_addresses env tx ≡ ok addresses)
  unfolding tx_addresses
  tx_addresses-ok tx a h = rw h (_, refl)

  give_back-Undone :
      (owners : Map Text) (tx : Transaction Value) (id a : Text) (t : Tree Value)
      → sender_of env tx.sender_public_key ≡ ok a
      → Undone (give_back env owners tx id t) t
  unfolding put_back_owner give_back
  give_back-Undone owners tx id a t h = elim (Option-cases (lookup id owners)) [
    | inl e ↦ rw (e, give_back) (rw h (put_back_owner id a t, refl, refl))
    | inr (o, e) ↦ rw (e, give_back) (put_back_owner id o t, refl, refl)
  ]

  undo_handover-Undone :
      (owners : Map Text) (tx : Transaction Value) (o : Option SmartObjectAsset) (a : Text)
      (t : Tree Value)
      → sender_of env tx.sender_public_key ≡ ok a
      → Undone (undo_handover env owners tx o t) t
  unfolding undo_handover
  undo_handover-Undone owners tx none a t h = (t, refl, refl)
  undo_handover-Undone owners tx (some e) a t h =
      let still : Undone (ok t) t = (t, refl, refl) in
      if-Undone _ t
        (option-Undone e.registration_id t still (λ id. give_back-Undone owners tx id a t h)) still

  undo_tx-Undone :
      (owners : Map Text) (h i : ℕ) (tx : Transaction Value) (id a : Text) (t : Tree Value)
      → sender_of env tx.sender_public_key ≡ ok a
      → Undone (undo_tx env owners h i tx id t) t
  unfolding undo_tx
  undo_tx-Undone owners h i tx id a t s =
      let named = undo_name env (sobj_of env tx) t in
      let (u, e, f) = undo_handover-Undone owners tx (sobj_of env tx) a named s in
      let (addresses, r) = tx_addresses-ok tx a s in
      rw (e, undo_tx) (rw r (_, refl, undo_init-core tx u ∙ f ∙ undo_name-core (sobj_of env tx) t))

  -- One transaction, which has an id or is passed over.
  index_step :
      (h i : ℕ) (tx : Transaction Value) (o : Option Text) (t v : Tree Value)
      → Path
          (Result LedgerError (Tree Value))
          (elim o [ none ↦ ok t | some id ↦ index_tx env h i tx id t ])
          (ok v)
      → core v ≡ core t
  index_step h i tx none t v e = sym (ap core (ok_injective _ v e))
  index_step h i tx (some id) t v e = (index_tx-ok h i tx id t v e).2

  undo_step :
      (owners : Map Text) (h i : ℕ) (tx : Transaction Value) (o : Option Text) (s : Tree Value)
      → Sent env tx
      → Undone (elim o [ none ↦ ok s | some id ↦ undo_tx env owners h i tx id s ]) s
  undo_step owners h i tx none s (a, e) = (s, refl, refl)
  undo_step owners h i tx (some id) s (a, e) = undo_tx-Undone owners h i tx id a s e

  -- Transactions with senders can be taken back, from any tree.
  pub undo_txs-Undone :
      (owners : Map Text) (h i : ℕ) (txs : List (Transaction Value)) (s : Tree Value)
      → All (Sent env) txs
      → Undone (undo_txs env owners h i txs s) s
  unfolding undo_txs
  undo_txs-Undone owners h i [] s k = (s, refl, refl)
  undo_txs-Undone owners h i (tx ∷ txs) s k =
      bind-Undone s (undo_step owners h i tx tx.id s k.0)
        (λ w. undo_txs-Undone owners h (i + 1) txs w k.1)

  pub index_txs-core :
      (h i : ℕ) (txs : List (Transaction Value)) (t u : Tree Value)
      → index_txs env h i txs t ≡ ok u
      → core u ≡ core t
  unfolding index_txs
  index_txs-core h i [] t u e = sym (ap core (ok_injective _ u e))
  index_txs-core h i (tx ∷ txs) t u e =
      let (v, r, f) =
        bind-ok (elim (tx.id) [ none ↦ ok t | some id ↦ index_tx env h i tx id t ]) _ e in
      index_txs-core h (i + 1) txs v u f ∙ index_step h i tx tx.id t v r

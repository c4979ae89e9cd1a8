-- ===== src/Ledger/Rollback.antt =====
-- src/storage.rs: `rollback_last_block`, one function for each loop of its transaction. The events
-- and the logging are left out.
use sth_core_pq.Base.{
  ℕ, ◌+◌, ◌-◌, Bool, not, ◌&&◌, Option, none, some, List, [], ◌∷◌, Text, text_eq, Map, is_some,
  lookup, insert, remove, ◌==◌, if◌then◌else◌,
}
use sth_core_pq.Models.{TokenAsset, Transaction, TokenOrder, TokenType}
use sth_core_pq.SmartObjects.{SmartObject}
use sth_core_pq.Rules.Manifest.{is_some_and}
use sth_core_pq.Ledger.{LockRecord, WalletState, vote_weight}
use sth_core_pq.Ledger.Env.{default}
use sth_core_pq.Ledger.Tree.{
  Tree, UndoRecord, FinalityCert, adjust_votes, trade_key, book_key, seller_key, write_order,
}
use sth_core_pq.Ledger.Write.{on_market}

-- `for key in map.keys() { t.remove(key) }`
unfoldable pub remove_keys {ℓ κ} : {V : Type ℓ} {W : Type κ} → Map W → Map V → Map V
remove_keys [] m = m
remove_keys ((k, w) ∷ ws) m = remove_keys ws (remove k m)

abbrev pub sobjects_of : Option WalletState → Map SmartObject
sobjects_of none = []
sobjects_of (some w) = w.sobjects

abbrev pub locks_of : Option WalletState → Map LockRecord
locks_of none = []
locks_of (some w) = w.locks

-- `filter(|c| c.height >= height)` on the newest certificate.
unfoldable pub latest_cert : List FinalityCert → Option FinalityCert
latest_cert [] = none
latest_cert (c ∷ cs) = let rest = latest_cert cs in elim rest [ none ↦ some c | some d ↦ some d ]

unfoldable pub drop_cert : ℕ → List FinalityCert → List FinalityCert
drop_cert height [] = []
drop_cert height (c ∷ cs) =
    let rest = drop_cert height cs in if c.height == height then rest else c ∷ rest

-- `fills.retain(|f| Some(f) != tx.id)`
unfoldable pub drop_fill : Option Text → List Text → List Text
drop_fill id [] = []
drop_fill id (f ∷ fs) =
    let rest = drop_fill id fs in if is_some_and (λ i. text_eq f i) id then rest else f ∷ rest

unfoldable pub insert_open : Text → Map SmartObject → Map Text → Map Text
insert_open address [] m = m
insert_open address ((id, r) ∷ rs) m =
    insert_open address rs (if on_market r then insert id address m else m)

unfoldable pub put_locks : Map LockRecord → Map LockRecord → Map LockRecord
put_locks [] m = m
put_locks ((id, l) ∷ ls) m = put_locks ls (insert l.lock_id l m)

abbrev pub remove_some {ℓ} : {V : Type ℓ} → Option Text → Map V → Map V
remove_some none m = m
remove_some (some k) m = remove k m

abbrev pub has_commitment : Option WalletState → Bool
has_commitment o = is_some_and (λ w. is_some w.pq_commitment) o

abbrev pub has_pq_key : Option WalletState → Bool
has_pq_key o = is_some_and (λ w. is_some w.pq_key) o

module _ {Value : Type 0} where
  unfoldable pub drop_market : UndoRecord → Tree Value → Tree Value
  drop_market [] t = t
  drop_market ((address, previous) ∷ undo) t =
      drop_market undo
        (record t { market = remove_keys (sobjects_of (lookup address t.wallets)) t.market })

  -- The wallet record, with the indexes that only a new wallet gives back.
  unfoldable pub put_previous : Text → Option WalletState → Tree Value → Tree Value
  put_previous address (some w) t = record t {
    wallets = insert address w t.wallets;
    locks = put_locks w.locks t.locks;
  }
  put_previous address none t = elim (lookup address t.wallets) [
    | none ↦ record t { wallets = remove address t.wallets }
    | some c ↦ record t {
      wallets = remove address t.wallets;
      by_public_key = remove_some c.public_key t.by_public_key;
      by_username = remove_some c.username t.by_username;
    }
  ]

  -- The other indexes of a wallet.
  unfoldable pub restore_indexes : Text → Option WalletState → Tree Value → Tree Value
  restore_indexes address previous t =
      let current = lookup address t.wallets in
      record t {
        votes = adjust_votes (vote_weight current) (vote_weight previous) t.votes;
        market = insert_open address (sobjects_of previous) t.market;
        locks = remove_keys (locks_of current) t.locks;
        pq_commitments =
            if has_commitment current && not (has_commitment previous)
            then remove address t.pq_commitments
            else t.pq_commitments;
        pq_keys =
            if has_pq_key current && not (has_pq_key previous)
            then remove address t.pq_keys
            else t.pq_keys;
      }

  unfoldable pub restore_wallets : UndoRecord → Tree Value → Tree Value
  restore_wallets [] t = t
  restore_wallets ((address, previous) ∷ undo) t =
      restore_wallets undo (put_previous address previous (restore_indexes address previous t))

  -- The order that a buy or a cancel is taken back from.
  unfoldable pub reopened : TokenType → Transaction Value → TokenAsset → TokenOrder → TokenOrder
  reopened TokenType.buy tx a o = record o {
    filled = o.filled - default 0 a.amount;
    fills = drop_fill tx.id o.fills;
    closed = none;
  }
  reopened _ tx a o = record o { closed = none }

  unfoldable pub drop_order : Text → Tree Value → Tree Value
  drop_order id t = elim (lookup id t.orders) [
    | none ↦ t
    | some o ↦ record t {
      book = remove (book_key o) t.book;
      seller_orders = remove (seller_key o) t.seller_orders;
      orders = remove id t.orders;
    }
  ]

  unfoldable pub reopen : TokenType → Transaction Value → TokenAsset → Tree Value → Tree Value
  reopen k tx a t = elim (lookup (default [] a.order_id) t.orders) [
    | none ↦ t
    | some o ↦ write_order (reopened k tx a o) t
  ]

  unfoldable pub undo_order :
      ℕ → ℕ → Transaction Value → TokenAsset → TokenType → Tree Value → Tree Value
  undo_order height index tx a TokenType.sell t = drop_order (default [] tx.id) t
  undo_order height index tx a TokenType.buy t =
      reopen TokenType.buy tx a
        (record t { trades = remove (trade_key a.id height (default index tx.sequence)) t.trades })
  undo_order height index tx a TokenType.cancel t = reopen TokenType.cancel tx a t
  undo_order height index tx a _ t = t

-- The owners of smart objects before the block.
unfoldable pub put_owner : Text → Map SmartObject → Map Text → Map Text
put_owner address [] m = m
put_owner address ((id, r) ∷ rs) m = put_owner address rs (insert id address m)

unfoldable pub prev_owners : UndoRecord → Map Text → Map Text
prev_owners [] m = m
prev_owners ((address, previous) ∷ undo) m =
    prev_owners undo (put_owner address (sobjects_of previous) m)

-- `tx.id.is_some()`
unfoldable pub count_ids : {Value : Type 0} → List (Transaction Value) → ℕ
count_ids [] = 0
count_ids (tx ∷ txs) = let n = count_ids txs in if is_some tx.id then n + 1 else n

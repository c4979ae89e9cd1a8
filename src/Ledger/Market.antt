-- ===== src/Ledger/Market.antt =====
-- src/storage.rs: the branch of `accumulate_deltas` for tokens (typeGroup 3) and their market.
use sth_core_pq.Base.{
  ℕ, Option, none, some, List, [], ◌∷◌, ◌++◌, Text, lookup, insert, leb, if◌then◌else◌, Result, ok,
  ◌>>=◌, ok_or, add_u64, saturating_mul,
}
use sth_core_pq.Base.Int.{ℤ, pos}
use sth_core_pq.Models.{
  Transaction, Block, TokenMeta, TokenState, TokenOrder, TokenAsset, TokenTransferItem, TokenType,
}
use sth_core_pq.Rules.Wallet.{remaining}
use sth_core_pq.SmartObjects.{SmartObject}
use sth_core_pq.Ledger.{WalletDelta, TokenTrade, LedgerError, order_not_found}
use sth_core_pq.Ledger.Apply.{or_first}
use sth_core_pq.Ledger.Env.{Env, default}
use sth_core_pq.Ledger.Tree.{Tree}
use sth_core_pq.Ledger.Deltas.{
  Deltas, change, pay, charge, gain, lose, add_to, take_off, has_key, find_address, get_sobject,
}

unfoldable pub issue : Text → TokenState → WalletDelta → WalletDelta
issue id st d = record d { tokens_issued = d.tokens_issued ++ ((id, st) ∷ []) }

unfoldable pub raise_supply : Text → ℤ → WalletDelta → WalletDelta
raise_supply id amount d = record d { token_supply = add_to id amount d.token_supply }

unfoldable pub lower_supply : Text → ℤ → WalletDelta → WalletDelta
lower_supply id amount d = record d { token_supply = take_off id amount d.token_supply }

unfoldable pub describe : Text → TokenMeta → WalletDelta → WalletDelta
describe id m d = record d { token_meta = d.token_meta ++ ((id, m) ∷ []) }

unfoldable pub keep_order : Text → TokenOrder → WalletDelta → WalletDelta
keep_order id o d = record d { orders = insert id o d.orders }

unfoldable pub trade : TokenTrade → WalletDelta → WalletDelta
trade r d = record d { trades = d.trades ++ (r ∷ []) }

unfoldable pub transfer_items : Text → Text → List TokenTransferItem → Deltas → Deltas
transfer_items sender id [] ds = ds
transfer_items sender id (i ∷ is) ds =
    transfer_items sender id is
      (change i.recipient_id (gain id (pos i.amount)) (change sender (lose id (pos i.amount)) ds))

-- `deltas.values().find_map(|d| d.orders.get(id))`
unfoldable pub find_order : Text → Deltas → Option TokenOrder
find_order id [] = none
find_order id ((a, d) ∷ ds) = or_first (lookup id d.orders) (find_order id ds)

-- `order.filled += amount` is a u64.
unfoldable pub filled_by : ℕ → ℕ → Text → TokenOrder → TokenOrder
filled_by height amount id o =
    let filled = add_u64 o.filled amount in
    record o {
      filled = filled;
      fills = o.fills ++ (id ∷ []);
      closed = if leb o.amount filled then some height else o.closed;
    }

abbrev pub object_name : Option (Text × SmartObject) → Text
object_name none = []
object_name (some p) = default [] (p.1.content.name)

module _ {Value : Type 0} (env : Env Value) (t : Tree Value) where
  unfoldable pub stored_order : Text → Deltas → Result LedgerError TokenOrder
  stored_order id ds = ok_or (or_first (find_order id ds) (lookup id t.orders)) order_not_found

  unfoldable pub buy_effect :
      Block Value → ℕ → Transaction Value → TokenAsset → Text → TokenOrder → Deltas → Deltas
  buy_effect b index tx a sender o ds =
      let amount = default 0 a.amount in
      let total = saturating_mul amount o.price in
      let oid = default [] a.order_id in
      let id = default [] tx.id in
      let filled = filled_by b.height amount id o in
      let r : TokenTrade = record {
        tx_id = id;
        order_id = oid;
        token_id = a.id;
        buyer = sender;
        seller = o.seller;
        amount = amount;
        price = o.price;
        total = total;
        height = b.height;
        seq = default index tx.sequence;
        timestamp = b.timestamp;
      } in
      change o.seller (keep_order oid filled) (
        change o.seller (pay (pos total))
          (change sender (λ d. trade r (gain a.id (pos amount) (charge (pos total) d))) ds))

  unfoldable pub cancel_effect : Block Value → TokenAsset → TokenOrder → Deltas → Deltas
  cancel_effect b a o ds =
      change o.seller (keep_order (default [] a.order_id) (record o { closed = some b.height }))
        (change o.seller (gain a.id (pos (remaining o))) ds)

  unfoldable pub init_effect : Block Value → TokenAsset → Text → Deltas → Result LedgerError Deltas
  init_effect b a sender ds = get_sobject env t a.id >>= λ o.
      let init = default 0 a.initial_supply in
      let st : TokenState = record {
        symbol = object_name o;
        decimals = default 0 a.decimals;
        flags = default 0 a.flags;
        supply = init;
        supply_cap = default 0 a.supply_cap;
        owner = sender;
        init_height = b.height;
        meta = none;
      } in
      ok (change sender (λ d. gain a.id (pos init) (issue a.id st d)) ds)

  unfoldable pub sell_effect : Block Value → Transaction Value → TokenAsset → Text → Deltas → Deltas
  sell_effect b tx a sender ds =
      let id = default [] tx.id in
      let o : TokenOrder = record {
        id = id;
        token_id = a.id;
        seller = sender;
        amount = default 0 a.amount;
        filled = 0;
        price = default 0 a.price;
        height = b.height;
        closed = none;
        fills = [];
      } in
      change sender (λ d. keep_order id o (lose a.id (pos (default 0 a.amount)) d)) ds

  -- The owner of a burned token, which may be issued in the block.
  unfoldable pub burn_owner : Text → Text → Deltas → Text
  burn_owner id sender ds =
      default sender
        (or_first (lookup id t.token_owners) (find_address (λ d. has_key id d.tokens_issued) ds))

  unfoldable pub burn_effect : TokenAsset → Text → Deltas → Deltas
  burn_effect a sender ds =
      let lost = change sender (lose a.id (pos (default 0 a.amount))) ds in
      change (burn_owner a.id sender lost) (lower_supply a.id (pos (default 0 a.amount))) lost

  unfoldable pub token_effect :
      Block Value
      → ℕ
      → Transaction Value
      → TokenAsset
      → Text
      → TokenType
      → Deltas
      → Result LedgerError Deltas
  token_effect b index tx a sender TokenType.init ds = init_effect b a sender ds
  token_effect b index tx a sender TokenType.transfer ds =
      ok (transfer_items sender a.id (default [] a.transfers) ds)
  token_effect b index tx a sender TokenType.mint ds = ok (
      change sender (raise_supply a.id (pos (default 0 a.amount)))
        (change (default [] a.recipient_id) (gain a.id (pos (default 0 a.amount))) ds))
  token_effect b index tx a sender TokenType.meta ds = elim (a.meta) [
    | none ↦ ok ds
    | some m ↦ ok (change sender (describe a.id m) ds)
  ]
  token_effect b index tx a sender TokenType.sell ds = ok (sell_effect b tx a sender ds)
  token_effect b index tx a sender TokenType.buy ds =
      stored_order (default [] a.order_id) ds >>= λ o. ok (buy_effect b index tx a sender o ds)
  token_effect b index tx a sender TokenType.cancel ds =
      stored_order (default [] a.order_id) ds >>= λ o. ok (cancel_effect b a o ds)
  token_effect b index tx a sender TokenType.burn ds = ok (burn_effect a sender ds)

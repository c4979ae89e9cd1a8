-- ===== src/Batch.antt =====
-- src/sync.rs: `BatchTokenView`, the token state inside a batch of blocks: the database, and on top of
-- it the effects of the transactions already checked. `Stored` is what the view reads from the
-- database (src/storage.rs) and, for `ticker_sobj`, from the smart objects pending in the batch.
use sth_core_pq.Base.{
  ℕ, ◌+◌, ◌-◌, ◌%◌, ◌^◌, Bool, ◌&&◌, Option, none, some, List, [], ◌∷◌, length, any, Text, text_eq,
  Map, lookup, insert, leb, if◌then◌else◌, unwrap_or, Result, ok, ◌>>=◌, add_u64, saturating_add,
}
use sth_core_pq.Models.{TokenAsset, TokenTransferItem, TokenType, TokenOrder, TokenState}
use sth_core_pq.Rules.{TokenError, TokenView}
use sth_core_pq.Rules.Wallet.{remaining, is_open, check_type}
pub mod Market
pub mod Transfers

pub record Stored : Type 0 where
  pub token_owner : Text → Option Text
  pub token_state : Text → Option TokenState
  pub token_balance : Text → Text → ℕ
  pub order : Text → Option TokenOrder
  pub wallet_orders : Text → List TokenOrder
  pub ticker_sobj : Text → Option (Text × Text × Bool)

pub record BatchTokenView : Type 0 where
  pub storage : Stored
  pub states : Map TokenState
  pub balances : Text → Text → Option ℕ
  pub orders : Map TokenOrder

-- The trait `TokenView`.
unfoldable pub token_state : BatchTokenView → Text → Option TokenState
token_state v id = elim (lookup id v.states) [ some st ↦ some st | none ↦ v.storage.token_state id ]

unfoldable pub token_owner : BatchTokenView → Text → Option Text
token_owner v id = elim (lookup id v.states) [
  | some st ↦ some st.owner
  | none ↦ v.storage.token_owner id
]

unfoldable pub token_balance : BatchTokenView → Text → Text → ℕ
token_balance v address id = unwrap_or (v.storage.token_balance address id) (v.balances address id)

unfoldable pub order : BatchTokenView → Text → Option TokenOrder
order v id = elim (lookup id v.orders) [ some o ↦ some o | none ↦ v.storage.order id ]

-- A set of order ids, without repetition.
remove_id : Text → List Text → List Text
remove_id id [] = []
remove_id id (x ∷ xs) = let rest = remove_id id xs in if text_eq x id then rest else x ∷ rest

insert_id : Text → List Text → List Text
insert_id id xs = if any (λ x. text_eq x id) xs then xs else id ∷ xs

stored_ids : Text → List TokenOrder → List Text
stored_ids token_id [] = []
stored_ids token_id (o ∷ os) =
    let rest = stored_ids token_id os in
    if text_eq o.token_id token_id then insert_id o.id rest else rest

pending_ids : Text → Text → Map TokenOrder → List Text → List Text
pending_ids seller token_id [] ids = ids
pending_ids seller token_id ((k, o) ∷ os) ids = pending_ids seller token_id os (
    if text_eq o.seller seller && text_eq o.token_id token_id
    then (if is_open o then insert_id o.id ids else remove_id o.id ids)
    else ids)

pub open_orders : BatchTokenView → Text → Text → ℕ
open_orders v seller token_id =
    length
      (pending_ids seller token_id v.orders (stored_ids token_id (v.storage.wallet_orders seller)))

abbrev pub view : BatchTokenView → TokenView
view v = record {
  token_owner = token_owner v;
  token_state = token_state v;
  token_balance = token_balance v;
  ticker_sobj = v.storage.ticker_sobj;
  order = order v;
  open_orders = open_orders v;
}

-- `bump`: a pending balance is set from the balance that is visible.
unfoldable pub set_balance : Text → Text → ℕ → BatchTokenView → BatchTokenView
set_balance address id n v = record v {
  balances = λ x y. if text_eq x address && text_eq y id then some n else v.balances x y;
}

unfoldable pub credit : Text → Text → ℕ → BatchTokenView → BatchTokenView
credit id address n v = set_balance address id ((token_balance v address id + n) % 2 ^ 64) v

pub debit : Text → Text → ℕ → BatchTokenView → BatchTokenView
debit id address n v = set_balance address id (token_balance v address id - n) v

unfoldable pub put_order : Text → TokenOrder → BatchTokenView → BatchTokenView
put_order id o v = record v { orders = insert id o v.orders }

pub put_state : Text → TokenState → BatchTokenView → BatchTokenView
put_state id st v = record v { states = insert id st v.states }

-- `if let Some(st) = self.state_mut(id) { … }`
pub with_state : Text → (TokenState → TokenState) → BatchTokenView → BatchTokenView
with_state id f v = elim (token_state v id) [ none ↦ v | some st ↦ put_state id (f st) v ]

pub apply_transfers : Text → Text → List TokenTransferItem → BatchTokenView → BatchTokenView
apply_transfers id sender [] v = v
apply_transfers id sender (i ∷ is) v =
    apply_transfers id sender is (credit id i.recipient_id i.amount (debit id sender i.amount v))

-- The order after a buy of `amount` units, and after its cancellation.
unfoldable pub fill : ℕ → ℕ → TokenOrder → TokenOrder
fill height amount o =
    let filled = add_u64 o.filled amount in
    record o { filled = filled; closed = if leb o.amount filled then some height else o.closed }

unfoldable pub close : ℕ → TokenOrder → TokenOrder
close height o = record o { closed = some height }

pub new_order : TokenAsset → Text → ℕ → Text → TokenOrder
new_order a sender height tx_id = record {
  id = tx_id;
  token_id = a.id;
  seller = sender;
  amount = unwrap_or 0 (a.amount);
  filled = 0;
  price = unwrap_or 0 (a.price);
  height = height;
  closed = none;
  fills = [];
}

pub symbol_of : Option (Text × Text × Bool) → Text
symbol_of none = []
symbol_of (some (owner, name, resigned)) = name

-- The order that a buy or a cancel is about.
unfoldable pub pending_order : BatchTokenView → Option Text → Option TokenOrder
pending_order v none = none
pending_order v (some oid) = order v oid

unfoldable pub apply_buy :
    TokenAsset → Text → ℕ → BatchTokenView → Option TokenOrder → BatchTokenView
apply_buy a sender height v none = v
apply_buy a sender height v (some o) =
    let amount = unwrap_or 0 (a.amount) in
    put_order (unwrap_or [] (a.order_id)) (fill height amount o) (credit a.id sender amount v)

pub apply_cancel : TokenAsset → ℕ → BatchTokenView → Option TokenOrder → BatchTokenView
apply_cancel a height v none = v
apply_cancel a height v (some o) =
    put_order (unwrap_or [] (a.order_id)) (close height o) (credit a.id o.seller (remaining o) v)

unfoldable pub apply : TokenType → TokenAsset → Text → ℕ → Text → BatchTokenView → BatchTokenView
apply TokenType.init a sender height tx_id v =
    let supply = unwrap_or 0 (a.initial_supply) in
    put_state a.id
      record {
        symbol = symbol_of (v.storage.ticker_sobj a.id);
        decimals = unwrap_or 0 (a.decimals);
        flags = unwrap_or 0 (a.flags);
        supply = supply;
        supply_cap = unwrap_or 0 (a.supply_cap);
        owner = sender;
        init_height = height;
        meta = none;
      }
      (credit a.id sender supply v)
apply TokenType.transfer a sender height tx_id v =
    apply_transfers a.id sender (unwrap_or [] (a.transfers)) v
apply TokenType.mint a sender height tx_id v =
    let amount = unwrap_or 0 (a.amount) in
    with_state a.id (λ st. record st { supply = saturating_add st.supply amount })
      (credit a.id (unwrap_or [] (a.recipient_id)) amount v)
apply TokenType.meta a sender height tx_id v = with_state a.id (λ st. record st { meta = a.meta }) v
apply TokenType.sell a sender height tx_id v =
    put_order tx_id (new_order a sender height tx_id) (debit a.id sender (unwrap_or 0 (a.amount)) v)
apply TokenType.buy a sender height tx_id v =
    apply_buy a sender height v (pending_order v a.order_id)
apply TokenType.cancel a sender height tx_id v =
    apply_cancel a height v (pending_order v a.order_id)
apply TokenType.burn a sender height tx_id v =
    let amount = unwrap_or 0 (a.amount) in
    with_state a.id (λ st. record st { supply = st.supply - amount }) (debit a.id sender amount v)

-- A checked transaction of a batch: type, asset, sender, height and id.
pub record Tx : Type 0 where
  pub kind : TokenType
  pub asset : TokenAsset
  pub sender : Text
  pub height : ℕ
  pub tx_id : Text

-- One token transaction of `check_stateful_rules` after its format check, and a run of them. The
-- coins of a buyer, which the source tests in between, are not part of this state.
unfoldable pub check_and_apply : Tx → BatchTokenView → Result TokenError BatchTokenView
check_and_apply t v = check_type (view v) t.kind t.asset t.sender >>= λ done.
    ok (apply t.kind t.asset t.sender t.height t.tx_id v)

unfoldable pub run : List Tx → BatchTokenView → Result TokenError BatchTokenView
run [] v = ok v
run (t ∷ ts) v = check_and_apply t v >>= run ts

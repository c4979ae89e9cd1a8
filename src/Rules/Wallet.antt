-- ===== src/Rules/Wallet.antt =====
-- src/rules.rs: `check_token`, the wallet-aware check of a token transaction, with one function for
-- each type's arm, and what a buyer pays.
use sth_core_pq.Base.{
  ℕ, ◌+◌, ◌^◌, ◌%◌, ◌-◌, Bool, false, not, ◌&&◌, ◌||◌, Option, none, some, List, [], ◌∷◌, length,
  all, map, Text, text_eq, ltb, leb, ◌==◌, if◌then◌else◌, is_some, unwrap_or, Result, ok, ◌>>=◌,
  ◌>>◌, fail_if, ok_or, add_u64, saturating_add, saturating_mul,
}
use sth_core_pq.Models.{
  TokenAsset, Transaction, TokenType, TokenOrder, TokenState, token_type, type_group_token,
  has_flag, token_asset, flag_mintable, flag_burnable,
}
use sth_core_pq.Rules.{
  order_amount, not_found, insufficient_balance, too_many_orders, order_not_found, order_closed,
  order_mismatch, order_self_trade, order_not_owner, smart_object_not_found, smart_object_resigned,
  not_smart_object_owner, symbol_invalid, already_initialized, not_owner, not_mintable,
  supply_cap_exceeded, not_burnable, TokenError, TokenView,
}

-- `u64` subtraction wraps in a release build.
unfoldable pub remaining : TokenOrder → ℕ
remaining o = (2 ^ 64 + o.amount - o.filled) % 2 ^ 64

unfoldable pub is_open : TokenOrder → Bool
is_open o = not (is_some o.closed)

abbrev pub max_open_orders : ℕ
max_open_orders = 64

unfoldable pub ticker_ok : Text → Bool
ticker_ok name =
    leb 3 (length name)
    && leb (length name) 10
    && all (λ b. leb 65 b && leb b 90 || leb 48 b && leb b 57) name

-- `iter().sum()` into a `u64`.
unfoldable pub sum_u64 : List ℕ → ℕ
sum_u64 [] = 0
sum_u64 (n ∷ ns) = add_u64 n (sum_u64 ns)

-- `owner.as_deref() == Some(sender)`
abbrev pub is_owner : Option Text → Text → Bool
is_owner none sender = false
is_owner (some owner) sender = text_eq owner sender

module _ (view : TokenView) where
  abbrev pub state_of : TokenAsset → Result TokenError TokenState
  state_of a = ok_or (view.token_state a.id) not_found

  unfoldable pub wallet_sell : TokenAsset → Text → Result TokenError (Unit {0})
  wallet_sell a sender = state_of a >>= λ st.
      fail_if (ltb (view.token_balance sender a.id) (unwrap_or 0 (a.amount))) insufficient_balance
      >> fail_if (leb max_open_orders (view.open_orders sender a.id)) too_many_orders

  -- The order that a buy or a cancel is about.
  unfoldable pub open_order : TokenAsset → Result TokenError TokenOrder
  open_order a = ok_or (view.order (unwrap_or [] (a.order_id))) order_not_found >>= λ o.
      fail_if (not (is_open o)) order_closed
      >> fail_if (not (text_eq o.token_id a.id)) order_mismatch
      >> ok o

  unfoldable pub wallet_buy : TokenAsset → Text → Result TokenError (Unit {0})
  wallet_buy a sender = open_order a >>= λ o.
      fail_if (text_eq o.seller sender) order_self_trade
      >> fail_if (unwrap_or 0 (a.amount) == 0 || ltb (remaining o) (unwrap_or 0 (a.amount)))
          order_amount

  unfoldable pub wallet_cancel : TokenAsset → Text → Result TokenError (Unit {0})
  wallet_cancel a sender =
      open_order a >>= λ o. fail_if (not (text_eq o.seller sender)) order_not_owner

  unfoldable pub wallet_init : TokenAsset → Text → Result TokenError (Unit {0})
  wallet_init a sender =
      ok_or (view.ticker_sobj a.id) smart_object_not_found >>= λ (owner, name, resigned).
      fail_if resigned smart_object_resigned
      >> fail_if (not (text_eq owner sender)) not_smart_object_owner
      >> fail_if (not (ticker_ok name)) symbol_invalid
      >> fail_if (is_some (view.token_state a.id)) already_initialized

  unfoldable pub wallet_meta : TokenAsset → Text → Result TokenError (Unit {0})
  wallet_meta a sender =
      state_of a >>= λ st. fail_if (not (is_owner (view.token_owner a.id) sender)) not_owner

  unfoldable pub wallet_transfer : TokenAsset → Text → Result TokenError (Unit {0})
  wallet_transfer a sender = state_of a >>= λ st.
      fail_if
        (ltb (view.token_balance sender a.id)
          (sum_u64 (map (λ i. i.amount) (unwrap_or [] (a.transfers)))))
        insufficient_balance

  unfoldable pub wallet_mint : TokenAsset → Text → Result TokenError (Unit {0})
  wallet_mint a sender = state_of a >>= λ st.
      fail_if (not (is_owner (view.token_owner a.id) sender)) not_owner
      >> fail_if (not (has_flag st.flags flag_mintable)) not_mintable
      >> fail_if (ltb st.supply_cap (saturating_add st.supply (unwrap_or 0 (a.amount))))
          supply_cap_exceeded

  unfoldable pub wallet_burn : TokenAsset → Text → Result TokenError (Unit {0})
  wallet_burn a sender = state_of a >>= λ st.
      fail_if (not (has_flag st.flags flag_burnable)) not_burnable
      >> fail_if (ltb (view.token_balance sender a.id) (unwrap_or 0 (a.amount)))
          insufficient_balance

  unfoldable pub check_type : TokenType → TokenAsset → Text → Result TokenError (Unit {0})
  check_type TokenType.sell = wallet_sell
  check_type TokenType.buy = wallet_buy
  check_type TokenType.cancel = wallet_cancel
  check_type TokenType.init = wallet_init
  check_type TokenType.meta = wallet_meta
  check_type TokenType.transfer = wallet_transfer
  check_type TokenType.mint = wallet_mint
  check_type TokenType.burn = wallet_burn

  unfoldable pub check_token :
      {Value : Type 0} → Transaction Value → TokenAsset → Text → Result TokenError (Unit {0})
  check_token tx a sender = check_type (token_type tx.type_) a sender

  -- What the buyer pays for an order, zero for every other transaction.
  unfoldable pub token_buy_total :
      {Value : Type 0} → (Value → Option TokenAsset) → Transaction Value → ℕ
  token_buy_total from_value tx =
      if not (tx.type_group == type_group_token) || not (tx.type_ == 6)
      then 0
      else elim (token_asset from_value tx) [
        | none ↦ 0
        | some a ↦ elim (a.order_id) [
          | none ↦ 0
          | some id ↦ elim (view.order id) [
            | none ↦ 0
            | some o ↦ saturating_mul (unwrap_or 0 (a.amount)) o.price
          ]
        ]
      ]

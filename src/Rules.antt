-- ===== src/Rules.antt =====
-- src/rules.rs: the consensus rules of typeGroup 3, native tokens. `Manifest` and `Format` are the
-- stateless checks, `Wallet` is the check against the chain's state. An error is the name its message
-- begins with.
use sth_core_pq.Base.{ℕ, Bool, Option, Text}
use sth_core_pq.Models.{TokenState, TokenOrder}
pub mod Manifest
pub mod Format
pub mod Wallet
pub mod Fees
pub mod Amounts

pub data TokenError : Type 0 where
  malformed_asset : TokenError
  amount_must_be_zero : TokenError
  vendor_field_not_allowed : TokenError
  id_not_hex : TokenError
  decimals_invalid : TokenError
  flags_invalid : TokenError
  supply_invalid : TokenError
  transfer_recipients : TokenError
  amount_invalid : TokenError
  memo_too_long : TokenError
  meta_invalid : TokenError
  logo_too_large : TokenError
  logo_invalid : TokenError
  type_not_active : TokenError
  order_invalid : TokenError
  order_overflow : TokenError
  order_amount : TokenError
  static_fee_mismatch : TokenError
  not_found : TokenError
  insufficient_balance : TokenError
  too_many_orders : TokenError
  order_not_found : TokenError
  order_closed : TokenError
  order_mismatch : TokenError
  order_self_trade : TokenError
  order_not_owner : TokenError
  smart_object_not_found : TokenError
  smart_object_resigned : TokenError
  not_smart_object_owner : TokenError
  symbol_invalid : TokenError
  already_initialized : TokenError
  not_owner : TokenError
  not_mintable : TokenError
  supply_cap_exceeded : TokenError
  not_burnable : TokenError

-- The token state the wallet-aware check reads, with the pending changes of a batch or a pool.
pub record TokenView : Type 0 where
  pub token_owner : Text → Option Text
  pub token_state : Text → Option TokenState
  pub token_balance : Text → Text → ℕ
  pub ticker_sobj : Text → Option (Text × Text × Bool)
  pub order : Text → Option TokenOrder
  pub open_orders : Text → Text → ℕ

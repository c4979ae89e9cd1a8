-- ===== src/Rules/Format.antt =====
-- src/rules.rs: `check_token_format`, the stateless check of a token transaction, with one function
-- for each type's arm.
use sth_core_pq.Base.{
  ℕ, ◌+◌, ◌-◌, ◌*◌, ◌%◌, ◌^◌, Bool, not, ◌&&◌, ◌||◌, Option, List, [], length, any, all, map, sum,
  Text, ltb, ◌==◌, is_some, unwrap_or, Result, ok, ◌>>=◌, ◌>>◌, fail_if, ok_or, u64_max, add_u64,
  is_ascii_hexdigit,
}
use sth_core_pq.Models.{
  TokenAsset, Transaction, TokenType, TokenFees, Milestone, token_type, has_flag, token_asset,
  pq_surcharge, flag_mintable,
}
use sth_core_pq.Rules.{
  malformed_asset, amount_must_be_zero, vendor_field_not_allowed, id_not_hex, decimals_invalid,
  flags_invalid, supply_invalid, transfer_recipients, amount_invalid, memo_too_long, meta_invalid,
  type_not_active, order_invalid, order_overflow, order_amount, static_fee_mismatch, TokenError,
}
use sth_core_pq.Rules.Manifest.{check_token_meta, is_some_and}

abbrev pub max_decimals : ℕ
max_decimals = 8

abbrev pub max_memo : ℕ
max_memo = 64

unfoldable pub is_hex_id : Text → Bool
is_hex_id s = length s == 64 && all is_ascii_hexdigit s

-- The bits of a byte outside the three flags.
abbrev pub reserved_bits : ℕ
reserved_bits = 255 - (1 + 2 + 4)

unfoldable pub check_init : TokenFees → TokenAsset → Result TokenError ℕ
check_init f a =
    let d = unwrap_or 0 (a.decimals) in
    let fl = unwrap_or 0 (a.flags) in
    let initial = unwrap_or 0 (a.initial_supply) in
    let cap = unwrap_or 0 (a.supply_cap) in
    fail_if (ltb max_decimals d) decimals_invalid
    >> fail_if (has_flag fl reserved_bits) flags_invalid
    >> fail_if (initial == 0 || ltb cap initial) supply_invalid
    >> fail_if (not (has_flag fl flag_mintable) && not (initial == cap)) supply_invalid
    >> ok f.init

unfoldable pub check_transfer : Milestone → TokenAsset → Result TokenError ℕ
check_transfer ms a =
    let items = unwrap_or [] (a.transfers) in
    let f = ms.token_fees in
    fail_if (length items == 0 || ltb ms.token_transfer_max_recipients (length items))
      transfer_recipients
    >> fail_if (any (λ i. i.amount == 0) items) amount_invalid
    >> fail_if (ltb u64_max (sum (map (λ i. i.amount) items))) amount_invalid
    >> fail_if (is_some_and (λ m. ltb max_memo (length m)) a.memo) memo_too_long
    >> ok (add_u64 f.transfer (f.transfer_per_recipient * (length items - 1) % 2 ^ 64))

unfoldable pub check_mint : TokenFees → TokenAsset → Result TokenError ℕ
check_mint f a =
    fail_if (unwrap_or 0 (a.amount) == 0 || not (is_some a.recipient_id)) amount_invalid
    >> ok f.mint

unfoldable pub check_burn : TokenFees → TokenAsset → Result TokenError ℕ
check_burn f a = fail_if (unwrap_or 0 (a.amount) == 0) amount_invalid >> ok f.burn

unfoldable pub check_sell : TokenFees → TokenAsset → Result TokenError ℕ
check_sell f a =
    let amount = unwrap_or 0 (a.amount) in
    let price = unwrap_or 0 (a.price) in
    fail_if (amount == 0 || price == 0) order_invalid
    >> fail_if (ltb u64_max (amount * price)) order_overflow
    >> ok f.sell

abbrev pub oid_ok : TokenAsset → Bool
oid_ok a = is_some_and is_hex_id a.order_id

unfoldable pub check_buy : TokenFees → TokenAsset → Result TokenError ℕ
check_buy f a =
    fail_if (not (oid_ok a)) order_invalid
    >> fail_if (unwrap_or 0 (a.amount) == 0) order_amount
    >> ok f.buy

unfoldable pub check_cancel : TokenFees → TokenAsset → Result TokenError ℕ
check_cancel f a = fail_if (not (oid_ok a)) order_invalid >> ok f.cancel

-- A type of the market, once the milestone enables it.
abbrev pub in_market : Milestone → Result TokenError ℕ → Result TokenError ℕ
in_market ms r = fail_if (not ms.token_market.enabled) type_not_active >> r

module _ (base64 : Text → Option (List ℕ)) where
  unfoldable pub check_meta : TokenFees → TokenAsset → Result TokenError ℕ
  check_meta f a = ok_or a.meta meta_invalid >>= λ m. check_token_meta base64 m >> ok f.meta

  -- The fee of a type once its fields are in range.
  unfoldable pub expected_fee : Milestone → TokenType → TokenAsset → Result TokenError ℕ
  expected_fee ms TokenType.init a = check_init ms.token_fees a
  expected_fee ms TokenType.transfer a = check_transfer ms a
  expected_fee ms TokenType.mint a = check_mint ms.token_fees a
  expected_fee ms TokenType.burn a = check_burn ms.token_fees a
  expected_fee ms TokenType.meta a = check_meta ms.token_fees a
  expected_fee ms TokenType.sell a = in_market ms (check_sell ms.token_fees a)
  expected_fee ms TokenType.buy a = in_market ms (check_buy ms.token_fees a)
  expected_fee ms TokenType.cancel a = in_market ms (check_cancel ms.token_fees a)

  unfoldable pub check_token_format :
      {Value : Type 0}
      → (Value → Option TokenAsset)
      → Transaction Value
      → Milestone
      → Result TokenError TokenAsset
  check_token_format from_value tx ms = ok_or (token_asset from_value tx) malformed_asset >>= λ a.
      fail_if (not (tx.amount == 0)) amount_must_be_zero
      >> fail_if (is_some_and (λ v. not (length v == 0)) tx.vendor_field) vendor_field_not_allowed
      >> fail_if (not (is_hex_id a.id)) id_not_hex
      >> (expected_fee ms (token_type tx.type_) a >>= λ fee.
          fail_if (not (tx.fee == add_u64 fee (pq_surcharge tx ms.pq.fee_per_byte)))
            static_fee_mismatch
          >> ok a)

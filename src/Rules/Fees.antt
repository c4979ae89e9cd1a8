-- ===== src/Rules/Fees.antt =====
-- The stateless check of a token transaction against the ranges and the fee its type asks for.
use sth_core_pq.Base.{
  ℕ, ◌+◌, ◌-◌, ◌*◌, ◌%◌, ◌^◌, ◌≤◌, ◌<◌, ◌≡◌, ◌↔◌, ◌⊎◌, inl, inr, refl, true, false, not, Option,
  none, some, List, [], ◌∷◌, length, any, All, map, sum, Text, arith, ◌==◌, is_some, unwrap_or, ok,
  u64_max, Option-cases, Result-cases,
}
use sth_core_pq.Models.{
  TokenAsset, TokenMeta, TokenTransferItem, Transaction, TokenType, Milestone, token_type, has_flag,
  token_asset, pq_surcharge, flag_mintable,
}
use sth_core_pq.Rules.Manifest.{check_token_meta, is_some_and}
use sth_core_pq.Rules.Format.{
  reserved_bits, is_hex_id, check_init, check_transfer, check_mint, check_burn, check_sell,
  check_buy, check_cancel, check_meta, expected_fee, check_token_format,
}

any-All :
    (items : List TokenTransferItem)
    → (any (λ i. i.amount == 0) items ≡ false) ↔ All (λ i. 0 < i.amount) items
any-All [] = ground arith
any-All (i ∷ is) = let (to, from) = any-All is in ground arith

-- The static fee of a type, the products and sums in a u64.
unfoldable pub fee_of : Milestone → TokenType → TokenAsset → ℕ
fee_of ms TokenType.init a = ms.token_fees.init
fee_of ms TokenType.transfer a =
    (ms.token_fees.transfer
      + ms.token_fees.transfer_per_recipient * (length (unwrap_or [] (a.transfers)) - 1))
    % 2 ^ 64
fee_of ms TokenType.mint a = ms.token_fees.mint
fee_of ms TokenType.burn a = ms.token_fees.burn
fee_of ms TokenType.meta a = ms.token_fees.meta
fee_of ms TokenType.sell a = ms.token_fees.sell
fee_of ms TokenType.buy a = ms.token_fees.buy
fee_of ms TokenType.cancel a = ms.token_fees.cancel

module _ (base64 : Text → Option (List ℕ)) where
  -- What the fields of an asset of each type have to be.
  unfoldable pub InRange : Milestone → TokenType → TokenAsset → Type 0
  InRange ms TokenType.init a =
      (unwrap_or 0 (a.decimals) ≤ 8)
      × (has_flag (unwrap_or 0 (a.flags)) reserved_bits ≡ false)
      × (0 < unwrap_or 0 (a.initial_supply))
      × (unwrap_or 0 (a.initial_supply) ≤ unwrap_or 0 (a.supply_cap))
      × ((has_flag (unwrap_or 0 (a.flags)) flag_mintable ≡ true)
          ⊎ (unwrap_or 0 (a.initial_supply) ≡ unwrap_or 0 (a.supply_cap)))
  InRange ms TokenType.transfer a =
      (0 < length (unwrap_or [] (a.transfers)))
      × (length (unwrap_or [] (a.transfers)) ≤ ms.token_transfer_max_recipients)
      × All (λ i. 0 < i.amount) (unwrap_or [] (a.transfers))
      × (sum (map (λ i. i.amount) (unwrap_or [] (a.transfers))) ≤ u64_max)
      × (length (unwrap_or [] (a.memo)) ≤ 64)
  InRange ms TokenType.mint a = (0 < unwrap_or 0 (a.amount)) × (is_some a.recipient_id ≡ true)
  InRange ms TokenType.burn a = 0 < unwrap_or 0 (a.amount)
  InRange ms TokenType.meta a =
      (m : TokenMeta) × (a.meta ≡ some m) × (check_token_meta base64 m ≡ ok tt)
  InRange ms TokenType.sell a =
      (ms.token_market.enabled ≡ true)
      × (0 < unwrap_or 0 (a.amount))
      × (0 < unwrap_or 0 (a.price))
      × (unwrap_or 0 (a.amount) * unwrap_or 0 (a.price) ≤ u64_max)
  InRange ms TokenType.buy a =
      (ms.token_market.enabled ≡ true)
      × (is_hex_id (unwrap_or [] (a.order_id)) ≡ true)
      × (0 < unwrap_or 0 (a.amount))
  InRange ms TokenType.cancel a =
      (ms.token_market.enabled ≡ true) × (is_hex_id (unwrap_or [] (a.order_id)) ≡ true)

  expected_fee_lem :
      (ms : Milestone) (t : TokenType) (a : TokenAsset) (fee : ℕ)
      → (expected_fee base64 ms t a ≡ ok fee) ↔ (InRange ms t a × (fee ≡ fee_of ms t a))
  unfolding expected_fee InRange fee_of check_init check_transfer check_mint check_burn check_sell
      check_buy check_cancel check_meta is_hex_id
  expected_fee_lem ms TokenType.init a fee = ground arith
  expected_fee_lem ms TokenType.transfer a fee =
      let items = any-All (unwrap_or [] (a.transfers)) in ground arith
  expected_fee_lem ms TokenType.mint a fee = ground arith
  expected_fee_lem ms TokenType.burn a fee = ground arith
  expected_fee_lem ms TokenType.meta a fee = ground arith
  expected_fee_lem ms TokenType.sell a fee = ground arith
  expected_fee_lem ms TokenType.buy a fee = ground arith
  expected_fee_lem ms TokenType.cancel a fee = ground arith

vendor-empty :
    (v : Option Text)
    → is_some_and (λ t. not (length t == 0)) v ≡ not (length (unwrap_or [] v) == 0)
vendor-empty none = refl
vendor-empty (some t) = refl

-- `check_token_format` accepts exactly the token transactions that carry a readable asset, transfer
-- no coins, have no vendor field, name a 32-byte hex id, have the fields of their type in range and
-- pay the static fee of the type with the surcharge for their second signatures, modulo 2^64.
pub check_token_format_lem :
    {Value : Type 0} (from_value : Value → Option TokenAsset) (base64 : Text → Option (List ℕ))
    (ms : Milestone) (tx : Transaction Value) (a : TokenAsset)
    → (check_token_format base64 from_value tx ms ≡ ok a) ↔ (
        (token_asset from_value tx ≡ some a)
        × (tx.amount ≡ 0)
        × (length (unwrap_or [] (tx.vendor_field)) ≡ 0)
        × (is_hex_id a.id ≡ true)
        × InRange base64 ms (token_type tx.type_) a
        × (tx.fee
            ≡ (fee_of ms (token_type tx.type_) a + pq_surcharge tx ms.pq.fee_per_byte) % 2 ^ 64))
unfolding check_token_format
check_token_format_lem from_value base64 ms tx a = elim (Option-cases (token_asset from_value tx)) [
  | inl missing ↦ ground arith
  | inr (b, found) ↦
      let vendor : is_some_and (λ v. not (length v == 0)) tx.vendor_field
          ≡ not (length (unwrap_or [] (tx.vendor_field)) == 0) =
        vendor-empty tx.vendor_field in
      elim (Result-cases (expected_fee base64 ms (token_type tx.type_) b)) [
        | inl (fee, e) ↦
            let (to, from) = expected_fee_lem base64 ms (token_type tx.type_) b fee in ground arith
        | inr (e, e') ↦
            let back =
              (expected_fee_lem base64 ms (token_type tx.type_) b
                (fee_of ms (token_type tx.type_) b)).1 in
            ground arith
      ]
]

-- ===== src/Rules/Amounts.antt =====
-- The amounts that the wallet-aware check of a token transaction lets through.
use sth_core_pq.Base.{
  ℕ, ◌+◌, ◌*◌, ◌≤◌, ◌<◌, ◌≡◌, ◌≢◌, refl, ap, subst, inl, inr, true, false, Option, none, some, List,
  [], ◌∷◌, map, sum, Text, text_eq, text_eq→eq, text_eq_refl, Option-cases, arith, unwrap_or, ok,
  u64_max,
}
use sth_core_pq.Models.{
  has_flag, flag_mintable, TokenAsset, TokenType, TokenOrder, TokenState, Transaction, Milestone,
  token_asset, token_type,
}
use sth_core_pq.Rules.{TokenView}
use sth_core_pq.Rules.Format.{check_token_format}
use sth_core_pq.Rules.Fees.{check_token_format_lem, InRange}
use sth_core_pq.Rules.Wallet.{
  sum_u64, remaining, is_open, wallet_transfer, wallet_buy, wallet_mint, open_order, check_type,
  check_token, token_buy_total, is_owner,
}

-- The sum of a transfer in a u64 is the sum, once that fits.
sum_u64_lem : (ns : List ℕ) → sum ns ≤ u64_max → sum_u64 ns ≡ sum ns
unfolding sum_u64
sum_u64_lem [] h = refl
sum_u64_lem (n ∷ ns) h = grind (arith, sum_u64_lem ns)

-- A token transfer that passes both checks moves no more than the sender has: the true sum of its
-- amounts is at most the balance.
pub check_token-transfer_covered :
    {Value : Type 0} (from_value : Value → Option TokenAsset) (base64 : Text → Option (List ℕ))
    (ms : Milestone) (view : TokenView) (tx : Transaction Value) (a : TokenAsset) (sender : Text)
    → tx.type_ ≡ 1
    → check_token_format base64 from_value tx ms ≡ ok a
    → check_token view tx a sender ≡ ok tt
    → sum (map (λ i. i.amount) (unwrap_or [] (a.transfers))) ≤ view.token_balance sender a.id
unfolding check_token check_type wallet_transfer InRange
check_token-transfer_covered from_value base64 ms view tx a sender t format wallet =
    let (_, _, _, _, range, _) = (check_token_format_lem from_value base64 ms tx a).0 format in
    let kind : token_type tx.type_ ≡ TokenType.transfer = rw t refl in
    let (_, _, _, fits, _) = subst (λ k. InRange base64 ms k a) kind range in
    let accepted = subst (λ k. check_type view k a sender ≡ ok tt) kind wallet in
    let amounts = map (λ i. i.amount) (unwrap_or [] (a.transfers)) in
    let enough : sum_u64 amounts ≤ view.token_balance sender a.id = ground arith in
    rw⁻¹ (sum_u64_lem amounts fits) enough

wallet_buy-accepted :
    (view : TokenView) (a : TokenAsset) (sender id : Text) (o : TokenOrder)
    → wallet_buy view a sender ≡ ok tt
    → a.order_id ≡ some id
    → view.order id ≡ some o
    → o.filled ≤ o.amount
    → o.amount ≤ u64_max
    → (o.filled + unwrap_or 0 (a.amount) ≤ o.amount)
      × (text_eq o.seller sender ≡ false)
      × (o.closed ≡ none)
unfolding wallet_buy open_order remaining is_open
wallet_buy-accepted view a sender id o c named found sound small = (
  ground arith,
  ground arith,
  elim (Option-cases o.closed) [ inl e ↦ e | inr (h, e) ↦ absurd (ground arith) ],
)

mul_fits : (n m a b : ℕ) → n ≤ a → a * m ≤ b → n * m ≤ b
mul_fits n m a b h k = grind arith

is_owner-some :
    (owner : Option Text) (sender : Text) → is_owner owner sender ≡ true → owner ≡ some sender
is_owner-some none sender h = absurd (cc)
is_owner-some (some owner) sender h = ap some (text_eq→eq owner sender h)

-- A buy that the check accepts for an order whose whole price fits a u64 and of which no more than
-- its amount is sold, costs the buyer exactly amount times price, and what is sold still fits.
pub token_buy_total-exact :
    {Value : Type 0} (from_value : Value → Option TokenAsset) (view : TokenView)
    (tx : Transaction Value) (a : TokenAsset) (sender id : Text) (o : TokenOrder)
    → tx.type_group ≡ 3
    → tx.type_ ≡ 6
    → token_asset from_value tx ≡ some a
    → a.order_id ≡ some id
    → view.order id ≡ some o
    → o.amount * o.price ≤ u64_max
    → o.filled ≤ o.amount
    → o.amount ≤ u64_max
    → check_token view tx a sender ≡ ok tt
    → (token_buy_total view from_value tx ≡ unwrap_or 0 (a.amount) * o.price)
      × (o.filled + unwrap_or 0 (a.amount) ≤ o.amount)
      × (o.seller ≢ sender)
      × (o.closed ≡ none)
unfolding check_token check_type wallet_buy open_order remaining is_open token_buy_total
token_buy_total-exact from_value view tx a sender id o g t asset named found fits sound small c =
    let kind : token_type tx.type_ ≡ TokenType.buy = rw t refl in
    let accepted = subst (λ k. check_type view k a sender ≡ ok tt) kind c in
    let (room, other, opened) =
      wallet_buy-accepted view a sender id o accepted named found sound small in
    let within : unwrap_or 0 (a.amount) * o.price ≤ u64_max =
      mul_fits _ o.price o.amount u64_max (omega arith) fits in
    (ground arith, room, (λ same. ground (arith, text_eq_refl sender, other, same)), opened)

-- A mint that the check accepts of an issued token, whose cap is below the largest u64, is of a token
-- that is mintable, is its owner's, and takes the supply to no more than the cap.
pub check_token-mint_cap :
    {Value : Type 0} (view : TokenView) (tx : Transaction Value) (a : TokenAsset) (sender : Text)
    (st : TokenState)
    → tx.type_ ≡ 2
    → view.token_state a.id ≡ some st
    → st.supply_cap < u64_max
    → check_token view tx a sender ≡ ok tt
    → (has_flag st.flags flag_mintable ≡ true)
      × (st.supply + unwrap_or 0 (a.amount) ≤ st.supply_cap)
      × (view.token_owner a.id ≡ some sender)
unfolding check_token check_type wallet_mint
check_token-mint_cap view tx a sender st t found below c =
    let kind : token_type tx.type_ ≡ TokenType.mint = rw t refl in
    let accepted = subst (λ k. check_type view k a sender ≡ ok tt) kind c in
    (ground arith, ground arith, is_owner-some (view.token_owner a.id) sender (ground arith))

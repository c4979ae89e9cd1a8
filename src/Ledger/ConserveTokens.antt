-- ===== src/Ledger/ConserveTokens.antt =====
-- A token transaction moves STH only between the two sides of a trade.
use sth_core_pq.Base.{
  ℕ, ◌≡◌, refl, Option, none, some, List, [], ◌∷◌, Text, Result, ok, bind-ok, ok_injective, subst,
  saturating_mul, arith,
}
use sth_core_pq.Base.Int.{ℤ, pos}
use sth_core_pq.Models.{
  Transaction, Block, TokenAsset, TokenType, TokenOrder, TokenMeta, TokenTransferItem,
}
use sth_core_pq.Ledger.{WalletDelta, LedgerError, TokenTrade}
use sth_core_pq.Ledger.Env.{Env, default}
use sth_core_pq.Ledger.Tree.{Tree}
use sth_core_pq.Ledger.Deltas.{Deltas, change, pay, charge, gain, lose, get_sobject}
use sth_core_pq.Ledger.Market.{
  issue, raise_supply, lower_supply, describe, keep_order, trade, transfer_items, buy_effect,
  cancel_effect, init_effect, sell_effect, burn_effect, token_effect, stored_order, filled_by,
}
use sth_core_pq.Ledger.Flows.{
  Between, change-Flows, pay-Between, charge-Between, Flows-trans, Flows-refl, Flows-even,
}
use sth_core_pq.Ledger.Conserve.{Level, Level-trans, Neutral, change-Level}

gain-Neutral : (id : Text) (n : ℤ) → Neutral (gain id n)
unfolding gain
gain-Neutral id n d = refl

lose-Neutral : (id : Text) (n : ℤ) → Neutral (lose id n)
unfolding lose
lose-Neutral id n d = refl

transfer_items-Level :
    (sender id : Text) (items : List TokenTransferItem) (ds : Deltas)
    → Level ds (transfer_items sender id items ds)
unfolding transfer_items
transfer_items-Level sender id [] ds = Flows-refl ds
transfer_items-Level sender id (i ∷ items) ds =
    let left = change sender (lose id (pos i.amount)) ds in
    Level-trans (change-Level sender (lose id (pos i.amount)) ds (lose-Neutral id (pos i.amount))) (
      Level-trans
        (change-Level i.recipient_id (gain id (pos i.amount)) left (gain-Neutral id (pos i.amount)))
        (transfer_items-Level sender id items _))

bought_for-Between :
    (r : TokenTrade) (id : Text) (a : ℤ) (n : ℕ) (d : WalletDelta)
    → Between d.balance (trade r (gain id a (charge (pos n) d))).balance 0 n
unfolding trade gain
bought_for-Between r id a n d = charge-Between n d

meta_step :
    (id sender : Text) (o : Option TokenMeta) (ds es : Deltas)
    → Path
        (Result LedgerError Deltas)
        (elim o [ none ↦ ok ds | some m ↦ ok (change sender (describe id m) ds) ])
        (ok es)
    → Level ds es
unfolding describe
meta_step id sender none ds es h = subst (Level ds) (ok_injective ds es h) (Flows-refl ds)
meta_step id sender (some m) ds es h =
    subst (Level ds) (ok_injective _ es h) (change-Level sender _ ds (λ d. refl))

module _ {Value : Type 0} (env : Env Value) (t : Tree Value) where
  buy_effect-Level :
      (b : Block Value) (index : ℕ) (tx : Transaction Value) (a : TokenAsset) (sender : Text)
      (o : TokenOrder) (ds : Deltas)
      → Level ds (buy_effect env t b index tx a sender o ds)
  unfolding buy_effect keep_order
  buy_effect-Level b index tx a sender o ds =
      let n = saturating_mul (default 0 a.amount) o.price in
      Level-trans
        (Flows-even n (omega arith) (omega arith) (
          Flows-trans
            (change-Flows sender _ ds 0 n (bought_for-Between _ a.id (pos (default 0 a.amount)) n))
            (change-Flows o.seller (pay (pos n)) _ n 0 (pay-Between n))))
        (change-Level o.seller
          (keep_order (default [] a.order_id)
            (filled_by b.height (default 0 a.amount) (default [] tx.id) o))
          _ (λ d. refl))

  -- A token transaction moves nothing but the price of a trade, from the buyer to the seller.
  pub token_effect-Level :
      (b : Block Value) (index : ℕ) (tx : Transaction Value) (a : TokenAsset) (sender : Text)
      (k : TokenType) (ds es : Deltas)
      → token_effect env t b index tx a sender k ds ≡ ok es
      → Level ds es
  unfolding token_effect init_effect sell_effect burn_effect cancel_effect issue raise_supply
      lower_supply describe keep_order gain lose
  token_effect-Level b index tx a sender TokenType.init ds es h =
      let (o, r, e) = bind-ok (get_sobject env t a.id) _ h in
      subst (Level ds) (ok_injective _ es e) (change-Level sender _ ds (λ d. refl))
  token_effect-Level b index tx a sender TokenType.transfer ds es h =
      subst (Level ds) (ok_injective _ es h)
        (transfer_items-Level sender a.id (default [] a.transfers) ds)
  token_effect-Level b index tx a sender TokenType.mint ds es h =
      subst (Level ds) (ok_injective _ es h)
        (Level-trans (change-Level _ _ ds (λ d. refl)) (change-Level sender _ _ (λ d. refl)))
  token_effect-Level b index tx a sender TokenType.meta ds es h =
      meta_step a.id sender a.meta ds es h
  token_effect-Level b index tx a sender TokenType.sell ds es h =
      subst (Level ds) (ok_injective _ es h) (change-Level sender _ ds (λ d. refl))
  token_effect-Level b index tx a sender TokenType.buy ds es h =
      let (o, r, e) = bind-ok (stored_order env t (default [] a.order_id) ds) _ h in
      subst (Level ds) (ok_injective _ es e) (buy_effect-Level b index tx a sender o ds)
  token_effect-Level b index tx a sender TokenType.cancel ds es h =
      let (o, r, e) = bind-ok (stored_order env t (default [] a.order_id) ds) _ h in
      subst (Level ds) (ok_injective _ es e)
        (Level-trans (change-Level _ _ ds (λ d. refl)) (change-Level o.seller _ _ (λ d. refl)))
  token_effect-Level b index tx a sender TokenType.burn ds es h =
      subst (Level ds) (ok_injective _ es h)
        (Level-trans (change-Level sender _ ds (λ d. refl)) (change-Level _ _ _ (λ d. refl)))

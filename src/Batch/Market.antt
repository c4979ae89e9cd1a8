-- ===== src/Batch/Market.antt =====
-- Orders of the token market over the transactions of a batch.
use sth_core_pq.Base.{
  ℕ, ◌+◌, ◌^◌, ◌≤◌, ◌<◌, ◌≡◌, inl, inr, refl, subst, ◌∙◌, false, Option, none, some, List, [], ◌∷◌,
  All, Text, text_eq, text_eq→eq, lookup-insert, arith, if◌then◌else◌, unwrap_or, ok, Option-cases,
  Bool-cases, Result-cases,
}
use sth_core_pq.Models.{TokenAsset, TokenTransferItem, TokenType, TokenOrder, TokenState}
use sth_core_pq.Rules.Wallet.{remaining, check_type, wallet_buy, open_order}
use sth_core_pq.Batch.{
  BatchTokenView, Tx, order, view, credit, debit, apply, apply_transfers, fill, close,
  pending_order, apply_buy, apply_cancel, check_and_apply, run, set_balance, put_order, put_state,
  with_state, token_state,
}

-- No more than the order's amount, a u64, is sold.
abbrev pub IsSound : TokenOrder → Type 0
IsSound o = (o.filled ≤ o.amount) × (o.amount < 2 ^ 64)

-- The units that the buys of the order `oid` ask for.
units_at : Text → Option Text → ℕ → ℕ
units_at oid none n = 0
units_at oid (some id) n = if text_eq id oid then n else 0

units : Text → TokenType → TokenAsset → ℕ
units oid TokenType.buy a = units_at oid (a.order_id) (unwrap_or 0 (a.amount))
units oid k a = 0

pub bought : Text → List Tx → ℕ
bought oid [] = 0
bought oid (t ∷ ts) = units oid t.kind t.asset + bought oid ts

-- The order after `n` units were sold: nothing else of its terms changes.
abbrev pub Sold : ℕ → TokenOrder → TokenOrder → Type 0
Sold n o o' =
    (o'.filled ≡ o.filled + n)
    × (o'.amount ≡ o.amount)
    × (o'.price ≡ o.price)
    × (o'.seller ≡ o.seller)
    × (o'.token_id ≡ o.token_id)

order-transfers :
    (id sender oid : Text) (is : List TokenTransferItem) (v : BatchTokenView)
    → order (apply_transfers id sender is v) oid ≡ order v oid
unfolding apply_transfers order credit debit set_balance
order-transfers id sender oid [] v = refl
order-transfers id sender oid (i ∷ is) v =
    order-transfers id sender oid is
      (credit id i.recipient_id i.amount (debit id sender i.amount v))

order-credit :
    (id address oid : Text) (n : ℕ) (v : BatchTokenView)
    → order (credit id address n v) oid ≡ order v oid
unfolding credit set_balance order
order-credit id address oid n v = refl

order-debit :
    (id address oid : Text) (n : ℕ) (v : BatchTokenView)
    → order (debit id address n v) oid ≡ order v oid
unfolding debit set_balance order
order-debit id address oid n v = refl

order-put_order :
    (id oid : Text) (o : TokenOrder) (v : BatchTokenView)
    → order (put_order id o v) oid ≡ (if text_eq id oid then some o else order v oid)
unfolding put_order order
order-put_order id oid o v = grind (arith, lookup-insert id oid o v.orders)

order-put_state :
    (id oid : Text) (st : TokenState) (v : BatchTokenView)
    → order (put_state id st v) oid ≡ order v oid
unfolding put_state order
order-put_state id oid st v = refl

order-with_state :
    (id oid : Text) (f : TokenState → TokenState) (v : BatchTokenView)
    → order (with_state id f v) oid ≡ order v oid
unfolding with_state
order-with_state id oid f v = elim (Option-cases (token_state v id)) [
  | inl e ↦ rw (e, with_state) refl
  | inr (st, e) ↦ rw (e, with_state) (order-put_state id oid (f st) v)
]

-- The view still has the sound order under `oid`, with `n` more units sold.
After : ℕ → TokenOrder → Text → BatchTokenView → Type 0
After n o oid v = (o' : TokenOrder) × (order v oid ≡ some o') × Sold n o o' × IsSound o'

buy-within :
    (v : BatchTokenView) (a : TokenAsset) (sender id : Text) (o : TokenOrder)
    → wallet_buy (view v) a sender ≡ ok tt
    → a.order_id ≡ some id
    → order v id ≡ some o
    → IsSound o
    → o.filled + unwrap_or 0 (a.amount) ≤ o.amount
unfolding wallet_buy open_order remaining
buy-within v a sender id o c e f s = ground arith

-- An order put back under its id, as seen under `oid`.
order-put_back :
    (id token address oid : Text) (n : ℕ) (o p : TokenOrder) (v : BatchTokenView)
    → order v oid ≡ some o
    → order (put_order id p (credit token address n v)) oid ≡ some (if text_eq id oid then p else o)
order-put_back id token address oid n o p v e =
    grind (
      arith,
      order-put_order id oid p (credit token address n v),
      order-credit token address oid n v,
    )

pending-named :
    (v : BatchTokenView) (i : Option Text) (p : TokenOrder)
    → pending_order v i ≡ some p
    → (id : Text) × (i ≡ some id) × (order v id ≡ some p)
unfolding pending_order
pending-named v none p e = absurd (cc)
pending-named v (some id) p e = (id, refl, e)

units-missing :
    (v : BatchTokenView) (i : Option Text) (oid : Text) (n : ℕ) (o : TokenOrder)
    → pending_order v i ≡ none
    → order v oid ≡ some o
    → units_at oid i n ≡ 0
unfolding pending_order units_at
units-missing v none oid n o e f = refl
units-missing v (some id) oid n o e f = elim (Bool-cases (text_eq id oid)) [
  | inl same ↦ absurd (let eq = text_eq→eq id oid same in ground arith)
  | inr other ↦ rw other refl
]

settled-After :
    (v : BatchTokenView) (id oid token address : Text) (n m : ℕ) (o p p' : TokenOrder)
    → order v oid ≡ some o
    → order v id ≡ some p
    → (p ≡ o → Sold n p p' × IsSound p')
    → IsSound o
    → After (if text_eq id oid then n else 0) o oid (put_order id p' (credit token address m v))
unfolding After
settled-After v id oid token address n m o p p' e found sold sound =
    let back = order-put_back id token address oid m o p' v e in
    elim (Bool-cases (text_eq id oid)) [
      | inl same ↦
          let path = text_eq→eq id oid same in
          let p=o : p ≡ o = ground (arith) in
          (p', ground arith, rw (same, ← p=o) (sold p=o).0, (sold p=o).1)
      | inr other ↦ (o, ground arith, ground arith, sound)
    ]

fill-Sold :
    (height n : ℕ) (p : TokenOrder)
    → p.filled + n ≤ p.amount
    → IsSound p
    → Sold n p (fill height n p) × IsSound (fill height n p)
unfolding fill
fill-Sold height n p h s = grind arith

close-Sold :
    (height : ℕ) (p : TokenOrder) → IsSound p → Sold 0 p (close height p) × IsSound (close height p)
unfolding close
close-Sold height p s = grind arith

buy-After :
    (a : TokenAsset) (sender : Text) (height : ℕ) (v : BatchTokenView) (oid : Text) (o : TokenOrder)
    → wallet_buy (view v) a sender ≡ ok tt
    → order v oid ≡ some o
    → IsSound o
    → After
        (units_at oid (a.order_id) (unwrap_or 0 (a.amount)))
        o
        oid
        (apply_buy a sender height v (pending_order v a.order_id))
unfolding After apply_buy units_at
buy-After a sender height v oid o c e s = elim (Option-cases (pending_order v a.order_id)) [
  | inl none_pending ↦
      rw
        (
          none_pending,
          apply_buy,
          units-missing v (a.order_id) oid (unwrap_or 0 (a.amount)) o none_pending e,
        )
        (o, e, ground arith, s)
  | inr (p, pending) ↦
      let (id, named, found) = pending-named v (a.order_id) p pending in
      rw (pending, apply_buy, named)
        (settled-After v id oid a.id sender (unwrap_or 0 (a.amount)) (unwrap_or 0 (a.amount)) o p
          (fill height (unwrap_or 0 (a.amount)) p) e found
          (λ p=o.
            fill-Sold height (unwrap_or 0 (a.amount)) p
              (buy-within v a sender id p c named found (rw p=o s)) (rw p=o s))
          s)
]

cancel-After :
    (a : TokenAsset) (height : ℕ) (v : BatchTokenView) (oid : Text) (o : TokenOrder)
    → order v oid ≡ some o
    → IsSound o
    → After 0 o oid (apply_cancel a height v (pending_order v a.order_id))
unfolding After apply_cancel
cancel-After a height v oid o e s = elim (Option-cases (pending_order v a.order_id)) [
  | inl none_pending ↦ rw (none_pending, apply_cancel) (o, e, ground arith, s)
  | inr (p, pending) ↦
      let (id, named, found) = pending-named v (a.order_id) p pending in
      let no_units : (if text_eq id oid then 0 else 0) ≡ 0 = ground arith in
      let put = put_order id (close height p) (credit a.id p.seller (remaining p) v) in
      rw (pending, apply_cancel, named)
        (subst (λ n. After n o oid put) no_units
          (settled-After v id oid a.id p.seller 0 (remaining p) o p (close height p) e found
            (λ p=o. close-Sold height p (rw p=o s)) s))
]

apply-After :
    (k : TokenType) (a : TokenAsset) (sender : Text) (height : ℕ) (tx_id : Text)
    (v : BatchTokenView) (oid : Text) (o : TokenOrder)
    → check_type (view v) k a sender ≡ ok tt
    → text_eq tx_id oid ≡ false
    → order v oid ≡ some o
    → IsSound o
    → After (units oid k a) o oid (apply k a sender height tx_id v)
unfolding After apply units check_type
apply-After TokenType.init a sender height tx_id v oid o c d e s =
    (o, order-put_state a.id oid _ _ ∙ order-credit a.id sender oid _ v ∙ e, ground arith, s)
apply-After TokenType.transfer a sender height tx_id v oid o c d e s =
    (o, order-transfers a.id sender oid (unwrap_or [] (a.transfers)) v ∙ e, ground arith, s)
apply-After TokenType.mint a sender height tx_id v oid o c d e s =
    (o, order-with_state a.id oid _ _ ∙ order-credit a.id _ oid _ v ∙ e, ground arith, s)
apply-After TokenType.burn a sender height tx_id v oid o c d e s =
    (o, order-with_state a.id oid _ _ ∙ order-debit a.id sender oid _ v ∙ e, ground arith, s)
apply-After TokenType.meta a sender height tx_id v oid o c d e s =
    (o, order-with_state a.id oid _ v ∙ e, ground arith, s)
apply-After TokenType.sell a sender height tx_id v oid o c d e s =
    (o, order-put_order tx_id oid _ _ ∙ rw d (order-debit a.id sender oid _ v ∙ e), ground arith, s)
apply-After TokenType.buy a sender height tx_id v oid o c d e s =
    buy-After a sender height v oid o c e s
apply-After TokenType.cancel a sender height tx_id v oid o c d e s =
    cancel-After a height v oid o e s

-- Over the accepted transactions of a batch, none of which takes the id of an order: let the order
-- be there with no more than its amount sold. Then it stays there with its terms, what is sold of it
-- grows by exactly what the buys in the batch ask for, and never exceeds its amount.
pub run-Sold :
    (ts : List Tx) (v v' : BatchTokenView) (oid : Text) (o : TokenOrder)
    → run ts v ≡ ok v'
    → All (λ t. text_eq t.tx_id oid ≡ false) ts
    → order v oid ≡ some o
    → IsSound o
    → (o' : TokenOrder) × (order v' oid ≡ some o') × Sold (bought oid ts) o o' × IsSound o'
unfolding run check_and_apply bought After
run-Sold [] v v' oid o r fresh e s = (o, ground arith, ground arith, s)
run-Sold (t ∷ ts) v v' oid o r (new, fresh) e s =
    elim (Result-cases (check_type (view v) t.kind t.asset t.sender)) [
      | inl (u, accepted) ↦
          let w = apply t.kind t.asset t.sender t.height t.tx_id v in
          let (p, e', sold, s') =
            apply-After t.kind t.asset t.sender t.height t.tx_id v oid o accepted new e s in
          let rest : run ts w ≡ ok v' = ground arith in
          let (q, e'', sold', s'') = run-Sold ts w v' oid p rest fresh e' s' in
          (q, e'', ground arith, s'')
      | inr (x, refused) ↦ absurd (ground arith)
    ]

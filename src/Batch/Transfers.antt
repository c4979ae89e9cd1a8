-- ===== src/Batch/Transfers.antt =====
-- The balances of a token over a transfer of a batch.
use sth_core_pq.Base.{
  ℕ, ◌+◌, ◌-◌, ◌%◌, ◌^◌, ◌≤◌, ◌<◌, ◌≡◌, refl, subst, ◌∙◌, inl, inr, Bool, true, false, Option, List,
  [], ◌∷◌, map, sum, any, All, Text, text_eq, text_eq→eq, text_eq_refl, arith, if◌then◌else◌,
  unwrap_or, ok, Bool-cases,
}
use sth_core_pq.Models.{TokenAsset, TokenTransferItem, Transaction, Milestone, token_type}
use sth_core_pq.Rules.Format.{check_token_format}
use sth_core_pq.Rules.Wallet.{check_token}
use sth_core_pq.Rules.Amounts.{check_token-transfer_covered}
use sth_core_pq.Batch.{
  view, BatchTokenView, token_balance, set_balance, credit, debit, apply_transfers, apply,
}

-- The holders' balances of a token, and a list of holders without repetition.
unfoldable pub total : Text → List Text → BatchTokenView → ℕ
total id [] v = 0
total id (h ∷ hs) v = token_balance v h id + total id hs v

unfoldable pub IsDistinct : List Text → Type 0
IsDistinct [] = Unit {0}
IsDistinct (h ∷ hs) = All (λ x. text_eq x h ≡ false) hs × IsDistinct hs

abbrev pub among : Text → List Text → Bool
among x hs = any (λ h. text_eq h x) hs

balance-set :
    (id address x : Text) (n : ℕ) (v : BatchTokenView)
    → token_balance (set_balance address id n v) x id
      ≡ (if text_eq x address then n else token_balance v x id)
unfolding token_balance set_balance
balance-set id address x n v = grind (arith, text_eq_refl id)

total-set_other :
    (id address : Text) (n : ℕ) (hs : List Text) (v : BatchTokenView)
    → All (λ x. text_eq x address ≡ false) hs
    → total id hs (set_balance address id n v) ≡ total id hs v
unfolding total
total-set_other id address n [] v f = refl
total-set_other id address n (h ∷ hs) v (other, f) =
    grind (arith, balance-set id address h n v, total-set_other id address n hs v f)

total-set :
    (id address : Text) (n : ℕ) (hs : List Text) (v : BatchTokenView)
    → IsDistinct hs
    → among address hs ≡ true
    → total id hs (set_balance address id n v) + token_balance v address id ≡ total id hs v + n
unfolding total IsDistinct
total-set id address n [] v d m = absurd (cc)
total-set id address n (h ∷ hs) v (fresh, d) m = elim (Bool-cases (text_eq h address)) [
  | inl same ↦
      let here = text_eq→eq h address same in
      let others =
        total-set_other id address n hs v
          (subst (λ y. All (λ x. text_eq x y ≡ false) hs) here fresh) in
      let at = balance-set id address h n v in ground (arith)
  | inr other ↦
      let rest = total-set id address n hs v d (ground arith) in
      let at = balance-set id address h n v in ground arith
]

total-among :
    (id x : Text) (hs : List Text) (v : BatchTokenView)
    → among x hs ≡ true
    → token_balance v x id ≤ total id hs v
unfolding total
total-among id x [] v m = absurd (cc)
total-among id x (h ∷ hs) v m = elim (Bool-cases (text_eq h x)) [
  | inl same ↦ rw⁻¹ (text_eq→eq h x same) (omega arith)
  | inr other ↦ let rest = total-among id x hs v (ground arith) in omega arith
]

debit-total :
    (id x : Text) (n : ℕ) (hs : List Text) (v : BatchTokenView)
    → IsDistinct hs
    → among x hs ≡ true
    → n ≤ token_balance v x id
    → (total id hs (debit id x n v) + n ≡ total id hs v)
      × (token_balance (debit id x n v) x id + n ≡ token_balance v x id)
unfolding debit
debit-total id x n hs v distinct holder enough =
    let out = total-set id x (token_balance v x id - n) hs v distinct holder in
    (omega arith, grind (arith, text_eq_refl x, balance-set id x x (token_balance v x id - n) v))

credit-total :
    (id x y : Text) (n : ℕ) (hs : List Text) (v : BatchTokenView)
    → IsDistinct hs
    → among x hs ≡ true
    → total id hs v + n < 2 ^ 64
    → (total id hs (credit id x n v) ≡ total id hs v + n)
      × (token_balance v y id ≤ token_balance (credit id x n v) y id)
unfolding credit
credit-total id x y n hs v distinct holder fits =
    let has = total-among id x hs v holder in
    let plain : (token_balance v x id + n) % 2 ^ 64 ≡ token_balance v x id + n = omega arith in
    let into = total-set id x (token_balance v x id + n) hs v distinct holder in
    rw plain
      (omega arith, grind (arith, text_eq→eq y x, balance-set id x y (token_balance v x id + n) v))

module _ (id sender : Text) (hs : List Text) (distinct : IsDistinct hs)
    (is_holder : among sender hs ≡ true) where
  -- One item: the sender can pay, and nothing is lost.
  move_lem :
      (i : TokenTransferItem) (v : BatchTokenView)
      → among i.recipient_id hs ≡ true
      → i.amount ≤ token_balance v sender id
      → total id hs v < 2 ^ 64
      → let w = credit id i.recipient_id i.amount (debit id sender i.amount v) in
        (total id hs w ≡ total id hs v)
        × (token_balance v sender id ≤ token_balance w sender id + i.amount)
  move_lem i v holder pays fits =
      let paid = debit id sender i.amount v in
      let (out, left) = debit-total id sender i.amount hs v distinct is_holder pays in
      let (into, grown) =
        credit-total id i.recipient_id sender i.amount hs paid distinct holder (omega arith) in
      (omega arith, omega arith)

  pub apply_transfers-total :
      (is : List TokenTransferItem) (v : BatchTokenView)
      → All (λ i. among i.recipient_id hs ≡ true) is
      → sum (map (λ i. i.amount) is) ≤ token_balance v sender id
      → total id hs v < 2 ^ 64
      → total id hs (apply_transfers id sender is v) ≡ total id hs v
  unfolding apply_transfers
  apply_transfers-total [] v holders pays fits = refl
  apply_transfers-total (i ∷ is) v (holder, holders) pays fits =
      let w = credit id i.recipient_id i.amount (debit id sender i.amount v) in
      let (same, left) = move_lem i v holder (omega arith) fits in
      apply_transfers-total is w holders (omega arith) (rw same fits) ∙ same

-- Let a token transfer pass both checks, among distinct holders of the token, the sender and the
-- recipients included, whose balances together fit a u64. Then applying it to the batch leaves the
-- total of their balances as it was.
pub apply-total :
    {Value : Type 0} (from_value : Value → Option TokenAsset) (base64 : Text → Option (List ℕ))
    (ms : Milestone) (tx : Transaction Value) (a : TokenAsset) (sender tx_id : Text) (height : ℕ)
    (v : BatchTokenView) (hs : List Text)
    → tx.type_ ≡ 1
    → check_token_format base64 from_value tx ms ≡ ok a
    → check_token (view v) tx a sender ≡ ok tt
    → IsDistinct hs
    → among sender hs ≡ true
    → All (λ i. among i.recipient_id hs ≡ true) (unwrap_or [] (a.transfers))
    → total a.id hs v < 2 ^ 64
    → total a.id hs (apply (token_type tx.type_) a sender height tx_id v) ≡ total a.id hs v
unfolding apply
apply-total from_value base64 ms tx a sender tx_id height v hs t format wallet distinct holder
      holders fits =
    let covered =
      check_token-transfer_covered from_value base64 ms (view v) tx a sender t format wallet in
    rw t (
      apply_transfers-total a.id sender hs distinct holder (unwrap_or [] (a.transfers)) v holders
        covered fits)

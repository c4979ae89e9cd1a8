-- ===== src/Ledger/Exact.antt =====
-- What `WalletState::apply` leaves in a wallet.
use sth_core_pq.Base.{
  ℕ, ◌+◌, ◌≤◌, ◌<◌, ◌≡◌, ◌^◌, Text, Unique, ok, bind-ok, sym, ap, ◌∙◌, subst, ok_injective, u64_max,
  arith,
}
use sth_core_pq.Base.Int.{ℤ, pos, negsuc, pos_part, neg_part, ◌+ℤ◌}
use sth_core_pq.Ledger.{WalletState, WalletDelta}
use sth_core_pq.Ledger.Apply.{
  to_i64, add_nonce, set_meta, add_supply, add_tokens, insert_all, apply,
}
use sth_core_pq.Ledger.Tokens.{balance_in, change_in, Held, add_tokens-balance_in, add_tokens-Held}

-- The range of an i64.
abbrev pub IsI64 : ℤ → Type 0
IsI64 z = (pos_part z < 2 ^ 63) × (neg_part z ≤ 2 ^ 63)

to_i64-ok : (z v : ℤ) → to_i64 z ≡ ok v → (v ≡ z) × IsI64 v
unfolding to_i64
to_i64-ok (pos n) v h = ground arith
to_i64-ok (negsuc n) v h = ground arith

add_nonce-ok : (a b v : ℕ) → add_nonce a b ≡ ok v → (v ≡ a + b) × (v ≤ u64_max)
unfolding add_nonce
add_nonce-ok a b v h = ground arith

pub record Applied (w : WalletState) (d : WalletDelta) (w' : WalletState) : Type 0 where
  pub balance : w'.balance ≡ w.balance +ℤ d.balance
  pub balance_range : IsI64 w'.balance
  pub nonce : w'.nonce ≡ w.nonce + d.nonce
  pub nonce_range : w'.nonce ≤ u64_max
  pub tokens :
      (id : Text)
      → pos (balance_in id w'.tokens) ≡ pos (balance_in id w.tokens) +ℤ change_in id d.tokens
  pub held : Held w.tokens → Held w'.tokens
  pub address : w'.address ≡ w.address

-- When the changes of a block are applied to a wallet, its balance, nonce and token balances move by
-- exactly the changes, the balance is an i64, the nonce a u64, and if the token balances were
-- positive and within a u64 before, they are so after.
pub apply-Applied :
    (w w' : WalletState) (d : WalletDelta) → Unique d.tokens → apply w d ≡ ok w' → Applied w d w'
unfolding apply
apply-Applied w w' d u h =
    let (b, hb, h1) = bind-ok (to_i64 (w.balance +ℤ d.balance)) _ h in
    let (n, hn, h2) = bind-ok (add_nonce w.nonce d.nonce) _ h1 in
    let (p, hp, h3) =
      bind-ok (set_meta d.token_meta (insert_all d.tokens_issued w.tokens_issued)) _ h2 in
    let (s, hs, h4) = bind-ok (add_supply d.token_supply p) _ h3 in
    let (t, ht, h5) = bind-ok (add_tokens d.tokens w.tokens) _ h4 in
    let e = ok_injective _ w' h5 in
    let (balance, range) = to_i64-ok (w.balance +ℤ d.balance) b hb in
    let (nonce, nonce_range) = add_nonce-ok w.nonce d.nonce n hn in
    record {
      balance = sym (ap (λ x. x.balance) e) ∙ balance;
      balance_range = subst (λ x. IsI64 x.balance) e range;
      nonce = sym (ap (λ x. x.nonce) e) ∙ nonce;
      nonce_range = subst (λ x. x.nonce ≤ u64_max) e nonce_range;
      tokens = λ id.
          ap (λ x. pos (balance_in id x.tokens)) (sym e)
          ∙ add_tokens-balance_in d.tokens w.tokens t u ht id;
      held = λ k. subst (λ x. Held x.tokens) e (add_tokens-Held d.tokens w.tokens t ht k);
      address = sym (ap (λ x. x.address) e);
    }

pub apply-balance :
    (w w' : WalletState) (d : WalletDelta) → apply w d ≡ ok w' → w'.balance ≡ w.balance +ℤ d.balance
unfolding apply
apply-balance w w' d h =
    let (b, hb, h1) = bind-ok (to_i64 (w.balance +ℤ d.balance)) _ h in
    let (n, hn, h2) = bind-ok (add_nonce w.nonce d.nonce) _ h1 in
    let (p, hp, h3) =
      bind-ok (set_meta d.token_meta (insert_all d.tokens_issued w.tokens_issued)) _ h2 in
    let (s, hs, h4) = bind-ok (add_supply d.token_supply p) _ h3 in
    let (t, ht, h5) = bind-ok (add_tokens d.tokens w.tokens) _ h4 in
    sym (ap (λ x. x.balance) (ok_injective _ w' h5)) ∙ (to_i64-ok (w.balance +ℤ d.balance) b hb).0

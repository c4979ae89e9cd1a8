-- ===== src/Ledger/Money.antt =====
-- The balances of all wallets together, over a block.
use sth_core_pq.Base.{
  ℕ, List, ◌+◌, ◌<◌, ◌≡◌, refl, sym, ap, ◌∙◌, true, Option, none, some, [], ◌∷◌, Text, Map, lookup,
  insert, unwrap_or, text_eq, Bool-cases, inl, inr, ok, bind-ok, ok_injective,
}
use sth_core_pq.Base.Int.{ℤ, pos, ◌+ℤ◌, int_laws}
use sth_core_pq.Models.{Block}
use sth_core_pq.Ledger.{WalletState, WalletDelta, new_wallet}
use sth_core_pq.Ledger.Exact.{apply-balance}
use sth_core_pq.Ledger.Env.{Env}
use sth_core_pq.Ledger.Tree.{Tree}
use sth_core_pq.Ledger.Write.{store_wallet, write_wallet, write_wallets_undo}
use sth_core_pq.Ledger.Restore.{Written, write_wallet-stores}
use sth_core_pq.Ledger.Tip.{tip, apply_locked, put_undo}
use sth_core_pq.Ledger.Added.{apply_locked-core}
use sth_core_pq.Ledger.Accumulate.{accumulate_deltas}
use sth_core_pq.Ledger.Deltas.{Deltas}
use sth_core_pq.Ledger.Flows.{total}
use sth_core_pq.Ledger.Supply.{taken_all, paid_out_all, accumulate_deltas-total}

unfoldable pub money : Map WalletState → ℤ
money [] = pos 0
money ((a, w) ∷ ws) = w.balance +ℤ money ws

abbrev pub balance_at : Option WalletState → ℤ
balance_at none = pos 0
balance_at (some w) = w.balance

money-insert :
    (a : Text) (w : WalletState) (m : Map WalletState)
    → money (insert a w m) +ℤ balance_at (lookup a m) ≡ money m +ℤ w.balance
unfolding money insert lookup
money-insert a w [] = grind int_laws
money-insert a w ((b, v) ∷ m) = elim (Bool-cases (text_eq b a)) [
  | inl e ↦ rw e (grind int_laws)
  | inr e ↦ rw e (grind (int_laws, money-insert a w m))
]

start_balance :
    (a : Text) (o : Option WalletState) → (unwrap_or (new_wallet a) o).balance ≡ balance_at o
unfolding new_wallet
start_balance a none = refl
start_balance a (some w) = refl

module _ {Value : Type 0} (lower : Text → Text) where
  write_wallet-money :
      (a : Text) (d : WalletDelta) (p : WalletState × Tree Value) (t : Tree Value)
      → write_wallet lower a d t ≡ ok p
      → money p.1.wallets ≡ money t.wallets +ℤ d.balance
  unfolding store_wallet
  write_wallet-money a d p t h =
      let (r, (same, votes)) = write_wallet-stores lower a d p.0 t p.1 h in
      let moved = apply-balance (unwrap_or (new_wallet a) (lookup a t.wallets)) p.0 d r in
      ap money same
      ∙ grind (int_laws, moved, money-insert a p.0 t.wallets, start_balance a (lookup a t.wallets))

  write_wallets_undo-money :
      (ds : Map WalletDelta) (t : Tree Value) (x : Written Value)
      → write_wallets_undo lower ds t ≡ ok x
      → money x.2.wallets ≡ money t.wallets +ℤ total ds
  unfolding write_wallets_undo total
  write_wallets_undo-money [] t x h =
      ap (λ y. money y.2.wallets) (sym (ok_injective _ x h)) ∙ grind int_laws
  write_wallets_undo-money ((a, d) ∷ ds) t x h =
      let (p, r, e) = bind-ok (write_wallet lower a d t) _ h in
      let (y, s, f) = bind-ok (write_wallets_undo lower ds p.1) _ e in
      ap (λ z. money z.2.wallets) (sym (ok_injective _ x f))
      ∙ grind (int_laws, write_wallets_undo-money ds p.1 y s, write_wallet-money a d p t r)

module _ {Value : Type 0} (env : Env Value) where
  -- When a block is applied on top of a chain that is not empty, the balances of all wallets together
  -- change by the reward and the fees of the block, less what its transactions take from their
  -- senders, plus what they pay out.
  pub apply_locked-money :
      (b : Block Value) (encoded : List ℕ) (ds : Deltas) (t t' : Tree Value)
      → 0 < tip t
      → accumulate_deltas env t b (b ∷ []) [] ≡ ok ds
      → apply_locked env (b, encoded) [] ds true t ≡ ok t'
      → money t'.wallets +ℤ pos (taken_all env t b (b ∷ []) b.transactions)
        ≡ money t.wallets
          +ℤ pos (b.reward + b.total_fee + paid_out_all env t b (b ∷ []) b.transactions)
  unfolding put_undo total
  apply_locked-money b encoded ds t t' r acc h =
      let (x, wx, next, v, cv, pv) = apply_locked-core env b encoded ds t t' r h in
      let same : t'.wallets ≡ x.2.wallets = sym (ap (λ z. z.wallets) pv) ∙ ap (λ c. c.0) cv in
      let moved = write_wallets_undo-money env.to_lowercase ds t x wx in
      let sums = accumulate_deltas-total env t b (b ∷ []) [] ds acc in
      rw same (grind (int_laws, moved, sums))

-- ===== src/Ledger/Restore.antt =====
-- A rollback gives every wallet back: what `write_wallets_undo` records, `restore_wallets` restores.
use sth_core_pq.Base.{
  ℕ, ◌≡◌, refl, sym, ap, ◌∙◌, subst, Option, none, some, List, [], ◌∷◌, Text, text_eq, text_eq_iff,
  Map, lookup, lookup-insert, lookup-remove, Unique, if◌then◌else◌, ok, bind-ok, ok_injective,
  unwrap_or, arith,
}
use sth_core_pq.Ledger.{WalletState, WalletDelta, new_wallet}
use sth_core_pq.Ledger.Apply.{apply}
use sth_core_pq.Models.{TokenOrder}
use sth_core_pq.Ledger.Tree.{Tree, UndoRecord, FinalityCert, write_order}
use sth_core_pq.Ledger.Write.{
  store_wallet, index_state, index_delta, write_orders, write_wallet, write_wallets_undo,
}
use sth_core_pq.Ledger.Rollback.{restore_wallets, restore_indexes, put_previous}

-- What an undo record says of a wallet, and otherwise the wallet as it stands.
abbrev pub recorded : Option (Option WalletState) → Option WalletState → Option WalletState
recorded none current = current
recorded (some p) current = p

module _ {Value : Type 0} where
  put_previous-wallets :
      (a j : Text) (p : Option WalletState) (t : Tree Value)
      → lookup j (put_previous a p (restore_indexes a p t)).wallets
        ≡ (if text_eq a j then p else lookup j t.wallets)
  unfolding put_previous restore_indexes
  put_previous-wallets a j (some w) t = lookup-insert a j w t.wallets
  put_previous-wallets a j none t = ground (arith, lookup-remove a j t.wallets)

  pub restore_wallets-lookup :
      (j : Text) (undo : UndoRecord) (t : Tree Value)
      → Unique undo
      → lookup j (restore_wallets undo t).wallets ≡ recorded (lookup j undo) (lookup j t.wallets)
  unfolding restore_wallets lookup
  restore_wallets-lookup j [] t u = refl
  restore_wallets-lookup j ((a, p) ∷ undo) t u = ground (
    arith,
    restore_wallets-lookup j undo (put_previous a p (restore_indexes a p t)) u.1,
    put_previous-wallets a j p t,
    text_eq_iff a j,
    u.0,
  )

abbrev SameWallets : {Value : Type 0} → Tree Value → Tree Value → Type 0
SameWallets t u = (u.wallets ≡ t.wallets) × (u.votes ≡ t.votes)

-- The result of `write_wallets_undo`.
abbrev pub Written : Type 0 → Type 0
Written Value = List WalletState × UndoRecord × Tree Value

module _ {Value : Type 0} (lower : Text → Text) where
  -- The writes of orders touch neither the wallets nor the votes.
  write_orders-SameWallets :
      (os : Map TokenOrder) (t : Tree Value) → SameWallets t (write_orders os t)
  unfolding write_order
  write_orders-SameWallets [] t = (refl, refl)
  write_orders-SameWallets ((id, o) ∷ os) t =
      ground (arith, write_orders-SameWallets os (write_order o t))

  index_delta-SameWallets :
      (a : Text) (d : WalletDelta) (w : WalletState) (t : Tree Value)
      → SameWallets t (index_delta lower a d (index_state a w t))
  unfolding index_delta index_state
  index_delta-SameWallets a d w t = write_orders-SameWallets d.orders _

  -- The wallet that is written, and the votes that move.
  pub write_wallet-stores :
      (a : Text) (d : WalletDelta) (w : WalletState) (t u : Tree Value)
      → write_wallet lower a d t ≡ ok (w, u)
      → (apply (unwrap_or (new_wallet a) (lookup a t.wallets)) d ≡ ok w)
        × SameWallets (store_wallet lower a w t) u
  unfolding write_wallet
  write_wallet-stores a d w t u h =
      let (v, r, e) = bind-ok (apply (unwrap_or (new_wallet a) (lookup a t.wallets)) d) _ h in
      let p = ok_injective _ (w, u) e in
      subst
        (λ x.
          (apply (unwrap_or (new_wallet a) (lookup a t.wallets)) d ≡ ok x.0)
          × SameWallets (store_wallet lower a x.0 t) x.1)
        p (r, index_delta-SameWallets a d v (store_wallet lower a v t))

  write_wallet-lookup :
      (a j : Text) (d : WalletDelta) (w : WalletState) (t u : Tree Value)
      → write_wallet lower a d t ≡ ok (w, u)
      → lookup j u.wallets ≡ (if text_eq a j then some w else lookup j t.wallets)
  unfolding store_wallet
  write_wallet-lookup a j d w t u h =
      ap (lookup j) (write_wallet-stores a d w t u h).1.0 ∙ lookup-insert a j w t.wallets

  -- A wallet that no change names stays.
  pub write_wallets_undo-other :
      (j : Text) (ds : Map WalletDelta) (t : Tree Value) (x : Written Value)
      → write_wallets_undo lower ds t ≡ ok x
      → lookup j ds ≡ none
      → (lookup j x.2.wallets ≡ lookup j t.wallets) × (lookup j x.1 ≡ none)
  unfolding write_wallets_undo lookup
  write_wallets_undo-other j [] t x h n =
      subst (λ y. (lookup j y.2.wallets ≡ lookup j t.wallets) × (lookup j y.1 ≡ none))
        (ok_injective _ x h) (refl, refl)
  write_wallets_undo-other j ((a, d) ∷ ds) t x h n =
      let (p, r, e) = bind-ok (write_wallet lower a d t) _ h in
      let (y, s, f) = bind-ok (write_wallets_undo lower ds p.1) _ e in
      subst (λ z. (lookup j z.2.wallets ≡ lookup j t.wallets) × (lookup j z.1 ≡ none))
        (ok_injective _ x f)
        (ground
          (arith, n, write_wallets_undo-other j ds p.1 y s, write_wallet-lookup a j d p.0 t p.1 r))

  -- What a rollback of the wallets makes of the writes.
  pub write_wallets_undo-recorded :
      (j : Text) (ds : Map WalletDelta) (t : Tree Value) (x : Written Value)
      → Unique ds
      → write_wallets_undo lower ds t ≡ ok x
      → recorded (lookup j x.1) (lookup j x.2.wallets) ≡ lookup j t.wallets
  unfolding write_wallets_undo lookup
  write_wallets_undo-recorded j [] t x u h =
      subst (λ y. recorded (lookup j y.1) (lookup j y.2.wallets) ≡ lookup j t.wallets)
        (ok_injective _ x h) refl
  write_wallets_undo-recorded j ((a, d) ∷ ds) t x u h =
      let (p, r, e) = bind-ok (write_wallet lower a d t) _ h in
      let (y, s, f) = bind-ok (write_wallets_undo lower ds p.1) _ e in
      subst (λ z. recorded (lookup j z.1) (lookup j z.2.wallets) ≡ lookup j t.wallets)
        (ok_injective _ x f)
        (ground (
          arith,
          text_eq_iff a j,
          write_wallets_undo-recorded j ds p.1 y u.1 s,
          write_wallet-lookup a j d p.0 t p.1 r,
        ))

  pub write_wallets_undo-Unique :
      (ds : Map WalletDelta) (t : Tree Value) (x : Written Value)
      → Unique ds
      → write_wallets_undo lower ds t ≡ ok x
      → Unique x.1
  unfolding write_wallets_undo lookup
  write_wallets_undo-Unique [] t x u h = subst (λ y. Unique y.1) (ok_injective _ x h) tt
  write_wallets_undo-Unique ((a, d) ∷ ds) t x u h =
      let (p, r, e) = bind-ok (write_wallet lower a d t) _ h in
      let (y, s, f) = bind-ok (write_wallets_undo lower ds p.1) _ e in
      subst (λ z. Unique z.1) (ok_injective _ x f)
        ((write_wallets_undo-other a ds p.1 y s u.0).1, write_wallets_undo-Unique ds p.1 y u.1 s)

  -- The writes of wallets keep the tip and the certificates.
  abbrev pub settled : Tree Value → Option ℕ × List FinalityCert
  settled t = (t.last_height, t.finality)

  write_orders-settled :
      (os : Map TokenOrder) (t : Tree Value) → settled (write_orders os t) ≡ settled t
  unfolding write_order
  write_orders-settled [] t = refl
  write_orders-settled ((id, o) ∷ os) t = ground (arith, write_orders-settled os (write_order o t))

  write_wallet-settled :
      (a : Text) (d : WalletDelta) (p : WalletState × Tree Value) (t : Tree Value)
      → write_wallet lower a d t ≡ ok p
      → settled p.1 ≡ settled t
  unfolding write_wallet index_delta index_state store_wallet
  write_wallet-settled a d p t h =
      let (v, r, e) = bind-ok (apply (unwrap_or (new_wallet a) (lookup a t.wallets)) d) _ h in
      sym (ap (λ x. settled x.1) (ok_injective _ p e)) ∙ write_orders-settled d.orders _

  pub write_wallets_undo-settled :
      (ds : Map WalletDelta) (t : Tree Value) (x : Written Value)
      → write_wallets_undo lower ds t ≡ ok x
      → settled x.2 ≡ settled t
  unfolding write_wallets_undo
  write_wallets_undo-settled [] t x h = sym (ap (λ y. settled y.2) (ok_injective _ x h))
  write_wallets_undo-settled ((a, d) ∷ ds) t x h =
      let (p, r, e) = bind-ok (write_wallet lower a d t) _ h in
      let (y, s, f) = bind-ok (write_wallets_undo lower ds p.1) _ e in
      sym (ap (λ z. settled z.2) (ok_injective _ x f))
      ∙ write_wallets_undo-settled ds p.1 y s
      ∙ write_wallet-settled a d p t r

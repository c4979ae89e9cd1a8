-- ===== src/Ledger/Tally.antt =====
-- The vote index is the tally of the wallets: every write and every rollback of wallets keeps it so.
use sth_core_pq.Base.{
  ℕ, ◌<◌, ◌^◌, ◌≡◌, sym, subst, Option, none, some, [], ◌∷◌, Text, Map, lookup, insert, remove,
  insert-Unique, remove-Unique, Unique, ok, bind-ok, ok_injective, arith,
}
use sth_core_pq.Ledger.{WalletState, WalletDelta, vote_weight}
use sth_core_pq.Ledger.Tree.{Tree, UndoRecord, votes_of, adjust_votes}
use sth_core_pq.Ledger.Write.{store_wallet, write_wallet, write_wallets_undo}
use sth_core_pq.Ledger.Rollback.{restore_wallets, restore_indexes, put_previous}
use sth_core_pq.Ledger.Restore.{Written, write_wallet-stores}
use sth_core_pq.Ledger.Votes.{
  tally, tally-lookup, weight_of-none, tally-insert, tally-remove, adjust_votes_lem,
}

-- Each delegate has the weights of its voters, and they fit the u64 of the index.
pub record Tallied (votes : Map ℕ) (wallets : Map WalletState) : Type 0 where
  pub exact : (pk : Text) → votes_of pk votes ≡ tally pk wallets
  pub unique : Unique wallets

abbrev pub TallyFits : Map WalletState → Type 0
TallyFits wallets = (pk : Text) → tally pk wallets < 2 ^ 64

insert-Tallied :
    (a : Text) (w : WalletState) (votes : Map ℕ) (wallets : Map WalletState)
    → Tallied votes wallets
    → TallyFits (insert a w wallets)
    → Tallied
        (adjust_votes (vote_weight (lookup a wallets)) (vote_weight (some w)) votes)
        (insert a w wallets)
insert-Tallied a w votes wallets h f = record {
  exact = λ pk. ground (
    arith,
    h.exact pk,
    tally-insert pk a w wallets,
    adjust_votes_lem pk (vote_weight (lookup a wallets)) (vote_weight (some w)) votes
        (λ q. omega (arith, h.exact q, tally-lookup q a wallets, tally-insert q a w wallets, f q)),
  );
  unique = insert-Unique a w wallets h.unique;
}

remove-Tallied :
    (a : Text) (votes : Map ℕ) (wallets : Map WalletState)
    → Tallied votes wallets
    → TallyFits wallets
    → Tallied
        (adjust_votes (vote_weight (lookup a wallets)) (vote_weight none) votes)
        (remove a wallets)
remove-Tallied a votes wallets h f = record {
  exact = λ pk. ground (
    arith,
    h.exact pk,
    weight_of-none pk,
    tally-remove pk a wallets h.unique,
    adjust_votes_lem pk (vote_weight (lookup a wallets)) (vote_weight none) votes
        (λ q. omega (arith, h.exact q, tally-lookup q a wallets, weight_of-none q, f q)),
  );
  unique = remove-Unique a wallets h.unique;
}

along-Tallied :
    {v v' : Map ℕ} {w w' : Map WalletState} → v ≡ v' → w ≡ w' → Tallied v w → Tallied v' w'
along-Tallied {v' = v'} {w = w} ev ew h = subst (Tallied v') ew (subst (λ x. Tallied x w) ev h)

module _ {Value : Type 0} (lower : Text → Text) where
  -- No tally outgrows a u64 while the wallets are written.
  abbrev pub FitsWriting : Map WalletDelta → Tree Value → Type 0
  FitsWriting [] t = Unit {0}
  FitsWriting ((a, d) ∷ ds) t =
      (p : WalletState × Tree Value)
      → write_wallet lower a d t ≡ ok p
      → TallyFits p.1.wallets × FitsWriting ds p.1

  write_wallet-Tallied :
      (a : Text) (d : WalletDelta) (p : WalletState × Tree Value) (t : Tree Value)
      → TallyFits p.1.wallets
      → Tallied t.votes t.wallets
      → write_wallet lower a d t ≡ ok p
      → Tallied p.1.votes p.1.wallets
  unfolding store_wallet
  write_wallet-Tallied a d p t f h r =
      let (k, (same, votes)) = write_wallet-stores lower a d p.0 t p.1 r in
      let fits : TallyFits (insert a p.0 t.wallets) = subst TallyFits same f in
      along-Tallied (sym votes) (sym same) (insert-Tallied a p.0 t.votes t.wallets h fits)

  -- Writing the wallets of a block keeps the vote index equal to the tally of the voters' weights,
  -- as long as no delegate's tally outgrows a u64 on the way.
  pub write_wallets_undo-Tallied :
      (ds : Map WalletDelta) (t : Tree Value) (x : Written Value)
      → FitsWriting ds t
      → Tallied t.votes t.wallets
      → write_wallets_undo lower ds t ≡ ok x
      → Tallied x.2.votes x.2.wallets
  unfolding write_wallets_undo
  write_wallets_undo-Tallied [] t x f h e =
      subst (λ y. Tallied y.2.votes y.2.wallets) (ok_injective _ x e) h
  write_wallets_undo-Tallied ((a, d) ∷ ds) t x f h e =
      let (p, r, g) = bind-ok (write_wallet lower a d t) _ e in
      let (y, s, k) = bind-ok (write_wallets_undo lower ds p.1) _ g in
      subst (λ z. Tallied z.2.votes z.2.wallets) (ok_injective _ x k)
        (write_wallets_undo-Tallied ds p.1 y (f p r).1 (write_wallet-Tallied a d p t (f p r).0 h r)
          s)

module _ {Value : Type 0} where
  abbrev restored : Text → Option WalletState → Tree Value → Tree Value
  restored a p t = put_previous a p (restore_indexes a p t)

  -- No tally outgrows a u64 while the wallets are restored.
  abbrev pub FitsRestoring : UndoRecord → Tree Value → Type 0
  FitsRestoring [] t = Unit {0}
  FitsRestoring ((a, p) ∷ undo) t =
      TallyFits t.wallets × TallyFits (restored a p t).wallets × FitsRestoring undo (restored a p t)

  put_previous-none :
      (a : Text) (t : Tree Value)
      → ((put_previous a none t).wallets ≡ remove a t.wallets)
        × ((put_previous a none t).votes ≡ t.votes)
  unfolding put_previous
  put_previous-none a t = ground arith

  restored-Tallied :
      (a : Text) (p : Option WalletState) (t : Tree Value)
      → TallyFits t.wallets
      → TallyFits (restored a p t).wallets
      → Tallied t.votes t.wallets
      → Tallied (restored a p t).votes (restored a p t).wallets
  unfolding restore_indexes put_previous
  restored-Tallied a (some w) t f g h = insert-Tallied a w t.votes t.wallets h g
  restored-Tallied a none t f g h =
      let (w, v) = put_previous-none a (restore_indexes a none t) in
      along-Tallied (sym v) (sym w) (remove-Tallied a t.votes t.wallets h f)

  -- Restoring the wallets of an undo record keeps the vote index equal to the tally of the voters'
  -- weights, as long as no delegate's tally outgrows a u64 on the way.
  pub restore_wallets-Tallied :
      (undo : UndoRecord) (t : Tree Value)
      → FitsRestoring undo t
      → Tallied t.votes t.wallets
      → Tallied (restore_wallets undo t).votes (restore_wallets undo t).wallets
  unfolding restore_wallets
  restore_wallets-Tallied [] t f h = h
  restore_wallets-Tallied ((a, p) ∷ undo) t f h =
      restore_wallets-Tallied undo (restored a p t) f.2 (restored-Tallied a p t f.0 f.1 h)

-- ===== src/Ledger/Write.antt =====
-- src/storage.rs: `write_wallets_undo`, which applies the changes of a block to the wallets and keeps
-- the indexes, one function for each loop of it. `to_lowercase` is the standard library's on Unicode.
use sth_core_pq.Base.{
  ℕ, Bool, not, ◌&&◌, Option, none, some, List, [], ◌∷◌, ◌++◌, Text, Map, is_some, lookup, insert,
  remove, unwrap_or, if◌then◌else◌, Result, ok, ◌>>=◌,
}
use sth_core_pq.Models.{TokenState, TokenOrder}
use sth_core_pq.Round.{to_string}
use sth_core_pq.SmartObjects.{SmartObject}
use sth_core_pq.Ledger.{WalletState, WalletDelta, TokenTrade, LedgerError, new_wallet, vote_weight}
use sth_core_pq.Ledger.Apply.{apply, insert_all, remove_all, insert_locks}
use sth_core_pq.Ledger.Tree.{Tree, UndoRecord, adjust_votes, trade_key, write_order}

-- `if let Some(v) = o { t.insert(key(v), value(v)) }`
abbrev pub insert_some {ℓ κ} :
    {A : Type ℓ} {V : Type κ} → (A → Text) → (A → V) → Option A → Map V → Map V
insert_some key value none m = m
insert_some key value (some a) m = insert (key a) (value a) m

module _ {Value : Type 0} where
  -- The indexes that follow from the new state of a wallet.
  unfoldable pub index_state : Text → WalletState → Tree Value → Tree Value
  index_state address w t = record t {
    by_public_key = insert_some (λ k. k) (λ _. address) w.public_key t.by_public_key;
    by_username = insert_some (λ u. u) (λ _. address) w.username t.by_username;
    pq_commitments = insert_some (λ _. address) (λ c. c.algorithm) w.pq_commitment t.pq_commitments;
    pq_keys = insert_some (λ _. address) (λ k. k.algorithm) w.pq_key t.pq_keys;
  }

  abbrev pub write_orders : Map TokenOrder → Tree Value → Tree Value
  write_orders [] t = t
  write_orders ((id, o) ∷ os) t = write_orders os (write_order o t)

unfoldable pub write_trades : List TokenTrade → Map TokenTrade → Map TokenTrade
write_trades [] m = m
write_trades (r ∷ rs) m = write_trades rs (insert (trade_key r.token_id r.height r.seq) r m)

-- The order of a smart object is open.
unfoldable pub on_market : SmartObject → Bool
on_market r = is_some r.price && not r.resigned

unfoldable pub index_market : Text → List (Text × SmartObject) → Map Text → Map Text
index_market address [] m = m
index_market address ((id, r) ∷ rs) m =
    index_market address rs (if on_market r then insert id address m else remove id m)

unfoldable pub index_tokens : Text → List (Text × TokenState) → Map Text → Map Text
index_tokens address [] m = m
index_tokens address ((id, st) ∷ ts) m = index_tokens address ts (insert id address m)

unfoldable pub index_symbols : List (Text × TokenState) → Map Text → Map Text
index_symbols [] m = m
index_symbols ((id, st) ∷ ts) m = index_symbols ts (insert st.symbol id m)

module _ (to_lowercase : Text → Text) where
  unfoldable pub sobj_name_key : Text → ℕ → Text
  sobj_name_key name type_ = to_lowercase name ++ (b'-' ∷ to_string type_)

  unfoldable pub index_names : List (Text × SmartObject) → Map Text → Map Text
  index_names [] m = m
  index_names ((id, r) ∷ rs) m =
      index_names rs (insert_some (λ n. sobj_name_key n r.type_) (λ _. id) r.content.name m)

  module _ {Value : Type 0} where
    -- The indexes that follow from the changes.
    unfoldable pub index_delta : Text → WalletDelta → Tree Value → Tree Value
    index_delta address d t =
        let u = record t {
          locks = insert_locks d.locks_added (remove_all d.locks_removed t.locks);
          sobj_names = index_names d.sobjects t.sobj_names;
          market = index_market address d.sobjects t.market;
          token_owners = index_tokens address d.tokens_issued t.token_owners;
          token_symbols = index_symbols d.tokens_issued t.token_symbols;
          sobj_owners = insert_all d.sobj_owner t.sobj_owners;
        } in
        let v = write_orders d.orders u in record v { trades = write_trades d.trades v.trades }

    -- The wallet itself and the votes that its weight gives.
    unfoldable pub store_wallet : Text → WalletState → Tree Value → Tree Value
    store_wallet address w t = record t {
      votes = adjust_votes (vote_weight (lookup address t.wallets)) (vote_weight (some w)) t.votes;
      wallets = insert address w t.wallets;
    }

    unfoldable pub write_wallet :
        Text → WalletDelta → Tree Value → Result LedgerError (WalletState × Tree Value)
    write_wallet address d t =
        apply (unwrap_or (new_wallet address) (lookup address t.wallets)) d >>= λ w.
        ok (w, index_delta address d (index_state address w (store_wallet address w t)))

    -- The new states and, for the undo record, the old ones.
    unfoldable pub write_wallets_undo :
        Map WalletDelta
        → Tree Value
        → Result LedgerError (List WalletState × UndoRecord × Tree Value)
    write_wallets_undo [] t = ok ([], [], t)
    write_wallets_undo ((address, d) ∷ ds) t = write_wallet address d t >>= λ (w, u).
        write_wallets_undo ds u >>= λ (ws, undo, v).
        ok (w ∷ ws, (address, lookup address t.wallets) ∷ undo, v)

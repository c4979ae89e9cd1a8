-- ===== src/Ledger/Apply.antt =====
-- src/storage.rs: `WalletState::apply`, the changes of a block to one wallet.
use sth_core_pq.Base.{
  ℕ, ◌+◌, ◌^◌, Option, none, some, List, [], ◌∷◌, Text, Map, lookup, insert, remove, ltb, leb, ◌==◌,
  if◌then◌else◌, ◌||◌, unwrap_or, Result, ok, err, ◌>>=◌, ok_or, add_u64, saturating_add, u64_max,
}
use sth_core_pq.Base.Int.{ℤ, pos, negsuc, ◌+ℤ◌}
use sth_core_pq.Models.{TokenMeta, TokenState}
use sth_core_pq.Ledger.{
  LockRecord, WalletState, WalletDelta, LedgerError, balance_overflow, nonce_overflow, not_issued,
  supply_out_of_range, negative_token_balance,
}

-- `i64::try_from`
unfoldable pub to_i64 : ℤ → Result LedgerError ℤ
to_i64 (pos n) = if ltb n (2 ^ 63) then ok (pos n) else err balance_overflow
to_i64 (negsuc n) = if ltb n (2 ^ 63) then ok (negsuc n) else err balance_overflow

-- `v < 0 || v > u64::MAX` fails; otherwise the cast is exact.
unfoldable pub to_u64 : LedgerError → ℤ → Result LedgerError ℕ
to_u64 e (pos n) = if leb n u64_max then ok n else err e
to_u64 e (negsuc n) = err e

-- `checked_add`
unfoldable pub add_nonce : ℕ → ℕ → Result LedgerError ℕ
add_nonce a b = if leb (a + b) u64_max then ok (a + b) else err nonce_overflow

unfoldable pub or_first {ℓ} : {A : Type ℓ} → Option A → Option A → Option A
or_first (some a) o = some a
or_first none o = o

unfoldable pub remove_all {ℓ} : {V : Type ℓ} → List Text → Map V → Map V
remove_all [] m = m
remove_all (k ∷ ks) m = remove_all ks (remove k m)

unfoldable pub insert_all {ℓ} : {V : Type ℓ} → List (Text × V) → Map V → Map V
insert_all [] m = m
insert_all ((k, v) ∷ kvs) m = insert_all kvs (insert k v m)

unfoldable pub insert_locks : List LockRecord → Map LockRecord → Map LockRecord
insert_locks [] m = m
insert_locks (l ∷ ls) m = insert_locks ls (insert l.lock_id l m)

unfoldable pub set_meta :
    List (Text × TokenMeta) → Map TokenState → Result LedgerError (Map TokenState)
set_meta [] m = ok m
set_meta ((id, meta) ∷ rest) m = ok_or (lookup id m) not_issued >>= λ st.
    set_meta rest (insert id (record st { meta = some meta }) m)

unfoldable pub add_supply : Map ℤ → Map TokenState → Result LedgerError (Map TokenState)
add_supply [] m = ok m
add_supply ((id, change) ∷ rest) m = ok_or (lookup id m) not_issued >>= λ st.
    to_u64 supply_out_of_range (pos st.supply +ℤ change) >>= λ v.
    add_supply rest (insert id (record st { supply = v }) m)

-- A zero balance leaves the map.
unfoldable pub put_balance : Text → ℕ → Map ℕ → Map ℕ
put_balance id v m = if v == 0 then remove id m else insert id v m

unfoldable pub add_tokens : Map ℤ → Map ℕ → Result LedgerError (Map ℕ)
add_tokens [] m = ok m
add_tokens ((id, change) ∷ rest) m =
    to_u64 negative_token_balance (pos (unwrap_or 0 (lookup id m)) +ℤ change) >>= λ v.
    add_tokens rest (put_balance id v m)

-- A registered PQ key replaces the second public key.
abbrev pub second_key_after : WalletDelta → Option Text → Option Text
second_key_after d k = elim (d.pq_key) [ none ↦ or_first d.second_public_key k | some q ↦ none ]

unfoldable pub apply : WalletState → WalletDelta → Result LedgerError WalletState
apply w d = to_i64 (w.balance +ℤ d.balance) >>= λ balance. add_nonce w.nonce d.nonce >>= λ nonce.
    set_meta d.token_meta (insert_all d.tokens_issued w.tokens_issued) >>= λ described.
    add_supply d.token_supply described >>= λ issued. add_tokens d.tokens w.tokens >>= λ tokens.
    ok (record {
      address = w.address;
      public_key = or_first w.public_key d.public_key;
      balance = balance;
      nonce = nonce;
      username = or_first d.username w.username;
      vote = unwrap_or w.vote d.vote;
      second_public_key = second_key_after d w.second_public_key;
      produced_blocks = add_u64 w.produced_blocks d.produced_blocks;
      forged_fees = saturating_add w.forged_fees d.forged_fees;
      forged_rewards = saturating_add w.forged_rewards d.forged_rewards;
      last_block = or_first d.last_block w.last_block;
      resigned = d.resigned || w.resigned;
      locks = insert_locks d.locks_added (remove_all d.locks_removed w.locks);
      multi_signature = or_first d.multi_signature w.multi_signature;
      sobjects = insert_all d.sobjects (remove_all d.sobjects_removed w.sobjects);
      pq_commitment = or_first d.pq_commitment w.pq_commitment;
      pq_key = or_first d.pq_key w.pq_key;
      tokens = tokens;
      tokens_issued = remove_all d.tokens_removed issued;
    })

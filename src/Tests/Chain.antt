-- ===== src/Tests/Chain.antt =====
-- A block on a small chain. `Unit` stands for the JSON values; hex, ripemd160 and base58 are the
-- identity, so an address is a zero and the key.
use sth_core_pq.Base.{
  List, ◌++◌, take, drop, ℕ, ◌+◌, ◌^◌, ◌≡◌, ◌≤◌, ◌<◌, refl, true, false, none, some, Option, [],
  ◌∷◌, Text, Map, lookup, insert, remove, text_eq, ascii, Result, ok, err, ok_injective, subst,
  arith,
}
use sth_core_pq.Base.Int.{ℤ, pos, pos_part, negsuc, ◌+ℤ◌, ◌-ℤ◌}
use sth_core_pq.Bytes.{to_le_bytes, from_le_bytes}
use sth_core_pq.Models.{Transaction, Block, is_token, token_asset}
use sth_core_pq.SmartObjects.{Codecs}
use sth_core_pq.SmartObjects.Format.{sobj_asset, is_sobj}
use sth_core_pq.Ledger.{
  WalletState, WalletDelta, new_wallet, no_delta, vote_weight, locked_balance, sum_locks,
  LedgerError, negative_token_balance,
}
use sth_core_pq.Ledger.Apply.{
  to_i64, to_u64, add_nonce, or_first, remove_all, insert_all, insert_locks, set_meta, add_supply,
  put_balance, add_tokens, apply,
}
use sth_core_pq.Ledger.Env.{Env, tx_addresses, address_from_public_key}
use sth_core_pq.Ledger.Tree.{
  FinalityCert, Tree, to_be_bytes, height_key, trade_key, book_key, seller_key, tx_order_key,
  same_vote, add_votes, move_votes, adjust_votes, write_order,
}
use sth_core_pq.Ledger.Write.{
  index_state, write_trades, on_market, index_market, index_tokens, index_symbols, sobj_name_key,
  index_names, index_delta, store_wallet, write_wallet, write_wallets_undo,
}
use sth_core_pq.Ledger.Rollback.{
  remove_keys, latest_cert, drop_cert, drop_fill, insert_open, put_locks, drop_market, put_previous,
  restore_indexes, restore_wallets, reopened, drop_order, reopen, undo_order, put_owner,
  prev_owners, count_ids,
}
use sth_core_pq.Ledger.Tip.{
  tip, index_addresses, check_tip, bump_tx_count, raise_tip, put_undo, index_tx, index_txs,
  write_block, write_blocks, apply_locked,
}
use sth_core_pq.Ledger.Deltas.{
  Deltas, change, pay, charge, add_to, take_off, gain, lose, find_last, has_key, without,
  find_address, find_tx, find_in_batch, get_transaction, find_lock, stored_object, stored_token,
  object_owner, get_sobject,
}
use sth_core_pq.Ledger.Core.{
  core_type, split_colon, parse_commitment, set_vote, set_votes, pay_all, set_username, commit,
  register_key, resign, set_multi, add_lock, remove_lock, commit_effect, transfer_effect,
  lock_effect, claim_lock, refund_lock, multi_effect, core_effect,
}
use sth_core_pq.Ledger.Effects.{object_effect}
use sth_core_pq.Ledger.Market.{token_effect}
use sth_core_pq.Ledger.Accumulate.{
  debit_sender, tx_effect, accumulate_tx, accumulate_txs, count_inits, burned, forged, pay_burn,
  accumulate_deltas,
}
use sth_core_pq.Ledger.Flows.{total}
use sth_core_pq.Ledger.Supply.{taken_all, paid_out_all, accumulate_deltas-total}
use sth_core_pq.Ledger.Codec.{
  encode_block, encode_txs, frame, decode_block, decode_txs, next_frame, get_block_by_height,
}
use sth_core_pq.Ledger.Money.{money, apply_locked-money}
use sth_core_pq.Ledger.Exact.{Applied, apply-Applied}
use sth_core_pq.Ledger.Tokens.{balance_in, add_tokens-Misfit, OutOfU64}
use sth_core_pq.Ledger.Undo.{rollback_last_block, rollback_to}
use sth_core_pq.Ledger.Return.{rollback_to-returns}
use sth_core_pq.Ledger.Restore.{Written}
use sth_core_pq.Ledger.Votes.{tally}
use sth_core_pq.Ledger.Tally.{
  Tallied, TallyFits, FitsWriting, write_wallets_undo-Tallied, restore_wallets-Tallied,
}
use sth_core_pq.Ledger.Inverse.{rollback_last_block-apply_locked}

abbrev codecs : Codecs (Unit {0})
codecs = record {
  bs58 = λ s. none;
  bs58_check = λ s. none;
  hex = λ s. none;
  from_value = λ v. none;
}

abbrev alice_key : Text
alice_key = ascii "aaaaaaaaaaaaaaaaaaaaaaaaaaaaaaaaa"

abbrev pub alice : Text
alice = 0 ∷ alice_key

abbrev bob : Text
bob = ascii "bob"

abbrev payment : Transaction (Unit {0})
payment = record {
  version = 2;
  network = none;
  type_group = 1;
  type_ = 0;
  nonce = some 1;
  sender_public_key = alice_key;
  fee = 1;
  amount = 10;
  vendor_field = none;
  expiration = none;
  recipient_id = some bob;
  asset = none;
  signature = none;
  second_signature = none;
  sign_signature = none;
  signatures = none;
  second_signatures = none;
  timestamp = none;
  id = some (ascii "t1");
  block_id = none;
  block_height = none;
  sequence = none;
}

abbrev pub block : Block (Unit {0})
block = record {
  id = some (ascii "b2");
  version = 0;
  timestamp = 16;
  previous_block = ascii "b1";
  height = 2;
  number_of_transactions = 1;
  total_amount = 10;
  total_fee = 1;
  reward = 5;
  payload_length = 0;
  payload_hash = [];
  generator_public_key = alice_key;
  block_signature = none;
  pq_signature = none;
  transactions = payment ∷ [];
}

-- The codec of this chain keeps the height and the time of a block, and the amount and the sender of
-- a transaction, and no more.
abbrev pub env : Env (Unit {0})
env = record {
  hex = λ s. some s;
  ripemd160 = λ l. l;
  bs58_check = λ l. l;
  pubkey_hash = 0;
  multi_address = λ m. none;
  to_lowercase = λ s. s;
  codecs = codecs;
  token_from_value = λ v. none;
  milestone = λ h. record {
    active_delegates = 3;
    blocktime = 8;
    finality_active = false;
    finality_slashing = false;
    init_burn = 0;
  };
  burn_address = [];
  serialize_block = λ b. ok (to_le_bytes 4 b.height ++ to_le_bytes 4 b.timestamp);
  serialize_transaction = λ tx. ok (to_le_bytes 4 tx.amount ++ tx.sender_public_key);
  deserialize_block_header = λ bytes. ok (record block {
    height = from_le_bytes (take 4 bytes);
    timestamp = from_le_bytes (drop 4 bytes);
    transactions = [];
  });
  deserialize_transaction = λ bytes.
      ok (record payment {
        amount = from_le_bytes (take 4 bytes);
        sender_public_key = drop 4 bytes;
      });
  block_id = λ b. ok [];
  transaction_id = λ tx. ok [];
}

abbrev pub before : Tree (Unit {0})
before = record {
  wallets = (alice, record (new_wallet alice) { balance = pos 100; vote = some (ascii "d") }) ∷ [];
  by_public_key = [];
  by_username = [];
  votes = (ascii "d", 100) ∷ [];
  pq_commitments = [];
  pq_keys = [];
  locks = [];
  sobj_names = [];
  sobj_owners = [];
  market = [];
  token_owners = [];
  token_symbols = [];
  orders = [];
  book = [];
  seller_orders = [];
  trades = [];
  blocks = [];
  block_ids = (ascii "b1", 1) ∷ [];
  txs = [];
  tx_list = [];
  wallet_txs = [];
  tx_count = some 3;
  last_height = some 1;
  undo = [];
  rounds = [];
  finality = [];
  equivocations = [];
  missed_at = [];
  missed_total = [];
}

abbrev pub or_else {ℓ κ} : {E : Type ℓ} {A : Type κ} → A → Result E A → A
or_else a (ok b) = b
or_else a (err e) = a

abbrev changes : Deltas
changes = or_else [] (accumulate_deltas env before block (block ∷ []) [])

abbrev encoded : List ℕ
encoded = or_else [] (encode_block env block)

abbrev decoded : Block (Unit {0})
decoded = or_else block (decode_block env encoded)

abbrev after : Tree (Unit {0})
after = or_else before (apply_locked env (block, encoded) [] changes true before)

wallet_fits :
    (w : WalletState)
    → locked_balance w < 2 ^ 62
    → pos_part w.balance < 2 ^ 62
    → TallyFits ((alice, w) ∷ [])
unfolding tally vote_weight
wallet_fits w h k pk = ground (arith, h, k)

none_not_some : (c : FinalityCert) → Path (Option FinalityCert) none (some c) → ⊥
none_not_some c h = cc

apply_locked-money_example :
    money after.wallets +ℤ pos (taken_all env before block (block ∷ []) (payment ∷ []))
    ≡ money before.wallets
      +ℤ pos (5 + 1 + paid_out_all env before block (block ∷ []) (payment ∷ []))
unfolding to_i64 to_u64 add_nonce or_first remove_all insert_all insert_locks set_meta add_supply
    put_balance add_tokens apply to_be_bytes height_key trade_key book_key seller_key tx_order_key
    same_vote add_votes move_votes adjust_votes write_order index_state write_trades on_market
    index_market index_tokens index_symbols sobj_name_key index_names index_delta store_wallet
    write_wallet write_wallets_undo remove_keys latest_cert drop_cert drop_fill insert_open
    put_locks drop_market put_previous restore_indexes restore_wallets reopened drop_order reopen
    undo_order put_owner prev_owners count_ids index_addresses check_tip bump_tx_count raise_tip
    put_undo index_tx index_txs write_block write_blocks apply_locked encode_block encode_txs frame
    decode_block decode_txs next_frame get_block_by_height from_le_bytes change pay charge add_to
    take_off gain lose find_last has_key without find_address find_tx find_in_batch get_transaction
    find_lock stored_object stored_token object_owner get_sobject core_type split_colon
    parse_commitment set_vote set_votes pay_all set_username commit register_key resign set_multi
    add_lock remove_lock commit_effect transfer_effect lock_effect claim_lock refund_lock
    multi_effect core_effect debit_sender tx_effect accumulate_tx accumulate_txs count_inits burned
    forged pay_burn accumulate_deltas new_wallet no_delta vote_weight locked_balance sum_locks
    tx_addresses address_from_public_key to_le_bytes lookup insert remove text_eq ◌+ℤ◌ ◌-ℤ◌
    object_effect token_effect is_token token_asset sobj_asset is_sobj total money taken_all
apply_locked-money_example =
    apply_locked-money env block encoded changes before after (omega arith) refl refl

accumulate_deltas-total_example :
    total changes +ℤ pos (taken_all env before block (block ∷ []) (payment ∷ []))
    ≡ total [] +ℤ pos (5 + 1 + paid_out_all env before block (block ∷ []) (payment ∷ []))
unfolding to_i64 to_u64 add_nonce or_first remove_all insert_all insert_locks set_meta add_supply
    put_balance add_tokens apply to_be_bytes height_key trade_key book_key seller_key tx_order_key
    same_vote add_votes move_votes adjust_votes write_order index_state write_trades on_market
    index_market index_tokens index_symbols sobj_name_key index_names index_delta store_wallet
    write_wallet write_wallets_undo remove_keys latest_cert drop_cert drop_fill insert_open
    put_locks drop_market put_previous restore_indexes restore_wallets reopened drop_order reopen
    undo_order put_owner prev_owners count_ids index_addresses check_tip bump_tx_count raise_tip
    put_undo index_tx index_txs write_block write_blocks apply_locked encode_block encode_txs frame
    decode_block decode_txs next_frame get_block_by_height from_le_bytes change pay charge add_to
    take_off gain lose find_last has_key without find_address find_tx find_in_batch get_transaction
    find_lock stored_object stored_token object_owner get_sobject core_type split_colon
    parse_commitment set_vote set_votes pay_all set_username commit register_key resign set_multi
    add_lock remove_lock commit_effect transfer_effect lock_effect claim_lock refund_lock
    multi_effect core_effect debit_sender tx_effect accumulate_tx accumulate_txs count_inits burned
    forged pay_burn accumulate_deltas new_wallet no_delta vote_weight locked_balance sum_locks
    tx_addresses address_from_public_key to_le_bytes lookup insert remove text_eq ◌+ℤ◌ ◌-ℤ◌
    object_effect token_effect is_token token_asset sobj_asset is_sobj total money taken_all
accumulate_deltas-total_example =
    accumulate_deltas-total env before block (block ∷ []) [] changes refl

rollback_last_block-apply_locked_example :
    (u : Tree (Unit {0})) × (rollback_last_block env after ≡ (ok 1, u))
    × (tip u ≡ 1)
    × ((address : Text) → lookup address u.wallets ≡ lookup address before.wallets)
unfolding to_i64 to_u64 add_nonce or_first remove_all insert_all insert_locks set_meta add_supply
    put_balance add_tokens apply to_be_bytes height_key trade_key book_key seller_key tx_order_key
    same_vote add_votes move_votes adjust_votes write_order index_state write_trades on_market
    index_market index_tokens index_symbols sobj_name_key index_names index_delta store_wallet
    write_wallet write_wallets_undo remove_keys latest_cert drop_cert drop_fill insert_open
    put_locks drop_market put_previous restore_indexes restore_wallets reopened drop_order reopen
    undo_order put_owner prev_owners count_ids index_addresses check_tip bump_tx_count raise_tip
    put_undo index_tx index_txs write_block write_blocks apply_locked encode_block encode_txs frame
    decode_block decode_txs next_frame get_block_by_height from_le_bytes change pay charge add_to
    take_off gain lose find_last has_key without find_address find_tx find_in_batch get_transaction
    find_lock stored_object stored_token object_owner get_sobject core_type split_colon
    parse_commitment set_vote set_votes pay_all set_username commit register_key resign set_multi
    add_lock remove_lock commit_effect transfer_effect lock_effect claim_lock refund_lock
    multi_effect core_effect debit_sender tx_effect accumulate_tx accumulate_txs count_inits burned
    forged pay_burn accumulate_deltas new_wallet no_delta vote_weight locked_balance sum_locks
    tx_addresses address_from_public_key to_le_bytes lookup insert remove text_eq ◌+ℤ◌ ◌-ℤ◌
    object_effect token_effect is_token token_asset sobj_asset is_sobj total money taken_all
rollback_last_block-apply_locked_example =
    rollback_last_block-apply_locked env block decoded encoded changes before after
      (refl, (refl, tt)) (omega arith) (omega arith) (λ c e. absurd (none_not_some c e)) refl
      ((alice, refl), tt) refl

rollback_to-returns_example :
    (r : Result LedgerError ℕ × Tree (Unit {0})) × (rollback_to env 1 after ≡ some r)
    × ((n : ℕ) → r.0 ≡ ok n → (tip r.1 ≡ n) × (n ≤ 1))
rollback_to-returns_example = rollback_to-returns env 1 after

abbrev wallet : WalletState
wallet = record (new_wallet alice) { balance = pos 100; tokens = (ascii "gold", 7) ∷ [] }

abbrev spend : WalletDelta
spend = record no_delta { balance = negsuc 9; nonce = 1; tokens = (ascii "gold", negsuc 6) ∷ [] }

abbrev overspend : Map ℤ
overspend = (ascii "gold", negsuc 7) ∷ []

apply-Applied_example : Applied wallet spend (or_else wallet (apply wallet spend))
unfolding to_i64 to_u64 add_nonce or_first remove_all insert_all insert_locks set_meta add_supply
    put_balance add_tokens apply to_be_bytes height_key trade_key book_key seller_key tx_order_key
    same_vote add_votes move_votes adjust_votes write_order index_state write_trades on_market
    index_market index_tokens index_symbols sobj_name_key index_names index_delta store_wallet
    write_wallet write_wallets_undo remove_keys latest_cert drop_cert drop_fill insert_open
    put_locks drop_market put_previous restore_indexes restore_wallets reopened drop_order reopen
    undo_order put_owner prev_owners count_ids index_addresses check_tip bump_tx_count raise_tip
    put_undo index_tx index_txs write_block write_blocks apply_locked encode_block encode_txs frame
    decode_block decode_txs next_frame get_block_by_height from_le_bytes change pay charge add_to
    take_off gain lose find_last has_key without find_address find_tx find_in_batch get_transaction
    find_lock stored_object stored_token object_owner get_sobject core_type split_colon
    parse_commitment set_vote set_votes pay_all set_username commit register_key resign set_multi
    add_lock remove_lock commit_effect transfer_effect lock_effect claim_lock refund_lock
    multi_effect core_effect debit_sender tx_effect accumulate_tx accumulate_txs count_inits burned
    forged pay_burn accumulate_deltas new_wallet no_delta vote_weight locked_balance sum_locks
    tx_addresses address_from_public_key to_le_bytes lookup insert remove text_eq ◌+ℤ◌ ◌-ℤ◌
    object_effect token_effect is_token token_asset sobj_asset is_sobj total money taken_all
apply-Applied_example =
    apply-Applied wallet (or_else wallet (apply wallet spend)) spend (refl, tt) refl

add_tokens-Misfit_example :
    (id : Text) × (c : ℤ) × (lookup id overspend ≡ some c)
    × OutOfU64 (pos (balance_in id wallet.tokens) +ℤ c)
    × (negative_token_balance ≡ negative_token_balance)
unfolding to_i64 to_u64 add_nonce or_first remove_all insert_all insert_locks set_meta add_supply
    put_balance add_tokens apply to_be_bytes height_key trade_key book_key seller_key tx_order_key
    same_vote add_votes move_votes adjust_votes write_order index_state write_trades on_market
    index_market index_tokens index_symbols sobj_name_key index_names index_delta store_wallet
    write_wallet write_wallets_undo remove_keys latest_cert drop_cert drop_fill insert_open
    put_locks drop_market put_previous restore_indexes restore_wallets reopened drop_order reopen
    undo_order put_owner prev_owners count_ids index_addresses check_tip bump_tx_count raise_tip
    put_undo index_tx index_txs write_block write_blocks apply_locked encode_block encode_txs frame
    decode_block decode_txs next_frame get_block_by_height from_le_bytes change pay charge add_to
    take_off gain lose find_last has_key without find_address find_tx find_in_batch get_transaction
    find_lock stored_object stored_token object_owner get_sobject core_type split_colon
    parse_commitment set_vote set_votes pay_all set_username commit register_key resign set_multi
    add_lock remove_lock commit_effect transfer_effect lock_effect claim_lock refund_lock
    multi_effect core_effect debit_sender tx_effect accumulate_tx accumulate_txs count_inits burned
    forged pay_burn accumulate_deltas new_wallet no_delta vote_weight locked_balance sum_locks
    tx_addresses address_from_public_key to_le_bytes lookup insert remove text_eq ◌+ℤ◌ ◌-ℤ◌
    object_effect token_effect is_token token_asset sobj_asset is_sobj total money taken_all
add_tokens-Misfit_example =
    add_tokens-Misfit overspend wallet.tokens negative_token_balance (refl, tt) refl

abbrev earned : Map WalletDelta
earned = (alice, record no_delta { balance = pos 5 }) ∷ []

abbrev written : Written (Unit {0})
written = or_else ([], [], before) (write_wallets_undo (λ s. s) earned before)

before-Tallied : Tallied before.votes before.wallets
unfolding tally vote_weight locked_balance sum_locks lookup new_wallet
before-Tallied = record { exact = λ pk. ground arith; unique = (refl, tt) }

fits_writing : FitsWriting (λ s. s) earned before
unfolding to_i64 to_u64 add_nonce or_first remove_all insert_all insert_locks set_meta add_supply
    put_balance add_tokens apply to_be_bytes height_key trade_key book_key seller_key tx_order_key
    same_vote add_votes move_votes adjust_votes write_order index_state write_trades on_market
    index_market index_tokens index_symbols sobj_name_key index_names index_delta store_wallet
    write_wallet write_wallets_undo remove_keys latest_cert drop_cert drop_fill insert_open
    put_locks drop_market put_previous restore_indexes restore_wallets reopened drop_order reopen
    undo_order put_owner prev_owners count_ids index_addresses check_tip bump_tx_count raise_tip
    put_undo index_tx index_txs write_block write_blocks apply_locked encode_block encode_txs frame
    decode_block decode_txs next_frame get_block_by_height from_le_bytes change pay charge add_to
    take_off gain lose find_last has_key without find_address find_tx find_in_batch get_transaction
    find_lock stored_object stored_token object_owner get_sobject core_type split_colon
    parse_commitment set_vote set_votes pay_all set_username commit register_key resign set_multi
    add_lock remove_lock commit_effect transfer_effect lock_effect claim_lock refund_lock
    multi_effect core_effect debit_sender tx_effect accumulate_tx accumulate_txs count_inits burned
    forged pay_burn accumulate_deltas new_wallet no_delta vote_weight locked_balance sum_locks
    tx_addresses address_from_public_key to_le_bytes lookup insert remove text_eq ◌+ℤ◌ ◌-ℤ◌
    object_effect token_effect is_token token_asset sobj_asset is_sobj total money taken_all
fits_writing p h =
    subst (λ x. TallyFits x.1.wallets × Unit {0}) (ok_injective _ p h)
      (wallet_fits _ (omega arith) (omega arith), tt)

write_wallets_undo-Tallied_example : Tallied written.2.votes written.2.wallets
unfolding to_i64 to_u64 add_nonce or_first remove_all insert_all insert_locks set_meta add_supply
    put_balance add_tokens apply to_be_bytes height_key trade_key book_key seller_key tx_order_key
    same_vote add_votes move_votes adjust_votes write_order index_state write_trades on_market
    index_market index_tokens index_symbols sobj_name_key index_names index_delta store_wallet
    write_wallet write_wallets_undo remove_keys latest_cert drop_cert drop_fill insert_open
    put_locks drop_market put_previous restore_indexes restore_wallets reopened drop_order reopen
    undo_order put_owner prev_owners count_ids index_addresses check_tip bump_tx_count raise_tip
    put_undo index_tx index_txs write_block write_blocks apply_locked encode_block encode_txs frame
    decode_block decode_txs next_frame get_block_by_height from_le_bytes change pay charge add_to
    take_off gain lose find_last has_key without find_address find_tx find_in_batch get_transaction
    find_lock stored_object stored_token object_owner get_sobject core_type split_colon
    parse_commitment set_vote set_votes pay_all set_username commit register_key resign set_multi
    add_lock remove_lock commit_effect transfer_effect lock_effect claim_lock refund_lock
    multi_effect core_effect debit_sender tx_effect accumulate_tx accumulate_txs count_inits burned
    forged pay_burn accumulate_deltas new_wallet no_delta vote_weight locked_balance sum_locks
    tx_addresses address_from_public_key to_le_bytes lookup insert remove text_eq ◌+ℤ◌ ◌-ℤ◌
    object_effect token_effect is_token token_asset sobj_asset is_sobj total money taken_all
write_wallets_undo-Tallied_example =
    write_wallets_undo-Tallied (λ s. s) earned before written fits_writing before-Tallied refl

restore_wallets-Tallied_example :
    Tallied
      (restore_wallets written.1 written.2).votes
      (restore_wallets written.1 written.2).wallets
unfolding to_i64 to_u64 add_nonce or_first remove_all insert_all insert_locks set_meta add_supply
    put_balance add_tokens apply to_be_bytes height_key trade_key book_key seller_key tx_order_key
    same_vote add_votes move_votes adjust_votes write_order index_state write_trades on_market
    index_market index_tokens index_symbols sobj_name_key index_names index_delta store_wallet
    write_wallet write_wallets_undo remove_keys latest_cert drop_cert drop_fill insert_open
    put_locks drop_market put_previous restore_indexes restore_wallets reopened drop_order reopen
    undo_order put_owner prev_owners count_ids index_addresses check_tip bump_tx_count raise_tip
    put_undo index_tx index_txs write_block write_blocks apply_locked encode_block encode_txs frame
    decode_block decode_txs next_frame get_block_by_height from_le_bytes change pay charge add_to
    take_off gain lose find_last has_key without find_address find_tx find_in_batch get_transaction
    find_lock stored_object stored_token object_owner get_sobject core_type split_colon
    parse_commitment set_vote set_votes pay_all set_username commit register_key resign set_multi
    add_lock remove_lock commit_effect transfer_effect lock_effect claim_lock refund_lock
    multi_effect core_effect debit_sender tx_effect accumulate_tx accumulate_txs count_inits burned
    forged pay_burn accumulate_deltas new_wallet no_delta vote_weight locked_balance sum_locks
    tx_addresses address_from_public_key to_le_bytes lookup insert remove text_eq ◌+ℤ◌ ◌-ℤ◌
    object_effect token_effect is_token token_asset sobj_asset is_sobj total money taken_all
restore_wallets-Tallied_example =
    restore_wallets-Tallied written.1 written.2
      (wallet_fits _ (omega arith) (omega arith), wallet_fits _ (omega arith) (omega arith), tt)
      write_wallets_undo-Tallied_example

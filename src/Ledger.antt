-- ===== src/Ledger.antt =====
-- src/storage.rs: the state of the chain. The sled tree is a record with one map for each key prefix;
-- a value that the tree holds as JSON is the value itself, and the key of a map is what follows the
-- prefix. A map is an association list, whose order stands for the iteration order of a `BTreeMap`.
-- An i64 or i128 is a signed integer; the range checks of the source are written out.
use sth_core_pq.Base.{
  ℕ, ◌+◌, ◌%◌, ◌^◌, Bool, false, Option, none, some, List, [], ◌∷◌, Text, Map, is_some, add_u64,
}
use sth_core_pq.Base.Int.{ℤ, pos, pos_part}
use sth_core_pq.Models.{
  HtlcExpiration, MultiSignatureAsset, TokenMeta, TokenState, TokenOrder, Transaction, Block,
}
use sth_core_pq.SmartObjects.{SmartObject}
use sth_core_pq.Signatures.{PqCommitment, PqKey}
pub mod Apply
pub mod Tokens
pub mod Exact
pub mod Tree
pub mod Write
pub mod Votes
pub mod Env
pub mod Codec
pub mod Rollback
pub mod Tip
pub mod Undo
pub mod Restore
pub mod Frames
pub mod Added
pub mod Inverse
pub mod Stale
pub mod Tally
pub mod Deltas
pub mod Effects
pub mod Market
pub mod Core
pub mod Accumulate
pub mod Flows
pub mod Conserve
pub mod ConserveTokens
pub mod Conservation
pub mod Supply
pub mod Money
pub mod Return
pub mod Ranking
pub mod Order
pub mod Active
pub mod Snapshot
pub mod Search
pub mod Missed

pub record LockRecord : Type 0 where
  pub lock_id : Text
  pub sender_public_key : Text
  pub recipient_id : Text
  pub amount : ℕ
  pub secret_hash : Text
  pub expiration : HtlcExpiration
  pub timestamp : ℕ
  pub vendor_field : Option Text

pub record LastBlock : Type 0 where
  pub id : Text
  pub height : ℕ
  pub timestamp : ℕ

pub record WalletState : Type 0 where
  pub address : Text
  pub public_key : Option Text
  pub balance : ℤ
  pub nonce : ℕ
  pub username : Option Text
  pub vote : Option Text
  pub second_public_key : Option Text
  pub produced_blocks : ℕ
  pub forged_fees : ℕ
  pub forged_rewards : ℕ
  pub last_block : Option LastBlock
  pub resigned : Bool
  pub locks : Map LockRecord
  pub multi_signature : Option MultiSignatureAsset
  pub sobjects : Map SmartObject
  pub pq_commitment : Option PqCommitment
  pub pq_key : Option PqKey
  pub tokens : Map ℕ
  pub tokens_issued : Map TokenState

-- `WalletState::new`
unfoldable pub new_wallet : Text → WalletState
new_wallet address = record {
  address = address;
  public_key = none;
  balance = pos 0;
  nonce = 0;
  username = none;
  vote = none;
  second_public_key = none;
  produced_blocks = 0;
  forged_fees = 0;
  forged_rewards = 0;
  last_block = none;
  resigned = false;
  locks = [];
  multi_signature = none;
  sobjects = [];
  pq_commitment = none;
  pq_key = none;
  tokens = [];
  tokens_issued = [];
}

unfoldable pub is_delegate : WalletState → Bool
is_delegate w = is_some w.username

unfoldable pub sum_locks : Map LockRecord → ℕ
sum_locks [] = 0
sum_locks ((id, l) ∷ ls) = add_u64 l.amount (sum_locks ls)

unfoldable pub locked_balance : WalletState → ℕ
locked_balance w = sum_locks w.locks

-- The voted delegate and the weight. The sum is a u64.
unfoldable pub vote_weight : Option WalletState → Option (Text × ℕ)
vote_weight none = none
vote_weight (some w) = elim (w.vote) [
  | none ↦ none
  | some pk ↦ some (pk, add_u64 (pos_part w.balance) (locked_balance w))
]

pub record TokenTrade : Type 0 where
  pub tx_id : Text
  pub order_id : Text
  pub token_id : Text
  pub buyer : Text
  pub seller : Text
  pub amount : ℕ
  pub price : ℕ
  pub total : ℕ
  pub height : ℕ
  pub seq : ℕ
  pub timestamp : ℕ

pub record WalletDelta : Type 0 where
  pub balance : ℤ
  pub nonce : ℕ
  pub public_key : Option Text
  pub username : Option Text
  pub vote : Option (Option Text)
  pub second_public_key : Option Text
  pub produced_blocks : ℕ
  pub forged_fees : ℕ
  pub forged_rewards : ℕ
  pub last_block : Option LastBlock
  pub resigned : Bool
  pub locks_added : List LockRecord
  pub locks_removed : List Text
  pub multi_signature : Option MultiSignatureAsset
  pub sobjects : List (Text × SmartObject)
  pub sobjects_removed : List Text
  pub tokens_removed : List Text
  pub sobj_owner : List (Text × Text)
  pub pq_commitment : Option PqCommitment
  pub pq_key : Option PqKey
  pub tokens : Map ℤ
  pub tokens_issued : List (Text × TokenState)
  pub token_supply : Map ℤ
  pub token_meta : List (Text × TokenMeta)
  pub orders : Map TokenOrder
  pub trades : List TokenTrade

-- `WalletDelta::default()`
unfoldable pub no_delta : WalletDelta
no_delta = record {
  balance = pos 0;
  nonce = 0;
  public_key = none;
  username = none;
  vote = none;
  second_public_key = none;
  produced_blocks = 0;
  forged_fees = 0;
  forged_rewards = 0;
  last_block = none;
  resigned = false;
  locks_added = [];
  locks_removed = [];
  multi_signature = none;
  sobjects = [];
  sobjects_removed = [];
  tokens_removed = [];
  sobj_owner = [];
  pq_commitment = none;
  pq_key = none;
  tokens = [];
  tokens_issued = [];
  token_supply = [];
  token_meta = [];
  orders = [];
  trades = [];
}

-- The errors, each for what its message says.
pub data LedgerError : Type 0 where
  balance_overflow : LedgerError
  nonce_overflow : LedgerError
  not_issued : LedgerError
  supply_out_of_range : LedgerError
  negative_token_balance : LedgerError
  order_not_found : LedgerError
  stale_tip : LedgerError
  stale_previous : LedgerError
  genesis : LedgerError
  finality_violation : LedgerError
  block_not_found : LedgerError
  no_undo_record : LedgerError
  bad_public_key : LedgerError
  bad_block : LedgerError
  corrupt_record : LedgerError
  truncated_record : LedgerError
  empty_record : LedgerError

-- ===== src/Models.antt =====
-- src/models/transaction.rs and the token state of src/storage.rs, src/rules.rs and src/config.rs: the
-- data the token rules read. A transaction's asset keeps the fields that are JSON objects read later
-- as `extra`; `Value` is serde_json's value type and `from_value` its reading of a `TokenAsset`.
use sth_core_pq.Base.{
  ℕ, ◌+◌, ◌/◌, Bool, ◌&&◌, not, Option, none, some, List, [], ◌∷◌, length, Text, Map, lookup, ascii,
  ◌==◌, leb, if◌then◌else◌, unwrap_or, add_u64, saturating_mul,
}
use Prim.Native.Nat.{bit_and}

pub record TokenMeta : Type 0 where
  pub name : Text
  pub description : Option Text
  pub website : Option Text
  pub logo_type : Option Text
  pub logo : Option Text

pub record TokenTransferItem : Type 0 where
  pub recipient_id : Text
  pub amount : ℕ

pub record TokenAsset : Type 0 where
  pub id : Text
  pub decimals : Option ℕ
  pub flags : Option ℕ
  pub initial_supply : Option ℕ
  pub supply_cap : Option ℕ
  pub transfers : Option (List TokenTransferItem)
  pub memo : Option Text
  pub amount : Option ℕ
  pub recipient_id : Option Text
  pub meta : Option TokenMeta
  pub price : Option ℕ
  pub order_id : Option Text

pub record PqSignatureBlock : Type 0 where
  pub algorithm : ℕ
  pub signature : Text

pub record SecondSignatureAsset : Type 0 where
  pub public_key : Text
  pub algorithm : Option ℕ

pub record MultiSignatureAsset : Type 0 where
  pub min : ℕ
  pub public_keys : List Text

pub record Payment : Type 0 where
  pub amount : ℕ
  pub recipient_id : Text

pub record HtlcExpiration : Type 0 where
  pub type_ : ℕ
  pub value : ℕ

pub record HtlcLockAsset : Type 0 where
  pub secret_hash : Text
  pub expiration : HtlcExpiration

pub record HtlcClaimAsset : Type 0 where
  pub lock_transaction_id : Text
  pub unlock_secret : Text

-- `delegate` and `refund` are the one field of `DelegateAsset` and of `HtlcRefundAsset`.
pub record TransactionAsset (Value : Type 0) : Type 0 where
  pub votes : Option (List Text)
  pub delegate : Option Text
  pub signature : Option SecondSignatureAsset
  pub multi_signature : Option MultiSignatureAsset
  pub payments : Option (List Payment)
  pub ipfs : Option Text
  pub lock : Option HtlcLockAsset
  pub claim : Option HtlcClaimAsset
  pub refund : Option Text
  pub extra : Map Value

abbrev pub no_asset : {Value : Type 0} → TransactionAsset Value
no_asset = record {
  votes = none;
  delegate = none;
  signature = none;
  multi_signature = none;
  payments = none;
  ipfs = none;
  lock = none;
  claim = none;
  refund = none;
  extra = [];
}

pub record Transaction (Value : Type 0) : Type 0 where
  pub version : ℕ
  pub network : Option ℕ
  pub type_group : ℕ
  pub type_ : ℕ
  pub nonce : Option ℕ
  pub sender_public_key : Text
  pub fee : ℕ
  pub amount : ℕ
  pub vendor_field : Option Text
  pub expiration : Option ℕ
  pub recipient_id : Option Text
  pub asset : Option (TransactionAsset Value)
  pub signature : Option Text
  pub second_signature : Option Text
  pub sign_signature : Option Text
  pub signatures : Option (List Text)
  pub second_signatures : Option (List PqSignatureBlock)
  pub timestamp : Option ℕ
  pub id : Option Text
  pub block_id : Option Text
  pub block_height : Option ℕ
  pub sequence : Option ℕ

-- `models/block.rs`
pub record Block (Value : Type 0) : Type 0 where
  pub id : Option Text
  pub version : ℕ
  pub timestamp : ℕ
  pub previous_block : Text
  pub height : ℕ
  pub number_of_transactions : ℕ
  pub total_amount : ℕ
  pub total_fee : ℕ
  pub reward : ℕ
  pub payload_length : ℕ
  pub payload_hash : Text
  pub generator_public_key : Text
  pub block_signature : Option Text
  pub pq_signature : Option PqSignatureBlock
  pub transactions : List (Transaction Value)

-- The types of group 3, `TYPE_GROUP_TOKEN`; every other number is handled as a burn.
pub data TokenType : Type 0 where
  init : TokenType
  transfer : TokenType
  mint : TokenType
  burn : TokenType
  meta : TokenType
  sell : TokenType
  buy : TokenType
  cancel : TokenType

abbrev pub token_type : ℕ → TokenType
token_type n =
    if n == 0
    then init
    else if n == 1
    then transfer
    else if n == 2
    then mint
    else if n == 4
    then meta
    else if n == 5
    then sell
    else if n == 6
    then buy
    else if n == 7
    then cancel
    else burn

abbrev pub type_group_token : ℕ
type_group_token = 3

abbrev pub last : ℕ
last = 7

abbrev pub flag_mintable : ℕ
flag_mintable = 1

abbrev pub flag_burnable : ℕ
flag_burnable = 2

abbrev pub flag_frozen_cap : ℕ
flag_frozen_cap = 4

-- `flags & flag != 0`
unfoldable pub has_flag : ℕ → ℕ → Bool
has_flag flags flag = not (bit_and flags flag == 0)

abbrev pub version_pq : ℕ
version_pq = 3

-- The bytes of the blocks on the wire: algorithm, length and signature of each.
unfoldable pub block_bytes : List PqSignatureBlock → ℕ
block_bytes [] = 0
block_bytes (b ∷ bs) = add_u64 (3 + length b.signature / 2) (block_bytes bs)

module _ {Value : Type 0} where
  unfoldable pub second_signature_any : Transaction Value → Option Text
  second_signature_any tx = elim (tx.second_signature) [
    | some s ↦ some s
    | none ↦ tx.sign_signature
  ]

  unfoldable pub is_pq : Transaction Value → Bool
  is_pq tx = tx.version == version_pq

  unfoldable pub pq_blocks : Transaction Value → List PqSignatureBlock
  pq_blocks tx = unwrap_or [] (tx.second_signatures)

  unfoldable pub pq_surcharge : Transaction Value → ℕ → ℕ
  pq_surcharge tx fee_per_byte =
      if is_pq tx then saturating_mul fee_per_byte (block_bytes (pq_blocks tx)) else 0

  unfoldable pub is_token : Transaction Value → Bool
  is_token tx = tx.type_group == type_group_token && leb tx.type_ last

  abbrev pub token_value : Option (TransactionAsset Value) → Option Value
  token_value none = none
  token_value (some a) = lookup (ascii "token") a.extra

  unfoldable pub token_asset : (Value → Option TokenAsset) → Transaction Value → Option TokenAsset
  token_asset from_value tx =
      if is_token tx
      then elim (token_value tx.asset) [ none ↦ none | some v ↦ from_value v ]
      else none

-- `storage.rs`: a token and an order of the token market.
pub record TokenState : Type 0 where
  pub symbol : Text
  pub decimals : ℕ
  pub flags : ℕ
  pub supply : ℕ
  pub supply_cap : ℕ
  pub owner : Text
  pub init_height : ℕ
  pub meta : Option TokenMeta

pub record TokenOrder : Type 0 where
  pub id : Text
  pub token_id : Text
  pub seller : Text
  pub amount : ℕ
  pub filled : ℕ
  pub price : ℕ
  pub height : ℕ
  pub closed : Option ℕ
  pub fills : List Text

-- `config.rs`: the part of a milestone that the token rules read.
pub record TokenFees : Type 0 where
  pub init : ℕ
  pub transfer : ℕ
  pub transfer_per_recipient : ℕ
  pub mint : ℕ
  pub burn : ℕ
  pub meta : ℕ
  pub init_burn_percent : ℕ
  pub sell : ℕ
  pub buy : ℕ
  pub cancel : ℕ

pub record TokenMarketParams : Type 0 where
  pub enabled : Bool
  pub max_open_orders : ℕ

pub record PqParams : Type 0 where
  pub active : Bool
  pub fee_per_byte : ℕ
  pub commitment_grace : ℕ
  pub blocks : Bool
  pub blocks_grace : ℕ

pub record Milestone : Type 0 where
  pub height : ℕ
  pub tokens : Bool
  pub token_fees : TokenFees
  pub token_transfer_max_recipients : ℕ
  pub token_market : TokenMarketParams
  pub pq : PqParams

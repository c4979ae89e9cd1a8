-- ===== src/SmartObjects.antt =====
-- Smart objects (typeGroup 2): the data of src/models/transaction.rs and src/storage.rs and the
-- rules of src/rules.rs. `Codecs` stands for the bs58 and hex crates and for serde_json's reading of
-- a transaction's asset. `content` is the source's `data`. An error is what its message says.
use sth_core_pq.Base.{
  ℕ, Bool, true, false, Option, none, some, List, [], Text, Map, ◌==◌, if◌then◌else◌,
}
use sth_core_pq.Base.Int.{ℤ}
pub mod Service
pub mod Format
pub mod Wallet
pub mod Ranges
pub mod Owners

pub record SmartObjectData : Type 0 where
  pub name : Option Text
  pub ntfry_data : Option Text

pub record SmartObjectAsset : Type 0 where
  pub type_ : ℕ
  pub sub_type : ℕ
  pub action : ℕ
  pub registration_id : Option Text
  pub recipient_id : Option Text
  pub price : Option ℕ
  pub content : SmartObjectData

pub record SmartObject : Type 0 where
  pub type_ : ℕ
  pub sub_type : ℕ
  pub content : SmartObjectData
  pub resigned : Bool
  pub price : Option ℕ

-- The fields of `WalletState` that the rules read. The balance is an i64.
pub record ObjectWallet : Type 0 where
  pub address : Text
  pub balance : ℤ
  pub username : Option Text
  pub sobjects : Map SmartObject

-- The fields of the milestone that the rules read.
pub record ObjectMilestone : Type 0 where
  pub sobj_v2 : Bool
  pub fee_per_byte : ℕ
  pub masternodes_enabled : Bool
  pub collateral_amount : ℕ

pub record Codecs (Value : Type 0) : Type 0 where
  pub bs58 : Text → Option (List ℕ)
  pub bs58_check : Text → Option (List ℕ)
  pub hex : Text → Option (List ℕ)
  pub from_value : Map Value → Option SmartObjectAsset

-- The actions; every other number has no fee.
pub data Action : Type 0 where
  register update resign transfer sell buy : Action

unfoldable pub action_of : ℕ → Option Action
action_of n =
    if n == 0
    then some register
    else if n == 1
    then some update
    else if n == 2
    then some resign
    else if n == 3
    then some transfer
    else if n == 4
    then some sell
    else if n == 5
    then some buy
    else none

-- `static_fee`
unfoldable pub static_fee : Action → ℕ
static_fee register = 5_000_000_000
static_fee update = 500_000_000
static_fee resign = 500_000_000
static_fee transfer = 500_000_000
static_fee sell = 100_000_000
static_fee buy = 100_000_000

-- `matches!(action, TRANSFER | SELL | BUY)`
abbrev pub is_market : Action → Bool
is_market transfer = true
is_market sell = true
is_market buy = true
is_market _ = false

abbrev pub is_transfer : Action → Bool
is_transfer transfer = true
is_transfer _ = false

abbrev pub is_sell : Action → Bool
is_sell sell = true
is_sell _ = false

abbrev pub is_resign : Action → Bool
is_resign resign = true
is_resign _ = false

abbrev pub is_update : Action → Bool
is_update update = true
is_update _ = false

abbrev pub type_delegate : ℕ
type_delegate = 4

abbrev pub type_ticker : ℕ
type_ticker = 5

abbrev pub type_service_node : ℕ
type_service_node = 7

pub data ObjectError : Type 0 where
  malformed_asset : ObjectError
  amount_must_be_zero : ObjectError
  unknown_action : ObjectError
  static_fee_mismatch : ObjectError
  transfer_not_active : ObjectError
  recipient_only_transfer : ObjectError
  price_only_sell : ObjectError
  invalid_recipient : ObjectError
  invalid_data : ObjectError
  register_with_id : ObjectError
  register_without_name : ObjectError
  ticker_invalid : ObjectError
  registration_id_required : ObjectError
  name_fixed : ObjectError
  must_not_carry_data : ObjectError
  without_id : ObjectError
  not_registered : ObjectError
  already_resigned : ObjectError
  wrong_type : ObjectError
  wrong_sub_type : ObjectError
  not_for_sale : ObjectError
  transfer_to_self : ObjectError
  insufficient_balance : ObjectError
  already_registered : ObjectError
  name_already_registered : ObjectError
  type_not_active : ObjectError
  service_data_invalid : ObjectError
  service_already_registered : ObjectError
  service_collateral : ObjectError
  service_not_transferable : ObjectError
  sender_not_delegate : ObjectError
  name_not_delegate : ObjectError
  delegate_not_transferable : ObjectError
  still_active : ObjectError

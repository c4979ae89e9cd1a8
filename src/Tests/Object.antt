-- ===== src/Tests/Object.antt =====
-- The smart object rules on a concrete registration. `Unit` stands for the JSON values; base58 and
-- hex decode to nothing, and the asset reads as the one under test.
use sth_core_pq.Base.{
  ◌+◌, ◌%◌, ◌^◌, ◌≡◌, ◌↔◌, refl, true, false, none, some, [], Text, ascii, ok, lookup,
}
use sth_core_pq.Base.Int.{pos}
use sth_core_pq.Models.{no_asset, Transaction, pq_surcharge, is_pq}
use sth_core_pq.Rules.Wallet.{ticker_ok}
use sth_core_pq.SmartObjects.{
  SmartObjectAsset, ObjectMilestone, Codecs, Action, action_of, static_fee,
}
use sth_core_pq.SmartObjects.Format.{
  check_sobj_format, sobj_asset, is_sobj, check_fields, check_action, check_register, name_ok,
}
use sth_core_pq.SmartObjects.Wallet.{Context, check_sobj, object_action, object_register, record_of}
use sth_core_pq.SmartObjects.Ranges.{check_sobj_format_lem, InFields}
use sth_core_pq.SmartObjects.Owners.{May, check_sobj-May}

abbrev gold : SmartObjectAsset
gold = record {
  type_ = 5;
  sub_type = 0;
  action = 0;
  registration_id = none;
  recipient_id = none;
  price = none;
  content = record { name = some (ascii "GOLD"); ntfry_data = none };
}

abbrev codecs : Codecs (Unit {0})
codecs = record {
  bs58 = λ s. none;
  bs58_check = λ s. none;
  hex = λ s. none;
  from_value = λ v. some gold;
}

abbrev milestone : ObjectMilestone
milestone = record {
  sobj_v2 = true;
  fee_per_byte = 10000;
  masternodes_enabled = false;
  collateral_amount = 0;
}

abbrev registration : Transaction (Unit {0})
registration = record {
  version = 2;
  network = none;
  type_group = 2;
  type_ = 6;
  nonce = some 1;
  sender_public_key = [];
  fee = 5_000_000_000;
  amount = 0;
  vendor_field = none;
  expiration = none;
  recipient_id = none;
  asset = some no_asset;
  signature = none;
  second_signature = none;
  sign_signature = none;
  signatures = none;
  second_signatures = none;
  timestamp = none;
  id = some (ascii "t1");
  block_id = none;
  block_height = none;
  sequence = none;
}

abbrev context : Context
context = record {
  wallet = some (record { address = ascii "Sa"; balance = pos 9; username = none; sobjects = [] });
  pending = [];
  name_taken = λ name kind. false;
  lookup_object = λ id. none;
  token_supply = λ id. none;
}

check_sobj_format_lem_example : (check_sobj_format codecs registration milestone ≡ ok gold) ↔ (
    (sobj_asset codecs registration ≡ some gold)
    × (registration.amount ≡ 0)
    × (k : Action) × (action_of gold.action ≡ some k)
    × (registration.fee ≡ (static_fee k + pq_surcharge registration 10000) % 2 ^ 64)
    × InFields codecs milestone k gold)
check_sobj_format_lem_example = check_sobj_format_lem codecs registration milestone gold

registers : check_sobj codecs registration milestone context ≡ ok tt
unfolding check_sobj check_sobj_format sobj_asset is_sobj action_of static_fee pq_surcharge is_pq
    check_fields check_action check_register name_ok ticker_ok object_action object_register
    record_of lookup
registers = refl

check_sobj-May_example :
    (e : SmartObjectAsset) × (id : Text) × (k : Action) × (check_sobj_format codecs registration
        milestone
      ≡ ok e)
    × (registration.id ≡ some id)
    × (action_of e.action ≡ some k)
    × May context milestone registration.fee id k e
check_sobj-May_example = check_sobj-May codecs registration milestone context registers

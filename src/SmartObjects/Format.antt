-- ===== src/SmartObjects/Format.antt =====
-- src/rules.rs: `check_sobj_format`, the stateless check of a smart object transaction.
use sth_core_pq.Base.{
  ℕ, Bool, true, false, not, ◌&&◌, ◌||◌, Option, none, some, [], length, any, all, Text, ascii, Map,
  leb, ◌==◌, if◌then◌else◌, is_some, unwrap_or, Result, ok, ◌>>=◌, ◌>>◌, fail_if, ok_or, add_u64,
  chars, is_control,
}
use sth_core_pq.Models.{Transaction, TransactionAsset, pq_surcharge}
use sth_core_pq.Rules.Manifest.{is_some_and}
use sth_core_pq.Rules.Wallet.{ticker_ok}
use sth_core_pq.SmartObjects.{
  SmartObjectAsset, ObjectMilestone, Codecs, Action, register, action_of, static_fee, is_market,
  is_transfer, is_sell, is_resign, type_ticker, ObjectError, malformed_asset, amount_must_be_zero,
  unknown_action, static_fee_mismatch, transfer_not_active, recipient_only_transfer,
  price_only_sell, invalid_recipient, invalid_data, register_with_id, register_without_name,
  ticker_invalid, registration_id_required, name_fixed, must_not_carry_data,
}

-- `a != b` on Booleans.
abbrev pub differ : Bool → Bool → Bool
differ true b = not b
differ false b = b

-- A letter, a digit, or one of `_!@$&.-`.
abbrev name_char : ℕ → Bool
name_char c =
    leb 48 c && leb c 57
    || leb 65 c && leb c 90
    || leb 97 c && leb c 122
    || any (λ d. d == c) (ascii "_!@$&.-")

unfoldable pub name_ok : Text → Bool
name_ok n = leb 1 (length n) && leb (length n) 40 && all name_char n

module _ {Value : Type 0} (codecs : Codecs Value) where
  -- `address_to_bytes(r).is_ok()`: 21 bytes with their checksum.
  unfoldable pub address_ok : Text → Bool
  address_ok r = is_some_and (λ b. length b == 21) (codecs.bs58_check r)

  unfoldable pub data_ok : ObjectMilestone → Text → Bool
  data_ok ms s =
      if ms.sobj_v2
      then leb 1 (length s) && leb (length s) 255 && not (any is_control (chars s))
      else leb 1 (length s) && leb (length s) 128 && is_some (codecs.bs58 s)

  unfoldable pub is_sobj : Transaction Value → Bool
  is_sobj tx = tx.type_group == 2 && tx.type_ == 6

  abbrev pub asset_extra : Option (TransactionAsset Value) → Option (Map Value)
  asset_extra none = none
  asset_extra (some a) = some a.extra

  unfoldable pub sobj_asset : Transaction Value → Option SmartObjectAsset
  sobj_asset tx =
      if is_sobj tx
      then elim (asset_extra tx.asset) [ none ↦ none | some e ↦ codecs.from_value e ]
      else none

  -- The arm of a registration, and that of every other action.
  unfoldable pub check_register : ObjectMilestone → SmartObjectAsset → Result ObjectError (Unit {0})
  check_register ms e =
      fail_if (is_some e.registration_id) register_with_id
      >> fail_if (not (is_some_and name_ok e.content.name)) register_without_name
      >> fail_if
          (ms.sobj_v2 && e.type_ == type_ticker && not (ticker_ok (unwrap_or [] (e.content.name))))
          ticker_invalid

  unfoldable pub id_ok : Text → Bool
  id_ok id = length id == 64 && is_some (codecs.hex id)

  unfoldable pub check_other : Action → SmartObjectAsset → Result ObjectError (Unit {0})
  check_other k e =
      fail_if (not (is_some_and id_ok e.registration_id)) registration_id_required
      >> fail_if (is_some e.content.name) name_fixed
      >> fail_if ((is_resign k || is_market k) && is_some e.content.ntfry_data) must_not_carry_data

  unfoldable pub check_action :
      ObjectMilestone → Action → SmartObjectAsset → Result ObjectError (Unit {0})
  check_action ms register e = check_register ms e
  check_action ms Action.update e = check_other Action.update e
  check_action ms Action.resign e = check_other Action.resign e
  check_action ms Action.transfer e = check_other Action.transfer e
  check_action ms Action.sell e = check_other Action.sell e
  check_action ms Action.buy e = check_other Action.buy e

  -- The fields that go with the action.
  unfoldable pub check_fields :
      ObjectMilestone → Action → SmartObjectAsset → Result ObjectError (Unit {0})
  check_fields ms k e =
      fail_if (is_market k && not ms.sobj_v2) transfer_not_active
      >> fail_if (differ (is_some e.recipient_id) (is_transfer k)) recipient_only_transfer
      >> fail_if (differ (is_some e.price) (is_sell k)) price_only_sell
      >> fail_if (is_some_and (λ r. not (address_ok r)) e.recipient_id) invalid_recipient
      >> fail_if (is_some_and (λ d. not (data_ok ms d)) e.content.ntfry_data) invalid_data
      >> check_action ms k e

  unfoldable pub check_sobj_format :
      Transaction Value → ObjectMilestone → Result ObjectError SmartObjectAsset
  check_sobj_format tx ms = ok_or (sobj_asset tx) malformed_asset >>= λ e.
      fail_if (not (tx.amount == 0)) amount_must_be_zero
      >> (ok_or (action_of e.action) unknown_action >>= λ k.
          fail_if (not (tx.fee == add_u64 (static_fee k) (pq_surcharge tx ms.fee_per_byte)))
            static_fee_mismatch
          >> check_fields ms k e
          >> ok e)

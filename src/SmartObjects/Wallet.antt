-- ===== src/SmartObjects/Wallet.antt =====
-- src/rules.rs: `check_sobj`, the wallet-aware check of a smart object transaction.
use sth_core_pq.Base.{
  ℕ, ◌+◌, ◌-◌, ◌%◌, ◌^◌, Bool, false, not, ◌&&◌, ◌||◌, Option, none, some, [], ◌∷◌, Text, text_eq,
  Map, lookup, ltb, leb, ◌==◌, if◌then◌else◌, is_some, unwrap_or, Result, ok, ◌>>=◌, ◌>>◌, fail_if,
  ok_or, saturating_add,
}
use sth_core_pq.Base.Int.{ℤ, pos, negsuc, ltb_ℤ}
use sth_core_pq.Models.{Transaction}
use sth_core_pq.Rules.Manifest.{is_some_and}
use sth_core_pq.SmartObjects.{
  SmartObjectAsset, SmartObject, ObjectWallet, ObjectMilestone, Codecs, Action, register, action_of,
  is_transfer, is_sell, is_resign, is_update, type_delegate, type_ticker, type_service_node,
  ObjectError, without_id, not_registered, already_resigned, wrong_type, wrong_sub_type,
  not_for_sale, transfer_to_self, insufficient_balance, already_registered, name_already_registered,
  type_not_active, service_data_invalid, service_already_registered, service_collateral,
  service_not_transferable, sender_not_delegate, name_not_delegate, delegate_not_transferable,
  still_active, unknown_action,
}
use sth_core_pq.SmartObjects.Service.{parse_service_node}
use sth_core_pq.SmartObjects.Format.{check_sobj_format}

-- `balance >= 0 && balance as u64 >= cost`
unfoldable pub covers : ℤ → ℕ → Bool
covers (pos n) cost = leb cost n
covers (negsuc n) cost = false

-- `n as i64`
pub as_i64 : ℕ → ℤ
as_i64 n = let m = n % 2 ^ 64 in if ltb m (2 ^ 63) then pos m else negsuc (2 ^ 64 - 1 - m)

abbrev pub balance_of : Option ObjectWallet → ℤ
balance_of none = pos 0
balance_of (some w) = w.balance

abbrev pub is_address : Option ObjectWallet → Text → Bool
is_address w address = is_some_and (λ x. text_eq x.address address) w

-- A Service Node that is not resigned is among the objects.
pub has_service : Map SmartObject → Bool
has_service [] = false
has_service ((id, r) ∷ rs) =
    let rest = has_service rs in r.type_ == type_service_node && not r.resigned || rest

abbrev pub sobjects_of : Option ObjectWallet → Map SmartObject
sobjects_of none = []
sobjects_of (some w) = w.sobjects

abbrev pub username_of : Option ObjectWallet → Option Text
username_of none = none
username_of (some w) = w.username

-- What the rules read beside the transaction: the sender's wallet, the records pending in the batch,
-- and three lookups.
pub record Context : Type 0 where
  pub wallet : Option ObjectWallet
  pub pending : Map SmartObject
  pub name_taken : Text → ℕ → Bool
  pub lookup_object : Text → Option (Text × SmartObject)
  pub token_supply : Text → Option ℕ

-- `record(reg)`: pending records come first.
unfoldable pub record_of : Context → Text → Option SmartObject
record_of c reg = elim (lookup reg c.pending) [
  | some r ↦ some r
  | none ↦ lookup reg (sobjects_of c.wallet)
]

-- `rec.price.filter(|p| *p > 0)`
abbrev pub positive : Option ℕ → Option ℕ
positive none = none
positive (some p) = if ltb 0 p then some p else none

unfoldable pub object_buy : Context → ℕ → SmartObjectAsset → Result ObjectError (Unit {0})
object_buy c fee e =
    ok_or (c.lookup_object (unwrap_or [] (e.registration_id))) not_registered >>= λ (owner, r).
    fail_if r.resigned already_resigned
    >> fail_if (not (r.type_ == e.type_) || not (r.sub_type == e.sub_type)) wrong_type
    >> (ok_or (positive r.price) not_for_sale >>= λ price.
        fail_if (is_address c.wallet owner) transfer_to_self
        >> fail_if (not (covers (balance_of c.wallet) (saturating_add price fee)))
            insufficient_balance)

unfoldable pub register_service :
    Context → ObjectMilestone → ℕ → SmartObjectAsset → Result ObjectError (Unit {0})
register_service c ms fee e =
    fail_if (not ms.masternodes_enabled) type_not_active
    >> fail_if (not (is_some (parse_service_node (unwrap_or [] (e.content.ntfry_data)))))
        service_data_invalid
    >> fail_if (has_service (sobjects_of c.wallet) || has_service c.pending)
        service_already_registered
    >> fail_if (ltb_ℤ (balance_of c.wallet) (as_i64 (ms.collateral_amount + fee)))
        service_collateral

unfoldable pub register_delegate : Context → Text → Result ObjectError (Unit {0})
register_delegate c name = ok_or (username_of c.wallet) sender_not_delegate >>= λ u.
    fail_if (not (text_eq u name)) name_not_delegate

unfoldable pub object_register :
    Context → ObjectMilestone → ℕ → Text → SmartObjectAsset → Result ObjectError (Unit {0})
object_register c ms fee id e =
    let name = unwrap_or [] (e.content.name) in
    fail_if (is_some (record_of c id)) already_registered
    >> fail_if (c.name_taken name e.type_) name_already_registered
    >> (if e.type_ == type_service_node then register_service c ms fee e else ok tt)
    >> (if e.type_ == type_delegate then register_delegate c name else ok tt)

unfoldable pub object_other : Context → Action → SmartObjectAsset → Result ObjectError (Unit {0})
object_other c k e =
    let reg = unwrap_or [] (e.registration_id) in
    ok_or (record_of c reg) not_registered >>= λ r.
    fail_if r.resigned already_resigned
    >> fail_if (not (r.type_ == e.type_)) wrong_type
    >> fail_if (is_transfer k && is_address c.wallet (unwrap_or [] (e.recipient_id)))
        transfer_to_self
    >> fail_if ((is_transfer k || is_sell k) && r.type_ == type_delegate) delegate_not_transferable
    >> fail_if (r.type_ == type_service_node && (is_transfer k || is_sell k))
        service_not_transferable
    >> fail_if
        (r.type_ == type_service_node
          && is_update k
          && not (is_some (parse_service_node (unwrap_or [] (e.content.ntfry_data)))))
        service_data_invalid
    >> fail_if (not (r.sub_type == e.sub_type)) wrong_sub_type
    >> fail_if
        (is_resign k && r.type_ == type_ticker && is_some_and (λ s. ltb 0 s) (c.token_supply reg))
        still_active

unfoldable pub object_action :
    Context → ObjectMilestone → ℕ → Text → Action → SmartObjectAsset → Result ObjectError (Unit {0})
object_action c ms fee id register e = object_register c ms fee id e
object_action c ms fee id Action.buy e = object_buy c fee e
object_action c ms fee id Action.update e = object_other c Action.update e
object_action c ms fee id Action.resign e = object_other c Action.resign e
object_action c ms fee id Action.transfer e = object_other c Action.transfer e
object_action c ms fee id Action.sell e = object_other c Action.sell e

-- The format check leaves no action unknown.
unfoldable pub check_sobj :
    {Value : Type 0}
    → Codecs Value
    → Transaction Value
    → ObjectMilestone
    → Context
    → Result ObjectError (Unit {0})
check_sobj codecs tx ms c = check_sobj_format codecs tx ms >>= λ e. ok_or tx.id without_id >>= λ id.
    ok_or (action_of e.action) unknown_action >>= λ k. object_action c ms tx.fee id k e

-- ===== src/SmartObjects/Ranges.antt =====
-- The stateless check of a smart object transaction against what each action asks for.
use sth_core_pq.Base.{
  ◌+◌, ◌%◌, ◌^◌, ◌≡◌, ◌≢◌, ◌↔◌, ◌⊎◌, inl, inr, sym, subst, Bool, true, false, not, Option, none,
  some, Text, arith, is_some, ok, Option-cases,
}
use sth_core_pq.Models.{Transaction, pq_surcharge}
use sth_core_pq.Rules.Manifest.{is_some_and}
use sth_core_pq.Rules.Wallet.{ticker_ok}
use sth_core_pq.SmartObjects.{
  SmartObjectAsset, ObjectMilestone, Codecs, Action, register, action_of, static_fee, is_market,
  is_transfer, is_sell,
}
use sth_core_pq.SmartObjects.Format.{
  differ, name_ok, address_ok, data_ok, sobj_asset, id_ok, check_register, check_other,
  check_action, check_fields, check_sobj_format,
}

-- The condition holds of the value, if there is one.
abbrev pub IfSome : {A : Type 0} → (A → Bool) → Option A → Type 0
IfSome p none = Unit
IfSome p (some a) = p a ≡ true

differ-same : (a b : Bool) → (differ a b ≡ false) ↔ (a ≡ b)
differ-same true b = ground arith
differ-same false b = ground arith

is_some_and-IfSome :
    {A : Type 0} (p : A → Bool) (o : Option A)
    → (is_some_and (λ a. not (p a)) o ≡ false) ↔ IfSome p o
is_some_and-IfSome p none = ground arith
is_some_and-IfSome p (some a) = ground arith

module _ {Value : Type 0} (codecs : Codecs Value) where
  -- An action on an object that is registered.
  abbrev pub InOther : SmartObjectAsset → Type 0
  InOther e =
      (id : Text) × (e.registration_id ≡ some id)
      × (id_ok codecs id ≡ true)
      × (e.content.name ≡ none)

  pub InAction : ObjectMilestone → Action → SmartObjectAsset → Type 0
  InAction ms register e =
      (e.registration_id ≡ none)
      × (name : Text) × (e.content.name ≡ some name)
      × (name_ok name ≡ true)
      × ((ms.sobj_v2 ≡ false) ⊎ (e.type_ ≢ 5) ⊎ (ticker_ok name ≡ true))
  InAction ms Action.update e = InOther e
  InAction ms Action.resign e = InOther e × (e.content.ntfry_data ≡ none)
  InAction ms Action.transfer e = InOther e × (e.content.ntfry_data ≡ none)
  InAction ms Action.sell e = InOther e × (e.content.ntfry_data ≡ none)
  InAction ms Action.buy e = InOther e × (e.content.ntfry_data ≡ none)

  -- What the fields of an asset have to be for its action.
  pub InFields : ObjectMilestone → Action → SmartObjectAsset → Type 0
  InFields ms k e =
      ((is_market k ≡ false) ⊎ (ms.sobj_v2 ≡ true))
      × (is_some e.recipient_id ≡ is_transfer k)
      × (is_some e.price ≡ is_sell k)
      × IfSome (address_ok codecs) e.recipient_id
      × IfSome (data_ok codecs ms) e.content.ntfry_data
      × InAction ms k e

  check_action_lem :
      (ms : ObjectMilestone) (k : Action) (e : SmartObjectAsset)
      → (check_action codecs ms k e ≡ ok tt) ↔ InAction ms k e
  unfolding check_action check_register check_other InAction
  check_action_lem ms register e = ground arith
  check_action_lem ms Action.update e = ground arith
  check_action_lem ms Action.resign e = ground arith
  check_action_lem ms Action.transfer e = ground arith
  check_action_lem ms Action.sell e = ground arith
  check_action_lem ms Action.buy e = ground arith

  check_fields_lem :
      (ms : ObjectMilestone) (k : Action) (e : SmartObjectAsset)
      → (check_fields codecs ms k e ≡ ok tt) ↔ InFields ms k e
  unfolding check_fields InFields
  check_fields_lem ms k e =
      let (to, from) = check_action_lem ms k e in
      let recipient = differ-same (is_some e.recipient_id) (is_transfer k) in
      let price = differ-same (is_some e.price) (is_sell k) in
      let address = is_some_and-IfSome (address_ok codecs) e.recipient_id in
      let content = is_some_and-IfSome (data_ok codecs ms) e.content.ntfry_data in ground arith

-- `check_sobj_format` accepts exactly the smart object transactions that carry a readable asset and
-- transfer no coins, have one of the six actions and the fields it asks for, and pay its static fee
-- with the surcharge for their second signatures, modulo 2^64.
pub check_sobj_format_lem :
    {Value : Type 0} (codecs : Codecs Value) (tx : Transaction Value) (ms : ObjectMilestone)
    (e : SmartObjectAsset)
    → (check_sobj_format codecs tx ms ≡ ok e) ↔ (
        (sobj_asset codecs tx ≡ some e)
        × (tx.amount ≡ 0)
        × (k : Action) × (action_of e.action ≡ some k)
        × (tx.fee ≡ (static_fee k + pq_surcharge tx ms.fee_per_byte) % 2 ^ 64)
        × InFields codecs ms k e)
unfolding check_sobj_format
check_sobj_format_lem codecs tx ms e = elim (Option-cases (sobj_asset codecs tx)) [
  | inl missing ↦ ground arith
  | inr (b, found) ↦ elim (Option-cases (action_of b.action)) [
    | inl unknown ↦ ground arith
    | inr (k, action) ↦
        let (to, from) = check_fields_lem codecs ms k b in
        (
          λ h. (ground arith, ground arith, k, ground arith, ground arith, ground arith),
          λ (same, zero_amount, k', action', fee, fields).
              let b=e : b ≡ e = ground arith in
              let k=k' : k ≡ k' = ground arith in
              let fields' =
                subst (λ x. InFields codecs ms x b) (sym k=k')
                  (subst (λ x. InFields codecs ms k' x) (sym b=e) fields) in
              ground arith,
        )
  ]
]

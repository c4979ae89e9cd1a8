-- ===== src/SmartObjects/Owners.antt =====
-- What the wallet-aware check of a smart object transaction lets through.
use sth_core_pq.Base.{
  ℕ, ◌≤◌, ◌<◌, ◌≡◌, ◌≢◌, ◌⊎◌, inl, inr, refl, ap, ◌∙◌, text_eq→eq, true, false, ◌||◌, Option, none,
  some, [], Text, text_eq, arith, ltb, unwrap_or, ok, saturating_add, Option-cases, Result-cases,
}
use sth_core_pq.Base.Int.{ℤ, pos, negsuc}
use sth_core_pq.Models.{Transaction}
use sth_core_pq.Rules.Manifest.{is_some_and}
use sth_core_pq.SmartObjects.{
  SmartObjectAsset, SmartObject, ObjectMilestone, Codecs, Action, register, action_of, is_transfer,
  is_sell, is_resign,
}
use sth_core_pq.SmartObjects.Format.{check_sobj_format}
use sth_core_pq.SmartObjects.Wallet.{
  Context, record_of, covers, positive, balance_of, is_address, has_service, sobjects_of,
  username_of, register_service, register_delegate, object_buy, object_other, object_register,
  object_action, check_sobj,
}

-- The sale that a buyer may take: the object is not resigned and has the type asked for, its owner
-- asks a positive price and is not the buyer, and the buyer's balance covers price and fee.
abbrev pub MayBuy : Context → ℕ → SmartObjectAsset → Type 0
MayBuy c fee e =
    (owner : Text) × (r : SmartObject) × (price : ℕ) × (n : ℕ) × (c.lookup_object
        (unwrap_or [] (e.registration_id))
      ≡ some (owner, r))
    × (r.resigned ≡ false)
    × (r.type_ ≡ e.type_)
    × (r.sub_type ≡ e.sub_type)
    × (r.price ≡ some price)
    × (0 < price)
    × (is_address c.wallet owner ≡ false)
    × (balance_of c.wallet ≡ pos n)
    × (saturating_add price fee ≤ n)

-- The sender has the object, not resigned and of the type asked for; a delegate's is not handed over,
-- and a token with supply keeps its registry.
abbrev pub MayChange : Context → Action → SmartObjectAsset → Type 0
MayChange c k e =
    (r : SmartObject) × (record_of c (unwrap_or [] (e.registration_id)) ≡ some r)
    × (r.resigned ≡ false)
    × (r.type_ ≡ e.type_)
    × (r.sub_type ≡ e.sub_type)
    × ((is_transfer k || is_sell k ≡ false) ⊎ ((r.type_ ≢ 4) × (r.type_ ≢ 7)))
    × ((is_resign k ≡ false)
        ⊎ (r.type_ ≢ 5)
        ⊎ (is_some_and (λ s. ltb 0 s) (c.token_supply (unwrap_or [] (e.registration_id))) ≡ false))

covers-pos : (b : ℤ) (cost : ℕ) → covers b cost ≡ true → (n : ℕ) × (b ≡ pos n) × (cost ≤ n)
unfolding covers
covers-pos (pos n) cost h = (n, refl, ground arith)
covers-pos (negsuc n) cost h = absurd (cc)

positive-some :
    (o : Option ℕ) (price : ℕ) → positive o ≡ some price → (o ≡ some price) × (0 < price)
positive-some none price h = absurd (cc)
positive-some (some p) price h = ground arith

object_buy-MayBuy :
    (c : Context) (fee : ℕ) (e : SmartObjectAsset) → object_buy c fee e ≡ ok tt → MayBuy c fee e
unfolding object_buy
object_buy-MayBuy c fee e h =
    elim (Option-cases (c.lookup_object (unwrap_or [] (e.registration_id)))) [
      | inl missing ↦ absurd (ground arith)
      | inr ((owner, r), found) ↦ elim (Option-cases (positive r.price)) [
        | inl no_sale ↦ absurd (ground arith)
        | inr (price, asked) ↦
            let (at, above) = positive-some r.price price asked in
            let paid : covers (balance_of c.wallet) (saturating_add price fee) ≡ true =
              ground arith in
            let (n, balance, enough) =
              covers-pos (balance_of c.wallet) (saturating_add price fee) paid in
            (
              owner,
              r,
              price,
              n,
              found,
              ground arith,
              ground arith,
              ground arith,
              at,
              above,
              ground arith,
              balance,
              enough,
            )
      ]
    ]

object_other-MayChange :
    (c : Context) (k : Action) (e : SmartObjectAsset) → object_other c k e ≡ ok tt → MayChange c k e
unfolding object_other
object_other-MayChange c k e h =
    elim (Option-cases (record_of c (unwrap_or [] (e.registration_id)))) [
      | inl missing ↦ absurd (ground arith)
      | inr (r, found) ↦
          (r, found, ground arith, ground arith, ground arith, ground arith, ground arith)
    ]

-- A new object: its id and its name are free; a Service Node is the wallet's only one, once the
-- milestone enables them; a delegate's object has the delegate's name.
abbrev pub MayRegister : Context → ObjectMilestone → Text → SmartObjectAsset → Type 0
MayRegister c ms id e =
    (record_of c id ≡ none)
    × (c.name_taken (unwrap_or [] (e.content.name)) e.type_ ≡ false)
    × ((e.type_ ≢ 7)
        ⊎ ((ms.masternodes_enabled ≡ true)
            × (has_service (sobjects_of c.wallet) ≡ false)
            × (has_service c.pending ≡ false)))
    × ((e.type_ ≢ 4) ⊎ (username_of c.wallet ≡ some (unwrap_or [] (e.content.name))))

same_name : (u name : Text) → text_eq u name ≡ true → some u ≡ some name
same_name u name h = ap some (text_eq→eq u name h)

register_delegate-name :
    (c : Context) (name : Text)
    → register_delegate c name ≡ ok tt
    → username_of c.wallet ≡ some name
unfolding register_delegate
register_delegate-name c name h = elim (Option-cases (username_of c.wallet)) [
  | inl nobody ↦ absurd (ground arith)
  | inr (u, e) ↦ e ∙ same_name u name (ground arith)
]

object_register-MayRegister :
    (c : Context) (ms : ObjectMilestone) (fee : ℕ) (id : Text) (e : SmartObjectAsset)
    → object_register c ms fee id e ≡ ok tt
    → MayRegister c ms id e
unfolding object_register register_service
object_register-MayRegister c ms fee id e h =
    let name = register_delegate-name c (unwrap_or [] (e.content.name)) in
    elim (Option-cases (record_of c id)) [
      | inl free ↦ (free, ground arith, ground arith, ground arith)
      | inr (r, known) ↦ absurd (ground arith)
    ]

-- What each action may do, given the id of the transaction.
abbrev pub May : Context → ObjectMilestone → ℕ → Text → Action → SmartObjectAsset → Type 0
May c ms fee id register e = MayRegister c ms id e
May c ms fee id Action.buy e = MayBuy c fee e
May c ms fee id k e = MayChange c k e

object_action-May :
    (c : Context) (ms : ObjectMilestone) (fee : ℕ) (id : Text) (k : Action) (e : SmartObjectAsset)
    → object_action c ms fee id k e ≡ ok tt
    → May c ms fee id k e
unfolding object_action
object_action-May c ms fee id register e h = object_register-MayRegister c ms fee id e h
object_action-May c ms fee id Action.buy e h = object_buy-MayBuy c fee e h
object_action-May c ms fee id Action.update e h = object_other-MayChange c Action.update e h
object_action-May c ms fee id Action.resign e h = object_other-MayChange c Action.resign e h
object_action-May c ms fee id Action.transfer e h = object_other-MayChange c Action.transfer e h
object_action-May c ms fee id Action.sell e h = object_other-MayChange c Action.sell e h

-- A smart object transaction that `check_sobj` accepts has an id, an asset of the right format and
-- one of the six actions, and does what that action may do: register under a free id and name, buy
-- an object on sale from another owner with the price and the fee at hand, or change an object of
-- the sender's own that is not resigned.
pub check_sobj-May :
    {Value : Type 0} (codecs : Codecs Value) (tx : Transaction Value) (ms : ObjectMilestone)
    (c : Context)
    → check_sobj codecs tx ms c ≡ ok tt
    → (e : SmartObjectAsset) × (id : Text) × (k : Action) × (check_sobj_format codecs tx ms ≡ ok e)
      × (tx.id ≡ some id)
      × (action_of e.action ≡ some k)
      × May c ms tx.fee id k e
unfolding check_sobj
check_sobj-May codecs tx ms c h = elim (Result-cases (check_sobj_format codecs tx ms)) [
  | inr (x, refused) ↦ absurd (ground arith)
  | inl (e, format) ↦ elim (Option-cases tx.id) [
    | inl nameless ↦ absurd (ground arith)
    | inr (id, has_id) ↦ elim (Option-cases (action_of e.action)) [
      | inl unknown ↦ absurd (ground arith)
      | inr (k, action) ↦
          (e, id, k, format, has_id, action, object_action-May c ms tx.fee id k e (ground arith))
    ]
  ]
]

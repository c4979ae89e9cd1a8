-- ===== src/Ledger/Conserve.antt =====
-- What each branch of `accumulate_deltas` moves.
use sth_core_pq.Base.{
  ◌≡◌, refl, Bool, true, false, Option, none, some, Text, is_some, ◌==◌, if◌then◌else◌, arith,
}
use sth_core_pq.Base.Int.{pos}
use sth_core_pq.Models.{TokenState}
use sth_core_pq.SmartObjects.{SmartObject, SmartObjectAsset}
use sth_core_pq.Ledger.{WalletDelta}
use sth_core_pq.Ledger.Env.{Env, default}
use sth_core_pq.Ledger.Tree.{Tree}
use sth_core_pq.Ledger.Deltas.{Deltas, change, pay, charge}
use sth_core_pq.Ledger.Effects.{
  release, receive, push_object, settle, hand_over, pending_object, pending_token, edit_object,
  object_effect, registered, changed_object, current_owner,
}
use sth_core_pq.Ledger.Flows.{
  Flows, change-Flows, pay-Between, charge-Between, Flows-trans, Flows-refl, Flows-even,
}

-- Nothing comes in and nothing goes out.
abbrev pub Level : Deltas → Deltas → Type 0
Level ds es = Flows ds es 0 0

pub Level-trans : {a b c : Deltas} → Level a b → Level b c → Level a c
Level-trans h k = record { net = omega (arith, h.net, k.net) }

-- A change that leaves the balance alone.
abbrev pub Neutral : (WalletDelta → WalletDelta) → Type 0
Neutral f = (d : WalletDelta) → (f d).balance ≡ d.balance

pub change-Level :
    (a : Text) (f : WalletDelta → WalletDelta) (ds : Deltas) → Neutral f → Level ds (change a f ds)
change-Level a f ds h = change-Flows a f ds 0 0 (λ d. ground (arith, h d))

pub option-Level :
    {A : Type 0} (o : Option A) {x : Deltas} {f : A → Deltas} (ds : Deltas)
    → Level ds x
    → ((a : A) → Level ds (f a))
    → Level ds (elim o [ none ↦ x | some a ↦ f a ])
option-Level none ds h k = h
option-Level (some a) ds h k = k a

pub if-Level :
    (b : Bool) {x y : Deltas} (ds : Deltas)
    → Level ds x
    → Level ds y
    → Level ds (if b then x else y)
if-Level true ds h k = h
if-Level false ds h k = k

release-Neutral : (id : Text) (token : Bool) → Neutral (release id token)
unfolding release
release-Neutral id token d = refl

receive-Neutral :
    (id to : Text) (r : SmartObject) (o : Option TokenState) → Neutral (receive id to r o)
unfolding receive
receive-Neutral id to r o d = refl

push_object-Neutral : (id : Text) (r : SmartObject) → Neutral (push_object id r)
unfolding push_object
push_object-Neutral id r d = refl

settle-Level :
    (buy : Bool) (from to : Text) (r : SmartObject) (ds : Deltas)
    → Level ds (settle buy from to r ds)
settle-Level false from to r ds = Flows-refl ds
settle-Level true from to r ds =
    let n = default 0 r.price in
    let charged = change to (charge (pos n)) ds in
    Flows-even n (omega arith) (omega arith) (
      Flows-trans (change-Flows to (charge (pos n)) ds 0 n (charge-Between n))
        (change-Flows from (pay (pos n)) charged n 0 (pay-Between n)))

module _ {Value : Type 0} (env : Env Value) (t : Tree Value) where
  hand_over-Level :
      (buy : Bool) (from to id : Text) (ds : Deltas) → Level ds (hand_over env t buy from to id ds)
  unfolding hand_over
  hand_over-Level buy from to id ds =
      option-Level (pending_object env t from id ds) ds (Flows-refl ds) (λ r.
        let paid = settle buy from to r ds in
        let token = pending_token env t from id paid in
        let left = change from (release id (is_some token)) paid in
        Level-trans (settle-Level buy from to r ds) (
          Level-trans
            (change-Level from (release id (is_some token)) paid
              (release-Neutral id (is_some token)))
            (change-Level to (receive id to (record r { price = none }) token) left
              (receive-Neutral id to (record r { price = none }) token))))

  edit_object-Level :
      (e : SmartObjectAsset) (sender : Text) (ds : Deltas)
      → Level ds (edit_object env t e sender ds)
  unfolding edit_object
  edit_object-Level e sender ds = option-Level e.registration_id ds (Flows-refl ds) (λ id.
      option-Level (pending_object env t sender id ds) ds (Flows-refl ds) (λ r.
        change-Level sender (push_object id (changed_object e r)) ds
          (push_object-Neutral id (changed_object e r))))

  -- A smart object transaction moves nothing but the price, from the buyer to the owner.
  pub object_effect-Level :
      (e : SmartObjectAsset) (id : Option Text) (sender : Text) (ds : Deltas)
      → Level ds (object_effect env t e id sender ds)
  unfolding object_effect
  object_effect-Level e none sender ds = Flows-refl ds
  object_effect-Level e (some id) sender ds =
      if-Level (e.action == 5) ds
        (option-Level e.registration_id ds (Flows-refl ds) (λ reg.
          option-Level (current_owner env t reg ds) ds (Flows-refl ds)
            (λ owner. hand_over-Level true owner sender reg ds)))
        (if-Level (e.action == 3) ds
          (option-Level e.registration_id ds (Flows-refl ds) (λ reg.
            option-Level e.recipient_id ds (Flows-refl ds)
              (λ to. hand_over-Level false sender to reg ds)))
          (if-Level (e.action == 0) ds
            (change-Level sender (push_object id (registered e)) ds
              (push_object-Neutral id (registered e)))
            (edit_object-Level e sender ds)))

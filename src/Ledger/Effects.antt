-- ===== src/Ledger/Effects.antt =====
-- src/storage.rs: the branches of `accumulate_deltas` for smart objects (typeGroup 2) and tokens
-- (typeGroup 3), after the sender has paid amount and fee.
use sth_core_pq.Base.{
  Bool, true, false, Option, none, some, [], ◌∷◌, ◌++◌, Text, is_some, lookup, ltb, ◌==◌,
  if◌then◌else◌, Result, ok, err,
}
use sth_core_pq.Base.Int.{pos}
use sth_core_pq.Models.{TokenState}
use sth_core_pq.SmartObjects.{SmartObject, SmartObjectAsset}
use sth_core_pq.Ledger.{WalletDelta, LedgerError}
use sth_core_pq.Ledger.Apply.{or_first}
use sth_core_pq.Ledger.Env.{Env, default}
use sth_core_pq.Ledger.Tree.{Tree}
use sth_core_pq.Ledger.Deltas.{
  Deltas, change, pay, charge, and_then, find_last, has_key, without, find_address, stored_object,
  stored_token, get_sobject,
}

-- The object of a hand-over leaves the pending writes of its owner, and the removal is noted.
unfoldable pub release : Text → Bool → WalletDelta → WalletDelta
release id token d = record d {
  sobjects = without id d.sobjects;
  tokens_issued = without id d.tokens_issued;
  sobj_owner = without id d.sobj_owner;
  sobjects_removed = d.sobjects_removed ++ (id ∷ []);
  tokens_removed = if token then d.tokens_removed ++ (id ∷ []) else d.tokens_removed;
}

unfoldable pub receive : Text → Text → SmartObject → Option TokenState → WalletDelta → WalletDelta
receive id to r token d = record d {
  sobjects = d.sobjects ++ ((id, r) ∷ []);
  sobj_owner = d.sobj_owner ++ ((id, to) ∷ []);
  tokens_issued =
      d.tokens_issued ++ elim token [ none ↦ [] | some st ↦ (id, record st { owner = to }) ∷ [] ];
}

unfoldable pub push_object : Text → SmartObject → WalletDelta → WalletDelta
push_object id r d = record d { sobjects = d.sobjects ++ ((id, r) ∷ []) }

-- A buyer pays the price on the record.
abbrev pub settle : Bool → Text → Text → SmartObject → Deltas → Deltas
settle false from to r ds = ds
settle true from to r ds =
    change from (pay (pos (default 0 r.price))) (change to (charge (pos (default 0 r.price))) ds)

-- `existing` is the sender's pending objects.
unfoldable pub changed_object : SmartObjectAsset → SmartObject → SmartObject
changed_object e r =
    if e.action == 1
    then record r { content = record (r.content) { ntfry_data = e.content.ntfry_data } }
    else if e.action == 4
    then record r {
      price = elim (e.price) [ none ↦ none | some p ↦ if ltb 0 p then some p else none ];
    }
    else record r { resigned = true }

unfoldable pub registered : SmartObjectAsset → SmartObject
registered e = record {
  type_ = e.type_;
  sub_type = e.sub_type;
  content = e.content;
  resigned = false;
  price = none;
}

module _ {Value : Type 0} (env : Env Value) (t : Tree Value) where
  -- The record of an object, pending or stored.
  unfoldable pub pending_object : Text → Text → Deltas → Option SmartObject
  pending_object from id ds =
      or_first (and_then (lookup from ds) (λ d. find_last id d.sobjects)) (stored_object t from id)

  unfoldable pub pending_token : Text → Text → Deltas → Option TokenState
  pending_token from id ds =
      or_first (and_then (lookup from ds) (λ d. find_last id d.tokens_issued)) (stored_token t id)

  -- `.ok().flatten()`
  abbrev pub owner_or_none : Result LedgerError (Option (Text × SmartObject)) → Option Text
  owner_or_none (err e) = none
  owner_or_none (ok none) = none
  owner_or_none (ok (some p)) = some p.0

  unfoldable pub current_owner : Text → Deltas → Option Text
  current_owner id ds =
      or_first (find_address (λ d. has_key id d.sobjects) ds) (owner_or_none (get_sobject env t id))

  unfoldable pub hand_over : Bool → Text → Text → Text → Deltas → Deltas
  hand_over buy from to id ds = elim (pending_object from id ds) [
    | none ↦ ds
    | some r ↦
        let paid = settle buy from to r ds in
        let token = pending_token from id paid in
        change to (receive id to (record r { price = none }) token)
          (change from (release id (is_some token)) paid)
  ]

  unfoldable pub edit_object : SmartObjectAsset → Text → Deltas → Deltas
  edit_object e sender ds = elim (e.registration_id) [
    | none ↦ ds
    | some id ↦ elim (pending_object sender id ds) [
      | none ↦ ds
      | some r ↦ change sender (push_object id (changed_object e r)) ds
    ]
  ]

  unfoldable pub object_effect : SmartObjectAsset → Option Text → Text → Deltas → Deltas
  object_effect e none sender ds = ds
  object_effect e (some id) sender ds =
      if e.action == 5
      then elim (e.registration_id) [
        | none ↦ ds
        | some reg ↦ elim (current_owner reg ds) [
          | none ↦ ds
          | some owner ↦ hand_over true owner sender reg ds
        ]
      ]
      else if e.action == 3
      then elim (e.registration_id) [
        | none ↦ ds
        | some reg ↦ elim (e.recipient_id) [
          | none ↦ ds
          | some to ↦ hand_over false sender to reg ds
        ]
      ]
      else if e.action == 0
      then change sender (push_object id (registered e)) ds
      else edit_object e sender ds

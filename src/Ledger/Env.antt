-- ===== src/Ledger/Env.antt =====
-- What src/storage.rs calls outside itself: hashes and encodings, Unicode lower case, the
-- reading of JSON values, and the settings of the network at a height (`network.milestone(height)`).
use sth_core_pq.Base.{
  ℕ, Bool, Option, none, some, List, [], ◌∷◌, ◌++◌, map, Text, Result, ok, length, ◌==◌,
  if◌then◌else◌, ok_or, ◌>>=◌,
}
use sth_core_pq.Models.{
  Transaction, Block, MultiSignatureAsset, TokenAsset, Payment, TransactionAsset, token_asset,
}
use sth_core_pq.SmartObjects.{Codecs, SmartObjectAsset}
use sth_core_pq.SmartObjects.Format.{sobj_asset}
use sth_core_pq.Ledger.{LedgerError, bad_public_key}

pub record LedgerMilestone : Type 0 where
  pub active_delegates : ℕ
  pub blocktime : ℕ
  pub finality_active : Bool
  pub finality_slashing : Bool
  -- `token_fees.init_burn()`
  pub init_burn : ℕ

pub record Env (Value : Type 0) : Type 0 where
  -- `hex::decode`, ripemd160 and `bs58::encode(..).with_check()`.
  pub hex : Text → Option (List ℕ)
  pub ripemd160 : List ℕ → List ℕ
  pub bs58_check : List ℕ → Text
  pub pubkey_hash : ℕ
  -- `address_from_multi_signature`, which adds points of the curve; `none` is its error.
  pub multi_address : MultiSignatureAsset → Option Text
  pub to_lowercase : Text → Text
  pub codecs : Codecs Value
  pub token_from_value : Value → Option TokenAsset
  pub milestone : ℕ → LedgerMilestone
  pub burn_address : Text
  -- `serialize_block(.., true)`, `serialize_transaction`, and what reads them back; the ids are
  -- hashes of these bytes.
  pub serialize_block : Block Value → Result LedgerError (List ℕ)
  pub serialize_transaction : Transaction Value → Result LedgerError (List ℕ)
  pub deserialize_block_header : List ℕ → Result LedgerError (Block Value)
  pub deserialize_transaction : List ℕ → Result LedgerError (Transaction Value)
  pub block_id : Block Value → Result LedgerError Text
  pub transaction_id : Transaction Value → Result LedgerError Text

abbrev pub default {ℓ} : {A : Type ℓ} → A → Option A → A
default d none = d
default d (some a) = a

abbrev pub opt {ℓ} : {A : Type ℓ} → Option A → List A
opt none = []
opt (some a) = a ∷ []

abbrev pub payments_of : {Value : Type 0} → Option (TransactionAsset Value) → List Payment
payments_of none = []
payments_of (some a) = default [] a.payments

abbrev pub token_recipients : Option TokenAsset → List Text
token_recipients none = []
token_recipients (some a) = map (λ i. i.recipient_id) (default [] a.transfers) ++ opt a.recipient_id

abbrev pub new_owner : Option SmartObjectAsset → List Text
new_owner none = []
new_owner (some e) = opt e.recipient_id

module _ {Value : Type 0} (env : Env Value) where
  abbrev pub token_of : Transaction Value → Option TokenAsset
  token_of tx = token_asset env.token_from_value tx

  abbrev pub sobj_of : Transaction Value → Option SmartObjectAsset
  sobj_of tx = sobj_asset env.codecs tx

  unfoldable pub address_from_public_key : Text → Option Text
  address_from_public_key public_key = elim (env.hex public_key) [
    | none ↦ none
    | some pk ↦
        if length pk == 33 then some (env.bs58_check (env.pubkey_hash ∷ env.ripemd160 pk)) else none
  ]

  -- `address_from_public_key(..)?`
  abbrev pub sender_of : Text → Result LedgerError Text
  sender_of pk = ok_or (address_from_public_key pk) bad_public_key

  -- Not sorted, and an address may stand twice: the callers insert or remove one key for each.
  unfoldable pub tx_addresses : Transaction Value → Result LedgerError (List Text)
  tx_addresses tx = sender_of tx.sender_public_key >>= λ sender. ok (
      sender ∷ opt tx.recipient_id
      ++ map (λ p. p.recipient_id) (payments_of tx.asset)
      ++ token_recipients (token_of tx)
      ++ new_owner (sobj_of tx))

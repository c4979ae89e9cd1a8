-- ===== src/Ledger/Deltas.antt =====
-- src/storage.rs: what `accumulate_deltas` reads and writes, and its branch for smart objects. The
-- changes are a map from addresses; the tree is only read.
use sth_core_pq.Base.{
  Bool, false, ◌||◌, Option, none, some, List, [], ◌∷◌, Text, text_eq, Map, lookup, insert,
  if◌then◌else◌, Result, ok, ◌>>=◌,
}
use sth_core_pq.Base.Int.{ℤ, pos, ◌+ℤ◌, ◌-ℤ◌}
use sth_core_pq.Models.{Transaction, Block, TokenState}
use sth_core_pq.SmartObjects.{SmartObject}
use sth_core_pq.Rules.Manifest.{is_some_and}
use sth_core_pq.Ledger.{WalletDelta, LedgerError, no_delta}
use sth_core_pq.Ledger.Apply.{or_first}
use sth_core_pq.Ledger.Env.{Env, default, sender_of}
use sth_core_pq.Ledger.Tree.{Tree}
use sth_core_pq.Ledger.Codec.{get_block_by_height}

abbrev pub Deltas : Type 0
Deltas = Map WalletDelta

-- `deltas.entry(address).or_default()`, changed by `f`.
unfoldable pub change : Text → (WalletDelta → WalletDelta) → Deltas → Deltas
change address f ds = insert address (f (default no_delta (lookup address ds))) ds

unfoldable pub pay : ℤ → WalletDelta → WalletDelta
pay amount d = record d { balance = d.balance +ℤ amount }

unfoldable pub charge : ℤ → WalletDelta → WalletDelta
charge amount d = record d { balance = d.balance -ℤ amount }

unfoldable pub add_to : Text → ℤ → Map ℤ → Map ℤ
add_to id amount m = insert id (default (pos 0) (lookup id m) +ℤ amount) m

unfoldable pub take_off : Text → ℤ → Map ℤ → Map ℤ
take_off id amount m = insert id (default (pos 0) (lookup id m) -ℤ amount) m

-- `*d.tokens.entry(id).or_default() += amount`, and `-=`.
unfoldable pub gain : Text → ℤ → WalletDelta → WalletDelta
gain id amount d = record d { tokens = add_to id amount d.tokens }

unfoldable pub lose : Text → ℤ → WalletDelta → WalletDelta
lose id amount d = record d { tokens = take_off id amount d.tokens }

-- `o.and_then(f)`
abbrev pub and_then {ℓ κ} : {A : Type ℓ} {B : Type κ} → Option A → (A → Option B) → Option B
and_then none f = none
and_then (some a) f = f a

-- `iter().rev().find(|(k, _)| k == id)`
unfoldable pub find_last {ℓ} : {A : Type ℓ} → Text → List (Text × A) → Option A
find_last id [] = none
find_last id ((k, a) ∷ l) = or_first (find_last id l) (if text_eq k id then some a else none)

unfoldable pub has_key {ℓ} : {A : Type ℓ} → Text → List (Text × A) → Bool
has_key id [] = false
has_key id ((k, a) ∷ l) = text_eq k id || has_key id l

-- `retain(|(k, _)| k != id)`
unfoldable pub without {ℓ} : {A : Type ℓ} → Text → List (Text × A) → List (Text × A)
without id [] = []
without id ((k, a) ∷ l) = let rest = without id l in if text_eq k id then rest else (k, a) ∷ rest

-- The first address whose change satisfies a test.
unfoldable pub find_address : (WalletDelta → Bool) → Deltas → Option Text
find_address p [] = none
find_address p ((a, d) ∷ ds) = let rest = find_address p ds in if p d then some a else rest

unfoldable pub find_tx :
    {Value : Type 0} → Text → List (Transaction Value) → Option (Transaction Value)
find_tx id [] = none
find_tx id (tx ∷ txs) =
    let rest = find_tx id txs in if is_some_and (λ i. text_eq i id) tx.id then some tx else rest

unfoldable pub find_in_batch :
    {Value : Type 0} → Text → List (Block Value) → Option (Transaction Value)
find_in_batch id [] = none
find_in_batch id (b ∷ bs) = or_first (find_tx id b.transactions) (find_in_batch id bs)

module _ {Value : Type 0} where
  unfoldable pub stored_object : Tree Value → Text → Text → Option SmartObject
  stored_object t owner id = and_then (lookup owner t.wallets) (λ w. lookup id w.sobjects)

  unfoldable pub stored_token : Tree Value → Text → Option TokenState
  stored_token t id =
      and_then (lookup id t.token_owners)
        (λ owner. and_then (lookup owner t.wallets) (λ w. lookup id w.tokens_issued))

module _ {Value : Type 0} (env : Env Value) where
  unfoldable pub get_transaction :
      Tree Value → Text → Result LedgerError (Option (Transaction Value))
  get_transaction t id = elim (lookup id t.txs) [
    | none ↦ ok none
    | some height ↦
        get_block_by_height env t height >>= λ b. ok (and_then b (λ b. find_tx id b.transactions))
  ]

  unfoldable pub find_lock :
      Tree Value → List (Block Value) → Text → Result LedgerError (Option (Transaction Value))
  find_lock t batch id = elim (find_in_batch id batch) [
    | some tx ↦ ok (some tx)
    | none ↦ get_transaction t id
  ]

  unfoldable pub object_owner : Tree Value → Text → Result LedgerError (Option Text)
  object_owner t id = elim (lookup id t.sobj_owners) [
    | some o ↦ ok (some o)
    | none ↦ get_transaction t id >>= λ found. elim found [
      | none ↦ ok none
      | some tx ↦ sender_of env tx.sender_public_key >>= λ o. ok (some o)
    ]
  ]

  unfoldable pub get_sobject : Tree Value → Text → Result LedgerError (Option (Text × SmartObject))
  get_sobject t id = object_owner t id >>= λ o.
      ok (and_then o (λ owner. and_then (stored_object t owner id) (λ r. some (owner, r))))

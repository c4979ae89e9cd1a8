-- ===== src/Ledger/Core.antt =====
-- src/storage.rs: the branch of `accumulate_deltas` for the core types (typeGroup 1), and
-- `parse_commitment` of src/crypto/pq.rs. `batch` are the blocks that are applied together.
use sth_core_pq.Base.{
  ℕ, Bool, true, false, ◌&&◌, Option, none, some, List, [], ◌∷◌, ◌++◌, length, all, drop, Text,
  text_eq, ascii, starts_with, leb, ◌==◌, ◌||◌, if◌then◌else◌, Result, ok, ◌>>=◌, ok_or,
}
use sth_core_pq.Base.Int.{pos}
use sth_core_pq.Models.{
  Transaction, Block, Payment, MultiSignatureAsset, SecondSignatureAsset, is_pq,
}
use sth_core_pq.Signatures.{PqCommitment}
use sth_core_pq.Ledger.{WalletDelta, LockRecord, LedgerError, bad_public_key}
use sth_core_pq.Ledger.Env.{Env, default, sender_of, payments_of}
use sth_core_pq.Ledger.Tree.{Tree}
use sth_core_pq.Ledger.Deltas.{Deltas, change, pay, charge, and_then, find_lock}

-- `tx_type`, the types of group 1; every other number has no effect.
pub data CoreType : Type 0 where
  transfer second_signature delegate_registration vote multi_signature ipfs : CoreType
  multi_payment delegate_resignation htlc_lock htlc_claim htlc_refund : CoreType

unfoldable pub core_type : ℕ → CoreType
core_type n =
    if n == 0
    then CoreType.transfer
    else if n == 1
    then CoreType.second_signature
    else if n == 2
    then CoreType.delegate_registration
    else if n == 3
    then CoreType.vote
    else if n == 4
    then CoreType.multi_signature
    else if n == 6
    then CoreType.multi_payment
    else if n == 7
    then CoreType.delegate_resignation
    else if n == 8
    then CoreType.htlc_lock
    else if n == 9
    then CoreType.htlc_claim
    else if n == 10
    then CoreType.htlc_refund
    else CoreType.ipfs

-- `u8::from_str_radix(alg, 16)` of two characters reads 1: the sign `+` may lead.
abbrev pub is_one : Text → Bool
is_one alg = text_eq alg (ascii "01") || text_eq alg (ascii "+1")

abbrev pub is_lower_hex : ℕ → Bool
is_lower_hex c = leb 48 c && leb c 57 || leb 97 c && leb c 102

-- The text before and after the first colon.
unfoldable pub split_colon : Text → Option (Text × Text)
split_colon [] = none
split_colon (c ∷ s) =
    let rest = split_colon s in
    if c == b':' then some ([], s) else elim rest [ none ↦ none | some (a, b) ↦ some (c ∷ a, b) ]

-- The hash of a commitment of the one algorithm there is, 1.
unfoldable pub parse_commitment : Text → Option Text
parse_commitment field =
    if starts_with (ascii "sthpq1:") field
    then elim (split_colon (drop 7 field)) [
      | none ↦ none
      | some (alg, hash) ↦
          if is_one alg && length hash == 64 && all is_lower_hex hash then some hash else none
    ]
    else none

unfoldable pub set_vote : Text → WalletDelta → WalletDelta
set_vote v d = record d { vote = some (voted v) }
  where
    voted : Text → Option Text
    voted [] = none
    voted (c ∷ pk) = if c == b'+' then some pk else none

unfoldable pub set_votes : Text → List Text → Deltas → Deltas
set_votes sender [] ds = ds
set_votes sender (v ∷ vs) ds = set_votes sender vs (change sender (set_vote v) ds)

unfoldable pub pay_all : Text → List Payment → Deltas → Deltas
pay_all sender [] ds = ds
pay_all sender (p ∷ ps) ds =
    pay_all sender ps
      (change sender (charge (pos p.amount)) (change p.recipient_id (pay (pos p.amount)) ds))

unfoldable pub set_username : Text → WalletDelta → WalletDelta
set_username name d = record d { username = some name }

unfoldable pub commit : PqCommitment → WalletDelta → WalletDelta
commit c d = record d { pq_commitment = some c }

unfoldable pub register_key : Bool → SecondSignatureAsset → ℕ → WalletDelta → WalletDelta
register_key true s height d = record d {
  pq_key =
      some
        (record { algorithm = default 1 s.algorithm; public_key = s.public_key; since = height });
}
register_key false s height d = record d { second_public_key = some s.public_key }

unfoldable pub resign : WalletDelta → WalletDelta
resign d = record d { resigned = true }

unfoldable pub set_multi : MultiSignatureAsset → WalletDelta → WalletDelta
set_multi m d = record d { multi_signature = some m }

unfoldable pub add_lock : LockRecord → WalletDelta → WalletDelta
add_lock l d = record d { locks_added = d.locks_added ++ (l ∷ []) }

unfoldable pub remove_lock : Text → WalletDelta → WalletDelta
remove_lock id d = record d { locks_removed = d.locks_removed ++ (id ∷ []) }

module _ {Value : Type 0} (env : Env Value) (t : Tree Value) where
  -- A self-transfer of at least one unit may carry a commitment.
  unfoldable pub commit_effect : ℕ → Transaction Value → Text → Text → Deltas → Deltas
  commit_effect height tx sender recipient ds =
      if text_eq recipient sender && leb 1 tx.amount
      then elim (and_then tx.vendor_field parse_commitment) [
        | none ↦ ds
        | some hash ↦
            change sender (commit (record { algorithm = 1; commitment = hash; height = height })) ds
      ]
      else ds

  unfoldable pub transfer_effect : ℕ → Transaction Value → Text → Deltas → Deltas
  transfer_effect height tx sender ds = elim (tx.recipient_id) [
    | none ↦ ds
    | some r ↦ commit_effect height tx sender r (change r (pay (pos tx.amount)) ds)
  ]

  unfoldable pub lock_effect : Block Value → Transaction Value → Text → Deltas → Deltas
  lock_effect b tx sender ds = elim (and_then tx.asset (λ a. a.lock)) [
    | none ↦ ds
    | some l ↦ elim (tx.id) [
      | none ↦ ds
      | some id ↦ elim (tx.recipient_id) [
        | none ↦ ds
        | some r ↦
            change sender
              (add_lock (record {
                lock_id = id;
                sender_public_key = tx.sender_public_key;
                recipient_id = r;
                amount = tx.amount;
                secret_hash = l.secret_hash;
                expiration = l.expiration;
                timestamp = b.timestamp;
                vendor_field = tx.vendor_field;
              }))
              ds
      ]
    ]
  ]

  -- The recipient of a found lock is paid, and the lock leaves its sender.
  unfoldable pub claim_lock : Text → Transaction Value → Deltas → Result LedgerError Deltas
  claim_lock id lock ds = sender_of env lock.sender_public_key >>= λ owner. ok (
      change owner (remove_lock id)
        (elim (lock.recipient_id) [ none ↦ ds | some r ↦ change r (pay (pos lock.amount)) ds ]))

  unfoldable pub refund_lock : Text → Transaction Value → Deltas → Result LedgerError Deltas
  refund_lock id lock ds = sender_of env lock.sender_public_key >>= λ owner.
      ok (change owner (λ d. remove_lock id (pay (pos lock.amount) d)) ds)

  abbrev pub with_lock :
      (Text → Transaction Value → Deltas → Result LedgerError Deltas)
      → List (Block Value)
      → Option Text
      → Deltas
      → Result LedgerError Deltas
  with_lock f batch none ds = ok ds
  with_lock f batch (some id) ds =
      find_lock env t batch id >>= λ found. elim found [ none ↦ ok ds | some l ↦ f id l ds ]

  unfoldable pub multi_effect : Option MultiSignatureAsset → Deltas → Result LedgerError Deltas
  multi_effect none ds = ok ds
  multi_effect (some m) ds =
      ok_or (env.multi_address m) bad_public_key >>= λ a. ok (change a (set_multi m) ds)

  unfoldable pub core_effect :
      Block Value
      → List (Block Value)
      → Transaction Value
      → Text
      → CoreType
      → Deltas
      → Result LedgerError Deltas
  core_effect b batch tx sender CoreType.transfer ds = ok (transfer_effect b.height tx sender ds)
  core_effect b batch tx sender CoreType.multi_payment ds =
      ok (pay_all sender (payments_of tx.asset) ds)
  core_effect b batch tx sender CoreType.vote ds =
      ok (set_votes sender (default [] (and_then tx.asset (λ a. a.votes))) ds)
  core_effect b batch tx sender CoreType.delegate_registration ds =
      elim (and_then tx.asset (λ a. a.delegate)) [
        | none ↦ ok ds
        | some name ↦ ok (change sender (set_username name) ds)
      ]
  core_effect b batch tx sender CoreType.second_signature ds =
      elim (and_then tx.asset (λ a. a.signature)) [
        | none ↦ ok ds
        | some s ↦ ok (change sender (register_key (is_pq tx) s b.height) ds)
      ]
  core_effect b batch tx sender CoreType.delegate_resignation ds = ok (change sender resign ds)
  core_effect b batch tx sender CoreType.multi_signature ds =
      multi_effect (and_then tx.asset (λ a. a.multi_signature)) ds
  core_effect b batch tx sender CoreType.htlc_lock ds = ok (lock_effect b tx sender ds)
  core_effect b batch tx sender CoreType.htlc_claim ds =
      with_lock claim_lock batch
        (and_then (and_then tx.asset (λ a. a.claim)) (λ c. some c.lock_transaction_id)) ds
  core_effect b batch tx sender CoreType.htlc_refund ds =
      with_lock refund_lock batch (and_then tx.asset (λ a. a.refund)) ds
  core_effect b batch tx sender CoreType.ipfs ds = ok ds

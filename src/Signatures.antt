-- ===== src/Signatures.antt =====
-- src/rules.rs: second signatures, those of the legacy core (`check_second_signature`) and the blocks
-- of version 3 (`check_pq`). `Crypto` stands for the cryptography behind src/crypto: hex and hashing,
-- and the verification of a signature, which answers false on an error. An error is its code.
use sth_core_pq.Base.{
  ℕ, ◌*◌, Bool, true, false, not, ◌&&◌, ◌||◌, Option, none, some, List, [], ◌∷◌, length, Text,
  text_eq, ascii, ltb, ◌==◌, if◌then◌else◌, is_some, starts_with, Result, ok, err, ◌>>=◌, ◌>>◌,
  fail_if, ok_or, add_u64, saturating_add, get_elem?,
}
use sth_core_pq.Models.{
  Transaction, TransactionAsset, SecondSignatureAsset, PqSignatureBlock, PqParams, is_pq, pq_blocks,
  pq_surcharge, second_signature_any,
}
use sth_core_pq.Rules.Manifest.{is_some_and}
pub mod Locks

pub record PqKey : Type 0 where
  pub algorithm : ℕ
  pub public_key : Text
  pub since : ℕ

pub record PqCommitment : Type 0 where
  pub algorithm : ℕ
  pub commitment : Text
  pub height : ℕ

pub record PqWalletView : Type 0 where
  pub second_public_key : Option Text
  pub pq_key : Option PqKey
  pub commitment : Option PqCommitment

pub record Crypto (Value : Type 0) : Type 0 where
  pub hex : Text → Option (List ℕ)
  pub to_hex : List ℕ → Text
  pub commitment_hash : List ℕ → List ℕ
  -- `transaction_pq_message`
  pub message : Transaction Value → Option (List ℕ)
  -- `verify_signature(message, signature, key)` and `pq::verify(key, message, signature)`
  pub verify_signature : List ℕ → Text → Text → Bool
  pub pq_verify : List ℕ → List ℕ → List ℕ → Bool
  -- `verify_transaction_second_signature`; `none` is its error.
  pub verify_second : Transaction Value → Text → Option Bool

-- What the checks read of a milestone: the PQ parameters and the static fees of the core types.
pub record SignatureMilestone : Type 0 where
  pub pq : PqParams
  pub static_fee_for_type : ℕ → ℕ

pub data SignatureError : Type 0 where
  already_registered : SignatureError
  missing_second_signature : SignatureError
  invalid_second_signature : SignatureError
  unexpected_second_signature : SignatureError
  registration_without_key : SignatureError
  registration_invalid_key : SignatureError
  pq_not_active : SignatureError
  pq_length : SignatureError
  pq_algorithm : SignatureError
  pq_order : SignatureError
  pq_fee : SignatureError
  pq_required : SignatureError
  pq_invalid : SignatureError
  pq_commitment_mismatch : SignatureError
  pq_proof_required : SignatureError

abbrev pub alg_ml_dsa_44 : ℕ
alg_ml_dsa_44 = 1

abbrev pub pk_len : ℕ
pk_len = 1312

abbrev pub sig_len : ℕ
sig_len = 2420

-- The bytes that a signature of an algorithm has.
unfoldable pub want_len : ℕ → Option ℕ
want_len a = if a == 0 then some 64 else if a == alg_ml_dsa_44 then some sig_len else none

-- `blocks[i - 1].algorithm > b.algorithm`
abbrev pub is_above : Option ℕ → ℕ → Bool
is_above none a = false
is_above (some before) a = ltb a before

abbrev pub signature_of :
    {Value : Type 0} → Option (TransactionAsset Value) → Option SecondSignatureAsset
signature_of none = none
signature_of (some a) = a.signature

module _ {Value : Type 0} (crypto : Crypto Value) where
  -- A registration of a second signature: core group, type 1.
  unfoldable pub is_registration : Transaction Value → Bool
  is_registration tx = tx.type_group == 1 && tx.type_ == 1

  unfoldable pub verified_second :
      Transaction Value → Option Bool → Result SignatureError (Unit {0})
  verified_second tx (some true) = ok tt
  verified_second tx (some false) = err (
      if is_some (second_signature_any tx)
      then invalid_second_signature
      else missing_second_signature)
  verified_second tx none = err invalid_second_signature

  unfoldable pub second_signature :
      Transaction Value → Option Text → Result SignatureError (Unit {0})
  second_signature tx none = fail_if (is_some (second_signature_any tx)) unexpected_second_signature
  second_signature tx (some pk) =
      fail_if (is_registration tx) already_registered
      >> verified_second tx (crypto.verify_second tx pk)

  unfoldable pub check_second_signature :
      Transaction Value → Option Text → Result SignatureError (Unit {0})
  check_second_signature tx key = if is_pq tx then ok tt else second_signature tx key

  pub registered_second_key : Transaction Value → Result SignatureError (Option Text)
  registered_second_key tx =
      if not (is_registration tx) || is_pq tx
      then ok none
      else ok_or (signature_of tx.asset) registration_without_key >>= λ a.
          fail_if
            (not (
              length a.public_key == 66
              && (starts_with (ascii "02") a.public_key || starts_with (ascii "03") a.public_key)
              && is_some (crypto.hex a.public_key)))
            registration_invalid_key
          >> ok (some a.public_key)

  -- The loop over the blocks; the first argument is the algorithm of the block before.
  unfoldable pub check_blocks : Option ℕ → List PqSignatureBlock → Result SignatureError (Unit {0})
  check_blocks before [] = ok tt
  check_blocks before (b ∷ bs) =
      let rest = check_blocks (some b.algorithm) bs in
      ok_or (want_len b.algorithm) pq_algorithm >>= λ want.
      fail_if (not (length b.signature == want * 2) || not (is_some (crypto.hex b.signature)))
        pq_length
      >> fail_if (is_above before b.algorithm) pq_order
      >> rest

  pub check_registered_key : SecondSignatureAsset → Result SignatureError (Unit {0})
  check_registered_key a =
      fail_if (not (is_some_and (λ x. x == alg_ml_dsa_44) a.algorithm)) pq_algorithm
      >> fail_if
          (not (length a.public_key == pk_len * 2) || not (is_some (crypto.hex a.public_key)))
          pq_length

  unfoldable pub check_pq_format :
      Transaction Value → SignatureMilestone → Result SignatureError (Unit {0})
  check_pq_format tx ms =
      if not (is_pq tx)
      then ok tt
      else fail_if (not ms.pq.active) pq_not_active
        >> fail_if (ltb 2 (length (pq_blocks tx))) pq_length
        >> check_blocks none (pq_blocks tx)
        >> fail_if (is_some (second_signature_any tx)) pq_length
        >> (if is_registration tx
            then ok_or (signature_of tx.asset) pq_algorithm >>= check_registered_key
            else ok tt)
        >> fail_if
            (tx.type_group == 1
              && ltb tx.fee
                  (add_u64 (ms.static_fee_for_type tx.type_) (pq_surcharge tx ms.pq.fee_per_byte)))
            pq_fee

  unfoldable pub pq_verified : List ℕ → Option (List ℕ) → Option (List ℕ) → Bool
  pq_verified m (some pk) (some sig) = crypto.pq_verify pk m sig
  pq_verified m none sig = false
  pq_verified m (some pk) none = false

  -- The closure `ok`: the block is a signature by that key under that algorithm.
  unfoldable pub block_ok : List ℕ → PqSignatureBlock → ℕ → Text → Bool
  block_ok m b alg key =
      b.algorithm == alg
      && (if alg == 0
          then crypto.verify_signature m b.signature key
          else pq_verified m (crypto.hex key) (crypto.hex b.signature))

  -- `ok(&blocks[i], …)`; the index is in range where the source uses it.
  abbrev pub nth_ok : List ℕ → List PqSignatureBlock → ℕ → ℕ → Text → Bool
  nth_ok m bs i alg key = is_some_and (λ b. block_ok m b alg key) (get_elem? bs i)

  -- The key whose signature a registration has to carry first.
  unfoldable pub proof_of : PqWalletView → Option (ℕ × Text)
  proof_of w = elim (w.pq_key) [
    | some k ↦ some (k.algorithm, k.public_key)
    | none ↦ elim (w.second_public_key) [ some legacy ↦ some (0, legacy) | none ↦ none ]
  ]

  -- The commitment of the wallet, within the grace time of the activation.
  unfoldable pub mismatch : SignatureMilestone → ℕ → Option ℕ → PqWalletView → List ℕ → Bool
  mismatch ms height activation w new_pk = elim (w.commitment) [
    | none ↦ false
    | some c ↦ elim activation [
      | none ↦ false
      | some act ↦
          ltb height (saturating_add act ms.pq.commitment_grace)
          && not (text_eq c.commitment (crypto.to_hex (crypto.commitment_hash new_pk)))
    ]
  ]

  unfoldable pub check_proof :
      List ℕ → List PqSignatureBlock → Option (ℕ × Text) → Result SignatureError ℕ
  check_proof m bs none = fail_if (not (length bs == 1)) pq_required >> ok 0
  check_proof m bs (some (alg, key)) =
      fail_if (not (length bs == 2)) pq_proof_required
      >> fail_if (not (nth_ok m bs 0 alg key)) pq_proof_required
      >> ok 1

  unfoldable pub check_registration :
      SignatureMilestone
      → ℕ
      → Option ℕ
      → PqWalletView
      → List ℕ
      → List PqSignatureBlock
      → SecondSignatureAsset
      → Result SignatureError (Option PqKey)
  check_registration ms height activation w m bs a =
      ok_or (crypto.hex a.public_key) pq_length >>= λ new_pk.
      fail_if (mismatch ms height activation w new_pk) pq_commitment_mismatch
      >> (check_proof m bs (proof_of w) >>= λ last.
          fail_if (not (nth_ok m bs last alg_ml_dsa_44 a.public_key)) pq_invalid
          >> ok (
              some
                (record { algorithm = alg_ml_dsa_44; public_key = a.public_key; since = height })))

  -- A transaction that registers nothing, with the keys of the wallet.
  unfoldable pub check_keys :
      List ℕ
      → List PqSignatureBlock
      → Option PqKey
      → Option Text
      → Result SignatureError (Option PqKey)
  check_keys m bs (some k) legacy =
      fail_if
        (not (length bs == 1)
          || not (is_some_and (λ b. b.algorithm == k.algorithm) (get_elem? bs 0)))
        pq_required
      >> fail_if (not (nth_ok m bs 0 k.algorithm k.public_key)) pq_invalid
      >> ok none
  check_keys m bs none (some legacy) =
      fail_if (not (length bs == 1) || not (nth_ok m bs 0 0 legacy)) pq_invalid >> ok none
  check_keys m bs none none = fail_if (not (length bs == 0)) unexpected_second_signature >> ok none

  unfoldable pub check_pq :
      Transaction Value
      → SignatureMilestone
      → ℕ
      → Option ℕ
      → PqWalletView
      → Result SignatureError (Option PqKey)
  check_pq tx ms height activation w =
      if not (is_pq tx)
      then fail_if (is_some w.pq_key) pq_required >> ok none
      else check_pq_format tx ms
        >> (ok_or (crypto.message tx) pq_invalid >>= λ m.
            if is_registration tx
            then ok_or (signature_of tx.asset) pq_algorithm
              >>= check_registration ms height activation w m (pq_blocks tx)
            else check_keys m (pq_blocks tx) w.pq_key w.second_public_key)

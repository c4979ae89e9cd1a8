-- ===== src/Signatures/Locks.antt =====
-- A wallet with a PQ key accepts only what that key has signed.
use sth_core_pq.Base.{
  ℕ, ◌≡◌, ◌⊎◌, inl, inr, refl, subst, true, Option, none, some, List, [], ◌∷◌, Text, arith, ok,
  get_elem?, Bool-cases, Option-cases, Result-cases,
}
use sth_core_pq.Models.{Transaction, SecondSignatureAsset, PqSignatureBlock, is_pq, pq_blocks}
use sth_core_pq.Signatures.{
  PqKey, PqWalletView, Crypto, SignatureMilestone, signature_of, is_registration, block_ok, nth_ok,
  proof_of, check_proof, check_registration, check_keys, check_pq,
}

-- The first block is a valid signature of the wallet's key over the transaction's message.
abbrev pub SignedBy : {Value : Type 0} → Crypto Value → Transaction Value → PqKey → Type 0
SignedBy crypto tx k =
    (m : List ℕ) × (b : PqSignatureBlock) × (crypto.message tx ≡ some m)
    × (get_elem? (pq_blocks tx) 0 ≡ some b)
    × (block_ok crypto m b k.algorithm k.public_key ≡ true)

nth_ok-some :
    {Value : Type 0} (crypto : Crypto Value) (m : List ℕ) (bs : List PqSignatureBlock) (alg : ℕ)
    (key : Text)
    → nth_ok crypto m bs 0 alg key ≡ true
    → (b : PqSignatureBlock) × (get_elem? bs 0 ≡ some b) × (block_ok crypto m b alg key ≡ true)
nth_ok-some crypto m [] alg key h = absurd (cc)
nth_ok-some crypto m (b ∷ bs) alg key h = (b, refl, h)

module _ {Value : Type 0} (crypto : Crypto Value) where
  check_keys-signed :
      (m : List ℕ) (bs : List PqSignatureBlock) (k : PqKey) (legacy : Option Text)
      (r : Option PqKey)
      → check_keys crypto m bs (some k) legacy ≡ ok r
      → (nth_ok crypto m bs 0 k.algorithm k.public_key ≡ true) × (r ≡ none)
  unfolding check_keys
  check_keys-signed m bs k legacy r h = (ground arith, ground arith)

  check_proof-signed :
      (m : List ℕ) (bs : List PqSignatureBlock) (alg : ℕ) (key : Text) (n : ℕ)
      → check_proof crypto m bs (some (alg, key)) ≡ ok n
      → nth_ok crypto m bs 0 alg key ≡ true
  unfolding check_proof
  check_proof-signed m bs alg key n h = ground arith

  proof_of-key :
      (w : PqWalletView) (k : PqKey)
      → w.pq_key ≡ some k
      → proof_of crypto w ≡ some (k.algorithm, k.public_key)
  unfolding proof_of
  proof_of-key w k e = ground arith

  registration-signed :
      (ms : SignatureMilestone) (height : ℕ) (activation : Option ℕ) (w : PqWalletView) (m : List ℕ)
      (bs : List PqSignatureBlock) (a : SecondSignatureAsset) (k : PqKey) (r : Option PqKey)
      → w.pq_key ≡ some k
      → check_registration crypto ms height activation w m bs a ≡ ok r
      → nth_ok crypto m bs 0 k.algorithm k.public_key ≡ true
  unfolding check_registration
  registration-signed ms height activation w m bs a k r key h =
      elim (Option-cases (crypto.hex a.public_key)) [
        | inl no_hex ↦ absurd (ground arith)
        | inr (pk, e) ↦ elim (Result-cases (check_proof crypto m bs (proof_of crypto w))) [
          | inr (x, refused) ↦ absurd (ground arith)
          | inl (n, proved) ↦
              check_proof-signed m bs k.algorithm k.public_key n
                (subst (λ o. check_proof crypto m bs o ≡ ok n) (proof_of-key w k key) proved)
        ]
      ]

-- A transaction that `check_pq` accepts from a wallet with a PQ key is of version 3 and its first
-- block is a valid signature of that key; if it registers nothing, no key is installed.
pub check_pq-SignedBy :
    {Value : Type 0} (crypto : Crypto Value) (tx : Transaction Value) (ms : SignatureMilestone)
    (height : ℕ) (activation : Option ℕ) (w : PqWalletView) (k : PqKey) (r : Option PqKey)
    → w.pq_key ≡ some k
    → check_pq crypto tx ms height activation w ≡ ok r
    → (is_pq tx ≡ true) × SignedBy crypto tx k × ((is_registration crypto tx ≡ true) ⊎ (r ≡ none))
unfolding check_pq
check_pq-SignedBy crypto tx ms height activation w k r key h = elim (Bool-cases (is_pq tx)) [
  | inr legacy ↦ absurd (ground arith)
  | inl version ↦ elim (Option-cases (crypto.message tx)) [
    | inl no_message ↦ absurd (ground arith)
    | inr (m, has_message) ↦ elim (Bool-cases (is_registration crypto tx)) [
      | inl registers ↦ elim (Option-cases (signature_of tx.asset)) [
        | inl no_asset ↦ absurd (ground arith)
        | inr (a, e) ↦
            let accepted : check_registration crypto ms height activation w m (pq_blocks tx) a
                ≡ ok r =
              ground arith in
            let signed =
              registration-signed crypto ms height activation w m (pq_blocks tx) a k r key
                accepted in
            let (b, first, valid) =
              nth_ok-some crypto m (pq_blocks tx) k.algorithm k.public_key signed in
            (version, (m, b, has_message, first, valid), inl registers)
      ]
      | inr plain ↦
          let keys : check_keys crypto m (pq_blocks tx) w.pq_key w.second_public_key ≡ ok r =
            ground arith in
          let keys' =
            subst (λ o. check_keys crypto m (pq_blocks tx) o w.second_public_key ≡ ok r) key keys in
          let (signed, nothing) =
            check_keys-signed crypto m (pq_blocks tx) k w.second_public_key r keys' in
          let (b, first, valid) =
            nth_ok-some crypto m (pq_blocks tx) k.algorithm k.public_key signed in
          (version, (m, b, has_message, first, valid), inr nothing)
    ]
  ]
]

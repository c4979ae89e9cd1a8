-- ===== src/Tests/Signed.antt =====
-- The version 3 rules on a wallet with a PQ key. Every signature verifies, and every text is hex.
use sth_core_pq.Base.{
  ℕ, zero, suc, ◌≡◌, ◌⊎◌, refl, true, false, Option, none, some, [], ◌∷◌, Text, ascii, ok,
}
use sth_core_pq.Models.{
  Transaction, PqSignatureBlock, is_pq, pq_blocks, pq_surcharge, block_bytes, second_signature_any,
}
use sth_core_pq.Signatures.{
  PqKey, PqWalletView, Crypto, SignatureMilestone, is_registration, check_pq, check_keys, block_ok,
  pq_verified, check_pq_format, check_blocks, want_len,
}
use sth_core_pq.Signatures.Locks.{SignedBy, check_pq-SignedBy}

abbrev accepting : Crypto (Unit {0})
accepting = record {
  hex = λ s. some s;
  to_hex = λ b. b;
  commitment_hash = λ b. b;
  message = λ tx. some (1 ∷ 2 ∷ []);
  verify_signature = λ m s k. true;
  pq_verify = λ k m s. true;
  verify_second = λ tx k. some true;
}

abbrev zeros : ℕ → Text
zeros zero = []
zeros (suc n) = 48 ∷ zeros n

abbrev block : PqSignatureBlock
block = record { algorithm = 1; signature = zeros 4840 }

abbrev milestone : SignatureMilestone
milestone = record {
  pq = record {
    active = true;
    fee_per_byte = 1;
    commitment_grace = 0;
    blocks = false;
    blocks_grace = 0;
  };
  static_fee_for_type = λ t. 10;
}

abbrev tx : Transaction (Unit {0})
tx = record {
  version = 3;
  network = none;
  type_group = 1;
  type_ = 0;
  nonce = some 1;
  sender_public_key = [];
  fee = 5_000;
  amount = 1;
  vendor_field = none;
  expiration = none;
  recipient_id = none;
  asset = none;
  signature = none;
  second_signature = none;
  sign_signature = none;
  signatures = none;
  second_signatures = some (block ∷ []);
  timestamp = none;
  id = none;
  block_id = none;
  block_height = none;
  sequence = none;
}

abbrev key : PqKey
key = record { algorithm = 1; public_key = ascii "aa"; since = 1 }

abbrev wallet : PqWalletView
wallet = record { second_public_key = none; pq_key = some key; commitment = none }

abbrev nothing : Option PqKey
nothing = none

accepted : check_pq accepting tx milestone 7 (some 1) wallet ≡ ok none
unfolding check_pq is_pq check_pq_format check_blocks want_len pq_blocks pq_surcharge block_bytes
    is_registration check_keys block_ok pq_verified second_signature_any
accepted = refl

check_pq-SignedBy_example :
    (is_pq tx ≡ true)
    × SignedBy accepting tx key
    × ((is_registration accepting tx ≡ true) ⊎ (nothing ≡ none))
check_pq-SignedBy_example =
    check_pq-SignedBy accepting tx milestone 7 (some 1) wallet key none refl accepted

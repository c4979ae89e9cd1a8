-- ===== src/Round.antt =====
-- Rounds and slots of the consensus (src/delegate/round.rs): the round of a height, the slot of a
-- timestamp, and the shuffle that turns the ranked delegates into the forging order of a round.
-- `sha256` is a parameter: the sha2 crate computes it. A panic (an index out of range, a division
-- by zero) is `none`; so is a loop out of fuel.
pub mod Arithmetic
mod Swap
pub mod Shuffle
use sth_core_pq.Base.{
  ℕ, zero, suc, ◌+◌, ◌-◌, ◌*◌, ◌/◌, ◌%◌, ◌^◌, max, Option, none, some, List, [], ◌∷◌, ltb, ◌==◌,
  if◌then◌else◌, length, get_elem?, set, Text,
}

pub record RoundInfo : Type 0 where
  pub round : ℕ
  pub round_height : ℕ
  pub next_round : ℕ
  pub max_delegates : ℕ

-- Heights and counts are u64, and no intermediate value is above the height. The caller's
-- `max_delegates` is at least 1: the source divides by it.
unfoldable pub round_info : ℕ → ℕ → RoundInfo
round_info height max_delegates =
    let h = max height 1 in
    let round = (h - 1) / max_delegates + 1 in
    record {
      round = round;
      round_height = (round - 1) * max_delegates + 1;
      next_round = if h % max_delegates == 0 then round + 1 else round;
      max_delegates = max_delegates;
    }

unfoldable pub slot_number : ℕ → ℕ → ℕ
slot_number timestamp blocktime = timestamp / blocktime

-- The product is a u64, and the cast keeps its low 32 bits.
unfoldable pub slot_start : ℕ → ℕ → ℕ
slot_start slot blocktime = slot * blocktime % 2 ^ 64 % 2 ^ 32

pub record DelegateRank : Type 0 where
  pub public_key : Text
  pub votes : ℕ

infixl 5 ◌>>=◌
abbrev pub ◌>>=◌ {ℓ κ} : {A : Type ℓ} {B : Type κ} → Option A → (A → Option B) → Option B
none >>= f = none
some a >>= f = f a

-- `slice.swap(a, b)`
unfoldable pub swap {ℓ} : {A : Type ℓ} → List A → ℕ → ℕ → Option (List A)
swap l a b = do x ← get_elem? l a; y ← get_elem? l b; some (set (set l a y) b x)

-- `n.to_string()`: the decimal digits in ASCII, in front of `rest`. Ten divides a positive number
-- down, so a fuel above the number is enough.
decimal : ℕ → ℕ → Text → Text
decimal zero n rest = rest
decimal (suc f) n rest =
    let digit = n % 10 + b'0' in
    let more = decimal f (n / 10) (digit ∷ rest) in if ltb n 10 then digit ∷ rest else more

unfoldable pub to_string : ℕ → Text
unfolding decimal
to_string n = decimal (suc n) n []

-- The inner loop, `while x < 4 && i < n`; the first argument is the number of rounds that `x < 4`
-- leaves, 4 - x.
unfoldable pub swap_batch {ℓ} : {A : Type ℓ} → ℕ → List ℕ → ℕ → ℕ → ℕ → List A → Option (ℕ × List A)
swap_batch zero seed n x i l = some (i, l)
swap_batch (suc k) seed n x i l =
    let round = do
      byte ← get_elem? seed x
      l' ← swap l (byte % n) i
      swap_batch k seed n (x + 1) (i + 1) l'
    in if ltb i n then round else some (i, l)

module _ (sha256 : List ℕ → List ℕ) where
  -- The outer loop, `while i < n`.
  unfoldable pub shuffle_loop {ℓ} : {A : Type ℓ} → ℕ → List ℕ → ℕ → ℕ → List A → Option (List A)
  shuffle_loop zero seed n i l = none
  shuffle_loop (suc f) seed n i l =
      let round = do
        (i', l') ← swap_batch 4 seed n 0 i l
        shuffle_loop f (sha256 seed) n (i' + 1) l'
      in if ltb i n then round else some l

  -- Each round of the outer loop moves `i` on, so a fuel above the length is enough.
  unfoldable pub shuffle : List DelegateRank → ℕ → Option (List DelegateRank)
  shuffle l round =
      let n = length l in
      if n == 0 then some l else shuffle_loop (suc n) (sha256 (to_string round)) n 0 l

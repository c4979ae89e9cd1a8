-- ===== src/Round/Arithmetic.antt =====
-- Rounds partition the heights, and slots the timestamps.
use sth_core_pq.Base.{ℕ, ◌+◌, ◌-◌, ◌*◌, ◌^◌, ◌≤◌, ◌<◌, ◌≡◌, arith}
use sth_core_pq.Round.{round_info, slot_number, slot_start}

-- With at least one delegate, a height h of 1 or more lies in its round: the round begins at
-- `round_height`, the first height of round r being (r - 1) * n + 1, and has n heights.
pub round_info-covers :
    (h n : ℕ)
    → 1 ≤ h
    → 1 ≤ n
    → let info = round_info h n in
      (info.round_height ≡ (info.round - 1) * n + 1)
      × (info.round_height ≤ h)
      × (h < info.round_height + n)
unfolding round_info
round_info-covers h n ph pn = grind arith

-- With at least one delegate, `next_round` of a height is the round of the height after it.
pub round_info-next :
    (h n : ℕ) → 1 ≤ h → 1 ≤ n → (round_info h n).next_round ≡ (round_info (h + 1) n).round
unfolding round_info
round_info-next h n ph pn = grind arith

-- For a u32 timestamp and a positive block time, the slot's start is at most the timestamp, the
-- timestamp is within one block time of it, and the start has the same slot number.
pub slot_start-slot_number :
    (t b : ℕ)
    → t < 2 ^ 32
    → 1 ≤ b
    → let s = slot_number t b in
      (slot_start s b ≤ t) × (t < slot_start s b + b) × (slot_number (slot_start s b) b ≡ s)
unfolding slot_number slot_start
slot_start-slot_number t b ht hb = grind arith

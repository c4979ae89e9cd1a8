-- ===== src/Tests/Consensus.antt =====
-- Rounds, slots and the shuffle on concrete inputs. The hash is a stand-in with 32 bytes.
use sth_core_pq.Base.{ℕ, ◌+◌, ◌-◌, ◌*◌, ◌≤◌, ◌<◌, ◌≡◌, refl, some, List, [], ◌∷◌, length, arith}
use mathlib.Core.List.{Perm}
use sth_core_pq.Round.{
  round_info, slot_number, slot_start, DelegateRank, shuffle, shuffle_loop, swap_batch, swap,
  to_string,
}
use sth_core_pq.Round.Arithmetic.{round_info-covers, round_info-next, slot_start-slot_number}
use sth_core_pq.Round.Shuffle.{swaps, shuffle-swaps, shuffle-perm}

round_info-covers_example :
    let info = round_info 22 21 in
    (info.round_height ≡ (info.round - 1) * 21 + 1)
    × (info.round_height ≤ 22)
    × (22 < info.round_height + 21)
round_info-covers_example = round_info-covers 22 21 (omega arith) (omega arith)

round_info-next_example : (round_info 21 21).next_round ≡ (round_info 22 21).round
round_info-next_example = round_info-next 21 21 (omega arith) (omega arith)

slot_start-slot_number_example :
    let s = slot_number 95101461 8 in
    (slot_start s 8 ≤ 95101461)
    × (95101461 < slot_start s 8 + 8)
    × (slot_number (slot_start s 8) 8 ≡ s)
slot_start-slot_number_example = slot_start-slot_number 95101461 8 (omega arith) (omega arith)

last_of_round : (round_info 21 21).round ≡ 1
unfolding round_info
last_of_round = refl

first_of_next : (round_info 22 21).round ≡ 2
unfolding round_info
first_of_next = refl

abbrev stand_in : List ℕ → List ℕ
stand_in bs =
    7
    ∷ 1
    ∷ 4
    ∷ 9
    ∷ length bs
    ∷ 0
    ∷ 0
    ∷ 0
    ∷ 0
    ∷ 0
    ∷ 0
    ∷ 0
    ∷ 0
    ∷ 0
    ∷ 0
    ∷ 0
    ∷ 0
    ∷ 0
    ∷ 0
    ∷ 0
    ∷ 0
    ∷ 0
    ∷ 0
    ∷ 0
    ∷ 0
    ∷ 0
    ∷ 0
    ∷ 0
    ∷ 0
    ∷ 0
    ∷ 0
    ∷ 0
    ∷ []

length-stand_in : (bs : List ℕ) → length (stand_in bs) ≡ 32
length-stand_in bs = refl

abbrev delegate : ℕ → DelegateRank
delegate k = record { public_key = k ∷ []; votes = 100 - k }

abbrev six : List DelegateRank
six = delegate 0 ∷ delegate 1 ∷ delegate 2 ∷ delegate 3 ∷ delegate 4 ∷ delegate 5 ∷ []

shuffle-swaps_example :
    shuffle stand_in six 12 ≡ some (swaps stand_in 6 (stand_in (to_string 12)) 6 0 six)
shuffle-swaps_example = shuffle-swaps stand_in length-stand_in six 12

shuffle-perm_example : (l' : List DelegateRank) × (shuffle stand_in six 12 ≡ some l') × Perm six l'
shuffle-perm_example = shuffle-perm stand_in length-stand_in six 12

-- Two seeds of four swaps each; index 4, between them, is no second position.
shuffle-six :
    shuffle stand_in six 12
    ≡ some (delegate 1 ∷ delegate 5 ∷ delegate 4 ∷ delegate 3 ∷ delegate 2 ∷ delegate 0 ∷ [])
unfolding shuffle shuffle_loop swap_batch swap to_string
shuffle-six = refl

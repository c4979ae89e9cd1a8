-- ===== src/Tests/Forging.antt =====
-- The forging set and its snapshot on a chain with three delegates. The hash is a stand-in with 32
-- bytes.
use sth_core_pq.Base.{
  Text, map, take, min, ok, ℕ, zero, suc, arith, lookup, text_eq, ltb, ◌≡◌, ◌≤◌, refl, true, some,
  List, [], ◌∷◌, length, All,
}
use mathlib.Core.List.{Perm}
use sth_core_pq.Ledger.{WalletState, new_wallet}
use sth_core_pq.Ledger.Tree.{Tree}
use sth_core_pq.Ledger.Ranking.{
  Ranked, delegate_rank, active_delegates_excluding, eligible, delegate_ranking, sort_ranked,
  insert_ranked, comes_before, key_before, text_before, rank, keep_eligible, registered_delegates,
}
use sth_core_pq.Ledger.Active.{Entitled, InOrBelow, active_delegates_excluding-top}
use sth_core_pq.Ledger.Order.{IsRanked}
use sth_core_pq.Ledger.Search.{
  lowest_key, from_be_bytes, first_height, is_before, is_early, Reads, search_height,
  height_at_or_after, height_at_or_after-separates,
}
use sth_core_pq.Ledger.Tree.{MissedSlot, votes_of, height_key, to_be_bytes}
use sth_core_pq.Bytes.{to_le_bytes, from_le_bytes}
use sth_core_pq.Ledger.Env.{address_from_public_key}
use sth_core_pq.Ledger.Missed.{miss_slots, name_of, raise_missed}
use sth_core_pq.Base.{insert, Option, none, Map}
use sth_core_pq.Tests.Chain.{env, before, block, or_else}
use sth_core_pq.Ledger.Codec.{
  encode_block, encode_txs, frame, decode_block, decode_txs, next_frame, get_block_by_height,
}

abbrev delegate : ℕ → WalletState
delegate k = record (new_wallet (k ∷ [])) { public_key = some (k ∷ []); username = some (k ∷ []) }

abbrev elected : Tree (Unit {0})
elected = record before {
  wallets = (1 ∷ [], delegate 1) ∷ (2 ∷ [], delegate 2) ∷ (3 ∷ [], delegate 3) ∷ [];
  by_username = (1 ∷ [], 1 ∷ []) ∷ (2 ∷ [], 2 ∷ []) ∷ (3 ∷ [], 3 ∷ []) ∷ [];
  votes = (2 ∷ [], 70) ∷ (3 ∷ [], 50) ∷ [];
  last_height = some 3;
}

abbrev stand_in : List ℕ → List ℕ
stand_in bs =
    1 ∷ 2 ∷ 3 ∷ 4 ∷ 5 ∷ 6 ∷ 7 ∷ 8 ∷ 9 ∷ 10 ∷ 11 ∷ 12 ∷ 13 ∷ 14 ∷ 15 ∷ 16 ∷ 17 ∷ 18 ∷ 19 ∷ 20 ∷ 21
    ∷ 22 ∷ 23 ∷ 24 ∷ 25 ∷ 26 ∷ 27 ∷ 28 ∷ 29 ∷ 30 ∷ 31 ∷ 32 ∷ []

-- The third delegate is banned.
active_delegates_excluding-top_example :
    let banned : List Text = (3 ∷ []) ∷ [] in
    let names = registered_delegates elected elected.by_username in
    let active = active_delegates_excluding 2 banned elected in
    (kept : List Ranked) × Perm (keep_eligible banned names) kept
    × All (Entitled banned) kept
    × IsRanked kept
    × (active ≡ map delegate_rank (take 2 kept))
    × (length active ≡ min 2 (length (keep_eligible banned names)))
    × All (λ x. Entitled banned x → InOrBelow active x) names
active_delegates_excluding-top_example = active_delegates_excluding-top 2 ((3 ∷ []) ∷ []) elected

-- Blocks at the heights 1 and 2, of the times 8 and 16.
abbrev two_blocks : Tree (Unit {0})
two_blocks = record before {
  blocks =
      (height_key 1, or_else [] (encode_block env (record block { height = 1; timestamp = 8 })))
      ∷ (height_key 2, or_else [] (encode_block env block))
      ∷ [];
  last_height = some 2;
}

two_blocks-Reads : (k : ℕ) → 1 ≤ k → k ≤ 2 → Reads env two_blocks k
unfolding height_key to_be_bytes lookup text_eq to_le_bytes from_le_bytes encode_block encode_txs
    frame decode_block decode_txs next_frame get_block_by_height
two_blocks-Reads zero h l = absurd (omega arith)
two_blocks-Reads (suc zero) h l = (_, refl)
two_blocks-Reads (suc (suc zero)) h l = (_, refl)
two_blocks-Reads (suc (suc (suc k))) h l = absurd (omega arith)

two_blocks-ordered :
    (a b : ℕ)
    → 1 ≤ a
    → a ≤ b
    → b ≤ 2
    → is_before env 10 two_blocks b ≡ true
    → is_before env 10 two_blocks a ≡ true
unfolding height_key to_be_bytes lookup text_eq to_le_bytes from_le_bytes encode_block encode_txs
    frame decode_block decode_txs next_frame get_block_by_height is_before is_early
two_blocks-ordered zero b h k l e = absurd (omega arith)
two_blocks-ordered (suc zero) b h k l e = refl
two_blocks-ordered (suc (suc a)) zero h k l e = absurd (omega arith)
two_blocks-ordered (suc (suc a)) (suc zero) h k l e = absurd (omega arith)
two_blocks-ordered (suc (suc zero)) (suc (suc zero)) h k l e = e
two_blocks-ordered (suc (suc (suc a))) (suc (suc zero)) h k l e = absurd (omega arith)
two_blocks-ordered (suc (suc a)) (suc (suc (suc b))) h k l e = absurd (omega arith)

height_at_or_after-separates_example :
    (r : ℕ) × (height_at_or_after env 10 two_blocks ≡ some (ok r))
    × ((k : ℕ) → 1 ≤ k → k ≤ 2 → is_before env 10 two_blocks k ≡ ltb k r)
unfolding first_height lowest_key from_be_bytes height_key to_be_bytes to_le_bytes
height_at_or_after-separates_example =
    height_at_or_after-separates env 10 two_blocks two_blocks-Reads two_blocks-ordered

two_blocks-10 : height_at_or_after env 10 two_blocks ≡ some (ok 2)
unfolding height_at_or_after search_height is_early first_height lowest_key from_be_bytes height_key
    to_be_bytes lookup text_eq to_le_bytes from_le_bytes encode_block encode_txs frame decode_block
    decode_txs next_frame get_block_by_height
two_blocks-10 = refl

abbrev missed_totals : Option (List MissedSlot × Map ℕ) → Map ℕ
missed_totals none = []
missed_totals (some r) = r.1

-- Slots 4 and 5 of a round of three: the second and the third of the order missed one each.
two_missed :
    missed_totals
      (miss_slots env stand_in 2 4 3 7 8 (active_delegates_excluding 3 [] elected) elected)
    ≡ (3 ∷ [], 1) ∷ (1 ∷ [], 1) ∷ []
unfolding miss_slots name_of raise_missed active_delegates_excluding delegate_ranking
    registered_delegates sort_ranked insert_ranked comes_before key_before text_before rank
    keep_eligible eligible address_from_public_key insert lookup text_eq votes_of new_wallet
two_missed = refl

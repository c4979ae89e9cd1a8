-- ===== src/NodePool/Acquire.antt =====
-- One round of `acquire`: which node it hands out, and when it hands out none.
use sth_core_pq.Base.{
  ℕ, suc, ◌+◌, ◌-◌, ◌≤◌, max, ◌≡◌, refl, ◌⊎◌, inl, inr, true, false, Option, none, some, List, [],
  ◌∷◌, arith, if◌then◌else◌, get_elem?, set, All, Option-cases,
}
use sth_core_pq.NodePool.{
  RateLimitConfig, NodeState, Inner, Lease, leased, wait, skipped, find_best, pruned, reserve,
  round, is_earlier, wait_time,
}

-- The node can be handed out at `now`, and `slot` would be its next slot.
abbrev pub IsFree : RateLimitConfig → ℕ → NodeState → ℕ → Type 0
IsFree cfg now n slot = (skipped cfg now n ≡ false) × (slot ≡ max n.next_slot now)

abbrev IsBestOf : Option (ℕ × ℕ) → ℕ → Type 0
IsBestOf none s = Unit
IsBestOf (some (_, t)) s = s ≤ t

module _ (cfg : RateLimitConfig) (now : ℕ) where
  find_best-none :
      (i : ℕ) (ns : List NodeState) (best : Option (ℕ × ℕ))
      → find_best cfg now i ns best ≡ none
      → (best ≡ none) × All (λ n. skipped cfg now n ≡ true) ns
  unfolding find_best
  find_best-none i [] best h = (h, tt)
  find_best-none i (n ∷ ns) none h = ground (
    arith,
    find_best-none (i + 1) ns none,
    find_best-none (i + 1) ns (some (i, max n.next_slot now)),
  )
  find_best-none i (n ∷ ns) (some b) h = ground (
    arith,
    find_best-none (i + 1) ns (some b),
    find_best-none (i + 1) ns (some (i, max n.next_slot now)),
  )

  find_best-le :
      (i k s : ℕ) (ns : List NodeState) (best : Option (ℕ × ℕ))
      → find_best cfg now i ns best ≡ some (k, s)
      → IsBestOf best s × All (λ n. skipped cfg now n ≡ false → s ≤ max n.next_slot now) ns
  unfolding find_best
  find_best-le i k s [] best h = rw h (omega arith, tt)
  find_best-le i k s (n ∷ ns) none h = ground (
    arith,
    find_best-le (i + 1) k s ns none,
    find_best-le (i + 1) k s ns (some (i, max n.next_slot now)),
  )
  find_best-le i k s (n ∷ ns) (some b) h = ground (
    arith,
    find_best-le (i + 1) k s ns (some b),
    find_best-le (i + 1) k s ns (some (i, max n.next_slot now)),
  )

  -- The node at index k, counted from i on.
  abbrev IsFound : ℕ → ℕ → ℕ → List NodeState → Type 0
  IsFound i k s ns =
      (i ≤ k) × ((n : NodeState) × (get_elem? ns (k - i) ≡ some n) × IsFree cfg now n s)

  IsFound-later :
      (i k s : ℕ) (n : NodeState) (ns : List NodeState)
      → IsFound (i + 1) k s ns
      → IsFound i k s (n ∷ ns)
  IsFound-later i k s n ns (le, (m, e, free)) =
      let next : k - i ≡ suc (k - (i + 1)) = omega arith in (omega arith, (m, rw next e, free))

  IsFound-here :
      (i k s : ℕ) (n : NodeState) (ns : List NodeState)
      → IsFree cfg now n s
      → i ≡ k
      → IsFound i k s (n ∷ ns)
  IsFound-here i k s n ns free e =
      let here : k - i ≡ 0 = omega arith in (omega arith, (n, rw here refl, free))

  find_best-at :
      (i k s : ℕ) (ns : List NodeState) (best : Option (ℕ × ℕ))
      → find_best cfg now i ns best ≡ some (k, s)
      → (best ≡ some (k, s)) ⊎ IsFound i k s ns
  unfolding find_best
  find_best-at i k s [] best h = inl h
  find_best-at i k s (n ∷ ns) best h =
      let slot = max n.next_slot now in
      let best' =
        if skipped cfg now n then best else if is_earlier slot best then some (i, slot) else best in
      elim (find_best-at (i + 1) k s ns best' h) [
        | inl e ↦ ground (arith, IsFound-here i k s n ns)
        | inr later ↦ inr (IsFound-later i k s n ns later)
      ]

wait_time-ge :
    (cfg : RateLimitConfig) (now : ℕ) (ns : List NodeState) → 50_000_000 ≤ wait_time cfg now ns
unfolding wait_time
wait_time-ge cfg now ns = omega arith

-- A round hands out a lease exactly if some node, its window pruned, is neither parked nor at its
-- limit. The lease is then of such a node; its slot is that node's next one, and no other such node
-- has an earlier one; the node gets the slot into its window, and the others are only pruned.
-- Otherwise the pool sleeps for 50 ms or more, and only prunes.
pub round_lem :
    (cfg : RateLimitConfig) (now : ℕ) (inner : Inner)
    → let (r, inner') = round cfg now inner in
      let ns = pruned cfg now inner in
      ((l : Lease) × (n : NodeState) × (r ≡ leased l)
        × (get_elem? ns l.index ≡ some n)
        × IsFree cfg now n l.slot
        × All (λ m. skipped cfg now m ≡ false → l.slot ≤ max m.next_slot now) ns
        × (inner'.nodes ≡ set ns l.index (reserve cfg l.slot n)))
      ⊎ ((t : ℕ) × (r ≡ wait t)
          × (50_000_000 ≤ t)
          × All (λ m. skipped cfg now m ≡ true) ns
          × (inner'.nodes ≡ ns))
unfolding round
round_lem cfg now inner =
    let ns = pruned cfg now inner in
    elim (Option-cases (find_best cfg now 0 ns none)) [
      | inl nobody ↦
          let all_skipped = (find_best-none cfg now 0 ns none nobody).1 in
          rw (nobody, round)
            (inr (wait_time cfg now ns, refl, wait_time-ge cfg now ns, all_skipped, refl))
      | inr ((k, s), found) ↦ elim (find_best-at cfg now 0 k s ns none found) [
        | inl absurd_best ↦ absurd (cc)
        | inr at_index ↦
            let (n, e, free) = at_index.1 in
            let same : k - 0 ≡ k = omega arith in
            let earliest = (find_best-le cfg now 0 k s ns none found).1 in
            let l : Lease = record { index = k; url = n.url; host = n.host; slot = s } in
            let e' = rw same at e in
            rw (found, e', round) (inl (l, n, refl, e', free, earliest, refl))
      ]
    ]

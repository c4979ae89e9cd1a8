-- ===== src/Tests/Pool.antt =====
-- The node pool on two concrete nodes. Instants are nanoseconds.
use sth_core_pq.Base.{
  ℕ, ◌+◌, ◌≤◌, ◌≡◌, ◌⊎◌, refl, true, false, none, some, List, [], ◌∷◌, arith, max, get_elem?, set,
  Text, ascii, All, from_secs,
}
use sth_core_pq.NodePool.{
  default_config, NodeState, Inner, Lease, leased, wait, round, pruned, skipped, reserve, spacing,
  host_of, report_rate_limited, report_failure, prune, prune_queue, find_best, trim_start_matches,
  trim_end_matches, before, strip_prefix, parked,
}
use sth_core_pq.NodePool.Acquire.{IsFree, round_lem}
use sth_core_pq.NodePool.Rate.{InRate, Spaced}
use sth_core_pq.NodePool.Runs.{Op, try, rate_limited, step, run, slots_of, run_rate}
use sth_core_pq.NodePool.Parking.{
  IsParked, run-IsParked, run-report_rate_limited, fail_all, fail_all-parks,
}

abbrev node : Text → NodeState
node host = record {
  url = host;
  host = host;
  window = [];
  next_slot = 0;
  parked_until = none;
  failures = 0;
}

abbrev two_nodes : Inner
two_nodes = record { nodes = node (ascii "a") ∷ node (ascii "b") ∷ []; last_used = 0 }

abbrev first : Lease
first = record { index = 0; url = ascii "a"; host = ascii "a"; slot = 5 }

-- Two rounds, a 429 for the first node, and two more rounds.
abbrev ops : List Op
ops = try 5 ∷ try 6 ∷ rate_limited 7 7 first ∷ try 8 ∷ try 9 ∷ []

round_lem_example :
    let (r, inner') = round default_config 5 two_nodes in
    let ns = pruned default_config 5 two_nodes in
    ((l : Lease) × (n : NodeState) × (r ≡ leased l)
      × (get_elem? ns l.index ≡ some n)
      × IsFree default_config 5 n l.slot
      × All (λ m. skipped default_config 5 m ≡ false → l.slot ≤ max m.next_slot 5) ns
      × (inner'.nodes ≡ set ns l.index (reserve default_config l.slot n)))
    ⊎ ((t : ℕ) × (r ≡ wait t)
        × (50_000_000 ≤ t)
        × All (λ m. skipped default_config 5 m ≡ true) ns
        × (inner'.nodes ≡ ns))
round_lem_example = round_lem default_config 5 two_nodes

run_rate_example :
    let (ls, inner') = run default_config ops two_nodes in
    (n' : NodeState) × (get_elem? inner'.nodes 0 ≡ some n')
    × InRate 249 (from_secs 60) (slots_of 0 ls)
    × Spaced (spacing default_config) n'.next_slot (slots_of 0 ls)
run_rate_example =
    run_rate default_config 5 0 (node (ascii "a")) ops two_nodes (omega arith) (omega arith)
      (omega arith, (omega arith, (omega arith, (omega arith, tt)))) refl refl

abbrev parked_pool : Inner
parked_pool = record {
  nodes = record (node (ascii "a")) { parked_until = some 100 } ∷ node (ascii "b") ∷ [];
  last_used = 0;
}

run-IsParked_example :
    let (ls, inner') = run default_config (try 5 ∷ try 6 ∷ []) parked_pool in
    IsParked 0 100 inner' × (slots_of 0 ls ≡ [])
run-IsParked_example =
    run-IsParked default_config 0 100 (try 5 ∷ try 6 ∷ []) parked_pool
      (omega arith, (omega arith, tt))
      (record (node (ascii "a")) { parked_until = some 100 }, refl, refl)

run-report_rate_limited_example :
    let inner' = (report_rate_limited default_config 7 7 first two_nodes).1 in
    let (ls, inner'') = run default_config (try 8 ∷ try 9 ∷ []) inner' in
    IsParked 0 (7 + from_secs 60) inner'' × (slots_of 0 ls ≡ [])
run-report_rate_limited_example =
    run-report_rate_limited default_config 7 7 first (node (ascii "a")) (try 8 ∷ try 9 ∷ [])
      two_nodes refl (omega arith, (omega arith, tt))

abbrev failures : List (ℕ × ℕ)
failures = (1, 1) ∷ (2, 2) ∷ (3, 3) ∷ (4, 4) ∷ []

fail_all-parks_example :
    let before = fail_all default_config first failures ((0, none), two_nodes) in
    let (r', inner') = report_failure default_config 5 5 first before.1 in
    (get_elem? before.1.nodes 0 ≡ some (record (node (ascii "a")) { failures = 4 }))
    × (r'.0 ≡ 5)
    × (get_elem? inner'.nodes 0
        ≡ some (record (node (ascii "a")) { parked_until = some (5 + from_secs 30); failures = 0 }))
fail_all-parks_example =
    fail_all-parks default_config first (node (ascii "a")) failures 5 5 (0, none) two_nodes refl
      refl

host_of_url : host_of (ascii "https://node.example:6003/") ≡ ascii "node.example:6003"
unfolding host_of trim_start_matches trim_end_matches before strip_prefix
host_of_url = refl

-- Two rounds at the same instant go to different nodes.
spread :
    let (ls, inner') = run default_config (try 5 ∷ try 5 ∷ []) two_nodes in
    (slots_of 0 ls ≡ 5 ∷ []) × (slots_of 1 ls ≡ 5 ∷ [])
unfolding run slots_of step round find_best prune prune_queue skipped spacing parked
spread = (refl, refl)

-- ===== src/NodePool.antt =====
-- The rate-limited pool of REST nodes (src/node_pool.rs). Instants and durations are nanoseconds.
-- The mutex makes each operation atomic, so the pool is a state that each operation turns into the
-- next; a poisoned lock, which the source treats as a free one, does not occur. `acquire` makes its
-- rounds at a list of clock readings, one after each sleep; an instant past the end of the list is
-- `none`.
pub mod Acquire
pub mod Rate
pub mod Runs
pub mod Parking
use sth_core_pq.Base.{
  ℕ, zero, suc, ◌+◌, ◌-◌, ◌/◌, ◌%◌, min, max, Bool, true, false, not, ◌||◌, Option, none, some,
  List, [], ◌∷◌, ◌++◌, map, ltb, leb, ◌==◌, if◌then◌else◌, Text, length, get_elem?, set, from_secs,
  from_millis, ascii,
}

pub record RateLimitConfig : Type 0 where
  pub per_node_rps : ℕ
  pub window_limit : ℕ
  pub window : ℕ
  pub ban_on_429 : ℕ
  pub max_failures : ℕ
  pub ban_on_failures : ℕ

-- `RateLimitConfig::default`
abbrev pub default_config : RateLimitConfig
default_config = record {
  per_node_rps = 4;
  window_limit = 250;
  window = from_secs 60;
  ban_on_429 = from_secs 60;
  max_failures = 5;
  ban_on_failures = from_secs 30;
}

pub record NodeState : Type 0 where
  pub url : Text
  pub host : Text
  pub window : List ℕ
  pub next_slot : ℕ
  pub parked_until : Option ℕ
  pub failures : ℕ

-- The queue without its expired front.
unfoldable pub prune_queue : ℕ → ℕ → List ℕ → List ℕ
prune_queue now window [] = []
prune_queue now window (front ∷ queue) =
    let rest = prune_queue now window queue in
    if leb window (now - front) then rest else front ∷ queue

unfoldable pub prune : ℕ → ℕ → NodeState → NodeState
prune now window n = record n { window = prune_queue now window n.window }

unfoldable pub parked : ℕ → NodeState → Bool
parked now n = elim n.parked_until [ none ↦ false | some t ↦ ltb now t ]

pub record Inner : Type 0 where
  pub nodes : List NodeState
  pub last_used : ℕ

pub record Lease : Type 0 where
  pub index : ℕ
  pub url : Text
  pub host : Text
  pub slot : ℕ

-- `s.strip_prefix(p)`, over the prefix.
unfoldable pub strip_prefix : Text → Text → Option Text
strip_prefix [] s = some s
strip_prefix (x ∷ p) [] = none
strip_prefix (x ∷ p) (y ∷ s) = if x == y then strip_prefix p s else none

-- `s.trim_start_matches(p)`: as often as it stands there. A prefix that is not empty shortens the
-- text, so its length is fuel enough.
trim_start_fuel : ℕ → Text → Text → Text
trim_start_fuel zero p s = s
trim_start_fuel (suc f) p s = elim (strip_prefix p s) [
  | none ↦ s
  | some rest ↦ trim_start_fuel f p rest
]

unfoldable pub trim_start_matches : Text → Text → Text
unfolding trim_start_fuel strip_prefix
trim_start_matches p s = trim_start_fuel (length s) p s

-- `s.trim_end_matches(c)` of a character.
unfoldable pub trim_end_matches : ℕ → Text → Text
trim_end_matches c [] = []
trim_end_matches c (x ∷ s) = elim (trim_end_matches c s) [
  | [] ↦ if x == c then [] else x ∷ []
  | y ∷ ys ↦ x ∷ y ∷ ys
]

-- `s.split(c).next()`
unfoldable pub before : ℕ → Text → Text
before c [] = []
before c (x ∷ s) = let rest = before c s in if x == c then [] else x ∷ rest

unfoldable pub host_of : Text → Text
unfolding trim_start_matches trim_end_matches before
host_of url = before b'/' (
    trim_end_matches b'/'
      (trim_start_matches (ascii "http://") (trim_start_matches (ascii "https://") url)))

abbrev new_node : ℕ → Text → NodeState
unfolding trim_end_matches host_of
new_node now u = record {
  url = trim_end_matches b'/' u;
  host = host_of u;
  window = [];
  next_slot = now;
  parked_until = none;
  failures = 0;
}

-- `NodePool::new`
pub new : ℕ → List Text → Inner
unfolding new_node
new now urls = record { nodes = map (new_node now) urls; last_used = 0 }

-- `Duration::from_millis(1000 / per_node_rps.max(1))`
unfoldable pub spacing : RateLimitConfig → ℕ
spacing cfg = from_millis (1000 / max cfg.per_node_rps 1)

-- `n.parked(now) || n.window.len() >= window_limit`: the search passes over the node.
unfoldable pub skipped : RateLimitConfig → ℕ → NodeState → Bool
skipped cfg now n = parked now n || leb cfg.window_limit (length n.window)

abbrev is_earlier : ℕ → Option (ℕ × ℕ) → Bool
is_earlier slot none = true
is_earlier slot (some (_, s)) = ltb slot s

-- The first of the earliest slots: the search through the nodes from index i on, with the best so
-- far.
unfoldable pub find_best :
    RateLimitConfig → ℕ → ℕ → List NodeState → Option (ℕ × ℕ) → Option (ℕ × ℕ)
find_best cfg now i [] best = best
find_best cfg now i (n ∷ ns) best =
    let slot = max n.next_slot now in
    find_best cfg now (i + 1) ns
      (if skipped cfg now n then best else if is_earlier slot best then some (i, slot) else best)

-- When a parked or exhausted node may be free again: the candidates of the wait.
pub candidates : RateLimitConfig → NodeState → List ℕ
candidates cfg n =
    elim n.parked_until [ none ↦ [] | some p ↦ p ∷ [] ]
    ++ (if leb cfg.window_limit (length n.window)
        then elim n.window [ [] ↦ [] | front ∷ _ ↦ (front + cfg.window) ∷ [] ]
        else [])

unfoldable pub earliest_of : List ℕ → Option ℕ → Option ℕ
earliest_of [] best = best
earliest_of (c ∷ cs) best = earliest_of cs (some (elim best [ none ↦ c | some e ↦ min e c ]))

pub earliest : RateLimitConfig → List NodeState → Option ℕ → Option ℕ
earliest cfg [] best = best
earliest cfg (n ∷ ns) best = earliest cfg ns (earliest_of (candidates cfg n) best)

-- The sleep when no node is free.
pub wait_time : RateLimitConfig → ℕ → List NodeState → ℕ
wait_time cfg now ns =
    max (elim (earliest cfg ns none) [ none ↦ from_secs 1 | some e ↦ e - now ]) (from_millis 50)

-- The node that is handed out: its next slot moves on, and the slot joins its window.
abbrev pub reserve : RateLimitConfig → ℕ → NodeState → NodeState
reserve cfg slot n = record n { window = n.window ++ (slot ∷ []); next_slot = slot + spacing cfg }

-- One round of `acquire`: a lease, or the time to sleep.
pub data Round : Type 0 where
  leased : Lease → Round
  wait : ℕ → Round

abbrev pub pruned : RateLimitConfig → ℕ → Inner → List NodeState
pruned cfg now inner = map (prune now cfg.window) inner.nodes

-- The index that the search returns is in range, so the inner `none` does not occur.
unfoldable pub round : RateLimitConfig → ℕ → Inner → Round × Inner
round cfg now inner =
    let nodes = pruned cfg now inner in
    let waiting : Round × Inner =
      (wait (wait_time cfg now nodes), record inner { nodes = nodes }) in
    elim (find_best cfg now 0 nodes none) [
      | none ↦ waiting
      | some (i, slot) ↦ elim (get_elem? nodes i) [
        | none ↦ waiting
        | some n ↦ (
          leased (record { index = i; url = n.url; host = n.host; slot = slot }),
          record { nodes = set nodes i (reserve cfg slot n); last_used = i },
        )
      ]
    ]

-- `acquire`, with the clock reading of each round.
unfoldable pub acquire : RateLimitConfig → List ℕ → Inner → Option Lease × Inner
acquire cfg [] inner = (none, inner)
acquire cfg (now ∷ later) inner =
    let (r, inner') = round cfg now inner in
    let rest = acquire cfg later inner' in elim r [ leased l ↦ (some l, inner') | wait _ ↦ rest ]

-- `nodes.get_mut(i)`, changed by f if there is one.
abbrev pub update : List NodeState → ℕ → (NodeState → NodeState) → List NodeState
update ns i f = elim (get_elem? ns i) [ none ↦ ns | some n ↦ set ns i (f n) ]

pub report_success : Lease → Inner → Inner
report_success l inner = record inner {
  nodes = update inner.nodes l.index (λ n. record n { failures = 0 });
}

-- The first node that is not parked among those at `after + 1`, ..., `after + len`, modulo `len`; the
-- first argument is the number of nodes still to look at.
pub free_from : ℕ → ℕ → ℕ → List NodeState → Option Text
free_from now zero k ns = none
free_from now (suc left) k ns =
    let more = free_from now left (k + 1) ns in
    elim (get_elem? ns (k % length ns)) [
      | none ↦ none
      | some n ↦ if not (parked now n) then some n.host else more
    ]

pub next_free_host : ℕ → Inner → ℕ → Option Text
next_free_host now inner after = free_from now (length inner.nodes) (after + 1) inner.nodes

-- `now` is the reading for the ban, `later` that of the search.
pub report_rate_limited : RateLimitConfig → ℕ → ℕ → Lease → Inner → Option Text × Inner
report_rate_limited cfg now later l inner =
    let inner' : Inner = record inner {
      nodes =
          update inner.nodes l.index
            (λ n. record n { parked_until = some (now + cfg.ban_on_429); failures = 0 });
    } in
    (next_free_host later inner' l.index, inner')

-- The number of consecutive failures, and the host to switch to once the node is parked. The u32
-- counter stays below `max_failures`, so it does not wrap.
pub report_failure : RateLimitConfig → ℕ → ℕ → Lease → Inner → (ℕ × Option Text) × Inner
report_failure cfg now later l inner = elim (get_elem? inner.nodes l.index) [
  | none ↦ ((0, none), inner)
  | some n ↦
      let failures = n.failures + 1 in
      let park : Inner = record inner {
        nodes =
            set inner.nodes l.index
              (record n { parked_until = some (now + cfg.ban_on_failures); failures = 0 });
      } in
      if leb cfg.max_failures failures
      then ((cfg.max_failures, next_free_host later park l.index), park)
      else (
        (failures, none),
        record inner { nodes = set inner.nodes l.index (record n { failures = failures }) },
      )
]

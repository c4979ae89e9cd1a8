-- ===== src/NodePool/Parking.antt =====
-- Parked nodes: after a 429 a node gets no request until its time is over; failures in a row park it.
use sth_core_pq.Base.{
  ℕ, suc, ◌+◌, ◌<◌, ◌≡◌, ◌≢◌, refl, ap, ◌∙◌, inl, inr, true, false, Option, none, some, List, [],
  ◌∷◌, arith, leb, ◌==◌, length, get_elem?, set, get_elem?-set_self, get_elem?-set_ne, Bool-cases,
  Option-cases, Text,
}
use native.Mathlib.Decide.{ℕ_discrete}
use sth_core_pq.NodePool.{
  RateLimitConfig, NodeState, Inner, Lease, skipped, parked, pruned, prune, update, report_success,
  report_rate_limited, report_failure,
}
use sth_core_pq.NodePool.Acquire.{round_lem, IsFree}
use sth_core_pq.NodePool.Runs.{
  Op, try, success, rate_limited, failure, step, run, slots_of, slots_of-append, get_elem?-map,
  lt_of_get_elem?,
}

-- Node i is parked until that time.
abbrev pub IsParked : ℕ → ℕ → Inner → Type 0
IsParked i until inner =
    (n : NodeState) × (get_elem? inner.nodes i ≡ some n) × (n.parked_until ≡ some until)

-- The operation reports nothing about node i, and reads a clock before that time.
abbrev pub IsQuiet : ℕ → ℕ → Op → Type 0
IsQuiet i until (try now) = now < until
IsQuiet i until (success l) = l.index ≢ i
IsQuiet i until (rate_limited now later l) = l.index ≢ i
IsQuiet i until (failure now later l) = l.index ≢ i

module _ (cfg : RateLimitConfig) (i until : ℕ) where
  free-not_parked :
      (now slot : ℕ) (n : NodeState)
      → n.parked_until ≡ some until
      → now < until
      → IsFree cfg now n slot
      → ⊥
  unfolding skipped parked
  free-not_parked now slot n e early (free, _) = ground arith

  update-other :
      (j : ℕ) (ns : List NodeState) (f : NodeState → NodeState)
      → j ≢ i
      → get_elem? (update ns j f) i ≡ get_elem? ns i
  update-other j ns f other = elim (Option-cases (get_elem? ns j)) [
    | inl absent ↦ rw (absent, update)
    | inr (m, e) ↦ rw (e, update) (get_elem?-set_ne ns j i (f m) other)
  ]

  failure-other :
      (now later : ℕ) (l : Lease) (inner : Inner)
      → l.index ≢ i
      → get_elem? (report_failure cfg now later l inner).1.nodes i ≡ get_elem? inner.nodes i
  unfolding report_failure
  failure-other now later l inner other = elim (Option-cases (get_elem? inner.nodes l.index)) [
    | inl absent ↦ rw (absent, report_failure)
    | inr (m, e) ↦ elim (Bool-cases (leb cfg.max_failures (m.failures + 1))) [
      | inl parks ↦ rw (e, parks, report_failure) (get_elem?-set_ne inner.nodes l.index i _ other)
      | inr counts ↦ rw (e, counts, report_failure) (get_elem?-set_ne inner.nodes l.index i _ other)
    ]
  ]

  step-IsParked :
      (o : Op) (inner : Inner)
      → IsQuiet i until o
      → IsParked i until inner
      → let (ls, inner') = step cfg o inner in IsParked i until inner' × (slots_of i ls ≡ [])
  unfolding step slots_of prune report_success report_rate_limited
  step-IsParked (success l) inner other (n, e, p) =
      ((n, update-other l.index inner.nodes _ other ∙ e, p), refl)
  step-IsParked (rate_limited now later l) inner other (n, e, p) =
      ((n, update-other l.index inner.nodes _ other ∙ e, p), refl)
  step-IsParked (failure now later l) inner other (n, e, p) =
      ((n, failure-other now later l inner other ∙ e, p), refl)
  step-IsParked (try now) inner early (n, e, p) =
      let ns = pruned cfg now inner in
      let n' = prune now cfg.window n in
      let e' : get_elem? ns i ≡ some n' = get_elem?-map (prune now cfg.window) inner.nodes i n e in
      elim (round_lem cfg now inner) [
        | inr (t, waits, _, _, kept) ↦ rw (waits, kept) ((n', e', p), refl)
        | inl (l, m, leases, at_l, free, _, kept) ↦ elim (ℕ_discrete l.index i) [
          | yes here ↦
              let at_l' = rw here at at_l in
              let same : m ≡ n' = cc in
              absurd (free-not_parked now l.slot n' p early (rw same at free))
          | no other ↦
              let not_mine : (l.index == i) ≡ false = ground arith in
              rw (leases, kept, not_mine)
                ((n', get_elem?-set_ne ns l.index i _ other ∙ e', p), refl)
        ]
      ]

abbrev pub AllQuiet : ℕ → ℕ → List Op → Type 0
AllQuiet i until [] = Unit
AllQuiet i until (o ∷ os) = IsQuiet i until o × AllQuiet i until os

-- While node i is parked and nothing is reported about it, no round of `acquire` that reads a clock
-- before the end of the parking leases it, and it stays parked.
pub run-IsParked :
    (cfg : RateLimitConfig) (i until : ℕ) (os : List Op) (inner : Inner)
    → AllQuiet i until os
    → IsParked i until inner
    → let (ls, inner') = run cfg os inner in IsParked i until inner' × (slots_of i ls ≡ [])
unfolding run
run-IsParked cfg i until [] inner quiet p = (p, unfold slots_of in refl)
run-IsParked cfg i until (o ∷ os) inner (q, quiet) p =
    let (p', none_now) = step-IsParked cfg i until o inner q p in
    let (ls, inner') = step cfg o inner in
    let (p'', none_later) = run-IsParked cfg i until os inner' quiet p' in
    (p'', slots_of-append cfg i ls (run cfg os inner').0 ∙ rw (none_now, none_later) refl)

update_self :
    (i : ℕ) (ns : List NodeState) (n : NodeState) (f : NodeState → NodeState)
    → get_elem? ns i ≡ some n
    → get_elem? (update ns i f) i ≡ some (f n)
update_self i ns n f e = rw (e, update) (get_elem?-set_self ns i (f n) (lt_of_get_elem? ns i n e))

-- After a 429 on a lease of the pool, as long as nothing more is reported about its node, no round
-- of `acquire` that reads a clock before `ban_on_429` is over leases the node.
pub run-report_rate_limited :
    (cfg : RateLimitConfig) (now later : ℕ) (l : Lease) (n : NodeState) (os : List Op)
    (inner : Inner)
    → get_elem? inner.nodes l.index ≡ some n
    → AllQuiet l.index (now + cfg.ban_on_429) os
    → let inner' = (report_rate_limited cfg now later l inner).1 in
      let (ls, inner'') = run cfg os inner' in
      IsParked l.index (now + cfg.ban_on_429) inner'' × (slots_of l.index ls ≡ [])
unfolding report_rate_limited
run-report_rate_limited cfg now later l n os inner e quiet =
    let until = now + cfg.ban_on_429 in
    let park = λ (m : NodeState). record m { parked_until = some until; failures = 0 } in
    let inner' = (report_rate_limited cfg now later l inner).1 in
    let parked' : IsParked l.index until inner' =
      (park n, update_self l.index inner.nodes n park e, refl) in
    run-IsParked cfg l.index until os inner' quiet parked'

-- Failure after failure on one node, with the clock readings of each; the result is the last one's.
pub fail_all :
    RateLimitConfig → Lease → List (ℕ × ℕ) → (ℕ × Option Text) × Inner → (ℕ × Option Text) × Inner
fail_all cfg l [] r = r
fail_all cfg l ((now, later) ∷ ts) (_, inner) =
    fail_all cfg l ts (report_failure cfg now later l inner)

failure-parks :
    (cfg : RateLimitConfig) (now later : ℕ) (l : Lease) (n : NodeState) (inner : Inner)
    → get_elem? inner.nodes l.index ≡ some n
    → leb cfg.max_failures (n.failures + 1) ≡ true
    → let (r, inner') = report_failure cfg now later l inner in
      (r.0 ≡ cfg.max_failures)
      × (get_elem? inner'.nodes l.index
          ≡ some (record n { parked_until = some (now + cfg.ban_on_failures); failures = 0 }))
unfolding report_failure
failure-parks cfg now later l n inner e parks =
    rw (e, parks, report_failure)
      (refl, get_elem?-set_self inner.nodes l.index _ (lt_of_get_elem? inner.nodes l.index n e))

failure-counts :
    (cfg : RateLimitConfig) (now later : ℕ) (l : Lease) (n : NodeState) (inner : Inner)
    → get_elem? inner.nodes l.index ≡ some n
    → leb cfg.max_failures (n.failures + 1) ≡ false
    → report_failure cfg now later l inner ≡ (
      (n.failures + 1, none),
      record inner { nodes = set inner.nodes l.index (record n { failures = n.failures + 1 }) },
    )
unfolding report_failure
failure-counts cfg now later l n inner e counts = rw (e, counts, report_failure) refl

-- If the node's failures and those to come make `max_failures`, the last of them, and none before,
-- parks the node, for `ban_on_failures` from its reading on: it returns `max_failures` and clears
-- the count.
pub fail_all-parks :
    (cfg : RateLimitConfig) (l : Lease) (n : NodeState) (ts : List (ℕ × ℕ)) (now later : ℕ)
    (r : ℕ × Option Text) (inner : Inner)
    → get_elem? inner.nodes l.index ≡ some n
    → n.failures + length ts + 1 ≡ cfg.max_failures
    → let before = fail_all cfg l ts (r, inner) in
      let (r', inner') = report_failure cfg now later l before.1 in
      (get_elem? before.1.nodes l.index ≡ some (record n { failures = n.failures + length ts }))
      × (r'.0 ≡ cfg.max_failures)
      × (get_elem? inner'.nodes l.index
          ≡ some (record n { parked_until = some (now + cfg.ban_on_failures); failures = 0 }))
unfolding fail_all
fail_all-parks cfg l n [] now later r inner e count =
    let last : leb cfg.max_failures (n.failures + 1) ≡ true = ground arith in
    let (result, at_node) = failure-parks cfg now later l n inner e last in
    (e ∙ ap (λ k. some (record n { failures = k })) (omega arith), result, at_node)
fail_all-parks cfg l n ((t, u) ∷ ts) now later r inner e count =
    let early : leb cfg.max_failures (n.failures + 1) ≡ false = ground arith in
    let n' : NodeState = record n { failures = n.failures + 1 } in
    let inner' : Inner = record inner { nodes = set inner.nodes l.index n' } in
    let at_node =
      get_elem?-set_self inner.nodes l.index n' (lt_of_get_elem? inner.nodes l.index n e) in
    let total : n.failures + suc (length ts) ≡ n.failures + 1 + length ts = omega arith in
    rw (failure-counts cfg t u l n inner e early, total, fail_all)
      (fail_all-parks cfg l n' ts now later (n.failures + 1, none) inner' at_node (omega arith))

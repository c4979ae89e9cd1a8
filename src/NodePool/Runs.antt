-- ===== src/NodePool/Runs.antt =====
-- The rate limit over runs of the pool: rounds of `acquire` and reports in any order.
use sth_core_pq.Base.{
  ℕ, zero, suc, ◌+◌, ◌-◌, ◌≤◌, ◌<◌, ◌≡◌, refl, sym, subst, ap, ◌∙◌, inl, inr, true, false, some,
  List, [], ◌∷◌, ◌++◌, map, arith, leb, ◌==◌, if◌then◌else◌, length, get_elem?, set,
  get_elem?-set_self, get_elem?-set_ne, Bool-cases, Option-cases,
}
use mathlib.Core.List.{append_assoc, append-nil}
use native.Mathlib.Decide.{ℕ_discrete}
use sth_core_pq.NodePool.{
  RateLimitConfig, NodeState, Inner, Lease, Round, leased, wait, pruned, prune, reserve, round,
  spacing, update, report_success, report_rate_limited, report_failure,
}
use sth_core_pq.NodePool.Acquire.{round_lem}
use sth_core_pq.NodePool.Rate.{InRate, Spaced, IsTracked, prune-IsTracked, reserve-IsTracked}

-- An operation of the pool with its clock readings; `try` is one round of `acquire`.
pub data Op : Type 0 where
  try : ℕ → Op
  success : Lease → Op
  rate_limited failure : ℕ → ℕ → Lease → Op

abbrev lease_of : Round → List Lease
lease_of (leased l) = l ∷ []
lease_of (wait t) = []

-- The leases that an operation hands out, and the pool after it.
unfoldable pub step : RateLimitConfig → Op → Inner → List Lease × Inner
step cfg (try now) inner = let (r, inner') = round cfg now inner in (lease_of r, inner')
step cfg (success l) inner = ([], report_success l inner)
step cfg (rate_limited now later l) inner = ([], (report_rate_limited cfg now later l inner).1)
step cfg (failure now later l) inner = ([], (report_failure cfg now later l inner).1)

unfoldable pub run : RateLimitConfig → List Op → Inner → List Lease × Inner
run cfg [] inner = ([], inner)
run cfg (o ∷ os) inner =
    let (ls, inner') = step cfg o inner in
    let (more, inner'') = run cfg os inner' in (ls ++ more, inner'')

-- The slots of node i among the leases.
unfoldable pub slots_of : ℕ → List Lease → List ℕ
slots_of i [] = []
slots_of i (l ∷ ls) = if l.index == i then l.slot ∷ slots_of i ls else slots_of i ls

-- The rounds read a clock that does not run backwards.
abbrev pub Ordered : ℕ → List Op → Type 0
Ordered clock [] = Unit
Ordered clock (try now ∷ os) = (clock ≤ now) × Ordered now os
Ordered clock (o ∷ os) = Ordered clock os

abbrev clock_after : ℕ → Op → ℕ
clock_after clock (try now) = now
clock_after clock o = clock

pub get_elem?-map :
    {A B : Type 0} (f : A → B) (xs : List A) (i : ℕ) (a : A)
    → get_elem? xs i ≡ some a
    → get_elem? (map f xs) i ≡ some (f a)
get_elem?-map f [] i a e = cc
get_elem?-map f (x ∷ xs) zero a e = ground arith
get_elem?-map f (x ∷ xs) (suc i) a e = get_elem?-map f xs i a e

pub lt_of_get_elem? :
    {A : Type 0} (xs : List A) (i : ℕ) (a : A) → get_elem? xs i ≡ some a → i < length xs
lt_of_get_elem? [] i a e = cc
lt_of_get_elem? (x ∷ xs) zero a e = omega arith
lt_of_get_elem? (x ∷ xs) (suc i) a e = omega (arith, lt_of_get_elem? xs i a e)

module _ (cfg : RateLimitConfig) (i : ℕ) where
  -- Node i of the pool, with its history of slots.
  abbrev Tracks : ℕ → List ℕ → Inner → Type 0
  Tracks clock history inner =
      (n : NodeState) × (get_elem? inner.nodes i ≡ some n) × IsTracked cfg clock history n

  IsTracked-same :
      (clock : ℕ) (history : List ℕ) (n n' : NodeState)
      → n.window ≡ n'.window
      → n.next_slot ≡ n'.next_slot
      → IsTracked cfg clock history n
      → IsTracked cfg clock history n'
  IsTracked-same clock history n n' same_window same_next (old, split, expired, rate, spaced) = (
    old,
    split ∙ ap (λ w. old ++ w) same_window,
    expired,
    rate,
    subst (λ next. Spaced (spacing cfg) next history) same_next spaced,
  )

  -- A write at index j that leaves window and next slot alone.
  set-Tracks :
      (clock j : ℕ) (history : List ℕ) (inner : Inner) (m m' : NodeState)
      → get_elem? inner.nodes j ≡ some m
      → m'.window ≡ m.window
      → m'.next_slot ≡ m.next_slot
      → Tracks clock history inner
      → Tracks clock history (record inner { nodes = set inner.nodes j m' })
  set-Tracks clock j history inner m m' e same_window same_next (n, at_i, tracked) =
      elim (ℕ_discrete j i) [
        | yes here ↦
            let e' = rw here at e in
            let same : m ≡ n = cc in
            (
              m',
              rw here (get_elem?-set_self inner.nodes i m' (lt_of_get_elem? inner.nodes i n at_i)),
              IsTracked-same clock history n m' (sym (rw same at same_window))
                  (sym (rw same at same_next)) tracked,
            )
        | no other ↦ (n, get_elem?-set_ne inner.nodes j i m' other ∙ at_i, tracked)
      ]

  update-Tracks :
      (clock j : ℕ) (history : List ℕ) (inner : Inner) (f : NodeState → NodeState)
      → ((m : NodeState) → (f m).window ≡ m.window)
      → ((m : NodeState) → (f m).next_slot ≡ m.next_slot)
      → Tracks clock history inner
      → Tracks clock history (record inner { nodes = update inner.nodes j f })
  update-Tracks clock j history inner f window next t =
      elim (Option-cases (get_elem? inner.nodes j)) [
        | inl absent ↦ rw (absent, update) t
        | inr (m, e) ↦
            rw (e, update) (set-Tracks clock j history inner m (f m) e (window m) (next m) t)
      ]

  failure-Tracks :
      (clock now later : ℕ) (history : List ℕ) (inner : Inner) (l : Lease)
      → Tracks clock history inner
      → Tracks clock history (report_failure cfg now later l inner).1
  unfolding report_failure
  failure-Tracks clock now later history inner l t =
      elim (Option-cases (get_elem? inner.nodes l.index)) [
        | inl absent ↦ rw (absent, report_failure) t
        | inr (m, e) ↦ elim (Bool-cases (leb cfg.max_failures (m.failures + 1))) [
          | inl parks ↦
              rw (e, parks, report_failure)
                (set-Tracks clock l.index history inner m _ e refl refl t)
          | inr counts ↦
              rw (e, counts, report_failure)
                (set-Tracks clock l.index history inner m _ e refl refl t)
        ]
      ]

  try-Tracks :
      (clock now : ℕ) (history : List ℕ) (inner : Inner)
      → 1 ≤ cfg.window
      → 1 ≤ cfg.window_limit
      → clock ≤ now
      → Tracks clock history inner
      → let (ls, inner') = step cfg (try now) inner in Tracks now (history ++ slots_of i ls) inner'
  unfolding step slots_of
  try-Tracks clock now history inner pos limit later (n, at_i, tracked) =
      let ns = pruned cfg now inner in
      let n' = prune now cfg.window n in
      let at_i' : get_elem? ns i ≡ some n' =
        get_elem?-map (prune now cfg.window) inner.nodes i n at_i in
      let tracked' = prune-IsTracked cfg clock now history n pos later tracked in
      elim (round_lem cfg now inner) [
        | inr (t, waits, _, _, kept) ↦ rw (waits, kept, append-nil history) (n', at_i', tracked')
        | inl (l, m, leases, at_l, (free, e), _, kept) ↦ elim (ℕ_discrete l.index i) [
          | yes here ↦
              let at_l' = rw here at at_l in
              let same : m ≡ n' = cc in
              let mine : (l.index == i) ≡ true = ground arith in
              rw (leases, kept, mine, here)
                (
                  reserve cfg l.slot m,
                  get_elem?-set_self ns i _ (lt_of_get_elem? ns i n' at_i'),
                  reserve-IsTracked cfg now l.slot history m limit free e (rw same tracked'),
                )
          | no other ↦
              let not_mine : (l.index == i) ≡ false = ground arith in
              rw (leases, kept, not_mine, append-nil history)
                (n', get_elem?-set_ne ns l.index i _ other ∙ at_i', tracked')
        ]
      ]

  step-Tracks :
      (clock : ℕ) (o : Op) (os : List Op) (history : List ℕ) (inner : Inner)
      → 1 ≤ cfg.window
      → 1 ≤ cfg.window_limit
      → Ordered clock (o ∷ os)
      → Tracks clock history inner
      → let (ls, inner') = step cfg o inner in
        Tracks (clock_after clock o) (history ++ slots_of i ls) inner'
        × Ordered (clock_after clock o) os
  unfolding step slots_of report_success report_rate_limited
  step-Tracks clock (try now) os history inner pos limit (later, ordered) t =
      (try-Tracks clock now history inner pos limit later t, ordered)
  step-Tracks clock (success l) os history inner pos limit ordered t =
      rw (append-nil history)
        (update-Tracks clock l.index history inner _ (λ m. refl) (λ m. refl) t, ordered)
  step-Tracks clock (rate_limited now later l) os history inner pos limit ordered t =
      rw (append-nil history)
        (update-Tracks clock l.index history inner _ (λ m. refl) (λ m. refl) t, ordered)
  step-Tracks clock (failure now later l) os history inner pos limit ordered t =
      rw (append-nil history) (failure-Tracks clock now later history inner l t, ordered)

  pub slots_of-append :
      (ls more : List Lease) → slots_of i (ls ++ more) ≡ slots_of i ls ++ slots_of i more
  unfolding slots_of
  slots_of-append [] more = refl
  slots_of-append (l ∷ ls) more = ground (arith, slots_of-append ls more)

  run-Tracks :
      (clock : ℕ) (os : List Op) (history : List ℕ) (inner : Inner)
      → 1 ≤ cfg.window
      → 1 ≤ cfg.window_limit
      → Ordered clock os
      → Tracks clock history inner
      → let (ls, inner') = run cfg os inner in
        (last : ℕ) × Tracks last (history ++ slots_of i ls) inner'
  unfolding run
  run-Tracks clock [] history inner pos limit ordered t =
      (clock, unfold slots_of in rw (append-nil history) t)
  run-Tracks clock (o ∷ os) history inner pos limit ordered t =
      let (t', ordered') = step-Tracks clock o os history inner pos limit ordered t in
      let (ls, inner') = step cfg o inner in
      let now = clock_after clock o in
      let rest = run-Tracks now os (history ++ slots_of i ls) inner' pos limit ordered' t' in
      let more = (run cfg os inner').0 in
      rw (slots_of-append ls more, ← append_assoc history (slots_of i ls) (slots_of i more)) rest

-- Let windows and limits be positive, and let the rounds of `acquire` read a clock that does not run
-- backwards. Whatever is reported in between, the slots leased on a node that began with an empty
-- window are at least the spacing apart, and between any slot and the one `window_limit` places
-- after it lies a whole window: no window holds more than `window_limit` requests.
pub run_rate :
    (cfg : RateLimitConfig) (clock i : ℕ) (n : NodeState) (os : List Op) (inner : Inner)
    → 1 ≤ cfg.window
    → 1 ≤ cfg.window_limit
    → Ordered clock os
    → get_elem? inner.nodes i ≡ some n
    → n.window ≡ []
    → let (ls, inner') = run cfg os inner in
      (n' : NodeState) × (get_elem? inner'.nodes i ≡ some n')
      × InRate (cfg.window_limit - 1) cfg.window (slots_of i ls)
      × Spaced (spacing cfg) n'.next_slot (slots_of i ls)
run_rate cfg clock i n os inner pos limit ordered at_i empty =
    let start : Tracks cfg i clock [] inner = (n, at_i, ([], sym empty, tt, tt, tt)) in
    let (last, (n', at_i', (old, split, expired, rate, spaced))) =
      run-Tracks cfg i clock os [] inner pos limit ordered start in
    (n', at_i', rate, spaced)

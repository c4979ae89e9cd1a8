-- ===== src/NodePool/Rate.antt =====
-- The rate limit over the whole history of a pool: on each node, whatever is reported in between,
-- successive slots keep their distance, and never more than `window_limit` fall in a window.
use sth_core_pq.Base.{
  ℕ, zero, suc, ◌+◌, ◌-◌, ◌≤◌, ◌<◌, max, ◌≡◌, refl, ap, inl, inr, false, Option, none, some, List,
  [], ◌∷◌, ◌++◌, arith, leb, length, get_elem?, All, Bool-cases,
}
use mathlib.Core.List.{append_assoc}
use sth_core_pq.NodePool.{RateLimitConfig, NodeState, skipped, prune, prune_queue, reserve, spacing}

-- The entry m + 1 places after x, if there is one, is a window later.
abbrev IsFar : ℕ → ℕ → Option ℕ → Type 0
IsFar window x none = Unit
IsFar window x (some y) = x + window ≤ y

-- Any two slots with m others between them are a window apart: m + 1 fit in a window.
abbrev pub InRate : ℕ → ℕ → List ℕ → Type 0
InRate m window [] = Unit
InRate m window (x ∷ xs) = IsFar window x (get_elem? xs m) × InRate m window xs

abbrev first_or : ℕ → List ℕ → ℕ
first_or d [] = d
first_or d (x ∷ xs) = x

-- Each slot is `gap` or more before the one after it, and the last before `next`.
abbrev pub Spaced : ℕ → ℕ → List ℕ → Type 0
Spaced gap next [] = Unit
Spaced gap next (x ∷ xs) = (x + gap ≤ first_or next xs) × Spaced gap next xs

IsFar-append :
    (window x y : ℕ) (m : ℕ) (xs : List ℕ)
    → x + window ≤ y
    → IsFar window x (get_elem? xs m)
    → IsFar window x (get_elem? (xs ++ (y ∷ [])) m)
IsFar-append window x y zero [] h far = h
IsFar-append window x y (suc m) [] h far = tt
IsFar-append window x y zero (z ∷ xs) h far = far
IsFar-append window x y (suc m) (z ∷ xs) h far = IsFar-append window x y m xs h far

IsFar-short :
    (window x y : ℕ) (m : ℕ) (xs : List ℕ)
    → length xs < m
    → IsFar window x (get_elem? (xs ++ (y ∷ [])) m)
IsFar-short window x y zero xs h = elim h [ ]
IsFar-short window x y (suc m) [] h = tt
IsFar-short window x y (suc m) (z ∷ xs) h = IsFar-short window x y m xs (omega arith)

InRate-short :
    (m window y : ℕ) (queue : List ℕ) → length queue ≤ m → InRate m window (queue ++ (y ∷ []))
InRate-short m window y [] h = (tt, tt)
InRate-short m window y (x ∷ queue) h =
    (IsFar-short window x y m queue (omega arith), InRate-short m window y queue (omega arith))

-- A new slot keeps the rate if at most m slots are not yet a window before it.
InRate-append :
    (m window y : ℕ) (old queue : List ℕ)
    → All (λ x. x + window ≤ y) old
    → length queue ≤ m
    → InRate m window (old ++ queue)
    → InRate m window ((old ++ queue) ++ (y ∷ []))
InRate-append m window y [] queue expired few ok = InRate-short m window y queue few
InRate-append m window y (x ∷ old) queue (h, expired) few (far, ok) = (
  IsFar-append window x y m (old ++ queue) h far,
  InRate-append m window y old queue expired few ok,
)

Spaced-append :
    (gap next slot : ℕ) (xs : List ℕ)
    → next ≤ slot
    → Spaced gap next xs
    → Spaced gap (slot + gap) (xs ++ (slot ∷ []))
Spaced-append gap next slot [] h s = (omega arith, tt)
Spaced-append gap next slot (x ∷ []) h (s, _) = (omega arith, (omega arith, tt))
Spaced-append gap next slot (x ∷ y ∷ xs) h (s, ss) = (s, Spaced-append gap next slot (y ∷ xs) h ss)

All-append : (P : ℕ → Type 0) (xs ys : List ℕ) → All P xs → All P ys → All P (xs ++ ys)
All-append P [] ys hx hy = hy
All-append P (x ∷ xs) ys hx hy = (hx.0, All-append P xs ys hx.1 hy)

-- Slots that are a window before `clock`.
abbrev Expired : ℕ → ℕ → List ℕ → Type 0
Expired window clock = All (λ x. x + window ≤ clock)

Expired-later :
    (window clock now : ℕ) (xs : List ℕ)
    → clock ≤ now
    → Expired window clock xs
    → Expired window now xs
Expired-later window clock now [] h e = tt
Expired-later window clock now (x ∷ xs) h e = (omega arith, Expired-later window clock now xs h e.1)

-- Pruning takes expired slots off the front of the queue.
prune_queue-split :
    (now window : ℕ) (queue : List ℕ)
    → 1 ≤ window
    → (front : List ℕ) × (front ++ prune_queue now window queue ≡ queue) × Expired window now front
unfolding prune_queue
prune_queue-split now window [] h = ([], refl, tt)
prune_queue-split now window (x ∷ queue) h = elim (Bool-cases (leb window (now - x))) [
  | inl old ↦
      let (front, e, expired) = prune_queue-split now window queue h in
      rw old (x ∷ front, ap (λ q. x ∷ q) e, (ground arith, expired))
  | inr young ↦ rw young ([], refl, tt)
]

-- The node's slots so far, `history`: those before the queue are a window before the clock, and the
-- history keeps rate and distance.
abbrev pub IsTracked : RateLimitConfig → ℕ → List ℕ → NodeState → Type 0
IsTracked cfg clock history n =
    (old : List ℕ) × (history ≡ old ++ n.window)
    × Expired cfg.window clock old
    × InRate (cfg.window_limit - 1) cfg.window history
    × Spaced (spacing cfg) n.next_slot history

pub prune-IsTracked :
    (cfg : RateLimitConfig) (clock now : ℕ) (history : List ℕ) (n : NodeState)
    → 1 ≤ cfg.window
    → clock ≤ now
    → IsTracked cfg clock history n
    → IsTracked cfg now history (prune now cfg.window n)
unfolding prune
prune-IsTracked cfg clock now history n pos later (old, e, expired, rate, spaced) =
    let (front, e', expired') = prune_queue-split now cfg.window n.window pos in
    (
      old ++ front,
      rw (append_assoc old front (prune_queue now cfg.window n.window), e') e,
      All-append _ old front (Expired-later cfg.window clock now old later expired) expired',
      rate,
      spaced,
    )

pub reserve-IsTracked :
    (cfg : RateLimitConfig) (now slot : ℕ) (history : List ℕ) (n : NodeState)
    → 1 ≤ cfg.window_limit
    → skipped cfg now n ≡ false
    → slot ≡ max n.next_slot now
    → IsTracked cfg now history n
    → IsTracked cfg now (history ++ (slot ∷ [])) (reserve cfg slot n)
unfolding skipped
reserve-IsTracked cfg now slot history n limit free e (old, split, expired, rate, spaced) =
    let few : length n.window < cfg.window_limit = ground arith in
    let at_slot = Expired-later cfg.window now slot old (omega arith) expired in
    (
      old,
      rw split (append_assoc old n.window (slot ∷ [])),
      expired,
      rw split (
          InRate-append (cfg.window_limit - 1) cfg.window slot old n.window at_slot (omega arith)
            (rw split at rate)),
      Spaced-append (spacing cfg) n.next_slot slot history (omega arith) spaced,
    )

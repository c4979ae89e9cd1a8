-- ===== src/Ledger/Order.antt =====
-- The sort of the ranking, and the filter of the forging set.
use sth_core_pq.Base.{
  ℕ, ◌≤◌, ◌≡◌, Bool, Bool-cases, true, false, inl, inr, List, [], ◌∷◌, Text, All, if◌then◌else◌,
  arith,
}
use sth_core_pq.Ledger.Ranking.{
  Ranked, comes_before, insert_ranked, sort_ranked, eligible, keep_eligible,
}

abbrev pub standing : Ranked → ℕ
standing x = if x.0.resigned then 1 else 0

-- Not below: resigned ones come last, then fewer votes.
abbrev pub Above : Ranked → Ranked → Type 0
Above x y = (standing x ≤ standing y) × (standing y ≤ standing x → y.1 ≤ x.1)

before-Above : (x y : Ranked) → comes_before x y ≡ true → Above x y
unfolding comes_before
before-Above x y h = ground arith

after-Above : (x y : Ranked) → comes_before y x ≡ false → Above x y
unfolding comes_before
after-Above x y h = ground arith

insert_ranked-All {κ} :
    (P : Ranked → Type κ) (x : Ranked) (xs : List Ranked)
    → P x
    → All P xs
    → All P (insert_ranked x xs)
unfolding insert_ranked
insert_ranked-All P x [] h k = (h, tt)
insert_ranked-All P x (y ∷ ys) h k = elim (Bool-cases (comes_before y x)) [
  | inl e ↦ rw e (k.0, insert_ranked-All P x ys h k.1)
  | inr e ↦ rw e (h, k)
]

either_order {κ} :
    (P : Ranked → Type κ) (x y : Ranked) (xs ys : List Ranked) (c : Bool)
    → (All P xs → P x × All P ys)
    → All P (if c then y ∷ xs else x ∷ y ∷ ys)
    → P x × All P (y ∷ ys)
either_order P x y xs ys true f h = let (p, q) = f h.1 in (p, (h.0, q))
either_order P x y xs ys false f h = h

All-insert_ranked {κ} :
    (P : Ranked → Type κ) (x : Ranked) (xs : List Ranked)
    → All P (insert_ranked x xs)
    → P x × All P xs
unfolding insert_ranked
All-insert_ranked P x [] h = h
All-insert_ranked P x (y ∷ ys) h =
    either_order P x y (insert_ranked x ys) ys (comes_before y x) (All-insert_ranked P x ys) h

pub All-sort_ranked {κ} :
    (P : Ranked → Type κ) (xs : List Ranked) → All P (sort_ranked xs) → All P xs
unfolding sort_ranked
All-sort_ranked P [] h = tt
All-sort_ranked P (x ∷ xs) h =
    let (p, q) = All-insert_ranked P x (sort_ranked xs) h in (p, All-sort_ranked P xs q)

abbrev pub IsRanked : List Ranked → Type 0
IsRanked [] = Unit {0}
IsRanked (x ∷ xs) = All (Above x) xs × IsRanked xs

pub All-map {κ μ} :
    (P : Ranked → Type κ) (Q : Ranked → Type μ) (xs : List Ranked)
    → ((x : Ranked) → P x → Q x)
    → All P xs
    → All Q xs
All-map P Q [] f h = tt
All-map P Q (x ∷ xs) f h = (f x h.0, All-map P Q xs f h.1)

insert_ranked-IsRanked :
    (x : Ranked) (xs : List Ranked) → IsRanked xs → IsRanked (insert_ranked x xs)
unfolding insert_ranked
insert_ranked-IsRanked x [] h = (tt, tt)
insert_ranked-IsRanked x (y ∷ ys) h = elim (Bool-cases (comes_before y x)) [
  | inl e ↦
      rw e
        (insert_ranked-All (Above y) x ys (before-Above y x e) h.0, insert_ranked-IsRanked x ys h.1)
  | inr e ↦
      let first = after-Above x y e in
      rw e ((first, All-map (Above y) (Above x) ys (λ z k. omega (arith, first, k)) h.0), h)
]

pub sort_ranked-IsRanked : (xs : List Ranked) → IsRanked (sort_ranked xs)
unfolding sort_ranked
sort_ranked-IsRanked [] = tt
sort_ranked-IsRanked (x ∷ xs) = insert_ranked-IsRanked x (sort_ranked xs) (sort_ranked-IsRanked xs)

keep_eligible-All {κ} :
    (P : Ranked → Type κ) (banned : List Text) (xs : List Ranked)
    → All P xs
    → All P (keep_eligible banned xs)
unfolding keep_eligible
keep_eligible-All P banned [] h = tt
keep_eligible-All P banned (x ∷ xs) h = elim (Bool-cases (eligible banned x)) [
  | inl e ↦ rw e (h.0, keep_eligible-All P banned xs h.1)
  | inr e ↦ rw e (keep_eligible-All P banned xs h.1)
]

pub keep_eligible-IsRanked :
    (banned : List Text) (xs : List Ranked) → IsRanked xs → IsRanked (keep_eligible banned xs)
unfolding keep_eligible
keep_eligible-IsRanked banned [] h = tt
keep_eligible-IsRanked banned (x ∷ xs) h = elim (Bool-cases (eligible banned x)) [
  | inl e ↦ rw e (keep_eligible-All (Above x) banned xs h.0, keep_eligible-IsRanked banned xs h.1)
  | inr e ↦ rw e (keep_eligible-IsRanked banned xs h.1)
]

kept_first {κ} :
    (P : Ranked → Type κ) (x : Ranked) (kept : List Ranked) (c : Bool)
    → All P (if c then x ∷ kept else kept)
    → (c ≡ true → P x) × All P kept
kept_first P x kept true h = (λ e. h.0, h.1)
kept_first P x kept false h = (λ e. absurd (ground arith), h)

-- What holds of those kept holds of the eligible ones.
pub All-keep_eligible {κ} :
    (P : Ranked → Type κ) (banned : List Text) (xs : List Ranked)
    → All P (keep_eligible banned xs)
    → All (λ x. eligible banned x ≡ true → P x) xs
unfolding keep_eligible
All-keep_eligible P banned [] h = tt
All-keep_eligible P banned (x ∷ xs) h =
    let (p, q) = kept_first P x (keep_eligible banned xs) (eligible banned x) h in
    (p, All-keep_eligible P banned xs q)

eligible-standing : (banned : List Text) (x : Ranked) → eligible banned x ≡ true → standing x ≡ 0
unfolding eligible
eligible-standing banned x h = ground arith

pub keep_eligible-standing :
    (banned : List Text) (xs : List Ranked) → All (λ x. standing x ≡ 0) (keep_eligible banned xs)
unfolding keep_eligible
keep_eligible-standing banned [] = tt
keep_eligible-standing banned (x ∷ xs) = elim (Bool-cases (eligible banned x)) [
  | inl e ↦ rw e (eligible-standing banned x e, keep_eligible-standing banned xs)
  | inr e ↦ rw e (keep_eligible-standing banned xs)
]

-- ===== src/Ledger/Active.antt =====
-- The forging set is the top of the ranking.
use mathlib.Core.List.{Perm}
use mathlib.Core.List.Perm
use sth_core_pq.Base.{
  any, text_eq, some, inr, Option-cases, min, Bool, Bool-cases, if◌then◌else◌, false, inr, ap, ◌∙◌,
  ℕ, zero, suc, ◌≤◌, ◌≡◌, refl, true, inl, ◌⊎◌, List, [], ◌∷◌, length, take, map, Text, All, arith,
}
use sth_core_pq.Round.{DelegateRank}
use sth_core_pq.Ledger.Tree.{Tree}
use sth_core_pq.Ledger.Ranking.{
  Ranked, insert_ranked, comes_before, sort_ranked, registered_delegates, delegate_ranking,
  eligible, keep_eligible, delegate_rank, active_delegates_excluding,
}
use sth_core_pq.Ledger.Order.{
  All-map, standing, Above, IsRanked, keep_eligible-standing, All-sort_ranked,
  keep_eligible-IsRanked, All-keep_eligible, sort_ranked-IsRanked,
}

abbrev pub Within : DelegateRank → List DelegateRank → Type 0
Within d [] = ⊥
Within d (x ∷ xs) = (d ≡ x) ⊎ Within d xs

-- In the list, or with no more votes than any of it.
abbrev pub InOrBelow : List DelegateRank → Ranked → Type 0
InOrBelow active x = Within (delegate_rank x) active ⊎ All (λ d. x.1 ≤ d.votes) active

below_none : (xs : List Ranked) → All (InOrBelow []) xs
below_none [] = tt
below_none (x ∷ xs) = (inr tt, below_none xs)

-- One more active delegate, ranked first.
extend-InOrBelow :
    (active : List DelegateRank) (x : Ranked) (xs : List Ranked)
    → All (λ y. standing y ≡ 0) xs
    → All (Above x) xs
    → All (InOrBelow active) xs
    → All (InOrBelow (delegate_rank x ∷ active)) xs
extend-InOrBelow active x [] h k l = tt
extend-InOrBelow active x (y ∷ ys) h k l =
    let fewer : y.1 ≤ x.1 = k.0.1 (ground (arith, h.0)) in
    (
      elim l.0 [ inl e ↦ inl (inr e) | inr e ↦ inr (fewer, e) ],
      extend-InOrBelow active x ys h.1 k.1 l.1,
    )

take-InOrBelow :
    (n : ℕ) (xs : List Ranked)
    → All (λ x. standing x ≡ 0) xs
    → IsRanked xs
    → All (InOrBelow (map delegate_rank (take n xs))) xs
take-InOrBelow zero [] h k = tt
take-InOrBelow zero (x ∷ xs) h k = below_none (x ∷ xs)
take-InOrBelow (suc n) [] h k = tt
take-InOrBelow (suc n) (x ∷ xs) h k = (
  inl (inl refl),
  extend-InOrBelow (map delegate_rank (take n xs)) x xs h.1 k.0 (take-InOrBelow n xs h.1 k.1),
)

length-take-map :
    (n : ℕ) (xs : List Ranked) → length (map delegate_rank (take n xs)) ≡ min n (length xs)
length-take-map zero [] = refl
length-take-map zero (x ∷ xs) = ground arith
length-take-map (suc n) [] = ground arith
length-take-map (suc n) (x ∷ xs) = let rest = length-take-map n xs in ground (arith, rest)

-- Put in front or not, and two of them in either order.
cons-Perm :
    (c : Bool) (x : Ranked) (xs ys : List Ranked)
    → Perm xs ys
    → Perm (if c then x ∷ xs else xs) (if c then x ∷ ys else ys)
cons-Perm true x xs ys p = Perm.cons x p
cons-Perm false x xs ys p = p

swap-Perm :
    (c d : Bool) (x y : Ranked) (l : List Ranked)
    → Perm
        (if c then x ∷ (if d then y ∷ l else l) else (if d then y ∷ l else l))
        (if d then y ∷ (if c then x ∷ l else l) else (if c then x ∷ l else l))
swap-Perm true true x y l = Perm.swap y x l
swap-Perm true false x y l = Perm.refl (x ∷ l)
swap-Perm false true x y l = Perm.refl (y ∷ l)
swap-Perm false false x y l = Perm.refl l

insert_ranked-Perm :
    (banned : List Text) (x : Ranked) (xs : List Ranked)
    → Perm (keep_eligible banned (x ∷ xs)) (keep_eligible banned (insert_ranked x xs))
unfolding insert_ranked keep_eligible
insert_ranked-Perm banned x [] = Perm.refl _
insert_ranked-Perm banned x (y ∷ ys) = elim (Bool-cases (comes_before y x)) [
  | inl e ↦ rw e (
      Perm.trans (swap-Perm (eligible banned x) (eligible banned y) x y (keep_eligible banned ys))
        (cons-Perm (eligible banned y) y _ _ (insert_ranked-Perm banned x ys)))
  | inr e ↦ rw e (Perm.refl _)
]

sort_ranked-Perm :
    (banned : List Text) (xs : List Ranked)
    → Perm (keep_eligible banned xs) (keep_eligible banned (sort_ranked xs))
unfolding sort_ranked keep_eligible
sort_ranked-Perm banned [] = Perm.refl _
sort_ranked-Perm banned (x ∷ xs) =
    Perm.trans (cons-Perm (eligible banned x) x _ _ (sort_ranked-Perm banned xs))
      (insert_ranked-Perm banned x (sort_ranked xs))

insert_ranked-length :
    (banned : List Text) (x : Ranked) (xs : List Ranked)
    → length (keep_eligible banned (insert_ranked x xs)) ≡ length (keep_eligible banned (x ∷ xs))
unfolding insert_ranked keep_eligible
insert_ranked-length banned x [] = refl
insert_ranked-length banned x (y ∷ ys) =
    let rest = insert_ranked-length banned x ys in ground (arith, rest)

sort_ranked-length :
    (banned : List Text) (xs : List Ranked)
    → length (keep_eligible banned (sort_ranked xs)) ≡ length (keep_eligible banned xs)
unfolding sort_ranked keep_eligible
sort_ranked-length banned [] = refl
sort_ranked-length banned (x ∷ xs) =
    let rest = sort_ranked-length banned xs in
    insert_ranked-length banned x (sort_ranked xs) ∙ ground (arith, rest)

-- Not resigned, and no banned key.
abbrev pub Entitled : List Text → Ranked → Type 0
Entitled banned x =
    (x.0.resigned ≡ false)
    × ((pk : Text) → x.0.public_key ≡ some pk → any (λ b. text_eq b pk) banned ≡ false)

eligible-Entitled : (banned : List Text) (x : Ranked) → eligible banned x ≡ true → Entitled banned x
unfolding eligible
eligible-Entitled banned x h = (ground arith, λ pk e. ground (arith, e))

Entitled-eligible : (banned : List Text) (x : Ranked) → Entitled banned x → eligible banned x ≡ true
unfolding eligible
Entitled-eligible banned x (h, k) = elim (Option-cases x.0.public_key) [
  | inl e ↦ ground (arith, h, e)
  | inr (pk, e) ↦ ground (arith, h, e, k pk e)
]

keep_eligible-Entitled :
    (banned : List Text) (xs : List Ranked) → All (Entitled banned) (keep_eligible banned xs)
unfolding keep_eligible
keep_eligible-Entitled banned [] = tt
keep_eligible-Entitled banned (x ∷ xs) = elim (Bool-cases (eligible banned x)) [
  | inl e ↦ rw e (eligible-Entitled banned x e, keep_eligible-Entitled banned xs)
  | inr e ↦ rw e (keep_eligible-Entitled banned xs)
]

-- The forging set is the beginning, of the asked length or all, of a list that has each registered
-- delegate that is neither resigned nor banned as often as it is registered, and no other, ordered by
-- votes. So it has as many delegates as asked for, or all of those when they are fewer, and each of
-- those is in the set, or all of the set have at least as many votes.
pub active_delegates_excluding-top :
    {Value : Type 0} (count : ℕ) (banned : List Text) (t : Tree Value)
    → let names = registered_delegates t t.by_username in
      let active = active_delegates_excluding count banned t in
      (kept : List Ranked) × Perm (keep_eligible banned names) kept
      × All (Entitled banned) kept
      × IsRanked kept
      × (active ≡ map delegate_rank (take count kept))
      × (length active ≡ min count (length (keep_eligible banned names)))
      × All (λ x. Entitled banned x → InOrBelow active x) names
unfolding active_delegates_excluding delegate_ranking
active_delegates_excluding-top count banned t =
    let names = registered_delegates t t.by_username in
    let ranked = sort_ranked names in
    let kept = keep_eligible banned ranked in
    let active = map delegate_rank (take count kept) in
    let same = sort_ranked-Perm banned names in
    let order = keep_eligible-IsRanked banned ranked (sort_ranked-IsRanked names) in
    (
      kept,
      same,
      keep_eligible-Entitled banned ranked,
      order,
      refl,
      length-take-map count kept ∙ ap (λ n. min count n) (sort_ranked-length banned names),
      All-map (λ x. eligible banned x ≡ true → InOrBelow active x)
          (λ x. Entitled banned x → InOrBelow active x) names
          (λ x f k. f (Entitled-eligible banned x k))
          (All-sort_ranked (λ x. eligible banned x ≡ true → InOrBelow active x) names
            (All-keep_eligible (InOrBelow active) banned ranked
              (take-InOrBelow count kept (keep_eligible-standing banned ranked) order))),
    )

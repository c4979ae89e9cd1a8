-- ===== src/Ledger/Search.antt =====
-- src/storage.rs: `first_height` and the binary search of `height_at_or_after`.
use sth_core_pq.Base.{
  ℕ, zero, suc, ◌+◌, ◌-◌, ◌*◌, ◌/◌, ◌≤◌, ◌<◌, ◌≡◌, refl, max, min, Bool, ◌∙◌, Bool-cases, true,
  false, inl, inr, Result, ok, err, List, Option, none, some, [], ◌∷◌, Text, Map, ltb,
  if◌then◌else◌, arith,
}
use sth_core_pq.Models.{Block}
use sth_core_pq.Ledger.{LedgerError}
use sth_core_pq.Ledger.Codec.{get_block_by_height}
use sth_core_pq.Ledger.Tree.{Tree}
use sth_core_pq.Ledger.Tip.{tip}
use sth_core_pq.Ledger.Env.{Env, default}

unfoldable pub from_be_bytes : ℕ → Text → ℕ
from_be_bytes n [] = n
from_be_bytes n (b ∷ bs) = from_be_bytes (n * 256 + b) bs

-- The first of the sorted keys, each of eight bytes.
unfoldable pub lowest_key : Map (List ℕ) → Option ℕ
lowest_key [] = none
lowest_key ((k, b) ∷ m) =
    let height = from_be_bytes 0 k in
    elim (lowest_key m) [ none ↦ some height | some h ↦ some (min height h) ]

unfoldable pub first_height : {Value : Type 0} → Tree Value → ℕ
first_height t = default 0 (lowest_key t.blocks)

module _ {Value : Type 0} (env : Env Value) where
  -- `Some(b) if b.timestamp < ts`
  unfoldable pub is_early : ℕ → Option (Block Value) → Bool
  is_early ts none = false
  is_early ts (some b) = ltb b.timestamp ts

  unfoldable pub is_before : ℕ → Tree Value → ℕ → Bool
  is_before ts t height = elim (get_block_by_height env t height) [
    | err e ↦ false
    | ok found ↦ is_early ts found
  ]

  -- The loop `while lo < hi`. A block that does not decode ends it with an error.
  unfoldable pub search_height : ℕ → ℕ → Tree Value → ℕ → ℕ → Option (Result LedgerError ℕ)
  search_height zero ts t lo hi = none
  search_height (suc f) ts t lo hi =
      let mid = lo + (hi - lo) / 2 in
      let step : Option (Result LedgerError ℕ) = elim (get_block_by_height env t mid) [
        | err e ↦ some (err e)
        | ok found ↦
            let early = is_early ts found in
            search_height f ts t (if early then mid + 1 else lo) (if early then hi else mid)
      ] in
      if ltb lo hi then step else some (ok lo)

  -- Each round makes the range smaller, so a fuel above its upper end is enough.
  unfoldable pub height_at_or_after : ℕ → Tree Value → Option (Result LedgerError ℕ)
  height_at_or_after ts t =
      let hi = tip t + 1 in search_height (suc hi) ts t (max (first_height t) 1) hi

  abbrev pub Reads : Tree Value → ℕ → Type 0
  Reads t height = (o : Option (Block Value)) × (get_block_by_height env t height ≡ ok o)

  is_before-reads :
      (ts height : ℕ) (t : Tree Value) (o : Option (Block Value))
      → get_block_by_height env t height ≡ ok o
      → is_before ts t height ≡ is_early ts o
  unfolding is_before
  is_before-reads ts height t o r = rw (r, is_before) refl

  search_height-end :
      (f ts lo hi : ℕ) (t : Tree Value)
      → ltb lo hi ≡ false
      → search_height (suc f) ts t lo hi ≡ some (ok lo)
  unfolding search_height
  search_height-end f ts lo hi t done = rw done refl

  search_height-step :
      (f ts lo hi : ℕ) (t : Tree Value) (o : Option (Block Value))
      → ltb lo hi ≡ true
      → get_block_by_height env t (lo + (hi - lo) / 2) ≡ ok o
      → let mid = lo + (hi - lo) / 2 in
        search_height (suc f) ts t lo hi
        ≡ search_height f ts t
            (if is_early ts o then mid + 1 else lo)
            (if is_early ts o then hi else mid)
  unfolding search_height
  search_height-step f ts lo hi t o more read = rw (more, read) refl

  module _ (ts : ℕ) (t : Tree Value) (first end : ℕ)
      (readable : (k : ℕ) → first ≤ k → k < end → Reads t k)
      (ordered : (a b : ℕ)
        → first ≤ a
        → a ≤ b
        → b < end
        → is_before ts t b ≡ true
        → is_before ts t a ≡ true) where
    search_height_lem :
        (f lo hi : ℕ)
        → hi ≤ lo + f
        → first ≤ lo
        → hi ≤ end
        → ((k : ℕ) → first ≤ k → k < lo → is_before ts t k ≡ true)
        → ((k : ℕ) → hi ≤ k → k < end → is_before ts t k ≡ false)
        → (r : ℕ) × (search_height (suc f) ts t lo hi ≡ some (ok r))
          × ((k : ℕ) → first ≤ k → k < end → is_before ts t k ≡ ltb k r)
    search_height_lem zero lo hi fuel from to below above =
        let done : ltb lo hi ≡ false = ground arith in
        (
          lo,
          search_height-end 0 ts lo hi t done,
          λ k p q. ground (arith, below k p, above k, fuel, q),
        )
    search_height_lem (suc f) lo hi fuel from to below above = elim (Bool-cases (ltb lo hi)) [
      | inr done ↦ (
        lo,
        search_height-end (suc f) ts lo hi t done,
        λ k p q. ground (arith, below k p, above k, done, q),
      )
      | inl more ↦
          let mid = lo + (hi - lo) / 2 in
          let (o, read) = readable mid (omega arith) (ground (arith, more)) in
          let same = is_before-reads ts mid t o read in
          let step = search_height-step (suc f) ts lo hi t o more read in
          elim (Bool-cases (is_early ts o)) [
            | inl e ↦
                let (r, found, exact) =
                  search_height_lem f (mid + 1) hi (ground (arith, more)) (omega arith) to
                    (λ k p q. ordered k mid p (omega arith) (ground (arith, more)) (same ∙ e))
                    above in
                (r, step ∙ rw e found, exact)
            | inr e ↦
                let other : is_before ts t mid ≡ false = same ∙ e in
                let (r, found, exact) =
                  search_height_lem f lo mid (ground (arith, more)) from (ground (arith, more))
                    below
                    (λ k p q. ground (arith, other, ordered mid k (ground (arith, from)) p q)) in
                (r, step ∙ rw e found, exact)
          ]
    ]

  -- When the stored blocks from the lowest stored height (or 1) to the tip decode, and those with a
  -- timestamp under the asked one come first, the search ends, and its result separates these
  -- heights: those below it have such a block, and no other has.
  pub height_at_or_after-separates :
      (ts : ℕ) (t : Tree Value)
      → ((k : ℕ) → max (first_height t) 1 ≤ k → k ≤ tip t → Reads t k)
      → ((a b : ℕ)
          → max (first_height t) 1 ≤ a
          → a ≤ b
          → b ≤ tip t
          → is_before ts t b ≡ true
          → is_before ts t a ≡ true)
      → (r : ℕ) × (height_at_or_after ts t ≡ some (ok r))
        × ((k : ℕ) → max (first_height t) 1 ≤ k → k ≤ tip t → is_before ts t k ≡ ltb k r)
  unfolding height_at_or_after
  height_at_or_after-separates ts t reads ordered =
      let first = max (first_height t) 1 in
      let (r, found, exact) =
        search_height_lem ts t first (tip t + 1) (λ k p q. reads k p (omega (arith, q)))
          (λ a b p q l. ordered a b p q (omega (arith, l))) (tip t + 1) first (tip t + 1)
          (omega arith) (omega arith) (omega arith) (λ k p q. absurd (omega (arith, q, p)))
          (λ k p q. absurd (omega (arith, q, p))) in
      (r, found, λ k p q. exact k p (omega (arith, q)))

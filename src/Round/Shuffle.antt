-- ===== src/Round/Shuffle.antt =====
-- The shuffle as a fold of swaps over the indices, and that it permutes the delegates.
use mathlib.Core.List.{Perm}
use mathlib.Core.List.Perm
use sth_core_pq.Base.{
  ℕ, zero, suc, ◌+◌, ◌-◌, ◌*◌, ◌/◌, ◌%◌, ◌≤◌, ◌<◌, min, ◌≡◌, refl, inl, inr, some, List, ltb, ◌==◌,
  if◌then◌else◌, Bool-cases, ltb→lt, ==→eq, length, get_elem?, unwrap_or, get_elem?-in_range, arith,
  true, ◌∙◌, ap, false,
}
use native.Mathlib.Nat.{zero-add, add-zero}
use sth_core_pq.Round.Swap.{swap_total}
use sth_core_pq.Round.{DelegateRank, swap, swap_batch, shuffle_loop, shuffle, to_string}

module _ (sha256 : List ℕ → List ℕ) where
  -- The seed after q re-hashings.
  pub seed_at : List ℕ → ℕ → List ℕ
  seed_at seed zero = seed
  seed_at seed (suc q) = sha256 (seed_at seed q)

  -- Index j: nothing if j = 4 (mod 5), otherwise a swap with the position that byte j mod 5 of the
  -- seed number j / 5 names.
  pub swap_at {ℓ} : {A : Type ℓ} → List ℕ → ℕ → ℕ → List A → List A
  swap_at seed n j l =
      if j % 5 == 4
      then l
      else unwrap_or l (swap l (unwrap_or 0 (get_elem? (seed_at seed (j / 5)) (j % 5)) % n) j)

  -- The indices j, j + 1, ... in order, as many as the first argument says.
  pub swaps {ℓ} : {A : Type ℓ} → ℕ → List ℕ → ℕ → ℕ → List A → List A
  swaps zero seed n j l = l
  swaps (suc c) seed n j l = swaps c seed n (j + 1) (swap_at seed n j l)

  module _ {ℓ} {A : Type ℓ} (seed : List ℕ) (n : ℕ) where
    swap_at-perm :
        (j : ℕ) (l : List A)
        → length l ≡ n
        → j < n
        → Perm l (swap_at seed n j l) × (length (swap_at seed n j l) ≡ n)
    unfolding swap_at
    swap_at-perm j l e h = elim (Bool-cases (j % 5 == 4)) [
      | inl skipped ↦ rw skipped (Perm.refl l, e)
      | inr swapped ↦
          let byte = unwrap_or 0 (get_elem? (seed_at seed (j / 5)) (j % 5)) in
          let (l', h', e', p) = swap_total l (byte % n) j (omega arith) (omega arith) in
          rw (swapped, h') (p, e' ∙ e)
    ]

    pub swaps-perm :
        (c j : ℕ) (l : List A)
        → length l ≡ n
        → c + j ≤ n
        → Perm l (swaps c seed n j l) × (length (swaps c seed n j l) ≡ n)
    unfolding swaps
    swaps-perm zero j l e h = (Perm.refl l, e)
    swaps-perm (suc c) j l e h =
        let (p, e') = swap_at-perm j l e (omega arith) in
        let (q, e'') = swaps-perm c (j + 1) (swap_at seed n j l) e' (omega arith) in
        (Perm.trans p q, e'')

  module _ (hash_length : (b : List ℕ) → length (sha256 b) ≡ 32) where
    length-seed_at : (s : List ℕ) (q : ℕ) → length s ≡ 32 → length (seed_at s q) ≡ 32
    unfolding seed_at
    length-seed_at s zero h = h
    length-seed_at s (suc q) h = hash_length (seed_at s q)

    module _ {ℓ} {A : Type ℓ} (seed : List ℕ) (n : ℕ) (seeded : length seed ≡ 32) where
      -- One index of the inner loop: at x < 4 the code swaps as `swap_at` says.
      swap-swap_at :
          (q x i : ℕ) (l : List A)
          → i ≡ 5 * q + x
          → x < 4
          → i < n
          → length l ≡ n
          → (byte : ℕ) × (get_elem? (seed_at seed q) x ≡ some byte)
            × (swap l (byte % n) i ≡ some (swap_at seed n i l))
            × (length (swap_at seed n i l) ≡ n)
      unfolding swap_at
      swap-swap_at q x i l ei hx hi e =
          let (byte, hb) =
            get_elem?-in_range (seed_at seed q) x (omega (arith, length-seed_at seed q seeded)) in
          let (l', h', e', p) = swap_total l (byte % n) i (omega arith) (omega arith) in
          let eq : i / 5 ≡ q = omega arith in
          let ex : i % 5 ≡ x = omega arith in
          let test : (i % 5 == 4) ≡ false = ground arith in
          (byte, hb, rw (test, eq, ex, hb, h') refl, rw (test, eq, ex, hb, h') (e' ∙ e))

      swap_batch-swaps :
          (k x q i : ℕ) (l : List A)
          → i ≡ 5 * q + x
          → x + k ≡ 4
          → i ≤ n
          → length l ≡ n
          → swap_batch k (seed_at seed q) n x i l
            ≡ some (i + min k (n - i), swaps (min k (n - i)) seed n i l)
      unfolding swap_batch swaps
      swap_batch-swaps zero x q i l ei hk hi e =
          let none_left : min 0 (n - i) ≡ 0 = omega arith in
          rw none_left (ap (λ t. some (t, l)) (omega arith))
      swap_batch-swaps (suc k) x q i l ei hk hi e = elim (Bool-cases (ltb i n)) [
        | inl more ↦
            let (byte, hb, hs, e') = swap-swap_at q x i l ei (omega arith) (ltb→lt i n more) e in
            let m = min k (n - (i + 1)) in
            let count : min (suc k) (n - i) ≡ suc m = omega (arith, ltb→lt i n more) in
            let l' = swap_at seed n i l in
            let next : i + 1 ≤ n = omega (arith, ltb→lt i n more) in
            rw (more, hb, hs, count)
              (swap_batch-swaps k (x + 1) q (i + 1) l' (omega arith) (omega arith) next e'
                ∙ ap (λ t. some (t, swaps m seed n (i + 1) l')) (omega arith))
        | inr done ↦
            let none_left : min (suc k) (n - i) ≡ 0 = ground arith in
            rw (done, none_left) (ap (λ t. some (t, l)) (omega arith))
      ]

      swaps-add :
          (a b i : ℕ) (l : List A)
          → swaps (a + b) seed n i l ≡ swaps b seed n (i + a) (swaps a seed n i l)
      unfolding swaps
      swaps-add zero b i l = rw (zero-add, add-zero)
      swaps-add (suc a) b i l =
          let e : suc a + b ≡ suc (a + b) = omega arith in
          let e' : i + suc a ≡ i + 1 + a = omega arith in
          rw (e, e') (swaps-add a b (i + 1) (swap_at seed n i l))

      -- The outer loop skips index 4 (mod 5), where `swap_at` changes nothing.
      swaps-five : (q : ℕ) (l : List A) → swaps 5 seed n (5 * q) l ≡ swaps 4 seed n (5 * q) l
      unfolding swaps swap_at
      swaps-five q l =
          let skip : ((5 * q + 1 + 1 + 1 + 1) % 5 == 4) ≡ true = ground arith in rw skip

      shuffle_loop-done :
          (f i : ℕ) (s : List ℕ) (l : List A)
          → n ≤ i
          → 1 ≤ f
          → shuffle_loop sha256 f s n i l ≡ some l
      unfolding shuffle_loop
      shuffle_loop-done zero i s l h hf = absurd (omega arith)
      shuffle_loop-done (suc f) i s l h hf = let stop : ltb i n ≡ false = ground arith in rw stop

      shuffle_loop-swaps :
          (f q : ℕ) (l : List A)
          → length l ≡ n
          → n < 5 * q + f
          → 5 * q ≤ n
          → shuffle_loop sha256 f (seed_at seed q) n (5 * q) l
            ≡ some (swaps (n - 5 * q) seed n (5 * q) l)
      unfolding shuffle_loop seed_at
      shuffle_loop-swaps zero q l e hf hq = absurd (omega arith)
      shuffle_loop-swaps (suc f) q l e hf hq = elim (Bool-cases (ltb (5 * q) n)) [
        | inr done ↦
            let none_left : n - 5 * q ≡ 0 = ground arith in
            rw (done, none_left) (unfold swaps in refl)
        | inl more ↦
            let inside : 5 * q < n = ltb→lt (5 * q) n more in
            let batch = swap_batch-swaps 4 0 q (5 * q) l (omega arith) (omega arith) hq e in
            elim (Bool-cases (ltb (n - 5 * q) 5)) [
              | inl last ↦
                  let few : n - 5 * q < 5 = ltb→lt (n - 5 * q) 5 last in
                  let count : min 4 (n - 5 * q) ≡ n - 5 * q = omega arith in
                  rw (more, batch, count) (shuffle_loop-done f _ _ _ (omega arith) (omega arith))
              | inr full ↦
                  let many : 5 ≤ n - 5 * q = ground arith in
                  let count : min 4 (n - 5 * q) ≡ 4 = omega arith in
                  let l' = swaps 4 seed n (5 * q) l in
                  let next : 5 * q + 4 + 1 ≡ 5 * suc q = omega arith in
                  let rest : n - 5 * q ≡ 5 + (n - 5 * suc q) = omega arith in
                  let next' : 5 * q + 5 ≡ 5 * suc q = omega arith in
                  let (_, e') = swaps-perm seed n 4 (5 * q) l e (omega arith) in
                  rw (more, batch, count, next)
                    (shuffle_loop-swaps f (suc q) l' e' (omega arith) (omega arith)
                      ∙ ap some (
                          rw (rest, swaps-add 5 (n - 5 * suc q) (5 * q) l, swaps-five q l, next')
                            refl))
            ]
      ]

    -- If the hash has 32 bytes, the shuffle neither panics nor runs out of fuel: it is the fold of
    -- `swap_at` over the indices 0 to n - 1 with the seeds that start at the hash of the round's
    -- decimal digits. So indices 4, 9, 14, ... are never the second position of a swap.
    pub shuffle-swaps :
        (l : List DelegateRank) (round : ℕ)
        → shuffle sha256 l round ≡ some (swaps (length l) (sha256 (to_string round)) (length l) 0 l)
    unfolding shuffle
    shuffle-swaps l round = elim (Bool-cases (length l == 0)) [
      | inl empty ↦ rw (empty, ==→eq (length l) 0 empty) (unfold swaps in refl)
      | inr full ↦
          let seed = sha256 (to_string round) in
          let n = length l in
          let loop = shuffle_loop-swaps seed n (hash_length (to_string round)) (suc n) 0 l in
          rw full (
            unfold seed_at in
            loop refl (omega arith) (omega arith)
            ∙ ap (λ c. some (swaps c seed n 0 l)) (omega arith))
    ]

    -- If the hash has 32 bytes, the shuffle returns a permutation of the delegates.
    pub shuffle-perm :
        (l : List DelegateRank) (round : ℕ)
        → (l' : List DelegateRank) × (shuffle sha256 l round ≡ some l') × Perm l l'
    shuffle-perm l round =
        let seed = sha256 (to_string round) in
        (
          swaps (length l) seed (length l) 0 l,
          shuffle-swaps l round,
          (swaps-perm seed (length l) (length l) 0 l refl (omega arith)).0,
        )

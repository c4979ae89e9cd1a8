-- ===== src/Round/Swap.antt =====
-- `slice::swap` succeeds within bounds and permutes the slice.
use mathlib.Core.List.{Perm}
use mathlib.Core.List.Perm
use sth_core_pq.Base.{
  ℕ, zero, suc, ◌<◌, ◌≡◌, refl, some, List, [], ◌∷◌, length, get_elem?, set, length-set,
  get_elem?-set_self, get_elem?-set_ne, get_elem?-in_range, subst,
}
use native.Mathlib.Decide.{ℕ_discrete}
use sth_core_pq.Round.{swap}

module _ {ℓ} {A : Type ℓ} where
  -- Writing `y` over `x` exchanges the two, up to order.
  set-perm : (l : List A) (i : ℕ) (x y : A) → get_elem? l i ≡ some x → Perm (y ∷ l) (x ∷ set l i y)
  set-perm [] i x y h = cc
  set-perm (z ∷ l) zero x y h =
      let e : z ≡ x = cc in subst (λ w. Perm (y ∷ z ∷ l) (w ∷ y ∷ l)) e (Perm.swap z y l)
  set-perm (z ∷ l) (suc i) x y h =
      Perm.trans (Perm.swap z y l)
        (Perm.trans (Perm.cons z (set-perm l i x y h)) (Perm.swap x z (set l i y)))

  get_elem?-after_set :
      (l : List A) (a b : ℕ) (y : A)
      → b < length l
      → get_elem? l b ≡ some y
      → get_elem? (set l a y) b ≡ some y
  get_elem?-after_set l a b y hb h = elim (ℕ_discrete a b) [
    | yes e ↦ rw e (get_elem?-set_self l b y hb)
    | no ne ↦ rw (get_elem?-set_ne l a b y ne) h
  ]

  -- Within bounds a swap succeeds and permutes the list.
  pub swap_total :
      (l : List A) (a b : ℕ)
      → a < length l
      → b < length l
      → (l' : List A) × (swap l a b ≡ some l') × (length l' ≡ length l) × Perm l l'
  unfolding swap
  swap_total l a b ha hb =
      let (x, hx) = get_elem?-in_range l a ha in
      let (y, hy) = get_elem?-in_range l b hb in
      (
        set (set l a y) b x,
        rw hx (rw hy refl),
        rw (length-set (set l a y) b x) (length-set l a y),
        Perm.cons_inv (
            Perm.trans (set-perm l a x y hx)
              (set-perm (set l a y) b y x (get_elem?-after_set l a b y hb hy))),
      )

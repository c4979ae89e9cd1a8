-- ===== src/Ledger/Tokens.antt =====
-- The token balances and the numbers that `WalletState::apply` writes.
use sth_core_pq.Base.{
  refl, ℕ, ◌≤◌, ◌≡◌, inl, inr, some, [], ◌∷◌, Text, text_eq, text_eq_iff, text_eq_refl, false, ◌∙◌,
  Map, lookup, lookup-insert, lookup-remove, Unique, if◌then◌else◌, unwrap_or, subst, bind-ok,
  ok_injective, ◌<◌, ok, err, Result-cases, u64_max, arith,
}
use sth_core_pq.Base.Int.{ℤ, pos, negsuc, ◌+ℤ◌, int_laws}
use sth_core_pq.Ledger.{LedgerError, negative_token_balance}
use sth_core_pq.Ledger.Apply.{to_u64, put_balance, add_tokens}

abbrev pub balance_in : Text → Map ℕ → ℕ
balance_in id m = unwrap_or 0 (lookup id m)

abbrev pub change_in : Text → Map ℤ → ℤ
change_in id m = unwrap_or (pos 0) (lookup id m)

pub to_u64-ok : (e : LedgerError) (z : ℤ) (v : ℕ) → to_u64 e z ≡ ok v → (z ≡ pos v) × (v ≤ u64_max)
unfolding to_u64
to_u64-ok e (pos n) v h = ground arith
to_u64-ok e (negsuc n) v h = ground arith

to_u64-err : (e x : LedgerError) (z : ℤ) → to_u64 e z ≡ err x → x ≡ e
unfolding to_u64
to_u64-err e x (pos n) h = ground arith
to_u64-err e x (negsuc n) h = ground arith

balance_in-put_balance :
    (id j : Text) (v : ℕ) (m : Map ℕ)
    → balance_in j (put_balance id v m) ≡ (if text_eq id j then v else balance_in j m)
unfolding put_balance
balance_in-put_balance id j v m = ground (arith, lookup-insert id j v m, lookup-remove id j m)

add_zero : (a : ℕ) → pos a +ℤ pos 0 ≡ pos a
add_zero a = grind int_laws

-- Each balance moves by exactly its change.
pub add_tokens-balance_in :
    (changes : Map ℤ) (m m' : Map ℕ)
    → Unique changes
    → add_tokens changes m ≡ ok m'
    → (id : Text) → pos (balance_in id m') ≡ pos (balance_in id m) +ℤ change_in id changes
unfolding add_tokens lookup
add_tokens-balance_in [] m m' u h id = ground (arith, add_zero (balance_in id m))
add_tokens-balance_in ((k, c) ∷ rest) m m' u h id =
    let (v, r, t) = bind-ok (to_u64 negative_token_balance (pos (balance_in k m) +ℤ c)) _ h in
    ground (
      arith,
      to_u64-ok negative_token_balance (pos (balance_in k m) +ℤ c) v r,
      add_tokens-balance_in rest (put_balance k v m) m' u.1 t id,
      balance_in-put_balance k id v m,
      text_eq_iff k id,
      add_zero v,
    )

-- A wallet holds only positive balances that fit a u64.
abbrev pub Held : Map ℕ → Type 0
Held m = (id : Text) (v : ℕ) → lookup id m ≡ some v → (0 < v) × (v ≤ u64_max)

put_balance-Held :
    (id : Text) (v : ℕ) (m : Map ℕ) → v ≤ u64_max → Held m → Held (put_balance id v m)
unfolding put_balance
put_balance-Held id v m b h j w e =
    ground (arith, lookup-insert id j v m, lookup-remove id j m, h j w)

pub add_tokens-Held :
    (changes : Map ℤ) (m m' : Map ℕ) → add_tokens changes m ≡ ok m' → Held m → Held m'
unfolding add_tokens
add_tokens-Held [] m m' r h = subst Held (ok_injective m m' r) h
add_tokens-Held ((k, c) ∷ rest) m m' r h =
    let (v, s, t) = bind-ok (to_u64 negative_token_balance (pos (balance_in k m) +ℤ c)) _ r in
    add_tokens-Held rest (put_balance k v m) m' t (
      put_balance-Held k v m (to_u64-ok negative_token_balance (pos (balance_in k m) +ℤ c) v s).1 h)

-- Below zero, or above the largest u64.
abbrev pub OutOfU64 : ℤ → Type 0
OutOfU64 (pos n) = u64_max < n
OutOfU64 (negsuc n) = Unit {0}

to_u64-OutOfU64 : (e x : LedgerError) (z : ℤ) → to_u64 e z ≡ err x → OutOfU64 z
unfolding to_u64
to_u64-OutOfU64 e x (pos n) h = ground arith
to_u64-OutOfU64 e x (negsuc n) h = tt

-- When the token changes of a wallet, of distinct tokens, are refused, then one of them takes its
-- balance below zero or above the largest u64, and the error is that of a negative token balance.
pub add_tokens-Misfit :
    (changes : Map ℤ) (m : Map ℕ) (e : LedgerError)
    → Unique changes
    → add_tokens changes m ≡ err e
    → (id : Text) × (c : ℤ) × (lookup id changes ≡ some c)
      × OutOfU64 (pos (balance_in id m) +ℤ c)
      × (e ≡ negative_token_balance)
unfolding add_tokens lookup
add_tokens-Misfit [] m e u h = ground arith
add_tokens-Misfit ((k, c) ∷ rest) m e u h =
    elim (Result-cases (to_u64 negative_token_balance (pos (balance_in k m) +ℤ c))) [
      | inl (v, r) ↦
          (let t : add_tokens rest (put_balance k v m) ≡ err e = ground (arith, r, h) in
            let (id, d, l, f, q) = add_tokens-Misfit rest (put_balance k v m) e u.1 t in
            let other : text_eq k id ≡ false = ground (arith, text_eq_iff k id, l, u.0) in
            let same : balance_in id (put_balance k v m) ≡ balance_in id m =
              balance_in-put_balance k id v m ∙ rw other refl in
            (id, d, ground (arith, other, l), subst (λ n. OutOfU64 (pos n +ℤ d)) same f, q))
      | inr (x, r) ↦
          (let q : x ≡ negative_token_balance =
              to_u64-err negative_token_balance x (pos (balance_in k m) +ℤ c) r in
            let t : e ≡ x = ground (arith, r, h) in
            (
              k,
              c,
              ground (arith, text_eq_refl k),
              to_u64-OutOfU64 negative_token_balance x (pos (balance_in k m) +ℤ c) r,
              t ∙ q,
            ))
    ]

-- ===== src/Ledger/Flows.antt =====
-- The STH that the changes of a block move: sums over all addresses.
use sth_core_pq.Base.{ℕ, ◌+◌, ◌≡◌, [], ◌∷◌, Text, lookup, insert, arith}
use sth_core_pq.Base.Int.{ℤ, pos, pos_part, neg_part, ◌+ℤ◌, int_laws, +ℤ_parts}
use sth_core_pq.Ledger.{WalletDelta, no_delta}
use sth_core_pq.Ledger.Env.{default}
use sth_core_pq.Ledger.Deltas.{Deltas, change, pay, charge}

-- The sum of the balance changes.
unfoldable pub total : Deltas → ℤ
total [] = pos 0
total ((a, d) ∷ ds) = d.balance +ℤ total ds

-- From `a` to `b` so much comes in and so much goes out.
abbrev pub Between : ℤ → ℤ → ℕ → ℕ → Type 0
Between a b inflow outflow = pos_part b + neg_part a + outflow ≡ pos_part a + neg_part b + inflow

pub record Flows (ds es : Deltas) (inflow outflow : ℕ) : Type 0 where
  pub net : Between (total ds) (total es) inflow outflow

total-insert :
    (a : Text) (d : WalletDelta) (ds : Deltas) (i o : ℕ)
    → Between ((default no_delta (lookup a ds)).balance) d.balance i o
    → Between (total ds) (total (insert a d ds)) i o
unfolding total insert lookup no_delta
total-insert a d [] i o h = grind (int_laws, h)
total-insert a d ((b, e) ∷ ds) i o h = ground (
  arith,
  h,
  +ℤ_parts e.balance (total ds),
  +ℤ_parts d.balance (total ds),
  +ℤ_parts e.balance (total (insert a d ds)),
  total-insert a d ds i o,
)

pub change-Flows :
    (a : Text) (f : WalletDelta → WalletDelta) (ds : Deltas) (i o : ℕ)
    → ((d : WalletDelta) → Between d.balance (f d).balance i o)
    → Flows ds (change a f ds) i o
unfolding change
change-Flows a f ds i o h = record {
  net = total-insert a (f (default no_delta (lookup a ds))) ds i o (h _);
}

pub pay-Between : (n : ℕ) (d : WalletDelta) → Between d.balance (pay (pos n) d).balance n 0
unfolding pay
pay-Between n d = grind int_laws

pub charge-Between : (n : ℕ) (d : WalletDelta) → Between d.balance (charge (pos n) d).balance 0 n
unfolding charge
charge-Between n d = grind int_laws

pub Flows-refl : (ds : Deltas) → Flows ds ds 0 0
Flows-refl ds = record { net = omega arith }

pub Flows-trans :
    {a b c : Deltas} {i j o p : ℕ} → Flows a b i o → Flows b c j p → Flows a c (i + j) (o + p)
Flows-trans h k = record { net = omega (arith, h.net, k.net) }

pub Flows-even : {a b : Deltas} {i o : ℕ} (n : ℕ) → i ≡ n → o ≡ n → Flows a b i o → Flows a b 0 0
Flows-even n e f h = record { net = omega (arith, h.net, e, f) }

pub Flows-Level : {a b c : Deltas} {i o : ℕ} → Flows a b i o → Flows b c 0 0 → Flows a c i o
Flows-Level h k = record { net = omega (arith, h.net, k.net) }

-- As integers.
pub Flows-total : {a b : Deltas} {i o : ℕ} → Flows a b i o → total b +ℤ pos o ≡ total a +ℤ pos i
Flows-total {a = a} {b = b} {i = i} {o = o} h = grind (int_laws, h.net)

pub Flows-join : {a b c : Deltas} {i o : ℕ} → Flows a b 0 o → Flows b c i 0 → Flows a c i o
Flows-join h k = record { net = omega (arith, h.net, k.net) }

-- What comes in first and goes out again cancels.
pub Flows-cut :
    {a b c d : Deltas} {i j o : ℕ} (n : ℕ)
    → Flows a b n 0
    → Flows b c i n
    → Flows c d j o
    → Flows a d (i + j) o
Flows-cut n h k l = record { net = omega (arith, h.net, k.net, l.net) }

-- ===== src/AntiSpam/Budget.antt =====
-- The per-minute budget of a peer, over any interleaving of calls, and the count of drops.
use sth_core_pq.Base.{
  ℕ, ◌+◌, ◌-◌, ◌^◌, ◌≤◌, ◌<◌, ◌≡◌, ap, true, false, Option, none, some, List, [], ◌∷◌, arith,
  if◌then◌else◌, Text, text_eq, text_eq_refl, retain-Unique, text_eq→eq, Option-cases, Unique,
  lookup-retain, insert-Unique, inl, inr, lookup, lookup-insert, All, add_u64, from_secs,
  Bool-cases,
}
use native.Mathlib.Nat.{add-zero, add_assoc}
use sth_core_pq.AntiSpam.Calls.{admitted, Call, time, step, run}
use sth_core_pq.AntiSpam.{
  AntiSpamConfig, AntiSpam, TxOrigin, PeerWindow, Gate, peer_of, roll, drop_n, gate_budget,
  gate_peer, gate, note_invalid_peer, note_invalid, check_sender, note_evicted, gc,
}

pub drop_n-peers : (now n : ℕ) (s : AntiSpam) → (drop_n now n s).peers ≡ s.peers
unfolding drop_n
drop_n-peers now n s = ground arith

pub drop_n-cfg : (now n : ℕ) (s : AntiSpam) → (drop_n now n s).cfg ≡ s.cfg
unfolding drop_n
drop_n-cfg now n s = ground arith

drop_n-dropped : (now n : ℕ) (s : AntiSpam) → (drop_n now n s).dropped ≡ add_u64 s.dropped n
unfolding drop_n
drop_n-dropped now n s = ground arith

abbrev IsSplit : ℕ → AntiSpam → Gate × AntiSpam → Type 0
IsSplit n s (g, s') = (admitted g ≤ n) × (s'.dropped ≡ add_u64 s.dropped (n - admitted g))

gate_budget-IsSplit :
    (now later n : ℕ) (peer : Text) (w : PeerWindow) (s : AntiSpam)
    → s.dropped < 2 ^ 64
    → IsSplit n s (gate_budget now later peer n w s)
unfolding gate_budget
gate_budget-IsSplit now later n peer w s small = grind (arith, drop_n-dropped)

gate_peer-IsSplit :
    (now later n : ℕ) (peer : Text) (s : AntiSpam)
    → s.dropped < 2 ^ 64
    → IsSplit n s (gate_peer now later peer n s)
unfolding gate_peer
gate_peer-IsSplit now later n peer s small = grind (arith, drop_n-dropped, gate_budget-IsSplit)

-- With the policy on, each batch of a network peer is split: the gate admits at most the batch, and
-- the counter of drops grows (modulo 2^64) by exactly the rest, whichever way the gate decides.
pub gate-dropped :
    (now later n : ℕ) (origin : TxOrigin) (peer : Text) (s : AntiSpam)
    → s.cfg.enabled ≡ true
    → peer_of origin ≡ some peer
    → s.dropped < 2 ^ 64
    → let (g, s') = gate now later origin n s in
      (admitted g ≤ n) × (s'.dropped ≡ add_u64 s.dropped (n - admitted g))
unfolding gate
gate-dropped now later n origin peer s on network small = grind (arith, gate_peer-IsSplit)

-- Every call keeps the keys of the windows distinct.
pub step-Unique :
    (p : Text) (c : Call) (s : AntiSpam) → Unique s.peers → Unique (step p c s).1.peers
unfolding step gate gate_peer gate_budget note_invalid note_invalid_peer check_sender note_evicted
    gc
step-Unique p (Call.gate now later o n) s u = grind (arith, drop_n-peers, insert-Unique)
step-Unique p (Call.note_invalid now o n) s u = grind (arith, insert-Unique)
step-Unique p (Call.check_sender later n b size) s u = grind (arith, drop_n-peers)
step-Unique p Call.note_evicted s u = u
step-Unique p (Call.gc now) s u = retain-Unique _ s.peers u

-- The start of a peer's window, and what the window has admitted.
abbrev pub accepted_of : Text → AntiSpam → Option (ℕ × ℕ)
accepted_of p s = elim (lookup p s.peers) [ none ↦ none | some w ↦ some (w.started, w.accepted) ]

module _ (p : Text) (t0 k : ℕ) (s : AntiSpam) (on : s.cfg.enabled ≡ true)
    (bounded : s.cfg.peer_tx_per_min < 2 ^ 32) (open_window : accepted_of p s ≡ some (t0, k))
    (room : k ≤ s.cfg.peer_tx_per_min) where
  -- After a call that admitted m of the peer's transactions, within the minute.
  abbrev Counts : ℕ × AntiSpam → Type 0
  Counts (m, s') =
      (accepted_of p s' ≡ some (t0, k + m)) × (k + m ≤ s.cfg.peer_tx_per_min) × (s'.cfg ≡ s.cfg)

  gate_budget-Counts :
      (now later n : ℕ) (w : PeerWindow)
      → now < t0 + from_secs 60
      → lookup p s.peers ≡ some w
      → let (g, s') = gate_budget now later p n w s in Counts (admitted g, s')
  unfolding gate_budget roll
  gate_budget-Counts now later n w early e =
      grind (arith, drop_n-peers, drop_n-cfg, lookup-insert, text_eq_refl)

  gate_peer_self :
      (now later n : ℕ)
      → now < t0 + from_secs 60
      → let (g, s') = gate_peer now later p n s in Counts (admitted g, s')
  unfolding gate_peer
  gate_peer_self now later n early = elim (Option-cases (lookup p s.peers)) [
    | inl absent ↦ cc
    | inr (w, e) ↦ grind (
      arith,
      drop_n-peers,
      drop_n-cfg,
      lookup-insert,
      text_eq_refl,
      gate_budget-Counts now later n w early e,
    )
  ]

  gate_budget-other :
      (now later n : ℕ) (q : Text) (w : PeerWindow)
      → text_eq q p ≡ false
      → Counts (0, (gate_budget now later q n w s).1)
  unfolding gate_budget
  gate_budget-other now later n q w other = grind (arith, drop_n-peers, drop_n-cfg, lookup-insert)

  gate_peer-other :
      (now later n : ℕ) (q : Text) → text_eq q p ≡ false → Counts (0, (gate_peer now later q n s).1)
  unfolding gate_peer
  gate_peer-other now later n q other =
      grind (arith, drop_n-peers, drop_n-cfg, lookup-insert, gate_budget-other)

  gate_peer-Counts :
      (now later n : ℕ) (q : Text)
      → now < t0 + from_secs 60
      → let (g, s') = gate_peer now later q n s in
        Counts (if text_eq q p then admitted g else 0, s')
  gate_peer-Counts now later n q early = elim (Bool-cases (text_eq q p)) [
    | inl same ↦ rw (text_eq→eq q p same, text_eq_refl p) (gate_peer_self now later n early)
    | inr other ↦ rw other (gate_peer-other now later n q other)
  ]

  gate-Counts :
      (now later n : ℕ) (o : TxOrigin)
      → now < t0 + from_secs 60
      → Counts (step p (Call.gate now later o n) s)
  unfolding step gate
  gate-Counts now later n o early = grind (arith, gate_peer-Counts)

  note_invalid-Counts :
      (now n : ℕ) (o : TxOrigin)
      → now < t0 + from_secs 60
      → Counts (step p (Call.note_invalid now o n) s)
  unfolding step note_invalid note_invalid_peer roll
  note_invalid-Counts now n o early = grind (arith, lookup-insert, text_eq→eq)

  check_sender-Counts : (later n b size : ℕ) → Counts (step p (Call.check_sender later n b size) s)
  unfolding step check_sender
  check_sender-Counts later n b size = grind (arith, drop_n-peers, drop_n-cfg)

  gc-Counts : (now : ℕ) → now < t0 + from_secs 60 → Unique s.peers → Counts (step p (Call.gc now) s)
  unfolding step gc
  gc-Counts now early u = grind (arith, lookup-retain _ p s.peers u)

  note_evicted-Counts : Counts (step p Call.note_evicted s)
  unfolding step note_evicted
  note_evicted-Counts = grind arith

  step-Counts : (c : Call) → time c < t0 + from_secs 60 → Unique s.peers → Counts (step p c s)
  step-Counts (Call.gate now later o n) early u = gate-Counts now later n o early
  step-Counts (Call.note_invalid now o n) early u = note_invalid-Counts now n o early
  step-Counts (Call.check_sender later n b size) early u = check_sender-Counts later n b size
  step-Counts Call.note_evicted early u = note_evicted-Counts
  step-Counts (Call.gc now) early u = gc-Counts now early u

-- Let the policy be on, and let the peer's window be open since t0 with k transactions admitted.
-- Over any interleaving of calls, for any peers, whose clock readings lie before the window's
-- minute is over, the peer gets at most its budget per minute: the window counts exactly what was
-- admitted, and stays within the budget.
pub run_budget :
    (p : Text) (t0 k : ℕ) (cs : List Call) (s : AntiSpam)
    → s.cfg.enabled ≡ true
    → s.cfg.peer_tx_per_min < 2 ^ 32
    → Unique s.peers
    → accepted_of p s ≡ some (t0, k)
    → k ≤ s.cfg.peer_tx_per_min
    → All (λ c. time c < t0 + from_secs 60) cs
    → let (m, s') = run p cs s in
      (accepted_of p s' ≡ some (t0, k + m)) × (k + m ≤ s.cfg.peer_tx_per_min)
unfolding run
run_budget p t0 k [] s on small u w room early = rw (add-zero k) (w, room)
run_budget p t0 k (c ∷ cs) s on small u w room (now, early) =
    let (w', room', same) = step-Counts p t0 k s on small w room c now u in
    let (m, s') = step p c s in
    let (w'', room'') =
      run_budget p t0 (k + m) cs s' (rw same on) (rw same small) (step-Unique p c s u) w'
        (rw same room') early in
    let limit = ap (λ (g : AntiSpamConfig). g.peer_tx_per_min) same in
    (rw (← add_assoc k m (run p cs s').0) w'', omega arith)

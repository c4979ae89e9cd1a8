-- ===== src/AntiSpam/Bans.antt =====
-- Bans hold until they expire, over any interleaving of calls; the wave alert goes out once.
use sth_core_pq.Base.{
  ℕ, ◌+◌, ◌<◌, ◌≡◌, refl, ap, ◌∙◌, true, false, inl, inr, Option, none, some, List, [], ◌∷◌, arith,
  ltb, if◌then◌else◌, Text, text_eq, text_eq_refl, text_eq→eq, Unique, lookup, lookup-insert,
  lookup-retain, All, from_secs, Bool-cases, Option-cases,
}
use sth_core_pq.AntiSpam.Calls.{admitted, Call, time, step, run}
use sth_core_pq.AntiSpam.Budget.{step-Unique, drop_n-peers, drop_n-cfg}
use sth_core_pq.AntiSpam.{
  AntiSpamConfig, AntiSpam, TxOrigin, PeerWindow, peer_of, roll, gate_budget, gate_peer, gate,
  note_invalid_peer, note_invalid, is_banned, check_sender, note_evicted, gc,
}

-- When a peer's ban ends.
abbrev pub ban_of : Text → AntiSpam → Option ℕ
ban_of p s = elim (lookup p s.peers) [ none ↦ none | some w ↦ w.banned_until ]

module _ (p : Text) (until : ℕ) (s : AntiSpam) (on : s.cfg.enabled ≡ true)
    (banned : ban_of p s ≡ some until) where
  -- After a call before the ban ends.
  abbrev Holds : ℕ × AntiSpam → Type 0
  Holds (m, s') = (m ≡ 0) × (ban_of p s' ≡ some until) × (s'.cfg ≡ s.cfg)

  gate_budget-other :
      (now later n : ℕ) (q : Text) (w : PeerWindow)
      → text_eq q p ≡ false
      → Holds (0, (gate_budget now later q n w s).1)
  unfolding gate_budget
  gate_budget-other now later n q w other = grind (arith, drop_n-peers, drop_n-cfg, lookup-insert)

  gate_peer-other :
      (now later n : ℕ) (q : Text) → text_eq q p ≡ false → Holds (0, (gate_peer now later q n s).1)
  unfolding gate_peer
  gate_peer-other now later n q other =
      grind (arith, drop_n-peers, drop_n-cfg, lookup-insert, gate_budget-other)

  gate_peer_self :
      (now later n : ℕ)
      → now < until
      → let (g, s') = gate_peer now later p n s in Holds (admitted g, s')
  unfolding gate_peer
  gate_peer_self now later n early = elim (Option-cases (lookup p s.peers)) [
    | inl absent ↦ cc
    | inr (w, e) ↦ grind (arith, drop_n-peers, drop_n-cfg, lookup-insert, text_eq_refl)
  ]

  gate_peer-Holds :
      (now later n : ℕ) (q : Text)
      → now < until
      → let (g, s') = gate_peer now later q n s in Holds (if text_eq q p then admitted g else 0, s')
  gate_peer-Holds now later n q early = elim (Bool-cases (text_eq q p)) [
    | inl same ↦ rw (text_eq→eq q p same, text_eq_refl p) (gate_peer_self now later n early)
    | inr other ↦ rw other (gate_peer-other now later n q other)
  ]

  step-Holds : (c : Call) → time c < until → Unique s.peers → Holds (step p c s)
  unfolding step gate note_invalid note_invalid_peer roll check_sender note_evicted gc
  step-Holds (Call.gate now later o n) early u = grind (arith, gate_peer-Holds)
  step-Holds (Call.note_invalid now o n) early u = grind (arith, lookup-insert, text_eq→eq)
  step-Holds (Call.check_sender later n b size) early u = grind (arith, drop_n-peers, drop_n-cfg)
  step-Holds Call.note_evicted early u = grind arith
  step-Holds (Call.gc now) early u = grind (arith, lookup-retain _ p s.peers u)

-- Let the policy be on and a peer be banned until some time. Over any interleaving of calls, for
-- any peers, whose clock readings lie before that time, none of the peer's transactions is
-- admitted, and the ban neither ends early nor is prolonged.
pub run_banned :
    (p : Text) (until : ℕ) (cs : List Call) (s : AntiSpam)
    → s.cfg.enabled ≡ true
    → Unique s.peers
    → ban_of p s ≡ some until
    → All (λ c. time c < until) cs
    → let (m, s') = run p cs s in (m ≡ 0) × (ban_of p s' ≡ some until)
unfolding run
run_banned p until [] s on u b early = (refl, b)
run_banned p until (c ∷ cs) s on u b (now, early) =
    let (none_now, b', same) = step-Holds p until s on b c now u in
    let (m, s') = step p c s in
    let enabled = ap (λ (g : AntiSpamConfig). g.enabled) same ∙ on in
    let (none_later, b'') = run_banned p until cs s' enabled (step-Unique p c s u) b' early in
    (omega arith, b'')

-- If `note_invalid` reports a ban, the origin is a network peer, the policy is on, and the peer is
-- banned from then until the configured time has passed, and not after it.
pub note_invalid-is_banned :
    (now k t : ℕ) (o : TxOrigin) (s : AntiSpam)
    → (note_invalid now o k s).0 ≡ true
    → (p : Text) × (peer_of o ≡ some p)
      × (s.cfg.enabled ≡ true)
      × (is_banned t p (note_invalid now o k s).1 ≡ ltb t (now + from_secs s.cfg.ban_secs))
unfolding note_invalid note_invalid_peer is_banned
note_invalid-is_banned now k t o s h = elim (Option-cases (peer_of o)) [
  | inl local ↦ absurd (ground arith)
  | inr (p, e) ↦ (p, e, ground arith, grind (arith, lookup-insert, text_eq_refl))
]

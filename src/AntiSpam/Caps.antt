-- ===== src/AntiSpam/Caps.antt =====
-- The caps of a sender, the alert on a wave of drops, and what the housekeeping forgets.
use sth_core_pq.Base.{
  ◌^◌, ℕ, ◌+◌, ◌-◌, ◌≤◌, ◌<◌, ◌≡◌, ◌≢◌, ◌⊎◌, refl, sym, subst, ◌∙◌, true, false, ◌||◌, none, some,
  List, [], ◌∷◌, arith, ltb, if◌then◌else◌, Text, Unique, lookup, lookup-retain, All, add_u64,
  from_secs, ok,
}
use sth_core_pq.AntiSpam.{AntiSpam, PeerWindow, drop_n, is_banned, check_sender, gc}

-- Both caps allow a transaction of `size` bytes, or the policy is off.
abbrev pub Fits : ℕ → ℕ → ℕ → AntiSpam → Type 0
Fits pending pending_bytes size s =
    (s.cfg.enabled ≡ false)
    ⊎ ((pending < s.cfg.max_per_sender) × (pending_bytes + size ≤ s.cfg.max_bytes_per_sender))

-- For byte counts whose sum is below 2^64, where the sum of the source does not wrap, `check_sender`
-- accepts exactly what fits the caps, and then changes nothing; a refusal counts one limited sender
-- and one drop, each modulo 2^64, and leaves the windows alone.
pub check_sender_lem :
    (later pending bytes size : ℕ) (s : AntiSpam)
    → bytes + size < 2 ^ 64
    → let (r, s') = check_sender later pending bytes size s in
      ((r ≡ ok tt) × Fits pending bytes size s × (s' ≡ s))
      ⊎ ((r ≢ ok tt)
          × (¬ Fits pending bytes size s)
          × (s'.sender_limited ≡ add_u64 s.sender_limited 1)
          × (s'.dropped ≡ add_u64 s.dropped 1)
          × (s'.peers ≡ s.peers))
unfolding check_sender drop_n
check_sender_lem later pending bytes size s h = ground arith

-- A run of drops, each with its clock reading and count.
pub drop_all : List (ℕ × ℕ) → AntiSpam → AntiSpam
drop_all [] s = s
drop_all ((now, n) ∷ ds) s = drop_all ds (drop_n now n s)

drop_n-alerted :
    (now n : ℕ) (s : AntiSpam)
    → s.wave.alerted ≡ true
    → now < s.wave.since + from_secs 60
    → ((drop_n now n s).alerts ≡ s.alerts)
      × ((drop_n now n s).wave.alerted ≡ true)
      × ((drop_n now n s).wave.since ≡ s.wave.since)
unfolding drop_n
drop_n-alerted now n s h early = ground arith

-- Once the alert of a wave has gone out, no further drops send another before the minute is over.
pub drop_all-alerts :
    (ds : List (ℕ × ℕ)) (s : AntiSpam)
    → s.wave.alerted ≡ true
    → All (λ d. d.0 < s.wave.since + from_secs 60) ds
    → (drop_all ds s).alerts ≡ s.alerts
unfolding drop_all
drop_all-alerts [] s h early = refl
drop_all-alerts ((now, n) ∷ ds) s h (early, later) =
    let (quiet, alerted, same) = drop_n-alerted now n s h early in
    drop_all-alerts ds (drop_n now n s) alerted
      (subst (λ x. All (λ d. d.0 < x + from_secs 60) ds) (sym same) later)
    ∙ quiet

-- For a peer with a window, among distinct peers: housekeeping does not change whether the peer is
-- banned, and it forgets the window exactly if the peer is not banned and the window began ten
-- minutes ago or earlier.
pub gc-is_banned :
    (now : ℕ) (p : Text) (w : PeerWindow) (s : AntiSpam)
    → Unique s.peers
    → lookup p s.peers ≡ some w
    → (is_banned now p (gc now s) ≡ is_banned now p s)
      × (lookup p (gc now s).peers
          ≡ (if is_banned now p s || ltb (now - w.started) (from_secs 600) then some w else none))
unfolding is_banned gc
gc-is_banned now p w s u known =
    (grind (arith, lookup-retain _ p s.peers u), grind (arith, lookup-retain _ p s.peers u))

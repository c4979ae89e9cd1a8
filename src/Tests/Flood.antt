-- ===== src/Tests/Flood.antt =====
-- The flood policy on a concrete pool. Instants are nanoseconds; `one` is a network peer.
use sth_core_pq.Base.{
  ◌+◌, ◌-◌, ◌≤◌, ◌≡◌, ◌≢◌, ◌⊎◌, refl, true, ◌||◌, none, some, List, [], ◌∷◌, arith, ltb,
  if◌then◌else◌, Text, ascii, lookup, add_u64, from_secs, ok, text_eq,
}
use sth_core_pq.AntiSpam
use sth_core_pq.AntiSpam.{
  AntiSpamConfig, AntiSpam, TxOrigin, legacy_peer, PeerWindow, Gate, gate, gate_peer, gate_budget,
  roll, note_invalid, note_invalid_peer, is_banned, check_sender, gc,
}
use sth_core_pq.AntiSpam.Calls.{admitted, Call, run}
use sth_core_pq.AntiSpam.Budget.{gate-dropped, run_budget, accepted_of}
use sth_core_pq.AntiSpam.Bans.{ban_of, run_banned, note_invalid-is_banned}
use sth_core_pq.AntiSpam.Caps.{Fits, check_sender_lem, drop_all, drop_all-alerts, gc-is_banned}

abbrev limits : AntiSpamConfig
limits = record {
  enabled = true;
  max_per_sender = 2;
  max_bytes_per_sender = 1000;
  peer_tx_per_min = 5;
  peer_invalid_per_min = 2;
  ban_secs = 600;
  replace_by_fee = true;
  deny_peers = [];
  alert_drops_per_min = 3;
}

abbrev one : Text
one = ascii "10.0.0.1"

abbrev two : Text
two = ascii "10.0.0.2"

-- The pool with a window of `one`.
abbrev with_window : PeerWindow → AntiSpam
with_window w = record {
  cfg = limits;
  peers = (one, w) ∷ [];
  dropped = 0;
  rate_limited = 0;
  sender_limited = 0;
  denied = 0;
  banned_dropped = 0;
  evicted = 0;
  bans = 0;
  wave = record { since = 0; drops = 4; alerted = true };
  alerts = 4 ∷ [];
}

abbrev open_window : PeerWindow
open_window = record {
  started = 10;
  accepted = 3;
  invalid = 1;
  banned_until = none;
  dropped = 0;
  bans = 0;
}

abbrev banned_window : PeerWindow
banned_window = record {
  started = 10;
  accepted = 3;
  invalid = 2;
  banned_until = some 500;
  dropped = 0;
  bans = 1;
}

abbrev calls : List Call
calls =
    Call.gate 20 20 (legacy_peer one) 4
    ∷ Call.note_invalid 30 (legacy_peer two) 1
    ∷ Call.gate 40 40 (legacy_peer one) 1
    ∷ Call.gc 50
    ∷ []

gate-dropped_example :
    let (g, s') = gate 20 20 (legacy_peer one) 4 (with_window open_window) in
    (admitted g ≤ 4) × (s'.dropped ≡ add_u64 0 (4 - admitted g))
gate-dropped_example =
    gate-dropped 20 20 4 (legacy_peer one) one (with_window open_window) refl
      (unfold AntiSpam.peer_of in refl) (omega arith)

run_budget_example :
    let (m, s') = run one calls (with_window open_window) in
    (accepted_of one s' ≡ some (10, 3 + m)) × (3 + m ≤ 5)
run_budget_example =
    run_budget one 10 3 calls (with_window open_window) refl (omega arith)
      (unfold lookup in refl, tt) (unfold lookup text_eq in refl) (omega arith)
      (omega arith, (omega arith, (omega arith, (omega arith, tt))))

run_banned_example :
    let (m, s') = run one calls (with_window banned_window) in (m ≡ 0) × (ban_of one s' ≡ some 500)
run_banned_example =
    run_banned one 500 calls (with_window banned_window) refl (unfold lookup in refl, tt)
      (unfold lookup text_eq in refl) (omega arith, (omega arith, (omega arith, (omega arith, tt))))

note_invalid-is_banned_example :
    (p : Text) × (AntiSpam.peer_of (legacy_peer one) ≡ some p)
    × (true ≡ true)
    × (is_banned 40 p (note_invalid 30 (legacy_peer one) 1 (with_window open_window)).1
        ≡ ltb 40 (30 + from_secs 600))
note_invalid-is_banned_example =
    note_invalid-is_banned 30 1 40 (legacy_peer one) (with_window open_window)
      (unfold note_invalid note_invalid_peer roll lookup text_eq AntiSpam.peer_of in refl)

check_sender_lem_example :
    let (r, s') = check_sender 50 2 300 100 (with_window open_window) in
    ((r ≡ ok tt) × Fits 2 300 100 (with_window open_window) × (s' ≡ with_window open_window))
    ⊎ ((r ≢ ok tt)
        × (¬ Fits 2 300 100 (with_window open_window))
        × (s'.sender_limited ≡ add_u64 0 1)
        × (s'.dropped ≡ add_u64 0 1)
        × (s'.peers ≡ (with_window open_window).peers))
check_sender_lem_example = check_sender_lem 50 2 300 100 (with_window open_window) (omega arith)

drop_all-alerts_example :
    (drop_all ((20, 7) ∷ (30, 9) ∷ []) (with_window open_window)).alerts ≡ 4 ∷ []
drop_all-alerts_example =
    drop_all-alerts ((20, 7) ∷ (30, 9) ∷ []) (with_window open_window) refl
      (omega arith, (omega arith, tt))

gc-is_banned_example :
    (is_banned 100 one (gc 100 (with_window banned_window))
      ≡ is_banned 100 one (with_window banned_window))
    × (lookup one (gc 100 (with_window banned_window)).peers ≡ (
        if is_banned 100 one (with_window banned_window) || ltb (100 - 10) (from_secs 600)
        then some banned_window
        else none))
gc-is_banned_example =
    gc-is_banned 100 one banned_window (with_window banned_window) (unfold lookup in refl, tt)
      (unfold lookup text_eq in refl)

-- Four more would pass the budget of five: two of them are dropped.
gate_over : (gate 20 20 (legacy_peer one) 4 (with_window open_window)).0 ≡ Gate.allow 2
unfolding gate gate_peer gate_budget roll lookup text_eq AntiSpam.peer_of
gate_over = refl

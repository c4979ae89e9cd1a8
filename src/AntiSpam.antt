-- ===== src/AntiSpam.antt =====
-- The pool policy against floods (src/antispam.rs): per-peer windows with bans, per-sender caps and
-- the counters. Each operation takes the clock readings that it makes, in nanoseconds; `later` is
-- the reading inside `drop_n`. Counters are u64 and wrap; logging is left out.
pub mod Calls
pub mod Budget
pub mod Bans
pub mod Caps
use sth_core_pq.Base.{
  ℕ, ◌+◌, ◌-◌, min, Bool, true, false, not, ◌&&◌, ◌||◌, Option, none, some, List, [], ◌∷◌, ltb, leb,
  ◌==◌, if◌then◌else◌, Result, ok, err, Text, text_eq, Map, lookup, insert, any, unwrap_or, add_u32,
  add_u64, from_secs, retain, ascii,
}

pub record AntiSpamConfig : Type 0 where
  pub enabled : Bool
  pub max_per_sender : ℕ
  pub max_bytes_per_sender : ℕ
  pub peer_tx_per_min : ℕ
  pub peer_invalid_per_min : ℕ
  pub ban_secs : ℕ
  pub replace_by_fee : Bool
  pub deny_peers : List Text
  pub alert_drops_per_min : ℕ

pub data TxOrigin : Type 0 where
  local : TxOrigin
  legacy_peer iroh_peer : Text → TxOrigin

-- `TxOrigin::peer`
unfoldable pub peer_of : TxOrigin → Option Text
peer_of local = none
peer_of (legacy_peer p) = some p
peer_of (iroh_peer p) = some p

pub record PeerWindow : Type 0 where
  pub started : ℕ
  pub accepted : ℕ
  pub invalid : ℕ
  pub banned_until : Option ℕ
  pub dropped : ℕ
  pub bans : ℕ

-- `PeerWindow::new`
abbrev pub new_window : ℕ → PeerWindow
new_window now = record {
  started = now;
  accepted = 0;
  invalid = 0;
  banned_until = none;
  dropped = 0;
  bans = 0;
}

unfoldable pub roll : ℕ → PeerWindow → PeerWindow
roll now w =
    if leb (from_secs 60) (now - w.started)
    then record w { started = now; accepted = 0; invalid = 0 }
    else w

-- The drops of the current minute, and whether its alert has gone out.
pub record Wave : Type 0 where
  pub since : ℕ
  pub drops : ℕ
  pub alerted : Bool

pub record AntiSpam : Type 0 where
  pub cfg : AntiSpamConfig
  pub peers : Map PeerWindow
  pub dropped : ℕ
  pub rate_limited : ℕ
  pub sender_limited : ℕ
  pub denied : ℕ
  pub banned_dropped : ℕ
  pub evicted : ℕ
  pub bans : ℕ
  pub wave : Wave
  -- The calls of `alerts::notify` so far, each with the number of drops in its message.
  pub alerts : List ℕ

pub data Gate : Type 0 where
  allow : ℕ → Gate
  deny ban : Gate

-- `AntiSpam::new`
pub new : AntiSpamConfig → ℕ → AntiSpam
new cfg now = record {
  cfg = cfg;
  peers = [];
  dropped = 0;
  rate_limited = 0;
  sender_limited = 0;
  denied = 0;
  banned_dropped = 0;
  evicted = 0;
  bans = 0;
  wave = record { since = now; drops = 0; alerted = false };
  alerts = [];
}

-- The wave that `drop_n` counts in, after `n` more drops.
abbrev count_drops : ℕ → ℕ → Wave → Wave
count_drops now n w =
    if leb (from_secs 60) (now - w.since)
    then record { since = now; drops = n; alerted = false }
    else record w { drops = add_u64 w.drops n }

unfoldable pub drop_n : ℕ → ℕ → AntiSpam → AntiSpam
drop_n now n s =
    let counted = record s { dropped = add_u64 s.dropped n } in
    let w = count_drops now n s.wave in
    if s.cfg.alert_drops_per_min == 0
    then counted
    else if ltb s.cfg.alert_drops_per_min w.drops && not w.alerted
    then record counted { wave = record w { alerted = true }; alerts = w.drops ∷ s.alerts }
    else record counted { wave = w }

-- `t.is_some_and(|t| t > now)`
abbrev pub is_after : ℕ → Option ℕ → Bool
is_after now none = false
is_after now (some t) = ltb now t

-- The window of a peer, made if there is none.
abbrev pub window_of : ℕ → Text → AntiSpam → PeerWindow
window_of now peer s = unwrap_or (new_window now) (lookup peer s.peers)

-- `gate` for a window that is not banned: the per-minute budget.
unfoldable pub gate_budget : ℕ → ℕ → Text → ℕ → PeerWindow → AntiSpam → Gate × AntiSpam
gate_budget now later peer n banned s =
    let w = roll now (record banned { banned_until = none }) in
    let allowed = min n (s.cfg.peer_tx_per_min - w.accepted) in
    let over = n - allowed in
    let accepted = add_u32 w.accepted allowed in
    if ltb 0 over
    then (
      allow allowed,
      drop_n later over (record s {
        peers =
            insert peer (record w { accepted = accepted; dropped = add_u64 w.dropped over })
              s.peers;
        rate_limited = add_u64 s.rate_limited over;
      }),
    )
    else (
      allow allowed,
      record s { peers = insert peer (record w { accepted = accepted }) s.peers },
    )

unfoldable pub gate_peer : ℕ → ℕ → Text → ℕ → AntiSpam → Gate × AntiSpam
gate_peer now later peer n s =
    let w = window_of now peer s in
    if any (λ d. text_eq d peer) s.cfg.deny_peers
    then (deny, drop_n later n (record s { denied = add_u64 s.denied n }))
    else if is_after now w.banned_until
    then (
      ban,
      drop_n later n (record s {
        peers = insert peer (record w { dropped = add_u64 w.dropped n }) s.peers;
        banned_dropped = add_u64 s.banned_dropped n;
      }),
    )
    else gate_budget now later peer n w s

unfoldable pub gate : ℕ → ℕ → TxOrigin → ℕ → AntiSpam → Gate × AntiSpam
gate now later origin n s = elim (peer_of origin) [
  | none ↦ (allow n, s)
  | some peer ↦ if s.cfg.enabled then gate_peer now later peer n s else (allow n, s)
]

pub counts_as_invalid : Text → Bool
counts_as_invalid code =
    text_eq code (ascii "ERR_BAD_DATA")
    || text_eq code (ascii "ERR_WRONG_NETWORK")
    || text_eq code (ascii "ERR_UNKNOWN")

-- `note_invalid` for a known peer and at least one rejection.
unfoldable pub note_invalid_peer : ℕ → Text → ℕ → AntiSpam → Bool × AntiSpam
note_invalid_peer now peer invalid s =
    let rolled = roll now (window_of now peer s) in
    let w = record rolled { invalid = add_u32 rolled.invalid invalid } in
    if leb s.cfg.peer_invalid_per_min w.invalid && not (is_after now w.banned_until)
    then (
      true,
      record s {
        peers =
            insert peer
              (record w {
                banned_until = some (now + from_secs s.cfg.ban_secs);
                bans = add_u32 w.bans 1;
              })
              s.peers;
        bans = add_u64 s.bans 1;
      },
    )
    else (false, record s { peers = insert peer w s.peers })

unfoldable pub note_invalid : ℕ → TxOrigin → ℕ → AntiSpam → Bool × AntiSpam
note_invalid now origin invalid s = if invalid == 0 then (false, s) else elim (peer_of origin) [
  | none ↦ (false, s)
  | some peer ↦ if s.cfg.enabled then note_invalid_peer now peer invalid s else (false, s)
]

pub is_banned : ℕ → Text → AntiSpam → Bool
is_banned now peer s = elim (lookup peer s.peers) [
  | none ↦ false
  | some w ↦ is_after now w.banned_until
]

-- The errors of `check_sender`, both with the code ERR_SPAM_SENDER: the sender holds too many
-- transactions, or too many bytes.
pub data SpamSender : Type 0 where
  too_many too_many_bytes : ℕ → SpamSender

pub check_sender : ℕ → ℕ → ℕ → ℕ → AntiSpam → Result SpamSender (Unit {0}) × AntiSpam
check_sender later pending pending_bytes size s =
    let limited = drop_n later 1 (record s { sender_limited = add_u64 s.sender_limited 1 }) in
    if not s.cfg.enabled
    then (ok tt, s)
    else if leb s.cfg.max_per_sender pending
    then (err (too_many pending), limited)
    else if ltb s.cfg.max_bytes_per_sender (add_u64 pending_bytes size)
    then (err (too_many_bytes pending_bytes), limited)
    else (ok tt, s)

pub replace_by_fee : AntiSpam → Bool
replace_by_fee s = s.cfg.enabled && s.cfg.replace_by_fee

pub note_evicted : AntiSpam → AntiSpam
note_evicted s = record s { evicted = add_u64 s.evicted 1 }

-- `gc` keeps what is banned, and what began less than ten minutes ago.
abbrev pub is_live : ℕ → PeerWindow → Bool
is_live now w = is_after now w.banned_until || ltb (now - w.started) (from_secs 600)

pub gc : ℕ → AntiSpam → AntiSpam
gc now s = record s { peers = retain (is_live now) s.peers }

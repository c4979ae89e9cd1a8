-- ===== src/AntiSpam/Calls.antt =====
-- Sequences of calls of the flood policy, for the theorems that hold over any interleaving.
use sth_core_pq.Base.{ℕ, ◌+◌, Bool, false, none, some, List, [], ◌∷◌, if◌then◌else◌, Text, text_eq}
use sth_core_pq.AntiSpam
use sth_core_pq.AntiSpam.{AntiSpam, TxOrigin, peer_of, Gate, allow, deny, ban}

-- What a gate lets through.
abbrev pub admitted : Gate → ℕ
admitted (allow n) = n
admitted deny = 0
admitted ban = 0

-- The calls that the pool makes, with their clock readings.
pub data Call : Type 0 where
  gate : ℕ → ℕ → TxOrigin → ℕ → Call
  note_invalid : ℕ → TxOrigin → ℕ → Call
  check_sender : ℕ → ℕ → ℕ → ℕ → Call
  note_evicted : Call
  gc : ℕ → Call

-- The reading by which a call judges windows and bans; one that does neither has none.
abbrev pub time : Call → ℕ
time (Call.gate now later o n) = now
time (Call.note_invalid now o k) = now
time (Call.gc now) = now
time _ = 0

abbrev pub is_from : Text → TxOrigin → Bool
is_from p o = elim (peer_of o) [ none ↦ false | some q ↦ text_eq q p ]

-- A call's effect, with the number of transactions of peer p that it admits.
unfoldable pub step : Text → Call → AntiSpam → ℕ × AntiSpam
step p (Call.gate now later o n) s =
    let (g, s') = AntiSpam.gate now later o n s in (if is_from p o then admitted g else 0, s')
step p (Call.note_invalid now o k) s = (0, (AntiSpam.note_invalid now o k s).1)
step p (Call.check_sender later k b size) s = (0, (AntiSpam.check_sender later k b size s).1)
step p Call.note_evicted s = (0, AntiSpam.note_evicted s)
step p (Call.gc now) s = (0, AntiSpam.gc now s)

unfoldable pub run : Text → List Call → AntiSpam → ℕ × AntiSpam
run p [] s = (0, s)
run p (c ∷ cs) s = let (k, s') = step p c s in let (ks, s'') = run p cs s' in (k + ks, s'')

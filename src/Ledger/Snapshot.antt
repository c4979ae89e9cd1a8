-- ===== src/Ledger/Snapshot.antt =====
-- The end of a round: the snapshot of the forging set, and the order of the next round.
use sth_core_pq.Base.{List}
use sth_core_pq.Ledger.Env.{Env}
use sth_core_pq.Ledger.Tree.{Tree}

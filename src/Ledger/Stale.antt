-- ===== src/Ledger/Stale.antt =====
-- A block that is in the chain is not applied again: `check_tip` against the tip that `write_block`
-- leaves.
use sth_core_pq.Ledger.Env.{Env}
use sth_core_pq.Ledger.Tree.{Tree}

-- ===== src/Ledger/Missed.antt =====
-- src/storage.rs: the slots that delegates missed, and the whole of `apply_blocks`: the sled
-- transaction, the snapshot at the end of a round and the missed slots after it. Events are left out.
use sth_core_pq.Base.{
  map, ℕ, zero, suc, ◌+◌, ◌-◌, ◌%◌, max, Bool, true, false, ◌||◌, Option, none, some, List, [], ◌∷◌,
  ◌++◌, Text, Map, lookup, insert, get_elem?, leb, ltb, ◌==◌, if◌then◌else◌, Result, ok, err,
}
use sth_core_pq.Models.{Block}
use sth_core_pq.Round.{DelegateRank, round_info, slot_number, slot_start}
use sth_core_pq.Ledger.{LedgerError}
use sth_core_pq.Ledger.Env.{Env, default, address_from_public_key}
use sth_core_pq.Ledger.Tree.{Tree, MissedSlot, height_key}
use sth_core_pq.Ledger.Deltas.{Deltas}
use sth_core_pq.Ledger.Accumulate.{accumulate_deltas}
use sth_core_pq.Ledger.Tip.{Prepared, apply_locked}
use sth_core_pq.Ledger.Codec.{get_block_by_height, prepare_block}
use sth_core_pq.Ledger.Ranking.{snapshot_round_if_boundary, forging_order}

-- `bump_missed_total(public_key, 1)`
unfoldable pub raise_missed : Text → Map ℕ → Map ℕ
raise_missed pk m = insert pk (default 0 (lookup pk m) + 1) m

-- What became of a call: the new state, an error with the state as it is then, or a panic.
pub data Outcome (Value : Type 0) : Type 0 where
  applied : Tree Value → Outcome Value
  refused : LedgerError → Tree Value → Outcome Value
  panicked : Outcome Value

abbrev and_then : {Value : Type 0} → Outcome Value → (Tree Value → Outcome Value) → Outcome Value
and_then (applied t) f = f t
and_then (refused e t) f = refused e t
and_then panicked f = panicked

module _ {Value : Type 0} (env : Env Value) (sha256 : List ℕ → List ℕ) where
  unfoldable pub name_of : Tree Value → Text → Option Text
  name_of t pk = elim (address_from_public_key env pk) [
    | none ↦ none
    | some address ↦ elim (lookup address t.wallets) [ none ↦ none | some w ↦ w.username ]
  ]

  -- The slots of the gap, the first argument being their number. An order that is shorter than the
  -- round panics.
  unfoldable pub miss_slots :
      ℕ → ℕ → ℕ → ℕ → ℕ → List DelegateRank → Tree Value → Option (List MissedSlot × Map ℕ)
  miss_slots zero slot n height blocktime order t = some ([], t.missed_total)
  miss_slots (suc k) slot n height blocktime order t = elim (get_elem? order (slot % n)) [
    | none ↦ none
    | some d ↦
        let u = record t { missed_total = raise_missed d.public_key t.missed_total } in
        elim (miss_slots k (slot + 1) n height blocktime order u) [
          | none ↦ none
          | some rest ↦
              let missed : MissedSlot = record {
                height = height;
                slot = slot;
                timestamp = slot_start slot blocktime;
                public_key = d.public_key;
                username = name_of t d.public_key;
              } in
              some (missed ∷ rest.0, rest.1)
        ]
  ]

  -- Gaps longer than a round are not attributed.
  unfoldable pub record_missed_slots : ℕ → Block Value → Tree Value → Outcome Value
  record_missed_slots prev_timestamp b t =
      let ms = env.milestone b.height in
      let n = max ms.active_delegates 1 in
      let prev_slot = slot_number prev_timestamp ms.blocktime in
      let cur_slot = slot_number b.timestamp ms.blocktime in
      let gap = cur_slot - prev_slot - 1 in
      if leb cur_slot (prev_slot + 1) || ltb n gap
      then applied t
      else elim (forging_order sha256 t (round_info b.height n).round) [
        | none ↦ applied t
        | some shuffled ↦ elim shuffled [
          | none ↦ panicked
          | some order ↦ elim (miss_slots gap (prev_slot + 1) n b.height ms.blocktime order t) [
            | none ↦ panicked
            | some found ↦ applied (record t {
              missed_at = insert (height_key b.height) found.0 t.missed_at;
              missed_total = found.1;
            })
          ]
        ]
      ]

  unfoldable pub record_all_missed : Option ℕ → List (Block Value) → Tree Value → Outcome Value
  record_all_missed prev [] t = applied t
  record_all_missed prev (b ∷ bs) t =
      and_then (elim prev [ none ↦ applied t | some p ↦ record_missed_slots p b t ])
        (record_all_missed (some b.timestamp) bs)

  unfoldable pub previous_timestamp : Block Value → Tree Value → Option ℕ
  previous_timestamp first t =
      if ltb 1 first.height
      then elim (get_block_by_height env t (first.height - 1)) [
        | err e ↦ none
        | ok found ↦ elim found [ none ↦ none | some b ↦ some b.timestamp ]
      ]
      else none

  unfoldable pub accumulate_blocks :
      Tree Value → List (Block Value) → List (Block Value) → Deltas → Result LedgerError Deltas
  accumulate_blocks t [] batch deltas = ok deltas
  accumulate_blocks t (b ∷ bs) batch deltas = elim (accumulate_deltas env t b batch deltas) [
    | err e ↦ err e
    | ok after ↦ accumulate_blocks t bs batch after
  ]

  unfoldable pub last_of : Block Value → List (Block Value) → Block Value
  last_of b [] = b
  last_of b (c ∷ bs) = last_of c bs

  unfoldable pub prepare_all : List (Block Value) → Result LedgerError (List (Prepared Value))
  prepare_all [] = ok []
  prepare_all (b ∷ bs) = elim (prepare_block env b) [
    | err e ↦ err e
    | ok p ↦ elim (prepare_all bs) [ err e ↦ err e | ok ps ↦ ok (p ∷ ps) ]
  ]

  -- `apply_locked` from the prepared blocks on, a first one and the rest.
  unfoldable pub apply_prepared :
      Prepared Value → List (Prepared Value) → Bool → Tree Value → Outcome Value
  apply_prepared first rest undo_on t =
      let blocks = map (λ p. p.0) rest in
      let batch = first.0 ∷ blocks in
      elim (accumulate_blocks t batch batch []) [
        | err e ↦ refused e t
        | ok deltas ↦ elim (apply_locked env first rest deltas undo_on t) [
          | err e ↦ refused e t
          | ok u ↦
              let v = snapshot_round_if_boundary env (last_of first.0 blocks).height u in
              record_all_missed (previous_timestamp first.0 v) batch v
        ]
      ]

  -- The whole of `apply_locked`.
  unfoldable pub apply_batch : Block Value → List (Block Value) → Bool → Tree Value → Outcome Value
  apply_batch first rest undo_on t = elim (prepare_block env first) [
    | err e ↦ refused e t
    | ok p ↦ elim (prepare_all rest) [ err e ↦ refused e t | ok ps ↦ apply_prepared p ps undo_on t ]
  ]

  unfoldable pub apply_each : List (Block Value) → Tree Value → Outcome Value
  apply_each [] t = applied t
  apply_each (b ∷ bs) t = and_then (apply_batch b [] true t) (apply_each bs)

  -- The blocks of the batch so far in front of one more.
  abbrev apply_until : List (Block Value) → Block Value → Tree Value → Outcome Value
  apply_until [] b t = apply_batch b [] false t
  apply_until (first ∷ rest) b t = apply_batch first (rest ++ b ∷ []) false t

  abbrev is_last : List (Block Value) → Bool
  is_last [] = true
  is_last (b ∷ bs) = false

  -- The bulk mode: a batch ends at the boundary of a round, or with the last block.
  unfoldable pub apply_bulk : List (Block Value) → List (Block Value) → Tree Value → Outcome Value
  apply_bulk batch [] t = applied t
  apply_bulk batch (b ∷ bs) t =
      let n = max (env.milestone b.height).active_delegates 1 in
      let cut = b.height % n == 0 || is_last bs in
      and_then (if cut then apply_until batch b t else applied t)
        (apply_bulk (if cut then [] else batch ++ b ∷ []) bs)

  unfoldable pub apply_blocks : Bool → List (Block Value) → Tree Value → Outcome Value
  apply_blocks undo_enabled [] t = applied t
  apply_blocks undo_enabled (b ∷ []) t = apply_batch b [] true t
  apply_blocks undo_enabled (b ∷ c ∷ bs) t =
      if undo_enabled then apply_each (b ∷ c ∷ bs) t else apply_bulk [] (b ∷ c ∷ bs) t

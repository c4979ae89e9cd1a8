-- ===== src/Ledger/Ranking.antt =====
-- src/storage.rs: the ranking of the delegates, the forging set of a round, its snapshot at the end of
-- a round, and the order of src/delegate/round.rs. `sort_by` is the stable sort of the standard
-- library, here by insertion.
use sth_core_pq.Base.{
  ℕ, ◌+◌, ◌%◌, max, Bool, true, false, not, ◌&&◌, ◌||◌, Option, none, some, List, [], ◌∷◌, any,
  take, map, Text, text_eq, Map, lookup, insert, is_some, ltb, ◌==◌, if◌then◌else◌,
}
use sth_core_pq.Round.{DelegateRank, round_info, shuffle}
use sth_core_pq.Rules.Manifest.{is_some_and}
use sth_core_pq.Ledger.{WalletState}
use sth_core_pq.Ledger.Env.{Env, default}
use sth_core_pq.Ledger.Tree.{Tree, EquivocationProof, votes_of, height_key}
use sth_core_pq.Ledger.Tip.{tip}

-- A wallet with its votes.
abbrev pub Ranked : Type 0
Ranked = WalletState × ℕ

unfoldable pub text_before : Text → Text → Bool
text_before [] [] = false
text_before [] (y ∷ ys) = true
text_before (x ∷ xs) [] = false
text_before (x ∷ xs) (y ∷ ys) = ltb x y || x == y && text_before xs ys

-- `Option<String>` orders `None` first.
unfoldable pub key_before : Option Text → Option Text → Bool
key_before none none = false
key_before none (some b) = true
key_before (some a) none = false
key_before (some a) (some b) = text_before a b

-- The comparison of the sort, as "comes strictly before": not resigned, more votes, smaller key.
unfoldable pub comes_before : Ranked → Ranked → Bool
comes_before (a, m) (b, n) =
    not a.resigned && b.resigned
    || (not a.resigned && not b.resigned || a.resigned && b.resigned)
      && (ltb n m || n == m && key_before a.public_key b.public_key)

unfoldable pub insert_ranked : Ranked → List Ranked → List Ranked
insert_ranked x [] = x ∷ []
insert_ranked x (y ∷ ys) =
    let rest = insert_ranked x ys in if comes_before y x then y ∷ rest else x ∷ y ∷ ys

unfoldable pub sort_ranked : List Ranked → List Ranked
sort_ranked [] = []
sort_ranked (x ∷ xs) = insert_ranked x (sort_ranked xs)

module _ {Value : Type 0} where
  unfoldable pub rank : Tree Value → WalletState → Ranked
  rank t w = (w, elim (w.public_key) [ none ↦ 0 | some pk ↦ votes_of pk t.votes ])

  -- The wallets of the username index.
  unfoldable pub registered_delegates : Tree Value → Map Text → List Ranked
  registered_delegates t [] = []
  registered_delegates t ((name, address) ∷ names) =
      let rest = registered_delegates t names in
      elim (lookup address t.wallets) [ none ↦ rest | some w ↦ rank t w ∷ rest ]

  unfoldable pub delegate_ranking : Tree Value → List Ranked
  delegate_ranking t = sort_ranked (registered_delegates t t.by_username)

-- Neither resigned nor banned.
unfoldable pub eligible : List Text → Ranked → Bool
eligible banned (w, n) =
    not w.resigned && not (is_some_and (λ pk. any (λ b. text_eq b pk) banned) w.public_key)

unfoldable pub keep_eligible : List Text → List Ranked → List Ranked
keep_eligible banned [] = []
keep_eligible banned (x ∷ xs) =
    let rest = keep_eligible banned xs in if eligible banned x then x ∷ rest else rest

abbrev pub delegate_rank : Ranked → DelegateRank
delegate_rank (w, n) = record { public_key = default [] w.public_key; votes = n }

module _ {Value : Type 0} where
  unfoldable pub active_delegates_excluding : ℕ → List Text → Tree Value → List DelegateRank
  active_delegates_excluding count banned t =
      map delegate_rank (take count (keep_eligible banned (delegate_ranking t)))

  unfoldable pub save_round : ℕ → List DelegateRank → Tree Value → Tree Value
  save_round round list t = record t { rounds = insert (height_key round) list t.rounds }

-- `filter(|p| p.banned_until_round > round)`; the repeats that `dedup` drops do not matter to `any`.
unfoldable pub banned_by : ℕ → List EquivocationProof → List Text
banned_by round [] = []
banned_by round (p ∷ ps) =
    let rest = banned_by round ps in
    if ltb round p.banned_until_round then p.public_key ∷ rest else rest

module _ {Value : Type 0} (env : Env Value) where
  unfoldable pub banned_delegates : ℕ → ℕ → Tree Value → List Text
  banned_delegates round height t =
      if (env.milestone (max height 1)).finality_slashing
      then banned_by round t.equivocations
      else []

  unfoldable pub active_delegates : ℕ → Tree Value → List DelegateRank
  active_delegates count t =
      let next = tip t + 1 in
      let round = (round_info next (env.milestone next).active_delegates).round in
      active_delegates_excluding count (banned_delegates round next t) t

  unfoldable pub first_round : ℕ → Tree Value → Tree Value
  first_round n t =
      if is_some (lookup (height_key 1) t.rounds) then t else save_round 1 (active_delegates n t) t

  unfoldable pub snapshot_round_if_boundary : ℕ → Tree Value → Tree Value
  snapshot_round_if_boundary height t =
      let n = max (env.milestone height).active_delegates 1 in
      let u = if height == 1 then first_round n t else t in
      if height % n == 0
      then save_round (round_info height n).next_round (active_delegates n u) u
      else u

-- `src/delegate/round.rs`: the order of a stored snapshot. The inner `none` is a panic of the shuffle.
unfoldable pub forging_order :
    {Value : Type 0} → (List ℕ → List ℕ) → Tree Value → ℕ → Option (Option (List DelegateRank))
forging_order sha256 t round = elim (lookup (height_key round) t.rounds) [
  | none ↦ none
  | some list ↦ some (shuffle sha256 list round)
]

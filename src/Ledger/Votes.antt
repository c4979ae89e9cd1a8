-- ===== src/Ledger/Votes.antt =====
-- The vote index: `adjust_votes` moves the weight of one wallet, and every write of wallets keeps the
-- votes of a delegate the sum of its voters' weights.
use sth_core_pq.Base.{
  ℕ, ◌+◌, ◌<◌, ◌≤◌, ◌^◌, ◌≡◌, ◌-◌, ◌%◌, refl, Option, none, some, [], ◌∷◌, Text, text_eq,
  text_eq_iff, text_eq_refl, true, Map, lookup, insert, remove, lookup-insert, Unique,
  if◌then◌else◌, arith,
}
use sth_core_pq.Base.Int.{pos, ◌+ℤ◌, ◌-ℤ◌}
use sth_core_pq.Ledger.{WalletState, vote_weight}
use sth_core_pq.Ledger.Tree.{same_vote, votes_of, add_votes, take_from, move_votes, adjust_votes}

-- What a vote gives to a delegate.
abbrev pub weight_for : Text → Option (Text × ℕ) → ℕ
weight_for pk none = 0
weight_for pk (some (q, n)) = if text_eq q pk then n else 0

unfoldable pub tally : Text → Map WalletState → ℕ
tally pk [] = 0
tally pk ((address, w) ∷ ws) = weight_for pk (vote_weight (some w)) + tally pk ws

abbrev pub weight_of : Text → Option WalletState → ℕ
weight_of pk o = weight_for pk (vote_weight o)

pub weight_of-none : (pk : Text) → weight_of pk none ≡ 0
unfolding vote_weight
weight_of-none pk = refl

pub tally-insert :
    (pk address : Text) (w : WalletState) (m : Map WalletState)
    → tally pk (insert address w m) + weight_of pk (lookup address m)
      ≡ tally pk m + weight_of pk (some w)
unfolding tally insert lookup
tally-insert pk address w [] = omega (arith, weight_of-none pk)
tally-insert pk address w ((j, v) ∷ m) = ground (arith, tally-insert pk address w m)

tally-remove_absent :
    (pk address : Text) (m : Map WalletState)
    → lookup address m ≡ none
    → tally pk (remove address m) ≡ tally pk m
unfolding tally remove lookup
tally-remove_absent pk address [] h = refl
tally-remove_absent pk address ((j, v) ∷ m) h = ground (arith, tally-remove_absent pk address m)

pub tally-remove :
    (pk address : Text) (m : Map WalletState)
    → Unique m
    → tally pk (remove address m) + weight_of pk (lookup address m) ≡ tally pk m
unfolding tally remove lookup
tally-remove pk address [] u = omega (arith, weight_of-none pk)
tally-remove pk address ((j, v) ∷ m) u = ground (
  arith,
  tally-remove pk address m u.1,
  tally-remove_absent pk address m,
  text_eq_iff j address,
  u.0,
)

-- The votes of every delegate after a move that stays in range.
add_votes_up :
    (pk a : Text) (n : ℕ) (votes : Map ℕ)
    → votes_of a votes + n < 2 ^ 64
    → votes_of pk (add_votes a (pos n) votes) ≡ votes_of pk votes + weight_for pk (some (a, n))
unfolding add_votes ◌+ℤ◌
add_votes_up pk a n votes h =
    ground (arith, lookup-insert a pk ((votes_of a votes + n) % 2 ^ 64) votes, text_eq_iff a pk)

add_votes_down :
    (pk a : Text) (m n : ℕ) (votes : Map ℕ)
    → m ≤ votes_of a votes
    → votes_of a votes + n < 2 ^ 64 + m
    → votes_of pk (add_votes a (pos n -ℤ pos m) votes) + weight_for pk (some (a, m))
      ≡ votes_of pk votes + weight_for pk (some (a, n))
unfolding add_votes ◌+ℤ◌ ◌-ℤ◌
add_votes_down pk a m n votes h r =
    ground (arith, lookup-insert a pk ((votes_of a votes + n - m) % 2 ^ 64) votes, text_eq_iff a pk)

same_vote→eq : (x y : Option (Text × ℕ)) → same_vote x y ≡ true → x ≡ y
unfolding same_vote
same_vote→eq none none h = refl
same_vote→eq none (some y) h = cc
same_vote→eq (some x) none h = cc
same_vote→eq (some (a, m)) (some (b, n)) h = ground (arith, text_eq_iff a b)

-- The index holds the old weight, and has room for the new one.
abbrev pub HasRoom : Option (Text × ℕ) → Option (Text × ℕ) → Map ℕ → Type 0
HasRoom before after votes =
    (pk : Text)
    → (weight_for pk before ≤ votes_of pk votes)
      × (votes_of pk votes + weight_for pk after < 2 ^ 64 + weight_for pk before)

take_from_lem :
    (pk : Text) (before : Option (Text × ℕ)) (votes : Map ℕ)
    → HasRoom before none votes
    → votes_of pk (take_from before votes) + weight_for pk before ≡ votes_of pk votes
take_from_lem pk none votes h = omega arith
take_from_lem pk (some (a, m)) votes h =
    ground (arith, add_votes_down pk a m 0 votes, h a, text_eq_refl a)

move_votes_lem :
    (pk : Text) (before after : Option (Text × ℕ)) (votes : Map ℕ)
    → HasRoom before after votes
    → votes_of pk (move_votes before after votes) + weight_for pk before
      ≡ votes_of pk votes + weight_for pk after
unfolding move_votes
move_votes_lem pk none none votes h = refl
move_votes_lem pk none (some (b, n)) votes h =
    ground (arith, add_votes_up pk b n votes, h b, text_eq_refl b)
move_votes_lem pk (some (a, m)) none votes h =
    ground (arith, take_from_lem pk (some (a, m)) votes h)
move_votes_lem pk (some (a, m)) (some (b, n)) votes h =
    let away : HasRoom (some (a, m)) none votes = λ q. ground (arith, h q) in
    let left = take_from (some (a, m)) votes in
    ground (
      arith,
      text_eq_iff a b,
      text_eq_iff a pk,
      text_eq_iff b pk,
      text_eq_refl a,
      text_eq_refl b,
      h a,
      h b,
      add_votes_down pk a m n votes,
      add_votes_up pk b n left,
      take_from_lem pk (some (a, m)) votes away,
      take_from_lem b (some (a, m)) votes away,
    )

pub adjust_votes_lem :
    (pk : Text) (before after : Option (Text × ℕ)) (votes : Map ℕ)
    → HasRoom before after votes
    → votes_of pk (adjust_votes before after votes) + weight_for pk before
      ≡ votes_of pk votes + weight_for pk after
unfolding adjust_votes
adjust_votes_lem pk before after votes h =
    ground (arith, same_vote→eq before after, move_votes_lem pk before after votes h)

pub tally-lookup :
    (pk address : Text) (m : Map WalletState) → weight_of pk (lookup address m) ≤ tally pk m
unfolding tally lookup
tally-lookup pk address [] = omega (arith, weight_of-none pk)
tally-lookup pk address ((j, v) ∷ m) = ground (arith, tally-lookup pk address m)

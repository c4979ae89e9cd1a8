-- ===== src/Ledger/Tree.antt =====
-- src/storage.rs: the sled tree with its key prefixes, the keys that are built of several parts, and
-- what the writes of a sled transaction go through. A transaction that aborts leaves the tree as it was.
use sth_core_pq.Base.{
  ℕ, ◌+◌, ◌*◌, ◌<◌, ◌≡◌, refl, sym, ap, ◌∙◌, ◌%◌, ◌^◌, Bool, Option, List, [], ◌∷◌, ◌++◌, Text, Map,
  unwrap_or, insert, remove, if◌then◌else◌, text_eq, ◌==◌, ◌&&◌, true, false, none, some,
}
use sth_core_pq.Base.Int.{ℤ, pos, pos_part, ◌+ℤ◌, ◌-ℤ◌}
use sth_core_pq.Base.{lookup}
use sth_core_pq.Bytes.{to_le_bytes, from_le_bytes}
use sth_core_pq.Bytes.RoundTrip.{from_le_bytes-to_le_bytes}
use sth_core_pq.Models.{TokenOrder}
use sth_core_pq.Round.{DelegateRank}
use sth_core_pq.Rules.Wallet.{is_open}
use sth_core_pq.Ledger.{LockRecord, WalletState, TokenTrade}

-- `to_be_bytes` of a number of k bytes.
be_acc : List ℕ → List ℕ → List ℕ
be_acc [] acc = acc
be_acc (b ∷ bs) acc = be_acc bs (b ∷ acc)

unfoldable pub to_be_bytes : ℕ → ℕ → List ℕ
unfolding be_acc
to_be_bytes k v = be_acc (to_le_bytes k v) []

-- Reversed twice, a list is as it was.
be_acc_twice : (l a c : List ℕ) → be_acc (be_acc l a) c ≡ be_acc a (l ++ c)
unfolding be_acc
be_acc_twice [] a c = refl
be_acc_twice (b ∷ l) a c = be_acc_twice l (b ∷ a) c

from_le_bytes_end : (l : List ℕ) → from_le_bytes (l ++ []) ≡ from_le_bytes l
unfolding from_le_bytes
from_le_bytes_end [] = refl
from_le_bytes_end (b ∷ l) = ap (λ n. b + 256 * n) (from_le_bytes_end l)

pub to_be_bytes_injective :
    (k a b : ℕ) → a < 256 ^ k → b < 256 ^ k → to_be_bytes k a ≡ to_be_bytes k b → a ≡ b
unfolding to_be_bytes be_acc
to_be_bytes_injective k a b ha hb h =
    let value : (n : ℕ)
        → from_le_bytes (be_acc (be_acc (to_le_bytes k n) []) [])
          ≡ from_le_bytes (to_le_bytes k n) =
      λ n.
        ap from_le_bytes (be_acc_twice (to_le_bytes k n) [] [])
        ∙ from_le_bytes_end (to_le_bytes k n) in
    sym (from_le_bytes-to_le_bytes k a ha)
    ∙ sym (value a)
    ∙ ap (λ l. from_le_bytes (be_acc l [])) h
    ∙ value b
    ∙ from_le_bytes-to_le_bytes k b hb

pub record FinalityCert : Type 0 where
  pub height : ℕ
  pub block_id : Text
  pub votes : Map Text

pub record MissedSlot : Type 0 where
  pub height : ℕ
  pub slot : ℕ
  pub timestamp : ℕ
  pub public_key : Text
  pub username : Option Text

pub record EquivocationProof : Type 0 where
  pub height : ℕ
  pub public_key : Text
  pub block_ids : Text × Text
  pub signatures : Text × Text
  pub detected_height : ℕ
  pub banned_until_round : ℕ

-- The wallets as they were before a block.
abbrev pub UndoRecord : Type 0
UndoRecord = List (Text × Option WalletState)

pub record Tree (Value : Type 0) : Type 0 where
  pub wallets : Map WalletState
  pub by_public_key : Map Text
  pub by_username : Map Text
  pub votes : Map ℕ
  pub pq_commitments : Map ℕ
  pub pq_keys : Map ℕ
  pub locks : Map LockRecord
  pub sobj_names : Map Text
  pub sobj_owners : Map Text
  pub market : Map Text
  pub token_owners : Map Text
  pub token_symbols : Map Text
  pub orders : Map TokenOrder
  pub book : Map Text
  pub seller_orders : Map Text
  pub trades : Map TokenTrade
  -- `decode_block` of the stored bytes.
  -- `encode_block`
  pub blocks : Map (List ℕ)
  pub block_ids : Map ℕ
  pub txs : Map ℕ
  pub tx_list : Map Text
  pub wallet_txs : Map Text
  pub tx_count : Option ℕ
  pub last_height : Option ℕ
  pub undo : Map UndoRecord
  pub rounds : Map (List DelegateRank)
  pub finality : List FinalityCert
  pub equivocations : List EquivocationProof
  pub missed_at : Map (List MissedSlot)
  pub missed_total : Map ℕ

unfoldable pub height_key : ℕ → Text
height_key height = to_be_bytes 8 height

unfoldable pub trade_key : Text → ℕ → ℕ → Text
trade_key token_id height seq =
    token_id ++ (b':' ∷ to_be_bytes 8 height ++ (b':' ∷ to_be_bytes 4 seq))

unfoldable pub book_key : TokenOrder → Text
book_key o = o.token_id ++ (b':' ∷ to_be_bytes 8 o.price ++ (b':' ∷ o.id))

unfoldable pub seller_key : TokenOrder → Text
seller_key o = o.seller ++ (b':' ∷ o.id)

unfoldable pub tx_order_key : Text → ℕ → ℕ → Text
tx_order_key [] height seq = to_be_bytes 8 height ++ to_be_bytes 4 seq
tx_order_key (c ∷ cs) height seq = c ∷ cs ++ (b':' ∷ to_be_bytes 8 height ++ to_be_bytes 4 seq)

-- `before == after`
unfoldable pub same_vote : Option (Text × ℕ) → Option (Text × ℕ) → Bool
same_vote none none = true
same_vote none (some y) = false
same_vote (some x) none = false
same_vote (some (a, m)) (some (b, n)) = text_eq a b && m == n

abbrev pub votes_of : Text → Map ℕ → ℕ
votes_of pk votes = unwrap_or 0 (lookup pk votes)

-- The sum is an i128, which the cast to u64 cuts.
unfoldable pub add_votes : Text → ℤ → Map ℕ → Map ℕ
add_votes pk delta votes = insert pk (pos_part (pos (votes_of pk votes) +ℤ delta) % 2 ^ 64) votes

abbrev pub take_from : Option (Text × ℕ) → Map ℕ → Map ℕ
take_from none votes = votes
take_from (some (a, n)) votes = add_votes a (pos 0 -ℤ pos n) votes

abbrev pub give_to : Option (Text × ℕ) → Map ℕ → Map ℕ
give_to none votes = votes
give_to (some (b, n)) votes = add_votes b (pos n) votes

unfoldable pub move_votes : Option (Text × ℕ) → Option (Text × ℕ) → Map ℕ → Map ℕ
move_votes (some (a, m)) (some (b, n)) votes =
    if text_eq a b
    then add_votes a (pos n -ℤ pos m) votes
    else give_to (some (b, n)) (take_from (some (a, m)) votes)
move_votes before after votes = give_to after (take_from before votes)

unfoldable pub adjust_votes : Option (Text × ℕ) → Option (Text × ℕ) → Map ℕ → Map ℕ
adjust_votes before after votes =
    if same_vote before after then votes else move_votes before after votes

module _ {Value : Type 0} where
  unfoldable pub write_order : TokenOrder → Tree Value → Tree Value
  write_order o t =
      if is_open o
      then record t {
        orders = insert o.id o t.orders;
        book = insert (book_key o) o.id t.book;
        seller_orders = insert (seller_key o) o.id t.seller_orders;
      }
      else record t {
        orders = insert o.id o t.orders;
        book = remove (book_key o) t.book;
        seller_orders = remove (seller_key o) t.seller_orders;
      }

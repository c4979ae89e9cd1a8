-- ===== src/Tests/Token.antt =====
-- The token rules on a concrete token. `Unit` stands for the JSON values: the one value there is
-- reads as the asset under test, and base64 decodes nothing.
use sth_core_pq.Base.{
  ℕ, ◌+◌, ◌*◌, ◌%◌, ◌^◌, ◌≤◌, ◌≡◌, ◌≢◌, ◌↔◌, refl, true, false, Option, none, some, List, [], ◌∷◌,
  arith, length, Text, ascii, text_eq, insert, ok, unwrap_or, lookup,
}
use sth_core_pq.Models.{
  no_asset, TokenAsset, Transaction, TokenOrder, TokenState, TokenType, Milestone, token_asset,
  pq_surcharge, is_token, is_pq, has_flag, flag_mintable,
}
use sth_core_pq.Rules.Format.{check_token_format, expected_fee, check_transfer, is_hex_id}
use sth_core_pq.Rules.Fees.{check_token_format_lem, InRange, fee_of}
use sth_core_pq.Rules.Wallet.{
  check_token, check_type, wallet_transfer, wallet_buy, wallet_mint, open_order, remaining, is_open,
  sum_u64, token_buy_total,
}
use sth_core_pq.Rules.Amounts.{
  check_token-transfer_covered, token_buy_total-exact, check_token-mint_cap,
}
use sth_core_pq.Batch.{
  BatchTokenView, Tx, view, order, run, check_and_apply, apply, token_state, token_owner,
  token_balance, fill, pending_order, apply_buy, put_order, credit, set_balance,
}
use sth_core_pq.Batch.Market.{IsSound, Sold, bought, run-Sold}
use sth_core_pq.Batch.Transfers.{total, IsDistinct, apply-total}

abbrev milestone : Milestone
milestone = record {
  height = 1;
  tokens = true;
  token_fees = record {
    init = 500;
    transfer = 10;
    transfer_per_recipient = 2;
    mint = 10;
    burn = 10;
    meta = 100;
    init_burn_percent = 50;
    sell = 100;
    buy = 10;
    cancel = 10;
  };
  token_transfer_max_recipients = 64;
  token_market = record { enabled = true; max_open_orders = 0 };
  pq = record {
    active = false;
    fee_per_byte = 10000;
    commitment_grace = 0;
    blocks = false;
    blocks_grace = 0;
  };
}

-- 64 hexadecimal digits.
abbrev token_id : Text
token_id = ascii "0123456789abcdef0123456789abcdef0123456789abcdef0123456789abcdef"

abbrev order_id : Text
order_id = ascii "fedcba9876543210fedcba9876543210fedcba9876543210fedcba9876543210"

abbrev alice : Text
alice = ascii "Sa"

abbrev bob : Text
bob = ascii "Sb"

abbrev empty_asset : TokenAsset
empty_asset = record {
  id = token_id;
  decimals = none;
  flags = none;
  initial_supply = none;
  supply_cap = none;
  transfers = none;
  memo = none;
  amount = none;
  recipient_id = none;
  meta = none;
  price = none;
  order_id = none;
}

abbrev transfer_asset : TokenAsset
transfer_asset = record empty_asset {
  transfers = some (
      record { recipient_id = bob; amount = 30 }
      ∷ record { recipient_id = alice; amount = 5 }
      ∷ []);
}

abbrev buy_asset : TokenAsset
buy_asset = record empty_asset { amount = some 4; order_id = some order_id }

abbrev mint_asset : TokenAsset
mint_asset = record empty_asset { amount = some 50; recipient_id = some alice }

abbrev reads_as : TokenAsset → Unit {0} → Option TokenAsset
reads_as a v = some a

abbrev no_base64 : Text → Option (List ℕ)
no_base64 t = none

abbrev tx : ℕ → ℕ → Transaction (Unit {0})
tx kind fee = record {
  version = 2;
  network = none;
  type_group = 3;
  type_ = kind;
  nonce = some 1;
  sender_public_key = [];
  fee = fee;
  amount = 0;
  vendor_field = none;
  expiration = none;
  recipient_id = none;
  asset = some (record no_asset { extra = (ascii "token", tt) ∷ [] });
  signature = none;
  second_signature = none;
  sign_signature = none;
  signatures = none;
  second_signatures = none;
  timestamp = none;
  id = none;
  block_id = none;
  block_height = none;
  sequence = none;
}

abbrev gold : TokenState
gold = record {
  symbol = ascii "GOLD";
  decimals = 0;
  flags = 1;
  supply = 100;
  supply_cap = 1000;
  owner = alice;
  init_height = 1;
  meta = none;
}

abbrev ask : TokenOrder
ask = record {
  id = order_id;
  token_id = token_id;
  seller = bob;
  amount = 10;
  filled = 3;
  price = 7;
  height = 1;
  closed = none;
  fills = [];
}

abbrev batch : BatchTokenView
batch = record {
  storage = record {
    token_owner = λ id. some alice;
    token_state = λ id. some gold;
    token_balance = λ address id. 40;
    order = λ id. some ask;
    wallet_orders = λ seller. [];
    ticker_sobj = λ id. none;
  };
  states = [];
  balances = λ address id. none;
  orders = [];
}

transfer_format :
    check_token_format no_base64 (reads_as transfer_asset) (tx 1 12) milestone ≡ ok transfer_asset
unfolding check_token_format expected_fee check_transfer is_hex_id token_asset is_token pq_surcharge
    is_pq lookup text_eq
transfer_format = refl

transfer_wallet : check_token (view batch) (tx 1 12) transfer_asset alice ≡ ok tt
unfolding check_token check_type wallet_transfer sum_u64 token_balance token_state lookup
transfer_wallet = refl

check_token_format_lem_example :
    (check_token_format no_base64 (reads_as transfer_asset) (tx 1 12) milestone ≡ ok transfer_asset)
    ↔ ((token_asset (reads_as transfer_asset) (tx 1 12) ≡ some transfer_asset)
        × ((tx 1 12).amount ≡ 0)
        × (length (unwrap_or [] ((tx 1 12).vendor_field)) ≡ 0)
        × (is_hex_id token_id ≡ true)
        × InRange no_base64 milestone TokenType.transfer transfer_asset
        × ((tx 1 12).fee
            ≡ (fee_of milestone TokenType.transfer transfer_asset + pq_surcharge (tx 1 12) 10000)
              % 2 ^ 64))
check_token_format_lem_example =
    check_token_format_lem (reads_as transfer_asset) no_base64 milestone (tx 1 12) transfer_asset

check_token-transfer_covered_example : 35 ≤ (view batch).token_balance alice token_id
check_token-transfer_covered_example =
    check_token-transfer_covered (reads_as transfer_asset) no_base64 milestone (view batch)
      (tx 1 12) transfer_asset alice refl transfer_format transfer_wallet

buy_wallet : check_token (view batch) (tx 6 10) buy_asset alice ≡ ok tt
unfolding check_token check_type wallet_buy open_order remaining is_open order lookup text_eq
buy_wallet = refl

token_buy_total-exact_example :
    (token_buy_total (view batch) (reads_as buy_asset) (tx 6 10) ≡ 4 * 7)
    × (3 + 4 ≤ 10)
    × (bob ≢ alice)
    × (ask.closed ≡ none)
token_buy_total-exact_example =
    token_buy_total-exact (reads_as buy_asset) (view batch) (tx 6 10) buy_asset alice order_id ask
      refl refl (unfold token_asset is_token lookup text_eq in refl) refl
      (unfold order lookup in refl) (omega arith) (omega arith) (omega arith) buy_wallet

mint_wallet : check_token (view batch) (tx 2 10) mint_asset alice ≡ ok tt
unfolding check_token check_type wallet_mint token_state token_owner has_flag lookup text_eq
mint_wallet = refl

check_token-mint_cap_example :
    (has_flag gold.flags flag_mintable ≡ true)
    × (100 + 50 ≤ 1000)
    × ((view batch).token_owner token_id ≡ some alice)
check_token-mint_cap_example =
    check_token-mint_cap (view batch) (tx 2 10) mint_asset alice gold refl
      (unfold token_state lookup in refl) (omega arith) mint_wallet

apply-total_example :
    total token_id
      (alice ∷ bob ∷ [])
      (apply TokenType.transfer transfer_asset alice 9 order_id batch)
    ≡ total token_id (alice ∷ bob ∷ []) batch
unfolding IsDistinct text_eq
apply-total_example =
    apply-total (reads_as transfer_asset) no_base64 milestone (tx 1 12) transfer_asset alice
      order_id 9 batch (alice ∷ bob ∷ []) refl transfer_format transfer_wallet
      ((refl, tt), (tt, tt)) refl (refl, (refl, tt)) (unfold total token_balance in omega arith)

-- Two buys of the same order.
abbrev buys : List Tx
buys =
    record {
      kind = TokenType.buy;
      asset = buy_asset;
      sender = alice;
      height = 9;
      tx_id = ascii "t1";
    }
    ∷ record {
      kind = TokenType.buy;
      asset = record buy_asset { amount = some 3 };
      sender = alice;
      height = 9;
      tx_id = ascii "t2";
    }
    ∷ []

abbrev bought_once : BatchTokenView
bought_once = apply TokenType.buy buy_asset alice 9 (ascii "t1") batch

abbrev bought_twice : BatchTokenView
bought_twice =
    apply TokenType.buy (record buy_asset { amount = some 3 }) alice 9 (ascii "t2") bought_once

run-buys : run buys batch ≡ ok bought_twice
unfolding run check_and_apply check_type wallet_buy open_order remaining is_open order lookup insert
    text_eq apply apply_buy pending_order put_order fill credit set_balance
run-buys = refl

-- The seven units that were left are sold.
run-Sold_example :
    (o' : TokenOrder) × (order bought_twice order_id ≡ some o')
    × Sold (bought order_id buys) ask o'
    × IsSound o'
run-Sold_example =
    run-Sold buys batch bought_twice order_id ask run-buys (unfold text_eq in (refl, (refl, tt)))
      (unfold order lookup in refl) (omega arith, omega arith)

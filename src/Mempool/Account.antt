-- ===== src/Mempool/Account.antt =====
-- The transactions of one account and the score that queues it (mempool/src/types.rs).
-- Nonces are `u32`, and `+ 1` on them wraps as it does in a release build.
use ola_os.Base.{
  ℕ, min, compare, ◌≡◌, Bool, false, not, Option, none, some, [], Ordering, Outcome, returns,
  expect, ◌>>=◌, arith, ltb, ◌==◌, is_some, if◌then◌else◌, length,
}
use ola_os.Base.Order.{Ord, nat_ord, reverse, and_then}
use ola_os.Base.Map
use ola_os.Base.Map.{Map}
use ola_os.Base.Words.{wrapping_add32}
use ola_os.Types.Tx.{L2Tx, Transaction}
use ola_os.Types.Tx
use mathlib.Core.Option

pub record MempoolScore : Type 0 where
  pub account : ℕ
  pub received_at_ms : ℕ

-- `Ord::cmp`: the transaction received first is the greatest.
abbrev pub score_cmp : MempoolScore → MempoolScore → Ordering
score_cmp s t =
    and_then (reverse (compare s.received_at_ms t.received_at_ms)) (compare s.account t.account)

pub score_cmp_self : (s : MempoolScore) → score_cmp s s ≡ Ordering.eq
score_cmp_self s = ground arith

pub score_cmp-eq : (s t : MempoolScore) → score_cmp s t ≡ Ordering.eq → s ≡ t
score_cmp-eq s t h = ground arith

pub score_cmp-gt : (s t : MempoolScore) → score_cmp s t ≡ Ordering.gt → score_cmp t s ≡ Ordering.lt
score_cmp-gt s t h = ground arith

pub score_cmp-lt : (s t : MempoolScore) → score_cmp s t ≡ Ordering.lt → score_cmp t s ≡ Ordering.gt
score_cmp-lt s t h = ground arith

pub score_cmp_trans :
    (s t u : MempoolScore)
    → score_cmp s t ≡ Ordering.lt
    → score_cmp t u ≡ Ordering.lt
    → score_cmp s u ≡ Ordering.lt
score_cmp_trans s t u h k = ground arith

instance abbrev pub score_ord : Ord MempoolScore
score_ord = record {
  cmp = score_cmp;
  cmp_self = score_cmp_self;
  cmp-eq = score_cmp-eq;
  cmp-gt = score_cmp-gt;
  cmp-lt = score_cmp-lt;
  cmp_trans = score_cmp_trans;
}

pub record AccountTransactions : Type 0 where
  -- transactions of the account, keyed by their nonce
  pub transactions : Map ℕ L2Tx
  -- committed nonce plus the transactions sent to the sequencer
  pub nonce : ℕ

pub record InsertionMetadata : Type 0 where
  pub new_score : Option MempoolScore
  pub previous_score : Option MempoolScore
  pub is_new : Bool

-- `AccountTransactions::new`
unfoldable pub new : ℕ → AccountTransactions
new n = record { transactions = []; nonce = n }

unfoldable pub score_for_transaction : L2Tx → MempoolScore
score_for_transaction tx = record {
  account = tx.common_data.initiator_address;
  received_at_ms = tx.received_timestamp_ms;
}

-- The score of the transaction with a nonce, if there is one.
unfoldable pub score_at : ℕ → AccountTransactions → Option MempoolScore
score_at n a = Option.map score_for_transaction (Map.lookup n a.transactions)

unfoldable pub insert : AccountTransactions → L2Tx → AccountTransactions × InsertionMetadata
insert a tx =
    let n = tx.common_data.nonce in
    let previous_score = score_at n a in
    if ltb n a.nonce
    then (a, record { new_score = none; previous_score = none; is_new = false })
    else (
      record a { transactions = Map.insert n tx a.transactions },
      record {
        new_score = if n == a.nonce then some (score_for_transaction tx) else none;
        previous_score = if n == a.nonce then previous_score else none;
        is_new = not (is_some previous_score);
      },
    )

-- A rejected transaction sets the nonce back; returns the score of its successor.
unfoldable pub reset :
    AccountTransactions → Transaction → Outcome (AccountTransactions × Option MempoolScore)
reset a tx = do
  tx_nonce ← expect (Tx.nonce tx)
  returns (record a { nonce = min a.nonce tx_nonce }, score_at (wrapping_add32 tx_nonce 1) a)

unfoldable pub len : AccountTransactions → ℕ
len a = length a.transactions

unfoldable pub next :
    AccountTransactions → Outcome (AccountTransactions × L2Tx × Option MempoolScore)
next a = do
  tx ← expect (Map.lookup a.nonce a.transactions)
  let rest = record a {
    transactions = Map.remove a.nonce a.transactions;
    nonce = wrapping_add32 a.nonce 1;
  }
  returns (rest, tx, score_at rest.nonce rest)

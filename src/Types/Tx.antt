-- ===== src/Types/Tx.antt =====
-- Transactions (types/src/lib.rs, types/src/l2/mod.rs, types/src/tx/execute.rs). Addresses and
-- hashes are their big-endian bytes read as numbers; a byte is a number below 256.
use ola_os.Base.{ℕ, List, Option, none, some, Outcome, returns, expect, ◌>>=◌}

pub record Execute : Type 0 where
  pub contract_address : ℕ
  pub calldata : List ℕ
  pub factory_deps : Option (List (List ℕ))

pub data TransactionType : Type 0 where
  eip712_transaction eip1559_transaction ola_raw_transaction : TransactionType
  priority_op_transaction protocol_upgrade_transaction : TransactionType

pub record InputData : Type 0 where
  pub hash : ℕ
  pub bytes : List ℕ

pub record L2TxCommonData : Type 0 where
  pub nonce : ℕ
  pub initiator_address : ℕ
  pub signature : List ℕ
  pub transaction_type : TransactionType
  pub input : Option InputData

pub record ProtocolUpgradeTxCommonData : Type 0 where
  pub sender : ℕ
  pub upgrade_id : ℕ
  pub eth_hash : ℕ
  pub eth_block : ℕ
  pub canonical_tx_hash : ℕ

pub data ExecuteTransactionCommon : Type 0 where
  l2 : L2TxCommonData → ExecuteTransactionCommon
  protocol_upgrade : ProtocolUpgradeTxCommonData → ExecuteTransactionCommon

pub record Transaction : Type 0 where
  pub common_data : ExecuteTransactionCommon
  pub execute : Execute
  pub received_timestamp_ms : ℕ

pub record L2Tx : Type 0 where
  pub execute : Execute
  pub common_data : L2TxCommonData
  pub received_timestamp_ms : ℕ

-- `From<L2Tx> for Transaction`
unfoldable pub from_l2 : L2Tx → Transaction
from_l2 tx = record {
  common_data = l2 tx.common_data;
  execute = tx.execute;
  received_timestamp_ms = tx.received_timestamp_ms;
}

pub record ProtocolUpgradeTx : Type 0 where
  pub execute : Execute
  pub common_data : ProtocolUpgradeTxCommonData
  pub received_timestamp_ms : ℕ

-- `From<ProtocolUpgradeTx> for Transaction`
unfoldable pub from_upgrade : ProtocolUpgradeTx → Transaction
from_upgrade tx = record {
  common_data = protocol_upgrade tx.common_data;
  execute = tx.execute;
  received_timestamp_ms = tx.received_timestamp_ms;
}

unfoldable pub nonce_of : ExecuteTransactionCommon → Option ℕ
nonce_of (l2 tx) = some tx.nonce
nonce_of (protocol_upgrade _) = none

-- `Transaction::nonce`
unfoldable pub nonce : Transaction → Option ℕ
unfolding nonce_of
nonce tx = nonce_of tx.common_data

-- `L2TxCommonData::hash`
unfoldable pub l2_hash : L2TxCommonData → Outcome ℕ
l2_hash d = do input ← expect d.input; returns input.hash

unfoldable pub hash_of : ExecuteTransactionCommon → Outcome ℕ
unfolding l2_hash
hash_of (l2 d) = l2_hash d
hash_of (protocol_upgrade d) = returns d.canonical_tx_hash

-- `Transaction::hash`
unfoldable pub hash : Transaction → Outcome ℕ
unfolding hash_of
hash tx = hash_of tx.common_data

unfoldable pub initiator_of : ExecuteTransactionCommon → ℕ
initiator_of (l2 d) = d.initiator_address
initiator_of (protocol_upgrade d) = d.sender

-- `Transaction::initiator_account`
unfoldable pub initiator_account : Transaction → ℕ
unfolding initiator_of
initiator_account tx = initiator_of tx.common_data

-- The numbers that stand for the kinds of transactions.
unfoldable pub tx_type_number : TransactionType → ℕ
tx_type_number TransactionType.eip712_transaction = 113
tx_type_number TransactionType.eip1559_transaction = 2
tx_type_number TransactionType.ola_raw_transaction = 16
tx_type_number TransactionType.priority_op_transaction = 255
tx_type_number TransactionType.protocol_upgrade_transaction = 254

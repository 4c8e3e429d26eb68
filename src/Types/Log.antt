-- ===== src/Types/Log.antt =====
-- Storage logs and storage keys (types/src/storage/log.rs, types/src/storage/mod.rs). Values are
-- 256-bit words; `u256_to_h256` is the identity on numbers.
use ola_os.Base.{ℕ, compare, ◌≡◌, Bool, true, false, Ordering, arith, if◌then◌else◌}
use ola_os.Base.Order.{Ord, and_then}

pub data StorageLogQueryType : Type 0 where
  read initial_write repeated_write : StorageLogQueryType

-- `log_type == StorageLogQueryType::InitialWrite`
unfoldable pub is_initial_write : StorageLogQueryType → Bool
is_initial_write StorageLogQueryType.initial_write = true
is_initial_write _ = false

pub record LogQuery : Type 0 where
  pub timestamp : ℕ
  pub tx_number_in_block : ℕ
  pub aux_byte : ℕ
  pub shard_id : ℕ
  pub address : ℕ
  pub key : ℕ
  pub read_value : ℕ
  pub written_value : ℕ
  pub rw_flag : Bool
  pub rollback : Bool
  pub is_service : Bool

pub record StorageLogQuery : Type 0 where
  pub log_query : LogQuery
  pub log_type : StorageLogQueryType

pub record StorageKey : Type 0 where
  pub account : ℕ
  pub key : ℕ

-- The derived order: by account, then by key.
abbrev pub storage_key_cmp : StorageKey → StorageKey → Ordering
storage_key_cmp j k = and_then (compare j.account k.account) (compare j.key k.key)

pub storage_key_cmp_self : (k : StorageKey) → storage_key_cmp k k ≡ Ordering.eq
storage_key_cmp_self k = ground arith

pub storage_key_cmp-eq : (j k : StorageKey) → storage_key_cmp j k ≡ Ordering.eq → j ≡ k
storage_key_cmp-eq j k h = ground arith

pub storage_key_cmp-gt :
    (j k : StorageKey) → storage_key_cmp j k ≡ Ordering.gt → storage_key_cmp k j ≡ Ordering.lt
storage_key_cmp-gt j k h = ground arith

pub storage_key_cmp-lt :
    (j k : StorageKey) → storage_key_cmp j k ≡ Ordering.lt → storage_key_cmp k j ≡ Ordering.gt
storage_key_cmp-lt j k h = ground arith

pub storage_key_cmp_trans :
    (i j k : StorageKey)
    → storage_key_cmp i j ≡ Ordering.lt
    → storage_key_cmp j k ≡ Ordering.lt
    → storage_key_cmp i k ≡ Ordering.lt
storage_key_cmp_trans i j k h e = ground arith

instance abbrev pub storage_key_ord : Ord StorageKey
storage_key_ord = record {
  cmp = storage_key_cmp;
  cmp_self = storage_key_cmp_self;
  cmp-eq = storage_key_cmp-eq;
  cmp-gt = storage_key_cmp-gt;
  cmp-lt = storage_key_cmp-lt;
  cmp_trans = storage_key_cmp_trans;
}

-- The key that a log is about, as `StorageKey::new` builds it.
unfoldable pub key_of : LogQuery → StorageKey
key_of q = record { account = q.address; key = q.key }

-- The value that a write log leaves behind.
unfoldable pub value_after : LogQuery → ℕ
value_after q = if q.rollback then q.read_value else q.written_value

pub data StorageLogKind : Type 0 where
  read write : StorageLogKind

pub record StorageLog : Type 0 where
  pub kind : StorageLogKind
  pub key : StorageKey
  pub value : ℕ

-- `StorageLog::from_log_query`
unfoldable pub from_log_query : StorageLogQuery → StorageLog
unfolding key_of value_after
from_log_query log =
    let q = log.log_query in
    if q.rw_flag
    then record { kind = StorageLogKind.write; key = key_of q; value = value_after q }
    else record { kind = StorageLogKind.read; key = key_of q; value = q.read_value }

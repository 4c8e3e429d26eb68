-- ===== src/Mempool/Collect.antt =====
-- The garbage collection behind `get_mempool_info`.
use ola_os.Base.{
  ℕ, ◌≡◌, refl, inl, inr, ap, sym, is_some, none, Bool, true, All, arith, Option-cases, Bool-cases,
  leb, ltb, ◌||◌, [], ◌∷◌, if◌then◌else◌,
}
use ola_os.Base.Order.{nat_ord}
use ola_os.Base.Map
use ola_os.Base.Map.{Map, Set, keys, contains, IsSorted, Above}
use ola_os.Base.Map.Laws.{
  cmp-cases, contains-add_keep, contains-cons, contains_head, contains_tail, contains-add_self,
  contains-add_ne, Above-mono, IsSorted-of_Above, lookup_below,
}
use ola_os.Base.Map.Entries.{sum_by}
use ola_os.Mempool.Account.{AccountTransactions, MempoolScore, score_ord}
use ola_os.Mempool.Account
use ola_os.Mempool.Store.{MempoolStore, kept, queued_accounts}
use ola_os.Mempool.Store
use ola_os.Mempool.Insert.{pointers_at}
use ola_os.Mempool.Invariant.{head_account, AccountIsValid, IsValid, head_score}

module _ (index : Set ℕ) where
  kept-Above : (k : ℕ) (m : Map ℕ AccountTransactions) → Above k m → Above k (kept index m)
  unfolding kept
  kept-Above k [] h = tt
  kept-Above k ((a, t) ∷ m) h =
      ground (arith, kept-Above a m h.1, kept-Above k m, Above-mono k a m h.0 h.1)

  kept-IsSorted : (m : Map ℕ AccountTransactions) → IsSorted m → IsSorted (kept index m)
  unfolding kept
  kept-IsSorted [] h = tt
  kept-IsSorted ((a, t) ∷ m) h =
      ground (arith, kept-Above a m h, kept-IsSorted m (IsSorted-of_Above a m h))

  kept-All :
      (P : ℕ × AccountTransactions → Type 0) (m : Map ℕ AccountTransactions)
      → All P m
      → All P (kept index m)
  unfolding kept
  kept-All P [] h = tt
  kept-All P ((a, t) ∷ m) h = ground (arith, kept-All P m h.1)

  -- The accounts in the index stay as they are; the others go.
  lookup-kept :
      (a : ℕ) (m : Map ℕ AccountTransactions)
      → IsSorted m
      → Map.lookup a (kept index m) ≡ (if contains a index then Map.lookup a m else none)
  unfolding kept Map.lookup
  lookup-kept a [] h = ground arith
  lookup-kept a ((b, t) ∷ m) h =
      ground (arith, lookup-kept a m (IsSorted-of_Above b m h), lookup_below a m)

-- The index holds the account of every queued score.
contains-queued_accounts :
    (p : MempoolScore) (q : Set MempoolScore)
    → contains p q ≡ true
    → contains p.account (queued_accounts (keys q)) ≡ true
unfolding keys queued_accounts
contains-queued_accounts p [] h = unfold contains Map.lookup in cc
contains-queued_accounts p ((r, u) ∷ q) h = elim (contains-cons p r q h) [
  | inl same ↦
      rw (ap (λ s. s.account) same) (contains-add_self r.account (queued_accounts (keys q)))
  | inr later ↦
      contains-add_keep p.account r.account (queued_accounts (keys q))
        (contains-queued_accounts p q later)
]

-- And nothing else.
queued_score :
    (a : ℕ) (q : Set MempoolScore)
    → contains a (queued_accounts (keys q)) ≡ true
    → (p : MempoolScore) × (p.account ≡ a) × (contains p q ≡ true)
unfolding keys queued_accounts
queued_score a [] h = unfold contains Map.lookup in cc
queued_score a ((r, u) ∷ q) h = elim (cmp-cases a r.account) [
  | inl same ↦ (r, sym same, contains_head r q)
  | inr other ↦
      let later = rw (contains-add_ne a r.account (queued_accounts (keys q)) other) at h in
      let (p, own, found) = queued_score a q later in (p, own, contains_tail p r q found)
]

-- The accounts that a valid store can serve from.
abbrev pub can_serve : ℕ → MempoolStore → Bool
can_serve a s = is_some (head_score (Map.lookup a s.l2_transactions_per_account))

index-can_serve :
    (a : ℕ) (s : MempoolStore)
    → IsValid s
    → contains a (queued_accounts (keys s.l2_priority_queue)) ≡ can_serve a s
index-can_serve a s v =
    elim (Bool-cases (contains a (queued_accounts (keys s.l2_priority_queue)))) [
      | inl queued ↦
          let (p, own, found) = queued_score a s.l2_priority_queue queued in
          let head = (pointers_at a s p v own).0 found in rw (queued, head)
      | inr not_queued ↦
          elim (Option-cases (head_score (Map.lookup a s.l2_transactions_per_account))) [
            | inl no_head ↦ rw (not_queued, no_head)
            | inr (p, head) ↦
                let own = head_account a s p v head in
                let found = (pointers_at a s p v own).1 head in
                cc (
                  contains-queued_accounts p s.l2_priority_queue found,
                  ap (λ k. contains k (queued_accounts (keys s.l2_priority_queue))) own,
                )
          ]
    ]

-- The accounts that are left after a collection.
abbrev collected : MempoolStore → MempoolStore
collected s =
    let left = kept (queued_accounts (keys s.l2_priority_queue)) s.l2_transactions_per_account in
    record s { l2_transactions_per_account = left; size = sum_by Account.len left }

lookup-collected :
    (a : ℕ) (s : MempoolStore)
    → IsValid s
    → Map.lookup a (collected s).l2_transactions_per_account
      ≡ (if can_serve a s then Map.lookup a s.l2_transactions_per_account else none)
lookup-collected a s v = rw (← index-can_serve a s v) (
    lookup-kept (queued_accounts (keys s.l2_priority_queue)) a s.l2_transactions_per_account
      v.accounts_sorted)

head-collected :
    (a : ℕ) (s : MempoolStore)
    → IsValid s
    → head_score (Map.lookup a (collected s).l2_transactions_per_account)
      ≡ head_score (Map.lookup a s.l2_transactions_per_account)
head-collected a s v =
    rw (lookup-collected a s v)
      (elim (Option-cases (head_score (Map.lookup a s.l2_transactions_per_account))) [
        | inl nothing ↦ rw nothing
        | inr (p, head) ↦ rw head head
      ])

collected-IsValid : (s : MempoolStore) → IsValid s → IsValid (collected s)
collected-IsValid s v =
    let index = queued_accounts (keys s.l2_priority_queue) in
    record {
      accounts_sorted = kept-IsSorted index s.l2_transactions_per_account v.accounts_sorted;
      queue_sorted = v.queue_sorted;
      accounts_valid = kept-All index AccountIsValid s.l2_transactions_per_account v.accounts_valid;
      pointers = λ p. rw (head-collected p.account s v) (v.pointers p);
      counted = refl;
    }

without_stash-IsValid :
    (s : MempoolStore) → IsValid s → IsValid (record s { stashed_accounts = [] })
without_stash-IsValid s v = record {
  accounts_sorted = v.accounts_sorted;
  queue_sorted = v.queue_sorted;
  accounts_valid = v.accounts_valid;
  pointers = v.pointers;
  counted = v.counted;
}

gc-IsValid : (s : MempoolStore) → IsValid s → IsValid (Store.gc s).0
unfolding Store.gc
gc-IsValid s v = elim (Bool-cases (leb s.capacity s.size)) [
  | inl full ↦ rw full (collected-IsValid s v)
  | inr room ↦ rw room v
]

-- `get_mempool_info` keeps a valid store valid, hands out the stash and empties it.
pub get_mempool_info-IsValid :
    (s : MempoolStore)
    → IsValid s
    → let (s', info) = Store.get_mempool_info s in
      IsValid s'
      × (s'.stashed_accounts ≡ [])
      × (info.stashed_accounts ≡ s.stashed_accounts)
      × (s'.l2_priority_queue ≡ s.l2_priority_queue)
unfolding Store.get_mempool_info
get_mempool_info-IsValid s v =
    let t : MempoolStore = record s { stashed_accounts = [] } in
    (
      gc-IsValid t (without_stash-IsValid s v),
      unfold Store.gc in ground arith,
      refl,
      unfold Store.gc in ground arith,
    )

-- At its capacity the store forgets exactly the accounts that it cannot serve from, so whatever is
-- next in an account stays; below its capacity no account is forgotten.
pub get_mempool_info_purges :
    (a : ℕ) (s : MempoolStore)
    → IsValid s
    → Map.lookup a (Store.get_mempool_info s).0.l2_transactions_per_account ≡ (
        if ltb s.size s.capacity || can_serve a s
        then Map.lookup a s.l2_transactions_per_account
        else none)
unfolding Store.get_mempool_info Store.gc
get_mempool_info_purges a s v = ground (arith, lookup-collected a s v)

-- ===== src/Mempool/Pointers.antt =====
-- One account's pointer is exchanged for another one in the queue.
use ola_os.Base.{ℕ, ◌≡◌, ◌≢◌, ◌↔◌, inl, inr, Option, none, some, true, false, arith, refl, ap, ◌∙◌}
use ola_os.Base.Map
use ola_os.Base.Map.{Set, contains, IsSorted}
use ola_os.Base.Map.Laws.{
  cmp-cases, contains-add_self, contains-add_ne, contains-remove_self, contains-remove_ne,
}
use ola_os.Base.Map.Sorted.{insert-IsSorted, remove-IsSorted}
use ola_os.Mempool.Account.{MempoolScore, score_ord}
use ola_os.Mempool.Store.{add_score, remove_score}

-- The pointer, if any, belongs to the account.
abbrev pub BelongsTo : ℕ → Option MempoolScore → Type 0
BelongsTo a none = Unit
BelongsTo a (some p) = p.account ≡ a

pub add_score-IsSorted :
    (new : Option MempoolScore) (q : Set MempoolScore) → IsSorted q → IsSorted (add_score new q)
unfolding Map.add
add_score-IsSorted none q h = h
add_score-IsSorted (some k) q h = insert-IsSorted k tt q h

pub remove_score-IsSorted :
    (old : Option MempoolScore) (q : Set MempoolScore) → IsSorted q → IsSorted (remove_score old q)
remove_score-IsSorted none q h = h
remove_score-IsSorted (some k) q h = remove-IsSorted k q h

add_score_ne :
    (a : ℕ) (new : Option MempoolScore) (q : Set MempoolScore) (p : MempoolScore)
    → BelongsTo a new
    → p.account ≢ a
    → contains p (add_score new q) ≡ contains p q
add_score_ne a none q p b h = refl
add_score_ne a (some k) q p b h = contains-add_ne p k q (λ e. h (ap (λ s. s.account) e ∙ b))

remove_score_ne :
    (a : ℕ) (old : Option MempoolScore) (q : Set MempoolScore) (p : MempoolScore)
    → BelongsTo a old
    → p.account ≢ a
    → contains p (remove_score old q) ≡ contains p q
remove_score_ne a none q p b h = refl
remove_score_ne a (some k) q p b h = contains-remove_ne p k q (λ e. h (ap (λ s. s.account) e ∙ b))

-- Pointers of other accounts stay.
pub exchange_ne :
    (a : ℕ) (old new : Option MempoolScore) (q : Set MempoolScore) (p : MempoolScore)
    → BelongsTo a old
    → BelongsTo a new
    → p.account ≢ a
    → contains p (add_score new (remove_score old q)) ≡ contains p q
exchange_ne a old new q p bo bn h =
    add_score_ne a new (remove_score old q) p bn h ∙ remove_score_ne a old q p bo h

-- Without the account's old pointer, the queue has none of the account.
pub remove_score_own :
    (old : Option MempoolScore) (q : Set MempoolScore) (p : MempoolScore)
    → IsSorted q
    → (contains p q ≡ true) ↔ (old ≡ some p)
    → contains p (remove_score old q) ≡ false
remove_score_own none q p s h = ground (arith, h.0)
remove_score_own (some k) q p s h = elim (cmp-cases p k) [
  | inl same ↦ rw same (contains-remove_self k q s)
  | inr other ↦ rw (contains-remove_ne p k q other) (ground (arith, h.0))
]

-- The account's pointer is then the new one.
pub exchange_own :
    (old new : Option MempoolScore) (q : Set MempoolScore) (p : MempoolScore)
    → IsSorted q
    → (contains p q ≡ true) ↔ (old ≡ some p)
    → (contains p (add_score new (remove_score old q)) ≡ true) ↔ (new ≡ some p)
exchange_own old none q p s h =
    let gone = remove_score_own old q p s h in ((λ c. cc gone), (λ e. cc))
exchange_own old (some k) q p s h = elim (cmp-cases p k) [
  | inl same ↦ ((λ c. rw same refl), (λ e. rw same (contains-add_self k (remove_score old q))))
  | inr other ↦
      let gone = remove_score_own old q p s h in
      let kept = contains-add_ne p k (remove_score old q) other in
      ((λ c. cc (gone, kept)), (λ e. absurd (other (ground arith))))
]

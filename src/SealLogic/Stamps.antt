-- ===== src/SealLogic/Stamps.antt =====
-- Queries with distinct timestamps, in their order (ola_core/src/sequencer/io/sort_storage_access.rs).
use mathlib.Core.Logic.Or
use mathlib.Core.List.{Perm, Permᴰ}
use mathlib.Core.List.Permᴰ
use mathlib.Core.List.Perm
use mathlib.Core.List.{Mem, not-mem-nil, mem-cons_self, mem-cons_of_mem, eq-or-mem_of_mem-cons}
use native.Mathlib.Decide.{ℕ_discrete}
use ola_os.Base.{
  ℕ, ◌+◌, ◌%◌, ◌≡◌, refl, sym, ap₂, subst, inl, inr, Bool, true, false, Bool-cases, List, [], ◌∷◌,
  All, leb, ltb, length, if◌then◌else◌, arith,
}
use ola_os.Base.Words.{u32_mod}
use ola_os.Types.Log.{LogQuery, StorageKey}
use ola_os.Dedup.Final.{same_key}
use ola_os.SortStorage.{ExtendedQuery, enumerate}
use ola_os.SealLogic.History.{of_key}
use ola_os.SealLogic.Slots.{slot_of}

ExtendedQuery-IsSet : IsSet ExtendedQuery
ExtendedQuery-IsSet = hlevel ℕ_discrete

true-IsProp : (b : Bool) → IsProp (b ≡ true)
true-IsProp b = hlevel

pub All-Mem :
    {P : ExtendedQuery → Type 0} {es : List ExtendedQuery} {f : ExtendedQuery}
    → ((e : ExtendedQuery) → IsProp (P e))
    → All P es
    → Mem f es
    → P f
All-Mem {P} {es = []} {f} prop h m = absurd (not-mem-nil m)
All-Mem {P} {es = e ∷ es} {f} prop h m =
    Or.elim (prop f) (eq-or-mem_of_mem-cons m) (λ same. subst P (sym same) h.0)
      (λ later. All-Mem {P = P} {es = es} {f = f} prop h.1 later)

pub Mem-All :
    {P : ExtendedQuery → Type 0} (es : List ExtendedQuery)
    → ((f : ExtendedQuery) → Mem f es → P f)
    → All P es
Mem-All [] h = tt
Mem-All (e ∷ es) h = (h e mem-cons_self, Mem-All es (λ f m. h f (mem-cons_of_mem e m)))

abbrev Earlier : ExtendedQuery → ExtendedQuery → Type 0
Earlier e f = ltb e.extended_timestamp f.extended_timestamp ≡ true

abbrev pub NotLater : ExtendedQuery → ExtendedQuery → Type 0
NotLater e f = leb e.extended_timestamp f.extended_timestamp ≡ true

abbrev pub IsStrict : List ExtendedQuery → Type 0
IsStrict [] = Unit
IsStrict (e ∷ es) = All (Earlier e) es × IsStrict es

abbrev pub IsWeak : List ExtendedQuery → Type 0
IsWeak [] = Unit
IsWeak (e ∷ es) = All (NotLater e) es × IsWeak es

never_both : (e f : ExtendedQuery) → Earlier e f → NotLater f e → ⊥
never_both e f h k = ground (arith, h, k)

-- The order of distinct timestamps leaves one arrangement.
pub one_order : (es fs : List ExtendedQuery) → IsStrict es → IsWeak fs → Perm fs es → fs ≡ es
one_order [] fs strict weak p = Perm.eq-nil p
one_order (e ∷ es) [] strict weak p = Perm.nil-eq p
one_order (e ∷ es) (f ∷ fs) strict weak p =
    let same : f ≡ e =
      Or.elim (ExtendedQuery-IsSet f e) (eq-or-mem_of_mem-cons ((Perm.mem_iff p).0 mem-cons_self))
        (λ s. s)
        (λ later.
          Or.elim (ExtendedQuery-IsSet f e)
            (eq-or-mem_of_mem-cons ((Perm.mem_iff p).1 mem-cons_self)) (λ s. sym s)
            (λ later'. absurd (
              never_both e f
                (All-Mem {P = Earlier e}
                  (λ g. true-IsProp (ltb e.extended_timestamp g.extended_timestamp)) strict.0 later)
                (All-Mem {P = NotLater f}
                  (λ g. true-IsProp (leb f.extended_timestamp g.extended_timestamp)) weak.0
                  later')))) in
    ap₂ (λ g gs. g ∷ gs) same
      (one_order es fs strict.1 weak.1 (Perm.cons_inv (subst (λ g. Perm (g ∷ fs) (e ∷ es)) same p)))

cons_if :
    (p : Bool) (e : ExtendedQuery) {es fs : List ExtendedQuery}
    → Permᴰ es fs
    → Permᴰ (if p then e ∷ es else es) (if p then e ∷ fs else fs)
cons_if true e d = Permᴰ.cons refl d
cons_if false e d = d

swap_if :
    (p q : Bool) (e f : ExtendedQuery) (es : List ExtendedQuery)
    → Permᴰ
        (if p then e ∷ (if q then f ∷ es else es) else (if q then f ∷ es else es))
        (if q then f ∷ (if p then e ∷ es else es) else (if p then e ∷ es else es))
swap_if true true e f es = Permᴰ.swap refl refl
swap_if true false e f es = Permᴰ.refl (e ∷ es)
swap_if false true e f es = Permᴰ.refl (f ∷ es)
swap_if false false e f es = Permᴰ.refl es

pub of_key-Permᴰ :
    (k : StorageKey) {es fs : List ExtendedQuery} → Permᴰ es fs → Permᴰ (of_key k es) (of_key k fs)
of_key-Permᴰ k Permᴰ.nil = Permᴰ.nil
of_key-Permᴰ k (Permᴰ.cons {a = a} {l₁ = es} {l₂ = fs} e d) =
    subst (λ g. Permᴰ (of_key k (a ∷ es)) (of_key k (g ∷ fs))) e
      (cons_if (same_key k (slot_of a)) a (of_key-Permᴰ k d))
of_key-Permᴰ k (Permᴰ.swap {a = a} {b = b} {b' = b'} {l = es} e f) =
    subst (λ g. Permᴰ (of_key k (a ∷ b ∷ es)) (of_key k (g ∷ b' ∷ es))) f
      (subst (λ g. Permᴰ (of_key k (a ∷ b ∷ es)) (of_key k (b ∷ g ∷ es))) e
        (swap_if (same_key k (slot_of a)) (same_key k (slot_of b)) a b (of_key k es)))
of_key-Permᴰ k (Permᴰ.trans d d') = Permᴰ.trans (of_key-Permᴰ k d) (of_key-Permᴰ k d')

-- Queries that have come to a place in a list later have a later timestamp.
enumerate_later :
    (e : ExtendedQuery) (i : ℕ) (qs : List LogQuery)
    → ltb e.extended_timestamp i ≡ true
    → leb (i + length qs) u32_mod ≡ true
    → All (Earlier e) (enumerate i qs)
unfolding enumerate
enumerate_later e i [] h bound = tt
enumerate_later e i (q ∷ qs) h bound = (
  ground (arith, h, bound),
  enumerate_later e (i + 1) qs (ground (arith, h)) (ground (arith, bound)),
)

of_key-All :
    (P : ExtendedQuery → Type 0) (k : StorageKey) (es : List ExtendedQuery)
    → All P es
    → All P (of_key k es)
of_key-All P k [] h = tt
of_key-All P k (e ∷ es) h = elim (Bool-cases (same_key k (slot_of e))) [
  | inl own ↦ rw own (h.0, of_key-All P k es h.1)
  | inr other ↦ rw other (of_key-All P k es h.1)
]

pub enumerate-IsStrict :
    (k : StorageKey) (i : ℕ) (qs : List LogQuery)
    → leb (i + length qs) u32_mod ≡ true
    → IsStrict (of_key k (enumerate i qs))
unfolding enumerate
enumerate-IsStrict k i [] bound = tt
enumerate-IsStrict k i (q ∷ qs) bound =
    let e : ExtendedQuery = record { raw_query = q; extended_timestamp = i % u32_mod } in
    let rest = enumerate-IsStrict k (i + 1) qs (ground (arith, bound)) in
    elim (Bool-cases (same_key k (slot_of e))) [
      | inl own ↦ rw own (
        of_key-All (Earlier e) k (enumerate (i + 1) qs)
            (enumerate_later e (i + 1) qs (ground (arith, bound)) (ground (arith, bound))),
        rest,
      )
      | inr other ↦ rw other rest
    ]

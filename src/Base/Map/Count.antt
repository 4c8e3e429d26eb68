-- ===== src/Base/Map/Count.antt =====
-- Counting the keys of a set that pass a test.
use ola_os.Base.Tests.{if◌then◌else◌, Bool-cases, is_some}
use ola_os.Base.Lists.{length}
use ola_os.Base.Order.{Ord}
use ola_os.Base.Map.{Set, contains, lookup, remove, insert, add, Above, IsSorted}
use ola_os.Base.Map.Laws.{
  absent-lookup, contains-lookup, contains_head, lookup_tail, lookup_below, IsSorted-of_Above,
  contains-remove_ne, contains-remove_self, cmp-cases,
}
use ola_os.Base.Map.Sorted.{remove-IsSorted, length-remove}
use Prim.Native.Nat.{ℕ, suc, ◌+◌}
use mathlib.Core.Path.{◌≡◌, refl, sym, ap, subst, ◌∙◌}
use mathlib.Core.Logic.{◌≢◌, inl, inr}
use mathlib.Core.Bool.{Bool, true, false, not, ◌&&◌}
use mathlib.Core.Option.{none, some}
use mathlib.Core.List.{[], ◌∷◌}
use native.Mathlib.Omega.{arith}

module _ {ℓ} {K : Type ℓ} (f : K → Bool) where
  unfoldable pub count : Set K → ℕ
  count [] = 0
  count ((k, u) ∷ s) = (if f k then 1 else 0) + count s

module _ {ℓ} {K : Type ℓ} ⦃o : Ord K⦄ (f : K → Bool) where
  count-insert :
      (k : K) (s : Set K)
      → lookup k s ≡ none
      → count f (insert k tt s) ≡ count f s + (if f k then 1 else 0)
  unfolding count insert lookup
  count-insert k [] h = omega arith
  count-insert k ((j, u) ∷ s) h = ground (arith, count-insert k s)

  count-remove-some :
      (k : K) (s : Set K)
      → lookup k s ≡ some tt
      → count f (remove k s) + (if f k then 1 else 0) ≡ count f s
  unfolding count remove lookup
  count-remove-some k [] h = cc
  count-remove-some k ((j, u) ∷ s) h = ground (arith, o.cmp-eq k j, count-remove-some k s)

  pub count-add :
      (k : K) (s : Set K)
      → contains k s ≡ false
      → count f (add k s) ≡ count f s + (if f k then 1 else 0)
  unfolding add
  count-add k s h = count-insert k s (absent-lookup k s h)

  pub count-remove :
      (k : K) (s : Set K)
      → contains k s ≡ true
      → count f (remove k s) + (if f k then 1 else 0) ≡ count f s
  count-remove k s h = count-remove-some k s (contains-lookup k s h)

module _ {ℓ} {K : Type ℓ} ⦃o : Ord K⦄ where
  -- A test and its opposite count all keys.
  pub count-not : (f : K → Bool) (s : Set K) → count f s + count (λ k. not (f k)) s ≡ length s
  unfolding count
  count-not f [] = omega arith
  count-not f ((k, u) ∷ s) = ground (arith, count-not f s)

  no_keys : (t : Set K) → ((k : K) → contains k t ≡ false) → length t ≡ 0
  no_keys [] h = refl
  no_keys ((k, u) ∷ t) h = ground (arith, h k, contains_head k {u = u} t)

  pub contains-cons_ne : (j k : K) (s : Set K) → j ≢ k → contains j ((k, tt) ∷ s) ≡ contains j s
  unfolding contains
  contains-cons_ne j k s e = ap is_some (lookup_tail j k tt s e)

  pub contains_below : (k : K) (s : Set K) → Above k s → contains k s ≡ false
  unfolding contains
  contains_below k s h = ap is_some (lookup_below k s h)

  one_less : (k : K) (t : Set K) → contains k t ≡ true → suc (length (remove k t)) ≡ length t
  one_less k t h = ground (arith, length-remove k t, contains-lookup k t h)

  -- The keys that pass a test are as many as another set that has just these has.
  pub count_ext :
      (f : K → Bool) (s t : Set K)
      → IsSorted s
      → IsSorted t
      → ((k : K) → contains k t ≡ (contains k s && f k))
      → count f s ≡ length t
  unfolding count
  count_ext f [] t hs ht h = unfold contains lookup in sym (no_keys t h)
  count_ext f ((k, u) ∷ s) t hs ht h =
      let sorted = IsSorted-of_Above k s hs in
      let absent = contains_below k s hs in
      let here : contains k t ≡ f k = h k ∙ ap (λ b. b && f k) (contains_head k s) in
      elim (Bool-cases (f k)) [
        | inl passes ↦
            let rest = count_ext f s (remove k t) sorted (remove-IsSorted k t ht) (λ j.
              elim (cmp-cases j k) [
                | inl e ↦
                    subst (λ i. contains i (remove k t) ≡ (contains i s && f i)) (sym e)
                      (contains-remove_self k t ht ∙ sym (ap (λ b. b && f k) absent))
                | inr e ↦
                    contains-remove_ne j k t e ∙ h j ∙ ap (λ b. b && f j) (contains-cons_ne j k s e)
              ]) in
            rw passes (omega (arith, rest, one_less k t (here ∙ passes)))
        | inr fails ↦
            let rest = count_ext f s t sorted ht (λ j. elim (cmp-cases j k) [
              | inl e ↦
                  subst (λ i. contains i t ≡ (contains i s && f i)) (sym e)
                    (here ∙ fails ∙ sym (ap (λ b. b && f k) absent))
              | inr e ↦ h j ∙ ap (λ b. b && f j) (contains-cons_ne j k s e)
            ]) in
            rw fails (omega (arith, rest))
      ]

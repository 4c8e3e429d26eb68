-- ===== src/MergeJoin/Merged.antt =====
-- The merge join of two sorted iterators
-- (merkle_tree/src/iter_ext/merge_join_with_max_predecessor.rs).
use ola_os.Base.{
  ℕ, zero, suc, ◌<◌, ◌≡◌, refl, sym, ap, ◌∙◌, subst, Option, none, some, List, [], ◌∷◌, length,
  arith,
}
use ola_os.MergeJoin.{Either, left, right, MergeJoin, new, next, begin, advance, collect, keep}
use ola_os.MergeJoin.Choice.{item_of, lefts, rights, by_index, IsSorted, annotate, begin-chosen}
use ola_os.MergeJoin.Steps.{
  other, own_left, own_right, Knows, Before, chosen, unchosen, Steps, advance-Steps,
}

module _ {A P : Type 0} (index : A → ℕ) (map_f : A → P) where
  -- The state that an iterator has once an item is chosen.
  abbrev holding :
      Either A → List (Either A) → Option P → Option P → MergeJoin (by_index index map_f) map_f
  holding z zs ll lr = record {
    left_iter = lefts zs;
    right_iter = rights zs;
    last = some z;
    last_left = ll;
    last_right = lr;
  }

  -- What `advance` keeps for the next item, from what is known for this one.
  Gives :
      Option P
      → Option P
      → Either A
      → List (Either A)
      → Option (A × Option P) × MergeJoin (by_index index map_f) map_f
      → Type 0
  Gives ll lr z zs r =
      (s' : MergeJoin (by_index index map_f) map_f) × (r ≡ (some (item_of z, other ll lr z), s'))
      × Before index map_f zs s'
      × Knows index map_f (own_left index map_f ll z) (own_right index map_f lr z) zs s'

  holding-Gives :
      (z : Either A) (zs : List (Either A)) (ll lr ll' lr' : Option P)
      → Knows index map_f ll lr (z ∷ zs) (holding z zs ll' lr')
      → IsSorted index map_f (z ∷ zs)
      → Gives ll lr z zs (advance (by_index index map_f) map_f (some z) (holding z zs ll' lr'))
  unfolding Gives Steps
  holding-Gives (left x) zs ll lr ll' lr' k sorted =
      let (s', e, before, knows) = advance-Steps index map_f (left x) zs ll' lr' sorted in
      (
        s',
        e ∙ ap (λ q. (some (x, q), s')) k,
        before,
        subst (λ q. Knows index map_f (some (map_f x)) q zs s') k knows,
      )
  holding-Gives (right x) zs ll lr ll' lr' k sorted =
      let (s', e, before, knows) = advance-Steps index map_f (right x) zs ll' lr' sorted in
      (
        s',
        e ∙ ap (λ q. (some (x, q), s')) k,
        before,
        subst (λ q. Knows index map_f q (some (map_f x)) zs s') k knows,
      )

  next_held :
      (z : Either A) (zs : List (Either A)) (ll lr : Option P)
      → next (by_index index map_f) map_f (holding z zs ll lr)
        ≡ advance (by_index index map_f) map_f (some z) (holding z zs ll lr)
  unfolding next begin
  next_held z zs ll lr = refl

  next_begun :
      (z : Either A) (zs : List (Either A)) (ll lr : Option P)
      → IsSorted index map_f (z ∷ zs)
      → next (by_index index map_f) map_f (record {
        left_iter = lefts (z ∷ zs);
        right_iter = rights (z ∷ zs);
        last = none;
        last_left = ll;
        last_right = lr;
      })
        ≡ advance (by_index index map_f) map_f (some z) (holding z zs ll lr)
  unfolding next
  next_begun z zs ll lr sorted =
      ap (λ t. advance (by_index index map_f) map_f t.last t)
        (begin-chosen index map_f z zs ll lr sorted)

  next-Gives :
      (z : Either A) (zs : List (Either A)) (ll lr : Option P)
      (s : MergeJoin (by_index index map_f) map_f)
      → Before index map_f (z ∷ zs) s
      → Knows index map_f ll lr (z ∷ zs) s
      → IsSorted index map_f (z ∷ zs)
      → Gives ll lr z zs (next (by_index index map_f) map_f s)
  next-Gives z zs ll lr s (chosen _ _ ll' lr') k sorted =
      subst (Gives ll lr z zs) (sym (next_held z zs ll' lr'))
        (holding-Gives z zs ll lr ll' lr' k sorted)
  next-Gives (left x) zs ll lr s (unchosen _ ll' lr') k sorted =
      subst (Gives ll lr (left x) zs) (sym (next_begun (left x) zs ll' lr' sorted))
        (holding-Gives (left x) zs ll lr ll' lr' k sorted)
  next-Gives (right x) zs ll lr s (unchosen _ ll' lr') k sorted =
      subst (Gives ll lr (right x) zs) (sym (next_begun (right x) zs ll' lr' sorted))
        (holding-Gives (right x) zs ll lr ll' lr' k sorted)

  next-end :
      (s : MergeJoin (by_index index map_f) map_f)
      → Before index map_f [] s
      → (next (by_index index map_f) map_f s).0 ≡ none
  unfolding next begin advance
  next-end s (unchosen _ ll lr) = refl

  annotate-cons :
      (ll lr : Option P) (z : Either A) (zs : List (Either A))
      → (item_of z, other ll lr z)
          ∷ annotate index map_f (own_left index map_f ll z) (own_right index map_f lr z) zs
        ≡ annotate index map_f ll lr (z ∷ zs)
  annotate-cons ll lr (left a) zs = refl
  annotate-cons ll lr (right a) zs = refl

  -- Nothing has come before the first item.
  Knows-start :
      (zs : List (Either A)) (s : MergeJoin (by_index index map_f) map_f)
      → s.last_left ≡ none
      → s.last_right ≡ none
      → Knows index map_f none none zs s
  Knows-start [] s l r = tt
  Knows-start (left a ∷ zs) s l r = r
  Knows-start (right a ∷ zs) s l r = l

  collect-annotate :
      (n : ℕ) (zs : List (Either A)) (ll lr : Option P) (s : MergeJoin (by_index index map_f) map_f)
      → length zs < n
      → Before index map_f zs s
      → Knows index map_f ll lr zs s
      → IsSorted index map_f zs
      → collect (by_index index map_f) map_f n s ≡ annotate index map_f ll lr zs
  unfolding collect Gives
  collect-annotate zero zs ll lr s small before k sorted = absurd (omega arith)
  collect-annotate (suc n) [] ll lr s small before k sorted =
      ap
        (λ o.
          keep o (collect (by_index index map_f) map_f n (next (by_index index map_f) map_f s).1))
        (next-end s before)
  collect-annotate (suc n) (z ∷ zs) ll lr s small before k sorted =
      let (s', e, before', k') = next-Gives z zs ll lr s before k sorted in
      ap (λ r. keep r.0 (collect (by_index index map_f) map_f n r.1)) e
      ∙ ap (λ l. (item_of z, other ll lr z) ∷ l)
          (collect-annotate n zs (own_left index map_f ll z) (own_right index map_f lr z) s'
            (omega arith) before' k' sorted.1)
      ∙ annotate-cons ll lr z zs

-- If the indices of all items differ and both iterators are in their order, the merge join yields
-- every item of both, in the order of the indices, each with what `map_f` makes of the last item
-- before it that came from the other iterator.
pub collect-new :
    {A P : Type 0} (index : A → ℕ) (map_f : A → P) (zs : List (Either A))
    → IsSorted index map_f zs
    → collect
        (by_index index map_f)
        map_f
        (suc (length zs))
        (new (by_index index map_f) map_f (lefts zs) (rights zs))
      ≡ annotate index map_f none none zs
unfolding new
collect-new index map_f zs sorted =
    let s = new (by_index index map_f) map_f (lefts zs) (rights zs) in
    collect-annotate index map_f (suc (length zs)) zs none none s (omega arith)
      (unchosen zs none none) (Knows-start index map_f zs s refl refl) sorted

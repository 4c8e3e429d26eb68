-- ===== src/MergeJoin/Steps.antt =====
-- One step of the merge join of two sorted iterators
-- (merkle_tree/src/iter_ext/merge_join_with_max_predecessor.rs).
use ola_os.Base.{ℕ, ◌<◌, ◌≡◌, refl, sym, Option, none, some, List, [], ◌∷◌, All}
use ola_os.MergeJoin.{Either, left, right, MergeJoin, advance}
use ola_os.MergeJoin.Choice.{
  item_of, lefts, rights, by_index, IsSorted, choose-own, choose-other, All-lefts, All-rights,
}

-- The other side's last item, and each side's last item after this one.
abbrev pub other : {A P : Type 0} → Option P → Option P → Either A → Option P
other ll lr (left a) = lr
other ll lr (right a) = ll

module _ {A P : Type 0} (index : A → ℕ) (map_f : A → P) where
  abbrev pub own_left : Option P → Either A → Option P
  own_left ll (left a) = some (map_f a)
  own_left ll (right a) = ll

  abbrev pub own_right : Option P → Either A → Option P
  own_right lr (left a) = lr
  own_right lr (right a) = some (map_f a)

  -- The other side's last item, for the item that comes.
  abbrev pub Knows :
      Option P → Option P → List (Either A) → MergeJoin (by_index index map_f) map_f → Type 0
  Knows last_left last_right [] s = Unit
  Knows last_left last_right (left a ∷ zs) s = s.last_right ≡ last_right
  Knows last_left last_right (right a ∷ zs) s = s.last_left ≡ last_left

  -- The iterator stands before these items: the first one is chosen, or is still in its iterator.
  pub data Before : List (Either A) → MergeJoin (by_index index map_f) map_f → Type 0 where
    chosen :
        (z : Either A) (zs : List (Either A)) (ll lr : Option P)
        → Before (z ∷ zs) (record {
          left_iter = lefts zs;
          right_iter = rights zs;
          last = some z;
          last_left = ll;
          last_right = lr;
        })
    unchosen :
        (zs : List (Either A)) (ll lr : Option P)
        → Before zs (record {
          left_iter = lefts zs;
          right_iter = rights zs;
          last = none;
          last_left = ll;
          last_right = lr;
        })

  -- An item comes with the other side's last one, and the iterator stands before the next item.
  unfoldable pub Steps : Option P → Option P → Either A → List (Either A) → Type 0
  Steps ll lr z zs =
      (s' : MergeJoin (by_index index map_f) map_f) × (advance (by_index index map_f) map_f (some z)
          (record {
            left_iter = lefts zs;
            right_iter = rights zs;
            last = some z;
            last_left = ll;
            last_right = lr;
          })
        ≡ (some (item_of z, other ll lr z), s'))
      × Before zs s'
      × Knows (own_left ll z) (own_right lr z) zs s'

  over-left :
      (x y : A) (zs : List (Either A)) (ll lr : Option P) (xs : List A)
      → xs ≡ lefts zs
      → index x < index y
      → All (λ a. index y < index a) xs
      → Steps ll lr (left x) (right y ∷ zs)
  unfolding Steps advance
  over-left x y zs ll lr [] e h k = (
    record {
      left_iter = lefts zs;
      right_iter = y ∷ rights zs;
      last = none;
      last_left = some (map_f x);
      last_right = lr;
    },
    rw (sym e) refl,
    unchosen (right y ∷ zs) (some (map_f x)) lr,
    refl,
  )
  over-left x y zs ll lr (x' ∷ xs) e h k = (
    record {
      left_iter = lefts zs;
      right_iter = rights zs;
      last = some (right y);
      last_left = some (map_f x);
      last_right = some (map_f y);
    },
    rw (sym e) (rw (choose-other index map_f x x' y xs (rights zs) h k.0) refl),
    chosen (right y) zs (some (map_f x)) (some (map_f y)),
    refl,
  )

  over-right :
      (x y : A) (zs : List (Either A)) (ll lr : Option P) (xs : List A)
      → xs ≡ rights zs
      → index x < index y
      → All (λ a. index y < index a) xs
      → Steps ll lr (right x) (left y ∷ zs)
  unfolding Steps advance
  over-right x y zs ll lr [] e h k = (
    record {
      left_iter = y ∷ lefts zs;
      right_iter = rights zs;
      last = none;
      last_left = ll;
      last_right = some (map_f x);
    },
    rw (sym e) refl,
    unchosen (left y ∷ zs) ll (some (map_f x)),
    refl,
  )
  over-right x y zs ll lr (x' ∷ xs) e h k = (
    record {
      left_iter = lefts zs;
      right_iter = rights zs;
      last = some (left y);
      last_left = some (map_f y);
      last_right = some (map_f x);
    },
    rw (sym e) (rw (choose-other index map_f x x' y xs (lefts zs) h k.0) refl),
    chosen (left y) zs (some (map_f y)) (some (map_f x)),
    refl,
  )

  pub advance-Steps :
      (z : Either A) (zs : List (Either A)) (ll lr : Option P)
      → IsSorted index map_f (z ∷ zs)
      → Steps ll lr z zs
  unfolding Steps advance
  advance-Steps (left x) [] ll lr sorted = (
    record {
      left_iter = [];
      right_iter = [];
      last = none;
      last_left = some (map_f x);
      last_right = lr;
    },
    refl,
    unchosen [] (some (map_f x)) lr,
    tt,
  )
  advance-Steps (right x) [] ll lr sorted = (
    record {
      left_iter = [];
      right_iter = [];
      last = none;
      last_left = ll;
      last_right = some (map_f x);
    },
    refl,
    unchosen [] ll (some (map_f x)),
    tt,
  )
  advance-Steps (left x) (left x' ∷ zs) ll lr sorted = (
    record {
      left_iter = lefts zs;
      right_iter = rights zs;
      last = some (left x');
      last_left = some (map_f x);
      last_right = lr;
    },
    rw
        (choose-own index map_f x x' (lefts zs) (rights zs)
          (All-rights index map_f (index x') zs sorted.1.0))
        refl,
    chosen (left x') zs (some (map_f x)) lr,
    refl,
  )
  advance-Steps (right x) (right x' ∷ zs) ll lr sorted = (
    record {
      left_iter = lefts zs;
      right_iter = rights zs;
      last = some (right x');
      last_left = ll;
      last_right = some (map_f x);
    },
    rw
        (choose-own index map_f x x' (rights zs) (lefts zs)
          (All-lefts index map_f (index x') zs sorted.1.0))
        refl,
    chosen (right x') zs ll (some (map_f x)),
    refl,
  )
  advance-Steps (left x) (right y ∷ zs) ll lr sorted =
      over-left x y zs ll lr (lefts zs) refl sorted.0.0
        (All-lefts index map_f (index y) zs sorted.1.0)
  advance-Steps (right x) (left y ∷ zs) ll lr sorted =
      over-right x y zs ll lr (rights zs) refl sorted.0.0
        (All-rights index map_f (index y) zs sorted.1.0)

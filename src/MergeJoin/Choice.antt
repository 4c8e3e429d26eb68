-- ===== src/MergeJoin/Choice.antt =====
-- How the merge join of two sorted iterators chooses its next item
-- (merkle_tree/src/iter_ext/merge_join_with_max_predecessor.rs).
use ola_os.Base.{
  ℕ, ◌<◌, ◌≡◌, refl, Option, none, some, List, [], ◌∷◌, Ordering, compare, All, arith, true, false,
}
use ola_os.MergeJoin.{Either, left, right, begin, right_first, choose, choose_second, peek}

abbrev pub item_of : {A : Type 0} → Either A → A
item_of (left a) = a
item_of (right a) = a

-- The items of each side.
abbrev pub lefts : {A : Type 0} → List (Either A) → List A
lefts [] = []
lefts (left a ∷ zs) = a ∷ lefts zs
lefts (right a ∷ zs) = lefts zs

abbrev pub rights : {A : Type 0} → List (Either A) → List A
rights [] = []
rights (left a ∷ zs) = rights zs
rights (right a ∷ zs) = a ∷ rights zs

lt→compare : (a b : ℕ) → a < b → compare a b ≡ Ordering.lt
lt→compare a b h = ground arith

gt→compare : (a b : ℕ) → b < a → compare a b ≡ Ordering.gt
gt→compare a b h = ground arith

module _ {A P : Type 0} (index : A → ℕ) (map_f : A → P) where
  abbrev pub by_index : A → A → Ordering
  by_index a b = compare (index a) (index b)

  -- In the order of the indices, which all differ.
  abbrev pub IsSorted : List (Either A) → Type 0
  IsSorted [] = Unit
  IsSorted (z ∷ zs) = All (λ y. index (item_of z) < index (item_of y)) zs × IsSorted zs

  -- Each item with the last one before it that is of the other side.
  abbrev pub annotate : Option P → Option P → List (Either A) → List (A × Option P)
  annotate last_left last_right [] = []
  annotate last_left last_right (left a ∷ zs) =
      (a, last_right) ∷ annotate (some (map_f a)) last_right zs
  annotate last_left last_right (right a ∷ zs) =
      (a, last_left) ∷ annotate last_left (some (map_f a)) zs

  pub All-lefts :
      (i : ℕ) (zs : List (Either A))
      → All (λ y. i < index (item_of y)) zs
      → All (λ a. i < index a) (lefts zs)
  All-lefts i [] h = tt
  All-lefts i (left a ∷ zs) h = (h.0, All-lefts i zs h.1)
  All-lefts i (right a ∷ zs) h = All-lefts i zs h.1

  pub All-rights :
      (i : ℕ) (zs : List (Either A))
      → All (λ y. i < index (item_of y)) zs
      → All (λ a. i < index a) (rights zs)
  All-rights i [] h = tt
  All-rights i (left a ∷ zs) h = All-rights i zs h.1
  All-rights i (right a ∷ zs) h = (h.0, All-rights i zs h.1)

  -- The own side's head is chosen, or the other side's.
  pub choose-own :
      (x x' : A) (xs ys : List A)
      → All (λ y. index x' < index y) ys
      → choose by_index map_f x (x' ∷ xs) ys ≡ record {
        next = some (left x');
        next_first = some (map_f x);
        next_second = none;
        first_iter = xs;
        second_iter = ys;
      }
  unfolding choose
  choose-own x x' xs [] h = refl
  choose-own x x' xs (y ∷ ys) h = rw (lt→compare (index x') (index y) h.0, choose) refl

  pub choose-other :
      (x x' y : A) (xs ys : List A)
      → index x < index y
      → index y < index x'
      → choose by_index map_f x (x' ∷ xs) (y ∷ ys) ≡ record {
        next = some (right y);
        next_first = some (map_f x);
        next_second = some (map_f y);
        first_iter = x' ∷ xs;
        second_iter = ys;
      }
  unfolding choose choose_second
  choose-other x x' y xs ys before h =
      rw (gt→compare (index x') (index y) h, choose)
        (rw (lt→compare (index x) (index y) before, choose_second) refl)

  left_first :
      (a : A) (xs ys : List A)
      → All (λ y. index a < index y) ys
      → right_first by_index map_f (some a) (peek ys) ≡ false
  left_first a xs [] h = refl
  left_first a xs (y ∷ ys) h = rw (lt→compare (index a) (index y) h.0) refl

  right_comes :
      (a : A) (xs ys : List A)
      → All (λ x. index a < index x) xs
      → right_first by_index map_f (peek xs) (some a) ≡ true
  right_comes a [] ys h = refl
  right_comes a (x ∷ xs) ys h = rw (gt→compare (index x) (index a) h.0) refl

  -- An item that is still in its iterator is the one that is taken.
  pub begin-chosen :
      (z : Either A) (zs : List (Either A)) (ll lr : Option P)
      → IsSorted (z ∷ zs)
      → begin by_index map_f none (record {
        left_iter = lefts (z ∷ zs);
        right_iter = rights (z ∷ zs);
        last = none;
        last_left = ll;
        last_right = lr;
      })
        ≡ record {
          left_iter = lefts zs;
          right_iter = rights zs;
          last = some z;
          last_left = ll;
          last_right = lr;
        }
  unfolding begin
  begin-chosen (left a) zs ll lr sorted =
      rw (left_first a (lefts zs) (rights zs) (All-rights (index a) zs sorted.0)) refl
  begin-chosen (right a) zs ll lr sorted =
      rw (right_comes a (lefts zs) (rights zs) (All-lefts (index a) zs sorted.0)) refl

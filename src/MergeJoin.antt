-- ===== src/MergeJoin.antt =====
-- The merge of two iterators with the maximum predecessor of each item from the other one
-- (merkle_tree/src/iter_ext/merge_join_with_max_predecessor.rs). An iterator is the list of the
-- items that it still has.
pub mod Choice
pub mod Steps
pub mod Merged
mod Tests
use ola_os.Base.{
  ℕ, zero, suc, Bool, true, false, Option, none, some, List, [], ◌∷◌, Ordering, if◌then◌else◌,
}

pub data Either (A : Type 0) : Type 0 where
  left right : A → Either A

abbrev pub flip : {A : Type 0} → Either A → Either A
flip (left a) = right a
flip (right a) = left a

abbrev pub map_option : {A B : Type 0} → (A → B) → Option A → Option B
map_option f none = none
map_option f (some a) = some (f a)

-- `peek` and `next`.
abbrev pub peek : {A : Type 0} → List A → Option A
peek [] = none
peek (a ∷ items) = some a

abbrev pub rest : {A : Type 0} → List A → List A
rest [] = []
rest (a ∷ items) = items

abbrev pub is_gt : Ordering → Bool
is_gt Ordering.gt = true
is_gt _ = false

abbrev pub is_none : {A : Type 0} → Option A → Bool
is_none none = true
is_none (some a) = false

-- A new value replaces the old one.
abbrev pub or_old : {A : Type 0} → Option A → Option A → Option A
or_old none old = old
or_old (some a) old = some a

-- The items of an iterator that yields this one and then these.
abbrev pub keep : {A : Type 0} → Option A → List A → List A
keep none items = []
keep (some a) items = a ∷ items

module _ {A P : Type 0} (cmp_f : A → A → Ordering) (map_f : A → P) where
  pub record MergeJoin : Type 0 where
    pub left_iter : List A
    pub right_iter : List A
    pub last : Option (Either A)
    pub last_left : Option P
    pub last_right : Option P

  unfoldable pub new : List A → List A → MergeJoin
  new left_iter right_iter = record {
    left_iter = left_iter;
    right_iter = right_iter;
    last = none;
    last_left = none;
    last_right = none;
  }

  -- What `choose` returns, and the iterators after it.
  pub record Chosen : Type 0 where
    pub next : Option (Either A)
    pub next_first : Option P
    pub next_second : Option P
    pub first_iter : List A
    pub second_iter : List A

  -- `peek().zip(..).map_or(Less, cmp_f)`
  abbrev pub compare_heads : Option A → Option A → Ordering
  compare_heads (some a) (some b) = cmp_f a b
  compare_heads _ _ = Ordering.lt

  -- `None` if the two are equal.
  abbrev pub unless_eq : Ordering → P → Option P
  unless_eq Ordering.eq p = none
  unless_eq _ p = some p

  abbrev pub if_lt : Ordering → P → Option P
  if_lt Ordering.lt p = some p
  if_lt _ p = none

  -- The last branch of `choose`, on the second iterator's head.
  unfoldable pub choose_second : A → List A → List A → Chosen
  choose_second item first_iter [] = record {
    next = none;
    next_first = none;
    next_second = none;
    first_iter = first_iter;
    second_iter = [];
  }
  choose_second item first_iter (last_item ∷ items) = record {
    next = some (right last_item);
    next_first = unless_eq (cmp_f item last_item) (map_f item);
    next_second = if_lt (cmp_f item last_item) (map_f last_item);
    first_iter = first_iter;
    second_iter = items;
  }

  unfoldable pub choose : A → List A → List A → Chosen
  unfolding choose_second
  choose item first_iter second_iter = elim (compare_heads (peek first_iter) (peek second_iter)) [
    | Ordering.lt ↦ record {
      next = map_option left (peek first_iter);
      next_first = some (map_f item);
      next_second = none;
      first_iter = rest first_iter;
      second_iter = second_iter;
    }
    | Ordering.eq ↦ record {
      next = map_option left (peek first_iter);
      next_first = none;
      next_second = none;
      first_iter = rest first_iter;
      second_iter = second_iter;
    }
    | Ordering.gt ↦ choose_second item first_iter second_iter
  ]

  -- Whether the merge begins on the right.
  abbrev pub right_first : Option A → Option A → Bool
  right_first (some l) (some r) = is_gt (cmp_f l r)
  right_first next_left next_right = is_none next_left

  -- The first item, once it is known on which side it is.
  abbrev pub begin_on : Bool → MergeJoin → MergeJoin
  begin_on true s = record s {
    last = map_option right (peek s.right_iter);
    right_iter = rest s.right_iter;
  }
  begin_on false s = record s {
    last = map_option left (peek s.left_iter);
    left_iter = rest s.left_iter;
  }

  -- `if self.last.is_none()`
  unfoldable pub begin : Option (Either A) → MergeJoin → MergeJoin
  begin none s = begin_on (right_first (peek s.left_iter) (peek s.right_iter)) s
  begin (some item) s = s

  -- The item that comes is paired with the other side's last one, and the next item is chosen.
  unfoldable pub advance : Option (Either A) → MergeJoin → Option (A × Option P) × MergeJoin
  unfolding choose
  advance none s = (none, s)
  advance (some (left item)) s =
      let c = choose item s.left_iter s.right_iter in
      (
        some (item, s.last_right),
        record {
          left_iter = c.first_iter;
          right_iter = c.second_iter;
          last = c.next;
          last_left = or_old c.next_first s.last_left;
          last_right = or_old c.next_second s.last_right;
        },
      )
  advance (some (right item)) s =
      let c = choose item s.right_iter s.left_iter in
      (
        some (item, s.last_left),
        record {
          left_iter = c.second_iter;
          right_iter = c.first_iter;
          last = map_option flip c.next;
          last_left = or_old c.next_second s.last_left;
          last_right = or_old c.next_first s.last_right;
        },
      )

  -- `Iterator::next`
  unfoldable pub next : MergeJoin → Option (A × Option P) × MergeJoin
  unfolding begin advance
  next s = let t = begin s.last s in advance t.last t

  -- `collect`, for at most a number of items.
  unfoldable pub collect : ℕ → MergeJoin → List (A × Option P)
  collect zero s = []
  collect (suc n) s = let r = next s in keep r.0 (collect n r.1)

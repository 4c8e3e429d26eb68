-- ===== src/Base/Order.antt =====
-- The bound `Ord` of Rust, with the laws that the trait asks of `cmp`.
use Prim.Native.Nat.{ℕ, compare, Ordering}
use mathlib.Core.Path.{◌≡◌, refl}
use mathlib.Core.List.{List, [], ◌∷◌}
use native.Mathlib.Omega.{arith}

pub record Ord {ℓ} (K : Type ℓ) : Type ℓ where
  pub cmp : K → K → Ordering
  pub cmp_self : (a : K) → cmp a a ≡ Ordering.eq
  pub cmp-eq : (a b : K) → cmp a b ≡ Ordering.eq → a ≡ b
  pub cmp-gt : (a b : K) → cmp a b ≡ Ordering.gt → cmp b a ≡ Ordering.lt
  pub cmp-lt : (a b : K) → cmp a b ≡ Ordering.lt → cmp b a ≡ Ordering.gt
  pub cmp_trans :
      (a b c : K) → cmp a b ≡ Ordering.lt → cmp b c ≡ Ordering.lt → cmp a c ≡ Ordering.lt

pub compare_self : (a : ℕ) → compare a a ≡ Ordering.eq
compare_self a = ground arith

pub compare-eq : (a b : ℕ) → compare a b ≡ Ordering.eq → a ≡ b
compare-eq a b h = ground arith

pub compare-gt : (a b : ℕ) → compare a b ≡ Ordering.gt → compare b a ≡ Ordering.lt
compare-gt a b h = ground arith

pub compare-lt : (a b : ℕ) → compare a b ≡ Ordering.lt → compare b a ≡ Ordering.gt
compare-lt a b h = ground arith

pub compare_trans :
    (a b c : ℕ) → compare a b ≡ Ordering.lt → compare b c ≡ Ordering.lt → compare a c ≡ Ordering.lt
compare_trans a b c h k = ground arith

-- Unsigned words, and the big-endian byte arrays `H256` and `Address` read as numbers.
instance abbrev pub nat_ord : Ord ℕ
nat_ord = record {
  cmp = compare;
  cmp_self = compare_self;
  cmp-eq = compare-eq;
  cmp-gt = compare-gt;
  cmp-lt = compare-lt;
  cmp_trans = compare_trans;
}

-- `Ordering::reverse`
abbrev pub reverse : Ordering → Ordering
reverse Ordering.lt = Ordering.gt
reverse Ordering.eq = Ordering.eq
reverse Ordering.gt = Ordering.lt

-- The first order that is not `Equal` decides.
abbrev pub and_then : Ordering → Ordering → Ordering
and_then Ordering.lt o = Ordering.lt
and_then Ordering.eq o = o
and_then Ordering.gt o = Ordering.gt

-- Lists in lexicographic order, as `Vec` and arrays are.
abbrev pub then : Ordering → Ordering → Ordering
then Ordering.eq o = o
then o _ = o

abbrev pub cmp_list : List ℕ → List ℕ → Ordering
cmp_list [] [] = Ordering.eq
cmp_list [] (b ∷ bs) = Ordering.lt
cmp_list (a ∷ xs) [] = Ordering.gt
cmp_list (a ∷ xs) (b ∷ bs) = then (compare a b) (cmp_list xs bs)

pub cmp_list_self : (xs : List ℕ) → cmp_list xs xs ≡ Ordering.eq
cmp_list_self [] = refl
cmp_list_self (x ∷ xs) = rw (compare_self x) (cmp_list_self xs)

pub cmp_list-eq : (xs ys : List ℕ) → cmp_list xs ys ≡ Ordering.eq → xs ≡ ys
cmp_list-eq [] [] h = refl
cmp_list-eq [] (y ∷ ys) h = ground arith
cmp_list-eq (x ∷ xs) [] h = ground arith
cmp_list-eq (x ∷ xs) (y ∷ ys) h = ground (arith, cmp_list-eq xs ys)

pub cmp_list-gt : (xs ys : List ℕ) → cmp_list xs ys ≡ Ordering.gt → cmp_list ys xs ≡ Ordering.lt
cmp_list-gt [] [] h = ground arith
cmp_list-gt [] (y ∷ ys) h = ground arith
cmp_list-gt (x ∷ xs) [] h = refl
cmp_list-gt (x ∷ xs) (y ∷ ys) h = ground (arith, cmp_list-gt xs ys)

pub cmp_list-lt : (xs ys : List ℕ) → cmp_list xs ys ≡ Ordering.lt → cmp_list ys xs ≡ Ordering.gt
cmp_list-lt [] [] h = ground arith
cmp_list-lt [] (y ∷ ys) h = refl
cmp_list-lt (x ∷ xs) [] h = ground arith
cmp_list-lt (x ∷ xs) (y ∷ ys) h = ground (arith, cmp_list-lt xs ys)

pub cmp_list_trans :
    (xs ys zs : List ℕ)
    → cmp_list xs ys ≡ Ordering.lt
    → cmp_list ys zs ≡ Ordering.lt
    → cmp_list xs zs ≡ Ordering.lt
cmp_list_trans [] [] zs h k = ground arith
cmp_list_trans [] (y ∷ ys) [] h k = ground arith
cmp_list_trans [] (y ∷ ys) (z ∷ zs) h k = refl
cmp_list_trans (x ∷ xs) [] zs h k = ground arith
cmp_list_trans (x ∷ xs) (y ∷ ys) [] h k = ground arith
cmp_list_trans (x ∷ xs) (y ∷ ys) (z ∷ zs) h k = ground (arith, cmp_list_trans xs ys zs)

instance abbrev pub list_ord : Ord (List ℕ)
list_ord = record {
  cmp = cmp_list;
  cmp_self = cmp_list_self;
  cmp-eq = cmp_list-eq;
  cmp-gt = cmp_list-gt;
  cmp-lt = cmp_list-lt;
  cmp_trans = cmp_list_trans;
}

-- ===== src/Async.antt =====
-- The sequencer's asynchronous functions (ola_core/src/sequencer/sequencer.rs): a computation that
-- changes a world, and that is canceled by the stop signal, panics, or still waits when its fuel has
-- run out.
use ola_os.Base.{Outcome, returns, panics}

pub data Reply (W A : Type 0) : Type 0 where
  ready : W → A → Reply W A
  canceled : W → Reply W A
  panicked waiting : Reply W A

abbrev pub Async : Type 0 → Type 0 → Type 0
Async W A = W → Reply W A

abbrev pub follow : {W A B : Type 0} → Reply W A → (A → Async W B) → Reply W B
follow (ready w a) f = f a w
follow (canceled w) f = canceled w
follow panicked f = panicked
follow waiting f = waiting

infixl 5 ◌>>=◌ ◌>>◌
abbrev pub ◌>>=◌ : {W A B : Type 0} → Async W A → (A → Async W B) → Async W B
◌>>=◌ m f w = follow (m w) f

abbrev pub ◌>>◌ : {W B : Type 0} → Async W (Unit {0}) → Async W B → Async W B
m >> k = m >>= λ _. k

abbrev pub pure : {W A : Type 0} → A → Async W A
pure a w = ready w a

-- Code without effects on the world.
abbrev pub lift : {W A : Type 0} → Outcome A → Async W A
lift (returns a) w = ready w a
lift panics w = panicked

-- What holds of the world and of the result, if there is one.
abbrev pub Holds : {W A : Type 0} → (W → A → Type 0) → Reply W A → Type 0
Holds P (ready w a) = P w a
Holds P (canceled w) = Unit
Holds P panicked = Unit
Holds P waiting = Unit

pub Holds-follow :
    {W A B : Type 0} (P : W → A → Type 0) (Q : W → B → Type 0) (r : Reply W A) (f : A → Async W B)
    → Holds P r
    → ((w : W) (a : A) → P w a → Holds Q (f a w))
    → Holds Q (follow r f)
Holds-follow P Q (ready w a) f h k = k w a h
Holds-follow P Q (canceled w) f h k = tt
Holds-follow P Q panicked f h k = tt
Holds-follow P Q waiting f h k = tt

pub Holds-weaken :
    {W A : Type 0} (P Q : W → A → Type 0) (r : Reply W A)
    → Holds P r
    → ((w : W) (a : A) → P w a → Q w a)
    → Holds Q r
Holds-weaken P Q (ready w a) h k = k w a h
Holds-weaken P Q (canceled w) h k = tt
Holds-weaken P Q panicked h k = h
Holds-weaken P Q waiting h k = tt

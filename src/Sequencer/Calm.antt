-- ===== src/Sequencer/Calm.antt =====
-- What the calls of the interfaces give to the sequencer's computations
-- (ola_core/src/sequencer/sequencer.rs): nothing is asked of the world that they return.
use ola_os.Base.{ℕ, ◌≡◌, refl, Bool, true, false, Outcome, returns, panics, ◌>>=◌}
use ola_os.Types.Tx.{Transaction}
use ola_os.Types.Tx
use ola_os.TxData.{from_transaction}
use ola_os.TxData.Size.{IsWhole}
use ola_os.Async.{Async, Holds, follow, lift}
use ola_os.Sequencer.Io.{Effect, act, reply, cancel_if}
use ola_os.Sequencer.Recorded.{Trace, noting}

-- A transaction that can be encoded, and that has a hash.
abbrev pub IsSoundTx : Transaction → Type 0
IsSoundTx tx = IsWhole (from_transaction tx) × (h : ℕ) × (Tx.hash tx ≡ returns h)

noted-follow :
    {W A B : Type 0} (P : W × Trace → B → Type 0) (note : A → Trace → Trace) (r : Outcome (W × A))
    (t : Trace) (f : A → Async (W × Trace) B)
    → ((w : W) (a : A) → Holds P (f a (w, note a t)))
    → Holds P (follow (reply (do (w', a) ← r; returns ((w', note a t), a))) f)
noted-follow P note (returns (w, a)) t f h = h w a
noted-follow P note panics t f h = tt

-- A call of an interface that keeps a record, and what follows it.
pub Holds-noting :
    {W A B : Type 0} (P : W × Trace → B → Type 0) (note : A → Trace → Trace) (m : Effect W A)
    (w : W) (t : Trace) (f : A → Async (W × Trace) B)
    → ((w' : W) (a : A) → Holds P (f a (w', note a t)))
    → Holds P (follow (act (noting note m) (w, t)) f)
Holds-noting P note m w t f h = noted-follow P note (m w) t f h

-- Code without effects on the world, and what follows it.
pub Holds-lift :
    {W A B : Type 0} (P : W → B → Type 0) (x : Outcome A) (w : W) (f : A → Async W B)
    → ((a : A) → x ≡ returns a → Holds P (f a w))
    → Holds P (follow (lift x w) f)
Holds-lift P (returns a) w f h = h a refl
Holds-lift P panics w f h = tt

pub Holds-lifted :
    {W A : Type 0} (P : W → A → Type 0) (x : Outcome A) (w : W)
    → ((a : A) → x ≡ returns a → P w a)
    → Holds P (lift x w)
Holds-lifted P (returns a) w h = h a refl
Holds-lifted P panics w h = tt

pub Holds-cancel_if :
    {W : Type 0} (P : W → Type 0) (b : Bool) (w : W) → P w → Holds (λ w' _. P w') (cancel_if b w)
Holds-cancel_if P true w h = tt
Holds-cancel_if P false w h = h

-- ===== src/Os.antt =====
-- The operating system under library/src/uart.c: the calls that the library makes, as a parameter
-- of the model, and the documented behaviour that it relies on.
pub mod Keeps
pub mod Ends
use mcu_co_sdk.Common.{
  ℕ, ◌+◌, ◌≤◌, ◌<◌, ◌≡◌, ◌⊎◌, Bool, List, ◌++◌, Option, none, some, length, take,
}
use mcu_co_sdk.Common.{AreBytes}
use mcu_co_sdk.Common.Int.{ℤ}

-- A call that returned -1 with `errno` set, or a value.
pub data Call (A : Type 0) : Type 0 where
  failed : ℕ → Call A
  returned : A → Call A

-- `poll` on one descriptor: an error, no event in time, or events, `POLLIN` among them or not.
pub data Polled : Type 0 where
  poll_failed : ℕ → Polled
  no_event : Polled
  event : Bool → Polled

pub record Os : Type 1 where
  pub State : Type 0
  -- <errno.h>
  pub eintr : ℕ
  pub eagain : ℕ
  pub etimedout : ℕ
  pub enotconn : ℕ
  -- Seconds and nanoseconds of `CLOCK_MONOTONIC`.
  pub clock_gettime : State → (ℕ × ℕ) × State
  -- `poll` for `POLLIN` on a descriptor, with a timeout in milliseconds.
  pub poll : ℤ → ℤ → State → Polled × State
  -- `read` of at most so many bytes.
  pub read : ℤ → ℕ → State → Call (List ℕ) × State
  -- `write` of the bytes; it returns how many were taken.
  pub write : ℤ → List ℕ → State → Call ℕ × State

-- What is known of the calls on one open descriptor. `received` are the bytes that `read` has
-- handed out so far, `sent` those that `write` has taken, and `supply` bounds what is still to
-- come: the bytes that the device will send and the calls that a signal will interrupt.
pub record Port (os : Os) (fd : ℤ) : Type 0 where
  pub received : os.State → List ℕ
  pub sent : os.State → List ℕ
  pub supply : os.State → ℕ
  -- Error numbers are positive.
  pub etimedout_pos : 0 < os.etimedout
  pub enotconn_pos : 0 < os.enotconn
  pub clock_received : (s : os.State) → received (os.clock_gettime s).1 ≡ received s
  pub clock_sent : (s : os.State) → sent (os.clock_gettime s).1 ≡ sent s
  pub clock_supply : (s : os.State) → supply (os.clock_gettime s).1 ≤ supply s
  pub poll_received : (t : ℤ) (s : os.State) → received (os.poll fd t s).1 ≡ received s
  pub poll_sent : (t : ℤ) (s : os.State) → sent (os.poll fd t s).1 ≡ sent s
  pub poll_supply : (t : ℤ) (s : os.State) → supply (os.poll fd t s).1 ≤ supply s
  pub poll_errno : (t : ℤ) (s s' : os.State) (e : ℕ) → os.poll fd t s ≡ (poll_failed e, s') → 0 < e
  -- A signal is used up by the call that it interrupts.
  pub poll_interrupted :
      (t : ℤ) (s s' : os.State) → os.poll fd t s ≡ (poll_failed os.eintr, s') → supply s' < supply s
  pub read_sent : (n : ℕ) (s : os.State) → sent (os.read fd n s).1 ≡ sent s
  pub read_returned :
      (n : ℕ) (s s' : os.State) (bs : List ℕ)
      → os.read fd n s ≡ (returned bs, s')
      → (received s' ≡ received s ++ bs)
        × (length bs ≤ n)
        × AreBytes bs
        × (supply s' + length bs ≤ supply s)
  pub read_failed :
      (n : ℕ) (s s' : os.State) (e : ℕ)
      → os.read fd n s ≡ (failed e, s')
      → (0 < e) × (received s' ≡ received s) × (supply s' ≤ supply s)
  pub read_interrupted :
      (n : ℕ) (s s' : os.State) (e : ℕ)
      → os.read fd n s ≡ (failed e, s')
      → (e ≡ os.eintr) ⊎ (e ≡ os.eagain)
      → supply s' < supply s
  pub write_received : (bs : List ℕ) (s : os.State) → received (os.write fd bs s).1 ≡ received s
  -- `write` of one byte or more takes one or more.
  pub write_returned :
      (bs : List ℕ) (s s' : os.State) (n : ℕ)
      → os.write fd bs s ≡ (returned n, s')
      → 0 < length bs
      → (sent s' ≡ sent s ++ take n bs) × (0 < n) × (n ≤ length bs) × (supply s' ≤ supply s)
  pub write_failed :
      (bs : List ℕ) (s s' : os.State) (e : ℕ)
      → os.write fd bs s ≡ (failed e, s')
      → (0 < e) × (sent s' ≡ sent s) × (supply s' ≤ supply s)
  pub write_interrupted :
      (bs : List ℕ) (s s' : os.State)
      → os.write fd bs s ≡ (failed os.eintr, s')
      → supply s' < supply s

-- A computation on the state of the system; `none` is a loop that has used up its fuel.
abbrev pub M : Type 0 → Type 0 → Type 0
M S A = S → Option (A × S)

abbrev pub pure : {S A : Type 0} → A → M S A
pure a s = some (a, s)

abbrev pub lift : {S A : Type 0} → (S → A × S) → M S A
lift f s = some (f s)

infixl 5 ◌>>=◌
abbrev pub ◌>>=◌ : {S A B : Type 0} → M S A → (A → M S B) → M S B
◌>>=◌ m f s = elim (m s) [ none ↦ none | some (a, s') ↦ f a s' ]

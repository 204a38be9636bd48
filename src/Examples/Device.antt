-- ===== src/Examples/Device.antt =====
-- A simulated port: what the device has still to send, and the two streams so far. Calls are never
-- interrupted, and the clock stands still.
use mcu_co_sdk.Common.{ℕ, zero, suc, ◌+◌, ◌≤◌, ◌<◌, ◌≡◌, refl, sym, ap, arith}
use mcu_co_sdk.Common.{List, [], ◌∷◌, ◌++◌, true, length, take, drop, AreBytes, u8, take_all}
use mathlib.Core.Path.{subst}
use mcu_co_sdk.Common.Int.{ℤ}
use mcu_co_sdk.Examples.Host.{Host}
use mcu_co_sdk.Os.{Call, failed, returned, Polled, poll_failed, no_event, event, Os, Port}

pub record Wire : Type 0 where
  pub incoming : List ℕ
  pub handed : List ℕ
  pub taken : List ℕ
  pub host : Host

abbrev bytes_of : List ℕ → List ℕ
bytes_of [] = []
bytes_of (x ∷ xs) = u8 x ∷ bytes_of xs

abbrev polled : List ℕ → Polled
polled [] = no_event
polled (b ∷ bs) = event true

abbrev pub poll_wire : Wire → Polled × Wire
poll_wire w = (polled w.incoming, w)

abbrev pub read_wire : ℕ → Wire → Call (List ℕ) × Wire
read_wire n w =
    let bs = bytes_of (take n w.incoming) in
    (returned bs, record w { incoming = drop n w.incoming; handed = w.handed ++ bs })

abbrev pub write_wire : List ℕ → Wire → Call ℕ × Wire
write_wire bs w = (returned (length bs), record w { taken = w.taken ++ bs })

abbrev pub wire : Os
wire = record {
  State = Wire;
  eintr = 4;
  eagain = 11;
  etimedout = 110;
  enotconn = 107;
  clock_gettime = λ w. ((0, 0), w);
  poll = λ fd t w. poll_wire w;
  read = λ fd n w. read_wire n w;
  write = λ fd bs w. write_wire bs w;
}

bytes_of-AreBytes : (xs : List ℕ) → AreBytes (bytes_of xs)
bytes_of-AreBytes [] = tt
bytes_of-AreBytes (x ∷ xs) = (omega arith, bytes_of-AreBytes xs)

length-bytes_of : (xs : List ℕ) → length (bytes_of xs) ≡ length xs
length-bytes_of [] = refl
length-bytes_of (x ∷ xs) = ap suc (length-bytes_of xs)

length-take-le : (n : ℕ) (xs : List ℕ) → length (take n xs) ≤ n
length-take-le zero xs = omega arith
length-take-le (suc n) [] = omega arith
length-take-le (suc n) (x ∷ xs) = omega (arith, length-take-le n xs)

length-take-drop : (n : ℕ) (xs : List ℕ) → length (drop n xs) + length (take n xs) ≡ length xs
length-take-drop zero xs = omega arith
length-take-drop (suc n) [] = omega arith
length-take-drop (suc n) (x ∷ xs) = omega (arith, length-take-drop n xs)

pub drop_le : (n : ℕ) (xs : List ℕ) → length (drop n xs) ≤ length xs
drop_le n xs = omega (arith, length-take-drop n xs)

polled_ne : {e : ℕ} (xs : List ℕ) → polled xs ≡ poll_failed e → ⊥
polled_ne [] h = cc
polled_ne (x ∷ xs) h = cc

pub failed_ne : {A : Type 0} {a : A} {e : ℕ} → returned a ≡ failed e → ⊥
failed_ne h = cc

abbrev pub value_or : {A : Type 0} → A → Call A → A
value_or d (failed e) = d
value_or d (returned a) = a

-- The simulated port behaves as the documentation says.
pub wire_port : (fd : ℤ) → Port wire fd
wire_port fd = record {
  received = λ w. w.handed;
  sent = λ w. w.taken;
  supply = λ w. length w.incoming;
  etimedout_pos = omega arith;
  enotconn_pos = omega arith;
  clock_received = λ w. refl;
  clock_sent = λ w. refl;
  clock_supply = λ w. omega arith;
  poll_received = λ t w. refl;
  poll_sent = λ t w. refl;
  poll_supply = λ t w. omega arith;
  poll_errno = λ t w w' e h. absurd (polled_ne w.incoming (ap (λ c. c.0) h));
  poll_interrupted = λ t w w' h. absurd (polled_ne w.incoming (ap (λ c. c.0) h));
  read_sent = λ n w. refl;
  read_returned = λ n w w' bs h.
      subst
        (λ c.
          (c.1.handed ≡ w.handed ++ value_or [] c.0)
          × (length (value_or [] c.0) ≤ n)
          × AreBytes (value_or [] c.0)
          × (length c.1.incoming + length (value_or [] c.0) ≤ length w.incoming))
        h
        (
          refl,
          omega (arith, length-bytes_of (take n w.incoming), length-take-le n w.incoming),
          bytes_of-AreBytes (take n w.incoming),
          omega (arith, length-bytes_of (take n w.incoming), length-take-drop n w.incoming),
        );
  read_failed = λ n w w' e h. absurd (failed_ne (ap (λ c. c.0) h));
  read_interrupted = λ n w w' e h k. absurd (failed_ne (ap (λ c. c.0) h));
  write_received = λ bs w. refl;
  write_returned = λ bs w w' n h k.
      subst
        (λ c.
          (c.1.taken ≡ w.taken ++ take (value_or 0 c.0) bs)
          × (0 < value_or 0 c.0)
          × (value_or 0 c.0 ≤ length bs)
          × (length c.1.incoming ≤ length w.incoming))
        h
        (ap (λ t. w.taken ++ t) (sym (take_all (length bs) bs refl)), k, omega arith, omega arith);
  write_failed = λ bs w w' e h. absurd (failed_ne (ap (λ c. c.0) h));
  write_interrupted = λ bs w w' h. absurd (failed_ne (ap (λ c. c.0) h));
}

pub wire_supply : (fd : ℤ) (w : Wire) → (wire_port fd).supply w ≡ length w.incoming
unfolding wire_port
wire_supply fd w = refl

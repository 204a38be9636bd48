-- ===== src/Examples/Stops.antt =====
-- The demo programs on the simulated system, with a user who stops them after at most nine reads of
-- the flag.
use mcu_co_sdk.Common.{
  ℕ, zero, suc, ◌≤◌, ◌<◌, ◌≡◌, refl, [], ◌++◌, Bool, true, false, leb, if◌then◌else◌, arith,
}
use mcu_co_sdk.Common.Int.{pos}
use mcu_co_sdk.Os.Ends.{Ends}
use mcu_co_sdk.Uart.Opened.{Calm}
use mcu_co_sdk.Demos.{Signals}
use mcu_co_sdk.Demos.Laws.{SignalLaws}
use mcu_co_sdk.Demos.Closes.{Clean}
use mcu_co_sdk.Demos.Blink.{blink_main}
use mcu_co_sdk.Demos.Blink.Clean.{blink_main-Ends}
use mcu_co_sdk.Demos.Frequency.{frequency_main}
use mcu_co_sdk.Demos.Frequency.Clean.{frequency_main-Ends}
use mcu_co_sdk.Demos.Breathe.{ramp, breathe_main}
use mcu_co_sdk.Demos.Breathe.Ladder.{rungs_up, rungs_down, set_each, ramp-set_each}
use mcu_co_sdk.Values.{duty_max}
use mcu_co_sdk.Demos.Breathe.Clean.{breathe_main-Ends}
use mcu_co_sdk.Examples.Device.{Wire}
use mcu_co_sdk.Examples.Desktop.{desktop, desktop_laws, wire-Calm}
use mcu_co_sdk.Examples.Sessions.{board_handle, board, board-IsEnough}

abbrev patience_of : Wire → ℕ
patience_of w = if leb w.host.patience 9 then w.host.patience else 9

abbrev read_flag : ℕ → Wire → Bool × Wire
read_flag zero w = (true, w)
read_flag (suc n) w = (false, record w { host = record w.host { patience = n } })

abbrev user : Signals Wire
user = record {
  sigint = 2;
  sigterm = 15;
  sigaction = λ n w. w;
  stop_requested = λ w. read_flag (patience_of w) w;
  nanosleep = λ n w. w;
  sleep = λ n w. w;
  pause = λ w. w;
  perror = λ text w. record w { host = record w.host { printed = w.host.printed ++ text } };
}

read_flag-unset :
    (n : ℕ) (w : Wire) → n ≤ 9 → (read_flag n w).0 ≡ false → patience_of (read_flag n w).1 < n
read_flag-unset zero w small h = absurd (ground arith)
read_flag-unset (suc n) w small h = ground arith

read_flag-less : (n : ℕ) (w : Wire) → n ≡ patience_of w → patience_of (read_flag n w).1 ≤ n
read_flag-less zero w h = omega arith
read_flag-less (suc n) w h = ground arith

read_flag-Calm : (n : ℕ) (w : Wire) → Calm desktop desktop_laws w (read_flag n w).1
read_flag-Calm zero w = wire-Calm w w refl refl
read_flag-Calm (suc n) w = wire-Calm w _ refl refl

patience_of_le : (w : Wire) → patience_of w ≤ 9
patience_of_le w = ground arith

user_laws : SignalLaws desktop desktop_laws user
user_laws = record {
  patience = patience_of;
  limit = 9;
  patience_limit = patience_of_le;
  stop_unset = λ w h. read_flag-unset (patience_of w) w (patience_of_le w) h;
  stop_patience = λ w. read_flag-less (patience_of w) w refl;
  nanosleep_patience = λ n w. omega arith;
  sleep_patience = λ n w. omega arith;
  pause_patience = λ w. omega arith;
  print_patience = λ stream text w. omega arith;
  clock_patience = λ w. omega arith;
  poll_patience = λ fd t w. omega arith;
  read_patience = λ fd n w. omega arith;
  write_patience = λ fd bs w. omega arith;
  sigaction_quiet = λ n w. wire-Calm w w refl refl;
  stop_quiet = λ w. read_flag-Calm (patience_of w) w;
  nanosleep_quiet = λ n w. wire-Calm w w refl refl;
  sleep_quiet = λ n w. wire-Calm w w refl refl;
  pause_quiet = λ w. wire-Calm w w refl refl;
  perror_quiet = λ text w. wire-Calm w _ refl refl;
}

patient : user_laws.limit < 10
unfolding user_laws
patient = omega arith

blink_main-Ends_example :
    Ends
      (Clean desktop desktop_laws user user_laws 100 (desktop_laws.view board))
      (blink_main desktop user 100 10 [] board)
blink_main-Ends_example =
    blink_main-Ends desktop desktop_laws user user_laws 100 10 [] board patient board-IsEnough

frequency_main-Ends_example :
    Ends
      (Clean desktop desktop_laws user user_laws 100 (desktop_laws.view board))
      (frequency_main desktop user 100 [] board)
frequency_main-Ends_example =
    frequency_main-Ends desktop desktop_laws user user_laws 100 [] board board-IsEnough

breathe_main-Ends_example :
    Ends
      (Clean desktop desktop_laws user user_laws 100 (desktop_laws.view board))
      (breathe_main desktop user 100 10 51 [] board)
breathe_main-Ends_example =
    breathe_main-Ends desktop desktop_laws user user_laws 100 10 51 [] board patient (omega arith)
      board-IsEnough

ramp-set_each_example :
    (ramp desktop user 100 51 board_handle (pos 0) (pos duty_max) board
      ≡ set_each desktop user 100 board_handle 0 (rungs_up 0 50) board)
    × (ramp desktop user 100 51 board_handle (pos duty_max) (pos 0) board
        ≡ set_each desktop user 100 board_handle 1000 (rungs_down 50) board)
ramp-set_each_example = ramp-set_each desktop user 100 board_handle 51 board (omega arith)

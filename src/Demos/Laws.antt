-- ===== src/Demos/Laws.antt =====
-- What is documented of the calls in `Signals`, and the one thing that is asked of the user: to stop
-- the program at some time. `patience` bounds how often the flag will yet be read unset.
use mcu_co_sdk.Common.{ℕ, ◌≤◌, ◌<◌, ◌≡◌, List, false}
use mcu_co_sdk.Common.Int.{ℤ}
use mcu_co_sdk.System.{Stream, System}
use mcu_co_sdk.System.Laws.{Quiet, Laws}
use mcu_co_sdk.Demos.{Signals}

pub record SignalLaws (sys : System) (laws : Laws sys) (signals : Signals sys.State) : Type 0 where
  pub patience : sys.State → ℕ
  pub limit : ℕ
  pub patience_limit : (s : sys.State) → patience s ≤ limit
  -- A read of the flag that is unset uses up patience, and nothing gives it back.
  pub stop_unset :
      (s : sys.State)
      → (signals.stop_requested s).0 ≡ false
      → patience (signals.stop_requested s).1 < patience s
  pub stop_patience : (s : sys.State) → patience (signals.stop_requested s).1 ≤ patience s
  pub nanosleep_patience : (n : ℕ) (s : sys.State) → patience (signals.nanosleep n s) ≤ patience s
  pub sleep_patience : (n : ℕ) (s : sys.State) → patience (signals.sleep n s) ≤ patience s
  pub pause_patience : (s : sys.State) → patience (signals.pause s) ≤ patience s
  pub print_patience :
      (stream : Stream) (text : List ℕ) (s : sys.State)
      → patience (sys.print stream text s) ≤ patience s
  pub clock_patience : (s : sys.State) → patience (sys.os.clock_gettime s).1 ≤ patience s
  pub poll_patience : (fd t : ℤ) (s : sys.State) → patience (sys.os.poll fd t s).1 ≤ patience s
  pub read_patience :
      (fd : ℤ) (n : ℕ) (s : sys.State) → patience (sys.os.read fd n s).1 ≤ patience s
  pub write_patience :
      (fd : ℤ) (bs : List ℕ) (s : sys.State) → patience (sys.os.write fd bs s).1 ≤ patience s
  -- Descriptors and memory are left alone.
  pub sigaction_quiet :
      (n : ℕ) (s : sys.State)
      → Quiet laws.view (λ fd. (laws.port fd).supply) s (signals.sigaction n s)
  pub stop_quiet :
      (s : sys.State) → Quiet laws.view (λ fd. (laws.port fd).supply) s (signals.stop_requested s).1
  pub nanosleep_quiet :
      (n : ℕ) (s : sys.State)
      → Quiet laws.view (λ fd. (laws.port fd).supply) s (signals.nanosleep n s)
  pub sleep_quiet :
      (n : ℕ) (s : sys.State) → Quiet laws.view (λ fd. (laws.port fd).supply) s (signals.sleep n s)
  pub pause_quiet :
      (s : sys.State) → Quiet laws.view (λ fd. (laws.port fd).supply) s (signals.pause s)
  pub perror_quiet :
      (text : List ℕ) (s : sys.State)
      → Quiet laws.view (λ fd. (laws.port fd).supply) s (signals.perror text s)

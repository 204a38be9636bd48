-- ===== src/Demos/Requests.antt =====
-- The calls that several demo programs make, output, and waiting.
use mcu_co_sdk.Common.{ℕ, ◌≤◌, List, some}
use mcu_co_sdk.Protocol.Commands.Request.{gpio_cfg}
use mcu_co_sdk.Os.{lift}
use mcu_co_sdk.System.{stderr, System}
use mcu_co_sdk.System.Laws.{Laws}
use mcu_co_sdk.Mcuco.{mcuco_gpio_cfg}
use mcu_co_sdk.Mcuco.Calls.{call}
use mcu_co_sdk.Mcuco.Handle.{Handle}
use mcu_co_sdk.Demos.{Signals}
use mcu_co_sdk.Demos.Laws.{SignalLaws}
use mcu_co_sdk.Demos.Steps.{Lasts, Runs, Runs-lift, Runs-call, Runs-no_result}

module _ (sys : System) (laws : Laws sys) (signals : Signals sys.State)
    (sl : SignalLaws sys laws signals) (fuel : ℕ) where
  pub cfg-Runs :
      {n : ℕ} (h : Handle) (dir port pin : ℕ)
      → dir ≤ 1
      → port ≤ 6
      → pin ≤ 15
      → Runs sys laws signals sl fuel n (mcuco_gpio_cfg sys.os fuel (some h.mcu) dir port pin)
  unfolding call
  cfg-Runs h dir port pin d p q =
      Runs-no_result sys laws signals sl fuel (mcuco_gpio_cfg sys.os fuel (some h.mcu) dir port pin)
        (Runs-call sys laws signals sl fuel h (gpio_cfg dir port pin) 0 (d, (p, q)))

  -- Output and waiting.
  pub Runs-print :
      {n : ℕ} (f : sys.State → sys.State)
      → ((s : sys.State) → Lasts sys laws signals sl s (f s))
      → {A : Type 0} (a : A) → Runs sys laws signals sl fuel n (lift (λ s. (a, f s)))
  Runs-print f h a = Runs-lift sys laws signals sl fuel (λ s. (a, f s)) h

  pub print-Lasts :
      (text : List ℕ) (s : sys.State) → Lasts sys laws signals sl s (sys.print stderr text s)
  print-Lasts text s = (laws.print_quiet stderr text s, sl.print_patience stderr text s)

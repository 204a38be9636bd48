-- ===== src/Cli/Runs.antt =====
-- Running a command is a call of the library.
use mcu_co_sdk.Common.{
  ℕ, ◌≡◌, refl, List, [], Option, none, some, ◌==◌, Bool, true, false, ap, if◌then◌else◌,
}
use mcu_co_sdk.Values.{mcuco_status_ok}
use mcu_co_sdk.Os.{Os, M}
use mcu_co_sdk.Protocol.Commands.Request.{
  Request, probe, reset, gpio_cfg, gpio_set, gpio_get, gpio_toggle, irq_cfg, irq_bind, irq_unbind,
  group_cfg, group_get, group_release, channel_cfg, channel_set, channel_get, channel_release,
}
use mcu_co_sdk.Mcuco.{
  Mcuco, mcuco_probe, mcuco_reset, mcuco_gpio_cfg, mcuco_gpio_set, mcuco_gpio_irq_cfg,
  mcuco_gpio_irq_bind, mcuco_gpio_irq_unbind, mcuco_pwm_group_cfg, mcuco_pwm_group_release,
  mcuco_pwm_channel_cfg, mcuco_pwm_channel_set, mcuco_pwm_channel_release,
}
use mcu_co_sdk.Mcuco.Calls.{call, no_result}
use mcu_co_sdk.Cli.Words.{McucoArgs}
use mcu_co_sdk.Cli.Table.{
  Run, run_probe, run_reset, run_gpio_cfg, run_gpio_set, run_gpio_get, run_gpio_toggle,
  run_timer_cfg, run_timer_get, run_timer_release, run_pwm_cfg, run_pwm_set, run_pwm_get,
  run_pwm_release, run_irq_cfg, run_irq_bind, run_irq_unbind, Command, print_level, print_number,
  print_tenths, silent, printing, run_of, mcuco_run_command,
}

-- What a row asks of the library.
abbrev pub request_of : Run → McucoArgs → Request
request_of run_probe args = probe
request_of run_reset args = reset
request_of run_gpio_cfg args = gpio_cfg args.direction args.port args.pin
request_of run_gpio_set args = gpio_set args.level args.port args.pin
request_of run_gpio_get args = gpio_get args.port args.pin
request_of run_gpio_toggle args = gpio_toggle args.port args.pin
request_of run_timer_cfg args = group_cfg args.frequency_hz args.timer
request_of run_timer_get args = group_get args.timer
request_of run_timer_release args = group_release args.timer
request_of run_pwm_cfg args = channel_cfg args.polarity args.port args.pin
request_of run_pwm_set args = channel_set args.duty_tenths args.port args.pin
request_of run_pwm_get args = channel_get args.port args.pin
request_of run_pwm_release args = channel_release args.port args.pin
request_of run_irq_cfg args = irq_cfg args.edge args.port args.pin
request_of run_irq_bind args =
    irq_bind args.edge args.port args.pin args.action args.out_port args.out_pin
request_of run_irq_unbind args = irq_unbind args.port args.pin

-- How the value of a request is printed.
abbrev pub print_of : Request → ℕ → List ℕ
print_of (gpio_get port pin) = print_level
print_of (gpio_toggle port pin) = print_level
print_of (group_get group) = print_number
print_of (channel_get port pin) = print_tenths
print_of _ = λ value. []

module _ (os : Os) (fuel : ℕ) where
  silent-printing :
      (m : M os.State ℕ) (s : os.State)
      → silent m s ≡ printing (no_result os fuel m (some 0)) (λ value. []) s
  silent-printing m s = printed (m s)
    where
      nothing : (t : Bool) → ◌≡◌ {A = List ℕ} [] (if t then [] else [])
      nothing true = refl
      nothing false = refl

      printed :
          (r : Option (ℕ × os.State))
          → silent (λ s. r) s ≡ printing (no_result os fuel (λ s. r) (some 0)) (λ value. []) s
      printed none = refl
      printed (some (status, s')) =
          ap (λ (text : List ℕ). some ((status, text), s')) (nothing (status == mcuco_status_ok))

  run_of-call :
      (run : Run) (mcu : Option Mcuco) (args : McucoArgs) (s : os.State)
      → run_of os fuel run mcu args s
        ≡ printing
            (call os fuel (request_of run args) mcu (some 0))
            (print_of (request_of run args))
            s
  unfolding run_of call
  run_of-call run_probe mcu args s = silent-printing (mcuco_probe os fuel mcu) s
  run_of-call run_reset mcu args s = silent-printing (mcuco_reset os fuel mcu) s
  run_of-call run_gpio_cfg mcu args s =
      silent-printing (mcuco_gpio_cfg os fuel mcu args.direction args.port args.pin) s
  run_of-call run_gpio_set mcu args s =
      silent-printing (mcuco_gpio_set os fuel mcu args.level args.port args.pin) s
  run_of-call run_timer_cfg mcu args s =
      silent-printing (mcuco_pwm_group_cfg os fuel mcu args.frequency_hz args.timer) s
  run_of-call run_timer_release mcu args s =
      silent-printing (mcuco_pwm_group_release os fuel mcu args.timer) s
  run_of-call run_pwm_cfg mcu args s =
      silent-printing (mcuco_pwm_channel_cfg os fuel mcu args.polarity args.port args.pin) s
  run_of-call run_pwm_set mcu args s =
      silent-printing (mcuco_pwm_channel_set os fuel mcu args.duty_tenths args.port args.pin) s
  run_of-call run_pwm_release mcu args s =
      silent-printing (mcuco_pwm_channel_release os fuel mcu args.port args.pin) s
  run_of-call run_irq_cfg mcu args s =
      silent-printing (mcuco_gpio_irq_cfg os fuel mcu args.edge args.port args.pin) s
  run_of-call run_irq_bind mcu args s =
      silent-printing
        (mcuco_gpio_irq_bind os fuel mcu args.edge args.port args.pin args.action args.out_port
          args.out_pin)
        s
  run_of-call run_irq_unbind mcu args s =
      silent-printing (mcuco_gpio_irq_unbind os fuel mcu args.port args.pin) s
  run_of-call _ mcu args s = refl

  -- Running a command makes exactly one call of the library, the one for the row's request on the
  -- parsed arguments, returns its status, and prints its value when it succeeded.
  pub mcuco_run_command-call :
      (mcu : Option Mcuco) (command : Command) (args : McucoArgs) (s : os.State)
      → mcuco_run_command os fuel mcu (some command) args s
        ≡ printing
            (call os fuel (request_of command.run args) mcu (some 0))
            (print_of (request_of command.run args))
            s
  unfolding mcuco_run_command
  mcuco_run_command-call mcu command args s = run_of-call command.run mcu args s

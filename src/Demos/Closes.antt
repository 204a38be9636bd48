-- ===== src/Demos/Closes.antt =====
-- The end of a demo program: the handle closed, and what was held before held again.
use mcu_co_sdk.Common.{
  ℕ, ◌≤◌, ◌<◌, ◌≡◌, ap, ◌∙◌, List, some, Bool, true, false, ◌!=◌, if◌then◌else◌, arith,
}
use mcu_co_sdk.Common.Int.{is_neg, pos}
use mcu_co_sdk.Values.{mcuco_status_ok}
use mcu_co_sdk.Protocol.Commands.Request.{reset}
use mcu_co_sdk.Os.{Call, failed, returned, M, pure, lift, ◌>>=◌}
use mcu_co_sdk.Os.Ends.{Ends, Ends-some, Ends->>=}
use mcu_co_sdk.System.{stderr, System}
use mcu_co_sdk.System.Laws.{View, Laws}
use mcu_co_sdk.Uart.Opened.{Calm, Calm-refl, Calm-trans}
use mcu_co_sdk.Mcuco.{mcuco_reset}
use mcu_co_sdk.Mcuco.Calls.{call}
use mcu_co_sdk.Mcuco.Handle.{Handle, mcuco_open, mcuco_close}
use mcu_co_sdk.Mcuco.Steady.{IsEnough}
use mcu_co_sdk.Mcuco.Lifecycle.{Opened, with_handle, mcuco_close-with_handle, mcuco_open-OpenEnds}
use mcu_co_sdk.Cli.Text.{codes}
use mcu_co_sdk.Demos.{
  Signals, device_path, mcuco_timeout_default_ms, install_signal_handlers, report, give_up,
  reset_and_close, with_device,
}
use mcu_co_sdk.Demos.Laws.{SignalLaws}
use mcu_co_sdk.Demos.Steps.{Runs, Runs-call, Runs-no_result}

module _ (sys : System) (laws : Laws sys) (signals : Signals sys.State)
    (sl : SignalLaws sys laws signals) (fuel : ℕ) where
  -- The program has ended with one of its two exit codes and holds what `v` says.
  abbrev pub Clean : View → ℕ → sys.State → Type 0
  Clean v code s = (code ≤ 1) × (laws.view s ≡ v)

  -- With the handle open beyond `v` and patience below the bound, the computation ends clean.
  pub record Closes (n : ℕ) (h : Handle) (m : M sys.State ℕ) : Type 0 where
    pub at :
        (v : View) (s : sys.State)
        → IsEnough sys laws fuel s
        → sl.patience s < n
        → laws.view s ≡ with_handle sys laws h v
        → Ends (Clean v) (m s)

  pub Closes->>= :
      {n : ℕ} {h : Handle} {A : Type 0} {m : M sys.State A} {f : A → M sys.State ℕ}
      → Runs sys laws signals sl fuel n m
      → ((a : A) → Closes n h (f a))
      → Closes n h (m >>= f)
  Closes->>= {m = m} {f = f} first rest = record {
    at = λ v s enough p held. Ends->>= m f s (first.at s enough p) (λ a s1 l.
        (rest a).at v s1 (λ d. omega (arith, enough d, l.0.1 d)) (omega (arith, l.1))
          (l.0.0 ∙ held));
  }

  pub Closes-if :
      {n : ℕ} {h : Handle} {x y : M sys.State ℕ} (t : Bool)
      → Closes n h x
      → Closes n h y
      → Closes n h (if t then x else y)
  Closes-if true p q = p
  Closes-if false p q = q

  report-Calm :
      (what : List ℕ) (status : ℕ) (s : sys.State)
      → Calm sys laws s (report sys signals what status s)
  report-Calm what status s = laws.print_quiet stderr _ s

  -- Output, and then the handle is closed.
  pub Closes-lift :
      {n : ℕ} (h : Handle) (code : ℕ) (f : sys.State → sys.State)
      → is_neg h.mcu.fd ≡ false
      → code ≤ 1
      → ((s : sys.State) → Calm sys laws s (f s))
      → Closes n h (lift (λ s. (code, mcuco_close sys (some h) (f s))))
  Closes-lift h code f is_fd small calm = record {
    at = λ v s enough p held.
        Ends-some (Clean v) code _
          (small, mcuco_close-with_handle sys laws h v (f s) is_fd ((calm s).0 ∙ held));
  }

  pub Closes-give_up :
      {n : ℕ} (what : List ℕ) (status : ℕ) (h : Handle)
      → is_neg h.mcu.fd ≡ false
      → Closes n h (give_up sys signals what status h)
  Closes-give_up what status h is_fd =
      Closes-lift h 1 (report sys signals what status) is_fd (omega arith) (report-Calm what status)

  pub reset-Runs :
      {n : ℕ} (h : Handle) → Runs sys laws signals sl fuel n (mcuco_reset sys.os fuel (some h.mcu))
  unfolding call
  reset-Runs h =
      Runs-no_result sys laws signals sl fuel (mcuco_reset sys.os fuel (some h.mcu))
        (Runs-call sys laws signals sl fuel h reset 0 tt)

  pub Closes-reset :
      {n : ℕ} (h : Handle) (code : ℕ)
      → is_neg h.mcu.fd ≡ false
      → code ≤ 1
      → Closes n h (reset_and_close sys signals fuel h >>= λ u. pure code)
  Closes-reset h code is_fd small = record {
    at = λ v s enough p held.
        let is_v : Unit {0} → sys.State → Type 0 = λ _ s'. laws.view s' ≡ v in
        Ends->>= (reset_and_close sys signals fuel h) (λ u. pure code) s
          (Ends->>= (mcuco_reset sys.os fuel (some h.mcu)) _ s ((reset-Runs h).at s enough p)
            (λ r s1 l. Ends-some is_v tt _ (
              mcuco_close-with_handle sys laws h v _ is_fd (
                (when (r != mcuco_status_ok) s1 (report-Calm (codes "reset: ") r s1)).0
                ∙ l.0.0
                ∙ held))))
          (λ u s' view. Ends-some (Clean v) code s' (small, view));
  }
    where
      when :
          (t : Bool) {s1 : sys.State} (s : sys.State)
          → Calm sys laws s s1
          → Calm sys laws s (if t then s1 else s)
      when true s c = c
      when false s c = Calm-refl sys laws s

  -- A program that closes every handle it is given ends clean, whether or not there is one.
  pub with_device-Ends :
      (n : ℕ) (argv : List (List ℕ)) (body : Handle → M sys.State ℕ) (s s0 : sys.State)
      → sl.limit < n
      → IsEnough sys laws fuel s0
      → Calm sys laws s0 s
      → ((h : Handle) → is_neg h.mcu.fd ≡ false → Closes n h (body h))
      → Ends (Clean (laws.view s0)) (with_device sys signals fuel argv body s)
  with_device-Ends n argv body s s0 patient enough0 calm closes =
      let enough : IsEnough sys laws fuel s = λ d. omega (arith, enough0 d, calm.1 d) in
      let device = device_path argv in
      let timeout = pos mcuco_timeout_default_ms in
      Ends->>= (mcuco_open sys fuel (some device) timeout) _ s
        (mcuco_open-OpenEnds sys laws fuel (some device) timeout s enough)
        (λ opened s1 o. go enough opened s1 o)
    where
      go :
          IsEnough sys laws fuel s
          → (opened : Call Handle) (s1 : sys.State)
          → Opened sys laws (pos mcuco_timeout_default_ms) s (opened, s1)
          → Ends (Clean (laws.view s0)) (
              (elim opened as (λ _. M sys.State ℕ) [
                | failed errno ↦ lift (λ s. (1, signals.perror (codes "mcuco_open") s))
                | returned mcu ↦ body mcu
              ])
                s1)
      go enough (failed e) s1 o =
          Ends-some (Clean (laws.view s0)) 1 _
            (omega arith, (sl.perror_quiet (codes "mcuco_open") s1).0 ∙ o ∙ calm.0)
      go enough (returned h) s1 (is_fd, t, view, conf, fewer) =
          (closes h is_fd).at (laws.view s0) s1 (λ d. omega (arith, enough d, fewer d))
            (omega (arith, sl.patience_limit s1)) (view ∙ ap (with_handle sys laws h) calm.0)

  -- The beginning of the programs.
  pub install-Calm : (s : sys.State) → Calm sys laws s (install_signal_handlers sys signals s)
  unfolding install_signal_handlers
  install-Calm s =
      Calm-trans sys laws (sl.sigaction_quiet signals.sigint s)
        (sl.sigaction_quiet signals.sigterm _)

-- ===== src/Demos/Steps.antt =====
-- The steps of the demo programs end, and leave descriptors and memory alone; closing at the end
-- gives them back.
use mcu_co_sdk.Common.{ℕ, suc, ◌≤◌, ◌<◌, ◌≡◌, refl, some, Bool, true, false, if◌then◌else◌, arith}
use mcu_co_sdk.Common.Int.{ℤ}
use mcu_co_sdk.Protocol.Commands.Request.{Request, InRange}
use mcu_co_sdk.Os.{M, pure, lift, ◌>>=◌}
use mcu_co_sdk.Os.Keeps.{IsKept}
use mcu_co_sdk.Os.Ends.{Ends, Ends-some, Ends-mono, Ends->>=}
use mcu_co_sdk.System.{System}
use mcu_co_sdk.System.Laws.{Laws}
use mcu_co_sdk.Uart.Opened.{Calm, Calm-refl, Calm-trans}
use mcu_co_sdk.Mcuco.Calls.{call, no_result}
use mcu_co_sdk.Mcuco.Handle.{Handle}
use mcu_co_sdk.Mcuco.Steady.{IsEnough, call-Ends, Ends-no_result}
use mcu_co_sdk.Demos.{Signals}
use mcu_co_sdk.Demos.Laws.{SignalLaws}

module _ (sys : System) (laws : Laws sys) (signals : Signals sys.State)
    (sl : SignalLaws sys laws signals) where
  -- Descriptors and memory are left alone, and patience does not grow.
  abbrev pub Lasts : sys.State → sys.State → Type 0
  Lasts s s' = Calm sys laws s s' × (sl.patience s' ≤ sl.patience s)

  pub Lasts-refl : (s : sys.State) → Lasts s s
  Lasts-refl s = (Calm-refl sys laws s, omega arith)

  pub Lasts-trans : {s t u : sys.State} → Lasts s t → Lasts t u → Lasts s u
  Lasts-trans p q = (Calm-trans sys laws p.0 q.0, omega (arith, p.1, q.1))

  Lasts-IsKept : (s : sys.State) (fd : ℤ) → IsKept sys.os fd (Lasts s)
  Lasts-IsKept s fd = record {
    clock_gettime = λ t h. Lasts-trans h ((laws.clock_passive t).0, sl.clock_patience t);
    poll = λ n t h. Lasts-trans h ((laws.poll_passive fd n t).0, sl.poll_patience fd n t);
    read = λ n t h. Lasts-trans h ((laws.read_passive fd n t).0, sl.read_patience fd n t);
    write = λ bs t h. Lasts-trans h ((laws.write_passive fd bs t).0, sl.write_patience fd bs t);
  }

  module _ (fuel : ℕ) where
    -- With patience below the bound, the computation ends, and changes nothing that is held.
    pub record Runs (n : ℕ) {A : Type 0} (m : M sys.State A) : Type 0 where
      pub at :
          (s : sys.State)
          → IsEnough sys laws fuel s
          → sl.patience s < n
          → Ends (λ _ s'. Lasts s s') (m s)

    pub Runs-pure : {n : ℕ} {A : Type 0} (a : A) → Runs n (pure a)
    Runs-pure a = record { at = λ s enough p. Ends-some (λ _ s'. Lasts s s') a s (Lasts-refl s) }

    pub Runs-lift :
        {n : ℕ} {A : Type 0} (f : sys.State → A × sys.State)
        → ((s : sys.State) → Lasts s (f s).1)
        → Runs n (lift f)
    Runs-lift f h = record {
      at = λ s enough p. Ends-some (λ _ s'. Lasts s s') (f s).0 (f s).1 (h s);
    }

    pub Runs->>= :
        {n : ℕ} {A B : Type 0} {m : M sys.State A} {f : A → M sys.State B}
        → Runs n m
        → ((a : A) → Runs n (f a))
        → Runs n (m >>= f)
    Runs->>= {n} {A} {B} {m} {f} first rest = record {
      at = λ s enough p. Ends->>= m f s (first.at s enough p) (λ a s1 l.
          Ends-mono ((rest a).at s1 (λ d. omega (arith, enough d, l.0.1 d)) (omega (arith, l.1)))
            (λ b s2 k. Lasts-trans l k));
    }

    pub Runs-if :
        {n : ℕ} {A : Type 0} {x y : M sys.State A} (t : Bool)
        → Runs n x
        → Runs n y
        → Runs n (if t then x else y)
    Runs-if true p q = p
    Runs-if false p q = q

    -- After the flag was read unset, there is patience for one round less.
    pub Runs-read :
        {n : ℕ} {A : Type 0} (f : Bool → M sys.State A)
        → Runs (suc n) (f true)
        → Runs n (f false)
        → Runs (suc n) (lift signals.stop_requested >>= f)
    Runs-read {n} {A} f p q = record {
      at = λ s enough small.
          let l : Lasts s (signals.stop_requested s).1 = (sl.stop_quiet s, sl.stop_patience s) in
          go s enough small l (signals.stop_requested s).0 refl;
    }
      where
        go :
            (s : sys.State)
            → IsEnough sys laws fuel s
            → sl.patience s < suc n
            → Lasts s (signals.stop_requested s).1
            → (t : Bool) → (signals.stop_requested s).0 ≡ t
            → Ends (λ _ s'. Lasts s s') (f t (signals.stop_requested s).1)
        go s enough small l true e =
            Ends-mono
              (p.at (signals.stop_requested s).1 (λ d. omega (arith, enough d, l.0.1 d))
                (omega (arith, l.1)))
              (λ b s2 k. Lasts-trans l k)
        go s enough small l false e =
            Ends-mono
              (q.at (signals.stop_requested s).1 (λ d. omega (arith, enough d, l.0.1 d))
                (omega (arith, sl.stop_unset s e)))
              (λ b s2 k. Lasts-trans l k)

    pub Runs-stop :
        {n : ℕ} {A : Type 0} {x y : M sys.State A}
        → Runs (suc n) x
        → Runs n y
        → Runs (suc n) (lift signals.stop_requested >>= λ stop. if stop then x else y)
    Runs-stop {x = x} {y = y} p q = Runs-read (λ stop. if stop then x else y) p q

    pub Runs-call :
        {n : ℕ} (h : Handle) (r : Request) (out : ℕ)
        → InRange r
        → Runs n (call sys.os fuel r (some h.mcu) (some out))
    Runs-call h r out valid = record {
      at = λ s enough p.
          call-Ends sys laws (Lasts s) fuel h.mcu r out s (Lasts-IsKept s h.mcu.fd) valid enough
            (Lasts-refl s);
    }

    -- A function of the library that gives a status only.
    pub Runs-no_result :
        {n : ℕ} (m : M sys.State ℕ) → Runs n (no_result sys.os fuel m (some 0)) → Runs n m
    Runs-no_result m h = record {
      at = λ s enough p. Ends-no_result sys laws fuel (some 0) m s (h.at s enough p);
    }

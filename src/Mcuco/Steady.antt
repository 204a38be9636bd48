-- ===== src/Mcuco/Steady.antt =====
-- Every call of the library on an open handle ends, and opens, closes, allocates and frees nothing.
use mcu_co_sdk.Common.{ℕ, ◌+◌, ◌<◌, ◌≡◌, refl, ◌∙◌, Option, none, some, arith}
use mcu_co_sdk.Common.Int.{ℤ}
use mcu_co_sdk.Protocol.Defs.{protocol_max_command_frame}
use mcu_co_sdk.Protocol.Commands.Request.{Request, InRange}
use mcu_co_sdk.Os.{M}
use mcu_co_sdk.Os.Ends.{Ends, Ends-some, Ends-at}
use mcu_co_sdk.Os.Keeps.{IsKept, Keeps-some}
use mcu_co_sdk.System.{System}
use mcu_co_sdk.System.Laws.{Passive, Laws}
use mcu_co_sdk.Mcuco.{Mcuco}
use mcu_co_sdk.Mcuco.Calls.{call, no_result}
use mcu_co_sdk.Mcuco.Frame.{call-Kept}
use mcu_co_sdk.Mcuco.Results.{call-Called}

module _ (sys : System) (laws : Laws sys) where
  -- The same descriptors are open, the same handles allocated and the terminals set as before, and
  -- no more is to come on any descriptor.
  abbrev pub Steady : sys.State → sys.State → Type 0
  Steady = Passive laws.view (λ fd. (laws.port fd).supply) laws.terminal

  pub Steady-refl : (s : sys.State) → Steady s s
  Steady-refl s = ((refl, λ d. omega arith), λ d. refl)

  pub Steady-trans : {s t u : sys.State} → Steady s t → Steady t u → Steady s u
  Steady-trans p q = ((q.0.0 ∙ p.0.0, λ d. omega (arith, p.0.1 d, q.0.1 d)), λ d. q.1 d ∙ p.1 d)

  Steady-IsKept : (s : sys.State) (fd : ℤ) → IsKept sys.os fd (Steady s)
  Steady-IsKept s fd = record {
    clock_gettime = λ t h. Steady-trans h (laws.clock_passive t);
    poll = λ n t h. Steady-trans h (laws.poll_passive fd n t);
    read = λ n t h. Steady-trans h (laws.read_passive fd n t);
    write = λ bs t h. Steady-trans h (laws.write_passive fd bs t);
  }

  -- Fuel for a frame and for all that any port can still deliver.
  abbrev pub IsEnough : ℕ → sys.State → Type 0
  IsEnough fuel s = (d : ℤ) → (laws.port d).supply s + protocol_max_command_frame < fuel

  pub IsEnough-Steady :
      {fuel : ℕ} {s s' : sys.State} → IsEnough fuel s → Steady s s' → IsEnough fuel s'
  IsEnough-Steady enough h = λ d. omega (arith, enough d, h.0.1 d)

  -- With a value that the protocol has and enough fuel, every call of the library on a handle ends,
  -- and keeps what the calls on its descriptor keep.
  pub call-Ends :
      (I : sys.State → Type 0) (fuel : ℕ) (mcu : Mcuco) (r : Request) (out : ℕ) (s : sys.State)
      → IsKept sys.os mcu.fd I
      → InRange r
      → IsEnough fuel s
      → I s
      → Ends (λ _ after. I after) (call sys.os fuel r (some mcu) (some out) s)
  call-Ends I fuel mcu r out s kept h enough holds =
      let called = call-Called sys.os fuel mcu (laws.port mcu.fd) r out s h (enough mcu.fd) in
      record {
        value = (called.status, called.value);
        after = called.after;
        returns = called.returns;
        holds =
            Keeps-some I ((call-Kept sys.os mcu I kept fuel r (some out)).at s holds)
              called.returns;
      }

  -- They leave the same descriptors open and the same handles allocated, and the terminals as they
  -- were.
  pub call-Steady :
      (fuel : ℕ) (mcu : Mcuco) (r : Request) (out : ℕ) (s : sys.State)
      → InRange r
      → IsEnough fuel s
      → Ends (λ _ after. Steady s after) (call sys.os fuel r (some mcu) (some out) s)
  call-Steady fuel mcu r out s h enough =
      call-Ends (Steady s) fuel mcu r out s (Steady-IsKept s mcu.fd) h enough (Steady-refl s)

  -- The same of a function of the library that gives a status only.
  pub Ends-status :
      (P : ℕ → sys.State → Type 0) (fuel : ℕ) (out : Option ℕ) (m : M sys.State ℕ) (s : sys.State)
      → Ends (λ v after. P v.0 after) (no_result sys.os fuel m out s)
      → Ends P (m s)
  Ends-status P fuel out m s e = go (m s) e
    where
      none_ne : {A : Type 0} {a : A} → none ≡ some a → ⊥
      none_ne h = cc

      go :
          (r : Option (ℕ × sys.State))
          → Ends (λ v after. P v.0 after) (no_result sys.os fuel (λ s. r) out s)
          → Ends P r
      go none e = absurd (none_ne e.returns)
      go (some (status, s')) e =
          Ends-some P status s' (Ends-at (λ (v : ℕ × Option ℕ) after. P v.0 after) e refl)

  pub Ends-no_result :
      {P : sys.State → Type 0} (fuel : ℕ) (out : Option ℕ) (m : M sys.State ℕ) (s : sys.State)
      → Ends (λ _ after. P after) (no_result sys.os fuel m out s)
      → Ends (λ _ after. P after) (m s)
  Ends-no_result {P} fuel out m s e = Ends-status (λ _ after. P after) fuel out m s e

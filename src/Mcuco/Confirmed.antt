-- ===== src/Mcuco/Confirmed.antt =====
-- A handle is given only for a device that has answered the probe.
use mcu_co_sdk.Common.{
  ℕ, zero, suc, ◌<◌, ◌≡◌, refl, sym, ap, ◌∙◌, inl, inr, List, [], ◌∷◌, ◌++◌, Option, none, some,
  ◌!=◌, take_all, arith,
}
use mcu_co_sdk.Common.Int.{ℤ}
use mcu_co_sdk.Values.{mcuco_status_ok}
use mcu_co_sdk.Protocol.Parse.Reply.{reply_frame}
use mcu_co_sdk.Protocol.Commands.Request.{probe}
use mcu_co_sdk.Os.{Call, failed, returned}
use mcu_co_sdk.Os.Ends.{Ends, Ends-some, Ends->>=, Ends-if, Ends-at}
use mcu_co_sdk.System.{System}
use mcu_co_sdk.System.Laws.{Laws}
use mcu_co_sdk.Uart.Opened.{Opens, uart_open-Opens}
use mcu_co_sdk.CommandTransport.Skip.{NoSof}
use mcu_co_sdk.CommandTransport.Open.{open_port}
use mcu_co_sdk.Mcuco.{Mcuco, mcuco_probe, expected_magic}
use mcu_co_sdk.Mcuco.Calls.{call, interpret}
use mcu_co_sdk.Mcuco.Answers.{frame_of}
use mcu_co_sdk.Mcuco.Results.{call-Called}
use mcu_co_sdk.Mcuco.Handle.{Handle, mcuco_open, handle_malloc, open_handle, confirm}
use mcu_co_sdk.Mcuco.Steady.{IsEnough, Ends-status}

-- Only an ACK with the four bytes of the magic makes the probe a success.
interpret-magic :
    (ack : ℕ) (payload : List ℕ) (out : ℕ)
    → (interpret probe ack payload out).0 ≡ mcuco_status_ok
    → (0 < ack) × (payload ≡ expected_magic)
interpret-magic zero [] out h = absurd (ground arith)
interpret-magic zero (r ∷ []) out h = absurd (ground arith)
interpret-magic zero (r ∷ x ∷ xs) out h = absurd (ground arith)
interpret-magic (suc n) [] out h = absurd (ground arith)
interpret-magic (suc n) (a ∷ []) out h = absurd (ground arith)
interpret-magic (suc n) (a ∷ b ∷ []) out h = absurd (ground arith)
interpret-magic (suc n) (a ∷ b ∷ c ∷ []) out h = absurd (ground arith)
interpret-magic (suc n) (a ∷ b ∷ c ∷ d ∷ []) out h =
    (omega arith, four (ground arith) (ground arith) (ground arith) (ground arith))
  where
    four : a ≡ b'M' → b ≡ b'C' → c ≡ b'U' → d ≡ b'O' → (a ∷ b ∷ c ∷ d ∷ []) ≡ expected_magic
    four p q r s = rw (p, q, r, s) refl
interpret-magic (suc n) (a ∷ b ∷ c ∷ d ∷ e ∷ xs) out h = absurd (ground arith)

module _ (sys : System) (laws : Laws sys) where
  -- From some state on, in which the port was open, the port took the frame of the probe and handed
  -- out, after bytes without a SOF, an ACK with the magic.
  pub record Confirmed (fd : ℤ) (s : sys.State) : Type 0 where
    pub start : sys.State
    pub junk : List ℕ
    pub ack : ℕ
    pub acked : 0 < ack
    pub clean : NoSof junk
    pub sent : (laws.port fd).sent s ≡ (laws.port fd).sent start ++ frame_of probe
    pub received :
        (laws.port fd).received s
        ≡ (laws.port fd).received start ++ (junk ++ reply_frame ack expected_magic)

  probe-Ends :
      (fuel : ℕ) (mcu : Mcuco) (s : sys.State)
      → IsEnough sys laws fuel s
      → Ends
          (λ status after. status ≡ mcuco_status_ok → Confirmed mcu.fd after)
          (mcuco_probe sys.os fuel (some mcu) s)
  unfolding call
  probe-Ends fuel mcu s enough =
      let called = call-Called sys.os fuel mcu (laws.port mcu.fd) probe 0 s tt (enough mcu.fd) in
      Ends-status sys laws (λ status after. status ≡ mcuco_status_ok → Confirmed mcu.fd after) fuel
        (some 0) (mcuco_probe sys.os fuel (some mcu)) s
        (record {
          value = (called.status, called.value);
          after = called.after;
          returns = called.returns;
          holds = λ good. elim called.outcome [
            | inl (junk, ack, payload, n, b, clean, small, result) ↦
                let magic = interpret-magic ack payload 0 (sym (ap (λ v. v.0) result) ∙ good) in
                record {
                  start = s;
                  junk = junk;
                  ack = ack;
                  acked = magic.0;
                  clean = clean;
                  sent =
                      called.sent
                      ∙ ap (λ bs. (laws.port mcu.fd).sent s ++ bs)
                          (take_all called.count (frame_of probe) n);
                  received =
                      called.received
                      ∙ ap (λ bs. (laws.port mcu.fd).received s ++ bs)
                          (b ∙ ap (λ p. junk ++ reply_frame ack p) magic.1);
                }
            | inr (bad, same) ↦ absurd (ground arith)
          ];
        })

  -- What is known of a handle that is given.
  abbrev pub Answered : Call Handle → sys.State → Type 0
  Answered (failed e) s = Unit
  Answered (returned h) s = Confirmed h.mcu.fd s

  confirm-Answered :
      (fuel : ℕ) (h : Handle) (s : sys.State)
      → IsEnough sys laws fuel s
      → Ends Answered (confirm sys fuel h s)
  unfolding confirm
  confirm-Answered fuel h s enough =
      Ends->>= (mcuco_probe sys.os fuel (some h.mcu)) _ s (probe-Ends fuel h.mcu s enough)
        (λ status s1 answered.
          Ends-if (status != mcuco_status_ok) _ _ s1 (λ bad. Ends-some Answered _ _ tt)
            (λ good. Ends-some Answered (returned h) s1 (answered (ground arith))))

  open_handle-Answered :
      (fuel address : ℕ) (fd timeout_ms : ℤ) (s s1 : sys.State)
      → IsEnough sys laws fuel s
      → Opens sys laws s (fd, s1)
      → Ends Answered (open_handle sys fuel address (fd, s1) timeout_ms)
  unfolding open_handle
  open_handle-Answered fuel address fd timeout_ms s s1 enough (inl (valid, view, conf, fewer)) =
      rw valid (confirm-Answered fuel _ s1 (λ d. omega (arith, enough d, fewer d)))
  open_handle-Answered fuel address fd timeout_ms s s1 enough (inr (bad, same)) =
      rw bad (Ends-some Answered _ _ tt)

  mcuco_open-Answered :
      (fuel : ℕ) (path : Option (List ℕ)) (timeout_ms : ℤ) (s : sys.State)
      → IsEnough sys laws fuel s
      → Ends Answered (mcuco_open sys fuel path timeout_ms s)
  unfolding mcuco_open handle_malloc open_port
  mcuco_open-Answered fuel none timeout_ms s enough = Ends-some Answered _ _ tt
  mcuco_open-Answered fuel (some path) timeout_ms s enough = go (sys.malloc s) refl
    where
      go :
          (m : Call ℕ × sys.State)
          → sys.malloc s ≡ m
          → Ends Answered (handle_malloc sys fuel m path timeout_ms)
      go (failed e, s1) h = Ends-some Answered _ _ tt
      go (returned address, s1) h =
          let allocated = laws.malloc_returned s s1 address h in
          open_handle-Answered fuel address _ timeout_ms s1 _
            (λ d. omega (arith, enough d, allocated.1 d)) (uart_open-Opens sys laws path s1)

  -- With enough fuel, where `mcuco_open` gives a handle, the last that its port has taken is the whole
  -- frame of the probe, and the last that it has handed out is an ACK with the four bytes of the
  -- magic, after bytes without a SOF.
  pub mcuco_open-Confirmed :
      (fuel : ℕ) (path : Option (List ℕ)) (timeout_ms : ℤ) (s s' : sys.State) (h : Handle)
      → IsEnough sys laws fuel s
      → mcuco_open sys fuel path timeout_ms s ≡ some (returned h, s')
      → Confirmed h.mcu.fd s'
  mcuco_open-Confirmed fuel path timeout_ms s s' h enough e =
      Ends-at Answered (mcuco_open-Answered fuel path timeout_ms s enough) e

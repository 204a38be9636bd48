-- ===== src/Mcuco/Lifecycle.antt =====
-- What opening and closing a handle do to the descriptors and the heap of the process.
use mcu_co_sdk.Common.{
  ℕ, ◌≤◌, ◌≡◌, refl, sym, ap, ◌∙◌, inl, inr, List, ◌∷◌, Option, none, some, true, false, Bool-cases,
  ◌==◌, ◌!=◌, arith,
}
use mathlib.Core.Path.{subst}
use mcu_co_sdk.Common.Int.{ℤ, neg_part, is_neg}
use mcu_co_sdk.Values.{mcuco_status_ok}
use mcu_co_sdk.Protocol.Commands.Request.{probe}
use mcu_co_sdk.Os.{Call, failed, returned, ◌>>=◌}
use mcu_co_sdk.Os.Ends.{Ends, Ends-at}
use mcu_co_sdk.System.{System}
use mcu_co_sdk.System.Laws.{View, Laws, remove_address}
use mcu_co_sdk.Uart.Opened.{with_fd, IsConfigured, Opens, uart_open-Opens, uart_close-with_fd}
use mcu_co_sdk.CommandTransport.Open.{open_port, close_port}
use mcu_co_sdk.Mcuco.{Mcuco, mcuco_probe}
use mcu_co_sdk.Mcuco.Calls.{call}
use mcu_co_sdk.Mcuco.Handle.{
  Handle, mcuco_open, mcuco_close, handle_malloc, open_handle, confirm, probe_errno,
}
use mcu_co_sdk.Mcuco.Steady.{Steady, IsEnough, call-Steady, Ends-no_result}

module _ (sys : System) (laws : Laws sys) where
  -- The view with one more handle allocated.
  abbrev pub with_address : ℕ → View → View
  with_address p v = record v { allocated = p ∷ v.allocated }

  remove_address-first : (p : ℕ) (ps : List ℕ) → remove_address p (p ∷ ps) ≡ ps
  remove_address-first p ps = let same : (p == p) ≡ true = ground arith in rw same refl

  free-with_address :
      (p : ℕ) (v : View) (s : sys.State)
      → laws.view s ≡ with_address p v
      → laws.view (sys.free p s) ≡ v
  free-with_address p v s h =
      laws.free_view p s
      ∙ ap (λ (w : View). record w { allocated = remove_address p w.allocated }) h
      ∙ ap (λ ps. record v { allocated = ps }) (remove_address-first p v.allocated)

  -- What a handle holds beyond the view before it was opened.
  abbrev pub with_handle : Handle → View → View
  with_handle h v = with_fd sys laws h.mcu.fd (with_address h.address v)

  -- Closing the handle that was opened last closes its descriptor and frees its memory, and nothing
  -- else.
  pub mcuco_close-with_handle :
      (h : Handle) (v : View) (s : sys.State)
      → is_neg h.mcu.fd ≡ false
      → laws.view s ≡ with_handle h v
      → laws.view (mcuco_close sys (some h) s) ≡ v
  unfolding mcuco_close close_port
  mcuco_close-with_handle h v s valid e =
      free-with_address h.address v (close_port sys h.mcu.fd s)
        (uart_close-with_fd sys laws h.mcu.fd (with_address h.address v) s valid e)

  -- Either there is no handle, and the same descriptors are open and the same memory allocated as
  -- before; or there is one on a configured port, and its descriptor and its memory are all that
  -- came to them.
  abbrev pub Opened : ℤ → sys.State → Call Handle × sys.State → Type 0
  Opened timeout_ms s (failed e, s') = laws.view s' ≡ laws.view s
  Opened timeout_ms s (returned h, s') =
      (is_neg h.mcu.fd ≡ false)
      × (h.mcu.timeout_ms ≡ timeout_ms)
      × (laws.view s' ≡ with_handle h (laws.view s))
      × IsConfigured sys laws (laws.terminal h.mcu.fd s')
      × ((d : ℤ) → (laws.port d).supply s' ≤ (laws.port d).supply s)

  abbrev pub OpenEnds : ℤ → sys.State → Option (Call Handle × sys.State) → Type 0
  OpenEnds timeout_ms s = Ends (λ value after. Opened timeout_ms s (value, after))

  probe-Ends :
      (fuel : ℕ) (mcu : Mcuco) (s : sys.State)
      → IsEnough sys laws fuel s
      → Ends (λ _ after. Steady sys laws s after) (mcuco_probe sys.os fuel (some mcu) s)
  unfolding call
  probe-Ends fuel mcu s enough =
      Ends-no_result sys laws fuel (some 0) (mcuco_probe sys.os fuel (some mcu)) s
        (call-Steady sys laws fuel mcu probe 0 s tt enough)

  confirm-OpenEnds :
      (fuel : ℕ) (h : Handle) (s s1 : sys.State)
      → IsEnough sys laws fuel s1
      → Opened h.mcu.timeout_ms s (returned h, s1)
      → OpenEnds h.mcu.timeout_ms s (confirm sys fuel h s1)
  unfolding confirm
  confirm-OpenEnds fuel h s s1 enough (valid, timeout, view, conf, fewer) =
      let e = probe-Ends fuel h.mcu s1 enough in
      let steady = e.holds in
      let still : laws.view e.after ≡ with_handle h (laws.view s) = steady.0.0 ∙ view in
      rw (e.returns, ◌>>=◌)
        (elim (Bool-cases (e.value != mcuco_status_ok)) [
          | inl bad ↦ rw bad (record {
            value = failed (probe_errno sys e.value);
            after = mcuco_close sys (some h) e.after;
            returns = refl;
            holds = mcuco_close-with_handle h (laws.view s) e.after valid still;
          })
          | inr good ↦ rw good (record {
            value = returned h;
            after = e.after;
            returns = refl;
            holds = (
              valid,
              refl,
              still,
              subst (IsConfigured sys laws) (sym (steady.1 h.mcu.fd)) conf,
              λ d. omega (arith, steady.0.1 d, fewer d),
            );
          })
        ])

  open_handle-OpenEnds :
      (fuel address : ℕ) (fd timeout_ms : ℤ) (s s1 s2 : sys.State)
      → IsEnough sys laws fuel s
      → laws.view s1 ≡ with_address address (laws.view s)
      → ((d : ℤ) → (laws.port d).supply s1 ≤ (laws.port d).supply s)
      → Opens sys laws s1 (fd, s2)
      → OpenEnds timeout_ms s (open_handle sys fuel address (fd, s2) timeout_ms)
  unfolding open_handle
  open_handle-OpenEnds fuel address fd timeout_ms s s1 s2 enough view fewer
        (inl (valid, opened, conf, fewer2)) =
      let h : Handle = record {
        address = address;
        mcu = record { fd = fd; timeout_ms = timeout_ms };
      } in
      rw valid (
        confirm-OpenEnds fuel h s s2 (λ d. omega (arith, enough d, fewer d, fewer2 d))
          (
            valid,
            refl,
            opened ∙ ap (with_fd sys laws fd) view,
            conf,
            λ d. omega (arith, fewer d, fewer2 d),
          ))
  open_handle-OpenEnds fuel address fd timeout_ms s s1 s2 enough view fewer (inr (bad, same)) =
      rw bad (record {
        value = failed (neg_part fd);
        after = sys.free address s2;
        returns = refl;
        holds = free-with_address address (laws.view s) s2 (same ∙ view);
      })

  -- With enough fuel, opening a handle ends. Without a handle, after an error of the system, a
  -- refused configuration or a device that did not answer the probe as it should, exactly the
  -- descriptors are open and the memory is allocated that were so before. With a handle, its port
  -- is configured and claimed, and one descriptor and one allocation have come to them.
  pub mcuco_open-OpenEnds :
      (fuel : ℕ) (path : Option (List ℕ)) (timeout_ms : ℤ) (s : sys.State)
      → IsEnough sys laws fuel s
      → OpenEnds timeout_ms s (mcuco_open sys fuel path timeout_ms s)
  unfolding mcuco_open handle_malloc open_port
  mcuco_open-OpenEnds fuel none timeout_ms s enough = record {
    value = failed sys.einval;
    after = s;
    returns = refl;
    holds = refl;
  }
  mcuco_open-OpenEnds fuel (some path) timeout_ms s enough = go (sys.malloc s) refl
    where
      go :
          (m : Call ℕ × sys.State)
          → sys.malloc s ≡ m
          → OpenEnds timeout_ms s (handle_malloc sys fuel m path timeout_ms)
      go (failed e, s1) h =
          let quiet = laws.malloc_failed s s1 e h in
          record { value = failed e; after = s1; returns = refl; holds = quiet.0 }
      go (returned address, s1) h =
          let allocated = laws.malloc_returned s s1 address h in
          let opened = open_port sys path s1 in
          open_handle-OpenEnds fuel address opened.0 timeout_ms s s1 opened.1 enough allocated.0
            allocated.1 (uart_open-Opens sys laws path s1)

  -- Closing a handle that was just opened gives back the descriptors and the memory from before.
  pub mcuco_close-mcuco_open :
      (fuel : ℕ) (path : Option (List ℕ)) (timeout_ms : ℤ) (s s' : sys.State) (h : Handle)
      → mcuco_open sys fuel path timeout_ms s ≡ some (returned h, s')
      → IsEnough sys laws fuel s
      → laws.view (mcuco_close sys (some h) s') ≡ laws.view s
  mcuco_close-mcuco_open fuel path timeout_ms s s' h e enough =
      let opened =
        Ends-at (λ value after. Opened timeout_ms s (value, after))
          (mcuco_open-OpenEnds fuel path timeout_ms s enough) e in
      mcuco_close-with_handle h (laws.view s) s' opened.0 opened.2

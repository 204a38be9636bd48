-- ===== src/Uart/Rounds.antt =====
-- One round of the loop of `uart_read`.
use mcu_co_sdk.Common.{ℕ, ◌+◌, ◌-◌, ◌≤◌, ◌<◌, ◌≡◌, refl, sym, ap, ◌∙◌, inl, inr, arith}
use mcu_co_sdk.Common.{List, [], ◌∷◌, true, false, ◌||◌, ◌==◌, length}
use mcu_co_sdk.Common.{Bool-cases, overwrite, overwrite-nil}
use mcu_co_sdk.Common.Int.{ℤ, neg_ℕ, is_neg, is_nonpos, ◌-ℤ◌, to_int}
use mcu_co_sdk.Os.{Call, failed, returned, Polled, poll_failed, no_event, event, Os, Port}
use mcu_co_sdk.Uart.{ReadRound, again, stop, handle_read, handle_poll, read_round, now_ms}
use mcu_co_sdk.Uart.Trace.{
  is_neg-neg_ℕ, Handed, Handed-trans, Handed-nothing, Handed-now_ms, polled,
}

module _ (os : Os) (fd : ℤ) (port : Port os fd) where
  module _ (at len : ℕ) (deadline_ms : ℤ) where
    -- A round of the loop stops with an error, or goes on with more bytes or with less to come.
    pub data RoundOk (total : ℕ) (buf : List ℕ) (s : os.State) (round : ReadRound os) : Type 0 where
      stops :
          (r : ℤ) (s' : os.State)
          → round ≡ stop r buf s'
          → is_neg r ≡ true
          → Handed os fd port s s' []
          → RoundOk total buf s round
      goes_on :
          (bs : List ℕ) (s' : os.State)
          → round ≡ again (total + length bs) (overwrite buf (at + total) bs) s'
          → Handed os fd port s s' bs
          → length bs ≤ len - total
          → port.supply s' < port.supply s
          → RoundOk total buf s round

    again_nothing :
        (total : ℕ) (buf : List ℕ) (s s' : os.State)
        → Handed os fd port s s' []
        → port.supply s' < port.supply s
        → RoundOk total buf s (again total buf s')
    again_nothing total buf s s' h less =
        goes_on [] s'
          (ap (λ (n : ℕ). again n buf s') (omega arith)
            ∙ ap (λ t. again (total + 0) t s') (sym (overwrite-nil buf (at + total))))
          h (omega arith) less

    handle_read-RoundOk :
        (total : ℕ) (buf : List ℕ) (s : os.State) (c : Call (List ℕ) × os.State)
        → os.read fd (len - total) s ≡ c
        → RoundOk total buf s (handle_read os fd at len deadline_ms total buf c)
    unfolding handle_read
    handle_read-RoundOk total buf s (failed errno, s') e =
        let law = port.read_failed (len - total) s s' errno e in
        let sent = ap (λ c. port.sent c.1) (sym e) ∙ port.read_sent (len - total) s in
        let handed = Handed-nothing os fd port law.1 sent law.2 in
        elim (Bool-cases (errno == os.eintr || errno == os.eagain)) [
          | inl retry ↦ rw retry (
              again_nothing total buf s s' handed
                (port.read_interrupted (len - total) s s' errno e (ground arith)))
          | inr fatal ↦ rw fatal (stops (neg_ℕ errno) s' refl (is_neg-neg_ℕ errno law.0) handed)
        ]
    handle_read-RoundOk total buf s (returned [], s') e =
        let law = port.read_returned (len - total) s s' [] e in
        let sent = ap (λ c. port.sent c.1) (sym e) ∙ port.read_sent (len - total) s in
        stops (neg_ℕ os.enotconn) s' refl (is_neg-neg_ℕ os.enotconn port.enotconn_pos)
          (record { received = law.0; sent = sent; supply = law.3; bytes = tt })
    handle_read-RoundOk total buf s (returned (b ∷ bs), s') e =
        let law = port.read_returned (len - total) s s' (b ∷ bs) e in
        let sent = ap (λ c. port.sent c.1) (sym e) ∙ port.read_sent (len - total) s in
        goes_on (b ∷ bs) s' refl
          (record { received = law.0; sent = sent; supply = law.3; bytes = law.2 }) law.1
          (omega (arith, law.3))

    RoundOk-after :
        (total : ℕ) (buf : List ℕ) (s t : os.State) {round : ReadRound os}
        → Handed os fd port s t []
        → RoundOk total buf t round
        → RoundOk total buf s round
    RoundOk-after total buf s t h (stops r s' e n k) = stops r s' e n (Handed-trans os fd port h k)
    RoundOk-after total buf s t h (goes_on bs s' e k fits less) =
        goes_on bs s' e (Handed-trans os fd port h k) fits (omega (arith, h.supply))

    handle_poll-RoundOk :
        (total : ℕ) (buf : List ℕ) (t : ℤ) (s : os.State) (p : Polled × os.State)
        → os.poll fd t s ≡ p
        → RoundOk total buf s (handle_poll os fd at len deadline_ms total buf p)
    unfolding handle_poll
    handle_poll-RoundOk total buf t s (poll_failed errno, s') e =
        let handed = polled os fd port t s (poll_failed errno, s') e in
        elim (Bool-cases (errno == os.eintr)) [
          | inl retry ↦ rw retry (
              again_nothing total buf s s' handed (
                port.poll_interrupted t s s'
                  (e ∙ ap (λ (n : ℕ). (poll_failed n, s')) (ground arith))))
          | inr fatal ↦ rw fatal (
              stops (neg_ℕ errno) s' refl (is_neg-neg_ℕ errno (port.poll_errno t s s' errno e))
                handed)
        ]
    handle_poll-RoundOk total buf t s (no_event, s') e =
        stops (neg_ℕ os.etimedout) s' refl (is_neg-neg_ℕ os.etimedout port.etimedout_pos)
          (polled os fd port t s (no_event, s') e)
    handle_poll-RoundOk total buf t s (event false, s') e =
        stops (neg_ℕ os.enotconn) s' refl (is_neg-neg_ℕ os.enotconn port.enotconn_pos)
          (polled os fd port t s (event false, s') e)
    handle_poll-RoundOk total buf t s (event true, s') e =
        RoundOk-after total buf s s' (polled os fd port t s (event true, s') e)
          (handle_read-RoundOk total buf s' (os.read fd (len - total) s') refl)

    pub read_round-RoundOk :
        (total : ℕ) (buf : List ℕ) (s : os.State)
        → RoundOk total buf s (read_round os fd at len deadline_ms total buf s)
    unfolding read_round
    read_round-RoundOk total buf s =
        let now = (now_ms os s).0 in
        let s' = (now_ms os s).1 in
        let ticked = Handed-now_ms os fd port s in
        elim (Bool-cases (is_nonpos (deadline_ms -ℤ now))) [
          | inl late ↦ rw late (
              stops (neg_ℕ os.etimedout) s' refl (is_neg-neg_ℕ os.etimedout port.etimedout_pos)
                ticked)
          | inr early ↦ rw early (
              RoundOk-after total buf s s' ticked
                (handle_poll-RoundOk total buf (to_int (deadline_ms -ℤ now)) s' _ refl))
        ]

-- ===== src/CommandTransport/Exact.antt =====
-- `read_exactly`, in terms of what the port hands out.
use mcu_co_sdk.Common.{ℕ, zero, suc, ◌+◌, ◌<◌, ◌≡◌, refl, sym, ap, ◌∙◌, ◌⊎◌, inl, inr, arith}
use mcu_co_sdk.Common.{
  List, [], Option, some, true, false, Bool-cases, overwrite, overwrite-nil, length,
}
use mcu_co_sdk.Common.Int.{ℤ, pos, neg_ℕ, ◌-ℤ◌, is_neg, is_nonpos, eq_ℤ, to_int}
use mcu_co_sdk.Values.{mcuco_status_ok, mcuco_status_err_io, mcuco_status_err_no_response}
use mcu_co_sdk.Os.{Os, Port, ◌>>=◌}
use mcu_co_sdk.Uart.{now_ms}
use mcu_co_sdk.Uart.Trace.{Handed, Handed-trans, Handed-now_ms}
use mcu_co_sdk.Uart.Reads.{uart_read-Reads}
use mcu_co_sdk.CommandTransport.{read_status, read_exactly}

-- The statuses of a link that failed.
abbrev pub IsLinkError : ℕ → Type 0
IsLinkError status = (status ≡ mcuco_status_err_no_response) ⊎ (status ≡ mcuco_status_err_io)

pos-ne-neg : (n k : ℕ) → 0 < k → eq_ℤ (pos n) (neg_ℕ k) ≡ false
pos-ne-neg n zero h = absurd (omega arith)
pos-ne-neg n (suc k) h = refl

module _ (os : Os) (fuel : ℕ) (fd : ℤ) (port : Port os fd) where
  read_status_error : (r : ℤ) → is_neg r ≡ true → IsLinkError (read_status os fuel fd r)
  unfolding read_status
  read_status_error r h = ground arith

  read_status_ok : (n : ℕ) → read_status os fuel fd (pos n) ≡ mcuco_status_ok
  unfolding read_status
  read_status_ok n = rw (pos-ne-neg n os.etimedout port.etimedout_pos)

  -- A read that ended: with success all of its bytes are in the frame, else there were fewer.
  pub record ReadsExactly (frame : List ℕ) (at len : ℕ) (s : os.State)
      (result : Option ((ℕ × List ℕ) × os.State)) : Type 0 where
    pub status : ℕ
    pub bytes : List ℕ
    pub after : os.State
    pub returns : result ≡ some ((status, overwrite frame at bytes), after)
    pub handed : Handed os fd port s after bytes
    pub outcome :
        ((status ≡ mcuco_status_ok) × (length bytes ≡ len))
        ⊎ (IsLinkError status × (length bytes < len))

  pub read_exactly-ReadsExactly :
      (frame : List ℕ) (at len : ℕ) (deadline_ms : ℤ) (s : os.State)
      → 0 < len
      → port.supply s < fuel
      → ReadsExactly frame at len s (read_exactly os fuel fd frame at len deadline_ms s)
  unfolding read_exactly
  read_exactly-ReadsExactly frame at len deadline_ms s want enough =
      let now = (now_ms os s).0 in
      let ticked = Handed-now_ms os fd port s in
      elim (Bool-cases (is_nonpos (deadline_ms -ℤ now))) [
        | inl late ↦ rw late (record {
          status = mcuco_status_err_no_response;
          bytes = [];
          after = (now_ms os s).1;
          returns =
              ap (λ f. some ((mcuco_status_err_no_response, f), (now_ms os s).1))
                (sym (overwrite-nil frame at));
          handed = ticked;
          outcome = inr (inl refl, want);
        })
        | inr early ↦ rw early (
            let r =
              uart_read-Reads os fd port fuel frame at len (to_int (deadline_ms -ℤ now))
                (now_ms os s).1 (omega (arith, ticked.supply)) in
            rw (r.returns, ◌>>=◌)
              (record {
                status = read_status os fuel fd r.value;
                bytes = r.bytes;
                after = r.after;
                returns = refl;
                handed = Handed-trans os fd port ticked r.handed;
                outcome = elim r.outcome [
                  | inl (all, count) ↦
                      inl (ap (read_status os fuel fd) all ∙ read_status_ok (0 + len), count)
                  | inr (n, few) ↦ inr (read_status_error r.value n, few)
                ];
              }))
      ]

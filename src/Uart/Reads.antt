-- ===== src/Uart/Reads.antt =====
-- `uart_read` reads exactly as many bytes as it is asked for, or reports an error, and ends.
use mcu_co_sdk.Common.{
  ℕ, zero, suc, ◌+◌, ◌-◌, ◌≤◌, ◌<◌, ◌≡◌, refl, sym, ap, ◌∙◌, ◌⊎◌, inl, inr, arith,
}
use mcu_co_sdk.Common.{List, [], ◌++◌, Option, some, true, ltb, length}
use mcu_co_sdk.Common.{Bool-cases, overwrite, overwrite-nil, overwrite-append, length-append}
use mcu_co_sdk.Common.Int.{ℤ, pos, is_neg, ◌+ℤ◌}
use mcu_co_sdk.Os.{Os, Port}
use mcu_co_sdk.Uart.{ReadRound, again, stop, read_loop, now_ms, uart_read}
use mcu_co_sdk.Uart.Trace.{Handed, Handed-trans, Handed-nothing, Handed-now_ms}
use mcu_co_sdk.Uart.Rounds.{RoundOk, stops, goes_on, read_round-RoundOk}

module _ (os : Os) (fd : ℤ) (port : Port os fd) where
  -- A read of `want` bytes to `buf + start` that ended: the bytes that the port handed out are in
  -- the array from `start` on and the rest of it is as it was; either all of them came, or there
  -- were fewer and the value is a negative error.
  pub record Reads (buf : List ℕ) (start total want : ℕ) (s : os.State)
      (result : Option ((ℤ × List ℕ) × os.State)) : Type 0 where
    pub value : ℤ
    pub bytes : List ℕ
    pub after : os.State
    pub returns : result ≡ some ((value, overwrite buf start bytes), after)
    pub handed : Handed os fd port s after bytes
    pub outcome :
        ((value ≡ pos (total + want)) × (length bytes ≡ want))
        ⊎ ((is_neg value ≡ true) × (length bytes < want))

  Reads-after :
      (buf : List ℕ) (start total want next wanted from : ℕ) (bs : List ℕ) (s s' : os.State)
      {result : Option ((ℤ × List ℕ) × os.State)}
      → Handed os fd port s s' bs
      → next ≡ start + length bs
      → want ≡ length bs + wanted
      → from ≡ total + length bs
      → Reads (overwrite buf start bs) next from wanted s' result
      → Reads buf start total want s result
  Reads-after buf start total want next wanted from bs s s' h p q t r = record {
    value = r.value;
    bytes = bs ++ r.bytes;
    after = r.after;
    returns =
        r.returns
        ∙ ap (λ b. some ((r.value, b), r.after)) (overwrite-append buf start next bs r.bytes p);
    handed = Handed-trans os fd port h r.handed;
    outcome = elim r.outcome [
      | inl (all, count) ↦
          inl (all ∙ ap (λ (n : ℕ). pos n) (omega arith), omega (arith, length-append bs r.bytes))
      | inr (n, few) ↦ inr (n, omega (arith, length-append bs r.bytes))
    ];
  }

  module _ (at len : ℕ) (deadline_ms : ℤ) (fuel : ℕ) where
    LoopReads : Type 0
    LoopReads =
        (n : ℕ) (b : List ℕ) (s : os.State)
        → n ≤ len
        → port.supply s < fuel
        → Reads b (at + n) n (len - n) s (read_loop os fd at len deadline_ms fuel n b s)

    continue_round :
        (total : ℕ) (buf : List ℕ) (s : os.State) (round : ReadRound os)
        → total < len
        → port.supply s < suc fuel
        → RoundOk os fd port at len deadline_ms total buf s round
        → LoopReads
        → Reads buf (at + total) total (len - total) s (elim round [
          | again n b s' ↦ read_loop os fd at len deadline_ms fuel n b s'
          | stop r b s' ↦ some ((r, b), s')
        ])
    unfolding LoopReads
    continue_round total buf s round h enough (stops r s' e n k) ih = rw e (record {
      value = r;
      bytes = [];
      after = s';
      returns = ap (λ b. some ((r, b), s')) (sym (overwrite-nil buf (at + total)));
      handed = k;
      outcome = inr (n, omega arith);
    })
    continue_round total buf s round h enough (goes_on bs s' e k fits less) ih = rw e (
        Reads-after buf (at + total) total (len - total) (at + (total + length bs))
          (len - (total + length bs)) (total + length bs) bs s s' k (omega arith) (omega arith) refl
          (ih (total + length bs) (overwrite buf (at + total) bs) s' (omega arith) (omega arith)))

  read_loop-Reads :
      (at len : ℕ) (deadline_ms : ℤ) (fuel total : ℕ) (buf : List ℕ) (s : os.State)
      → total ≤ len
      → port.supply s < fuel
      → Reads buf
          (at + total)
          total
          (len - total)
          s
          (read_loop os fd at len deadline_ms fuel total buf s)
  unfolding read_loop LoopReads
  read_loop-Reads at len deadline_ms zero total buf s h enough = absurd (omega arith)
  read_loop-Reads at len deadline_ms (suc fuel) total buf s h enough =
      elim (Bool-cases (ltb total len)) [
        | inl more ↦
            rw (more, read_loop)
              (continue_round at len deadline_ms fuel total buf s _ (ground arith) enough
                (read_round-RoundOk os fd port at len deadline_ms total buf s)
                (read_loop-Reads at len deadline_ms fuel))
        | inr done ↦
            rw (done, read_loop)
              (record {
                value = pos total;
                bytes = [];
                after = s;
                returns = ap (λ b. some ((pos total, b), s)) (sym (overwrite-nil buf (at + total)));
                handed = Handed-nothing os fd port refl refl (omega arith);
                outcome = inl (ap (λ (n : ℕ). pos n) (ground arith), ground arith);
              })
      ]

  -- With fuel for everything that the port can still deliver, `uart_read` ends. It returns `len`
  -- with the next `len` bytes of the port in the buffer, or a negative error after fewer; the bytes
  -- that it took are in the buffer in order, no other part of the array changes, and nothing is
  -- written to the port.
  pub uart_read-Reads :
      (fuel : ℕ) (buf : List ℕ) (at len : ℕ) (timeout_ms : ℤ) (s : os.State)
      → port.supply s < fuel
      → Reads buf at 0 len s (uart_read os fuel fd buf at len timeout_ms s)
  unfolding uart_read
  uart_read-Reads fuel buf at len timeout_ms s enough =
      let ticked = Handed-now_ms os fd port s in
      let start : at + 0 ≡ at = omega arith in
      let r =
        read_loop-Reads at len ((now_ms os s).0 +ℤ timeout_ms) fuel 0 buf (now_ms os s).1
          (omega arith) (omega (arith, ticked.supply)) in
      record {
        value = r.value;
        bytes = r.bytes;
        after = r.after;
        returns = r.returns ∙ ap (λ i. some ((r.value, overwrite buf i r.bytes), r.after)) start;
        handed = Handed-trans os fd port ticked r.handed;
        outcome = elim r.outcome [
          | inl (all, count) ↦ inl (all ∙ ap (λ (n : ℕ). pos n) (omega arith), omega arith)
          | inr (n, few) ↦ inr (n, omega arith)
        ];
      }

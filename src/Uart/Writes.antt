-- ===== src/Uart/Writes.antt =====
-- `uart_write` hands every byte to the port, in order, or reports an error, and ends.
use mcu_co_sdk.Common.{
  ℕ, zero, suc, ◌+◌, ◌-◌, ◌≤◌, ◌<◌, ◌≡◌, refl, sym, ap, ◌∙◌, ◌⊎◌, inl, inr, arith,
}
use mcu_co_sdk.Common.{List, [], ◌++◌, Option, some, true, ◌==◌, ltb, length, take, drop}
use mcu_co_sdk.Common.{Bool-cases, take-take, take-drop-join, length-take, length-drop}
use mathlib.Core.List.{append-nil, append_assoc}
use mcu_co_sdk.Common.Int.{ℤ, pos, neg_ℕ, is_neg}
use mcu_co_sdk.Os.{Call, failed, returned, Os, Port}
use mcu_co_sdk.Uart.{WriteRound, again, stop, handle_write, write_loop, uart_write}
use mcu_co_sdk.Uart.Trace.{is_neg-neg_ℕ}

module _ (os : Os) (fd : ℤ) (port : Port os fd) where
  -- From `s` to `s'` the port has taken `bs` and handed out nothing.
  pub record Taken (s s' : os.State) (bs : List ℕ) : Type 0 where
    pub sent : port.sent s' ≡ port.sent s ++ bs
    pub received : port.received s' ≡ port.received s
    pub supply : port.supply s' ≤ port.supply s

  -- A write of `want` bytes from `buf + start` that ended: the port took the first `count` of them,
  -- all if the value is the whole length and fewer if it is a negative error.
  pub record Writes (buf : List ℕ) (start len : ℕ) (s : os.State) (result : Option (ℤ × os.State))
      : Type 0 where
    pub value : ℤ
    pub count : ℕ
    pub after : os.State
    pub returns : result ≡ some (value, after)
    pub taken : Taken s after (take count (drop start buf))
    pub outcome :
        ((value ≡ pos len) × (start + count ≡ len))
        ⊎ ((is_neg value ≡ true) × (start + count < len))

  Taken-trans :
      {s t u : os.State} (i n m : ℕ) (buf : List ℕ)
      → Taken s t (take n (drop i buf))
      → Taken t u (take m (drop (i + n) buf))
      → Taken s u (take (n + m) (drop i buf))
  Taken-trans {s} i n m buf p q = record {
    sent =
        q.sent
        ∙ ap (λ t. t ++ take m (drop (i + n) buf)) p.sent
        ∙ append_assoc (port.sent s) (take n (drop i buf)) _
        ∙ ap (λ t. port.sent s ++ t) (take-drop-join i n (i + n) m (n + m) buf refl refl);
    received = q.received ∙ p.received;
    supply = omega (arith, p.supply, q.supply);
  }

  module _ (buf : List ℕ) (len : ℕ) (fits : len ≤ length buf) where
    -- A round stops with an error, or goes on with more bytes taken or with a signal used up.
    data WriteOk (total : ℕ) (s : os.State) (round : WriteRound os) : Type 0 where
      stops :
          (r : ℤ) (s' : os.State)
          → round ≡ stop r s'
          → is_neg r ≡ true
          → Taken s s' []
          → WriteOk total s round
      goes_on :
          (n : ℕ) (s' : os.State)
          → round ≡ again (total + n) s'
          → Taken s s' (take n (drop total buf))
          → total + n ≤ len
          → port.supply s' + (len - (total + n)) < port.supply s + (len - total)
          → WriteOk total s round

    handle_write-WriteOk :
        (total : ℕ) (s : os.State) (c : Call ℕ × os.State)
        → total < len
        → os.write fd (take (len - total) (drop total buf)) s ≡ c
        → WriteOk total s (handle_write os total c)
    unfolding handle_write
    handle_write-WriteOk total s (failed errno, s') h e =
        let slice = take (len - total) (drop total buf) in
        let law = port.write_failed slice s s' errno e in
        let same = ap (λ c. port.received c.1) (sym e) ∙ port.write_received slice s in
        let taken : Taken s s' [] = record {
          sent = law.1 ∙ sym (append-nil _);
          received = same;
          supply = law.2;
        } in
        elim (Bool-cases (errno == os.eintr)) [
          | inl retry ↦ rw retry (
              goes_on 0 s' (ap (λ (n : ℕ). again n s') (omega arith)) taken (omega arith) (
                omega (
                  arith,
                  port.write_interrupted slice s s'
                      (e ∙ ap (λ (n : ℕ). (failed n, s')) (ground arith)),
                )))
          | inr fatal ↦ rw fatal (stops (neg_ℕ errno) s' refl (is_neg-neg_ℕ errno law.0) taken)
        ]
    handle_write-WriteOk total s (returned n, s') h e =
        let slice = take (len - total) (drop total buf) in
        let measured : length slice ≡ len - total =
          length-take (len - total) (drop total buf) (omega (arith, length-drop total buf)) in
        let law = port.write_returned slice s s' n e (omega arith) in
        let same = ap (λ c. port.received c.1) (sym e) ∙ port.write_received slice s in
        let sent =
          law.0
          ∙ ap (λ t. port.sent s ++ t)
              (take-take n (len - total) (drop total buf) (omega (arith, law.2))) in
        goes_on n s' refl (record { sent = sent; received = same; supply = law.3 })
          (omega (arith, law.2)) (omega (arith, law.1, law.2, law.3))

    Writes-after :
        (total n : ℕ) (s s' : os.State) {result : Option (ℤ × os.State)}
        → Taken s s' (take n (drop total buf))
        → Writes buf (total + n) len s' result
        → Writes buf total len s result
    Writes-after total n s s' h r = record {
      value = r.value;
      count = n + r.count;
      after = r.after;
      returns = r.returns;
      taken = Taken-trans total n r.count buf h r.taken;
      outcome = elim r.outcome [
        | inl (all, count) ↦ inl (all, omega arith)
        | inr (e, few) ↦ inr (e, omega arith)
      ];
    }

    module _ (fuel : ℕ) where
      LoopWrites : Type 0
      LoopWrites =
          (n : ℕ) (s : os.State)
          → n ≤ len
          → port.supply s + (len - n) < fuel
          → Writes buf n len s (write_loop os fuel fd buf len n s)

      continue_write :
          (total : ℕ) (s : os.State) (round : WriteRound os)
          → total < len
          → port.supply s + (len - total) < suc fuel
          → WriteOk total s round
          → LoopWrites
          → Writes buf total len s (elim round [
            | again n s' ↦ write_loop os fuel fd buf len n s'
            | stop r s' ↦ some (r, s')
          ])
      unfolding LoopWrites
      continue_write total s round h enough (stops r s' e n k) ih = rw e (record {
        value = r;
        count = 0;
        after = s';
        returns = refl;
        taken = k;
        outcome = inr (n, omega arith);
      })
      continue_write total s round h enough (goes_on n s' e k within less) ih =
          rw e (Writes-after total n s s' k (ih (total + n) s' within (omega arith)))

    write_loop-Writes :
        (fuel total : ℕ) (s : os.State)
        → total ≤ len
        → port.supply s + (len - total) < fuel
        → Writes buf total len s (write_loop os fuel fd buf len total s)
    unfolding write_loop LoopWrites
    write_loop-Writes zero total s h enough = absurd (omega arith)
    write_loop-Writes (suc fuel) total s h enough = elim (Bool-cases (ltb total len)) [
      | inl more ↦
          rw (more, write_loop)
            (continue_write fuel total s _ (ground arith) enough
              (handle_write-WriteOk total s _ (ground arith) refl) (write_loop-Writes fuel))
      | inr done ↦
          rw (done, write_loop)
            (record {
              value = pos total;
              count = 0;
              after = s;
              returns = refl;
              taken = record { sent = sym (append-nil _); received = refl; supply = omega arith };
              outcome = inl (ap (λ (n : ℕ). pos n) (ground arith), ground arith);
            })
    ]

  -- A buffer that holds `len` bytes, and fuel for these and for every signal: `uart_write` ends.
  -- It returns `len` when the port has taken these bytes in order, or a negative error when it has
  -- taken fewer; nothing is read.
  pub uart_write-Writes :
      (fuel : ℕ) (buf : List ℕ) (len : ℕ) (s : os.State)
      → len ≤ length buf
      → port.supply s + len < fuel
      → Writes buf 0 len s (uart_write os fuel fd buf len s)
  unfolding uart_write
  uart_write-Writes fuel buf len s fits enough =
      write_loop-Writes buf len fits fuel 0 s (omega arith) (omega arith)

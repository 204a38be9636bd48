-- ===== src/Uart/Frame.antt =====
-- What `uart_read` and `uart_write` leave alone: all that the four system calls leave alone.
use mcu_co_sdk.Common.{
  ℕ, zero, suc, ◌-◌, List, [], ◌∷◌, Option, some, true, false, ltb, ◌==◌, ◌||◌, Bool-cases, inl,
  inr, take, drop,
}
use mcu_co_sdk.Common.Int.{ℤ, ◌-ℤ◌, is_nonpos}
use mcu_co_sdk.Os.{Call, failed, returned, Polled, poll_failed, no_event, event, Os, lift}
use mcu_co_sdk.Os.Keeps.{IsKept, Keeps, Kept}
use mcu_co_sdk.Uart.{
  ReadRound, WriteRound, now_ms, handle_read, handle_poll, read_round, read_loop, uart_read,
  handle_write, write_loop, uart_write,
}

module _ (os : Os) (fd : ℤ) (I : os.State → Type 0) (kept : IsKept os fd I) where
  abbrev ReadKeeps : ReadRound os → Type 0
  ReadKeeps (ReadRound.again n buf s) = I s
  ReadKeeps (ReadRound.stop r buf s) = I s

  abbrev WriteKeeps : WriteRound os → Type 0
  WriteKeeps (WriteRound.again n s) = I s
  WriteKeeps (WriteRound.stop r s) = I s

  now_ms-Keeps : (s : os.State) → I s → I (now_ms os s).1
  unfolding now_ms
  now_ms-Keeps s h = kept.clock_gettime s h

  module _ (at len : ℕ) (deadline_ms : ℤ) where
    handle_read-Keeps :
        (total : ℕ) (buf : List ℕ) (c : Call (List ℕ) × os.State)
        → I c.1
        → ReadKeeps (handle_read os fd at len deadline_ms total buf c)
    unfolding handle_read
    handle_read-Keeps total buf (failed e, s) h =
        elim (Bool-cases (e == os.eintr || e == os.eagain)) [ inl t ↦ rw t h | inr t ↦ rw t h ]
    handle_read-Keeps total buf (returned [], s) h = h
    handle_read-Keeps total buf (returned (b ∷ bs), s) h = h

    handle_poll-Keeps :
        (total : ℕ) (buf : List ℕ) (p : Polled × os.State)
        → I p.1
        → ReadKeeps (handle_poll os fd at len deadline_ms total buf p)
    unfolding handle_poll
    handle_poll-Keeps total buf (poll_failed e, s) h = elim (Bool-cases (e == os.eintr)) [
      | inl t ↦ rw t h
      | inr t ↦ rw t h
    ]
    handle_poll-Keeps total buf (no_event, s) h = h
    handle_poll-Keeps total buf (event false, s) h = h
    handle_poll-Keeps total buf (event true, s) h =
        handle_read-Keeps total buf (os.read fd (len - total) s) (kept.read (len - total) s h)

    read_round-Keeps :
        (total : ℕ) (buf : List ℕ) (s : os.State)
        → I s
        → ReadKeeps (read_round os fd at len deadline_ms total buf s)
    unfolding read_round
    read_round-Keeps total buf s h =
        elim (Bool-cases (is_nonpos (deadline_ms -ℤ (now_ms os s).0))) [
          | inl t ↦ rw t (now_ms-Keeps s h)
          | inr t ↦ rw t (handle_poll-Keeps total buf _ (kept.poll _ _ (now_ms-Keeps s h)))
        ]

    read_loop-Keeps :
        (fuel total : ℕ) (buf : List ℕ) (s : os.State)
        → I s
        → Keeps I (read_loop os fd at len deadline_ms fuel total buf s)
    unfolding read_loop
    read_loop-Keeps zero total buf s h = tt
    read_loop-Keeps (suc fuel) total buf s h = elim (Bool-cases (ltb total len)) [
      | inl more ↦
          rw (more, Keeps)
            (after (read_round os fd at len deadline_ms total buf s)
              (read_round-Keeps total buf s h) (read_loop-Keeps fuel))
      | inr done ↦ rw (done, Keeps) h
    ]
      where
        after :
            (r : ReadRound os)
            → ReadKeeps r
            → ((total : ℕ) (buf : List ℕ) (s : os.State)
                → I s
                → Keeps I (read_loop os fd at len deadline_ms fuel total buf s))
            → Keeps I (elim r as (λ r. Option ((ℤ × List ℕ) × os.State)) [
              | ReadRound.again n b s' ↦ read_loop os fd at len deadline_ms fuel n b s'
              | ReadRound.stop r b s' ↦ some ((r, b), s')
            ])
        after (ReadRound.again n b s') k rest = rest n b s' k
        after (ReadRound.stop r b s') k rest = k

  pub now_ms-Kept : Kept I (lift (now_ms os))
  now_ms-Kept = record { at = now_ms-Keeps }

  pub uart_read-Kept :
      (fuel : ℕ) (buf : List ℕ) (at len : ℕ) (timeout_ms : ℤ)
      → Kept I (uart_read os fuel fd buf at len timeout_ms)
  unfolding uart_read
  uart_read-Kept fuel buf at len timeout_ms = record {
    at = λ s h. read_loop-Keeps at len _ fuel 0 buf _ (now_ms-Keeps s h);
  }

  handle_write-Keeps :
      (total : ℕ) (c : Call ℕ × os.State) → I c.1 → WriteKeeps (handle_write os total c)
  unfolding handle_write
  handle_write-Keeps total (failed e, s) h = elim (Bool-cases (e == os.eintr)) [
    | inl t ↦ rw t h
    | inr t ↦ rw t h
  ]
  handle_write-Keeps total (returned n, s) h = h

  write_loop-Keeps :
      (fuel : ℕ) (buf : List ℕ) (len total : ℕ) (s : os.State)
      → I s
      → Keeps I (write_loop os fuel fd buf len total s)
  unfolding write_loop
  write_loop-Keeps zero buf len total s h = tt
  write_loop-Keeps (suc fuel) buf len total s h = elim (Bool-cases (ltb total len)) [
    | inl more ↦
        rw (more, Keeps)
          (after (handle_write os total (os.write fd (take (len - total) (drop total buf)) s))
            (handle_write-Keeps total _ (kept.write _ s h)) (write_loop-Keeps fuel buf len))
    | inr done ↦ rw (done, Keeps) h
  ]
    where
      after :
          (r : WriteRound os)
          → WriteKeeps r
          → ((total : ℕ) (s : os.State) → I s → Keeps I (write_loop os fuel fd buf len total s))
          → Keeps I (elim r as (λ r. Option (ℤ × os.State)) [
            | WriteRound.again n s' ↦ write_loop os fuel fd buf len n s'
            | WriteRound.stop r s' ↦ some (r, s')
          ])
      after (WriteRound.again n s') k rest = rest n s' k
      after (WriteRound.stop r s') k rest = k

  pub uart_write-Kept : (fuel : ℕ) (buf : List ℕ) (len : ℕ) → Kept I (uart_write os fuel fd buf len)
  unfolding uart_write
  uart_write-Kept fuel buf len = record { at = write_loop-Keeps fuel buf len 0 }

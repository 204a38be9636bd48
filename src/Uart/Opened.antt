-- ===== src/Uart/Opened.antt =====
-- What `uart_open` leaves: a configured port, or nothing.
use mcu_co_sdk.Common.{
  ℕ, ◌≤◌, ◌<◌, ◌≡◌, refl, sym, ap, ◌∙◌, ◌⊎◌, inl, inr, arith, List, ◌∷◌, true, false, bit_and,
  bit_or, ◌!=◌, Bool-cases, not, if◌then◌else◌,
}
use mathlib.Core.Path.{subst}
use mcu_co_sdk.Common.Int.{ℤ, pos, negsuc, neg_ℕ, is_neg, eq_ℤ, eq_ℤ_iff}
use mcu_co_sdk.Os.{Call, failed, returned}
use mcu_co_sdk.System.{Termios, System}
use mcu_co_sdk.System.Laws.{View, Terminal, Quiet, Laws, remove_fd}
use mcu_co_sdk.Uart.Trace.{is_neg-neg_ℕ}
use mcu_co_sdk.Uart.Open.{
  or_errno, raw_settings, claim_port, check_settings, configure_port, configure_or_close,
  handle_open, open_flags, uart_open, uart_close,
}

module _ (sys : System) (laws : Laws sys) where
  abbrev pub Calm : sys.State → sys.State → Type 0
  Calm = Quiet laws.view (λ fd. (laws.port fd).supply)

  pub Calm-refl : (s : sys.State) → Calm s s
  Calm-refl s = (refl, λ fd. omega arith)

  pub Calm-trans : {s t u : sys.State} → Calm s t → Calm t u → Calm s u
  Calm-trans p q = (q.0 ∙ p.0, λ fd. omega (arith, p.1 fd, q.1 fd))

  -- Eight data bits, no parity and one stop bit at 115200 baud, claimed for this process, and with
  -- reads and writes that block.
  pub record IsConfigured (t : Terminal) : Type 0 where
    pub data_bits : bit_and t.settings.c_cflag sys.csize ≡ sys.cs8
    pub no_parity : bit_and t.settings.c_cflag (bit_or sys.parenb sys.cstopb) ≡ 0
    pub speed : sys.cfgetospeed t.settings ≡ sys.b115200
    pub claimed : t.exclusive ≡ true
    pub blocking : t.flags ≡ 0

  -- What a step of the configuration leaves: the terminal configured, or an error.
  abbrev Configures : ℤ → sys.State → ℤ × sys.State → Type 0
  Configures fd s (status, s') =
      Calm s s' × (((status ≡ pos 0) × IsConfigured (laws.terminal fd s')) ⊎ (is_neg status ≡ true))

  Configures-or_errno :
      {A : Type 0} (fd : ℤ) (s : sys.State) (c : Call A × sys.State)
      (rest : A → sys.State → ℤ × sys.State)
      → Calm s c.1
      → ((e : ℕ) → c.0 ≡ failed e → 0 < e)
      → ((a : A) → c.0 ≡ returned a → Configures fd c.1 (rest a c.1))
      → Configures fd s (or_errno c rest)
  Configures-or_errno fd s (failed e, s') rest calm positive goes =
      (calm, inr (is_neg-neg_ℕ e (positive e refl)))
  Configures-or_errno fd s (returned a, s') rest calm positive goes =
      let next = goes a refl in (Calm-trans calm next.0, next.1)

  -- The settings that the checks let through.
  abbrev IsChecked : Termios → Type 0
  IsChecked t =
      (bit_and t.c_cflag sys.csize ≡ sys.cs8)
      × (bit_and t.c_cflag (bit_or sys.parenb sys.cstopb) ≡ 0)
      × (sys.cfgetospeed t ≡ sys.b115200)

  claim_port-Configures :
      (fd : ℤ) (s : sys.State)
      → IsChecked (laws.terminal fd s).settings
      → Configures fd s (claim_port sys fd s)
  unfolding claim_port
  claim_port-Configures fd s h =
      Configures-or_errno fd s (sys.ioctl_tiocexcl fd s) _ (laws.ioctl_quiet fd s)
        (λ e k. laws.ioctl_failed fd s _ e (ap (λ c. (c, (sys.ioctl_tiocexcl fd s).1)) k))
        (λ a k.
          let s1 = (sys.ioctl_tiocexcl fd s).1 in
          let claimed = laws.ioctl_returned fd s s1 (ap (λ c. (c, s1)) k) in
          let s2 = sys.tcflush fd s1 in
          let s3 = (sys.fcntl_setfl fd 0 s2).1 in
          let blocking : Configures fd s2 (or_errno (sys.fcntl_setfl fd 0 s2) (λ _ s. (pos 0, s))) =
            Configures-or_errno fd s2 (sys.fcntl_setfl fd 0 s2) _ (laws.fcntl_quiet fd 0 s2)
              (λ e k. laws.fcntl_failed fd 0 s2 _ e (ap (λ c. (c, s3)) k))
              (λ a k.
                let set = laws.fcntl_returned fd 0 s2 s3 (ap (λ c. (c, s3)) k) in
                let end =
                  set
                  ∙ ap (λ (t : Terminal). record t { flags = 0 })
                      (laws.tcflush_terminal fd s1 ∙ claimed) in
                ((refl, λ fd. omega arith), inl (refl, conf (laws.terminal fd s) h (sym end)))) in
          (Calm-trans (laws.tcflush_quiet fd s1) blocking.0, blocking.1))
    where
      conf :
          (t : Terminal) {u : Terminal}
          → IsChecked t.settings
          → record t { exclusive = true; flags = 0 } ≡ u
          → IsConfigured u
      conf t h e = subst IsConfigured e (record {
        data_bits = h.0;
        no_parity = h.1;
        speed = h.2;
        claimed = refl;
        blocking = refl;
      })

  check_settings-Configures :
      (fd : ℤ) (actual : Termios) (s : sys.State)
      → actual ≡ (laws.terminal fd s).settings
      → Configures fd s (check_settings sys fd actual s)
  unfolding check_settings
  check_settings-Configures fd actual s same =
      elim (Bool-cases (bit_and actual.c_cflag sys.csize != sys.cs8)) [
        | inl t ↦ rw t refused
        | inr data_bits ↦
            elim (Bool-cases (bit_and actual.c_cflag (bit_or sys.parenb sys.cstopb) != 0)) [
              | inl t ↦ rw (data_bits, t) refused
              | inr parity ↦ elim (Bool-cases (sys.cfgetospeed actual != sys.b115200)) [
                | inl t ↦ rw (data_bits, parity, t) refused
                | inr speed ↦
                    rw (data_bits, parity, speed)
                      (claim_port-Configures fd s
                        (subst IsChecked same (ground arith, ground arith, ground arith)))
              ]
            ]
      ]
    where
      refused : Configures fd s (neg_ℕ sys.einval, s)
      refused = ((refl, λ fd. omega arith), inr (is_neg-neg_ℕ sys.einval laws.einval_pos))

  configure_port-Configures : (fd : ℤ) (s : sys.State) → Configures fd s (configure_port sys fd s)
  unfolding configure_port
  configure_port-Configures fd s =
      Configures-or_errno fd s (sys.tcgetattr fd s) _ (laws.tcgetattr_quiet fd s)
        (λ e k. laws.tcgetattr_failed fd s _ e (pair k))
        (λ tty k.
          Configures-or_errno fd _ (sys.cfsetispeed (raw_settings sys tty) sys.b115200, _) _ still
            (laws.cfsetispeed_failed (raw_settings sys tty) sys.b115200)
            (λ tty1 k1.
              Configures-or_errno fd _ (sys.cfsetospeed tty1 sys.b115200, _) _ still
                (laws.cfsetospeed_failed tty1 sys.b115200)
                (λ tty2 k2.
                  Configures-or_errno fd _ (sys.tcsetattr fd tty2 _) _
                    (laws.tcsetattr_quiet fd tty2 _)
                    (λ e k3. laws.tcsetattr_failed fd tty2 _ _ e (pair k3))
                    (λ a k3.
                      Configures-or_errno fd _ (sys.tcgetattr fd _) _ (laws.tcgetattr_quiet fd _)
                        (λ e k4. laws.tcgetattr_failed fd _ _ e (pair k4))
                        (λ actual k4.
                          check_settings-Configures fd actual _
                            (laws.tcgetattr_returned fd _ _ actual (pair k4)))))))
    where
      still : {s : sys.State} → Calm s s
      still = (refl, λ fd. omega arith)

      pair : {A : Type 0} {c : Call A × sys.State} {a : Call A} → c.0 ≡ a → c ≡ (a, c.1)
      pair {c = c} k = ap (λ x. (x, c.1)) k

  -- The view with one more open descriptor.
  abbrev pub with_fd : ℤ → View → View
  with_fd fd v = record v { descriptors = fd ∷ v.descriptors }

  pub remove_fd-first : (fd : ℤ) (ds : List ℤ) → remove_fd fd (fd ∷ ds) ≡ ds
  remove_fd-first fd ds = let same : eq_ℤ fd fd ≡ true = (eq_ℤ_iff fd fd).1 refl in rw same refl

  -- Closing what was opened last gives back the descriptors from before.
  pub close-with_fd :
      (fd : ℤ) (v : View) (s : sys.State)
      → laws.view s ≡ with_fd fd v
      → laws.view (sys.close fd s) ≡ v
  close-with_fd fd v s h =
      laws.close_view fd s
      ∙ ap (λ (w : View). record w { descriptors = remove_fd fd w.descriptors }) h
      ∙ ap (λ ds. record v { descriptors = ds }) (remove_fd-first fd v.descriptors)

  -- The port is open and configured; or there is an error, and everything is closed again.
  abbrev pub Opens : sys.State → ℤ × sys.State → Type 0
  Opens s (fd, s') =
      ((is_neg fd ≡ false)
        × (laws.view s' ≡ with_fd fd (laws.view s))
        × IsConfigured (laws.terminal fd s')
        × ((d : ℤ) → (laws.port d).supply s' ≤ (laws.port d).supply s))
      ⊎ ((is_neg fd ≡ true) × (laws.view s' ≡ laws.view s))

  configure_or_close-Opens :
      (fd : ℤ) (s s1 : sys.State)
      → is_neg fd ≡ false
      → laws.view s1 ≡ with_fd fd (laws.view s)
      → ((d : ℤ) → (laws.port d).supply s1 ≤ (laws.port d).supply s)
      → Opens s (configure_or_close sys fd s1)
  unfolding configure_or_close
  configure_or_close-Opens fd s s1 valid opened fewer =
      go (configure_port sys fd s1).0 (configure_port sys fd s1).1 (configure_port-Configures fd s1)
    where
      go :
          (status : ℤ) (s2 : sys.State)
          → Configures fd s1 (status, s2)
          → Opens s (if not (eq_ℤ status (pos 0)) then (status, sys.close fd s2) else (fd, s2))
      go status s2 (calm, inl (ok, conf)) =
          let same : eq_ℤ status (pos 0) ≡ true = (eq_ℤ_iff status (pos 0)).1 ok in
          rw same (inl (valid, calm.0 ∙ opened, conf, λ d. omega (arith, calm.1 d, fewer d)))
      go (pos n) s2 (calm, inr bad) = absurd (ground arith)
      go (negsuc n) s2 (calm, inr bad) =
          inr (refl, close-with_fd fd (laws.view s) s2 (calm.0 ∙ opened))

  -- Opening a port ends in one of two ways. Either it gives a descriptor that is open and no other
  -- has been opened or closed, its terminal has 8N1 at 115200 baud, is claimed for this process and
  -- blocks, as the kernel reports it; or it gives a negative number, and every descriptor that it
  -- opened is closed again.
  pub uart_open-Opens : (path : List ℕ) (s : sys.State) → Opens s (uart_open sys path s)
  unfolding uart_open handle_open
  uart_open-Opens path s = go (sys.open_path path (open_flags sys) s) refl
    where
      go :
          (c : Call ℤ × sys.State)
          → sys.open_path path (open_flags sys) s ≡ c
          → Opens s (handle_open sys c)
      go (failed e, s1) h =
          let quiet = laws.open_failed path (open_flags sys) s s1 e h in
          inr (is_neg-neg_ℕ e quiet.0, quiet.1.0)
      go (returned fd, s1) h =
          let opened = laws.open_returned path (open_flags sys) s s1 fd h in
          configure_or_close-Opens fd s s1 opened.0 opened.1 opened.2

  -- Closing the descriptor that was opened last gives back the descriptors from before.
  pub uart_close-with_fd :
      (fd : ℤ) (v : View) (s : sys.State)
      → is_neg fd ≡ false
      → laws.view s ≡ with_fd fd v
      → laws.view (uart_close sys fd s) ≡ v
  unfolding uart_close
  uart_close-with_fd fd v s valid h = rw valid (close-with_fd fd v s h)

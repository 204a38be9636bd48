-- ===== src/System/Laws.antt =====
-- What is documented of the calls of `System`: which descriptors are open and which handles
-- allocated before and after each, and what they do to a terminal.
use mcu_co_sdk.Common.{ℕ, ◌≤◌, ◌<◌, ◌≡◌, List, [], ◌∷◌, Bool, true, false, ◌==◌, if◌then◌else◌}
use mcu_co_sdk.Common.Int.{ℤ, is_neg, eq_ℤ}
use mcu_co_sdk.Os.{failed, returned, Port}
use mcu_co_sdk.System.{Termios, Stream, System}

-- What the process holds.
pub record View : Type 0 where
  pub descriptors : List ℤ
  pub allocated : List ℕ

-- What the kernel keeps of a terminal: its settings, whether it is claimed by `TIOCEXCL`, and the
-- status flags of the descriptor.
pub record Terminal : Type 0 where
  pub settings : Termios
  pub exclusive : Bool
  pub flags : ℕ

abbrev pub remove_fd : ℤ → List ℤ → List ℤ
remove_fd fd [] = []
remove_fd fd (x ∷ xs) = let rest = remove_fd fd xs in if eq_ℤ fd x then xs else x ∷ rest

abbrev pub remove_address : ℕ → List ℕ → List ℕ
remove_address p [] = []
remove_address p (x ∷ xs) = let rest = remove_address p xs in if p == x then xs else x ∷ rest

-- Nothing is opened, closed, allocated or freed, and no more is to come on any descriptor.
abbrev pub Quiet : {S : Type 0} → (S → View) → (ℤ → S → ℕ) → S → S → Type 0
Quiet view supply s s' = (view s' ≡ view s) × ((fd : ℤ) → supply fd s' ≤ supply fd s)

-- Nor does a terminal change.
abbrev pub Passive : {S : Type 0} → (S → View) → (ℤ → S → ℕ) → (ℤ → S → Terminal) → S → S → Type 0
Passive view supply terminal s s' =
    Quiet view supply s s' × ((fd : ℤ) → terminal fd s' ≡ terminal fd s)

pub record Laws (sys : System) : Type 0 where
  pub port : (fd : ℤ) → Port sys.os fd
  pub view : sys.State → View
  pub terminal : ℤ → sys.State → Terminal
  pub einval_pos : 0 < sys.einval
  -- The calls on an open descriptor.
  pub clock_passive :
      (s : sys.State) → Passive view (λ fd. (port fd).supply) terminal s (sys.os.clock_gettime s).1
  pub poll_passive :
      (fd t : ℤ) (s : sys.State)
      → Passive view (λ fd. (port fd).supply) terminal s (sys.os.poll fd t s).1
  pub read_passive :
      (fd : ℤ) (n : ℕ) (s : sys.State)
      → Passive view (λ fd. (port fd).supply) terminal s (sys.os.read fd n s).1
  pub write_passive :
      (fd : ℤ) (bs : List ℕ) (s : sys.State)
      → Passive view (λ fd. (port fd).supply) terminal s (sys.os.write fd bs s).1
  -- Opening and closing.
  pub open_failed :
      (path : List ℕ) (flags : ℕ) (s s' : sys.State) (e : ℕ)
      → sys.open_path path flags s ≡ (failed e, s')
      → (0 < e) × Quiet view (λ fd. (port fd).supply) s s'
  pub open_returned :
      (path : List ℕ) (flags : ℕ) (s s' : sys.State) (fd : ℤ)
      → sys.open_path path flags s ≡ (returned fd, s')
      → (is_neg fd ≡ false)
        × (view s' ≡ record (view s) { descriptors = fd ∷ (view s).descriptors })
        × ((fd : ℤ) → (port fd).supply s' ≤ (port fd).supply s)
  pub close_view :
      (fd : ℤ) (s : sys.State)
      → view (sys.close fd s) ≡ record (view s) { descriptors = remove_fd fd (view s).descriptors }
  -- Terminals.
  pub tcgetattr_quiet :
      (fd : ℤ) (s : sys.State) → Quiet view (λ fd. (port fd).supply) s (sys.tcgetattr fd s).1
  pub tcgetattr_failed :
      (fd : ℤ) (s s' : sys.State) (e : ℕ) → sys.tcgetattr fd s ≡ (failed e, s') → 0 < e
  pub tcgetattr_returned :
      (fd : ℤ) (s s' : sys.State) (t : Termios)
      → sys.tcgetattr fd s ≡ (returned t, s')
      → t ≡ (terminal fd s').settings
  pub tcsetattr_quiet :
      (fd : ℤ) (t : Termios) (s : sys.State)
      → Quiet view (λ fd. (port fd).supply) s (sys.tcsetattr fd t s).1
  pub tcsetattr_failed :
      (fd : ℤ) (t : Termios) (s s' : sys.State) (e : ℕ)
      → sys.tcsetattr fd t s ≡ (failed e, s')
      → 0 < e
  pub cfsetispeed_failed : (t : Termios) (speed e : ℕ) → sys.cfsetispeed t speed ≡ failed e → 0 < e
  pub cfsetospeed_failed : (t : Termios) (speed e : ℕ) → sys.cfsetospeed t speed ≡ failed e → 0 < e
  pub ioctl_quiet :
      (fd : ℤ) (s : sys.State) → Quiet view (λ fd. (port fd).supply) s (sys.ioctl_tiocexcl fd s).1
  pub ioctl_failed :
      (fd : ℤ) (s s' : sys.State) (e : ℕ) → sys.ioctl_tiocexcl fd s ≡ (failed e, s') → 0 < e
  pub ioctl_returned :
      (fd : ℤ) (s s' : sys.State)
      → sys.ioctl_tiocexcl fd s ≡ (returned tt, s')
      → terminal fd s' ≡ record (terminal fd s) { exclusive = true }
  pub tcflush_quiet :
      (fd : ℤ) (s : sys.State) → Quiet view (λ fd. (port fd).supply) s (sys.tcflush fd s)
  pub tcflush_terminal : (fd : ℤ) (s : sys.State) → terminal fd (sys.tcflush fd s) ≡ terminal fd s
  pub fcntl_quiet :
      (fd : ℤ) (flags : ℕ) (s : sys.State)
      → Quiet view (λ fd. (port fd).supply) s (sys.fcntl_setfl fd flags s).1
  pub fcntl_failed :
      (fd : ℤ) (flags : ℕ) (s s' : sys.State) (e : ℕ)
      → sys.fcntl_setfl fd flags s ≡ (failed e, s')
      → 0 < e
  pub fcntl_returned :
      (fd : ℤ) (flags : ℕ) (s s' : sys.State)
      → sys.fcntl_setfl fd flags s ≡ (returned tt, s')
      → terminal fd s' ≡ record (terminal fd s) { flags = flags }
  -- The heap.
  pub malloc_failed :
      (s s' : sys.State) (e : ℕ)
      → sys.malloc s ≡ (failed e, s')
      → Quiet view (λ fd. (port fd).supply) s s'
  pub malloc_returned :
      (s s' : sys.State) (p : ℕ)
      → sys.malloc s ≡ (returned p, s')
      → (view s' ≡ record (view s) { allocated = p ∷ (view s).allocated })
        × ((fd : ℤ) → (port fd).supply s' ≤ (port fd).supply s)
  pub free_view :
      (p : ℕ) (s : sys.State)
      → view (sys.free p s) ≡ record (view s) { allocated = remove_address p (view s).allocated }
  -- Output.
  pub print_quiet :
      (stream : Stream) (text : List ℕ) (s : sys.State)
      → Quiet view (λ fd. (port fd).supply) s (sys.print stream text s)

-- ===== src/Examples/Desktop.antt =====
-- A simulated `System` round the simulated port: every path opens the port but the empty one, the
-- heap has one address, and a terminal takes all the settings that it is given. The numbers are
-- those of Linux.
use mcu_co_sdk.Common.{
  ℕ, ◌≡◌, refl, sym, ap, ◌≤◌, ◌<◌, List, [], ◌∷◌, ◌++◌, length, true, false, arith,
}
use mathlib.Core.Path.{subst}
use mcu_co_sdk.Common.Int.{ℤ, pos, negsuc, is_neg}
use mcu_co_sdk.Os.{Call, failed, returned}
use mcu_co_sdk.System.{System}
use mcu_co_sdk.System.Laws.{View, Terminal, Laws, remove_fd, remove_address}
use mcu_co_sdk.Common.{bit_and}
use mcu_co_sdk.Uart.Settings.{TermiosLaws}
use mcu_co_sdk.Uart.Opened.{Calm}
use mcu_co_sdk.Cli.Words.{Word}
use mcu_co_sdk.Cli.Options.{Getopt, GetoptLaws}
use mcu_co_sdk.Examples.Host.{cooked}
use mcu_co_sdk.Examples.Device.{Wire, wire, wire_port, value_or, failed_ne, drop_le, wire_supply}

abbrev set_view : View → Wire → Wire
set_view v w = record w { host = record w.host { view = v } }

abbrev set_terminal : Terminal → Wire → Wire
set_terminal t w = record w { host = record w.host { terminal = t } }

abbrev open_wire : List ℕ → Wire → Call ℤ × Wire
open_wire [] w = (failed 2, w)
open_wire (c ∷ path) w = (
  returned (pos 3),
  set_view (record w.host.view { descriptors = pos 3 ∷ w.host.view.descriptors }) w,
)

abbrev close_wire : ℤ → Wire → Wire
close_wire fd w =
    set_view (record w.host.view { descriptors = remove_fd fd w.host.view.descriptors }) w

abbrev malloc_wire : Wire → Call ℕ × Wire
malloc_wire w =
    (returned 4096, set_view (record w.host.view { allocated = 4096 ∷ w.host.view.allocated }) w)

abbrev free_wire : ℕ → Wire → Wire
free_wire p w =
    set_view (record w.host.view { allocated = remove_address p w.host.view.allocated }) w

abbrev pub desktop : System
desktop = record {
  os = wire;
  einval = 22;
  eproto = 71;
  o_rdwr = 2;
  o_noctty = 0x100;
  o_nonblock = 0x800;
  clocal = 0x800;
  cread = 0x80;
  parenb = 0x100;
  cstopb = 0x40;
  crtscts = 0x80000000;
  csize = 0x30;
  cs8 = 0x30;
  b115200 = 0x1002;
  vmin = 6;
  vtime = 5;
  open_path = λ path flags w. open_wire path w;
  close = close_wire;
  tcgetattr = λ fd w. (returned w.host.terminal.settings, w);
  tcsetattr = λ fd t w. (returned tt, set_terminal (record w.host.terminal { settings = t }) w);
  cfmakeraw = λ t. record t { c_iflag = 0; c_oflag = 4; c_cflag = 0xbd; c_lflag = 0x8a30 };
  cfsetispeed = λ t speed. returned (record t { c_ispeed = speed });
  cfsetospeed = λ t speed. returned (record t { c_ospeed = speed });
  cfgetospeed = λ t. t.c_ospeed;
  ioctl_tiocexcl =
      λ fd w. (returned tt, set_terminal (record w.host.terminal { exclusive = true }) w);
  tcflush = λ fd w. w;
  fcntl_setfl =
      λ fd flags w. (returned tt, set_terminal (record w.host.terminal { flags = flags }) w);
  malloc = malloc_wire;
  free = free_wire;
  print = λ stream text w. record w { host = record w.host { printed = w.host.printed ++ text } };
}

-- The supply of the simulated port does not depend on the descriptor.
abbrev Fewer : Wire → Wire → Type 0
Fewer w w' = (d : ℤ) → (wire_port d).supply w' ≤ (wire_port d).supply w

abbrev errno_or : {A : Type 0} → ℕ → Call A → ℕ
errno_or n (failed e) = e
errno_or n (returned a) = n

fewer : (w w' : Wire) → length w'.incoming ≤ length w.incoming → Fewer w w'
fewer w w' h = λ d. omega (arith, wire_supply d w, wire_supply d w')

open_wire-failed :
    (path : List ℕ) (w w' : Wire) (e : ℕ)
    → open_wire path w ≡ (failed e, w')
    → (0 < e) × ((w'.host.view ≡ w.host.view) × Fewer w w')
open_wire-failed [] w w' e h =
    subst (λ c. (0 < errno_or 0 c.0) × ((c.1.host.view ≡ w.host.view) × Fewer w c.1)) h
      (omega arith, (refl, fewer _ _ (omega arith)))
open_wire-failed (c ∷ path) w w' e h = absurd (failed_ne (ap (λ c. c.0) h))

open_wire-returned :
    (path : List ℕ) (w w' : Wire) (fd : ℤ)
    → open_wire path w ≡ (returned fd, w')
    → (is_neg fd ≡ false)
      × (w'.host.view ≡ record w.host.view { descriptors = fd ∷ w.host.view.descriptors })
      × Fewer w w'
open_wire-returned [] w w' fd h = absurd (failed_ne (sym (ap (λ c. c.0) h)))
open_wire-returned (c ∷ path) w w' fd h =
    subst
      (λ c.
        (is_neg (value_or (pos 0) c.0) ≡ false)
        × (c.1.host.view
            ≡ record w.host.view { descriptors = value_or (pos 0) c.0 ∷ w.host.view.descriptors })
        × Fewer w c.1)
      h (refl, refl, fewer _ _ (omega arith))

-- The simulated system behaves as the documentation says.
pub desktop_laws : Laws desktop
desktop_laws = record {
  port = wire_port;
  view = λ w. w.host.view;
  terminal = λ fd w. w.host.terminal;
  einval_pos = omega arith;
  clock_passive = λ w. ((refl, fewer _ _ (omega arith)), λ d. refl);
  poll_passive = λ fd t w. ((refl, fewer _ _ (omega arith)), λ d. refl);
  read_passive = λ fd n w. ((refl, fewer w _ (drop_le n w.incoming)), λ d. refl);
  write_passive = λ fd bs w. ((refl, fewer _ _ (omega arith)), λ d. refl);
  open_failed = λ path flags w w' e h. open_wire-failed path w w' e h;
  open_returned = λ path flags w w' fd h. open_wire-returned path w w' fd h;
  close_view = λ fd w. refl;
  tcgetattr_quiet = λ fd w. (refl, fewer _ _ (omega arith));
  tcgetattr_failed = λ fd w w' e h. absurd (failed_ne (ap (λ c. c.0) h));
  tcgetattr_returned =
      λ fd w w' t h. subst (λ c. value_or cooked c.0 ≡ c.1.host.terminal.settings) h refl;
  tcsetattr_quiet = λ fd t w. (refl, fewer _ _ (omega arith));
  tcsetattr_failed = λ fd t w w' e h. absurd (failed_ne (ap (λ c. c.0) h));
  cfsetispeed_failed = λ t speed e h. absurd (failed_ne h);
  cfsetospeed_failed = λ t speed e h. absurd (failed_ne h);
  ioctl_quiet = λ fd w. (refl, fewer _ _ (omega arith));
  ioctl_failed = λ fd w w' e h. absurd (failed_ne (ap (λ c. c.0) h));
  ioctl_returned = λ fd w w' h.
      subst (λ w'. w'.host.terminal ≡ record w.host.terminal { exclusive = true }) (ap (λ c. c.1) h)
        refl;
  tcflush_quiet = λ fd w. (refl, fewer _ _ (omega arith));
  tcflush_terminal = λ fd w. refl;
  fcntl_quiet = λ fd flags w. (refl, fewer _ _ (omega arith));
  fcntl_failed = λ fd flags w w' e h. absurd (failed_ne (ap (λ c. c.0) h));
  fcntl_returned = λ fd flags w w' h.
      subst (λ w'. w'.host.terminal ≡ record w.host.terminal { flags = flags }) (ap (λ c. c.1) h)
        refl;
  malloc_failed = λ w w' e h. absurd (failed_ne (ap (λ c. c.0) h));
  malloc_returned = λ w w' p h.
      subst
        (λ c.
          (c.1.host.view
            ≡ record w.host.view { allocated = value_or 0 c.0 ∷ w.host.view.allocated })
          × Fewer w c.1)
        h (refl, fewer _ _ (omega arith));
  free_view = λ p w. refl;
  print_quiet = λ stream text w. (refl, fewer _ _ (omega arith));
}

-- Where the device has as much left to send and the process holds the same, all is quiet.
pub wire-Calm :
    (w w' : Wire)
    → w'.incoming ≡ w.incoming
    → w'.host.view ≡ w.host.view
    → Calm desktop desktop_laws w w'
unfolding desktop_laws
wire-Calm w w' same view =
    (view, fewer w w' (subst (λ xs. length xs ≤ length w.incoming) (sym same) (omega arith)))

pub desktop_supply : (d : ℤ) (w : Wire) → (desktop_laws.port d).supply w ≡ length w.incoming
unfolding desktop_laws
desktop_supply d w = wire_supply d w

-- The fields of the flags are those of Linux, and the speeds are kept apart from them.
pub desktop_termios : TermiosLaws desktop
desktop_termios = record {
  csize_lt = omega arith;
  control_lt = omega arith;
  cs8_inside = refl;
  cs8_apart = refl;
  cfsetispeed_fields = λ t t' speed h.
      subst
        (λ c.
          (bit_and (value_or t c).c_cflag 0x30 ≡ bit_and t.c_cflag 0x30)
          × (bit_and (value_or t c).c_cflag 0x140 ≡ bit_and t.c_cflag 0x140))
        h (refl, refl);
  cfsetospeed_fields = λ t t' speed h.
      subst
        (λ c.
          (bit_and (value_or t c).c_cflag 0x30 ≡ bit_and t.c_cflag 0x30)
          × (bit_and (value_or t c).c_cflag 0x140 ≡ bit_and t.c_cflag 0x140))
        h (refl, refl);
  cfsetospeed_speed = λ t t' speed h. subst (λ c. (value_or t c).c_ospeed ≡ speed) h refl;
}

-- A command line without options.
abbrev pub plain : Getopt Wire
plain = record {
  getopt_long = λ argv w. (negsuc 0, argv, w);
  optarg = λ w. [];
  optind = λ w. pos 1;
}

negsuc_neg : {A : Type 0} → is_neg (negsuc 0) ≡ false → A
negsuc_neg h = absurd (ground arith)

pub plain_laws : GetoptLaws desktop desktop_laws plain
unfolding desktop_laws
plain_laws = record {
  remaining = λ argv w. 0;
  getopt_quiet = λ argv w. (refl, fewer _ _ (omega arith));
  getopt_remaining = λ argv w h. negsuc_neg h;
}

pub plain_remaining : (argv : List Word) (w : Wire) → plain_laws.remaining argv w ≡ 0
unfolding plain_laws
plain_remaining argv w = refl

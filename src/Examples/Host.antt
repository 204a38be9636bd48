-- ===== src/Examples/Host.antt =====
-- The rest of the simulated system's state: what the process holds, its terminal and its output.
use mcu_co_sdk.Common.{ℕ, List, [], ◌∷◌, false}
use mcu_co_sdk.System.{Termios}
use mcu_co_sdk.System.Laws.{View, Terminal}

pub record Host : Type 0 where
  pub view : View
  pub terminal : Terminal
  pub printed : List ℕ
  -- How often the stop flag will yet be read unset.
  pub patience : ℕ

-- A terminal as the kernel hands it out: 7 data bits and even parity at 9600 baud.
abbrev pub cooked : Termios
cooked = record {
  c_iflag = 0x500;
  c_oflag = 5;
  c_cflag = 0x1ad;
  c_lflag = 0x8a3b;
  c_cc = 3 ∷ 28 ∷ 127 ∷ 21 ∷ 4 ∷ 0 ∷ 1 ∷ [];
  c_ispeed = 13;
  c_ospeed = 13;
}

abbrev pub new_host : Host
new_host = record {
  view = record { descriptors = []; allocated = [] };
  terminal = record { settings = cooked; exclusive = false; flags = 0x902 };
  printed = [];
  patience = 2;
}

-- ===== src/Cli/Spellings.antt =====
-- A word for every value, and its parser reads the value back; a command line for every request.
use mcu_co_sdk.Common.{ℕ, ◌+◌, ◌/◌, ◌%◌, ◌≤◌, ◌≡◌, arith, List, [], ◌∷◌, some, ◌==◌, if◌then◌else◌}
use mcu_co_sdk.Protocol.Commands.Request.{
  Request, probe, reset, gpio_cfg, gpio_set, gpio_get, gpio_toggle, irq_cfg, irq_bind, irq_unbind,
  group_cfg, group_get, group_release, channel_cfg, channel_set, channel_get, channel_release,
}
use mcu_co_sdk.Cli.Text.{codes, decimal}
use mcu_co_sdk.Cli.Words.{
  Word, parse_direction, parse_level, parse_port, parse_pin, parse_timer, parse_frequency,
  parse_polarity, parse_duty, parse_edge, parse_bind_edge, parse_action,
}
use mcu_co_sdk.Cli.Numbers.{strtoul-decimal, no_digit_first-decimal}

abbrev pub port_word : ℕ → Word
port_word port = (b'A' + port) ∷ []

abbrev pub direction_word : ℕ → Word
direction_word dir = if dir == 0 then codes "input" else codes "output"

abbrev pub level_word : ℕ → Word
level_word level = if level == 0 then codes "low" else codes "high"

abbrev pub polarity_word : ℕ → Word
polarity_word polarity = if polarity == 0 then codes "active-high" else codes "active-low"

abbrev pub edge_word : ℕ → Word
edge_word edge =
    if edge == 0
    then codes "off"
    else if edge == 1
    then codes "rising"
    else if edge == 2
    then codes "falling"
    else codes "both"

abbrev pub action_word : ℕ → Word
action_word action =
    if action == 0 then codes "low" else if action == 1 then codes "high" else codes "toggle"

pub parse_direction_lem : (v : ℕ) → v ≤ 1 → parse_direction (direction_word v) ≡ some v
unfolding parse_direction
parse_direction_lem v h = ground arith

pub parse_level_lem : (v : ℕ) → v ≤ 1 → parse_level (level_word v) ≡ some v
unfolding parse_level
parse_level_lem v h = ground arith

pub parse_polarity_lem : (v : ℕ) → v ≤ 1 → parse_polarity (polarity_word v) ≡ some v
unfolding parse_polarity
parse_polarity_lem v h = ground arith

pub parse_edge_lem : (v : ℕ) → v ≤ 3 → parse_edge (edge_word v) ≡ some v
unfolding parse_edge
parse_edge_lem v h = ground arith

pub parse_bind_edge_lem : (v : ℕ) → 1 ≤ v → v ≤ 3 → parse_bind_edge (edge_word v) ≡ some v
unfolding parse_bind_edge parse_edge
parse_bind_edge_lem v p h = ground arith

pub parse_action_lem : (v : ℕ) → v ≤ 2 → parse_action (action_word v) ≡ some v
unfolding parse_action
parse_action_lem v h = ground arith

pub parse_port_lem : (v : ℕ) → v ≤ 6 → parse_port (port_word v) ≡ some v
unfolding parse_port
parse_port_lem v h = ground arith

pub parse_pin_lem : (v : ℕ) → v ≤ 15 → parse_pin (decimal v) ≡ some v
unfolding parse_pin
parse_pin_lem v h =
    rw (no_digit_first-decimal v) (rw (strtoul-decimal v (omega arith)) (ground arith))

pub parse_timer_lem : (v : ℕ) → v ≤ 2 → parse_timer (decimal v) ≡ some v
unfolding parse_timer
parse_timer_lem v h =
    rw (no_digit_first-decimal v) (rw (strtoul-decimal v (omega arith)) (ground arith))

pub parse_frequency_lem : (v : ℕ) → 1 ≤ v → v ≤ 1000000 → parse_frequency (decimal v) ≡ some v
unfolding parse_frequency
parse_frequency_lem v p h = rw (strtoul-decimal v (omega arith)) (ground arith)

pub parse_duty_lem : (v : ℕ) → v ≤ 1000 → v % 10 ≡ 0 → parse_duty (decimal (v / 10)) ≡ some v
unfolding parse_duty
parse_duty_lem v h whole =
    rw (no_digit_first-decimal (v / 10))
      (rw (strtoul-decimal (v / 10) (omega arith)) (ground arith))

-- The command line for a request, values first and a pin as two words; a duty is typed in percent.
abbrev pub words_of : Request → List Word
words_of probe = codes "mcu" ∷ codes "probe" ∷ []
words_of reset = codes "mcu" ∷ codes "reset" ∷ []
words_of (gpio_cfg dir port pin) =
    codes "gpio" ∷ codes "cfg" ∷ direction_word dir ∷ port_word port ∷ decimal pin ∷ []
words_of (gpio_set level port pin) =
    codes "gpio" ∷ codes "set" ∷ level_word level ∷ port_word port ∷ decimal pin ∷ []
words_of (gpio_get port pin) = codes "gpio" ∷ codes "get" ∷ port_word port ∷ decimal pin ∷ []
words_of (gpio_toggle port pin) = codes "gpio" ∷ codes "toggle" ∷ port_word port ∷ decimal pin ∷ []
words_of (irq_cfg edge port pin) =
    codes "irq" ∷ codes "cfg" ∷ edge_word edge ∷ port_word port ∷ decimal pin ∷ []
words_of (irq_bind edge in_port in_pin action out_port out_pin) =
    codes "irq"
    ∷ codes "bind"
    ∷ edge_word edge
    ∷ port_word in_port
    ∷ decimal in_pin
    ∷ action_word action
    ∷ port_word out_port
    ∷ decimal out_pin
    ∷ []
words_of (irq_unbind port pin) = codes "irq" ∷ codes "unbind" ∷ port_word port ∷ decimal pin ∷ []
words_of (group_cfg freq_hz group) =
    codes "timer" ∷ codes "cfg" ∷ decimal freq_hz ∷ decimal group ∷ []
words_of (group_get group) = codes "timer" ∷ codes "get" ∷ decimal group ∷ []
words_of (group_release group) = codes "timer" ∷ codes "release" ∷ decimal group ∷ []
words_of (channel_cfg polarity port pin) =
    codes "pwm" ∷ codes "cfg" ∷ polarity_word polarity ∷ port_word port ∷ decimal pin ∷ []
words_of (channel_set duty port pin) =
    codes "pwm" ∷ codes "set" ∷ decimal (duty / 10) ∷ port_word port ∷ decimal pin ∷ []
words_of (channel_get port pin) = codes "pwm" ∷ codes "get" ∷ port_word port ∷ decimal pin ∷ []
words_of (channel_release port pin) =
    codes "pwm" ∷ codes "release" ∷ port_word port ∷ decimal pin ∷ []

-- A duty of whole percents; every other value can be typed.
abbrev pub IsWhole : Request → Type 0
IsWhole (channel_set duty port pin) = duty % 10 ≡ 0
IsWhole _ = Unit

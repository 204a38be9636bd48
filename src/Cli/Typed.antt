-- ===== src/Cli/Typed.antt =====
-- Every request can be typed: the words for a request are read back as that request.
use mcu_co_sdk.Common.{
  ℕ, suc, ◌+◌, ◌≤◌, true, false, ltb, ◌!=◌, length, ◌/◌, ◌%◌, ◌≡◌, refl, List, Option, none, some,
}
use mcu_co_sdk.Protocol.Commands.Request.{
  Request, InRange, probe, reset, gpio_cfg, gpio_set, gpio_get, gpio_toggle, irq_cfg, irq_bind,
  irq_unbind, group_cfg, group_get, group_release, channel_cfg, channel_set, channel_get,
  channel_release,
}
use mcu_co_sdk.Cli.Text.{decimal}
use mcu_co_sdk.Cli.Words.{
  Word, McucoArgs, WordKind, word_port, word_pin, word_direction, word_level, word_frequency,
  word_timer, word_polarity, word_duty, word_edge, word_bind_edge, word_action, word_out_port,
  word_out_pin, store, parse_value,
}
use mcu_co_sdk.Cli.Spellings.{
  words_of, IsWhole, port_word, direction_word, level_word, polarity_word, edge_word, action_word,
  parse_direction_lem, parse_level_lem, parse_polarity_lem, parse_edge_lem, parse_bind_edge_lem,
  parse_action_lem, parse_port_lem, parse_pin_lem, parse_timer_lem, parse_frequency_lem,
  parse_duty_lem,
}
use mcu_co_sdk.Cli.Table.{
  Command, commands, get_kind, get_word, find_command, parse_values, args_parse_mcuco,
}
use mcu_co_sdk.Cli.Runs.{request_of}

-- The request that a command line asks for, `none` if it is not accepted.
abbrev pub requested : Option Command × McucoArgs → Option Request
requested (none, a) = none
requested (some command, a) = some (request_of command.run a)

-- One round of the loop, and the rounds after it.
then_word :
    (left i : ℕ) (kinds : List WordKind) (words : List Word) (a : McucoArgs) {a' a2 : McucoArgs}
    → parse_value (get_kind kinds i) (get_word words (2 + i)) a ≡ some a'
    → parse_values left (i + 1) kinds words a' ≡ (true, a2)
    → parse_values (suc left) i kinds words a ≡ (true, a2)
unfolding parse_values
then_word left i kinds words a e rest = rw (e, parse_values) rest

no_words :
    (i : ℕ) (kinds : List WordKind) (words : List Word) (a : McucoArgs)
    → parse_values 0 i kinds words a ≡ (true, a)
unfolding parse_values
no_words i kinds words a = refl

-- A command line whose words name a row and are read to the end.
accepted :
    (command : Command) (words : List Word) (a : McucoArgs) {a' : McucoArgs}
    → find_command commands (get_word words 0) (get_word words 1) ≡ some command
    → ltb (length words) 2 ≡ false
    → (length words != 2 + command.value_count) ≡ false
    → parse_values command.value_count 0 command.values words a ≡ (true, a')
    → requested (args_parse_mcuco words a) ≡ some (request_of command.run a')
unfolding args_parse_mcuco
accepted command words a found long counted e = rw long (rw found (rw counted (rw e refl)))

stored :
    {o : Option ℕ} {v : ℕ} (field : ℕ → McucoArgs) → o ≡ some v → store o field ≡ some (field v)
stored field e = rw e refl

-- The word for a value is stored in its field.
module _ (a : McucoArgs) (v : ℕ) where
  read_direction :
      v ≤ 1 → parse_value word_direction (direction_word v) a ≡ some (record a { direction = v })
  unfolding parse_value
  read_direction h = stored _ (parse_direction_lem v h)

  read_level : v ≤ 1 → parse_value word_level (level_word v) a ≡ some (record a { level = v })
  unfolding parse_value
  read_level h = stored _ (parse_level_lem v h)

  read_port : v ≤ 6 → parse_value word_port (port_word v) a ≡ some (record a { port = v })
  unfolding parse_value
  read_port h = stored _ (parse_port_lem v h)

  read_pin : v ≤ 15 → parse_value word_pin (decimal v) a ≡ some (record a { pin = v })
  unfolding parse_value
  read_pin h = stored _ (parse_pin_lem v h)

  read_frequency :
      (1 ≤ v) × (v ≤ 1000000)
      → parse_value word_frequency (decimal v) a ≡ some (record a { frequency_hz = v })
  unfolding parse_value
  read_frequency h = stored _ (parse_frequency_lem v h.0 h.1)

  read_timer : v ≤ 2 → parse_value word_timer (decimal v) a ≡ some (record a { timer = v })
  unfolding parse_value
  read_timer h = stored _ (parse_timer_lem v h)

  read_polarity :
      v ≤ 1 → parse_value word_polarity (polarity_word v) a ≡ some (record a { polarity = v })
  unfolding parse_value
  read_polarity h = stored _ (parse_polarity_lem v h)

  read_duty :
      (v ≤ 1000) × (v % 10 ≡ 0)
      → parse_value word_duty (decimal (v / 10)) a ≡ some (record a { duty_tenths = v })
  unfolding parse_value
  read_duty h = stored _ (parse_duty_lem v h.0 h.1)

  read_edge : v ≤ 3 → parse_value word_edge (edge_word v) a ≡ some (record a { edge = v })
  unfolding parse_value
  read_edge h = stored _ (parse_edge_lem v h)

  read_bind_edge :
      (1 ≤ v) × (v ≤ 3) → parse_value word_bind_edge (edge_word v) a ≡ some (record a { edge = v })
  unfolding parse_value
  read_bind_edge h = stored _ (parse_bind_edge_lem v h.0 h.1)

  read_action : v ≤ 2 → parse_value word_action (action_word v) a ≡ some (record a { action = v })
  unfolding parse_value
  read_action h = stored _ (parse_action_lem v h)

  read_out_port :
      v ≤ 6 → parse_value word_out_port (port_word v) a ≡ some (record a { out_port = v })
  unfolding parse_value
  read_out_port h = stored _ (parse_port_lem v h)

  read_out_pin : v ≤ 15 → parse_value word_out_pin (decimal v) a ≡ some (record a { out_pin = v })
  unfolding parse_value
  read_out_pin h = stored _ (parse_pin_lem v h)

-- The command line for a request of the protocol, its duty in whole percents, is accepted and read
-- as that very request, whatever arguments were there before.
pub args_parse_mcuco-words_of :
    (r : Request) (a : McucoArgs)
    → InRange r
    → IsWhole r
    → requested (args_parse_mcuco (words_of r) a) ≡ some r
unfolding find_command
args_parse_mcuco-words_of probe a h whole = accepted _ _ a refl refl refl (no_words 0 _ _ _)
args_parse_mcuco-words_of reset a h whole = accepted _ _ a refl refl refl (no_words 0 _ _ _)
args_parse_mcuco-words_of (gpio_cfg dir port pin) a h whole = accepted _ _ a refl refl refl (
    then_word 2 0 _ _ _ (read_direction _ dir h.0) (
      then_word 1 1 _ _ _ (read_port _ port h.1.0)
        (then_word 0 2 _ _ _ (read_pin _ pin h.1.1) (no_words 3 _ _ _))))
args_parse_mcuco-words_of (gpio_set level port pin) a h whole = accepted _ _ a refl refl refl (
    then_word 2 0 _ _ _ (read_level _ level h.0) (
      then_word 1 1 _ _ _ (read_port _ port h.1.0)
        (then_word 0 2 _ _ _ (read_pin _ pin h.1.1) (no_words 3 _ _ _))))
args_parse_mcuco-words_of (gpio_get port pin) a h whole = accepted _ _ a refl refl refl (
    then_word 1 0 _ _ _ (read_port _ port h.0)
      (then_word 0 1 _ _ _ (read_pin _ pin h.1) (no_words 2 _ _ _)))
args_parse_mcuco-words_of (gpio_toggle port pin) a h whole = accepted _ _ a refl refl refl (
    then_word 1 0 _ _ _ (read_port _ port h.0)
      (then_word 0 1 _ _ _ (read_pin _ pin h.1) (no_words 2 _ _ _)))
args_parse_mcuco-words_of (irq_cfg edge port pin) a h whole = accepted _ _ a refl refl refl (
    then_word 2 0 _ _ _ (read_edge _ edge h.0) (
      then_word 1 1 _ _ _ (read_port _ port h.1.0)
        (then_word 0 2 _ _ _ (read_pin _ pin h.1.1) (no_words 3 _ _ _))))
args_parse_mcuco-words_of (irq_bind edge in_port in_pin action out_port out_pin) a h whole =
    accepted _ _ a refl refl refl (
      then_word 5 0 _ _ _ (read_bind_edge _ edge (h.0, h.1)) (
        then_word 4 1 _ _ _ (read_port _ in_port h.3.0) (
          then_word 3 2 _ _ _ (read_pin _ in_pin h.3.1) (
            then_word 2 3 _ _ _ (read_action _ action h.2) (
              then_word 1 4 _ _ _ (read_out_port _ out_port h.4.0)
                (then_word 0 5 _ _ _ (read_out_pin _ out_pin h.4.1) (no_words 6 _ _ _)))))))
args_parse_mcuco-words_of (irq_unbind port pin) a h whole = accepted _ _ a refl refl refl (
    then_word 1 0 _ _ _ (read_port _ port h.0)
      (then_word 0 1 _ _ _ (read_pin _ pin h.1) (no_words 2 _ _ _)))
args_parse_mcuco-words_of (group_cfg freq_hz group) a h whole = accepted _ _ a refl refl refl (
    then_word 1 0 _ _ _ (read_frequency _ freq_hz (h.0, h.1))
      (then_word 0 1 _ _ _ (read_timer _ group h.2) (no_words 2 _ _ _)))
args_parse_mcuco-words_of (group_get group) a h whole =
    accepted _ _ a refl refl refl (then_word 0 0 _ _ _ (read_timer _ group h) (no_words 1 _ _ _))
args_parse_mcuco-words_of (group_release group) a h whole =
    accepted _ _ a refl refl refl (then_word 0 0 _ _ _ (read_timer _ group h) (no_words 1 _ _ _))
args_parse_mcuco-words_of (channel_cfg polarity port pin) a h whole =
    accepted _ _ a refl refl refl (
      then_word 2 0 _ _ _ (read_polarity _ polarity h.0) (
        then_word 1 1 _ _ _ (read_port _ port h.1.0)
          (then_word 0 2 _ _ _ (read_pin _ pin h.1.1) (no_words 3 _ _ _))))
args_parse_mcuco-words_of (channel_set duty port pin) a h whole = accepted _ _ a refl refl refl (
    then_word 2 0 _ _ _ (read_duty _ duty (h.0, whole)) (
      then_word 1 1 _ _ _ (read_port _ port h.1.0)
        (then_word 0 2 _ _ _ (read_pin _ pin h.1.1) (no_words 3 _ _ _))))
args_parse_mcuco-words_of (channel_get port pin) a h whole = accepted _ _ a refl refl refl (
    then_word 1 0 _ _ _ (read_port _ port h.0)
      (then_word 0 1 _ _ _ (read_pin _ pin h.1) (no_words 2 _ _ _)))
args_parse_mcuco-words_of (channel_release port pin) a h whole = accepted _ _ a refl refl refl (
    then_word 1 0 _ _ _ (read_port _ port h.0)
      (then_word 0 1 _ _ _ (read_pin _ pin h.1) (no_words 2 _ _ _)))

-- ===== src/Cli/Accepted.antt =====
-- An accepted command line asks for something that the protocol has.
use mcu_co_sdk.Common.{
  ℕ, zero, suc, ◌+◌, ◌≡◌, refl, sym, ap, ◌∙◌, List, [], ◌∷◌, Option, none, some, Bool, true, false,
  ltb, ◌!=◌, ◌&&◌, Bool-cases, if◌then◌else◌, inl, inr, arith, length,
}
use mathlib.Core.Path.{subst}
use mcu_co_sdk.Protocol.Commands.Request.{InRange}
use mcu_co_sdk.Cli.Text.{same_word}
use mcu_co_sdk.Cli.Words.{
  Word, McucoArgs, WordKind, word_timer, word_port, word_pin, word_action, word_out_port,
  word_out_pin, word_frequency, word_bind_edge,
}
use mcu_co_sdk.Cli.Bounds.{InBounds, NotEdge}
use mcu_co_sdk.Cli.Table.{
  Command, run_timer_cfg, run_irq_bind, commands, find_command, get_kind, get_word, parse_values,
  args_parse_mcuco,
}
use mcu_co_sdk.Cli.Rounds.{first_word, parse_values-Keeps}
use mcu_co_sdk.Cli.Runs.{request_of}

-- A row of the table is sound when its words, read from zeros, give a request of the protocol.
record IsSound (command : Command) : Type 0 where
  in_range :
      (words : List Word) (a : McucoArgs)
      → InBounds a
      → (parse_values command.value_count 0 command.values words a).0 ≡ true
      → InRange
          (request_of command.run (parse_values command.value_count 0 command.values words a).1)

infixr 5 ◌also◌
data AllSound : List Command → Type 0 where
  no_more : AllSound []
  ◌also◌ :
      {command : Command} {rows : List Command}
      → IsSound command
      → AllSound rows
      → AllSound (command ∷ rows)

-- The rows whose words are all in range whatever came before.
plain-IsSound :
    {command : Command}
    → ((a : McucoArgs) → InBounds a → InRange (request_of command.run a))
    → IsSound command
plain-IsSound {command} holds = record {
  in_range = λ words a h ok.
      holds _ (parse_values-Keeps command.value_count 0 command.values words a h ok).0;
}

-- The frequency comes from its own word, and the word for the timer leaves it alone.
abbrev timer_kinds : List WordKind
timer_kinds = word_frequency ∷ word_timer ∷ []

timer_cfg-InRange :
    (words : List Word) (a : McucoArgs)
    → InBounds a
    → (parse_values 2 0 timer_kinds words a).0 ≡ true
    → InRange (request_of run_timer_cfg (parse_values 2 0 timer_kinds words a).1)
timer_cfg-InRange words a h ok =
    let (a1, step, same) = first_word 1 0 timer_kinds words a h ok in
    let (bounds, frequency, edge) =
      parse_values-Keeps 1 1 timer_kinds words a1 step.0
        (sym (ap (λ (p : Bool × McucoArgs). p.0) same) ∙ ok) in
    rw same (frequency step.3, bounds.1.0, bounds.1.1)

abbrev bind_kinds : List WordKind
bind_kinds = word_bind_edge ∷ word_port ∷ word_pin ∷ word_action ∷ word_out_port ∷ word_out_pin ∷ []

bind_kinds-NotEdge : (j : ℕ) → NotEdge (get_kind bind_kinds j)
bind_kinds-NotEdge zero = tt
bind_kinds-NotEdge (suc zero) = tt
bind_kinds-NotEdge (suc (suc zero)) = tt
bind_kinds-NotEdge (suc (suc (suc zero))) = tt
bind_kinds-NotEdge (suc (suc (suc (suc zero)))) = tt
bind_kinds-NotEdge (suc (suc (suc (suc (suc zero))))) = tt
bind_kinds-NotEdge (suc (suc (suc (suc (suc (suc j)))))) = tt

irq_bind-InRange :
    (words : List Word) (a : McucoArgs)
    → InBounds a
    → (parse_values 6 0 bind_kinds words a).0 ≡ true
    → InRange (request_of run_irq_bind (parse_values 6 0 bind_kinds words a).1)
irq_bind-InRange words a h ok =
    let (a1, step, same) = first_word 5 0 bind_kinds words a h ok in
    let (bounds, frequency, edge) =
      parse_values-Keeps 5 1 bind_kinds words a1 step.0
        (sym (ap (λ (p : Bool × McucoArgs). p.0) same) ∙ ok) in
    rw same (
      edge bind_kinds-NotEdge step.3,
      bounds.2.0,
      bounds.2.1,
      (bounds.0.2, bounds.0.3),
      (bounds.2.2, bounds.2.3),
    )

commands-AllSound : AllSound commands
commands-AllSound =
    plain-IsSound (λ a h. tt)
    also plain-IsSound (λ a h. tt)
    also plain-IsSound (λ a h. ground arith)
    also plain-IsSound (λ a h. ground arith)
    also plain-IsSound (λ a h. ground arith)
    also plain-IsSound (λ a h. ground arith)
    also record { in_range = timer_cfg-InRange }
    also plain-IsSound (λ a h. ground arith)
    also plain-IsSound (λ a h. ground arith)
    also plain-IsSound (λ a h. ground arith)
    also plain-IsSound (λ a h. ground arith)
    also plain-IsSound (λ a h. ground arith)
    also plain-IsSound (λ a h. ground arith)
    also plain-IsSound (λ a h. ground arith)
    also record { in_range = irq_bind-InRange }
    also plain-IsSound (λ a h. ground arith)
    also no_more

abbrev IsFound : Option Command → Type 0
IsFound none = Unit
IsFound (some command) = IsSound command

-- What the search through the rows finds is one of them.
find_command-IsFound :
    (rows : List Command) (subsystem verb : Word)
    → AllSound rows
    → IsFound (find_command rows subsystem verb)
unfolding find_command
find_command-IsFound _ subsystem verb no_more = tt
find_command-IsFound (command ∷ rows) subsystem verb (sound also others) =
    chosen (same_word subsystem command.subsystem && same_word verb command.verb)
      (find_command rows subsystem verb) (find_command-IsFound rows subsystem verb others)
  where
    chosen :
        (t : Bool) (more : Option Command)
        → IsFound more
        → IsFound (if t then some command else more)
    chosen true more found = sound
    chosen false more found = found

-- What a command line becomes.
abbrev Outcome : Option Command × McucoArgs → Type 0
Outcome (none, a) = Unit
Outcome (some command, a) = InRange (request_of command.run a)

args_parse_mcuco-Outcome :
    (words : List Word) (a : McucoArgs) → InBounds a → Outcome (args_parse_mcuco words a)
unfolding args_parse_mcuco
args_parse_mcuco-Outcome words a h = elim (Bool-cases (ltb (length words) 2)) [
  | inl short ↦ rw short tt
  | inr long ↦ rw long (
      found (find_command commands (get_word words 0) (get_word words 1))
        (find_command-IsFound commands (get_word words 0) (get_word words 1) commands-AllSound))
]
  where
    read :
        (command : Command) (p : Bool × McucoArgs)
        → (p.0 ≡ true → InRange (request_of command.run p.1))
        → Outcome (if p.0 then some command else none, p.1)
    read command (true, b) in_range = in_range refl
    read command (false, b) in_range = tt

    counted :
        (command : Command) (t : Bool)
        → IsSound command
        → Outcome (
            if t
            then (none, a)
            else (let parsed = parse_values command.value_count 0 command.values words a in
                (if parsed.0 then some command else none, parsed.1)))
    counted command true sound = tt
    counted command false sound =
        read command (parse_values command.value_count 0 command.values words a)
          (sound.in_range words a h)

    found :
        (o : Option Command)
        → IsFound o
        → Outcome (elim o [
          | none ↦ (none, a)
          | some command ↦
              if length words != 2 + command.value_count
              then (none, a)
              else (let parsed = parse_values command.value_count 0 command.values words a in
                  (if parsed.0 then some command else none, parsed.1))
        ])
    found none sound = tt
    found (some command) sound = counted command (length words != 2 + command.value_count) sound

-- A command line that is accepted gives a request whose values the protocol has, whatever the words
-- are and whatever arguments in range were there before.
pub args_parse_mcuco-InRange :
    (words : List Word) (a a' : McucoArgs) (command : Command)
    → InBounds a
    → args_parse_mcuco words a ≡ (some command, a')
    → InRange (request_of command.run a')
args_parse_mcuco-InRange words a a' command h e =
    subst Outcome e (args_parse_mcuco-Outcome words a h)

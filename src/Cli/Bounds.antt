-- ===== src/Cli/Bounds.antt =====
-- The values that the parsers of words can yield.
use mcu_co_sdk.Common.{ℕ, ◌≤◌, Option, none, some, arith}
use mcu_co_sdk.Cli.Words.{
  Word, McucoArgs, WordKind, word_none, word_direction, word_level, word_port, word_pin,
  word_frequency, word_timer, word_polarity, word_duty, word_edge, word_bind_edge, word_action,
  word_out_port, word_out_pin, parse_direction, parse_level, parse_port, parse_pin, parse_timer,
  parse_frequency, parse_polarity, parse_duty, parse_edge, parse_bind_edge, parse_action,
  parse_value,
}

abbrev Bounded : Option ℕ → ℕ → ℕ → Type 0
Bounded none low high = Unit
Bounded (some v) low high = (low ≤ v) × (v ≤ high)

parse_direction-Bounded : (w : Word) → Bounded (parse_direction w) 0 1
unfolding parse_direction
parse_direction-Bounded w = ground arith

parse_level-Bounded : (w : Word) → Bounded (parse_level w) 0 1
unfolding parse_level
parse_level-Bounded w = ground arith

parse_port-Bounded : (w : Word) → Bounded (parse_port w) 0 6
unfolding parse_port
parse_port-Bounded w = ground arith

parse_pin-Bounded : (w : Word) → Bounded (parse_pin w) 0 15
unfolding parse_pin
parse_pin-Bounded w = ground arith

parse_timer-Bounded : (w : Word) → Bounded (parse_timer w) 0 2
unfolding parse_timer
parse_timer-Bounded w = ground arith

parse_frequency-Bounded : (w : Word) → Bounded (parse_frequency w) 1 1000000
unfolding parse_frequency
parse_frequency-Bounded w = ground arith

parse_polarity-Bounded : (w : Word) → Bounded (parse_polarity w) 0 1
unfolding parse_polarity
parse_polarity-Bounded w = ground arith

parse_duty-Bounded : (w : Word) → Bounded (parse_duty w) 0 1000
unfolding parse_duty
parse_duty-Bounded w = ground arith

parse_edge-Bounded : (w : Word) → Bounded (parse_edge w) 0 3
unfolding parse_edge
parse_edge-Bounded w = ground arith

parse_bind_edge-Bounded : (w : Word) → Bounded (parse_bind_edge w) 1 3
unfolding parse_bind_edge parse_edge
parse_bind_edge-Bounded w = ground arith

parse_action-Bounded : (w : Word) → Bounded (parse_action w) 0 2
unfolding parse_action
parse_action-Bounded w = ground arith

-- Every argument is in the range that its word allows or still zero.
abbrev pub InBounds : McucoArgs → Type 0
InBounds a =
    ((a.direction ≤ 1) × (a.level ≤ 1) × (a.port ≤ 6) × (a.pin ≤ 15))
    × ((a.frequency_hz ≤ 1000000) × (a.timer ≤ 2) × (a.polarity ≤ 1) × (a.duty_tenths ≤ 1000))
    × ((a.edge ≤ 3) × (a.action ≤ 2) × (a.out_port ≤ 6) × (a.out_pin ≤ 15))

-- Zero is no frequency, and no edge to bind: these come from their own words.
abbrev pub Gains : WordKind → McucoArgs → Type 0
Gains word_frequency a = 1 ≤ a.frequency_hz
Gains word_bind_edge a = 1 ≤ a.edge
Gains _ a = Unit

abbrev pub NotEdge : WordKind → Type 0
NotEdge word_edge = ⊥
NotEdge _ = Unit

-- What a word does to the arguments.
abbrev pub Step : WordKind → McucoArgs → McucoArgs → Type 0
Step kind a a' =
    InBounds a'
    × (1 ≤ a.frequency_hz → 1 ≤ a'.frequency_hz)
    × (NotEdge kind → 1 ≤ a.edge → 1 ≤ a'.edge)
    × Gains kind a'

abbrev pub Stored : WordKind → McucoArgs → Option McucoArgs → Type 0
Stored kind a none = Unit
Stored kind a (some a') = Step kind a a'

pub parse_value-Stored :
    (kind : WordKind) (w : Word) (a : McucoArgs) → InBounds a → Stored kind a (parse_value kind w a)
unfolding parse_value
parse_value-Stored word_none w a h = tt
parse_value-Stored word_direction w a h = ground (arith, parse_direction-Bounded w)
parse_value-Stored word_level w a h = ground (arith, parse_level-Bounded w)
parse_value-Stored word_port w a h = ground (arith, parse_port-Bounded w)
parse_value-Stored word_pin w a h = ground (arith, parse_pin-Bounded w)
parse_value-Stored word_frequency w a h = ground (arith, parse_frequency-Bounded w)
parse_value-Stored word_timer w a h = ground (arith, parse_timer-Bounded w)
parse_value-Stored word_polarity w a h = ground (arith, parse_polarity-Bounded w)
parse_value-Stored word_duty w a h = ground (arith, parse_duty-Bounded w)
parse_value-Stored word_edge w a h = ground (arith, parse_edge-Bounded w)
parse_value-Stored word_bind_edge w a h = ground (arith, parse_bind_edge-Bounded w)
parse_value-Stored word_action w a h = ground (arith, parse_action-Bounded w)
parse_value-Stored word_out_port w a h = ground (arith, parse_port-Bounded w)
parse_value-Stored word_out_pin w a h = ground (arith, parse_pin-Bounded w)

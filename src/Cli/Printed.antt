-- ===== src/Cli/Printed.antt =====
-- The text that the tool prints for an answer, described by what it reads as.
use mcu_co_sdk.Common.{
  ℕ, zero, suc, ◌+◌, ◌*◌, ◌/◌, ◌%◌, ◌^◌, ◌≤◌, ◌<◌, ◌≡◌, ◌≢◌, ◌⊎◌, inl, inr, refl, ◌∙◌, List, [],
  ◌∷◌, ◌++◌, Option, none, some, false, Bool-cases, ◌==◌, if◌then◌else◌, AreBytes, arith,
}
use mathlib.Core.List.{append_assoc}
use mcu_co_sdk.Values.{mcuco_status_ok, mcuco_status_err_bad_frame}
use mcu_co_sdk.Protocol.Commands.Request.{
  Request, probe, gpio_get, gpio_toggle, group_get, channel_get,
}
use mcu_co_sdk.Mcuco.Exchange.{reply_status}
use mcu_co_sdk.Mcuco.Calls.{value_of, interpret}
use mcu_co_sdk.Cli.Text.{codes, decimal, put_digits, strtoul}
use mcu_co_sdk.Cli.Words.{no_digit_first}
use mcu_co_sdk.Cli.Numbers.{strtoul-decimal, no_digit_first-decimal}
use mcu_co_sdk.Cli.Table.{print_level, print_number, print_tenths, print_value}
use mcu_co_sdk.Cli.Runs.{print_of}

-- The level 0 or 1 by its name.
abbrev IsLevel : ℕ → List ℕ → Type 0
IsLevel v text = ((v ≡ 0) × (text ≡ codes "low\n")) ⊎ ((v ≡ 1) × (text ≡ codes "high\n"))

-- Digits that are read as the number, and the end of the line.
abbrev IsNumber : ℕ → List ℕ → Type 0
IsNumber v text =
    (ds : List ℕ) × (text ≡ ds ++ codes "\n") × (no_digit_first ds ≡ false) × (strtoul ds ≡ (v, []))

-- Digits that are read as the whole percents, a point and one digit for the tenths.
abbrev IsPercent : ℕ → List ℕ → Type 0
IsPercent v text =
    (ds : List ℕ) × (whole : ℕ) × (tenth : ℕ) × (text ≡ ds ++ (b'.' ∷ (b'0' + tenth) ∷ codes "\n"))
    × (no_digit_first ds ≡ false)
    × (strtoul ds ≡ (whole, []))
    × (tenth < 10)
    × (v ≡ 10 * whole + tenth)

-- What the text says of the value that a request got. Requests without a value print nothing.
abbrev pub Shows : Request → ℕ → List ℕ → Type 0
Shows (gpio_get port pin) v text = IsLevel v text
Shows (gpio_toggle port pin) v text = IsLevel v text
Shows (group_get group) v text = IsNumber v text
Shows (channel_get port pin) v text = IsPercent v text
Shows _ v text = text ≡ []

-- The text shows the value of a success; after an error there is none.
abbrev pub Printed : Request → ℕ → Option ℕ → List ℕ → Type 0
Printed r status none text = ⊥
Printed r status (some v) text =
    ((status ≡ mcuco_status_ok) × Shows r v text) ⊎ ((status ≢ mcuco_status_ok) × (text ≡ []))

print_level-IsLevel : (v : ℕ) → v ≤ 1 → IsLevel v (print_level v)
print_level-IsLevel zero h = inl (refl, refl)
print_level-IsLevel (suc zero) h = inr (refl, refl)
print_level-IsLevel (suc (suc v)) h = absurd (omega arith)

print_number-IsNumber : (v : ℕ) → v < 10 ^ 10 → IsNumber v (print_number v)
print_number-IsNumber v h = (decimal v, refl, no_digit_first-decimal v, strtoul-decimal v h)

decimal_digit : (d : ℕ) → d < 10 → decimal d ≡ (b'0' + d) ∷ []
unfolding decimal put_digits
decimal_digit d h = ground arith

print_tenths-IsPercent : (v : ℕ) → v < 10 ^ 10 → IsPercent v (print_tenths v)
print_tenths-IsPercent v h = (
  decimal (v / 10),
  v / 10,
  v % 10,
  rw (decimal_digit (v % 10) (omega arith))
      (append_assoc (decimal (v / 10) ++ codes ".") _ _ ∙ append_assoc (decimal (v / 10)) _ _),
  no_digit_first-decimal (v / 10),
  strtoul-decimal (v / 10) (omega arith),
  omega arith,
  omega arith,
)

-- The text that is printed for a status and a value.
abbrev pub text_of : Request → ℕ × Option ℕ → List ℕ
text_of r (status, value) = if status == mcuco_status_ok then print_value value (print_of r) else []

-- That text is the right one.
abbrev pub IsRight : Request → ℕ × Option ℕ → Type 0
IsRight r (status, value) = Printed r status value (text_of r (status, value))

-- After an error nothing is printed.
pub error-IsRight :
    (r : Request) (status v : ℕ) → (status == mcuco_status_ok) ≡ false → IsRight r (status, some v)
error-IsRight r status v t = inr (ground arith, rw t refl)

bad_frame-IsRight : (r : Request) (v : ℕ) → IsRight r (mcuco_status_err_bad_frame, some v)
bad_frame-IsRight r v = error-IsRight r mcuco_status_err_bad_frame v refl

print_level-IsRight :
    (b : ℕ) → IsLevel (if b == 0 then 0 else 1) (print_level (if b == 0 then 0 else 1))
print_level-IsRight b = print_level-IsLevel (if b == 0 then 0 else 1) (ground arith)

probe-IsRight : (status v : ℕ) → IsRight probe (status, some v)
probe-IsRight status v = elim (Bool-cases (status == mcuco_status_ok)) [
  | inl t ↦ inl (ground arith, rw t refl)
  | inr t ↦ inr (ground arith, rw t refl)
]

value_of-IsRight :
    (r : Request) (payload : List ℕ) → AreBytes payload → IsRight r (value_of r payload 0)
value_of-IsRight (gpio_get port pin) (b ∷ []) h = inl (refl, print_level-IsRight b)
value_of-IsRight (gpio_get port pin) [] h = bad_frame-IsRight (gpio_get port pin) 0
value_of-IsRight (gpio_get port pin) (a ∷ b ∷ p) h = bad_frame-IsRight (gpio_get port pin) 0
value_of-IsRight (gpio_toggle port pin) (b ∷ []) h = inl (refl, print_level-IsRight b)
value_of-IsRight (gpio_toggle port pin) [] h = bad_frame-IsRight (gpio_toggle port pin) 0
value_of-IsRight (gpio_toggle port pin) (a ∷ b ∷ p) h = bad_frame-IsRight (gpio_toggle port pin) 0
value_of-IsRight (group_get g) (a ∷ b ∷ c ∷ d ∷ []) h =
    inl (refl, print_number-IsNumber (a + b * 2 ^ 8 + c * 2 ^ 16 + d * 2 ^ 24) (omega (arith, h)))
value_of-IsRight (group_get g) [] h = bad_frame-IsRight (group_get g) 0
value_of-IsRight (group_get g) (a ∷ []) h = bad_frame-IsRight (group_get g) 0
value_of-IsRight (group_get g) (a ∷ b ∷ []) h = bad_frame-IsRight (group_get g) 0
value_of-IsRight (group_get g) (a ∷ b ∷ c ∷ []) h = bad_frame-IsRight (group_get g) 0
value_of-IsRight (group_get g) (a ∷ b ∷ c ∷ d ∷ e ∷ p) h = bad_frame-IsRight (group_get g) 0
value_of-IsRight (channel_get port pin) (a ∷ b ∷ []) h =
    inl (refl, print_tenths-IsPercent (a + b * 256) (omega (arith, h)))
value_of-IsRight (channel_get port pin) [] h = bad_frame-IsRight (channel_get port pin) 0
value_of-IsRight (channel_get port pin) (a ∷ []) h = bad_frame-IsRight (channel_get port pin) 0
value_of-IsRight (channel_get port pin) (a ∷ b ∷ c ∷ p) h =
    bad_frame-IsRight (channel_get port pin) 0
value_of-IsRight probe (a ∷ b ∷ c ∷ d ∷ []) h =
    probe-IsRight (value_of probe (a ∷ b ∷ c ∷ d ∷ []) 0).0 0
value_of-IsRight probe [] h = bad_frame-IsRight probe 0
value_of-IsRight probe (a ∷ []) h = bad_frame-IsRight probe 0
value_of-IsRight probe (a ∷ b ∷ []) h = bad_frame-IsRight probe 0
value_of-IsRight probe (a ∷ b ∷ c ∷ []) h = bad_frame-IsRight probe 0
value_of-IsRight probe (a ∷ b ∷ c ∷ d ∷ e ∷ p) h = bad_frame-IsRight probe 0
value_of-IsRight r payload h = inl (refl, refl)

-- What is printed for the value of an answer shows it.
pub interpret-IsRight :
    (r : Request) (ack : ℕ) (payload : List ℕ)
    → AreBytes payload
    → IsRight r (interpret r ack payload 0)
interpret-IsRight r ack payload h =
    elim (Bool-cases (reply_status ack payload == mcuco_status_ok)) [
      | inl t ↦ rw t (value_of-IsRight r payload h)
      | inr t ↦ rw t (error-IsRight r (reply_status ack payload) 0 t)
    ]

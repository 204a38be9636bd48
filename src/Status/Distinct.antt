-- ===== src/Status/Distinct.antt =====
-- Every status has a message of its own.
use mcu_co_sdk.Common.{
  ℕ, zero, suc, ◌+◌, ◌≤◌, ◌<◌, ◌≡◌, ◌⊎◌, inl, inr, refl, sym, ap, ◌∙◌, arith, List, ltb, Bool-cases,
  ◌↔◌, if◌then◌else◌,
}
use mathlib.Core.Path.{subst}
use mcu_co_sdk.Cli.Text.{codes, same_word}
use mcu_co_sdk.Status.{mcuco_strerror}

-- The codes of the firmware, and those of the host.
abbrev pub IsStatus : ℕ → Type 0
IsStatus status = (status ≤ 10) ⊎ ((0x80 ≤ status) × (status ≤ 0x84))

-- The first of `count` codes from `from` on that has the message.
search_from : ℕ → ℕ → List ℕ → ℕ
search_from zero from message = 256
search_from (suc count) from message =
    let rest = search_from count (from + 1) message in
    if same_word message (mcuco_strerror from) then from else rest

-- The code for a message.
code_of : List ℕ → ℕ
code_of message = search_from 133 0 message

-- A property that is checked at the codes from `from` on.
abbrev Each : ℕ → ℕ → (ℕ → Type 0) → Type 0
Each zero from P = Unit
Each (suc count) from P = P from × Each count (suc from) P

at_code :
    (count from : ℕ) (P : ℕ → Type 0)
    → Each count from P
    → (status : ℕ) → from ≤ status
    → status < from + count
    → P status
at_code zero from P each status p q = absurd (omega arith)
at_code (suc count) from P each status p q = elim (split from status p) [
  | inl e ↦ subst P e each.0
  | inr less ↦ at_code count (suc from) P each.1 status less (omega arith)
]
  where
    split : (a b : ℕ) → a ≤ b → (a ≡ b) ⊎ (suc a ≤ b)
    split a b h = elim (Bool-cases (ltb a b)) [
      | inl less ↦ inr (ground arith)
      | inr same ↦ inl (ground arith)
    ]

code_of-mcuco_strerror : (status : ℕ) → IsStatus status → code_of (mcuco_strerror status) ≡ status
unfolding code_of search_from mcuco_strerror
code_of-mcuco_strerror status (inl h) =
    at_code 11 0 (λ s. code_of (mcuco_strerror s) ≡ s)
      (refl, (refl, (refl, (refl, (refl, (refl, (refl, (refl, (refl, (refl, (refl, tt)))))))))))
      status (omega arith) (omega arith)
code_of-mcuco_strerror status (inr h) =
    at_code 5 0x80 (λ s. code_of (mcuco_strerror s) ≡ s) (refl, (refl, (refl, (refl, (refl, tt)))))
      status h.0 (omega arith)

-- Two statuses, of the firmware or of the host, with the same message are the same.
pub mcuco_strerror-injective :
    (s t : ℕ) → IsStatus s → IsStatus t → mcuco_strerror s ≡ mcuco_strerror t → s ≡ t
mcuco_strerror-injective s t p q e =
    sym (code_of-mcuco_strerror s p) ∙ ap code_of e ∙ code_of-mcuco_strerror t q

not_status : (s : ℕ) → ¬ IsStatus s → mcuco_strerror s ≡ codes "Unknown status code"
unfolding mcuco_strerror
not_status s h = ground arith

code_of-unknown : code_of (codes "Unknown status code") ≡ 11
unfolding code_of search_from mcuco_strerror
code_of-unknown = refl

-- The message for an unknown status is for the numbers that are no status, and for these only.
pub mcuco_strerror-unknown :
    (s : ℕ) → (mcuco_strerror s ≡ codes "Unknown status code") ↔ (¬ IsStatus s)
mcuco_strerror-unknown s = (
  (λ e known. absurd (no_status s known (sym (code_of-mcuco_strerror s known) ∙ ap code_of e))),
  not_status s,
)
  where
    no_status : (s : ℕ) → IsStatus s → s ≡ code_of (codes "Unknown status code") → ⊥
    no_status s (inl h) e = omega (arith, code_of-unknown)
    no_status s (inr h) e = omega (arith, code_of-unknown)

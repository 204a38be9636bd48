-- ===== src/Cli/Rounds.antt =====
-- The loop of `args_parse_mcuco` over the values, and what its rounds keep.
use mcu_co_sdk.Common.{
  ℕ, zero, suc, ◌+◌, ◌≤◌, ◌≡◌, refl, sym, ap, ◌∙◌, List, none, Bool, true, false, Option-cases, inl,
  inr, arith,
}
use mathlib.Core.Path.{subst}
use mcu_co_sdk.Cli.Words.{Word, McucoArgs, WordKind, parse_value}
use mcu_co_sdk.Cli.Bounds.{InBounds, NotEdge, Step, Stored, parse_value-Stored}
use mcu_co_sdk.Cli.Table.{get_kind, get_word, parse_values}

-- One round that succeeded.
pub first_word :
    (left i : ℕ) (kinds : List WordKind) (words : List Word) (a : McucoArgs)
    → InBounds a
    → (parse_values (suc left) i kinds words a).0 ≡ true
    → (a1 : McucoArgs) × Step (get_kind kinds i) a a1
      × (parse_values (suc left) i kinds words a ≡ parse_values left (i + 1) kinds words a1)
unfolding parse_values
first_word left i kinds words a h ok =
    elim (Option-cases (parse_value (get_kind kinds i) (get_word words (2 + i)) a)) [
      | inl e ↦ absurd (failed e)
      | inr (a1, e) ↦ (
        a1,
        subst (Stored (get_kind kinds i) a) e
            (parse_value-Stored (get_kind kinds i) (get_word words (2 + i)) a h),
        rw (e, parse_values) refl,
      )
    ]
  where
    failed : parse_value (get_kind kinds i) (get_word words (2 + i)) a ≡ none → ⊥
    failed e =
        let same : parse_values (suc left) i kinds words a ≡ (false, a) =
          rw (e, parse_values) refl in
        ground (arith, same)

-- What the words after a given one cannot spoil.
abbrev pub Keeps : List WordKind → McucoArgs → McucoArgs → Type 0
Keeps kinds a a' =
    InBounds a'
    × (1 ≤ a.frequency_hz → 1 ≤ a'.frequency_hz)
    × (((j : ℕ) → NotEdge (get_kind kinds j)) → 1 ≤ a.edge → 1 ≤ a'.edge)

pub parse_values-Keeps :
    (left i : ℕ) (kinds : List WordKind) (words : List Word) (a : McucoArgs)
    → InBounds a
    → (parse_values left i kinds words a).0 ≡ true
    → Keeps kinds a (parse_values left i kinds words a).1
unfolding parse_values
parse_values-Keeps zero i kinds words a h ok = (h, (λ p. p), (λ none_edge p. p))
parse_values-Keeps (suc left) i kinds words a h ok =
    let (a1, step, same) = first_word left i kinds words a h ok in
    let (bounds, frequency, edge) =
      parse_values-Keeps left (i + 1) kinds words a1 step.0
        (sym (ap (λ (p : Bool × McucoArgs). p.0) same) ∙ ok) in
    rw same (
      bounds,
      (λ p. frequency (step.1 p)),
      (λ none_edge p. edge none_edge (step.2 (none_edge i) p)),
    )

-- ===== src/Os/Ends.antt =====
-- Computations that end, and what holds of the value and the state that they end with.
use mcu_co_sdk.Common.{
  ◌≡◌, refl, sym, ap, ◌∙◌, Option, none, some, Bool, true, false, if◌then◌else◌,
}
use mathlib.Core.Path.{subst}
use mcu_co_sdk.Os.{M, ◌>>=◌}

module _ {S : Type 0} where
  pub record Ends {A : Type 0} (P : A → S → Type 0) (result : Option (A × S)) : Type 0 where
    pub value : A
    pub after : S
    pub returns : result ≡ some (value, after)
    pub holds : P value after

  pub Ends-some : {A : Type 0} (P : A → S → Type 0) (a : A) (s : S) → P a s → Ends P (some (a, s))
  Ends-some P a s h = record { value = a; after = s; returns = refl; holds = h }

  pub Ends-mono :
      {A : Type 0} {P Q : A → S → Type 0} {r : Option (A × S)}
      → Ends P r
      → ((a : A) (s : S) → P a s → Q a s)
      → Ends Q r
  Ends-mono e f = record {
    value = e.value;
    after = e.after;
    returns = e.returns;
    holds = f e.value e.after e.holds;
  }

  pub Ends->>= :
      {A B : Type 0} {P : A → S → Type 0} {Q : B → S → Type 0} (m : M S A) (f : A → M S B) (s : S)
      → Ends P (m s)
      → ((a : A) (s' : S) → P a s' → Ends Q (f a s'))
      → Ends Q ((m >>= f) s)
  Ends->>= m f s e rest = rw (e.returns, ◌>>=◌) (rest e.value e.after e.holds)

  pub Ends-if :
      {A : Type 0} {P : A → S → Type 0} (t : Bool) (m n : M S A) (s : S)
      → (t ≡ true → Ends P (m s))
      → (t ≡ false → Ends P (n s))
      → Ends P ((if t then m else n) s)
  Ends-if true m n s p q = p refl
  Ends-if false m n s p q = q refl

  -- What the computation was seen to end with.
  pub Ends-at :
      {A : Type 0} (P : A → S → Type 0) {r : Option (A × S)} {a : A} {s : S}
      → Ends P r
      → r ≡ some (a, s)
      → P a s
  Ends-at P {a = a} {s = s} e h = subst (λ v. P v.0 v.1) (value_eq (sym e.returns ∙ h)) e.holds
    where
      value_eq : {A : Type 0} {x y : A} → some x ≡ some y → x ≡ y
      value_eq k = cc

  -- Computations that agree at a state can stand for one another there.
  pub >>=-eq :
      {A B : Type 0} (m n : M S A) (f : A → M S B) (s : S) → m s ≡ n s → (m >>= f) s ≡ (n >>= f) s
  >>=-eq {A} {B} m n f s h =
      ap (λ r. elim r as (λ r. Option (B × S)) [ none ↦ none | some (a, s') ↦ f a s' ]) h

  pub >>=-some :
      {A B : Type 0} (m : M S A) (f : A → M S B) (s s' : S) (a : A)
      → m s ≡ some (a, s')
      → (m >>= f) s ≡ f a s'
  >>=-some m f s s' a h = >>=-eq m (λ _. some (a, s')) f s h

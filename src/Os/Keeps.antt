-- ===== src/Os/Keeps.antt =====
-- Properties of the system's state that a computation keeps.
use mcu_co_sdk.Common.{ℕ, ◌≡◌, List, Option, none, some, Bool, true, false, if◌then◌else◌}
use mathlib.Core.Path.{subst}
use mcu_co_sdk.Common.Int.{ℤ}
use mcu_co_sdk.Os.{Os, M, pure, lift, ◌>>=◌}

-- The four calls of the library on an open descriptor keep the property.
pub record IsKept (os : Os) (fd : ℤ) (I : os.State → Type 0) : Type 0 where
  pub clock_gettime : (s : os.State) → I s → I (os.clock_gettime s).1
  pub poll : (t : ℤ) (s : os.State) → I s → I (os.poll fd t s).1
  pub read : (n : ℕ) (s : os.State) → I s → I (os.read fd n s).1
  pub write : (bs : List ℕ) (s : os.State) → I s → I (os.write fd bs s).1

module _ {S : Type 0} (I : S → Type 0) where
  -- If the computation ends, the property holds of the state that it leaves.
  abbrev pub Keeps : {A : Type 0} → Option (A × S) → Type 0
  Keeps none = Unit
  Keeps (some (a, s)) = I s

  -- Whatever the state, the computation keeps the property.
  pub record Kept {A : Type 0} (m : M S A) : Type 0 where
    pub at : (s : S) → I s → Keeps (m s)

  pub Kept-pure : {A : Type 0} (a : A) → Kept (pure a)
  Kept-pure a = record { at = λ s h. h }

  pub Kept-lift : {A : Type 0} (f : S → A × S) → ((s : S) → I s → I (f s).1) → Kept (lift f)
  Kept-lift f h = record { at = h }

  pub Kept->>= :
      {A B : Type 0} {m : M S A} {f : A → M S B} → Kept m → ((a : A) → Kept (f a)) → Kept (m >>= f)
  Kept->>= {A} {B} {m} {f} first rest = record { at = λ s h. go (m s) (first.at s h) }
    where
      go :
          (r : Option (A × S))
          → Keeps r
          → Keeps (elim r as (λ r. Option (B × S)) [ none ↦ none | some (a, s') ↦ f a s' ])
      go none h = tt
      go (some (a, s')) h = (rest a).at s' h

  pub Kept-if : {A : Type 0} {m n : M S A} (t : Bool) → Kept m → Kept n → Kept (if t then m else n)
  Kept-if true p q = p
  Kept-if false p q = q

  pub Keeps-some :
      {A : Type 0} {r : Option (A × S)} {a : A} {s : S} → Keeps r → r ≡ some (a, s) → I s
  Keeps-some h e = subst Keeps e h

-- The rules by which `search` takes a computation apart.
pub ruleset kept_rules = (Kept->>=, Kept-if, Kept-pure)

-- ===== src/Common/Lists.antt =====
-- C arrays as lists with native indices, under the library's names.
use Prim.Native.Nat.{ℕ, zero, suc, ◌+◌, ◌-◌, ◌≤◌, ◌<◌}
use mathlib.Core.Path.{◌≡◌, refl, sym, ap, ◌∙◌}
use mathlib.Core.List.{List, [], ◌∷◌, ◌++◌}
use native.Mathlib.Omega.{arith}

module _ {ℓ} {A : Type ℓ} where
  abbrev pub length : List A → ℕ
  length [] = 0
  length (x ∷ xs) = suc (length xs)

  -- `a[i]`, with a value for an index outside the array.
  abbrev pub get_or : List A → ℕ → A → A
  get_or [] i d = d
  get_or (x ∷ xs) zero d = x
  get_or (x ∷ xs) (suc i) d = get_or xs i d

  -- `a[i] = v`. A write outside the array changes nothing.
  abbrev pub set : List A → ℕ → A → List A
  set [] i v = []
  set (x ∷ xs) zero v = v ∷ xs
  set (x ∷ xs) (suc i) v = x ∷ set xs i v

  abbrev pub take : ℕ → List A → List A
  take zero xs = []
  take (suc n) [] = []
  take (suc n) (x ∷ xs) = x ∷ take n xs

  abbrev pub drop : ℕ → List A → List A
  drop zero xs = xs
  drop (suc n) [] = []
  drop (suc n) (x ∷ xs) = drop n xs

  abbrev pub replicate : ℕ → A → List A
  replicate zero a = []
  replicate (suc n) a = a ∷ replicate n a

  -- The array with the bytes `bs` written from index `i` on; what does not fit is dropped.
  abbrev pub overwrite : List A → ℕ → List A → List A
  overwrite [] i bs = []
  overwrite (x ∷ xs) zero [] = x ∷ xs
  overwrite (x ∷ xs) zero (b ∷ bs) = b ∷ overwrite xs zero bs
  overwrite (x ∷ xs) (suc i) bs = x ∷ overwrite xs i bs

  pub length-append : (xs ys : List A) → length (xs ++ ys) ≡ length xs + length ys
  length-append [] ys = omega arith
  length-append (x ∷ xs) ys = omega (arith, length-append xs ys)

  pub length-set : (xs : List A) (i : ℕ) (v : A) → length (set xs i v) ≡ length xs
  length-set [] i v = refl
  length-set (x ∷ xs) zero v = refl
  length-set (x ∷ xs) (suc i) v = ap suc (length-set xs i v)

  pub length-overwrite :
      (xs : List A) (i : ℕ) (bs : List A) → length (overwrite xs i bs) ≡ length xs
  length-overwrite [] i bs = refl
  length-overwrite (x ∷ xs) zero [] = refl
  length-overwrite (x ∷ xs) zero (b ∷ bs) = ap suc (length-overwrite xs zero bs)
  length-overwrite (x ∷ xs) (suc i) bs = ap suc (length-overwrite xs i bs)

  pub overwrite-nil : (xs : List A) (i : ℕ) → overwrite xs i [] ≡ xs
  overwrite-nil [] i = refl
  overwrite-nil (x ∷ xs) zero = refl
  overwrite-nil (x ∷ xs) (suc i) = ap (λ t. x ∷ t) (overwrite-nil xs i)

  pub set-overwrite : (xs : List A) (i : ℕ) (v : A) → set xs i v ≡ overwrite xs i (v ∷ [])
  set-overwrite [] i v = refl
  set-overwrite (x ∷ xs) zero v = ap (λ t. v ∷ t) (sym (overwrite-nil xs zero))
  set-overwrite (x ∷ xs) (suc i) v = ap (λ t. x ∷ t) (set-overwrite xs i v)

  -- A write that goes on where the last one ended.
  pub overwrite-append :
      (xs : List A) (i j : ℕ) (us vs : List A)
      → j ≡ i + length us
      → overwrite (overwrite xs i us) j vs ≡ overwrite xs i (us ++ vs)
  overwrite-append [] i j us vs e = refl
  overwrite-append (x ∷ xs) zero zero [] vs e = refl
  overwrite-append (x ∷ xs) zero (suc j) [] vs e = absurd (omega arith)
  overwrite-append (x ∷ xs) zero zero (u ∷ us) vs e = absurd (omega arith)
  overwrite-append (x ∷ xs) zero (suc j) (u ∷ us) vs e =
      ap (λ t. u ∷ t) (overwrite-append xs zero j us vs (omega arith))
  overwrite-append (x ∷ xs) (suc i) zero us vs e = absurd (omega arith)
  overwrite-append (x ∷ xs) (suc i) (suc j) us vs e =
      ap (λ t. x ∷ t) (overwrite-append xs i j us vs (omega arith))

  -- A write at the front that fits.
  pub overwrite-front :
      (xs us : List A) → length us ≤ length xs → overwrite xs 0 us ≡ us ++ drop (length us) xs
  overwrite-front xs [] h = overwrite-nil xs 0
  overwrite-front [] (u ∷ us) h = absurd (omega arith)
  overwrite-front (x ∷ xs) (u ∷ us) h = ap (λ t. u ∷ t) (overwrite-front xs us (omega arith))

  pub take-append : (us vs : List A) (n : ℕ) → n ≡ length us → take n (us ++ vs) ≡ us
  take-append [] vs zero e = refl
  take-append [] vs (suc n) e = absurd (omega arith)
  take-append (u ∷ us) vs zero e = absurd (omega arith)
  take-append (u ∷ us) vs (suc n) e = ap (λ t. u ∷ t) (take-append us vs n (omega arith))

  pub length-take : (n : ℕ) (xs : List A) → n ≤ length xs → length (take n xs) ≡ n
  length-take zero xs h = refl
  length-take (suc n) [] h = absurd (omega arith)
  length-take (suc n) (x ∷ xs) h = ap suc (length-take n xs (omega arith))

  pub length-drop : (n : ℕ) (xs : List A) → length (drop n xs) ≡ length xs - n
  length-drop zero xs = omega arith
  length-drop (suc n) [] = omega arith
  length-drop (suc n) (x ∷ xs) = omega (arith, length-drop n xs)

  pub drop-get_or :
      (xs : List A) (i : ℕ) (d : A) → i < length xs → drop i xs ≡ get_or xs i d ∷ drop (suc i) xs
  drop-get_or [] i d h = absurd (omega arith)
  drop-get_or (x ∷ xs) zero d h = refl
  drop-get_or (x ∷ xs) (suc i) d h = drop-get_or xs i d (omega arith)

  -- `for (i = 0; i < n; i++) to[to_at + i] = from[from_at + i];` with `left` rounds to go.
  unfoldable pub copy_loop : ℕ → ℕ → List A → ℕ → A → List A → ℕ → List A
  copy_loop zero i from from_at d to to_at = to
  copy_loop (suc left) i from from_at d to to_at =
      copy_loop left (i + 1) from from_at d (set to (to_at + i) (get_or from (from_at + i) d)) to_at

  copy_loop_from :
      (left i : ℕ) (from : List A) (from_at : ℕ) (d : A) (to : List A) (to_at : ℕ)
      → from_at + i + left ≤ length from
      → copy_loop left i from from_at d to to_at
        ≡ overwrite to (to_at + i) (take left (drop (from_at + i) from))
  unfolding copy_loop
  copy_loop_from zero i from from_at d to to_at h = sym (overwrite-nil to (to_at + i))
  copy_loop_from (suc left) i from from_at d to to_at h =
      let v = get_or from (from_at + i) d in
      let next : to_at + (i + 1) ≡ to_at + i + 1 = omega arith in
      let here : from_at + (i + 1) ≡ suc (from_at + i) = omega arith in
      copy_loop_from left (i + 1) from from_at d (set to (to_at + i) v) to_at (omega arith)
      ∙ rw (drop-get_or from (from_at + i) d (omega arith), set-overwrite, here)
          (overwrite-append to (to_at + i) (to_at + (i + 1)) (v ∷ []) _ next)

  pub copy_loop-overwrite :
      (n : ℕ) (from : List A) (from_at : ℕ) (d : A) (to : List A) (to_at : ℕ)
      → from_at + n ≤ length from
      → copy_loop n 0 from from_at d to to_at ≡ overwrite to to_at (take n (drop from_at from))
  copy_loop-overwrite n from from_at d to to_at h =
      let source : from_at + 0 ≡ from_at = omega arith in
      let target : to_at + 0 ≡ to_at = omega arith in
      copy_loop_from n 0 from from_at d to to_at (omega arith) ∙ rw (source, target)

  -- An element and then its neighbour, written behind a front part.
  pub set-set-overwrite :
      (xs us : List A) (i j : ℕ) (u v : A)
      → i ≡ length us
      → j ≡ suc i
      → set (set (overwrite xs 0 us) i u) j v ≡ overwrite xs 0 (us ++ u ∷ v ∷ [])
  set-set-overwrite xs us i j u v p q =
      rw (set-overwrite (overwrite xs 0 us) i u, set-overwrite _ j v)
        (rw (overwrite-append (overwrite xs 0 us) i j (u ∷ []) (v ∷ []) (omega arith))
          (overwrite-append xs 0 i us (u ∷ v ∷ []) (omega arith)))

  pub take_all : (n : ℕ) (xs : List A) → n ≡ length xs → take n xs ≡ xs
  take_all zero [] e = refl
  take_all zero (x ∷ xs) e = absurd (omega arith)
  take_all (suc n) [] e = absurd (omega arith)
  take_all (suc n) (x ∷ xs) e = ap (λ t. x ∷ t) (take_all n xs (omega arith))

  pub take-take : (n m : ℕ) (xs : List A) → n ≤ m → take n (take m xs) ≡ take n xs
  take-take zero m xs h = refl
  take-take (suc n) zero xs h = absurd (omega arith)
  take-take (suc n) (suc m) [] h = refl
  take-take (suc n) (suc m) (x ∷ xs) h = ap (λ t. x ∷ t) (take-take n m xs (omega arith))

  pub take-nil : (n : ℕ) → take n [] ≡ []
  take-nil zero = refl
  take-nil (suc n) = refl

  pub drop-nil : (n : ℕ) → drop n [] ≡ []
  drop-nil zero = refl
  drop-nil (suc n) = refl

  -- Two slices that lie side by side.
  pub take-drop-join :
      (i n j m k : ℕ) (xs : List A)
      → j ≡ i + n
      → k ≡ n + m
      → take n (drop i xs) ++ take m (drop j xs) ≡ take k (drop i xs)
  take-drop-join i n j m k [] p q = rw (drop-nil i, drop-nil j, take-nil n, take-nil m, take-nil k)
  take-drop-join zero zero j m k (x ∷ xs) p q =
      ap (λ t. take m (drop t (x ∷ xs))) {y = 0} (omega arith)
      ∙ ap (λ t. take t (x ∷ xs)) {y = k} (omega arith)
  take-drop-join zero (suc n) zero m k (x ∷ xs) p q = absurd (omega arith)
  take-drop-join zero (suc n) (suc j) m zero (x ∷ xs) p q = absurd (omega arith)
  take-drop-join zero (suc n) (suc j) m (suc k) (x ∷ xs) p q =
      ap (λ t. x ∷ t) (take-drop-join zero n j m k xs (omega arith) (omega arith))
  take-drop-join (suc i) n zero m k (x ∷ xs) p q = absurd (omega arith)
  take-drop-join (suc i) n (suc j) m k (x ∷ xs) p q = take-drop-join i n j m k xs (omega arith) q

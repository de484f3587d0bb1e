-- ===== src/Zernike/Coefficients.antt =====
-- wfs_read/zernike.c: the coefficients that `Zcompose` has changed before it sums the polynomials.
use bta_utils.Prelude.{
  if_either, ℕ, zero, suc, ◌≤◌, ◌<◌, ◌≡◌, ◌≢◌, refl, ap, ◌∙◌, inl, inr, true, false, Bool, ◌||◌,
  List, [], ◌∷◌, Option, none, some, get_elem?, length, get_or, length-set, get_elem?-set_self,
  get_elem?-set_ne, arith, ltb, ◌==◌, if◌then◌else◌, Bool-cases, ℤ, pos, negsuc,
}
use bta_utils.Fits.Outliers.{Arithmetic}
use bta_utils.Zernike.{reset_first, changed_at, reset_listed, add_listed, changed_coefficients}

-- An index is in a list of numbers.
abbrev pub is_listed : ℕ → List ℤ → Bool
is_listed i [] = false
is_listed i (negsuc c ∷ cs) = is_listed i cs
is_listed i (pos c ∷ cs) = (c == i) || is_listed i cs

none_ne_some {ℓ} : {A : Type ℓ} (a : A) → ¬ (none ≡ some a)
none_ne_some a h = ground arith

module _ {ℓ} {A : Type ℓ} ⦃arithmetic : Arithmetic A⦄ where
  -- A value with what a list of numbers and values adds to it, in its order.
  abbrev pub with_added : ℕ → List (ℤ × A) → A → A
  with_added i [] a = a
  with_added i ((negsuc c, v) ∷ cs) a = with_added i cs a
  with_added i ((pos c, v) ∷ cs) a = with_added i cs (if c == i then arithmetic.plus a v else a)

  length-changed_at : (c : ℤ) (f : A → A) (z : List A) → length (changed_at c f z) ≡ length z
  length-changed_at (negsuc c) f z = refl
  length-changed_at (pos c) f z =
      if_either (λ (l : List A). length l ≡ length z) (ltb c (length z))
        (length-set z c (f (get_or z c (arithmetic.constant 0)))) refl

  entry_in_bounds : (z : List A) (i : ℕ) (a : A) → get_elem? z i ≡ some a → i < length z
  entry_in_bounds [] i a h = absurd (none_ne_some a h)
  entry_in_bounds (x ∷ z) zero a h = omega arith
  entry_in_bounds (x ∷ z) (suc i) a h = omega (arith, entry_in_bounds z i a h)

  get_or_lem : (z : List A) (i : ℕ) (a d : A) → get_elem? z i ≡ some a → get_or z i d ≡ a
  get_or_lem [] i a d h = absurd (none_ne_some a h)
  get_or_lem (x ∷ z) zero a d h = ap (λ (o : Option A). elim o [ none ↦ x | some b ↦ b ]) h
  get_or_lem (x ∷ z) (suc i) a d h = get_or_lem z i a d h

  -- What is reset before or afterwards.
  zeroed_twice :
      (b c : Bool) (a : A)
      → let o = arithmetic.constant 0 in
        (if c then o else (if b then o else a)) ≡ (if b || c then o else a)
  zeroed_twice true true a = refl
  zeroed_twice true false a = refl
  zeroed_twice false c a = refl

  -- An entry behind one change.
  get_elem?-changed_at :
      (c i : ℕ) (f : A → A) (z : List A) (a : A)
      → get_elem? z i ≡ some a
      → get_elem? (changed_at (pos c) f z) i ≡ some (if c == i then f a else a)
  get_elem?-changed_at c i f z a h =
      let within = entry_in_bounds z i a h in
      let zero_value = arithmetic.constant 0 in
      elim (Bool-cases (c == i)) [
        | inl here ↦
            (let e : c ≡ i = ground arith in
              let test : ltb i (length z) ≡ true = ground arith in
              let test' : (i == i) ≡ true = ground arith in
              rw (e, test, test')
                (get_elem?-set_self z i (f (get_or z i zero_value)) within
                  ∙ ap (λ b. some (f b)) (get_or_lem z i a zero_value h)))
        | inr other ↦
            (let ne : c ≢ i = (λ e. absurd (ground arith)) in
              rw other (
                if_either (λ (l : List A). get_elem? l i ≡ some a) (ltb c (length z))
                  (get_elem?-set_ne z (f (get_or z c zero_value)) ne ∙ h) h))
      ]

  -- The first coefficients.
  next_entry :
      (n : ℕ) (c : A) (z z' : List A)
      → ((i : ℕ) (a : A)
          → get_elem? z i ≡ some a
          → get_elem? z' i ≡ some (if ltb i n then arithmetic.constant 0 else a))
      → (i : ℕ) (a : A) → get_elem? (c ∷ z) i ≡ some a
      → get_elem? (arithmetic.constant 0 ∷ z') i
        ≡ some (if ltb i (suc n) then arithmetic.constant 0 else a)
  next_entry n c z z' entries zero a h = (let t : ltb 0 (suc n) ≡ true = ground arith in rw t refl)
  next_entry n c z z' entries (suc i) a h =
      (let t : ltb (suc i) (suc n) ≡ ltb i n = ground arith in rw t (entries i a h))

  length-reset_first :
      (n : ℕ) (z : List A)
      → n ≤ length z
      → (z' : List A) × (reset_first n z ≡ some z')
        × (length z' ≡ length z)
        × ((i : ℕ) (a : A)
            → get_elem? z i ≡ some a
            → get_elem? z' i ≡ some (if ltb i n then arithmetic.constant 0 else a))
  unfolding reset_first
  length-reset_first zero z h =
      (z, refl, refl, λ i a e. (let t : ltb i 0 ≡ false = ground arith in rw t e))
  length-reset_first (suc n) [] h = absurd (omega arith)
  length-reset_first (suc n) (c ∷ z) h =
      let (z', runs, same, entries) = length-reset_first n z (omega arith) in
      (arithmetic.constant 0 ∷ z', rw runs refl, ap suc same, next_entry n c z z' entries)

  reset_first-none : (n : ℕ) (z : List A) → length z < n → reset_first n z ≡ none
  unfolding reset_first
  reset_first-none zero z h = absurd (omega arith)
  reset_first-none (suc n) [] h = refl
  reset_first-none (suc n) (c ∷ z) h = rw (reset_first-none n z (omega arith)) refl

  -- The listed ones.
  reset_listed_lem :
      (cs : List ℤ) (z : List A) (i : ℕ) (a : A)
      → get_elem? z i ≡ some a
      → get_elem? (reset_listed cs z) i ≡ some (if is_listed i cs then arithmetic.constant 0 else a)
  unfolding reset_listed
  reset_listed_lem [] z i a h = h
  reset_listed_lem (negsuc c ∷ cs) z i a h = reset_listed_lem cs z i a h
  reset_listed_lem (pos c ∷ cs) z i a h =
      let zeroed =
        reset_listed_lem cs (changed_at (pos c) (λ _. arithmetic.constant 0) z) i _
          (get_elem?-changed_at c i (λ _. arithmetic.constant 0) z a h) in
      zeroed ∙ ap some (zeroed_twice (c == i) (is_listed i cs) a)

  add_listed_lem :
      (cs : List (ℤ × A)) (z : List A) (i : ℕ) (a : A)
      → get_elem? z i ≡ some a
      → get_elem? (add_listed cs z) i ≡ some (with_added i cs a)
  unfolding add_listed
  add_listed_lem [] z i a h = h
  add_listed_lem ((negsuc c, v) ∷ cs) z i a h = add_listed_lem cs z i a h
  add_listed_lem ((pos c, v) ∷ cs) z i a h =
      add_listed_lem cs (changed_at (pos c) (λ b. arithmetic.plus b v) z) i _
        (get_elem?-changed_at c i (λ b. arithmetic.plus b v) z a h)

  length-reset_listed : (cs : List ℤ) (z : List A) → length (reset_listed cs z) ≡ length z
  unfolding reset_listed
  length-reset_listed [] z = refl
  length-reset_listed (c ∷ cs) z =
      length-reset_listed cs (changed_at c (λ _. arithmetic.constant 0) z)
      ∙ length-changed_at c (λ _. arithmetic.constant 0) z

  length-add_listed : (cs : List (ℤ × A)) (z : List A) → length (add_listed cs z) ≡ length z
  unfolding add_listed
  length-add_listed [] z = refl
  length-add_listed ((c, v) ∷ cs) z =
      length-add_listed cs (changed_at c (λ b. arithmetic.plus b v) z)
      ∙ length-changed_at c (λ b. arithmetic.plus b v) z

  -- Where at most as many first coefficients are to be reset as there are, the number of them stays,
  -- and each is 0 if it is one of the first or listed to be reset, else what it was, and the values
  -- listed for it are added in their order; numbers out of range change nothing. Where more are to
  -- be reset than there are, the array is written past its end.
  pub changed_coefficients_lem :
      (first : ℕ) (tozero : List ℤ) (added : List (ℤ × A)) (z : List A)
      → (length z < first → changed_coefficients first tozero added z ≡ none)
        × (first ≤ length z
            → (z' : List A) × (changed_coefficients first tozero added z ≡ some z')
              × (length z' ≡ length z)
              × ((i : ℕ) (a : A)
                  → get_elem? z i ≡ some a
                  → get_elem? z' i
                    ≡ some (
                        with_added i added (
                          if ltb i first || is_listed i tozero then arithmetic.constant 0 else a))))
  unfolding changed_coefficients
  changed_coefficients_lem first tozero added z = (
    λ few. rw (reset_first-none first z few) refl,
    λ enough.
        (let (z1, runs, same, entries) = length-reset_first first z enough in
          let z2 = reset_listed tozero z1 in
          (
            add_listed added z2,
            rw runs refl,
            length-add_listed added z2 ∙ length-reset_listed tozero z1 ∙ same,
            λ i a h. add_listed_lem added z2 i _ (
                reset_listed_lem tozero z1 i _ (entries i a h)
                ∙ ap some (zeroed_twice (ltb i first) (is_listed i tozero) a)),
          )),
  )

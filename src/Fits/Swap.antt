-- ===== src/Fits/Swap.antt =====
-- fits_headers/main.c: what an exchange of two entries, `ELEM_SWAP`, does.
use mathlib.Core.List.{Perm, Permᴰ}
use mathlib.Core.Logic.{∥∥₁_elim}
use native.Mathlib.Nat.{ℕ_set}
use mathlib.Core.List.Perm
use bta_utils.Prelude.{
  ℕ, zero, suc, ◌<◌, ◌≤◌, ◌≡◌, refl, ap, ◌∙◌, ◌⊎◌, false, List, [], ◌∷◌, length, length-set, set,
  get_or, ◌==◌, if◌then◌else◌, arith,
}
use bta_utils.Fits.{Items, entry, elem_swap}

module _ {ℓ} {A : Type ℓ} where
  get_or-set :
      (xs : List A) (i j : ℕ) (v d : A)
      → i < length xs
      → get_or (set xs i v) j d ≡ (if i == j then v else get_or xs j d)
  get_or-set [] i j v d h = absurd (omega arith)
  get_or-set (x ∷ xs) zero zero v d h = refl
  get_or-set (x ∷ xs) zero (suc j) v d h = ground arith
  get_or-set (x ∷ xs) (suc i) zero v d h = ground arith
  get_or-set (x ∷ xs) (suc i) (suc j) v d h = ground (arith, get_or-set xs i j v d)

  -- What a write puts in and what it puts out.
  traded :
      (xs : List A) (i : ℕ) (v d : A) → i < length xs → Perm (get_or xs i d ∷ set xs i v) (v ∷ xs)
  traded [] i v d h = absurd (omega arith)
  traded (x ∷ xs) zero v d h = Perm.swap v x xs
  traded (x ∷ xs) (suc i) v d h =
      let to_front = Perm.swap x (get_or xs i d) (set xs i v) in
      let in_tail = Perm.cons x (traded xs i v d (omega arith)) in
      Perm.trans to_front (Perm.trans in_tail (Perm.swap v x xs))

  -- The length is the native one, so the derivation of the permutation is walked.
  Permᴰ-length : {xs ys : List A} → Permᴰ xs ys → length xs ≡ length ys
  Permᴰ-length Permᴰ.nil = refl
  Permᴰ-length (Permᴰ.cons x p) = ap suc (Permᴰ-length p)
  Permᴰ-length (Permᴰ.swap x y) = refl
  Permᴰ-length (Permᴰ.trans p q) = Permᴰ-length p ∙ Permᴰ-length q

  pub length-Perm : {xs ys : List A} → Perm xs ys → length xs ≡ length ys
  length-Perm p = ∥∥₁_elim p (ℕ_set _ _) Permᴰ-length

-- Where the entry stood that an exchange brings to `k`.
abbrev pub swapped : ℕ → ℕ → ℕ → ℕ
swapped a b k = if b == k then a else if a == k then b else k

module _ {ℓ} {A : Type ℓ} ⦃items : Items A⦄ where
  abbrev pub Le : A → A → Type 0
  Le x y = items.gt x y ≡ false

  pub length-elem_swap : (arr : List A) (a b : ℕ) → length (elem_swap arr a b) ≡ length arr
  unfolding elem_swap
  length-elem_swap arr a b = simp length-set

  pub entry-elem_swap :
      (arr : List A) (a b k : ℕ)
      → a < length arr
      → b < length arr
      → entry (elem_swap arr a b) k ≡ entry arr (swapped a b k)
  unfolding elem_swap
  entry-elem_swap arr a b k ha hb =
      rw
        (
          get_or-set (set arr a (entry arr b)) b k (entry arr a) items.past_end (rw length-set hb),
          get_or-set arr a k (entry arr b) items.past_end ha,
        )
        (ground arith)

  elem_swap-Perm :
      (arr : List A) (a b : ℕ) → a < length arr → b < length arr → Perm (elem_swap arr a b) arr
  unfolding elem_swap
  elem_swap-Perm arr a b ha hb =
      let first = set arr a (entry arr b) in
      let at_b : entry first b ≡ entry arr b =
        ground (arith, get_or-set arr a b (entry arr b) items.past_end) in
      let out = traded first b (entry arr a) items.past_end (rw length-set hb) in
      let back = traded arr a (entry arr b) items.past_end ha in
      Perm.cons_inv (Perm.trans (rw at_b at out) back)

  -- Up to the place `c` no entry is greater than one from `c` on.
  abbrev pub Cut : ℕ → List A → Type 0
  Cut c arr = (i j : ℕ) → i < c → c ≤ j → j < length arr → Le (entry arr i) (entry arr j)

  -- An array that exchanges between `low` and `high` made of another: the cuts outside stay.
  pub record Rearranged (low high : ℕ) (arr arr' : List A) : Type ℓ where
    pub same : Perm arr' arr
    pub length-same : length arr' ≡ length arr
    pub cuts : (c : ℕ) → (c ≤ low) ⊎ (high < c) → Cut c arr → Cut c arr'

  pub elem_swap-Rearranged :
      (arr : List A) (low high a b : ℕ)
      → high < length arr
      → low ≤ a
      → a ≤ high
      → low ≤ b
      → b ≤ high
      → Rearranged low high arr (elem_swap arr a b)
  elem_swap-Rearranged arr low high a b fits a_from a_to b_from b_to = record {
    same = elem_swap-Perm arr a b (omega arith) (omega arith);
    length-same = length-elem_swap arr a b;
    cuts = λ c outside cut i j before after within.
        let within' : j < length arr = rw (length-elem_swap arr a b) at within in
        rw
          (
            entry-elem_swap arr a b i (omega arith) (omega arith),
            entry-elem_swap arr a b j (omega arith) (omega arith),
          )
          (cut (swapped a b i) (swapped a b j) (ground arith) (ground arith) (ground arith));
  }

  pub Rearranged-refl : (arr : List A) (low high : ℕ) → Rearranged low high arr arr
  Rearranged-refl arr low high = record {
    same = Perm.refl arr;
    length-same = refl;
    cuts = λ c outside cut. cut;
  }

  pub Rearranged-trans :
      {low high : ℕ} {a b c : List A}
      → Rearranged low high a b
      → Rearranged low high b c
      → Rearranged low high a c
  Rearranged-trans p q = record {
    same = Perm.trans q.same p.same;
    length-same = q.length-same ∙ p.length-same;
    cuts = λ k outside cut. q.cuts k outside (p.cuts k outside cut);
  }

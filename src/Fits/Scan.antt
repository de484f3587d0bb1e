-- ===== src/Fits/Scan.antt =====
-- fits_headers/main.c: the two inner loops of `quick_select`, which look for entries to exchange.
use bta_utils.Prelude.{
  ℕ, zero, suc, ◌+◌, ◌-◌, ◌<◌, ◌≤◌, ◌≡◌, ◌≢◌, inl, inr, Bool, true, false, List, some, arith,
  Bool-cases, false_ne, sym, ◌∙◌, ltb,
}
use bta_utils.Fits.{Items, entry, scan_up, scan_down}
use bta_utils.Fits.Swap.{Le}

-- What the comparison of values that are no NaN keeps to.
pub record IsOrder {ℓ} (A : Type ℓ) ⦃items : Items A⦄ : Type ℓ where
  pub le_trans : {a b c : A} → Le a b → Le b c → Le a c
  pub asym : {a b : A} → items.gt a b ≡ true → Le b a

pub le_refl {ℓ} : {A : Type ℓ} ⦃items : Items A⦄ → IsOrder A → (a : A) → Le a a
le_refl ⦃items = items⦄ o a = elim (Bool-cases (items.gt a a)) [ inl h ↦ o.asym h | inr h ↦ h ]

first_or_later :
    (P : ℕ → Type 0) (n r : ℕ)
    → P (suc n)
    → ((k : ℕ) → suc n < k → k < r → P k)
    → (k : ℕ) → n < k
    → k < r
    → P k
first_or_later P n r first later k after before = elim (Bool-cases (ltb (suc n) k)) [
  | inl h ↦ later k (ground arith) before
  | inr h ↦ (let e : k ≡ suc n = ground arith in rw e first)
]

last_or_earlier :
    (P : ℕ → Type 0) (n r : ℕ)
    → P (n - 1)
    → ((k : ℕ) → r < k → k < n - 1 → P k)
    → (k : ℕ) → r < k
    → k < n
    → P k
last_or_earlier P n r last earlier k after before = elim (Bool-cases (ltb k (n - 1))) [
  | inl h ↦ earlier k after (ground arith)
  | inr h ↦ (let e : k ≡ n - 1 = ground arith in rw e last)
]

module _ {ℓ} {A : Type ℓ} ⦃items : Items A⦄ where
  -- The place that a search finds after `start`, at the entry `stop` at the latest.
  pub record Up (arr : List A) (low start stop r : ℕ) : Type 0 where
    pub after : start < r
    pub until : r ≤ stop
    pub stops : Le (entry arr low) (entry arr r)
    pub less : (k : ℕ) → start < k → k < r → items.gt (entry arr low) (entry arr k) ≡ true

  pub record Down (arr : List A) (low start stop r : ℕ) : Type 0 where
    pub after : r < start
    pub until : stop ≤ r
    pub stops : Le (entry arr r) (entry arr low)
    pub more : (k : ℕ) → r < k → k < start → items.gt (entry arr k) (entry arr low) ≡ true

  apart :
      (arr : List A) (test : A → Bool) (k l : ℕ)
      → test (entry arr k) ≡ true
      → test (entry arr l) ≡ false
      → k ≢ l
  apart arr test k l holds fails e = false_ne (sym fails ∙ (rw e at holds))

  pub scan_up-Up :
      (fuel : ℕ) (arr : List A) (low start stop : ℕ)
      → start < stop
      → stop ≤ start + fuel
      → Le (entry arr low) (entry arr stop)
      → (r : ℕ) × (scan_up fuel arr low start ≡ some r) × Up arr low start stop r
  unfolding scan_up
  scan_up-Up zero arr low start stop lt enough le = absurd (omega arith)
  scan_up-Up (suc fuel) arr low start stop lt enough le =
      elim (Bool-cases (items.gt (entry arr low) (entry arr (suc start)))) [
        | inr here ↦ (
          suc start,
          rw here,
          record {
            after = omega arith;
            until = omega arith;
            stops = here;
            less = λ k a b. absurd (omega arith);
          },
        )
        | inl on ↦
            (let ne = apart arr (items.gt (entry arr low)) (suc start) stop on le in
              let (r, runs, up) =
                scan_up-Up fuel arr low (suc start) stop (omega arith) (omega arith) le in
              (
                r,
                rw on runs,
                record {
                  after = omega (arith, up.after);
                  until = up.until;
                  stops = up.stops;
                  less =
                      first_or_later (λ k. items.gt (entry arr low) (entry arr k) ≡ true) start r on
                        up.less;
                },
              ))
      ]

  pub scan_down-Down :
      (fuel : ℕ) (arr : List A) (low start stop : ℕ)
      → stop < start
      → start ≤ stop + fuel
      → Le (entry arr stop) (entry arr low)
      → (r : ℕ) × (scan_down fuel arr low start ≡ some r) × Down arr low start stop r
  unfolding scan_down
  scan_down-Down zero arr low start stop lt enough le = absurd (omega arith)
  scan_down-Down (suc fuel) arr low start stop lt enough le =
      elim (Bool-cases (items.gt (entry arr (start - 1)) (entry arr low))) [
        | inr here ↦ (
          start - 1,
          rw here,
          record {
            after = omega arith;
            until = omega arith;
            stops = here;
            more = λ k a b. absurd (omega arith);
          },
        )
        | inl on ↦
            (let ne = apart arr (λ a. items.gt a (entry arr low)) (start - 1) stop on le in
              let (r, runs, down) =
                scan_down-Down fuel arr low (start - 1) stop (omega arith) (omega arith) le in
              (
                r,
                rw on runs,
                record {
                  after = omega (arith, down.after);
                  until = down.until;
                  stops = down.stops;
                  more =
                      last_or_earlier (λ k. items.gt (entry arr k) (entry arr low) ≡ true) start r
                        on down.more;
                },
              ))
      ]

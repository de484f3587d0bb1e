-- ===== src/Acs/Passwords.antt =====
-- bta_print_header/bta_shdata.c: the passwords of the access levels.
-- `crypt` of the C library is an argument: the text that it gives for a password and a salt.
use bta_utils.Prelude.{
  ℕ, zero, suc, ◌≤◌, ◌<◌, ◌≡◌, refl, List, ◌++◌, get_or, arith, ◌==◌, if◌then◌else◌, Bool-cases,
  ◌⊎◌, inl, inr, codes, print_u, u32_of_bytes, ltb, lt→ltb, ==_iff, ap,
}
use native.Mathlib.Decide.{dec_le}
use mathlib.Core.Path.{subst}
use bta_utils.Acs.{Client, set_acckey}

module _ (crypt : List ℕ → List ℕ → List ℕ) where
  -- `encode_lev_passwd`: `*keylev` and `*codlev`. Eight bytes of the encrypted text behind the
  -- salt go to the key and to the code by turns.
  unfoldable pub encode_lev_passwd : List ℕ → ℕ → ℕ × ℕ
  encode_lev_passwd passwd nlev =
      let encr = crypt passwd (codes "L" ++ print_u nlev) in
      (
        u32_of_bytes (get_or encr 3 0) (get_or encr 5 0) (get_or encr 7 0) (get_or encr 9 0),
        u32_of_bytes (get_or encr 2 0) (get_or encr 4 0) (get_or encr 6 0) (get_or encr 8 0),
      )

  -- `code_Lev(x)`
  abbrev pub code_lev : List ℕ → ℕ → ℕ
  code_lev levels zero = 0
  code_lev levels (suc x) = get_or levels x 0

  -- The loop of `find_lev_passwd` from a level down: the level found and the key of it (or of the
  -- last level tried).
  unfoldable pub find_from : List ℕ → List ℕ → ℕ → ℕ → ℕ × ℕ
  find_from levels passwd zero key = (0, key)
  find_from levels passwd (suc n) key =
      let (key', cod) = encode_lev_passwd passwd (suc n) in
      let rest = find_from levels passwd n key' in
      if cod == code_lev levels (suc n) then (suc n, key') else rest

  unfoldable pub find_lev_passwd : List ℕ → List ℕ → ℕ × ℕ
  find_lev_passwd levels passwd = find_from levels passwd 5 0

  -- `check_lev_passwd`: the level, and the client with its key.
  unfoldable pub check_lev_passwd : List ℕ → List ℕ → Client → ℕ × Client
  check_lev_passwd levels passwd c =
      let (nlev, key) = find_lev_passwd levels passwd in
      (nlev, (if ltb 0 nlev then set_acckey key c else c))

  -- A level opens by a password: its code is the one that the password gives.
  abbrev pub Opens : List ℕ → List ℕ → ℕ → Type 0
  Opens levels passwd n = (encode_lev_passwd passwd n).1 ≡ code_lev levels n

  -- What a search from level `top` down is to give: no level of 1 to `top` opens, or the highest
  -- that opens, with its key.
  pub record Finds (levels passwd : List ℕ) (top : ℕ) (found : ℕ × ℕ) : Type 0 where
    pub in_range : found.0 ≤ top
    pub opens :
        (found.0 ≡ 0)
        ⊎ (Opens levels passwd found.0 × (found.1 ≡ (encode_lev_passwd passwd found.0).0))
    pub highest : (n : ℕ) → found.0 < n → n ≤ top → ¬ Opens levels passwd n

  extend :
      (levels passwd : List ℕ) (top : ℕ) {found : ℕ × ℕ}
      → ¬ Opens levels passwd (suc top)
      → Finds levels passwd top found
      → Finds levels passwd (suc top) found
  extend levels passwd top {found} shut f = record {
    in_range = omega arith;
    opens = f.opens;
    highest = λ n a b. elim (dec_le n top) [
      | yes le ↦ f.highest n a le
      | no gt' ↦ λ o. shut (subst (Opens levels passwd) (omega arith) o)
    ];
  }

  find_from-Finds :
      (levels passwd : List ℕ) (top key : ℕ)
      → Finds levels passwd top (find_from levels passwd top key)
  unfolding find_from
  find_from-Finds levels passwd zero key = record {
    in_range = omega arith;
    opens = inl refl;
    highest = λ n a b. absurd (omega arith);
  }
  find_from-Finds levels passwd (suc n) key =
      elim (Bool-cases ((encode_lev_passwd passwd (suc n)).1 == code_lev levels (suc n))) [
        | inl same ↦ rw same (record {
          in_range = omega arith;
          opens = inr ((==_iff _ _).0 same, refl);
          highest = λ m a b. absurd (omega arith);
        })
        | inr other ↦ rw other (
            extend levels passwd n (λ opened. cc (other, (==_iff _ _).1 opened))
              (find_from-Finds levels passwd n (encode_lev_passwd passwd (suc n)).0))
      ]

  -- No level of 1 to 5 opens by the password.
  abbrev pub NoneOpens : List ℕ → List ℕ → Type 0
  NoneOpens levels passwd = (n : ℕ) → 1 ≤ n → n ≤ 5 → ¬ Opens levels passwd n

  -- A password is checked against the codes of the levels: where no level opens, the answer is 0
  -- and the client keeps its key; else the answer is the highest level that opens, from 1 to 5, and
  -- the client has the key of that level.
  pub check_lev_passwd_lem :
      (levels passwd : List ℕ) (c : Client)
      → let (nlev, c') = check_lev_passwd levels passwd c in
        ((nlev ≡ 0) × (c' ≡ c) × NoneOpens levels passwd)
        ⊎ ((1 ≤ nlev)
            × (nlev ≤ 5)
            × Opens levels passwd nlev
            × (c' ≡ set_acckey (encode_lev_passwd passwd nlev).0 c)
            × ((n : ℕ) → nlev < n → n ≤ 5 → ¬ Opens levels passwd n))
  unfolding check_lev_passwd
  check_lev_passwd_lem levels passwd c =
      by_found (find_lev_passwd levels passwd)
        (unfold find_lev_passwd in find_from-Finds levels passwd 5 0)
    where
      both : {A : Type 0} → {n : ℕ} → (suc n ≡ 0) ⊎ A → A
      both (inl z) = absurd (omega arith)
      both (inr p) = p

      by_found :
          (found : ℕ × ℕ)
          → Finds levels passwd 5 found
          → ((found.0 ≡ 0)
              × ((if ltb 0 found.0 then set_acckey found.1 c else c) ≡ c)
              × NoneOpens levels passwd)
            ⊎ ((1 ≤ found.0)
                × (found.0 ≤ 5)
                × Opens levels passwd found.0
                × ((if ltb 0 found.0 then set_acckey found.1 c else c)
                    ≡ set_acckey (encode_lev_passwd passwd found.0).0 c)
                × ((n : ℕ) → found.0 < n → n ≤ 5 → ¬ Opens levels passwd n))
      by_found (zero, key) f = inl (refl, refl, λ n a b. f.highest n a b)
      by_found (suc l, key) f =
          let opened = both f.opens in
          inr (
            omega arith,
            f.in_range,
            opened.0,
            rw (lt→ltb 0 (suc l) (omega arith)) (ap (λ k. set_acckey k c) opened.1),
            f.highest,
          )

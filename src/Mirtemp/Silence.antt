-- ===== src/Mirtemp/Silence.antt =====
-- bta_mirtemp/main.c: a server that falls silent, and a temperature that is entered by hand.
use bta_utils.Prelude.{
  ◌+◌, ◌-◌, ◌<◌, ◌≡◌, refl, sym, ap, ◌∙◌, Bool, true, false, ◌||◌, none, List, [], ◌∷◌, ◌++◌, ltb,
  lt→ltb, if◌then◌else◌, arith, Bool-cases, inl, inr,
}
use bta_utils.Mirtemp.{
  Mirror, Daemon, Pass, Strtod, clear_flags, get_mir_t, with_silence, with_temp, main_pass,
  main_loop,
}

module _ {Temp : Type 0} (strtod : Strtod Temp) where
  -- The server gives no temperature in the passes.
  unfoldable pub AllFail : List (Pass Temp) → Type 0
  AllFail [] = Unit
  AllFail (p ∷ ps) = (get_mir_t Temp strtod p.reply ≡ none) × AllFail ps

module _ {Temp : Type 0} where
  -- The temperature is not shown as the sensor's, and its value is `v`.
  pub record Unshown (v : Temp) (m : Mirror Temp) : Type 0 where
    pub sensor_off : m.sensor_t3 ≡ false
    pub value_kept : m.val_t3 ≡ v

  transport_Unshown : (v : Temp) {m n : Mirror Temp} → n ≡ m → Unshown v m → Unshown v n
  transport_Unshown v e u = rw e u

  clear_flags-Unshown :
      (g : Bool) (v : Temp) (m : Mirror Temp) → Unshown v m → Unshown v (clear_flags Temp g m)
  unfolding clear_flags
  clear_flags-Unshown false v m u = u
  clear_flags-Unshown true v m u = clear_net m.net_t3
    where
      clear_net :
          (b : Bool) → Unshown v (if b then record m { net_hmd = false; sensor_t3 = false } else m)
      clear_net true = record { sensor_off = refl; value_kept = u.value_kept }
      clear_net false = u

  silence-Unshown :
      (p : Pass Temp) (v : Temp) (d : Daemon Temp)
      → Unshown v d.mirror
      → Unshown v (with_silence Temp p d).mirror
  silence-Unshown p v d u = elim (Bool-cases (ltb 900 (p.now - d.tlast))) [
    | inl late ↦ rw late (clear_flags-Unshown d.gotsegm v d.mirror u)
    | inr early ↦ rw early u
  ]

  clear_flags-clears :
      (m : Mirror Temp) → m.net_t3 ≡ true → Unshown m.val_t3 (clear_flags Temp true m)
  unfolding clear_flags
  clear_flags-clears m net =
      transport_Unshown m.val_t3
        (ap (λ b. if b then record m { net_hmd = false; sensor_t3 = false } else m) net)
        (record { sensor_off = refl; value_kept = refl })

  attached_eq :
      (d : Daemon Temp) (a : Bool) → d.gotsegm ≡ true → record d { gotsegm = d.gotsegm || a } ≡ d
  attached_eq d a e =
      ap (λ b. record d { gotsegm = b || a }) e ∙ ap (λ b. record d { gotsegm = b }) (sym e)

  silence-gotsegm : (p : Pass Temp) (d : Daemon Temp) → (with_silence Temp p d).gotsegm ≡ d.gotsegm
  silence-gotsegm p d = elim (Bool-cases (ltb 900 (p.now - d.tlast))) [
    | inl late ↦ rw late refl
    | inr early ↦ rw early refl
  ]

  -- A pass that is more than 15 minutes behind the last answer, and one that is not.
  late_silence :
      (p : Pass Temp) (d : Daemon Temp)
      → ltb 900 (p.now - d.tlast) ≡ true
      → d.gotsegm ≡ true
      → d.mirror.net_t3 ≡ true
      → Unshown d.mirror.val_t3 (with_silence Temp p d).mirror
  late_silence p d late got net =
      transport_Unshown d.mirror.val_t3
        (ap
            (λ b.
              (if b
                then record d { tlast = p.now; mirror = clear_flags Temp d.gotsegm d.mirror }
                else d).mirror)
            late
          ∙ ap (λ g. clear_flags Temp g d.mirror) got)
        (clear_flags-clears d.mirror net)

  early_silence :
      (p : Pass Temp) (d : Daemon Temp)
      → ltb 900 (p.now - d.tlast) ≡ false
      → with_silence Temp p d ≡ d
  early_silence p d early =
      ap
        (λ b.
          if b then record d { tlast = p.now; mirror = clear_flags Temp d.gotsegm d.mirror } else d)
        early

module _ {Temp : Type 0} (strtod : Strtod Temp) where
  failing_pass :
      (p : Pass Temp) (d : Daemon Temp)
      → d.gotsegm ≡ true
      → get_mir_t Temp strtod p.reply ≡ none
      → main_pass Temp strtod p d ≡ with_silence Temp p d
  unfolding main_pass
  failing_pass p d got fails =
      ap
        (λ o.
          with_temp Temp p.later o
            (with_silence Temp p (record d { gotsegm = d.gotsegm || p.attaches })))
        fails
      ∙ ap (with_silence Temp p) (attached_eq d p.attaches got)

  after_silence :
      (ps : List (Pass Temp)) (v : Temp) (d : Daemon Temp)
      → AllFail strtod ps
      → d.gotsegm ≡ true
      → Unshown v d.mirror
      → Unshown v (main_loop Temp strtod ps d).mirror
  unfolding main_loop AllFail
  after_silence [] v d all got u = u
  after_silence (p ∷ ps) v d (one, more) got u =
      transport_Unshown v (ap (λ e. (main_loop Temp strtod ps e).mirror) (failing_pass p d got one))
        (after_silence ps v (with_silence Temp p d) more (silence-gotsegm p d ∙ got)
          (silence-Unshown p v d u))

  -- Where the process has the segment, the mirror's temperature is flagged as come over the network,
  -- the server gives no temperature in any pass, and one of the passes is more than 15 minutes behind
  -- the last answer, the temperature is not shown as the sensor's in the end, and its value is what
  -- it was.
  pub main_loop-Unshown :
      (qs rs : List (Pass Temp)) (p : Pass Temp) (d : Daemon Temp)
      → AllFail strtod (qs ++ (p ∷ rs))
      → d.gotsegm ≡ true
      → d.mirror.net_t3 ≡ true
      → 900 + d.tlast < p.now
      → Unshown d.mirror.val_t3 (main_loop Temp strtod (qs ++ (p ∷ rs)) d).mirror
  unfolding main_loop AllFail
  main_loop-Unshown [] rs p d (one, more) got net late =
      transport_Unshown d.mirror.val_t3
        (ap (λ e. (main_loop Temp strtod rs e).mirror) (failing_pass p d got one))
        (after_silence rs d.mirror.val_t3 (with_silence Temp p d) more (silence-gotsegm p d ∙ got)
          (late_silence p d (lt→ltb 900 (p.now - d.tlast) (omega arith)) got net))
  main_loop-Unshown (q ∷ qs) rs p d (one, more) got net late =
      elim (Bool-cases (ltb 900 (q.now - d.tlast))) [
        | inl at_once ↦
            transport_Unshown d.mirror.val_t3
              (ap (λ e. (main_loop Temp strtod (qs ++ (p ∷ rs)) e).mirror)
                (failing_pass q d got one))
              (after_silence (qs ++ (p ∷ rs)) d.mirror.val_t3 (with_silence Temp q d) more
                (silence-gotsegm q d ∙ got) (late_silence q d at_once got net))
        | inr early ↦
            transport_Unshown d.mirror.val_t3
              (ap (λ e. (main_loop Temp strtod (qs ++ (p ∷ rs)) e).mirror)
                (failing_pass q d got one ∙ early_silence q d early))
              (main_loop-Unshown qs rs p d more got net late)
      ]

-- ===== src/Hivebus/Detector/Repeat.antt =====
-- The failure detector of crates/hivebus/src/main.rs acts on the time alone.
use hivebus.Prelude.{ℕ, ◌≡◌, refl, ap, Option, Bool, [], ◌∷◌, arith, Bool-cases, inl, inr}
use hivebus.Std.HashMap.{HashMap, retain, values_mut}
use hivebus.Std.Time.{SystemTime, Duration}
use hivebus.Proto.Node.{NodeInfo}
use hivebus.Hivebus.Members.{Members, master_from}
use hivebus.Hivebus.Detector.{age, is_recent, judge, flag, survivors, detect}
use hivebus.Hivebus.Detector.Flag.{master_from-flag}

module _ {ℓ} {K V : Type ℓ} where
  values_mut_comp :
      (f g : V → V) (m : HashMap K V) → values_mut f (values_mut g m) ≡ values_mut (λ v. f (g v)) m
  values_mut_comp f g [] = refl
  values_mut_comp f g ((k, v) ∷ m) = ap (◌∷◌ (k, f (g v))) (values_mut_comp f g m)

  values_mut_ext :
      (f g : V → V) (m : HashMap K V) → ((v : V) → f v ≡ g v) → values_mut f m ≡ values_mut g m
  values_mut_ext f g [] h = refl
  values_mut_ext f g ((k, v) ∷ m) h = ground (arith, h v, values_mut_ext f g m h)

  retain_again :
      (test : V → Bool) (f : V → V) (m : HashMap K V)
      → ((v : V) → test (f v) ≡ test v)
      → retain test (values_mut f (retain test m)) ≡ values_mut f (retain test m)
  unfolding retain
  retain_again test f [] h = refl
  retain_again test f ((k, v) ∷ m) h = elim (Bool-cases (test v)) [
    | inl p ↦ rw p (ground (arith, h v, retain_again test f m h))
    | inr p ↦ rw p (retain_again test f m h)
  ]

module _ (self_id : ℕ) (s d : Duration) (now : SystemTime) where
  judge_again :
      (id : Option ℕ) (n : NodeInfo)
      → judge s d now (flag id (judge s d now n)) ≡ flag id (judge s d now n)
  unfolding judge flag age
  judge_again id n = ground arith

  recent_again :
      (id : Option ℕ) (n : NodeInfo) → is_recent now (flag id (judge s d now n)) ≡ is_recent now n
  unfolding judge flag is_recent
  recent_again id n = ground arith

  survivors_again :
      (id : Option ℕ) (m : Members)
      → survivors s d now (values_mut (flag id) (survivors s d now m))
        ≡ values_mut (flag id) (survivors s d now m)
  unfolding survivors
  survivors_again id m =
      let kept = retain (is_recent now) m in
      let once = λ (n : NodeInfo). flag id (judge s d now n) in
      rw
        (
          values_mut_comp (flag id) (judge s d now) kept,
          retain_again (is_recent now) once m (recent_again id),
          values_mut_comp (judge s d now) once kept,
        )
        (values_mut_ext _ once kept (judge_again id))

  -- A second turn at the same time gives the same table as the first.
  pub detect_again :
      (m : Members) → detect self_id s d now (detect self_id s d now m) ≡ detect self_id s d now m
  unfolding detect
  detect_again m =
      let id = master_from (survivors s d now m) self_id in
      rw (survivors_again id m, master_from-flag, values_mut_comp (flag id) (flag id))
        (values_mut_ext _ (flag id) _ (λ n. unfold flag in refl))

-- ===== src/Postprocess/Distance.antt =====
-- src/postprocess/GapDistance.cpp, with `calculate_distance` of DisparityCalculator.cpp, over a type `D`
-- of doubles.
use project_viatech_ecids_co.Base.{
  ◌≡◌, refl, sym, subst, ap, ◌∙◌, ◌⊎◌, inl, inr, Bool, true, false, not, ◌&&◌, List, [], ◌∷◌, arith,
  if◌then◌else◌, All, Bool-cases,
}
use project_viatech_ecids_co.Common.Double.{Double, IsOrdered, Below, not_less, Below-trans}

pub record DisparityCalculator (D : Type 0) : Type 0 where
  pub baseline_mm : D
  pub focal_length_px : D

pub record GapDistance (D : Type 0) : Type 0 where
  pub disp_calc : DisparityCalculator D
  pub depth_reference_mm : D
  pub offset_mm : D

second_branch :
    {A : Type 0} (a b : Bool) (x y z : A)
    → a ≡ false
    → b ≡ true
    → (if a then x else (if b then y else z)) ≡ y
second_branch false true x y z e f = refl
second_branch false false x y z e f = ground arith
second_branch true b x y z e f = ground arith

third_branch :
    {A : Type 0} (a b : Bool) (x y z : A)
    → a ≡ false
    → b ≡ false
    → (if a then x else (if b then y else z)) ≡ z
third_branch false false x y z e f = refl
third_branch false true x y z e f = ground arith
third_branch true b x y z e f = ground arith

module _ {D : Type 0} ⦃d : Double D⦄ where
  abbrev pub zero_mm : D
  zero_mm = d.of_nat 0

  unfoldable pub init : GapDistance D → D → D → GapDistance D
  init g baseline_mm focal_length_px = record g {
    disp_calc = record { baseline_mm = baseline_mm; focal_length_px = focal_length_px };
  }

  unfoldable pub set_depth_reference : GapDistance D → D → GapDistance D
  set_depth_reference g ref_mm = record g { depth_reference_mm = ref_mm }

  unfoldable pub set_offset : GapDistance D → D → GapDistance D
  set_offset g offset_mm = record g { offset_mm = offset_mm }

  unfoldable pub calculate_distance : DisparityCalculator D → D → D
  calculate_distance c disparity_px =
      if d.lt disparity_px (d.tenths 1)
      then zero_mm
      else if d.lt c.focal_length_px (d.tenths 1)
      then zero_mm
      else d.div (d.mul c.baseline_mm c.focal_length_px) disparity_px

  unfoldable pub from_disparity : GapDistance D → D → D
  unfolding calculate_distance
  from_disparity g disparity_px =
      let dist = calculate_distance g.disp_calc disparity_px in
      if d.lt zero_mm dist && not (d.eq g.offset_mm zero_mm) then d.add dist g.offset_mm else dist

  -- How far the depth at a disparity is from the reference.
  abbrev pub depth_diff : GapDistance D → D → D
  depth_diff g disp = d.abs (d.sub (calculate_distance g.disp_calc disp) g.depth_reference_mm)

  -- The loop: the best disparity and its difference.
  unfoldable pub select_loop : GapDistance D → D → D → List D → D × D
  unfolding calculate_distance
  select_loop g best_disp best_diff [] = (best_disp, best_diff)
  select_loop g best_disp best_diff (disp ∷ rest) =
      let kept = select_loop g best_disp best_diff rest in
      let taken = select_loop g disp (depth_diff g disp) rest in
      if d.lt disp (d.tenths 1)
      then kept
      else if d.lt (depth_diff g disp) best_diff
      then taken
      else kept

  unfoldable pub select_best_disparity : GapDistance D → List D → D
  unfolding select_loop
  select_best_disparity g [] = zero_mm
  select_best_disparity g (c ∷ cs) =
      if d.le g.depth_reference_mm zero_mm then c else (select_loop g c d.huge (c ∷ cs)).0

  -- No usable candidate is nearer than the difference.
  abbrev pub NoneNearer : GapDistance D → D → List D → Type 0
  NoneNearer g diff cs =
      All (λ c. (d.lt c (d.tenths 1) ≡ true) ⊎ (d.lt (depth_diff g c) diff ≡ false)) cs

  -- One of the candidates, and at least a tenth.
  abbrev pub IsUsable : D → List D → Type 0
  IsUsable best [] = ⊥
  IsUsable best (c ∷ cs) = ((best ≡ c) × (d.lt c (d.tenths 1) ≡ false)) ⊎ IsUsable best cs

  select_low :
      (g : GapDistance D) (b e c : D) (cs : List D)
      → d.lt c (d.tenths 1) ≡ true
      → select_loop g b e (c ∷ cs) ≡ select_loop g b e cs
  unfolding select_loop
  select_low g b e c cs low = rw low refl

  select_near :
      (g : GapDistance D) (b e c : D) (cs : List D)
      → d.lt c (d.tenths 1) ≡ false
      → d.lt (depth_diff g c) e ≡ true
      → select_loop g b e (c ∷ cs) ≡ select_loop g c (depth_diff g c) cs
  unfolding select_loop
  select_near g b e c cs usable nearer = second_branch _ _ _ _ _ usable nearer

  select_far :
      (g : GapDistance D) (b e c : D) (cs : List D)
      → d.lt c (d.tenths 1) ≡ false
      → d.lt (depth_diff g c) e ≡ false
      → select_loop g b e (c ∷ cs) ≡ select_loop g b e cs
  unfolding select_loop
  select_far g b e c cs usable farther = third_branch _ _ _ _ _ usable farther

  -- What the loop's result must satisfy, after the candidates `cs`, from the difference `e`.
  abbrev Fits : GapDistance D → D → List D → D × D → Type 0
  Fits g e cs r = NoneNearer g r.1 cs × Below r.1 e

  select_loop-Fits :
      IsOrdered d → (g : GapDistance D) (b e : D) (cs : List D) → Fits g e cs (select_loop g b e cs)
  unfolding select_loop
  select_loop-Fits o g b e [] = (tt, inl refl)
  select_loop-Fits o g b e (c ∷ cs) =
      let m = depth_diff g c in
      let (near, below) = select_loop-Fits o g b e cs in
      let (near', below') = select_loop-Fits o g c m cs in
      elim (Bool-cases (d.lt c (d.tenths 1))) [
        | inl low ↦
            subst (Fits g e (c ∷ cs)) (sym (select_low g b e c cs low)) ((inl low, near), below)
        | inr usable ↦ elim (Bool-cases (d.lt m e)) [
          | inl nearer ↦ subst (Fits g e (c ∷ cs)) (sym (select_near g b e c cs usable nearer)) (
            (inr (not_less o m m _ below' (o.lt_irrefl m)), near'),
            Below-trans o _ m e below' nearer,
          )
          | inr farther ↦
              subst (Fits g e (c ∷ cs)) (sym (select_far g b e c cs usable farther))
                ((inr (not_less o m e _ below farther), near), below)
        ]
      ]

  -- The result belongs together: the difference is the disparity's, which is a usable candidate, or both
  -- are as they were.
  abbrev Belongs : GapDistance D → D → D → List D → D × D → Type 0
  Belongs g b e cs r = (IsUsable r.0 cs × (r.1 ≡ depth_diff g r.0)) ⊎ ((r.0 ≡ b) × (r.1 ≡ e))

  later :
      (g : GapDistance D) (b e c : D) (cs : List D) (r : D × D)
      → Belongs g b e cs r
      → Belongs g b e (c ∷ cs) r
  later g b e c cs r (inl (u, x)) = inl (inr u, x)
  later g b e c cs r (inr x) = inr x

  select_loop-Belongs :
      (g : GapDistance D) (b e : D) (cs : List D) → Belongs g b e cs (select_loop g b e cs)
  unfolding select_loop
  select_loop-Belongs g b e [] = inr (refl, refl)
  select_loop-Belongs g b e (c ∷ cs) =
      let m = depth_diff g c in
      let kept = later g b e c cs (select_loop g b e cs) (select_loop-Belongs g b e cs) in
      elim (Bool-cases (d.lt c (d.tenths 1))) [
        | inl low ↦ subst (Belongs g b e (c ∷ cs)) (sym (select_low g b e c cs low)) kept
        | inr usable ↦ elim (Bool-cases (d.lt m e)) [
          | inl nearer ↦
              subst (Belongs g b e (c ∷ cs)) (sym (select_near g b e c cs usable nearer))
                (own g b e c cs (select_loop g c m cs) usable (select_loop-Belongs g c m cs))
          | inr farther ↦
              subst (Belongs g b e (c ∷ cs)) (sym (select_far g b e c cs usable farther)) kept
        ]
      ]
    where
      own :
          (g : GapDistance D) (b e c : D) (cs : List D) (r : D × D)
          → d.lt c (d.tenths 1) ≡ false
          → Belongs g c (depth_diff g c) cs r
          → Belongs g b e (c ∷ cs) r
      own g b e c cs r usable (inl (u, x)) = inl (inr u, x)
      own g b e c cs r usable (inr (x, y)) = inl (inl (x, usable), y ∙ ap (depth_diff g) (sym x))

  abbrev Chosen : GapDistance D → D → List D → D → Type 0
  Chosen g c cs best =
      (IsUsable best (c ∷ cs) × NoneNearer g (depth_diff g best) (c ∷ cs))
      ⊎ ((best ≡ c) × NoneNearer g d.huge (c ∷ cs))

  select_looped :
      (g : GapDistance D) (c : D) (cs : List D)
      → d.le g.depth_reference_mm zero_mm ≡ false
      → select_best_disparity g (c ∷ cs) ≡ (select_loop g c d.huge (c ∷ cs)).0
  unfolding select_best_disparity
  select_looped g c cs h = rw h refl

  -- With a reference depth and at least one candidate, and comparisons that are ordered: one of the
  -- candidates that are at least a tenth is chosen, and none of these has a depth nearer to the reference; or
  -- else none has one nearer than 1e18 and the first candidate is chosen.
  pub select_best_disparity-NoneNearer :
      IsOrdered d
      → (g : GapDistance D) (c : D) (cs : List D) → d.le g.depth_reference_mm zero_mm ≡ false
      → let best = select_best_disparity g (c ∷ cs) in
        (IsUsable best (c ∷ cs) × NoneNearer g (depth_diff g best) (c ∷ cs))
        ⊎ ((best ≡ c) × NoneNearer g d.huge (c ∷ cs))
  select_best_disparity-NoneNearer o g c cs h =
      subst (Chosen g c cs) (sym (select_looped g c cs h)) (
        chosen (select_loop g c d.huge (c ∷ cs)) (select_loop-Belongs g c d.huge (c ∷ cs))
          (select_loop-Fits o g c d.huge (c ∷ cs)).0)
    where
      chosen :
          (r : D × D)
          → Belongs g c d.huge (c ∷ cs) r
          → NoneNearer g r.1 (c ∷ cs)
          → (IsUsable r.0 (c ∷ cs) × NoneNearer g (depth_diff g r.0) (c ∷ cs))
            ⊎ ((r.0 ≡ c) × NoneNearer g d.huge (c ∷ cs))
      chosen r (inl (u, x)) n = inl (u, subst (λ y. NoneNearer g y (c ∷ cs)) x n)
      chosen r (inr (x, y)) n = inr (x, subst (λ y. NoneNearer g y (c ∷ cs)) y n)

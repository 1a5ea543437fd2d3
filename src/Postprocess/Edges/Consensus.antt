-- ===== src/Postprocess/Edges/Consensus.antt =====
-- EdgeFitter.cpp: the line of `hybrid_ransac_fit` fits the largest set of inliers it met.
use project_viatech_ecids_co.Base.{
  ℕ, zero, suc, ◌+◌, ◌≤◌, ◌<◌, ◌≡◌, ◌≢◌, refl, sym, subst, ap, ◌∙◌, ◌⊎◌, inl, inr, Bool, true,
  false, not, ◌&&◌, List, if◌then◌else◌, if_false, ltb, leb, ◌==◌, length, get_or, keep, arith,
  Bool-cases, leb→le,
}
use project_viatech_ecids_co.Common.Double.{Double}
use project_viatech_ecids_co.Common.Geometry.{Point2D, Line2D}
use project_viatech_ecids_co.Postprocess.Edges.{
  Best, no_line, no_point, fit_line, is_inlier, line_through, count_inliers, try_pair, try_pairs,
  actual_iters, refit, hybrid_ransac_fit,
}

-- What an iteration does, by its two tests and the count of its candidate.
abbrev take_better : {D : Type 0} → Bool → Bool → ℕ → Line2D D → Best D → Best D
take_better same steep inliers candidate s =
    if same
    then s
    else if steep
    then s
    else if ltb s.best_inliers inliers
    then record { best_inliers = inliers; best_line = candidate }
    else s

take_better_up :
    {D : Type 0} (a b : Bool) (k : ℕ) (c : Line2D D) (s : Best D)
    → (s.best_inliers ≤ (take_better a b k c s).best_inliers)
take_better_up true b k c s = ground arith
take_better_up false true k c s = ground arith
take_better_up false false k c s = ground arith

take_better_covers :
    {D : Type 0} (a b : Bool) (k : ℕ) (c : Line2D D) (s : Best D)
    → (not a && not b) ≡ true
    → k ≤ (take_better a b k c s).best_inliers
take_better_covers true b k c s h = ground arith
take_better_covers false true k c s h = ground arith
take_better_covers false false k c s h = ground arith

less_of_leb : (a b : ℕ) → leb a b ≡ false → b < a
less_of_leb a b h = ground arith

not_less : (a b : ℕ) → leb a b ≡ true → ltb b a ≡ false
not_less a b h = ground arith

compare_eq : (i j : ℕ) → (i ≡ j) ⊎ (i ≢ j)
compare_eq i j = elim (Bool-cases (i == j)) [
  | inl e ↦ inl (ground arith)
  | inr e ↦ inr (ground arith)
]

module _ {D : Type 0} ⦃d : Double D⦄ (points : List (Point2D D)) (threshold : D) where
  abbrev pub first_of : ℕ × ℕ → Point2D D
  first_of (a, b) = get_or points a no_point

  abbrev pub second_of : ℕ × ℕ → Point2D D
  second_of (a, b) = get_or points b no_point

  abbrev same : ℕ × ℕ → Bool
  same (a, b) = a == b

  abbrev steep : ℕ × ℕ → Bool
  steep ab = d.lt (d.abs (d.sub (first_of ab).x (second_of ab).x)) d.tiny

  -- A drawn pair that gets past both `continue`s.
  abbrev pub usable : ℕ × ℕ → Bool
  usable ab = not (same ab) && not (steep ab)

  abbrev pub candidate : ℕ × ℕ → Line2D D
  candidate ab = line_through (first_of ab) (second_of ab)

  abbrev pub support : ℕ × ℕ → ℕ
  support ab = count_inliers threshold (candidate ab) points

  -- The best line is that of a usable pair of the draws below `n`, with its count, or there is none.
  abbrev pub Counted : (ℕ → ℕ × ℕ) → ℕ → Best D → Type 0
  Counted draws n s =
      ((j : ℕ) × ((j < n)
          × (usable (draws j) ≡ true)
          × (s.best_line ≡ candidate (draws j))
          × (s.best_inliers ≡ count_inliers threshold s.best_line points)))
      ⊎ (s.best_inliers ≡ 0)

  Counted-more :
      (draws : ℕ → ℕ × ℕ) (n m : ℕ) (s : Best D) → n ≤ m → Counted draws n s → Counted draws m s
  Counted-more draws n m s h (inl (j, (lo, u, at, c))) = inl (j, (omega arith, u, at, c))
  Counted-more draws n m s h (inr z) = inr z

  take_better-Counted :
      (draws : ℕ → ℕ × ℕ) (n i : ℕ) (a b : Bool) (s : Best D)
      → i < n
      → ((not a && not b) ≡ true → usable (draws i) ≡ true)
      → Counted draws n s
      → Counted draws n (take_better a b (support (draws i)) (candidate (draws i)) s)
  take_better-Counted draws n i true b s lo u h = h
  take_better-Counted draws n i false true s lo u h = h
  take_better-Counted draws n i false false s lo u h =
      elim (Bool-cases (ltb s.best_inliers (support (draws i)))) [
        | inl e ↦ rw e (inl (i, (lo, u refl, refl, refl)))
        | inr e ↦ rw e h
      ]

  abbrev next : ℕ × ℕ → Best D → Best D
  next ab s = take_better (same ab) (steep ab) (support ab) (candidate ab) s

  try_pair_lem : (ab : ℕ × ℕ) (s : Best D) → try_pair points threshold ab s ≡ next ab s
  unfolding try_pair
  try_pair_lem ab s = refl

  abbrev pub run : (ℕ → ℕ × ℕ) → ℕ → ℕ → Best D → Best D
  run draws i n s = try_pairs points threshold draws i n s

  run_one_more :
      (draws : ℕ → ℕ × ℕ) (n i : ℕ) (s : Best D)
      → run draws i (suc n) s ≡ run draws (suc i) n (next (draws i) s)
  unfolding try_pairs
  run_one_more draws n i s = ap (run draws (suc i) n) (try_pair_lem (draws i) s)

  run_up :
      (draws : ℕ → ℕ × ℕ) (n i : ℕ) (s : Best D) → s.best_inliers ≤ (run draws i n s).best_inliers
  unfolding try_pairs
  run_up draws zero i s = omega arith
  run_up draws (suc n) i s =
      subst (λ t. s.best_inliers ≤ t.best_inliers) (sym (run_one_more draws n i s))
        (omega (
          arith,
          take_better_up (same (draws i)) (steep (draws i)) (support (draws i))
              (candidate (draws i)) s,
          run_up draws n (suc i) (next (draws i) s),
        ))

  run-Counted :
      (draws : ℕ → ℕ × ℕ) (n i : ℕ) (s : Best D)
      → Counted draws i s
      → Counted draws (i + n) (run draws i n s)
  unfolding try_pairs
  run-Counted draws zero i s h = Counted-more draws i (i + 0) s (omega arith) h
  run-Counted draws (suc n) i s h =
      subst (Counted draws (i + suc n)) (sym (run_one_more draws n i s)) (
        Counted-more draws (suc i + n) (i + suc n) _ (omega arith) (
          run-Counted draws n (suc i) (next (draws i) s) (
            take_better-Counted draws (suc i) i (same (draws i)) (steep (draws i)) s (omega arith)
              (λ u. u) (Counted-more draws i (suc i) s (omega arith) h))))

  -- No usable pair of the `n` draws from `i` on has more than `k` inliers.
  abbrev pub NoneBetter : (ℕ → ℕ × ℕ) → ℕ → ℕ → ℕ → Type 0
  NoneBetter draws i n k =
      (j : ℕ) → i ≤ j → j < i + n → usable (draws j) ≡ true → support (draws j) ≤ k

  run-NoneBetter :
      (draws : ℕ → ℕ × ℕ) (n i : ℕ) (s : Best D)
      → NoneBetter draws i n (run draws i n s).best_inliers
  run-NoneBetter draws zero i s j lo hi u = omega arith
  run-NoneBetter draws (suc n) i s j lo hi u =
      subst (λ t. support (draws j) ≤ t.best_inliers) (sym (run_one_more draws n i s))
        (elim (compare_eq i j) [
          | inl e ↦
              subst (λ k. support (draws k) ≤ (run draws (suc i) n (next (draws i) s)).best_inliers)
                e
                (omega (
                  arith,
                  take_better_covers (same (draws i)) (steep (draws i)) (support (draws i))
                      (candidate (draws i)) s (subst (λ k. usable (draws k) ≡ true) (sym e) u),
                  run_up draws n (suc i) (next (draws i) s),
                ))
          | inr e ↦
              run-NoneBetter draws n (suc i) (next (draws i) s) j (omega arith) (omega arith) u
        ])

  -- The points fitted: all of them when no usable pair has two inliers, and else the inliers of the line
  -- of a usable pair. No usable pair has more inliers.
  abbrev pub Consensus : (ℕ → ℕ × ℕ) → ℕ → List (Point2D D) → Type 0
  Consensus draws n kept =
      (2 ≤ length kept)
      × (((kept ≡ points) × NoneBetter draws 0 n 1)
          ⊎ ((j : ℕ) × ((j < n)
                × (usable (draws j) ≡ true)
                × (kept ≡ keep (is_inlier threshold (candidate (draws j))) points)
                × NoneBetter draws 0 n (length kept))))

  refit_inliers :
      (s : Best D)
      → leb 2 s.best_inliers ≡ true
      → s.best_inliers ≡ count_inliers threshold s.best_line points
      → (refit points threshold s ≡ fit_line (keep (is_inlier threshold s.best_line) points))
        × (length (keep (is_inlier threshold s.best_line) points) ≡ s.best_inliers)
  unfolding refit count_inliers
  refit_inliers s h e =
      let n : leb 2 (length (keep (is_inlier threshold s.best_line) points)) ≡ true =
        subst (λ k. leb 2 k ≡ true) e h in
      (rw h (rw n refl), sym e)

  refit_everything :
      (s : Best D)
      → leb 2 s.best_inliers ≡ false
      → leb 2 (length points) ≡ true
      → refit points threshold s ≡ fit_line points
  unfolding refit
  refit_everything s h e = rw h (rw e refl)

  -- The result is the least squares line of two points or more that no usable pair outdoes.
  pub refit-Consensus :
      (draws : ℕ → ℕ × ℕ) (n : ℕ) (s : Best D)
      → leb 2 (length points) ≡ true
      → Counted draws n s
      → NoneBetter draws 0 n s.best_inliers
      → (kept : List (Point2D D)) × (refit points threshold s ≡ fit_line kept)
        × Consensus draws n kept
  refit-Consensus draws n s e counted best = elim (Bool-cases (leb 2 s.best_inliers)) [
    | inr h ↦ (
      points,
      refit_everything s h e,
      (
        ground arith,
        inl (refl, λ j lo hi u. omega (arith, best j lo hi u, less_of_leb 2 s.best_inliers h)),
      ),
    )
    | inl h ↦ elim counted [
      | inr z ↦ ground arith
      | inl (j, (lo, u, at, c)) ↦
          let (a, b) = refit_inliers s h c in
          (
            keep (is_inlier threshold s.best_line) points,
            a,
            (
              omega (arith, b, leb→le 2 s.best_inliers h),
              inr (
                j,
                (
                  lo,
                  u,
                  ap (λ (l : Line2D D). keep (is_inlier threshold l) points) at,
                  subst (NoneBetter draws 0 n) (sym b) best,
                ),
              ),
            ),
          )
    ]
  ]

  abbrev none : Best D
  none = record { best_inliers = 0; best_line = no_line }

  hybrid_run :
      (max_iterations : ℕ) (draws : ℕ → ℕ × ℕ)
      → leb 2 (length points) ≡ true
      → hybrid_ransac_fit points threshold max_iterations draws
        ≡ refit points threshold (run draws 0 (actual_iters max_iterations (length points)) none)
  unfolding hybrid_ransac_fit
  hybrid_run max_iterations draws e = if_false _ _ _ (not_less 2 (length points) e)

  -- On two points or more, `hybrid_ransac_fit` is the least squares line of two points or more: of all of
  -- them when no usable pair drawn has two inliers, and else of the inliers of the line of a usable pair that
  -- has as many as every usable pair drawn.
  pub hybrid_ransac_fit-Consensus :
      (max_iterations : ℕ) (draws : ℕ → ℕ × ℕ)
      → leb 2 (length points) ≡ true
      → (kept : List (Point2D D)) × (hybrid_ransac_fit points threshold max_iterations draws
          ≡ fit_line kept)
        × Consensus draws (actual_iters max_iterations (length points)) kept
  hybrid_ransac_fit-Consensus max_iterations draws e =
      let n = actual_iters max_iterations (length points) in
      let (kept, fitted, consensus) =
        refit-Consensus draws n (run draws 0 n none) e
          (Counted-more draws (0 + n) n _ (omega arith) (run-Counted draws n 0 none (inr refl)))
          (run-NoneBetter draws n 0 none) in
      (kept, hybrid_run max_iterations draws e ∙ fitted, consensus)

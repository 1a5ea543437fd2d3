-- ===== src/Postprocess/GapLines/Walk.antt =====
-- GapLocalizer.cpp: where the walk across the gap ends.
use project_viatech_ecids_co.Base.{
  ℕ, zero, suc, ◌≤◌, ◌<◌, ◌≡◌, refl, sym, subst, ap, ◌⊎◌, inl, inr, Bool, true, false, not, ◌||◌,
  arith, Bool-cases, if_false,
}
use project_viatech_ecids_co.Common.Double.{Double}
use project_viatech_ecids_co.Common.Geometry.{Point2D, Line2D}
use project_viatech_ecids_co.Postprocess.GapLines.{
  step, reached, walk, perp_of, perpendicular_to_line,
}

module _ {D : Type 0} ⦃d : Double D⦄ where
  -- The point after `k` steps.
  unfoldable pub after : D × D → ℕ → Point2D D → Point2D D
  after perp zero p = p
  after perp (suc k) p = after perp k (step perp p)

  -- The result is the first of the steps 1, …, `n` that has reached the edge, or else step `n`.
  abbrev pub Stops : D × D → Line2D D → ℕ → Point2D D → Point2D D → Type 0
  Stops perp end_edge n p q =
      (k : ℕ) × (q ≡ after perp k p)
      × (k ≤ n)
      × ((j : ℕ) → j < k → 0 < j → reached end_edge (after perp j p) ≡ false)
      × (((0 < k) × (reached end_edge q ≡ true)) ⊎ (k ≡ n))

  walk_round :
      (perp : D × D) (end_edge : Line2D D) (n : ℕ) (p : Point2D D) (b : Bool)
      → reached end_edge (step perp p) ≡ b
      → walk perp end_edge (suc n) p
        ≡ (elim b [ true ↦ step perp p | false ↦ walk perp end_edge n (step perp p) ])
  unfolding walk
  walk_round perp end_edge n p b e =
      ap (λ c. elim c [ true ↦ step perp p | false ↦ walk perp end_edge n (step perp p) ]) e

  after_step :
      (perp : D × D) (end_edge : Line2D D) (p : Point2D D) (j : ℕ)
      → reached end_edge (step perp p) ≡ false
      → 0 < j
      → ((i : ℕ) → suc i ≡ j → 0 < i → reached end_edge (after perp i (step perp p)) ≡ false)
      → reached end_edge (after perp j p) ≡ false
  unfolding after
  after_step perp end_edge p zero e z h = ground arith
  after_step perp end_edge p (suc zero) e z h = e
  after_step perp end_edge p (suc (suc j)) e z h = h (suc j) refl (omega arith)

  walk-Stops :
      (perp : D × D) (end_edge : Line2D D) (n : ℕ) (p : Point2D D)
      → Stops perp end_edge n p (walk perp end_edge n p)
  unfolding walk after
  walk-Stops perp end_edge zero p = (0, refl, omega arith, λ j h z. ground arith, inr refl)
  walk-Stops perp end_edge (suc n) p = elim (Bool-cases (reached end_edge (step perp p))) [
    | inl e ↦
        subst (Stops perp end_edge (suc n) p) (sym (walk_round perp end_edge n p true e))
          (1, refl, omega arith, λ j h z. ground arith, inl (omega arith, e))
    | inr e ↦ subst (Stops perp end_edge (suc n) p) (sym (walk_round perp end_edge n p false e)) (
        let (k, at, bound, before, end) = walk-Stops perp end_edge n (step perp p) in
        (
          suc k,
          at,
          omega arith,
          λ j h z. after_step perp end_edge p j e z (λ i s. before i (omega arith)),
          elim end [ inl r ↦ inl (omega arith, r.1) | inr m ↦ inr (omega arith) ],
        ))
  ]

  -- Between valid edges the end is the first point at or below the lower edge, of 10,000 steps at most.
  pub perpendicular_to_line-Stops :
      (start_edge end_edge : Line2D D) (start : Point2D D)
      → start_edge.valid ≡ true
      → end_edge.valid ≡ true
      → Stops
          (perp_of start_edge)
          end_edge
          10_000
          start
          (perpendicular_to_line start_edge end_edge start)
  unfolding perpendicular_to_line
  perpendicular_to_line-Stops start_edge end_edge start u v =
      subst (Stops (perp_of start_edge) end_edge 10_000 start)
        (sym (
          if_false (not start_edge.valid || not end_edge.valid) start
            (walk (perp_of start_edge) end_edge 10_000 start) (ground arith)))
        (walk-Stops (perp_of start_edge) end_edge 10_000 start)

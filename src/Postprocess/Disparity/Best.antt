-- ===== src/Postprocess/Disparity/Best.antt =====
-- DisparityCalculator.cpp: the disparity that matching chooses is the best of those that it tries.
use project_viatech_ecids_co.Base.{
  ℕ, zero, suc, ◌+◌, ◌≤◌, ◌<◌, ◌≡◌, refl, sym, subst, ◌⊎◌, ap, Bool, true, false, ◌&&◌, ◌||◌,
  Option, none, some, if◌then◌else◌, ltb, arith, Bool-cases, inl, inr,
}
use project_viatech_ecids_co.Common.Counting.{and_then, Ends, Ends-map, and_then-Ends}
use project_viatech_ecids_co.Common.Double.{Double, IsOrdered, Below, not_less, Below-trans}
use project_viatech_ecids_co.Postprocess.Disparity.{
  Mat, Window, window_of, min_of, match_window, keep_better, best_of, template_match,
}
use project_viatech_ecids_co.Postprocess.Disparity.Reads.{
  Read, IsBgra, match_window-Read, window_of-Inside,
}

module _ {D : Type 0} ⦃d : Double D⦄ (left right : Mat) (w : Window) where
  -- At a disparity the window covers pixels of both pictures, with this difference per pixel.
  abbrev pub Costs : ℕ → D → Type 0
  Costs k cost =
      (sad : ℕ) × (count : ℕ) × ((match_window left right w k ≡ some (sad, count))
        × ((0 < count) × (cost ≡ d.div (d.of_nat sad) (d.of_nat count))))

  -- No disparity from `from` to `to` that can be tried costs less.
  abbrev pub NoneCheaper : ℕ → ℕ → D → Type 0
  NoneCheaper from to cost =
      (k : ℕ) (c : D) → from ≤ k → k < to → k ≤ w.x0 → Costs k c → d.lt c cost ≡ false

  -- What the loop makes of the best so far.
  record Chosen (from to : ℕ) (best r : ℕ × D) : Type 0 where
    kept_or_tried : (r ≡ best) ⊎ ((from ≤ r.0) × ((r.0 < to) × ((r.0 ≤ w.x0) × Costs r.0 r.1)))
    cheaper : Below r.1 best.1
    least : NoneCheaper from to r.1

  -- One round: at `from` the window was matched, with `sad` over `count` pixels.
  module _ (o : IsOrdered d) (from to sad count : ℕ) (best r : ℕ × D)
      (matched : match_window left right w from ≡ some (sad, count)) (tried : from ≤ w.x0)
      (room : from < to) where
    abbrev norm : D
    norm = d.div (d.of_nat sad) (d.of_nat count)

    cost_here : (c : D) → Costs from c → (0 < count) × (c ≡ norm)
    cost_here c (sad', count', (e, (p, q))) = (ground arith, ground arith)

    least_here :
        ((0 < count) → d.lt norm r.1 ≡ false)
        → NoneCheaper (suc from) to r.1
        → NoneCheaper from to r.1
    least_here here least k c p q x costs = elim (Bool-cases (ltb from k)) [
      | inl later ↦ least k c (ground arith) q x costs
      | inr same ↦
          let e : k ≡ from = ground arith in
          let (some_pixel, cn) = cost_here c (subst (λ j. Costs j c) e costs) in
          subst (λ y. d.lt y r.1 ≡ false) (sym cn) (here some_pixel)
    ]

    abbrev Tried : ℕ → ℕ × D → Type 0
    Tried first t = (first ≤ t.0) × ((t.0 < to) × ((t.0 ≤ w.x0) × Costs t.0 t.1))

    was_tried : 0 < count → (r ≡ (from, norm)) ⊎ Tried (suc from) r → Tried from r
    was_tried p (inl e) =
        subst (λ t. Tried from t) (sym e)
          (omega arith, (room, (tried, (sad, count, (matched, (p, refl))))))
    was_tried p (inr (lo, rest)) = (omega arith, rest)

    earlier : (r ≡ best) ⊎ Tried (suc from) r → (r ≡ best) ⊎ Tried from r
    earlier (inl e) = inl e
    earlier (inr (lo, rest)) = inr (omega arith, rest)

    taken :
        0 < count
        → d.lt norm best.1 ≡ true
        → Chosen (suc from) to (from, norm) r
        → Chosen from to best r
    taken p lower c = record {
      kept_or_tried = inr (was_tried p c.kept_or_tried);
      cheaper = Below-trans o r.1 norm best.1 c.cheaper lower;
      least = least_here (λ _. not_less o norm norm r.1 c.cheaper (o.lt_irrefl norm)) c.least;
    }

    passed :
        ((0 < count) → d.lt norm best.1 ≡ false)
        → Chosen (suc from) to best r
        → Chosen from to best r
    passed higher c = record {
      kept_or_tried = earlier c.kept_or_tried;
      cheaper = c.cheaper;
      least = least_here (λ p. not_less o norm best.1 r.1 c.cheaper (higher p)) c.least;
    }

    better :
        (b : Bool)
        → ltb 0 count && d.lt norm best.1 ≡ b
        → Chosen (suc from) to (if b then (from, norm) else best) r
        → Chosen from to best r
    better true e c = taken (ground arith) (ground arith) c
    better false e c = passed (λ p. ground arith) c

  module _ (o : IsOrdered d) (reads : (k : ℕ) → Read (match_window left right w k)) (to : ℕ) where
    abbrev Rounds : ℕ → ℕ → Type 0
    Rounds rounds from =
        (best : ℕ × D) → Ends (Chosen from to best) (best_of left right w rounds from best)

    one_round :
        (rounds from : ℕ) (best : ℕ × D) (m : Option (ℕ × ℕ))
        → ltb w.x0 from ≡ false
        → from < to
        → match_window left right w from ≡ m
        → Read m
        → Rounds rounds (suc from)
        → Ends
            (Chosen from to best)
            (and_then m (λ s. best_of left right w rounds (suc from) (keep_better from best s)))
    one_round rounds from best none e p h r ih = absurd r
    one_round rounds from best (some (sad, count)) e p h r ih =
        Ends-map (Chosen (suc from) to (keep_better from best (sad, count))) (Chosen from to best)
          (best_of left right w rounds (suc from) (keep_better from best (sad, count)))
          (ih (keep_better from best (sad, count)))
          (λ r c. better o from to sad count best r h (ground arith) p _ refl c)

    stop_or_go :
        (b : Bool) (from : ℕ) (best : ℕ × D) (next : Option (ℕ × D))
        → ltb w.x0 from ≡ b
        → (b ≡ false → Ends (Chosen from to best) next)
        → Ends (Chosen from to best) (if b then some best else next)
    stop_or_go true from best next e h = record {
      kept_or_tried = inl refl;
      cheaper = inl refl;
      least = λ k c p q x. absurd (ground arith);
    }
    stop_or_go false from best next e h = h refl

    -- Every round that is made is better or passed.
    best_of-Chosen : (rounds from : ℕ) → from + rounds ≡ to → Rounds rounds from
    unfolding best_of
    best_of-Chosen zero from e best = record {
      kept_or_tried = inl refl;
      cheaper = inl refl;
      least = λ k c p q. absurd (omega arith);
    }
    best_of-Chosen (suc rounds) from e best = stop_or_go (ltb w.x0 from) from best _ refl (λ stays.
        one_round rounds from best (match_window left right w from) stays (omega arith) refl
          (reads from) (best_of-Chosen rounds (suc from) (omega arith)))

-- `b` is 0 when nothing costs less than the start value; otherwise it was tried, and nothing that can be
-- tried costs less per pixel.
abbrev pub IsBest : {D : Type 0} → Double D → Mat → Mat → Window → ℕ → Type 0
IsBest d left right w b =
    let tries = min_of 128 right.cols + 1 in
    ((b ≡ 0) × NoneCheaper ⦃d = d⦄ left right w 0 tries d.huge)
    ⊎ ((b < tries)
        × ((b ≤ w.x0)
            × ((cost : _) × (Costs ⦃d = d⦄ left right w b cost
                  × NoneCheaper ⦃d = d⦄ left right w 0 tries cost))))

module _ {D : Type 0} ⦃d : Double D⦄ (left right : Mat) where
  kept_or_tried-IsBest :
      (w : Window) (r : ℕ × D)
      → NoneCheaper left right w 0 (min_of 128 right.cols + 1) r.1
      → (r ≡ (0, d.huge))
        ⊎ ((0 ≤ r.0)
            × ((r.0 < min_of 128 right.cols + 1) × ((r.0 ≤ w.x0) × Costs left right w r.0 r.1)))
      → IsBest d left right w r.0
  kept_or_tried-IsBest w r least (inl e) = inl (
    ap (λ t. t.0) e,
    subst (λ t. NoneCheaper left right w 0 (min_of 128 right.cols + 1) t.1) e least,
  )
  kept_or_tried-IsBest w r least (inr (_, (p, (x, c)))) = inr (p, (x, (r.1, (c, least))))

  Chosen-IsBest :
      (w : Window) (r : ℕ × D)
      → Chosen left right w 0 (min_of 128 right.cols + 1) (0, d.huge) r
      → IsBest d left right w r.0
  Chosen-IsBest w r c = kept_or_tried-IsBest w r c.least c.kept_or_tried

  -- With ordered comparisons, pictures that have their four bytes for each pixel, and a window round a
  -- pixel of the left one of three pixels or more each way: no byte outside the pictures is read, and the
  -- result is a disparity that is best of those that can be tried, at most 128 and no wider than the window
  -- is from the left edge; it is 0 if none costs less than 1e18 per pixel.
  pub template_match-IsBest :
      (px py wr : ℕ)
      → IsOrdered d
      → IsBgra left
      → IsBgra right
      → px < left.cols
      → py < left.rows
      → 3 ≤ (window_of left.cols left.rows px py wr).tw
      → 3 ≤ (window_of left.cols left.rows px py wr).th
      → Ends
          (λ r.
            (b : ℕ) × ((r ≡ d.of_nat b)
              × IsBest d left right (window_of left.cols left.rows px py wr) b))
          (template_match left right px py wr)
  unfolding template_match
  template_match-IsBest px py wr o l r p q wide high =
      let w = window_of left.cols left.rows px py wr in
      let tries = min_of 128 right.cols + 1 in
      let small : ltb w.tw 3 || ltb w.th 3 ≡ false = ground arith in
      rw small (
        and_then-Ends (Chosen left right w 0 tries (0, d.huge)) _
          (best_of left right w tries 0 (0, d.huge)) (λ best. some (d.of_nat best.0))
          (best_of-Chosen left right w o
            (λ k.
              match_window-Read left right l r w k (window_of-Inside left right l r px py wr p q))
            tries tries 0 (omega arith) (0, d.huge))
          (λ best c. (best.0, (refl, Chosen-IsBest w best c))))

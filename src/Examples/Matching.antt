-- ===== src/Examples/Matching.antt =====
-- Runs of src/postprocess/DisparityCalculator.cpp.
use project_viatech_ecids_co.Base.{
  ℕ, ◌≡◌, refl, inl, List, [], ◌∷◌, ◌++◌, Option, some, none, arith,
}
use project_viatech_ecids_co.Common.Double.{Double, whole, whole-IsOrdered}
use project_viatech_ecids_co.Common.Geometry.{Point2D}
use project_viatech_ecids_co.Common.Counting.{Ends}
use project_viatech_ecids_co.Postprocess.Disparity.{
  Mat, window_of, template_match, calculate_disparity,
}
use project_viatech_ecids_co.Postprocess.Disparity.Best.{IsBest, template_match-IsBest}
use project_viatech_ecids_co.Postprocess.Disparity.Raw.{calculate_disparity-raw}

instance abbrev units : Double ℕ
units = whole

abbrev pixels : List ℕ → List ℕ
pixels [] = []
pixels (g ∷ gs) = g ∷ g ∷ g ∷ 255 ∷ pixels gs

-- Five columns and three rows; the right one has what the left one has, a pixel further left.
abbrev left : Mat
left = record {
  cols = 5;
  rows = 3;
  bytes = pixels (9 ∷ 1 ∷ 2 ∷ 3 ∷ 4 ∷ 9 ∷ 5 ∷ 6 ∷ 7 ∷ 8 ∷ 9 ∷ 1 ∷ 3 ∷ 5 ∷ 7 ∷ []);
}

abbrev right : Mat
right = record {
  cols = 5;
  rows = 3;
  bytes = pixels (1 ∷ 2 ∷ 3 ∷ 4 ∷ 0 ∷ 5 ∷ 6 ∷ 7 ∷ 8 ∷ 0 ∷ 1 ∷ 3 ∷ 5 ∷ 7 ∷ 0 ∷ []);
}

template_match-IsBest_example :
    Ends
      (λ r. (b : ℕ) × ((r ≡ b) × IsBest whole left right (window_of 5 3 2 1 1) b))
      (template_match left right 2 1 1)
unfolding window_of
template_match-IsBest_example =
    template_match-IsBest left right 2 1 1 whole-IsOrdered refl refl (omega arith) (omega arith)
      (omega arith) (omega arith)

one_to_the_left : template_match {D = ℕ} left right 2 1 1 ≡ some 1
unfolding template_match
one_to_the_left = refl

-- A picture of three bytes for each pixel, as a decoded JPG: the bytes are read past their end.
abbrev three_bytes : Mat
three_bytes = record {
  cols = 3;
  rows = 3;
  bytes = pixels (1 ∷ 2 ∷ 3 ∷ 4 ∷ 5 ∷ 6 ∷ []) ++ 7 ∷ 7 ∷ 7 ∷ [];
}

read_past_end : template_match {D = ℕ} three_bytes three_bytes 1 1 1 ≡ none
unfolding template_match
read_past_end = refl

abbrev no_picture : List ℕ → Option Mat
no_picture bytes = none

abbrev point : Point2D ℕ
point = record { x = 1; y = 1 }

calculate_disparity-raw_example :
    calculate_disparity no_picture (λ x. x) (1 ∷ 2 ∷ 3 ∷ 4 ∷ []) (5 ∷ []) point 15 ≡ none
calculate_disparity-raw_example =
    calculate_disparity-raw no_picture (λ x. x) (1 ∷ 2 ∷ 3 ∷ 4 ∷ []) (5 ∷ []) point 15 (inl refl)
      refl

-- ===== src/Examples/Dealer.antt =====
-- Runs of src/api2/DetectionDealer.cpp.
use project_viatech_ecids_co.Api2.Dealer.Sockets.{Library, new_dealer, starts, stops, run}
use project_viatech_ecids_co.Api2.Dealer.Sockets.Open.{IsTidy, run-IsTidy}
use project_viatech_ecids_co.Base.{
  ℕ, ◌≤◌, ◌≡◌, refl, ap, ◌⊎◌, inl, inr, [], ◌∷◌, Text, codes, ◌==◌, false, true, All, arith,
  if◌then◌else◌, any_of, ltb,
}
use project_viatech_ecids_co.Common.Decimal.{
  decimal, decimal_from, read_decimal, read_decimal-decimal,
}
use project_viatech_ecids_co.Api2.Dealer.{tokens, numbers, pair_up, parse_coordinates}
use project_viatech_ecids_co.Api2.Dealer.Coordinates.{
  ReadsBack, print_coordinates, parse_coordinates-print_coordinates,
}

abbrev show : ℕ → Text
show n = b'0' ∷ decimal n

abbrev stod : Text → Text ⊎ ℕ
stod t = if any_of (λ c. ltb 57 c) t then inl t else inr (read_decimal t)

-- A token that is no number puts the rest out of step.
out_of_step : parse_coordinates stod (codes "1,x,3,4") ≡ (1, 3) ∷ []
unfolding parse_coordinates tokens numbers pair_up read_decimal
out_of_step = refl

abbrev read : Text → Text ⊎ ℕ
read t = inr (read_decimal t)

no_comma : (cs : Text) → All (λ c. 48 ≤ c) cs → All (λ c. (b',' == c) ≡ false) cs
no_comma [] h = tt
no_comma (c ∷ cs) (h, hs) = (ground arith, no_comma cs hs)

show-ReadsBack : ReadsBack read show
unfolding read_decimal
show-ReadsBack n =
    ((refl, (ground arith, no_comma (decimal n) (decimal_from n))), ap inr (read_decimal-decimal n))

parse_coordinates-print_coordinates_example :
    parse_coordinates read (print_coordinates read show ((10, 20) ∷ (30, 40) ∷ []))
    ≡ (10, 20) ∷ (30, 40) ∷ []
parse_coordinates-print_coordinates_example =
    parse_coordinates-print_coordinates read show show-ReadsBack ((10, 20) ∷ (30, 40) ∷ [])

abbrev all_well : Library
all_well = record { makes_pub = true; binds = true; makes_sub = true; connects = true }

abbrev no_connection : Library
no_connection = record { makes_pub = true; binds = true; makes_sub = true; connects = false }

run-IsTidy_example :
    IsTidy (run new_dealer (starts no_connection ∷ starts all_well ∷ stops ∷ starts all_well ∷ []))
run-IsTidy_example =
    run-IsTidy (starts no_connection ∷ starts all_well ∷ stops ∷ starts all_well ∷ [])

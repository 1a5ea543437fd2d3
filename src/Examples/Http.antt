-- ===== src/Examples/Http.antt =====
-- Runs of src/api3/ClientServer.cpp.
use project_viatech_ecids_co.Base.{
  ℕ, ◌≤◌, ◌≡◌, refl, ap, ◌∙◌, true, List, [], ◌∷◌, ◌++◌, Option, some, Text, codes, leb, All, arith,
  if◌then◌else◌, if_true, le→leb,
}
use project_viatech_ecids_co.Common.Decimal.{
  decimal, decimal_from, read_decimal, read_decimal-decimal,
}
use project_viatech_ecids_co.Api3.Http.{
  Read, got, want, http_response, route, replied, handle_client, content_length,
}
use project_viatech_ecids_co.Api3.Http.Parse.{ends, joined, IsRequest}
use project_viatech_ecids_co.Api3.Http.Exchange.{bytes_of, Arrives}
use project_viatech_ecids_co.Api3.Http.Answer.{ReadsLines, handle_client-request}

abbrev number_prefix : Text → Text
number_prefix [] = []
number_prefix (c ∷ s) = if leb 48 c then c ∷ number_prefix s else []

abbrev stoul : Text → Option ℕ
stoul s = some (read_decimal (number_prefix s))

number_prefix_stops : (cs rest : Text) → All (λ c. 48 ≤ c) cs → number_prefix (cs ++ 13 ∷ rest) ≡ cs
number_prefix_stops [] rest h = refl
number_prefix_stops (c ∷ cs) rest (h, hs) =
    if_true (leb 48 c) (c ∷ number_prefix (cs ++ 13 ∷ rest)) [] (le→leb 48 c h)
    ∙ ap (◌∷◌ c) (number_prefix_stops cs rest hs)

stoul-ReadsLines : ReadsLines stoul
stoul-ReadsLines n rest =
    ap (λ s. some (read_decimal s)) (number_prefix_stops (decimal n) rest (decimal_from n))
    ∙ ap some (read_decimal-decimal n)

abbrev handler : Text → Text → Text → Text
handler method path body = method ++ path ++ body

abbrev lines : List Text
lines = codes "Host: core" ∷ codes "Content-Length: 5" ∷ []

abbrev pieces : List Read
pieces =
    want
    ∷ got (codes "POST /SetMode HT")
    ∷ got (codes "TP/1.1" ++ 13 ∷ 10 ∷ (codes "Host: core" ++ 13 ∷ []))
    ∷ want
    ∷ got (10 ∷ (codes "Content-Length: 5" ++ 13 ∷ 10 ∷ 13 ∷ 10 ∷ codes "he"))
    ∷ got (codes "llo")
    ∷ []

set_mode-IsRequest : IsRequest (codes "POST") (codes "/SetMode") (codes "HTTP/1.1") lines
set_mode-IsRequest = record {
  method_one = ground arith;
  version_one = ground arith;
  no_feed = ground arith;
  no_return = ground arith;
  lines = ground arith;
}

handle_client-request_example :
    handle_client stoul (some handler) true pieces
    ≡ some (
        replied
          (http_response (route (some handler) (codes "POST") (codes "/SetMode") (codes "hello"))))
unfolding Arrives bytes_of ends joined content_length read_decimal
handle_client-request_example =
    handle_client-request stoul (some handler) pieces (codes "POST") (codes "/SetMode")
      (codes "HTTP/1.1") lines (codes "hello") set_mode-IsRequest tt refl refl

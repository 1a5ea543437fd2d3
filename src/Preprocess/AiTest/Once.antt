-- ===== src/Preprocess/AiTest/Once.antt =====
-- PreprocessModule.cpp: which files an AI test sends.
use project_viatech_ecids_co.Base.{ℕ, List, [], Text, Option, none, some, total, All}
use project_viatech_ecids_co.Common.Double.{Double}
use project_viatech_ecids_co.Preprocess.Send.{Request, binary_request, file_request, no_request}
use project_viatech_ecids_co.Preprocess.AiTest.{LoopEnd, completed, not_found, thrown}
use project_viatech_ecids_co.Preprocess.AiTest.Together.{IsTogether}
use project_viatech_ecids_co.Preprocess.AiTest.Pairs.{count}

module _ (p : Text) where
  abbrev pub count_request : Request → ℕ
  count_request no_request = 0
  count_request (binary_request ts l r) = 0
  count_request (file_request ts uris names) = count p uris

  -- How often the path stands in the requests of a loop that completes.
  abbrev pub times_sent : {D : Type 0} → LoopEnd D → Option ℕ
  times_sent not_found = none
  times_sent thrown = none
  times_sent (completed reqs m) = some (total count_request reqs)

abbrev pub uris_of : Request → List Text
uris_of no_request = []
uris_of (binary_request ts l r) = []
uris_of (file_request ts uris names) = uris

-- The loop completes, and each of its requests is of one file or of the halves of one suffix.
abbrev pub SentTogether : {D : Type 0} → LoopEnd D → Type 0
SentTogether not_found = ⊥
SentTogether thrown = ⊥
SentTogether (completed reqs m) = All (λ q. IsTogether (uris_of q)) reqs

-- ===== src/Preprocess/AiTest.antt =====
-- src/preprocess/PreprocessModule.cpp: `ai_test_loop_` and `process_pair_file_`. A path is its bytes. What
-- `cv::imread` and `cv::imencode` make of a file is an argument: nothing, if it cannot be read.
pub mod Once
pub mod Pairs
pub mod Together
use project_viatech_ecids_co.Base.{
  ℕ, zero, suc, ◌+◌, ◌-◌, Bool, true, false, not, ◌&&◌, ◌||◌, String, List, [], ◌∷◌, ◌++◌, map,
  Text, codes, text_lt, Option, none, some, ltb, leb, if◌then◌else◌, ◌==◌, is_empty, length, lookup,
  assign, erase, keep, any_of, string_eq, text_eq,
}
use project_viatech_ecids_co.Common.Double.{Double}
use project_viatech_ecids_co.Common.Modes.{InspectionSubTask}
use project_viatech_ecids_co.Common.Frames.{DataBundle, blank_header, blank_bundle}
use project_viatech_ecids_co.Common.Sorting.{sort}
use project_viatech_ecids_co.Preprocess.{PreprocessModule, PendingRequest}
use project_viatech_ecids_co.Preprocess.Send.{Request, file_request, no_request}

-- Before and after the first one of a byte; the byte belongs to neither.
abbrev pub cut_first : ℕ → Text → Option (Text × Text)
cut_first b [] = none
cut_first b (c ∷ s) =
    if c == b
    then some ([], s)
    else elim (cut_first b s) [ none ↦ none | some (before, after) ↦ some (c ∷ before, after) ]

-- Before the last one of a byte, and from it on.
abbrev pub cut_last : ℕ → Text → Option (Text × Text)
cut_last b [] = none
cut_last b (c ∷ s) = elim (cut_last b s) [
  | some (before, rest) ↦ some (c ∷ before, rest)
  | none ↦ if c == b then some ([], c ∷ s) else none
]

-- `path.filename()`, for a path with no slash at its end.
unfoldable pub filename : Text → Text
filename path = elim (cut_last b'/' path) [
  | none ↦ path
  | some (before, rest) ↦ elim rest [ [] ↦ [] | slash ∷ name ↦ name ]
]

-- A dot at the beginning begins no extension.
abbrev pub stem_and_extension : Text → Text × Text
stem_and_extension name = elim (cut_last b'.' name) [
  | none ↦ (name, [])
  | some (before, rest) ↦ if is_empty before then (name, []) else (before, rest)
]

unfoldable pub stem : Text → Text
unfolding filename
stem path = (stem_and_extension (filename path)).0

unfoldable pub extension : Text → Text
unfolding filename
extension path = (stem_and_extension (filename path)).1

abbrev pub tolower : ℕ → ℕ
tolower c = if leb b'A' c && leb c b'Z' then c + 32 else c

abbrev pub is_one_of : Text → List Text → Bool
is_one_of t ts = any_of (λ u. text_eq.beq t u) ts

unfoldable pub is_image : Text → Bool
unfolding extension
is_image path =
    is_one_of (map tolower (extension path))
      (codes ".jpg" ∷ codes ".jpeg" ∷ codes ".png" ∷ codes ".bmp" ∷ [])

pub record DirEntry : Type 0 where
  pub is_regular_file : Bool
  pub path : Text

unfoldable pub images_of : List DirEntry → List Text
unfolding is_image
images_of [] = []
images_of (e ∷ es) =
    if e.is_regular_file && is_image e.path then e.path ∷ images_of es else images_of es

pub data Side : Type 0 where
  left_side right_side : Side

abbrev pub side_of : Text → Option Side
side_of prefix =
    if is_one_of prefix (codes "1" ∷ codes "L" ∷ codes "l" ∷ codes "left" ∷ [])
    then some left_side
    else if is_one_of prefix (codes "2" ∷ codes "R" ∷ codes "r" ∷ codes "right" ∷ [])
    then some right_side
    else none

abbrev pub with_suffix : Option Side → Text → Option (Side × Text)
with_suffix none suffix = none
with_suffix (some side) suffix = some (side, suffix)

-- Of the parts before and after the underscore.
abbrev pub slot_in : Option (Text × Text) → Option (Side × Text)
slot_in none = none
slot_in (some (prefix, suffix)) =
    if is_empty prefix then none else with_suffix (side_of prefix) suffix

-- The side of a file and the suffix that it shares with its other half.
unfoldable pub slot_of : Text → Option (Side × Text)
unfolding stem
slot_of f = slot_in (cut_first b'_' (stem f))

-- The paths of a pair; an empty one is none.
abbrev pub PathPair : Type 0
PathPair = Text × Text

abbrev pub pair_or_new : Option PathPair → PathPair
pair_or_new none = ([], [])
pair_or_new (some lr) = lr

abbrev pub set_side : Side → Text → PathPair → PathPair
set_side left_side f (l, r) = (f, r)
set_side right_side f (l, r) = (l, f)

-- `pairs`, by the suffix, and the paths that are used.
abbrev pub add_slot :
    Option (Side × Text)
    → Text
    → List (Text × PathPair) × List Text
    → List (Text × PathPair) × List Text
add_slot none f (pairs, used) = (pairs, used)
add_slot (some (side, suffix)) f (pairs, used) =
    (assign suffix (set_side side f (pair_or_new (lookup suffix pairs))) pairs, f ∷ used)

unfoldable pub pair_up :
    List Text → List (Text × PathPair) × List Text → List (Text × PathPair) × List Text
unfolding slot_of
pair_up [] s = s
pair_up (f ∷ fs) s = pair_up fs (add_slot (slot_of f) f s)

abbrev pub not_blank : PathPair → Bool
not_blank (l, r) = not (is_empty l) || not (is_empty r)

abbrev pub sort_key : PathPair → Text
sort_key (l, r) = stem (if is_empty l then r else l)

abbrev pub key_lt : PathPair → PathPair → Bool
key_lt a b = text_lt (sort_key a) (sort_key b)

abbrev pub pair_in : Text × PathPair → PathPair
pair_in (suffix, lr) = lr

abbrev pub alone : Text → PathPair
alone f = (f, [])

-- No two entries have the same key, so that the order of the dictionary makes no difference.
unfoldable pub entries_of : List Text → List PathPair
unfolding pair_up stem
entries_of files =
    let (pairs, used) = pair_up files ([], []) in
    sort key_lt (keep not_blank (map pair_in pairs))
    ++ map alone (keep (λ f. not (is_one_of f used)) files)

abbrev pub given_paths : PathPair → List Text
given_paths (l, r) = (if is_empty l then [] else l ∷ []) ++ (if is_empty r then [] else r ∷ [])

-- What a round of the loop meets: `running_`, the ids that other threads have taken from the table since
-- the round before, the time stamp of the request, and the time that its table entry is made.
pub record Turn : Type 0 where
  pub running : Bool
  pub answered : List String
  pub ts : String
  pub created_at : ℕ

-- What becomes of `ai_test_loop_`: it returns with no callback, it throws, which ends the program, or it
-- calls `completion_callback_`.
pub data LoopEnd (D : Type 0) : Type 0 where
  not_found : LoopEnd D
  thrown : LoopEnd D
  completed : List Request → PreprocessModule D → LoopEnd D

-- What stands at `test_data_path_`.
pub data TestData : Type 0 where
  nothing_there no_folder : TestData
  folder : List DirEntry → TestData

abbrev pub ai_test_bundle : (Text → List ℕ) → Text → DataBundle
ai_test_bundle jpeg_of path =
    let jpeg = if is_empty path then [] else jpeg_of path in
    if is_empty jpeg
    then blank_bundle
    else record { header = record (blank_header) { channel = "ai_test" }; bytes = jpeg }

abbrev erase_all : {V : Type 0} → List String → List (String × V) → List (String × V)
erase_all [] m = m
erase_all (k ∷ ks) m = erase_all ks (erase k m)

abbrev pub without : {D : Type 0} → List String → PreprocessModule D → PreprocessModule D
without ids p = record p { pending = erase_all ids p.pending }

module _ {D : Type 0} ⦃d : Double D⦄ (jpeg_of : Text → List ℕ) where
  unfoldable pub process_pair_file :
      PreprocessModule D → Turn → PathPair → Request × PreprocessModule D
  unfolding filename
  process_pair_file p t lr =
      let uris = given_paths lr in
      let request : PendingRequest D = record {
        transaction_id = t.ts;
        left = ai_test_bundle jpeg_of lr.0;
        right = ai_test_bundle jpeg_of lr.1;
        pair_index = p.pair_index;
        sub_task = InspectionSubTask.none;
        working_distance_mm = d.of_nat 0;
        created_at = t.created_at;
      } in
      (
        if p.has_dealer then file_request t.ts uris (map filename uris) else no_request,
        record p { pair_index = p.pair_index + 1; pending = assign t.ts request p.pending },
      )

  -- A turn for each entry; where they end, `running_` is not set.
  unfoldable pub process_entries :
      PreprocessModule D → List Turn → List PathPair → List Request × PreprocessModule D
  unfolding process_pair_file
  process_entries p ts [] = ([], p)
  process_entries p [] (e ∷ es) = ([], p)
  process_entries p (t ∷ ts) (e ∷ es) =
      let (req, p') = process_pair_file (without t.answered p) t e in
      let (reqs, p'') = process_entries p' ts es in
      if t.running then (req ∷ reqs, p'') else ([], without t.answered p)

  unfoldable pub ai_test_loop : PreprocessModule D → List Turn → TestData → LoopEnd D
  unfolding images_of entries_of process_entries
  ai_test_loop p ts nothing_there = not_found
  ai_test_loop p ts no_folder = thrown
  ai_test_loop p ts (folder es) =
      let (reqs, p') = process_entries p ts (entries_of (images_of es)) in completed reqs p'

-- ===== src/App/History.antt =====
-- src/main.cpp: `scan_inspection_records`. What is on the disk is an argument, as the JSON library's reading
-- of a file is: each value is `none` where it throws. The order that `std::sort` leaves records of one date
-- in is that of the insertion sort of Common.Sorting.
pub mod Names
use project_viatech_ecids_co.Base.{
  ℕ, ◌+◌, Bool, true, false, not, ◌&&◌, ◌||◌, List, [], ◌∷◌, ◌++◌, Option, none, some, Text, codes,
  if◌then◌else◌, ltb, leb, ◌==◌, length, drop, get_or, is_empty, put_first, map, keep, text_lt,
}
use project_viatech_ecids_co.Common.Double.{Double}
use project_viatech_ecids_co.Common.Sorting.{sort}
use project_viatech_ecids_co.Database.Records.{◌/◌}
use project_viatech_ecids_co.Api3.Http.{starts}

abbrev pub inspection_prefix : Text
inspection_prefix = codes "(Inspection)"

abbrev pub ai_test_prefix : Text
ai_test_prefix = codes "(AI Test)"

-- The parts of a text between its dashes.
abbrev pub tokens : Text → List Text
tokens [] = [] ∷ []
tokens (c ∷ s) = if c == b'-' then [] ∷ tokens s else put_first c (tokens s)

-- What the name of a record's folder says.
pub record Named : Type 0 where
  pub is_ai_test : Bool
  pub date_str : Text
  pub time_str : Text
  pub station : Text
  pub escalator : Text
  pub task : Text

-- A token, if there are so many.
abbrev token_of : Bool → List Text → ℕ → Text
token_of ai toks i = if not ai && leb (i + 1) (length toks) then get_or toks i [] else []

unfoldable pub read_name : Text → Named
read_name dirname =
    let ai = starts ai_test_prefix dirname in
    let prefix = if ai then ai_test_prefix else inspection_prefix in
    let toks = tokens (drop (length prefix) dirname) in
    let tok : ℕ → Text = λ i. get_or toks i [] in
    record {
      is_ai_test = ai;
      date_str =
          if leb 3 (length toks)
          then tok 0 ++ (codes "-" ++ (tok 1 ++ (codes "-" ++ tok 2)))
          else [];
      time_str =
          if leb 6 (length toks)
          then tok 3 ++ (codes ":" ++ (tok 4 ++ (codes ":" ++ tok 5)))
          else [];
      station = token_of ai toks 6;
      escalator = token_of ai toks 7;
      task = token_of ai toks 8;
    }

-- A file `Stereo_*.json`: its distance, and the confidences of its detections, if they are a list.
pub record StereoFile (D : Type 0) : Type 0 where
  pub gap_distance_mm : Option D
  pub confidences : List (Option D)

pub record Statistics (D : Type 0) : Type 0 where
  pub gap_sum : D
  pub gap_count : ℕ
  pub gaps_over5 : ℕ
  pub defects : ℕ
  pub step_count : ℕ

-- The tree below the root, of which a folder at the depth of a record has its path and its name.
pub record Disk (D : Type 0) : Type 0 where
  pub exists : Text → Bool
  pub found : List (Text × Text)
  pub has_files : Text → Bool
  pub stereo_files : Text → List (StereoFile D)

pub record Listed (D : Type 0) : Type 0 where
  pub id : Text
  pub path : Text
  pub inspection_date : Text
  pub station_id : Text
  pub escalator_id : Text
  pub task_id : Text
  pub operation_type : Text
  pub step_count : ℕ
  pub ave_gap_distance : D
  pub gaps_over5 : ℕ
  pub defects : ℕ

-- The leading slashes are taken away.
abbrev drop_slashes : Text → Text
drop_slashes [] = []
drop_slashes (c ∷ s) = if c == b'/' then drop_slashes s else c ∷ s

abbrev relative : Text → Text → Text
relative db_root path =
    drop_slashes (if starts db_root path then drop (length db_root) path else path)

abbrev or_dashes : Text → Text
or_dashes s = if is_empty s then codes "--" else s

abbrev pub is_record : Text × Text → Bool
is_record (path, name) = starts inspection_prefix name || starts ai_test_prefix name

module _ {D : Type 0} ⦃d : Double D⦄ where
  -- The detections up to one that throws.
  abbrev count_defects : List (Option D) → ℕ
  count_defects [] = 0
  count_defects (none ∷ cs) = 0
  count_defects (some c ∷ cs) =
      let more = count_defects cs in if d.le (d.tenths 5) c then more + 1 else more

  abbrev count_gap : Statistics D → D → Statistics D
  count_gap s gap =
      if d.lt (d.of_nat 0) gap
      then record s {
        gap_sum = d.add s.gap_sum gap;
        gap_count = s.gap_count + 1;
        gaps_over5 = if d.lt (d.of_nat 5) gap then s.gaps_over5 + 1 else s.gaps_over5;
      }
      else s

  -- One file; nothing of a file that cannot be read.
  unfoldable pub count_file : Statistics D → StereoFile D → Statistics D
  count_file s f = elim f.gap_distance_mm [
    | none ↦ s
    | some gap ↦ record (count_gap s gap) { defects = s.defects + count_defects f.confidences }
  ]

  abbrev count_files : Statistics D → List (StereoFile D) → Statistics D
  count_files s [] = s
  count_files s (f ∷ fs) = count_files (count_file s f) fs

  unfoldable pub count_folders : Disk D → Statistics D → List Text → Statistics D
  unfolding count_file
  count_folders disk s [] = s
  count_folders disk s (dir ∷ dirs) =
      let files = disk.stereo_files dir in
      count_folders disk (count_files (record s { step_count = s.step_count + length files }) files)
        dirs

  abbrev no_statistics : Statistics D
  no_statistics = record {
    gap_sum = d.of_nat 0;
    gap_count = 0;
    gaps_over5 = 0;
    defects = 0;
    step_count = 0;
  }

  abbrev stereo_dirs : Disk D → Bool → Text → List Text
  stereo_dirs disk true rdir = rdir ∷ []
  stereo_dirs disk false rdir =
      keep disk.exists (
        (rdir / codes "installation") ∷ (rdir / codes "inspection") ∷ (rdir / codes "marking") ∷ [])

  abbrev operation_of : Disk D → Bool → Text → Text
  operation_of disk true rdir = codes "AI Test"
  operation_of disk false rdir =
      if disk.has_files (rdir / codes "inspection")
      then codes "Gap Inspection"
      else if disk.has_files (rdir / codes "marking")
      then codes "1st Step Marking"
      else if disk.has_files (rdir / codes "installation")
      then codes "Installation"
      else codes "Gap Inspection"

  unfoldable pub listed_record : (D → D) → Text → Disk D → Text × Text → Listed D
  unfolding read_name count_folders
  listed_record round db_root disk (rdir, dirname) =
      let n = read_name dirname in
      let s = count_folders disk no_statistics (stereo_dirs disk n.is_ai_test rdir) in
      record {
        id = dirname;
        path = relative db_root rdir;
        inspection_date =
            n.date_str ++ (if is_empty n.time_str then [] else codes " " ++ n.time_str);
        station_id = if n.is_ai_test then or_dashes n.station else n.station;
        escalator_id = if n.is_ai_test then or_dashes n.escalator else n.escalator;
        task_id = if n.is_ai_test then codes "--" else n.task;
        operation_type = operation_of disk n.is_ai_test rdir;
        step_count = s.step_count;
        ave_gap_distance =
            if ltb 0 s.gap_count
            then d.div (round (d.mul (d.div s.gap_sum (d.of_nat s.gap_count)) (d.of_nat 10)))
                (d.of_nat 10)
            else d.of_nat 0;
        gaps_over5 = s.gaps_over5;
        defects = s.defects;
      }

  unfoldable pub scan_inspection_records : (D → D) → Text → Disk D → List (Listed D)
  unfolding listed_record sort text_lt
  scan_inspection_records round db_root disk =
      if not (disk.exists db_root)
      then []
      else sort (λ a b. text_lt b.inspection_date a.inspection_date)
          (map (listed_record round db_root disk) (keep is_record disk.found))

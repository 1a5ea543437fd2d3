-- ===== src/Examples/Folder.antt =====
-- An AI test over a folder: src/preprocess/PreprocessModule.cpp.
use project_viatech_ecids_co.Base.{
  ℕ, ◌≡◌, refl, true, List, [], ◌∷◌, Text, codes, length, text_beq, assign, lookup,
}
use project_viatech_ecids_co.Common.Double.{Double, whole}
use project_viatech_ecids_co.Common.Sorting.{sort}
use project_viatech_ecids_co.Preprocess.AiTest.{DirEntry, Turn, images_of, entries_of}

instance abbrev units : Double ℕ
units = whole

abbrev file_at : Text → DirEntry
file_at path = record { is_regular_file = true; path = path }

abbrev files : List DirEntry
files =
    file_at (codes "/t/x.png")
    ∷ file_at (codes "/t/R_a.jpg")
    ∷ file_at (codes "/t/notes.txt")
    ∷ file_at (codes "/t/L_a.JPG")
    ∷ []

abbrev turn : Turn
turn = record { running = true; answered = []; ts = "t1"; created_at = 5 }

abbrev turns : List Turn
turns = turn ∷ record (turn) { ts = "t2"; answered = "t1" ∷ [] } ∷ []

abbrev jpeg_of : Text → List ℕ
jpeg_of path = length path ∷ []

two_entries :
    entries_of (images_of files)
    ≡ (codes "/t/L_a.JPG", codes "/t/R_a.jpg") ∷ (codes "/t/x.png", []) ∷ []
unfolding entries_of images_of sort text_beq assign lookup
two_entries = refl

-- Two files of one side and suffix: the first is not sent.
abbrev clashing : List DirEntry
clashing = file_at (codes "/t/L_a.jpg") ∷ file_at (codes "/t/left_a.jpg") ∷ []

first_lost : entries_of (images_of clashing) ≡ (codes "/t/left_a.jpg", []) ∷ []
unfolding entries_of images_of sort text_beq assign lookup
first_lost = refl

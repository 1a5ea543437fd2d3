-- ===== src/Examples/History.antt =====
-- The name of a record, as src/main.cpp reads it.
use project_viatech_ecids_co.Base.{Text, true, ◌≡◌, codes, arith, [], refl}
use project_viatech_ecids_co.Common.Timestamp.{TimeParts}
use project_viatech_ecids_co.Database.Records.{RecordManager, create_inspection_record}
use project_viatech_ecids_co.Preprocess.AiTest.{filename}
use project_viatech_ecids_co.App.History.{is_record, read_name}
use project_viatech_ecids_co.App.History.Names.{named, read_name-create_inspection_record}

abbrev manager : RecordManager
manager = record { root_path = codes "/db"; active_record = [] }

abbrev morning : TimeParts
morning = record { year = 2026; month = 3; day = 4; hour = 9; min = 5; sec = 6; ms = 7 }

abbrev path : Text
path = (create_inspection_record manager morning (codes "S1") (codes "E2") (codes "T1")).0.1

read_name-create_inspection_record_example :
    (is_record (path, filename path) ≡ true)
    × (read_name (filename path) ≡ named morning (codes "S1") (codes "E2") (codes "T1"))
read_name-create_inspection_record_example =
    read_name-create_inspection_record manager morning (codes "S1") (codes "E2") (codes "T1")
      (ground arith) (ground arith) (ground arith)

-- A dash in the station's id shifts the fields behind it.
shifted : (read_name (codes "(Inspection)2026-03-04-9-05-06-S-1-E2-T1")).escalator ≡ codes "1"
unfolding read_name
shifted = refl

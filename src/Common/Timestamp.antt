-- ===== src/Common/Timestamp.antt =====
-- src/common/Timestamp.cpp: the texts made from the parts of a local time. Reading the clock is not
-- modelled: the parts are arguments.
use project_viatech_ecids_co.Base.{ℕ, ◌++◌, Text, codes}
use project_viatech_ecids_co.Common.Decimal.{decimal, padded}

pub record TimeParts : Type 0 where
  pub year : ℕ
  pub month : ℕ
  pub day : ℕ
  pub hour : ℕ
  pub min : ℕ
  pub sec : ℕ
  pub ms : ℕ

unfoldable pub now_string : TimeParts → Text
now_string t =
    padded 4 t.year
    ++ (padded 2 t.month
        ++ (padded 2 t.day
            ++ (codes "-"
                ++ (padded 2 t.hour
                    ++ (padded 2 t.min ++ (padded 2 t.sec ++ (codes "-" ++ padded 3 t.ms)))))))

unfoldable pub db_date_path_from_parts : TimeParts → Text
db_date_path_from_parts t =
    padded 4 t.year
    ++ (codes "/"
        ++ (padded 4 t.year
            ++ (codes "-"
                ++ (padded 2 t.month
                    ++ (codes "/"
                        ++ (padded 4 t.year
                            ++ (codes "-"
                                ++ (padded 2 t.month ++ (codes "-" ++ padded 2 t.day)))))))))

-- The hour is written with no leading zero.
unfoldable pub db_folder_part_from_parts : TimeParts → Text
db_folder_part_from_parts t =
    padded 4 t.year
    ++ (codes "-"
        ++ (padded 2 t.month
            ++ (codes "-"
                ++ (padded 2 t.day
                    ++ (codes "-"
                        ++ (decimal t.hour
                            ++ (codes "-"
                                ++ (padded 2 t.min ++ (codes "-" ++ padded 2 t.sec)))))))))

-- ===== src/App/History/Names.antt =====
-- src/main.cpp and src/database/RecordManager.cpp: the list of records reads a folder's name as
-- `create_inspection_record` has made it.
use project_viatech_ecids_co.Base.{
  sym, All-append, none, some, true, ℕ, zero, suc, ◌-◌, ◌≤◌, ◌≡◌, refl, ap, ◌∙◌, false, [], ◌∷◌,
  ◌++◌, Text, codes, ◌==◌, length, All, arith, append_assoc,
}
use project_viatech_ecids_co.Common.Decimal.{decimal, padded, zeros, decimal_from}
use project_viatech_ecids_co.Common.Timestamp.{
  TimeParts, db_folder_part_from_parts, db_date_path_from_parts,
}
use project_viatech_ecids_co.Database.Records.{RecordManager, create_inspection_record, ◌/◌}
use project_viatech_ecids_co.Api3.Http.Find.{Without}
use project_viatech_ecids_co.Preprocess.AiTest.{cut_last, filename}
use project_viatech_ecids_co.App.History.{is_record, Named, read_name, tokens, inspection_prefix}

tokens-dash : (a s : Text) → Without b'-' a → tokens (a ++ b'-' ∷ s) ≡ a ∷ tokens s
tokens-dash [] s w = refl
tokens-dash (c ∷ a) s (e, w) =
    let f : (c == b'-') ≡ false = ground arith in rw (f, tokens-dash a s w) refl

tokens_one : (a : Text) → Without b'-' a → tokens a ≡ a ∷ []
tokens_one [] w = refl
tokens_one (c ∷ a) (e, w) =
    let f : (c == b'-') ≡ false = ground arith in rw (f, tokens_one a w) refl

no_dash : (s : Text) → All (λ c. 48 ≤ c) s → Without b'-' s
no_dash [] h = tt
no_dash (c ∷ s) (h, hs) = (ground arith, no_dash s hs)

decimal-Without : (n : ℕ) → Without b'-' (decimal n)
decimal-Without n = no_dash (decimal n) (decimal_from n)

zeros-Without : (k : ℕ) (s : Text) → Without b'-' s → Without b'-' (zeros k s)
unfolding zeros
zeros-Without zero s w = w
zeros-Without (suc k) s w = (refl, zeros-Without k s w)

padded-Without : (width n : ℕ) → Without b'-' (padded width n)
unfolding padded
padded-Without width n = zeros-Without (width - length (decimal n)) (decimal n) (decimal-Without n)

no_slash : (s : Text) → All (λ c. 48 ≤ c) s → Without b'/' s
no_slash [] h = tt
no_slash (c ∷ s) (h, hs) = (ground arith, no_slash s hs)

decimal-no_slash : (n : ℕ) → Without b'/' (decimal n)
decimal-no_slash n = no_slash (decimal n) (decimal_from n)

zeros-no_slash : (k : ℕ) (s : Text) → Without b'/' s → Without b'/' (zeros k s)
unfolding zeros
zeros-no_slash zero s w = w
zeros-no_slash (suc k) s w = (refl, zeros-no_slash k s w)

padded-no_slash : (width n : ℕ) → Without b'/' (padded width n)
unfolding padded
padded-no_slash width n =
    zeros-no_slash (width - length (decimal n)) (decimal n) (decimal-no_slash n)

abbrev pub record_name : TimeParts → Text → Text → Text → Text
record_name t station_id escalator_id task_id =
    inspection_prefix
    ++ (db_folder_part_from_parts t
        ++ (codes "-" ++ (station_id ++ (codes "-" ++ (escalator_id ++ (codes "-" ++ task_id))))))

-- What is read of a name.
abbrev pub named : TimeParts → Text → Text → Text → Named
named t station_id escalator_id task_id = record {
  is_ai_test = false;
  date_str = padded 4 t.year ++ (codes "-" ++ (padded 2 t.month ++ (codes "-" ++ padded 2 t.day)));
  time_str = decimal t.hour ++ (codes ":" ++ (padded 2 t.min ++ (codes ":" ++ padded 2 t.sec)));
  station = station_id;
  escalator = escalator_id;
  task = task_id;
}

tokens-part : (a t s : Text) → Without b'-' a → tokens ((a ++ b'-' ∷ t) ++ s) ≡ a ∷ tokens (t ++ s)
tokens-part a t s w = ap tokens (append_assoc a (b'-' ∷ t) s) ∙ tokens-dash a (t ++ s) w

-- The first six tokens are of the time.
tokens-time :
    (t : TimeParts) (s : Text)
    → tokens (db_folder_part_from_parts t ++ b'-' ∷ s)
      ≡ padded 4 t.year
        ∷ padded 2 t.month
        ∷ padded 2 t.day
        ∷ decimal t.hour
        ∷ padded 2 t.min
        ∷ padded 2 t.sec
        ∷ tokens s
unfolding db_folder_part_from_parts
tokens-time t s =
    tokens-part (padded 4 t.year) _ (b'-' ∷ s) (padded-Without 4 t.year)
    ∙ ap (λ x. padded 4 t.year ∷ x)
        (tokens-part (padded 2 t.month) _ (b'-' ∷ s) (padded-Without 2 t.month)
          ∙ ap (λ x. padded 2 t.month ∷ x)
              (tokens-part (padded 2 t.day) _ (b'-' ∷ s) (padded-Without 2 t.day)
                ∙ ap (λ x. padded 2 t.day ∷ x)
                    (tokens-part (decimal t.hour) _ (b'-' ∷ s) (decimal-Without t.hour)
                      ∙ ap (λ x. decimal t.hour ∷ x)
                          (tokens-part (padded 2 t.min) _ (b'-' ∷ s) (padded-Without 2 t.min)
                            ∙ ap (λ x. padded 2 t.min ∷ x)
                                (tokens-dash (padded 2 t.sec) s (padded-Without 2 t.sec))))))

tokens-ids :
    (a b c : Text)
    → Without b'-' a
    → Without b'-' b
    → Without b'-' c
    → tokens (a ++ b'-' ∷ (b ++ b'-' ∷ c)) ≡ a ∷ b ∷ c ∷ []
tokens-ids a b c w v u =
    tokens-dash a (b ++ b'-' ∷ c) w
    ∙ ap (λ x. a ∷ x) (tokens-dash b c v ∙ ap (λ x. b ∷ x) (tokens_one c u))

read_name-tokens :
    (rest y m d h i s a b c : Text)
    → tokens rest ≡ y ∷ m ∷ d ∷ h ∷ i ∷ s ∷ a ∷ b ∷ c ∷ []
    → read_name (inspection_prefix ++ rest) ≡ record {
      is_ai_test = false;
      date_str = y ++ (codes "-" ++ (m ++ (codes "-" ++ d)));
      time_str = h ++ (codes ":" ++ (i ++ (codes ":" ++ s)));
      station = a;
      escalator = b;
      task = c;
    }
unfolding read_name
read_name-tokens rest y m d h i s a b c e = rw e refl

-- No slash stands in the name.
record_name-Without :
    (t : TimeParts) (station_id escalator_id task_id : Text)
    → Without b'/' station_id
    → Without b'/' escalator_id
    → Without b'/' task_id
    → Without b'/' (record_name t station_id escalator_id task_id)
unfolding db_folder_part_from_parts
record_name-Without t station_id escalator_id task_id w v u =
    both inspection_prefix _ (ground arith) (
      both (db_folder_part_from_parts t) _
        (both (padded 4 t.year) _ (padded-no_slash 4 t.year) (
          refl,
          both (padded 2 t.month) _ (padded-no_slash 2 t.month) (
            refl,
            both (padded 2 t.day) _ (padded-no_slash 2 t.day) (
              refl,
              both (decimal t.hour) _ (decimal-no_slash t.hour) (
                refl,
                both (padded 2 t.min) _ (padded-no_slash 2 t.min) (refl, padded-no_slash 2 t.sec),
              ),
            ),
          ),
        ))
        (refl, both station_id _ w (refl, both escalator_id _ v (refl, u))))
  where
    both : (xs ys : Text) → Without b'/' xs → Without b'/' ys → Without b'/' (xs ++ ys)
    both xs ys p q = All-append _ xs ys p q

cut_last-none : (s : Text) → Without b'/' s → cut_last b'/' s ≡ none
cut_last-none [] w = refl
cut_last-none (c ∷ s) (e, w) =
    let f : (c == b'/') ≡ false = ground arith in rw (cut_last-none s w, f) refl

cut_last-last : (a n : Text) → Without b'/' n → cut_last b'/' (a ++ b'/' ∷ n) ≡ some (a, b'/' ∷ n)
cut_last-last [] n w = rw (cut_last-none n w) refl
cut_last-last (c ∷ a) n w = rw (cut_last-last a n w) refl

filename-cut : (path a n : Text) → cut_last b'/' path ≡ some (a, b'/' ∷ n) → filename path ≡ n
unfolding filename
filename-cut path a n e = rw (filename, e) refl

filename-last : (a b n : Text) → Without b'/' n → filename (a / b / n) ≡ n
filename-last a b n w = filename-cut (a / b / n) (a ++ b'/' ∷ b) n (
    ap (cut_last b'/') (sym (append_assoc a (b'/' ∷ b) (b'/' ∷ n)))
    ∙ cut_last-last (a ++ b'/' ∷ b) n w)

-- An id that can stand in a folder's name and is not split.
abbrev pub IsPlain : Text → Type 0
IsPlain s = Without b'-' s × Without b'/' s

-- An inspection's record, whose three ids have no dash and no slash: its folder, by the last part of its
-- path, is one of those that are listed, and of its name the date, the time and the ids are read back.
pub read_name-create_inspection_record :
    (r : RecordManager) (t : TimeParts) (station_id escalator_id task_id : Text)
    → IsPlain station_id
    → IsPlain escalator_id
    → IsPlain task_id
    → let path = (create_inspection_record r t station_id escalator_id task_id).0.1 in
      (is_record (path, filename path) ≡ true)
      × (read_name (filename path) ≡ named t station_id escalator_id task_id)
unfolding create_inspection_record
read_name-create_inspection_record r t station_id escalator_id task_id (w, w') (v, v') (u, u') =
    let name = record_name t station_id escalator_id task_id in
    let last : filename (r.root_path / db_date_path_from_parts t / name) ≡ name =
      filename-last r.root_path (db_date_path_from_parts t) name
        (record_name-Without t station_id escalator_id task_id w' v' u') in
    rw last (
      refl,
      read_name-tokens _ _ _ _ _ _ _ _ _ _ (
          tokens-time t _
          ∙ ap
              (λ x.
                padded 4 t.year
                ∷ padded 2 t.month
                ∷ padded 2 t.day
                ∷ decimal t.hour
                ∷ padded 2 t.min
                ∷ padded 2 t.sec
                ∷ x)
              (tokens-ids station_id escalator_id task_id w v u)),
    )

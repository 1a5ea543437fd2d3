-- ===== src/Database/HouseKeep.antt =====
-- src/database/HouseKeeper.cpp, `do_housekeep_`. The disk is a parameter: its states `S`, the size
-- that the provider measures, the entries of the root folder, and what `fs::remove_all` does, which
-- may fail in silence.
use project_viatech_ecids_co.Base.{
  text_lt_trans, text_lt_asym, ℕ, zero, suc, ◌≤◌, ◌≡◌, refl, ◌⊎◌, inl, inr, Bool, true, false, not,
  ◌&&◌, List, [], ◌∷◌, Text, text_lt, arith, ◌==◌, if◌then◌else◌, length, take, keep, Bool-cases,
}
use mathlib.Core.List.{Perm, foldl}
use project_viatech_ecids_co.Common.Double.{Double}
use project_viatech_ecids_co.Common.Sorting.{sort, sort-perm, IsSorted, sort-IsSorted}

pub record DirEntry : Type 0 where
  pub is_directory : Bool
  pub filename : Text

pub record Disk (D S : Type 0) : Type 0 where
  pub size_gb : S → D
  pub root_exists : S → Bool
  pub entries : S → List DirEntry
  pub remove_all : S → Text → S

abbrev pub is_year : DirEntry → Bool
is_year e = e.is_directory && (length e.filename == 4)

abbrev pub names : List DirEntry → List Text
names [] = []
names (e ∷ es) = e.filename ∷ names es

-- `P` holds of every number below the bound.
abbrev pub Before : ℕ → (ℕ → Type 0) → Type 0
Before zero P = Unit
Before (suc k) P = P 0 × Before k (λ j. P (suc j))

module _ {D S : Type 0} (d : Double D) (disk : Disk D S) (max_size_gb : D) where
  -- The `while` loop: the folders that are left, and the size that was measured last.
  unfoldable pub clean : S → D → List Text → S
  clean s current_size [] = s
  clean s current_size (oldest ∷ rest) =
      let s' = disk.remove_all s oldest in
      let more = clean s' (disk.size_gb s') rest in
      if d.lt max_size_gb current_size then more else s

  -- The folders named for a year, oldest first: paths with one parent compare as their names.
  unfoldable pub year_dirs : S → List Text
  unfolding text_lt
  year_dirs s = sort text_lt (names (keep is_year (disk.entries s)))

  unfoldable pub do_housekeep : S → S
  unfolding clean year_dirs
  do_housekeep s =
      let current_size = disk.size_gb s in
      if d.le current_size max_size_gb
      then s
      else if not (disk.root_exists s)
      then s
      else clean s current_size (year_dirs s)

  -- The disk after the first `k` folders are removed.
  abbrev pub removed : S → ℕ → List Text → S
  removed s k dirs = foldl disk.remove_all s (take k dirs)

  abbrev too_big : S → Bool
  too_big s = d.lt max_size_gb (disk.size_gb s)

  -- The result is reached by removing the first `k` folders, each while the size was over the limit,
  -- and then there is none left or the size is not over the limit.
  abbrev pub Cleans : S → List Text → S → Type 0
  Cleans s dirs t =
      (k : ℕ) × (k ≤ length dirs)
      × (t ≡ removed s k dirs)
      × Before k (λ j. too_big (removed s j dirs) ≡ true)
      × ((k ≡ length dirs) ⊎ (too_big t ≡ false))

  clean-Cleans : (s : S) (dirs : List Text) → Cleans s dirs (clean s (disk.size_gb s) dirs)
  unfolding clean
  clean-Cleans s [] = (0, omega arith, refl, tt, inl refl)
  clean-Cleans s (y ∷ ys) = elim (Bool-cases (too_big s)) [
    | inl big ↦
        let (k, short, e, over, end) = clean-Cleans (disk.remove_all s y) ys in
        rw big (suc k, omega arith, e, (big, over), shift end)
    | inr fits ↦ rw fits (0, omega arith, refl, tt, inr fits)
  ]
    where
      shift : {k : ℕ} {P : Type 0} → (k ≡ length ys) ⊎ P → (suc k ≡ suc (length ys)) ⊎ P
      shift (inl e) = inl (omega arith)
      shift (inr q) = inr q

  -- Over the limit, and with the root folder there, the year folders are taken in the order of their
  -- names, each removed only while the measured size is over the limit, until the size is not over
  -- it or no year folder is left; the folders in question are the sub-folders with a name of four
  -- bytes. The loop ends whatever `remove_all` does.
  pub do_housekeep-Cleans :
      (s : S)
      → d.le (disk.size_gb s) max_size_gb ≡ false
      → disk.root_exists s ≡ true
      → Cleans s (year_dirs s) (do_housekeep s)
        × IsSorted text_lt (year_dirs s)
        × Perm (year_dirs s) (names (keep is_year (disk.entries s)))
  unfolding do_housekeep
  do_housekeep-Cleans s over there =
      rw (over, there)
        (
          clean-Cleans s (year_dirs s),
          sort-IsSorted text_lt text_lt_trans text_lt_asym _,
          sort-perm text_lt _,
        )

  -- Within the limit, or with no root folder, nothing is removed.
  pub do_housekeep_idle :
      (s : S)
      → (d.le (disk.size_gb s) max_size_gb ≡ true) ⊎ (disk.root_exists s ≡ false)
      → do_housekeep s ≡ s
  unfolding do_housekeep
  do_housekeep_idle s h = ground arith

-- ===== src/Wal/Names.antt =====
-- internal/wal/wal.go: `runPath`, which names the file of a run, and `RunIDs`, which finds the runs by the
-- names of their files. The extension is that of `filepath.Ext`.
use Prim.Native.String.{◌++◌, len, slice}
use grael.Prelude.{
  ◌-◌, ◌≡◌, refl, ap, ◌∙◌, arith, String, Bool, false, List, [], ◌∷◌, ◌==◌, if◌then◌else◌, map,
}
use text.Mathlib.TextPositions.{len-append, slice-append_left}
use grael.Result.{Result, ok, err, read_dir_failed}

pub record DirEntry : Type 0 where
  pub name : String
  pub is_dir : Bool

-- What `os.ReadDir` answers.
pub data Listing : Type 0 where
  absent unreadable_dir : Listing
  listing : List DirEntry → Listing

-- The last element of `runPath`.
abbrev pub log_name : (run_id : String) → String
log_name run_id = run_id ++ ".wal"

-- The loop over the entries.
unfoldable pub ids_of_entries : (ext : String → String) → List DirEntry → List String
ids_of_entries ext [] = []
ids_of_entries ext (entry ∷ entries) =
    let rest = ids_of_entries ext entries in
    if entry.is_dir
    then rest
    else if ext entry.name == ".wal"
    then slice entry.name 0 (len entry.name - len ".wal") ∷ rest
    else rest

-- `RunIDs`
unfoldable pub logged_run_ids : (ext : String → String) → Listing → Result (List String)
unfolding ids_of_entries
logged_run_ids ext absent = ok []
logged_run_ids ext unreadable_dir = err read_dir_failed
logged_run_ids ext (listing entries) = ok (ids_of_entries ext entries)

-- The file of a run.
abbrev log_file : (run_id : String) → DirEntry
log_file run_id = record { name = log_name run_id; is_dir = false }

-- The name without its extension is the id.
slice-log_name : (id : String) → slice (log_name id) 0 (len (log_name id) - len ".wal") ≡ id
slice-log_name id =
    let cut : len (log_name id) - len ".wal" ≡ len id = omega (arith, len-append id ".wal") in
    ap (λ n. slice (log_name id) 0 n) cut ∙ slice-append_left id ".wal"

-- In a directory with the files of some runs, whose names have the extension of a log, `RunIDs` finds
-- these runs.
pub logged_run_ids-log_file :
    (ext : String → String) (ids : List String)
    → ((id : String) → ext (log_name id) ≡ ".wal")
    → logged_run_ids ext (listing (map log_file ids)) ≡ ok ids
unfolding logged_run_ids ids_of_entries
logged_run_ids-log_file ext ids named = ap ok (go ids)
  where
    go : (is : List String) → ids_of_entries ext (map log_file is) ≡ is
    go [] = refl
    go (id ∷ is) = rw (ids_of_entries, named id) (rw (slice-log_name id, go is) refl)

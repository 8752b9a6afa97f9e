-- ===== src/Imports/Orphans.antt =====
-- internal/api/import_jobs.go: the part of sweep that cleans the directory of staged files, and
-- knownImportOrphan. Modification times are Unix seconds.
use cc_otel.Prelude.{
  ℕ, ◌+◌, ◌-◌, ◌≡◌, refl, Bool, true, false, not, ltb, ◌||◌, ◌&&◌, if◌then◌else◌, Option, none,
  some, List, [], ◌∷◌, ◌++◌, drop, length, arith,
}
use cc_otel.Prelude.Text.{Text, codes, text_eq, has_prefix}

-- A file of the directory: its time is `none` where it cannot be read, and os.Remove may fail.
pub record DirEntry : Type 0 where
  pub name : Text
  pub mod_time : Option ℕ
  pub removable : Bool

-- strings.HasSuffix
unfoldable pub has_suffix : Text → Text → Bool
has_suffix s t = text_eq (drop (length s - length t) s) t

unfoldable pub known_import_orphan : Text → Bool
known_import_orphan name =
    if has_suffix name (codes ".db.upload")
    then true
    else has_prefix name (codes ".inspect-")
      && (has_suffix name (codes ".db")
          || has_suffix name (codes ".db-wal")
          || has_suffix name (codes ".db-shm"))

-- The tests of the loop that leave a file alone.
unfoldable pub is_skipped : ℕ → Text → Text → DirEntry → Bool
is_skipped now dir current e =
    if text_eq (dir ++ b'/' ∷ e.name) current || not (known_import_orphan e.name)
    then true
    else elim e.mod_time [ none ↦ true | some t ↦ ltb now (t + 86400) ]

-- The loop; what is left in the directory, and whether no removal failed.
unfoldable pub sweep_files : ℕ → Text → Text → List DirEntry → List DirEntry × Bool
sweep_files now dir current [] = ([], true)
sweep_files now dir current (e ∷ es) =
    let rest = sweep_files now dir current es in
    if is_skipped now dir current e
    then (e ∷ rest.0, rest.1)
    else if e.removable
    then rest
    else (e ∷ es, false)

-- An orphan of an import: a staged upload or a file of an inspection, by its name, that is not the
-- current job's and was not changed for a day.
unfoldable pub is_stale : ℕ → Text → Text → DirEntry → Bool
is_stale now dir current e =
    known_import_orphan e.name
    && not (text_eq (dir ++ b'/' ∷ e.name) current)
    && elim e.mod_time as (λ _. Bool) [ none ↦ false | some t ↦ not (ltb now (t + 86400)) ]

unfoldable pub without_stale : ℕ → Text → Text → List DirEntry → List DirEntry
without_stale now dir current [] = []
without_stale now dir current (e ∷ es) =
    let rest = without_stale now dir current es in
    if is_stale now dir current e then rest else e ∷ rest

skipped_iff :
    (now : ℕ) (dir current : Text) (e : DirEntry)
    → is_skipped now dir current e ≡ not (is_stale now dir current e)
unfolding is_skipped is_stale
skipped_iff now dir current e = ground arith

-- A sweep removes orphans and nothing else: the other files all stay, in their order, also when a
-- removal fails and the sweep gives up.
pub sweep_files_keeps :
    (now : ℕ) (dir current : Text) (es : List DirEntry)
    → without_stale now dir current (sweep_files now dir current es).0
      ≡ without_stale now dir current es
unfolding sweep_files without_stale
sweep_files_keeps now dir current [] = refl
sweep_files_keeps now dir current (e ∷ es) =
    ground (arith, sweep_files_keeps now dir current es, skipped_iff now dir current e)

-- A sweep in which no removal fails leaves exactly the files that are no orphans.
pub sweep_files_cleans :
    (now : ℕ) (dir current : Text) (es : List DirEntry)
    → (sweep_files now dir current es).1 ≡ true
    → (sweep_files now dir current es).0 ≡ without_stale now dir current es
unfolding sweep_files without_stale
sweep_files_cleans now dir current [] h = refl
sweep_files_cleans now dir current (e ∷ es) h =
    ground (arith, sweep_files_cleans now dir current es, skipped_iff now dir current e)

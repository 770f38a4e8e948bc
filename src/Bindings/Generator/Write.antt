-- ===== src/Bindings/Generator/Write.antt =====
-- cli/src/bindings/generator.rs: a set for each pair of the catalogue, written through a temporary
-- file. The number of the process and the counter of the temporary files are arguments.
pub mod Written
pub mod Sets
use pulse_sdk.Prelude.{
  ℕ, suc, Bool, true, false, Option, none, some, List, [], ◌∷◌, ◌++◌, Result, ok, err,
}
use pulse_sdk.Prelude.Text.{codes, decimal, utf8}
use pulse_sdk.Bindings.{SymbolId, TargetPair}
use pulse_sdk.Bindings.Catalog.{BindingCatalog}
use pulse_sdk.Bindings.Generator.{
  PivotFunction, pairs_of, functions_of, unresolved_of, serialize_set, pbind_path,
}
use pulse_sdk.Installer.Fs.{Fs, Bytes, write, rename, remove_file, create_dir_all}
use pulse_sdk.Installer.Paths.{FilePath, key, join, parent_path}
use pulse_sdk.Installer.Paths.Names.{file_name}

pub record GenReport : Type 0 where
  pub written : List FilePath
  pub unresolved : List (TargetPair × SymbolId)

pub data GenError : Type 0 where
  io : TargetPair → FilePath → GenError

abbrev name_or_default : Option (List ℕ) → List ℕ
name_or_default none = codes "out.pbind"
name_or_default (some name) = name

-- The temporary file beside the destination.
unfoldable pub tmp_path : FilePath → ℕ → ℕ → FilePath
unfolding parent_path file_name decimal
tmp_path path pid unique = join (parent_path path) (
    b'.'
    ∷ (name_or_default (file_name (key path))
        ++ b'.' ∷ (decimal pid ++ b'.' ∷ (decimal unique ++ codes ".tmp"))))

-- A failed step: the temporary file is removed if it can be.
abbrev pub give_up : GenError → FilePath → Fs → Result GenError (Unit {0}) × Fs
give_up e tmp fs = (err e, (remove_file (key tmp) fs).1)

abbrev pub finish_rename : GenError → FilePath → Bool × Fs → Result GenError (Unit {0}) × Fs
finish_rename e tmp (true, fs) = (ok tt, fs)
finish_rename e tmp (false, fs) = give_up e tmp fs

abbrev pub finish_write :
    GenError → FilePath → FilePath → Bool × Fs → Result GenError (Unit {0}) × Fs
finish_write e tmp path (true, fs) = finish_rename e tmp (rename (key tmp) (key path) fs)
finish_write e tmp path (false, fs) = give_up e tmp fs

unfoldable pub atomic_write :
    FilePath → Bytes → TargetPair → ℕ → ℕ → Fs → Result GenError (Unit {0}) × Fs
unfolding tmp_path
atomic_write path content pair pid unique fs =
    let tmp = tmp_path path pid unique in
    finish_write (io pair path) tmp path (write (key tmp) content fs)

-- `create_dir_all` of the parent, then the write.
abbrev pub after_dirs :
    FilePath → Bytes → TargetPair → ℕ → ℕ → Bool × Fs → Result GenError (Unit {0}) × Fs
after_dirs path content pair pid unique (true, fs) = atomic_write path content pair pid unique fs
after_dirs path content pair pid unique (false, fs) = (err (io pair path), fs)

unfoldable pub write_set :
    BindingCatalog → FilePath → ℕ → ℕ → TargetPair → Fs → Result GenError (Unit {0}) × Fs
unfolding atomic_write pbind_path functions_of serialize_set
write_set catalog out_root pid unique pair fs =
    let path = pbind_path out_root pair in
    after_dirs path (utf8 (serialize_set pair (functions_of catalog pair))) pair pid unique
      (create_dir_all (key (parent_path path)) fs)

abbrev pub add_report : BindingCatalog → FilePath → TargetPair → GenReport → GenReport
add_report catalog out_root pair report = record {
  written = report.written ++ pbind_path out_root pair ∷ [];
  unresolved = report.unresolved ++ unresolved_of pair (functions_of catalog pair);
}

-- The loop over the pairs: an error ends it.
unfoldable pub generate_sets :
    BindingCatalog
    → FilePath
    → ℕ
    → ℕ
    → List TargetPair
    → GenReport
    → Fs
    → Result GenError GenReport × Fs
unfolding write_set unresolved_of
generate_sets catalog out_root pid unique [] report fs = (ok report, fs)
generate_sets catalog out_root pid unique (pair ∷ pairs) report fs =
    let (r, fs') = write_set catalog out_root pid unique pair fs in
    elim r [
      | err e ↦ (err e, fs')
      | ok u ↦
          generate_sets catalog out_root pid (suc unique) pairs
            (add_report catalog out_root pair report) fs'
    ]

unfoldable pub generate_all :
    BindingCatalog → FilePath → ℕ → ℕ → Fs → Result GenError GenReport × Fs
unfolding generate_sets pairs_of
generate_all catalog out_root pid unique fs =
    generate_sets catalog out_root pid unique (pairs_of catalog)
      (record { written = []; unresolved = [] }) fs

-- ===== src/Lib.antt =====
-- A verification of the command line tool of Pulse SDK: the generator and the checker of byte
-- signatures, the installer of the loader, the catalogue of symbols, and a part of their extraction.
--
-- The parts and the files that model them (paths from the root of the repository):
--   - Siggen/Signature: a byte signature and its text, cli/src/siggen/signature.rs (`SigByte`,
--     `ByteSignature`, `render`, `parse`). Text is a list of code points.
--   - Siggen/Scan: `scan_all` of cli/src/siggen/scan.rs.
--   - Siggen/Mask: cli/src/siggen/mask.rs. `mask_window` decodes a window of code and makes
--     wildcards of the bytes that depend on the position of the code. The decoders and the
--     detection of the architecture come from other crates: they are the record `Decoders`.
--   - Siggen/Generate: `generate` of cli/src/siggen/mod.rs, which widens a window until the
--     scan finds its signature at the requested offset alone.
--   - CheckOffsets: cli/src/checkoffsets.rs, with `parse_offset` of cli/src/cli.rs and
--     `OffsetDeclaration` of cli/src/manifest.rs. It parses declared signatures and scans for
--     them.
--   - Extract: `Architecture` of cli/src/extract/mod.rs. Extract/Matcher: the matching of
--     methods to vtable slots, cli/src/extract/matcher.rs; the class of a symbol and the
--     vtables come from parts that are not modelled: they are arguments.
--   - Extract/Prologue: the check of a function's first instructions,
--     cli/src/extract/prologue.rs. The parser of object files and the decoders are the record
--     `Disassembler`.
--   - Extract/Provenance: the tiers of cli/src/extract/provenance.rs and `assign_tier`;
--     Extract/Provenance/Emission the provenance of an offset, its concordance with a reference
--     table and the gate `emit_offset`. Extract/Report: cli/src/extract/report.rs.
--   - Bindings: the catalogue of symbols, cli/src/bindings. Bindings itself has the types of
--     mod.rs; Bindings/Catalog the entries and `load_catalog` of catalog.rs (Catalog/Raw an entry
--     as parsed, Catalog/Load the reading and the merging); Bindings/Generator the sets of
--     generator.rs and their text, Generator/Write `generate`; Bindings/Linter `lint_pbind` of
--     linter.rs; Bindings/Validation validation.rs; Bindings/Prologue prologue.rs;
--     Bindings/Provenance the store and the gates of provenance.rs; Bindings/Contribution `add`,
--     `set_offset` and `set_signature` of contribution.rs; Bindings/CrossCheck the numeric
--     comparison of crosscheck.rs. The TOML parser and printer, the listing of a directory and
--     SHA-256 are parameters, and a map is the list of its pairs.
--   - Installer: cli/src/installer.rs. Installer/Paths and Installer/Fs are what the file uses
--     of std::path and std::fs; Installer/Action its errors and the sequencing by `?`;
--     Installer/Recognize `recognize_gd` and `ensure_not_already_installed`; Installer/Backup
--     the restore record and `persist`; Installer/Transaction `install_with`, its rollback
--     `restore_from_backup` and the `HostSeamInjector`; Installer/Load `BackupManifest::load`
--     and `sha256_hex`; Installer/Uninstall `uninstall`; Installer/Native `write_fresh_replace`. An injector is a record of two
--     actions, and the digest of SHA-256 a parameter. Installer/Macho is the module `macho` of
--     that file: a buffer is a list of bytes, a change returns the new one, and an index out of
--     bounds is the error `panicked`.
--   - Prelude: lists, results, text and Boolean tests that the parts share; Prelude/Buffer is
--     what Installer/Macho uses of byte slices, Prelude/Lines, Prelude/Trim and Prelude/Utf8 what
--     the parts use of `str`, and Prelude/Radix and Prelude/Digits the digits of numbers.
--   - Tests: runs at concrete data, and the theorems there.
--
-- Numbers and fuel. Bytes, code points and offsets are natural numbers; an offset is a u64, and
-- `usize` has 64 bits. The subtraction of two i64 values wraps, as in a release build. The loop
-- of `generate` gets one round more than the largest window has bytes, the x86-64 loop of
-- `mask_window` one more than the window, that of the prologue check one more than the sixteen
-- bytes it wants, and every round advances by a byte at least.
--
-- The file system is a tree of files and directories by the components of a path, and a list of
-- the faults that the coming operations meet: an operation fails and leaves the tree alone, or a
-- write is torn and leaves a part of the bytes. Symbolic links, `..` and permissions are not
-- modelled, and no other process writes meanwhile.
--
-- Not modelled: `codesign` and the macOS injector that calls it, the rest of the extraction
-- (cli/src/extract), the rest of cli/src/bindings/crosscheck.rs, `distribute_if_valid` of
-- cli/src/bindings/validation.rs, the surface compiler (cli/src/surface), manifests, building,
-- uploading, the menus, and the C++ of loader/ and sdk/.
pub mod Prelude
pub mod Bindings
pub mod Extract
pub mod Siggen
pub mod CheckOffsets
pub mod Installer
pub mod Tests

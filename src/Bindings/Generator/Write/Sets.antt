-- ===== src/Bindings/Generator/Write/Sets.antt =====
-- A whole generation.
use pulse_sdk.Prelude.{
  ℕ, suc, ◌≡◌, refl, sym, ap, ◌∙◌, false, some, List, [], ◌∷◌, ◌++◌, Result, ok, err, ok-injective,
  Result-cases, inl, inr, All, append_assoc, append-nil,
}
use mathlib.Core.Path.{subst}
use pulse_sdk.Bindings.{SymbolId, TargetPair}
use pulse_sdk.Bindings.Catalog.{BindingCatalog}
use pulse_sdk.Bindings.Generator.{pairs_of, functions_of, unresolved_of, pbind_path}
use pulse_sdk.Bindings.Generator.Write.{
  GenReport, GenError, write_set, add_report, generate_sets, generate_all,
}
use pulse_sdk.Bindings.Generator.Write.Written.{target, temp, content, write_set-IsWritten}
use pulse_sdk.Installer.Fs.{Fs, file_at}
use pulse_sdk.Installer.Paths.{FilePath, Key, key_eq}

module _ (catalog : BindingCatalog) (root : FilePath) (pid : ℕ) where
  -- A file that is neither the file of one of the pairs nor its temporary file.
  abbrev pub IsApart : Key → List TargetPair → ℕ → Type 0
  IsApart k [] unique = Unit
  IsApart k (p ∷ pairs) unique =
      (key_eq (temp catalog root pid p unique) k ≡ false)
      × (key_eq (target catalog root pid p) k ≡ false)
      × IsApart k pairs (suc unique)

  -- The files of the pairs and their temporary files are all different, as far as they are written one
  -- after the other.
  abbrev pub AreApart : List TargetPair → ℕ → Type 0
  AreApart [] unique = Unit
  AreApart (p ∷ pairs) unique =
      (key_eq (temp catalog root pid p unique) (target catalog root pid p) ≡ false)
      × IsApart (target catalog root pid p) pairs (suc unique)
      × AreApart pairs (suc unique)

  abbrev pub paths_of : List TargetPair → List FilePath
  paths_of [] = []
  paths_of (p ∷ pairs) = pbind_path root p ∷ paths_of pairs

  abbrev pub unresolved_in : List TargetPair → List (TargetPair × SymbolId)
  unresolved_in [] = []
  unresolved_in (p ∷ pairs) = unresolved_of p (functions_of catalog p) ++ unresolved_in pairs

  abbrev pub IsWhole : List TargetPair → Fs → Type 0
  IsWhole pairs fs =
      All
        (λ (p : TargetPair).
          file_at fs (target catalog root pid p) ≡ some (content catalog root pid p))
        pairs

  abbrev go_on :
      ℕ
      → TargetPair
      → List TargetPair
      → GenReport
      → Fs
      → Result GenError (Unit {0})
      → Result GenError GenReport × Fs
  go_on unique p pairs report fs (err e) = (err e, fs)
  go_on unique p pairs report fs (ok u) =
      generate_sets catalog root pid (suc unique) pairs (add_report catalog root p report) fs

  generate_sets-step :
      (unique : ℕ) (p : TargetPair) (pairs : List TargetPair) (report : GenReport) (fs : Fs)
      → generate_sets catalog root pid unique (p ∷ pairs) report fs
        ≡ go_on unique p pairs report
            (write_set catalog root pid unique p fs).1
            (write_set catalog root pid unique p fs).0
  unfolding generate_sets
  generate_sets-step unique p pairs report fs =
      step (write_set catalog root pid unique p fs).0 (write_set catalog root pid unique p fs).1
    where
      step :
          (r : Result GenError (Unit {0})) (s : Fs)
          → ◌≡◌ {A = Result GenError GenReport × Fs}
              (elim r [
                | err e ↦ (err e, s)
                | ok u ↦
                    generate_sets catalog root pid
                      (suc unique)
                      pairs
                      (add_report catalog root p report)
                      s
              ])
              (go_on unique p pairs report s r)
      step (ok u) s = refl
      step (err e) s = refl

  generate_sets-keeps :
      (k : Key) (unique : ℕ) (pairs : List TargetPair) (report : GenReport) (fs : Fs)
      → AreApart pairs unique
      → IsApart k pairs unique
      → file_at (generate_sets catalog root pid unique pairs report fs).1 k ≡ file_at fs k
  generate_sets-keeps k unique [] report fs a h = unfold generate_sets in refl
  generate_sets-keeps k unique (p ∷ pairs) report fs (t, b, a) (h, g, i) =
      let w = write_set catalog root pid unique p fs in
      let (o, kept) = write_set-IsWritten catalog root pid unique p fs t in
      let f =
        ap (λ (r : Result GenError GenReport × Fs). file_at r.1 k)
          (generate_sets-step unique p pairs report fs) in
      elim (Result-cases w.0) [
        | inr (e, r) ↦
            f ∙ (ap (λ q. file_at (go_on unique p pairs report w.1 q).1 k) r ∙ kept k h g)
        | inl (u, r) ↦
            f
            ∙ (ap (λ q. file_at (go_on unique p pairs report w.1 q).1 k) r
                ∙ (generate_sets-keeps k (suc unique) pairs (add_report catalog root p report) w.1 a
                      i
                    ∙ kept k h g))
      ]

  generate_sets-IsWhole :
      (unique : ℕ) (pairs : List TargetPair) (report report' : GenReport) (fs : Fs)
      → AreApart pairs unique
      → (generate_sets catalog root pid unique pairs report fs).0 ≡ ok report'
      → IsWhole pairs (generate_sets catalog root pid unique pairs report fs).1
        × (report'.written ≡ report.written ++ paths_of pairs)
        × (report'.unresolved ≡ report.unresolved ++ unresolved_in pairs)
  generate_sets-IsWhole unique [] report report' fs a e =
      let e' : ◌≡◌ {A = Result GenError GenReport} (ok report) (ok report') =
        unfold generate_sets in e in
      let same = ok-injective e' in
      (
        tt,
        ap (λ (r : GenReport). r.written) (sym same) ∙ sym (append-nil report.written),
        ap (λ (r : GenReport). r.unresolved) (sym same) ∙ sym (append-nil report.unresolved),
      )
  generate_sets-IsWhole unique (p ∷ pairs) report report' fs (t, b, a) e =
      let w = write_set catalog root pid unique p fs in
      let (o, kept) = write_set-IsWritten catalog root pid unique p fs t in
      let next = add_report catalog root p report in
      elim (Result-cases w.0) [
        | inr (x, r) ↦
            let f =
              generate_sets-step unique p pairs report fs
              ∙ ap (go_on unique p pairs report w.1) r in
            let g = ap (λ (q : Result GenError GenReport × Fs). q.0) f in absurd (cc)
        | inl (u, r) ↦
            let f =
              generate_sets-step unique p pairs report fs
              ∙ ap (go_on unique p pairs report w.1) r in
            let g = ap (λ (q : Result GenError GenReport × Fs). q.0) f in
            let h = ap (λ (q : Result GenError GenReport × Fs). q.1) f in
            let (whole, written, unresolved) =
              generate_sets-IsWhole (suc unique) pairs next report' w.1 a (sym g ∙ e) in
            let here : file_at w.1 (target catalog root pid p) ≡ some (content catalog root pid p) =
              elim o [ inl (z, at) ↦ at | inr (z, same) ↦ absurd (z r) ] in
            let kept_here =
              generate_sets-keeps (target catalog root pid p) (suc unique) pairs next w.1 a b in
            (
              subst (IsWhole (p ∷ pairs)) (sym h) (kept_here ∙ here, whole),
              written ∙ append_assoc report.written (pbind_path root p ∷ []) (paths_of pairs),
              unresolved
                  ∙ append_assoc report.unresolved (unresolved_of p (functions_of catalog p))
                      (unresolved_in pairs),
            )
      ]

  -- A generation that succeeds leaves the whole text of every pair's set in the file of the pair, and
  -- reports the paths of the pairs and their unresolved symbols, in the order of the pairs, if the
  -- files and the temporary files are different from each other.
  pub generate_all-IsWhole :
      (unique : ℕ) (report : GenReport) (fs : Fs)
      → AreApart (pairs_of catalog) unique
      → (generate_all catalog root pid unique fs).0 ≡ ok report
      → IsWhole (pairs_of catalog) (generate_all catalog root pid unique fs).1
        × (report.written ≡ paths_of (pairs_of catalog))
        × (report.unresolved ≡ unresolved_in (pairs_of catalog))
  unfolding generate_all
  generate_all-IsWhole unique report fs a e =
      generate_sets-IsWhole unique (pairs_of catalog) (record { written = []; unresolved = [] })
        report fs a e

-- ===== src/Installer/Native.antt =====
-- `write_fresh_replace` of cli/src/installer.rs, by which the macOS injector rewrites an executable.
-- The target has a parent, the number of the process is an argument, and permissions are not
-- modelled.
use mathlib.Core.Path.{subst}
use pulse_sdk.Prelude.{
  ℕ, ◌≡◌, ◌≢◌, refl, sym, ap, ◌∙◌, Bool, true, false, none, some, ◌++◌, Result, ok, err, ◌⊎◌, inl,
  inr, arith, Bool-cases, Option-cases,
}
use pulse_sdk.Prelude.Text.{codes, decimal}
use pulse_sdk.Installer.Paths.{FilePath, Key, key, key_eq, join, parent_path}
use pulse_sdk.Installer.Paths.Separate.{key_eq_self, eq_of_key_eq}
use pulse_sdk.Installer.Fs.{Fs, Bytes, file_at, write, rename}
use pulse_sdk.Installer.Action.{InstallError, Action, then_do, ◌>>=◌, outcome, attempt, io}

abbrev pub temporary : ℕ → FilePath → FilePath
temporary pid target =
    join (parent_path target) (codes ".pulse-patch-" ++ (decimal pid ++ codes ".tmp"))

unfoldable pub write_fresh_replace : ℕ → FilePath → Bytes → Action (Unit {0})
write_fresh_replace pid target bytes =
    attempt (io (temporary pid target)) (write (key (temporary pid target)) bytes) >>= λ _.
    attempt (io target) (rename (key (temporary pid target)) (key target))

pub write-outcomes :
    (k : Key) (b : Bytes) (fs : Fs)
    → ((((write k b fs).0 ≡ true) × (file_at (write k b fs).1 k ≡ some b))
        ⊎ ((write k b fs).0 ≡ false))
      × ((j : Key) → key_eq k j ≡ false → file_at (write k b fs).1 j ≡ file_at fs j)
unfolding write
write-outcomes k b fs = (
  elim (Bool-cases (write k b fs).0) [
    | inl e ↦ inl (e, ground (arith, key_eq_self k))
    | inr e ↦ inr e
  ],
  λ j h. ground arith,
)

pub rename-outcomes :
    (src dest : Key) (fs : Fs)
    → key_eq src dest ≡ false
    → key_eq dest src ≡ false
    → ((((rename src dest fs).0 ≡ true)
          × (file_at (rename src dest fs).1 dest ≡ file_at fs src)
          × (file_at (rename src dest fs).1 src ≡ none))
        ⊎ (((rename src dest fs).0 ≡ false)
            × (file_at (rename src dest fs).1 dest ≡ file_at fs dest)))
      × ((j : Key)
          → key_eq src j ≡ false
          → key_eq dest j ≡ false
          → file_at (rename src dest fs).1 j ≡ file_at fs j)
unfolding rename
rename-outcomes src dest fs apart apart' = (
  elim (Option-cases (file_at fs src)) [
    | inl e ↦ inr (ground arith, ground arith)
    | inr (b, e) ↦ elim (Bool-cases (rename src dest fs).0) [
      | inl t ↦
          inl
            (t, ground (arith, key_eq_self dest), ground (arith, key_eq_self src, key_eq_self dest))
      | inr f ↦ inr (f, ground arith)
    ]
  ],
  λ j h k. ground arith,
)

pub key_eq_symmetric : (j k : Key) → key_eq j k ≡ false → key_eq k j ≡ false
key_eq_symmetric j k h = elim (Bool-cases (key_eq k j)) [
  | inl e ↦
      let same : key_eq j k ≡ true = ap (λ i. key_eq j i) (eq_of_key_eq k j e) ∙ key_eq_self j in cc
  | inr e ↦ e
]

-- What an attempt returns and leaves.
outcome_lem :
    (e : InstallError) (r : Bool × Fs)
    → (((r.0 ≡ true) × (outcome e r ≡ (ok tt, r.1)))
        ⊎ ((r.0 ≡ false) × (outcome e r ≡ (err e, r.1))))
outcome_lem e (true, fs) = inl (refl, refl)
outcome_lem e (false, fs) = inr (refl, refl)

-- What a replacement comes to: if it succeeds, the target holds the new bytes and the temporary file
-- is gone; if it fails, the target is as it was. No file but these two changes.
abbrev pub IsReplacement : Key → Key → Bytes → Fs → Result InstallError (Unit {0}) × Fs → Type 0
IsReplacement temp target bytes fs (r, s) =
    (((r ≡ ok tt) × (file_at s target ≡ some bytes) × (file_at s temp ≡ none))
      ⊎ ((r ≢ ok tt) × (file_at s target ≡ file_at fs target)))
    × ((j : Key) → key_eq temp j ≡ false → key_eq target j ≡ false → file_at s j ≡ file_at fs j)

-- A replacement is all or nothing, whatever fails and however a write is torn: if it succeeds, the
-- target holds the new bytes and the temporary file is gone; if it fails, the target is as it was.
-- No file but these two changes. The temporary file is not the target.
pub write_fresh_replace-IsReplacement :
    (pid : ℕ) (target : FilePath) (bytes : Bytes) (fs : Fs)
    → key_eq (key (temporary pid target)) (key target) ≡ false
    → IsReplacement
        (key (temporary pid target))
        (key target)
        bytes
        fs
        (write_fresh_replace pid target bytes fs)
unfolding write_fresh_replace
write_fresh_replace-IsReplacement pid target bytes fs apart =
    let t = key (temporary pid target) in
    let g = key target in
    let w = write t bytes fs in
    let e = io (temporary pid target) in
    let (written, kept) = write-outcomes t bytes fs in
    let (renamed, kept') = rename-outcomes t g w.1 apart (key_eq_symmetric t g apart) in
    let then_rename : Result InstallError (Unit {0}) × Fs → Result InstallError (Unit {0}) × Fs =
      λ r. then_do r.0 (λ _. attempt (io target) (rename t g)) r.1 in
    elim (outcome_lem e w) [
      | inl (wrote, ran) ↦ elim (outcome_lem (io target) (rename t g w.1)) [
        | inl (moved, ran') ↦
            let at_temp : file_at w.1 t ≡ some bytes = ground arith in
            let at_target : file_at (rename t g w.1).1 g ≡ file_at w.1 t = ground arith in
            let gone : file_at (rename t g w.1).1 t ≡ none = ground arith in
            subst (IsReplacement t g bytes fs) (sym (ap then_rename ran ∙ ran'))
              (inl (refl, at_target ∙ at_temp, gone), λ j h k. kept' j h k ∙ kept j h)
        | inr (failed, ran') ↦
            let same : file_at (rename t g w.1).1 g ≡ file_at w.1 g = ground arith in
            subst (IsReplacement t g bytes fs) (sym (ap then_rename ran ∙ ran'))
              (inr (λ h. cc, same ∙ kept g apart), λ j h k. kept' j h k ∙ kept j h)
      ]
      | inr (failed, ran) ↦
          subst (IsReplacement t g bytes fs) (sym (ap then_rename ran))
            (inr (λ h. cc, kept g apart), λ j h k. kept j h)
    ]

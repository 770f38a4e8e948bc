-- ===== src/Installer/Transaction/Confined.antt =====
-- Preparing an installation changes nothing outside the backup directory.
use pulse_sdk.Prelude.{
  true, false, List, [], ◌∷◌, ◌++◌, list_eq, ◌≡◌, refl, sym, ap, ◌∙◌, ◌+◌, ◌/◌, ◌%◌, ◌==◌, ℕ, suc,
  zero, length, length-append, arith, Bool-cases, inl, inr, ◌⊎◌,
}
use pulse_sdk.Prelude.Text.{decimal, decimal_loop, codes}
use pulse_sdk.Installer.Paths.{
  FilePath, Key, key, join, key_eq, is_prefix, is_absolute, backup_root_for, backup_manifest_name,
}
use pulse_sdk.Installer.Paths.Separate.{key-join, eq_of_key_eq, length-key-backup_root_for}
use pulse_sdk.Installer.Fs.{Bytes, read}
use pulse_sdk.Installer.Action.Keeping.{
  IsKeeping, pure-IsKeeping, bind-IsKeeping, bind-Returns-IsKeeping, Returns,
}
use pulse_sdk.Installer.Recognize.{recognize_gd}
use pulse_sdk.Installer.Backup.{
  BackupManifest, record_before_modify, record_created_absent, persist, rel_of,
}
use pulse_sdk.Installer.Transaction.{prepare}
use pulse_sdk.Installer.Transaction.Bundle.{
  executable_key, code_signature_key, dylib_key, under_backup, is_changed, is_prefix-front,
  is_prefix_of_length,
}
use pulse_sdk.Installer.Transaction.Steps.{
  recognize_gd-IsKeeping, ensure_not_already_installed-IsKeeping, record_before_modify-IsKeeping,
  record_created_absent-IsKeeping, persist-IsKeeping,
}

-- A changed file is one of three.
pub changed_cases :
    (root : FilePath) (j : Key)
    → is_changed root j ≡ true
    → (j ≡ key root ++ executable_key)
      ⊎ ((j ≡ key root ++ code_signature_key) ⊎ (j ≡ key root ++ dylib_key))
changed_cases root j h = elim (Bool-cases (key_eq (key root ++ executable_key) j)) [
  | inl e ↦ inl (sym (eq_of_key_eq _ _ e))
  | inr ne ↦ elim (Bool-cases (key_eq (key root ++ code_signature_key) j)) [
    | inl e ↦ inr (inl (sym (eq_of_key_eq _ _ e)))
    | inr ne' ↦ inr (inr (sym (eq_of_key_eq _ _ (ground arith))))
  ]
]

-- A name that begins with a digit is relative.
decimal_loop_relative :
    (rounds n : ℕ) (acc rest : List ℕ)
    → is_absolute (acc ++ rest) ≡ false
    → is_absolute (decimal_loop rounds n acc ++ rest) ≡ false
unfolding decimal_loop
decimal_loop_relative zero n acc rest h = h
decimal_loop_relative (suc rounds) n acc rest h =
    let digit : is_absolute ((b'0' + n % 10) ∷ (acc ++ rest)) ≡ false = ground arith in
    elim (Bool-cases (n / 10 == 0)) [
      | inl e ↦ rw (e, decimal_loop) digit
      | inr e ↦
          rw (e, decimal_loop)
            (decimal_loop_relative rounds (n / 10) ((b'0' + n % 10) ∷ acc) rest digit)
    ]

pub decimal_relative : (i : ℕ) → is_absolute (decimal i ++ codes ".orig") ≡ false
unfolding decimal
decimal_relative i = decimal_loop_relative (suc i) i [] (codes ".orig") refl

module _ (root : FilePath) (named : list_eq root [] ≡ false) where
  pub long_of_changed : (j : Key) → is_changed root j ≡ true → length j ≡ length (key root) + 3
  long_of_changed j h = elim (changed_cases root j h) [
    | inl e ↦ rw e (length-append (key root) executable_key)
    | inr (inl e) ↦ rw e (length-append (key root) code_signature_key)
    | inr (inr e) ↦ rw e (length-append (key root) dylib_key)
  ]

  backup_under_no_changed :
      (j : Key) → is_changed root j ≡ true → is_prefix j (key (backup_root_for root)) ≡ false
  backup_under_no_changed j h =
      is_prefix_of_length j (key (backup_root_for root))
        (omega (arith, long_of_changed j h, length-key-backup_root_for root named))

  pub backup_named : list_eq (backup_root_for root) [] ≡ false
  unfolding backup_root_for
  backup_named = nonempty_append root
    where
      nonempty_append : (r : FilePath) → list_eq (r ++ codes ".pulse-backup") [] ≡ false
      nonempty_append [] = refl
      nonempty_append (c ∷ r) = refl

  pub in_backup :
      (name : FilePath)
      → is_absolute name ≡ false
      → under_backup root (key (join (backup_root_for root) name)) ≡ true
  in_backup name relative =
      rw (key-join (backup_root_for root) name relative backup_named)
        (is_prefix-front (key (backup_root_for root)) _)

  pub recognize_gd-Returns : Returns (λ gd. gd ≡ record { root = root }) (recognize_gd root)
  unfolding recognize_gd read
  recognize_gd-Returns = record { at = λ fs gd h. ground arith }

  record_before_modify-Returns :
      (hash : Bytes → List ℕ) (backup : BackupManifest) (p : FilePath)
      → Returns (λ b. b.gd_root ≡ backup.gd_root) (record_before_modify hash backup p)
  unfolding record_before_modify rel_of read
  record_before_modify-Returns hash backup p = record { at = λ fs b h. ground arith }

  record_created_absent-Returns :
      (hash : Bytes → List ℕ) (backup : BackupManifest) (p : FilePath)
      → Returns (λ b. b.gd_root ≡ backup.gd_root) (record_created_absent hash backup p)
  unfolding record_created_absent rel_of
  record_created_absent-Returns hash backup p = record { at = λ fs b h. ground arith }

  persist_in_backup :
      (backup : BackupManifest)
      → backup.gd_root ≡ root
      → IsKeeping (under_backup root) (is_changed root) (persist backup)
  persist_in_backup backup e =
      persist-IsKeeping (under_backup root) (is_changed root) backup (rw e backup_under_no_changed)
        (λ i. rw e (in_backup (decimal i ++ codes ".orig") (decimal_relative i)))
        (rw e (in_backup backup_manifest_name refl))

  -- Nothing outside the backup directory changes before the backup is complete.
  pub prepare-IsKeeping :
      (hash : Bytes → List ℕ) → IsKeeping (under_backup root) (is_changed root) (prepare hash root)
  unfolding prepare
  prepare-IsKeeping hash =
      let t = under_backup root in
      let l = is_changed root in
      bind-Returns-IsKeeping _ _ _ t l (recognize_gd-IsKeeping t l root) recognize_gd-Returns
        λ gd eg. bind-IsKeeping t l _ _ (ensure_not_already_installed-IsKeeping t l gd) λ _.
          bind-Returns-IsKeeping _ _ _ t l (record_before_modify-IsKeeping t l hash _ _)
            (record_before_modify-Returns hash _ _)
            λ b1 e1.
              bind-Returns-IsKeeping _ _ _ t l (record_before_modify-IsKeeping t l hash _ _)
                (record_before_modify-Returns hash _ _)
                λ b2 e2.
                  bind-Returns-IsKeeping _ _ _ t l (record_created_absent-IsKeeping t l hash _ _)
                    (record_created_absent-Returns hash _ _)
                    λ b3 e3.
                      bind-IsKeeping t l _ _
                        (persist_in_backup b3 (e3 ∙ (e2 ∙ (e1 ∙ ap (λ g. g.root) eg))))
                        λ _. pure-IsKeeping t l b3

-- ===== src/Bindings/Linter/Located.antt =====
-- The path of a set names its pair.
use mathlib.Core.Path.{subst}
use pulse_sdk.Prelude.{
  ℕ, ◌+◌, ◌≡◌, refl, sym, ap, ◌∙◌, false, some, List, [], ◌∷◌, ◌++◌, append_assoc, list_eq, arith,
  ◌==◌,
}
use pulse_sdk.Prelude.Text.{codes}
use pulse_sdk.Bindings.{
  GdVersion, TargetPair, TargetPlatform, macos_arm64, macos_x64, windows_x64, android_arm64,
  ios_arm64, version_text, platform_id,
}
use pulse_sdk.Bindings.Generator.{pbind_path}
use pulse_sdk.Bindings.Generator.Location.{version_first, set_key, key-pbind_path}
use pulse_sdk.Bindings.Linter.PathPair.{derive_pair_from_path}
use pulse_sdk.Installer.Paths.Names.{file_name, before_last_dot, stem_of}
use pulse_sdk.Installer.Paths.{FilePath, Key, key, parent}

file_name-append :
    (front : Key) (name : List ℕ) → file_name (front ++ name ∷ []) ≡ file_name (name ∷ [])
unfolding file_name
file_name-append [] name = refl
file_name-append (x ∷ []) name = refl
file_name-append (x ∷ y ∷ front) name = file_name-append (y ∷ front) name

parent-append : (front : Key) (name : List ℕ) → parent (front ++ name ∷ []) ≡ front
parent-append [] name = refl
parent-append (x ∷ []) name = refl
parent-append (x ∷ y ∷ front) name = ap (λ k. x ∷ k) (parent-append (y ∷ front) name)

version_name : (gd : GdVersion) → file_name (version_text gd ∷ []) ≡ some (version_text gd)
unfolding file_name
version_name gd =
    let (d, text, e, l) = version_first gd in
    subst (λ t. file_name (t ∷ []) ≡ some t) (sym e)
      (let h : (48 + d == b'.') ≡ false = ground arith in rw h refl)

file_stem :
    (platform : TargetPlatform)
    → file_name ((platform_id platform ++ codes ".pbind") ∷ [])
        ≡ some (platform_id platform ++ codes ".pbind")
      × (stem_of (platform_id platform ++ codes ".pbind") ≡ platform_id platform)
unfolding file_name before_last_dot platform_id
file_stem macos_arm64 = (refl, refl)
file_stem macos_x64 = (refl, refl)
file_stem windows_x64 = (refl, refl)
file_stem android_arm64 = (refl, refl)
file_stem ios_arm64 = (refl, refl)

pub derive_pair_from_path-pbind_path :
    (root : FilePath) (pair : TargetPair)
    → list_eq root [] ≡ false
    → derive_pair_from_path (pbind_path root pair)
      ≡ some (version_text pair.gd, platform_id pair.platform)
unfolding derive_pair_from_path
derive_pair_from_path-pbind_path root pair h =
    let file = platform_id pair.platform ++ codes ".pbind" in
    let above = key root ++ codes "bindings" ∷ [] in
    let (named, stem) = file_stem pair.platform in
    let path = key-pbind_path root pair h in
    let whole : set_key root pair ≡ (above ++ version_text pair.gd ∷ []) ++ file ∷ [] = sym (
      append_assoc above (version_text pair.gd ∷ []) (file ∷ [])
      ∙ append_assoc (key root) (codes "bindings" ∷ []) (version_text pair.gd ∷ file ∷ [])) in
    let p = path ∙ whole in
    let last : file_name (key (pbind_path root pair)) ≡ some file =
      ap file_name p ∙ (file_name-append (above ++ version_text pair.gd ∷ []) file ∙ named) in
    let second : file_name (parent (key (pbind_path root pair))) ≡ some (version_text pair.gd) =
      ap (λ k. file_name (parent k)) p
      ∙ (ap file_name (parent-append (above ++ version_text pair.gd ∷ []) file)
          ∙ (file_name-append above (version_text pair.gd) ∙ version_name pair.gd)) in
    rw (last, second) (rw stem refl)

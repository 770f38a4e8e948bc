-- ===== src/Bindings/Generator/Location.antt =====
-- Where the set of a pair stands, by components.
use mathlib.Core.Path.{subst}
use pulse_sdk.Prelude.{
  ℕ, ◌+◌, ◌<◌, ◌≡◌, refl, sym, ap, ◌∙◌, false, List, [], ◌∷◌, ◌++◌, append_assoc, list_eq, ◌==◌,
  arith, All, All-append,
}
use pulse_sdk.Prelude.Text.{codes, decimal, words, word_loop, words-word}
use pulse_sdk.Prelude.Digits.{decimal-All}
use pulse_sdk.Prelude.Radix.{decimal-first}
use pulse_sdk.Bindings.{
  GdVersion, TargetPair, TargetPlatform, macos_arm64, macos_x64, windows_x64, android_arm64,
  ios_arm64, version_text, platform_id,
}
use pulse_sdk.Bindings.Generator.{pbind_path}
use pulse_sdk.Installer.Paths.{FilePath, Key, key, join, is_slash, without_dots, is_absolute}
use pulse_sdk.Installer.Paths.Separate.{key-join}

-- A version begins with a digit.
pub version_first :
    (gd : GdVersion) → (d : ℕ) × (text : List ℕ) × (version_text gd ≡ (48 + d) ∷ text) × (d < 10)
unfolding version_text
version_first gd =
    let (d, text, e, l) = decimal-first gd.major in
    (d, text ++ b'.' ∷ decimal gd.minor, ap (λ t. t ++ b'.' ∷ decimal gd.minor) e, l)

word_lem :
    (c : ℕ) (text : List ℕ)
    → (c == b'.') ≡ false
    → All (λ d. is_slash d ≡ false) (c ∷ text)
    → without_dots (words is_slash (c ∷ text)) ≡ (c ∷ text) ∷ []
unfolding without_dots
word_lem c text h k = ap without_dots (words-word is_slash c text k) ∙ rw (h, without_dots) refl

version_word :
    (gd : GdVersion) → without_dots (words is_slash (version_text gd)) ≡ version_text gd ∷ []
version_word gd =
    let (d, text, e, l) = version_first gd in
    let digit : (n : ℕ) → All (λ c. is_slash c ≡ false) (decimal n) =
      λ n. decimal-All (λ c. is_slash c ≡ false) n (λ d l. ground arith) in
    let solid : All (λ c. is_slash c ≡ false) (version_text gd) =
      unfold version_text in
      All-append (λ c. is_slash c ≡ false) (decimal gd.major) (b'.' ∷ decimal gd.minor)
        (digit gd.major) (refl, digit gd.minor) in
    subst (λ t. without_dots (words is_slash t) ≡ t ∷ []) (sym e)
      (word_lem (48 + d) text (ground arith) (subst (All (λ c. is_slash c ≡ false)) e solid))

version_relative : (gd : GdVersion) → is_absolute (version_text gd) ≡ false
version_relative gd = let (d, text, e, l) = version_first gd in rw e (ground arith)

file_word :
    (platform : TargetPlatform)
    → without_dots (words is_slash (platform_id platform ++ codes ".pbind"))
      ≡ (platform_id platform ++ codes ".pbind") ∷ []
unfolding platform_id words word_loop without_dots
file_word macos_arm64 = refl
file_word macos_x64 = refl
file_word windows_x64 = refl
file_word android_arm64 = refl
file_word ios_arm64 = refl

file_relative :
    (platform : TargetPlatform) → is_absolute (platform_id platform ++ codes ".pbind") ≡ false
unfolding platform_id
file_relative macos_arm64 = refl
file_relative macos_x64 = refl
file_relative windows_x64 = refl
file_relative android_arm64 = refl
file_relative ios_arm64 = refl

join-nonempty :
    (root rel : FilePath)
    → is_absolute rel ≡ false
    → list_eq root [] ≡ false
    → list_eq (join root rel) [] ≡ false
unfolding join
join-nonempty [] rel h k = cc
join-nonempty (c ∷ root) rel h k = rw h refl

bindings_word : without_dots (words is_slash (codes "bindings")) ≡ codes "bindings" ∷ []
unfolding words word_loop without_dots
bindings_word = refl

-- The components of the path of a set.
abbrev pub set_key : FilePath → TargetPair → Key
set_key root pair =
    key root
    ++ codes "bindings" ∷ version_text pair.gd ∷ (platform_id pair.platform ++ codes ".pbind") ∷ []

pub key-pbind_path :
    (root : FilePath) (pair : TargetPair)
    → list_eq root [] ≡ false
    → key (pbind_path root pair) ≡ set_key root pair
unfolding pbind_path
key-pbind_path root pair h =
    let first = join root (codes "bindings") in
    let second = join first (version_text pair.gd) in
    let file = platform_id pair.platform ++ codes ".pbind" in
    let h1 = join-nonempty root (codes "bindings") refl h in
    let h2 = join-nonempty first (version_text pair.gd) (version_relative pair.gd) h1 in
    key-join second file (file_relative pair.platform) h2
    ∙ (ap (λ k. k ++ without_dots (words is_slash file))
          (key-join first (version_text pair.gd) (version_relative pair.gd) h1
            ∙ ap (λ k. k ++ without_dots (words is_slash (version_text pair.gd)))
                (key-join root (codes "bindings") refl h ∙ ap (λ w. key root ++ w) bindings_word))
        ∙ (rw (file_word pair.platform, version_word pair.gd)
            (append_assoc (key root ++ codes "bindings" ∷ []) (version_text pair.gd ∷ [])
                (file ∷ [])
              ∙ append_assoc (key root) (codes "bindings" ∷ [])
                  (version_text pair.gd ∷ file ∷ []))))

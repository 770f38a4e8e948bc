-- ===== src/Bindings.antt =====
-- cli/src/bindings/mod.rs: the types that the catalogue, its generator and the extraction share.
pub mod CrossCheck
pub mod Catalog
pub mod Generator
pub mod Linter
pub mod Validation
pub mod Contribution
pub mod Prologue
pub mod Provenance
use pulse_sdk.Prelude.{
  ℕ, ◌-◌, ◌^◌, Bool, ◌&&◌, Option, none, some, List, [], ◌∷◌, ◌++◌, list_eq, ◌==◌, if◌then◌else◌,
}
use pulse_sdk.Prelude.Text.{codes, decimal}

pub record Signature : Type 0 where
  pub return_type : List ℕ
  pub param_types : List (List ℕ)

-- The offset of a symbol that has none.
abbrev pub sentinel_value : ℕ
sentinel_value = 2 ^ 64 - 1

-- `SymbolId`, a text.
abbrev pub SymbolId : Type 0
SymbolId = List ℕ

pub record GdVersion : Type 0 where
  pub major : ℕ
  pub minor : ℕ

pub data TargetPlatform : Type 0 where
  macos_arm64 macos_x64 windows_x64 android_arm64 ios_arm64 : TargetPlatform

pub record TargetPair : Type 0 where
  pub gd : GdVersion
  pub platform : TargetPlatform

-- The `Display` of a version.
unfoldable pub version_text : GdVersion → List ℕ
unfolding decimal
version_text gd = decimal gd.major ++ b'.' ∷ decimal gd.minor

unfoldable pub platform_id : TargetPlatform → List ℕ
platform_id macos_arm64 = codes "macos-arm64"
platform_id macos_x64 = codes "macos-x64"
platform_id windows_x64 = codes "windows-x64"
platform_id android_arm64 = codes "android-arm64"
platform_id ios_arm64 = codes "ios-arm64"

-- `TargetPlatform::ALL`
abbrev all_platforms : List TargetPlatform
all_platforms = macos_arm64 ∷ macos_x64 ∷ windows_x64 ∷ android_arm64 ∷ ios_arm64 ∷ []

abbrev find_platform : List ℕ → List TargetPlatform → Option TargetPlatform
find_platform id [] = none
find_platform id (platform ∷ platforms) =
    let rest = find_platform id platforms in
    if list_eq (platform_id platform) id then some platform else rest

unfoldable pub from_platform_id : List ℕ → Option TargetPlatform
unfolding platform_id
from_platform_id id = find_platform id all_platforms

-- The place of a platform in the order of its declaration, by which the platforms are compared.
unfoldable pub platform_rank : TargetPlatform → ℕ
platform_rank macos_arm64 = 0
platform_rank macos_x64 = 1
platform_rank windows_x64 = 2
platform_rank android_arm64 = 3
platform_rank ios_arm64 = 4

unfoldable pub pair_eq : TargetPair → TargetPair → Bool
unfolding platform_rank
pair_eq p q =
    p.gd.major == q.gd.major
    && (p.gd.minor == q.gd.minor && platform_rank p.platform == platform_rank q.platform)

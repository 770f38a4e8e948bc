-- ===== src/Bindings/Linter/Written.antt =====
-- The values that the generator writes, as the linter reads them.
use pulse_sdk.Prelude.{
  ℕ, ◌+◌, ◌^◌, ◌<◌, ◌≡◌, ◌≢◌, refl, Bool, true, false, not, ◌&&◌, some, List, [], ◌∷◌, ◌==◌, arith,
  All, All-append, All-map, is_empty,
}
use pulse_sdk.Prelude.Text.{is_whitespace, all_chars, decimal, is_ascii_hexdigit}
use pulse_sdk.Prelude.Digits.{decimal-All}
use pulse_sdk.Prelude.Radix.{
  hex_upper, upper_digit, decimal-first, hex_upper-first, from_str_radix-decimal,
  from_str_radix-hex_upper, hex_upper-All,
}
use pulse_sdk.Prelude.Trim.{trim, split_once, split_once-append, IsTrimmed-of_solid, trim_lem}
use pulse_sdk.Bindings.{
  GdVersion, TargetPlatform, macos_arm64, macos_x64, windows_x64, android_arm64, ios_arm64,
  version_text, platform_id,
}
use pulse_sdk.Bindings.Catalog.{OffsetRecord, effective_rva}
use pulse_sdk.Bindings.Generator.{offset_text}
use pulse_sdk.Bindings.Linter.Values.{
  is_digit, is_valid_unsigned_decimal, is_valid_gd_version, is_valid_offset,
}
use pulse_sdk.Bindings.Linter.Entries.{IsText, IsValue, IsSolid, IsText-of_solid, IsValue-of_text}

-- Whether a text is solid and passes a test of its characters.
all_chars_of_All :
    (p : ℕ → Bool) (text : List ℕ) → All (λ c. p c ≡ true) text → all_chars p text ≡ true
unfolding all_chars
all_chars_of_All p [] h = refl
all_chars_of_All p (c ∷ text) (e, h) = rw e (all_chars_of_All p text h)

digit-IsSolid : (d : ℕ) → d < 10 → IsSolid (48 + d)
unfolding is_whitespace
digit-IsSolid d h = ground arith

upper_digit-IsSolid : (d : ℕ) → d < 16 → IsSolid (upper_digit d)
unfolding is_whitespace
upper_digit-IsSolid d h = ground arith

decimal-IsSolid : (n : ℕ) → All IsSolid (decimal n)
decimal-IsSolid n = decimal-All IsSolid n digit-IsSolid

-- A solid text that is not empty.
IsText-solid : (text : List ℕ) → is_empty text ≡ false → All IsSolid text → IsText text
IsText-solid [] e h = cc
IsText-solid (c ∷ text) e h = IsText-of_solid c text h

trim_solid : (text : List ℕ) → All IsSolid text → trim text ≡ text
trim_solid text h = trim_lem text (IsTrimmed-of_solid text h)

decimal_nonempty : (n : ℕ) → is_empty (decimal n) ≡ false
decimal_nonempty n = let (d, text, e, l) = decimal-first n in rw e refl

pub is_valid_unsigned_decimal-decimal :
    (n : ℕ) → n < 2 ^ 64 → is_valid_unsigned_decimal (decimal n) ≡ true
unfolding is_valid_unsigned_decimal
is_valid_unsigned_decimal-decimal n h =
    let digits : all_chars is_digit (decimal n) ≡ true =
      all_chars_of_All is_digit (decimal n)
        (decimal-All (λ c. is_digit c ≡ true) n (λ d l. ground arith)) in
    rw (trim_solid (decimal n) (decimal-IsSolid n))
      (rw (decimal_nonempty n, digits, from_str_radix-decimal (2 ^ 64) n h) refl)

version-IsSolid : (gd : GdVersion) → All IsSolid (version_text gd)
unfolding version_text
version-IsSolid gd =
    All-append IsSolid (decimal gd.major) (b'.' ∷ decimal gd.minor) (decimal-IsSolid gd.major)
      (unfold is_whitespace in refl, decimal-IsSolid gd.minor)

version_nonempty : (gd : GdVersion) → is_empty (version_text gd) ≡ false
unfolding version_text
version_nonempty gd = let (d, text, e, l) = decimal-first gd.major in rw e refl

pub version-IsValue : (gd : GdVersion) → IsValue (version_text gd)
version-IsValue gd =
    IsValue-of_text (version_text gd)
      (IsText-solid (version_text gd) (version_nonempty gd) (version-IsSolid gd))

pub is_valid_gd_version-version_text :
    (gd : GdVersion)
    → gd.major < 2 ^ 32
    → gd.minor < 2 ^ 32
    → is_valid_gd_version (version_text gd) ≡ true
unfolding is_valid_gd_version
is_valid_gd_version-version_text gd h k =
    let split : split_once b'.' (version_text gd) ≡ some (decimal gd.major, decimal gd.minor) =
      unfold version_text in
      split_once-append b'.' (decimal gd.major) (decimal gd.minor)
        (decimal-All (λ c. c ≢ b'.') gd.major (λ d l e. omega arith)) in
    let major : gd.major < 2 ^ 64 = omega arith in
    let minor : gd.minor < 2 ^ 64 = omega arith in
    rw (trim_solid (version_text gd) (version-IsSolid gd), is_valid_gd_version)
      (rw (split, is_valid_gd_version)
        (rw
          (
            is_valid_unsigned_decimal-decimal gd.major major,
            is_valid_unsigned_decimal-decimal gd.minor minor,
          )
          refl))

-- No white space, slash or dot.
abbrev pub is_plain : ℕ → Bool
is_plain c = not (is_whitespace c) && (not (c == b'/') && not (c == b'.'))

platform_plain : (platform : TargetPlatform) → all_chars is_plain (platform_id platform) ≡ true
unfolding platform_id all_chars is_whitespace
platform_plain macos_arm64 = refl
platform_plain macos_x64 = refl
platform_plain windows_x64 = refl
platform_plain android_arm64 = refl
platform_plain ios_arm64 = refl

All_of_all_chars :
    (p : ℕ → Bool) (text : List ℕ) → all_chars p text ≡ true → All (λ c. p c ≡ true) text
unfolding all_chars
All_of_all_chars p [] h = tt
All_of_all_chars p (c ∷ text) h = (ground arith, All_of_all_chars p text (ground arith))

pub platform-All :
    (P : ℕ → Type 0) (platform : TargetPlatform)
    → ((c : ℕ) → is_plain c ≡ true → P c)
    → All P (platform_id platform)
platform-All P platform f =
    All-map (λ c. is_plain c ≡ true) P (platform_id platform) f
      (All_of_all_chars is_plain (platform_id platform) (platform_plain platform))

pub platform_nonempty : (platform : TargetPlatform) → is_empty (platform_id platform) ≡ false
unfolding platform_id
platform_nonempty macos_arm64 = refl
platform_nonempty macos_x64 = refl
platform_nonempty windows_x64 = refl
platform_nonempty android_arm64 = refl
platform_nonempty ios_arm64 = refl

pub platform_id-IsValue : (platform : TargetPlatform) → IsValue (platform_id platform)
platform_id-IsValue platform = IsValue-of_text (platform_id platform) (
    IsText-solid (platform_id platform) (platform_nonempty platform)
      (platform-All IsSolid platform (λ c h. ground arith)))

pub trim-version_text : (gd : GdVersion) → trim (version_text gd) ≡ version_text gd
trim-version_text gd = trim_solid (version_text gd) (version-IsSolid gd)

pub trim-platform_id :
    (platform : TargetPlatform) → trim (platform_id platform) ≡ platform_id platform
trim-platform_id platform =
    trim_solid (platform_id platform) (platform-All IsSolid platform (λ c h. ground arith))

offset_text-IsSolid : (offset : OffsetRecord) → All IsSolid (offset_text offset)
offset_text-IsSolid offset = (
  unfold is_whitespace in refl,
  (unfold is_whitespace in refl, hex_upper-All IsSolid (effective_rva offset) upper_digit-IsSolid),
)

pub offset_text-IsValue : (offset : OffsetRecord) → IsValue (offset_text offset)
offset_text-IsValue offset =
    IsText-of_solid b'0' (b'x' ∷ hex_upper (effective_rva offset)) (offset_text-IsSolid offset)

pub is_valid_offset-offset_text :
    (offset : OffsetRecord)
    → effective_rva offset < 2 ^ 64
    → is_valid_offset (offset_text offset) ≡ true
unfolding is_valid_offset
is_valid_offset-offset_text offset h =
    let n = effective_rva offset in
    let digits : all_chars is_ascii_hexdigit (hex_upper n) ≡ true =
      all_chars_of_All is_ascii_hexdigit (hex_upper n)
        (hex_upper-All (λ c. is_ascii_hexdigit c ≡ true) n (λ d l. ground arith)) in
    let nonempty : is_empty (hex_upper n) ≡ false =
      let (d, text, e, l) = hex_upper-first n in rw e refl in
    rw (trim_solid (offset_text offset) (offset_text-IsSolid offset))
      (rw (nonempty, digits, from_str_radix-hex_upper (2 ^ 64) n h) refl)

-- ===== src/Tests/Codec.antt =====
-- A text form of catalogue entries that is read back, in the place of TOML.
use mathlib.Core.Path.{subst}
use pulse_sdk.Prelude.{
  ℕ, zero, suc, ◌≡◌, refl, ap, ◌∙◌, Bool, true, false, Option, none, some, List, [], ◌∷◌, ◌++◌,
  append_assoc, append-nil, length, if◌then◌else◌, ◌==◌,
}
use pulse_sdk.Bindings.{
  TargetPlatform, macos_arm64, macos_x64, windows_x64, android_arm64, ios_arm64,
}
use pulse_sdk.Bindings.Catalog.Raw.{RawCatalogEntry, RawOffset, RawProvenance}

-- What is written is read back, whatever follows it.
pub record Codec (A : Type 0) : Type 0 where
  pub put : A → List ℕ
  pub get : List ℕ → Option (A × List ℕ)
  pub law : (a : A) (rest : List ℕ) → get (put a ++ rest) ≡ some (a, rest)

abbrev pub get_nat : List ℕ → Option (ℕ × List ℕ)
get_nat [] = none
get_nat (n ∷ rest) = some (n, rest)

abbrev pub nat_codec : Codec ℕ
nat_codec = record { put = λ n. n ∷ []; get = get_nat; law = λ n rest. refl }

module _ {A B : Type 0} where
  abbrev pub then_read : (A → List ℕ → Option B) → Option (A × List ℕ) → Option B
  then_read f none = none
  then_read f (some (a, rest)) = f a rest

module _ {A B : Type 0} (c : Codec A) (d : Codec B) where
  abbrev pub get_second : A → Option (B × List ℕ) → Option ((A × B) × List ℕ)
  get_second a none = none
  get_second a (some (b, rest)) = some ((a, b), rest)

  pub pair_law :
      (p : A × B) (rest : List ℕ)
      → then_read (λ a r. get_second a (d.get r)) (c.get ((c.put p.0 ++ d.put p.1) ++ rest))
        ≡ some (p, rest)
  pair_law (a, b) rest =
      ap (λ l. then_read (λ a r. get_second a (d.get r)) (c.get l))
        (append_assoc (c.put a) (d.put b) rest)
      ∙ (ap (then_read (λ a r. get_second a (d.get r))) (c.law a (d.put b ++ rest))
          ∙ ap (get_second a) (d.law b rest))

  abbrev pub pair_codec : Codec (A × B)
  pair_codec = record {
    put = λ p. c.put p.0 ++ d.put p.1;
    get = λ l. then_read (λ a r. get_second a (d.get r)) (c.get l);
    law = pair_law;
  }

module _ {A : Type 0} (c : Codec A) where
  abbrev pub put_items : List A → List ℕ
  put_items [] = []
  put_items (a ∷ items) = c.put a ++ put_items items

  abbrev pub add_item : A → Option (List A × List ℕ) → Option (List A × List ℕ)
  add_item a none = none
  add_item a (some (items, rest)) = some (a ∷ items, rest)

  abbrev pub get_items : ℕ → List ℕ → Option (List A × List ℕ)
  get_items zero l = some ([], l)
  get_items (suc n) l = then_read (λ a r. add_item a (get_items n r)) (c.get l)

  pub items_law :
      (items : List A) (rest : List ℕ)
      → get_items (length items) (put_items items ++ rest) ≡ some (items, rest)
  items_law [] rest = refl
  items_law (a ∷ items) rest =
      let f = λ (a : A) (r : List ℕ). add_item a (get_items (length items) r) in
      ap (λ l. then_read f (c.get l)) (append_assoc (c.put a) (put_items items) rest)
      ∙ (ap (then_read f) (c.law a (put_items items ++ rest))
          ∙ ap (add_item a) (items_law items rest))

  abbrev pub get_list : List ℕ → Option (List A × List ℕ)
  get_list [] = none
  get_list (n ∷ l) = get_items n l

  abbrev pub list_codec : Codec (List A)
  list_codec = record {
    put = λ items. length items ∷ put_items items;
    get = get_list;
    law = items_law;
  }

module _ {A B : Type 0} (c : Codec A) (into : B → A) (back : A → B)
    (same : (b : B) → back (into b) ≡ b) where
  abbrev pub map_read : Option (A × List ℕ) → Option (B × List ℕ)
  map_read none = none
  map_read (some (a, rest)) = some (back a, rest)

  pub iso_law : (b : B) (rest : List ℕ) → map_read (c.get (c.put (into b) ++ rest)) ≡ some (b, rest)
  iso_law b rest = ap map_read (c.law (into b) rest) ∙ ap (λ b'. some (b', rest)) (same b)

  abbrev pub iso_codec : Codec B
  iso_codec = record { put = λ b. c.put (into b); get = λ l. map_read (c.get l); law = iso_law }

abbrev pub text_codec : Codec (List ℕ)
text_codec = list_codec nat_codec

module _ {A : Type 0} (c : Codec A) where
  abbrev pub to_list : Option A → List A
  to_list none = []
  to_list (some a) = a ∷ []

  abbrev pub of_list : List A → Option A
  of_list [] = none
  of_list (a ∷ items) = some a

  pub option_same : (o : Option A) → of_list (to_list o) ≡ o
  option_same none = refl
  option_same (some a) = refl

  abbrev pub option_codec : Codec (Option A)
  option_codec = iso_codec (list_codec c) to_list of_list option_same

abbrev pub of_bool : Bool → ℕ
of_bool b = if b then 1 else 0

pub bool_same : (b : Bool) → (of_bool b == 1) ≡ b
bool_same true = refl
bool_same false = refl

abbrev pub bool_codec : Codec Bool
bool_codec = iso_codec nat_codec of_bool (λ n. n == 1) bool_same

abbrev pub of_platform : TargetPlatform → ℕ
of_platform macos_arm64 = 0
of_platform macos_x64 = 1
of_platform windows_x64 = 2
of_platform android_arm64 = 3
of_platform ios_arm64 = 4

abbrev pub to_platform : ℕ → TargetPlatform
to_platform n =
    if n == 0
    then macos_arm64
    else if n == 1
    then macos_x64
    else if n == 2
    then windows_x64
    else if n == 3
    then android_arm64
    else ios_arm64

pub platform_same : (p : TargetPlatform) → to_platform (of_platform p) ≡ p
platform_same macos_arm64 = refl
platform_same macos_x64 = refl
platform_same windows_x64 = refl
platform_same android_arm64 = refl
platform_same ios_arm64 = refl

abbrev pub platform_codec : Codec TargetPlatform
platform_codec = iso_codec nat_codec of_platform to_platform platform_same

abbrev pub provenance_codec : Codec RawProvenance
provenance_codec =
    iso_codec
      (pair_codec (pair_codec (option_codec text_codec) (option_codec text_codec))
        (pair_codec bool_codec (pair_codec (option_codec text_codec) (option_codec text_codec))))
      (λ p. (
        (p.address_source, p.cross_check),
        (p.cross_check_no_reuse, (p.prologue_method, p.prologue_outcome)),
      ))
      (λ t. record {
        address_source = t.0.0;
        cross_check = t.0.1;
        cross_check_no_reuse = t.1.0;
        prologue_method = t.1.1.0;
        prologue_outcome = t.1.1.1;
      })
      (λ p. refl)

abbrev pub offset_codec : Codec RawOffset
offset_codec =
    iso_codec
      (pair_codec (pair_codec text_codec platform_codec) (
        pair_codec (option_codec nat_codec)
          (pair_codec bool_codec (option_codec provenance_codec))))
      (λ o. ((o.gd_version, o.platform), (o.rva, (o.verified, o.provenance))))
      (λ t. record {
        gd_version = t.0.0;
        platform = t.0.1;
        rva = t.1.0;
        verified = t.1.1.0;
        provenance = t.1.1.1;
      })
      (λ o. refl)

abbrev pub entry_codec : Codec RawCatalogEntry
entry_codec =
    iso_codec
      (pair_codec (pair_codec nat_codec text_codec)
        (pair_codec (pair_codec text_codec (list_codec text_codec)) (list_codec offset_codec)))
      (λ e.
        ((e.schema_version, e.symbol), ((e.signature.return_type, e.signature.params), e.offset)))
      (λ t. record {
        schema_version = t.0.0;
        symbol = t.0.1;
        signature = record { return_type = t.1.0.0; params = t.1.0.1 };
        offset = t.1.1;
      })
      (λ e. refl)

abbrev pub write_entry : RawCatalogEntry → Option (List ℕ)
write_entry raw = some (entry_codec.put raw)

abbrev pub entry_read : Option (RawCatalogEntry × List ℕ) → Option RawCatalogEntry
entry_read none = none
entry_read (some (raw, rest)) = some raw

abbrev pub read_entry : List ℕ → Option RawCatalogEntry
read_entry text = entry_read (entry_codec.get text)

some_lem : (a b : List ℕ) → some a ≡ some b → a ≡ b
some_lem a b e = cc

pub read-write :
    (raw : RawCatalogEntry) (text : List ℕ)
    → write_entry raw ≡ some text
    → read_entry text ≡ some raw
read-write raw text e =
    subst (λ t. read_entry t ≡ some raw)
      (append-nil (entry_codec.put raw) ∙ some_lem (entry_codec.put raw) text e)
      (ap entry_read (entry_codec.law raw []))

-- ===== src/Installer/Paths/Separate.antt =====
-- The files that the installer touches are told apart by their keys, and none of them lies in the
-- backup directory.
use pulse_sdk.Prelude.{
  ℕ, suc, ◌+◌, ◌≤◌, ◌<◌, ◌≡◌, ◌≢◌, refl, sym, ap, ◌∙◌, true, false, List, [], ◌∷◌, ◌++◌, list_eq,
  append-nil, append_assoc, arith, Bool-cases, inl, inr, ==_iff, length, length-append, All,
}
use pulse_sdk.Prelude.Text.{codes, words, words-append, word_loop, word_loop-word, flush}
use pulse_sdk.Installer.Paths.{
  FilePath, Key, is_slash, without_dots, is_absolute, root_mark, key, ends_with_slash, join, key_eq,
  is_prefix, backup_root_for,
}

pub list_eq_self : (xs : List ℕ) → list_eq xs xs ≡ true
list_eq_self [] = refl
list_eq_self (x ∷ xs) = ground (arith, list_eq_self xs)

pub eq_of_list_eq : (xs ys : List ℕ) → list_eq xs ys ≡ true → xs ≡ ys
eq_of_list_eq [] [] h = refl
eq_of_list_eq [] (y ∷ ys) h = cc
eq_of_list_eq (x ∷ xs) [] h = cc
eq_of_list_eq (x ∷ xs) (y ∷ ys) h = ground (arith, eq_of_list_eq xs ys)

pub key_eq_self : (k : Key) → key_eq k k ≡ true
key_eq_self [] = refl
key_eq_self (x ∷ k) = ground (arith, list_eq_self x, key_eq_self k)

pub eq_of_key_eq : (j k : Key) → key_eq j k ≡ true → j ≡ k
eq_of_key_eq [] [] h = refl
eq_of_key_eq [] (y ∷ ys) h = cc
eq_of_key_eq (x ∷ xs) [] h = cc
eq_of_key_eq (x ∷ xs) (y ∷ ys) h = ground (arith, eq_of_list_eq x y, eq_of_key_eq xs ys)

-- A common front does not matter.
pub key_eq-append : (front j k : Key) → key_eq (front ++ j) (front ++ k) ≡ key_eq j k
key_eq-append [] j k = refl
key_eq-append (x ∷ front) j k = rw (list_eq_self x) (key_eq-append front j k)

without_dots-append : (xs ys : Key) → without_dots (xs ++ ys) ≡ without_dots xs ++ without_dots ys
unfolding without_dots
without_dots-append [] ys = refl
without_dots-append (x ∷ xs) ys = ground (arith, without_dots-append xs ys)

slash_at_end :
    (root : FilePath) → ends_with_slash root ≡ true → (r : FilePath) × (root ≡ r ++ b'/' ∷ [])
unfolding ends_with_slash
slash_at_end [] h = cc
slash_at_end (c ∷ []) h = ([], ap (λ x. x ∷ []) ((==_iff c b'/').0 h))
slash_at_end (c ∷ c' ∷ path) h =
    let (r, e) = slash_at_end (c' ∷ path) h in (c ∷ r, ap (λ l. c ∷ l) e)

key_lem : (path : FilePath) → key path ≡ root_mark path ++ without_dots (words is_slash path)
key_lem path = unfold key in refl

words-trailing_slash : (r : FilePath) → words is_slash (r ++ b'/' ∷ []) ≡ words is_slash r
words-trailing_slash r =
    words-append is_slash r [] b'/' refl ∙ unfold words in append-nil (words is_slash r)

words-join :
    (root rel : FilePath)
    → is_absolute rel ≡ false
    → list_eq root [] ≡ false
    → words is_slash (join root rel) ≡ words is_slash root ++ words is_slash rel
unfolding join
words-join root rel relative nonempty = elim (Bool-cases (ends_with_slash root)) [
  | inl ends ↦
      let (r, e) = slash_at_end root ends in
      let joined : (root ++ rel) ≡ r ++ (b'/' ∷ rel) =
        ap (λ p. p ++ rel) e ∙ append_assoc r (b'/' ∷ []) rel in
      let root_words : words is_slash root ≡ words is_slash r =
        ap (words is_slash) e ∙ words-trailing_slash r in
      rw (relative, ends) (rw (joined, root_words) (words-append is_slash r rel b'/' refl))
  | inr open_end ↦ rw (relative, open_end, nonempty) (words-append is_slash root rel b'/' refl)
]

is_absolute-join :
    (root rel : FilePath)
    → is_absolute rel ≡ false
    → list_eq root [] ≡ false
    → is_absolute (join root rel) ≡ is_absolute root
unfolding join
is_absolute-join [] rel relative nonempty = cc
is_absolute-join (c ∷ root) rel relative nonempty = rw relative

-- The key of a joined path goes on where the key of the root ends.
pub key-join :
    (root rel : FilePath)
    → is_absolute rel ≡ false
    → list_eq root [] ≡ false
    → key (join root rel) ≡ key root ++ without_dots (words is_slash rel)
key-join root rel relative nonempty =
    let w = words-join root rel relative nonempty in
    let a = is_absolute-join root rel relative nonempty in
    key_lem (join root rel)
    ∙ rw (w, a, key_lem root)
        (rw without_dots-append (
          sym (
            append_assoc (root_mark root) (without_dots (words is_slash root))
              (without_dots (words is_slash rel)))))

list_eq_of_length : (xs ys : List ℕ) → length xs ≢ length ys → list_eq xs ys ≡ false
list_eq_of_length [] [] h = absurd (h refl)
list_eq_of_length [] (y ∷ ys) h = refl
list_eq_of_length (x ∷ xs) [] h = refl
list_eq_of_length (x ∷ xs) (y ∷ ys) h = ground (arith, list_eq_of_length xs ys (λ e. h (ap suc e)))

abbrev suffix : List ℕ
suffix = codes ".pulse-backup"

-- A word with the suffix is neither the word, nor `.`, nor `Contents`.
suffixed_ne :
    (word other : List ℕ) → length other < length word + 13 → list_eq (word ++ suffix) other ≡ false
suffixed_ne word other lt =
    list_eq_of_length (word ++ suffix) other
      (λ e. absurd (omega (arith, length-append word suffix)))

abbrev pub contents : List ℕ
contents = codes "Contents"

suffix-no_slash : All (λ c. is_slash c ≡ false) suffix
suffix-no_slash = (
  refl,
  (
    refl,
    (refl, (refl, (refl, (refl, (refl, (refl, (refl, (refl, (refl, (refl, (refl, tt))))))))))),
  ),
)

-- A word in front of both sides does not matter.
flush_prefix :
    (word : List ℕ) (us vs : Key) (more : Key)
    → is_prefix (without_dots us) (without_dots vs ++ more) ≡ false
    → is_prefix (without_dots (flush word us)) (without_dots (flush word vs) ++ more) ≡ false
unfolding without_dots
flush_prefix [] us vs more h = h
flush_prefix (c ∷ word) us vs more h = elim (Bool-cases (list_eq (c ∷ word) (b'.' ∷ []))) [
  | inl e ↦ rw e h
  | inr e ↦ rw (e, list_eq_self (c ∷ word)) h
]

lone_word :
    (c : ℕ) (longer word : List ℕ) (more : Key)
    → list_eq (c ∷ longer) (c ∷ word) ≡ false
    → list_eq (c ∷ longer) (b'.' ∷ []) ≡ false
    → list_eq (c ∷ longer) contents ≡ false
    → is_prefix
        (without_dots ((c ∷ longer) ∷ []))
        (without_dots ((c ∷ word) ∷ []) ++ (contents ∷ more))
      ≡ false
unfolding without_dots
lone_word c longer word more h1 h2 h3 = elim (Bool-cases (list_eq (c ∷ word) (b'.' ∷ []))) [
  | inl e ↦ rw (h2, e, h3)
  | inr e ↦ rw (h2, e, h1)
]

suffixed_word :
    (c : ℕ) (word : List ℕ) (more : Key)
    → is_prefix
        (without_dots (word_loop is_slash (c ∷ word) suffix))
        (without_dots (word_loop is_slash (c ∷ word) []) ++ (contents ∷ more))
      ≡ false
suffixed_word c word more =
    let e = word_loop-word is_slash (c ∷ word) suffix suffix-no_slash in
    let e' =
      word_loop-word is_slash (c ∷ word) [] tt ∙ ap (λ w. flush w []) (append-nil (c ∷ word)) in
    rw (e, e')
      (lone_word c (word ++ suffix) word more (suffixed_ne (c ∷ word) (c ∷ word) (omega arith))
        (suffixed_ne (c ∷ word) (b'.' ∷ []) (omega arith))
        (suffixed_ne (c ∷ word) contents (omega arith)))

suffixed_prefix :
    (word text : List ℕ) (more : Key)
    → is_prefix
        (without_dots (word_loop is_slash word (text ++ suffix)))
        (without_dots (word_loop is_slash word text) ++ (contents ∷ more))
      ≡ false
unfolding word_loop without_dots
suffixed_prefix [] [] more = refl
suffixed_prefix (c ∷ word) [] more = suffixed_word c word more
suffixed_prefix word (x ∷ text) more = elim (Bool-cases (is_slash x)) [
  | inl e ↦
      rw (e, word_loop)
        (flush_prefix word (word_loop is_slash [] (text ++ suffix)) (word_loop is_slash [] text)
          (contents ∷ more) (suffixed_prefix [] text more))
  | inr e ↦ rw (e, word_loop) (suffixed_prefix (word ++ x ∷ []) text more)
]

is_prefix-append : (front j k : Key) → is_prefix (front ++ j) (front ++ k) ≡ is_prefix j k
is_prefix-append [] j k = refl
is_prefix-append (x ∷ front) j k = rw (list_eq_self x) (is_prefix-append front j k)

-- Nothing under `Contents` of the bundle lies in the backup directory, however the root is spelled.
pub backup_root_for-outside :
    (root : FilePath) (more : Key)
    → list_eq root [] ≡ false
    → is_prefix (key (backup_root_for root)) (key root ++ (contents ∷ more)) ≡ false
unfolding backup_root_for
backup_root_for-outside [] more h = cc
backup_root_for-outside (c ∷ root) more h =
    rw (key_lem (c ∷ root), key_lem ((c ∷ root) ++ suffix))
      (rw append_assoc (rw is_prefix-append (unfold words in suffixed_prefix [] (c ∷ root) more)))

key_length-append : (j k : Key) → length (j ++ k) ≡ length j + length k
key_length-append j k = length-append j k

length-flush :
    (word : List ℕ) (us vs : Key)
    → length (without_dots us) ≤ length (without_dots vs) + 1
    → length (without_dots (flush word us)) ≤ length (without_dots (flush word vs)) + 1
unfolding without_dots
length-flush [] us vs h = h
length-flush (c ∷ word) us vs h = elim (Bool-cases (list_eq (c ∷ word) (b'.' ∷ []))) [
  | inl e ↦ rw e h
  | inr e ↦ rw e (omega arith)
]

one_word : (c : ℕ) (word : List ℕ) → length (without_dots ((c ∷ word) ∷ [])) ≤ 1
unfolding without_dots
one_word c word = elim (Bool-cases (list_eq (c ∷ word) (b'.' ∷ []))) [
  | inl e ↦ rw e (omega arith)
  | inr e ↦ rw e (omega arith)
]

suffixed_word_length :
    (c : ℕ) (word : List ℕ)
    → length (without_dots (word_loop is_slash (c ∷ word) suffix))
      ≤ length (without_dots (word_loop is_slash (c ∷ word) [])) + 1
suffixed_word_length c word =
    rw (word_loop-word is_slash (c ∷ word) suffix suffix-no_slash)
      (omega (arith, one_word c (word ++ suffix)))

suffixed_length :
    (word text : List ℕ)
    → length (without_dots (word_loop is_slash word (text ++ suffix)))
      ≤ length (without_dots (word_loop is_slash word text)) + 1
unfolding word_loop
suffixed_length [] [] = unfold without_dots in omega arith
suffixed_length (c ∷ word) [] = suffixed_word_length c word
suffixed_length word (x ∷ text) = elim (Bool-cases (is_slash x)) [
  | inl e ↦
      rw (e, word_loop)
        (length-flush word (word_loop is_slash [] (text ++ suffix)) (word_loop is_slash [] text)
          (suffixed_length [] text))
  | inr e ↦ rw (e, word_loop) (suffixed_length (word ++ x ∷ []) text)
]

length-words :
    (text : List ℕ)
    → length (without_dots (words is_slash (text ++ suffix)))
      ≤ length (without_dots (words is_slash text)) + 1
unfolding words
length-words text = suffixed_length [] text

-- The backup directory lies at most one level below the depth of the root.
pub length-key-backup_root_for :
    (root : FilePath)
    → list_eq root [] ≡ false
    → length (key (backup_root_for root)) ≤ length (key root) + 1
unfolding backup_root_for
length-key-backup_root_for [] h = cc
length-key-backup_root_for (c ∷ root) h =
    rw (key_lem (c ∷ root), key_lem ((c ∷ root) ++ suffix))
      (let l = length-words (c ∷ root) in
        omega (
          arith,
          l,
          key_length-append (root_mark (c ∷ root)) (without_dots (words is_slash (c ∷ root))),
          key_length-append (root_mark (c ∷ root))
              (without_dots (words is_slash ((c ∷ root) ++ suffix))),
        ))

-- ===== src/Siggen/Signature/RoundTrip.antt =====
-- `parse` undoes `render`, is indifferent to the white space between the bytes, and accepts no part
-- of a text that has a bad token.
use pulse_sdk.Prelude.{
  ℕ, zero, suc, ◌+◌, ◌/◌, ◌%◌, ◌<◌, ◌≡◌, refl, ap, Bool, true, false, ◌&&◌, List, [], ◌∷◌, ◌++◌,
  map, append-nil, not, ltb, ◌==◌, Result, ok, err, ◌>>=◌, All, arith, ==_iff,
}
use pulse_sdk.Prelude.Text.{words, words-append, words-word, is_whitespace}
use pulse_sdk.Siggen.Signature.{
  SigByte, fixed, wildcard, ByteSignature, AobParseError, render_byte, hex_digit, render_loop,
  render, parse_token, parse_tokens, parse,
}

-- A byte is below 256.
abbrev pub IsByte : SigByte → Type 0
IsByte (fixed b) = b < 256
IsByte wildcard = Unit

-- the token of one byte, checked for each of the 256 values
token_reads_back : ℕ → Bool
unfolding parse_token render_byte
token_reads_back b = elim (parse_token (render_byte (fixed b))) [
  | ok (fixed value) ↦ value == b
  | _ ↦ false
]

-- A test of the numbers from `least` up to `least + count`.
every_from : (ℕ → Bool) → ℕ → ℕ → Bool
every_from test least zero = true
every_from test least (suc count) = test least && every_from test (least + 1) count

every_from_sound :
    (test : ℕ → Bool) (least count at : ℕ)
    → every_from test least count ≡ true
    → at < count
    → test (least + at) ≡ true
unfolding every_from
every_from_sound test least zero at passed bound = absurd (omega arith)
every_from_sound test least (suc count) zero passed bound = ground arith
every_from_sound test least (suc count) (suc at) passed bound =
    let e : least + suc at ≡ least + 1 + at = omega arith in
    rw e (every_from_sound test (least + 1) count at (ground arith) (omega arith))

-- What a table of the numbers below `count` says of one of them.
of_table :
    (test : ℕ → Bool) (count at : ℕ) → every_from test 0 count ≡ true → at < count → test at ≡ true
of_table test count at table bound =
    let e : 0 + at ≡ at = omega arith in rw e at (every_from_sound test 0 count at table bound)

token_table : every_from token_reads_back 0 256 ≡ true
unfolding every_from token_reads_back
token_table = refl

parse_token-render_byte : (b : SigByte) → IsByte b → parse_token (render_byte b) ≡ ok b
parse_token-render_byte (fixed b) h =
    let e = of_table token_reads_back 256 b token_table h in
    unfold token_reads_back in read (parse_token (render_byte (fixed b))) e
  where
    read :
        (r : Result AobParseError SigByte)
        → (elim r [ ok (fixed value) ↦ value == b | _ ↦ false ]) ≡ true
        → r ≡ ok (fixed b)
    read (ok (fixed value)) e = ap (λ v. ok (fixed v)) ((==_iff value b).0 e)
    read (ok wildcard) e = cc
    read (err x) e = cc
parse_token-render_byte wildcard h = unfold parse_token render_byte in refl

parse_tokens-render_byte :
    (bytes : List SigByte) → All IsByte bytes → parse_tokens (map render_byte bytes) ≡ ok bytes
unfolding parse_tokens
parse_tokens-render_byte [] h = refl
parse_tokens-render_byte (b ∷ bytes) (hb, h) =
    rw (parse_token-render_byte b hb, parse_tokens-render_byte bytes h)

hex_digit-not_whitespace_table : every_from (λ d. not (is_whitespace (hex_digit d))) 0 16 ≡ true
unfolding every_from is_whitespace hex_digit
hex_digit-not_whitespace_table = refl

hex_digit-not_whitespace : (d : ℕ) → d < 16 → is_whitespace (hex_digit d) ≡ false
hex_digit-not_whitespace d h =
    let e =
      of_table (λ d. not (is_whitespace (hex_digit d))) 16 d hex_digit-not_whitespace_table h in
    ground arith

-- The digits, and `?`, are no white space.
not_whitespace : (b : SigByte) → IsByte b → All (λ c. is_whitespace c ≡ false) (render_byte b)
unfolding render_byte
not_whitespace (fixed b) h = (
  hex_digit-not_whitespace (b / 16) (omega arith),
  (hex_digit-not_whitespace (b % 16) (omega arith), tt),
)
not_whitespace wildcard h = unfold is_whitespace in (refl, tt)

words-render_byte :
    (b : SigByte) → IsByte b → words is_whitespace (render_byte b) ≡ render_byte b ∷ []
words-render_byte (fixed b) h =
    let n = not_whitespace (fixed b) h in unfold render_byte in words-word is_whitespace _ _ n
words-render_byte wildcard h =
    let n = not_whitespace wildcard h in unfold render_byte in words-word is_whitespace _ _ n

words-render_loop :
    (i : ℕ) (b : SigByte) (bytes : List SigByte)
    → All IsByte (b ∷ bytes)
    → words is_whitespace (render_byte b ++ render_loop (i + 1) bytes)
      ≡ render_byte b ∷ map render_byte bytes
unfolding render_loop
words-render_loop i b [] (hb, h) = rw append-nil (words-render_byte b hb)
words-render_loop i b (b' ∷ bytes) (hb, h) =
    let separator : ltb 0 (i + 1) ≡ true = ground arith in
    rw separator (
      rw
        (words-append is_whitespace (render_byte b)
          (render_byte b' ++ render_loop (i + 1 + 1) bytes) b' ' (unfold is_whitespace in refl))
        (cc (words-render_byte b hb, words-render_loop (i + 1) b' bytes h)))

words-render :
    (sig : ByteSignature)
    → All IsByte sig.bytes
    → words is_whitespace (render sig) ≡ map render_byte sig.bytes
unfolding render
words-render sig h = go sig.bytes h
  where
    go :
        (bytes : List SigByte)
        → All IsByte bytes
        → words is_whitespace (render_loop 0 bytes) ≡ map render_byte bytes
    go [] h = unfold words render_loop in refl
    go (b ∷ bytes) h = unfold render_loop in words-render_loop 0 b bytes h

-- Rendering a signature of bytes and parsing the text gives the signature back.
pub parse-render : (sig : ByteSignature) → All IsByte sig.bytes → parse (render sig) ≡ ok sig
unfolding parse
parse-render sig h = rw (words-render sig h, parse_tokens-render_byte sig.bytes h)

-- One sequence of bytes after another; the error is the first.
abbrev pub join :
    Result AobParseError ByteSignature
    → Result AobParseError ByteSignature
    → Result AobParseError ByteSignature
join a b = a >>= λ s. b >>= λ t. ok (record { bytes = s.bytes ++ t.bytes })

parse_tokens-append :
    (xs ys : List (List ℕ))
    → parse_tokens (xs ++ ys) ≡ (parse_tokens xs >>= λ s. parse_tokens ys >>= λ t. ok (s ++ t))
unfolding parse_tokens
parse_tokens-append [] ys = ground arith
parse_tokens-append (x ∷ xs) ys = ground (arith, parse_tokens-append xs ys)

-- A white space character separates a text into two that are parsed by themselves, whatever stands
-- on its two sides: the bytes of both are taken in order, and a bad token on either side is an error.
pub parse_at_space :
    (xs ys : List ℕ) (c : ℕ)
    → is_whitespace c ≡ true
    → parse (xs ++ (c ∷ ys)) ≡ join (parse xs) (parse ys)
unfolding parse
parse_at_space xs ys c h =
    rw (words-append is_whitespace xs ys c h, parse_tokens-append) (ground arith)

-- ===== src/Installer/Macho/Layout.antt =====
-- The bytes of a file that a patch has written, part by part.
use pulse_sdk.Prelude.{
  ℕ, ◌+◌, ◌≤◌, ◌≡◌, sym, ap, ◌∙◌, List, ◌++◌, length, take, drop, length-take, length-drop,
  drop-drop, take-append-drop, arith,
}
use pulse_sdk.Prelude.Buffer.{copy_at, u32_le_bytes, copy_at_skip, copy_at_here}
use pulse_sdk.Installer.Macho.{write_command}

-- The file behind a patch: only the two counters and the place of the new command are written.
abbrev pub patched_file : List ℕ → ℕ → ℕ → ℕ → List ℕ → List ℕ
patched_file buf base n size cmd =
    take (base + 16) buf
    ++ (u32_le_bytes (n + 1)
        ++ (u32_le_bytes (size + length cmd)
            ++ (take (8 + size) (drop (base + 24) buf)
                ++ (cmd ++ drop (base + 32 + size + length cmd) buf))))

part :
    (k at fin : ℕ) (buf : List ℕ)
    → at + k ≡ fin
    → drop at buf ≡ take k (drop at buf) ++ drop fin buf
part k at fin buf e =
    sym (take-append-drop k (drop at buf))
    ∙ ap (λ r. take k (drop at buf) ++ r) (drop-drop k at buf ∙ ap (λ f. drop f buf) e)

length-part : (k at : ℕ) (buf : List ℕ) → at + k ≤ length buf → length (take k (drop at buf)) ≡ k
length-part k at buf h = omega (arith, length-take k (drop at buf), length-drop at buf)

module _ (buf : List ℕ) (base size : ℕ) (cmd : List ℕ) where
  abbrev before : List ℕ
  before = take (base + 16) buf

  abbrev ncmds : List ℕ
  ncmds = take 4 (drop (base + 16) buf)

  abbrev sizes : List ℕ
  sizes = take 4 (drop (base + 20) buf)

  abbrev commands : List ℕ
  commands = take (8 + size) (drop (base + 24) buf)

  abbrev free : List ℕ
  free = take (length cmd) (drop (base + 32 + size) buf)

  abbrev behind : List ℕ
  behind = drop (base + 32 + size + length cmd) buf

  parts : buf ≡ before ++ (ncmds ++ (sizes ++ (commands ++ (free ++ behind))))
  parts =
      sym (take-append-drop (base + 16) buf)
      ∙ ap (λ r. before ++ r)
          (part 4 (base + 16) (base + 20) buf (omega arith)
            ∙ ap (λ r. ncmds ++ r)
                (part 4 (base + 20) (base + 24) buf (omega arith)
                  ∙ ap (λ r. sizes ++ r)
                      (part (8 + size) (base + 24) (base + 32 + size) buf (omega arith)
                        ∙ ap (λ r. commands ++ r)
                            (part (length cmd) (base + 32 + size) (base + 32 + size + length cmd)
                              buf (omega arith)))))

  module _ (inside : base + 32 + size + length cmd ≤ length buf) where
    length-before : length before ≡ base + 16
    length-before = omega (arith, length-take (base + 16) buf)

    copy_at_command :
        copy_at (base + 32 + size) cmd buf
        ≡ before ++ (ncmds ++ (sizes ++ (commands ++ (cmd ++ behind))))
    copy_at_command =
        ap (copy_at (base + 32 + size) cmd) parts
        ∙ (copy_at_skip before (16 + size) (base + 32 + size) cmd _ (omega (arith, length-before))
            ∙ ap (λ r. before ++ r)
                (copy_at_skip ncmds (12 + size) (16 + size) cmd _
                    (omega (arith, length-part 4 (base + 16) buf))
                  ∙ ap (λ r. ncmds ++ r)
                      (copy_at_skip sizes (8 + size) (12 + size) cmd _
                          (omega (arith, length-part 4 (base + 20) buf))
                        ∙ ap (λ r. sizes ++ r)
                            (copy_at_skip commands 0 (8 + size) cmd _
                                (omega (arith, length-part (8 + size) (base + 24) buf))
                              ∙ ap (λ r. commands ++ r)
                                  (copy_at_here cmd free behind
                                    (length-part (length cmd) (base + 32 + size) buf inside))))))

    copy_at_ncmds :
        (w : ℕ)
        → copy_at (base + 16) (u32_le_bytes w) (copy_at (base + 32 + size) cmd buf)
          ≡ before ++ (u32_le_bytes w ++ (sizes ++ (commands ++ (cmd ++ behind))))
    copy_at_ncmds w =
        ap (copy_at (base + 16) (u32_le_bytes w)) copy_at_command
        ∙ (copy_at_skip before 0 (base + 16) (u32_le_bytes w) _ (omega (arith, length-before))
            ∙ ap (λ r. before ++ r)
                (copy_at_here (u32_le_bytes w) ncmds _
                  (length-part 4 (base + 16) buf (omega arith))))

    pub write_command-eq-patched_file :
        (n : ℕ) → write_command buf base n size cmd ≡ patched_file buf base n size cmd
    unfolding write_command
    write_command-eq-patched_file n =
        let word = u32_le_bytes (size + length cmd) in
        ap (copy_at (base + 20) word) (copy_at_ncmds (n + 1))
        ∙ (copy_at_skip before 4 (base + 20) word _ (omega (arith, length-before))
            ∙ ap (λ r. before ++ r)
                (copy_at_skip (u32_le_bytes (n + 1)) 0 4 word _ (omega arith)
                  ∙ ap (λ r. u32_le_bytes (n + 1) ++ r)
                      (copy_at_here word sizes _ (length-part 4 (base + 20) buf (omega arith)))))

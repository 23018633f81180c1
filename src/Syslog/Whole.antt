-- ===== src/Syslog/Whole.antt =====
-- Lines that pass `lines_of` as they are.
use postfix_m365_relay.Base.{
  take-all, take, if◌then◌else◌, ◌≤◌, length, ◌∙◌, keep, ap, ◌&&◌, arith, not, ◌==◌, [], false,
  true, ◌++◌, Bool, all, ◌≡◌, ◌∷◌, List, refl,
}
use postfix_m365_relay.Syslog.Lines.{
  max_line, is_nothing, is_white, is_control, without_header, split_lines, rstrip, lines_of, Bytes,
  mask, printable_lines,
}
use postfix_m365_relay.Syslog.Clean.{is_printable, is_line}

-- The lines, each with its end.
abbrev pub text_of_lines : List Bytes → Bytes
text_of_lines [] = []
text_of_lines (line ∷ lines) = line ++ (10 ∷ text_of_lines lines)

abbrev pub ends_black : Bytes → Bool
ends_black [] = false
ends_black (b ∷ []) = not (is_white b)
ends_black (b ∷ c ∷ bytes) = ends_black (c ∷ bytes)

-- A line that needs no change: printable, not too long, and without white space at its end.
abbrev pub is_clean : Bytes → Bool
is_clean line = is_line line && ends_black line

keep-line :
    (line rest : Bytes)
    → all is_printable line ≡ true
    → keep (λ b. not (b == 13)) (line ++ (10 ∷ rest))
      ≡ line ++ (10 ∷ keep (λ b. not (b == 13)) rest)
keep-line [] rest h = refl
keep-line (b ∷ line) rest h = ground (arith, keep-line line rest)

keep-lines :
    (lines : List Bytes)
    → all is_clean lines ≡ true
    → keep (λ b. not (b == 13)) (text_of_lines lines) ≡ text_of_lines lines
keep-lines [] h = refl
keep-lines (line ∷ lines) h =
    let printable : all is_printable line ≡ true = ground arith in
    keep-line line (text_of_lines lines) printable
    ∙ ap (λ t. line ++ (10 ∷ t)) (keep-lines lines (ground arith))

split-line :
    (line rest : Bytes)
    → all is_printable line ≡ true
    → split_lines (line ++ (10 ∷ rest)) ≡ line ∷ split_lines rest
unfolding split_lines
split-line [] rest h = refl
split-line (b ∷ line) rest h =
    let newline : (b == 10) ≡ false = ground arith in
    let others : all is_printable line ≡ true = ground arith in
    rw (newline, split-line line rest others) refl

mask-printable : (line : Bytes) → all is_printable line ≡ true → mask line ≡ line
unfolding mask
mask-printable [] h = refl
mask-printable (b ∷ line) h =
    let plain : is_control b ≡ false = ground arith in
    let others : all is_printable line ≡ true = ground arith in
    rw (plain, mask-printable line others) refl

rstrip-black : (line : Bytes) → ends_black line ≡ true → rstrip line ≡ line
unfolding rstrip
rstrip-black [] h = absurd (cc h)
rstrip-black (b ∷ []) h = ground arith
rstrip-black (b ∷ c ∷ line) h = let ih = rstrip-black (c ∷ line) h in rw ih (ground arith)

one_line :
    (line : Bytes) (rest : List Bytes)
    → is_clean line ≡ true
    → printable_lines (line ∷ rest) ≡ line ∷ printable_lines rest
unfolding printable_lines
one_line line rest h =
    let printable : all is_printable line ≡ true = ground arith in
    let black : ends_black line ≡ true = ground arith in
    let some_text : is_nothing line ≡ false = ground arith in
    let short : length line ≤ max_line = ground arith in
    let text : rstrip (mask line) ≡ line =
      ap (λ t. rstrip t) (mask-printable line printable) ∙ rstrip-black line black in
    ap (λ t. if is_nothing t then printable_lines rest else take max_line t ∷ printable_lines rest)
      text
    ∙ (ap (λ b. if b then printable_lines rest else take max_line line ∷ printable_lines rest)
          some_text
        ∙ ap (λ t. t ∷ printable_lines rest) (take-all max_line line short))

printable_lines-clean :
    (lines : List Bytes)
    → all is_clean lines ≡ true
    → printable_lines (split_lines (text_of_lines lines)) ≡ lines
unfolding printable_lines split_lines rstrip mask
printable_lines-clean [] h = refl
printable_lines-clean (line ∷ lines) h =
    let here : is_clean line ≡ true = ground arith in
    let printable : all is_printable line ≡ true = ground arith in
    ap (λ t. printable_lines t) (split-line line (text_of_lines lines) printable)
    ∙ (one_line line (split_lines (text_of_lines lines)) here
        ∙ ap (λ t. line ∷ t) (printable_lines-clean lines (ground arith)))

-- A message whose lines are printable, have no white space at their ends and at most 2048 bytes is
-- logged line by line as it was sent, whatever its header is; only the header is lost.
pub lines_of-clean :
    (datagram : Bytes) (lines : List Bytes)
    → without_header datagram ≡ text_of_lines lines
    → all is_clean lines ≡ true
    → lines_of datagram ≡ lines
unfolding lines_of
lines_of-clean datagram lines message h =
    ap (λ t. printable_lines (split_lines (keep (λ b. not (b == 13)) t))) message
    ∙ (ap (λ t. printable_lines (split_lines t)) (keep-lines lines h)
        ∙ printable_lines-clean lines h)

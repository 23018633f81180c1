-- ===== src/Syslog/Clean.antt =====
-- The bytes in the lines of `lines_of`.
use postfix_m365_relay.Base.{
  all-take, length-take, length, if◌then◌else◌, arith, leb, ◌∷◌, ◌&&◌, take, ◌≡◌, not, ◌==◌, all,
  Bool, List, refl, ℕ, suc, [], true, false,
}
use postfix_m365_relay.Syslog.Lines.{
  max_line, prepend, is_control, is_nothing, printable_lines, mask, split_lines, lines_of, rstrip,
  Bytes,
}

-- Not the end of a line, and no control character: a tab, or printable.
abbrev pub is_printable : ℕ → Bool
is_printable b = not (is_control b) && not (b == 10)

abbrev pub is_line : Bytes → Bool
is_line line = not (is_nothing line) && leb (length line) max_line && all is_printable line

abbrev pub no_newline : Bytes → Bool
no_newline bytes = all (λ b. not (b == 10)) bytes

prepend-lines :
    (b : ℕ) (lines : List Bytes)
    → (b == 10) ≡ false
    → all no_newline lines ≡ true
    → all no_newline (prepend b lines) ≡ true
prepend-lines b [] h k = ground (arith, h)
prepend-lines b (line ∷ lines) h k = ground (arith, h, k)

split_lines-all : (bytes : Bytes) → all no_newline (split_lines bytes) ≡ true
unfolding split_lines
split_lines-all [] = refl
split_lines-all (b ∷ bytes) = by_end (b == 10) refl (split_lines-all bytes)
  where
    by_end :
        (e : Bool)
        → (b == 10) ≡ e
        → all no_newline (split_lines bytes) ≡ true
        → all no_newline (if e then [] ∷ split_lines bytes else prepend b (split_lines bytes))
          ≡ true
    by_end true h r = r
    by_end false h r = prepend-lines b (split_lines bytes) h r

mask-all : (bytes : Bytes) → no_newline bytes ≡ true → all is_printable (mask bytes) ≡ true
unfolding mask
mask-all [] h = refl
mask-all (b ∷ bytes) h = ground (arith, mask-all bytes)

rstrip-all :
    (bytes : Bytes) → all is_printable bytes ≡ true → all is_printable (rstrip bytes) ≡ true
unfolding rstrip
rstrip-all [] h = refl
rstrip-all (b ∷ bytes) h = ground (arith, rstrip-all bytes)

take_something :
    (n : ℕ) (bytes : Bytes) → is_nothing bytes ≡ false → is_nothing (take (suc n) bytes) ≡ false
take_something n [] h = h
take_something n (b ∷ bytes) h = refl

line_of :
    (text : Bytes)
    → is_nothing text ≡ false
    → all is_printable text ≡ true
    → is_line (take max_line text) ≡ true
line_of text h k =
    let short = length-take max_line text in
    let clean = all-take is_printable max_line text k in
    let filled = take_something 2047 text h in ground arith

printable_lines-all :
    (lines : List Bytes) → all no_newline lines ≡ true → all is_line (printable_lines lines) ≡ true
unfolding printable_lines
printable_lines-all [] h = refl
printable_lines-all (line ∷ lines) h =
    by_text (is_nothing (rstrip (mask line))) refl (printable_lines-all lines (ground (arith, h)))
  where
    by_text :
        (e : Bool)
        → is_nothing (rstrip (mask line)) ≡ e
        → all is_line (printable_lines lines) ≡ true
        → all is_line (
            if e
            then printable_lines lines
            else take max_line (rstrip (mask line)) ∷ printable_lines lines)
          ≡ true
    by_text true e r = r
    by_text false e r =
        let clean = rstrip-all (mask line) (mask-all line (ground (arith, h))) in
        let good = line_of (rstrip (mask line)) e clean in rw good r

-- Every line that any datagram gives is not empty, has at most 2048 bytes, and has neither the end of a
-- line nor a control character other than the tab in it.
pub lines_of-all : (datagram : Bytes) → all is_line (lines_of datagram) ≡ true
unfolding lines_of
lines_of-all datagram = printable_lines-all _ (split_lines-all _)

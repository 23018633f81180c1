-- ===== src/Syslog/Unforged.antt =====
-- Reading the log back: no datagram forges a line.
use postfix_m365_relay.Base.{
  sym, false, ◌==◌, suc, [], ◌∷◌, true, ◌+◌, ◌≡◌, List, refl, ℕ, ◌++◌, take, length, all, arith,
  ◌∙◌, ap,
}
use postfix_m365_relay.Syslog.Lines.{Bytes, lines_of, split_lines}
use postfix_m365_relay.Syslog.Clean.{no_newline, lines_of-all, is_line, is_printable}
use postfix_m365_relay.Syslog.Bridge.{log_line, write_lines, bridge, max_datagram}

-- All lines of the datagrams, in their order.
abbrev pub lines_of_all : List Bytes → List Bytes
lines_of_all [] = []
lines_of_all (datagram ∷ datagrams) =
    lines_of (take max_datagram datagram) ++ lines_of_all datagrams

split_at_end :
    (line rest : Bytes)
    → no_newline line ≡ true
    → split_lines (line ++ (10 ∷ rest)) ≡ line ∷ split_lines rest
unfolding split_lines
split_at_end [] rest h = refl
split_at_end (b ∷ line) rest h =
    let newline : (b == 10) ≡ false = ground arith in
    rw (newline, split_at_end line rest (ground arith)) refl

printable_newline : (line : Bytes) → all is_printable line ≡ true → no_newline line ≡ true
printable_newline [] h = refl
printable_newline (b ∷ line) h = ground (arith, printable_newline line)

line_newline : (line : Bytes) → is_line line ≡ true → no_newline line ≡ true
line_newline line h = printable_newline line (ground arith)

append_newline :
    (one two : Bytes)
    → no_newline one ≡ true
    → no_newline two ≡ true
    → no_newline (one ++ two) ≡ true
append_newline [] two h k = k
append_newline (b ∷ one) two h k = ground (arith, append_newline one two)

append_assoc : (one two three : List Bytes) → (one ++ two) ++ three ≡ one ++ (two ++ three)
append_assoc [] two three = refl
append_assoc (line ∷ one) two three = ap (λ t. line ∷ t) (append_assoc one two three)

text_assoc : (one two three : Bytes) → (one ++ two) ++ three ≡ one ++ (two ++ three)
text_assoc [] two three = refl
text_assoc (b ∷ one) two three = ap (λ t. b ∷ t) (text_assoc one two three)

module _ (host : Bytes) (clock : ℕ → Bytes) where
  -- Lines with their times and the host, the first of a number.
  abbrev pub numbered : ℕ → List Bytes → List Bytes
  numbered n [] = []
  numbered n (line ∷ lines) = log_line host clock n line ∷ numbered (suc n) lines

  numbered_append :
      (n : ℕ) (one two : List Bytes)
      → numbered n (one ++ two) ≡ numbered n one ++ numbered (n + length one) two
  numbered_append n [] two = ap (λ m. numbered m two) (omega arith)
  numbered_append n (line ∷ one) two =
      ap (λ t. log_line host clock n line ∷ t)
        (numbered_append (suc n) one two
          ∙ ap (λ m. numbered (suc n) one ++ numbered m two) (omega arith))

  module _ (host_lem : no_newline host ≡ true)
      (clock_lem : (n : ℕ) → no_newline (clock n) ≡ true) where
    log_line_newline :
        (n : ℕ) (line : Bytes)
        → no_newline line ≡ true
        → no_newline (log_line host clock n line) ≡ true
    log_line_newline n line h =
        append_newline (clock n) (32 ∷ (host ++ (32 ∷ line))) (clock_lem n)
          (append_newline host (32 ∷ line) host_lem h)

    split_lines-write_lines :
        (n : ℕ) (lines : List Bytes) (rest : Bytes)
        → all is_line lines ≡ true
        → split_lines (write_lines host clock n lines ++ rest)
          ≡ numbered n lines ++ split_lines rest
    unfolding write_lines
    split_lines-write_lines n [] rest h = refl
    split_lines-write_lines n (line ∷ lines) rest h =
        ap (λ t. split_lines t)
          (text_assoc (log_line host clock n line) (10 ∷ write_lines host clock (suc n) lines) rest)
        ∙ (split_at_end (log_line host clock n line) (write_lines host clock (suc n) lines ++ rest)
              (log_line_newline n line (line_newline line (ground arith)))
            ∙ ap (λ t. log_line host clock n line ∷ t)
                (split_lines-write_lines (suc n) lines rest (ground arith)))

    read_back :
        (n : ℕ) (datagrams : List Bytes)
        → split_lines (bridge host clock n datagrams)
          ≡ numbered n (lines_of_all datagrams) ++ ([] ∷ [])
    unfolding bridge split_lines
    read_back n [] = refl
    read_back n (datagram ∷ datagrams) =
        let lines = lines_of (take max_datagram datagram) in
        split_lines-write_lines n lines (bridge host clock (n + length lines) datagrams)
          (lines_of-all (take max_datagram datagram))
        ∙ (ap (λ t. numbered n lines ++ t) (read_back (n + length lines) datagrams)
            ∙ (sym (
                  append_assoc (numbered n lines)
                    (numbered (n + length lines) (lines_of_all datagrams)) ([] ∷ []))
                ∙ ap (λ t. t ++ ([] ∷ []))
                    (sym (numbered_append n lines (lines_of_all datagrams)))))

-- No datagram forges a line of the log: read back, what is written while any datagrams come is one line
-- for each of their lines, in order, each with its own time and the host in front. Neither the host nor
-- a time has the end of a line in it.
pub split_lines-bridge :
    (host : Bytes) (clock : ℕ → Bytes) (datagrams : List Bytes)
    → no_newline host ≡ true
    → ((n : ℕ) → no_newline (clock n) ≡ true)
    → split_lines (bridge host clock 0 datagrams)
      ≡ numbered host clock 0 (lines_of_all datagrams) ++ ([] ∷ [])
split_lines-bridge host clock datagrams h k = read_back host clock h k 0 datagrams

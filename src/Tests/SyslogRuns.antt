-- ===== src/Tests/SyslogRuns.antt =====
-- A datagram with a header, two lines and a bell, and the theorem on it.
use postfix_m365_relay.Base.{ℕ, List, ◌∷◌, ◌++◌, ◌≡◌, codes, all, refl, [], true}
use postfix_m365_relay.Syslog.Lines.{
  rstrip, mask, printable_lines, split_lines, without_header, lines_of, Bytes,
}
use postfix_m365_relay.Syslog.Clean.{lines_of-all, is_line}
use postfix_m365_relay.Syslog.Whole.{lines_of-clean, text_of_lines}
use postfix_m365_relay.Syslog.Bridge.{write_lines, bridge}
use postfix_m365_relay.Syslog.Unforged.{split_lines-bridge, lines_of_all, numbered}

abbrev datagram : Bytes
datagram = codes "<22>Jan  2 03:04:05 fail" ++ (7 ∷ 13 ∷ 10 ∷ codes " open ")

two_lines : lines_of datagram ≡ (codes "fail?" ∷ codes " open" ∷ [])
unfolding lines_of without_header split_lines printable_lines mask rstrip
two_lines = refl

lines_of-all_example : all is_line (lines_of datagram) ≡ true
lines_of-all_example = lines_of-all datagram

abbrev sent_lines : List Bytes
sent_lines = codes "postfix: ready" ∷ codes " 2 queues" ∷ []

header_off :
    without_header (codes "<22>Jan  2 03:04:05 " ++ text_of_lines sent_lines)
    ≡ text_of_lines sent_lines
unfolding without_header
header_off = refl

lines_of-clean_example :
    lines_of (codes "<22>Jan  2 03:04:05 " ++ text_of_lines sent_lines) ≡ sent_lines
lines_of-clean_example =
    lines_of-clean (codes "<22>Jan  2 03:04:05 " ++ text_of_lines sent_lines) sent_lines header_off
      refl

-- Each line is written at the same minute, and the second datagram tries to forge one.
abbrev noon : ℕ → Bytes
noon n = codes "12:00"

abbrev forging : List Bytes
forging =
    codes "<22>ready" ∷ (codes "<22>bad user" ++ (13 ∷ 12 ∷ codes "12:00 relay all well")) ∷ []

forging_run :
    bridge (codes "relay") noon 0 forging
    ≡ codes "12:00 relay ready\n12:00 relay bad user?12:00 relay all well\n"
unfolding bridge write_lines lines_of without_header split_lines printable_lines mask rstrip
forging_run = refl

split_lines-bridge_example :
    split_lines (bridge (codes "relay") noon 0 forging)
    ≡ numbered (codes "relay") noon 0 (lines_of_all forging) ++ ([] ∷ [])
split_lines-bridge_example = split_lines-bridge (codes "relay") noon forging refl (λ n. refl)

-- ===== src/Syslog/Bridge.antt =====
-- The loop of `main` of scripts/syslog-bridge.py: what it appends to the log.
use postfix_m365_relay.Base.{[], ◌+◌, suc, ◌∷◌, List, ℕ, ◌++◌, take, length}
use postfix_m365_relay.Syslog.Lines.{Bytes, lines_of}

-- MAX_DATAGRAM
abbrev pub max_datagram : ℕ
max_datagram = 8192

-- The name of the host, and the time at which the line of each number is written.
module _ (host : Bytes) (clock : ℕ → Bytes) where
  -- `stamp.encode() + b" " + host.encode() + b" " + line`
  abbrev pub log_line : ℕ → Bytes → Bytes
  log_line n line = clock n ++ (32 ∷ (host ++ (32 ∷ line)))

  -- The lines of a datagram, written one by one.
  unfoldable pub write_lines : ℕ → List Bytes → Bytes
  write_lines n [] = []
  write_lines n (line ∷ lines) = log_line n line ++ (10 ∷ write_lines (suc n) lines)

  -- What is appended while these datagrams come; of a longer one `recv` gives the beginning.
  unfoldable pub bridge : ℕ → List Bytes → Bytes
  bridge n [] = []
  bridge n (datagram ∷ datagrams) =
      let lines = lines_of (take max_datagram datagram) in
      write_lines n lines ++ bridge (n + length lines) datagrams

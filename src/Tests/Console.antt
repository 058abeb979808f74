-- ===== src/Tests/Console.antt =====
-- The management console on two reads of a line and on the line that sets a flag, and a serial line's listener.
use mr_iss.Host.Management.{
  codes, newline, scan, get_input, set_log, line_mask, process_line, c_string, skip_whitespace,
  find_whitespace,
}
use mr_iss.Host.Management.Lines.{reads, get_input-scan}
use mr_iss.Host.Management.Logging.{setlog, line_mask-setlog}
use mr_iss.Host.Serial.{Line, Polled, Read}
use mr_iss.Host.Serial.Laws.{Event, Notified, tcp, pty, run, run-Notified}
use mr_iss.Bits.Digits.{digit}
use mr_iss.Base.{ℕ, ◌≡◌, refl, List, [], ◌∷◌, ◌++◌, arith, true, false, none, some}

-- `STATS` in two reads, the second with the start of the next line.
abbrev two_reads : List (ℕ × List ℕ)
two_reads = (0x53, codes "TA") ∷ (0x54, codes "S" ++ (newline ∷ codes "CP")) ∷ []

get_input-scan_example : get_input [] (reads two_reads) ≡ (codes "STATS" ∷ [], codes "CP", true)
unfolding scan
get_input-scan_example =
    get_input-scan two_reads (omega arith, omega arith, (omega arith, omega arith, tt))

line_mask-setlog_example : digit (line_mask 0 (process_line (setlog 5 0x31))) 5 ≡ 1
line_mask-setlog_example =
    line_mask-setlog 5 0x31 0 5 (omega arith) (omega arith) (omega arith) (omega arith)

-- The console ignores case and the spaces between the words.
setlog_spaces :
    process_line (codes "setlog   log_flag_dbg  1") ≡ set_log (codes "log_flag_dbg") (codes "1")
unfolding process_line c_string skip_whitespace find_whitespace
setlog_spaces = refl

abbrev input : Polled
input = record { has_caller = false; accepted = none; is_dropped = false; has_input = true }

abbrev quiet_line : Line
quiet_line = record { fd = some 5; has_cb = false; report_rx = true }

-- Input before there is a callback, twice after, a read, and input again.
abbrev rounds : List Event
rounds =
    Event.polled input
    ∷ Event.registered true
    ∷ Event.polled input
    ∷ Event.polled input
    ∷ Event.reads (Read.again ∷ Read.byte 0x41 ∷ [])
    ∷ Event.polled input
    ∷ []

run-Notified_example :
    Notified tcp (run tcp rounds (quiet_line, 0)) × Notified pty (run pty rounds (quiet_line, 0))
run-Notified_example = run-Notified rounds quiet_line refl

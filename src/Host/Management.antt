-- ===== src/Host/Management.antt =====
-- The management console (management.cc): the lines of its socket, and its commands. What a read of the socket gives is the
-- environment's; the thread, the connections and the texts of the answers are not modelled.
pub mod Lines
pub mod Logging
use Prim.Native.Char.{code}
use Prim.Native.String.{String}
use mr_iss.Base.{
  ℕ, zero, suc, ◌+◌, ◌-◌, bit_and, bit_or, Bool, true, false, ◌&&◌, List, [], ◌∷◌, ◌++◌, ltb, leb,
  ◌==◌, if◌then◌else◌, truthy, length, clear32,
}

-- A string of bytes.
abbrev pub codes : String → List ℕ
codes String.[] = []
codes (String.◌∷◌ c s) = code c ∷ codes s

abbrev pub newline : ℕ
newline = 10

abbrev pub buf_sz : ℕ
buf_sz = 4096

-- The bytes up to the first NUL.
unfoldable pub c_string : List ℕ → List ℕ
c_string [] = []
c_string (c ∷ cs) = if c == 0 then [] else c ∷ c_string cs

-- The search of the buffer for newlines, with the line before the point: the lines that end, and what is left.
unfoldable pub scan : List ℕ → List ℕ → List (List ℕ) × List ℕ
scan line [] = ([], line)
scan line (c ∷ cs) =
    let rest = scan (if c == newline then [] else line ++ (c ∷ [])) cs in
    if c == newline then (line ∷ rest.0, rest.1) else rest

-- A result of `read`: a byte and those after it, nothing to read, or an error.
pub data Read : Type 0 where
  bytes : ℕ → List ℕ → Read
  nothing failed : Read

-- The lines that `process_line` is called with, the buffer, and whether the connection is kept.
abbrev pub Input : Type 0
Input = List (List ℕ) × List ℕ × Bool

-- What stays in the buffer: with `start_pt` after the last newline, `current_input_pos - 1` is compared to it.
pub shuffle : List ℕ → List ℕ → List ℕ
shuffle all rest =
    let start_pt = length all - length rest in if ltb start_pt (length all - 1) then rest else []

-- A read of the loop of `get_input`, over the buffer with the bytes.
pub take_bytes : List ℕ → List (List ℕ) × List ℕ
unfolding scan shuffle
take_bytes all = let r = scan [] all in (r.0, shuffle all r.1)

-- `get_input`, over the results that `read` gives; after the last one it is as if there were nothing to read.
pub get_input : List ℕ → List Read → Input
get_input buffer [] = ([], buffer, true)
get_input buffer (nothing ∷ rs) = ([], buffer, true)
get_input buffer (failed ∷ rs) =
    if ltb (length buffer) (buf_sz - 1) then ([], buffer, false) else ([], buffer, true)
get_input buffer (bytes c cs ∷ rs) =
    let r = take_bytes (buffer ++ (c ∷ cs)) in
    let more : Input = get_input r.1 rs in
    if ltb (length buffer) (buf_sz - 1) then (r.0 ++ more.0, more.1, more.2) else ([], buffer, true)

-- `strcasecmp` of the C library, of which the source uses whether it is 0.
abbrev pub lower : ℕ → ℕ
lower c = if leb 0x41 c && leb c 0x5a then c + 32 else c

abbrev pub same_ignoring_case : List ℕ → List ℕ → Bool
same_ignoring_case [] [] = true
same_ignoring_case [] (d ∷ ds) = false
same_ignoring_case (c ∷ cs) [] = false
same_ignoring_case (c ∷ cs) (d ∷ ds) = lower c == lower d && same_ignoring_case cs ds

abbrev take : ℕ → List ℕ → List ℕ
take zero xs = []
take (suc n) [] = []
take (suc n) (x ∷ xs) = x ∷ take n xs

-- `skip_whitespace`, and `find_whitespace` with the bytes that it passes.
unfoldable pub skip_whitespace : List ℕ → List ℕ
skip_whitespace [] = []
skip_whitespace (c ∷ cs) = if c == 0x20 then skip_whitespace cs else c ∷ cs

unfoldable pub find_whitespace : List ℕ → List ℕ × List ℕ
find_whitespace [] = ([], [])
find_whitespace (c ∷ cs) =
    let rest = find_whitespace cs in if c == 0x20 then ([], c ∷ cs) else (c ∷ rest.0, rest.1)

pub data Command : Type 0 where
  help stats reset_stats cpu_state get_log unknown : Command
  set_log : List ℕ → List ℕ → Command

-- The choice of `process_line`, for a line from its first byte to its NUL, which may stand before the newline.
unfoldable pub process_line : List ℕ → Command
unfolding c_string skip_whitespace find_whitespace
process_line text =
    let line = c_string text in
    if same_ignoring_case line (codes "help")
    then help
    else if same_ignoring_case line (codes "STATS")
    then stats
    else if same_ignoring_case line (codes "RESET-STATS")
    then reset_stats
    else if same_ignoring_case (take 3 line) (codes "CPU")
    then cpu_state
    else if same_ignoring_case line (codes "GETLOG")
    then get_log
    else if same_ignoring_case (take 6 line) (codes "SETLOG")
    then (let flag = find_whitespace (skip_whitespace (find_whitespace line).1) in
        set_log flag.0 (skip_whitespace flag.1))
    else unknown

-- `TEST_FLAG`, in the order of `log_set`.
abbrev flags : List (List ℕ × ℕ)
flags =
    (codes "LOG_FLAG_DBG", 1)
    ∷ (codes "LOG_FLAG_DISASS", 2)
    ∷ (codes "LOG_FLAG_STRACE", 4)
    ∷ (codes "LOG_FLAG_IO_TRACE", 8)
    ∷ (codes "LOG_FLAG_BRANCH_TRACE", 16)
    ∷ (codes "LOG_FLAG_MMU_TRACE", 32)
    ∷ (codes "LOG_FLAG_EXC_TRACE", 64)
    ∷ []

abbrev is_one : List ℕ → Bool
is_one [] = false
is_one (c ∷ cs) = c == 0x31

abbrev test_flags : List (List ℕ × ℕ) → ℕ → List ℕ → List ℕ → ℕ
test_flags [] mask flag val = mask
test_flags ((name, x) ∷ rest) mask flag val =
    if same_ignoring_case flag name
    then if is_one val then bit_or mask x else clear32 mask x
    else test_flags rest mask flag val

-- `log_set`, on `log_enables_mask`.
pub log_set : ℕ → List ℕ → List ℕ → ℕ
log_set mask flag val = test_flags flags mask flag val

-- What `log_send` shows: a truth for each flag, from the first.
pub log_send : ℕ → List Bool
log_send mask =
    truthy (bit_and mask 1)
    ∷ truthy (bit_and mask 2)
    ∷ truthy (bit_and mask 4)
    ∷ truthy (bit_and mask 8)
    ∷ truthy (bit_and mask 16)
    ∷ truthy (bit_and mask 32)
    ∷ truthy (bit_and mask 64)
    ∷ []

-- What a line does to the mask.
pub line_mask : ℕ → Command → ℕ
unfolding log_set
line_mask mask (set_log flag val) = log_set mask flag val
line_mask mask c = mask

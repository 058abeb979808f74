-- ===== src/Host/Management/Lines.antt =====
-- The lines that the console is given (`get_input` of management.cc) against the lines of the stream.
use mathlib.Core.List.{append_assoc, append-nil}
use mr_iss.Jit.Emit.Code.{length-append}
use mr_iss.Host.Management.{newline, buf_sz, scan, Read, bytes, shuffle, take_bytes, get_input}
use mr_iss.Base.{
  ℕ, ◌+◌, ◌-◌, ◌≤◌, ◌<◌, ◌≡◌, refl, sym, ap, ◌∙◌, ◌≢◌, inl, inr, true, false, List, [], ◌∷◌, ◌++◌,
  arith, ◌==◌, ltb_of_lt, Bool-cases, length,
}

-- The search goes on after a first part as from its rest.
scan-append :
    (line xs ys : List ℕ)
    → let r = scan line xs in let s = scan r.1 ys in scan line (xs ++ ys) ≡ (r.0 ++ s.0, s.1)
unfolding scan
scan-append line [] ys = refl
scan-append line (c ∷ cs) ys = elim (Bool-cases (c == newline)) [
  | inl e ↦ rw (e, scan-append [] cs ys) refl
  | inr e ↦ rw (e, scan-append (line ++ (c ∷ [])) cs ys) refl
]

-- A line that is not ended has no newline: the search of it finds nothing.
abbrev IsOpen : List ℕ → Type 0
IsOpen line = (before : List ℕ) → scan before line ≡ ([], before ++ line)

IsOpen-snoc :
    (line : List ℕ) (c : ℕ) → (c == newline) ≡ false → IsOpen line → IsOpen (line ++ (c ∷ []))
unfolding scan
IsOpen-snoc line c e h before =
    scan-append before line (c ∷ [])
    ∙ rw (h before, e) (ap (λ (x : List ℕ). ([], x)) (append_assoc before line (c ∷ [])))

IsOpen-nil : IsOpen []
unfolding scan
IsOpen-nil before = ap (λ (x : List ℕ). ([], x)) (sym (append-nil before))

scan-IsOpen : (line xs : List ℕ) → IsOpen line → IsOpen (scan line xs).1
unfolding scan
scan-IsOpen line [] h = h
scan-IsOpen line (c ∷ cs) h = elim (Bool-cases (c == newline)) [
  | inl e ↦ rw e (scan-IsOpen [] cs IsOpen-nil)
  | inr e ↦ rw e (scan-IsOpen (line ++ (c ∷ [])) cs (IsOpen-snoc line c e h))
]

length-scan : (line xs : List ℕ) → length (scan line xs).1 ≤ length line + length xs
unfolding scan
length-scan line [] = omega arith
length-scan line (c ∷ cs) = elim (Bool-cases (c == newline)) [
  | inl e ↦ rw e (omega (arith, length-scan [] cs))
  | inr e ↦ rw e (omega (arith, length-scan (line ++ (c ∷ [])) cs, length-append line (c ∷ [])))
]

-- All but a single byte is kept for the next read.
shuffle_kept :
    (all rest : List ℕ) → length rest ≤ length all → length rest ≢ 1 → shuffle all rest ≡ rest
unfolding shuffle
shuffle_kept all [] h k = ground arith
shuffle_kept all (x ∷ []) h k = absurd (k refl)
shuffle_kept all (x ∷ y ∷ rest) h k = ground arith

-- Reads with at least a byte each, and their stream.
abbrev pub reads : List (ℕ × List ℕ) → List Read
reads [] = []
reads ((c, cs) ∷ rest) = bytes c cs ∷ reads rest

abbrev pub stream : List (ℕ × List ℕ) → List ℕ
stream [] = []
stream ((c, cs) ∷ rest) = (c ∷ cs) ++ stream rest

-- Each read finds room in the buffer, and does not leave a single byte after the last newline.
abbrev pub Fits : List ℕ → List (ℕ × List ℕ) → Type 0
Fits buffer [] = Unit
Fits buffer ((c, cs) ∷ rest) =
    (length buffer < buf_sz - 1)
    × (length (scan buffer (c ∷ cs)).1 ≢ 1)
    × Fits (scan buffer (c ∷ cs)).1 rest

take_bytes-scan :
    (buffer cs : List ℕ)
    → IsOpen buffer
    → length (scan buffer cs).1 ≢ 1
    → take_bytes (buffer ++ cs) ≡ scan buffer cs
unfolding take_bytes
take_bytes-scan buffer cs h k =
    let all : List ℕ = buffer ++ cs in
    let same : scan [] all ≡ scan buffer cs = scan-append [] buffer cs ∙ rw (h []) refl in
    rw same (
      ap (λ (x : List ℕ). ((scan buffer cs).0, x))
        (shuffle_kept all (scan buffer cs).1
          (omega (arith, length-scan buffer cs, length-append buffer cs)) k))

get_input-scan_from :
    (buffer : List ℕ) (chunks : List (ℕ × List ℕ))
    → IsOpen buffer
    → Fits buffer chunks
    → let r = scan buffer (stream chunks) in get_input buffer (reads chunks) ≡ (r.0, r.1, true)
unfolding get_input
get_input-scan_from buffer [] h k = unfold scan in refl
get_input-scan_from buffer ((c, cs) ∷ rest) h (room, left, k) =
    let r = scan buffer (c ∷ cs) in
    rw
      (
        ltb_of_lt (length buffer) (buf_sz - 1) room,
        take_bytes-scan buffer (c ∷ cs) h left,
        get_input-scan_from r.1 rest (scan-IsOpen buffer (c ∷ cs) h) k,
        scan-append buffer (c ∷ cs) (stream rest),
      )
      refl

-- Over reads that each find room in the buffer and do not leave a single byte after the last newline, the console is given
-- the lines of the whole stream, however it is divided, and the buffer holds the line that is not yet ended.
pub get_input-scan :
    (chunks : List (ℕ × List ℕ))
    → Fits [] chunks
    → let r = scan [] (stream chunks) in get_input [] (reads chunks) ≡ (r.0, r.1, true)
get_input-scan chunks h = get_input-scan_from [] chunks IsOpen-nil h

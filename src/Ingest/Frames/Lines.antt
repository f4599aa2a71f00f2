-- ===== src/Ingest/Frames/Lines.antt =====
-- `readBoundedFrame` of internal/ingest/syslog.go against a reading of the whole line at once: the
-- size of the buffer does not show.
use worm.Base.{
  ℕ, zero, suc, ◌+◌, ◌≤◌, ◌<◌, ◌≡◌, refl, sym, ◌∙◌, ap, Bool, true, false, [], ◌∷◌, ◌++◌, Option,
  some, Bytes, ◌==◌, ltb, length, if◌then◌else◌, length-append, append_assoc, Bool-cases, ltb→lt,
  inl, inr, arith,
}
use worm.Ingest.Frames.{
  Slice, delimited, buffer_full, stream_ended, after_byte, read_slice, Frame, frame, too_large,
  add_part, read_parts, buffer_size, read_bounded_frame,
}

-- A line with its delimiter, whether the stream ends before one comes, and what is behind it.
pub record Line : Type 0 where
  pub text : Bytes
  pub ended : Bool
  pub rest : Bytes

abbrev pub before_line : Bytes → Line → Line
before_line s l = record { text = s ++ l.text; ended = l.ended; rest = l.rest }

unfoldable pub line_of : ℕ → Bytes → Line
line_of delimiter [] = record { text = []; ended = true; rest = [] }
line_of delimiter (c ∷ s) = elim (c == delimiter) [
  | true ↦ record { text = c ∷ []; ended = false; rest = s }
  | false ↦ before_line (c ∷ []) (line_of delimiter s)
]

pub line_of-at :
    (c delimiter : ℕ) (s : Bytes)
    → (c == delimiter) ≡ true
    → line_of delimiter (c ∷ s) ≡ record { text = c ∷ []; ended = false; rest = s }
unfolding line_of
line_of-at c delimiter s e = rw (line_of, e) refl

pub line_of-past :
    (c delimiter : ℕ) (s : Bytes)
    → (c == delimiter) ≡ false
    → line_of delimiter (c ∷ s) ≡ before_line (c ∷ []) (line_of delimiter s)
unfolding line_of
line_of-past c delimiter s e = rw (line_of, e) refl

-- A line is a frame where it has at most so many bytes.
abbrev pub within : ℕ → Line → Frame
within max l = if ltb max (length l.text) then too_large else frame l.text l.ended l.rest

-- What a slice of a stream says of its first line.
abbrev pub IsSliceOf : ℕ → ℕ → Bytes → Slice → Type 0
IsSliceOf buffer delimiter s (delimited part rest) =
    line_of delimiter s ≡ record { text = part; ended = false; rest = rest }
IsSliceOf buffer delimiter s (buffer_full part rest) =
    (line_of delimiter s ≡ before_line part (line_of delimiter rest))
    × (length part ≡ buffer)
    × (length part + length rest ≡ length s)
IsSliceOf buffer delimiter s (stream_ended part) =
    line_of delimiter s ≡ record { text = part; ended = true; rest = [] }

after_byte-IsSliceOf :
    (buffer delimiter c : ℕ) (s : Bytes) (x : Slice)
    → (c == delimiter) ≡ false
    → IsSliceOf buffer delimiter s x
    → IsSliceOf (suc buffer) delimiter (c ∷ s) (after_byte c x)
unfolding line_of
after_byte-IsSliceOf buffer delimiter c s (delimited part rest) e h =
    line_of-past c delimiter s e ∙ ap (before_line (c ∷ [])) h
after_byte-IsSliceOf buffer delimiter c s (buffer_full part rest) e h = (
  line_of-past c delimiter s e ∙ ap (before_line (c ∷ [])) h.0,
  omega (arith, h.1),
  omega (arith, h.2),
)
after_byte-IsSliceOf buffer delimiter c s (stream_ended part) e h =
    line_of-past c delimiter s e ∙ ap (before_line (c ∷ [])) h

pub read_slice-IsSliceOf :
    (buffer delimiter : ℕ) (s : Bytes)
    → IsSliceOf buffer delimiter s (read_slice buffer delimiter s)
unfolding line_of read_slice
read_slice-IsSliceOf zero delimiter s = (refl, refl, omega arith)
read_slice-IsSliceOf (suc n) delimiter [] = refl
read_slice-IsSliceOf (suc n) delimiter (c ∷ s) = elim (Bool-cases (c == delimiter)) [
  | inl e ↦ rw (IsSliceOf, read_slice, e) (line_of-at c delimiter s e)
  | inr e ↦
      rw (IsSliceOf, read_slice, e)
        (after_byte-IsSliceOf n delimiter c s _ e (read_slice-IsSliceOf n delimiter s))
]

before_line_append :
    (s t : Bytes) (l : Line) → before_line (s ++ t) l ≡ before_line s (before_line t l)
before_line_append s t l = rw append_assoc refl

within_large : (max : ℕ) (l : Line) → max < length l.text → within max l ≡ too_large
within_large max l h = ground arith

add_part-within :
    (next : Bytes → Bytes → Option Frame) (buffer delimiter max : ℕ) (so_far s : Bytes) (x : Slice)
    → ((so_far' rest : Bytes)
        → length rest + buffer ≡ length s
        → next so_far' rest ≡ some (within max (before_line so_far' (line_of delimiter rest))))
    → IsSliceOf buffer delimiter s x
    → add_part next max so_far x ≡ some (within max (before_line so_far (line_of delimiter s)))
add_part-within next buffer delimiter max so_far s (delimited part rest) goes_on h =
    rw (h, length-append) (ground arith)
add_part-within next buffer delimiter max so_far s (buffer_full part rest) goes_on h =
    elim (Bool-cases (ltb max (length so_far + length part))) [
      | inl e ↦
          rw (add_part, h.0, e)
            (ap some (
              sym (
                within_large max _ (
                  omega (
                    arith,
                    ltb→lt max (length so_far + length part) e,
                    length-append so_far (part ++ (line_of delimiter rest).text),
                    length-append part (line_of delimiter rest).text,
                  )))))
      | inr e ↦
          rw (add_part, h.0, e)
            (goes_on (so_far ++ part) rest (omega (arith, h.1, h.2))
              ∙ ap (λ l. some (within max l))
                  (before_line_append so_far part (line_of delimiter rest)))
    ]
add_part-within next buffer delimiter max so_far s (stream_ended part) goes_on h =
    rw (h, length-append) (ground arith)

-- Reading in parts, and checking the limit at each, gives what reading the whole line and checking
-- it once would, for a buffer of any size that is not 0: with fuel for more parts than there are
-- bytes the loop ends, with an error where the line has more bytes than the limit and with the line
-- where it has not.
pub read_parts-line :
    (n buffer delimiter max : ℕ) (so_far s : Bytes)
    → 0 < buffer
    → length s < n
    → read_parts n buffer delimiter max so_far s
      ≡ some (within max (before_line so_far (line_of delimiter s)))
unfolding read_parts
read_parts-line zero buffer delimiter max so_far s room fuel = absurd (omega (arith, fuel))
read_parts-line (suc n) buffer delimiter max so_far s room fuel =
    add_part-within (read_parts n buffer delimiter max) buffer delimiter max so_far s
      (read_slice buffer delimiter s)
      (λ so_far' rest h.
        read_parts-line n buffer delimiter max so_far' rest room (omega (arith, h, room, fuel)))
      (read_slice-IsSliceOf buffer delimiter s)

pub read_bounded_frame-line :
    (delimiter max : ℕ) (s : Bytes)
    → read_bounded_frame delimiter max s ≡ some (within max (line_of delimiter s))
unfolding read_bounded_frame
read_bounded_frame-line delimiter max s =
    read_parts-line (suc (length s)) buffer_size delimiter max [] s (omega arith) (omega arith)

-- A line and what is behind it are the stream, and only the end of the stream leaves it empty.
pub line_of-length :
    (delimiter : ℕ) (s : Bytes)
    → length (line_of delimiter s).text + length (line_of delimiter s).rest ≡ length s
unfolding line_of
line_of-length delimiter [] = omega arith
line_of-length delimiter (c ∷ s) = ground (arith, line_of-length delimiter s)

pub line_of-nonempty : (delimiter c : ℕ) (s : Bytes) → 1 ≤ length (line_of delimiter (c ∷ s)).text
unfolding line_of
line_of-nonempty delimiter c s = ground arith

-- No byte of the text is the delimiter.
abbrev pub Without : ℕ → Bytes → Type 0
Without delimiter [] = Unit
Without delimiter (c ∷ s) = ((c == delimiter) ≡ false) × Without delimiter s

pub line_of-append :
    (delimiter : ℕ) (s rest : Bytes)
    → Without delimiter s
    → line_of delimiter (s ++ (delimiter ∷ rest))
      ≡ record { text = s ++ (delimiter ∷ []); ended = false; rest = rest }
line_of-append delimiter [] rest h = line_of-at delimiter delimiter rest (ground arith)
line_of-append delimiter (c ∷ s) rest h =
    line_of-past c delimiter (s ++ (delimiter ∷ rest)) h.0
    ∙ ap (before_line (c ∷ [])) (line_of-append delimiter s rest h.1)

pub within_small :
    (max : ℕ) (l : Line) → length l.text ≤ max → within max l ≡ frame l.text l.ended l.rest
within_small max l h = ground arith

pub line_of-whole :
    (delimiter : ℕ) (s : Bytes) → (line_of delimiter s).text ++ (line_of delimiter s).rest ≡ s
unfolding line_of
line_of-whole delimiter [] = refl
line_of-whole delimiter (c ∷ s) = elim (Bool-cases (c == delimiter)) [
  | inl e ↦ rw (line_of, e) refl
  | inr e ↦ rw (line_of, e) (ap (λ x. c ∷ x) (line_of-whole delimiter s))
]

pub line_of_delimited :
    (delimiter : ℕ) (s : Bytes)
    → (line_of delimiter s).ended ≡ false
    → 1 ≤ length (line_of delimiter s).text
unfolding line_of
line_of_delimited delimiter [] h = cc
line_of_delimited delimiter (c ∷ s) h = line_of-nonempty delimiter c s

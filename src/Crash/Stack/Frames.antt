-- ===== src/Crash/Stack/Frames.antt =====
-- src/crashhandler_unix.cpp: how a line of a backtrace is cut into its parts.
use myg3log.Base.{
  ℕ, suc, ◌+◌, ◌-◌, ◌≡◌, refl, sym, ◌∙◌, ap, arith, true, [], ◌∷◌, ◌++◌, some, if◌then◌else◌, ◌==◌,
  ltb, length, drop, length-append, append_assoc, All-append, All-map, take-append_length,
  drop-append,
}
use myg3log.Base.Text.{Text, Lacks}
use myg3log.Crash.Stack.{Marks, no_marks, find_marks, Frame, slice, cut_frame, parse_frame}

-- What a byte other than `)` does to the marks, and what a text of such bytes does.
abbrev step : ℕ → ℕ → Marks → Marks
step p c m =
    if c == b'('
    then record m { mangled_name = some p }
    else if c == b'+'
    then record m { offset_begin = some p }
    else m

abbrev scan : ℕ → Text → Marks → Marks
scan p [] m = m
scan p (c ∷ s) m = scan (p + 1) s (step p c m)

abbrev pub closing : Text
closing = b')' ∷ []

find_marks-scan :
    (p : ℕ) (s t : Text) (m : Marks)
    → Lacks closing s
    → find_marks p (s ++ t) m ≡ find_marks (p + length s) t (scan p s m)
unfolding find_marks
find_marks-scan p [] t m h = let e : p + 0 ≡ p = omega arith in rw e
find_marks-scan p (c ∷ s) t m (n, h) =
    let e : p + suc (length s) ≡ p + 1 + length s = omega arith in
    rw e (ground (arith, n, find_marks-scan (p + 1) s t (step p c m) h))

scan-name :
    (p : ℕ) (s : Text) (m : Marks)
    → Lacks (b'(' ∷ []) s
    → (scan p s m).mangled_name ≡ m.mangled_name
scan-name p [] m h = refl
scan-name p (c ∷ s) m (n, h) = scan-name (p + 1) s (step p c m) h ∙ ground (arith, n)

scan-begin :
    (p : ℕ) (s : Text) (m : Marks)
    → Lacks (b'+' ∷ []) s
    → (scan p s m).offset_begin ≡ m.offset_begin
scan-begin p [] m h = refl
scan-begin p (c ∷ s) m (n, h) = scan-begin (p + 1) s (step p c m) h ∙ ground (arith, n)

scan-append :
    (p : ℕ) (s t : Text) (m : Marks) → scan p (s ++ t) m ≡ scan (p + length s) t (scan p s m)
scan-append p [] t m = let e : p + 0 ≡ p = omega arith in rw e
scan-append p (c ∷ s) t m =
    let e : p + suc (length s) ≡ p + 1 + length s = omega arith in
    rw e (scan-append (p + 1) s t (step p c m))

-- A line with a name, a symbol in brackets and an offset, as `backtrace_symbols` writes it.
abbrev pub line_of : (name symbol offset rest : Text) → Text
line_of name symbol offset rest = name ++ b'(' ∷ (symbol ++ b'+' ∷ (offset ++ b')' ∷ rest))

module _ (name symbol offset rest : Text) (no_closing : Lacks closing name)
    (no_bracket : Lacks (b'(' ∷ b')' ∷ []) symbol)
    (no_mark : Lacks (b'(' ∷ b'+' ∷ b')' ∷ []) offset) where
  abbrev marked : Text
  marked = name ++ b'(' ∷ (symbol ++ b'+' ∷ offset)

  -- The line up to the first `)`.
  line-marked : line_of name symbol offset rest ≡ marked ++ b')' ∷ rest
  line-marked =
      ap (λ t. name ++ b'(' ∷ t) (sym (append_assoc symbol (b'+' ∷ offset) (b')' ∷ rest)))
      ∙ sym (append_assoc name (b'(' ∷ (symbol ++ b'+' ∷ offset)) (b')' ∷ rest))

  marked-Lacks : Lacks closing marked
  marked-Lacks = All-append _ name _ no_closing (
    refl,
    All-append _ symbol _ (All-map (λ c e. ground (arith, e)) symbol no_bracket)
        (refl, All-map (λ c e. ground (arith, e)) offset no_mark),
  )

  abbrev opened : Marks
  opened = record (scan 0 name no_marks) { mangled_name = some (length name) }

  abbrev begun : Marks
  begun = record (scan (length name + 1) symbol opened) {
    offset_begin = some (length name + 1 + length symbol);
  }

  scan-marked : scan 0 marked no_marks ≡ scan (length name + 1 + length symbol + 1) offset begun
  scan-marked =
      let e : 0 + length name ≡ length name = omega arith in
      rw (
        scan-append 0 name (b'(' ∷ (symbol ++ b'+' ∷ offset)) no_marks,
        e,
        scan-append (length name + 1) symbol (b'+' ∷ offset) opened,
      )

  found :
      let m = find_marks 0 (line_of name symbol offset rest) no_marks in
      (m.mangled_name ≡ some (length name))
      × (m.offset_begin ≡ some (length name + 1 + length symbol))
      × (m.offset_end ≡ some (length marked))
  unfolding find_marks
  found =
      let e : 0 + length marked ≡ length marked = omega arith in
      let at =
        scan-name (length name + 1) symbol opened
          (All-map (λ c e. ground (arith, e)) symbol no_bracket) in
      let at' =
        scan-name (length name + 1 + length symbol + 1) offset begun
          (All-map (λ c e. ground (arith, e)) offset no_mark) in
      let from =
        scan-begin (length name + 1 + length symbol + 1) offset begun
          (All-map (λ c e. ground (arith, e)) offset no_mark) in
      rw (line-marked, find_marks-scan 0 marked (b')' ∷ rest) no_marks marked-Lacks, scan-marked, e)
        (at' ∙ at, from, refl)

  length-marked : length marked ≡ length name + 1 + length symbol + 1 + length offset
  length-marked = omega (
    arith,
    length-append name (b'(' ∷ (symbol ++ b'+' ∷ offset)),
    length-append symbol (b'+' ∷ offset),
  )

  behind_name :
      drop (length name + 1) (line_of name symbol offset rest)
      ≡ symbol ++ b'+' ∷ (offset ++ b')' ∷ rest)
  behind_name = drop-append name (b'(' ∷ (symbol ++ b'+' ∷ (offset ++ b')' ∷ rest))) 1

  behind_symbol :
      drop (length name + 1 + length symbol + 1) (line_of name symbol offset rest)
      ≡ offset ++ b')' ∷ rest
  behind_symbol =
      let e : length name + 1 + length symbol + 1 ≡ length name + suc (length symbol + 1) =
        omega arith in
      rw
        (
          e,
          drop-append name (b'(' ∷ (symbol ++ b'+' ∷ (offset ++ b')' ∷ rest)))
              (suc (length symbol + 1)),
        )
        (drop-append symbol (b'+' ∷ (offset ++ b')' ∷ rest)) 1)

  behind_offset : drop (length marked + 1) (line_of name symbol offset rest) ≡ rest
  behind_offset = rw line-marked (drop-append marked (b')' ∷ rest) 1)

  abbrev pub frame : Frame
  frame = record { object = name; symbol = symbol; offset = offset; rest = rest }

  -- A line `name(symbol+offset)rest`, with no `)` in the name, no bracket in the symbol and no
  -- bracket or plus in the offset, is cut into these four parts.
  pub parse_frame_lem : parse_frame (line_of name symbol offset rest) ≡ some frame
  unfolding parse_frame cut_frame slice
  parse_frame_lem =
      let n = length name in
      let b = length name + 1 + length symbol in
      let less : ltb n b ≡ true = ground arith in
      let width : b - (n + 1) ≡ length symbol = omega arith in
      let width' : length marked - (b + 1) ≡ length offset = omega (arith, length-marked) in
      let (at, from, to) = found in
      rw (
        at,
        from,
        to,
        less,
        take-append_length name (b'(' ∷ (symbol ++ b'+' ∷ (offset ++ b')' ∷ rest))),
        behind_name,
        behind_symbol,
        behind_offset,
        width,
        width',
        take-append_length symbol (b'+' ∷ (offset ++ b')' ∷ rest)),
        take-append_length offset (b')' ∷ rest),
      )

-- ===== src/Crash/Stack.antt =====
-- src/crashhandler_unix.cpp: `stackdump`, over the lines that `backtrace_symbols` gives.
pub mod Frames
pub mod Tests
use myg3log.Base.{
  ℕ, ◌+◌, ◌-◌, List, [], ◌∷◌, ◌++◌, Option, none, some, if◌then◌else◌, ◌==◌, ltb, length, take,
  drop,
}
use myg3log.Base.Text.{Text, codes}
use myg3log.Base.Decimal.{decimal}

-- The three pointers into a line, as positions; `none` is the null pointer.
pub record Marks : Type 0 where
  pub mangled_name : Option ℕ
  pub offset_begin : Option ℕ
  pub offset_end : Option ℕ

abbrev pub no_marks : Marks
no_marks = record { mangled_name = none; offset_begin = none; offset_end = none }

-- The loop that looks for `(`, `+` and `)`, at the position `p`.
unfoldable pub find_marks : ℕ → Text → Marks → Marks
find_marks p [] marks = marks
find_marks p (c ∷ s) marks =
    let next = find_marks (p + 1) s (
      if c == b'('
      then record marks { mangled_name = some p }
      else if c == b'+'
      then record marks { offset_begin = some p }
      else marks) in
    if c == b')' then record marks { offset_end = some p } else next

-- The texts that the zeroes written over the three marks leave: the object, the mangled name, the
-- offset, and what stands behind it.
pub record Frame : Type 0 where
  pub object : Text
  pub symbol : Text
  pub offset : Text
  pub rest : Text

slice : ℕ → ℕ → Text → Text
slice from to s = take (to - from) (drop from s)

cut_frame : Text → Option ℕ → Option ℕ → Option ℕ → Option Frame
unfolding slice
cut_frame line (some name) (some begin) (some end) =
    if ltb name begin
    then some (record {
      object = take name line;
      symbol = slice (name + 1) begin line;
      offset = slice (begin + 1) end line;
      rest = drop (end + 1) line;
    })
    else none
cut_frame line name begin end = none

-- The parts of a line, if it could be processed.
unfoldable pub parse_frame : Text → Option Frame
unfolding find_marks cut_frame
parse_frame line =
    let marks = find_marks 0 line no_marks in
    cut_frame line marks.mangled_name marks.offset_begin marks.offset_end

-- One line of the dump; `demangle` is `abi::__cxa_demangle`, `none` where its status is not 0.
unfoldable pub dump_line : (Text → Option Text) → ℕ → Text → Text
unfolding parse_frame
dump_line demangle idx line = elim (parse_frame line) [
  | none ↦ codes "\tstack dump [" ++ decimal idx ++ codes "]  " ++ line ++ codes "\n"
  | some f ↦ elim (demangle f.symbol) [
    | some real_name ↦
        codes "\n\tstack dump ["
        ++ decimal idx
        ++ codes "]  "
        ++ f.object
        ++ codes " : "
        ++ real_name
        ++ codes "+"
        ++ f.offset
        ++ f.rest
        ++ codes "\n"
    | none ↦
        codes "\tstack dump ["
        ++ decimal idx
        ++ codes "]  "
        ++ f.object
        ++ f.symbol
        ++ codes "+"
        ++ f.offset
        ++ f.rest
        ++ codes "\n"
  ]
]

dump_lines : (Text → Option Text) → ℕ → List Text → Text
unfolding dump_line
dump_lines demangle idx [] = []
dump_lines demangle idx (line ∷ lines) =
    dump_line demangle idx line ++ dump_lines demangle (idx + 1) lines

-- The loop from the second frame on; the first one is the dump itself.
dump_frames : (Text → Option Text) → List Text → Text
unfolding dump_lines
dump_frames demangle [] = []
dump_frames demangle (here ∷ callers) = dump_lines demangle 1 callers

-- `stackdump(rawdump)`, `none` for the null pointer, with the at most 50 lines of the backtrace,
-- none if there are no symbols.
unfoldable pub stackdump : (Text → Option Text) → List Text → Option Text → Text
unfolding dump_frames
stackdump demangle messages none = dump_frames demangle messages
stackdump demangle messages (some rawdump) =
    if length rawdump == 0 then dump_frames demangle messages else rawdump

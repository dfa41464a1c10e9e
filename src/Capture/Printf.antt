-- ===== src/Capture/Printf.antt =====
-- src/logcapture.cpp: what `capturef` writes, by the length of the text.
use myg3log.Base.{
  ℕ, ◌-◌, ◌≡◌, refl, arith, false, [], ◌∷◌, ◌++◌, some, if◌then◌else◌, ◌==◌, ltb, length, take,
  zero, suc, All, take_all, Bool-cases, ltb→lt, inl, inr,
}
use myg3log.Base.Text.{Text, codes, c_str}
use myg3log.Capture.{LogCapture, write, capturef, vsnprintf}

-- A text without a NUL.
abbrev pub HasNoNul : Text → Type 0
HasNoNul = All (λ c. (c == 0) ≡ false)

c_str-take : (n : ℕ) (s : Text) → HasNoNul s → c_str (take n s) ≡ take n s
unfolding c_str
c_str-take zero s h = refl
c_str-take (suc n) [] h = refl
c_str-take (suc n) (c ∷ s) (e, h) = ground (arith, e, c_str-take n s h)

-- The text that a buffer of a size leaves of a formatted text: all of it when it is shorter than
-- the buffer. One of the buffer's length loses its last byte without a note.
abbrev pub cut_text : ℕ → Text → Text
cut_text size text =
    if ltb (length text) size
    then text
    else if length text == size
    then take (size - 1) text
    else take (size - 1) text ++ codes "[...truncated...]"

-- `capturef` adds to the stream, for a text that is not empty and has no NUL: the text, when it is
-- shorter than the buffer; its first bytes, one less than the buffer has, and the note on the
-- truncation, when it is longer; and for a text as long as the buffer only these bytes, with no
-- note.
pub capturef_lem :
    (size : ℕ) (format : Text) (c : ℕ) (text : Text) (capture : LogCapture)
    → HasNoNul (c ∷ text)
    → (capturef size format (some (c ∷ text)) capture).stream
      ≡ capture.stream ++ cut_text size (c ∷ text)
unfolding capturef write vsnprintf
capturef_lem size format c text capture h =
    let e = c_str-take (size - 1) (c ∷ text) h in
    elim (Bool-cases (ltb (length (c ∷ text)) size)) [
      | inl lt ↦
          ground
            (arith, e, take_all (size - 1) (c ∷ text) (let l = ltb→lt _ _ lt in omega (arith, l)))
      | inr ge ↦ ground (arith, e, ge)
    ]

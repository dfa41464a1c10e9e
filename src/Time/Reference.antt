-- ===== src/Time/Reference.antt =====
-- The reference for the fractions of a format, and what the steps of the loop do to a text.
use mathlib.Core.Option
use myg3log.Base.{
  ℕ, zero, suc, ◌+◌, ◌≤◌, ◌≡◌, ◌≢◌, refl, ◌∙◌, ap, arith, Bool, false, ◌&&◌, ◌||◌, [], ◌∷◌, ◌++◌,
  none, some, if◌then◌else◌, ◌==◌, ltb, length, take, drop, All, length-append, append-nil,
  take-append_length, drop-append_length, drop-append, Bool-cases, Option-cases, inl, inr,
}
use myg3log.Base.Text.{Text}
use myg3log.Base.Decimal.{IsDigit}
use myg3log.Time.{
  Fractional, zeroes, to_string, byte_at, fractional_of, get_fractional, index, find_identifier,
  replace, padding,
}

-- Does the byte behind "%f" say how many digits are wanted?
abbrev pub is_size : ℕ → Bool
is_size c = (c == b'3') || ((c == b'6') || (c == b'9'))

-- The reference: every "%f", with the 3, 6 or 9 behind it if there is one, becomes the fraction,
-- and every other byte is copied.
unfoldable pub expand : ℕ → Text → Text
expand ts [] = []
expand ts (c ∷ []) = c ∷ []
expand ts (c ∷ d ∷ []) =
    if (c == b'%') && (d == b'f') then to_string ts Fractional.nanosecond_default else c ∷ d ∷ []
expand ts (c ∷ d ∷ e ∷ s) =
    let copied = c ∷ expand ts (d ∷ e ∷ s) in
    let sized = to_string ts (fractional_of e) ++ expand ts s in
    let plain = to_string ts Fractional.nanosecond_default ++ expand ts (e ∷ s) in
    if (c == b'%') && (d == b'f') then if is_size e then sized else plain else copied

abbrev pub NoPercent : Text → Type 0
NoPercent = All (λ c. c ≢ b'%')

abbrev pub head_byte : Text → ℕ
head_byte [] = 0
head_byte (c ∷ s) = c

-- Where no "%f" is found the reference copies the text.
pub expand-none : (ts : ℕ) (s : Text) → index s ≡ none → expand ts s ≡ s
unfolding index expand
expand-none ts [] h = refl
expand-none ts (c ∷ []) h = refl
expand-none ts (c ∷ d ∷ []) h = ground arith
expand-none ts (c ∷ d ∷ e ∷ s) h = ground (arith, expand-none ts (d ∷ e ∷ s))

-- The first "%f" splits the text, and the reference copies what stands before it.
pub record FirstIdentifier (ts : ℕ) (s : Text) (i : ℕ) : Type 0 where
  pub before : Text
  pub behind : Text
  pub split : s ≡ before ++ (b'%' ∷ b'f' ∷ behind)
  pub place : length before ≡ i
  pub copied : expand ts s ≡ before ++ expand ts (b'%' ∷ b'f' ∷ behind)

pub expand_cons :
    (ts c d : ℕ) (s : Text)
    → ((c == b'%') && (d == b'f')) ≡ false
    → expand ts (c ∷ d ∷ s) ≡ c ∷ expand ts (d ∷ s)
unfolding expand
expand_cons ts c d [] h = ground arith
expand_cons ts c d (e ∷ s) h = ground arith

pub expand_some : (ts : ℕ) (s : Text) (i : ℕ) → index s ≡ some i → FirstIdentifier ts s i
unfolding index
expand_some ts [] i h = absurd (ground arith)
expand_some ts (c ∷ []) i h = absurd (ground arith)
expand_some ts (c ∷ d ∷ s) i h = elim (Bool-cases ((c == b'%') && (d == b'f'))) [
  | inl e ↦ record {
    before = [];
    behind = s;
    split = ground arith;
    place = ground arith;
    copied = ground arith;
  }
  | inr e ↦ elim (Option-cases (index (d ∷ s))) [
    | inl q ↦ absurd (ground arith)
    | inr (k, q) ↦
        let r = expand_some ts (d ∷ s) k q in
        record {
          before = c ∷ r.before;
          behind = r.behind;
          split = ap (◌∷◌ c) r.split;
          place = ground (arith, r.place);
          copied = expand_cons ts c d s e ∙ ap (◌∷◌ c) r.copied;
        }
  ]
]

-- At a "%f" the reference writes the fraction and goes on behind it.
pub expand_at :
    (ts : ℕ) (b : Text)
    → expand ts (b'%' ∷ b'f' ∷ b)
      ≡ to_string ts (fractional_of (head_byte b))
        ++ expand ts (drop (padding (fractional_of (head_byte b))) b)
unfolding expand fractional_of
expand_at ts [] = rw append-nil
expand_at ts (e ∷ b) = ground arith

-- Bytes that are no '%' hide no "%f".
pub index_skip :
    (mid s : Text) → NoPercent mid → index (mid ++ s) ≡ Option.map (◌+◌ (length mid)) (index s)
unfolding index
index_skip [] s h = ground arith
index_skip (c ∷ []) [] h = refl
index_skip (c ∷ []) (d ∷ s) h = ground arith
index_skip (c ∷ d ∷ mid) s h = ground (arith, index_skip (d ∷ mid) s h.1)

pub find_behind :
    (pre mid s : Text)
    → NoPercent mid
    → find_identifier (pre ++ (mid ++ s)) (length pre)
      ≡ Option.map (λ i. length pre + (length mid + i)) (index s)
unfolding find_identifier
find_behind pre mid s h = rw (drop-append_length pre (mid ++ s), index_skip mid s h) (ground arith)

pub suc_shift : (n k : ℕ) → suc n + k ≡ suc (n + k)
suc_shift n k = omega arith

pub zero_shift : (k : ℕ) → 0 + k ≡ k
zero_shift k = omega arith

pub byte_at-append : (pre s : Text) (k : ℕ) → byte_at (pre ++ s) (length pre + k) ≡ byte_at s k
unfolding byte_at
byte_at-append [] s k = rw zero_shift
byte_at-append (x ∷ pre) s k = rw suc_shift (byte_at-append pre s k)

-- The byte behind a "%f" that stands at the position `length pre`.
pub byte_behind :
    (pre r : Text)
    → (if ltb (length pre + 2) (length (pre ++ (b'%' ∷ b'f' ∷ r)))
        then byte_at (pre ++ (b'%' ∷ b'f' ∷ r)) (length pre + 2)
        else 0)
      ≡ head_byte r
unfolding byte_at
byte_behind pre [] =
    ground (arith, byte_at-append pre (b'%' ∷ b'f' ∷ []) 2, length-append pre (b'%' ∷ b'f' ∷ []))
byte_behind pre (c ∷ r) =
    ground
      (arith, byte_at-append pre (b'%' ∷ b'f' ∷ c ∷ r) 2, length-append pre (b'%' ∷ b'f' ∷ c ∷ r))

pub get_fractional_at :
    (pre b : Text)
    → get_fractional (pre ++ (b'%' ∷ b'f' ∷ b)) (length pre) ≡ fractional_of (head_byte b)
unfolding get_fractional
get_fractional_at pre b = ap fractional_of (byte_behind pre b)

pub drop_two : (k : ℕ) (b : Text) → drop (2 + k) (b'%' ∷ b'f' ∷ b) ≡ drop k b
drop_two k b = let e : 2 + k ≡ suc (suc k) = omega arith in rw e

pub replace_at :
    (pre b v : Text) (k : ℕ)
    → replace (pre ++ (b'%' ∷ b'f' ∷ b)) (length pre) (2 + k) v ≡ pre ++ (v ++ drop k b)
unfolding replace
replace_at pre b v k = rw (
  take-append_length pre (b'%' ∷ b'f' ∷ b),
  drop-append pre (b'%' ∷ b'f' ∷ b) (2 + k),
  drop_two k b,
)

pub digits-NoPercent : (v : Text) → All IsDigit v → NoPercent v
digits-NoPercent [] h = tt
digits-NoPercent (c ∷ v) h = (λ e. omega arith, digits-NoPercent v h.1)

-- A text of at least two bytes in two parts.
pub length-take_two : (v : Text) → 2 ≤ length v → length (take 2 v) ≡ 2
length-take_two [] h = absurd (omega arith)
length-take_two (x ∷ []) h = absurd (omega arith)
length-take_two (x ∷ y ∷ v) h = refl

pub drop-NoPercent : (n : ℕ) (v : Text) → NoPercent v → NoPercent (drop n v)
drop-NoPercent zero v h = h
drop-NoPercent (suc n) [] h = h
drop-NoPercent (suc n) (x ∷ v) h = drop-NoPercent n v h.1

pub zeroes-ge : (f : Fractional) → 2 ≤ zeroes f
zeroes-ge Fractional.millisecond = omega arith
zeroes-ge Fractional.microsecond = omega arith
zeroes-ge Fractional.nanosecond = omega arith
zeroes-ge Fractional.nanosecond_default = omega arith

pub length-drop-le : (n : ℕ) (s : Text) → length (drop n s) ≤ length s
length-drop-le zero s = omega arith
length-drop-le (suc n) [] = omega arith
length-drop-le (suc n) (x ∷ s) = omega (arith, length-drop-le n s)

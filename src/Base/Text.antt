-- ===== src/Base/Text.antt =====
-- `std::string` as a list of bytes, with the members of it that the sources use.
use Prim.Native.Nat.{ℕ}
use Prim.Native.Char.{code}
use Prim.Native.String.{String}
use mathlib.Core.Path.{◌≡◌, refl, sym, ap₂, ◌∙◌}
use mathlib.Core.Bool.{Bool, true, false, not, ◌||◌, ◌&&◌}
use native.Mathlib.Omega.{arith}
use mathlib.Core.Option.{Option, none, some}
use mathlib.Core.List.{List, [], ◌∷◌, ◌++◌, append_assoc, append-nil}
use mathlib.Core.Logic.{◌⊎◌, inl, inr}
use myg3log.Base.Tests.{◌==◌, if◌then◌else◌, Bool-cases, ==→eq}
use myg3log.Base.Lists.{All, All-append}

abbrev pub Text : Type 0
Text = List ℕ

-- The bytes of an ASCII literal.
unfoldable pub codes : String → Text
codes String.[] = []
codes (String.◌∷◌ c s) = code c ∷ codes s

-- Is the byte one of the text's?
abbrev pub contains : Text → ℕ → Bool
contains [] c = false
contains (x ∷ xs) c = (x == c) || contains xs c

-- The text up to its first NUL, which is what `c_str()` shows to a C function.
unfoldable pub c_str : Text → Text
c_str [] = []
c_str (c ∷ s) = if c == 0 then [] else c ∷ c_str s

-- `find_first_of(set)`: the first byte that is in the set.
unfoldable pub find_first_of : Text → Text → Option ℕ
find_first_of set [] = none
find_first_of set (c ∷ s) = if contains set c then some c else find_first_of set s

-- `str.substr(str.find_last_of(set) + 1)`; `npos + 1` wraps to 0, so a text with no byte of
-- the set is returned whole. The second text is what was read since the last such byte.
after_last_from : Text → Text → Text → Text
after_last_from set [] seen = seen
after_last_from set (c ∷ s) seen =
    after_last_from set s (if contains set c then [] else seen ++ c ∷ [])

unfoldable pub after_last : Text → Text → Text
unfolding after_last_from
after_last set s = after_last_from set s []

-- `erase(remove(begin, end, c), end)`.
abbrev pub remove : (ℕ → Bool) → Text → Text
remove p [] = []
remove p (x ∷ xs) = if p x then remove p xs else x ∷ remove p xs

abbrev pub Lacks : Text → Text → Type 0
Lacks set = All (λ c. contains set c ≡ false)

-- The directory part: nothing, or a text that ends in a byte of the set.
abbrev pub IsDirPart : Text → Text → Type 0
IsDirPart set dir =
    (dir ≡ []) ⊎ ((d : Text) × (c : ℕ) × (dir ≡ d ++ c ∷ []) × (contains set c ≡ true))

after_last_from-Lacks :
    (set s seen : Text) → Lacks set seen → Lacks set (after_last_from set s seen)
unfolding after_last_from
after_last_from-Lacks set [] seen h = h
after_last_from-Lacks set (c ∷ s) seen h = elim (Bool-cases (contains set c)) [
  | inl e ↦ rw e (after_last_from-Lacks set s [] tt)
  | inr e ↦
      rw e (after_last_from-Lacks set s (seen ++ c ∷ []) (All-append _ seen (c ∷ []) h (e, tt)))
]

regroup :
    (pre seen : Text) (c : ℕ) (s : Text) → pre ++ (seen ++ c ∷ s) ≡ pre ++ ((seen ++ c ∷ []) ++ s)
regroup pre seen c s = rw (append_assoc seen (c ∷ []) s)

-- The part read before, `pre`, is a directory part, and what is left over stands behind one.
after_last_from-split :
    (set s seen pre : Text)
    → IsDirPart set pre
    → (dir : Text) × (pre ++ (seen ++ s) ≡ dir ++ after_last_from set s seen) × IsDirPart set dir
unfolding after_last_from
after_last_from-split set [] seen pre h = (pre, rw append-nil, h)
after_last_from-split set (c ∷ s) seen pre h = elim (Bool-cases (contains set c)) [
  | inl e ↦
      let (dir, q, k) =
        after_last_from-split set s [] (pre ++ (seen ++ c ∷ []))
          (inr (pre ++ seen, c, sym (append_assoc pre seen (c ∷ [])), e)) in
      (dir, rw e (regroup pre seen c s ∙ sym (append_assoc pre (seen ++ c ∷ []) s) ∙ q), k)
  | inr e ↦
      let (dir, q, k) = after_last_from-split set s (seen ++ c ∷ []) pre h in
      (dir, rw e (regroup pre seen c s ∙ q), k)
]

-- The text is a directory part and the rest, which has no byte of the set.
pub after_last-split :
    (set s : Text)
    → ((dir : Text) × (s ≡ dir ++ after_last set s) × IsDirPart set dir)
      × Lacks set (after_last set s)
unfolding after_last
after_last-split set s =
    (after_last_from-split set s [] [] (inl refl), after_last_from-Lacks set s [] tt)

after_last_from_none : (set s seen : Text) → Lacks set s → after_last_from set s seen ≡ seen ++ s
unfolding after_last_from
after_last_from_none set [] seen h = sym (append-nil seen)
after_last_from_none set (c ∷ s) seen h =
    rw h.0 (after_last_from_none set s (seen ++ c ∷ []) h.1 ∙ append_assoc seen (c ∷ []) s)

-- A text with no byte of the set is left whole.
pub after_last_none : (set s : Text) → Lacks set s → after_last set s ≡ s
unfolding after_last
after_last_none set s h = after_last_from_none set s [] h

-- `operator==` of `std::string`.
abbrev pub equal_text : Text → Text → Bool
equal_text [] [] = true
equal_text [] (d ∷ t) = false
equal_text (c ∷ s) [] = false
equal_text (c ∷ s) (d ∷ t) = c == d && equal_text s t

pub equal_text_same : (s : Text) → equal_text s s ≡ true
equal_text_same [] = refl
equal_text_same (c ∷ s) = ground (arith, equal_text_same s)

-- A text and what `c_str()` shows of it.
pub equal_text-c_str : (s : Text) → equal_text (c_str s) s ≡ not (contains s 0)
unfolding c_str
equal_text-c_str [] = refl
equal_text-c_str (c ∷ s) = ground (arith, equal_text-c_str s)

pub equal_text→eq : (s t : Text) → equal_text s t ≡ true → s ≡ t
equal_text→eq [] [] e = refl
equal_text→eq [] (d ∷ t) e = absurd cc
equal_text→eq (c ∷ s) [] e = absurd cc
equal_text→eq (c ∷ s) (d ∷ t) e = elim (Bool-cases (c == d)) [
  | inl h ↦ ap₂ ◌∷◌ (==→eq c d h) (equal_text→eq s t (ground (arith, h)))
  | inr h ↦ absurd (ground (arith, h))
]

pub equal_text_comm : (s t : Text) → equal_text s t ≡ equal_text t s
equal_text_comm [] [] = refl
equal_text_comm [] (d ∷ t) = refl
equal_text_comm (c ∷ s) [] = refl
equal_text_comm (c ∷ s) (d ∷ t) = ground (arith, equal_text_comm s t)

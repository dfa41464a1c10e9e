-- ===== src/FileName/Prefix.antt =====
-- What a prefix is after `prefixSanityFix`.
use myg3log.Base.{
  ℕ, ◌≡◌, ◌≢◌, ◌↔◌, refl, ap, ◌⊎◌, inl, inr, arith, Bool, true, false, ◌||◌, [], ◌∷◌, none, ◌==◌,
  All, All-map, Bool-cases, Option-cases,
}
use myg3log.Base.Text.{Text, find_first_of, after_last, remove, Lacks, after_last_none}
use myg3log.FileName.{
  illegal_characters, is_valid_filename, is_space, strip_prefix, prefix_sanity_fix,
}

find_first_of-Lacks : (set s : Text) → find_first_of set s ≡ none → Lacks set s
unfolding find_first_of
find_first_of-Lacks set [] e = tt
find_first_of-Lacks set (c ∷ s) e = ground (arith, find_first_of-Lacks set s)

Lacks-find_first_of : (set s : Text) → Lacks set s → find_first_of set s ≡ none
unfolding find_first_of
Lacks-find_first_of set [] h = refl
Lacks-find_first_of set (c ∷ s) h = ground (arith, Lacks-find_first_of set s h.1)

valid_sound : (p : Text) → (is_valid_filename p).0 ≡ true → (p ≢ []) × Lacks illegal_characters p
unfolding is_valid_filename
valid_sound [] h = absurd (ground (arith, Lacks-find_first_of illegal_characters []))
valid_sound (c ∷ s) h = elim (Option-cases (find_first_of illegal_characters (c ∷ s))) [
  | inl e ↦ (λ q. cc, find_first_of-Lacks illegal_characters (c ∷ s) e)
  | inr (b, e) ↦ absurd (ground arith)
]

valid_complete : (p : Text) → p ≢ [] → Lacks illegal_characters p → (is_valid_filename p).0 ≡ true
unfolding is_valid_filename
valid_complete [] h l = absurd (h refl)
valid_complete (c ∷ s) h l = ground (arith, Lacks-find_first_of illegal_characters (c ∷ s) l)

-- `isValidFilename` accepts exactly the texts that have a byte and none of the illegal ones.
pub is_valid_filename_iff :
    (p : Text) → ((is_valid_filename p).0 ≡ true) ↔ ((p ≢ []) × Lacks illegal_characters p)
is_valid_filename_iff p = (valid_sound p, λ h. valid_complete p h.0 h.1)

-- A filter leaves no byte that it takes out, and brings none back.
remove-All : (p : ℕ → Bool) (s : Text) → All (λ c. p c ≡ false) (remove p s)
remove-All p [] = tt
remove-All p (c ∷ s) = elim (Bool-cases (p c)) [
  | inl e ↦ rw e (remove-All p s)
  | inr e ↦ rw e (e, remove-All p s)
]

remove-adds :
    (p q : ℕ → Bool) (s : Text)
    → All (λ c. q c ≡ false) s
    → All (λ c. (p c || q c) ≡ false) (remove p s)
remove-adds p q [] h = tt
remove-adds p q (c ∷ s) h = elim (Bool-cases (p c)) [
  | inl e ↦ rw e (remove-adds p q s h.1)
  | inr e ↦ rw e (rw e h.0, remove-adds p q s h.1)
]

remove_none : (p : ℕ → Bool) (s : Text) → All (λ c. p c ≡ false) s → remove p s ≡ s
remove_none p [] h = refl
remove_none p (c ∷ s) h = rw h.0 (ap (◌∷◌ c) (remove_none p s h.1))

-- The bytes that `prefixSanityFix` takes out, and so never leaves.
abbrev pub is_stripped : ℕ → Bool
is_stripped c = (c == b':') || ((c == b'.') || ((c == b'\\') || ((c == b'/') || is_space c)))

abbrev pub IsStripped : Text → Type 0
IsStripped = All (λ c. is_stripped c ≡ false)

strip_prefix-IsStripped : (prefix : Text) → IsStripped (strip_prefix prefix)
unfolding strip_prefix
strip_prefix-IsStripped prefix =
    let name = after_last (b'/' ∷ b'\\' ∷ []) prefix in
    let no_space = remove is_space name in
    let no_slash = remove (λ c. c == b'/') no_space in
    let no_backslash = remove (λ c. c == b'\\') no_slash in
    let no_dot = remove (λ c. c == b'.') no_backslash in
    remove-adds (λ c. c == b':') (λ c. (c == b'.') || ((c == b'\\') || ((c == b'/') || is_space c)))
      no_dot
      (remove-adds (λ c. c == b'.') (λ c. (c == b'\\') || ((c == b'/') || is_space c)) no_backslash
        (remove-adds (λ c. c == b'\\') (λ c. (c == b'/') || is_space c) no_slash
          (remove-adds (λ c. c == b'/') is_space no_space (remove-All is_space name))))

strip_prefix-fixed : (s : Text) → IsStripped s → strip_prefix s ≡ s
unfolding strip_prefix
strip_prefix-fixed s h = rw (
  after_last_none (b'/' ∷ b'\\' ∷ []) s (All-map (λ c e. ground arith) s h),
  remove_none is_space s (All-map (λ c e. ground arith) s h),
  remove_none (λ c. c == b'/') s (All-map (λ c e. ground arith) s h),
  remove_none (λ c. c == b'\\') s (All-map (λ c e. ground arith) s h),
  remove_none (λ c. c == b'.') s (All-map (λ c e. ground arith) s h),
  remove_none (λ c. c == b':') s (All-map (λ c e. ground arith) s h),
)

-- The prefix that `prefixSanityFix` gives is empty, or a valid file name with no white space and
-- none of the bytes slash, backslash, dot and colon.
pub prefix_sanity_fix-IsValid :
    (prefix : Text)
    → (prefix_sanity_fix prefix ≡ [])
      ⊎ (((is_valid_filename (prefix_sanity_fix prefix)).0 ≡ true)
          × IsStripped (prefix_sanity_fix prefix))
unfolding prefix_sanity_fix
prefix_sanity_fix-IsValid prefix = elim (Bool-cases (is_valid_filename (strip_prefix prefix)).0) [
  | inl e ↦ rw e (inr (e, strip_prefix-IsStripped prefix))
  | inr e ↦ rw e (inl refl)
]

-- A valid name that has none of the bytes taken out is left as it is.
pub prefix_sanity_fix-fixed :
    (prefix : Text)
    → (is_valid_filename prefix).0 ≡ true
    → IsStripped prefix
    → prefix_sanity_fix prefix ≡ prefix
unfolding prefix_sanity_fix
prefix_sanity_fix-fixed prefix v h = rw (strip_prefix-fixed prefix h, v)

prefix_sanity_fix_nil : prefix_sanity_fix [] ≡ []
unfolding prefix_sanity_fix strip_prefix after_last is_valid_filename find_first_of
prefix_sanity_fix_nil = refl

-- A second `prefixSanityFix` changes nothing.
pub prefix_sanity_fix_idem :
    (prefix : Text) → prefix_sanity_fix (prefix_sanity_fix prefix) ≡ prefix_sanity_fix prefix
prefix_sanity_fix_idem prefix = elim (prefix_sanity_fix-IsValid prefix) [
  | inl e ↦ rw e prefix_sanity_fix_nil
  | inr (v, h) ↦ prefix_sanity_fix-fixed (prefix_sanity_fix prefix) v h
]

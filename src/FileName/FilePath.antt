-- ===== src/FileName/FilePath.antt =====
-- What path `pathSanityFix` puts together.
use myg3log.Base.{
  ℕ, zero, suc, ◌-◌, ◌<◌, ◌≡◌, ◌≢◌, refl, sym, ◌∙◌, ap, subst, inl, inr, arith, Bool, true, false,
  ◌||◌, [], ◌∷◌, ◌++◌, some, if◌then◌else◌, ◌==◌, All, All-append, Pointwise, ◌⊎◌, length, take,
  Bool-cases, append_assoc, append-nil,
}
use myg3log.Base.Text.{Text}
use myg3log.FileName.{contains_end, trim_loop, trim, unify, path_sanity_fix}

abbrev is_end : ℕ → Bool
is_end c = (c == b'/') || (c == b' ')

abbrev pub AreEnds : Text → Type 0
AreEnds = All (λ c. is_end c ≡ true)

-- A text that ends in a slash or a space is its beginning and that byte.
last_byte :
    (s : Text)
    → contains_end s ≡ true
    → (c : ℕ) × (is_end c ≡ true)
      × (s ≡ take (length s - 1) s ++ c ∷ [])
      × (suc (length (take (length s - 1) s)) ≡ length s)
unfolding contains_end
last_byte [] h = absurd (ground arith)
last_byte (c ∷ []) h = (c, h, refl, refl)
last_byte (c ∷ d ∷ s) h =
    let (b, e, split, size) = last_byte (d ∷ s) h in
    let shift : suc (suc (length s)) - 1 ≡ suc (suc (length s) - 1) = omega arith in
    (b, e, rw shift (ap (◌∷◌ c) split), rw shift (ap suc size))

-- What is trimmed and what is left.
record Trimmed (s t : Text) : Type 0 where
  ends : Text
  all_ends : AreEnds ends
  split : s ≡ t ++ ends
  done : contains_end t ≡ false

trim_loop-Trimmed :
    (fuel : ℕ) (s : Text) → length s < fuel → (t : Text) × (trim_loop fuel s ≡ some t) × Trimmed s t
unfolding trim_loop
trim_loop-Trimmed zero s h = elim h [ ]
trim_loop-Trimmed (suc fuel) s h = elim (Bool-cases (contains_end s)) [
  | inl e ↦
      let (c, end, split, size) = last_byte s e in
      let (t, run, r) = trim_loop-Trimmed fuel (take (length s - 1) s) (omega arith) in
      (
        t,
        rw (e, trim_loop) run,
        record {
          ends = r.ends ++ c ∷ [];
          all_ends = All-append _ r.ends (c ∷ []) r.all_ends (end, tt);
          split = split ∙ ap (λ x. x ++ c ∷ []) r.split ∙ append_assoc t r.ends (c ∷ []);
          done = r.done;
        },
      )
  | inr e ↦ (
    s,
    rw (e, trim_loop),
    record { ends = []; all_ends = tt; split = sym (append-nil s); done = e },
  )
]

-- The trimming loop always ends within its fuel. What it takes off is slashes and spaces at the
-- end, and what is left does not end in one.
trim-Trimmed : (s : Text) → Trimmed s (trim s)
unfolding trim
trim-Trimmed s =
    let (t, run, r) = trim_loop-Trimmed (suc (length s)) s (omega arith) in rw (run, trim) r

-- No backslash is left in a directory part.
unify-no_backslash : (s : Text) → All (λ c. c ≢ b'\\') (unify s)
unfolding unify
unify-no_backslash [] = tt
unify-no_backslash (c ∷ s) = (ground arith, unify-no_backslash s)

empty_dir : (t x : Text) → (if length t == 0 then t else x) ≡ (if length t == 0 then [] else x)
empty_dir [] x = refl
empty_dir (c ∷ t) x = ground arith

All-start : (xs ys : Text) → All (λ c. c ≢ b'\\') (xs ++ ys) → All (λ c. c ≢ b'\\') xs
All-start [] ys h = tt
All-start (x ∷ xs) ys h = (h.0, All-start xs ys h.1)

-- Each byte with a backslash turned into a slash, and every other byte as it is.
abbrev pub Slashed : Text → Text → Type 0
Slashed path slashed =
    Pointwise (λ c d. (c ≡ b'\\' × (d ≡ b'/')) ⊎ (c ≢ b'\\' × (d ≡ c))) path slashed

unify-Slashed : (path : Text) → Slashed path (unify path)
unfolding unify
unify-Slashed [] = tt
unify-Slashed (c ∷ path) = elim (Bool-cases (c == b'\\')) [
  | inl e ↦ (inl (ground (arith, e), ground (arith, e)), unify-Slashed path)
  | inr n ↦ (inr (ground (arith, n), ground (arith, n)), unify-Slashed path)
]

-- The last byte, if there is one, is neither a slash nor a space.
abbrev pub IsClosed : Text → Type 0
IsClosed [] = Unit {0}
IsClosed (c ∷ []) = (c ≢ b'/') × (c ≢ b' ')
IsClosed (c ∷ d ∷ s) = IsClosed (d ∷ s)

trimmed-IsClosed : (dir : Text) → contains_end dir ≡ false → IsClosed dir
unfolding contains_end
trimmed-IsClosed [] h = tt
trimmed-IsClosed (c ∷ []) h = (ground (arith, h), ground (arith, h))
trimmed-IsClosed (c ∷ d ∷ s) h = trimmed-IsClosed (d ∷ s) h

-- The path is a directory part and the file name. The directory part is the path with its
-- backslashes turned into slashes and without the slashes and spaces at its end: it has no
-- backslash, its last byte, if any, is neither a slash nor a space, and it is followed by one slash
-- unless it is empty.
pub path_sanity_fix_lem :
    (path file_name : Text)
    → (dir : Text) × (ends : Text) × Slashed path (dir ++ ends)
      × All (λ c. (c ≡ b'/') ⊎ (c ≡ b' ')) ends
      × IsClosed dir
      × All (λ c. c ≢ b'\\') dir
      × (path_sanity_fix path file_name
          ≡ (if length dir == 0 then [] else dir ++ b'/' ∷ []) ++ file_name)
unfolding path_sanity_fix
path_sanity_fix_lem path file_name =
    let r = trim-Trimmed (unify path) in
    let dir = trim (unify path) in
    (
      dir,
      r.ends,
      subst (Slashed path) r.split (unify-Slashed path),
      ends_are r.ends r.all_ends,
      trimmed-IsClosed dir r.done,
      All-start dir r.ends (subst (All (λ c. c ≢ b'\\')) r.split (unify-no_backslash path)),
      ap (λ t. t ++ file_name) (empty_dir dir (dir ++ b'/' ∷ [])),
    )
  where
    ends_are : (ends : Text) → AreEnds ends → All (λ c. (c ≡ b'/') ⊎ (c ≡ b' ')) ends
    ends_are [] h = tt
    ends_are (c ∷ ends) h = (
      elim (Bool-cases (c == b'/')) [
        | inl e ↦ inl (ground (arith, e))
        | inr n ↦ inr (ground (arith, n, h.0))
      ],
      ends_are ends h.1,
    )

-- ===== src/TestHelpers/Content.antt =====
-- The search of `verifyContent` finds a text exactly where it is.
use myg3log.Base.{
  ℕ, ◌≡◌, ◌↔◌, refl, sym, ◌∙◌, ap, ap₂, arith, true, [], ◌∷◌, ◌++◌, Bool-cases, Option-cases, inl,
  inr, ◌==◌, ==→eq, if◌then◌else◌,
}
use myg3log.Base.Text.{Text}
use myg3log.TestHelpers.{starts_with, find_text, verify_content}

-- The text holds the other one.
abbrev pub Holds : Text → Text → Type 0
Holds total msg = (before : Text) × (behind : Text) × (total ≡ before ++ (msg ++ behind))

starts_with-append : (msg behind : Text) → starts_with msg (msg ++ behind) ≡ true
unfolding starts_with
starts_with-append [] behind = refl
starts_with-append (c ∷ msg) behind = ground (arith, starts_with-append msg behind)

split_start :
    (msg total : Text) → starts_with msg total ≡ true → (behind : Text) × (total ≡ msg ++ behind)
unfolding starts_with
split_start [] total e = (total, refl)
split_start (c ∷ msg) [] e = absurd cc
split_start (c ∷ msg) (d ∷ total) e = elim (Bool-cases (c == d)) [
  | inl h ↦
      let (behind, k) = split_start msg total (ground (arith, h)) in
      (behind, ap₂ ◌∷◌ (sym (==→eq c d h)) k)
  | inr h ↦ absurd (ground (arith, h))
]

verify-step :
    (msg total : Text) (d : ℕ)
    → verify_content (d ∷ total) msg
      ≡ (if starts_with msg (d ∷ total) then true else verify_content total msg)
unfolding verify_content
verify-step msg total d = elim (Bool-cases (starts_with msg (d ∷ total))) [
  | inl e ↦ ground (arith, e)
  | inr e ↦ elim (Option-cases (find_text msg total)) [
    | inl f ↦ ground (arith, e, f)
    | inr (k, f) ↦ ground (arith, e, f)
  ]
]

verify-nothing : (msg : Text) → verify_content [] msg ≡ starts_with msg []
unfolding verify_content
verify-nothing msg = elim (Bool-cases (starts_with msg [])) [
  | inl e ↦ ground (arith, e)
  | inr e ↦ ground (arith, e)
]

starts-Holds : (msg total : Text) → starts_with msg total ≡ true → Holds total msg
starts-Holds msg total e = let (behind, k) = split_start msg total e in ([], behind, k)

verified-Holds : (msg total : Text) → verify_content total msg ≡ true → Holds total msg
verified-Holds msg [] e = starts-Holds msg [] (sym (verify-nothing msg) ∙ e)
verified-Holds msg (d ∷ total) e = elim (Bool-cases (starts_with msg (d ∷ total))) [
  | inl h ↦ starts-Holds msg (d ∷ total) h
  | inr h ↦
      let (before, behind, k) =
        verified-Holds msg total (ground (arith, verify-step msg total d, h, e)) in
      (d ∷ before, behind, ap (◌∷◌ d) k)
]

verify-start : (msg behind : Text) → verify_content (msg ++ behind) msg ≡ true
unfolding starts_with
verify-start [] [] = verify-nothing []
verify-start [] (d ∷ behind) =
    verify-step [] behind d ∙ ground (arith, starts_with-append [] (d ∷ behind))
verify-start (c ∷ msg) behind =
    verify-step (c ∷ msg) (msg ++ behind) c ∙ ground (arith, starts_with-append (c ∷ msg) behind)

pub verify-Holds :
    (before msg behind : Text) → verify_content (before ++ (msg ++ behind)) msg ≡ true
verify-Holds [] msg behind = verify-start msg behind
verify-Holds (d ∷ before) msg behind =
    verify-step msg (before ++ (msg ++ behind)) d ∙ ground (arith, verify-Holds before msg behind)

-- `verifyContent` is true exactly when the message stands somewhere in the text.
pub verify_content_iff : (total msg : Text) → (verify_content total msg ≡ true) ↔ Holds total msg
verify_content_iff total msg =
    (verified-Holds msg total, λ h. ap (λ t. verify_content t msg) h.2 ∙ verify-Holds h.0 msg h.1)

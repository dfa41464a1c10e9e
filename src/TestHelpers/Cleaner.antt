-- ===== src/TestHelpers/Cleaner.antt =====
-- src/test_unit/testing_helpers.cpp: which files the clean-up leaves.
use myg3log.Base.{
  ◌≡◌, refl, sym, ◌∙◌, ap, arith, Bool, true, false, not, ◌&&◌, List, [], ◌∷◌, ◌++◌, Bool-cases,
  inl, inr, ◌||◌, All, All-append, if◌then◌else◌, subst,
}
use myg3log.Base.Text.{Text, c_str, equal_text, equal_text→eq, equal_text_comm}
use myg3log.TestHelpers.{Files, remove_file, clean, is_listed, add_log_to_clean}

-- Is there a file at the path?
abbrev pub exists : Text → Files → Bool
exists path [] = false
exists path ((p, text) ∷ files) = if equal_text p path then true else exists path files

-- Every path stands once.
abbrev pub IsFiles : Files → Type 0
IsFiles [] = Unit
IsFiles ((p, text) ∷ files) = (exists p files ≡ false) × IsFiles files

abbrev pub NoNul : Text → Type 0
NoNul path = c_str path ≡ path

apart : (p q r : Text) → equal_text p q ≡ true → equal_text p r ≡ equal_text q r
apart p q r e = ap (λ t. equal_text t r) (equal_text→eq p q e)

remove-exists :
    (path q : Text) (files : Files)
    → NoNul path
    → IsFiles files
    → exists q (remove_file path files).1 ≡ (exists q files && not (equal_text path q))
unfolding remove_file
remove-exists path q [] n h = refl
remove-exists path q ((p, text) ∷ files) n h = elim (Bool-cases (equal_text p path)) [
  | inl e ↦ elim (Bool-cases (equal_text p q)) [
    | inl f ↦
        let gone : exists q files ≡ false =
          ap (λ t. exists t files) (sym (equal_text→eq p q f)) ∙ h.0 in
        ground (arith, n, e, f, gone, apart p path q e)
    | inr f ↦ ground (arith, n, e, f, apart p path q e)
  ]
  | inr e ↦ elim (Bool-cases (equal_text p q)) [
    | inl f ↦
        let other : equal_text path q ≡ false =
          equal_text_comm path q ∙ sym (apart p q path f) ∙ e in
        ground (arith, n, e, f, other)
    | inr f ↦ ground (arith, n, e, f, remove-exists path q files n h.1)
  ]
]

removed-exists :
    (path : Text) (files : Files) → NoNul path → (remove_file path files).0 ≡ exists path files
unfolding remove_file
removed-exists path [] n = refl
removed-exists path ((p, text) ∷ files) n = ground (arith, n, removed-exists path files n)

remove-IsFiles :
    (path : Text) (files : Files) → NoNul path → IsFiles files → IsFiles (remove_file path files).1
unfolding remove_file
remove-IsFiles path [] n h = tt
remove-IsFiles path ((p, text) ∷ files) n h = elim (Bool-cases (equal_text p path)) [
  | inl e ↦
      let same : remove_file path ((p, text) ∷ files) ≡ (true, files) = ground (arith, n, e) in
      subst (λ r. IsFiles r.1) (sym same) h.1
  | inr e ↦
      let (removed, left) = remove_file path files in
      let kept : (remove_file path ((p, text) ∷ files)).1 ≡ (p, text) ∷ (remove_file path files).1 =
        ground (arith, n, e) in
      let fresh : exists p (remove_file path files).1 ≡ false =
        ground (arith, h.0, remove-exists path p files n h.1) in
      subst IsFiles (sym kept) (fresh, remove-IsFiles path files n h.1)
]

-- Every log stands once in the list.
abbrev pub IsDistinct : List Text → Type 0
IsDistinct [] = Unit
IsDistinct (log ∷ logs) = (is_listed log logs ≡ false) × IsDistinct logs

-- The logs that there is no file for.
abbrev pub missing : Files → List Text → List Text
missing files [] = []
missing files (log ∷ logs) =
    if exists log files then missing files logs else log ∷ missing files logs

-- The removal of another file makes no difference.
missing-remove :
    (path : Text) (files : Files) (logs : List Text)
    → NoNul path
    → IsFiles files
    → is_listed path logs ≡ false
    → missing (remove_file path files).1 logs ≡ missing files logs
unfolding is_listed
missing-remove path files [] n h l = refl
missing-remove path files (log ∷ logs) n h l = elim (Bool-cases (equal_text log path)) [
  | inl e ↦ absurd (ground (arith, e))
  | inr e ↦ ground (
    arith,
    e,
    equal_text_comm path log,
    remove-exists path log files n h,
    missing-remove path files logs n h (ground (arith, e)),
  )
]

-- What the clean-up leaves and reports.
pub record Cleaned (logs : List Text) (files : Files) (result : List Text × Files) : Type 0 where
  pub failures : result.0 ≡ missing files logs
  pub left : (q : Text) → exists q result.1 ≡ (exists q files && not (is_listed q logs))

clean-step :
    (log : Text) (logs : List Text) (files : Files)
    → NoNul log
    → IsFiles files
    → is_listed log logs ≡ false
    → Cleaned logs (remove_file log files).1 (clean logs (remove_file log files).1)
    → Cleaned (log ∷ logs) files (clean (log ∷ logs) files)
unfolding clean is_listed
clean-step log logs files n h fresh c = record {
  failures =
      ground
        (arith, removed-exists log files n, missing-remove log files logs n h fresh, c.failures);
  left = λ q. ground (arith, c.left q, remove-exists log q files n h);
}

clean-Cleaned :
    (logs : List Text) (files : Files)
    → All NoNul logs
    → IsDistinct logs
    → IsFiles files
    → Cleaned logs files (clean logs files)
unfolding clean is_listed
clean-Cleaned [] files n d h = record { failures = refl; left = λ q. ground arith }
clean-Cleaned (log ∷ logs) files n d h =
    clean-step log logs files n.0 h d.0
      (clean-Cleaned logs (remove_file log files).1 n.1 d.1 (remove-IsFiles log files n.0 h))

listed-append :
    (q : Text) (logs : List Text) (log : Text)
    → is_listed q (logs ++ log ∷ []) ≡ (is_listed q logs || equal_text log q)
unfolding is_listed
listed-append q [] log = ground arith
listed-append q (l ∷ logs) log = ground (arith, listed-append q logs log)

IsDistinct-append :
    (logs : List Text) (log : Text)
    → IsDistinct logs
    → is_listed log logs ≡ false
    → IsDistinct (logs ++ log ∷ [])
unfolding is_listed
IsDistinct-append [] log d f = (refl, tt)
IsDistinct-append (l ∷ logs) log d f = elim (Bool-cases (equal_text l log)) [
  | inl e ↦ absurd (ground (arith, e))
  | inr e ↦ (
    listed-append l logs log ∙ ground (arith, d.0, e, equal_text_comm log l),
    IsDistinct-append logs log d.1 (ground (arith, e)),
  )
]

-- The logs that a test adds, one after the other.
abbrev pub add_all : List Text → List Text → List Text
add_all [] logs = logs
add_all (path ∷ paths) logs = add_all paths (add_log_to_clean path logs)

added-IsDistinct :
    (paths logs : List Text)
    → All NoNul paths
    → All NoNul logs
    → IsDistinct logs
    → All NoNul (add_all paths logs) × IsDistinct (add_all paths logs)
unfolding add_log_to_clean
added-IsDistinct [] logs n m d = (m, d)
added-IsDistinct (path ∷ paths) logs n m d = elim (Bool-cases (is_listed path logs)) [
  | inl e ↦
      let same : add_log_to_clean path logs ≡ logs = ground (arith, n.0, e) in
      subst (λ l. All NoNul (add_all paths l) × IsDistinct (add_all paths l)) (sym same)
        (added-IsDistinct paths logs n.1 m d)
  | inr e ↦
      let longer : add_log_to_clean path logs ≡ logs ++ path ∷ [] = ground (arith, n.0, e) in
      subst (λ l. All NoNul (add_all paths l) × IsDistinct (add_all paths l)) (sym longer)
        (added-IsDistinct paths (logs ++ path ∷ []) n.1
          (All-append NoNul logs (path ∷ []) m (n.0, tt)) (IsDistinct-append logs path d e))
]

listed-add :
    (q path : Text) (logs : List Text)
    → NoNul path
    → is_listed q (add_log_to_clean path logs) ≡ (is_listed q logs || equal_text path q)
unfolding add_log_to_clean
listed-add q path logs n = elim (Bool-cases (is_listed path logs)) [
  | inl e ↦ elim (Bool-cases (equal_text path q)) [
    | inl f ↦
        let already : is_listed q logs ≡ true =
          ap (λ t. is_listed t logs) (sym (equal_text→eq path q f)) ∙ e in
        ground (arith, n, e, f, already)
    | inr f ↦ ground (arith, n, e, f)
  ]
  | inr e ↦ ground (arith, n, e, listed-append q logs path)
]

listed-add_all :
    (q : Text) (paths logs : List Text)
    → All NoNul paths
    → is_listed q (add_all paths logs) ≡ (is_listed q logs || is_listed q paths)
unfolding is_listed
listed-add_all q [] logs n = ground arith
listed-add_all q (path ∷ paths) logs n =
    listed-add_all q paths (add_log_to_clean path logs) n.1
    ∙ ground (arith, listed-add q path logs n.0)

-- Of the paths without a NUL that a test adds, in any order and as often as it likes, each is
-- removed once at the end: a failure is reported exactly for those at which there was no file, and
-- there are left exactly the files whose path was not added.
pub clean-added :
    (paths : List Text) (files : Files)
    → All NoNul paths
    → IsFiles files
    → ((clean (add_all paths []) files).0 ≡ missing files (add_all paths []))
      × ((q : Text)
          → exists q (clean (add_all paths []) files).1
            ≡ (exists q files && not (is_listed q paths)))
unfolding is_listed
clean-added paths files n h =
    let (m, d) = added-IsDistinct paths [] n tt tt in
    let c = clean-Cleaned (add_all paths []) files m d h in
    (c.failures, λ q. c.left q ∙ ap (λ b. exists q files && not b) (listed-add_all q paths [] n))

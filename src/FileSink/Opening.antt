-- ===== src/FileSink/Opening.antt =====
-- What the constructor of the sink does.
use myg3log.Base.{
  ℕ, ◌≡◌, ◌≢◌, ◌↔◌, refl, arith, false, List, [], ◌∷◌, ◌++◌, ◌⊎◌, ◌==◌, length, List-cases,
  append_assoc, if◌then◌else◌, Bool-cases, inl, inr, All,
}
use myg3log.Base.Text.{Text, codes}
use myg3log.Levels.{Level}
use myg3log.FileName.{
  prefix_sanity_fix, is_valid_filename, path_sanity_fix, create_log_file_name, create_link_name,
  trim, unify,
}
use myg3log.FileName.Prefix.{prefix_sanity_fix-IsValid, is_valid_filename_iff}
use myg3log.FileSink.{
  Environment, LinkCall, Construction, aborted, constructed, construct, make_links, create_log_file,
}

valid_or_empty :
    (p : Text) → ((is_valid_filename (prefix_sanity_fix p)).0 ≡ false) ↔ (prefix_sanity_fix p ≡ [])
valid_or_empty p = (forth, back)
  where
    forth : (is_valid_filename (prefix_sanity_fix p)).0 ≡ false → prefix_sanity_fix p ≡ []
    forth h = elim (prefix_sanity_fix-IsValid p) [
      | inl e ↦ e
      | inr (v, _) ↦ absurd (ground (arith, h, v))
    ]

    back : prefix_sanity_fix p ≡ [] → (is_valid_filename (prefix_sanity_fix p)).0 ≡ false
    back e = elim (Bool-cases (is_valid_filename (prefix_sanity_fix p)).0) [
      | inl v ↦ absurd (((is_valid_filename_iff (prefix_sanity_fix p)).0 v).0 e)
      | inr f ↦ f
    ]

not_empty : (xs : Text) (c : ℕ) (ys : Text) → (length (xs ++ c ∷ ys) == 0) ≡ false
not_empty [] c ys = ground arith
not_empty (x ∷ xs) c ys = ground arith

not_empty_append : (xs ys : Text) → (length ys == 0) ≡ false → (length (xs ++ ys) == 0) ≡ false
not_empty_append [] ys h = h
not_empty_append (x ∷ xs) ys h = ground arith

path_named :
    (dir name : Text)
    → (length name == 0) ≡ false
    → (length (path_sanity_fix dir name) == 0) ≡ false
unfolding path_sanity_fix
path_named dir name h =
    let trimmed = trim (unify dir) in
    not_empty_append (if length trimmed == 0 then trimmed else trimmed ++ b'/' ∷ []) name h

-- The link points to the path.
abbrev pub PointsTo : Text → LinkCall → Type 0
PointsTo path (LinkCall.unlink link) = Unit {0}
PointsTo path (LinkCall.symlink target link) = target ≡ path

module _ (env : Environment) (now : ℕ) (log_link log_prefix log_directory : Text) (level : Level)
    (logger_id : Text) where
  -- The process is aborted exactly when nothing is left of the prefix once it is cleaned up.
  pub construct-aborted :
      (construct env now log_link log_prefix log_directory level logger_id ≡ aborted)
      ↔ (prefix_sanity_fix log_prefix ≡ [])
  unfolding construct
  construct-aborted = (
    (λ h. (valid_or_empty log_prefix).0 (ground arith)),
    (λ e. rw ((valid_or_empty log_prefix).1 e)),
  )

  abbrev pub log_name : Text
  log_name =
      create_log_file_name env.platform env.host now (prefix_sanity_fix log_prefix) level logger_id

  make_links-PointsTo :
      (link_name target : Text)
      → All (PointsTo target) (make_links env log_directory link_name target log_link)
  unfolding make_links
  make_links-PointsTo link_name target = ground arith

  -- The link in the log directory, and the one in the directory of the flag `log_link`.
  abbrev pub beside_name : Text
  beside_name =
      path_sanity_fix log_directory (create_link_name (prefix_sanity_fix log_prefix) level)

  abbrev pub extra_name : Text
  extra_name = path_sanity_fix log_link (create_link_name (prefix_sanity_fix log_prefix) level)

  -- Among the calls the old link is removed and at once made again, to the path.
  abbrev pub Replaced : (path link : Text) → List LinkCall → Type 0
  Replaced path link calls =
      (before : List LinkCall) × (behind : List LinkCall) × (calls
        ≡ before ++ LinkCall.unlink link ∷ LinkCall.symlink path link ∷ behind)

  beside_named : (length beside_name == 0) ≡ false
  unfolding create_link_name codes
  beside_named = path_named log_directory (create_link_name (prefix_sanity_fix log_prefix) level) (
      ground (
        arith,
        not_empty (prefix_sanity_fix log_prefix) b'.' level.text,
        append_assoc (prefix_sanity_fix log_prefix) (b'.' ∷ []) level.text,
      ))

  make_links-Replaced :
      (target : Text)
      → let calls =
          make_links env log_directory
            (create_link_name (prefix_sanity_fix log_prefix) level)
            target
            log_link in
        Replaced target beside_name calls × ((log_link ≡ []) ⊎ Replaced target extra_name calls)
  unfolding make_links
  make_links-Replaced target = (
    (
      [],
      if length log_link == 0
          then []
          else LinkCall.unlink extra_name ∷ LinkCall.symlink target extra_name ∷ [],
      rw beside_named refl,
    ),
    elim (List-cases log_link) [
      | inl e ↦ inl e
      | inr (c, s, e) ↦
          let set : (length log_link == 0) ≡ false = ground (arith, e) in
          inr (
            LinkCall.unlink beside_name ∷ LinkCall.symlink target beside_name ∷ [],
            [],
            rw (beside_named, set) refl,
          )
    ],
  )

  -- What holds of the sink and the links: the sink is named after the file that it writes to, and
  -- every link points to the file in the log directory; the link beside the file is always made anew,
  -- and the other one if the flag for its directory is set.
  abbrev pub Opened : Text → Construction → Type 0
  Opened file aborted = ⊥
  Opened file (constructed s links) =
      (s.log_file_with_path ≡ file)
      × (s.outptr ≡ create_log_file env file)
      × All (PointsTo (path_sanity_fix log_directory log_name)) links
      × Replaced (path_sanity_fix log_directory log_name) beside_name links
      × ((log_link ≡ []) ⊎ Replaced (path_sanity_fix log_directory log_name) extra_name links)

  -- With a prefix of which something is left once it is cleaned up, the sink writes to the file in
  -- the log directory if that can be opened, and to the file of that name in the current directory
  -- if not. Either way the link beside the log file is removed and made again, and so is the one in
  -- the directory of the flag if that is set; the links point to the file in the log directory,
  -- so in the second case to one that could not be opened.
  pub construct-Opened :
      prefix_sanity_fix log_prefix ≢ []
      → Opened
          (if env.openable (path_sanity_fix log_directory log_name)
            then path_sanity_fix log_directory log_name
            else codes "./" ++ log_name)
          (construct env now log_link log_prefix log_directory level logger_id)
  unfolding construct create_log_file
  construct-Opened ne = elim (Bool-cases (is_valid_filename (prefix_sanity_fix log_prefix)).0) [
    | inl v ↦ elim (Bool-cases (env.openable (path_sanity_fix log_directory log_name))) [
      | inl o ↦
          rw (v, o)
            (
              refl,
              rw o,
              make_links-PointsTo _ _,
              (make_links-Replaced _).0,
              (make_links-Replaced _).1,
            )
      | inr o ↦
          rw (v, o)
            (
              refl,
              refl,
              make_links-PointsTo _ _,
              (make_links-Replaced _).0,
              (make_links-Replaced _).1,
            )
    ]
    | inr f ↦ absurd (ne ((valid_or_empty log_prefix).0 f))
  ]

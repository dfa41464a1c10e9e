-- ===== src/Wrappers/Ownership.antt =====
-- src/g3log/moveoncopy.hpp with a `unique_ptr` inside, as messages are sent: whatever is done with
-- the wrappers, one message has at most one owner.
use myg3log.Base.{
  ℕ, zero, suc, ◌+◌, ◌≡◌, ap, inl, inr, Option-cases, arith, List, [], ◌∷◌, ◌++◌, Option, none,
  some,
}
use myg3log.Wrappers.{MoveOnCopy, copy, assign, release}

-- What a program does with the wrappers that it has: the copies made when a job is sent and taken,
-- assignments, and the release in the end. Wrappers are numbered.
pub data Move : Type 0 where
  copies : (from : ℕ) → Move
  assigns : (from to : ℕ) → Move
  releases : (from : ℕ) → Move

-- The wrappers of a program around a `unique_ptr`, `none` if it is null, and the pointers that were
-- released from them.
pub record Holders (P : Type 0) : Type 0 where
  pub wrappers : List (MoveOnCopy (Option P))
  pub released : List (Option P)

module _ {P : Type 0} where
  abbrev pub null : Option P → Option P
  null p = none

  abbrev pub at : ℕ → List (MoveOnCopy (Option P)) → Option (MoveOnCopy (Option P))
  at k [] = none
  at zero (t ∷ ts) = some t
  at (suc k) (t ∷ ts) = at k ts

  abbrev pub put_at :
      ℕ → MoveOnCopy (Option P) → List (MoveOnCopy (Option P)) → List (MoveOnCopy (Option P))
  put_at k t [] = []
  put_at zero t (u ∷ ts) = t ∷ ts
  put_at (suc k) t (u ∷ ts) = u ∷ put_at k t ts

  -- The source of an assignment is moved from before the target is written.
  unfoldable pub move : Move → Holders P → Holders P
  unfolding copy assign release
  move (Move.copies from) h = elim (at from h.wrappers) [
    | none ↦ h
    | some t ↦
        let (new, left) = copy null t in
        record h { wrappers = put_at from left h.wrappers ++ new ∷ [] }
  ]
  move (Move.assigns from to) h = elim (at from h.wrappers) [
    | none ↦ h
    | some other ↦
        let left = put_at from (assign null other other).1 h.wrappers in
        elim (at to left) [
          | none ↦ h
          | some this ↦ record h { wrappers = put_at to (assign null this other).0 left }
        ]
  ]
  move (Move.releases from) h = elim (at from h.wrappers) [
    | none ↦ h
    | some t ↦
        let (pointer, left) = release null t in
        record { wrappers = put_at from left h.wrappers; released = h.released ++ pointer ∷ [] }
  ]

  abbrev pub one : Option P → ℕ
  one none = 0
  one (some p) = 1

  abbrev pub owned : List (MoveOnCopy (Option P)) → ℕ
  owned [] = 0
  owned (t ∷ ts) = one t.move_only + owned ts

  abbrev pub let_go : List (Option P) → ℕ
  let_go [] = 0
  let_go (p ∷ ps) = one p + let_go ps

  -- How many pointers to an object there are.
  abbrev pub owners : Holders P → ℕ
  owners h = owned h.wrappers + let_go h.released

  owned-put_at :
      (k : ℕ) (t u : MoveOnCopy (Option P)) (ts : List (MoveOnCopy (Option P)))
      → at k ts ≡ some t
      → owned (put_at k u ts) + one t.move_only ≡ owned ts + one u.move_only
  owned-put_at k t u [] e = absurd cc
  owned-put_at zero t u (v ∷ ts) e =
      let same : v ≡ t = cc in omega (arith, ap (λ x. one x.move_only) same)
  owned-put_at (suc k) t u (v ∷ ts) e = omega (arith, owned-put_at k t u ts e)

  owned-append : (ts us : List (MoveOnCopy (Option P))) → owned (ts ++ us) ≡ owned ts + owned us
  owned-append [] us = omega arith
  owned-append (t ∷ ts) us = omega (arith, owned-append ts us)

  let_go-append : (ps qs : List (Option P)) → let_go (ps ++ qs) ≡ let_go ps + let_go qs
  let_go-append [] qs = omega arith
  let_go-append (p ∷ ps) qs = omega (arith, let_go-append ps qs)

  abbrev emptied : MoveOnCopy (Option P)
  emptied = record { move_only = none }

  -- The owner that an assignment writes over.
  abbrev pub overwritten : Move → Holders P → ℕ
  overwritten (Move.assigns from to) h = elim (at from h.wrappers) [
    | none ↦ 0
    | some other ↦ elim (at to (put_at from emptied h.wrappers)) [
      | none ↦ 0
      | some this ↦ one this.move_only
    ]
  ]
  overwritten m h = 0

  owners-copies : (from : ℕ) (h : Holders P) → owners (move (Move.copies from) h) ≡ owners h
  unfolding move
  owners-copies from h = elim (Option-cases (at from h.wrappers)) [
    | inl e ↦ ground (arith, e)
    | inr (t, e) ↦ ground (
      arith,
      e,
      owned-put_at from t emptied h.wrappers e,
      owned-append (put_at from emptied h.wrappers) (t ∷ []),
    )
  ]

  owners-releases : (from : ℕ) (h : Holders P) → owners (move (Move.releases from) h) ≡ owners h
  unfolding move
  owners-releases from h = elim (Option-cases (at from h.wrappers)) [
    | inl e ↦ ground (arith, e)
    | inr (t, e) ↦ ground (
      arith,
      e,
      owned-put_at from t emptied h.wrappers e,
      let_go-append h.released (t.move_only ∷ []),
    )
  ]

  owners-assigns :
      (from to : ℕ) (h : Holders P)
      → owners (move (Move.assigns from to) h) + overwritten (Move.assigns from to) h ≡ owners h
  unfolding move
  owners-assigns from to h = elim (Option-cases (at from h.wrappers)) [
    | inl e ↦ ground (arith, e)
    | inr (t, e) ↦ elim (Option-cases (at to (put_at from emptied h.wrappers))) [
      | inl f ↦ ground (arith, e, f)
      | inr (u, f) ↦ ground (
        arith,
        e,
        f,
        owned-put_at from t emptied h.wrappers e,
        owned-put_at to u t (put_at from emptied h.wrappers) f,
      )
    ]
  ]

  abbrev pub moves : List Move → Holders P → Holders P
  moves [] h = h
  moves (m ∷ ms) h = moves ms (move m h)

  -- The owners that assignments write over along the way.
  abbrev pub all_overwritten : List Move → Holders P → ℕ
  all_overwritten [] h = 0
  all_overwritten (m ∷ ms) h = overwritten m h + all_overwritten ms (move m h)

  owners-move : (m : Move) (h : Holders P) → owners (move m h) + overwritten m h ≡ owners h
  owners-move (Move.copies from) h = omega (arith, owners-copies from h)
  owners-move (Move.assigns from to) h = owners-assigns from to h
  owners-move (Move.releases from) h = omega (arith, owners-releases from h)

  -- Whatever a program does with its wrappers, the pointers that they and the releases hold, and
  -- those that assignments have written over, are as many as at the start: a copy or a release
  -- never makes a second owner of a message, and never loses it.
  pub owners-moves :
      (ms : List Move) (h : Holders P) → owners (moves ms h) + all_overwritten ms h ≡ owners h
  owners-moves [] h = omega arith
  owners-moves (m ∷ ms) h = omega (arith, owners-moves ms (move m h), owners-move m h)

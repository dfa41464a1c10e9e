-- ===== src/Base/Lists.antt =====
-- Lists measured by native numbers, under the library's names, and predicates on all elements.
use Prim.Native.Nat.{ℕ, zero, suc, ◌+◌, ◌≤◌}
use mathlib.Core.Path.{◌≡◌, refl, ap, ap₂}
use mathlib.Core.List.{List, [], ◌∷◌, ◌++◌, map}
use mathlib.Core.Logic.{◌⊎◌, inl, inr}
use mathlib.Core.Bool.{Bool}
use native.Mathlib.Omega.{arith}
use myg3log.Base.Tests.{if◌then◌else◌}

module _ {ℓ} {A : Type ℓ} where
  abbrev pub length : List A → ℕ
  length [] = 0
  length (x ∷ xs) = suc (length xs)

  abbrev pub take : ℕ → List A → List A
  take zero xs = []
  take (suc n) [] = []
  take (suc n) (x ∷ xs) = x ∷ take n xs

  abbrev pub drop : ℕ → List A → List A
  drop zero xs = xs
  drop (suc n) [] = []
  drop (suc n) (x ∷ xs) = drop n xs

  abbrev pub replicate : ℕ → A → List A
  replicate zero a = []
  replicate (suc n) a = a ∷ replicate n a

  pub length-append : (xs ys : List A) → length (xs ++ ys) ≡ length xs + length ys
  length-append [] ys = omega arith
  length-append (x ∷ xs) ys = omega (arith, length-append xs ys)

  pub length-replicate : (n : ℕ) (a : A) → length (replicate n a) ≡ n
  length-replicate zero a = refl
  length-replicate (suc n) a = ap suc (length-replicate n a)

  pub take-append-drop : (n : ℕ) (xs : List A) → take n xs ++ drop n xs ≡ xs
  take-append-drop zero xs = refl
  take-append-drop (suc n) [] = refl
  take-append-drop (suc n) (x ∷ xs) = ap (◌∷◌ x) (take-append-drop n xs)

  pub take-append_length : (xs ys : List A) → take (length xs) (xs ++ ys) ≡ xs
  take-append_length [] ys = refl
  take-append_length (x ∷ xs) ys = ap (◌∷◌ x) (take-append_length xs ys)

  pub drop-append_length : (xs ys : List A) → drop (length xs) (xs ++ ys) ≡ ys
  drop-append_length [] ys = refl
  drop-append_length (x ∷ xs) ys = drop-append_length xs ys

  pub drop-append : (xs ys : List A) (k : ℕ) → drop (length xs + k) (xs ++ ys) ≡ drop k ys
  drop-append [] ys k = let e : 0 + k ≡ k = omega arith in rw e
  drop-append (x ∷ xs) ys k =
      let e : suc (length xs) + k ≡ suc (length xs + k) = omega arith in rw e (drop-append xs ys k)

  pub take_all : (n : ℕ) (xs : List A) → length xs ≤ n → take n xs ≡ xs
  take_all zero [] h = refl
  take_all zero (x ∷ xs) h = absurd (omega arith)
  take_all (suc n) [] h = refl
  take_all (suc n) (x ∷ xs) h = ap (◌∷◌ x) (take_all n xs (omega arith))

  -- The elements that pass a test, in order.
  abbrev pub keep : (A → Bool) → List A → List A
  keep p [] = []
  keep p (x ∷ xs) = if p x then x ∷ keep p xs else keep p xs

  pub keep-append : (p : A → Bool) (xs ys : List A) → keep p (xs ++ ys) ≡ keep p xs ++ keep p ys
  keep-append p [] ys = refl
  keep-append p (x ∷ xs) ys = ground (arith, keep-append p xs ys)

module _ {ℓ κ} {A : Type ℓ} (P : A → Type κ) where
  abbrev pub All : List A → Type κ
  All [] = Unit
  All (x ∷ xs) = P x × All xs

  pub All-append : (xs ys : List A) → All xs → All ys → All (xs ++ ys)
  All-append [] ys hx hy = hy
  All-append (x ∷ xs) ys (px, hx) hy = (px, All-append xs ys hx hy)

pub All-map {ℓ κ} :
    {A : Type ℓ} {P Q : A → Type κ} (f : (a : A) → P a → Q a) (xs : List A) → All P xs → All Q xs
All-map f [] h = tt
All-map f (x ∷ xs) h = (f x h.0, All-map f xs h.1)

pub map_compose {ℓ} :
    {A B C : Type ℓ} (f : B → C) (g : A → B) (h : A → C)
    → ((a : A) → f (g a) ≡ h a)
    → (xs : List A) → map f (map g xs) ≡ map h xs
map_compose f g h e [] = refl
map_compose f g h e (x ∷ xs) = ap₂ ◌∷◌ (e x) (map_compose f g h e xs)

pub map_id {ℓ} : {A : Type ℓ} (xs : List A) → map (λ x. x) xs ≡ xs
map_id [] = refl
map_id (x ∷ xs) = ap (◌∷◌ x) (map_id xs)

pub List-cases {ℓ} :
    {A : Type ℓ} (xs : List A) → (xs ≡ []) ⊎ ((x : A) × (ys : List A) × (xs ≡ x ∷ ys))
List-cases [] = inl refl
List-cases (x ∷ xs) = inr (x, xs, refl)

-- Two lists of one length whose elements are related place by place.
module _ {ℓ κ} {A : Type ℓ} {B : Type κ} (P : A → B → Type 0) where
  abbrev pub Pointwise : List A → List B → Type 0
  Pointwise [] [] = Unit
  Pointwise [] (q ∷ qs) = ⊥
  Pointwise (p ∷ ps) [] = ⊥
  Pointwise (p ∷ ps) (q ∷ qs) = P p q × Pointwise ps qs

  pub Pointwise-append :
      (ps rs : List A) (qs ts : List B)
      → Pointwise ps qs
      → Pointwise rs ts
      → Pointwise (ps ++ rs) (qs ++ ts)
  Pointwise-append [] rs [] ts h k = k
  Pointwise-append [] rs (q ∷ qs) ts h k = absurd h
  Pointwise-append (p ∷ ps) rs [] ts h k = absurd h
  Pointwise-append (p ∷ ps) rs (q ∷ qs) ts h k = (h.0, Pointwise-append ps rs qs ts h.1 k)

  -- One element of the second list is changed.
  pub Pointwise-change :
      (ps : List A) (xs : List B) (q q' : B) (ys : List B)
      → ((p : A) → P p q → P p q')
      → Pointwise ps (xs ++ q ∷ ys)
      → Pointwise ps (xs ++ q' ∷ ys)
  Pointwise-change [] [] q q' ys f h = absurd h
  Pointwise-change [] (x ∷ xs) q q' ys f h = absurd h
  Pointwise-change (p ∷ ps) [] q q' ys f h = (f p h.0, h.1)
  Pointwise-change (p ∷ ps) (x ∷ xs) q q' ys f h = (h.0, Pointwise-change ps xs q q' ys f h.1)

module _ {ℓ κ μ ν} {A : Type ℓ} {B : Type κ} {C : Type μ} {D : Type ν} (P : A → B → Type 0)
    (Q : C → D → Type 0) where
  pub Pointwise-map :
      (f : A → C) (g : B → D)
      → ((p : A) (q : B) → P p q → Q (f p) (g q))
      → (ps : List A) (qs : List B) → Pointwise P ps qs
      → Pointwise Q (map f ps) (map g qs)
  Pointwise-map f g h [] [] r = r
  Pointwise-map f g h [] (q ∷ qs) r = absurd r
  Pointwise-map f g h (p ∷ ps) [] r = absurd r
  Pointwise-map f g h (p ∷ ps) (q ∷ qs) r = (h p q r.0, Pointwise-map f g h ps qs r.1)

-- ===== src/Prelude/Lists.antt =====
-- Lists measured by native numbers, and predicates on lists by recursion, which the tactics read.
use Prim.Native.Nat.{ℕ, zero, suc, ◌+◌, ◌-◌, ◌≤◌}
use mathlib.Core.Path.{◌≡◌, refl, ap, sym, ◌∙◌}
use mathlib.Core.Logic.{◌⊎◌, inl, inr}
use mathlib.Core.Bool.{Bool, true}
use mathlib.Core.List.{List, [], ◌∷◌, ◌++◌, map}
use native.Mathlib.Omega.{arith}
use cubepilot.Prelude.Tests.{if◌then◌else◌, Bool-cases}

module _ {ℓ} {A : Type ℓ} where
  abbrev pub length : List A → ℕ
  length [] = 0
  length (x ∷ xs) = suc (length xs)

  abbrev pub take : ℕ → List A → List A
  take zero xs = []
  take (suc n) [] = []
  take (suc n) (x ∷ xs) = x ∷ take n xs

  abbrev pub drop : ℕ → List A → List A
  drop zero xs = xs
  drop (suc n) [] = []
  drop (suc n) (x ∷ xs) = drop n xs

  abbrev pub replicate : ℕ → A → List A
  replicate zero a = []
  replicate (suc n) a = a ∷ replicate n a

  -- The library's `filter` takes a decision; the source's tests are Boolean.
  abbrev pub filter : (A → Bool) → List A → List A
  filter p [] = []
  filter p (x ∷ xs) = let rest = filter p xs in if p x then x ∷ rest else rest

  pub length-append : (xs ys : List A) → length (xs ++ ys) ≡ length xs + length ys
  length-append [] ys = omega arith
  length-append (x ∷ xs) ys = omega (arith, length-append xs ys)

  pub length-drop : (n : ℕ) (xs : List A) → length (drop n xs) ≡ length xs - n
  length-drop zero xs = omega arith
  length-drop (suc n) [] = omega arith
  length-drop (suc n) (x ∷ xs) = omega (arith, length-drop n xs)

  pub length-filter-le : (p : A → Bool) (xs : List A) → length (filter p xs) ≤ length xs
  length-filter-le p [] = omega arith
  length-filter-le p (x ∷ xs) = ground (arith, length-filter-le p xs)

-- `P` holds of every member.
abbrev pub All {ℓ} : {A : Type ℓ} → (A → Type 0) → List A → Type 0
All P [] = Unit
All P (x ∷ xs) = P x × All P xs

module _ {A : Type 0} where
  -- `a` is one of the members.
  abbrev pub Elem : A → List A → Type 0
  Elem a [] = ⊥
  Elem a (x ∷ xs) = (a ≡ x) ⊎ Elem a xs

  -- No member occurs twice.
  abbrev pub Distinct : List A → Type 0
  Distinct [] = Unit
  Distinct (x ∷ xs) = ¬ Elem x xs × Distinct xs

  pub Elem-append_left : (a : A) (xs ys : List A) → Elem a xs → Elem a (xs ++ ys)
  Elem-append_left a [] ys h = absurd h
  Elem-append_left a (x ∷ xs) ys (inl e) = inl e
  Elem-append_left a (x ∷ xs) ys (inr h) = inr (Elem-append_left a xs ys h)

  pub Elem-append_right : (a : A) (xs ys : List A) → Elem a ys → Elem a (xs ++ ys)
  Elem-append_right a [] ys h = h
  Elem-append_right a (x ∷ xs) ys h = inr (Elem-append_right a xs ys h)

  pub Elem-append_cases : (a : A) (xs ys : List A) → Elem a (xs ++ ys) → Elem a xs ⊎ Elem a ys
  Elem-append_cases a [] ys h = inr h
  Elem-append_cases a (x ∷ xs) ys (inl e) = inl (inl e)
  Elem-append_cases a (x ∷ xs) ys (inr h) = elim (Elem-append_cases a xs ys h) [
    | inl l ↦ inl (inr l)
    | inr r ↦ inr r
  ]

  pub Elem-filter :
      (a : A) (p : A → Bool) (xs : List A) → Elem a (filter p xs) → Elem a xs × (p a ≡ true)
  Elem-filter a p [] h = absurd h
  Elem-filter a p (x ∷ xs) h = elim (Bool-cases (p x)) [
    | inl t ↦ elim (rw t at h) [
      | inl e ↦ (inl e, rw e t)
      | inr r ↦ (inr (Elem-filter a p xs r).0, (Elem-filter a p xs r).1)
    ]
    | inr f ↦ (inr (Elem-filter a p xs (rw f at h)).0, (Elem-filter a p xs (rw f at h)).1)
  ]

  pub Elem-filter_intro :
      (a : A) (p : A → Bool) (xs : List A) → Elem a xs → p a ≡ true → Elem a (filter p xs)
  Elem-filter_intro a p [] h t = absurd h
  Elem-filter_intro a p (x ∷ xs) (inl e) t = rw (ap p (sym e) ∙ t) (inl e)
  Elem-filter_intro a p (x ∷ xs) (inr h) t = elim (Bool-cases (p x)) [
    | inl u ↦ rw u (inr (Elem-filter_intro a p xs h t))
    | inr u ↦ rw u (Elem-filter_intro a p xs h t)
  ]

  pub Distinct-append : (xs : List A) (a : A) → Distinct xs → ¬ Elem a xs → Distinct (xs ++ a ∷ [])
  Distinct-append [] a d n = (λ h. h, tt)
  Distinct-append (x ∷ xs) a (nx, d) n = (
    λ h. elim (Elem-append_cases x xs (a ∷ []) h) [
      | inl l ↦ nx l
      | inr (inl e) ↦ n (inl (sym e))
      | inr (inr w) ↦ w
    ],
    Distinct-append xs a d (λ h. n (inr h)),
  )

module _ {A B : Type 0} (f : A → B) where
  pub Elem-map : (a : A) (xs : List A) → Elem a xs → Elem (f a) (map f xs)
  Elem-map a [] h = absurd h
  Elem-map a (x ∷ xs) (inl e) = inl (ap f e)
  Elem-map a (x ∷ xs) (inr h) = inr (Elem-map a xs h)

  pub Elem-map_inv : (b : B) (xs : List A) → Elem b (map f xs) → (a : A) × Elem a xs × (b ≡ f a)
  Elem-map_inv b [] h = absurd h
  Elem-map_inv b (x ∷ xs) (inl e) = (x, inl refl, e)
  Elem-map_inv b (x ∷ xs) (inr h) = let (a, m, e) = Elem-map_inv b xs h in (a, inr m, e)

module _ {A : Type 0} (P : A → Type 0) where
  pub All-elem : (a : A) (xs : List A) → All P xs → Elem a xs → P a
  All-elem a [] h m = absurd m
  All-elem a (x ∷ xs) (p, h) (inl e) = rw e p
  All-elem a (x ∷ xs) (p, h) (inr m) = All-elem a xs h m

  pub Elem-All : (xs : List A) → ((a : A) → Elem a xs → P a) → All P xs
  Elem-All [] h = tt
  Elem-All (x ∷ xs) h = (h x (inl refl), Elem-All xs (λ a m. h a (inr m)))

  pub All-append : (xs ys : List A) → All P xs → All P ys → All P (xs ++ ys)
  All-append [] ys _ hy = hy
  All-append (x ∷ xs) ys (px, hx) hy = (px, All-append xs ys hx hy)

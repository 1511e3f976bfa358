-- ===== src/Prelude/Sorting.antt =====
-- sort.Slice and sort.Strings, as insertion sort over the program's own test `less`.
use Prim.Native.Nat.{suc}
use mathlib.Core.Path.{◌≡◌, refl, ap, ◌∙◌}
use mathlib.Core.Logic.{◌⊎◌, inl, inr}
use mathlib.Core.Bool.{Bool, true, false, ◌||◌, ◌&&◌}
use mathlib.Core.List.{List, [], ◌∷◌}
use native.Mathlib.Omega.{arith}
use cubepilot.Prelude.Tests.{if◌then◌else◌, Bool-cases, ltb, ◌==◌}
use cubepilot.Prelude.Lists.{Elem, All, length, filter}
use cubepilot.Prelude.Texts.{Text}

module _ {A : Type 0} (less : A → A → Bool) where
  unfoldable pub insert_sorted : A → List A → List A
  insert_sorted x [] = x ∷ []
  insert_sorted x (y ∷ ys) =
      let rest = insert_sorted x ys in if less y x then y ∷ rest else x ∷ y ∷ ys

  unfoldable pub sort : List A → List A
  unfolding insert_sorted
  sort [] = []
  sort (x ∷ xs) = insert_sorted x (sort xs)

  -- No member comes before one that is less.
  abbrev pub IsSorted : List A → Type 0
  IsSorted [] = Unit
  IsSorted (x ∷ xs) = All (λ y. less y x ≡ false) xs × IsSorted xs

  Elem-insert_sorted_inv :
      (a x : A) (xs : List A) → Elem a (insert_sorted x xs) → (a ≡ x) ⊎ Elem a xs
  unfolding insert_sorted
  Elem-insert_sorted_inv a x [] (inl e) = inl e
  Elem-insert_sorted_inv a x [] (inr w) = absurd w
  Elem-insert_sorted_inv a x (y ∷ ys) h = elim (Bool-cases (less y x)) [
    | inr f ↦ rw f at h
    | inl t ↦ elim (rw t at h) [
      | inl e ↦ inr (inl e)
      | inr r ↦ elim (Elem-insert_sorted_inv a x ys r) [ inl e ↦ inl e | inr m ↦ inr (inr m) ]
    ]
  ]

  Elem-insert_sorted : (a x : A) (xs : List A) → (a ≡ x) ⊎ Elem a xs → Elem a (insert_sorted x xs)
  unfolding insert_sorted
  Elem-insert_sorted a x [] h = h
  Elem-insert_sorted a x (y ∷ ys) h = elim (Bool-cases (less y x)) [
    | inr f ↦ rw f h
    | inl t ↦ rw t (elim h [
      | inl e ↦ inr (Elem-insert_sorted a x ys (inl e))
      | inr (inl e) ↦ inl e
      | inr (inr m) ↦ inr (Elem-insert_sorted a x ys (inr m))
    ])
  ]

  pub Elem-sort_inv : (a : A) (xs : List A) → Elem a (sort xs) → Elem a xs
  unfolding sort
  Elem-sort_inv a [] h = h
  Elem-sort_inv a (x ∷ xs) h = elim (Elem-insert_sorted_inv a x (sort xs) h) [
    | inl e ↦ inl e
    | inr m ↦ inr (Elem-sort_inv a xs m)
  ]

  pub Elem-sort : (a : A) (xs : List A) → Elem a xs → Elem a (sort xs)
  unfolding sort
  Elem-sort a [] h = h
  Elem-sort a (x ∷ xs) (inl e) = Elem-insert_sorted a x (sort xs) (inl e)
  Elem-sort a (x ∷ xs) (inr m) = Elem-insert_sorted a x (sort xs) (inr (Elem-sort a xs m))

  length-insert_sorted : (x : A) (xs : List A) → length (insert_sorted x xs) ≡ suc (length xs)
  unfolding insert_sorted
  length-insert_sorted x [] = refl
  length-insert_sorted x (y ∷ ys) = ground (arith, length-insert_sorted x ys)

  pub length-sort : (xs : List A) → length (sort xs) ≡ length xs
  unfolding sort
  length-sort [] = refl
  length-sort (x ∷ xs) = length-insert_sorted x (sort xs) ∙ ap suc (length-sort xs)

  -- The sort is stable: members that no member of their kind is less than keep their order.
  module _ (p : A → Bool) (even : (a b : A) → p a ≡ true → p b ≡ true → less a b ≡ false) where
    filter-insert_sorted : (x : A) (ys : List A) → filter p (insert_sorted x ys) ≡ filter p (x ∷ ys)
    unfolding insert_sorted
    filter-insert_sorted x [] = refl
    filter-insert_sorted x (y ∷ ys) = ground (arith, filter-insert_sorted x ys, even y x)

    pub filter-sort : (xs : List A) → filter p (sort xs) ≡ filter p xs
    unfolding sort
    filter-sort [] = refl
    filter-sort (x ∷ xs) = ground (arith, filter-insert_sorted x (sort xs), filter-sort xs)

  All-insert_sorted :
      (P : A → Type 0) (x : A) (xs : List A) → P x → All P xs → All P (insert_sorted x xs)
  unfolding insert_sorted
  All-insert_sorted P x [] p h = (p, tt)
  All-insert_sorted P x (y ∷ ys) p (py, h) = elim (Bool-cases (less y x)) [
    | inl t ↦ rw t (py, All-insert_sorted P x ys p h)
    | inr f ↦ rw f (p, (py, h))
  ]

  -- What the test has to satisfy: it is asymmetric, and its negation is transitive.
  module _ (asym : (a b : A) → less a b ≡ true → less b a ≡ false)
      (trans : (a b c : A) → less c b ≡ false → less b a ≡ false → less c a ≡ false) where
    All-trans :
        (x y : A) (ys : List A)
        → less y x ≡ false
        → All (λ z. less z y ≡ false) ys
        → All (λ z. less z x ≡ false) ys
    All-trans x y [] h a = tt
    All-trans x y (z ∷ zs) h (p, a) = (trans x y z p h, All-trans x y zs h a)

    insert_sorted-IsSorted : (x : A) (xs : List A) → IsSorted xs → IsSorted (insert_sorted x xs)
    unfolding insert_sorted
    insert_sorted-IsSorted x [] s = (tt, tt)
    insert_sorted-IsSorted x (y ∷ ys) (a, s) = elim (Bool-cases (less y x)) [
      | inl t ↦ rw t (
        All-insert_sorted (λ z. less z y ≡ false) x ys (asym y x t) a,
        insert_sorted-IsSorted x ys s,
      )
      | inr f ↦ rw f ((f, All-trans x y ys f a), (a, s))
    ]

    pub sort-IsSorted : (xs : List A) → IsSorted (sort xs)
    unfolding sort
    sort-IsSorted [] = tt
    sort-IsSorted (x ∷ xs) = insert_sorted-IsSorted x (sort xs) (sort-IsSorted xs)

-- `a < b` on strings
unfoldable pub text_lt : Text → Text → Bool
text_lt a [] = false
text_lt [] (y ∷ b) = true
text_lt (x ∷ a) (y ∷ b) = ltb x y || (x == y && text_lt a b)

pub text_lt_asym : (a b : Text) → text_lt a b ≡ true → text_lt b a ≡ false
unfolding text_lt
text_lt_asym a [] h = cc
text_lt_asym [] (y ∷ b) h = refl
text_lt_asym (x ∷ a) (y ∷ b) h = ground (arith, text_lt_asym a b)

pub text_lt_trans : (a b c : Text) → text_lt c b ≡ false → text_lt b a ≡ false → text_lt c a ≡ false
unfolding text_lt
text_lt_trans [] b c p q = ground arith
text_lt_trans (x ∷ a) [] c p q = ground arith
text_lt_trans (x ∷ a) (y ∷ b) [] p q = ground arith
text_lt_trans (x ∷ a) (y ∷ b) (z ∷ c) p q = ground (arith, text_lt_trans a b c)

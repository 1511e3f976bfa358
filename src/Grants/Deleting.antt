-- ===== src/Grants/Deleting.antt =====
-- Many deletions from the stored grants, and the order in which evict takes them.
use cubepilot.Prelude.{
  ◌≡◌, refl, sym, ◌∙◌, ◌⊎◌, inl, inr, false, List, [], ◌∷◌, ◌++◌, map, none, arith, Text,
  text_eq_iff, text_eq_refl, text_eq_cases, Table, lookup, delete, lookup-delete, Elem,
  Elem-append_right, All-elem,
}
use cubepilot.Prelude.Sorting.{IsSorted}
use cubepilot.Grants.{Keyed, keyed_less}

unfoldable pub delete_all : List Keyed → Table Text → Table Text
delete_all [] m = m
delete_all (e ∷ es) m = delete_all es (delete e.key m)

abbrev pub keys : List Keyed → List Text
keys = map (λ (e : Keyed). e.key)

pub lookup-delete_all_gone :
    (k : Text) (es : List Keyed) (m : Table Text)
    → lookup k m ≡ none ⊎ Elem k (keys es)
    → lookup k (delete_all es m) ≡ none
unfolding delete_all
lookup-delete_all_gone k [] m (inl h) = h
lookup-delete_all_gone k [] m (inr h) = absurd h
lookup-delete_all_gone k (e ∷ es) m h = lookup-delete_all_gone k es (delete e.key m) (next h)
  where
    next :
        lookup k m ≡ none ⊎ Elem k (keys (e ∷ es))
        → lookup k (delete e.key m) ≡ none ⊎ Elem k (keys es)
    next (inl n) = inl (ground (arith, lookup-delete e.key k m))
    next (inr (inl p)) = inl (ground (arith, lookup-delete e.key k m, text_eq_iff e.key k))
    next (inr (inr i)) = inr i

pub lookup-delete_all_kept :
    (k : Text) (es : List Keyed) (m : Table Text)
    → ¬ Elem k (keys es)
    → lookup k (delete_all es m) ≡ lookup k m
unfolding delete_all
lookup-delete_all_kept k [] m h = refl
lookup-delete_all_kept k (e ∷ es) m h =
    lookup-delete_all_kept k es (delete e.key m) (λ i. h (inr i)) ∙ (elim (text_eq_cases e.key k) [
      | inl (p, t) ↦ absurd (h (inl (sym p)))
      | inr (n, f) ↦ rw (lookup-delete e.key k m, f)
    ])

-- A table in which no key is found is empty.
pub lookup-none : (m : Table Text) → ((k : Text) → lookup k m ≡ none) → m ≡ []
unfolding lookup
lookup-none [] h = refl
lookup-none ((k, v) ∷ m) h = cc (rw (text_eq_refl k) at (h k))

pub IsSorted-append :
    (e e' : Keyed) (gone kept : List Keyed)
    → IsSorted keyed_less (gone ++ kept)
    → Elem e gone
    → Elem e' kept
    → keyed_less e' e ≡ false
IsSorted-append e e' [] kept s h i = absurd h
IsSorted-append e e' (x ∷ gone) kept (a, s) (inl p) i = rw p (
    All-elem (λ (y : Keyed). keyed_less y x ≡ false) e' (gone ++ kept) a
      (Elem-append_right e' gone kept i))
IsSorted-append e e' (x ∷ gone) kept (a, s) (inr h) i = IsSorted-append e e' gone kept s h i

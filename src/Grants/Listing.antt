-- ===== src/Grants/Listing.antt =====
-- List: the grants in the order in which they were recorded.
use cubepilot.Prelude.{
  ◌≡◌, refl, sym, ap, ◌∙◌, inl, inr, ◌↔◌, true, false, [], ◌∷◌, some, arith, Text, is_empty, Table,
  Elem, Bool-cases, Option-cases,
}
use cubepilot.Prelude.Sorting.{
  IsSorted, sort-IsSorted, Elem-sort, Elem-sort_inv, text_lt_asym, text_lt_trans,
}
use cubepilot.Grants.{GrantRecord, Codec, record_less, decoded, list}

record_less_asym : (a b : GrantRecord) → record_less a b ≡ true → record_less b a ≡ false
unfolding record_less
record_less_asym a b h = ground (arith, text_lt_asym a.pattern b.pattern)

record_less_trans :
    (a b d : GrantRecord)
    → record_less d b ≡ false
    → record_less b a ≡ false
    → record_less d a ≡ false
unfolding record_less
record_less_trans a b d p q = ground (arith, text_lt_trans a.pattern b.pattern d.pattern)

module _ (c : Codec) where
  -- A stored value that List shows.
  abbrev pub Shows : Text × Text → GrantRecord → Type 0
  Shows e r = (c.decode e.1 ≡ some r) × (is_empty r.pattern ≡ false)

  decoded_sound :
      (r : GrantRecord) (m : Table Text)
      → Elem r (decoded c m)
      → (e : Text × Text) × Elem e m × Shows e r
  unfolding decoded
  decoded_sound r [] h = absurd h
  decoded_sound r ((k, raw) ∷ m) h = elim (Option-cases (c.decode raw)) [
    | inl n ↦ let (e, i, s) = decoded_sound r m (rw (n, decoded) at h) in (e, inr i, s)
    | inr (x, d) ↦ elim (Bool-cases (is_empty x.pattern)) [
      | inl t ↦ let (e, i, s) = decoded_sound r m (rw (d, t, decoded) at h) in (e, inr i, s)
      | inr f ↦ elim (rw (d, f, decoded) at h) [
        | inl p ↦ (
          (k, raw),
          inl refl,
          (d ∙ ap (λ z. some z) (sym p), ap (λ (z : GrantRecord). is_empty z.pattern) p ∙ f),
        )
        | inr i ↦ let (e, j, s) = decoded_sound r m i in (e, inr j, s)
      ]
    ]
  ]

  decoded_complete :
      (r : GrantRecord) (e : Text × Text) (m : Table Text)
      → Elem e m
      → Shows e r
      → Elem r (decoded c m)
  unfolding decoded
  decoded_complete r e [] h s = absurd h
  decoded_complete r e ((k, raw) ∷ m) (inl p) (d, n) =
      let w : c.decode raw ≡ some r = ap (λ (x : Text × Text). c.decode x.1) (sym p) ∙ d in
      rw (w, n, decoded) (inl refl)
  decoded_complete r e ((k, raw) ∷ m) (inr i) s = elim (Option-cases (c.decode raw)) [
    | inl n ↦ rw (n, decoded) (decoded_complete r e m i s)
    | inr (x, d) ↦ elim (Bool-cases (is_empty x.pattern)) [
      | inl t ↦ rw (d, t, decoded) (decoded_complete r e m i s)
      | inr f ↦ rw (d, f, decoded) (inr (decoded_complete r e m i s))
    ]
  ]

  -- The list holds exactly the records of the stored values that decode to a named rule, and none
  -- of them comes after a younger one or, at one instant, after one of a greater pattern.
  pub list_lem :
      (m : Table Text)
      → IsSorted record_less (list c m)
        × ((r : GrantRecord) → Elem r (list c m) ↔ ((e : Text × Text) × Elem e m × Shows e r))
  unfolding list
  list_lem m = (
    sort-IsSorted record_less record_less_asym record_less_trans (decoded c m),
    λ r. (
      λ h. decoded_sound r m (Elem-sort_inv record_less r (decoded c m) h),
      λ (e, i, s). Elem-sort record_less r (decoded c m) (decoded_complete r e m i s),
    ),
  )

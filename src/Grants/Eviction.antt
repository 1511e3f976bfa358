-- ===== src/Grants/Eviction.antt =====
-- evict: which grants go when a user has too many.
use cubepilot.Prelude.{
  ℕ, ◌≤◌, ◌≡◌, refl, sym, ap, subst, ◌∙◌, ◌⊎◌, inl, inr, true, false, List, [], ◌∷◌, ◌++◌, map,
  none, some, arith, Text, text_eq_iff, text_eq_cases, length, Table, lookup, delete, Elem,
  Elem-map, Elem-map_inv, Elem-append_cases, Elem-append_left, Distinct, Option-cases, append-nil,
  contains, contains→Elem, Elem→contains, Bool-cases,
}
use cubepilot.Prelude.Sorting.{sort, IsSorted, sort-IsSorted, Elem-sort, Elem-sort_inv}
use cubepilot.Grants.{
  GrantRecord, Codec, Keyed, keyed_less, data_size, decodable, keyed, over, drop_oldest, evict,
}
use cubepilot.Grants.Deleting.{
  delete_all, keys, lookup-delete_all_gone, lookup-delete_all_kept, lookup-none, IsSorted-append,
}

module _ (c : Codec) (max budget : ℕ) where
  -- The loop deletes a front part of the list, and stops only where the rest fits or none is left.
  drop_oldest_lem :
      (es : List Keyed) (m : Table Text)
      → (gone : List Keyed) × (kept : List Keyed) × (es ≡ gone ++ kept)
        × (drop_oldest c max budget es m ≡ delete_all gone m)
        × ((kept ≡ []) ⊎ (over c max budget (delete_all gone m) ≡ false))
  unfolding drop_oldest delete_all
  drop_oldest_lem [] m = ([], [], refl, refl, inl refl)
  drop_oldest_lem (e ∷ es) m = elim (Bool-cases (over c max budget m)) [
    | inr f ↦ ([], e ∷ es, refl, rw f, inr f)
    | inl t ↦
        let (gone, kept, p, q, r) = drop_oldest_lem es (delete e.key m) in
        (e ∷ gone, kept, ap (λ z. e ∷ z) p, rw t q, r)
  ]

  sorted : (m : Table Text) → IsSorted keyed_less (sort keyed_less (keyed c m))
  sorted m =
      sort-IsSorted keyed_less (λ a b h. ground arith) (λ a b d p q. ground arith) (keyed c m)

  entry_cases :
      (j v : Text) (m : Table Text)
      → ((c.decode v ≡ none)
          × (decodable c ((j, v) ∷ m) ≡ decodable c m)
          × (keyed c ((j, v) ∷ m) ≡ keyed c m))
        ⊎ ((r : GrantRecord) × (c.decode v ≡ some r)
            × (decodable c ((j, v) ∷ m) ≡ (j, v) ∷ decodable c m)
            × (keyed c ((j, v) ∷ m) ≡ record { key = j; at = r.created_at } ∷ keyed c m))
  unfolding decodable keyed
  entry_cases j v m = elim (Option-cases (c.decode v)) [
    | inl e ↦ inl (e, rw (e, decodable), rw (e, keyed))
    | inr (r, e) ↦ inr (r, e, rw (e, decodable), rw (e, keyed))
  ]

  decodable-nil : decodable c [] ≡ []
  unfolding decodable
  decodable-nil = refl

  decodable-keyed :
      (k raw : Text) (m : Table Text)
      → lookup k (decodable c m) ≡ some raw
      → (r : GrantRecord) × (c.decode raw ≡ some r)
        × Elem (record { key = k; at = r.created_at }) (keyed c m)
  unfolding lookup
  decodable-keyed k raw [] h = let w : none ≡ some raw = rw decodable-nil at h in cc
  decodable-keyed k raw ((j, v) ∷ m) h = elim (entry_cases j v m) [
    | inl (e, p, q) ↦ rw q (decodable-keyed k raw m (rw p at h))
    | inr (r, e, p, q) ↦ elim (text_eq_cases j k) [
      | inr (n, f) ↦
          let (r', d, i) = decodable-keyed k raw m (rw f at (rw p at h)) in (r', d, rw q (inr i))
      | inl (s, t) ↦
          let w : some v ≡ some raw = rw t at (rw p at h) in
          (r, cc, rw q (inl (λ i. record { key = sym s i; at = r.created_at })))
    ]
  ]

  lookup-decodable :
      (k raw : Text) (r : GrantRecord) (m : Table Text)
      → lookup k m ≡ some raw
      → c.decode raw ≡ some r
      → lookup k (decodable c m) ≡ some raw
  unfolding lookup decodable
  lookup-decodable k raw r [] h d = cc
  lookup-decodable k raw r ((j, v) ∷ m) h d =
      ground (arith, lookup-decodable k raw r m, text_eq_iff j k)

  -- The deletions of the whole list leave nothing.
  delete_all-decodable :
      (m : Table Text) → delete_all (sort keyed_less (keyed c m)) (decodable c m) ≡ []
  delete_all-decodable m = lookup-none _ λ k. lookup-delete_all_gone k _ (decodable c m) (found k)
    where
      found :
          (k : Text) → lookup k (decodable c m) ≡ none ⊎ Elem k (keys (sort keyed_less (keyed c m)))
      found k = elim (Option-cases (lookup k (decodable c m))) [
        | inl n ↦ inl n
        | inr (raw, e) ↦
            let (r, d, i) = decodable-keyed k raw m e in
            inr (Elem-map (λ (x : Keyed). x.key) _ _ (Elem-sort keyed_less _ (keyed c m) i))
      ]

  over-false :
      (m : Table Text) → over c max budget m ≡ false → (length m ≤ max) × (data_size c m ≤ budget)
  over-false m h = ground arith

  keyed-nil : keyed c [] ≡ []
  unfolding keyed
  keyed-nil = refl

  drop_oldest_cases :
      (es : List Keyed) (m : Table Text)
      → (drop_oldest c max budget es m ≡ m) ⊎ (over c max budget m ≡ true)
  unfolding drop_oldest
  drop_oldest_cases [] m = inl refl
  drop_oldest_cases (e ∷ es) m = ground arith

  -- The eviction always ends with a table that fits both bounds, and says so, as long as an empty one
  -- fits the budget.
  pub evict-fits :
      (m : Table Text)
      → data_size c [] ≤ budget
      → ((evict c max budget m).1 ≡ true)
        × (length (evict c max budget m).0 ≤ max)
        × (data_size c (evict c max budget m).0 ≤ budget)
  unfolding evict
  evict-fits m h = ground (arith, fits.0, fits.1)
    where
      m' : Table Text
      m' = drop_oldest c max budget (sort keyed_less (keyed c m)) (decodable c m)

      fits : (length m' ≤ max) × (data_size c m' ≤ budget)
      fits =
          let (gone, kept, p, q, r) =
            drop_oldest_lem (sort keyed_less (keyed c m)) (decodable c m) in
          elim r [
            | inr f ↦ rw q (over-false _ f)
            | inl n ↦
                let all : sort keyed_less (keyed c m) ≡ gone =
                  p ∙ ap (λ z. gone ++ z) n ∙ append-nil gone in
                let z : m' ≡ [] =
                  q
                  ∙ ap (λ (g : List Keyed). delete_all g (decodable c m)) (sym all)
                  ∙ delete_all-decodable m in
                rw z (omega arith, h)
          ]

  -- A table that fits, once what does not decode is gone, loses nothing more.
  pub evict_fitting :
      (m : Table Text)
      → over c max budget (decodable c m) ≡ false
      → (evict c max budget m).0 ≡ decodable c m
  unfolding evict
  evict_fitting m h = elim (drop_oldest_cases (sort keyed_less (keyed c m)) (decodable c m)) [
    | inl e ↦ e
    | inr t ↦ cc
  ]

  key_unique :
      (e e' : Keyed) (es : List Keyed)
      → Distinct (keys es)
      → Elem e es
      → Elem e' es
      → e.key ≡ e'.key
      → e ≡ e'
  key_unique e e' [] d h h' p = absurd h
  key_unique e e' (x ∷ es) (n, d) (inl q) (inl q') p = q ∙ sym q'
  key_unique e e' (x ∷ es) (n, d) (inl q) (inr i) p = absurd (
      n (
        subst (λ z. Elem z (keys es)) (sym p ∙ ap (λ (y : Keyed). y.key) q)
          (Elem-map (λ (y : Keyed). y.key) e' es i)))
  key_unique e e' (x ∷ es) (n, d) (inr i) (inl q) p = absurd (
      n (
        subst (λ z. Elem z (keys es)) (p ∙ ap (λ (y : Keyed). y.key) q)
          (Elem-map (λ (y : Keyed). y.key) e es i)))
  key_unique e e' (x ∷ es) (n, d) (inr i) (inr i') p = key_unique e e' es d i i' p

  Elem-keyed :
      (k : Text) (m : Table Text)
      → Elem k (keys (keyed c m))
      → Elem k (map (λ (x : Text × Text). x.0) m)
  Elem-keyed k [] h = let w : Elem k (keys []) = rw keyed-nil at h in absurd w
  Elem-keyed k ((j, v) ∷ m) h = elim (entry_cases j v m) [
    | inl (e, p, q) ↦ inr (Elem-keyed k m (rw q at h))
    | inr (r, e, p, q) ↦ elim (rw q at h) [ inl t ↦ inl t | inr i ↦ inr (Elem-keyed k m i) ]
  ]

  keyed-Distinct :
      (m : Table Text) → Distinct (map (λ (x : Text × Text). x.0) m) → Distinct (keys (keyed c m))
  keyed-Distinct [] d = rw keyed-nil tt
  keyed-Distinct ((j, v) ∷ m) (n, d) = elim (entry_cases j v m) [
    | inl (e, p, q) ↦ rw q (keyed-Distinct m d)
    | inr (r, e, p, q) ↦ rw q ((λ i. n (Elem-keyed j m i)), keyed-Distinct m d)
  ]

  keyed-Elem :
      (k raw : Text) (r : GrantRecord) (m : Table Text)
      → lookup k (decodable c m) ≡ some raw
      → c.decode raw ≡ some r
      → Elem (record { key = k; at = r.created_at }) (sort keyed_less (keyed c m))
  keyed-Elem k raw r m h d =
      let (r0, d0, i) = decodable-keyed k raw m h in
      let same : r0.created_at ≡ r.created_at = cc in
      Elem-sort keyed_less _ (keyed c m)
        (subst (λ t. Elem {A = Keyed} (record { key = k; at = t }) (keyed c m)) same i)

  module _ (m : Table Text) (unique : Distinct (map (λ (x : Text × Text). x.0) m)) where
    -- In a split of the sorted entries at which the deletions stop, an entry that is gone is no
    -- younger than one that is kept.
    split-oldest :
        (gone kept : List Keyed)
        → sort keyed_less (keyed c m) ≡ gone ++ kept
        → (k raw : Text) (r : GrantRecord) (k' raw' : Text) (r' : GrantRecord)
        → lookup k (decodable c m) ≡ some raw
        → c.decode raw ≡ some r
        → lookup k (delete_all gone (decodable c m)) ≡ none
        → lookup k' (delete_all gone (decodable c m)) ≡ some raw'
        → c.decode raw' ≡ some r'
        → r.created_at ≤ r'.created_at
    split-oldest gone kept p k raw r k' raw' r' h d gone_k kept_k d' =
        let e : Keyed = record { key = k; at = r.created_at } in
        let e' : Keyed = record { key = k'; at = r'.created_at } in
        let (e0, i0, s0) = in_gone in
        let same : e ≡ e0 =
          key_unique e e0 (keyed c m) (keyed-Distinct m unique)
            (Elem-sort_inv keyed_less e (keyed c m) (keyed-Elem k raw r m h d))
            (Elem-sort_inv keyed_less e0 (keyed c m)
              (subst (Elem e0) (sym p) (Elem-append_left e0 gone kept i0)))
            s0 in
        let le =
          IsSorted-append e0 e' gone kept (subst (IsSorted keyed_less) p (sorted m)) i0 in_kept in
        ground (arith, le, ap (λ (x : Keyed). x.at) same)
      where
        in_gone : (e0 : Keyed) × Elem e0 gone × (k ≡ e0.key)
        in_gone = elim (Bool-cases (contains (keys gone) k)) [
          | inl t ↦ Elem-map_inv (λ (x : Keyed). x.key) k gone (contains→Elem (keys gone) k t)
          | inr f ↦ absurd (
              cc (
                h,
                gone_k,
                lookup-delete_all_kept k gone (decodable c m)
                    (λ i. cc (f, Elem→contains (keys gone) k i)),
              ))
        ]

        stays : ¬ Elem k' (keys gone)
        stays i = cc (kept_k, lookup-delete_all_gone k' gone (decodable c m) (inr i))

        in_kept : Elem {A = Keyed} (record { key = k'; at = r'.created_at }) kept
        in_kept =
            let found = sym (lookup-delete_all_kept k' gone (decodable c m) stays) ∙ kept_k in
            elim (Elem-append_cases _ gone kept
              (subst (Elem _) p (keyed-Elem k' raw' r' m found d'))) [
                | inl i ↦ absurd (stays (Elem-map (λ (x : Keyed). x.key) _ gone i))
                | inr i ↦ i
              ]

    -- Of two decoded grants of a table with distinct keys, one evicted and one kept, the one evicted
    -- is no younger.
    pub evict-oldest :
        (k raw : Text) (r : GrantRecord) (k' raw' : Text) (r' : GrantRecord)
        → lookup k m ≡ some raw
        → c.decode raw ≡ some r
        → lookup k (evict c max budget m).0 ≡ none
        → lookup k' (evict c max budget m).0 ≡ some raw'
        → c.decode raw' ≡ some r'
        → r.created_at ≤ r'.created_at
    unfolding evict
    evict-oldest k raw r k' raw' r' h d gone_k kept_k d' =
        let (gone, kept, p, q, _) = drop_oldest_lem (sort keyed_less (keyed c m)) (decodable c m) in
        split-oldest gone kept p k raw r k' raw' r' (lookup-decodable k raw r m h d) d
          (rw q at gone_k) (rw q at kept_k) d'

-- ===== src/Models/Refs.antt =====
-- The refs that the renderer allows and those that the resolver accepts.
use cubepilot.Prelude.{
  ◌≡◌, refl, sym, ap, subst, true, List, [], ◌∷◌, ◌++◌, map, some, Text, text_eq, text_eq_iff,
  contains, contains→Elem, Elem, Elem-append_left, Elem-append_right, Elem-append_cases, ◌⊎◌, inl,
  inr, ◌↔◌, Bool-cases, arith,
}
use cubepilot.Prelude.Sorting.{
  text_lt, IsSorted, sort-IsSorted, Elem-sort, Elem-sort_inv, text_lt_asym, text_lt_trans,
}
use cubepilot.Names.{Host}
use cubepilot.Models.{
  Provider, TemplateProviderSpec, model_key, refs, allow_refs, allow_loop, allow, serves,
  resolve_model,
}

module _ (h : Host) where
  -- A ref that some provider serves.
  abbrev pub Served : List Provider → Text → Type 0
  Served ps x = (p : Provider) × Elem p ps × Elem x (refs h p)

  allow_refs_iff :
      (x : Text) (ks out : List Text) → Elem x (allow_refs h ks out) ↔ (Elem x out ⊎ Elem x ks)
  unfolding allow_refs
  allow_refs_iff x [] out = (λ e. inl e, elim [ inl e ↦ e | inr e ↦ absurd e ])
  allow_refs_iff x (k ∷ ks) out = elim (Bool-cases (contains out k)) [
    | inl t ↦ rw t (
        let (f, g) = allow_refs_iff x ks out in
        (
          λ e. elim (f e) [ inl a ↦ inl a | inr b ↦ inr (inr b) ],
          elim [
            | inl a ↦ g (inl a)
            | inr (inl q) ↦ g (inl (subst (λ z. Elem z out) (sym q) (contains→Elem out k t)))
            | inr (inr b) ↦ g (inr b)
          ],
        ))
    | inr t ↦ rw t (
        let (f, g) = allow_refs_iff x ks (out ++ k ∷ []) in
        (
          λ e. elim (f e) [
            | inl a ↦ elim (Elem-append_cases x out (k ∷ []) a) [
              | inl b ↦ inl b
              | inr (inl q) ↦ inr (inl q)
              | inr (inr z) ↦ absurd z
            ]
            | inr b ↦ inr (inr b)
          ],
          elim [
            | inl a ↦ g (inl (Elem-append_left x out (k ∷ []) a))
            | inr (inl q) ↦ g (inl (Elem-append_right x out (k ∷ []) (inl q)))
            | inr (inr b) ↦ g (inr b)
          ],
        ))
  ]

  allow_loop_iff :
      (x : Text) (ps : List Provider) (out : List Text)
      → Elem x (allow_loop h ps out) ↔ (Elem x out ⊎ Served ps x)
  unfolding allow_loop
  allow_loop_iff x [] out = (λ e. inl e, elim [ inl e ↦ e | inr (p, m, e) ↦ absurd m ])
  allow_loop_iff x (p ∷ ps) out =
      let (f, g) = allow_loop_iff x ps (allow_refs h (refs h p) out) in
      let (f', g') = allow_refs_iff x (refs h p) out in
      (
        λ e. elim (f e) [
          | inl a ↦ elim (f' a) [ inl b ↦ inl b | inr b ↦ inr (p, inl refl, b) ]
          | inr (q, m, b) ↦ inr (q, inr m, b)
        ],
        elim [
          | inl a ↦ g (inl (g' (inl a)))
          | inr (q, inl m, b) ↦ g (inl (g' (inr (subst (λ (z : Provider). Elem x (refs h z)) m b))))
          | inr (q, inr m, b) ↦ g (inr (q, m, b))
        ],
      )

  -- The rendered allowlist of models is sorted, and holds exactly the refs of the models that the
  -- rendered providers serve.
  pub allow_lem :
      (ps : List Provider)
      → IsSorted text_lt (allow h ps) × ((x : Text) → Elem x (allow h ps) ↔ Served ps x)
  unfolding allow
  allow_lem ps = (
    sort-IsSorted text_lt text_lt_asym text_lt_trans (allow_loop h ps []),
    λ x.
        let (f, g) = allow_loop_iff x ps [] in
        (
          λ e. elim (f (Elem-sort_inv text_lt x (allow_loop h ps []) e)) [
            | inl a ↦ absurd a
            | inr b ↦ b
          ],
          λ e. Elem-sort text_lt x (allow_loop h ps []) (g (inr e)),
        ),
  )

  pub serves_iff :
      (name : Text) (ids : List Text) (x : Text)
      → (serves h name ids x ≡ true) ↔ Elem x (map (model_key h name) ids)
  unfolding serves
  serves_iff name [] x = (λ e. absurd (grind (arith, e)), λ e. absurd e)
  serves_iff name (id ∷ ids) x =
      let (f, g) = serves_iff name ids x in
      let (a, b) = text_eq_iff (model_key h name id) x in
      (
        λ e. elim (Bool-cases (text_eq (model_key h name id) x)) [
          | inl t ↦ inl (sym (a t))
          | inr t ↦ inr (f (grind (arith, e, t)))
        ],
        elim [ inl e ↦ grind (arith, b (sym e)) | inr e ↦ grind (arith, g e) ],
      )

  -- The resolver accepts a selection exactly if a provider of the template serves it, and then hands
  -- on that very ref: it never falls back to another model.
  pub resolve_model_lem :
      (selected r : Text) (prs : List TemplateProviderSpec)
      → (resolve_model h selected prs ≡ some r) ↔ (
          (r ≡ selected)
          × (pr : TemplateProviderSpec) × Elem pr prs
          × Elem selected (map (model_key h pr.name) pr.models))
  unfolding resolve_model
  resolve_model_lem selected r [] = (λ e. absurd (grind (arith, e)), λ (e, pr, m, s). absurd m)
  resolve_model_lem selected r (pr ∷ prs) =
      elim (Bool-cases (serves h pr.name pr.models selected)) [
        | inl t ↦ rw t (
          λ e. (grind (arith, e), pr, inl refl, (serves_iff pr.name pr.models selected).0 t),
          λ (e, _, _, _). ap (λ z. some z) (sym e),
        )
        | inr t ↦ rw t (
            let (f, g) = resolve_model_lem selected r prs in
            (
              λ e. let (p, q, m, s) = f e in (p, q, inr m, s),
              λ (p, q, m, s). elim m [
                | inl m ↦ absurd (
                    grind (
                      arith,
                      t,
                      (serves_iff pr.name pr.models selected).1 (
                          subst
                            (λ (z : TemplateProviderSpec).
                              Elem selected (map (model_key h z.name) z.models))
                            m s),
                    ))
                | inr m ↦ g (p, q, m, s)
              ],
            ))
      ]

-- ===== src/Models/Primary.antt =====
-- What the controller collects for the rendering: distinct providers, and a primary among their refs.
use cubepilot.Prelude.{
  ◌≡◌, ◌≢◌, refl, sym, ap, Bool, true, false, not, ◌&&◌, List, [], ◌∷◌, ◌++◌, map, map-append, Text,
  text_eq_cases, is_empty, lookup, insert, lookup-insert, Elem, Elem-append_left, Elem-append_right,
  Elem-append_cases, ◌⊎◌, inl, inr, if◌then◌else◌, Distinct, Distinct-append, Bool-cases, arith,
}
use cubepilot.Names.{Host, env_name_for_provider}
use cubepilot.Models.{
  Provider, TemplateProviderSpec, ModelTemplate, Collected, nothing_collected, secret_of, no_models,
  present, serves, collect_provider, collect_template, collect, first_ref, rendered_primary, allow,
}
use cubepilot.Models.Refs.{Served, serves_iff, allow_lem}

module _ (h : Host) where
  -- What holds of the collection after every provider.
  record IsCollected (c : Collected) : Type 0 where
    distinct : Distinct (map (λ (p : Provider). p.key) c.providers)
    claims :
        (k : Text)
        → Elem k (map (λ (p : Provider). p.key) c.providers)
        → present (lookup k c.claimed) ≡ true
    served : (c.primary ≡ []) ⊎ Served h c.providers c.primary
    modelled : (p : Provider) → Elem p c.providers → no_models p.models ≡ false

  Served-append :
      (ps : List Provider) (p : Provider) (x : Text) → Served h ps x → Served h (ps ++ p ∷ []) x
  Served-append ps p x (q, m, e) = (q, Elem-append_left q ps (p ∷ []) m, e)

  abbrev rendered_provider : TemplateProviderSpec → Provider
  rendered_provider pr = record {
    key = pr.name;
    base_url = pr.endpoint;
    api_key = if not (is_empty (secret_of pr)) then env_name_for_provider h pr.name else [];
    models = pr.models;
  }

  -- A provider that is taken in keeps the invariant.
  taken-IsCollected :
      (t : ModelTemplate) (c : Collected) (pr : TemplateProviderSpec)
      → IsCollected c
      → no_models pr.models ≡ false
      → present (lookup pr.name c.claimed) ≡ false
      → IsCollected (record {
        claimed = insert pr.name t.template_name c.claimed;
        providers = c.providers ++ rendered_provider pr ∷ [];
        primary =
            if is_empty c.primary && serves h pr.name pr.models t.default_model
            then t.default_model
            else c.primary;
      })
  taken-IsCollected t c pr i n f = record {
    distinct =
        rw (map-append (λ (p : Provider). p.key) c.providers (rendered_provider pr ∷ [])) (
          Distinct-append _ pr.name i.distinct
            (λ e. absurd (grind (arith, f, i.claims pr.name e))));
    claims = λ k e.
        rw (lookup-insert pr.name k t.template_name c.claimed) (elim (text_eq_cases pr.name k) [
          | inl (_, b) ↦ rw b refl
          | inr (d, b) ↦ rw b (
              i.claims k
                (elim (Elem-append_cases k _ (pr.name ∷ []) (
                  rw (map-append (λ (p : Provider). p.key) c.providers (rendered_provider pr ∷ []))
                    at e)) [
                      | inl a ↦ a
                      | inr (inl q) ↦ absurd (d (sym q))
                      | inr (inr z) ↦ absurd z
                    ]))
        ]);
    served = elim (Bool-cases (is_empty c.primary && serves h pr.name pr.models t.default_model)) [
      | inl b ↦ rw b (
          inr (
            rendered_provider pr,
            Elem-append_right (rendered_provider pr) c.providers (rendered_provider pr ∷ [])
                (inl refl),
            (serves_iff h pr.name pr.models t.default_model).0 (grind (arith, b)),
          ))
      | inr b ↦ rw b (elim i.served [
        | inl e ↦ inl e
        | inr s ↦ inr (Served-append c.providers (rendered_provider pr) c.primary s)
      ])
    ];
    modelled = λ p e. elim (Elem-append_cases p c.providers (rendered_provider pr ∷ []) e) [
      | inl a ↦ i.modelled p a
      | inr (inl q) ↦ rw q n
      | inr (inr z) ↦ absurd z
    ];
  }

  collect_provider-IsCollected :
      (ready : Text → Bool) (t : ModelTemplate) (c : Collected) (pr : TemplateProviderSpec)
      → IsCollected c
      → IsCollected (collect_provider h ready t c pr)
  unfolding collect_provider
  collect_provider-IsCollected ready t c pr i = elim (Bool-cases (is_empty pr.endpoint)) [
    | inl a ↦ rw a i
    | inr a ↦ elim (Bool-cases (no_models pr.models)) [
      | inl b ↦ rw (a, b) i
      | inr b ↦ elim (Bool-cases (present (lookup pr.name c.claimed))) [
        | inl d ↦ rw (a, b, d) i
        | inr d ↦ elim (Bool-cases (not (is_empty (secret_of pr)) && not (ready (secret_of pr)))) [
          | inl e ↦ rw (a, b, d, e) i
          | inr e ↦ rw (a, b, d, e) (taken-IsCollected t c pr i b d)
        ]
      ]
    ]
  ]

  collect_template-IsCollected :
      (ready : Text → Bool) (t : ModelTemplate) (prs : List TemplateProviderSpec) (c : Collected)
      → IsCollected c
      → IsCollected (collect_template h ready t prs c)
  unfolding collect_template
  collect_template-IsCollected ready t [] c i = i
  collect_template-IsCollected ready t (pr ∷ prs) c i =
      collect_template-IsCollected ready t prs _ (collect_provider-IsCollected ready t c pr i)

  collect-IsCollected :
      (ready : Text → Bool) (ts : List ModelTemplate) (c : Collected)
      → IsCollected c
      → IsCollected (collect h ready ts c)
  unfolding collect
  collect-IsCollected ready [] c i = i
  collect-IsCollected ready (t ∷ ts) c i =
      collect-IsCollected ready ts _ (collect_template-IsCollected ready t t.providers c i)

  nothing-IsCollected : IsCollected nothing_collected
  nothing-IsCollected = record {
    distinct = tt;
    claims = λ k e. absurd e;
    served = inl refl;
    modelled = λ p e. absurd e;
  }

  first_ref-Served :
      (ps : List Provider)
      → ((p : Provider) → Elem p ps → no_models p.models ≡ false)
      → ps ≢ []
      → Served h ps (first_ref h ps)
  unfolding first_ref
  first_ref-Served [] m n = absurd (n refl)
  first_ref-Served (p ∷ ps) m n = by_models p.models refl
    where
      by_models : (l : List Text) → p.models ≡ l → Served h (p ∷ ps) (first_ref h (p ∷ ps))
      by_models [] e = absurd (grind (arith, m p (inl refl), ap no_models e))
      by_models (id ∷ ids) e = (p, inl refl, rw e (inl refl))

  -- Whatever templates and Secrets there are: no two rendered providers have one key, and where a
  -- provider is rendered at all, the primary model is in the rendered allowlist.
  pub primary-allowed :
      (ready : Text → Bool) (ts : List ModelTemplate)
      → (let c = collect h ready ts nothing_collected in
          Distinct (map (λ (p : Provider). p.key) c.providers)
          × (c.providers ≢ [] → Elem (rendered_primary h c) (allow h c.providers)))
  unfolding rendered_primary
  primary-allowed ready ts =
      let c = collect h ready ts nothing_collected in
      let i = collect-IsCollected ready ts nothing_collected nothing-IsCollected in
      (
        i.distinct,
        λ n.
            ((allow_lem h c.providers).1 (rendered_primary h c)).1
              (elim (Bool-cases (is_empty c.primary)) [
                | inl e ↦ rw e (first_ref-Served c.providers i.modelled n)
                | inr e ↦
                    rw e (elim i.served [
                      | inl z ↦ absurd (grind (arith, e, ap is_empty z))
                      | inr s ↦ s
                    ])
              ]),
      )

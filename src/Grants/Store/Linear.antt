-- ===== src/Grants/Store/Linear.antt =====
-- What the store relies on of the API server, and that `ensure` hands back a usable map.
use cubepilot.Prelude.{
  ◌≡◌, refl, sym, ap, ◌∙◌, ◌⊎◌, inl, inr, List, [], ◌∷◌, none, some, arith, Text, Table,
}
use cubepilot.Names.{Host, instance_name}
use cubepilot.Grants.{Codec}
use cubepilot.Grants.Store.{
  ApiError, not_found, conflict, already_exists, other, Result, ok, err, OwnerReference, ConfigMap,
  Outcome, Cluster, with_data, store_name, default_agent_name, reread, create, fresh_map, ensure,
}

abbrev pub table : ConfigMap → Table Text
table cm = elim cm.nil_or_data [ none ↦ [] | some d ↦ d ]

-- What the store relies on: each call shows or sets what the server holds when it answers, and
-- the retry helper ends with the outcome of its last attempt.
pub record IsLinear {W : Type 0} (k : Cluster W) : Type 0 where
  pub stored : W → Text → Table Text
  pub got :
      (n : Text) (w : W) (cm : ConfigMap)
      → (k.get_map n w).0 ≡ ok cm
      → (cm.name ≡ n) × (table cm ≡ stored (k.get_map n w).1 n)
  pub missing :
      (n : Text) (w : W) → (k.get_map n w).0 ≡ err not_found → stored (k.get_map n w).1 n ≡ []
  pub created :
      (cm : ConfigMap) (w : W) (cm' : ConfigMap)
      → (k.create_map cm w).0 ≡ ok cm'
      → (cm'.name ≡ cm.name) × (table cm' ≡ stored (k.create_map cm w).1 cm.name)
  pub updated :
      (cm : ConfigMap) (w : W)
      → (k.update_map cm w).0 ≡ none
      → stored (k.update_map cm w).1 cm.name ≡ table cm
  pub last_attempt : (f : W → Outcome × W) (w : W) → (w' : W) × (k.retry_on_conflict f w ≡ f w')

pub Result-cases :
    {A : Type 0} (r : Result A)
    → ((a : A) × (r ≡ ok a))
      ⊎ (r ≡ err not_found)
      ⊎ (r ≡ err already_exists)
      ⊎ (r ≡ err conflict)
      ⊎ ((t : Text) × (r ≡ err (other t)))
Result-cases (ok a) = inl (a, refl)
Result-cases (err not_found) = inr (inl refl)
Result-cases (err already_exists) = inr (inr (inl refl))
Result-cases (err conflict) = inr (inr (inr (inl refl)))
Result-cases (err (other t)) = inr (inr (inr (inr (t, refl))))

with_data_lem :
    (cm : ConfigMap)
    → ((with_data cm).nil_or_data ≡ some (table cm)) × ((with_data cm).name ≡ cm.name)
with_data_lem cm = ground arith

module _ {W : Type 0} (h : Host) (c : Codec) (k : Cluster W) (linear : IsLinear k) where
  -- A result of `ensure`: the map is not nil, and holds what the server does.
  abbrev pub Ensured : Text → Result ConfigMap × W → Type 0
  Ensured n r =
      (cm : ConfigMap) → r.0 ≡ ok cm → (cm.name ≡ n) × (cm.nil_or_data ≡ some (linear.stored r.1 n))

  ensured :
      (n : Text) (cm : ConfigMap) (w : W)
      → cm.name ≡ n
      → table cm ≡ linear.stored w n
      → Ensured n (ok (with_data cm), w)
  ensured n cm w p q x e =
      let s : with_data cm ≡ x = cc in
      (
        ap (λ (z : ConfigMap). z.name) (sym s) ∙ (with_data_lem cm).1 ∙ p,
        ap (λ (z : ConfigMap). z.nil_or_data) (sym s) ∙ (with_data_lem cm).0 ∙ ap (λ z. some z) q,
      )

  refused : (n : Text) (e : ApiError) (w : W) → Ensured n (err e, w)
  refused n e w x p = cc

  reread-Ensured : (n : Text) (w : W) → Ensured n (reread h c k n w)
  unfolding reread
  reread-Ensured n w = elim (Result-cases (k.get_map n w).0) [
    | inl (cm, e) ↦
        let (l, r) = linear.got n w cm e in rw (e, reread) (ensured n cm (k.get_map n w).1 l r)
    | inr (inl e) ↦ rw (e, reread) (refused n not_found (k.get_map n w).1)
    | inr (inr (inl e)) ↦ rw (e, reread) (refused n already_exists (k.get_map n w).1)
    | inr (inr (inr (inl e))) ↦ rw (e, reread) (refused n conflict (k.get_map n w).1)
    | inr (inr (inr (inr (t, e)))) ↦ rw (e, reread) (refused n (other t) (k.get_map n w).1)
  ]

  create-Ensured : (fresh : ConfigMap) (w : W) → Ensured fresh.name (create h c k fresh w)
  unfolding create
  create-Ensured fresh w = elim (Result-cases (k.create_map fresh w).0) [
    | inl (cm, e) ↦
        let (l, r) = linear.created fresh w cm e in
        rw (e, create) (ensured fresh.name cm (k.create_map fresh w).1 l r)
    | inr (inl e) ↦ rw (e, create) (refused fresh.name not_found (k.create_map fresh w).1)
    | inr (inr (inl e)) ↦ rw (e, create) (reread-Ensured fresh.name (k.create_map fresh w).1)
    | inr (inr (inr (inl e))) ↦
        rw (e, create) (refused fresh.name conflict (k.create_map fresh w).1)
    | inr (inr (inr (inr (t, e)))) ↦
        rw (e, create) (refused fresh.name (other t) (k.create_map fresh w).1)
  ]

  fresh-Ensured :
      (user : Text) (refs : List OwnerReference) (w : W)
      → Ensured (store_name h user) (create h c k (fresh_map h c k user refs) w)
  unfolding fresh_map
  fresh-Ensured user refs w = create-Ensured (fresh_map h c k user refs) w

  -- From whichever path it returns, `ensure` hands back a map that is not nil.
  pub ensure-Ensured : (user : Text) (w : W) → Ensured (store_name h user) (ensure h c k user w)
  unfolding ensure
  ensure-Ensured user w = elim (Result-cases (k.get_map n w).0) [
    | inl (cm, e) ↦ let (l, r) = linear.got n w cm e in rw (e, ensure) (ensured n cm w1 l r)
    | inr (inl e) ↦
        rw (e, ensure)
          (elim (Result-cases (k.get_instance i w1).0) [
            | inl (ref, f) ↦ rw (f, ensure) (fresh-Ensured user (ref ∷ []) w2)
            | inr (inl f) ↦ rw (f, ensure) (fresh-Ensured user [] w2)
            | inr (inr (inl f)) ↦ rw (f, ensure) (refused n already_exists w2)
            | inr (inr (inr (inl f))) ↦ rw (f, ensure) (refused n conflict w2)
            | inr (inr (inr (inr (t, f)))) ↦ rw (f, ensure) (refused n (other t) w2)
          ])
    | inr (inr (inl e)) ↦ rw (e, ensure) (refused n already_exists w1)
    | inr (inr (inr (inl e))) ↦ rw (e, ensure) (refused n conflict w1)
    | inr (inr (inr (inr (t, e)))) ↦ rw (e, ensure) (refused n (other t) w1)
  ]
    where
      n : Text
      n = store_name h user

      i : Text
      i = instance_name h user default_agent_name

      w1 : W
      w1 = (k.get_map n w).1

      w2 : W
      w2 = (k.get_instance i w1).1

-- ===== src/Grants/Store/Adding.antt =====
-- What a store operation that reports success has done, with other clients at work meanwhile.
use cubepilot.Prelude.{
  ℕ, ◌+◌, ◌≤◌, ◌≡◌, refl, sym, ap, ◌∙◌, ◌≢◌, inl, inr, Bool, false, [], some, Text, is_empty, ltb,
  length, Table, lookup, insert, Bool-cases, Option-cases,
}
use cubepilot.Names.{Host}
use cubepilot.Allowlist.{AllowlistRule}
use cubepilot.Grants.{Codec, key, truncate, evict, data_size, max_rule_bytes, max_command_bytes}
use cubepilot.Grants.Eviction.{evict-fits}
use cubepilot.Grants.Store.{
  ApiError, not_found, conflict, already_exists, other, ConfigMap, Outcome, done, api, over_budget,
  not_stored, panic, Cluster, store_name, ensure, store, attempt_add, add,
}
use cubepilot.Grants.Store.Linear.{IsLinear, Result-cases, ensure-Ensured}

module _ {W : Type 0} (h : Host) (c : Codec) (k : Cluster W) (linear : IsLinear k) where
  module _ (max budget : ℕ) (id : Text) where
    -- What holds of the end of one attempt to add: it did not panic, it was not refused for its
    -- size if an empty table fits, and if it reports success the server holds the key.
    abbrev pub Sound : Text → Outcome × W → Type 0
    Sound n r =
        (r.0 ≢ panic)
        × (data_size c [] ≤ budget → r.0 ≢ over_budget)
        × (r.0 ≡ done → (raw : Text) × (lookup id (linear.stored r.1 n) ≡ some raw))

    found-Sound : (n v : Text) (w : W) → lookup id (linear.stored w n) ≡ some v → Sound n (done, w)
    found-Sound n v w e = ((λ p. cc), (λ _ p. cc), λ _. (v, e))

    api-Sound : (n : Text) (e : ApiError) (w : W) → Sound n (api e, w)
    api-Sound n e w = ((λ p. cc), (λ _ p. cc), λ p. absurd (cc))

    not_stored-Sound : (n : Text) (w : W) → Sound n (not_stored, w)
    not_stored-Sound n w = ((λ p. cc), (λ _ p. cc), λ p. absurd (cc))

    over_budget-Sound :
        (n : Text) (w : W) (m : Table Text)
        → (evict c max budget m).1 ≡ false
        → Sound n (over_budget, w)
    over_budget-Sound n w m f =
        ((λ p. cc), (λ fits p. cc (f, (evict-fits c max budget m fits).0)), λ p. absurd (cc))

    store-Sound :
        (raw : Text) (cm : ConfigMap) (w : W) (n : Text) (d : Table Text)
        → cm.name ≡ n
        → cm.nil_or_data ≡ some d
        → d ≡ linear.stored w n
        → Sound n (store h c k max budget id raw cm w)
    unfolding store
    store-Sound raw cm w n d p q s = elim (Option-cases (lookup id d)) [
      | inr (v, e) ↦ rw (q, store) (rw (e, store) (found-Sound n v w (ap (lookup id) (sym s) ∙ e)))
      | inl e ↦
          rw (q, store)
            (rw (e, store)
              (elim (Bool-cases kept.1) [
                | inr f ↦ rw (f, store) (over_budget-Sound n w (insert id raw d) f)
                | inl t ↦
                    rw (t, store)
                      (elim (Option-cases (lookup id kept.0)) [
                        | inl f ↦ rw (f, store) (not_stored-Sound n w)
                        | inr (v, g) ↦
                            rw (g, store)
                              (elim (Option-cases (k.update_map written w).0) [
                                | inr (x, u) ↦
                                    rw (u, store) (api-Sound n x (k.update_map written w).1)
                                | inl u ↦
                                    rw (u, store)
                                      (found-Sound n v (k.update_map written w).1 (
                                        ap
                                          (λ z.
                                            lookup id (linear.stored (k.update_map written w).1 z))
                                          (sym p)
                                        ∙ ap (lookup id) (linear.updated written w u)
                                        ∙ g))
                              ])
                      ])
              ]))
    ]
      where
        kept : Table Text × Bool
        kept = evict c max budget (insert id raw d)

        written : ConfigMap
        written = record cm { nil_or_data = some kept.0 }

    attempt_add-Sound :
        (user raw : Text) (w : W)
        → Sound (store_name h user) (attempt_add h c k max budget user id raw w)
    unfolding attempt_add
    attempt_add-Sound user raw w = elim (Result-cases (ensure h c k user w).0) [
      | inl (cm, e) ↦
          let (p, q) = ensure-Ensured h c k linear user w cm e in
          rw (e, attempt_add) (store-Sound raw cm w1 n (linear.stored w1 n) p q refl)
      | inr (inl e) ↦ rw (e, attempt_add) (api-Sound n not_found w1)
      | inr (inr (inl e)) ↦ rw (e, attempt_add) (api-Sound n already_exists w1)
      | inr (inr (inr (inl e))) ↦ rw (e, attempt_add) (api-Sound n conflict w1)
      | inr (inr (inr (inr (t, e)))) ↦ rw (e, attempt_add) (api-Sound n (other t) w1)
    ]
      where
        n : Text
        n = store_name h user

        w1 : W
        w1 = (ensure h c k user w).1

  -- For a cluster that answers as `IsLinear` says, whatever other clients do meanwhile, Add of a rule
  -- with a command never writes into a nil map, and where it reports success the server held the
  -- rule's key when Add's last call was answered. Its refusal of a payload over the budget is never reached if an empty map fits.
  pub add-Sound :
      (max budget : ℕ) (user : Text) (r : AllowlistRule) (command : Text) (now : ℕ) (w : W)
      → is_empty r.pattern ≡ false
      → Sound max budget (key h r) (store_name h user) (add h c k max budget user r command now w)
  unfolding add
  add-Sound max budget user r command now w named =
      elim (Bool-cases (ltb max_rule_bytes (length r.pattern + length r.arg_pattern))) [
        | inl t ↦ rw named (rw t ((λ p. cc), (λ _ p. cc), λ p. absurd (cc)))
        | inr f ↦ rw named (
            rw f (
              let (w', e) = linear.last_attempt attempt w in
              rw e (attempt_add-Sound max budget (key h r) user raw w')))
      ]
    where
      raw : Text
      raw = c.encode (record {
        pattern = r.pattern;
        arg_pattern = r.arg_pattern;
        command = truncate command max_command_bytes;
        created_at = now;
      })

      attempt : W → Outcome × W
      attempt = attempt_add h c k max budget user (key h r) raw

-- ===== src/Grants/Store/Removing.antt =====
-- What a removal that reports success has done, with other clients at work meanwhile.
use cubepilot.Prelude.{
  ◌≡◌, refl, sym, ap, ◌∙◌, inl, inr, false, [], none, some, arith, Text, text_eq_refl, is_empty,
  Table, lookup, delete, lookup-delete, Option-cases,
}
use cubepilot.Names.{Host}
use cubepilot.Allowlist.{AllowlistRule}
use cubepilot.Grants.{Codec, key}
use cubepilot.Grants.Store.{
  ConfigMap, Outcome, done, Cluster, store_name, erase, attempt_remove, remove,
}
use cubepilot.Grants.Store.Linear.{table, IsLinear, Result-cases}

nil_table : (cm : ConfigMap) → cm.nil_or_data ≡ none → table cm ≡ []
nil_table cm e = ground arith

some-table : (cm : ConfigMap) (d : Table Text) → cm.nil_or_data ≡ some d → table cm ≡ d
some-table cm d e = ground arith

module _ {W : Type 0} (h : Host) (c : Codec) (k : Cluster W) (linear : IsLinear k) where
  abbrev Gone : Text → Text → Outcome × W → Type 0
  Gone n id r = r.0 ≡ done → lookup id (linear.stored r.1 n) ≡ none

  lookup-nil : (id : Text) → lookup {V = Text} id [] ≡ none
  unfolding lookup
  lookup-nil id = refl

  lookup-delete_self : (id : Text) (d : Table Text) → lookup id (delete id d) ≡ none
  lookup-delete_self id d = rw (lookup-delete id id d, text_eq_refl id)

  erase-Gone :
      (n id : Text) (cm : ConfigMap) (w : W)
      → cm.name ≡ n
      → table cm ≡ linear.stored w n
      → Gone n id (erase h c k id cm w)
  unfolding erase
  erase-Gone n id cm w p q = elim (Option-cases cm.nil_or_data) [
    | inl e ↦ rw (e, erase) (λ _. ap (lookup id) (sym q ∙ nil_table cm e) ∙ lookup-nil id)
    | inr (d, e) ↦
        rw (e, erase)
          (elim (Option-cases (lookup id d)) [
            | inl f ↦ rw (f, erase) (λ _. ap (lookup id) (sym q ∙ some-table cm d e) ∙ f)
            | inr (v, f) ↦
                rw (f, erase)
                  (elim (Option-cases (k.update_map (written d) w).0) [
                    | inr (x, u) ↦ rw (u, erase) (λ t. absurd (cc))
                    | inl u ↦
                        rw (u, erase)
                          (λ _.
                            ap (λ z. lookup id (linear.stored (k.update_map (written d) w).1 z))
                              (sym p)
                            ∙ ap (lookup id) (linear.updated (written d) w u)
                            ∙ lookup-delete_self id d)
                  ])
          ])
  ]
    where
      written : Table Text → ConfigMap
      written d = record cm { nil_or_data = some (delete id d) }

  attempt_remove-Gone :
      (user id : Text) (w : W) → Gone (store_name h user) id (attempt_remove h c k user id w)
  unfolding attempt_remove
  attempt_remove-Gone user id w = elim (Result-cases (k.get_map n w).0) [
    | inl (cm, e) ↦
        let (p, q) = linear.got n w cm e in rw (e, attempt_remove) (erase-Gone n id cm w1 p q)
    | inr (inl e) ↦
        rw (e, attempt_remove) (λ _. ap (lookup id) (linear.missing n w e) ∙ lookup-nil id)
    | inr (inr (inl e)) ↦ rw (e, attempt_remove) (λ p. absurd (cc))
    | inr (inr (inr (inl e))) ↦ rw (e, attempt_remove) (λ p. absurd (cc))
    | inr (inr (inr (inr (t, e)))) ↦ rw (e, attempt_remove) (λ p. absurd (cc))
  ]
    where
      n : Text
      n = store_name h user

      w1 : W
      w1 = (k.get_map n w).1

  -- For a cluster that answers as `IsLinear` says, where Remove reports success for a rule with a
  -- command, the server held no grant under the
  -- rule's key when Remove's last call was answered.
  pub remove-gone :
      (user : Text) (r : AllowlistRule) (w : W)
      → is_empty r.pattern ≡ false
      → (remove h c k user r w).0 ≡ done
      → lookup (key h r) (linear.stored (remove h c k user r w).1 (store_name h user)) ≡ none
  unfolding remove
  remove-gone user r w named =
      let (w', e) = linear.last_attempt (attempt_remove h c k user (key h r)) w in
      rw named (rw e (attempt_remove-Gone user (key h r) w'))

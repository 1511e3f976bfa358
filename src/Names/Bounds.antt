-- ===== src/Names/Bounds.antt =====
-- Generated names fit Kubernetes' limits.
use cubepilot.Prelude.{
  ℕ, zero, suc, ◌-◌, ◌*◌, ◌≤◌, ◌≡◌, refl, inl, inr, [], ◌∷◌, ◌++◌, arith, Text, leb, leb→le, length,
  length-append, take, Bool-cases,
}
use cubepilot.Names.{
  Host, hex, trim_right_dashes, resource_name, generated_name_within, generated_name,
  generated_service_name,
}

length-hex : (s : Text) → length (hex s) ≡ 2 * length s
unfolding hex
length-hex [] = refl
length-hex (c ∷ s) = omega (arith, length-hex s)

length-take-le : (n : ℕ) (s : Text) → length (take n s) ≤ n
length-take-le zero s = omega arith
length-take-le (suc n) [] = omega arith
length-take-le (suc n) (c ∷ s) = omega (arith, length-take-le n s)

length-take-eq : (n : ℕ) (s : Text) → n ≤ length s → length (take n s) ≡ n
length-take-eq zero s h = refl
length-take-eq (suc n) [] h = absurd (omega arith)
length-take-eq (suc n) (c ∷ s) h = omega (arith, length-take-eq n s (omega arith))

length-trim_right_dashes : (s : Text) → length (trim_right_dashes s) ≤ length s
unfolding trim_right_dashes
length-trim_right_dashes [] = omega arith
length-trim_right_dashes (c ∷ s) = ground (arith, length-trim_right_dashes s)

module _ (h : Host) where
  length-digest : (s : Text) → length (hex (take 5 (h.sha256 s))) ≡ 10
  length-digest s =
      omega
        (arith, length-hex (take 5 (h.sha256 s)), length-take-eq 5 (h.sha256 s), h.length-sha256 s)

  -- A name bounded to `max`, at least 11, has at most `max` bytes; and one that fits is left as it is.
  pub length-generated_name_within :
      (prefix name : Text) (max : ℕ)
      → 11 ≤ max
      → (length (generated_name_within h prefix name max) ≤ max)
        × (length (resource_name h prefix name) ≤ max
            → generated_name_within h prefix name max ≡ resource_name h prefix name)
  unfolding generated_name_within
  length-generated_name_within prefix name max m = elim (Bool-cases (leb (length generated) max)) [
    | inl t ↦ rw t (leb→le _ _ t, λ _. refl)
    | inr f ↦ rw f (bound, λ l. ground arith)
  ]
    where
      generated : Text
      generated = resource_name h prefix name

      bound :
          length (
            trim_right_dashes
              (take (max - length (hex (take 5 (h.sha256 generated))) - 1) generated)
            ++ b'-' ∷ hex (take 5 (h.sha256 generated)))
          ≤ max
      bound =
          let digest = hex (take 5 (h.sha256 generated)) in
          let head = take (max - length digest - 1) generated in
          rw (length-append (trim_right_dashes head) (b'-' ∷ digest)) (
            omega (
              arith,
              length-digest generated,
              length-trim_right_dashes head,
              length-take-le (max - length digest - 1) generated,
            ))

  -- PVC and Pod names fit the limit of a DNS-1123 subdomain, Service names that of a label.
  pub generated_names_fit :
      (prefix name : Text)
      → (length (generated_name h prefix name) ≤ 253)
        × (length (generated_service_name h prefix name) ≤ 63)
  unfolding generated_name generated_service_name
  generated_names_fit prefix name = (
    (length-generated_name_within prefix name 253 (omega arith)).0,
    (length-generated_name_within prefix name 63 (omega arith)).0,
  )

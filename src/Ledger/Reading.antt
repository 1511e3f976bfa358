-- ===== src/Ledger/Reading.antt =====
-- What the ledger gives back.
use cubepilot.Prelude.{
  ℕ, zero, suc, ◌-◌, ◌≤◌, ◌<◌, ◌≡◌, ◌≢◌, refl, sym, ap, subst, map, ◌⊎◌, Bool, true, false, ◌&&◌,
  List, [], ◌∷◌, ◌++◌, some, Text, text_eq, text_eq_iff, text_eq_refl, text_eq_cases, ltb, length,
  length-append, length-drop, take, drop, filter, Elem, Elem-append_right, Elem-filter,
  Elem-filter_intro, All, insert, lookup-insert, if◌then◌else◌, Bool-cases, Option-cases, inl, inr,
  arith,
}
use cubepilot.Prelude.Sorting.{sort, IsSorted, sort-IsSorted, Elem-sort, Elem-sort_inv}
use cubepilot.Ledger.{
  AuditEntry, entries, Disk, file, last_entries, newer, audit_file, add_audit, list_audit,
  max_audit,
}

newer_asym : (a b : AuditEntry) → newer a b ≡ true → newer b a ≡ false
newer_asym a b h = ground arith

newer_trans : (a b c : AuditEntry) → newer c b ≡ false → newer b a ≡ false → newer c a ≡ false
newer_trans a b c h k = ground arith

Elem-take : {A : Type 0} (a : A) (n : ℕ) (xs : List A) → Elem a (take n xs) → Elem a xs
Elem-take a zero xs h = absurd h
Elem-take a (suc n) [] h = absurd h
Elem-take a (suc n) (x ∷ xs) (inl e) = inl e
Elem-take a (suc n) (x ∷ xs) (inr h) = inr (Elem-take a n xs h)

All-take : {A : Type 0} (P : A → Type 0) (n : ℕ) (xs : List A) → All P xs → All P (take n xs)
All-take P zero xs h = tt
All-take P (suc n) [] h = tt
All-take P (suc n) (x ∷ xs) (p, h) = (p, All-take P n xs h)

IsSorted-take : (n : ℕ) (xs : List AuditEntry) → IsSorted newer xs → IsSorted newer (take n xs)
IsSorted-take zero xs h = tt
IsSorted-take (suc n) [] h = tt
IsSorted-take (suc n) (x ∷ xs) (p, h) =
    (All-take (λ (z : AuditEntry). newer z x ≡ false) n xs p, IsSorted-take n xs h)

length-take-le : {A : Type 0} (n : ℕ) (xs : List A) → length (take n xs) ≤ n
length-take-le zero xs = omega arith
length-take-le (suc n) [] = omega arith
length-take-le (suc n) (x ∷ xs) = omega (arith, length-take-le n xs)

Elem-drop_last :
    (n : ℕ) (e : AuditEntry) (es : List AuditEntry) → n ≤ length es → Elem e (drop n (es ++ e ∷ []))
Elem-drop_last zero e es h = Elem-append_right e es (e ∷ []) (inl refl)
Elem-drop_last (suc n) e [] h = absurd (grind (arith, h))
Elem-drop_last (suc n) e (x ∷ es) h = Elem-drop_last n e es (omega (arith, h))

-- The entry that was added last survives the cap.
-- A list with one more entry, of which the first `k` are dropped.
drop_front :
    (k : ℕ) (es : List AuditEntry)
    → k ≤ length es
    → (a : List AuditEntry) × (b : List AuditEntry) × (es ≡ a ++ b)
      × (length b ≡ length es - k)
      × ((e : AuditEntry) → drop k (es ++ e ∷ []) ≡ b ++ e ∷ [])
drop_front zero es h = ([], es, refl, omega arith, λ e. refl)
drop_front (suc k) [] h = absurd (omega (arith, h))
drop_front (suc k) (x ∷ es) h =
    let (a, b, q, l, f) = drop_front k es (omega (arith, h)) in
    (x ∷ a, b, ap (λ z. x ∷ z) q, omega (arith, l), f)

length-map : (f : AuditEntry → AuditEntry) (es : List AuditEntry) → length (map f es) ≡ length es
length-map f [] = refl
length-map f (x ∷ es) = ap suc (length-map f es)

-- The new entry is put behind the old ones, and only as many of the oldest are dropped as do not fit.
pub record IsAppended (stored : AuditEntry → AuditEntry) (old : List AuditEntry) (e : AuditEntry)
    (new : List AuditEntry) : Type 0 where
  pub dropped : List AuditEntry
  pub kept : List AuditEntry
  pub split : old ≡ dropped ++ kept
  pub joined : new ≡ map stored (kept ++ e ∷ [])
  pub limited : length new ≤ max_audit
  pub needed : (dropped ≡ []) ⊎ (length new ≡ max_audit)

last_entries-IsAppended :
    (stored : AuditEntry → AuditEntry) (e : AuditEntry) (es : List AuditEntry)
    → IsAppended stored es e (map stored (last_entries max_audit (es ++ e ∷ [])))
last_entries-IsAppended stored e es = elim (Bool-cases (ltb max_audit (length (es ++ e ∷ [])))) [
  | inr f ↦ rw f (record {
    dropped = [];
    kept = es;
    split = refl;
    joined = refl;
    limited = ground (arith, f, length-map stored (es ++ e ∷ []));
    needed = inl refl;
  })
  | inl t ↦
      let n = length-append es (e ∷ []) in
      let (a, b, q, l, f) =
        drop_front (length (es ++ e ∷ []) - max_audit) es (ground (arith, t, n)) in
      let m = length-map stored (b ++ e ∷ []) in
      let k = length-append b (e ∷ []) in
      rw (t, f e)
        (record {
          dropped = a;
          kept = b;
          split = q;
          joined = refl;
          limited = ground (arith, t, n, l, m, k);
          needed = inr (ground (arith, t, n, l, m, k));
        })
]

length-last_entries : (n : ℕ) (es : List AuditEntry) → length (last_entries n es) ≤ n
length-last_entries n es = elim (Bool-cases (ltb n (length es))) [
  | inl t ↦ rw t (ground (arith, t, length-drop (length es - n) es))
  | inr t ↦ rw t (ground (arith, t))
]

-- What a user reads: own entries only, all of them stored, none before a newer one, and no more than
-- a positive limit.
pub record ListSpec (user : Text) (limit : ℕ) (stored es : List AuditEntry) : Type 0 where
  pub sorted : IsSorted newer es
  pub owned : (e : AuditEntry) → Elem e es → (e.user ≡ user) × Elem e stored
  pub limited : 0 < limit → length es ≤ limit
  pub complete : limit ≡ 0 → (e : AuditEntry) → Elem e stored → e.user ≡ user → Elem e es

module _ (runes : Text → List ℕ) where
  -- What ListAudit gives a user of a readable file: entries of that user only, all of them stored, none
  -- before a newer one, and no more than a positive limit; without one, every entry of the user.
  pub list_audit-ListSpec :
      (user : Text) (limit : ℕ) (d : Disk) (stored es : List AuditEntry)
      → file (audit_file runes user) d ≡ some stored
      → list_audit runes user limit d ≡ some es
      → ListSpec user limit stored es
  unfolding list_audit
  list_audit-ListSpec user limit d stored es f r =
      subst (ListSpec user limit stored) (some-injective _ es (rw (f, list_audit) at r)) shown
    where
      some-injective : (a b : List AuditEntry) → some a ≡ some b → a ≡ b
      some-injective a b p = cc

      own : List AuditEntry
      own = sort newer (filter (λ (e : AuditEntry). text_eq e.user user) stored)

      ordered : IsSorted newer own
      ordered =
          sort-IsSorted newer newer_asym newer_trans
            (filter (λ (e : AuditEntry). text_eq e.user user) stored)

      member : (e : AuditEntry) → Elem e own → (e.user ≡ user) × Elem e stored
      member e m =
          let (s, t) =
            Elem-filter e (λ (x : AuditEntry). text_eq x.user user) stored
              (Elem-sort_inv newer e _ m) in
          ((text_eq_iff e.user user).0 t, s)

      shown :
          ListSpec user limit stored
            (if ltb 0 limit && ltb limit (length own) then take limit own else own)
      shown = elim (Bool-cases (ltb 0 limit && ltb limit (length own))) [
        | inl t ↦ rw t (record {
          sorted = IsSorted-take limit own ordered;
          owned = λ e m. member e (Elem-take e limit own m);
          limited = λ _. length-take-le limit own;
          complete = λ z. absurd (grind (arith, t, z));
        })
        | inr t ↦ rw t (record {
          sorted = ordered;
          owned = member;
          limited = λ l. ground (arith, t, l);
          complete = λ _ e m u. Elem-sort newer e _ (
              Elem-filter_intro e (λ (x : AuditEntry). text_eq x.user user) stored m
                ((text_eq_iff e.user user).1 u));
        })
      ]

  -- Where AddAudit succeeds, the user's file could be read, and then holds what it held with the entry,
  -- under its new id, behind it, each as its JSON gives it back; no more of the oldest entries are dropped
  -- than exceed maxAudit. The files of all other names are as they were.
  pub add_audit_lem :
      (stored : AuditEntry → AuditEntry) (fresh : Text) (saved : Bool) (e : AuditEntry) (d : Disk)
      → (add_audit runes stored fresh saved e d).0 ≡ true
      → ((old : List AuditEntry) × (new : List AuditEntry) × (file (audit_file runes e.user) d
            ≡ some old)
          × (file (audit_file runes e.user) (add_audit runes stored fresh saved e d).1 ≡ some new)
          × IsAppended stored old (record e { id = fresh }) new)
        × ((name : Text)
            → name ≢ audit_file runes e.user
            → file name (add_audit runes stored fresh saved e d).1 ≡ file name d)
  unfolding add_audit
  add_audit_lem stored fresh saved e d ok = elim (Option-cases (file (audit_file runes e.user) d)) [
    | inl n ↦ absurd (grind (arith, rw (n, add_audit) at ok))
    | inr (es, f) ↦ elim (Bool-cases saved) [
      | inr s ↦ absurd (grind (arith, rw (f, s, add_audit) at ok))
      | inl s ↦
          rw (f, s, add_audit)
            (let new = map stored (last_entries max_audit (es ++ record e { id = fresh } ∷ [])) in
              (
                (
                  es,
                  new,
                  refl,
                  written (audit_file runes e.user) new d,
                  last_entries-IsAppended stored (record e { id = fresh }) es,
                ),
                λ name ne. others (audit_file runes e.user) name new d ne,
              ))
    ]
  ]
    where
      written :
          (n : Text) (xs : List AuditEntry) (d : Disk) → file n (insert n (entries xs) d) ≡ some xs
      written n xs d = rw (file, lookup-insert n n (entries xs) d, text_eq_refl n) refl

      others :
          (n m : Text) (xs : List AuditEntry) (d : Disk)
          → m ≢ n
          → file m (insert n (entries xs) d) ≡ file m d
      others n m xs d ne = elim (text_eq_cases n m) [
        | inl (q, _) ↦ absurd (ne (sym q))
        | inr (_, b) ↦ rw (file, lookup-insert n m (entries xs) d, b) refl
      ]

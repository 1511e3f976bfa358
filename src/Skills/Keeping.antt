-- ===== src/Skills/Keeping.antt =====
-- syncSkills of internal/supervisor/supervisor.go: whose directories are removed, and whose stay.
use cubepilot.Prelude.{
  ◌≡◌, refl, ap, sym, ◌∙◌, subst, Bool, true, false, not, ◌||◌, List, [], ◌∷◌, map, Option, none,
  some, Text, text_eq_iff, text_eq_cases, contains, Table, lookup, delete, lookup-delete, Elem, All,
  arith, inl, inr, ◌≢◌, if_elim,
}
use cubepilot.Resolver.{ResolvedSkill}
use cubepilot.Skills.{
  Dir, Skills, SkillAnswers, sync_skill, remove_unwanted, sync_each, sync_wanted, sync_skills,
}
use cubepilot.Skills.Installing.{IsInstalled, IsOther, sync_skill-IsSynced}

module _ {C : Type 0} (tree : C → Text) (extract : Text → Option C) (digest : Text → Text) where
  abbrev names_of : List ResolvedSkill → List Text
  names_of wanted = map (λ (rs : ResolvedSkill). rs.name) wanted

  -- No skill has the name, or the backup's name, of one that is synced later.
  abbrev pub Apart : List ResolvedSkill → Type 0
  Apart [] = Unit
  Apart (rs ∷ rest) = All (IsOther tree extract digest rs.name) rest × Apart rest

  abbrev pub ours : Option (Dir C) → Bool
  ours o = elim o [ none ↦ false | some d ↦ d.marked ]

  delete_other :
      (m n : Text) (dirs : Table (Dir C)) → m ≢ n → lookup n (delete m dirs) ≡ lookup n dirs
  delete_other m n dirs d = ground (arith, lookup-delete m n dirs, text_eq_iff m n)

  delete_gone :
      (m n : Text) (dirs : Table (Dir C)) → lookup n dirs ≡ none → lookup n (delete m dirs) ≡ none
  delete_gone m n dirs e = ground (arith, lookup-delete m n dirs)

  delete_same : (m : Text) (dirs : Table (Dir C)) → lookup m (delete m dirs) ≡ none
  delete_same m dirs = ground (arith, lookup-delete m m dirs, text_eq_iff m m)

  module _ (removed : Text → Bool) (wanted : List Text) where
    clean : List Text → Table (Dir C) → Bool × Table (Dir C)
    clean ns dirs = remove_unwanted tree extract digest removed wanted ns dirs

    marked_other :
        (m n : Text) (dirs : Table (Dir C))
        → ours (lookup n dirs) ≡ false
        → ours (lookup m dirs) ≡ true
        → m ≢ n
    marked_other m n dirs e t q = grind (arith, sym t ∙ ap (λ z. ours (lookup z dirs)) q ∙ e)

    -- What is not marked stays.
    stays :
        (ns : List Text) (n : Text) (dirs : Table (Dir C))
        → ours (lookup n dirs) ≡ false
        → lookup n (clean ns dirs).1 ≡ lookup n dirs
    unfolding clean remove_unwanted
    stays [] n dirs e = refl
    stays (m ∷ ns) n dirs e =
        let P : Bool × Table (Dir C) → Type 0 = λ z. lookup n z.1 ≡ lookup n dirs in
        if_elim P (contains wanted m || not (ours (lookup m dirs))) (clean ns dirs) _
          (λ _. stays ns n dirs e)
          (λ k.
            if_elim P (removed m) (clean ns (delete m dirs)) (false, dirs)
              (λ _.
                let same =
                  delete_other m n dirs (λ q. marked_other m n dirs e (ground (arith, k)) q) in
                stays ns n (delete m dirs) (ap ours same ∙ e) ∙ same)
              (λ _. refl))

    gone_stays :
        (ns : List Text) (n : Text) (dirs : Table (Dir C))
        → lookup n dirs ≡ none
        → lookup n (clean ns dirs).1 ≡ none
    gone_stays ns n dirs e = stays ns n dirs (ap ours e) ∙ e

    kept_not :
        (k n : Text) (dirs : Table (Dir C))
        → k ≡ n
        → contains wanted n ≡ false
        → ours (lookup n dirs) ≡ true
        → ¬ ((contains wanted k || not (ours (lookup k dirs))) ≡ true)
    kept_not k n dirs q w e t =
        ground (arith, ap (contains wanted) q ∙ w, ap (λ z. ours (lookup z dirs)) q ∙ e, t)

    -- Where all removals succeed, what is marked and not wanted is gone.
    goes :
        (ns : List Text) (n : Text) (dirs : Table (Dir C))
        → Elem n ns
        → contains wanted n ≡ false
        → ours (lookup n dirs) ≡ true
        → (clean ns dirs).0 ≡ true
        → lookup n (clean ns dirs).1 ≡ none
    unfolding clean remove_unwanted
    goes [] n dirs m w e = absurd m
    goes (k ∷ ns) n dirs m w e =
        let P : Bool × Table (Dir C) → Type 0 = λ z. z.0 ≡ true → lookup n z.1 ≡ none in
        if_elim P (contains wanted k || not (ours (lookup k dirs))) (clean ns dirs) _
          (λ t. elim m [
            | inl q ↦ absurd (kept_not k n dirs (sym q) w e t)
            | inr j ↦ goes ns n dirs j w e
          ])
          (λ t.
            if_elim P (removed k) (clean ns (delete k dirs)) (false, dirs)
              (λ _ h. elim (text_eq_cases k n) [
                | inl (q, _) ↦
                    gone_stays ns n (delete k dirs)
                      (subst (λ z. lookup z (delete k dirs) ≡ none) q (delete_same k dirs))
                | inr (d, _) ↦ elim m [
                  | inl q ↦ absurd (d (sym q))
                  | inr j ↦ goes ns n (delete k dirs) j w (ap ours (delete_other k n dirs d) ∙ e) h
                ]
              ])
              (λ _ h. absurd (grind (arith, h))))

  lookup-Elem :
      (n : Text) (dirs : Table (Dir C))
      → ours (lookup n dirs) ≡ true
      → Elem n (map (λ (e : Text × Dir C). e.0) dirs)
  unfolding lookup
  lookup-Elem n [] e = absurd (grind (arith, e))
  lookup-Elem n ((k, d) ∷ dirs) e = elim (text_eq_cases k n) [
    | inl (q, _) ↦ inl (sym q)
    | inr (_, f) ↦ inr (lookup-Elem n dirs (rw f at e))
  ]

  -- The wanted skills, one after the other.
  abbrev pub Others : Text → List ResolvedSkill → Type 0
  Others n wanted = All (IsOther tree extract digest n) wanted

  sync_each-Others :
      (a : Text → SkillAnswers) (n : Text) (wanted : List ResolvedSkill) (ok : Bool) (s : Skills C)
      → Others n wanted
      → lookup n (sync_each tree extract digest a wanted (ok, s)).1.dirs ≡ lookup n s.dirs
  unfolding sync_each
  sync_each-Others a n wanted false s o = refl
  sync_each-Others a n [] true s o = refl
  sync_each-Others a n (rs ∷ rest) true s (o, os) =
      let z = sync_skill tree extract digest (a rs.name) rs s in
      sync_each-Others a n rest z.0 z.1 os
      ∙ (sync_skill-IsSynced tree extract digest (a rs.name) rs s).others n o

  sync_each_hopes :
      (a : Text → SkillAnswers) (n : Text) (wanted : List ResolvedSkill) (ok : Bool) (s : Skills C)
      → Others n wanted
      → lookup n (sync_each tree extract digest a wanted (ok, s)).1.expectations
        ≡ lookup n s.expectations
  unfolding sync_each
  sync_each_hopes a n wanted false s o = refl
  sync_each_hopes a n [] true s o = refl
  sync_each_hopes a n (rs ∷ rest) true s (o, os) =
      let z = sync_skill tree extract digest (a rs.name) rs s in
      sync_each_hopes a n rest z.0 z.1 os
      ∙ (sync_skill-IsSynced tree extract digest (a rs.name) rs s).hopes n o.0

  IsInstalled-on :
      (a : Text → SkillAnswers) (rs : ResolvedSkill) (rest : List ResolvedSkill) (ok : Bool)
      (s : Skills C)
      → Others rs.name rest
      → IsInstalled tree extract digest rs s
      → IsInstalled tree extract digest rs (sync_each tree extract digest a rest (ok, s)).1
  IsInstalled-on a rs rest ok s o i = record {
    dir = i.dir;
    there = sync_each-Others a rs.name rest ok s o ∙ i.there;
    marked = i.marked;
    expected = sync_each_hopes a rs.name rest ok s o ∙ i.expected;
  }

  sync_each_ok :
      (a : Text → SkillAnswers) (wanted : List ResolvedSkill) (ok : Bool) (s : Skills C)
      → (sync_each tree extract digest a wanted (ok, s)).0 ≡ true
      → ok ≡ true
  unfolding sync_each
  sync_each_ok a wanted true s e = refl
  sync_each_ok a wanted false s e = e

  sync_each-IsInstalled :
      (a : Text → SkillAnswers) (wanted : List ResolvedSkill) (ok : Bool) (s : Skills C)
      → Apart wanted
      → (sync_each tree extract digest a wanted (ok, s)).0 ≡ true
      → All
          (λ rs.
            IsInstalled tree extract digest rs (sync_each tree extract digest a wanted (ok, s)).1)
          wanted
  unfolding sync_each
  sync_each-IsInstalled a wanted false s d e = absurd (grind (arith, e))
  sync_each-IsInstalled a [] true s d e = tt
  sync_each-IsInstalled a (rs ∷ rest) true s (d, ds) e =
      let z = sync_skill tree extract digest (a rs.name) rs s in
      let i =
        (sync_skill-IsSynced tree extract digest (a rs.name) rs s).installed
          (sync_each_ok a rest z.0 z.1 e) in
      (IsInstalled-on a rs rest z.0 z.1 d i, sync_each-IsInstalled a rest z.0 z.1 ds e)

  unwanted : (n : Text) (ws : List ResolvedSkill) → Others n ws → contains (names_of ws) n ≡ false
  unfolding contains
  unwanted n [] o = refl
  unwanted n (rs ∷ ws) ((x, _), os) = ground (arith, text_eq_iff rs.name n, unwanted n ws os, x)

  -- For skills that do not get in each other's way by their names: whichever calls fail, syncSkills leaves
  -- alone each directory without the marker that is not of a wanted skill or its backup, which is the
  -- agent's own. Where it succeeds, every wanted skill is installed, and each directory with the marker
  -- that is not of a wanted skill or its backup is gone.
  pub sync_skills_lem :
      (removed : Text → Bool) (a : Text → SkillAnswers) (wanted : List ResolvedSkill) (s : Skills C)
      → Apart wanted
      → let z = sync_skills tree extract digest removed a wanted s in
        ((n : Text)
          → Others n wanted
          → ours (lookup n s.dirs) ≡ false
          → lookup n z.1.dirs ≡ lookup n s.dirs)
        × (z.0 ≡ true → All (λ rs. IsInstalled tree extract digest rs z.1) wanted)
        × (z.0 ≡ true
            → (n : Text) → Others n wanted
            → ours (lookup n s.dirs) ≡ true
            → lookup n z.1.dirs ≡ none)
  unfolding sync_skills sync_wanted clean
  sync_skills_lem removed a wanted s d =
      let names = map (λ (e : Text × Dir C). e.0) s.dirs in
      let w = names_of wanted in
      let (ok, dirs) = clean removed w names s.dirs in
      let t : Skills C = record s { dirs = dirs } in
      (
        λ n o e. sync_each-Others a n wanted ok t o ∙ stays removed w names n s.dirs e,
        sync_each-IsInstalled a wanted ok t d,
        λ h n o e.
            sync_each-Others a n wanted ok t o
            ∙ goes removed w names n s.dirs (lookup-Elem n s.dirs e) (unwanted n wanted o) e
                (sync_each_ok a wanted ok t h),
      )

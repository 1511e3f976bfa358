-- ===== src/Skills/Installing.antt =====
-- syncSkill of internal/supervisor/supervisor.go: what is installed is the platform's content.
use cubepilot.Prelude.{
  ◌≡◌, refl, ap, sym, ◌∙◌, subst, Bool, true, false, not, [], ◌∷◌, ◌++◌, Option, none, some, Text,
  text_eq_iff, text_eq_refl, Table, lookup, insert, delete, lookup-insert, lookup-delete, arith,
  ◌⊎◌, inl, inr, ◌≢◌, if◌then◌else◌, if_elim, is_empty, text_eq, ◌&&◌, Option-cases, Bool-cases,
}
use cubepilot.Resolver.{ResolvedSkill}
use cubepilot.Skills.{
  Dir, SkillExpectation, Skills, skill_identity, backup_of, SkillAnswers, matches, is_verified,
  put_back, restore, bring_in, move_aside, swap, stage, install, sync_skill,
}

backup_other : (name : Text) → backup_of name ≢ name
backup_other [] e = grind (arith, e)
backup_other (c ∷ name) e = backup_other name (grind (arith, e))

same_expectation :
    (want : SkillExpectation) (i t : Text)
    → want.identity ≡ i
    → want.tree ≡ t
    → want ≡ record { identity = i; tree = t }
same_expectation want i t e f =
    subst (λ z. want ≡ (record { identity = z; tree = t })) e
      (subst (λ z. want ≡ (record { identity = want.identity; tree = z })) f refl)

is_empty-nil : (t : Text) → is_empty t ≡ true → t ≡ []
is_empty-nil [] h = refl
is_empty-nil (c ∷ t) h = absurd (ground (arith, h))

module _ {C : Type 0} (tree : C → Text) (extract : Text → Option C) (digest : Text → Text) where
  -- A skill's directory is there, marked, with the content that is expected for the very skill.
  pub record IsInstalled (rs : ResolvedSkill) (s : Skills C) : Type 0 where
    pub dir : Dir C
    pub there : lookup rs.name s.dirs ≡ some dir
    pub marked : dir.marked ≡ true
    pub expected :
        lookup rs.name s.expectations
        ≡ some (record {
          identity = rs.revision ++ 0 ∷ (rs.path ++ 0 ∷ rs.sha256);
          tree = tree dir.content;
        })

  -- A directory that is none of the skill's own.
  abbrev pub IsOther : Text → ResolvedSkill → Type 0
  IsOther n rs = (rs.name ≢ n) × (backup_of rs.name ≢ n)

  -- What a sync of one skill does: where it succeeds, the skill is installed, and nothing has changed or
  -- what was staged is in its place; where it fails, no expectation has changed; and in any case the other
  -- directories and the other skills' expectations are as they were.
  pub record IsSynced (a : SkillAnswers) (rs : ResolvedSkill) (s : Skills C) (z : Bool × Skills C)
      : Type 0 where
    pub installed : z.0 ≡ true → IsInstalled rs z.1
    pub origin :
        z.0 ≡ true
        → (z.1 ≡ s)
          ⊎ ((bytes : Text) × (content : C) × (a.tar ≡ some bytes)
              × ((rs.sha256 ≡ []) ⊎ (digest bytes ≡ rs.sha256))
              × (extract bytes ≡ some content)
              × (lookup rs.name z.1.dirs ≡ some (record { content = content; marked = true })))
    pub kept : z.0 ≡ false → z.1.expectations ≡ s.expectations
    pub others : (n : Text) → IsOther n rs → lookup n z.1.dirs ≡ lookup n s.dirs
    pub hopes : (n : Text) → rs.name ≢ n → lookup n z.1.expectations ≡ lookup n s.expectations

  -- What is staged comes from a tar of the digest asked for, where one is.
  stage-origin :
      (a : SkillAnswers) (rs : ResolvedSkill) (content : C)
      → stage tree extract digest a rs ≡ some content
      → (bytes : Text) × (a.tar ≡ some bytes)
        × ((rs.sha256 ≡ []) ⊎ (digest bytes ≡ rs.sha256))
        × (extract bytes ≡ some content)
  unfolding stage
  stage-origin a rs content g = elim (Option-cases a.tar) [
    | inl o ↦ absurd (ground (arith, rw (o, stage) at g))
    | inr (bytes, o) ↦ let k = rw (o, stage) at g in (bytes, o, as_asked bytes k, ground (arith, k))
  ]
    where
      as_asked :
          (bytes : Text)
          → (if not (is_empty rs.sha256) && not (text_eq (digest bytes) rs.sha256)
              then none
              else if a.staged && a.hashed && a.marker_written
              then extract bytes
              else none)
            ≡ some content
          → (rs.sha256 ≡ []) ⊎ (digest bytes ≡ rs.sha256)
      as_asked bytes k = elim (Bool-cases (is_empty rs.sha256)) [
        | inl t ↦ inl (is_empty-nil rs.sha256 t)
        | inr f ↦ inr ((text_eq_iff (digest bytes) rs.sha256).0 (ground (arith, k, f)))
      ]

  insert_other :
      {V : Type 0} (k n : Text) (v : V) (m : Table V) → k ≢ n → lookup n (insert k v m) ≡ lookup n m
  insert_other k n v m d = ground (arith, lookup-insert k n v m, text_eq_iff k n)

  delete_other :
      {V : Type 0} (k n : Text) (m : Table V) → k ≢ n → lookup n (delete k m) ≡ lookup n m
  delete_other k n m d = ground (arith, lookup-delete k n m, text_eq_iff k n)

  insert_same : {V : Type 0} (k : Text) (v : V) (m : Table V) → lookup k (insert k v m) ≡ some v
  insert_same k v m = ground (arith, lookup-insert k k v m, text_eq_refl k)

  put_back_other :
      (name n : Text) (dirs : Table (Dir C)) (o : Option (Dir C))
      → name ≢ n
      → backup_of name ≢ n
      → lookup n (put_back tree extract digest name dirs o) ≡ lookup n dirs
  unfolding put_back
  put_back_other name n dirs none d e = refl
  put_back_other name n dirs (some x) d e =
      insert_other name n x (delete (backup_of name) dirs) d
      ∙ delete_other (backup_of name) n dirs e

  restore_other :
      (a : SkillAnswers) (name n : Text) (dirs : Table (Dir C))
      → name ≢ n
      → backup_of name ≢ n
      → lookup n (restore tree extract digest a name dirs) ≡ lookup n dirs
  unfolding restore
  restore_other a name n dirs d e =
      if_elim (λ z. lookup n z ≡ lookup n dirs) a.restored
        (put_back tree extract digest name dirs (lookup (backup_of name) dirs)) dirs
        (λ _. put_back_other name n dirs (lookup (backup_of name) dirs) d e) (λ _. refl)

  module _ (a : SkillAnswers) (rs : ResolvedSkill) (s : Skills C) where
    -- A sync that fails, and keeps the other directories.
    fails :
        (dirs : Table (Dir C))
        → ((n : Text) → IsOther n rs → lookup n dirs ≡ lookup n s.dirs)
        → IsSynced a rs s (false, record s { dirs = dirs })
    fails dirs f = record {
      installed = λ e. absurd (grind (arith, e));
      origin = λ e. absurd (grind (arith, e));
      kept = λ _. refl;
      others = f;
      hopes = λ n _. refl;
    }

    bring_in-IsSynced :
        (content : C) (dirs : Table (Dir C))
        → stage tree extract digest a rs ≡ some content
        → ((n : Text) → IsOther n rs → lookup n dirs ≡ lookup n s.dirs)
        → IsSynced a rs s (bring_in tree extract digest a rs content dirs s)
    unfolding bring_in skill_identity
    bring_in-IsSynced content dirs g f =
        let d : Dir C = record { content = content; marked = true } in
        let inside = insert rs.name d dirs in
        let placed : lookup rs.name (delete (backup_of rs.name) inside) ≡ some d =
          delete_other (backup_of rs.name) rs.name inside (backup_other rs.name)
          ∙ insert_same rs.name d dirs in
        if_elim (IsSynced a rs s) (not a.moved_in)
          (false, record s { dirs = restore tree extract digest a rs.name dirs }) _
          (λ _.
            fails (restore tree extract digest a rs.name dirs)
              (λ n o. restore_other a rs.name n dirs o.0 o.1 ∙ f n o))
          (λ _.
            if_elim (IsSynced a rs s) (not a.backup_removed) (false, record s { dirs = inside }) _
              (λ _. fails inside (λ n o. insert_other rs.name n d dirs o.0 ∙ f n o))
              (λ _. record {
                installed = λ _. record {
                  dir = d;
                  there = placed;
                  marked = refl;
                  expected = insert_same rs.name _ s.expectations;
                };
                origin = λ _.
                    let (bytes, t, h, e) = stage-origin a rs content g in
                    inr (bytes, content, t, h, e, placed);
                kept = λ e. absurd (grind (arith, e));
                others = λ n o.
                    delete_other (backup_of rs.name) n inside o.1
                    ∙ insert_other rs.name n d dirs o.0
                    ∙ f n o;
                hopes = λ n o. insert_other rs.name n _ s.expectations o;
              }))

    move_aside-IsSynced :
        (content : C) (dirs : Table (Dir C)) (o : Option (Dir C))
        → stage tree extract digest a rs ≡ some content
        → ((n : Text) → IsOther n rs → lookup n dirs ≡ lookup n s.dirs)
        → IsSynced a rs s (move_aside tree extract digest a rs content dirs s o)
    unfolding move_aside
    move_aside-IsSynced content dirs none g f = bring_in-IsSynced content dirs g f
    move_aside-IsSynced content dirs (some d) g f =
        let aside = insert (backup_of rs.name) d (delete rs.name dirs) in
        if_elim (IsSynced a rs s) a.moved_aside (bring_in tree extract digest a rs content aside s)
          (false, record s { dirs = dirs })
          (λ _. bring_in-IsSynced content aside g (λ n o.
            insert_other (backup_of rs.name) n d (delete rs.name dirs) o.1
            ∙ delete_other rs.name n dirs o.0
            ∙ f n o))
          (λ _. fails dirs f)

    install-IsSynced :
        (o : Option C)
        → stage tree extract digest a rs ≡ o
        → IsSynced a rs s (install tree extract digest a rs s o)
    unfolding install swap
    install-IsSynced none g = fails s.dirs (λ n _. refl)
    install-IsSynced (some content) g =
        let dirs = if a.cleared then delete (backup_of rs.name) s.dirs else s.dirs in
        move_aside-IsSynced content dirs (lookup rs.name dirs) g (λ n o.
          if_elim (λ z. lookup n z ≡ lookup n s.dirs) a.cleared (delete (backup_of rs.name) s.dirs)
            s.dirs (λ _. delete_other (backup_of rs.name) n s.dirs o.1) (λ _. refl))

    -- An expectation that a directory matches.
    matches-parts :
        (o : Option SkillExpectation) (p : Option (Dir C))
        → matches tree extract digest rs o p ≡ true
        → (want : SkillExpectation) × (d : Dir C) × (o ≡ some want)
          × (p ≡ some d)
          × (want.identity ≡ skill_identity rs)
          × (tree d.content ≡ want.tree)
          × (d.marked ≡ true)
    unfolding matches
    matches-parts none p v = absurd (grind (arith, v))
    matches-parts (some want) none v = absurd (grind (arith, v))
    matches-parts (some want) (some d) v = (
      want,
      d,
      refl,
      refl,
      (text_eq_iff want.identity (skill_identity rs)).0 (ground (arith, v)),
      (text_eq_iff (tree d.content) want.tree).0 (ground (arith, v)),
      ground (arith, v),
    )

    is_verified-IsInstalled : is_verified tree extract digest rs s ≡ true → IsInstalled rs s
    unfolding is_verified skill_identity
    is_verified-IsInstalled v =
        let (want, d, e, f, i, t, m) =
          matches-parts (lookup rs.name s.expectations) (lookup rs.name s.dirs) v in
        record {
          dir = d;
          there = f;
          marked = m;
          expected =
              e ∙ ap some (same_expectation want (skill_identity rs) (tree d.content) i (sym t));
        }

    -- Whichever of its calls fail: where syncSkill succeeds, the skill's directory is there, marked, with
    -- the tree that is expected for this very revision, path and digest, and it is either as it was, being
    -- verified, or what has been extracted from a tar of the digest asked for. Where it fails, no
    -- expectation has changed, so that the next sync checks or installs again. No directory but the
    -- skill's own and its backup is touched in any case.
    pub sync_skill-IsSynced : IsSynced a rs s (sync_skill tree extract digest a rs s)
    unfolding sync_skill
    sync_skill-IsSynced =
        if_elim (IsSynced a rs s) (is_verified tree extract digest rs s) (true, s) _
          (λ t. record {
            installed = λ _. is_verified-IsInstalled t;
            origin = λ _. inl refl;
            kept = λ _. refl;
            others = λ n _. refl;
            hopes = λ n _. refl;
          })
          (λ _. install-IsSynced (stage tree extract digest a rs) refl)

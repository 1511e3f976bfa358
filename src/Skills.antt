-- ===== src/Skills.antt =====
-- The skill directories that internal/supervisor/supervisor.go keeps: syncSkill and syncSkills.
pub mod Installing
pub mod Keeping
mod Samples
use cubepilot.Prelude.{
  Bool, true, false, not, ◌&&◌, ◌||◌, List, [], ◌∷◌, ◌++◌, Option, none, some, Text, utf8, is_empty,
  text_eq, contains, Table, lookup, insert, delete, map, if◌then◌else◌,
}
use cubepilot.Resolver.{ResolvedSkill}

-- A directory of Workspace/skills: its files but for the marker, and whether that is there.
pub record Dir (C : Type 0) : Type 0 where
  pub content : C
  pub marked : Bool

-- skillExpectation
pub record SkillExpectation : Type 0 where
  pub identity : Text
  pub tree : Text

-- The directories, and the supervisor's expectations.
pub record Skills (C : Type 0) : Type 0 where
  pub dirs : Table (Dir C)
  pub expectations : Table SkillExpectation

-- skillIdentity
unfoldable pub skill_identity : ResolvedSkill → Text
skill_identity rs = rs.revision ++ 0 ∷ (rs.path ++ 0 ∷ rs.sha256)

abbrev pub backup_of : Text → Text
backup_of name = name ++ utf8 ".backup"

-- What the calls of one syncSkill answer: the tar that is fetched, and whether the staging, the hash of
-- what is staged, the marker's write, the removal of an old backup, the two renames, the restore and
-- the removal of the backup succeed.
pub record SkillAnswers : Type 0 where
  pub tar : Option Text
  pub staged : Bool
  pub hashed : Bool
  pub marker_written : Bool
  pub cleared : Bool
  pub moved_aside : Bool
  pub moved_in : Bool
  pub restored : Bool
  pub backup_removed : Bool

-- `tree` is skill.TreeHash of a directory's files, `extract` skill.ExtractTar, `digest` the SHA-256 of
-- a tar in hex.
module _ {C : Type 0} (tree : C → Text) (extract : Text → Option C) (digest : Text → Text) where
  -- syncSkill, the expectation against the directory.
  unfoldable pub matches : ResolvedSkill → Option SkillExpectation → Option (Dir C) → Bool
  unfolding skill_identity
  matches rs none d = false
  matches rs (some want) none = false
  matches rs (some want) (some d) =
      text_eq want.identity (skill_identity rs) && text_eq (tree d.content) want.tree && d.marked

  -- syncSkill, its check of what is installed.
  unfoldable pub is_verified : ResolvedSkill → Skills C → Bool
  unfolding matches
  is_verified rs s = matches rs (lookup rs.name s.expectations) (lookup rs.name s.dirs)

  -- syncSkill, the rename of the backup to the skill's name.
  unfoldable pub put_back : Text → Table (Dir C) → Option (Dir C) → Table (Dir C)
  put_back name dirs none = dirs
  put_back name dirs (some d) = insert name d (delete (backup_of name) dirs)

  -- syncSkill, the restore after a swap that has failed.
  unfoldable pub restore : SkillAnswers → Text → Table (Dir C) → Table (Dir C)
  unfolding put_back
  restore a name dirs =
      if a.restored then put_back name dirs (lookup (backup_of name) dirs) else dirs

  -- syncSkill, from the second rename on.
  unfoldable pub bring_in :
      SkillAnswers → ResolvedSkill → C → Table (Dir C) → Skills C → Bool × Skills C
  unfolding restore
  bring_in a rs content dirs s =
      let inside = insert rs.name (record { content = content; marked = true }) dirs in
      let expected : SkillExpectation = record {
        identity = skill_identity rs;
        tree = tree content;
      } in
      if not a.moved_in
      then (false, record s { dirs = restore a rs.name dirs })
      else if not a.backup_removed
      then (false, record s { dirs = inside })
      else (
        true,
        record {
          dirs = delete (backup_of rs.name) inside;
          expectations = insert rs.name expected s.expectations;
        },
      )

  -- syncSkill, the first rename, where there is a directory.
  unfoldable pub move_aside :
      SkillAnswers → ResolvedSkill → C → Table (Dir C) → Skills C → Option (Dir C) → Bool × Skills C
  unfolding bring_in
  move_aside a rs content dirs s none = bring_in a rs content dirs s
  move_aside a rs content dirs s (some d) =
      if a.moved_aside
      then bring_in a rs content (insert (backup_of rs.name) d (delete rs.name dirs)) s
      else (false, record s { dirs = dirs })

  -- syncSkill, the swap of the directories.
  unfoldable pub swap : SkillAnswers → ResolvedSkill → C → Skills C → Bool × Skills C
  unfolding move_aside
  swap a rs content s =
      let dirs = if a.cleared then delete (backup_of rs.name) s.dirs else s.dirs in
      move_aside a rs content dirs s (lookup rs.name dirs)

  -- syncSkill, from the fetched tar to what is staged.
  unfoldable pub stage : SkillAnswers → ResolvedSkill → Option C
  stage a rs = elim a.tar [
    | none ↦ none
    | some bytes ↦
        if not (is_empty rs.sha256) && not (text_eq (digest bytes) rs.sha256)
        then none
        else if a.staged && a.hashed && a.marker_written
        then extract bytes
        else none
  ]

  -- syncSkill, behind the check.
  unfoldable pub install : SkillAnswers → ResolvedSkill → Skills C → Option C → Bool × Skills C
  unfolding swap
  install a rs s none = (false, s)
  install a rs s (some content) = swap a rs content s

  -- syncSkill
  unfoldable pub sync_skill : SkillAnswers → ResolvedSkill → Skills C → Bool × Skills C
  unfolding is_verified install stage
  sync_skill a rs s = if is_verified rs s then (true, s) else install a rs s (stage a rs)

  -- syncSkills, the loop over the directories; `removed` tells whether RemoveAll succeeds.
  unfoldable pub remove_unwanted :
      (Text → Bool) → List Text → List Text → Table (Dir C) → Bool × Table (Dir C)
  remove_unwanted removed wanted [] dirs = (true, dirs)
  remove_unwanted removed wanted (n ∷ ns) dirs =
      let skip = remove_unwanted removed wanted ns dirs in
      let gone = remove_unwanted removed wanted ns (delete n dirs) in
      let ours : Bool = elim (lookup n dirs) [ none ↦ false | some d ↦ d.marked ] in
      if contains wanted n || not ours then skip else if removed n then gone else (false, dirs)

  -- syncSkills, the loop over the wanted skills, which ends with the first that fails.
  unfoldable pub sync_each :
      (Text → SkillAnswers) → List ResolvedSkill → Bool × Skills C → Bool × Skills C
  unfolding sync_skill
  sync_each a rest (false, s) = (false, s)
  sync_each a [] (true, s) = (true, s)
  sync_each a (rs ∷ rest) (true, s) = sync_each a rest (sync_skill (a rs.name) rs s)

  -- syncSkills, behind the removals.
  unfoldable pub sync_wanted :
      (Text → SkillAnswers) → List ResolvedSkill → Skills C → Bool × Table (Dir C) → Bool × Skills C
  unfolding sync_each
  sync_wanted a wanted s (ok, dirs) = sync_each a wanted (ok, record s { dirs = dirs })

  -- syncSkills; the order of the wanted skills is that in which the map is ranged over.
  unfoldable pub sync_skills :
      (Text → Bool) → (Text → SkillAnswers) → List ResolvedSkill → Skills C → Bool × Skills C
  unfolding remove_unwanted sync_wanted
  sync_skills removed a wanted s =
      let wanted_names = map (λ (rs : ResolvedSkill). rs.name) wanted in
      let names = map (λ (e : Text × Dir C). e.0) s.dirs in
      sync_wanted a wanted s (remove_unwanted removed wanted_names names s.dirs)

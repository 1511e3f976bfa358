-- ===== src/Skills/Samples.antt =====
-- A workspace with a directory of the agent's own, one that is no longer wanted, and one skill to
-- install; the theorems at it. A directory's files are a text.
use cubepilot.Prelude.{
  ◌≡◌, refl, true, false, [], ◌∷◌, Option, none, some, Text, utf8, lookup, insert, delete, All,
  text_eq, contains,
}
use cubepilot.Resolver.{ResolvedSkill}
use cubepilot.Skills.{
  Skills, SkillAnswers, sync_skill, sync_skills, sync_wanted, sync_each, remove_unwanted,
}
use cubepilot.Skills.Installing.{IsSynced, IsInstalled, sync_skill-IsSynced}
use cubepilot.Skills.Keeping.{Others, ours, sync_skills_lem}

abbrev whole : Text → Text
whole t = t

abbrev unpack : Text → Option Text
unpack t = some t

abbrev k8s : ResolvedSkill
k8s = record { name = utf8 "k8s"; path = []; sha256 = utf8 "x1"; revision = utf8 "v1" }

abbrev answers : SkillAnswers
answers = record {
  tar = some (utf8 "x1");
  staged = true;
  hashed = true;
  marker_written = true;
  cleared = true;
  moved_aside = true;
  moved_in = true;
  restored = true;
  backup_removed = true;
}

abbrev skills : Skills Text
skills = record {
  dirs =
      (utf8 "mine", record { content = utf8 "notes"; marked = false })
      ∷ (utf8 "old", record { content = utf8 "x0"; marked = true })
      ∷ [];
  expectations = [];
}

-- The run of it: the old one is gone, the agent's own has stayed.
synced :
    (sync_skills whole unpack whole (λ _. true) (λ _. answers) (k8s ∷ []) skills).1.dirs
    ≡ (utf8 "mine", record { content = utf8 "notes"; marked = false })
      ∷ (utf8 "k8s", record { content = utf8 "x1"; marked = true })
      ∷ []
unfolding sync_skills sync_wanted sync_each remove_unwanted sync_skill lookup insert delete contains
    text_eq
synced = refl

sync_skill-IsSynced_example :
    IsSynced whole unpack whole answers k8s skills
      (sync_skill whole unpack whole answers k8s skills)
sync_skill-IsSynced_example = sync_skill-IsSynced whole unpack whole answers k8s skills

sync_skills_lem_example :
    let z = sync_skills whole unpack whole (λ _. true) (λ _. answers) (k8s ∷ []) skills in
    ((n : Text)
      → Others whole unpack whole n (k8s ∷ [])
      → ours whole unpack whole (lookup n skills.dirs) ≡ false
      → lookup n z.1.dirs ≡ lookup n skills.dirs)
    × (z.0 ≡ true → All (λ rs. IsInstalled whole unpack whole rs z.1) (k8s ∷ []))
    × (z.0 ≡ true
        → (n : Text) → Others whole unpack whole n (k8s ∷ [])
        → ours whole unpack whole (lookup n skills.dirs) ≡ true
        → lookup n z.1.dirs ≡ none)
sync_skills_lem_example =
    sync_skills_lem whole unpack whole (λ _. true) (λ _. answers) (k8s ∷ []) skills (tt, tt)

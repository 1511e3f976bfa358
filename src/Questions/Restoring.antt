-- ===== src/Questions/Restoring.antt =====
-- handlePendingQuestion of internal/server/questions.go: which cards a reload restores, and that their
-- end reaches them.
use cubepilot.Prelude.{ℕ, ◌*◌, ◌-◌, ◌≤◌, ◌≡◌, List, [], ◌∷◌, Option, some, Text, map}
use cubepilot.Approvals.{canonical_session_key}
use cubepilot.Prelude.Int.{pos}
use cubepilot.Questions.Showing.{IsWaiting}
use cubepilot.Questions.{Question, QuestionRecord, QuestionEntry}

-- A session of that canonical form is known.
abbrev IsAddressed : Text → Option Text → Type 0
IsAddressed key o = (k : Text) × (o ≡ some k) × (canonical_session_key k ≡ key)

-- What a card is given: the questions without their secrets, and no more time than is left.
pub record IsEntry (now : ℕ) (rec : QuestionRecord) (e : QuestionEntry) : Type 0 where
  pub same_id : e.id ≡ rec.id
  pub items :
      e.questions
      ≡ map
          (λ (q : Question). record {
            question_id = q.question_id;
            header = q.header;
            question = q.question;
            options = q.options;
            multi_select = q.multi_select;
            is_other = q.is_other;
          })
          rec.questions
  pub left :
      (ms : ℕ) → rec.expires_at_ms ≡ pos ms → e.timeout_seconds * 1000000000 ≤ ms * 1000000 - now

-- The cards of a list of records: of those that wait, one for each, in their order.
pub data Shown (now : ℕ) (key : Text) : List QuestionRecord → List QuestionEntry → Type 0 where
  ends : Shown now key [] []
  shows :
      (rec : QuestionRecord) (e : QuestionEntry) (recs : List QuestionRecord)
      (es : List QuestionEntry)
      → IsWaiting now key rec
      → IsEntry now rec e
      → Shown now key recs es
      → Shown now key (rec ∷ recs) (e ∷ es)
  skips :
      (rec : QuestionRecord) (recs : List QuestionRecord) (es : List QuestionEntry)
      → ¬ IsWaiting now key rec
      → Shown now key recs es
      → Shown now key (rec ∷ recs) es

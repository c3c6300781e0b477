-- ===== src/Tickets/Validation.antt =====
-- The checks that ticket_store.py makes of its arguments. A required value that is `None` fails
-- as the empty text does, so it is given as the empty text.
use dtlab_control_center.Prelude.{
  ℕ, Bool, true, false, ◌||◌, not, Option, none, some, List, [], ◌∷◌, Text, codes, text_eq,
  text_lower, is_space, drop_spaces, strip, Result, ok, err, ◌>>=◌, any, length, ltb, leb, ◌==◌,
  ◌&&◌, if◌then◌else◌,
}
use dtlab_control_center.Tickets.Model

abbrev pub Checked : Type 0 → Type 0
Checked A = Result Model.Error A

abbrev pub is_blank : Text → Bool
is_blank [] = true
is_blank (c ∷ s) = false

-- _required_text
unfoldable pub required_text : Text → ℕ → Checked Text
unfolding drop_spaces is_space
required_text value max_length =
    let text = strip value in
    if is_blank text || ltb max_length (length text) then err Model.validation else ok text

-- _optional_text
unfoldable pub optional_text : Option Text → ℕ → Checked (Option Text)
unfolding drop_spaces is_space
optional_text none max_length = ok none
optional_text (some value) max_length =
    let text = strip value in
    if is_blank text
    then ok none
    else if ltb max_length (length text)
    then err Model.validation
    else ok (some text)

-- The value that a text names in a list of names; a missing name is an error.
unfoldable pub named : {A : Type 0} → Text → List (Text × A) → Checked A
named t [] = err Model.validation
named t ((name, a) ∷ rest) = let other = named t rest in if text_eq t name then ok a else other

abbrev priorities : List (Text × Model.Priority)
priorities =
    (codes "p1", Model.p1)
    ∷ (codes "p2", Model.p2)
    ∷ (codes "p3", Model.p3)
    ∷ (codes "p4", Model.p4)
    ∷ []

abbrev statuses : List (Text × Model.Status)
statuses =
    (codes "new", Model.new)
    ∷ (codes "acknowledged", Model.acknowledged)
    ∷ (codes "investigating", Model.investigating)
    ∷ (codes "remediating", Model.remediating)
    ∷ (codes "waiting_ot", Model.waiting_ot)
    ∷ (codes "resolved", Model.resolved)
    ∷ (codes "closed", Model.closed)
    ∷ (codes "false_positive", Model.false_positive)
    ∷ (codes "accepted_risk", Model.accepted_risk)
    ∷ (codes "suppressed", Model.suppressed)
    ∷ []

abbrev task_statuses : List (Text × Model.TaskStatus)
task_statuses =
    (codes "pending", Model.pending)
    ∷ (codes "completed", Model.completed)
    ∷ (codes "skipped", Model.skipped)
    ∷ []

-- _normalize_priority
unfoldable pub normalize_priority : Text → Checked Model.Priority
unfolding required_text named text_lower text_eq
normalize_priority value = do text ← required_text value 2; named (text_lower text) priorities

-- _normalize_status
unfoldable pub normalize_status : Text → Checked Model.Status
unfolding required_text named text_lower text_eq
normalize_status value = do text ← required_text value 32; named (text_lower text) statuses

-- The status check at the head of update_task_status.
unfoldable pub normalize_task_status : Text → Checked Model.TaskStatus
unfolding required_text named text_lower text_eq
normalize_task_status value = do
  text ← required_text value 32
  named (text_lower text) task_statuses

abbrev is_hex : ℕ → Bool
is_hex c = (leb 48 c && leb c 57) || (leb 97 c && leb c 102)

-- A required text, lowered, that has to be a SHA-256 in hexadecimal.
unfoldable pub sha256_text : Text → ℕ → Checked Text
unfolding required_text text_lower
sha256_text value max_length = do
  text ← required_text value max_length
  let digest = text_lower text
  if not (length digest == 64) || any (λ c. not (is_hex c)) digest
      then err Model.validation
      else ok digest

-- One mapping of the `tasks` argument.
pub record TaskInput : Type 0 where
  pub title : Text
  pub description : Option Text

-- _task_definitions: the normalised titles, each once, with their descriptions.
unfoldable pub definitions_from : List Text → List TaskInput → Checked (List (Text × Option Text))
unfolding required_text optional_text text_eq
definitions_from requested [] = ok []
definitions_from requested (raw ∷ rest) =
    let skipped = definitions_from requested rest in
    do
      title ← required_text raw.title 1024
      let others = definitions_from (title ∷ requested) rest
      if any (text_eq title) requested then skipped else do
        description ← optional_text raw.description 16384
        definitions ← others
        ok ((title, description) ∷ definitions)

unfoldable pub task_definitions : List TaskInput → Checked (List (Text × Option Text))
unfolding definitions_from
task_definitions tasks = definitions_from [] tasks

-- ===== src/Hours/Payload.antt =====
-- The JSON text that src/dtlab/services/operational_settings.py keeps of a policy.
use dtlab_control_center.Prelude.{
  ℕ, Bool, true, ◌&&◌, Option, none, some, List, [], ◌∷◌, Text, codes, text_eq, text_lt, any,
  Result, ok, err, ◌>>=◌, if◌then◌else◌,
}
use dtlab_control_center.Json.{
  Json, boolean, number, string, array, object, Items, nil, cons, Members, end, member, get,
}
use dtlab_control_center.Hours.{Policy}

-- `B` stands for JSON texts: `json.dumps` of a value as it stands, `json.loads`, the JSON literal of
-- an `int`, and `int`
pub record JsonLibrary (B : Type 0) : Type 0 where
  pub dumps : Json → B
  pub loads : B → Option Json
  pub literal : ℕ → Text
  pub int : Json → Option ℕ

-- DEFAULT_BUSINESS_HOURS, the default of every field
abbrev pub default_hours : Policy
default_hours = record {
  enabled = true;
  timezone = codes "Europe/Rome";
  start = codes "09:00";
  end = codes "18:00";
  weekdays = 0 ∷ 1 ∷ 2 ∷ 3 ∷ 4 ∷ [];
}

-- `sort_keys=True`
unfoldable pub insert_member : Text → Json → Members → Members
unfolding text_lt
insert_member k v end = member k v end
insert_member k v (member k1 v1 rest) =
    let later = insert_member k v rest in
    if text_lt k k1 then member k v (member k1 v1 rest) else member k1 v1 later

unfoldable pub sort_members : Members → Members
unfolding insert_member
sort_members end = end
sort_members (member k v rest) = insert_member k v (sort_members rest)

-- The fields that BusinessHoursPolicy takes
abbrev pub field_names : List Text
field_names =
    codes "enabled" ∷ codes "timezone" ∷ codes "start" ∷ codes "end" ∷ codes "weekdays" ∷ []

unfoldable pub only_fields : Members → Bool
unfolding text_eq
only_fields end = true
only_fields (member k v rest) = any (text_eq k) field_names && only_fields rest

-- A TypeError or ValueError of a stored text that is no policy
pub data PayloadError : Type 0 where
  bad_payload : PayloadError

abbrev pub or_bad : {A : Type 0} → Option A → Result PayloadError A
or_bad none = err bad_payload
or_bad (some a) = ok a

-- A field of the payload or its default; a value of another type, which no call stores, is an error.
abbrev pub bool_or : Bool → Option Json → Result PayloadError Bool
bool_or b none = ok b
bool_or b (some (boolean v)) = ok v
bool_or b (some v) = err bad_payload

abbrev pub string_or : Text → Option Json → Result PayloadError Text
string_or t none = ok t
string_or t (some (string v)) = ok v
string_or t (some v) = err bad_payload

module _ {B : Type 0} (c : JsonLibrary B) where
  unfoldable pub items_of : List ℕ → Items
  items_of [] = nil
  items_of (d ∷ ds) = cons (number (c.literal d)) (items_of ds)

  -- `asdict(policy)` with the list of its weekdays
  unfoldable pub payload_of : Policy → Members
  unfolding items_of
  payload_of p = member (codes "enabled") (boolean p.enabled) (
      member (codes "timezone") (string p.timezone) (
        member (codes "start") (string p.start) (
          member (codes "end") (string p.end)
            (member (codes "weekdays") (array (items_of p.weekdays)) end))))

  unfoldable pub encode_policy : Policy → B
  unfolding payload_of sort_members
  encode_policy p = c.dumps (object (sort_members (payload_of p)))

  -- `tuple(int(day) for day in …)`
  unfoldable pub days_of : Items → Result PayloadError (List ℕ)
  days_of nil = ok []
  days_of (cons v rest) = do d ← or_bad (c.int v); ds ← days_of rest; ok (d ∷ ds)

  abbrev pub days_or : List ℕ → Option Json → Result PayloadError (List ℕ)
  days_or ds none = ok ds
  days_or ds (some (array xs)) = days_of xs
  days_or ds (some v) = err bad_payload

  -- `BusinessHoursPolicy(**payload)`, without its validation
  unfoldable pub policy_of : Members → Result PayloadError Policy
  unfolding get only_fields days_of
  policy_of m = do
    weekdays ← days_or default_hours.weekdays (get (codes "weekdays") m)
    enabled ← bool_or default_hours.enabled (get (codes "enabled") m)
    timezone ← string_or default_hours.timezone (get (codes "timezone") m)
    start ← string_or default_hours.start (get (codes "start") m)
    finish ← string_or default_hours.end (get (codes "end") m)
    if only_fields m
        then ok (record {
          enabled = enabled;
          timezone = timezone;
          start = start;
          end = finish;
          weekdays = weekdays;
        })
        else err bad_payload

  unfoldable pub decode_policy : B → Result PayloadError Policy
  unfolding policy_of
  decode_policy text = elim (c.loads text) [
    | some (object m) ↦ policy_of m
    | other ↦ err bad_payload
  ]

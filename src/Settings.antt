-- ===== src/Settings.antt =====
-- The settings store of src/dtlab/services/operational_settings.py, on two SQLite tables. Business hours are kept
-- as JSON text, Syslog settings as the dictionary that the text stands for.
pub mod Kept
pub mod Tests
use dtlab_control_center.Prelude.{
  ℕ, Bool, true, false, ◌&&◌, ◌||◌, not, Option, none, some, List, [], ◌∷◌, ◌++◌, Text, codes,
  text_eq, strip, length, any, ltb, leb, ◌==◌, find, update, is_some, map, Result, ok, err, ◌>>=◌,
  ◌>>◌, raise_if, if◌then◌else◌,
}
use dtlab_control_center.Hours.{Calendar, CalendarError, Policy, Window, validate}
use dtlab_control_center.Hours.Payload.{
  JsonLibrary, PayloadError, default_hours, encode_policy, decode_policy,
}

-- What the store takes from the standard library
pub record Library (B : Type 0) : Type 0 where
  pub calendar : Calendar
  pub json : JsonLibrary B

-- The values that DEFAULT_SYSLOG has keys for
pub record Syslog : Type 0 where
  pub enabled : Bool
  pub host : Text
  pub port : ℕ
  pub protocol : Text
  pub format : Text
  pub include_cisco : Bool
  pub include_host_ot : Bool
  pub include_tickets : Bool

pub data SettingsError : Type 0 where
  bad_policy : CalendarError → SettingsError
  bad_text : PayloadError → SettingsError
  bad_port bad_protocol no_receiver no_name too_long integrity no_operator : SettingsError

pub record Operator : Type 0 where
  pub id : Text
  pub display_name : Text
  pub role : Text
  pub active : Bool
  pub created_at : Text
  pub updated_at : Text

-- A row of operational_settings
pub record Setting (A : Type 0) : Type 0 where
  pub payload : A
  pub updated_at : Text
  pub updated_by : Text

-- The rows of the two keys, and the operators
pub record SettingsDb (B : Type 0) : Type 0 where
  pub hours_row : Option (Setting B)
  pub syslog_row : Option (Setting Syslog)
  pub operators : List Operator

-- DEFAULT_SYSLOG
abbrev pub default_syslog : Syslog
default_syslog = record {
  enabled = false;
  host = [];
  port = 6514;
  protocol = codes "TCP+TLS";
  format = codes "CEF Extended Time Precision";
  include_cisco = true;
  include_host_ot = true;
  include_tickets = true;
}

abbrev pub has_name : Text → Operator → Bool
has_name name o = text_eq o.display_name name

abbrev pub has_id : Text → Operator → Bool
has_id id o = text_eq o.id id

-- `actor.strip() or "system"`
abbrev pub actor_or_system : Text → Text
actor_or_system actor = if length (strip actor) == 0 then codes "system" else strip actor

-- OperationalSettingsStore._initialize, with its INSERT OR IGNORE
unfoldable pub initialize : {B : Type 0} → Text → SettingsDb B → SettingsDb B
unfolding find text_eq
initialize now db =
    if is_some (find (has_id (codes "operator:dtlab")) db.operators)
      || is_some (find (has_name (codes "Operatore DTLab")) db.operators)
    then db
    else record db {
      operators =
          db.operators
          ++ record {
            id = codes "operator:dtlab";
            display_name = codes "Operatore DTLab";
            role = codes "Analista OT";
            active = true;
            created_at = now;
            updated_at = now;
          }
            ∷ [];
    }

abbrev pub policy_error : {A : Type 0} → Result CalendarError A → Result SettingsError A
policy_error (ok a) = ok a
policy_error (err e) = err (bad_policy e)

unfoldable pub set_business_hours :
    {B : Type 0}
    → Library B
    → Text
    → Text
    → Policy
    → SettingsDb B
    → Result SettingsError (SettingsDb B)
unfolding validate encode_policy
set_business_hours c now actor policy db = do
  window ← policy_error (validate c.calendar policy)
  ok (record db {
    hours_row = some (record {
      payload = encode_policy c.json policy;
      updated_at = now;
      updated_by = actor_or_system actor;
    });
  })

abbrev pub stored_or : {A : Type 0} → A → Option (Setting A) → A
stored_or a none = a
stored_or a (some row) = row.payload

-- The policy of the stored text, or the default where there is none
abbrev pub stored_policy :
    {B : Type 0} → JsonLibrary B → Option (Setting B) → Result SettingsError Policy
stored_policy c none = ok default_hours
stored_policy c (some row) = elim (decode_policy c row.payload) [
  | ok policy ↦ ok policy
  | err e ↦ err (bad_text e)
]

unfoldable pub get_business_hours :
    {B : Type 0} → Library B → SettingsDb B → Result SettingsError Policy
unfolding validate decode_policy
get_business_hours c db = do
  policy ← stored_policy c.json db.hours_row
  window ← policy_error (validate c.calendar policy)
  ok policy

abbrev pub get_syslog : {B : Type 0} → SettingsDb B → Syslog
get_syslog db = stored_or default_syslog db.syslog_row

-- OperationalSettingsStore.set_syslog, of the defaults updated with what is given
unfoldable pub set_syslog :
    {B : Type 0} → Text → Text → Syslog → SettingsDb B → Result SettingsError (SettingsDb B)
unfolding text_eq
set_syslog now actor given db = do
  let host = strip given.host
  raise_if (not (leb 1 given.port && leb given.port 65535)) bad_port
  raise_if (not (any (text_eq given.protocol) (codes "UDP" ∷ codes "TCP" ∷ codes "TCP+TLS" ∷ [])))
      bad_protocol
  raise_if (given.enabled && (length host == 0)) no_receiver
  ok (record db {
    syslog_row = some (record {
      payload = record given { host = host };
      updated_at = now;
      updated_by = actor_or_system actor;
    });
  })

-- The row that an upsert changes
abbrev pub changed : Text → Bool → Text → Operator → Operator
changed role active now o = record o { role = role; active = active; updated_at = now }

-- INSERT … ON CONFLICT(display_name) DO UPDATE; a conflict on the identifier alone is an IntegrityError.
unfoldable pub upsert_operator : Operator → List Operator → Result SettingsError (List Operator)
unfolding find update text_eq
upsert_operator o operators =
    if is_some (find (has_name o.display_name) operators)
    then ok (update (has_name o.display_name) (changed o.role o.active o.updated_at) operators)
    else if is_some (find (has_id o.id) operators)
    then err integrity
    else ok (operators ++ o ∷ [])

-- The row that save_operator writes; `identifier` is the `uuid5` of the case-folded name.
abbrev pub operator_row : (Text → Text) → Text → Text → Text → Bool → Operator
operator_row identifier now name role active = record {
  id = codes "operator:" ++ identifier name;
  display_name = name;
  role = role;
  active = active;
  created_at = now;
  updated_at = now;
}

abbrev pub or_missing : Option Operator → Result SettingsError Operator
or_missing none = err no_operator
or_missing (some o) = ok o

unfoldable pub save_operator :
    {B : Type 0}
    → (Text → Text)
    → Text
    → Text
    → Text
    → Bool
    → SettingsDb B
    → Result SettingsError (Operator × SettingsDb B)
unfolding upsert_operator find text_eq
save_operator identifier now display_name role active db = do
  let name = strip display_name
  let duty = strip role
  raise_if ((length name == 0) || (length duty == 0)) no_name
  raise_if (ltb 128 (length name) || ltb 128 (length duty)) too_long
  operators ← upsert_operator (operator_row identifier now name duty active) db.operators
  saved ← or_missing (find (has_name name) operators)
  ok (saved, record db { operators = operators })

-- The calls that write
pub data Call : Type 0 where
  set_hours : Text → Policy → Call
  set_log : Text → Syslog → Call
  save : Text → Text → Bool → Call
  restart : Call

abbrev pub db_after :
    {A B : Type 0} → SettingsDb B → Result SettingsError (A × SettingsDb B) → SettingsDb B
db_after db (ok r) = r.1
db_after db (err e) = db

abbrev pub or_same :
    {B : Type 0} → SettingsDb B → Result SettingsError (SettingsDb B) → SettingsDb B
or_same db (ok after) = after
or_same db (err e) = db

-- One call at a time: an error leaves the tables as they were.
unfoldable pub serve_call :
    {B : Type 0} → Library B → (Text → Text) → Text → Call → SettingsDb B → SettingsDb B
unfolding set_business_hours set_syslog save_operator initialize
serve_call c identifier now (set_hours actor policy) db =
    or_same db (set_business_hours c now actor policy db)
serve_call c identifier now (set_log actor given) db = or_same db (set_syslog now actor given db)
serve_call c identifier now (save display_name role active) db =
    db_after db (save_operator identifier now display_name role active db)
serve_call c identifier now restart db = initialize now db

-- The calls with the times that they see
unfoldable pub serve_calls :
    {B : Type 0} → Library B → (Text → Text) → List (Text × Call) → SettingsDb B → SettingsDb B
unfolding serve_call
serve_calls c identifier [] db = db
serve_calls c identifier (call ∷ rest) db =
    serve_calls c identifier rest (serve_call c identifier call.0 call.1 db)

abbrev pub no_settings : {B : Type 0} → SettingsDb B
no_settings = record { hours_row = none; syslog_row = none; operators = [] }

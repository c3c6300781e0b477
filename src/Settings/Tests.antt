-- ===== src/Settings/Tests.antt =====
-- A store with a policy, a receiver and two operators, one of which is saved twice.
use dtlab_control_center.Prelude.{
  ℕ, zero, suc, ◌≡◌, refl, ap, true, false, Option, none, some, List, [], ◌∷◌, Text, codes,
  text_lower, is_space, drop_spaces, length, text_eq, ok, err,
}
use dtlab_control_center.Json.{Json, null, number, object, end, member}
use dtlab_control_center.Hours.{naive, Calendar, Zone, Policy}
use dtlab_control_center.Hours.Payload.{
  JsonLibrary, encode_policy, decode_policy, only_fields, bad_payload,
}
use dtlab_control_center.Hours.Stored.{JsonLaws}
use dtlab_control_center.Settings.{
  Library, Call, set_hours, set_log, save, restart, SettingsDb, integrity, default_syslog,
  set_business_hours, get_business_hours, save_operator, serve_calls, no_settings,
}
use dtlab_control_center.Settings.Kept.{IsSettled, serve_calls-IsSettled, get-set_business_hours}

abbrev utc : Zone
utc = record { to_local = λ t. some (record { wall = t; fold = false }); to_utc = λ l. some l.wall }

abbrev calendar : Calendar
calendar = record {
  zone_info = λ name. some utc;
  time_of = λ t. some (record { clock = length t; offset = naive });
}

abbrev tally : ℕ → Text
tally zero = []
tally (suc n) = 49 ∷ tally n

abbrev count : Json → Option ℕ
count (number s) = some (length s)
count v = none

-- A JSON text stands for its value, and a number for its digits, as many as it says.
abbrev json : JsonLibrary Json
json = record { dumps = λ v. v; loads = some; literal = tally; int = count }

length-tally : (n : ℕ) → length (tally n) ≡ n
length-tally zero = refl
length-tally (suc n) = ap suc (length-tally n)

json_laws : JsonLaws json
json_laws = record { reads_back = λ v h. refl; reads_int = λ n. ap some (length-tally n) }

abbrev library : Library Json
library = record { calendar = calendar; json = json }

abbrev hours : Policy
hours = record {
  enabled = true;
  timezone = codes "UTC";
  start = codes "9:00";
  end = codes "18:00";
  weekdays = 1 ∷ 2 ∷ [];
}

abbrev calls : List (Text × Call)
calls =
    (codes "t0", restart)
    ∷ (codes "t1", set_hours (codes "ann") hours)
    ∷ (
      codes "t2",
      set_log (codes "ann") (record default_syslog { enabled = true; host = codes "siem" }),
    )
    ∷ (codes "t3", save (codes "Ann") (codes "Lead") true)
    ∷ (codes "t4", save (codes "Ann") (codes "Analyst") false)
    ∷ []

serve_calls-IsSettled_example :
    IsSettled library (serve_calls library (λ name. name) calls no_settings)
serve_calls-IsSettled_example = serve_calls-IsSettled library (λ name. name) calls

abbrev with_hours : SettingsDb Json
with_hours = record no_settings {
  hours_row = some (record {
    payload = encode_policy json hours;
    updated_at = codes "t1";
    updated_by = codes "ann";
  });
}

hours_set : set_business_hours library (codes "t1") (codes "ann") hours no_settings ≡ ok with_hours
unfolding set_business_hours is_space drop_spaces
hours_set = refl

get-set_business_hours_example : get_business_hours library with_hours ≡ ok hours
get-set_business_hours_example =
    get-set_business_hours library (codes "t1") (codes "ann") hours no_settings with_hours json_laws
      hours_set

-- A text with a key that BusinessHoursPolicy does not take
unknown_field : decode_policy json (object (member (codes "color") null end)) ≡ err bad_payload
unfolding decode_policy only_fields text_eq
unknown_field = refl

-- A name that differs in case only has the identifier of the first, which is no conflict on the name.
abbrev one_operator : SettingsDb Json
one_operator = record no_settings {
  operators =
      record {
        id = codes "operator:ann";
        display_name = codes "Ann";
        role = codes "Lead";
        active = true;
        created_at = codes "t";
        updated_at = codes "t";
      }
      ∷ [];
}

case_only :
    save_operator text_lower (codes "t") (codes "ANN") (codes "Lead") true one_operator
    ≡ err integrity
unfolding save_operator is_space drop_spaces text_lower
case_only = refl

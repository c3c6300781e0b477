-- ===== src/Settings/Kept.antt =====
-- What the tables keep through every history of calls.
use dtlab_control_center.Prelude.{
  ◌≤◌, ◌≡◌, refl, sym, subst, Bool, true, false, ◌&&◌, ◌||◌, not, Option, none, some, List, [], ◌∷◌,
  ◌++◌, Text, codes, text_eq, strip, length, any, ltb, leb, ◌==◌, find, update, is_some, Distinct,
  Distinct-append, Distinct-update, Bool-cases, Result-cases, inl, inr, arith, bind_ok, ok_inj, ok,
  raise_if,
}
use dtlab_control_center.Hours.{Policy, Window, validate}
use dtlab_control_center.Hours.Payload.{encode_policy}
use dtlab_control_center.Hours.Stored.{JsonLaws, decode-encode}
use dtlab_control_center.Settings.{
  Library, Syslog, bad_port, bad_protocol, no_receiver, no_name, too_long, Operator, Setting,
  SettingsDb, has_name, has_id, initialize, policy_error, set_business_hours, get_business_hours,
  set_syslog, changed, stored_policy, upsert_operator, operator_row, or_missing, save_operator,
  Call, set_hours, set_log, save, restart, db_after, or_same, serve_call, serve_calls, no_settings,
}

-- The text of a policy that `validate` accepts
abbrev pub HoursFit : {B : Type 0} → Library B → Option (Setting B) → Type 0
HoursFit c none = Unit
HoursFit c (some row) =
    (p : Policy) × (row.payload ≡ encode_policy c.json p)
    × ((w : Window) × (validate c.calendar p ≡ ok w))

-- A port in range, and a receiver where sending is enabled
pub record SyslogFits (s : Syslog) : Type 0 where
  pub port_from : 1 ≤ s.port
  pub port_to : s.port ≤ 65535
  pub receiver : s.enabled ≡ true → 1 ≤ length s.host

abbrev pub SyslogRowFits : Option (Setting Syslog) → Type 0
SyslogRowFits none = Unit
SyslogRowFits (some row) = SyslogFits row.payload

pub record IsSettled {B : Type 0} (c : Library B) (db : SettingsDb B) : Type 0 where
  pub hours : HoursFit c db.hours_row
  pub log : SyslogRowFits db.syslog_row
  pub ids : Distinct (λ (o : Operator). o.id) db.operators
  pub names : Distinct (λ (o : Operator). o.display_name) db.operators

none_of : {A : Type 0} (o : Option A) → is_some o ≡ false → o ≡ none
none_of none h = refl
none_of (some a) h = absurd (ground arith)

module _ {B : Type 0} (c : Library B) where
  set_business_hours-IsSettled :
      (now actor : Text) (policy : Policy) (db : SettingsDb B)
      → IsSettled c db
      → IsSettled c (or_same db (set_business_hours c now actor policy db))
  unfolding set_business_hours
  set_business_hours-IsSettled now actor policy db h =
      elim (Result-cases (validate c.calendar policy)) [
        | inr (e, bad) ↦ rw bad h
        | inl (w, good) ↦
            rw good record {
              hours = (policy, refl, (w, good));
              log = h.log;
              ids = h.ids;
              names = h.names;
            }
      ]

  set_syslog-IsSettled :
      (now actor : Text) (given : Syslog) (db : SettingsDb B)
      → IsSettled c db
      → IsSettled c (or_same db (set_syslog now actor given db))
  unfolding set_syslog
  set_syslog-IsSettled now actor given db h = elim (Result-cases (set_syslog now actor given db)) [
    | inr (e, bad) ↦ rw bad h
    | inl (after, done) ↦
        let (u1, port, h1) =
          bind_ok (raise_if (not (leb 1 given.port && leb given.port 65535)) bad_port) _ after
            done in
        let (u2, protocol, h2) =
          bind_ok
            (raise_if
              (not
                (any (text_eq given.protocol) (codes "UDP" ∷ codes "TCP" ∷ codes "TCP+TLS" ∷ [])))
              bad_protocol)
            _ after h1 in
        let (u3, receiver, h3) =
          bind_ok (raise_if (given.enabled && (length (strip given.host) == 0)) no_receiver) _ after
            h2 in
        rw done (
          rw (sym (ok_inj h3)) record {
            hours = h.hours;
            log = record {
              port_from = ground arith;
              port_to = ground arith;
              receiver = λ on. ground arith;
            };
            ids = h.ids;
            names = h.names;
          })
  ]

  -- Operators with distinct identifiers and distinct names
  abbrev Apart : List Operator → Type 0
  Apart os = Distinct (λ (o : Operator). o.id) os × Distinct (λ (o : Operator). o.display_name) os

  upsert-Apart :
      (o : Operator) (os after : List Operator)
      → Apart os
      → upsert_operator o os ≡ ok after
      → Apart after
  unfolding upsert_operator
  upsert-Apart o os after h done = elim (Bool-cases (is_some (find (has_name o.display_name) os))) [
    | inl known ↦
        let same : update (has_name o.display_name) (changed o.role o.active o.updated_at) os
            ≡ after =
          ok_inj (rw known at done) in
        rw (sym same) (
          Distinct-update (λ (p : Operator). p.id) _ (changed o.role o.active o.updated_at)
              (λ p. refl) os h.0,
          Distinct-update (λ (p : Operator). p.display_name) _
              (changed o.role o.active o.updated_at) (λ p. refl) os h.1,
        )
    | inr new ↦ elim (Bool-cases (is_some (find (has_id o.id) os))) [
      | inl taken ↦ absurd (ground arith)
      | inr free ↦
          let same : os ++ o ∷ [] ≡ after = ok_inj (rw (new, free) at done) in
          rw (sym same) (
            Distinct-append (λ (p : Operator). p.id) o os h.0 (none_of _ free),
            Distinct-append (λ (p : Operator). p.display_name) o os h.1 (none_of _ new),
          )
    ]
  ]

  save_operator-IsSettled :
      (identifier : Text → Text) (now display_name role : Text) (active : Bool) (db : SettingsDb B)
      → IsSettled c db
      → IsSettled c (db_after db (save_operator identifier now display_name role active db))
  unfolding save_operator
  save_operator-IsSettled identifier now display_name role active db h =
      elim (Result-cases (save_operator identifier now display_name role active db)) [
        | inr (e, bad) ↦ rw bad h
        | inl (result, done) ↦
            let name = strip display_name in
            let (u1, named, h1) =
              bind_ok (raise_if ((length name == 0) || (length (strip role) == 0)) no_name) _ result
                done in
            let (u2, short, h2) =
              bind_ok (raise_if (ltb 128 (length name) || ltb 128 (length (strip role))) too_long) _
                result h1 in
            let (operators, added, h3) =
              bind_ok
                (upsert_operator (operator_row identifier now name (strip role) active)
                  db.operators)
                _ result h2 in
            let (saved, found, h4) =
              bind_ok (or_missing (find (has_name name) operators)) _ result h3 in
            let apart = upsert-Apart _ db.operators operators (h.ids, h.names) added in
            let same : Path (Operator × SettingsDb B) (saved, record db { operators = operators })
                result =
              ok_inj h4 in
            rw done (
              subst (λ (r : Operator × SettingsDb B). IsSettled c r.1) same
                (record { hours = h.hours; log = h.log; ids = apart.0; names = apart.1 }))
      ]

  initialize-IsSettled :
      (now : Text) (db : SettingsDb B) → IsSettled c db → IsSettled c (initialize now db)
  unfolding initialize
  initialize-IsSettled now db h =
      elim (Bool-cases (is_some (find (has_id (codes "operator:dtlab")) db.operators))) [
        | inl there ↦ rw there h
        | inr free ↦
            elim (Bool-cases (is_some (find (has_name (codes "Operatore DTLab")) db.operators))) [
              | inl there ↦ rw (free, there) h
              | inr new ↦
                  rw (free, new)
                    record {
                      hours = h.hours;
                      log = h.log;
                      ids =
                          Distinct-append (λ (p : Operator). p.id) _ db.operators h.ids
                            (none_of _ free);
                      names =
                          Distinct-append (λ (p : Operator). p.display_name) _ db.operators h.names
                            (none_of _ new);
                    }
            ]
      ]

  serve_call-IsSettled :
      (identifier : Text → Text) (now : Text) (call : Call) (db : SettingsDb B)
      → IsSettled c db
      → IsSettled c (serve_call c identifier now call db)
  unfolding serve_call
  serve_call-IsSettled identifier now (set_hours actor policy) db h =
      set_business_hours-IsSettled now actor policy db h
  serve_call-IsSettled identifier now (set_log actor given) db h =
      set_syslog-IsSettled now actor given db h
  serve_call-IsSettled identifier now (save display_name role active) db h =
      save_operator-IsSettled identifier now display_name role active db h
  serve_call-IsSettled identifier now restart db h = initialize-IsSettled now db h

  serve_calls-IsSettled_from :
      (identifier : Text → Text) (calls : List (Text × Call)) (db : SettingsDb B)
      → IsSettled c db
      → IsSettled c (serve_calls c identifier calls db)
  unfolding serve_calls
  serve_calls-IsSettled_from identifier [] db h = h
  serve_calls-IsSettled_from identifier (call ∷ rest) db h =
      serve_calls-IsSettled_from identifier rest _
        (serve_call-IsSettled identifier call.0 call.1 db h)

-- After any history of calls of the settings store from empty tables, failed ones included,
-- stored business hours are the text of a policy that `validate` accepts, a stored Syslog port
-- is between 1 and 65535 and an enabled receiver has a host, and operators have distinct
-- identifiers and distinct names.
pub serve_calls-IsSettled :
    {B : Type 0} (c : Library B) (identifier : Text → Text) (calls : List (Text × Call))
    → IsSettled c (serve_calls c identifier calls no_settings)
serve_calls-IsSettled c identifier calls =
    serve_calls-IsSettled_from c identifier calls no_settings
      (record { hours = tt; log = tt; ids = tt; names = tt })

-- When set_business_hours succeeds with a policy, get_business_hours on what it leaves reads
-- that policy from the JSON text, where the JSON reader gives back what the printer wrote of a
-- value in key order, and `int` an integer from its literal.
pub get-set_business_hours :
    {B : Type 0} (c : Library B) (now actor : Text) (policy : Policy) (db after : SettingsDb B)
    → JsonLaws c.json
    → set_business_hours c now actor policy db ≡ ok after
    → get_business_hours c after ≡ ok policy
unfolding set_business_hours get_business_hours
get-set_business_hours c now actor policy db after laws done =
    let (w, valid, h1) = bind_ok (policy_error (validate c.calendar policy)) _ after done in
    rw (sym (ok_inj h1), stored_policy, decode-encode c.json policy laws, valid) refl

-- ===== src/Endpoint/Spool/Tests.antt =====
-- A spool with room for one of two events.
use dtlab_control_center.Prelude.{
  refl, Option, none, some, [], ◌∷◌, ◌++◌, Text, codes, text_eq, length,
}
use dtlab_control_center.Json.{
  Json, null, boolean, number, string, array, object, Items, nil, cons, Members, end, member, get,
}
use dtlab_control_center.Endpoint.Spool.{
  Library, zero_hash, record_hash_of, str_of, append_all, new_spool,
}
use dtlab_control_center.Endpoint.Spool.Chain.{
  IsEvent, IsSound, made, verify-made, append_all-IsSound,
}
use dtlab_control_center.Endpoint.Spool.Forgery.{IsAuthentic, verify_envelope-IsAuthentic}

abbrev mutual
  print : Json → Text
  print null = codes "null"
  print (boolean b) = codes "bool"
  print (number n) = n
  print (string s) = codes "'" ++ s ++ codes "'"
  print (array xs) = codes "[" ++ print_items xs ++ codes "]"
  print (object m) = codes "{" ++ print_members m ++ codes "}"

  print_items : Items → Text
  print_items nil = []
  print_items (cons x xs) = print x ++ codes "," ++ print_items xs

  print_members : Members → Text
  print_members end = []
  print_members (member k v rest) = k ++ codes ":" ++ print v ++ codes "," ++ print_members rest

abbrev int_of : Json → Option Text
int_of (number n) = some n
int_of v = none

-- Not digests, but functions that keep texts apart
abbrev pub library : Library
library = record {
  sha256_text = λ t. codes "#" ++ t;
  hmac = λ key t. key ++ t;
  canonical_json = print;
  str = print;
  int_text = int_of;
  is_zero = text_eq (codes "0");
  byte_length = length;
}

abbrev pub event : Text → Members
event revision =
    member (codes "event_id") (string (codes "e")) (member (codes "revision") (number revision) end)

pub event-IsEvent : (revision : Text) → IsEvent library (event revision)
unfolding get text_eq str_of
event-IsEvent revision = record {
  event_id = string (codes "e");
  has_event_id = refl;
  revision = number revision;
  has_revision = refl;
  is_integer = refl;
}

append_all-IsSound_example : IsSound library (
    append_all library
      (event (codes "1") ∷ event (codes "2") ∷ [])
      (new_spool library (codes "k") (codes "secret") 2000))
append_all-IsSound_example =
    append_all-IsSound library (codes "k") (codes "secret") 2000
      (event (codes "1") ∷ event (codes "2") ∷ [])
      (event-IsEvent (codes "1"), (event-IsEvent (codes "2"), tt))

abbrev sealed : Members
sealed =
    made library (event (codes "1")) (codes "k") (codes "secret") zero_hash
      (event-IsEvent (codes "1"))

verify_envelope-IsAuthentic_example :
    IsAuthentic library sealed (codes "secret") zero_hash (record_hash_of library sealed)
verify_envelope-IsAuthentic_example =
    verify_envelope-IsAuthentic library sealed (codes "secret") zero_hash
      (record_hash_of library sealed)
      (verify-made library (event (codes "1")) (codes "k") (codes "secret") zero_hash
        (event-IsEvent (codes "1")))

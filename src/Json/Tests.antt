-- ===== src/Json/Tests.antt =====
-- A payload that is fetched twice.
use dtlab_control_center.Prelude.{◌≡◌, refl, false, Text, codes, text_eq}
use dtlab_control_center.Json.{Json, string, object, end, member}
use dtlab_control_center.Json.Semantic.{
  semantic_payload, SameFacts, same, members, no_member, kept, refetched,
  semantic_payload-SameFacts,
}

abbrev fetched : Text → Json
fetched at = object (
    member (codes "evidence")
      (object
        (member (codes "fetched_at") (string at) (member (codes "value") (string (codes "7")) end)))
      (member (codes "observed_at") (string (codes "noon")) end))

polled_again : SameFacts false (fetched (codes "one")) (fetched (codes "two"))
unfolding text_eq
polled_again = members (
    kept (codes "evidence")
      (members (
        refetched (codes "fetched_at") (string (codes "one")) (string (codes "two")) refl refl
          (kept (codes "value") (same (string (codes "7"))) no_member)))
      (kept (codes "observed_at") (same (string (codes "noon"))) no_member))

semantic_payload-SameFacts_example :
    semantic_payload false (fetched (codes "one")) ≡ semantic_payload false (fetched (codes "two"))
semantic_payload-SameFacts_example =
    semantic_payload-SameFacts (fetched (codes "one")) (fetched (codes "two")) polled_again

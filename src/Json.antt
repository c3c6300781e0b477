-- ===== src/Json.antt =====
-- JSON values as src/dtlab/services handles them after `json.loads`: a number is kept by its
-- literal, an object by its members in order.
pub mod Semantic
pub mod Tests
use dtlab_control_center.Prelude.{Bool, Option, none, some, Text, text_eq, if◌then◌else◌}

mutual
  pub data Json : Type 0 where
    null : Json
    boolean : Bool → Json
    number : Text → Json
    string : Text → Json
    array : Items → Json
    object : Members → Json

  pub data Items : Type 0 where
    nil : Items
    cons : Json → Items → Items

  pub data Members : Type 0 where
    end : Members
    member : Text → Json → Members → Members

-- `members.get(key)`
unfoldable pub get : Text → Members → Option Json
get key end = none
get key (member k v rest) = if text_eq k key then some v else get key rest

-- `members.get(key)` where a missing key is `None`
unfoldable pub get_value : Text → Members → Json
unfolding get
get_value key m = elim (get key m) [ none ↦ null | some v ↦ v ]

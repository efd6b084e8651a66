-- ===== src/Json.antt =====
-- The values that `json.loads` gives, and what the client asks of them.
use secure_sshlinux_client.Base.{
  Bool, true, false, not, Option, none, some, List, [], ◌∷◌, if◌then◌else◌, is_empty, Text, text_eq,
}

-- A number is kept as its text, with the test whether it is zero.
mutual
  pub data Json : Type 0 where
    null : Json
    boolean : Bool → Json
    number : (is_zero : Bool) → Text → Json
    string : Text → Json
    array : Items → Json
    object : Members → Json

  pub data Items : Type 0 where
    end_items : Items
    item : Json → Items → Items

  pub data Members : Type 0 where
    end_members : Members
    member : Text → Json → Members → Members

-- `d.get(key)`; a missing key and the value null are both `None`.
unfoldable pub get_member : Text → Members → Json
get_member key end_members = null
get_member key (member k value rest) =
    let later = get_member key rest in if text_eq k key then value else later

-- `key in d`
unfoldable pub has_member : Text → Members → Bool
has_member key end_members = false
has_member key (member k value rest) =
    let later = has_member key rest in if text_eq k key then true else later

-- `bool(value)`
unfoldable pub truthy : Json → Bool
truthy null = false
truthy (boolean b) = b
truthy (number is_zero s) = not is_zero
truthy (string s) = not (is_empty s)
truthy (array end_items) = false
truthy (array (item v vs)) = true
truthy (object end_members) = false
truthy (object (member k v rest)) = true

-- Builders: `[s, ...]`, and a text or null.
unfoldable pub strings : List Text → Items
strings [] = end_items
strings (s ∷ ss) = item (string s) (strings ss)

abbrev pub optional : Option Text → Json
optional none = null
optional (some s) = string s

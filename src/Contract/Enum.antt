-- ===== src/Contract/Enum.antt =====
-- A Python `StrEnum` class: `value` is a member's text, and `members` lists the class in its order.
use supersonic.Prelude.{String, List, [], ◌∷◌, Option, none, some, ◌==◌, if◌then◌else◌, string_eq}

pub record StrEnum (A : Type 0) : Type 0 where
  pub value : A → String
  pub members : List A

module _ {A : Type 0} (enum : StrEnum A) where
  pub member_of : List A → String → Option A
  member_of [] text = none
  member_of (a ∷ rest) text = if enum.value a == text then some a else member_of rest text

  -- `Enum(text)`: the member with this value, or a `ValueError`.
  unfoldable pub parse_enum : String → Option A
  unfolding member_of
  parse_enum text = member_of enum.members text

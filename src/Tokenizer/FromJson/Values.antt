-- ===== src/Tokenizer/FromJson/Values.antt =====
-- JSON values as the tokenizer reads them from tokenizer.json: an object is the list of its
-- members, which have different names.
use cc_infer.Base.{Bool, Option, none, some, if◌then◌else◌}
use cc_infer.Base.Int.{ℤ}
use cc_infer.Base.Dict.{same_list}
use cc_infer.Tokenizer.{Bytes}

mutual
  pub data Json : Type 0 where
    null : Json
    boolean : Bool → Json
    integer : ℤ → Json
    real : Json
    string : Bytes → Json
    array : Items → Json
    object : Members → Json

  pub data Items : Type 0 where
    no_item : Items
    item : Json → Items → Items

  pub data Members : Type 0 where
    no_member : Members
    member : Bytes → Json → Members → Members

-- `contains` and `operator[]` of an object.
unfoldable pub lookup : Bytes → Members → Option Json
lookup name no_member = none
lookup name (member key value rest) = if same_list key name then some value else lookup name rest

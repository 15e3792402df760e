-- ===== src/Grant/Arguments.antt =====
-- The arguments of a tool call, as encoding/json puts them into `argsEnvelope`
-- (internal/grant/catalog.go). The text has been parsed already: the model begins at the tree.
use ocis_mcp_server.Base.{ℕ, String, Bool, if◌then◌else◌}
use ocis_mcp_server.Base.Text.{codes, map_codes, fold_code, same}

mutual
  pub data Json : Type 0 where
    null : Json
    boolean : Bool → Json
    number : ℕ → Json
    -- -(n + 1)
    negative : ℕ → Json
    text : String → Json
    array : Items → Json
    object : Members → Json

  pub data Items : Type 0 where
    nil : Items
    item : Json → Items → Items

  pub data Members : Type 0 where
    end : Members
    member : String → Json → Members → Members

-- A json.RawMessage: no bytes at all, bytes that are no JSON, or the tree that they spell.
pub data RawMessage : Type 0 where
  absent : RawMessage
  malformed : RawMessage
  parsed : Json → RawMessage

pub record ArgsEnvelope : Type 0 where
  pub space_id : String
  pub drive_id : String

abbrev pub no_args : ArgsEnvelope
no_args = record { space_id = ""; drive_id = "" }

-- json.Unmarshal takes a key for a field's name if they are equal up to case.
unfoldable pub names_field : String → String → Bool
unfolding map_codes fold_code same
names_field key field = same (map_codes fold_code (codes key)) (codes field)

-- A text is stored; null and a value of another type leave the field as it is.
unfoldable pub store_text : Json → String → String
store_text (text s) old = s
store_text _ old = old

unfoldable pub store_member : String → Json → ArgsEnvelope → ArgsEnvelope
unfolding names_field store_text
store_member key v args =
    if names_field key "space_id"
    then record args { space_id = store_text v args.space_id }
    else if names_field key "drive_id"
    then record args { drive_id = store_text v args.drive_id }
    else args

unfoldable pub store_members : Members → ArgsEnvelope → ArgsEnvelope
store_members end args = args
store_members (member key v rest) args = store_members rest (store_member key v args)

-- The error that json.Unmarshal returns is dropped by the caller, what it stored is kept.
unfoldable pub unmarshal_args : RawMessage → ArgsEnvelope
unfolding store_members store_member
unmarshal_args (parsed (object ms)) = store_members ms no_args
unmarshal_args _ = no_args

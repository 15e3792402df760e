-- ===== src/Examples/Boxes.antt =====
-- The sealed blobs and the operator's key at concrete inputs.
use ocis_mcp_server.Base.{String, ◌≡◌, refl, length, ok}
use ocis_mcp_server.Base.Bytes.{hex_decode, hex_pair, hex_value}
use ocis_mcp_server.Base.Text.{trim_space, drop_while, drop_while_end, is_space}
use ocis_mcp_server.Secretbox.{
  key_size, parse_key, seal, open_box, new_cipher, first_key, with_key_size,
}
use ocis_mcp_server.Secretbox.Roundtrip.{open_box-seal, parse_key-length}
use ocis_mcp_server.Examples.World.{plain_box, repeat}
use ocis_mcp_server.Examples.Data.{key, nonce}

open_box-seal_example : open_box ⦃p = plain_box⦄ key (repeat 13 7) ≡ ok (repeat 1 7)
unfolding seal new_cipher
open_box-seal_example = open_box-seal ⦃p = plain_box⦄ key nonce (repeat 1 7) (repeat 13 7) refl refl

abbrev key_text : String
key_text = "0505050505050505050505050505050505050505050505050505050505050505"

parsed_key : parse_key ⦃p = plain_box⦄ key_text ≡ ok key
unfolding parse_key first_key with_key_size hex_decode hex_pair hex_value trim_space drop_while
    drop_while_end is_space
parsed_key = refl

parse_key-length_example : length key ≡ key_size
parse_key-length_example = parse_key-length ⦃p = plain_box⦄ key_text key parsed_key

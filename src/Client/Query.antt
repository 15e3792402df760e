-- ===== src/Client/Query.antt =====
-- url.Values.Encode of net/url, for pairs in the order of their keys: what internal/tools puts behind a
-- path itself.
use Prim.Native.Char.{Char, code}
use Prim.Native.String.{◌++◌}
use ocis_mcp_server.Base.{ℕ, String, Bool, ◌&&◌, ◌||◌, List, [], ◌∷◌, leb, nat_eq, if◌then◌else◌}
use ocis_mcp_server.Client.Escape.{utf8, percent_bytes}

unfoldable pub query_safe : ℕ → Bool
query_safe c =
    (leb b'a' c && leb c b'z')
    || (leb b'A' c && leb c b'Z')
    || (leb b'0' c && leb c b'9')
    || nat_eq c b'-'
    || nat_eq c b'_'
    || nat_eq c b'.'
    || nat_eq c b'~'

unfoldable pub query_escape_char : Char → String
unfolding query_safe utf8 percent_bytes
query_escape_char c =
    if nat_eq (code c) 32
    then "+"
    else if query_safe (code c)
    then String.◌∷◌ c ""
    else percent_bytes (utf8 (code c))

unfoldable pub query_escape : String → String
unfolding query_escape_char
query_escape String.[] = ""
query_escape (String.◌∷◌ c s) = query_escape_char c ++ query_escape s

unfoldable pub encode_rest : List (String × String) → String
encode_rest [] = ""
encode_rest ((k, v) ∷ rest) =
    "&" ++ (query_escape k ++ ("=" ++ (query_escape v ++ encode_rest rest)))

unfoldable pub encode : List (String × String) → String
unfolding encode_rest
encode [] = ""
encode ((k, v) ∷ rest) = query_escape k ++ ("=" ++ (query_escape v ++ encode_rest rest))

-- ===== src/Pages.antt =====
-- What the pages of internal/consent/html.go are made from. The HTML text itself is not modelled.
use ocis_mcp_server.Base.{String, Bool, List}
use ocis_mcp_server.Grant.Level.{SpaceGrant}

pub data Page : Type 0 where
  -- the CSRF token, the spaces and the identifiers that are selected
  spaces_page : String → List SpaceGrant → List String → Page
  -- the CSRF token, the selected spaces, whether administration may be chosen and whether it was
  levels_page : String → List SpaceGrant → Bool → Bool → Page
  -- the CSRF token, the client's name, the selected spaces and whether administration was chosen
  confirm_page : String → String → List SpaceGrant → Bool → Page
  error_page : String → Page

-- ===== src/Client/Texts.antt =====
-- The escapes that internal/tools puts into a path.
use ocis_mcp_server.Base.{refl, String, arith}
use ocis_mcp_server.Base.Text.{Lacks}
use ocis_mcp_server.Client.Escape.{path_escape, path_safe, Lacks-path_escape}

-- An escaped text is one segment of a path: it has no "/", no "?" and no "#".
pub path_escape-IsSegment :
    (s : String)
    → Lacks b'/' (path_escape s) × (Lacks b'?' (path_escape s) × Lacks b'#' (path_escape s))
unfolding path_safe
path_escape-IsSegment s = (
  Lacks-path_escape b'/' s (refl, λ e. omega (arith, e)),
  (
    Lacks-path_escape b'?' s (refl, λ e. omega (arith, e)),
    Lacks-path_escape b'#' s (refl, λ e. omega (arith, e)),
  ),
)

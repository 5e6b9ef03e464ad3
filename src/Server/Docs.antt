-- ===== src/Server/Docs.antt =====
-- pkg/swagger/handler.go: the handler of the API's documentation. The two texts it serves are data.
use go_certa.Prelude.{Str, codes, str_eq, has_suffix, ◌||◌, if◌then◌else◌}

pub data Page : Type 0 where
  -- openapi.json, as application/json.
  open_api_spec : Page
  -- The constant swaggerUIHTML, as text/html.
  swagger_ui_html : Page
  not_found : Page

unfoldable pub serve : Str → Page
serve path =
    if has_suffix path (codes "/doc.json")
    then open_api_spec
    else if str_eq path (codes "/swagger")
        || str_eq path (codes "/swagger/")
        || has_suffix path (codes "/index.html")
    then swagger_ui_html
    else not_found

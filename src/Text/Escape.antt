-- ===== src/Text/Escape.antt =====
-- The escaping that html/template applies to a value in running text (`htmlReplacementTable`).
use Prim.Native.Char.{Char, code}
use cluster_api_provider_vmw.Base.{String, ◌<>◌, nat_eq, if◌then◌else◌}

escape_char : Char → String
escape_char c =
    if nat_eq (code c) 0
    then "�"
    else if nat_eq (code c) b'"'
    then "&#34;"
    else if nat_eq (code c) b'&'
    then "&amp;"
    else if nat_eq (code c) b'\''
    then "&#39;"
    else if nat_eq (code c) b'+'
    then "&#43;"
    else if nat_eq (code c) b'<'
    then "&lt;"
    else if nat_eq (code c) b'>'
    then "&gt;"
    else String.◌∷◌ c String.[]

unfoldable pub escape : String → String
unfolding escape_char
escape String.[] = ""
escape (String.◌∷◌ c s) = escape_char c <> escape s

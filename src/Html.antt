-- ===== src/Html.antt =====
-- `EncodeHTMLString` of src/CollabVM.cpp: what is printed of a text from a user or the hypervisor.
pub mod RoundTrip
use collab_vm_server.Prelude.{
  ℕ, Bool, ◌&&◌, ◌||◌, List, [], ◌∷◌, ◌++◌, Bytes, codes, within, ◌==◌, if◌then◌else◌,
}

-- What one byte adds to the stream.
unfoldable pub encode_byte : ℕ → Bytes
encode_byte c =
    if c == b'&'
    then codes "&amp;"
    else if c == b'<'
    then codes "&lt;"
    else if c == b'>'
    then codes "&gt;"
    else if c == b'"'
    then codes "&quot;"
    else if c == b'\''
    then codes "&#x27;"
    else if c == b'/'
    then codes "&#x2F;"
    else if c == b'\n'
    then codes "&#13;&#10;"
    else if within 32 126 c
    then c ∷ []
    else []

unfoldable pub encode_html_string : Bytes → Bytes
unfolding encode_byte
encode_html_string [] = []
encode_html_string (c ∷ s) = encode_byte c ++ encode_html_string s

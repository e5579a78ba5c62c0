-- ===== src/Tests/Texts.antt =====
-- Runs of the functions of src/CollabVM.cpp on names and texts.
use collab_vm_server.Prelude.{◌≤◌, ◌≡◌, ◌↔◌, refl, true, false, codes, arith, All}
use collab_vm_server.Names.{validate_username, is_name, middle, min_username_len, max_username_len}
use collab_vm_server.Names.Grammar.{Words, validate_username-Words}
use collab_vm_server.Wire.{back}
use collab_vm_server.Html.{encode_html_string}
use collab_vm_server.Html.RoundTrip.{
  decode_html, kept, IsInert, encode_html_string-IsInert, decode_html-encode_html_string,
}

accepted : validate_username (codes "some one.1") ≡ true
unfolding validate_username is_name middle back
accepted = refl

rejected : validate_username (codes "some  one") ≡ false
unfolding validate_username is_name middle back
rejected = refl

encoded : encode_html_string (codes "a<b>\n") ≡ codes "a&lt;b&gt;&#13;&#10;"
unfolding encode_html_string
encoded = refl

validate_username-Words_example :
    (validate_username (codes "a b") ≡ true)
    ↔ ((min_username_len ≤ 3) × (3 ≤ max_username_len) × Words (codes "a b"))
validate_username-Words_example = validate_username-Words (codes "a b")

encode_html_string-IsInert_example : All IsInert (encode_html_string (codes "<a>"))
encode_html_string-IsInert_example = encode_html_string-IsInert (codes "<a>")

decode_html-encode_html_string_example :
    decode_html 5 (encode_html_string (codes "<a>\t")) ≡ kept (codes "<a>\t")
decode_html-encode_html_string_example =
    decode_html-encode_html_string 5 (codes "<a>\t") (omega arith)

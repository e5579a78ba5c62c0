-- ===== src/Tests/Encoding.antt =====
-- Runs of src/Base64.h.
use collab_vm_server.Prelude.{◌≡◌, refl, codes, arith}
use collab_vm_server.Base64.{
  encode, write, write_byte, write_ready, write_triplet, flush_loop, character, characters,
}
use collab_vm_server.Base64.RoundTrip.{read_groups, read_groups-encode}

encode_hello : (encode (codes "hello")).out ≡ codes "aGVsbG8="
unfolding encode write write_byte write_ready write_triplet flush_loop character characters
encode_hello = refl

read_groups-encode_example : read_groups (encode (codes "hi")).out ≡ codes "hi"
read_groups-encode_example = read_groups-encode (codes "hi") (omega arith, (omega arith, tt))

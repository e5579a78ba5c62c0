-- ===== src/Tests/Protocol.antt =====
-- Runs of src/GuacInstructionParser.cpp.
use collab_vm_server.Prelude.{
  List, ◌≡◌, ◌↔◌, ◌⊎◌, refl, some, none, [], ◌∷◌, codes, arith, to_string, length, ◌<◌,
}
use collab_vm_server.Wire.{
  instruction, element, tail_elements, decode, decode_loop, read_element, extract, content, digits,
  sign, fit, scan, skip_space, is_space, is_digit, back, max_frame_length,
}
use collab_vm_server.Wire.RoundTrip.{decode-instruction}
use collab_vm_server.Wire.Limits.{decode_total, decode-Within, Within}
use collab_vm_server.Wire.Dispatch.{
  opcode, matches, called, parse_instruction, parse_instruction-Selects, Handler, Selects,
  instructions, with_args,
}

decode_turn : decode (codes "4.turn,1.0;") ≡ some (codes "turn" ∷ codes "0" ∷ [])
unfolding decode decode_loop read_element extract content digits sign fit scan skip_space is_space
    is_digit back
decode_turn = refl

-- What follows the end of an instruction is not read, and a length may have a sign and blanks.
decode_trailing : decode (codes " +4.turn;1.0;") ≡ some (codes "turn" ∷ [])
unfolding decode decode_loop read_element extract content digits sign fit scan skip_space is_space
    is_digit back
decode_trailing = refl

decode_short : decode (codes "9.turn;") ≡ some []
unfolding decode decode_loop read_element extract content digits sign fit scan skip_space is_space
    is_digit back
decode_short = refl

decode-instruction_example :
    decode (instruction (codes "chat") (codes "a,b;" ∷ [] ∷ []))
    ≡ some (codes "chat" ∷ codes "a,b;" ∷ [] ∷ [])
unfolding instruction element tail_elements to_string
decode-instruction_example =
    decode-instruction (codes "chat") (codes "a,b;" ∷ [] ∷ []) (omega arith) (omega arith)

decode_total_example : (decode (codes "4.turn;") ≡ none) ↔ (codes "4.turn;" ≡ [])
decode_total_example = decode_total (codes "4.turn;")

decode-Within_example :
    Within 11 (codes "turn" ∷ codes "0" ∷ [])
    × (((codes "turn" ∷ codes "0" ∷ []) ≡ [])
        ⊎ ((back b'4' (codes ".turn,1.0;") ≡ b';') × (11 < max_frame_length)))
decode-Within_example =
    decode-Within b'4' (codes ".turn,1.0;") (codes "turn" ∷ codes "0" ∷ []) decode_turn

-- An abbreviation, and the empty element, which calls every handler.
called_empty : length (parse_instruction ([] ∷ [])) ≡ 11
unfolding parse_instruction called matches opcode
called_empty = refl

parse_instruction-Selects_example :
    (hs : List Handler) × Selects (codes "c") instructions hs
    × (parse_instruction (codes "c" ∷ codes "a" ∷ []) ≡ with_args (codes "a" ∷ []) hs)
parse_instruction-Selects_example =
    parse_instruction-Selects (codes "c") (codes "a" ∷ []) (omega arith)

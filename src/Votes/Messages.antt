-- ===== src/Votes/Messages.antt =====
-- The vote instructions that src/CollabVM.cpp sends are well formed.
use collab_vm_server.Prelude.{
  ℕ, ◌≡◌, refl, sym, ap₂, ◌∙◌, Bool, true, false, [], ◌∷◌, ◌++◌, Bytes, codes, append_assoc,
  length-append, to_string,
}
use collab_vm_server.Wire.{element, tail_elements, instruction}
use collab_vm_server.Wire.Literals.{element-vote, notice-instruction}
use collab_vm_server.Votes.{vote_info, about_user}

element-one : element (codes "1") ≡ codes "1.1"
unfolding element to_string
element-one = refl

element-zero : element (codes "0") ≡ codes "1.0"
unfolding element to_string
element-zero = refl

element-three : element (codes "3") ≡ codes "1.3"
unfolding element to_string
element-three = refl

abbrev pub opcode : Bool → Bytes
opcode true = codes "0"
opcode false = codes "1"

-- The state of a vote is sent with its opcode, the time left and the two counts.
pub vote_info-instruction :
    (started : Bool) (time y n : ℕ)
    → vote_info started time y n
      ≡ instruction
          (codes "vote")
          (opcode started ∷ to_string time ∷ to_string y ∷ to_string n ∷ [])
unfolding vote_info instruction tail_elements
vote_info-instruction true time y n = rw (element-vote, element-zero)
vote_info-instruction false time y n = rw (element-vote, element-one)

-- A notice about a user has an empty name and the user's name with the message behind it: the
-- length that the source adds up is that of the whole text.
pub about_user-instruction :
    (name msg : Bytes) → about_user name msg ≡ instruction (codes "chat") ([] ∷ (name ++ msg) ∷ [])
unfolding about_user
about_user-instruction name msg =
    ap₂ (λ k r. codes "4.chat,0.," ++ (to_string k ++ b'.' ∷ r)) (sym (length-append name msg))
      (sym (append_assoc name msg (b';' ∷ [])))
    ∙ sym (notice-instruction (name ++ msg))

-- The end of a vote is announced in two instructions, the second with the result.
pub ended-instruction :
    (codes "4.vote,1.2;" ≡ instruction (codes "vote") (codes "2" ∷ []))
    × (codes "4.chat,0.,33.The vote to reset the VM has won.;"
        ≡ instruction (codes "chat") ([] ∷ codes "The vote to reset the VM has won." ∷ []))
    × (codes "4.chat,0.,34.The vote to reset the VM has lost.;"
        ≡ instruction (codes "chat") ([] ∷ codes "The vote to reset the VM has lost." ∷ []))
unfolding instruction tail_elements element to_string
ended-instruction = (refl, refl, refl)

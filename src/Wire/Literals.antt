-- ===== src/Wire/Literals.antt =====
-- The elements that the source writes as literals, such as "4.chat", and the chat instruction of
-- the server itself, whose name is empty.
use collab_vm_server.Prelude.{
  ◌≡◌, refl, ap, [], ◌∷◌, ◌++◌, Bytes, codes, append_assoc, length, to_string,
}
use collab_vm_server.Wire.{element, tail_elements, instruction}

pub element-chat : element (codes "chat") ≡ codes "4.chat"
unfolding element to_string
element-chat = refl

pub element-turn : element (codes "turn") ≡ codes "4.turn"
unfolding element to_string
element-turn = refl

pub element-vote : element (codes "vote") ≡ codes "4.vote"
unfolding element to_string
element-vote = refl

element-nil : element [] ≡ codes "0."
unfolding element to_string
element-nil = refl

element-semicolon :
    (t : Bytes) → element t ++ b';' ∷ [] ≡ to_string (length t) ++ b'.' ∷ (t ++ b';' ∷ [])
unfolding element
element-semicolon t = append_assoc (to_string (length t)) (b'.' ∷ t) (b';' ∷ [])

-- The notice with its length spelled out.
pub notice-instruction :
    (text : Bytes)
    → instruction (codes "chat") ([] ∷ text ∷ [])
      ≡ codes "4.chat,0.," ++ (to_string (length text) ++ b'.' ∷ (text ++ b';' ∷ []))
unfolding instruction tail_elements
notice-instruction text =
    rw (element-chat, element-nil) (ap (λ s. codes "4.chat,0.," ++ s) (element-semicolon text))

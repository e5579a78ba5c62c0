-- ===== src/Chat/Instruction/Sent.antt =====
-- The chat instructions of src/CollabVM.cpp are well formed, and the client can decode them.
use collab_vm_server.Prelude.{
  ℕ, ◌+◌, ◌-◌, ◌≤◌, ◌<◌, ◌≡◌, refl, sym, ap, ap₂, ◌∙◌, Bool, true, false, some, List, [], ◌∷◌, ◌++◌,
  Bytes, codes, arith, append_assoc, length, length-append, to_string, if◌then◌else◌, ◌==◌,
}
use collab_vm_server.Wire.Literals.{element-chat, notice-instruction}
use collab_vm_server.Wire.{element, tail_elements, instruction, decode, max_frame_length}
use collab_vm_server.Wire.Digits.{length-element-le}
use collab_vm_server.Names.{max_username_len}
use collab_vm_server.Wire.RoundTrip.{decode-instruction}
use collab_vm_server.Html.{encode_html_string}
use collab_vm_server.Html.RoundTrip.{length-encode_html_string}
use collab_vm_server.Chat.Ring.{messages}
use collab_vm_server.Chat.Instruction.{
  ChatMessage, Config, Chat, mute_notice, chat_instr, append_messages, send_chat_history,
  max_chat_msg_len,
}

chat_instr-instruction :
    (name msg : Bytes) → chat_instr name msg ≡ instruction (codes "chat") (name ∷ msg ∷ [])
unfolding chat_instr instruction tail_elements
chat_instr-instruction name msg = rw element-chat

-- The text of the notice to a user that is muted.
abbrev pub mute_text : Config → Bool → Bytes
mute_text g permanent =
    codes "You have been muted"
    ++ (if permanent
        then codes "."
        else codes " for " ++ (to_string g.chat_mute_time ++ codes " seconds."))

-- The notice of a mute, whose length the source works out by hand, is an instruction with an empty
-- name and the text, for a permanent mute and for one of any time.
pub mute_notice-instruction :
    (g : Config) (permanent : Bool)
    → mute_notice g permanent ≡ instruction (codes "chat") ([] ∷ mute_text g permanent ∷ [])
unfolding mute_notice
mute_notice-instruction g true = sym (notice-instruction (mute_text g true))
mute_notice-instruction g false =
    let t = to_string g.chat_mute_time in
    let n : length t + 20 + 6 + 10 - 3 ≡ length (mute_text g false) =
      omega (arith, length-append t (codes " seconds.")) in
    ap₂ (λ k r. codes "4.chat,0.," ++ (to_string k ++ (codes ".You have been muted for " ++ r))) n
      (sym (append_assoc t (codes " seconds.") (b';' ∷ [])))
    ∙ sym (notice-instruction (mute_text g false))

length-chat :
    (name msg : Bytes)
    → length name ≤ 20
    → length msg ≤ 1000
    → length (instruction (codes "chat") (name ∷ msg ∷ [])) < max_frame_length
unfolding instruction tail_elements
length-chat name msg n m = omega (
  arith,
  ap length element-chat,
  length-append (element (codes "chat"))
      (b',' ∷ (element name ++ (b',' ∷ (element msg ++ b';' ∷ [])))),
  length-append (element name) (b',' ∷ (element msg ++ b';' ∷ [])),
  length-append (element msg) (b';' ∷ []),
  length-element-le name,
  length-element-le msg,
)

-- A message that is published, of a text and a name within the server's limits, decodes to its
-- three elements.
pub decode-chat_instr :
    (name arg : Bytes)
    → length name ≤ max_username_len
    → length arg ≤ max_chat_msg_len
    → decode (chat_instr name (encode_html_string arg))
      ≡ some (codes "chat" ∷ name ∷ encode_html_string arg ∷ [])
decode-chat_instr name arg n a =
    let msg = encode_html_string arg in
    let m : length msg ≤ 1000 = omega (arith, length-encode_html_string arg) in
    rw (chat_instr-instruction name msg)
      (decode-instruction (codes "chat") (name ∷ msg ∷ []) (omega arith) (length-chat name msg n m))

-- The fields of the history: names, as their cells hold them now, and texts.
abbrev pub history_fields : (ℕ → Bytes) → List ChatMessage → List Bytes
history_fields text [] = []
history_fields text (m ∷ ms) = text m.username ∷ m.message ∷ history_fields text ms

append_messages-tail :
    (text : ℕ → Bytes) (ms : List ChatMessage)
    → append_messages text ms ++ b';' ∷ [] ≡ tail_elements (history_fields text ms)
unfolding append_messages tail_elements
append_messages-tail text [] = refl
append_messages-tail text (m ∷ ms) = simp (append_assoc, append_messages-tail text ms)

-- What a user is sent of the history: one instruction with the name and the text of each message
-- that the buffer holds, in order, or nothing where it holds none.
pub send_chat_history-instruction :
    (g : Config) (u : ℕ) (s : Chat)
    → send_chat_history g u s ≡ (
        if s.history.count == 0
        then []
        else (
          u,
          element (codes "chat")
              ++ tail_elements (history_fields s.text (messages g.chat_msg_history s.history)),
        )
          ∷ [])
unfolding send_chat_history
send_chat_history-instruction g u s =
    rw (element-chat, append_messages-tail s.text (messages g.chat_msg_history s.history))

-- ===== src/Tests/Chatting.antt =====
-- Runs of the chat of src/CollabVM.cpp: user 1 of address 7 writes, and user 2 reads.
use collab_vm_server.Prelude.{
  ℕ, ◌<◌, ◌≡◌, refl, false, some, List, [], ◌∷◌, ◌++◌, codes, arith, ◌==◌, if◌then◌else◌,
}
use collab_vm_server.Wire.{decode, element, tail_elements}
use collab_vm_server.Html.{encode_html_string}
use collab_vm_server.Chat.Ring.{init, messages}
use collab_vm_server.Chat.Ring.Latest.{receive, latest, messages-receive}
use collab_vm_server.Chat.Instruction.{
  Muted, Rank, Config, Chat, User, is_limited, chat_instr, send_chat_history,
}
use collab_vm_server.Chat.Instruction.Flood.{Arrival, received, run, flood-bound}
use collab_vm_server.Chat.Instruction.Sent.{
  decode-chat_instr, history_fields, send_chat_history-instruction,
}

messages-receive_example :
    messages {A = ℕ} 3 (receive 3 (1 ∷ 2 ∷ 3 ∷ 4 ∷ 5 ∷ []) (init 3 0))
    ≡ latest {A = ℕ} 3 (1 ∷ 2 ∷ 3 ∷ 4 ∷ 5 ∷ [])
messages-receive_example = messages-receive 3 0 (1 ∷ 2 ∷ 3 ∷ 4 ∷ 5 ∷ []) (omega arith) (omega arith)

latest_test : latest {A = ℕ} 3 (1 ∷ 2 ∷ 3 ∷ 4 ∷ 5 ∷ []) ≡ 3 ∷ 4 ∷ 5 ∷ []
latest_test = refl

abbrev config : Config
config = record {
  chat_rate_count = 3;
  chat_rate_time = 5;
  chat_mute_time = 30;
  chat_msg_history = 10;
  mods_mute = false;
}

abbrev writer : User
writer = record { id = 1; ip = 7; rank = Rank.unregistered; username = some 0 }

abbrev chat : Chat
chat = record {
  history = record { buf = []; begin = 0; end = 0; count = 0 };
  ip = λ _. record { last_chat_msg = 100; chat_msg_count = 0; chat_muted = Muted.unmuted };
  text = λ _. codes "guest";
}

abbrev flood : List Arrival
flood =
    (101, writer, codes "one")
    ∷ (102, writer, codes "two")
    ∷ (103, writer, codes "three")
    ∷ (104, writer, codes "four")
    ∷ []

flood-bound_example : received 2 (run config (1 ∷ 2 ∷ []) flood chat) < 3
unfolding is_limited
flood-bound_example =
    flood-bound config (1 ∷ 2 ∷ []) 7 100 2 flood chat (omega arith) (omega arith)
      (
        (refl, refl, omega arith, omega arith, omega arith),
        (
          (refl, refl, omega arith, omega arith, omega arith),
          (
            (refl, refl, omega arith, omega arith, omega arith),
            ((refl, refl, omega arith, omega arith, omega arith), tt),
          ),
        ),
      )
      refl refl refl

decode-chat_instr_example :
    decode (chat_instr (codes "guest") (encode_html_string (codes "<hi>")))
    ≡ some (codes "chat" ∷ codes "guest" ∷ encode_html_string (codes "<hi>") ∷ [])
decode-chat_instr_example =
    decode-chat_instr (codes "guest") (codes "<hi>") (omega arith) (omega arith)

send_chat_history-instruction_example : send_chat_history config 1 chat ≡ (
    if chat.history.count == 0
    then []
    else (
      1,
      element (codes "chat") ++ tail_elements (history_fields chat.text (messages 10 chat.history)),
    )
      ∷ [])
send_chat_history-instruction_example = send_chat_history-instruction config 1 chat

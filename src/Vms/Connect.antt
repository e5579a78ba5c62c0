-- ===== src/Vms/Connect.antt =====
-- What a user that asks to join a VM is answered: `OnConnectInstruction` of src/CollabVM.cpp.
use collab_vm_server.Prelude.{
  ℕ, ◌-◌, ◌*◌, ◌≡◌, ◌≢◌, ◌⊎◌, ◌∙◌, sym, refl, ap, ap₂, subst, inl, inr, Bool, true, false, not,
  ◌&&◌, ◌||◌, none, some, List, [], ◌∷◌, ◌++◌, Bytes, codes, arith, to_string, ltb, ◌==◌,
  if◌then◌else◌, length, Bool-cases, Option-cases,
}
use collab_vm_server.Wire.{element, tail_elements, instruction}
use collab_vm_server.Turns.{Outbox}
use collab_vm_server.Users.Messages.{online_fields, online_users_list-instruction}
use collab_vm_server.Chat.Ring.{messages}
use collab_vm_server.Chat.Instruction.{c_str}
use collab_vm_server.Chat.Instruction.Sent.{history_fields, send_chat_history-instruction}
use collab_vm_server.Requests.Joining.{turns_told, votes_told, add_user-told}
use collab_vm_server.Vms.{
  Vm, Vms, Client, World, find_vm, write_vm, upload_notice, send_upload_cooldown_time, welcome,
  connect_to, connect_named, on_connect_instruction,
}
use collab_vm_server.Vms.Messages.{
  action_fields, connected-instruction, connect_failed-instruction, busy-instruction,
  cooldown-instruction, motd_instr-instruction,
}

-- The four answers; the third is for a user that is kept from renaming.
pub data Answer : Type 0 where
  ignored unknown : Answer
  held : Vm → Answer
  joins : Bytes → Vm → Answer

-- The instruction has one argument, and the user has a name and views no VM.
pub record Asks (u : Client) (args : List Bytes) (name : Bytes) : Type 0 where
  pub arg : Bytes
  pub single : args ≡ arg ∷ []
  pub text : c_str arg ≡ name
  pub not_viewing : u.viewing ≡ false
  pub has_name : u.named ≡ true

abbrev Names : Bytes → Vms → Vm → Type 0
Names name vms vm = ((length name == 0) ≡ false) × (find_vm name vms ≡ some vm)

-- When each answer is given.
abbrev pub Meets : Client → List Bytes → Vms → Answer → Type 0
Meets u args vms ignored = ((length args ≢ 1) ⊎ (u.viewing ≡ true)) ⊎ (u.named ≡ false)
Meets u args vms unknown =
    (name : Bytes) × Asks u args name × ((name ≡ []) ⊎ (find_vm name vms ≡ none))
Meets u args vms (held vm) =
    (name : Bytes) × Asks u args name × Names name vms vm × (u.name_fixed ≡ true)
Meets u args vms (joins name vm) = Asks u args name × Names name vms vm × (u.name_fixed ≡ false)

-- The upload that goes on, or the milliseconds until the next is allowed.
abbrev pub notice_told : ℕ → Client → Vm → Outbox
notice_told now u vm =
    if u.upload.upload_in_progress
    then (u.id, instruction (codes "file") (codes "6" ∷ [])) ∷ []
    else if not (vm.settings.upload_cooldown_time == 0)
        && ltb now (u.upload.next_upload_time * 1000)
    then (
      u.id,
      instruction (codes "file")
          (codes "4" ∷ to_string (u.upload.next_upload_time * 1000 - now) ∷ []),
    )
      ∷ []
    else []

-- What may be done in the VM, the users, the chat so far, and the message of the day.
abbrev pub welcome_told : World → Client → Vm → Outbox
welcome_told w u vm =
    (u.id, instruction (codes "connect") (codes "1" ∷ action_fields vm))
    ∷ ((
      u.id,
      instruction (codes "adduser") (
          to_string (length w.users.usernames)
          ∷ online_fields w.user_env w.users w.users.usernames),
    )
        ∷ ((if w.chat.history.count == 0
              then []
              else (
                u.id,
                element (codes "chat")
                    ++ tail_elements (
                        history_fields w.chat.text
                          (messages w.chat_config.chat_msg_history w.chat.history)),
              )
                ∷ [])
            ++ (if length vm.settings.motd == 0
                then []
                else (u.id, instruction (codes "chat") ([] ∷ vm.settings.motd ∷ [])) ∷ [])))

-- The VMs and the user after the answer, and what the user is sent.
abbrev pub outcome : World → Client → Vms → Answer → Vms × Client × Outbox
outcome w u vms ignored = (vms, u, [])
outcome w u vms unknown = (vms, u, (u.id, instruction (codes "connect") (codes "0" ∷ [])) ∷ [])
outcome w u vms (held vm) = (vms, u, notice_told w.turn_env.now u vm)
outcome w u vms (joins name vm) = (
  write_vm name (record vm { users = u.id ∷ vm.users }) vms,
  record u { viewing = true; controller = some name },
  notice_told w.turn_env.now u vm
      ++ (welcome_told w u vm
          ++ (turns_told w.turn_env u.id vm.turns ++ votes_told w.turn_env u.id vm.votes)),
)

upload_notice-told :
    (now : ℕ) (u : Client) (vm : Vm) → upload_notice now u vm ≡ notice_told now u vm
unfolding upload_notice send_upload_cooldown_time
upload_notice-told now u vm = rw (busy-instruction, cooldown-instruction) (ground arith)

welcome-told : (w : World) (u : Client) (vm : Vm) → welcome w u vm ≡ welcome_told w u vm
unfolding welcome
welcome-told w u vm =
    ap₂ (λ (a : Bytes) (b : Outbox). (u.id, a) ∷ b) (connected-instruction vm)
      (ap₂ ◌++◌ (online_users_list-instruction w.user_env u.id w.users) (
        ap₂ ◌++◌ (send_chat_history-instruction w.chat_config u.id w.chat) (
          ap (λ (a : Bytes). if length vm.settings.motd == 0 then [] else (u.id, a) ∷ [])
            (motd_instr-instruction vm.settings.motd))))

if_false {ℓ} : {A : Type ℓ} {b : Bool} (x y : A) → b ≡ false → (if b then x else y) ≡ y
if_false x y h = ap (λ (b : Bool). if b then x else y) h

guard_false : {v n : Bool} → v ≡ false → n ≡ true → (v || not n) ≡ false
guard_false hv hn = ground arith

connect_to-held :
    (w : World) (u : Client) (name : Bytes) (vm : Vm) (vms : Vms)
    → u.name_fixed ≡ true
    → connect_to w u name vm vms ≡ outcome w u vms (held vm)
unfolding connect_to
connect_to-held w u name vm vms h = rw (h, upload_notice-told w.turn_env.now u vm) refl

connect_to-joins :
    (w : World) (u : Client) (name : Bytes) (vm : Vm) (vms : Vms)
    → u.name_fixed ≡ false
    → connect_to w u name vm vms ≡ outcome w u vms (joins name vm)
unfolding connect_to
connect_to-joins w u name vm vms h =
    if_false _ _ h
    ∙ (ap
        (λ (o : Outbox). (
          write_vm name (record vm { users = u.id ∷ vm.users }) vms,
          record u { viewing = true; controller = some name },
          o,
        ))
        (ap₂ ◌++◌ (upload_notice-told w.turn_env.now u vm)
          (ap₂ ◌++◌ (welcome-told w u vm) (add_user-told w.turn_env u.id vm.turns vm.votes))))

-- An instruction that asks reaches the map.
on_connect-connect_named :
    (w : World) (u : Client) (args : List Bytes) (name : Bytes) (vms : Vms)
    → Asks u args name
    → on_connect_instruction w u args vms ≡ connect_named w u name vms
unfolding on_connect_instruction
on_connect-connect_named w u args name vms h =
    subst (λ (l : List Bytes). on_connect_instruction w u l vms ≡ connect_named w u name vms)
      (sym h.single)
      ((if_false _ _ (guard_false h.not_viewing h.has_name)
        ∙ ap (λ (n : Bytes). connect_named w u n vms) h.text))

connect_named-found :
    (w : World) (u : Client) (name : Bytes) (vm : Vm) (vms : Vms)
    → Names name vms vm
    → connect_named w u name vms ≡ connect_to w u name vm vms
unfolding connect_named
connect_named-found w u name vm vms h = rw (h.0, h.1, connect_named) refl

connect_named-unknown :
    (w : World) (u : Client) (name : Bytes) (vms : Vms)
    → ((name ≡ []) ⊎ (find_vm name vms ≡ none))
    → connect_named w u name vms ≡ outcome w u vms unknown
unfolding connect_named
connect_named-unknown w u [] vms h = rw connect_failed-instruction refl
connect_named-unknown w u (c ∷ s) vms (inl e) = cc
connect_named-unknown w u (c ∷ s) vms (inr n) = ground (arith, connect_failed-instruction)

ignored-outcome :
    (w : World) (u : Client) (args : List Bytes) (vms : Vms)
    → Meets u args vms ignored
    → on_connect_instruction w u args vms ≡ (vms, u, [])
unfolding on_connect_instruction
ignored-outcome w u [] vms h = refl
ignored-outcome w u (a ∷ b ∷ args) vms h = refl
ignored-outcome w u (a ∷ []) vms (inl (inl n)) = absurd (n refl)
ignored-outcome w u (a ∷ []) vms (inl (inr v)) = rw v refl
ignored-outcome w u (a ∷ []) vms (inr n) = ground arith

-- Each answer, whenever it is met, is what the handler does.
on_connect-outcome :
    (w : World) (u : Client) (args : List Bytes) (vms : Vms) (a : Answer)
    → Meets u args vms a
    → on_connect_instruction w u args vms ≡ outcome w u vms a
on_connect-outcome w u args vms ignored h = ignored-outcome w u args vms h
on_connect-outcome w u args vms unknown (name, asks, h) =
    on_connect-connect_named w u args name vms asks ∙ connect_named-unknown w u name vms h
on_connect-outcome w u args vms (held vm) (name, asks, found, h) =
    on_connect-connect_named w u args name vms asks
    ∙ (connect_named-found w u name vm vms found ∙ connect_to-held w u name vm vms h)
on_connect-outcome w u args vms (joins name vm) (asks, found, h) =
    on_connect-connect_named w u args name vms asks
    ∙ (connect_named-found w u name vm vms found ∙ connect_to-joins w u name vm vms h)

asked_answer :
    (u : Client) (args : List Bytes) (name : Bytes) (vms : Vms)
    → Asks u args name
    → (a : Answer) × Meets u args vms a
asked_answer u args [] vms h = (unknown, ([], h, inl refl))
asked_answer u args (c ∷ s) vms h = elim (Option-cases (find_vm (c ∷ s) vms)) [
  | inl n ↦ (unknown, (c ∷ s, h, inr n))
  | inr (vm, e) ↦ elim (Bool-cases u.name_fixed) [
    | inl f ↦ (held vm, (c ∷ s, h, (ground arith, e), f))
    | inr f ↦ (joins (c ∷ s) vm, (h, (ground arith, e), f))
  ]
]

some_answer : (u : Client) (args : List Bytes) (vms : Vms) → (a : Answer) × Meets u args vms a
some_answer u [] vms = (ignored, inl (inl (omega arith)))
some_answer u (a ∷ b ∷ args) vms = (ignored, inl (inl (omega arith)))
some_answer u (a ∷ []) vms = elim (Bool-cases u.viewing) [
  | inl v ↦ (ignored, inl (inr v))
  | inr v ↦ elim (Bool-cases u.named) [
    | inl n ↦
        asked_answer u (a ∷ []) (c_str a) vms
          (record { arg = a; single = refl; text = refl; not_viewing = v; has_name = n })
    | inr n ↦ (ignored, inr n)
  ]
]

-- A request to join a VM meets the conditions of one of four answers, and whichever it meets is
-- carried out. It is ignored where it has not one argument, or the user views a VM or has no name.
-- Where the name is empty or no VM has it, nothing changes and the user is told that the request
-- failed. Where the user's address is kept from renaming, nothing changes and the user is told of
-- uploads only. In all other cases the user comes first in the VM's list, views a VM, and is told
-- of uploads, of what the VM allows, of the users, the chat, the message of the day, the turns
-- and the vote, each in a well-formed instruction.
pub on_connect-answers :
    (w : World) (u : Client) (args : List Bytes) (vms : Vms)
    → ((a : Answer) × Meets u args vms a)
      × ((a : Answer)
          → Meets u args vms a
          → on_connect_instruction w u args vms ≡ outcome w u vms a)
on_connect-answers w u args vms = (some_answer u args vms, on_connect-outcome w u args vms)

-- ===== src/Chat/Instruction/Flood.antt =====
-- The rate limit of `OnChatInstruction` in src/CollabVM.cpp bounds what one IP address can send.
use collab_vm_server.Prelude.{
  ℕ, suc, ◌+◌, ◌-◌, ◌≤◌, ◌<◌, ◌≡◌, ◌≢◌, refl, ap, ◌∙◌, ◌⊎◌, inl, inr, true, false, some, List, [],
  ◌∷◌, ◌++◌, Bytes, arith, ◌==◌, if◌then◌else◌, Option-cases, update,
}
use collab_vm_server.Html.{encode_html_string}
use collab_vm_server.Chat.Instruction.{
  Muted, Rank, ChatData, Config, Chat, User, Outbox, send_all, mute_user, check_muted, is_limited,
  count_message, publish, limit_rate, on_chat_instruction, c_str, chat_instr, unmuted, temp_mute,
  perm_mute,
}

-- How many messages go to one user.
abbrev pub received : ℕ → Outbox → ℕ
received w [] = 0
received w ((u, s) ∷ o) = if u == w then suc (received w o) else received w o

abbrev pub occurrences : ℕ → List ℕ → ℕ
occurrences w [] = 0
occurrences w (u ∷ us) = if u == w then suc (occurrences w us) else occurrences w us

received-send_all :
    (w : ℕ) (us : List ℕ) (s : Bytes) → received w (send_all us s) ≡ occurrences w us
unfolding send_all
received-send_all w [] s = refl
received-send_all w (u ∷ us) s = ground (arith, received-send_all w us s)

received-append : (w : ℕ) (o p : Outbox) → received w (o ++ p) ≡ received w o + received w p
received-append w [] p = omega arith
received-append w ((u, s) ∷ o) p = ground (arith, received-append w o p)

-- A chat message: when it arrives, from whom, and its text.
abbrev pub Arrival : Type 0
Arrival = ℕ × User × Bytes

abbrev pub run : Config → List ℕ → List Arrival → Chat → Outbox
run g connections [] s = []
run g connections ((now, u, arg) ∷ es) s =
    let (s', o) = on_chat_instruction g now connections u (arg ∷ []) s in
    o ++ run g connections es s'

module _ (g : Config) (connections : List ℕ) (i t0 w : ℕ) where
  -- From users of the address that the limit applies to, other than `w`, within the window.
  abbrev pub Within : Arrival → Type 0
  Within (now, u, arg) =
      (u.ip ≡ i)
      × (is_limited g u.rank ≡ true)
      × (u.id ≢ w)
      × (t0 ≤ now)
      × (now < t0 + g.chat_rate_time)

  abbrev pub AllWithin : List Arrival → Type 0
  AllWithin [] = Unit
  AllWithin (e ∷ es) = Within e × AllWithin es

  -- The setting is in range, and a mute outlasts the window.
  abbrev pub IsStrict : Type 0
  IsStrict =
      (0 < g.chat_rate_count)
      × (g.chat_rate_count < 256)
      × (0 < g.chat_rate_time)
      × (g.chat_rate_time ≤ g.chat_mute_time)

  -- How many messages the data still let through.
  abbrev allowance : ChatData → ℕ
  allowance d = elim d.chat_muted [ unmuted ↦ g.chat_rate_count - 1 - d.chat_msg_count | _ ↦ 0 ]

  abbrev Counting : ChatData → Type 0
  Counting d = elim d.chat_muted [
    | unmuted ↦ (d.last_chat_msg ≡ t0) × (d.chat_msg_count < g.chat_rate_count)
    | temp_mute ↦ t0 ≤ d.last_chat_msg
    | perm_mute ↦ Unit
  ]

  publish-lem :
      (now cell : ℕ) (arg : Bytes) (s : Chat)
      → occurrences w connections ≤ 1
      → received w (publish g now connections cell arg s).1 ≤ 1
  unfolding publish
  publish-lem now cell arg s h =
      ground
        (arith, received-send_all w connections (chat_instr (s.text cell) (encode_html_string arg)))

  ip-publish :
      (now cell : ℕ) (arg : Bytes) (s : Chat) → (publish g now connections cell arg s).0.ip ≡ s.ip
  unfolding publish
  ip-publish now cell arg s = ground arith

  -- The data that the step leaves, and what `w` has received.
  abbrev Paid : ChatData → Chat × Outbox → Type 0
  Paid d (s, o) = Counting (s.ip i) × (received w o + allowance (s.ip i) ≤ allowance d)

  -- Within the window a message is counted, and the limit is met or is not.
  count_message-lem :
      (now : ℕ) (r : Rank) (d : ChatData)
      → IsStrict
      → is_limited g r ≡ true
      → now < t0 + g.chat_rate_time
      → d.last_chat_msg ≡ t0
      → d.chat_msg_count < g.chat_rate_count
      → ((count_message g now r d).1 ≡ true)
        ⊎ (((count_message g now r d).1 ≡ false)
            × ((count_message g now r d).0.last_chat_msg ≡ t0)
            × ((count_message g now r d).0.chat_msg_count ≡ d.chat_msg_count + 1)
            × ((count_message g now r d).0.chat_muted ≡ d.chat_muted)
            × (d.chat_msg_count + 1 < g.chat_rate_count))
  unfolding count_message is_limited
  count_message-lem now r d st l n a b = ground arith

  over-Paid :
      (now : ℕ) (u : User) (d : ChatData) (s : Chat)
      → Within (now, u, [])
      → Paid d (mute_user g now u false s)
  unfolding mute_user
  over-Paid now u d s h = (ground arith, ground arith)

  counted-Paid :
      (now cell : ℕ) (arg : Bytes) (d d' : ChatData) (s : Chat)
      → occurrences w connections ≤ 1
      → d.chat_muted ≡ unmuted
      → d'.chat_muted ≡ unmuted
      → d'.last_chat_msg ≡ t0
      → d'.chat_msg_count ≡ d.chat_msg_count + 1
      → d.chat_msg_count + 1 < g.chat_rate_count
      → s.ip i ≡ d'
      → Paid d (publish g now connections cell arg s)
  counted-Paid now cell arg d d' s o m m' l c lt e =
      let q : (publish g now connections cell arg s).0.ip i ≡ d' =
        ap (λ (f : ℕ → ChatData). f i) (ip-publish now cell arg s) ∙ e in
      let b = publish-lem now cell arg s o in rw (q, m, m') ((l, omega arith), omega arith)

  limit_rate-Paid :
      (now : ℕ) (u : User) (cell : ℕ) (arg : Bytes) (d : ChatData) (s : Chat)
      → IsStrict
      → occurrences w connections ≤ 1
      → Within (now, u, arg)
      → d.chat_muted ≡ unmuted
      → Counting d
      → Paid d (limit_rate g now connections u cell arg d s)
  unfolding limit_rate
  limit_rate-Paid now u cell arg d s st o h m c =
      let (a, b) : (d.last_chat_msg ≡ t0) × (d.chat_msg_count < g.chat_rate_count) = rw m at c in
      let d' = (count_message g now u.rank d).0 in
      let s' = record s { ip = update s.ip u.ip d' } in
      elim (count_message-lem now u.rank d st h.1 h.4 a b) [
        | inl over ↦ rw over (over-Paid now u d s' h)
        | inr (e, l, k, q, lt) ↦
            rw e (counted-Paid now cell (c_str arg) d d' s' o m (q ∙ m) l k lt (ground arith))
      ]

  -- A mute does not end within the window.
  check_muted-lem :
      (now : ℕ) (d d' : ChatData) (m : Muted)
      → IsStrict
      → now < t0 + g.chat_rate_time
      → d.chat_muted ≡ m
      → Counting d
      → check_muted g now d ≡ some d'
      → (d' ≡ d) × (d.chat_muted ≡ unmuted)
  unfolding check_muted
  check_muted-lem now d d' unmuted st l e c q = (ground arith, e)
  check_muted-lem now d d' temp_mute st l e c q =
      let k : t0 ≤ d.last_chat_msg = rw e at c in absurd (ground arith)
  check_muted-lem now d d' perm_mute st l e c q = absurd (ground arith)

  unchanged-Paid : (s : Chat) → Counting (s.ip i) → Paid (s.ip i) (s, [])
  unchanged-Paid s c = (c, omega arith)

  on_chat-Paid :
      (e : Arrival) (s : Chat)
      → IsStrict
      → occurrences w connections ≤ 1
      → Within e
      → Counting (s.ip i)
      → Paid (s.ip i) (on_chat_instruction g e.0 connections e.1 (e.2 ∷ []) s)
  unfolding on_chat_instruction
  on_chat-Paid (now, u, arg) s st o h c = elim (Option-cases u.username) [
    | inl n ↦ rw (n, on_chat_instruction) (unchanged-Paid s c)
    | inr (cell, n) ↦ elim (Option-cases (check_muted g now (s.ip u.ip))) [
      | inl k ↦ rw (n, k, on_chat_instruction) (unchanged-Paid s c)
      | inr (d, k) ↦
          let k' : check_muted g now (s.ip i) ≡ some d = rw h.0 at k in
          let (p, q) = check_muted-lem now (s.ip i) d (s.ip i).chat_muted st h.4 refl c k' in
          rw (n, k, on_chat_instruction)
            (rw p (limit_rate-Paid now u cell arg (s.ip i) s st o h q c))
    ]
  ]

  run-Paid :
      (es : List Arrival) (s : Chat)
      → IsStrict
      → occurrences w connections ≤ 1
      → AllWithin es
      → Counting (s.ip i)
      → received w (run g connections es s) ≤ allowance (s.ip i)
  run-Paid [] s st o h c = omega arith
  run-Paid ((now, u, arg) ∷ es) s st o h c =
      let p = on_chat-Paid (now, u, arg) s st o h.0 c in
      let s' = (on_chat_instruction g now connections u (arg ∷ []) s).0 in
      let out = (on_chat_instruction g now connections u (arg ∷ []) s).1 in
      omega
        (arith, p.1, run-Paid es s' st o h.1 p.0, received-append w out (run g connections es s'))

  -- Where the limit is from 1 to 255 and a mute lasts at least as long as the window of the rate
  -- limit, which is not 0: within the window that a message of an address that is not muted has
  -- opened, all the users of the address that the limit applies to get fewer messages through to
  -- any other user, who is connected at most once, than the limit's count.
  pub flood-bound :
      (es : List Arrival) (s : Chat)
      → IsStrict
      → occurrences w connections ≤ 1
      → AllWithin es
      → (s.ip i).chat_muted ≡ unmuted
      → (s.ip i).last_chat_msg ≡ t0
      → (s.ip i).chat_msg_count ≡ 0
      → received w (run g connections es s) < g.chat_rate_count
  flood-bound es s st o h m l c =
      let k : Counting (s.ip i) = rw m (l, omega arith) in
      let b : received w (run g connections es s)
          ≤ g.chat_rate_count - 1 - (s.ip i).chat_msg_count =
        rw m at (run-Paid es s st o h k) in
      omega arith

-- ===== src/Chat/Ring.antt =====
-- The circular buffer of src/CollabVM.cpp: `chat_history_`, its two indices and its count. The size
-- is the setting `ChatMsgHistory`, which does not change while the server runs.
pub mod Slices
pub mod Latest
use collab_vm_server.Prelude.{
  ℕ, zero, suc, ◌+◌, ◌-◌, ◌%◌, Bool, true, false, not, ◌&&◌, Option, none, some, List, [], ◌∷◌,
  ◌++◌, ltb, ◌==◌, if◌then◌else◌, get_elem?, set, replicate,
}

pub record Ring {ℓ} (A : Type ℓ) : Type ℓ where
  pub buf : List A
  pub begin : ℕ
  pub end : ℕ
  pub count : ℕ

-- An index goes up, and from the last place to 0.
abbrev pub advance : ℕ → ℕ → ℕ
advance n i = if i == n - 1 then 0 else i + 1

module _ {ℓ} {A : Type ℓ} where
  -- The buffer of `new ChatMessage[n]`.
  unfoldable pub init : ℕ → A → Ring A
  init n a = record { buf = replicate n a; begin = 0; end = 0; count = 0 }

  -- What `OnChatInstruction` does with a message.
  unfoldable pub append : ℕ → A → Ring A → Ring A
  append n m r =
      let written = record r { buf = set r.buf r.end m; end = advance n r.end } in
      if n == 0
      then r
      else if r.end == r.begin && not (r.count == 0)
      then record written { begin = advance n r.begin }
      else record written { count = (r.count + 1) % 256 }

  -- `for(i = …; i < …; i++)` over the buffer, in `k` rounds; a read out of range ends it.
  unfoldable pub range : ℕ → ℕ → List A → List A
  range zero i buf = []
  range (suc k) i buf = elim (get_elem? buf i) [ none ↦ [] | some m ↦ m ∷ range k (i + 1) buf ]

  -- The messages that `SendChatHistory` writes, in order.
  unfoldable pub messages : ℕ → Ring A → List A
  unfolding range
  messages n r =
      if r.count == 0
      then []
      else if ltb r.begin r.end
      then range (r.end - r.begin) r.begin r.buf
      else range (n - r.begin) r.begin r.buf ++ range r.end 0 r.buf

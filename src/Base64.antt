-- ===== src/Base64.antt =====
-- The encoder of src/Base64.h. An `int` is a byte or -1, which is `none` here; the return values,
-- which are never negative, are left out.
pub mod RoundTrip
use collab_vm_server.Prelude.{
  ℕ, zero, suc, ◌+◌, ◌*◌, ◌/◌, ◌%◌, Option, none, some, List, [], ◌∷◌, ◌++◌, Bytes, codes, get_or,
}

-- `__guac_socket_BASE64_CHARACTERS`.
unfoldable pub characters : Bytes
characters = codes "ABCDEFGHIJKLMNOPQRSTUVWXYZabcdefghijklmnopqrstuvwxyz0123456789+/"

unfoldable pub character : ℕ → ℕ
unfolding characters
character i = get_or characters i 0

-- The stream, and the bytes of `base64_ready_buf_` that are ready.
pub record Base64 : Type 0 where
  pub out : Bytes
  pub ready : List (Option ℕ)

-- The bits that `|` joins are at different places, so they are added.
unfoldable pub write_triplet : ℕ → Option ℕ → Option ℕ → Bytes
unfolding character
write_triplet a none c = character (a / 4) ∷ character (a % 4 * 16) ∷ b'=' ∷ b'=' ∷ []
write_triplet a (some b) none =
    character (a / 4) ∷ character (a % 4 * 16 + b / 16) ∷ character (b % 16 * 4) ∷ b'=' ∷ []
write_triplet a (some b) (some c) =
    character (a / 4)
    ∷ character (a % 4 * 16 + b / 16)
    ∷ character (b % 16 * 4 + c / 64)
    ∷ character (c % 64)
    ∷ []

-- The first byte of a triplet is never -1.
unfoldable pub write_ready : Bytes → List (Option ℕ) → Option ℕ → Base64
unfolding write_triplet
write_ready out [] buf = record { out = out; ready = buf ∷ [] }
write_ready out (a ∷ []) buf = record { out = out; ready = a ∷ buf ∷ [] }
write_ready out (some a ∷ b ∷ bs) buf = record { out = out ++ write_triplet a b buf; ready = [] }
write_ready out (none ∷ b ∷ bs) buf = record { out = out; ready = none ∷ b ∷ bs }

unfoldable pub write_byte : Option ℕ → Base64 → Base64
unfolding write_ready
write_byte buf s = write_ready s.out s.ready buf

unfoldable pub write : Bytes → Base64 → Base64
unfolding write_byte
write [] s = s
write (c ∷ buf) s = write buf (write_byte (some c) s)

-- The loop of `FlushBase64`, on fuel: it ends after two rounds.
unfoldable pub flush_loop : ℕ → Base64 → Base64
unfolding write_byte
flush_loop zero s = s
flush_loop (suc f) s = elim s.ready [ [] ↦ s | b ∷ bs ↦ flush_loop f (write_byte none s) ]

unfoldable pub encode : Bytes → Base64
unfolding write flush_loop
encode buf = flush_loop 2 (write buf (record { out = []; ready = [] }))

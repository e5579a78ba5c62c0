-- ===== src/Admin/Gate.antt =====
-- The tests before the `switch` of `OnAdminInstruction` as a table of permissions.
use collab_vm_server.Prelude.{
  ℕ, ◌≡◌, ◌↔◌, ◌⊎◌, inl, inr, Bool, true, false, not, ◌&&◌, ◌||◌, List, [], ◌∷◌, arith, ◌==◌,
  Bool-cases,
}
use collab_vm_server.Chat.Instruction.{Rank}
use collab_vm_server.Admin.{
  Config, stop, sesh_id, master_pwd, restore_vm, reset_vm, ban_user, force_vote, mute_user,
  kick_user, end_user_turn, clear_turn_queue, force_take_turn, rename_user, user_ip, has_perm,
  is_moderator, lacks, is_denied,
}

-- The bit of `ModPerms` that lets moderators use an opcode.
abbrev pub permissions : List (ℕ × ℕ)
permissions =
    (restore_vm, 0)
    ∷ (reset_vm, 1)
    ∷ (ban_user, 2)
    ∷ (force_vote, 3)
    ∷ (mute_user, 4)
    ∷ (kick_user, 5)
    ∷ (end_user_turn, 6)
    ∷ (clear_turn_queue, 6)
    ∷ (force_take_turn, 6)
    ∷ (rename_user, 7)
    ∷ (user_ip, 8)
    ∷ []

abbrev pub Granted : Config → ℕ → List (ℕ × ℕ) → Type 0
Granted g op [] = ⊥
Granted g op ((o, k) ∷ ps) = ((op ≡ o) × (has_perm g k ≡ true)) ⊎ Granted g op ps

-- An administrator may do all, a moderator what the table says and log out, anybody log in.
abbrev pub Permitted : Config → Rank → Bool → ℕ → Type 0
Permitted g r connected op =
    ((op ≡ sesh_id) ⊎ (op ≡ master_pwd))
    ⊎ ((connected ≡ true) × (is_moderator r ≡ false))
    ⊎ ((is_moderator r ≡ true)
        × ((connected ≡ true) ⊎ (g.mod_enabled ≡ true))
        × ((op ≡ stop) ⊎ Granted g op permissions))

lacks_in : Config → ℕ → List (ℕ × ℕ) → Bool
lacks_in g op [] = true
lacks_in g op ((o, k) ∷ []) = not (op == o) || not (has_perm g k)
lacks_in g op ((o, k) ∷ p ∷ ps) = (not (op == o) || not (has_perm g k)) && lacks_in g op (p ∷ ps)

lacks_in-Granted :
    (g : Config) (op : ℕ) (ps : List (ℕ × ℕ)) → (lacks_in g op ps ≡ false) ↔ Granted g op ps
unfolding lacks_in
lacks_in-Granted g op [] = (λ h. cc, λ h. absurd h)
lacks_in-Granted g op ((o, k) ∷ []) =
    (λ h. inl (ground arith), λ h. elim h [ inl (e, p) ↦ ground arith | inr b ↦ absurd b ])
lacks_in-Granted g op ((o, k) ∷ p ∷ ps) = (
  λ h. elim (Bool-cases (not (op == o) || not (has_perm g k))) [
    | inl e ↦ inr ((lacks_in-Granted g op (p ∷ ps)).0 (rw e at h))
    | inr e ↦ inl (ground arith)
  ],
  λ h. elim h [
    | inl (e, q) ↦ ground arith
    | inr b ↦ let r = (lacks_in-Granted g op (p ∷ ps)).1 b in ground arith
  ],
)

lacks-Granted : (g : Config) (op : ℕ) → (lacks g op ≡ false) ↔ Granted g op permissions
unfolding lacks lacks_in
lacks-Granted g op = lacks_in-Granted g op permissions

-- The tests let exactly these pass: an attempt to log in, from anybody; any opcode from one that
-- is connected to the panel and is no moderator; and from a moderator that is connected or while
-- moderators are enabled, logging out and what the bits of `ModPerms` grant by the table.
pub is_denied-Permitted :
    (g : Config) (r : Rank) (connected : Bool) (op : ℕ)
    → (is_denied g r connected op ≡ false) ↔ Permitted g r connected op
unfolding is_denied
is_denied-Permitted g r connected op = (
  λ h. elim (Bool-cases (op == sesh_id)) [
    | inl e ↦ inl (inl (ground arith))
    | inr e ↦ elim (Bool-cases (op == master_pwd)) [
      | inl f ↦ inl (inr (ground arith))
      | inr f ↦ elim (Bool-cases (is_moderator r)) [
        | inr m ↦ inr (inl (ground arith, m))
        | inl m ↦ inr (inr (m, present h e f, granted h e f m))
      ]
    ]
  ],
  λ p. elim p [
    | inl (inl e) ↦ ground arith
    | inl (inr e) ↦ ground arith
    | inr (inl (c, m)) ↦ ground arith
    | inr (inr (m, c, inl e)) ↦ elim c [ inl d ↦ ground arith | inr d ↦ ground arith ]
    | inr (inr (m, c, inr q)) ↦
        let l = (lacks-Granted g op).1 q in elim c [ inl d ↦ ground arith | inr d ↦ ground arith ]
  ],
)
  where
    present :
        is_denied g r connected op ≡ false
        → (op == sesh_id) ≡ false
        → (op == master_pwd) ≡ false
        → (connected ≡ true) ⊎ (g.mod_enabled ≡ true)
    present h e f = elim (Bool-cases connected) [ inl c ↦ inl c | inr c ↦ inr (ground arith) ]

    granted :
        is_denied g r connected op ≡ false
        → (op == sesh_id) ≡ false
        → (op == master_pwd) ≡ false
        → is_moderator r ≡ true
        → (op ≡ stop) ⊎ Granted g op permissions
    granted h e f m = elim (Bool-cases (op == stop)) [
      | inl z ↦ inl (ground arith)
      | inr z ↦ let l : lacks g op ≡ false = ground arith in inr ((lacks-Granted g op).0 l)
    ]

-- ===== src/Users/Kept.antt =====
-- Each operation of src/CollabVM.cpp on names keeps the states consistent.
use collab_vm_server.Prelude.{
  ℕ, ◌^◌, ◌<◌, ◌≡◌, refl, sym, ◌∙◌, inl, inr, true, false, not, ◌&&◌, Option, none, some, List, [],
  ◌∷◌, Bytes, arith, ◌==◌, length, update, Bool-cases, Option-cases,
}
use collab_vm_server.Chat.Instruction.{c_str}
use collab_vm_server.Names.{validate_username}
use collab_vm_server.Users.{
  same, Users, Env, Config, UsernameChangeResult, success, username_taken, invalid, find, remove,
  generate_username, is_success, name_of,
}
use collab_vm_server.Users.Map.{find-remove, find-same}
use collab_vm_server.Users.Generated.{generate_username_sound}
use collab_vm_server.Users.Inv.{Inv, change_username-Inv}
use collab_vm_server.Users.Rename.{
  is_some, is_own, has_name, is_staff, change_generated, refuse, request_name,
  on_rename_instruction, rename_user, admin_rename, named, remove_name,
}

change_generated-Inv :
    (g : Config) (e : Env) (u : ℕ) (s : Users)
    → e.drawn < 2 ^ 32
    → Inv s
    → Inv (change_generated g e u s).0
unfolding change_generated
change_generated-Inv g e u s d h = elim (Option-cases (generate_username e.drawn s.usernames)) [
  | inl n ↦ rw (n, change_generated) h
  | inr (name, n) ↦
      rw (n, change_generated)
        (change_username-Inv g e u name success s h
          (λ _. generate_username_sound e.drawn s.usernames name d n))
]

refuse-Inv :
    (g : Config) (e : Env) (u : ℕ) (result : UsernameChangeResult) (s : Users)
    → e.drawn < 2 ^ 32
    → is_success result ≡ false
    → Inv s
    → Inv (refuse g e u result s).0
unfolding refuse
refuse-Inv g e u result s d r h = elim (Option-cases (name_of s u)) [
  | inl n ↦ rw (n, refuse) (change_generated-Inv g e u s d h)
  | inr (name, n) ↦ rw (n, refuse) (change_username-Inv g e u name result s h (λ k. cc))
]

none-is_some : (o : Option ℕ) → is_some o ≡ false → o ≡ none
none-is_some none h = refl
none-is_some (some a) h = cc

request_name-Inv :
    (g : Config) (e : Env) (u : ℕ) (name : Bytes) (s : Users)
    → e.drawn < 2 ^ 32
    → Inv s
    → Inv (request_name g e u name s).0
unfolding request_name
request_name-Inv g e u name s d h = elim (Bool-cases (length name == 0)) [
  | inl a ↦ rw (a, request_name) (change_generated-Inv g e u s d h)
  | inr a ↦ elim (Bool-cases (validate_username name)) [
    | inr b ↦ rw (a, b, request_name) (refuse-Inv g e u invalid s d refl h)
    | inl b ↦ elim (Bool-cases (is_some (find name s.usernames))) [
      | inl c ↦ rw (a, b, c, request_name) (refuse-Inv g e u username_taken s d refl h)
      | inr c ↦
          elim (Bool-cases (has_name name g.blacklisted_usernames && not (is_staff (e.rank u)))) [
            | inl k ↦ rw (a, b, c, k, request_name) h
            | inr k ↦
                rw (a, b, c, k, request_name)
                  (change_username-Inv g e u name success s h
                    (λ _. none-is_some (find name s.usernames) c))
          ]
    ]
  ]
]

pub on_rename-Inv :
    (g : Config) (e : Env) (u : ℕ) (args : List Bytes) (s : Users)
    → e.drawn < 2 ^ 32
    → Inv s
    → Inv (on_rename_instruction g e u args s).0
unfolding on_rename_instruction
on_rename-Inv g e u [] s d h = elim (Bool-cases (is_some (s.cell u))) [
  | inl a ↦ rw (a, on_rename_instruction) h
  | inr a ↦ rw (a, on_rename_instruction) (change_generated-Inv g e u s d h)
]
on_rename-Inv g e u (arg ∷ args) s d h = elim (Bool-cases (is_own (name_of s u) (c_str arg))) [
  | inl a ↦ rw (a, on_rename_instruction) h
  | inr a ↦ rw (a, on_rename_instruction) (request_name-Inv g e u (c_str arg) s d h)
]

rename_user-Inv :
    (g : Config) (e : Env) (v : ℕ) (name : Option Bytes) (s : Users)
    → e.drawn < 2 ^ 32
    → Inv s
    → Inv (rename_user g e v name s).0
unfolding rename_user
rename_user-Inv g e v none s d h = change_generated-Inv g e v s d h
rename_user-Inv g e v (some name) s d h = elim (Bool-cases (is_some (find name s.usernames))) [
  | inl c ↦ rw (c, rename_user) h
  | inr c ↦ elim (Bool-cases (validate_username name)) [
    | inr b ↦ rw (c, b, rename_user) h
    | inl b ↦
        rw (c, b, rename_user)
          (change_username-Inv g e v name success s h (λ _. none-is_some (find name s.usernames) c))
  ]
]

pub admin_rename-Inv :
    (g : Config) (e : Env) (u : ℕ) (target : Bytes) (name : Option Bytes) (s : Users)
    → e.drawn < 2 ^ 32
    → Inv s
    → Inv (admin_rename g e u target name s).0
unfolding admin_rename
admin_rename-Inv g e u target name s d h = elim (Option-cases (named s target e.connections)) [
  | inl n ↦ rw (n, admin_rename) h
  | inr (v, n) ↦ rw (n, admin_rename) (rename_user-Inv g e v name s d h)
]

-- Without the user `u`, whose string is `c`.
without-Inv :
    (u c : ℕ) (s : Users)
    → s.cell u ≡ some c
    → Inv s
    → Inv (record s { usernames = remove (s.text c) s.usernames; cell = update s.cell u none })
without-Inv u c s p h = record {
  named = λ v d q. elim (Bool-cases (v == u)) [
    | inl e ↦ let r : none ≡ some d = rw e at q in absurd (none_some r)
    | inr e ↦
        let q' : s.cell v ≡ some d = rw e at q in
        let a = h.named v d q' in
        rw (find-remove (s.text d) (s.text c) s.usernames, other v d e q') a
  ];
  listed = λ k v q.
      let r : (same k (s.text c) ≡ false) × (find k s.usernames ≡ some v) =
        ground (arith, find-remove k (s.text c) s.usernames) in
      let (d, a, b) = h.listed k v r.1 in (d, rw (gone k v d r.0 a b) a, b);
  below = λ v d q. ground (arith, h.below v d);
}
  where
    none_some : {w : ℕ} → none ≡ some w → ⊥
    none_some r = cc

    other : (v d : ℕ) → (v == u) ≡ false → s.cell v ≡ some d → same (s.text d) (s.text c) ≡ false
    other v d e q = elim (Bool-cases (same (s.text d) (s.text c))) [
      | inr f ↦ f
      | inl f ↦
          let a = h.named v d q in
          let b = h.named u c p in
          let r = find-same (s.text d) (s.text c) s.usernames f in
          let i : v ≡ u = cc in ground arith
    ]

    true_false : true ≡ false → ⊥
    true_false r = cc

    gone :
        (k : Bytes) (v d : ℕ)
        → same k (s.text c) ≡ false
        → s.cell v ≡ some d
        → same k (s.text d) ≡ true
        → (v == u) ≡ false
    gone k v d f a b = elim (Bool-cases (v == u)) [
      | inr e ↦ e
      | inl e ↦
          let i : v ≡ u = ground arith in
          let j : d ≡ c = cc in
          let x : same k (s.text c) ≡ true = rw (← j) b in absurd (true_false (sym x ∙ f))
    ]

pub remove_name-Inv : (e : Env) (u : ℕ) (s : Users) → Inv s → Inv (remove_name e u s).0
unfolding remove_name
remove_name-Inv e u s h = elim (Option-cases (s.cell u)) [
  | inl n ↦ rw (n, remove_name) h
  | inr (c, n) ↦ rw (n, remove_name) (without-Inv u c s n h)
]

-- ===== src/Users/Inv.antt =====
-- The consistent states: the map of names and the users' strings agree.
use collab_vm_server.Prelude.{
  ℕ, ◌+◌, ◌<◌, ◌≡◌, ◌≢◌, refl, sym, ap, ◌∙◌, inl, inr, Bool, true, false, not, none, some, [],
  Bytes, arith, ==_iff, ◌==◌, if◌then◌else◌, update, Bool-cases, Option-cases,
}
use collab_vm_server.Users.{
  same, Registry, Users, Env, Config, UsernameChangeResult, find, insert, remove, assign,
  limit_change, change_username, NameData, is_success,
}
use collab_vm_server.Chat.Instruction.{Outbox}
use collab_vm_server.Users.Map.{same_refl, find-insert, find-remove, find-same}

pub record Inv (s : Users) : Type 0 where
  -- A user's name is in the map, with the user.
  pub named : (u c : ℕ) → s.cell u ≡ some c → find (s.text c) s.usernames ≡ some u
  -- What is in the map is the name, in some case, of a user.
  pub listed :
      (k : Bytes) (u : ℕ)
      → find k s.usernames ≡ some u
      → (c : ℕ) × (s.cell u ≡ some c) × (same k (s.text c) ≡ true)
  pub below : (u c : ℕ) → s.cell u ≡ some c → c < s.fresh

-- Two users share no string.
pub apart : {s : Users} (u v c : ℕ) → Inv s → s.cell u ≡ some c → s.cell v ≡ some c → u ≡ v
apart u v c h p q = let a = h.named u c p in let b = h.named v c q in cc

-- Under a free name, another name finds what it did.
find_free :
    (k name : Bytes) (v : ℕ) (m : Registry)
    → find name m ≡ none
    → find k m ≡ some v
    → same k name ≡ false
find_free k name v m f p = elim (Bool-cases (same k name)) [
  | inl e ↦ let q = find-same k name m e in absurd (none_some (sym f ∙ sym q ∙ p))
  | inr e ↦ e
]
  where
    none_some : {w : ℕ} → none ≡ some w → ⊥
    none_some r = cc

module _ (u : ℕ) (name : Bytes) (s : Users) (h : Inv s) (free : find name s.usernames ≡ none) where
  -- A user that has no name yet.
  first-Inv :
      s.cell u ≡ none
      → Inv (record s {
        usernames = insert name u s.usernames;
        cell = update s.cell u (some s.fresh);
        text = update s.text s.fresh name;
        fresh = s.fresh + 1;
      })
  first-Inv new = record {
    named = λ v c p. elim (Bool-cases (v == u)) [
      | inl e ↦
          let q : some s.fresh ≡ some c = rw e at p in
          ground (arith, find-insert name name u s.usernames, same_refl name)
      | inr e ↦
          let q : s.cell v ≡ some c = rw e at p in
          let b = h.below v c q in
          let a = h.named v c q in
          let d = find_free (s.text c) name v s.usernames free a in
          let t : update s.text s.fresh name c ≡ s.text c = ground arith in
          rw (t, find-insert (s.text c) name u s.usernames, d) a
    ];
    listed = λ k v p. elim (Bool-cases (same k name)) [
      | inl e ↦
          let q : some u ≡ some v = sym (rw e at (find-insert k name u s.usernames)) ∙ p in
          (s.fresh, ground arith, ground arith)
      | inr e ↦
          let q : find k s.usernames ≡ some v =
            sym (rw e at (find-insert k name u s.usernames)) ∙ p in
          let (c, a, b) = h.listed k v q in
          let l = h.below v c a in
          let d : v ≢ u = λ i. absurd (nameless v c a i) in (c, ground arith, ground arith)
    ];
    below = λ v c p. ground (arith, h.below v c);
  }
    where
      nameless : (v c : ℕ) → s.cell v ≡ some c → v ≡ u → ⊥
      nameless v c a i = cc

  -- A user whose string is written again.
  again-Inv :
      (c0 : ℕ)
      → s.cell u ≡ some c0
      → Inv (record s {
        usernames = insert name u (remove (s.text c0) s.usernames);
        text = update s.text c0 name;
      })
  again-Inv c0 old = record {
    named = λ v c p. elim (Bool-cases (c == c0)) [
      | inl e ↦
          let i : c ≡ c0 = (==_iff c c0).0 e in
          let j = apart u v c0 h old (p ∙ ap some i) in
          ground (arith, find-insert name name u (remove (s.text c0) s.usernames), same_refl name)
      | inr e ↦
          let a = h.named v c p in
          let d = find_free (s.text c) name v s.usernames free a in
          let f = other v c p e in
          rw
            (
              e,
              find-insert (s.text c) name u (remove (s.text c0) s.usernames),
              d,
              find-remove (s.text c) (s.text c0) s.usernames,
              f,
            )
            a
    ];
    listed = λ k v p. elim (Bool-cases (same k name)) [
      | inl e ↦
          let q : some u ≡ some v =
            sym (rw e at (find-insert k name u (remove (s.text c0) s.usernames))) ∙ p in
          (c0, ground arith, ground arith)
      | inr e ↦
          let q : find k (remove (s.text c0) s.usernames) ≡ some v =
            sym (rw e at (find-insert k name u (remove (s.text c0) s.usernames))) ∙ p in
          let r : (same k (s.text c0) ≡ false) × (find k s.usernames ≡ some v) =
            ground (arith, find-remove k (s.text c0) s.usernames) in
          let (c, a, b) = h.listed k v r.1 in (c, a, ground arith)
    ];
    below = h.below;
  }
    where
      other :
          (v c : ℕ) → s.cell v ≡ some c → (c == c0) ≡ false → same (s.text c) (s.text c0) ≡ false
      other v c p e = elim (Bool-cases (same (s.text c) (s.text c0))) [
        | inr f ↦ f
        | inl f ↦
            let a = h.named v c p in
            let b = h.named u c0 old in
            let q = find-same (s.text c) (s.text c0) s.usernames f in
            let i : v ≡ u = cc in let j : c ≡ c0 = cc in ground arith
      ]

  assign-Inv : Inv (assign u name s)
  unfolding assign
  assign-Inv = elim (Option-cases (s.cell u)) [
    | inl e ↦ rw (e, assign) (first-Inv e)
    | inr (c, e) ↦ rw (e, assign) (again-Inv c e)
  ]

limits-Inv : (s : Users) (l : ℕ → NameData) → Inv s → Inv (record s { limits = l })
limits-Inv s l h = record { named = h.named; listed = h.listed; below = h.below }

choose-Inv :
    (goes_on ok : Bool) (s r : Users) (o : Outbox)
    → Inv s
    → (ok ≡ true → Inv r)
    → Inv (if◌then◌else◌ {A = Users × Outbox} (not goes_on) (s, []) (if ok then r else s, o)).0
choose-Inv false ok s r o h k = h
choose-Inv true true s r o h k = k refl
choose-Inv true false s r o h k = h

-- Only a change that succeeds is to bring a free name.
pub change_username-Inv :
    (g : Config) (e : Env) (u : ℕ) (name : Bytes) (result : UsernameChangeResult) (s : Users)
    → Inv s
    → (is_success result ≡ true → find name s.usernames ≡ none)
    → Inv (change_username g e u name result s).0
unfolding change_username
change_username-Inv g e u name result s h f =
    choose-Inv (limit_change g e.now (s.limits (e.ip u))).1 (is_success result) _ _ _
      (limits-Inv s _ h) (λ k. limits-Inv (assign u name s) _ (assign-Inv u name s h (f k)))

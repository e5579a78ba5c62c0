-- ===== src/UserList/Holds.antt =====
-- The operations of src/UserList.h keep the links right.
use collab_vm_server.Prelude.{
  ℕ, suc, ◌+◌, ◌-◌, ◌%◌, ◌^◌, ◌<◌, ◌≡◌, refl, sym, ap, ◌∙◌, inl, inr, Bool, true, false, Option,
  none, some, List, [], ◌∷◌, arith, ◌==◌, if◌then◌else◌, length, update, mem, erase, Distinct,
  Distinct-erase, is, Bool-cases, Option-cases, subst, ap₂,
}
use collab_vm_server.UserList.{UserList, add_user, unlink_next, unlink_prev, remove_user}
use collab_vm_server.UserList.Links.{
  Chain, Chain-frame, Chain-erase, relinked, next_without, prev_without, head-prev, prev-in,
  is-some,
}

pub record Holds (s : UserList) (xs : List ℕ) : Type 0 where
  pub links : Chain s.prev s.next none s.users xs
  pub distinct : Distinct xs
  pub counted : s.connected_users ≡ length xs

length-erase : (u : ℕ) (xs : List ℕ) → mem u xs ≡ true → length xs ≡ suc (length (erase u xs))
unfolding mem erase
length-erase u [] m = cc
length-erase u (x ∷ xs) m = ground (arith, length-erase u xs)

not-in : (x u : ℕ) (xs : List ℕ) → mem x xs ≡ true → mem u xs ≡ false → (x == u) ≡ false
not-in x u xs a b = elim (Bool-cases (x == u)) [
  | inr e ↦ e
  | inl e ↦ let i : x ≡ u = ground arith in absurd (no (sym (rw i at a) ∙ b))
]
  where
    no : true ≡ false → ⊥
    no k = cc

-- The user is put before the list `xs` that begins at `o`.
pushed :
    (prev next : ℕ → Option ℕ) (o : Option ℕ) (u : ℕ) (xs : List ℕ)
    → Chain prev next none o xs
    → Distinct xs
    → mem u xs ≡ false
    → Chain (relinked o (some u) (update prev u none)) (update next u o) none (some u) (u ∷ xs)
unfolding mem
pushed prev next o u [] c d m = rw c (refl, ground arith, ground arith)
pushed prev next o u (x ∷ xs) (e, q, c) d m =
    let k : (x == u) ≡ false = ground arith in
    let f =
      Chain-frame prev next (update (update prev u none) x (some u)) (update next u (some x))
        (some x) (next x) xs
        (λ z n.
          let a = not-in z u xs n (ground arith) in
          let b = not-in z x xs n d.0 in (ground arith, ground arith))
        c in
    let n : update next u (some x) x ≡ next x = rw k refl in
    subst
      (λ k.
        Chain (relinked k (some u) (update prev u none)) (update next u k) none (some u)
          (u ∷ x ∷ xs))
      (sym e) (refl, ground arith, (ground arith, ground arith, rw n f))

add_user-lem :
    (u : ℕ) (s : UserList)
    → add_user u s ≡ record s {
      prev = relinked s.users (some u) (update s.prev u none);
      next = update s.next u s.users;
      users = some u;
      connected_users = (s.connected_users + 1) % 2 ^ 64;
    }
unfolding add_user
add_user-lem u s = elim (Option-cases s.users) [
  | inl n ↦
      rw (n, add_user)
        (ap
          (λ k. record s {
            prev = update s.prev u none;
            next = update s.next u k;
            users = some u;
            connected_users = (s.connected_users + 1) % 2 ^ 64;
          })
          n)
  | inr (x, n) ↦
      rw (n, add_user)
        (ap
          (λ k. record s {
            prev = update (update s.prev u none) x (some u);
            next = update s.next u k;
            users = some u;
            connected_users = (s.connected_users + 1) % 2 ^ 64;
          })
          n)
]

pub add_user-Holds :
    (u : ℕ) (s : UserList) (xs : List ℕ)
    → mem u xs ≡ false
    → suc (length xs) < 2 ^ 64
    → Holds s xs
    → Holds (add_user u s) (u ∷ xs)
add_user-Holds u s xs m l h =
    subst (λ t. Holds t (u ∷ xs)) (sym (add_user-lem u s))
      (record {
        links = pushed s.prev s.next s.users u xs h.links h.distinct m;
        distinct = (m, h.distinct);
        counted = omega (arith, h.counted);
      })

-- What unlinking does to the fields.
unlink_prev-lem :
    (u : ℕ) (s : UserList)
    → unlink_prev u s ≡ record s { prev = relinked (s.next u) (s.prev u) s.prev }
unfolding unlink_prev
unlink_prev-lem u s = elim (Option-cases (s.next u)) [
  | inl n ↦ rw (n, unlink_prev) refl
  | inr (r, n) ↦ rw (n, unlink_prev) refl
]

abbrev is_none : Option ℕ → Bool
is_none none = true
is_none (some q) = false

unlink_next-lem :
    (u : ℕ) (s : UserList)
    → unlink_next u s ≡ record s {
      next = relinked (s.prev u) (s.next u) s.next;
      users = if is_none (s.prev u) then s.next u else s.users;
    }
unfolding unlink_next
unlink_next-lem u s = elim (Option-cases (s.prev u)) [
  | inl n ↦ rw (n, unlink_next) refl
  | inr (q, n) ↦ rw (n, unlink_next) refl
]

-- What is known of the links of a user of the list.
linked :
    (s : UserList) (u : ℕ) (xs : List ℕ)
    → Holds s xs
    → mem u xs ≡ true
    → ((if is_none (s.prev u) then s.next u else s.users)
        ≡ (if is s.users u then s.next u else s.users))
      × (relinked (s.prev u) (s.next u) s.next u ≡ s.next u)
linked s u xs h m = elim (Bool-cases (is s.users u)) [
  | inl i ↦
      let a = head-prev s.prev s.next none s.users xs u h.links (is-some s.users u i) in
      rw (i, a) (refl, refl)
  | inr i ↦
      let (q, a, b, c) = prev-in s.prev s.next none s.users xs u h.links h.distinct m i in
      rw (i, a) (refl, ground arith)
]

unlinked :
    (s : UserList) (u : ℕ) (xs : List ℕ)
    → Holds s xs
    → mem u xs ≡ true
    → unlink_prev u (unlink_next u s) ≡ record s {
      prev = prev_without s.prev s.next u;
      next = next_without s.prev s.next u;
      users = if is s.users u then s.next u else s.users;
    }
unlinked s u xs h m =
    let (a, b) = linked s u xs h m in
    ap (unlink_prev u) (unlink_next-lem u s)
    ∙ unlink_prev-lem u (record s {
      next = relinked (s.prev u) (s.next u) s.next;
      users = if is_none (s.prev u) then s.next u else s.users;
    })
    ∙ ap₂
        (λ (o l : Option ℕ). record s {
          prev = relinked o (s.prev u) s.prev;
          next = relinked (s.prev u) (s.next u) s.next;
          users = l;
        })
        b a

pub remove_user-Holds :
    (u : ℕ) (s : UserList) (xs : List ℕ)
    → mem u xs ≡ true
    → length xs < 2 ^ 64
    → Holds s xs
    → Holds (remove_user u s) (erase u xs)
unfolding remove_user
remove_user-Holds u s xs m l h =
    subst
      (λ (t : UserList).
        Holds (record t { connected_users = (t.connected_users + 2 ^ 64 - 1) % 2 ^ 64 })
          (erase u xs))
      (sym (unlinked s u xs h m))
      (record {
        links =
            Chain-erase s.prev s.next none s.users xs u h.links h.distinct m
              (λ q (n : none ≡ some q). absurd (none_some n));
        distinct = Distinct-erase u xs h.distinct;
        counted = omega (arith, h.counted, length-erase u xs m);
      })
  where
    none_some : {q : ℕ} → none ≡ some q → ⊥
    none_some k = cc

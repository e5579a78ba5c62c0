-- ===== src/Addresses/Counts.antt =====
-- How the operations of src/CollabVM.cpp on the data of an address change the count of connections.
use collab_vm_server.Prelude.{
  ℕ, suc, ◌+◌, ◌-◌, ◌%◌, ◌<◌, ◌≡◌, refl, sym, ◌∙◌, inl, inr, Bool, true, false, Option, none, some,
  List, [], ◌∷◌, arith, ◌==◌, if◌then◌else◌, mem, erase, Bool-cases,
}
use collab_vm_server.Addresses.{
  Config, IpData, and_then, clean_chat, clean_name, clean_turn, clean_logins, should_clean_up, kept,
  release, is_none, sweep, is_idle, any_idle,
}

abbrev pub occurrences : ℕ → List ℕ → ℕ
occurrences k [] = 0
occurrences k (j ∷ js) = if j == k then suc (occurrences k js) else occurrences k js

-- The count of connections, 0 where there is no data.
abbrev pub count : Option IpData → ℕ
count none = 0
count (some d) = d.connections

-- The first connection is accepted even where the setting is 0.
abbrev pub cap : Config → ℕ
cap g = if g.max_connections == 0 then 1 else g.max_connections

pub occurrences-erase :
    (j k : ℕ) (js : List ℕ)
    → occurrences k (erase j js) ≡ (if j == k then occurrences k js - 1 else occurrences k js)
unfolding erase
occurrences-erase j k [] = ground arith
occurrences-erase j k (i ∷ js) = ground (arith, occurrences-erase j k js)

-- A step of the clean-up leaves the count.
abbrev pub Keeps : (IpData → IpData × Bool) → Type 0
Keeps f = (d : IpData) → (f d).0.connections ≡ d.connections

pub and_then-Keeps :
    (p : IpData × Bool) (f : IpData → IpData × Bool) (d : IpData)
    → p.0.connections ≡ d.connections
    → Keeps f
    → (and_then p f).0.connections ≡ d.connections
and_then-Keeps (e, true) f d h k = k e ∙ h
and_then-Keeps (e, false) f d h k = h

pub clean_chat-Keeps : (g : Config) (now : ℕ) → Keeps (clean_chat g now)
unfolding clean_chat
clean_chat-Keeps g now d = ground arith

pub clean_name-Keeps : (g : Config) (now : ℕ) → Keeps (clean_name g now)
unfolding clean_name
clean_name-Keeps g now d = ground arith

pub clean_turn-Keeps : (g : Config) (now : ℕ) → Keeps (clean_turn g now)
unfolding clean_turn
clean_turn-Keeps g now d = ground arith

pub clean_logins-Keeps : (g : Config) (now : ℕ) → Keeps (clean_logins g now)
unfolding clean_logins
clean_logins-Keeps g now d = ground arith

pub should_clean_up-Keeps : (g : Config) (now : ℕ) → Keeps (should_clean_up g now)
unfolding should_clean_up
should_clean_up-Keeps g now d =
    let a = clean_chat g now d in
    let b = and_then a (clean_name g now) in
    let c = and_then b (clean_turn g now) in
    let p =
      and_then-Keeps a (clean_name g now) d (clean_chat-Keeps g now d) (clean_name-Keeps g now) in
    let q = and_then-Keeps b (clean_turn g now) d p (clean_turn-Keeps g now) in
    and_then-Keeps c (clean_logins g now) d q (clean_logins-Keeps g now)

pub count-kept : (p : IpData × Bool) → p.0.connections ≡ 0 → count (kept p) ≡ 0
count-kept (d, true) h = refl
count-kept (d, false) h = h

pub count-release :
    (g : Config) (now : ℕ) (d : IpData) → count (release g now d) ≡ (d.connections + 255) % 256
unfolding release
count-release g now d =
    let d' = record d { connections = (d.connections + 255) % 256 } in
    elim (Bool-cases ((d.connections + 255) % 256 == 0)) [
      | inl e ↦
          let z : (d.connections + 255) % 256 ≡ 0 = ground arith in
          rw e (count-kept (should_clean_up g now d') (should_clean_up-Keeps g now d' ∙ z) ∙ sym z)
      | inr e ↦ rw e refl
    ]

pub count-sweep : (g : Config) (now : ℕ) (o : Option IpData) → count (sweep g now o) ≡ count o
unfolding sweep
count-sweep g now none = refl
count-sweep g now (some d) = elim (Bool-cases (d.connections == 0)) [
  | inl e ↦
      let z : d.connections ≡ 0 = ground arith in
      rw e (count-kept (should_clean_up g now d) (should_clean_up-Keeps g now d ∙ z) ∙ sym z)
  | inr e ↦ rw e refl
]

pub none-sweep : (g : Config) (now : ℕ) (o : Option IpData) → o ≡ none → sweep g now o ≡ none
unfolding sweep
none-sweep g now o h = rw h refl

pub any_idle-known :
    (entries : ℕ → Option IpData) (k : ℕ) (ks : List ℕ)
    → any_idle entries ks ≡ false
    → mem k ks ≡ true
    → is_idle (entries k) ≡ false
unfolding any_idle mem
any_idle-known entries k [] h m = cc
any_idle-known entries k (j ∷ ks) h m = elim (Bool-cases (j == k)) [
  | inl e ↦ let i : j ≡ k = ground arith in rw (← i) (ground arith)
  | inr e ↦ any_idle-known entries k ks (ground arith) (ground arith)
]

pub occurrences-mem : (k : ℕ) (js : List ℕ) → mem k js ≡ true → 0 < occurrences k js
unfolding mem
occurrences-mem k [] h = cc
occurrences-mem k (j ∷ js) h = ground (arith, occurrences-mem k js)

pub is_none-idle : (o : Option IpData) → is_none o ≡ true → is_idle o ≡ false
is_none-idle none h = refl
is_none-idle (some d) h = cc

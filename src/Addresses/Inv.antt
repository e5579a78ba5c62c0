-- ===== src/Addresses/Inv.antt =====
-- No data of an address in src/CollabVM.cpp is deleted while a connection refers to it, or forgotten.
use collab_vm_server.Prelude.{
  ℕ, ◌+◌, ◌%◌, ◌≤◌, ◌<◌, ◌≡◌, refl, sym, ap, ◌∙◌, ◌⊎◌, inl, inr, true, false, not, ◌||◌, Option,
  none, some, ◌∷◌, arith, leb, ◌==◌, update, mem, erase, Bool-cases, Option-cases,
}
use collab_vm_server.Addresses.{
  Address, key, Config, IpData, Addresses, new_ip_data, on_validate, release, is_none,
  remove_connection, sweep, is_idle, ip_data_timer_callback,
}
use collab_vm_server.Addresses.Counts.{
  occurrences, count, cap, occurrences-erase, count-release, count-sweep, none-sweep,
  any_idle-known, occurrences-mem, is_none-idle,
}

pub record Inv (g : Config) (s : Addresses) : Type 0 where
  -- The counts are right.
  pub counted : (k : ℕ) → count (s.ip_data k) ≡ occurrences k s.references
  pub bounded : (k : ℕ) → count (s.ip_data k) ≤ cap g
  -- The walks over the maps meet all the data.
  pub known : (k : ℕ) → (s.ip_data k ≡ none) ⊎ (mem k s.keys ≡ true)
  -- While data is without connections, the timer is there to delete it.
  pub watched : s.timer_running ≡ false → (k : ℕ) → is_idle (s.ip_data k) ≡ false

pub timer_callback-Inv :
    (g : Config) (now : ℕ) (s : Addresses) → Inv g s → Inv g (ip_data_timer_callback g now s)
unfolding ip_data_timer_callback
timer_callback-Inv g now s h = record {
  counted = λ k. count-sweep g now (s.ip_data k) ∙ h.counted k;
  bounded = λ k. let b = h.bounded k in rw (count-sweep g now (s.ip_data k)) b;
  known = λ k. elim (h.known k) [ inl n ↦ inl (none-sweep g now (s.ip_data k) n) | inr m ↦ inr m ];
  watched = λ t k. elim (h.known k) [
    | inl n ↦ rw (none-sweep g now (s.ip_data k) n) refl
    | inr m ↦ any_idle-known (λ j. sweep g now (s.ip_data j)) k s.keys t m
  ];
}

pub known-update :
    (s : Addresses) (k : ℕ) (d : IpData) (o : Option IpData)
    → s.ip_data k ≡ some d
    → ((j : ℕ) → (s.ip_data j ≡ none) ⊎ (mem j s.keys ≡ true))
    → (j : ℕ) → (update s.ip_data k o j ≡ none) ⊎ (mem j s.keys ≡ true)
known-update s k d o n h j = elim (Bool-cases (j == k)) [
  | inr e ↦ elim (h j) [ inl q ↦ inl (rw e q) | inr q ↦ inr q ]
  | inl e ↦
      let i : j ≡ k = ground arith in
      elim (h j) [ inl q ↦ absurd (some_none (sym n ∙ ap s.ip_data (sym i) ∙ q)) | inr q ↦ inr q ]
]
  where
    some_none : some d ≡ none → ⊥
    some_none p = cc

opened-Inv :
    (g : Config) (k : ℕ) (s : Addresses)
    → s.ip_data k ≡ none
    → Inv g s
    → Inv g (record s {
      ip_data = update s.ip_data k (some new_ip_data);
      keys = k ∷ s.keys;
      references = k ∷ s.references;
    })
unfolding mem
opened-Inv g k s n h = record {
  counted = λ j. ground (arith, h.counted j, ap count n);
  bounded = λ j. ground (arith, h.bounded j);
  known = λ j. elim (Bool-cases (k == j)) [
    | inl e ↦ inr (ground arith)
    | inr e ↦ elim (h.known j) [ inl q ↦ inl (ground arith) | inr q ↦ inr (ground arith) ]
  ];
  watched = λ t j. ground (arith, h.watched t j);
}

joined-Inv :
    (g : Config) (k : ℕ) (d : IpData) (s : Addresses)
    → g.max_connections < 256
    → s.ip_data k ≡ some d
    → leb g.max_connections d.connections ≡ false
    → Inv g s
    → Inv g (record s {
      ip_data = update s.ip_data k (some (record d { connections = (d.connections + 1) % 256 }));
      references = k ∷ s.references;
    })
joined-Inv g k d s m n l h = record {
  counted = λ j. ground (arith, h.counted j, ap count n);
  bounded = λ j. ground (arith, h.bounded j);
  known =
      known-update s k d (some (record d { connections = (d.connections + 1) % 256 })) n h.known;
  watched = λ t j. ground (arith, h.watched t j);
}

left-Inv :
    (g : Config) (now k : ℕ) (d : IpData) (s : Addresses)
    → g.max_connections < 256
    → s.ip_data k ≡ some d
    → mem k s.references ≡ true
    → Inv g s
    → Inv g (record s {
      ip_data = update s.ip_data k (release g now d);
      references = erase k s.references;
      timer_running = s.timer_running || not (is_none (release g now d));
    })
left-Inv g now k d s m n o h = record {
  counted = λ j. ground (
    arith,
    h.counted j,
    h.bounded k,
    ap count n,
    count-release g now d,
    occurrences-erase k j s.references,
    occurrences-mem k s.references o,
  );
  bounded = λ j. ground (
    arith,
    h.bounded j,
    h.counted k,
    ap count n,
    count-release g now d,
    occurrences-mem k s.references o,
  );
  known = known-update s k d (release g now d) n h.known;
  watched = λ t j. ground (arith, h.watched (ground arith) j, is_none-idle (release g now d));
}

pub on_validate-Inv :
    (g : Config) (a : Address) (s : Addresses)
    → g.max_connections < 256
    → Inv g s
    → Inv g (on_validate g a s).0
unfolding on_validate
on_validate-Inv g a s m h = elim (Option-cases (s.ip_data (key a))) [
  | inl n ↦ rw (n, on_validate) (opened-Inv g (key a) s n h)
  | inr (d, n) ↦ elim (Bool-cases (leb g.max_connections d.connections)) [
    | inl l ↦ rw (n, l, on_validate) h
    | inr l ↦ rw (n, l, on_validate) (joined-Inv g (key a) d s m n l h)
  ]
]

pub remove_connection-Inv :
    (g : Config) (now k : ℕ) (s : Addresses)
    → g.max_connections < 256
    → mem k s.references ≡ true
    → Inv g s
    → Inv g (remove_connection g now k s)
unfolding remove_connection
remove_connection-Inv g now k s m o h = elim (Option-cases (s.ip_data k)) [
  | inl n ↦ rw (n, remove_connection) h
  | inr (d, n) ↦ rw (n, remove_connection) (left-Inv g now k d s m n o h)
]

-- ===== src/Addresses/Reach.antt =====
-- The addresses of src/CollabVM.cpp over any course of connections.
use collab_vm_server.Prelude.{
  ℕ, ◌≤◌, ◌<◌, ◌≡◌, sym, ap, ◌∙◌, ◌⊎◌, inl, inr, true, false, none, some, [], arith, update, mem,
  subst, Option-cases,
}
use collab_vm_server.Addresses.{
  Address, Config, IpData, Addresses, on_validate, remove_connection, is_idle,
  ip_data_timer_callback,
}
use collab_vm_server.Addresses.Inv.{
  Inv, timer_callback-Inv, on_validate-Inv, remove_connection-Inv, known-update,
}
use collab_vm_server.Addresses.Counts.{occurrences, count, cap, occurrences-mem}

-- A connection comes or ends, the timer expires, or another part of the server writes the data of
-- an address, all but its count.
pub data Step (g : Config) (s : Addresses) : Addresses → Type 0 where
  validates : {t : Addresses} (a : Address) → t ≡ (on_validate g a s).0 → Step g s t
  disconnects :
      {t : Addresses} (now k : ℕ)
      → mem k s.references ≡ true
      → t ≡ remove_connection g now k s
      → Step g s t
  expires : {t : Addresses} (now : ℕ) → t ≡ ip_data_timer_callback g now s → Step g s t
  writes :
      {t : Addresses} (k : ℕ) (d d' : IpData)
      → s.ip_data k ≡ some d
      → d'.connections ≡ d.connections
      → t ≡ record s { ip_data = update s.ip_data k (some d') }
      → Step g s t

pub data Reach (g : Config) (s : Addresses) : Addresses → Type 0 where
  here : Reach g s s
  next : {t u : Addresses} → Reach g s t → Step g t u → Reach g s u

written-Inv :
    (g : Config) (k : ℕ) (d d' : IpData) (s : Addresses)
    → s.ip_data k ≡ some d
    → d'.connections ≡ d.connections
    → Inv g s
    → Inv g (record s { ip_data = update s.ip_data k (some d') })
written-Inv g k d d' s n c h = record {
  counted = λ j. ground (arith, h.counted j, ap count n);
  bounded = λ j. ground (arith, h.bounded j, ap count n);
  known = known-update s k d (some d') n h.known;
  watched = λ t j. ground (arith, h.watched t j, ap is_idle n);
}

Step-Inv : {g : Config} {s t : Addresses} → g.max_connections < 256 → Step g s t → Inv g s → Inv g t
Step-Inv {g} {s} m (validates a e) h = subst (Inv g) (sym e) (on_validate-Inv g a s m h)
Step-Inv {g} {s} m (disconnects now k o e) h =
    subst (Inv g) (sym e) (remove_connection-Inv g now k s m o h)
Step-Inv {g} {s} m (expires now e) h = subst (Inv g) (sym e) (timer_callback-Inv g now s h)
Step-Inv {g} {s} m (writes k d d' n c e) h = subst (Inv g) (sym e) (written-Inv g k d d' s n c h)

Reach-Inv :
    {g : Config} {s t : Addresses} → g.max_connections < 256 → Reach g s t → Inv g s → Inv g t
Reach-Inv m here h = h
Reach-Inv m (next r x) h = Step-Inv m x (Reach-Inv m r h)

-- The server at its start.
abbrev pub IsFresh : Addresses → Type 0
IsFresh s = ((k : ℕ) → s.ip_data k ≡ none) × (s.references ≡ [])

IsFresh-Inv : (g : Config) (s : Addresses) → IsFresh s → Inv g s
IsFresh-Inv g s (n, r) = record {
  counted = λ k. ap count (n k) ∙ sym (ap (occurrences k) r);
  bounded = λ k. ground (arith, ap count (n k));
  known = λ k. inl (n k);
  watched = λ t k. ap is_idle (n k);
}

-- Where the setting fits in a byte, after any course of connections from a start without any:
-- the data of an address counts the connections that refer to it, at most the setting's number of
-- them, or one where that is 0; a connection never refers to data that was deleted; and unless
-- the timer runs, there is data only of addresses with a connection.
pub Reach-referred :
    {g : Config} {s t : Addresses}
    → g.max_connections < 256
    → IsFresh s
    → Reach g s t
    → ((k : ℕ)
        → (count (t.ip_data k) ≡ occurrences k t.references) × (occurrences k t.references ≤ cap g))
      × ((k : ℕ) → mem k t.references ≡ true → (d : IpData) × (t.ip_data k ≡ some d))
      × (t.timer_running ≡ false
          → (k : ℕ) → (t.ip_data k ≡ none) ⊎ (0 < occurrences k t.references))
Reach-referred {g} {s} {t} m f r =
    let h = Reach-Inv m r (IsFresh-Inv g s f) in
    (
      λ k. (h.counted k, ground (arith, h.counted k, h.bounded k)),
      λ k o. elim (Option-cases (t.ip_data k)) [
        | inl n ↦
            absurd (omega (arith, occurrences-mem k t.references o, sym (h.counted k) ∙ ap count n))
        | inr q ↦ q
      ],
      λ w k. elim (Option-cases (t.ip_data k)) [
        | inl n ↦ inl n
        | inr (d, n) ↦ inr (ground (arith, h.counted k, ap count n, h.watched w k, ap is_idle n))
      ],
    )

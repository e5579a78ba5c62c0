-- ===== src/Uploads/Single.antt =====
-- The uploads of src/CollabVM.cpp: one for each address, and who waits in the queue.
use collab_vm_server.Prelude.{
  ℕ, ◌≡◌, Bool, true, false, not, ◌&&◌, ◌||◌, List, [], ◌∷◌, ◌++◌, arith, ◌==◌, mem, erase,
  Distinct, mem-append, mem-erase, Distinct-erase, Distinct-concat,
}

pub or-left : (x y : Bool) → (x || y) ≡ false → x ≡ false
or-left x y h = ground arith

pub or-right : (x y : Bool) → (x || y) ≡ false → y ≡ false
or-right x y h = ground arith

module _ (address : ℕ → ℕ) where
  -- A user with an upload has an address that is marked, no two such users have the same one, and
  -- the queue holds those that wait, who have an upload, once each.
  pub record IsSingle (has busy waiting : ℕ → Bool) (queue : List ℕ) : Type 0 where
    pub marked : (u : ℕ) → has u ≡ true → busy (address u) ≡ true
    pub alone : (u v : ℕ) → has u ≡ true → has v ≡ true → address u ≡ address v → u ≡ v
    pub pending : (u : ℕ) → waiting u ≡ true → has u ≡ true
    pub queued : (u : ℕ) → mem u queue ≡ waiting u
    pub once : Distinct queue

module _ (address : ℕ → ℕ) {has busy waiting : ℕ → Bool} {queue : List ℕ}
    (s : IsSingle address has busy waiting queue) (u : ℕ) (has' busy' : ℕ → Bool) where
  module _ (h : (v : ℕ) → has' v ≡ (v == u || has v))
      (b : (a : ℕ) → busy' a ≡ (a == address u || busy a)) (free : has u ≡ false)
      (idle : busy (address u) ≡ false) where
    admitted_marked : (v : ℕ) → has' v ≡ true → busy' (address v) ≡ true
    admitted_marked v k = ground (arith, h v, b (address v), s.marked v)

    admitted_alone : (v w : ℕ) → has' v ≡ true → has' w ≡ true → address v ≡ address w → v ≡ w
    admitted_alone v w k l e = ground (arith, h v, h w, s.marked v, s.marked w, s.alone v w)

    pub started-IsSingle : IsSingle address has' busy' waiting queue
    started-IsSingle = record {
      marked = admitted_marked;
      alone = admitted_alone;
      pending = λ v k. ground (arith, h v, s.pending v k);
      queued = s.queued;
      once = s.once;
    }

    pub waits-IsSingle :
        (waiting' : ℕ → Bool)
        → ((v : ℕ) → waiting' v ≡ (v == u || waiting v))
        → IsSingle address has' busy' waiting' (queue ++ u ∷ [])
    unfolding mem
    waits-IsSingle waiting' w = record {
      marked = admitted_marked;
      alone = admitted_alone;
      pending = λ v k. ground (arith, h v, w v, s.pending v);
      queued = λ v. ground (arith, w v, mem-append v queue (u ∷ []), s.queued v);
      once = Distinct-concat u queue s.once (ground (arith, s.queued u, s.pending u));
    }

  module _ (h : (v : ℕ) → has' v ≡ (not (v == u) && has v))
      (b : (a : ℕ) → busy' a ≡ (not (a == address u) && busy a)) (held : has u ≡ true) where
    dropped_marked : (v : ℕ) → has' v ≡ true → busy' (address v) ≡ true
    dropped_marked v k = ground (arith, h v, b (address v), s.marked v, s.alone v u)

    dropped_alone : (v w : ℕ) → has' v ≡ true → has' w ≡ true → address v ≡ address w → v ≡ w
    dropped_alone v w k l e = ground (arith, h v, h w, s.alone v w)

    pub left-IsSingle :
        (waiting' : ℕ → Bool)
        → ((v : ℕ) → waiting' v ≡ (not (v == u) && waiting v))
        → IsSingle address has' busy' waiting' (erase u queue)
    left-IsSingle waiting' w = record {
      marked = dropped_marked;
      alone = dropped_alone;
      pending = λ v k. ground (arith, h v, w v, s.pending v);
      queued = λ v. ground (arith, w v, mem-erase u v queue s.once, s.queued v);
      once = Distinct-erase u queue s.once;
    }

    pub ended-IsSingle : waiting u ≡ false → IsSingle address has' busy' waiting queue
    ended-IsSingle n = record {
      marked = dropped_marked;
      alone = dropped_alone;
      pending = λ v k. ground (arith, h v, s.pending v k);
      queued = s.queued;
      once = s.once;
    }

-- The first of the queue no longer waits.
pub popped-IsSingle :
    (address : ℕ → ℕ) {has busy waiting : ℕ → Bool} (waiting' : ℕ → Bool) (x : ℕ) (q : List ℕ)
    → IsSingle address has busy waiting (x ∷ q)
    → ((v : ℕ) → waiting' v ≡ (not (v == x) && waiting v))
    → IsSingle address has busy waiting' q
unfolding mem
popped-IsSingle address waiting' x q s w = record {
  marked = s.marked;
  alone = s.alone;
  pending = λ v k. ground (arith, w v, s.pending v);
  queued = λ v. ground (arith, w v, s.queued v, s.once.0);
  once = s.once.1;
}

-- ===== src/Chat/Ring/Latest.antt =====
-- The history holds the latest messages, oldest first.
use native.Mathlib.Decide.{dec_lt}
use collab_vm_server.Prelude.{
  ℕ, zero, suc, ◌-◌, ◌≤◌, ◌<◌, ◌≡◌, refl, sym, ap, ◌∙◌, ◌⊎◌, inl, inr, true, false, List, [], ◌∷◌,
  ◌++◌, append_assoc, append-nil, arith, ltb, ◌==◌, if◌then◌else◌, length, length-append,
  length-set, length-replicate, length-take, length-drop, ap₂, take, drop, set, Bool-cases, ==_iff,
  lt→ltb,
}
use collab_vm_server.Chat.Ring.{Ring, init, append, messages}
use collab_vm_server.Chat.Ring.Slices.{
  range-take, take-set, drop-set, take_none, take_rest, drop_all, take-length-set,
}

module _ {A : Type 0} where
  -- What is kept of a history when a message comes in.
  abbrev pub rest : List A → List A
  rest [] = []
  rest (x ∷ xs) = xs

  abbrev pub keep : ℕ → List A → A → List A
  keep n l m = if ltb (length l) n then l ++ m ∷ [] else rest (l ++ m ∷ [])

  -- Not full, from index 0; or full, with the oldest message where the next is written.
  abbrev pub Holds : ℕ → Ring A → Type 0
  Holds n r =
      (length r.buf ≡ n)
      × (0 < n)
      × (n < 256)
      × (((r.begin ≡ 0) × (r.end ≡ r.count) × (r.count < n))
          ⊎ ((r.begin ≡ r.end) × (r.end < n) × (r.count ≡ n)))

  init-Holds : (n : ℕ) (a : A) → 0 < n → n < 256 → Holds n (init n a)
  unfolding init
  init-Holds n a h k = (length-replicate n a, h, k, inl (refl, refl, h))

  append-Holds : (n : ℕ) (m : A) (r : Ring A) → Holds n r → Holds n (append n m r)
  unfolding append
  append-Holds n m r v = ground (arith, length-set r.buf r.end m)

  messages-filling :
      (n : ℕ) (r : Ring A)
      → Holds n r
      → r.begin ≡ 0
      → r.end ≡ r.count
      → r.count < n
      → messages n r ≡ take r.count r.buf
  unfolding messages
  messages-filling n r v b e c = elim (Bool-cases (r.count == 0)) [
    | inl z ↦ rw z (sym (take_none r.count r.buf ((==_iff r.count 0).0 z)))
    | inr z ↦
        let lt : ltb r.begin r.end ≡ true = ground arith in
        let d : r.end - r.begin ≡ r.count = omega arith in
        rw (z, lt, d, b) (range-take r.count 0 r.buf (omega arith))
  ]

  messages-full :
      (n : ℕ) (r : Ring A)
      → Holds n r
      → r.begin ≡ r.end
      → r.end < n
      → r.count ≡ n
      → messages n r ≡ drop r.end r.buf ++ take r.end r.buf
  unfolding messages
  messages-full n r v b e c = ground (
    arith,
    range-take (n - r.begin) r.begin r.buf,
    range-take r.end 0 r.buf,
    take_rest r.end r.buf,
  )

  rest-drop-append :
      (i : ℕ) (xs ys : List A) → i < length xs → rest (drop i xs ++ ys) ≡ drop (suc i) xs ++ ys
  rest-drop-append i [] ys h = absurd (omega arith)
  rest-drop-append zero (x ∷ xs) ys h = refl
  rest-drop-append (suc i) (x ∷ xs) ys h = rest-drop-append i xs ys (omega arith)

  -- A message joins a history that is not full.
  append-filling :
      (n : ℕ) (m : A) (r : Ring A)
      → Holds n r
      → r.begin ≡ 0
      → r.end ≡ r.count
      → r.count < n
      → messages n (append n m r) ≡ messages n r ++ m ∷ []
  unfolding append
  append-filling n m r v b e c =
      let r' = append n m r in
      let w : Holds n r' = append-Holds n m r v in
      let buf : r'.buf ≡ set r.buf r.count m = ground arith in
      let begin : r'.begin ≡ 0 = ground arith in
      let count : r'.count ≡ suc r.count = ground arith in
      let old = messages-filling n r v b e c in
      elim (dec_lt (suc r.count) n) [
        | yes h ↦
            let end : r'.end ≡ r'.count = ground arith in
            messages-filling n r' w begin end (omega arith)
            ∙ ap₂ take count buf
            ∙ take-set r.count m r.buf (omega arith)
            ∙ ap (λ l. l ++ m ∷ []) (sym old)
        | no h ↦
            let end : r'.end ≡ 0 = ground arith in
            messages-full n r' w (begin ∙ sym end) (omega arith) (omega arith)
            ∙ ap₂ (λ i l. drop i l ++ take i l) end buf
            ∙ append-nil (set r.buf r.count m)
            ∙ take-length-set r.count m r.buf (omega arith)
            ∙ ap (λ l. l ++ m ∷ []) (sym old)
      ]

  -- A message takes the place of the oldest in a full history.
  append-full :
      (n : ℕ) (m : A) (r : Ring A)
      → Holds n r
      → r.begin ≡ r.end
      → r.end < n
      → r.count ≡ n
      → messages n (append n m r) ≡ rest (messages n r ++ m ∷ [])
  unfolding append
  append-full n m r v b e c =
      let r' = append n m r in
      let w : Holds n r' = append-Holds n m r v in
      let buf : r'.buf ≡ set r.buf r.end m = ground arith in
      let begin : r'.begin ≡ r'.end = ground arith in
      let count : r'.count ≡ n = ground arith in
      let old = messages-full n r v b e c in
      let shifted =
        ap rest
          (ap (λ l. l ++ m ∷ []) old ∙ append_assoc (drop r.end r.buf) (take r.end r.buf) (m ∷ []))
        ∙ rest-drop-append r.end r.buf (take r.end r.buf ++ m ∷ []) (omega arith) in
      elim (dec_lt (suc r.end) n) [
        | yes h ↦
            let end : r'.end ≡ suc r.end = ground arith in
            messages-full n r' w begin (omega arith) count
            ∙ ap₂ (λ i l. drop i l ++ take i l) end buf
            ∙ ap₂ ◌++◌ (drop-set r.end m r.buf) (take-set r.end m r.buf (omega arith))
            ∙ sym shifted
        | no h ↦
            let end : r'.end ≡ 0 = ground arith in
            messages-full n r' w begin (omega arith) count
            ∙ ap₂ (λ i l. drop i l ++ take i l) end buf
            ∙ append-nil (set r.buf r.end m)
            ∙ take-length-set r.end m r.buf (omega arith)
            ∙ ap (λ l. l ++ (take r.end r.buf ++ m ∷ []))
                (sym (drop_all (suc r.end) r.buf (omega arith)))
            ∙ sym shifted
      ]

  length-messages : (n : ℕ) (r : Ring A) → Holds n r → length (messages n r) ≡ r.count
  length-messages n r v = elim v.3 [
    | inl (b, e, c) ↦
        ap length (messages-filling n r v b e c) ∙ omega (arith, length-take r.count r.buf)
    | inr (b, e, c) ↦
        ap length (messages-full n r v b e c)
        ∙ omega (
          arith,
          length-append (drop r.end r.buf) (take r.end r.buf),
          length-take r.end r.buf,
          length-drop r.end r.buf,
        )
  ]

  messages-append :
      (n : ℕ) (m : A) (r : Ring A) → Holds n r → messages n (append n m r) ≡ keep n (messages n r) m
  messages-append n m r v = elim v.3 [
    | inl (b, e, c) ↦
        let h : ltb (length (messages n r)) n ≡ true = ground (arith, length-messages n r v) in
        rw h (append-filling n m r v b e c)
    | inr (b, e, c) ↦
        let h : ltb (length (messages n r)) n ≡ false = ground (arith, length-messages n r v) in
        rw h (append-full n m r v b e c)
  ]

  -- The buffer after some messages, from the one that the server starts with.
  abbrev pub receive : ℕ → List A → Ring A → Ring A
  receive n [] r = r
  receive n (m ∷ ms) r = receive n ms (append n m r)

  -- The last `n` messages of a list.
  abbrev pub latest : ℕ → List A → List A
  latest n ms = drop (length ms - n) ms

  drop-append : (k : ℕ) (xs ys : List A) → k ≤ length xs → drop k (xs ++ ys) ≡ drop k xs ++ ys
  drop-append zero xs ys h = refl
  drop-append (suc k) [] ys h = absurd (omega arith)
  drop-append (suc k) (x ∷ xs) ys h = drop-append k xs ys (omega arith)

  keep-latest :
      (n : ℕ) (l : List A) (m : A) → 0 < n → keep n (latest n l) m ≡ latest n (l ++ m ∷ [])
  keep-latest n l m h = elim (dec_lt (length l) n) [
    | yes p ↦
        let k : length l - n ≡ 0 = omega arith in
        let k' : length (l ++ m ∷ []) - n ≡ 0 = omega (arith, length-append l (m ∷ [])) in
        rw (k, k', lt→ltb (length l) n p) refl
    | no p ↦
        let k' : length (l ++ m ∷ []) - n ≡ suc (length l - n) =
          omega (arith, length-append l (m ∷ [])) in
        let t : ltb (length (latest n l)) n ≡ false =
          ground (arith, length-drop (length l - n) l) in
        rw (k', t)
          (rest-drop-append (length l - n) l (m ∷ []) (omega arith)
            ∙ sym (drop-append (suc (length l - n)) l (m ∷ []) (omega arith)))
  ]

  receive-latest :
      (n : ℕ) (ms l : List A) (r : Ring A)
      → Holds n r
      → messages n r ≡ latest n l
      → messages n (receive n ms r) ≡ latest n (l ++ ms)
  receive-latest n [] l r v e = e ∙ ap (latest n) (sym (append-nil l))
  receive-latest n (m ∷ ms) l r v e =
      receive-latest n ms (l ++ m ∷ []) (append n m r) (append-Holds n m r v)
        (messages-append n m r v ∙ ap (λ k. keep n k m) e ∙ keep-latest n l m v.1)
      ∙ ap (latest n) (append_assoc l (m ∷ []) ms)

  -- Whatever messages come in, the history of size `n`, from 1 to 255, then lists the last `n` of
  -- them in order, or all if they are fewer.
  pub messages-receive :
      (n : ℕ) (a : A) (ms : List A)
      → 0 < n
      → n < 256
      → messages n (receive n ms (init n a)) ≡ latest n ms
  unfolding init messages
  messages-receive n a ms h k =
      receive-latest n ms [] (init n a) (init-Holds n a h k)
        (sym (drop_all (0 - n) [] (omega arith)))

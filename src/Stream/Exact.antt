-- ===== src/Stream/Exact.antt =====
-- `_Reader.exactly` returns the next bytes of the stream however they arrive, and raises what ends
-- the stream if there are too few.
use dinix.Shared.{
  ◌⊎◌, inl, inr, ℕ, zero, suc, ◌+◌, ◌-◌, ◌≤◌, ◌<◌, ◌≡◌, refl, ap, ◌∙◌, [], ◌∷◌, ◌++◌, append-nil,
  append_assoc, arith, length, take, drop, length-take, length-drop, take_two, drop_two,
}
use dinix.Exceptions.{Exception, ok, err}
use dinix.Struct.{Bytes}
use dinix.Stream.{chunk, failed, SocketStream, IsStream, Delivery, exactly_loop, exactly}

module _ (S : SocketStream) (L : IsStream S) where
  -- What a round of the loop reads, and what it leaves.
  abbrev Reads : ℕ → ℕ → Bytes → S.State → Type 0
  Reads fuel n parts s =
      (s' : S.State) × (exactly_loop S fuel n parts s ≡ (ok (parts ++ take n (L.incoming s)), s'))
      × (L.incoming s' ≡ drop n (L.incoming s))

  exactly_loop-chunk :
      (fuel n : ℕ) (parts b : Bytes) (s s' : S.State)
      → S.receive (suc n) s ≡ chunk b s'
      → exactly_loop S (suc fuel) (suc n) parts s
        ≡ exactly_loop S fuel (suc n - length b) (parts ++ b) s'
  exactly_loop-chunk fuel n parts b s s' e = unfold exactly_loop in rw (e, exactly_loop)

  exactly_loop-failed :
      (fuel n : ℕ) (parts : Bytes) (s s' : S.State) (e : Exception)
      → S.receive (suc n) s ≡ failed e s'
      → exactly_loop S (suc fuel) (suc n) parts s ≡ (err e, s')
  exactly_loop-failed fuel n parts s s' e r = unfold exactly_loop in rw (r, exactly_loop)

  size_of_chunk :
      (n : ℕ) (s : S.State) (D : Delivery S L.incoming n s)
      → length (take D.count (L.incoming s)) ≡ D.count
  size_of_chunk n s D = omega (arith, length-take D.count (L.incoming s), D.available)

  Reads-chunk :
      (fuel n : ℕ) (parts : Bytes) (s : S.State) (D : Delivery S L.incoming (suc n) s)
      → Reads fuel (suc n - D.count) (parts ++ take D.count (L.incoming s)) D.after
      → Reads (suc fuel) (suc n) parts s
  Reads-chunk fuel n parts s D (s', e, left) =
      let k = D.count in
      let inc = L.incoming s in
      let whole : k + (suc n - k) ≡ suc n = omega (arith, D.at_most) in
      (
        s',
        exactly_loop-chunk fuel n parts (take k inc) s D.after D.received
            ∙ rw (size_of_chunk (suc n) s D) (
                e
                ∙ ap (λ (t : Bytes). (ok t, s'))
                    (append_assoc parts (take k inc) _
                      ∙ ap (λ (t : Bytes). parts ++ t)
                          (rw D.remaining (take_two k (suc n - k) (suc n) inc whole)))),
        left ∙ rw D.remaining (drop_two k (suc n - k) (suc n) inc whole),
      )

  exactly_loop-Reads :
      (fuel n : ℕ) (parts : Bytes) (s : S.State)
      → n ≤ fuel
      → n ≤ length (L.incoming s)
      → Reads fuel n parts s
  exactly_loop-Reads zero zero parts s hf h = (s, unfold exactly_loop in rw append-nil, refl)
  exactly_loop-Reads (suc fuel) zero parts s hf h = (s, unfold exactly_loop in rw append-nil, refl)
  exactly_loop-Reads zero (suc n) parts s hf h = absurd (omega arith)
  exactly_loop-Reads (suc fuel) (suc n) parts s hf h =
      let D = L.delivers (suc n) s (omega arith) (omega arith) in
      Reads-chunk fuel n parts s D (
        exactly_loop-Reads fuel (suc n - D.count) (parts ++ take D.count (L.incoming s)) D.after
          (omega (arith, D.some_bytes))
          (rw D.remaining (omega (arith, length-drop D.count (L.incoming s)))))

  -- Too few bytes: the exception that ends the stream, which is then empty.
  abbrev Fails : ℕ → ℕ → Bytes → S.State → Type 0
  Fails fuel n parts s =
      (s' : S.State) × (exactly_loop S fuel n parts s ≡ (err L.ending, s')) × (L.incoming s' ≡ [])

  Fails-chunk :
      (fuel n : ℕ) (parts : Bytes) (s : S.State) (D : Delivery S L.incoming (suc n) s)
      → Fails fuel (suc n - D.count) (parts ++ take D.count (L.incoming s)) D.after
      → Fails (suc fuel) (suc n) parts s
  Fails-chunk fuel n parts s D (s', e, left) = (
    s',
    exactly_loop-chunk fuel n parts (take D.count (L.incoming s)) s D.after D.received
        ∙ rw (size_of_chunk (suc n) s D) e,
    left,
  )

  nil_or_pos : (xs : Bytes) → (xs ≡ []) ⊎ (1 ≤ length xs)
  nil_or_pos [] = inl refl
  nil_or_pos (x ∷ xs) = inr (omega arith)

  exactly_loop-Fails :
      (fuel n : ℕ) (parts : Bytes) (s : S.State)
      → n ≤ fuel
      → length (L.incoming s) < n
      → Fails fuel n parts s
  exactly_loop-Fails fuel zero parts s hf h = elim h [ ]
  exactly_loop-Fails zero (suc n) parts s hf h = absurd (omega arith)
  exactly_loop-Fails (suc fuel) (suc n) parts s hf h = elim (nil_or_pos (L.incoming s)) [
    | inl nothing ↦
        let (s', r, left) = L.ends (suc n) s nothing in
        (s', exactly_loop-failed fuel n parts s s' L.ending r, left)
    | inr something ↦
        let D = L.delivers (suc n) s (omega arith) something in
        Fails-chunk fuel n parts s D (
          exactly_loop-Fails fuel (suc n - D.count) (parts ++ take D.count (L.incoming s)) D.after
            (omega (arith, D.some_bytes))
            (rw D.remaining
              (omega (arith, D.available, D.at_most, length-drop D.count (L.incoming s)))))
  ]

  -- On a stream with at least `n` bytes to come, in whatever pieces they arrive, `exactly` returns
  -- the next `n` of them, and the bytes behind them are still to come.
  pub exactly-Reads :
      (n : ℕ) (s : S.State)
      → n ≤ length (L.incoming s)
      → (s' : S.State) × (exactly S n s ≡ (ok (take n (L.incoming s)), s'))
        × (L.incoming s' ≡ drop n (L.incoming s))
  exactly-Reads n s h = unfold exactly in exactly_loop-Reads n n [] s (omega arith) h

  -- On a stream with fewer than `n` bytes to come, `exactly` raises the exception that ends the
  -- stream, and no byte is left.
  pub exactly-Fails :
      (n : ℕ) (s : S.State)
      → length (L.incoming s) < n
      → (s' : S.State) × (exactly S n s ≡ (err L.ending, s')) × (L.incoming s' ≡ [])
  exactly-Fails n s h = unfold exactly in exactly_loop-Fails n n [] s (omega arith) h

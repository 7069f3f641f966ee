-- ===== src/Client/Frames/Cuts.antt =====
-- `#onData` of src/session-index-client.mjs: its loop does what the buffered bytes do one by one.
use qq_index.Prelude.{
  ℕ, zero, suc, ◌+◌, ◌≤◌, ◌<◌, true, false, none, some, List, [], ◌∷◌, ◌++◌, ◌≡◌, refl, sym, ap,
  subst, ◌∙◌, inl, inr, ltb, if◌then◌else◌, length, take, drop, arith, Bool-cases, Option-cases,
  ltb→lt, ltb→le,
}
use qq_index.Client.Responses.{max_frame_bytes}
use qq_index.Client.Frames.{Stream, Owner, has_newline, index_of_newline, drain}
use qq_index.Client.Frames.Newlines.{
  index_of_newline-none, index_of_newline-take, index_of_newline-split, index_of_newline-length,
}
use qq_index.Client.Frames.Bytes.{
  is_over, feed_all, feed_all-append, feed_all-over, feed_all-fits, feed_all-long, feed-newline,
}

module _ {S : Type 0} (o : Owner S) where
  -- The stream without the bytes that nothing will read.
  unfoldable pub forget : Stream S → Stream S
  unfolding is_over
  forget t = if is_over o t.owner then record { buffer = []; owner = t.owner } else t

  forget-over :
      (t u : Stream S) → is_over o u.owner ≡ true → t.owner ≡ u.owner → forget t ≡ forget u
  unfolding forget
  forget-over t u h same = rw (same, h)

  refused_over :
      ((s : S) → o.is_stopped (o.refuse s) ≡ true) → (s : S) → is_over o (o.refuse s) ≡ true
  unfolding is_over
  refused_over stops s = rw (stops s)

  -- Both ways of refusing a frame that is too long.
  pub refuse-feed :
      ((s : S) → o.is_stopped (o.refuse s) ≡ true)
      → (kept xs buffer : List ℕ) (s : S) → is_over o s ≡ false
      → has_newline xs ≡ false
      → length buffer ≤ max_frame_bytes
      → max_frame_bytes < length buffer + length xs
      → forget (record { buffer = kept; owner = o.refuse s })
        ≡ forget (feed_all o xs (record { buffer = buffer; owner = s }))
  refuse-feed stops kept xs buffer s live plain fits long =
      let same = feed_all-long o xs buffer s live (refused_over stops s) plain fits long in
      forget-over (record { buffer = kept; owner = o.refuse s })
        (feed_all o xs (record { buffer = buffer; owner = s }))
        (subst (λ x. is_over o x ≡ true) (sym same) (refused_over stops s)) (sym same)

  -- The same with more bytes behind.
  refuse-feed-append :
      ((s : S) → o.is_stopped (o.refuse s) ≡ true)
      → (kept xs ys : List ℕ) (s : S) → is_over o s ≡ false
      → has_newline xs ≡ false
      → max_frame_bytes < length xs
      → forget (record { buffer = kept; owner = o.refuse s })
        ≡ forget (feed_all o (xs ++ ys) (record { buffer = []; owner = s }))
  refuse-feed-append stops kept xs ys s live plain long =
      let t = feed_all o xs (record { buffer = []; owner = s }) in
      let same =
        feed_all-long o xs [] s live (refused_over stops s) plain (omega arith)
          (omega (arith, long)) in
      let over = subst (λ x. is_over o x ≡ true) (sym same) (refused_over stops s) in
      refuse-feed stops kept xs [] s live plain (omega arith) (omega (arith, long))
      ∙ ap forget (sym (feed_all-over o ys t over))
      ∙ ap forget (sym (feed_all-append o xs ys (record { buffer = []; owner = s })))

  -- One frame, and the bytes behind it.
  frame-feed :
      (xs ys : List ℕ) (s : S)
      → is_over o s ≡ false
      → has_newline xs ≡ false
      → length xs ≤ max_frame_bytes
      → feed_all o (xs ++ (10 ∷ ys)) (record { buffer = []; owner = s })
        ≡ feed_all o ys (record { buffer = []; owner = o.deliver xs s })
  unfolding feed_all
  frame-feed xs ys s live plain fits =
      feed_all-append o xs (10 ∷ ys) (record { buffer = []; owner = s })
      ∙ ap (feed_all o (10 ∷ ys)) (feed_all-fits o xs [] s live plain (omega (arith, fits)))
      ∙ ap (feed_all o ys) (feed-newline o 10 xs s live refl)

  delivered_live :
      ((f : List ℕ) (s : S) → o.is_closed (o.deliver f s) ≡ o.is_closed s)
      → (f : List ℕ) (s : S) → is_over o s ≡ false
      → o.is_stopped (o.deliver f s) ≡ false
      → is_over o (o.deliver f s) ≡ false
  unfolding is_over
  delivered_live keeps f s live h = ground (arith, keeps f s)

  -- The branches of one turn of the loop.
  drain-none :
      (fuel : ℕ) (buffer : List ℕ) (s : S)
      → index_of_newline buffer ≡ none
      → drain o (suc fuel) buffer s ≡ record {
        buffer = buffer;
        owner = if ltb max_frame_bytes (length buffer) then o.refuse s else s;
      }
  unfolding drain
  drain-none fuel buffer s e = rw (e, drain)

  drain-long :
      (fuel : ℕ) (buffer : List ℕ) (s : S) (n : ℕ)
      → index_of_newline buffer ≡ some n
      → ltb max_frame_bytes n ≡ true
      → drain o (suc fuel) buffer s ≡ record { buffer = buffer; owner = o.refuse s }
  unfolding drain
  drain-long fuel buffer s n e long = rw (e, long, drain)

  drain-last :
      (fuel : ℕ) (buffer : List ℕ) (s : S) (n : ℕ)
      → index_of_newline buffer ≡ some n
      → ltb max_frame_bytes n ≡ false
      → o.is_stopped (o.deliver (take n buffer) s) ≡ true
      → drain o (suc fuel) buffer s
        ≡ record { buffer = drop (suc n) buffer; owner = o.deliver (take n buffer) s }
  unfolding drain
  drain-last fuel buffer s n e fits h = rw (e, fits, h, drain)

  drain-next :
      (fuel : ℕ) (buffer : List ℕ) (s : S) (n : ℕ)
      → index_of_newline buffer ≡ some n
      → ltb max_frame_bytes n ≡ false
      → o.is_stopped (o.deliver (take n buffer) s) ≡ false
      → drain o (suc fuel) buffer s
        ≡ drain o fuel (drop (suc n) buffer) (o.deliver (take n buffer) s)
  unfolding drain
  drain-next fuel buffer s n e fits h = rw (e, fits, h, drain)

  stopped_over : (s : S) → o.is_stopped s ≡ true → is_over o s ≡ true
  unfolding is_over
  stopped_over s h = rw h

  after_last :
      (kept rest : List ℕ) (s : S)
      → is_over o s ≡ true
      → forget (record { buffer = kept; owner = s })
        ≡ forget (feed_all o rest (record { buffer = []; owner = s }))
  after_last kept rest s over =
      let u : Stream S = record { buffer = []; owner = s } in
      forget-over (record { buffer = kept; owner = s }) u over refl
      ∙ ap forget (sym (feed_all-over o rest u over))

  module _ (stops : (s : S) → o.is_stopped (o.refuse s) ≡ true)
      (keeps : (f : List ℕ) (s : S) → o.is_closed (o.deliver f s) ≡ o.is_closed s) where
    -- Without a newline in the buffer.
    rest-feed :
        (fuel : ℕ) (buffer : List ℕ) (s : S)
        → is_over o s ≡ false
        → index_of_newline buffer ≡ none
        → forget (drain o (suc fuel) buffer s)
          ≡ forget (feed_all o buffer (record { buffer = []; owner = s }))
    rest-feed fuel buffer s live e =
        let plain = index_of_newline-none buffer e in
        ap forget (drain-none fuel buffer s e)
        ∙ elim (Bool-cases (ltb max_frame_bytes (length buffer))) [
          | inl long ↦ rw long (
              refuse-feed stops buffer buffer [] s live plain (omega arith)
                (omega (arith, ltb→lt max_frame_bytes (length buffer) long)))
          | inr fits ↦ rw fits (
              ap forget (
                sym (
                  feed_all-fits o buffer [] s live plain
                    (omega (arith, ltb→le max_frame_bytes (length buffer) fits)))))
        ]

    -- The loop, with fuel for the bytes in the buffer, does what its bytes do one by one.
    pub drain-feed :
        (fuel : ℕ) (buffer : List ℕ) (s : S)
        → length buffer < fuel
        → is_over o s ≡ false
        → forget (drain o fuel buffer s)
          ≡ forget (feed_all o buffer (record { buffer = []; owner = s }))
    drain-feed zero buffer s enough live = absurd (omega (arith, enough))
    drain-feed (suc fuel) buffer s enough live = elim (Option-cases (index_of_newline buffer)) [
      | inl e ↦ rest-feed fuel buffer s live e
      | inr (n, e) ↦
          let frame = take n buffer in
          let rest = drop (suc n) buffer in
          let plain = index_of_newline-take buffer n e in
          let sizes = index_of_newline-length buffer n e in
          let joined =
            ap (λ bs. forget (feed_all o bs (record { buffer = []; owner = s })))
              (index_of_newline-split buffer n e) in
          elim (Bool-cases (ltb max_frame_bytes n)) [
            | inl long ↦
                ap forget (drain-long fuel buffer s n e long)
                ∙ (refuse-feed-append stops buffer frame (10 ∷ rest) s live plain
                      (omega (arith, ltb→lt max_frame_bytes n long, sizes.0))
                    ∙ sym joined)
            | inr fits ↦
                let fed =
                  frame-feed frame rest s live plain
                    (omega (arith, ltb→le max_frame_bytes n fits, sizes.0)) in
                elim (Bool-cases (o.is_stopped (o.deliver frame s))) [
                  | inl h ↦
                      ap forget (drain-last fuel buffer s n e fits h)
                      ∙ (after_last (drop (suc n) buffer) (drop (suc n) buffer)
                            (o.deliver (take n buffer) s)
                            (stopped_over (o.deliver (take n buffer) s) h)
                          ∙ (sym (ap forget fed) ∙ sym joined))
                  | inr h ↦
                      ap forget (drain-next fuel buffer s n e fits h)
                      ∙ (drain-feed fuel rest (o.deliver frame s) (omega (arith, enough, sizes.1))
                            (delivered_live keeps frame s live h)
                          ∙ (sym (ap forget fed) ∙ sym joined))
                ]
          ]
    ]

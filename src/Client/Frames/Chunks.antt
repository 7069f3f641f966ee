-- ===== src/Client/Frames/Chunks.antt =====
-- `#onData` of src/session-index-client.mjs: it hands over the frames that the bytes make, however the
-- bytes are cut into chunks.
use qq_index.Prelude.{
  ℕ, suc, ◌+◌, ◌≤◌, true, false, not, ◌&&◌, List, [], ◌∷◌, ◌++◌, flatten, ◌≡◌, refl, sym, ap, subst,
  ◌∙◌, inl, inr, ◌⊎◌, ltb, ◌==◌, length, arith, Bool-cases, ltb→lt, ltb→le, length-append,
}
use qq_index.Client.Responses.{max_frame_bytes}
use qq_index.Client.Frames.{Stream, Owner, has_newline, drain, on_data}
use qq_index.Client.Frames.Bytes.{
  is_over, feed_all, feed_all-append, feed_all-over, feed_all-fits, feed, feed-over, feed-plain,
  feed-full, feed-newline,
}
use qq_index.Client.Frames.Cuts.{forget, drain-feed, refuse-feed}

has_newline-append :
    (xs ys : List ℕ)
    → has_newline xs ≡ false
    → has_newline ys ≡ false
    → has_newline (xs ++ ys) ≡ false
unfolding has_newline
has_newline-append [] ys h k = k
has_newline-append (x ∷ xs) ys h k = ground (arith, has_newline-append xs ys)

module _ {S : Type 0} (o : Owner S) where
  -- Nothing will read the buffer, or it holds the start of a frame.
  unfoldable pub Sound : Stream S → Type 0
  Sound t =
      (is_over o t.owner ≡ true)
      ⊎ ((is_over o t.owner ≡ false)
          × ((has_newline t.buffer ≡ false) × (length t.buffer ≤ max_frame_bytes)))

  -- The events of one stream: chunk after chunk.
  unfoldable pub receive : List (List ℕ) → Stream S → Stream S
  unfolding on_data
  receive [] t = t
  receive (chunk ∷ chunks) t = receive chunks (on_data o chunk t)

  forget-idle : (t : Stream S) → is_over o t.owner ≡ false → forget o t ≡ t
  unfolding forget
  forget-idle t h = rw h

  forget_owner : (t : Stream S) → (forget o t).owner ≡ t.owner
  unfolding forget
  forget_owner t = elim (Bool-cases (is_over o t.owner)) [
    | inl h ↦ rw (h, forget)
    | inr h ↦ rw (h, forget)
  ]

  Sound-forget : (t : Stream S) → Sound (forget o t) → Sound t
  unfolding Sound
  Sound-forget t (inl h) = inl (subst (λ s. is_over o s ≡ true) (forget_owner t) h)
  Sound-forget t (inr (h, r)) =
      let live = subst (λ s. is_over o s ≡ false) (forget_owner t) h in
      subst Sound (forget-idle t live) (inr (h, r))

  forget-Sound : (t : Stream S) → Sound t → Sound (forget o t)
  unfolding Sound
  forget-Sound t (inl h) = inl (subst (λ s. is_over o s ≡ true) (sym (forget_owner t)) h)
  forget-Sound t (inr r) = subst Sound (sym (forget-idle t r.0)) (inr r)

  forgotten :
      (t : Stream S)
      → is_over o t.owner ≡ true
      → forget o t ≡ record { buffer = []; owner = t.owner }
  unfolding forget
  forgotten t h = rw h

  forget_idem : (t : Stream S) → is_over o t.owner ≡ true → forget o (forget o t) ≡ forget o t
  forget_idem t h =
      ap (forget o) (forgotten t h)
      ∙ (forgotten (record { buffer = []; owner = t.owner }) h ∙ sym (forgotten t h))

  fresh-Sound :
      (buffer : List ℕ) (s : S)
      → has_newline buffer ≡ false
      → length buffer ≤ max_frame_bytes
      → Sound (record { buffer = buffer; owner = s })
  unfolding Sound
  fresh-Sound buffer s plain fits = elim (Bool-cases (is_over o s)) [
    | inl h ↦ inl h
    | inr h ↦ inr (h, (plain, fits))
  ]

  -- Bytes do the same to streams that differ in what nothing reads.
  feed_all-forget :
      (xs : List ℕ) (t : Stream S)
      → forget o (feed_all o xs t) ≡ forget o (feed_all o xs (forget o t))
  feed_all-forget xs t = elim (Bool-cases (is_over o t.owner)) [
    | inl h ↦
        ap (forget o) (feed_all-over o xs t h)
        ∙ (sym (forget_idem t h)
            ∙ ap (forget o) (
                sym (
                  feed_all-over o xs (forget o t)
                    (subst (λ s. is_over o s ≡ true) (sym (forget_owner t)) h))))
    | inr h ↦ ap (λ u. forget o (feed_all o xs u)) (sym (forget-idle t h))
  ]

  module _ (stops : (s : S) → o.is_stopped (o.refuse s) ≡ true)
      (keeps : (f : List ℕ) (s : S) → o.is_closed (o.deliver f s) ≡ o.is_closed s) where
    refused_over : (s : S) → is_over o (o.refuse s) ≡ true
    unfolding is_over
    refused_over s = rw (stops s)

    feed_live-Sound :
        (b : ℕ) (buffer : List ℕ) (s : S)
        → is_over o s ≡ false
        → has_newline buffer ≡ false
        → length buffer ≤ max_frame_bytes
        → Sound (feed o b (record { buffer = buffer; owner = s }))
    unfolding has_newline Sound
    feed_live-Sound b buffer s live plain fits = elim (Bool-cases (b == 10)) [
      | inl e ↦
          subst Sound (sym (feed-newline o b buffer s live e))
            (fresh-Sound [] (o.deliver buffer s) refl (omega arith))
      | inr e ↦ elim (Bool-cases (ltb (length buffer) max_frame_bytes)) [
        | inl room ↦
            let space = ltb→lt (length buffer) max_frame_bytes room in
            subst Sound (sym (feed-plain o b buffer s live e space)) (
              fresh-Sound (buffer ++ (b ∷ [])) s
                (has_newline-append buffer (b ∷ []) plain (ground (arith, e)))
                (omega (arith, length-append buffer (b ∷ []), space)))
        | inr full ↦
            subst Sound
              (sym (feed-full o b buffer s live e (ltb→le (length buffer) max_frame_bytes full)))
              (inl (refused_over s))
      ]
    ]

    feed-Sound : (b : ℕ) (t : Stream S) → Sound t → Sound (feed o b t)
    unfolding Sound
    feed-Sound b t (inl h) = subst Sound (sym (feed-over o b t h)) (inl h)
    feed-Sound b t (inr (live, (plain, fits))) = feed_live-Sound b t.buffer t.owner live plain fits

    feed_all-Sound : (xs : List ℕ) (t : Stream S) → Sound t → Sound (feed_all o xs t)
    unfolding feed_all
    feed_all-Sound [] t h = h
    feed_all-Sound (x ∷ xs) t h = feed_all-Sound xs (feed o x t) (feed-Sound x t h)

    on_data-over :
        (chunk : List ℕ) (t : Stream S) → is_over o t.owner ≡ true → on_data o chunk t ≡ t
    unfolding on_data is_over
    on_data-over chunk t h = rw h

    on_data-early :
        (chunk : List ℕ) (t : Stream S)
        → is_over o t.owner ≡ false
        → (ltb (max_frame_bytes + 1) (length t.buffer + length chunk) && not (has_newline chunk))
          ≡ true
        → on_data o chunk t ≡ record { buffer = t.buffer; owner = o.refuse t.owner }
    unfolding on_data is_over
    on_data-early chunk t h e = rw (h, e)

    on_data-drain :
        (chunk : List ℕ) (t : Stream S)
        → is_over o t.owner ≡ false
        → (ltb (max_frame_bytes + 1) (length t.buffer + length chunk) && not (has_newline chunk))
          ≡ false
        → on_data o chunk t ≡ drain o (suc (length (t.buffer ++ chunk))) (t.buffer ++ chunk) t.owner
    unfolding on_data is_over
    on_data-drain chunk t h e = rw (h, e)

    on_data_live-feed :
        (chunk buffer : List ℕ) (s : S)
        → is_over o s ≡ false
        → has_newline buffer ≡ false
        → length buffer ≤ max_frame_bytes
        → forget o (on_data o chunk (record { buffer = buffer; owner = s }))
          ≡ forget o (feed_all o chunk (record { buffer = buffer; owner = s }))
    on_data_live-feed chunk buffer s live plain fits =
        let t : Stream S = record { buffer = buffer; owner = s } in
        elim (Bool-cases
          (ltb (max_frame_bytes + 1) (length buffer + length chunk) && not (has_newline chunk))) [
            | inl e ↦
                ap (forget o) (on_data-early chunk t live e)
                ∙ refuse-feed o stops buffer chunk buffer s live (ground (arith, e)) fits
                    (ground (arith, e))
            | inr e ↦
                ap (forget o) (on_data-drain chunk t live e)
                ∙ (drain-feed o stops keeps (suc (length (buffer ++ chunk))) (buffer ++ chunk) s
                      (omega arith) live
                    ∙ (ap (forget o)
                          (feed_all-append o buffer chunk (record { buffer = []; owner = s }))
                        ∙ ap (λ u. forget o (feed_all o chunk u))
                            (feed_all-fits o buffer [] s live plain (omega (arith, fits)))))
          ]

    -- A chunk does what its bytes do one by one.
    pub on_data-feed :
        (chunk : List ℕ) (t : Stream S)
        → Sound t
        → forget o (on_data o chunk t) ≡ forget o (feed_all o chunk t)
    unfolding Sound
    on_data-feed chunk t (inl h) =
        ap (forget o) (on_data-over chunk t h ∙ sym (feed_all-over o chunk t h))
    on_data-feed chunk t (inr (live, (plain, fits))) =
        on_data_live-feed chunk t.buffer t.owner live plain fits

    pub on_data-Sound : (chunk : List ℕ) (t : Stream S) → Sound t → Sound (on_data o chunk t)
    on_data-Sound chunk t h = Sound-forget (on_data o chunk t) (
        subst Sound (sym (on_data-feed chunk t h))
          (forget-Sound (feed_all o chunk t) (feed_all-Sound chunk t h)))

    -- Chunk after chunk does what all the bytes do one by one.
    pub receive-feed :
        (chunks : List (List ℕ)) (t : Stream S)
        → Sound t
        → forget o (receive chunks t) ≡ forget o (feed_all o (flatten chunks) t)
    unfolding receive feed_all flatten
    receive-feed [] t h = refl
    receive-feed (chunk ∷ chunks) t h =
        receive-feed chunks (on_data o chunk t) (on_data-Sound chunk t h)
        ∙ (feed_all-forget (flatten chunks) (on_data o chunk t)
            ∙ (ap (λ u. forget o (feed_all o (flatten chunks) u)) (on_data-feed chunk t h)
                ∙ (sym (feed_all-forget (flatten chunks) (feed_all o chunk t))
                    ∙ ap (forget o) (sym (feed_all-append o chunk (flatten chunks) t)))))

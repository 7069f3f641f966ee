-- ===== src/Client/Frames/Bytes.antt =====
-- What the stream of bytes means, one byte at a time.
use qq_index.Prelude.{
  ℕ, Bool, true, false, ◌||◌, List, [], ◌∷◌, ◌++◌, ◌≡◌, refl, ap, leb, ◌==◌, if◌then◌else◌, length,
  arith, Bool-cases, ltb, ltb→lt, ltb→le, le→leb, lt→leb_false, ◌∙◌, ◌+◌, ◌≤◌, ◌<◌, inl, inr,
}
use mathlib.Core.List.{append_assoc, append-nil}
use qq_index.Prelude.{length-append}
use qq_index.Client.Responses.{max_frame_bytes}
use qq_index.Client.Frames.{Stream, Owner, has_newline}

module _ {S : Type 0} (o : Owner S) where
  unfoldable pub is_over : S → Bool
  is_over s = o.is_stopped s || o.is_closed s

  -- A newline ends a frame; a byte more than a frame may have is refused.
  unfoldable pub feed_byte : ℕ → List ℕ → S → Stream S
  feed_byte b buffer s =
      if b == 10
      then record { buffer = []; owner = o.deliver buffer s }
      else if leb max_frame_bytes (length buffer)
      then record { buffer = buffer; owner = o.refuse s }
      else record { buffer = buffer ++ (b ∷ []); owner = s }

  unfoldable pub feed : ℕ → Stream S → Stream S
  unfolding is_over feed_byte
  feed b t = if is_over t.owner then t else feed_byte b t.buffer t.owner

  unfoldable pub feed_all : List ℕ → Stream S → Stream S
  unfolding feed
  feed_all [] t = t
  feed_all (b ∷ bs) t = feed_all bs (feed b t)

  pub feed_all-append :
      (xs ys : List ℕ) (t : Stream S) → feed_all (xs ++ ys) t ≡ feed_all ys (feed_all xs t)
  unfolding feed_all
  feed_all-append [] ys t = refl
  feed_all-append (x ∷ xs) ys t = feed_all-append xs ys (feed x t)

  pub feed-over : (b : ℕ) (t : Stream S) → is_over t.owner ≡ true → feed b t ≡ t
  unfolding feed
  feed-over b t h = rw h

  pub feed-plain :
      (b : ℕ) (buffer : List ℕ) (s : S)
      → is_over s ≡ false
      → (b == 10) ≡ false
      → length buffer < max_frame_bytes
      → feed b (record { buffer = buffer; owner = s })
        ≡ record { buffer = buffer ++ (b ∷ []); owner = s }
  unfolding feed feed_byte
  feed-plain b buffer s live plain fits =
      rw (live, plain, lt→leb_false max_frame_bytes (length buffer) fits)

  pub feed-full :
      (b : ℕ) (buffer : List ℕ) (s : S)
      → is_over s ≡ false
      → (b == 10) ≡ false
      → max_frame_bytes ≤ length buffer
      → feed b (record { buffer = buffer; owner = s })
        ≡ record { buffer = buffer; owner = o.refuse s }
  unfolding feed feed_byte
  feed-full b buffer s live plain full =
      rw (live, plain, le→leb max_frame_bytes (length buffer) full)

  -- A newline hands the buffer over.
  pub feed-newline :
      (b : ℕ) (buffer : List ℕ) (s : S)
      → is_over s ≡ false
      → (b == 10) ≡ true
      → feed b (record { buffer = buffer; owner = s })
        ≡ record { buffer = []; owner = o.deliver buffer s }
  unfolding feed feed_byte
  feed-newline b buffer s live e = rw (live, e)

  -- Once over, bytes change nothing.
  pub feed_all-over : (xs : List ℕ) (t : Stream S) → is_over t.owner ≡ true → feed_all xs t ≡ t
  unfolding feed_all
  feed_all-over [] t h = refl
  feed_all-over (x ∷ xs) t h = rw (feed-over x t h, feed_all-over xs t h)

  -- Bytes without a newline that fit are kept.
  pub feed_all-fits :
      (xs buffer : List ℕ) (s : S)
      → is_over s ≡ false
      → has_newline xs ≡ false
      → length buffer + length xs ≤ max_frame_bytes
      → feed_all xs (record { buffer = buffer; owner = s })
        ≡ record { buffer = buffer ++ xs; owner = s }
  unfolding feed_all has_newline
  feed_all-fits [] buffer s live plain fits = rw (append-nil buffer)
  feed_all-fits (x ∷ xs) buffer s live plain fits = rw (
    feed-plain x buffer s live (ground arith) (omega (arith, fits)),
    feed_all-fits xs (buffer ++ (x ∷ [])) s live (ground arith)
        (omega (arith, length-append buffer (x ∷ []), fits)),
    append_assoc buffer (x ∷ []) xs,
  )

  -- Bytes without a newline that do not fit are refused.
  pub feed_all-long :
      (xs buffer : List ℕ) (s : S)
      → is_over s ≡ false
      → is_over (o.refuse s) ≡ true
      → has_newline xs ≡ false
      → length buffer ≤ max_frame_bytes
      → max_frame_bytes < length buffer + length xs
      → (feed_all xs (record { buffer = buffer; owner = s })).owner ≡ o.refuse s
  unfolding feed_all has_newline
  feed_all-long [] buffer s live stops plain fits long = absurd (omega (arith, fits, long))
  feed_all-long (x ∷ xs) buffer s live stops plain fits long =
      elim (Bool-cases (ltb (length buffer) max_frame_bytes)) [
        | inl e ↦
            ap (λ t. (feed_all xs t).owner)
              (feed-plain x buffer s live (ground arith) (ltb→lt (length buffer) max_frame_bytes e))
            ∙ feed_all-long xs (buffer ++ (x ∷ [])) s live stops (ground arith)
                (omega
                  (arith, length-append buffer (x ∷ []), ltb→lt (length buffer) max_frame_bytes e))
                (omega (arith, length-append buffer (x ∷ []), long))
        | inr e ↦
            ap (λ t. (feed_all xs t).owner)
              (feed-full x buffer s live (ground arith) (ltb→le (length buffer) max_frame_bytes e))
            ∙ ap (λ t. t.owner)
                (feed_all-over xs (record { buffer = buffer; owner = o.refuse s }) stops)
      ]

-- ===== src/Client/Frames.antt =====
-- `#onData` of src/session-index-client.mjs: the bytes that arrive, cut into frames. The rest of the client is
-- a parameter, an owner that is handed each frame.
pub mod Bytes
pub mod Newlines
pub mod Cuts
pub mod Chunks
pub mod Owners
use qq_index.Prelude.{
  ℕ, zero, suc, ◌+◌, Bool, true, false, not, ◌&&◌, ◌||◌, Option, none, some, List, [], ◌∷◌, ◌++◌,
  ltb, leb, ◌==◌, if◌then◌else◌, length, take, drop,
}
use qq_index.Client.Responses.{max_frame_bytes}

-- `buffer.indexOf(0x0a)`
unfoldable pub index_of_newline : List ℕ → Option ℕ
index_of_newline [] = none
index_of_newline (b ∷ bs) =
    if b == 10 then some 0 else elim (index_of_newline bs) [ none ↦ none | some n ↦ some (suc n) ]

unfoldable pub has_newline : List ℕ → Bool
has_newline [] = false
has_newline (b ∷ bs) = b == 10 || has_newline bs

-- The bytes that wait for a newline, and the owner of the frames.
pub record Stream (S : Type 0) : Type 0 where
  pub buffer : List ℕ
  pub owner : S

-- `deliver` is `#handleFrame`, `refuse` is `#terminate` for a frame that is too long; `is_stopped` and
-- `is_closed` ask for `#terminalError` and `#closed`.
pub record Owner (S : Type 0) : Type 0 where
  pub deliver : List ℕ → S → S
  pub refuse : S → S
  pub is_stopped : S → Bool
  pub is_closed : S → Bool

module _ {S : Type 0} (o : Owner S) where
  -- The loop of `#onData`; the fuel bounds the frames in the buffer.
  unfoldable pub drain : (fuel : ℕ) → List ℕ → S → Stream S
  unfolding index_of_newline
  drain zero buffer s = record { buffer = buffer; owner = s }
  drain (suc fuel) buffer s = elim (index_of_newline buffer) [
    | none ↦ record {
      buffer = buffer;
      owner = if ltb max_frame_bytes (length buffer) then o.refuse s else s;
    }
    | some n ↦ elim (ltb max_frame_bytes n) [
      | true ↦ record { buffer = buffer; owner = o.refuse s }
      | false ↦ elim (o.is_stopped (o.deliver (take n buffer) s)) [
        | true ↦ record { buffer = drop (suc n) buffer; owner = o.deliver (take n buffer) s }
        | false ↦ drain fuel (drop (suc n) buffer) (o.deliver (take n buffer) s)
      ]
    ]
  ]

  unfoldable pub on_data : (chunk : List ℕ) → Stream S → Stream S
  unfolding drain has_newline
  on_data chunk t =
      if o.is_stopped t.owner || o.is_closed t.owner
      then t
      else if ltb (max_frame_bytes + 1) (length t.buffer + length chunk) && not (has_newline chunk)
      then record { buffer = t.buffer; owner = o.refuse t.owner }
      else drain (suc (length (t.buffer ++ chunk))) (t.buffer ++ chunk) t.owner

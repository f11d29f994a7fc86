-- ===== src/Stream/Feed.antt =====
-- A stream that meets what anyio documents: it holds the bytes to come and gives them out in pieces
-- of at most `piece + 1`; what is sent to it is dropped.
use dinix.Shared.{ℕ, suc, ◌≤◌, ◌≡◌, refl, [], ◌∷◌, arith, length, take, drop, min}
use dinix.Exceptions.{ok, end_of_stream}
use dinix.Struct.{Bytes}
use dinix.Stream.{Received, chunk, failed, SocketStream, Delivery, IsStream}

pub record Feed : Type 0 where
  pub piece : ℕ
  pub bytes : Bytes

abbrev pub piece_size : ℕ → ℕ → Bytes → ℕ
piece_size piece n bs = min (min n (suc piece)) (length bs)

abbrev pub give : ℕ → ℕ → Bytes → Received Feed
give piece n [] = failed end_of_stream (record { piece = piece; bytes = [] })
give piece n (b ∷ bs) =
    chunk (take (piece_size piece n (b ∷ bs)) (b ∷ bs))
      (record { piece = piece; bytes = drop (piece_size piece n (b ∷ bs)) (b ∷ bs) })

abbrev pub feed_stream : SocketStream
feed_stream = record {
  State = Feed;
  receive = λ n s. give s.piece n s.bytes;
  send = λ payload s. (ok tt, s);
}

give-some :
    (piece n : ℕ) (bs : Bytes)
    → 1 ≤ length bs
    → give piece n bs
      ≡ chunk
          (take (piece_size piece n bs) bs)
          (record { piece = piece; bytes = drop (piece_size piece n bs) bs })
give-some piece n [] h = absurd (omega arith)
give-some piece n (b ∷ bs) h = refl

pub feed_delivers :
    (n : ℕ) (s : Feed) → 1 ≤ n → 1 ≤ length s.bytes → Delivery feed_stream (λ s. s.bytes) n s
feed_delivers n s hn h = record {
  count = piece_size s.piece n s.bytes;
  after = record { piece = s.piece; bytes = drop (piece_size s.piece n s.bytes) s.bytes };
  some_bytes = omega arith;
  at_most = omega arith;
  available = omega arith;
  received = give-some s.piece n s.bytes h;
  remaining = refl;
}

pub feed_ends :
    (n : ℕ) (s : Feed)
    → s.bytes ≡ []
    → (s' : Feed) × (feed_stream.receive n s ≡ failed end_of_stream s') × (s'.bytes ≡ [])
feed_ends n s h = (record { piece = s.piece; bytes = [] }, rw h, refl)

abbrev pub feed_IsStream : IsStream feed_stream
feed_IsStream = record {
  incoming = λ s. s.bytes;
  ending = end_of_stream;
  delivers = feed_delivers;
  ends = feed_ends;
}

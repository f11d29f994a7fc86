-- ===== src/Client/Answers/Environment.antt =====
-- `get_all_env` of dinit-client/src/dinit_client/client.py on the block that the daemon sends.
use dinix.Shared.{
  ◌^◌, ◌<◌, ℕ, ◌≡◌, refl, sym, ◌∙◌, true, some, none, List, [], ◌++◌, append-nil, length, All, ap,
}
use dinix.Exceptions.{Result, ok}
use dinix.Struct.{Abi, Bytes, word, unpack_from}
use dinix.Struct.RoundTrip.{length-word, unpack_from-word}
use dinix.Protocol.Enums.{Reply, reply_value}
use dinix.Protocol.Requests
use dinix.Protocol.Replies.{decode_allenv, unpack_size_t}
use dinix.Protocol.Replies.Environment.{
  Variable, IsVariable, block_bytes, assigned, decode_allenv-block,
}
use dinix.Stream.{SocketStream, IsStream}
use dinix.Client.Task.{on_all_env, environment, Client, read}
use dinix.Client.Reader.{handle, is_reply, set_result}
use dinix.Client.Commands.{fresh, get_all_env}
use dinix.Client.Framing.{Packet, buffered, Yields-bind, read-front}
use dinix.Client.Answers.{Answered, Completes, answering_client, request-Completes}
use dinix.Client.Answers.Handlers.{finished}

module _ (S : SocketStream) (L : IsStream S) (abi : Abi) where
  -- The reply `ALLENV` behind its code.
  abbrev pub environment_bytes : List Variable → Bytes → Bytes
  environment_bytes vs rest =
      word abi abi.sizeof_long (length (block_bytes vs)) ++ (block_bytes vs ++ rest)

  -- What the handler decodes.
  decode_allenv-read :
      (vs : List Variable)
      → length (block_bytes vs) < 256 ^ abi.sizeof_long
      → All IsVariable vs
      → decode_allenv abi (word abi abi.sizeof_long (length (block_bytes vs)) ++ block_bytes vs)
        ≡ ok (assigned vs [])
  decode_allenv-read vs h hs =
      ap (λ b. decode_allenv abi (word abi abi.sizeof_long (length (block_bytes vs)) ++ b))
        (sym (append-nil (block_bytes vs)))
      ∙ decode_allenv-block abi vs [] h hs

  on_all_env-environment :
      (fuel : ℕ) (c : Client S) (vs : List Variable) (rest : Bytes)
      → length (block_bytes vs) < 256 ^ abi.sizeof_long
      → All IsVariable vs
      → c.pending ≡ some (fresh on_all_env)
      → L.incoming c.stream ≡ environment_bytes vs rest
      → Completes S L abi fuel on_all_env
          (reply_value Reply.allenv)
          c
          (finished S L abi on_all_env (environment (assigned vs [])))
          rest
  on_all_env-environment fuel c vs rest h hs hp e =
      unfold handle is_reply set_result unpack_size_t in
      Yields-bind S L (read abi.sizeof_long) _ c Goal
        (read-front S L abi.sizeof_long c head (block_bytes vs ++ rest) e
          (length-word abi abi.sizeof_long (length (block_bytes vs))))
        (λ s1 left1. rw sized (
          Yields-bind S L (read (length (block_bytes vs))) _ (record c { stream = s1 }) Goal
            (read-front S L (length (block_bytes vs)) (record c { stream = s1 }) (block_bytes vs)
              rest left1 refl)
            (λ s2 left2. (s2, rw (decode_allenv-read vs h hs) (rw hp), left2, refl))))
    where
      head : Bytes
      head = word abi abi.sizeof_long (length (block_bytes vs))

      sized : unpack_from abi abi.sizeof_long head 0 ≡ ok (length (block_bytes vs))
      sized =
          rw append-nil at
            (unpack_from-word abi abi.sizeof_long (length (block_bytes vs)) 0 [] [] h refl)

      Goal : Result (Unit {0}) × Client S → Type 0
      Goal r =
          (s' : S.State) × (r ≡ (
            ok tt,
            record c {
              stream = s';
              pending = some (finished S L abi on_all_env (environment (assigned vs [])));
            },
          ))
          × (L.incoming s' ≡ rest)
          × (true ≡ true)

  -- If the daemon answers `get_all_env`, behind information packets of which the client has rounds
  -- enough to look at all, with a block of variables, each ended by a NUL byte, with no `=` in its
  -- name and no NUL byte in its entry, behind the length of the block, which fits a C `long`,
  -- `get_all_env` returns the dictionary that the assignments make one after the other; the events
  -- are buffered in order, no command is in flight, and the bytes behind the block are still to be
  -- read.
  pub get_all_env-assigned :
      (fuel : ℕ) (c : Client S) (ps : List Packet) (vs : List Variable) (rest : Bytes)
      → length (block_bytes vs) < 256 ^ abi.sizeof_long
      → All IsVariable vs
      → Answered S L abi c Requests.get_all_env fuel ps
          (reply_value Reply.allenv)
          (environment_bytes vs rest)
      → (s' : S.State) × (get_all_env abi fuel c ≡ (
        ok (environment (assigned vs [])),
        record c { stream = s'; pending = none; events = buffered c.events ps },
      ))
        × (L.incoming s' ≡ rest)
  unfolding get_all_env
  get_all_env-assigned fuel c ps vs rest h hs a =
      request-Completes S L abi fuel c Requests.get_all_env on_all_env ps (reply_value Reply.allenv)
        (environment_bytes vs rest) rest
        (finished S L abi on_all_env (environment (assigned vs []))) a
        (λ s left.
          on_all_env-environment fuel (answering_client S L abi c on_all_env ps s) vs rest h hs refl
            left)

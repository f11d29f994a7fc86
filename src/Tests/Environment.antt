-- ===== src/Tests/Environment.antt =====
-- `get_all_env` of dinit-client/src/dinit_client/client.py in a concrete session.
use dinix.Shared.{◌≡◌, refl, List, [], ◌∷◌, arith}
use dinix.Exceptions.{ok}
use dinix.Struct.{x86_64, Bytes}
use dinix.Utf8.{encode, encode_char, is_scalar}
use dinix.Protocol.Enums.{reply_value}
use dinix.Protocol.Requests
use dinix.Protocol.Replies.Environment.{Variable, IsVariable, assigned}
use dinix.Stream.Feed.{Feed, feed_stream, feed_IsStream}
use dinix.Client.Task.{environment}
use dinix.Client.Commands.{get_all_env}
use dinix.Client.Answers.Environment.{environment_bytes, get_all_env-assigned}
use dinix.Tests.Daemon.{idle, packets, sent_bytes, answered_client, answers}

-- A=1, B=, A=2=2
abbrev first_a : Variable
first_a = record { name = 65 ∷ []; value = 49 ∷ []; raw = 65 ∷ 61 ∷ 49 ∷ [] }

abbrev empty_b : Variable
empty_b = record { name = 66 ∷ []; value = []; raw = 66 ∷ 61 ∷ [] }

abbrev second_a : Variable
second_a = record { name = 65 ∷ []; value = 50 ∷ 61 ∷ 50 ∷ []; raw = 65 ∷ 61 ∷ 50 ∷ 61 ∷ 50 ∷ [] }

abbrev variables : List Variable
variables = first_a ∷ empty_b ∷ second_a ∷ []

first_a-IsVariable : IsVariable first_a
unfolding encode encode_char is_scalar
first_a-IsVariable = record {
  encoded = refl;
  plain_name = (omega arith, tt);
  plain_bytes = (omega arith, (omega arith, (omega arith, tt)));
}

empty_b-IsVariable : IsVariable empty_b
unfolding encode encode_char is_scalar
empty_b-IsVariable = record {
  encoded = refl;
  plain_name = (omega arith, tt);
  plain_bytes = (omega arith, (omega arith, tt));
}

second_a-IsVariable : IsVariable second_a
unfolding encode encode_char is_scalar
second_a-IsVariable = record {
  encoded = refl;
  plain_name = (omega arith, tt);
  plain_bytes = (omega arith, (omega arith, (omega arith, (omega arith, (omega arith, tt)))));
}

-- The block, with a byte behind it.
abbrev sent : Bytes
sent = sent_bytes 78 (environment_bytes feed_stream feed_IsStream x86_64 variables (9 ∷ []))

get_all_env-assigned_example :
    (s' : Feed) × (get_all_env x86_64 3 (idle sent)
      ≡ (ok (environment (assigned variables [])), answered_client sent s'))
    × (s'.bytes ≡ 9 ∷ [])
unfolding reply_value
get_all_env-assigned_example =
    get_all_env-assigned feed_stream feed_IsStream x86_64 3 (idle sent) packets variables (9 ∷ [])
      (omega arith) (first_a-IsVariable, (empty_b-IsVariable, (second_a-IsVariable, tt)))
      (answers Requests.get_all_env 78
        (environment_bytes feed_stream feed_IsStream x86_64 variables (9 ∷ [])) (omega arith))

-- ===== src/Tests/Sessions.antt =====
-- The stream, the packets and the requests of dinit-client/src/dinit_client/client.py in concrete
-- sessions.
use dinix.Shared.{◌≡◌, ◌≢◌, refl, true, [], ◌∷◌, ◌++◌, arith}
use dinix.Exceptions.{ok, err, connection_closed, value_error, pinned}
use dinix.Struct.{Bytes, x86_64}
use dinix.Protocol.Enums.{Reply, reply_value, from_value, reply_enum}
use dinix.Protocol.Replies.Status.{status_bytes}
use dinix.Stream.Feed.{Feed, feed_stream, feed_IsStream}
use dinix.Client.Task.{on_version, on_ack, Client}
use dinix.Stream.{exactly}
use dinix.Stream.Exact.{exactly-Reads}
use dinix.Client.Framing.{next_reply-packets}
use dinix.Client.Reader.{simple_error, next_reply}
use dinix.Client.Commands.{request}
use dinix.Client.Answers.Refusals.{request-Unexpected, request-unknown_reply}
use dinix.Tests.Daemon.{
  idle, holding, up, packets, all_packets, sent_bytes, answered_client, payload, answers,
}

abbrev status_reply : Bytes
status_reply = 0 ∷ (status_bytes x86_64 up 5 ++ (9 ∷ []))

request-Unexpected_example :
    (s' : Feed) × (request x86_64 3 payload on_ack (idle (sent_bytes 68 (9 ∷ [])))
      ≡ (err pinned, answered_client (sent_bytes 68 (9 ∷ [])) s'))
    × (s'.bytes ≡ 9 ∷ [])
unfolding reply_value simple_error
request-Unexpected_example =
    request-Unexpected feed_stream feed_IsStream x86_64 3 (idle (sent_bytes 68 (9 ∷ []))) payload
      on_ack packets Reply.pinnedstarted (9 ∷ []) (cc, cc)
      (answers payload 68 (9 ∷ []) (omega arith))

abbrev shut : Client feed_stream
shut = record (idle []) { closed = true }

on_ack-other : on_ack ≢ on_version
on_ack-other = cc

no_reply : from_value {A = Reply} 99 ≡ err value_error
unfolding from_value reply_value
no_reply = refl

request-unknown_reply_example :
    (s' : Feed) × (request x86_64 3 payload on_ack (idle (sent_bytes 99 (9 ∷ []))) ≡ (
      err connection_closed,
      record (answered_client (sent_bytes 99 (9 ∷ [])) s') { closed = true; events_closed = true },
    ))
    × (s'.bytes ≡ 9 ∷ [])
request-unknown_reply_example =
    request-unknown_reply feed_stream feed_IsStream x86_64 3 (idle (sent_bytes 99 (9 ∷ []))) payload
      on_ack packets 99 (9 ∷ []) on_ack-other no_reply (answers payload 99 (9 ∷ []) (omega arith))

-- An event and an unknown packet in front of the reply, in pieces of three bytes.
next_reply-packets_example :
    (s' : Feed) × (next_reply x86_64 3 (idle (sent_bytes 50 (9 ∷ [])))
      ≡ (ok 50, answered_client (sent_bytes 50 (9 ∷ [])) s'))
    × (s'.bytes ≡ 9 ∷ [])
next_reply-packets_example =
    next_reply-packets feed_stream feed_IsStream x86_64 packets 3 (idle (sent_bytes 50 (9 ∷ []))) 50
      (9 ∷ []) (omega arith) (omega arith) all_packets refl

exactly-Reads_example :
    (s' : Feed) × (exactly feed_stream 4 (holding (1 ∷ 2 ∷ 3 ∷ 4 ∷ 5 ∷ []))
      ≡ (ok (1 ∷ 2 ∷ 3 ∷ 4 ∷ []), s'))
    × (s'.bytes ≡ 5 ∷ [])
exactly-Reads_example =
    exactly-Reads feed_stream feed_IsStream 4 (holding (1 ∷ 2 ∷ 3 ∷ 4 ∷ 5 ∷ [])) (omega arith)

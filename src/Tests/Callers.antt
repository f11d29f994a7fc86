-- ===== src/Tests/Callers.antt =====
-- Callers of dinit-client/src/dinit_client/client.py that take the lock, wait and are cancelled, in a
-- concrete session.
use dinix.Shared.{◌≡◌, ◌≢◌, refl, true, false, none, some, [], ◌∷◌, arith, inl}
use dinix.Exceptions.{ok, out_of_fuel}
use dinix.Struct.{x86_64}
use dinix.Protocol.Enums.{Reply, reply_value}
use dinix.Stream.Feed.{feed_stream, feed_IsStream}
use dinix.Client.Task.{on_ack, on_stop, nothing, Pending, Client}
use dinix.Client.Reader.{answer, read_round}
use dinix.Client.Commands.{fresh, request, begin_request, after_send, after_round}
use dinix.Client.Callers.{
  Callers, begun, Reach, here, next, begins, SendBreaks, for_holder, answer-holder,
  cancelled-misdelivers,
}
use dinix.Client.Spending.{Spends}
use dinix.Client.Waking.{Rounds, told, read_round-Spends, request-Wakes}
use dinix.Tests.Daemon.{holding, idle, packets, all_packets, sent_bytes, payload}

sends : SendBreaks feed_stream
sends bs s s' e h = cc

abbrev alone : Callers feed_stream
alone = record { client = idle (sent_bytes 50 []); holder = none }

abbrev waiting : Callers feed_stream
waiting = begun on_stop (begin_request payload on_stop alone.client)

waiting-Reach : Reach x86_64 3 false alone waiting
waiting-Reach = next here (begins payload on_stop refl)

answer-holder_example :
    answer {S = feed_stream} x86_64 3 waiting.client.pending 50
    ≡ for_holder x86_64 3 waiting.holder 50
answer-holder_example = answer-holder x86_64 3 sends refl waiting-Reach 50

-- The client of a caller that stops a service and gives up.
abbrev given_up : Client feed_stream
given_up = record (idle (sent_bytes 50 (50 ∷ []))) { pending = some (fresh on_stop) }

cancelled-misdelivers_example :
    (c2 : Client feed_stream) × Reach x86_64 3 true
      (record { client = idle (sent_bytes 50 (50 ∷ [])); holder = none })
      (record { client = given_up; holder = none })
    × (request x86_64 3 payload on_ack given_up ≡ (ok nothing, c2))
    × ((after_round x86_64 3 (read_round x86_64 3 c2)).closed ≡ true)
unfolding begin_request after_send reply_value
cancelled-misdelivers_example =
    cancelled-misdelivers feed_stream feed_IsStream x86_64 3 (idle (sent_bytes 50 (50 ∷ [])))
      given_up payload payload on_stop packets Reply.ack 50 [] refl (inl refl) (omega arith)
      (record {
        is_open = refl;
        sent = given_up.stream;
        sending = refl;
        answering = refl;
        is_reply = omega arith;
        packets = all_packets;
        enough = omega arith;
      })

quiet : feed_IsStream.ending ≢ out_of_fuel
quiet e = cc

read_round-Spends_example : Spends feed_stream feed_IsStream 10 1 (read_round x86_64 11)
read_round-Spends_example = read_round-Spends quiet x86_64 10 11 (omega arith)

-- A caller whose daemon goes away in the middle of its answer.
abbrev cut_off : Client feed_stream
cut_off = record (idle (65 ∷ 1 ∷ 0 ∷ [])) { pending = some (fresh on_stop) }

request-Wakes_example :
    (c' : Client feed_stream) × (p : Pending) × Rounds x86_64 4 c' cut_off
    × (c'.pending ≡ some p)
    × (p.handler ≡ on_stop)
    × (p.done ≡ true)
    × (request x86_64 4 payload on_stop (idle (65 ∷ 1 ∷ 0 ∷ []))
        ≡ (told p.error p.result, record c' { pending = none }))
request-Wakes_example =
    request-Wakes x86_64 4 feed_IsStream payload on_stop (idle (65 ∷ 1 ∷ 0 ∷ []))
      (holding (65 ∷ 1 ∷ 0 ∷ [])) quiet refl refl (omega arith)

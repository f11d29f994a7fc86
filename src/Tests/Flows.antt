-- ===== src/Tests/Flows.antt =====
-- Whole methods of dinit-client/src/dinit_client/client.py in concrete sessions.
use dinix.Shared.{
  ℕ, zero, suc, ◌⊎◌, ◌≡◌, refl, Bool, true, false, List, [], ◌∷◌, ◌++◌, arith, inl, inr, ◌<◌,
  if◌then◌else◌,
}
use dinix.Exceptions.{Result, ok, err, dependents, protocol_error}
use dinix.Struct.{Bytes, x86_64, word, pack, le_bytes, ordered}
use dinix.Utf8.{Str, encode, is_scalar, encode_char}
use dinix.Protocol.Enums.{Reply, reply_value, Command, command_value, reply_enum}
use dinix.Protocol.Records.{Version, Event, env_event}
use dinix.Protocol.Requests
use dinix.Protocol.Requests.{service_name, is_empty}
use dinix.Stream.Feed.{Feed, feed_stream, feed_IsStream}
use dinix.Client.Task.{nothing, Client}
use dinix.Client.Reader.{read_round}
use dinix.Client.Commands.{connect, reload, stop}
use dinix.Client.Framing.{packet_bytes, buffered}
use dinix.Client.Answers.Handlers.{record_bytes, handles_bytes}
use dinix.Client.Flows.{Resolved, Acked, reload-Acked, stop-dependents}
use dinix.Client.Negotiation.{version_bytes, Offered, connect-accepts, connect-refuses}
use dinix.Client.Invariant.{Grows, read_round-Grows}
use dinix.Tests.Daemon.{
  db_record, idle, packets, all_packets, sent_bytes, answered_client, payload, answers,
}

-- "db"
abbrev pub db : Str
db = 100 ∷ 98 ∷ []

-- The answer to `find_or_load` behind an event, and the answer to the command behind it.
abbrev pub whole : ℕ → Bytes → Bytes
whole reply rest = sent_bytes 59 (record_bytes x86_64 db_record ++ sent_bytes reply rest)

abbrev request_packet : Command → Bytes
request_packet cmd = command_value cmd ∷ 2 ∷ 0 ∷ db

pub db-Resolved :
    (load : Bool) (reply : ℕ) (rest : Bytes)
    → Resolved feed_stream feed_IsStream x86_64
        (idle (whole reply rest))
        3
        db
        load
        packets
        db_record
        (sent_bytes reply rest)
unfolding service_name is_empty encode encode_char is_scalar pack word le_bytes ordered
db-Resolved load reply rest = record {
  payload = request_packet (if load then Command.loadservice else Command.findservice);
  encoded = unfold Requests.find_or_load in refl;
  small = omega arith;
  answered =
      unfold reply_value in
      answers _ 59 (record_bytes x86_64 db_record ++ sent_bytes reply rest) (omega arith);
}

-- The state behind the first answer.
abbrev second_client : Bytes → Client feed_stream
second_client bs = record (idle bs) { events = buffered [] packets }

abbrev both_client : Bytes → Feed → Client feed_stream
both_client bs s = record (idle bs) { stream = s; events = buffered (buffered [] packets) packets }

db-Acked :
    (reply : Reply) (rest : Bytes) (packet : Result Bytes) (payload : Bytes)
    → (reply ≡ Reply.ack) ⊎ (reply ≡ Reply.alreadyss)
    → reply_value reply < 100
    → packet ≡ ok payload
    → Acked feed_stream feed_IsStream x86_64
        (second_client (whole (reply_value reply) rest))
        3
        packet
        packets
        reply
        rest
        (sent_bytes (reply_value reply) rest)
db-Acked reply rest packet payload ack small e = record {
  payload = payload;
  encoded = e;
  is_ack = ack;
  answered = λ s h. record {
    is_open = refl;
    sent = s;
    sending = refl;
    answering = h;
    is_reply = small;
    packets = all_packets;
    enough = omega arith;
  };
}

reload-Acked_example :
    (s' : Feed) × (reload x86_64 3 db (idle (whole 50 (9 ∷ [])))
      ≡ (ok nothing, both_client (whole 50 (9 ∷ [])) s'))
    × (s'.bytes ≡ 9 ∷ [])
unfolding reply_value Requests.service_handle_command pack word le_bytes ordered
reload-Acked_example =
    reload-Acked feed_stream feed_IsStream x86_64 3 (idle (whole 50 (9 ∷ []))) db packets packets
      db_record Reply.ack (sent_bytes 50 (9 ∷ [])) (9 ∷ []) (db-Resolved false 50 (9 ∷ []))
      (db-Acked Reply.ack (9 ∷ []) _ (command_value Command.reloadservice ∷ 7 ∷ 0 ∷ 0 ∷ 0 ∷ [])
        (inl refl) (omega arith) refl)

-- Two dependents.
abbrev pub dependent_bytes : Bytes
dependent_bytes =
    word x86_64 8 2 ++ (handles_bytes feed_stream feed_IsStream x86_64 (8 ∷ 9 ∷ []) ++ (9 ∷ []))

stop-dependents_example :
    (s' : Feed) × (stop x86_64 3 db false false (idle (whole 65 dependent_bytes))
      ≡ (err (dependents (8 ∷ 9 ∷ [])), both_client (whole 65 dependent_bytes) s'))
    × (s'.bytes ≡ 9 ∷ [])
unfolding reply_value Requests.start_stop Requests.start_stop_flags pack word le_bytes ordered
stop-dependents_example =
    stop-dependents feed_stream feed_IsStream x86_64 3 (idle (whole 65 dependent_bytes)) db false
      false packets packets db_record (8 ∷ 9 ∷ [])
      (command_value Command.stopservice ∷ 2 ∷ 7 ∷ 0 ∷ 0 ∷ 0 ∷ []) (sent_bytes 65 dependent_bytes)
      (9 ∷ []) (db-Resolved false 65 dependent_bytes) refl (omega arith)
      (omega arith, (omega arith, tt))
      λ s h. record {
        is_open = refl;
        sent = s;
        sending = refl;
        answering = h;
        is_reply = omega arith;
        packets = all_packets;
        enough = omega arith;
      }

-- A client whose buffer is full.
abbrev repeat : ℕ → List Event
repeat zero = []
repeat (suc n) = env_event (record { name = []; overridden = true }) ∷ repeat n

abbrev full : Client feed_stream
full = record (idle (packet_bytes packets)) { events = repeat 64 }

read_round-Grows_example : Grows full (read_round x86_64 3 full).1
read_round-Grows_example = read_round-Grows x86_64 3 full

-- A daemon that speaks protocol 6 to every client from protocol 1 on.
abbrev offer : Version
offer = record { min_compat = 1; protocol = 6 }

abbrev greeting : Bytes
greeting = version_bytes x86_64 offer ++ (9 ∷ [])

offer-Offered :
    Offered feed_stream feed_IsStream x86_64
      (idle (sent_bytes 58 greeting))
      3
      packets
      offer
      (9 ∷ [])
unfolding reply_value
offer-Offered = record {
  compat_fits = omega arith;
  protocol_fits = omega arith;
  answered = answers _ 58 greeting (omega arith);
}

connect-accepts_example :
    (s' : Feed) × (connect x86_64 3 2 (idle (sent_bytes 58 greeting))
      ≡ (ok tt, record (answered_client (sent_bytes 58 greeting) s') { version = 6 }))
    × (s'.bytes ≡ 9 ∷ [])
connect-accepts_example =
    connect-accepts feed_stream feed_IsStream x86_64 3 2 (idle (sent_bytes 58 greeting)) packets
      offer (9 ∷ []) offer-Offered (omega arith) (omega arith)

-- The application asks for protocol 7 at least.
connect-refuses_example :
    (s' : Feed) × (connect x86_64 3 7 (idle (sent_bytes 58 greeting))
      ≡ (err protocol_error, answered_client (sent_bytes 58 greeting) s'))
    × (s'.bytes ≡ 9 ∷ [])
connect-refuses_example =
    connect-refuses feed_stream feed_IsStream x86_64 3 7 (idle (sent_bytes 58 greeting)) packets
      offer (9 ∷ []) offer-Offered (inr (omega arith))

abbrev some_user : ℕ
some_user = 1000

-- ===== src/Tests/Daemon.antt =====
-- What the daemon sends in the sessions: the bytes are given, and come in pieces of at most three.
use dinix.Shared.{◌≤◌, ℕ, refl, false, none, List, [], ◌∷◌, ◌++◌, arith, All, ◌<◌}
use dinix.Shared.Int.{pos}
use dinix.Struct.{Bytes, x86_64, fits_signed}
use dinix.Protocol.Enums.{ServiceState, StoppedReason, ServiceEvent, reply_enum}
use dinix.Protocol.Records.{ServiceRecord}
use dinix.Protocol.Replies.{is_execfailed}
use dinix.Protocol.Replies.Status.{WireStatus, running}
use dinix.Stream.Feed.{Feed, feed_stream, feed_IsStream}
use dinix.Client.Task.{Client}
use dinix.Client.Framing.{Packet, packet_bytes, buffered, IsPacket}
use dinix.Client.Framing.Packets.{event_packet, IsPacket-event5, IsPacket-other}
use dinix.Client.Answers.{Answered}

abbrev pub holding : Bytes → Feed
holding bs = record { piece = 2; bytes = bs }

-- A client of protocol 5 with nothing in flight.
abbrev pub idle : Bytes → Client feed_stream
idle bs = record {
  stream = holding bs;
  pending = none;
  closed = false;
  version = 5;
  events = [];
  events_closed = false;
}

-- A running service, its event, and a packet of a kind that is skipped.
abbrev pub up : WireStatus
up = record {
  state = ServiceState.started;
  target_state = ServiceState.started;
  flags = 0x10;
  stop_reason = StoppedReason.normal;
  detail = running (pos 42) (0 ∷ 0 ∷ 0 ∷ 0 ∷ []);
  seconds = pos 0;
  nanoseconds = pos 0;
}

abbrev pub up_legacy : WireStatus
up_legacy = record up { detail = running (pos 42) [] }

abbrev pub started : Packet
started = event_packet feed_stream x86_64 101 7 ServiceEvent.started up 5

abbrev pub unknown : Packet
unknown = record { kind = 150; payload = 1 ∷ 2 ∷ []; event = none }

abbrev pub packets : List Packet
packets = started ∷ unknown ∷ []

pub all_packets : All (IsPacket feed_stream x86_64 5) packets
unfolding is_execfailed fits_signed
all_packets = (
  IsPacket-event5 feed_stream x86_64 5 7 ServiceEvent.started up (omega arith)
      (refl, refl, refl, refl) (refl, refl),
  (IsPacket-other feed_stream x86_64 5 150 (1 ∷ 2 ∷ []) (omega arith), tt),
)

abbrev pub sent_bytes : ℕ → Bytes → Bytes
sent_bytes reply rest = packet_bytes packets ++ (reply ∷ rest)

-- The client once its request has been answered.
abbrev pub answered_client : Bytes → Feed → Client feed_stream
answered_client bs s = record (idle bs) { stream = s; events = buffered [] packets }

-- A request of one byte, of which the client reads the answer behind the packets.
abbrev pub payload : Bytes
payload = 1 ∷ []

pub answers_within :
    (fuel : ℕ) (sent : Bytes) (reply : ℕ) (rest : Bytes)
    → 3 ≤ fuel
    → reply < 100
    → Answered feed_stream feed_IsStream x86_64
        (idle (sent_bytes reply rest))
        sent
        fuel
        packets
        reply
        rest
answers_within fuel sent reply rest rounds small = record {
  is_open = refl;
  sent = holding (sent_bytes reply rest);
  sending = refl;
  answering = refl;
  is_reply = small;
  packets = all_packets;
  enough = omega arith;
}

pub answers :
    (sent : Bytes) (reply : ℕ) (rest : Bytes)
    → reply < 100
    → Answered feed_stream feed_IsStream x86_64
        (idle (sent_bytes reply rest))
        sent
        3
        packets
        reply
        rest
answers sent reply rest small = answers_within 3 sent reply rest (omega arith) small

-- The record of the service `db`.
abbrev pub db_record : ServiceRecord
db_record = record { state = ServiceState.stopped; handle = 7; target_state = ServiceState.started }

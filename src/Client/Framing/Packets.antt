-- ===== src/Client/Framing/Packets.antt =====
-- The information packets that the daemon sends, as events: `_dispatch_info` of
-- dinit-client/src/dinit_client/client.py.
use dinix.Shared.{ℕ, ◌^◌, ◌<◌, ◌≡◌, none, some, ◌∷◌, ◌++◌, arith, lt→ltb}
use dinix.Exceptions.{ok}
use dinix.Struct.{Abi, Bytes, word}
use dinix.Protocol.Enums.{ServiceEvent, service_event_value}
use dinix.Protocol.Records.{service_event, env_event, ServiceEventInfo, EnvEvent}
use dinix.Protocol.Replies.{decode_service_event5, decode_legacy_event, decode_env_event}
use dinix.Protocol.Replies.Status.{WireStatus, status_of, status_bytes, DetailFits, TimesFit}
use dinix.Protocol.Replies.Events.{decode_service_event-bytes}
use dinix.Stream.{SocketStream}
use dinix.Client.Task.{Client}
use dinix.Client.Reader.{dispatch_info, push_event}
use dinix.Client.Framing.{Packet, IsPacket, add_event}

module _ (S : SocketStream) (abi : Abi) where
  -- A decoded event of each kind goes to the buffer; other kinds are skipped.
  dispatch-event5 :
      (payload : Bytes) (e : ServiceEventInfo) (c : Client S)
      → decode_service_event5 abi payload ≡ ok e
      → dispatch_info abi 101 payload c
        ≡ (ok tt, record c { events = add_event c.events (some (service_event e)) })
  unfolding dispatch_info push_event
  dispatch-event5 payload e c h = rw h

  dispatch-legacy :
      (payload : Bytes) (e : ServiceEventInfo) (c : Client S)
      → c.version < 5
      → decode_legacy_event abi payload ≡ ok e
      → dispatch_info abi 100 payload c
        ≡ (ok tt, record c { events = add_event c.events (some (service_event e)) })
  unfolding dispatch_info push_event
  dispatch-legacy payload e c v h = rw (lt→ltb c.version 5 v) (rw h)

  dispatch-env :
      (payload : Bytes) (e : EnvEvent) (c : Client S)
      → decode_env_event abi payload ≡ ok e
      → dispatch_info abi 102 payload c
        ≡ (ok tt, record c { events = add_event c.events (some (env_event e)) })
  unfolding dispatch_info push_event
  dispatch-env payload e c h = rw h

  dispatch-other :
      (kind : ℕ) (payload : Bytes) (c : Client S)
      → 102 < kind
      → dispatch_info abi kind payload c ≡ (ok tt, c)
  unfolding dispatch_info
  dispatch-other kind payload c h = ground arith

  abbrev pub event_packet : ℕ → ℕ → ServiceEvent → WireStatus → ℕ → Packet
  event_packet kind handle event w version = record {
    kind = kind;
    payload = word abi 4 handle ++ (service_event_value event ∷ status_bytes abi w version);
    event =
        some
          (service_event (record { handle = handle; event = event; status = status_of w version }));
  }

  -- An information packet 101 with a handle of 32 bits, an event and a status in the layout of
  -- protocol 5 is dispatched, under every protocol version, as the service event that it was built
  -- from.
  pub IsPacket-event5 :
      (version handle : ℕ) (event : ServiceEvent) (w : WireStatus)
      → handle < 2 ^ 32
      → DetailFits abi w 5 w.detail
      → TimesFit abi w
      → IsPacket S abi version (event_packet 101 handle event w 5)
  IsPacket-event5 version handle event w hh hd ht = record {
    is_info = omega arith;
    dispatched = λ c v.
        dispatch-event5 _ _ c (
          unfold decode_service_event5 in decode_service_event-bytes abi 5 handle event w hh hd ht);
  }

  -- Before protocol 5, an information packet 100 with a handle of 32 bits, an event and a status
  -- in the layout of protocol 4 is dispatched as the service event that it was built from.
  pub IsPacket-legacy :
      (version handle : ℕ) (event : ServiceEvent) (w : WireStatus)
      → version < 5
      → handle < 2 ^ 32
      → DetailFits abi w 4 w.detail
      → TimesFit abi w
      → IsPacket S abi version (event_packet 100 handle event w 4)
  IsPacket-legacy version handle event w old hh hd ht = record {
    is_info = omega arith;
    dispatched = λ c v.
        dispatch-legacy _ _ c (omega arith)
          (unfold decode_legacy_event in decode_service_event-bytes abi 4 handle event w hh hd ht);
  }

  pub IsPacket-other :
      (version kind : ℕ) (payload : Bytes)
      → 102 < kind
      → IsPacket S abi version (record { kind = kind; payload = payload; event = none })
  IsPacket-other version kind payload h = record {
    is_info = omega arith;
    dispatched = λ c v. dispatch-other kind payload c h;
  }

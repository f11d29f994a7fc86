-- ===== src/Tests/Replies.antt =====
-- The decoders of dinit-client/src/dinit_client/protocol.py on concrete packets.
use dinix.Shared.{◌≡◌, refl, [], ◌∷◌, ◌++◌, arith}
use dinix.Shared.Int.{pos, negsuc}
use dinix.Exceptions.{ok, value_error}
use dinix.Exceptions.OnlyRaises.{OnlyRaises}
use dinix.Struct.{Bytes, x86_64, word, fits_signed}
use dinix.Protocol.Enums.{
  ServiceState, StoppedReason, ServiceEvent, service_event_value, reply_enum, stopped_reason_enum,
}
use dinix.Protocol.Replies.{is_execfailed, decode_status, decode_service_event}
use dinix.Protocol.Replies.Status.{
  WireStatus, exited, exec_failed, status_bytes, status_of, decode_status-status_bytes,
}
use dinix.Protocol.Replies.Bounds.{decode_status-OnlyRaises}
use dinix.Protocol.Replies.Events.{decode_service_event-bytes}

-- A service that ended with status 3 on its own, and one that could not be executed.
abbrev ended : WireStatus
ended = record {
  state = ServiceState.stopped;
  target_state = ServiceState.stopped;
  flags = 0x08;
  stop_reason = StoppedReason.terminated;
  detail = exited (pos 1) (pos 3);
  seconds = pos 1700000000;
  nanoseconds = pos 5;
}

abbrev not_executed : WireStatus
not_executed = record {
  state = ServiceState.stopped;
  target_state = ServiceState.stopped;
  flags = 0;
  stop_reason = StoppedReason.execfailed;
  detail = exec_failed 3 (pos 2) (0 ∷ 0 ∷ 0 ∷ 0 ∷ []);
  seconds = negsuc 0;
  nanoseconds = pos 0;
}

decode_status-status_bytes_example :
    decode_status x86_64 (status_bytes x86_64 ended 6) 6 ≡ ok (status_of ended 6)
unfolding is_execfailed fits_signed
decode_status-status_bytes_example =
    decode_status-status_bytes x86_64 ended 6 (refl, refl, omega arith, refl, refl, refl)
      (refl, refl)

decode_service_event-bytes_example :
    decode_service_event x86_64 5 (
      word x86_64 4 7
      ++ (service_event_value ServiceEvent.failedstart ∷ status_bytes x86_64 not_executed 5))
    ≡ ok
        (record { handle = 7; event = ServiceEvent.failedstart; status = status_of not_executed 5 })
unfolding is_execfailed fits_signed
decode_service_event-bytes_example =
    decode_service_event-bytes x86_64 5 7 ServiceEvent.failedstart not_executed (omega arith)
      (refl, omega arith, refl, refl) (refl, refl)

-- A stop reason that is not in the enumeration.
abbrev strange : Bytes
strange = 0 ∷ 0 ∷ 0 ∷ 99 ∷ 0 ∷ 0 ∷ 0 ∷ 0 ∷ 0 ∷ 0 ∷ 0 ∷ 0 ∷ 0 ∷ 0 ∷ []

decode_status-OnlyRaises_example : OnlyRaises value_error (decode_status x86_64 strange 5)
decode_status-OnlyRaises_example =
    decode_status-OnlyRaises x86_64 strange 5 (omega arith) (omega arith)

-- ===== src/Tests/Listing.antt =====
-- `list_services` of dinit-client/src/dinit_client/client.py in a concrete session.
use dinix.Shared.{◌≡◌, refl, [], ◌∷◌, arith}
use dinix.Exceptions.{ok}
use dinix.Struct.{Bytes, x86_64, word, le_bytes, ordered, of_signed, fits_signed}
use dinix.Utf8.{encode, encode_char, is_scalar}
use dinix.Protocol.Enums.{reply_value}
use dinix.Protocol.Requests
use dinix.Protocol.Replies.{is_execfailed}
use dinix.Stream.Feed.{Feed, feed_stream, feed_IsStream}
use dinix.Client.Task.{services}
use dinix.Client.Reader.{list_status_size}
use dinix.Client.Commands.{list_services}
use dinix.Client.Framing.{buffered}
use dinix.Client.Listing.{
  Entry, IsEntry, entered, all_buffered, entries_bytes, list_services-entries,
}
use dinix.Tests.Daemon.{idle, up, packets, all_packets, sent_bytes, answers_within}

-- "db", with two packets behind it, and "w".
abbrev pub db_entry : Entry
db_entry = record { name = 100 ∷ 98 ∷ []; raw = 100 ∷ 98 ∷ []; info = up; behind = packets }

abbrev pub w_entry : Entry
w_entry = record { name = 119 ∷ []; raw = 119 ∷ []; info = up; behind = [] }

pub db_entry-IsEntry : IsEntry feed_stream x86_64 5 db_entry
unfolding encode encode_char is_scalar list_status_size word le_bytes ordered of_signed fits_signed
    is_execfailed
db_entry-IsEntry = record {
  encoded = refl;
  sized = refl;
  fits = (refl, refl, refl, refl);
  times = (refl, refl);
  packets = all_packets;
}

pub w_entry-IsEntry : IsEntry feed_stream x86_64 5 w_entry
unfolding encode encode_char is_scalar list_status_size word le_bytes ordered of_signed fits_signed
    is_execfailed
w_entry-IsEntry = record {
  encoded = refl;
  sized = refl;
  fits = (refl, refl, refl, refl);
  times = (refl, refl);
  packets = tt;
}

abbrev pub listing : Bytes
listing = entries_bytes feed_stream x86_64 5 db_entry (w_entry ∷ []) (9 ∷ [])

list_services-entries_example :
    (s' : Feed) × (list_services x86_64 6 (idle (sent_bytes 62 listing)) ≡ (
      ok (services (entered 5 (db_entry ∷ w_entry ∷ []) [])),
      record (idle (sent_bytes 62 listing)) {
        stream = s';
        events = all_buffered (buffered [] packets) (db_entry ∷ w_entry ∷ []);
      },
    ))
    × (s'.bytes ≡ 9 ∷ [])
unfolding reply_value
list_services-entries_example =
    list_services-entries feed_stream feed_IsStream x86_64 6 (idle (sent_bytes 62 listing)) packets
      db_entry (w_entry ∷ []) (9 ∷ []) (omega arith) (db_entry-IsEntry, (w_entry-IsEntry, tt))
      (answers_within 6 (Requests.list_services 5) 62 listing (omega arith) (omega arith))

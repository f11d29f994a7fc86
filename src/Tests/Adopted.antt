-- ===== src/Tests/Adopted.antt =====
-- The loops of tui/src/dinix_tui/app.py over names, on the client of
-- dinit-client/src/dinit_client/client.py in concrete sessions.
use dinix.Shared.{
  ℕ, ◌+◌, ◌<◌, ◌^◌, ◌≡◌, refl, sym, ap, ◌∙◌, Bool, true, false, List, [], ◌∷◌, ◌++◌, arith, inl,
  inr, ◌⊎◌, Bool-cases, if◌then◌else◌,
}
use dinix.Shared.Dict.{key_eq, key_eq_iff}
use dinix.Exceptions.{ok, err, service_not_found}
use dinix.Struct.{Bytes, x86_64, pack, word, le_bytes, ordered}
use dinix.Utf8.{Str, encode, encode_char, is_scalar}
use dinix.Protocol.Enums.{Reply, reply_value, Command, command_value}
use dinix.Protocol.Records.{Event, ServiceRecord, ServiceEventInfo, service_event}
use dinix.Protocol.Requests
use dinix.Protocol.Requests.{service_name, is_empty}
use dinix.Stream.Feed.{Feed, feed_stream, feed_IsStream}
use dinix.Client.Task.{nothing, on_record, Client}
use dinix.Client.Commands
use dinix.Client.Reader.{simple_error}
use dinix.Client.Framing.{buffered}
use dinix.Client.Answers.{Answered}
use dinix.Client.Answers.Handlers.{record_bytes}
use dinix.Client.Answers.Refusals.{request-Unexpected}
use dinix.Client.Flows.{Resolved, reload-Acked, find_or_load-Resolved}
use dinix.Tui.State.{contains}
use dinix.Tui.Act.{for_each}
use dinix.Tui.Interfaces.{World}
use dinix.Tui.Worker.{load_service, consume_event}
use dinix.Tui.Reload.{reload_each}
use dinix.Tui.Adopting.{reload_all, AnswerAlong, SameButScreen, reload_each-reload_all}
use dinix.Tui.Loading.{LoadsAlong, Distinct, with_event, for_each-load_service}
use dinix.Tui.Connected.{connected}
use dinix.Tests.Daemon.{db_record, idle, packets, all_packets, sent_bytes}
use dinix.Tests.Machine.{memory, w_name}
use dinix.Tests.Flows.{db}
use dinix.Tests.Wired.{wired, silent}

-- A client with these events, of which the stream holds what the daemon sends.
abbrev client_at : List Event → Feed → Client feed_stream
client_at events s = record (idle []) { stream = s; events = events }

abbrev more : List Event → List Event
more events = buffered events packets

given :
    (events : List Event) (s : Feed) (payload : Bytes) (reply : ℕ) (rest : Bytes)
    → feed_IsStream.incoming s ≡ sent_bytes reply rest
    → reply < 100
    → Answered feed_stream feed_IsStream x86_64 (client_at events s) payload 3 packets reply rest
given events s payload reply rest h small = record {
  is_open = refl;
  sent = s;
  sending = refl;
  answering = h;
  is_reply = small;
  packets = all_packets;
  enough = omega arith;
}

abbrev packet_of : Bool → Str → Bytes
packet_of load (c ∷ []) =
    command_value (if load then Command.loadservice else Command.findservice) ∷ 1 ∷ 0 ∷ c ∷ []
packet_of load name =
    command_value (if load then Command.loadservice else Command.findservice) ∷ 2 ∷ 0 ∷ name

db-encoded : (load : Bool) → Requests.find_or_load x86_64 db load ≡ ok (packet_of load db)
unfolding Requests.find_or_load service_name is_empty encode encode_char is_scalar pack word
    le_bytes ordered
db-encoded load = refl

w-encoded : (load : Bool) → Requests.find_or_load x86_64 w_name load ≡ ok (packet_of load w_name)
unfolding Requests.find_or_load service_name is_empty encode encode_char is_scalar pack word
    le_bytes ordered
w-encoded load = refl

resolved :
    (load : Bool) (name : Str) (payload : Bytes) (r : ServiceRecord) (events : List Event)
    (s : Feed) (rest : Bytes)
    → Requests.find_or_load x86_64 name load ≡ ok payload
    → r.handle < 2 ^ 32
    → feed_IsStream.incoming s ≡ sent_bytes 59 (record_bytes x86_64 r ++ rest)
    → Resolved feed_stream feed_IsStream x86_64 (client_at events s) 3 name load packets r rest
unfolding reply_value
resolved load name payload r events s rest e small h = record {
  payload = payload;
  encoded = e;
  small = small;
  answered = given events s payload 59 (record_bytes x86_64 r ++ rest) h (omega arith);
}

-- The daemon does not know "w", and reloads "db".
abbrev known_bytes : Bytes
known_bytes = sent_bytes 59 (record_bytes x86_64 db_record ++ sent_bytes 50 (9 ∷ []))

abbrev adopted : World (connected feed_stream x86_64 3) (memory silent)
adopted = wired 3 (sent_bytes 60 known_bytes)

w-missing :
    (s' : Feed) × (Commands.reload {S = feed_stream} x86_64 3 w_name
        (client_at [] (idle (sent_bytes 60 known_bytes)).stream)
      ≡ (err service_not_found, client_at (more []) s'))
    × (feed_IsStream.incoming s' ≡ known_bytes)
unfolding reply_value Commands.reload Commands.on_handle Commands.handle_for Commands.find_or_load
    simple_error
w-missing =
    let s = (idle (sent_bytes 60 known_bytes)).stream in
    let (s', e, left) =
      request-Unexpected feed_stream feed_IsStream x86_64 3 (client_at [] s)
        (packet_of false w_name) on_record packets Reply.noservice known_bytes (λ x. cc)
        (given [] s _ 60 known_bytes refl (omega arith)) in
    (s', rw (w-encoded false) (rw e), left)

db-reloaded :
    (events : List Event) (s : Feed)
    → feed_IsStream.incoming s ≡ known_bytes
    → (s' : Feed) × (Commands.reload {S = feed_stream} x86_64 3 db (client_at events s)
        ≡ (ok nothing, client_at (more (more events)) s'))
      × (feed_IsStream.incoming s' ≡ 9 ∷ [])
unfolding reply_value Requests.service_handle_command pack word le_bytes ordered
db-reloaded events s h =
    reload-Acked feed_stream feed_IsStream x86_64 3 (client_at events s) db packets packets
      db_record Reply.ack (sent_bytes 50 (9 ∷ [])) (9 ∷ [])
      (resolved false db (packet_of false db) db_record events s (sent_bytes 50 (9 ∷ []))
        (db-encoded false) (omega arith) h)
      (record {
        payload = command_value Command.reloadservice ∷ 7 ∷ 0 ∷ 0 ∷ 0 ∷ [];
        encoded = refl;
        is_ack = inl refl;
        answered = λ s2 h2. given (more events) s2 _ 50 (9 ∷ []) h2 (omega arith);
      })

both-Answer : AnswerAlong (connected feed_stream x86_64 3) (w_name ∷ db ∷ []) adopted.dinit
both-Answer =
    let (s1, e1, left1) = w-missing in
    let (s2, e2, left2) = db-reloaded (more []) s1 left1 in (rw e1 refl, (rw e1 (rw e2 tt), tt))

reload_each-reload_all_example :
    (w' : World (connected feed_stream x86_64 3) (memory silent)) × (reload_each
        (w_name ∷ db ∷ [])
        0
        adopted
      ≡ (
        ok (0 + (reload_all (connected feed_stream x86_64 3) (w_name ∷ db ∷ []) adopted.dinit).1),
        w',
      ))
    × (w'.dinit ≡ (reload_all (connected feed_stream x86_64 3) (w_name ∷ db ∷ []) adopted.dinit).0)
    × SameButScreen adopted w'
reload_each-reload_all_example = reload_each-reload_all (w_name ∷ db ∷ []) 0 adopted both-Answer

-- The daemon loads both, under handles of their own.
abbrev handle_of : Str → ℕ
handle_of name = if key_eq name db then 7 else 9

abbrev w_record : ServiceRecord
w_record = record db_record { handle = 9 }

abbrev w_bytes : Bytes
w_bytes = sent_bytes 59 (record_bytes x86_64 w_record ++ (9 ∷ []))

abbrev loading : World (connected feed_stream x86_64 3) (memory silent)
loading = wired 3 (sent_bytes 59 (record_bytes x86_64 db_record ++ w_bytes))

abbrev names : List Str
names = db ∷ w_name ∷ []

both-Load : LoadsAlong (connected feed_stream x86_64 3) handle_of names loading.dinit
unfolding key_eq
both-Load =
    let (s1, e1, left1) =
      find_or_load-Resolved feed_stream feed_IsStream x86_64 3 loading.dinit db true packets
        db_record w_bytes
        (resolved true db (packet_of true db) db_record [] loading.dinit.stream w_bytes
          (db-encoded true) (omega arith) refl) in
    let (s2, e2, left2) =
      find_or_load-Resolved feed_stream feed_IsStream x86_64 3 (client_at (more []) s1) w_name true
        packets w_record (9 ∷ [])
        (resolved true w_name (packet_of true w_name) w_record (more []) s1 (9 ∷ [])
          (w-encoded true) (omega arith) left1) in
    (
      db_record,
      client_at (more []) s1,
      rw e1,
      refl,
      (w_record, client_at (more (more [])) s2, rw e2, refl, tt),
    )

one_of : (m : Str) → contains names m ≡ true → (db ≡ m) ⊎ (w_name ≡ m)
unfolding contains
one_of m h = elim (Bool-cases (key_eq db m)) [
  | inl e ↦ inl ((key_eq_iff db m).0 e)
  | inr other ↦ inr ((key_eq_iff w_name m).0 (ground (arith, h, other)))
]

handles :
    (m n : Str)
    → (db ≡ m) ⊎ (w_name ≡ m)
    → (db ≡ n) ⊎ (w_name ≡ n)
    → handle_of m ≡ handle_of n
    → m ≡ n
unfolding key_eq
handles m n (inl a) (inl b) e = sym a ∙ b
handles m n (inl a) (inr b) e = absurd (omega (arith, ap handle_of a, ap handle_of b, e))
handles m n (inr a) (inl b) e = absurd (omega (arith, ap handle_of a, ap handle_of b, e))
handles m n (inr a) (inr b) e = sym a ∙ b

names-Distinct : Distinct handle_of names
names-Distinct = record { distinct = λ m n hm hn e. handles m n (one_of m hm) (one_of n hn) e }

for_each-load_service_example :
    (w' : World (connected feed_stream x86_64 3) (memory silent)) × (for_each names load_service
        loading
      ≡ (ok tt, w'))
    × ((name : Str) (e : ServiceEventInfo)
          (v : World (connected feed_stream x86_64 3) (memory silent))
        → contains names name ≡ true
        → e.handle ≡ handle_of name
        → v.app.handle_names ≡ w'.app.handle_names
        → consume_event (service_event e) v ≡ (ok tt, with_event name e v))
for_each-load_service_example =
    for_each-load_service handle_of names names-Distinct loading both-Load

-- ===== src/Stream/Ingest/Tests.antt =====
-- Two ticks and DONE over a connection, and a tick without a header (server/stream/ingest.go).
use marbles_game.Prelude.{Str, [], arith, refl, some, str_eq_inst, true, ◌++◌, ◌∷◌, ◌≡◌}
use marbles_game.Stream.Message.{encode, read_full, read_message}
use marbles_game.Prelude.Dict.{delete, insert, lookup}
use marbles_game.Stream.Hub.{Hub, close_round, new_hub, open_round, set_at}
use marbles_game.Stream.Live.{fanout, finish, new_round, write_tick}
use marbles_game.Stream.Ingest.{get_u64, handle, handle_conn, relay, relay_round}
use marbles_game.Stream.Ingest.Relay.{handle_conn-stream, header_message, stream, tick_message}

abbrev id : Str
id = 9 ∷ 0 ∷ 0 ∷ 0 ∷ 0 ∷ 0 ∷ 0 ∷ 0 ∷ []

-- A hub with a closed round.
abbrev before : Hub
before = record {
  rounds = record { id = 4; live_round = record new_round { is_done = true } } ∷ [];
  live = [];
}

handle_conn-stream_example :
    handle_conn (id ++ stream (1 ∷ []) ((2 ∷ []) ∷ (3 ∷ 4 ∷ []) ∷ []) (some (77 ∷ []))) before
    ≡ record before {
      rounds =
          before.rounds
          ++ record {
            id = 9;
            live_round = record {
              header = some (header_message (1 ∷ []));
              ticks = tick_message (2 ∷ []) ∷ tick_message (3 ∷ 4 ∷ []) ∷ [];
              is_done = true;
              subscribers = [];
            };
          }
            ∷ [];
    }
unfolding get_u64 lookup
handle_conn-stream_example =
    handle_conn-stream before id (1 ∷ []) ((2 ∷ []) ∷ (3 ∷ 4 ∷ []) ∷ []) (some (77 ∷ [])) refl
      (omega arith) (omega arith, (omega arith, tt))

no_header : handle_conn (id ++ encode (tick_message (2 ∷ []))) new_hub ≡ record new_hub {
  rounds = record { id = 9; live_round = record new_round { is_done = true } } ∷ [];
}
unfolding handle_conn encode read_full get_u64 finish fanout handle write_tick relay read_message
    relay_round open_round close_round set_at lookup insert delete
no_header = refl

-- A second simulation for a round that is live is turned away.
already_live :
    handle_conn (id ++ encode (header_message [])) (record new_hub { live = (9, 0) ∷ [] })
    ≡ record new_hub { live = (9, 0) ∷ [] }
unfolding handle_conn encode read_full get_u64 relay_round open_round lookup
already_live = refl

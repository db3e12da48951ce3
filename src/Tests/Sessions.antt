-- ===== src/Tests/Sessions.antt =====
-- The theorems on the session table, the handlers of packets and the names of applications at
-- concrete inputs.
use protocol_design.Prelude.{
  ℕ, suc, ◌≡◌, ◌↔◌, refl, ap, subst, [], ◌∷◌, true, false, none, some, arith, if◌then◌else◌,
}
use protocol_design.Prelude.Assoc.{lookup, insert, erase, nat_eq}
use protocol_design.Prelude.Int.{negsuc}
use protocol_design.Protocol.{Packet, zero_header, heartbeat}
use protocol_design.Gateway.Sessions.{
  SessionTable, SessionRuntime, Route, empty, new_session, create_spawning_session, bind_apphost,
  transition_to_closing, active, closing,
}
use protocol_design.Gateway.Sessions.Soundness.{
  IsSound, empty-IsSound, create_spawning_session-IsSound, bind_apphost-IsSound,
}
use protocol_design.Gateway.Sessions.Closing.{bind_apphost-closing}
use protocol_design.Gateway.Packets.{
  is_valid_app_name, has_dot_dot, valid_chars, parse_spawn_app_name,
}
use protocol_design.Gateway.AppName.{IsAppName, is_valid_app_name_iff, parse-pack_spawn_app_body}
use protocol_design.Client.Requests.{pack_spawn_app_body}
use protocol_design.Common.MessageHandler.{HandlerFn}

-- Session 1 of client 7, whose process is 42 and whose AppHost has the handle 9.
abbrev pub created : SessionTable
created = record {
  next_session_id = 2;
  by_session = (1, new_session 1 7 (b'a' ∷ []) [] 10 100) ∷ [];
  by_client = (7, 1) ∷ [];
  by_apphost = [];
  by_pid = [];
}

created_run : create_spawning_session 7 (b'a' ∷ []) [] 10 100 empty ≡ (1, created)
unfolding create_spawning_session insert erase
created_run = refl

pub created-IsSound : IsSound created
created-IsSound = subst IsSound (ap (λ r. r.1) created_run) (
    create_spawning_session-IsSound 7 (b'a' ∷ []) [] 10 100 empty (omega arith) (omega arith)
      empty-IsSound)

client_indexed : lookup 7 created.by_client ≡ some 1
unfolding lookup
client_indexed = refl

-- The same session with its AppHost bound.
abbrev pub bound : SessionTable
bound = record created {
  by_session =
      (
        1,
        record (new_session 1 7 (b'a' ∷ []) [] 10 100) {
          apphost_conn = 9;
          state = active;
          last_apphost_seen = 20;
        },
      )
      ∷ [];
  by_apphost = (9, 1) ∷ [];
}

bound_run : bind_apphost 1 9 20 created ≡ (true, bound)
unfolding bind_apphost lookup insert erase
bound_run = refl

pub bound-IsSound : IsSound bound
bound-IsSound =
    subst IsSound (ap (λ r. r.1) bound_run)
      (bind_apphost-IsSound created 1 created-IsSound 9 20 (omega arith))

apphost_indexed : lookup 9 bound.by_apphost ≡ some 1
unfolding lookup
apphost_indexed = refl

abbrev pub bound_route : Route
bound_route = record { client_conn = 7; apphost_conn = 9 }

pub closing_run : (transition_to_closing 1 bound).0 ≡ some (bound_route, negsuc 0)
unfolding transition_to_closing lookup
closing_run = refl

abbrev closing_table : SessionTable
closing_table = record created {
  by_session = (1, record (new_session 1 7 (b'a' ∷ []) [] 10 100) { state = closing }) ∷ [];
}

abbrev closing_session : SessionRuntime
closing_session = record (new_session 1 7 (b'a' ∷ []) [] 10 100) { state = closing }

closing_there : lookup 1 closing_table.by_session ≡ some closing_session
unfolding lookup
closing_there = refl

bind_closing_example :
    ((bind_apphost 1 9 20 closing_table).0 ≡ true)
    × ((transition_to_closing 1 (bind_apphost 1 9 20 closing_table).1).0
        ≡ some (bound_route, negsuc 0))
bind_closing_example = bind_apphost-closing 1 9 20 closing_table closing_session closing_there refl

valid_name_example :
    (is_valid_app_name (b'a' ∷ b'.' ∷ b'2' ∷ []) ≡ true) ↔ IsAppName (b'a' ∷ b'.' ∷ b'2' ∷ [])
valid_name_example = is_valid_app_name_iff (b'a' ∷ b'.' ∷ b'2' ∷ [])

parent_name_refused : is_valid_app_name (b'.' ∷ b'.' ∷ []) ≡ false
unfolding is_valid_app_name has_dot_dot valid_chars
parent_name_refused = refl

spawn_request_example :
    parse_spawn_app_name
      (record { header = zero_header; body = pack_spawn_app_body (b'a' ∷ b'2' ∷ []) })
    ≡ (if is_valid_app_name (b'a' ∷ b'2' ∷ []) then some (b'a' ∷ b'2' ∷ []) else none)
spawn_request_example = parse-pack_spawn_app_body zero_header (b'a' ∷ b'2' ∷ []) (omega arith)

abbrev count : HandlerFn ℕ
count pkt n = suc n

abbrev beat : Packet
beat = record { header = record zero_header { cmd_type = heartbeat }; body = [] }

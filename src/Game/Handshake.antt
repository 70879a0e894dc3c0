-- ===== src/Game/Handshake.antt =====
-- The handshake of two clients, from the challenge that one answers to its place at the other.
use easygametools.Base.{
  ◌≤◌, ◌<◌, ◌≡◌, refl, sym, ap, ◌∙◌, true, Option, none, some, List, [], ◌∷◌, ◌++◌, arith, length,
  lt→ltb,
}
use easygametools.Base.Int.{ℤ}
use easygametools.Base.Text.{Bytes, strcmp_eq_refl}
use easygametools.Base.Table.{Table, lookup, entry, bytes_eq}
use easygametools.Base.Outcome.{ok}
use easygametools.Xml.{Node}
use easygametools.Xml.User.{User}
use easygametools.Xml.ServerGame.{ServerGame}
use easygametools.Web.Request.{Internet, c_string}
use easygametools.Directory.{Directory, validate_user}
use easygametools.Protocol.{
  ProtocolMessage, bare_message, challenge_response, MessageId, proto_challenge_response_message,
  proto_user,
}
use easygametools.Protocol.Packets.{Wire, create_message, decode_message, decode-create_message}
use easygametools.Game.State.{Game, Player, Packet, send_to, execute, challenge_response_task}
use easygametools.Game.Network.{send_protocol_object, send_protocol_message, find_player}
use easygametools.Game.Handlers.{
  user_of, copy_username, to_long, admit, admitted, admit_validated, answer_validation,
  handle_challenge, handle_challenge_response, run_handler,
}
use easygametools.Game.Dispatch.{handle_protocol_message, dispatch, dispatch_unknown, temp_player}
use easygametools.Game.Players.{player_at, after-players, admit-player_at, find_player-none}
use easygametools.Game.Admission.{welcome-players}
use easygametools.Game.Gate.{find_player-rest}

-- What a user's name and id must be to come through a message unchanged: the id fits a `long`, and the
-- name is a C string of less than 255 bytes.
pub record IsSendable (i : ℤ) (name : Bytes) : Type 0 where
  pub fits : to_long i ≡ i
  pub short : length name < 255
  pub closed : c_string name ≡ name

-- The user with an id and a name, and the response that tells of it.
abbrev pub named : ℤ → Bytes → User
named i name = record { user_id = some i; username = some name }

abbrev pub response_of : ℤ → Bytes → ProtocolMessage
response_of i name = record (bare_message challenge_response) {
  response_extension = some (record { user_id = i; username = name });
}

user_of-named :
    (i : ℤ) (name : Bytes)
    → IsSendable i name
    → user_of (record { user_id = i; username = name }) ≡ ok (named i name)
unfolding user_of copy_username
user_of-named i name h = rw (lt→ltb (length name) 255 h.short, h.closed, h.fits) refl

handle_challenge-sends :
    (w : Wire) (me from : Player) (i : ℤ) (name : Bytes) (s : Game)
    → me.user ≡ some (named i name)
    → s.has_peer ≡ true
    → (handle_challenge w (some me) from s).1.calls
      ≡ s.calls ++ send_to from.client_guid (create_message w (response_of i name)) ∷ []
unfolding handle_challenge proto_challenge_response_message proto_user send_protocol_object
    send_protocol_message
handle_challenge-sends w me from i name s is_user peer = rw (is_user, peer) refl

dispatch_unknown-response :
    (i : MessageId) (m : ProtocolMessage) (p : Packet) (t : Game)
    → i ≡ challenge_response
    → t.has_pool ≡ true
    → (dispatch_unknown i m p t).1.tasks
      ≡ t.tasks ++ challenge_response_task t.directory m t.my_player (temp_player p) ∷ []
unfolding dispatch_unknown execute
dispatch_unknown-response i m p t is_response pool = ground arith

find_player-directory : (key : Bytes) (s : Game) → (find_player key s).1.directory ≡ s.directory
unfolding find_player
find_player-directory key s = ground arith

module _ (net : Internet) (parse_xml : Bytes → Option (List Node)) (w : Wire) where
  takes_response :
      (m : ProtocolMessage) (p : Packet) (s : Game)
      → decode_message w p.content ≡ ok m
      → m.message_id ≡ challenge_response
      → player_at p.guid s ≡ none
      → s.has_pool ≡ true
      → (handle_protocol_message w p s).1.tasks
        ≡ s.tasks ++ challenge_response_task s.directory m s.my_player (temp_player p) ∷ []
  unfolding handle_protocol_message dispatch
  takes_response m p s good is_response new pool =
      let same = find_player-rest p.guid s in
      rw (good, (find_player-none p.guid s new).0)
        (cc (
          dispatch_unknown-response m.message_id m p (find_player p.guid s).1 is_response
              (same.3 ∙ pool),
          same.0,
          same.4,
          find_player-directory p.guid s,
        ))

  admit_validated-same :
      (known : User) (i : ℤ) (name : Bytes) (me : Option Player) (from : Player) (s : Game)
      → known.username ≡ some name
      → player_at from.client_guid (admit_validated w known (named i name) me from s).1
        ≡ some (admitted known from)
  unfolding admit_validated
  admit_validated-same known i name me from s is_name =
      simp (is_name, strcmp_eq_refl name)
        (ap (λ (t : Table Bytes (Option Player)). entry (lookup from.client_guid t))
            (after-players (admit known from s).0 _ (admit known from s).1
              (λ _. welcome-players w me from (admit known from s).1))
          ∙ admit-player_at known from s)

  handle_challenge_response-admits :
      (d : Directory) (g : ServerGame) (known : User) (i : ℤ) (name : Bytes) (me : Option Player)
      (from : Player) (s : Game)
      → IsSendable i name
      → s.the_game ≡ some g
      → validate_user net parse_xml i g.game_id d ≡ ok (some known)
      → known.username ≡ some name
      → player_at from.client_guid
          (handle_challenge_response net parse_xml w (some d) (response_of i name) me from s).1
        ≡ some (admitted known from)
  unfolding handle_challenge_response answer_validation
  handle_challenge_response-admits d g known i name me from s sendable plays confirms is_name =
      simp (user_of-named i name sendable, plays, confirms)
        (admit_validated-same known i name me from s is_name)

  -- A guest who is challenged answers with its name and id. The host takes that packet, though the guest
  -- is not yet a player, and hands the response to the pool with its directory client. When the task
  -- runs, in whatever state that plays `g`, and the directory knows the id in that game under the same
  -- name, then the guest is a player there, authenticated, as the directory's user.
  pub handshake-admits :
      (d : Directory) (g : ServerGame) (known : User) (i : ℤ) (name : Bytes) (me from : Player)
      (p : Packet) (guest host later : Game)
      → 1 ≤ w.user_packet
      → w.user_packet < 128
      → IsSendable i name
      → me.user ≡ some (named i name)
      → guest.has_peer ≡ true
      → p.content ≡ create_message w (response_of i name)
      → player_at p.guid host ≡ none
      → host.has_pool ≡ true
      → host.directory ≡ some d
      → later.the_game ≡ some g
      → validate_user net parse_xml i g.game_id d ≡ ok (some known)
      → known.username ≡ some name
      → ((handle_challenge w (some me) from guest).1.calls
          ≡ guest.calls ++ send_to from.client_guid p.content ∷ [])
        × ((handle_protocol_message w p host).1.tasks
            ≡ host.tasks
              ++ challenge_response_task
                  (some d)
                  (response_of i name)
                  host.my_player
                  (temp_player p)
                ∷ [])
        × (player_at p.guid
              (run_handler net parse_xml w
                (challenge_response_task
                  (some d)
                  (response_of i name)
                  host.my_player
                  (temp_player p))
                later).1
            ≡ some (admitted known (temp_player p)))
  unfolding run_handler
  handshake-admits d g known i name me from p guest host later lo hi sendable is_user peer sent new
        pool asks plays confirms is_name =
      (
        handle_challenge-sends w me from i name guest is_user peer
            ∙ ap (λ content. guest.calls ++ send_to from.client_guid content ∷ []) (sym sent),
        takes_response (response_of i name) p host
              (ap (decode_message w) sent ∙ decode-create_message w (response_of i name) lo hi) refl
              new pool
            ∙ ap
                (λ o.
                  host.tasks
                  ++ challenge_response_task o (response_of i name) host.my_player (temp_player p)
                    ∷ [])
                asks,
        handle_challenge_response-admits d g known i name host.my_player (temp_player p) later
            sendable plays confirms is_name,
      )

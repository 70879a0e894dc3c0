-- ===== src/Game/Gate.antt =====
-- What a packet of a sender without a player can bring about.
use mathlib.Core.List.{append-nil}
use easygametools.Base.{
  inl, inr, ◌≡◌, refl, sym, ap, ◌∙◌, Bool, true, false, none, some, List, [], ◌∷◌, ◌++◌, arith, ◌≤◌,
  All, length,
}
use easygametools.Base.Text.{Bytes}
use easygametools.Base.Table.{lookup-insert, bytes_eq}
use easygametools.Base.Outcome.{Result-cases, ok}
use easygametools.Xml.User.{User}
use easygametools.Protocol.{
  ProtocolMessage, MessageId, or_default_user, challenge, challenge_response, challenge_accepted,
  new_host, user,
}
use easygametools.Protocol.Packets.{Wire, decode_message}
use easygametools.Game.State.{
  Game, Packet, Task, enqueue, execute, challenge_accepted_task, challenge_response_task,
  challenge_task,
}
use easygametools.Game.Network.{find_player}
use easygametools.Game.Handlers.{user_of, admitted, handle_challenge_accepted}
use easygametools.Game.Dispatch.{handle_protocol_message, dispatch, dispatch_unknown, temp_player}
use easygametools.Game.Players.{player_at, find_player-none, admit-player_at}

-- A handler of the handshake, for the sender of a packet.
abbrev pub IsHandshake : Packet → Task → Type 0
IsHandshake p (challenge_accepted_task m me from) = from ≡ temp_player p
IsHandshake p (challenge_response_task directory m me from) = from ≡ temp_player p
IsHandshake p (challenge_task m me from) = from ≡ temp_player p
IsHandshake p _ = ⊥

-- The client after the packet: one task more at most, and no new player, call or event.
pub record IsGated (p : Packet) (s t : Game) : Type 0 where
  pub new_tasks : List Task
  pub tasks : t.tasks ≡ s.tasks ++ new_tasks
  pub handshakes : All (IsHandshake p) new_tasks
  pub at_most_one : length new_tasks ≤ 1
  pub players : (guid : Bytes) → player_at guid t ≡ player_at guid s
  pub calls : t.calls ≡ s.calls
  pub events : t.events ≡ s.events

find_player-same :
    (key guid : Bytes) (s : Game) → player_at guid (find_player key s).1 ≡ player_at guid s
unfolding find_player
find_player-same key guid s =
    ground (arith, lookup-insert key guid none s.game_players, bytes_eq.beq_iff key guid)

pub find_player-rest :
    (key : Bytes) (s : Game)
    → (((find_player key s).1).tasks ≡ s.tasks)
      × (((find_player key s).1).calls ≡ s.calls)
      × (((find_player key s).1).events ≡ s.events)
      × (((find_player key s).1).has_pool ≡ s.has_pool)
      × (((find_player key s).1).my_player ≡ s.my_player)
unfolding find_player
find_player-rest key s = (ground arith, ground arith, ground arith, ground arith, ground arith)

enqueue-IsGated :
    (b : Bool) (task : Task) (p : Packet) (s t : Game)
    → IsHandshake p task
    → IsGated p s t
    → t.tasks ≡ s.tasks
    → IsGated p s (enqueue b task t).1
enqueue-IsGated false task p s t h g e = g
enqueue-IsGated true task p s t h g e = record {
  new_tasks = task ∷ [];
  tasks = ap (λ ts. ts ++ task ∷ []) e;
  handshakes = (h, tt);
  at_most_one = omega arith;
  players = g.players;
  calls = g.calls;
  events = g.events;
}

dispatch_unknown-IsGated :
    (i : MessageId) (m : ProtocolMessage) (p : Packet) (s t : Game)
    → IsGated p s t
    → t.tasks ≡ s.tasks
    → IsGated p s (dispatch_unknown i m p t).1
unfolding dispatch_unknown execute
dispatch_unknown-IsGated new_host m p s t g e = g
dispatch_unknown-IsGated user m p s t g e = g
dispatch_unknown-IsGated challenge m p s t g e = enqueue-IsGated t.has_pool _ p s t refl g e
dispatch_unknown-IsGated challenge_response m p s t g e =
    enqueue-IsGated t.has_pool _ p s t refl g e
dispatch_unknown-IsGated challenge_accepted m p s t g e =
    enqueue-IsGated t.has_pool _ p s t refl g e

find_player-IsGated : (p : Packet) (s : Game) → IsGated p s (find_player p.guid s).1
find_player-IsGated p s =
    let (tasks, calls, events, _, _) = find_player-rest p.guid s in
    record {
      new_tasks = [];
      tasks = tasks ∙ sym (append-nil s.tasks);
      handshakes = tt;
      at_most_one = omega arith;
      players = λ guid. find_player-same p.guid guid s;
      calls = calls;
      events = events;
    }

same-IsGated : (p : Packet) (s : Game) → IsGated p s s
same-IsGated p s = record {
  new_tasks = [];
  tasks = sym (append-nil s.tasks);
  handshakes = tt;
  at_most_one = omega arith;
  players = λ guid. refl;
  calls = refl;
  events = refl;
}

-- A packet of a sender without a player, whatever it holds and however its handling ends, makes one
-- task at most, which is a handler of the handshake for that sender. No player comes or goes, RakNet
-- is not called, and the listener hears nothing.
pub handle_protocol_message-IsGated :
    (w : Wire) (p : Packet) (s : Game)
    → player_at p.guid s ≡ none
    → IsGated p s (handle_protocol_message w p s).1
unfolding handle_protocol_message dispatch
handle_protocol_message-IsGated w p s new = elim (Result-cases (decode_message w p.content)) [
  | inr (e, bad) ↦ rw bad (same-IsGated p s)
  | inl (m, good) ↦
      rw (good, (find_player-none p.guid s new).0)
        (dispatch_unknown-IsGated m.message_id m p s (find_player p.guid s).1
          (find_player-IsGated p s) (find_player-rest p.guid s).0)
]

dispatch_unknown-accepted :
    (i : MessageId) (m : ProtocolMessage) (p : Packet) (t : Game)
    → i ≡ challenge_accepted
    → t.has_pool ≡ true
    → (dispatch_unknown i m p t).1.tasks
      ≡ t.tasks ++ challenge_accepted_task m t.my_player (temp_player p) ∷ []
unfolding dispatch_unknown execute
dispatch_unknown-accepted i m p t e pool = ground arith

-- Any sender without a player can make itself one: it sends a `CHALLENGEACCEPTED` message that nobody
-- asked for, with whatever name and id. In whatever state the pool then runs the task, the sender is
-- an authenticated player, as the user that it claims to be, and no directory is asked.
pub accept_unasked :
    (w : Wire) (p : Packet) (m : ProtocolMessage) (u : User) (s later : Game)
    → decode_message w p.content ≡ ok m
    → m.message_id ≡ challenge_accepted
    → user_of (or_default_user m.accepted_extension) ≡ ok u
    → player_at p.guid s ≡ none
    → s.has_pool ≡ true
    → ((handle_protocol_message w p s).1.tasks
        ≡ s.tasks ++ challenge_accepted_task m s.my_player (temp_player p) ∷ [])
      × (player_at p.guid (handle_challenge_accepted m (temp_player p) later).1
          ≡ some (admitted u (temp_player p)))
unfolding handle_protocol_message handle_challenge_accepted dispatch
accept_unasked w p m u s later good is_accepted claims new pool =
    let same = find_player-rest p.guid s in
    (
      rw (good, (find_player-none p.guid s new).0)
          (cc (
            dispatch_unknown-accepted m.message_id m p (find_player p.guid s).1 is_accepted
                (same.3 ∙ pool),
            same.0,
            same.4,
          )),
      rw claims (admit-player_at u (temp_player p) later),
    )

-- ===== src/Game/State.antt =====
-- The state of a `GameClient`, and the actions on it: game_client/game_client/GameClient.h, Player.h,
-- ClientFuture.h, GameClientEvent.h.
--
-- An action returns the state beside its result, also where it throws. A guid is the text that RakNet
-- prints for it. What the client asks of RakNet is kept in `calls`, what it hands to the thread pool
-- in `tasks`, and what the listener is told in `events`, each in order.
use easygametools.Base.{ℕ, Bool, true, false, Option, none, some, List, [], ◌∷◌, ◌++◌}
use easygametools.Base.Int.{ℤ, pos}
use easygametools.Base.Text.{Bytes}
use easygametools.Base.Table.{Table}
use easygametools.Base.Outcome.{Error, Result, ok, err, fatal, null_pointer}
use easygametools.Xml.User.{User}
use easygametools.Xml.ServerGame.{ServerGame}
use easygametools.Directory.{Directory}
use easygametools.Protocol.{ProtocolMessage}

pub data ConnectionState : Type 0 where
  connected authenticated ready disconnected : ConnectionState

pub record Player : Type 0 where
  pub user : Option User
  pub connection_state : ConnectionState
  pub client_guid : Bytes
  pub host : Option Bytes
  pub port : ℤ

-- `Player()`
abbrev pub new_player : Player
new_player = record {
  user = none;
  connection_state = disconnected;
  client_guid = [];
  host = none;
  port = pos 0;
}

-- `GameClientEventType`
pub data EventType : Type 0 where
  client_started connection_accepted connection_requested new_connection connection_lost : EventType
  connection_terminated host_changed chat_message object_message : EventType
  directory_client_connected directory_client_error : EventType

-- `NetworkErrorState`
pub data ErrorState : Type 0 where
  error_ok cant_register_client cant_generate_security_keys invalid_argument : ErrorState
  startup_failed : ErrorState

pub data FutureCode : Type 0 where
  future_ok future_error : FutureCode

-- `ClientFuture`
pub record Future : Type 0 where
  pub complete : Bool
  pub code : FutureCode

-- The calls of RakNet that change its state or the network.
pub data Call : Type 0 where
  send_to : Bytes → Bytes → Call
  broadcast : Bytes → Call
  add_participant : Bytes → Call
  add_to_ban_list cancel_connection_attempt close_connection : Bytes → Call
  close_all_connections : Call

-- A packet of RakNet: the sender, and its bytes.
pub record Packet : Type 0 where
  pub guid : Bytes
  pub host : Bytes
  pub port : ℤ
  pub content : Bytes

-- What the thread pool is given: `InternalClientEventTask` with one of three handlers, its message,
-- the client's own player and the sender; `GameClientEventTask`; `DirectoryUpdateTask`; and
-- `DirectoryAdoptTask`.
pub data Task : Type 0 where
  challenge_accepted_task challenge_task : ProtocolMessage → Option Player → Player → Task
  challenge_response_task : Option Directory → ProtocolMessage → Option Player → Player → Task
  event_task : EventType → Option Packet → Task
  update_task : Option ServerGame → Option Directory → Bool → Task
  adopt_task : Option Directory → ℤ → Option Bytes → ℤ → Bool → Task

pub record Game : Type 0 where
  pub directory : Option Directory
  pub the_game : Option ServerGame
  pub my_user : Option User
  pub has_peer : Bool
  pub has_mesh : Bool
  pub has_graph : Bool
  pub last_updated : ℕ
  pub error_state : ErrorState
  pub has_listener : Bool
  pub startup_future : Option Future
  pub has_dispatcher : Bool
  pub has_pool : Bool
  pub hostname : Option Bytes
  pub port : ℤ
  pub my_player : Option Player
  pub game_players : Table Bytes (Option Player)
  pub creator : Bool
  pub tasks : List Task
  pub calls : List Call
  pub events : List EventType

-- `GameClient()`, before anything has been asked of it.
abbrev pub new_game : Game
new_game = record {
  directory = none;
  the_game = none;
  my_user = none;
  has_peer = false;
  has_mesh = false;
  has_graph = false;
  last_updated = 0;
  error_state = error_ok;
  has_listener = false;
  startup_future = none;
  has_dispatcher = false;
  has_pool = false;
  hostname = none;
  port = pos 0;
  my_player = none;
  game_players = [];
  creator = false;
  tasks = [];
  calls = [];
  events = [];
}

-- An action on the client.
abbrev pub Action : Type 0 → Type 0
Action A = Game → Result A × Game

abbrev pub after : {A B : Type 0} → Result A → (A → Action B) → Action B
after (ok a) f s = f a s
after (err e) f s = (err e, s)

infixl 5 ◌>>=◌ ◌>>◌
abbrev pub ◌>>=◌ : {A B : Type 0} → Action A → (A → Action B) → Action B
◌>>=◌ m f s = let (r, s') = m s in after r f s'

abbrev pub ◌>>◌ : {B : Type 0} → Action (Unit {0}) → Action B → Action B
m >> k = m >>= λ _. k

abbrev pub pure : {A : Type 0} → A → Action A
pure a s = (ok a, s)

abbrev pub raise : {A : Type 0} → Error → Action A
raise e s = (err e, s)

-- A call that changes nothing here.
abbrev pub lift : {A : Type 0} → Result A → Action A
lift r s = (r, s)

abbrev pub gets : {A : Type 0} → (Game → A) → Action A
gets f s = (ok (f s), s)

abbrev pub modify : (Game → Game) → Action (Unit {0})
modify f s = (ok tt, f s)

-- `Object<T>::operator ->` on a null pointer throws.
abbrev pub deref : {A : Type 0} → Option A → Action A
deref none = raise (fatal "NullPointerException")
deref (some a) = pure a

-- A call through a plain pointer, `rakPeer` or `fcm2`: on a null pointer it is undefined behaviour.
abbrev pub call : Bool → Call → Action (Unit {0})
call true c s = (ok tt, record s { calls = s.calls ++ c ∷ [] })
call false c s = (err null_pointer, s)

-- `dispatchPool->execute(task)`, by whether there is a pool.
abbrev pub enqueue : Bool → Task → Action (Unit {0})
enqueue true t s = (ok tt, record s { tasks = s.tasks ++ t ∷ [] })
enqueue false t s = (err (fatal "NullPointerException"), s)

unfoldable pub execute : Task → Action (Unit {0})
execute t s = enqueue s.has_pool t s

-- `ClientEventEmitter::fireEvent`, which tells the listener if there is one.
abbrev pub emit : Bool → EventType → Action (Unit {0})
emit true e s = (ok tt, record s { events = s.events ++ e ∷ [] })
emit false e s = (ok tt, s)

unfoldable pub fire_event : EventType → Action (Unit {0})
fire_event e s = emit s.has_listener e s

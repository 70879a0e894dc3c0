-- ===== src/Game/Players.antt =====
-- The players of a client, and the actions that leave them alone.
use easygametools.Base.{◌≡◌, refl, sym, ap, ◌∙◌, Bool, true, false, Option, none, some, arith}
use easygametools.Base.Text.{Bytes}
use easygametools.Base.Table.{Table, lookup, bytes_eq, lookup-insert_self, entry}
use easygametools.Base.Outcome.{Result, ok, err}
use easygametools.Xml.User.{User}
use easygametools.Protocol.{ProtocolMessage}
use easygametools.Protocol.Packets.{Wire}
use easygametools.Game.State.{Game, Player, Action, ◌>>=◌, lift, after, deref, call, Call}
use easygametools.Game.Network.{
  send_protocol_object, send_protocol_message, boot_player, ban, add_player, find_player,
}
use easygametools.Game.Handlers.{admit, admitted}

-- The player with a guid: an entry with a null pointer is no player.
abbrev pub player_at : Bytes → Game → Option Player
player_at guid s = entry (lookup guid s.game_players)

-- Rules for a property of the state that an action leaves.
module _ {A B : Type 0} (Q : Game → Type 0) (f : A → Action B) (s : Game) where
  pub lift-state :
      (r : Result A) → Q s → ((a : A) → r ≡ ok a → Q (f a s).1) → Q ((lift r >>= f) s).1
  lift-state (ok a) before next = next a refl
  lift-state (err e) before next = before

  pub deref-state :
      (o : Option A) → Q s → ((a : A) → o ≡ some a → Q (f a s).1) → Q ((deref o >>= f) s).1
  deref-state none before next = before
  deref-state (some a) before next = next a refl

-- The players of a state.
abbrev pub SamePlayers : Game → Game → Type 0
SamePlayers s t = t.game_players ≡ s.game_players

call-players : (b : Bool) (c : Call) (s : Game) → SamePlayers s (call b c s).1
call-players true c s = refl
call-players false c s = refl

pub add_player-players : (p : Player) (s : Game) → SamePlayers s (add_player p s).1
unfolding add_player
add_player-players p s = call-players s.has_mesh _ s

pub send_protocol_object-players :
    (w : Wire) (m : ProtocolMessage) (guid : Bytes) (s : Game)
    → SamePlayers s (send_protocol_object w m guid s).1
unfolding send_protocol_object send_protocol_message
send_protocol_object-players w m guid s = call-players s.has_peer _ s

pub find_player-none :
    (guid : Bytes) (s : Game)
    → player_at guid s ≡ none
    → ((find_player guid s).0 ≡ ok none) × (player_at guid (find_player guid s).1 ≡ none)
unfolding find_player
find_player-none guid s h = ground (arith, lookup-insert_self guid none s.game_players)

ban-players : (guid : Bytes) (s : Game) → SamePlayers s (ban guid s).1
unfolding ban
ban-players guid s = ground arith

pub boot_player-none :
    (p : Player) (s : Game)
    → player_at p.client_guid s ≡ none
    → player_at p.client_guid (boot_player p s).1 ≡ none
unfolding boot_player
boot_player-none p s h =
    let (found, still) = find_player-none p.client_guid s h in
    rw found (
      ap (λ (t : Table Bytes (Option Player)). entry (lookup p.client_guid t))
        (ban-players p.client_guid (find_player p.client_guid s).1)
      ∙ still)

pub admit-player_at :
    (u : User) (from : Player) (s : Game)
    → player_at from.client_guid (admit u from s).1 ≡ some (admitted u from)
unfolding admit
admit-player_at u from s =
    ap entry (lookup-insert_self from.client_guid (some (admitted u from)) s.game_players)

-- A statement about the player with a guid, if there is one.
abbrev pub Comes : Bytes → (Player → Type 0) → Game → Type 0
Comes guid E s = (p : Player) → player_at guid s ≡ some p → E p

pub Comes-none :
    (guid : Bytes) (E : Player → Type 0) (s : Game) → player_at guid s ≡ none → Comes guid E s
Comes-none guid E s new p h = cc

pub Comes-same :
    (guid : Bytes) (E : Player → Type 0) (s t : Game)
    → SamePlayers s t
    → Comes guid E s
    → Comes guid E t
Comes-same guid E s t same before p h =
    before p (ap (λ (x : Table Bytes (Option Player)). entry (lookup guid x)) (sym same) ∙ h)

pub deref-players :
    {A B : Type 0} (f : A → Action B) (s : Game) (o : Option A)
    → ((a : A) → SamePlayers s (f a s).1)
    → SamePlayers s ((deref o >>= f) s).1
deref-players f s none h = refl
deref-players f s (some a) h = h a

pub lift-players :
    {A B : Type 0} (f : A → Action B) (s : Game) (r : Result A)
    → ((a : A) → SamePlayers s (f a s).1)
    → SamePlayers s ((lift r >>= f) s).1
lift-players f s (err e) h = refl
lift-players f s (ok a) h = h a

pub after-players :
    {A B : Type 0} (r : Result A) (f : A → Action B) (s : Game)
    → ((a : A) → SamePlayers s (f a s).1)
    → SamePlayers s (after r f s).1
after-players (err e) f s h = refl
after-players (ok a) f s h = h a

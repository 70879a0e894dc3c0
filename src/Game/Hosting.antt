-- ===== src/Game/Hosting.antt =====
-- What `startGame` leaves where it returns.
use easygametools.Base.{
  ℕ, ◌%◌, ◌^◌, ◌≡◌, refl, sym, ap, ◌∙◌, Bool, true, false, Option, none, some, List, [], ◌∷◌, ◌++◌,
  inl, inr, Option-cases,
}
use easygametools.Base.Int.{pos}
use easygametools.Base.Text.{Bytes}
use easygametools.Base.Table.{insert, entry, bytes_eq, lookup-insert_self}
use easygametools.Base.Outcome.{Result, ok, err, fatal}
use easygametools.Xml.{Node}
use easygametools.Xml.ServerGame.{ServerGame}
use easygametools.Web.Request.{Internet}
use easygametools.Directory.{Directory, create_game}
use easygametools.Game.State.{
  Game, Player, Call, ConnectionState, authenticated, Action, ◌>>=◌, raise, lift, gets, deref, call,
  after, add_participant, Future, cant_register_client,
}
use easygametools.Game.Players.{player_at}
use easygametools.Game.Ports.{find_port-free}
use easygametools.Game.Lifecycle.{
  Rak, find_port, start_raknet, host_game, start_game, enter_game, resolve_host, seated, fail_start,
}

-- A chain that returns has returned at each step.
after-eq-ok :
    {A B : Type 0} (r : Result A) (f : A → Action B) (u t : Game) (b : B)
    → after r f u ≡ (ok b, t)
    → (a : A) × (r ≡ ok a) × (f a u ≡ (ok b, t))
after-eq-ok (ok a) f u t b h = (a, refl, h)
after-eq-ok (err e) f u t b h = cc

pub >>=-eq-ok :
    {A B : Type 0} (m : Action A) (f : A → Action B) (s t : Game) (b : B)
    → (m >>= f) s ≡ (ok b, t)
    → (a : A) × (u : Game) × (m s ≡ (ok a, u)) × (f a u ≡ (ok b, t))
>>=-eq-ok m f s t b h =
    let (a, e, h') = after-eq-ok (m s).0 f (m s).1 t b h in
    (a, (m s).1, ap (λ r. (r, (m s).1)) e, h')

-- Where the action returns, `P` holds of the result and of the state.
abbrev Returns : {B : Type 0} → Action B → Game → (B → Game → Type 0) → Type 0
Returns m s P = (b : _) (t : Game) → m s ≡ (ok b, t) → P b t

Returns-bind :
    {A B : Type 0} (m : Action A) (f : A → Action B) (s : Game) (P : B → Game → Type 0)
    → ((a : A) (u : Game) → m s ≡ (ok a, u) → Returns (f a) u P)
    → Returns (m >>= f) s P
Returns-bind m f s P next b t h = let (a, u, e, h') = >>=-eq-ok m f s t b h in next a u e b t h'

lift-eq-ok :
    {A : Type 0} (r : Result A) (s t : Game) (a : A) → lift r s ≡ (ok a, t) → (r ≡ ok a) × (s ≡ t)
lift-eq-ok r s t a h = (ap (λ p. p.0) h, ap (λ p. p.1) h)

deref-eq-ok :
    {A : Type 0} (o : Option A) (s t : Game) (a : A)
    → deref o s ≡ (ok a, t)
    → (o ≡ some a) × (s ≡ t)
deref-eq-ok none s t a h = cc
deref-eq-ok (some b) s t a h = (cc, ap (λ p. p.1) h)

call-eq-ok :
    (b : Bool) (c : Call) (s t : Game)
    → call b c s ≡ (ok tt, t)
    → t ≡ record s { calls = s.calls ++ c ∷ [] }
call-eq-ok true c s t h = sym (ap (λ p. p.1) h)
call-eq-ok false c s t h = cc

-- The client after its own player has entered.
record HasEntered (host : Bytes) (port : ℕ) (state : ConnectionState) (guid : Bytes) (s t : Game)
    : Type 0 where
  me : Player
  was : s.my_player ≡ some me
  left : t ≡ record s {
    my_player = some (seated host port state guid me);
    game_players = insert guid (some (seated host port state guid me)) s.game_players;
    calls = s.calls ++ add_participant guid ∷ [];
  }

enter_game-HasEntered :
    (host : Bytes) (port : ℕ) (state : ConnectionState) (guid : Bytes) (s t : Game)
    → enter_game host port state guid s ≡ (ok tt, t)
    → HasEntered host port state guid s t
unfolding enter_game
enter_game-HasEntered host port state guid s t h = elim (Option-cases s.my_player) [
  | inl nobody ↦ let h' = rw nobody at h in absurd cc
  | inr (me, is_me) ↦ record {
    me = me;
    was = is_me;
    left = call-eq-ok s.has_mesh _ _ t (rw is_me at h);
  }
]

-- The client hosts the game that the directory has made for its address.
pub record IsHosting (net : Internet) (parse_xml : Bytes → Option (List Node)) (rak : Rak)
    (t : Game) : Type 0 where
  pub host : Bytes
  pub port : ℕ
  pub directory : Directory
  pub game : ServerGame
  pub me : Player
  pub free : rak.port_in_use (port % 2 ^ 16) ≡ false
  pub created :
      create_game net parse_xml host (pos port) (rak.guid_of host (port % 2 ^ 16)) directory
      ≡ ok (some game)
  pub plays : t.the_game ≡ some game
  pub creates : t.creator ≡ true
  pub runs : t.has_dispatcher ≡ true
  pub is_me :
      t.my_player ≡ some (seated host port authenticated (rak.guid_of host (port % 2 ^ 16)) me)
  pub listed : player_at (rak.guid_of host (port % 2 ^ 16)) t ≡ t.my_player

module _ (net : Internet) (parse_xml : Bytes → Option (List Node)) (rak : Rak) where
  host_game-eq-ok :
      (created : Option ServerGame) (s t : Game)
      → host_game net parse_xml rak created s ≡ (ok tt, t)
      → (g : ServerGame) × (created ≡ some g)
        × (t ≡ record s { the_game = some g; creator = true; has_dispatcher = true })
  unfolding host_game
  host_game-eq-ok (some g) s t h = (g, refl, sym (ap (λ p. p.1) h))
  host_game-eq-ok none s t h =
      let (_, u, _, h') =
        >>=-eq-ok (fail_start net parse_xml cant_register_client)
          (λ _. raise (fatal "Can't create game")) s t tt h in
      absurd cc

  hosting :
      (host : Bytes) (port : ℕ) (d : Directory) (g : ServerGame) (s u v t : Game)
      → rak.port_in_use (port % 2 ^ 16) ≡ false
      → create_game net parse_xml host (pos port) (rak.guid_of host (port % 2 ^ 16)) d ≡ ok (some g)
      → u ≡ record s { the_game = some g; creator = true; has_dispatcher = true }
      → HasEntered host port authenticated (rak.guid_of host (port % 2 ^ 16)) u v
      → v ≡ t
      → IsHosting net parse_xml rak t
  hosting host port d g s u v t is_free asked hosts entered done =
      let e = sym done ∙ entered.left in
      record {
        host = host;
        port = port;
        directory = d;
        game = g;
        me = entered.me;
        free = is_free;
        created = asked;
        plays = ap (λ x. x.the_game) e ∙ ap (λ x. x.the_game) hosts;
        creates = ap (λ x. x.creator) e ∙ ap (λ x. x.creator) hosts;
        runs = ap (λ x. x.has_dispatcher) e ∙ ap (λ x. x.has_dispatcher) hosts;
        is_me = ap (λ x. x.my_player) e;
        listed =
            ap (player_at (rak.guid_of host (port % 2 ^ 16))) e
            ∙ ap entry (
                lookup-insert_self (rak.guid_of host (port % 2 ^ 16))
                  (some
                    (seated host port authenticated (rak.guid_of host (port % 2 ^ 16)) entered.me))
                  u.game_players)
            ∙ sym (ap (λ x. x.my_player) e);
      }

  -- Where `startGame` returns, the client plays the game that the directory has made for its host, its
  -- free port and its guid, as the creator; its own player has that address, is authenticated, and
  -- stands in the table under the guid.
  pub start_game-IsHosting :
      (host_name : Option Bytes) (desired_port : ℕ) (s t : Game) (f : Option Future)
      → start_game net parse_xml rak host_name desired_port s ≡ (ok f, t)
      → IsHosting net parse_xml rak t
  unfolding start_game
  start_game-IsHosting host_name desired_port s t f h =
      let P : Option Future → Game → Type 0 = λ f t. IsHosting net parse_xml rak t in
      Returns-bind (resolve_host net parse_xml host_name) _ s P
        (λ host s1 _.
          Returns-bind (lift (find_port rak.port_in_use (2 ^ 16) desired_port)) _ s1 P
            λ port s2 found.
              Returns-bind (start_raknet net parse_xml rak host port) _ s2 P λ _ s3 _.
                Returns-bind (gets (λ x. x.directory)) _ s3 P λ o s4 _.
                  Returns-bind (deref o) _ s4 P λ d s5 _.
                    Returns-bind
                      (lift (
                        create_game net parse_xml host (pos port) (rak.guid_of host (port % 2 ^ 16))
                          d))
                      _ s5 P
                      λ created s6 asked.
                        Returns-bind (host_game net parse_xml rak created) _ s6 P λ _ s7 hosted.
                          Returns-bind
                            (enter_game host port authenticated (rak.guid_of host (port % 2 ^ 16)))
                            (λ _. gets (λ x. x.startup_future)) s7 P
                            λ _ s8 entered f' t' done.
                              let (g, is_game, hosts) = host_game-eq-ok created s6 s7 hosted in
                              hosting host port d g s6 s7 s8 t'
                                (find_port-free rak.port_in_use (2 ^ 16) desired_port port
                                  (lift-eq-ok (find_port rak.port_in_use (2 ^ 16) desired_port) s1
                                    s2 port found).0)
                                ((lift-eq-ok _ s5 s6 created asked).0 ∙ ap ok is_game) hosts
                                (enter_game-HasEntered host port authenticated
                                  (rak.guid_of host (port % 2 ^ 16)) s7 s8 entered)
                                (ap (λ p. p.1) done))
        f t h

-- ===== src/Game/Admission.antt =====
-- Who gets into the table of players.
use easygametools.Base.{
  ◌≡◌, refl, sym, ap, ◌∙◌, Option, none, some, List, arith, inl, inr, Bool-cases,
}
use easygametools.Base.Int.{ℤ}
use easygametools.Base.Text.{Bytes, strcmp_eq, strcmp_eq_iff}
use easygametools.Base.Table.{bytes_eq}
use easygametools.Base.Outcome.{Error, ok, null_pointer, uninitialised, or_error}
use easygametools.Xml.{Node}
use easygametools.Xml.User.{User}
use easygametools.Xml.ServerGame.{ServerGame}
use easygametools.Web.Request.{Internet}
use easygametools.Directory.{Directory, validate_user}
use easygametools.Protocol.{ProtocolMessage, or_default_user, proto_challenge_accepted_message}
use easygametools.Protocol.Packets.{Wire}
use easygametools.Game.State.{Game, Player, ◌>>◌}
use easygametools.Game.Network.{boot_player, add_player}
use easygametools.Game.Handlers.{
  user_of, admit, admitted, welcome, admit_validated, answer_validation, handle_challenge_response,
}
use easygametools.Game.Players.{
  player_at, lift-state, deref-state, SamePlayers, add_player-players, send_protocol_object-players,
  boot_player-none, admit-player_at, Comes, Comes-none, Comes-same, deref-players, lift-players,
  after-players,
}

-- Why a player came in: the directory, asked by the client that the handler was made with for the
-- game that is played, knows the user whose id the sender claims, and under the name that it claims.
pub record IsValidated (net : Internet) (parse_xml : Bytes → Option (List Node))
    (directory : Option Directory) (m : ProtocolMessage) (from : Player) (s : Game) (p : Player)
    : Type 0 where
  pub claimed : User
  pub known : User
  pub asked : Directory
  pub game : ServerGame
  pub user_id : ℤ
  pub name : Bytes
  pub claims : user_of (or_default_user m.response_extension) ≡ ok claimed
  pub asks : directory ≡ some asked
  pub plays : s.the_game ≡ some game
  pub identifies : claimed.user_id ≡ some user_id
  pub confirms : validate_user net parse_xml user_id game.game_id asked ≡ ok (some known)
  pub known_name : known.username ≡ some name
  pub claimed_name : claimed.username ≡ some name
  pub admits : p ≡ admitted known from

or_error-eq : {A : Type 0} (o : Option A) (e : Error) (a : A) → or_error o e ≡ ok a → o ≡ some a
or_error-eq o e a h = ground arith

module _ (w : Wire) where
  pub welcome-players :
      (me : Option Player) (from : Player) (s : Game) → SamePlayers s (welcome w me from s).1
  unfolding welcome
  welcome-players me from s =
      after-players (add_player from s).0 _ (add_player from s).1 (λ _. deref-players _ _ me λ me'.
        deref-players _ _ me'.user λ u.
          lift-players _ _ (proto_challenge_accepted_message u)
            λ m. send_protocol_object-players w m from.client_guid _)
      ∙ add_player-players from s

  -- The part of the evidence that the comparison of names gives.
  record SameName (known claimed : User) (from p : Player) : Type 0 where
    name : Bytes
    known_name : known.username ≡ some name
    claimed_name : claimed.username ≡ some name
    admits : p ≡ admitted known from

  admit_validated-Comes :
      (known claimed : User) (me : Option Player) (from : Player) (s : Game)
      → player_at from.client_guid s ≡ none
      → Comes from.client_guid
          (SameName known claimed from)
          (admit_validated w known claimed me from s).1
  unfolding admit_validated
  admit_validated-Comes known claimed me from s new =
      lift-state (Comes from.client_guid (SameName known claimed from)) _ s
        (or_error known.username null_pointer) (Comes-none _ _ s new)
        λ name e.
          lift-state (Comes from.client_guid (SameName known claimed from)) _ s
            (or_error claimed.username null_pointer) (Comes-none _ _ s new)
            λ name' e'. elim (Bool-cases (strcmp_eq name name')) [
              | inr differ ↦ rw differ (
                  Comes-none from.client_guid (SameName known claimed from) (boot_player from s).1
                    (boot_player-none from s new))
              | inl same ↦ rw same (
                  Comes-same from.client_guid (SameName known claimed from) (admit known from s).1
                    ((admit known from >> welcome w me from) s).1
                    (after-players (admit known from s).0 _ (admit known from s).1
                      (λ _. welcome-players me from (admit known from s).1))
                    λ p h. record {
                      name = name;
                      known_name = or_error-eq known.username null_pointer name e;
                      claimed_name =
                          or_error-eq claimed.username null_pointer name' e'
                          ∙ ap some (sym ((strcmp_eq_iff name name').0 same));
                      admits = ground (arith, admit-player_at known from s);
                    })
            ]

module _ (net : Internet) (parse_xml : Bytes → Option (List Node)) (w : Wire) where
  answer_validation-Comes :
      (o : Option User) (claimed : User) (me : Option Player) (from : Player) (s : Game)
      → player_at from.client_guid s ≡ none
      → Comes from.client_guid
          (λ p. (known : User) × (o ≡ some known) × SameName w known claimed from p)
          (answer_validation w o claimed me from s).1
  unfolding answer_validation
  answer_validation-Comes none claimed me from s new =
      Comes-none from.client_guid _ (boot_player from s).1 (boot_player-none from s new)
  answer_validation-Comes (some known) claimed me from s new =
      λ p h. (known, refl, admit_validated-Comes w known claimed me from s new p h)

  -- Whatever a sender without a player puts into a challenge response, and however the handler ends,
  -- there is a player with the sender's guid afterwards only if the directory has confirmed the id
  -- that the response claims for the game that is played, under the name that it claims; that player
  -- is the sender with the directory's user, authenticated.
  pub handle_challenge_response-IsValidated :
      (directory : Option Directory) (m : ProtocolMessage) (me : Option Player) (from p : Player)
      (s : Game)
      → player_at from.client_guid s ≡ none
      → player_at from.client_guid
          (handle_challenge_response net parse_xml w directory m me from s).1
        ≡ some p
      → IsValidated net parse_xml directory m from s p
  unfolding handle_challenge_response
  handle_challenge_response-IsValidated directory m me from p s new =
      let E = IsValidated net parse_xml directory m from s in
      let Q = Comes from.client_guid E in
      let before = Comes-none from.client_guid E s new in
      lift-state Q _ s (user_of (or_default_user m.response_extension)) before
        (λ claimed e1. deref-state Q _ s directory before λ asked e2.
          deref-state Q _ s s.the_game before λ game e3.
            lift-state Q _ s (or_error claimed.user_id uninitialised) before λ user_id e4.
              lift-state Q _ s (validate_user net parse_xml user_id game.game_id asked) before
                λ o e5 q h.
                  let (known, e6, named) = answer_validation-Comes o claimed me from s new q h in
                  record {
                    claimed = claimed;
                    known = known;
                    asked = asked;
                    game = game;
                    user_id = user_id;
                    name = named.name;
                    claims = e1;
                    asks = e2;
                    plays = e3;
                    identifies = or_error-eq claimed.user_id uninitialised user_id e4;
                    confirms = e5 ∙ ap ok e6;
                    known_name = named.known_name;
                    claimed_name = named.claimed_name;
                    admits = named.admits;
                  })
        p

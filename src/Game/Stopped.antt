-- ===== src/Game/Stopped.antt =====
-- What `stopClient` leaves.
use mathlib.Core.List.{append-nil}
use easygametools.Base.{
  ◌≡◌, refl, ap, ◌∙◌, Bool, true, false, Option, none, some, List, [], ◌∷◌, ◌++◌, inl, inr, ◌⊎◌,
  arith, Bool-cases,
}
use easygametools.Base.Text.{Bytes, strcmp_eq}
use easygametools.Base.Outcome.{Error, ok, err, null_pointer, or_error, Result-cases}
use easygametools.Xml.{Node}
use easygametools.Xml.ServerGame.{ServerGame}
use easygametools.Web.Request.{Internet}
use easygametools.Directory.{delete_game}
use easygametools.Game.State.{
  Game, Player, new_game, Action, Call, ◌>>◌, lift, modify, close_all_connections,
}
use easygametools.Game.Players.{lift-state, deref-state}
use easygametools.Game.Lifecycle.{
  release, stop_directory_client, stop_client, kill_client, close_peer, reset,
}

-- The client is as its constructor makes it, but for the future of the last start, the flag `creator`,
-- and the records of what it has asked for, to which the end of the connections has been added.
pub record IsStopped (s t : Game) : Type 0 where
  pub new_calls : List Call
  pub state : t ≡ record new_game {
    startup_future = s.startup_future;
    creator = s.creator;
    tasks = s.tasks;
    calls = s.calls ++ new_calls;
    events = s.events;
  }

close_peer-IsStopped :
    (b : Bool) (s : Game)
    → (((close_peer b >> modify reset) (record s { the_game = none; my_user = none })).0 ≡ ok tt)
      × IsStopped s
          ((close_peer b >> modify reset) (record s { the_game = none; my_user = none })).1
close_peer-IsStopped true s =
    (refl, record { new_calls = close_all_connections ∷ []; state = refl })
close_peer-IsStopped false s =
    (refl, record { new_calls = []; state = rw (append-nil s.calls) refl })

module _ (net : Internet) (parse_xml : Bytes → Option (List Node)) where
  -- An action that changes nothing, whether it throws or not.
  release-same : (game : Option ServerGame) (s : Game) → (release net parse_xml game s).1 ≡ s
  unfolding release
  release-same none s = refl
  release-same (some g) s =
      deref-state (λ t. t ≡ s) _ s s.my_player refl
        λ me _.
          lift-state (λ t. t ≡ s) _ s (or_error g.host_guid null_pointer) refl
            λ host_guid _. elim (Bool-cases (strcmp_eq me.client_guid host_guid)) [
              | inr other ↦ rw other refl
              | inl own ↦ rw own (
                  deref-state (λ t. t ≡ s) (λ d. lift (delete_game net parse_xml g.game_id d)) s
                    s.directory refl λ d _. refl)
            ]

  -- What follows the release of the game.
  stop_client-after :
      (s : Game)
      → (release net parse_xml s.the_game s).0 ≡ ok tt
      → ((stop_client net parse_xml s).0 ≡ ok tt) × IsStopped s (stop_client net parse_xml s).1
  unfolding stop_client stop_directory_client
  stop_client-after s h = rw (h, release-same s.the_game s) (close_peer-IsStopped s.has_peer s)

  stop_client-failed :
      (s : Game) (e : Error)
      → (release net parse_xml s.the_game s).0 ≡ err e
      → ((stop_client net parse_xml s).0 ≡ err e) × ((stop_client net parse_xml s).1 ≡ s)
  unfolding stop_client stop_directory_client
  stop_client-failed s e h = rw (h, release-same s.the_game s) (refl, refl)

  -- `stopClient` either returns, and then the client is as its constructor makes it, but for the flag
  -- `creator` and the last future, which stay; or it throws, and then nothing at all has changed: the
  -- connections are still open.
  pub stop_client-IsStopped :
      (s : Game)
      → (((stop_client net parse_xml s).0 ≡ ok tt) × IsStopped s (stop_client net parse_xml s).1)
        ⊎ ((e : Error) × ((stop_client net parse_xml s).0 ≡ err e)
            × ((stop_client net parse_xml s).1 ≡ s))
  stop_client-IsStopped s = elim (Result-cases (release net parse_xml s.the_game s).0) [
    | inl (_, returns) ↦ inl (stop_client-after s (ground arith))
    | inr (e, throws) ↦
        let (same_error, same_state) = stop_client-failed s e throws in
        inr (e, same_error, same_state)
  ]

  release-other :
      (g : ServerGame) (me : Player) (host_guid : Bytes) (s : Game)
      → s.my_player ≡ some me
      → g.host_guid ≡ some host_guid
      → strcmp_eq me.client_guid host_guid ≡ false
      → (release net parse_xml (some g) s).0 ≡ ok tt
  unfolding release
  release-other g me host_guid s is_me has_guid other = rw (is_me, has_guid, other) refl

  -- A client that is not the host of its game always stops.
  pub stop_client-other :
      (g : ServerGame) (me : Player) (host_guid : Bytes) (s : Game)
      → s.the_game ≡ some g
      → s.my_player ≡ some me
      → g.host_guid ≡ some host_guid
      → strcmp_eq me.client_guid host_guid ≡ false
      → ((stop_client net parse_xml s).0 ≡ ok tt) × IsStopped s (stop_client net parse_xml s).1
  stop_client-other g me host_guid s plays is_me has_guid other = stop_client-after s (
      ap (λ game. (release net parse_xml game s).0) plays
      ∙ release-other g me host_guid s is_me has_guid other)

  -- So does one that plays no game.
  pub stop_client-idle :
      (s : Game)
      → s.the_game ≡ none
      → ((stop_client net parse_xml s).0 ≡ ok tt) × IsStopped s (stop_client net parse_xml s).1
  unfolding release
  stop_client-idle s idle = stop_client-after s (ap (λ game. (release net parse_xml game s).0) idle)

  -- `killClient`, where the dispatcher has left the game when its thread ends.
  pub kill_client-idle :
      (waits : Action (Unit {0})) (s t : Game)
      → s.has_dispatcher ≡ true
      → waits s ≡ (ok tt, t)
      → t.the_game ≡ none
      → ((kill_client net parse_xml waits s).0 ≡ ok tt)
        × IsStopped t (kill_client net parse_xml waits s).1
  unfolding kill_client
  kill_client-idle waits s t runs ends idle = simp (runs, ends) (stop_client-idle t idle)

-- ===== src/Netplay/Peers.antt =====
-- The two players' games side by side: what is local to one is remote to the other.
use dendy.Prelude.{ℕ, ◌≡◌, refl, ◌∙◌, sym, subst, arith, some, List, ◌++◌}
use dendy.Netplay.Inputs.{get_or-append}
use dendy.Netplay.Console.{Console}
use dendy.Netplay.Game.{Game}
use dendy.Netplay.Snapshots.{Confirmed, Confirmed-ext}
use dendy.Netplay.Synced.{Synced}
use dendy.Netplay.Session.{Reachable, Reachable-Synced}

-- The console of the other player.
unfoldable pub mirror : {S Snap : Type 0} → Console S Snap → Console S Snap
mirror c = record c {
  local_buttons = c.remote_buttons;
  remote_buttons = c.local_buttons;
  set_local = c.set_remote;
  set_remote = c.set_local;
}

module _ {S Snap : Type 0} (console : Console S Snap) where
  -- The synchronized checkpoints of the two players were taken after the same number of frames
  -- with the same inputs, frame by frame: what is local to one is remote to the other.
  pub record SameInputs (start start' : S) (locals remotes : List ℕ) (g g' : Game S Snap)
      : Type 0 where
    pub frames : ℕ
    pub state : S
    pub state' : S
    pub at_frame : g.sync_state.frame ≡ frames
    pub at_frame' : g'.sync_state.frame ≡ frames
    pub confirmed : Confirmed console start locals remotes frames state
    pub confirmed' : Confirmed (mirror console) start' remotes locals frames state'
    pub saved : console.save_state state ≡ some g.sync_state.state
    pub saved' : console.save_state state' ≡ some g'.sync_state.state

  Synced-SameInputs :
      (start start' : S) (locals more remotes more' : List ℕ) (g g' : Game S Snap)
      → Synced console start (locals ++ more) remotes g
      → Synced (mirror console) start' (remotes ++ more') locals g'
      → g.sync_state.frame ≡ g'.sync_state.frame
      → SameInputs start start' locals remotes g g'
  unfolding mirror
  Synced-SameInputs start start' locals more remotes more' g g' s s' same =
      let meet : s'.done ≡ s.done = sym s'.captured.at_frame ∙ sym same ∙ s.captured.at_frame in
      record {
        frames = s.done;
        state = s.captured.state;
        state' = s'.captured.state;
        at_frame = s.captured.at_frame;
        at_frame' = s'.captured.at_frame ∙ meet;
        confirmed =
            Confirmed-ext console start (locals ++ more) locals remotes remotes s.done
              s.captured.state
              (λ i p. get_or-append locals more i 0 (omega (arith, s'.queues.remote.within, meet)))
              (λ i p. refl) s.captured.confirmed;
        confirmed' =
            subst (λ t. Confirmed (mirror console) start' remotes locals t s'.captured.state) meet
              (Confirmed-ext (mirror console) start' (remotes ++ more') remotes locals locals
                s'.done s'.captured.state
                (λ i p.
                  get_or-append remotes more' i 0 (omega (arith, s.queues.remote.within, meet)))
                (λ i p. refl) s'.captured.confirmed);
        saved = s.captured.snapshot;
        saved' = s'.captured.snapshot;
      }

  -- Two players' games were each reached from Init(nil) by calls of HandleLocalInput,
  -- HandleRemoteInput, RunFrame, SleepFrames and SetRoundTripTime that returned, and each player
  -- has received a part of the other's inputs, perhaps all; each ran a frame only with a local
  -- input for every frame before it, and below the last frame number. Their clocks, delays and
  -- confirmed frames may differ. Whenever both have the same synchronized frame, the two
  -- synchronized checkpoints were taken after that many frames from each player's start, with the
  -- same inputs frame by frame: what is local to one is remote to the other. On the way a state
  -- may have been saved and loaded again.
  pub Reachable-SameInputs :
      (start start' : S) (locals more remotes more' : List ℕ) (g g' : Game S Snap)
      → Reachable console start (locals ++ more) remotes g
      → Reachable (mirror console) start' (remotes ++ more') locals g'
      → g.sync_state.frame ≡ g'.sync_state.frame
      → SameInputs start start' locals remotes g g'
  Reachable-SameInputs start start' locals more remotes more' g g' r r' =
      Synced-SameInputs start start' locals more remotes more' g g'
        (Reachable-Synced console start (locals ++ more) remotes g r)
        (Reachable-Synced (mirror console) start' (remotes ++ more') locals g' r')

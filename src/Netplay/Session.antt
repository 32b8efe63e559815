-- ===== src/Netplay/Session.antt =====
-- The games that a player can come to, from `Init` on, by the calls of netplay/game.go.
use dendy.Prelude.{
  ℕ, ◌+◌, ◌-◌, ◌^◌, ◌≤◌, ◌<◌, ◌≡◌, refl, ◌∙◌, sym, arith, ltb, true, none, List, [], ◌∷◌, ◌++◌,
  length,
}
use native.Mathlib.Decide.{dec_lt}
use dendy.Ringbuf.Push.{push_back_panics}
use dendy.Netplay.Console.{Console}
use dendy.Netplay.Outcome.{Outcome, returned, game_panic, ends, Ends-result}
use dendy.Netplay.Game.{
  Game, Late, init, handle_local_input, handle_remote_input, run_frame, sleep_for,
  set_round_trip_time,
}
use dendy.Netplay.Inputs.{push_back-Extended}
use dendy.Netplay.Synced.{Synced}
use dendy.Netplay.Frames.{
  Played, run_frame-Played, handle_local_input-Fed, handle_remote_input-Fed, init-Synced,
}

panic_returns :
    {A B : Type 0} (result : Outcome A) (out : A) → result ≡ game_panic → result ≡ returned out → B
panic_returns result out e r = absurd (let clash : game_panic ≡ returned out = sym e ∙ r in cc)

module _ {S Snap : Type 0} (console : Console S Snap) where
  -- `Reachable start locals remotes g`: calls that all returned lead from `Init(nil)`, on a console
  -- in state `start`, to `g`, with these inputs on the way. A frame is played with a local input
  -- for every frame before it, and below the last frame number.
  pub data Reachable : S → List ℕ → List ℕ → Game S Snap → Type 0 where
    begun : (g out : Game S Snap) → init console none g ≡ returned out → Reachable g.nes [] [] out
    local_came :
        (start : S) (locals remotes : List ℕ) (g out : Game S Snap) (b : ℕ)
        → Reachable start locals remotes g
        → handle_local_input console b g ≡ returned out
        → Reachable start (locals ++ (b ∷ [])) remotes out
    remote_came :
        (start : S) (locals remotes : List ℕ) (g out : Game S Snap) (b number : ℕ)
        → Reachable start locals remotes g
        → handle_remote_input console b number g ≡ returned out
        → Reachable start locals (remotes ++ (b ∷ [])) out
    played :
        (start : S) (locals remotes : List ℕ) (g out : Game S Snap) (late : Late)
        → Reachable start locals remotes g
        → g.frame ≤ length locals
        → g.frame + 1 < 2 ^ 32
        → run_frame console late g ≡ returned out
        → Reachable start locals remotes out
    sent_to_sleep :
        (start : S) (locals remotes : List ℕ) (g : Game S Snap) (n : ℕ)
        → Reachable start locals remotes g
        → Reachable start locals remotes (sleep_for console n g)
    timed :
        (start : S) (locals remotes : List ℕ) (g : Game S Snap) (time : ℕ)
        → Reachable start locals remotes g
        → Reachable start locals remotes (set_round_trip_time console time g)

  handle_local_input-Synced :
      (b : ℕ) (start : S) (locals remotes : List ℕ) (g out : Game S Snap)
      → Synced console start locals remotes g
      → handle_local_input console b g ≡ returned out
      → Synced console start (locals ++ (b ∷ [])) remotes out
  unfolding handle_local_input
  handle_local_input-Synced b start locals remotes g out s r =
      elim (dec_lt g.local_input.len g.local_input.capacity) [
        | no full ↦
            panic_returns (handle_local_input console b g) out
              (rw (push_back_panics g.local_input (b ∷ []) (omega arith)) refl) r
        | yes room ↦ elim (dec_lt g.local_input.len g.predicted_remote_input.capacity) [
          | no full ↦
              let l = push_back-Extended g.local_input locals s.done b s.queues.local room in
              panic_returns (handle_local_input console b g) out
                (rw
                  (
                    l.returns,
                    push_back_panics g.predicted_remote_input (g.last_remote_input ∷ [])
                        (omega (arith, s.queues.guesses.counted)),
                  )
                  refl)
                r
          | yes room' ↦
              let f = handle_local_input-Fed console b start locals remotes g s room room' in
              Ends-result console (handle_local_input console b g)
                (Synced console start (locals ++ (b ∷ [])) remotes) out
                (ends f.out f.returns f.synced) r
        ]
      ]

  handle_remote_input-Synced :
      (b number : ℕ) (start : S) (locals remotes : List ℕ) (g out : Game S Snap)
      → Synced console start locals remotes g
      → handle_remote_input console b number g ≡ returned out
      → Synced console start locals (remotes ++ (b ∷ [])) out
  unfolding handle_remote_input
  handle_remote_input-Synced b number start locals remotes g out s r =
      elim (dec_lt g.remote_input.len g.remote_input.capacity) [
        | no full ↦
            panic_returns (handle_remote_input console b number g) out
              (rw (push_back_panics g.remote_input (b ∷ []) (omega arith)) refl) r
        | yes room ↦
            let f = handle_remote_input-Fed console b number start locals remotes g s room in
            Ends-result console (handle_remote_input console b number g)
              (Synced console start locals (remotes ++ (b ∷ []))) out
              (ends f.out f.returns f.synced) r
      ]

  sleep_for-Synced :
      (n : ℕ) (start : S) (locals remotes : List ℕ) (g : Game S Snap)
      → Synced console start locals remotes g
      → Synced console start locals remotes (sleep_for console n g)
  unfolding sleep_for
  sleep_for-Synced n start locals remotes g s = record {
    done = s.done;
    queues = record {
      local = s.queues.local;
      remote = s.queues.remote;
      guesses = s.queues.guesses;
    };
    captured = s.captured;
    reached = s.reached;
    fed = s.fed;
    small = s.small;
    pending = s.pending;
  }

  set_round_trip_time-Synced :
      (time : ℕ) (start : S) (locals remotes : List ℕ) (g : Game S Snap)
      → Synced console start locals remotes g
      → Synced console start locals remotes (set_round_trip_time console time g)
  unfolding set_round_trip_time
  set_round_trip_time-Synced time start locals remotes g s = record {
    done = s.done;
    queues = record {
      local = s.queues.local;
      remote = s.queues.remote;
      guesses = s.queues.guesses;
    };
    captured = s.captured;
    reached = s.reached;
    fed = s.fed;
    small = s.small;
    pending = s.pending;
  }

  -- A sleeping game only sleeps one frame less.
  run_frame-sleep_for :
      (late : Late) (g : Game S Snap)
      → 0 < g.sleep_frames
      → run_frame console late g ≡ returned (sleep_for console (g.sleep_frames - 1) g)
  unfolding run_frame sleep_for
  run_frame-sleep_for late g h =
      let asleep : ltb 0 g.sleep_frames ≡ true = ground arith in rw asleep refl

  run_frame-Synced :
      (late : Late) (start : S) (locals remotes : List ℕ) (g out : Game S Snap)
      → Synced console start locals remotes g
      → g.frame ≤ length locals
      → g.frame + 1 < 2 ^ 32
      → run_frame console late g ≡ returned out
      → Synced console start locals remotes out
  run_frame-Synced late start locals remotes g out s fed small r = elim (dec_lt 0 g.sleep_frames) [
    | yes asleep ↦
        Ends-result console (run_frame console late g) (Synced console start locals remotes) out
          (ends (sleep_for console (g.sleep_frames - 1) g) (run_frame-sleep_for late g asleep)
            (sleep_for-Synced (g.sleep_frames - 1) start locals remotes g s))
          r
    | no awake ↦
        let p = run_frame-Played console late start locals remotes g s (omega arith) fed small in
        (Ends-result console (run_frame console late g)
          (Played console late start locals remotes g s.done) out p r).synced
  ]

  -- Init(nil) and then HandleLocalInput, HandleRemoteInput, RunFrame, SleepFrames and
  -- SetRoundTripTime in any order, as long as they return, lead to a synchronized game, if each
  -- frame is run with a local input for every frame before it and below the last frame number:
  -- the synchronized checkpoint was taken in a state that the confirmed inputs lead to from the
  -- console at Init, and the buffers hold exactly the inputs that are not confirmed.
  pub Reachable-Synced :
      (start : S) (locals remotes : List ℕ) (g : Game S Snap)
      → Reachable start locals remotes g
      → Synced console start locals remotes g
  Reachable-Synced start locals remotes g (begun h out e) =
      Ends-result console (init console none h) (Synced console h.nes [] []) out
        (init-Synced console h) e
  Reachable-Synced start locals remotes g (local_came st ls rs h out b t e) =
      handle_local_input-Synced b st ls rs h out (Reachable-Synced st ls rs h t) e
  Reachable-Synced start locals remotes g (remote_came st ls rs h out b number t e) =
      handle_remote_input-Synced b number st ls rs h out (Reachable-Synced st ls rs h t) e
  Reachable-Synced start locals remotes g (played st ls rs h out late t fed small e) =
      run_frame-Synced late st ls rs h out (Reachable-Synced st ls rs h t) fed small e
  Reachable-Synced start locals remotes g (sent_to_sleep st ls rs h n t) =
      sleep_for-Synced n st ls rs h (Reachable-Synced st ls rs h t)
  Reachable-Synced start locals remotes g (timed st ls rs h time t) =
      set_round_trip_time-Synced time st ls rs h (Reachable-Synced st ls rs h t)

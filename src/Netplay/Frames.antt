-- ===== src/Netplay/Frames.antt =====
-- The operations on a game from outside: the start, the inputs and the frames.
use dendy.Prelude.{
  ℕ, ◌+◌, ◌-◌, ◌/◌, ◌^◌, ◌≤◌, ◌<◌, ◌≡◌, refl, ◌∙◌, ◌⊎◌, inl, inr, arith, min, u32, true, false,
  ◌==◌, ltb, if◌then◌else◌, none, List, [], ◌∷◌, ◌++◌, length, length-append,
}
use dendy.Ringbuf.{Buffer}
use dendy.Ringbuf
use dendy.Ringbuf.Valid.{new-IsValid, contents-new}
use dendy.Netplay.Console.{Console, plays}
use dendy.Netplay.Outcome.{Outcome, returned, Ends, ends, stops, Option_cases, Ends-bind}
use dendy.Netplay.Game.{
  Game, Late, init, handle_local_input, handle_remote_input, play_frame, process_delayed_input,
  run_frame, drift, frame_duration,
}
use dendy.Netplay.Snapshots.{
  first, taken, Captures-taken, Captures-append_local, Captures-append_remote,
}
use dendy.Netplay.Steps.{save_sync-then}
use dendy.Netplay.Inputs.{Window, len-Window, push_back-Extended, push_back-LeavesGuesses}
use dendy.Netplay.Synced.{Synced, Processed}
use dendy.Netplay.Delayed.{process_delayed_input-Processed}

module _ {S Snap : Type 0} (console : Console S Snap) where
  play_frame-Ends :
      (g : Game S Snap) (P : Game S Snap → Type 0)
      → g.frame + 1 < 2 ^ 32
      → ((nes : S) → P (record g { nes = nes; frame = g.frame + 1 }))
      → Ends console (play_frame console g) P
  unfolding play_frame
  play_frame-Ends g P small h =
      let no_wrap : u32 (g.frame + 1) ≡ g.frame + 1 = omega arith in
      let running : (g.frame + 1 == 0) ≡ false = ground arith in
      elim (Option_cases (console.play g.nes)) [
        | inl e ↦ stops (rw e refl) (plays g.nes e)
        | inr (nes, e) ↦
            ends (record g { nes = nes; frame = g.frame + 1 }) (rw (e, no_wrap, running) refl)
              (h nes)
      ]

  -- A frame that was played: the counter is one further, the invariant holds, no confirmed input
  -- is lost, and every input that both players have sent for the frames played before is
  -- confirmed, unless the clock was late.
  pub record Played (late : Late) (start : S) (locals remotes : List ℕ) (g : Game S Snap) (done : ℕ)
      (out : Game S Snap) : Type 0 where
    pub synced : Synced console start locals remotes out
    pub next_frame : out.frame ≡ g.frame + 1
    pub kept : done ≤ synced.done
    pub progress :
        (synced.done ≡ min (min (length locals) (length remotes)) g.frame)
        ⊎ (late.sync (synced.done - done) ≡ true)
        ⊎ (late.catchup out.catchup_input_pos ≡ true)

  -- From a synchronized game that is awake, has a local input for every frame played and is below
  -- the last frame number, RunFrame does not panic of its own, whatever the clock says: it stops
  -- only at a panic of the console, which then has a call that panics. When it returns, the frame
  -- counter is one further, the synchronized checkpoint was taken in a state that the confirmed
  -- inputs of both players lead to, no confirmed input is lost, and all inputs that both players
  -- have sent for the frames played before are confirmed unless the clock was late.
  pub run_frame-Played :
      (late : Late) (start : S) (locals remotes : List ℕ) (g : Game S Snap)
      (s : Synced console start locals remotes g)
      → g.sleep_frames ≡ 0
      → g.frame ≤ length locals
      → g.frame + 1 < 2 ^ 32
      → Ends console (run_frame console late g) (Played late start locals remotes g s.done)
  unfolding run_frame
  run_frame-Played late start locals remotes g s awake fed small =
      let awake_test : ltb 0 g.sleep_frames ≡ false = ground arith in
      let P = Played late start locals remotes g s.done in
      rw awake_test (
        Ends-bind console (process_delayed_input console late g) (play_frame console)
          (Processed console late start locals remotes g s.done) P
          (process_delayed_input-Processed console late start locals remotes g s fed)
          (λ mid p. play_frame-Ends mid P (omega (arith, p.same_frame)) λ nes.
            let t = p.synced in
            record {
              synced = record {
                done = t.done;
                queues = record {
                  local = t.queues.local;
                  remote = t.queues.remote;
                  guesses = t.queues.guesses;
                };
                captured = t.captured;
                reached = omega (arith, t.reached);
                fed = omega (arith, p.same_frame);
                small = omega (arith, p.same_frame);
                pending = elim t.pending [
                  | inl idle ↦ inl idle
                  | inr (fresh, number, ahead) ↦ inr (fresh, number, omega arith)
                ];
              };
              next_frame = omega (arith, p.same_frame);
              kept = p.kept;
              progress = p.progress;
            }))

  -- An operation that keeps the frame and the confirmed inputs.
  pub record Fed (start : S) (locals remotes : List ℕ) (g : Game S Snap) (done : ℕ)
      (result : Outcome (Game S Snap)) : Type 0 where
    pub out : Game S Snap
    pub returns : result ≡ returned out
    pub synced : Synced console start locals remotes out
    pub same_frame : out.frame ≡ g.frame
    pub same_done : synced.done ≡ done

  -- With room in the two buffers HandleLocalInput on a synchronized game returns a synchronized
  -- game with one more local input, at the same frame and with the same inputs confirmed.
  pub handle_local_input-Fed :
      (b : ℕ) (start : S) (locals remotes : List ℕ) (g : Game S Snap)
      (s : Synced console start locals remotes g)
      → g.local_input.len < g.local_input.capacity
      → g.local_input.len < g.predicted_remote_input.capacity
      → Fed start (locals ++ (b ∷ [])) remotes g s.done (handle_local_input console b g)
  unfolding handle_local_input
  handle_local_input-Fed b start locals remotes g s hl hp =
      let l = push_back-Extended g.local_input locals s.done b s.queues.local hl in
      let p =
        push_back-LeavesGuesses g.predicted_remote_input g.local_input.len g.last_remote_input
          s.queues.guesses hp in
      let longer = length-append locals (b ∷ []) in
      record {
        out = record g {
          nes = console.set_remote (console.set_local g.nes b) g.last_remote_input;
          local_input = l.out;
          predicted_remote_input = p.out;
        };
        returns = rw (l.returns, p.returns) refl;
        synced = record {
          done = s.done;
          queues = record {
            local = l.window;
            remote = s.queues.remote;
            guesses = record {
              valid = p.guesses.valid;
              counted =
                  p.guesses.counted
                  ∙ omega (
                    arith,
                    longer,
                    s.queues.local.within,
                    len-Window g.local_input locals s.done s.queues.local,
                    len-Window l.out (locals ++ (b ∷ [])) s.done l.window,
                  );
            };
          };
          captured =
              Captures-append_local console start locals (b ∷ []) remotes s.done g.sync_state
                s.queues.local.within s.captured;
          reached = s.reached;
          fed = omega (arith, longer, s.fed);
          small = s.small;
          pending = s.pending;
        };
        same_frame = refl;
        same_done = refl;
      }

  -- With room in the buffer HandleRemoteInput on a synchronized game returns a synchronized game
  -- with one more remote input, at the same frame and with the same inputs confirmed.
  pub handle_remote_input-Fed :
      (b frame : ℕ) (start : S) (locals remotes : List ℕ) (g : Game S Snap)
      (s : Synced console start locals remotes g)
      → g.remote_input.len < g.remote_input.capacity
      → Fed start locals (remotes ++ (b ∷ [])) g s.done (handle_remote_input console b frame g)
  unfolding handle_remote_input
  handle_remote_input-Fed b frame start locals remotes g s h =
      let r = push_back-Extended g.remote_input remotes s.done b s.queues.remote h in
      let out : Game S Snap = record g {
        remote_input = r.out;
        last_remote_input = b;
        drift_frames =
            if ltb 0 g.round_trip_time
            then drift console g.frame (u32 (frame + u32 (g.round_trip_time / 2 / frame_duration)))
            else g.drift_frames;
      } in
      record {
        out = out;
        returns = rw r.returns refl;
        synced = record {
          done = s.done;
          queues = record { local = s.queues.local; remote = r.window; guesses = s.queues.guesses };
          captured =
              Captures-append_remote console start locals remotes (b ∷ []) s.done g.sync_state
                s.queues.remote.within s.captured;
          reached = s.reached;
          fed = s.fed;
          small = s.small;
          pending = s.pending;
        };
        same_frame = refl;
        same_done = refl;
      }

  -- Init(nil) stops only at a panic of the console, which then has a call that panics; when it
  -- returns, the game is synchronized, starts from the console as it is, and has no inputs.
  pub init-Synced :
      (g : Game S Snap) → Ends console (init console none g) (Synced console g.nes [] [])
  unfolding init
  init-Synced g =
      let empty_window : Window (Ringbuf.new 0 512) [] 0 = record {
        valid = new-IsValid 0 512 (omega arith);
        holds = contents-new 0 512;
        within = omega arith;
      } in
      let fresh : Game S Snap = record g {
        last_remote_input = 0;
        catchup_input_pos = 0;
        sleep_frames = 0;
        frame = 0;
        local_input = Ringbuf.new 0 512;
        remote_input = Ringbuf.new 0 512;
        predicted_remote_input = Ringbuf.new 0 512;
      } in
      save_sync-then console (λ started. returned (record started { gen = u32 (g.gen + 1) }))
        (Synced console g.nes [] []) fresh
        λ snap saved_as.
          ends (record fresh { sync_state = taken console g.nes 0 snap; gen = u32 (g.gen + 1) })
            refl
            (record {
              done = 0;
              queues = record {
                local = empty_window;
                remote = empty_window;
                guesses = record { valid = new-IsValid 0 512 (omega arith); counted = refl };
              };
              captured = Captures-taken console g.nes [] [] 0 g.nes 0 snap first saved_as refl;
              reached = omega arith;
              fed = omega arith;
              small = omega arith;
              pending = inl refl;
            })

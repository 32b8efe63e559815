-- ===== src/Netplay/Game.antt =====
-- netplay/game.go, the game with its inputs and checkpoints. Sound output, the
-- debug writer and the checksum of a checkpoint, which nothing here reads, are left out; so is
-- the clock: `late` tells for each turn of a loop whether the time that remains is too short.
use dendy.Prelude.{
  ℕ, zero, suc, ◌+◌, ◌-◌, ◌/◌, ◌^◌, min, u32, ltb, ◌==◌, if◌then◌else◌, Bool, true, false, Option,
  none, some, [], ◌∷◌, ℤ, pos, negsuc,
}
use dendy.Ringbuf
use dendy.Ringbuf.{Buffer}
use dendy.Netplay.Console.{Console}
use dendy.Netplay.Outcome.{Outcome, returned, game_panic, ◌>>=◌, ask, own}

pub record Checkpoint (Snap : Type 0) : Type 0 where
  pub state : Snap
  pub frame : ℕ  -- uint32
  pub local_input : ℕ
  pub remote_input : ℕ
  pub rolled_back : Bool

pub record Game (S Snap : Type 0) : Type 0 where
  pub nes : S
  pub frame : ℕ  -- uint32
  pub gen : ℕ  -- uint32
  pub sync_state : Checkpoint Snap
  pub head_state : Checkpoint Snap
  pub catchup_state : Checkpoint Snap
  pub catchup_input_pos : ℕ
  pub local_input : Buffer ℕ
  pub remote_input : Buffer ℕ
  pub predicted_remote_input : Buffer ℕ
  pub last_remote_input : ℕ
  pub round_trip_time : ℕ  -- nanoseconds
  pub drift_frames : ℤ
  pub sleep_frames : ℕ  -- uint32

-- The answers of the clock in the three loops of a frame, by the position of the input.
pub record Late : Type 0 where
  pub catchup : ℕ → Bool
  pub sync : ℕ → Bool
  pub replay : ℕ → Bool

-- `time.Second / 60`, in nanoseconds.
abbrev pub frame_duration : ℕ
frame_duration = 16666666

-- `-int(n)`
abbrev pub negative : ℕ → ℤ
negative zero = pos 0
negative (suc n) = negsuc n

module _ {S Snap : Type 0} (console : Console S Snap) where
  unfoldable pub checkpoint : S → ℕ → Outcome (Checkpoint Snap)
  checkpoint nes frame = do
    state ← ask (console.save_state nes)
    returned (record {
      state = state;
      frame = frame;
      local_input = console.local_buttons nes;
      remote_input = console.remote_buttons nes;
      rolled_back = false;
    })

  unfoldable pub save_sync : Game S Snap → Outcome (Game S Snap)
  save_sync g = do cp ← checkpoint g.nes g.frame; returned (record g { sync_state = cp })

  unfoldable pub save_head : Game S Snap → Outcome (Game S Snap)
  save_head g = do cp ← checkpoint g.nes g.frame; returned (record g { head_state = cp })

  unfoldable pub save_catchup : Game S Snap → Outcome (Game S Snap)
  save_catchup g = do cp ← checkpoint g.nes g.frame; returned (record g { catchup_state = cp })

  -- The console after `rollback(cp)`.
  unfoldable pub restored : Checkpoint Snap → S → Outcome S
  restored cp nes = do
    loaded ← ask (console.load_state cp.state nes)
    returned (console.set_remote (console.set_local loaded cp.local_input) cp.remote_input)

  unfoldable pub rollback_sync : Game S Snap → Outcome (Game S Snap)
  rollback_sync g = if g.sync_state.rolled_back then game_panic else (do
    nes ← restored g.sync_state g.nes
    returned (record g {
      nes = nes;
      frame = g.sync_state.frame;
      sync_state = record g.sync_state { rolled_back = true };
    }))

  unfoldable pub rollback_head : Game S Snap → Outcome (Game S Snap)
  rollback_head g = if g.head_state.rolled_back then game_panic else (do
    nes ← restored g.head_state g.nes
    returned (record g {
      nes = nes;
      frame = g.head_state.frame;
      head_state = record g.head_state { rolled_back = true };
    }))

  unfoldable pub rollback_catchup : Game S Snap → Outcome (Game S Snap)
  rollback_catchup g = if g.catchup_state.rolled_back then game_panic else (do
    nes ← restored g.catchup_state g.nes
    returned (record g {
      nes = nes;
      frame = g.catchup_state.frame;
      catchup_state = record g.catchup_state { rolled_back = true };
    }))

  -- `checkpoint` given, or the state at hand.
  unfoldable pub init : Option (Checkpoint Snap) → Game S Snap → Outcome (Game S Snap)
  init given g =
      let fresh = record g {
        last_remote_input = 0;
        catchup_input_pos = 0;
        sleep_frames = 0;
        frame = 0;
        local_input = Ringbuf.new 0 512;
        remote_input = Ringbuf.new 0 512;
        predicted_remote_input = Ringbuf.new 0 512;
      } in
      do
        started ← elim given [
          | none ↦ save_sync fresh
          | some cp ↦ returned (record fresh { sync_state = cp })
        ]
        returned (record started { gen = u32 (g.gen + 1) })

  -- `SleepFrames`
  unfoldable pub sleep_for : ℕ → Game S Snap → Game S Snap
  sleep_for n g = record g { sleep_frames = n }

  unfoldable pub set_round_trip_time : ℕ → Game S Snap → Game S Snap
  set_round_trip_time time g = record g { round_trip_time = time }

  unfoldable pub play_frame : Game S Snap → Outcome (Game S Snap)
  play_frame g = do
    nes ← ask (console.play g.nes)
    (if u32 (g.frame + 1) == 0
        then game_panic
        else returned (record g { nes = nes; frame = u32 (g.frame + 1) }))

  unfoldable pub play_frame_fast : Game S Snap → Outcome (Game S Snap)
  play_frame_fast g = do
    nes ← ask (console.play_fast g.nes)
    (if u32 (g.frame + 1) == 0
        then game_panic
        else returned (record g { nes = nes; frame = u32 (g.frame + 1) }))

  unfoldable pub drop_inputs : ℕ → Game S Snap → Outcome (Game S Snap)
  drop_inputs n g = do
    local ← own (Ringbuf.trunc_front g.local_input (pos n))
    remote ← own (Ringbuf.trunc_front g.remote_input (pos n))
    predicted ← own (Ringbuf.trunc_front g.predicted_remote_input (pos n))
    returned (record g {
      local_input = local;
      remote_input = remote;
      predicted_remote_input = predicted;
    })

  unfoldable pub handle_local_input : ℕ → Game S Snap → Outcome (Game S Snap)
  handle_local_input buttons g = do
    local ← own (Ringbuf.push_back g.local_input (buttons ∷ []))
    predicted ← own (Ringbuf.push_back g.predicted_remote_input (g.last_remote_input ∷ []))
    returned (record g {
      nes = console.set_remote (console.set_local g.nes buttons) g.last_remote_input;
      local_input = local;
      predicted_remote_input = predicted;
    })

  unfoldable pub drift : ℕ → ℕ → ℤ
  drift local_frame remote_frame =
      if ltb local_frame remote_frame
      then negative (remote_frame - local_frame)
      else pos (local_frame - remote_frame)

  unfoldable pub handle_remote_input : ℕ → ℕ → Game S Snap → Outcome (Game S Snap)
  handle_remote_input buttons frame g = do
    remote ← own (Ringbuf.push_back g.remote_input (buttons ∷ []))
    returned (record g {
      remote_input = remote;
      last_remote_input = buttons;
      drift_frames =
          if ltb 0 g.round_trip_time
          then drift g.frame (u32 (frame + u32 (g.round_trip_time / 2 / frame_duration)))
          else g.drift_frames;
    })

  -- The frames that are left, and the position of the input for the next one.
  unfoldable pub replay_local_input : (ℕ → Bool) → ℕ → ℕ → Game S Snap → Outcome (Game S Snap)
  replay_local_input late zero input_pos g = returned (record g { catchup_input_pos = 0 })
  replay_local_input late (suc left) input_pos g =
      if late input_pos
      then (do
        saved ← save_catchup g
        back ← rollback_head saved
        returned (record back { catchup_input_pos = input_pos }))
      else (do
        remote ← own (Ringbuf.at g.predicted_remote_input (pos input_pos))
        local ← own (Ringbuf.at g.local_input (pos input_pos))
        next ←
            play_frame_fast
              (record g { nes = console.set_local (console.set_remote g.nes remote) local })
        replay_local_input late left (suc input_pos) next)

  -- The loop over the confirmed inputs; the flag tells that it ran out of time.
  unfoldable pub replay_confirmed : (ℕ → Bool) → ℕ → ℕ → Game S Snap → Outcome (Bool × Game S Snap)
  replay_confirmed late zero i g = returned (false, g)
  replay_confirmed late (suc left) i g =
      if late i
      then (do
        saved ← save_sync g
        back ← rollback_head saved
        dropped ← drop_inputs i back
        returned (true, dropped))
      else (do
        local ← own (Ringbuf.at g.local_input (pos i))
        remote ← own (Ringbuf.at g.remote_input (pos i))
        next ←
            play_frame_fast
              (record g { nes = console.set_remote (console.set_local g.nes local) remote })
        replay_confirmed late left (suc i) next)

  -- `predicted[i] = remote[last]` for the positions that are left.
  unfoldable pub predict : ℕ → ℕ → ℕ → Game S Snap → Outcome (Game S Snap)
  predict zero i last g = returned g
  predict (suc left) i last g = do
    remote ← own (Ringbuf.at g.remote_input (pos last))
    predicted ← own (Ringbuf.set_at g.predicted_remote_input (pos i) remote)
    predict left (suc i) last (record g { predicted_remote_input = predicted })

  -- The deferred check of the frame counter.
  unfoldable pub check_frame : ℕ → Game S Snap → Outcome (Game S Snap)
  check_frame end_frame g = if g.frame == end_frame then returned g else game_panic

  unfoldable pub num_inputs : Game S Snap → ℕ
  num_inputs g =
      min (min g.local_input.len g.remote_input.len) (u32 (g.frame + 2 ^ 32 - g.sync_state.frame))

  -- From the second half of `processDelayedInput` on: the rollback to the synchronized state.
  unfoldable pub synchronize : Late → ℕ → Game S Snap → Outcome (Game S Snap)
  synchronize late end_frame g =
      let n = num_inputs g in
      if n == 0 then returned g else (do
        headed ← save_head g
        rolled ← rollback_sync headed
        (stopped, confirmed) ← replay_confirmed late.sync n 0 rolled
        if stopped then check_frame end_frame confirmed else (do
          guessed ← predict (confirmed.predicted_remote_input.len - n) n (n - 1) confirmed
          synced ← save_sync guessed
          dropped ← drop_inputs n synced
          done ← replay_local_input late.replay (end_frame - dropped.frame) 0 dropped
          check_frame end_frame done))

  unfoldable pub catch_up : Late → Game S Snap → Outcome (Game S Snap)
  catch_up late g = if g.catchup_input_pos == 0 then returned g else (do
    headed ← save_head g
    rolled ← rollback_catchup headed
    replay_local_input late.catchup (rolled.head_state.frame - rolled.frame) g.catchup_input_pos
        rolled)

  unfoldable pub process_delayed_input : Late → Game S Snap → Outcome (Game S Snap)
  process_delayed_input late g = do
    caught ← catch_up late g
    if caught.catchup_input_pos == 0 then synchronize late g.frame caught else returned caught

  unfoldable pub run_frame : Late → Game S Snap → Outcome (Game S Snap)
  run_frame late g =
      if ltb 0 g.sleep_frames
      then returned (record g { sleep_frames = g.sleep_frames - 1 })
      else (do ready ← process_delayed_input late g; play_frame ready)

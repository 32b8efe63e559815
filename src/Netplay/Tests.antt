-- ===== src/Netplay/Tests.antt =====
-- The theorems at a small console, whose memory is a sum over the buttons of its frames; it panics
-- in a frame with 255 as local buttons.
use dendy.Prelude.{
  ℕ, ◌+◌, ◌*◌, ◌≡◌, refl, arith, ◌==◌, if◌then◌else◌, false, Option, none, some, List, [], ◌∷◌, ℤ,
  inl,
}
use dendy.Ringbuf
use dendy.Ringbuf.{Buffer}
use dendy.Netplay.Console.{Console}
use dendy.Netplay.Outcome.{Outcome, returned, console_panic, game_panic, Ends}
use dendy.Netplay.Game.{
  Checkpoint, Game, Late, init, handle_local_input, handle_remote_input, process_delayed_input,
  run_frame,
}
use dendy.Netplay.Snapshots.{Captures, first}
use dendy.Netplay.Synced.{Synced, Processed}
use dendy.Netplay.Delayed.{process_delayed_input-Processed}
use dendy.Netplay.Peers.{mirror, SameInputs, Reachable-SameInputs}
use dendy.Netplay.Session.{Reachable, begun, local_came, remote_came, played, Reachable-Synced}
use dendy.Netplay.Game.{
  drift, catch_up, synchronize, num_inputs, save_head, save_sync, checkpoint, rollback_sync,
  restored, replay_confirmed, predict, drop_inputs, replay_local_input, check_frame, play_frame,
  play_frame_fast,
}
use dendy.Netplay.Frames.{
  Played, Fed, run_frame-Played, handle_local_input-Fed, handle_remote_input-Fed, init-Synced,
}

pub record Adder : Type 0 where
  pub total : ℕ
  pub local : ℕ
  pub remote : ℕ

abbrev adder_play : Adder → Option Adder
adder_play s =
    if s.local == 255
    then none
    else some (record s { total = s.total * 3 + s.local + 2 * s.remote })

abbrev adder : Console Adder Adder
adder = record {
  play = adder_play;
  play_fast = adder_play;
  save_state = λ s. some s;
  load_state = λ s t. some s;
  local_buttons = λ s. s.local;
  remote_buttons = λ s. s.remote;
  set_local = λ s b. record s { local = b };
  set_remote = λ s b. record s { remote = b };
}

abbrev switched_on : Adder
switched_on = record { total = 1; local = 0; remote = 0 }

abbrev blank : Checkpoint Adder
blank = record {
  state = switched_on;
  frame = 0;
  local_input = 0;
  remote_input = 0;
  rolled_back = false;
}

abbrev unplayed : Game Adder Adder
unplayed = record {
  nes = switched_on;
  frame = 0;
  gen = 0;
  sync_state = blank;
  head_state = blank;
  catchup_state = blank;
  catchup_input_pos = 0;
  local_input = Ringbuf.new 0 1;
  remote_input = Ringbuf.new 0 1;
  predicted_remote_input = Ringbuf.new 0 1;
  last_remote_input = 0;
  round_trip_time = 0;
  drift_frames = ℤ.pos 0;
  sleep_frames = 0;
}

init-Synced_example : Ends adder (init adder none unplayed) (Synced adder switched_on [] [])
init-Synced_example = init-Synced adder unplayed

abbrev queue : List ℕ → ℕ → Buffer ℕ
queue items n = record { empty_value = 0; items = items; capacity = 4; len = n; head = 0; tail = n }

-- Two frames were played; the local player has pressed 7 and 8, the remote one 5.
abbrev playing : Game Adder Adder
playing = record unplayed {
  nes = record { total = 10; local = 8; remote = 0 };
  frame = 2;
  local_input = queue (7 ∷ 8 ∷ 0 ∷ 0 ∷ []) 2;
  remote_input = queue (5 ∷ 0 ∷ 0 ∷ 0 ∷ []) 1;
  predicted_remote_input = queue (0 ∷ 0 ∷ 0 ∷ 0 ∷ []) 2;
  last_remote_input = 5;
}

blank-Captures : Captures adder switched_on (7 ∷ 8 ∷ []) (5 ∷ []) 0 blank
blank-Captures = record {
  state = switched_on;
  confirmed = first;
  snapshot = refl;
  local_held = refl;
  remote_held = refl;
  usable = refl;
  at_frame = refl;
}

abbrev playing-Synced : Synced adder switched_on (7 ∷ 8 ∷ []) (5 ∷ []) playing
playing-Synced = record {
  done = 0;
  queues = record {
    local = record { valid = omega arith; holds = refl; within = omega arith };
    remote = record { valid = omega arith; holds = refl; within = omega arith };
    guesses = record { valid = omega arith; counted = refl };
  };
  captured = blank-Captures;
  reached = omega arith;
  fed = omega arith;
  small = omega arith;
  pending = inl refl;
}

abbrev on_time : Late
on_time = record { catchup = λ i. false; sync = λ i. false; replay = λ i. false }

handle_local_input-Fed_example :
    Fed adder switched_on (7 ∷ 8 ∷ 9 ∷ []) (5 ∷ []) playing 0 (handle_local_input adder 9 playing)
handle_local_input-Fed_example =
    handle_local_input-Fed adder 9 switched_on (7 ∷ 8 ∷ []) (5 ∷ []) playing playing-Synced
      (omega arith) (omega arith)

handle_remote_input-Fed_example :
    Fed adder switched_on
      (7 ∷ 8 ∷ [])
      (5 ∷ 6 ∷ [])
      playing
      0
      (handle_remote_input adder 6 1 playing)
handle_remote_input-Fed_example =
    handle_remote_input-Fed adder 6 1 switched_on (7 ∷ 8 ∷ []) (5 ∷ []) playing playing-Synced
      (omega arith)

process_delayed_input-Processed_example :
    Ends adder
      (process_delayed_input adder on_time playing)
      (Processed adder on_time switched_on (7 ∷ 8 ∷ []) (5 ∷ []) playing 0)
process_delayed_input-Processed_example =
    process_delayed_input-Processed adder on_time switched_on (7 ∷ 8 ∷ []) (5 ∷ []) playing
      playing-Synced (omega arith)

run_frame-Played_example :
    Ends adder
      (run_frame adder on_time playing)
      (Played adder on_time switched_on (7 ∷ 8 ∷ []) (5 ∷ []) playing 0)
run_frame-Played_example =
    run_frame-Played adder on_time switched_on (7 ∷ 8 ∷ []) (5 ∷ []) playing playing-Synced refl
      (omega arith) (omega arith)

abbrev after : Outcome (Game Adder Adder) → Game Adder Adder
after (returned g) = g
after console_panic = unplayed
after game_panic = unplayed

-- 7 with 5 is confirmed, 8 with a guess of 5 is replayed, and the frame is played with these held:
-- 3 + 7 + 10, then 60 + 8 + 10, then 234 + 8 + 10.
run_frame_total : (after (run_frame adder on_time playing)).nes.total ≡ 252
unfolding run_frame process_delayed_input catch_up synchronize num_inputs save_head save_sync
    checkpoint rollback_sync restored replay_confirmed predict drop_inputs replay_local_input
    check_frame play_frame play_frame_fast Ringbuf.at Ringbuf.set_at Ringbuf.trunc_front
    Ringbuf.blank_front
run_frame_total = refl

-- A console that panics in a replayed frame stops the game.
run_frame_stops :
    run_frame adder on_time (record playing { local_input = queue (255 ∷ 8 ∷ 0 ∷ 0 ∷ []) 2 })
    ≡ console_panic
unfolding run_frame process_delayed_input catch_up synchronize num_inputs save_head save_sync
    checkpoint rollback_sync restored replay_confirmed predict drop_inputs replay_local_input
    check_frame play_frame play_frame_fast Ringbuf.at Ringbuf.set_at Ringbuf.trunc_front
    Ringbuf.blank_front
run_frame_stops = refl

-- Each player plays two frames, and has received the other's input for the first.
abbrev step : Game Adder Adder → (Game Adder Adder → Outcome (Game Adder Adder)) → Game Adder Adder
step g f = after (f g)

abbrev played_here : Game Adder Adder
played_here =
    let begun_here = step unplayed (init adder none) in
    let one = step begun_here (handle_local_input adder 7) in
    let two = step one (handle_remote_input adder 5 0) in
    let three = step two (run_frame adder on_time) in
    let four = step three (handle_local_input adder 8) in step four (run_frame adder on_time)

abbrev played_there : Game Adder Adder
played_there =
    let begun_there = step unplayed (init (mirror adder) none) in
    let one = step begun_there (handle_local_input (mirror adder) 5) in
    let two = step one (handle_remote_input (mirror adder) 7 0) in
    let three = step two (run_frame (mirror adder) on_time) in
    let four = step three (handle_local_input (mirror adder) 6) in
    step four (run_frame (mirror adder) on_time)

session_here : Reachable adder switched_on (7 ∷ 8 ∷ []) (5 ∷ []) played_here
unfolding init handle_local_input handle_remote_input run_frame process_delayed_input catch_up
    synchronize num_inputs save_head save_sync checkpoint rollback_sync restored replay_confirmed
    predict drop_inputs replay_local_input check_frame play_frame play_frame_fast mirror drift
    Ringbuf.new Ringbuf.push_back Ringbuf.push_loop Ringbuf.at Ringbuf.set_at Ringbuf.trunc_front
    Ringbuf.blank_front
session_here =
    played switched_on (7 ∷ 8 ∷ []) (5 ∷ []) _ _ on_time
      (local_came switched_on (7 ∷ []) (5 ∷ []) _ _ 8
        (played switched_on (7 ∷ []) (5 ∷ []) _ _ on_time
          (remote_came switched_on (7 ∷ []) [] _ _ 5 0
            (local_came switched_on [] [] _ _ 7 (begun unplayed _ refl) refl) refl)
          (omega arith) (omega arith) refl)
        refl)
      (omega arith) (omega arith) refl

session_there : Reachable (mirror adder) switched_on (5 ∷ 6 ∷ []) (7 ∷ []) played_there
unfolding init handle_local_input handle_remote_input run_frame process_delayed_input catch_up
    synchronize num_inputs save_head save_sync checkpoint rollback_sync restored replay_confirmed
    predict drop_inputs replay_local_input check_frame play_frame play_frame_fast mirror drift
    Ringbuf.new Ringbuf.push_back Ringbuf.push_loop Ringbuf.at Ringbuf.set_at Ringbuf.trunc_front
    Ringbuf.blank_front
session_there =
    played switched_on (5 ∷ 6 ∷ []) (7 ∷ []) _ _ on_time
      (local_came switched_on (5 ∷ []) (7 ∷ []) _ _ 6
        (played switched_on (5 ∷ []) (7 ∷ []) _ _ on_time
          (remote_came switched_on (5 ∷ []) [] _ _ 7 0
            (local_came switched_on [] [] _ _ 5 (begun unplayed _ refl) refl) refl)
          (omega arith) (omega arith) refl)
        refl)
      (omega arith) (omega arith) refl

confirmed_frames : played_here.sync_state.frame ≡ 1
unfolding init handle_local_input handle_remote_input run_frame process_delayed_input catch_up
    synchronize num_inputs save_head save_sync checkpoint rollback_sync restored replay_confirmed
    predict drop_inputs replay_local_input check_frame play_frame play_frame_fast mirror drift
    Ringbuf.new Ringbuf.push_back Ringbuf.push_loop Ringbuf.at Ringbuf.set_at Ringbuf.trunc_front
    Ringbuf.blank_front
confirmed_frames = refl

Reachable-Synced_example : Synced adder switched_on (7 ∷ 8 ∷ []) (5 ∷ []) played_here
Reachable-Synced_example =
    Reachable-Synced adder switched_on (7 ∷ 8 ∷ []) (5 ∷ []) played_here session_here

Reachable-SameInputs_example :
    SameInputs adder switched_on switched_on (7 ∷ []) (5 ∷ []) played_here played_there
unfolding init handle_local_input handle_remote_input run_frame process_delayed_input catch_up
    synchronize num_inputs save_head save_sync checkpoint rollback_sync restored replay_confirmed
    predict drop_inputs replay_local_input check_frame play_frame play_frame_fast mirror drift
    Ringbuf.new Ringbuf.push_back Ringbuf.push_loop Ringbuf.at Ringbuf.set_at Ringbuf.trunc_front
    Ringbuf.blank_front
Reachable-SameInputs_example =
    Reachable-SameInputs adder switched_on switched_on (7 ∷ []) (8 ∷ []) (5 ∷ []) (6 ∷ [])
      played_here played_there session_here session_there refl

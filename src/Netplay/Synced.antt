-- ===== src/Netplay/Synced.antt =====
-- The invariant of a game: its synchronized checkpoint was taken in a state that the confirmed inputs
-- of both players lead to.
use dendy.Prelude.{
  ℕ, ◌+◌, ◌-◌, ◌^◌, ◌≤◌, ◌<◌, ◌≡◌, refl, ap, ◌∙◌, sym, subst, ◌⊎◌, inl, inr, arith, min, Bool, true,
  false, if◌then◌else◌, List, length,
}
use dendy.Netplay.Console.{Console}
use dendy.Netplay.Outcome.{Outcome, ◌>>=◌, Ends, ends, Ends-bind}
use dendy.Netplay.Game.{
  Game, Late, save_sync, replay_local_input, check_frame, num_inputs, predict, drop_inputs,
}
use dendy.Netplay.Snapshots.{Captures, taken, Captures-taken}
use dendy.Netplay.Steps.{save_sync-then}
use dendy.Netplay.Inputs.{len-Window}
use dendy.Netplay.Replay.{Replayed, replay_local_input-Replayed}
use dendy.Netplay.Queues.{Queues, drop_inputs-InputsDropped, predict-Predicted}
use dendy.Netplay.Confirm.{Stopped, Finished}

module _ {S Snap : Type 0} (console : Console S Snap) where
  -- `locals` and `remotes` are all the inputs since `start`; `done` of each are confirmed.
  pub record Synced (start : S) (locals remotes : List ℕ) (g : Game S Snap) : Type 0 where
    pub done : ℕ
    pub queues : Queues console g locals remotes done
    pub captured : Captures console start locals remotes done g.sync_state
    pub reached : done ≤ g.frame
    pub fed : g.frame ≤ length locals + 1
    pub small : g.frame < 2 ^ 32
    pub pending :
        (g.catchup_input_pos ≡ 0)
        ⊎ ((g.catchup_state.rolled_back ≡ false)
            × (g.catchup_state.frame ≡ done + g.catchup_input_pos)
            × (done + g.catchup_input_pos ≤ g.frame))

  -- What the delayed inputs change: the frame counter is where it was, and so many more inputs
  -- are confirmed as both players have sent for the frames played, unless the clock was late.
  pub record Processed (late : Late) (start : S) (locals remotes : List ℕ) (g : Game S Snap)
      (done : ℕ) (out : Game S Snap) : Type 0 where
    pub synced : Synced start locals remotes out
    pub same_frame : out.frame ≡ g.frame
    pub kept : done ≤ synced.done
    pub progress :
        (synced.done ≡ min (min (length locals) (length remotes)) g.frame)
        ⊎ (late.sync (synced.done - done) ≡ true)
        ⊎ (late.catchup out.catchup_input_pos ≡ true)

  pub num_inputs_lem :
      (g : Game S Snap) (locals remotes : List ℕ) (done : ℕ)
      → Queues console g locals remotes done
      → g.sync_state.frame ≡ done
      → done ≤ g.frame
      → g.frame < 2 ^ 32
      → done + num_inputs console g ≡ min (min (length locals) (length remotes)) g.frame
  unfolding num_inputs
  num_inputs_lem g locals remotes done q hs hd hw = omega (
    arith,
    len-Window g.local_input locals done q.local,
    len-Window g.remote_input remotes done q.remote,
    q.local.within,
    q.remote.within,
  )

  pub num_inputs-le :
      (g : Game S Snap)
      → (num_inputs console g ≤ g.local_input.len) × (num_inputs console g ≤ g.remote_input.len)
  unfolding num_inputs
  num_inputs-le g = (omega arith, omega arith)

  check_frame-Ends :
      (end_frame : ℕ) (g : Game S Snap) (P : Game S Snap → Type 0)
      → g.frame ≡ end_frame
      → P g
      → Ends console (check_frame console end_frame g) P
  unfolding check_frame
  check_frame-Ends end_frame g P e p = ends g (ground arith) p

  -- What follows the confirmed inputs, as `synchronize` has it.
  abbrev pub after_confirmed : Late → ℕ → ℕ → Bool × Game S Snap → Outcome (Game S Snap)
  after_confirmed late end_frame n (stopped, confirmed) =
      if stopped then check_frame console end_frame confirmed else (do
        guessed ← predict console (confirmed.predicted_remote_input.len - n) n (n - 1) confirmed
        saved ← save_sync console guessed
        dropped ← drop_inputs console n saved
        replayed ← replay_local_input console late.replay (end_frame - dropped.frame) 0 dropped
        check_frame console end_frame replayed)

  -- A replay that ran out of time keeps what it confirmed.
  pub Stopped-Processed :
      (late : Late) (start : S) (locals remotes : List ℕ) (g rolled : Game S Snap)
      (result : Bool × Game S Snap) (done n : ℕ)
      → Stopped console late.sync start locals remotes rolled g.frame done n result
      → rolled.catchup_input_pos ≡ 0
      → done + n ≤ g.frame
      → g.frame ≤ length locals
      → g.frame < 2 ^ 32
      → Ends console
          (after_confirmed late g.frame n result)
          (Processed late start locals remotes g done)
  Stopped-Processed late start locals remotes g rolled result done n st hp hn hl hw =
      let out : Game S Snap = record rolled {
        nes = st.nes;
        frame = g.frame;
        head_state = st.head;
        sync_state = st.sync;
        local_input = st.local;
        remote_input = st.remote;
        predicted_remote_input = st.predicted;
      } in
      let processed : Processed late start locals remotes g done out = record {
        synced = record {
          done = done + st.k;
          queues = record {
            local = st.local_window;
            remote = st.remote_window;
            guesses = st.guesses;
          };
          captured = st.captured;
          reached = omega (arith, st.some_left);
          fed = omega arith;
          small = hw;
          pending = inl hp;
        };
        same_frame = refl;
        kept = omega arith;
        progress =
            inr
              (inl (ap late.sync {x = done + st.k - done} {y = st.k} (omega arith) ∙ st.was_late));
      } in
      subst
        (λ t.
          Ends console (after_confirmed late g.frame n t)
            (Processed late start locals remotes g done))
        (sym st.same)
        (check_frame-Ends g.frame out (Processed late start locals remotes g done) refl processed)

  -- The new synchronized checkpoint is in place: the confirmed inputs are dropped, and the
  -- predicted ones replayed.
  saved-Processed :
      (late : Late) (start : S) (locals remotes : List ℕ) (g saved : Game S Snap) (done n : ℕ)
      → Queues console saved locals remotes done
      → Captures console start locals remotes (done + n) saved.sync_state
      → saved.frame ≡ done + n
      → saved.head_state.rolled_back ≡ false
      → saved.head_state.frame ≡ g.frame
      → n ≤ saved.local_input.len
      → n ≤ saved.remote_input.len
      → done + n ≡ min (min (length locals) (length remotes)) g.frame
      → g.frame ≤ length locals
      → g.frame < 2 ^ 32
      → Ends console
          (do
            dropped ← drop_inputs console n saved
            replayed ← replay_local_input console late.replay (g.frame - dropped.frame) 0 dropped
            check_frame console g.frame replayed)
          (Processed late start locals remotes g done)
  saved-Processed late start locals remotes g saved done n q captured hf usable at_end nl nr hm hl
        hw =
      let d = drop_inputs-InputsDropped console saved n locals remotes done q nl nr in
      let dropped : Game S Snap = record saved {
        local_input = d.local;
        remote_input = d.remote;
        predicted_remote_input = d.predicted;
      } in
      let P = Processed late start locals remotes g done in
      let last = g.frame - saved.frame in
      let room : last ≤ d.local.len =
        omega (arith, len-Window d.local locals (done + n) d.local_window) in
      rw d.returns (
        Ends-bind console (replay_local_input console late.replay last 0 dropped)
          (check_frame console g.frame) (Replayed console late.replay dropped g.frame last) P
          (replay_local_input-Replayed console late.replay last 0 g.frame last dropped
            d.local_window.valid d.guesses.valid room (omega (arith, d.guesses.counted))
            (omega arith) (omega arith) hw usable at_end)
          (λ replayed r.
            subst (λ t. Ends console (check_frame console g.frame t) P) (sym r.same)
              (check_frame-Ends g.frame _ P refl (record {
                synced = record {
                  done = done + n;
                  queues = record {
                    local = d.local_window;
                    remote = d.remote_window;
                    guesses = d.guesses;
                  };
                  captured = captured;
                  reached = omega arith;
                  fed = omega arith;
                  small = hw;
                  pending = elim r.pending [
                    | inl e ↦ inl e
                    | inr (_, fresh, number, ahead) ↦ inr (fresh, omega arith, omega arith)
                  ];
                };
                same_frame = refl;
                kept = omega arith;
                progress = inl hm;
              }))))

  -- After the confirmed inputs, the guesses are made anew.
  pub Finished-Processed :
      (late : Late) (start : S) (locals remotes : List ℕ) (g rolled : Game S Snap)
      (result : Bool × Game S Snap) (done n : ℕ)
      → Finished console start locals remotes rolled done n result
      → Queues console rolled locals remotes done
      → rolled.head_state.rolled_back ≡ false
      → rolled.head_state.frame ≡ g.frame
      → 0 < n
      → n ≤ rolled.local_input.len
      → n ≤ rolled.remote_input.len
      → done + n ≡ min (min (length locals) (length remotes)) g.frame
      → g.frame ≤ length locals
      → g.frame < 2 ^ 32
      → Ends console
          (after_confirmed late g.frame n result)
          (Processed late start locals remotes g done)
  Finished-Processed late start locals remotes g rolled result done n fin q usable at_end hn nl nr
        hm hl hw =
      let confirmed : Game S Snap = record rolled { nes = fin.nes; frame = done + n } in
      let p =
        predict-Predicted console (rolled.predicted_remote_input.len - n) n (n - 1) remotes done
          rolled.local_input.len confirmed q.remote (omega arith) q.guesses
          (omega (arith, q.guesses.counted)) in
      let guessed : Game S Snap = record confirmed { predicted_remote_input = p.predicted } in
      let P = Processed late start locals remotes g done in
      let resume : Game S Snap → Outcome (Game S Snap) = λ saved. (do
        dropped ← drop_inputs console n saved
        replayed ← replay_local_input console late.replay (g.frame - dropped.frame) 0 dropped
        check_frame console g.frame replayed) in
      subst (λ t. Ends console (after_confirmed late g.frame n t) P) (sym fin.same)
        (rw p.returns (
          save_sync-then console resume P guessed λ snap saved_as.
            saved-Processed late start locals remotes g
              (record guessed { sync_state = taken console fin.nes (done + n) snap }) done n
              (record {
                local = q.local;
                remote = q.remote;
                guesses = record {
                  valid = p.guesses.valid;
                  counted = p.guesses.counted ∙ q.guesses.counted;
                };
              })
              (Captures-taken console start locals remotes (done + n) fin.nes (done + n) snap
                fin.confirmed saved_as refl)
              refl usable at_end nl nr hm hl hw))

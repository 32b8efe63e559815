-- ===== src/Netplay/Delayed.antt =====
-- `processDelayedInput` as a whole.
use dendy.Prelude.{
  ℕ, ◌+◌, ◌-◌, ◌≤◌, ◌≡◌, ◌≢◌, refl, ap, ◌∙◌, sym, subst, ◌⊎◌, inl, inr, arith, min, true, false,
  ◌<◌, ◌^◌, ◌==◌, Bool-cases, List, length,
}
use dendy.Netplay.Console.{Console}
use dendy.Netplay.Outcome.{Outcome, ◌>>=◌, Ends, ends, Ends-bind, Ends-map}
use dendy.Netplay.Game.{
  Game, Late, rollback_sync, rollback_catchup, synchronize, catch_up, num_inputs,
  process_delayed_input, replay_confirmed, replay_local_input,
}
use dendy.Netplay.Snapshots.{Confirmed, Captures, Captures-Confirmed, taken, held_by}
use dendy.Netplay.Steps.{save_head-then, rollback_sync-then, rollback_catchup-then}
use dendy.Netplay.Inputs.{len-Window}
use dendy.Netplay.Replay.{Replayed, replay_local_input-Replayed}
use dendy.Netplay.Queues.{Queues}
use dendy.Netplay.Confirm.{Stopped, Finished, replay_confirmed-Stopped_or_Finished}
use dendy.Netplay.Synced.{
  Synced, Processed, num_inputs_lem, num_inputs-le, after_confirmed, Stopped-Processed,
  Finished-Processed,
}

module _ {S Snap : Type 0} (console : Console S Snap) where
  -- The confirmed inputs from a console that was rolled back to the synchronized checkpoint.
  confirm-Processed :
      (late : Late) (start : S) (locals remotes : List ℕ) (g rolled : Game S Snap) (done n : ℕ)
      → Queues console rolled locals remotes done
      → Confirmed console start locals remotes done rolled.nes
      → rolled.frame ≡ done
      → rolled.head_state.rolled_back ≡ false
      → rolled.head_state.frame ≡ g.frame
      → rolled.catchup_input_pos ≡ 0
      → 0 < n
      → n ≤ rolled.local_input.len
      → n ≤ rolled.remote_input.len
      → done + n ≡ min (min (length locals) (length remotes)) g.frame
      → g.frame ≤ length locals
      → g.frame < 2 ^ 32
      → Ends console
          (replay_confirmed console late.sync n 0 rolled >>= after_confirmed console late g.frame n)
          (Processed console late start locals remotes g done)
  confirm-Processed late start locals remotes g rolled done n q confirmed hf usable at_end caught hn
        nl nr hm fed small =
      Ends-bind console (replay_confirmed console late.sync n 0 rolled)
        (after_confirmed console late g.frame n)
        (λ result.
          Stopped console late.sync start locals remotes rolled g.frame done n result
          ⊎ Finished console start locals remotes rolled done n result)
        (Processed console late start locals remotes g done)
        (replay_confirmed-Stopped_or_Finished console late.sync n 0 n g.frame done start locals
          remotes rolled q (omega arith) nl nr (omega arith) (omega arith) small usable at_end
          (subst (λ t. Confirmed console start locals remotes t rolled.nes) {x = done}
            {y = done + 0} (omega arith) confirmed))
        (λ result o. elim o [
          | inl st ↦
              Stopped-Processed console late start locals remotes g rolled result done n st caught
                (omega arith) fed small
          | inr fin ↦
              Finished-Processed console late start locals remotes g rolled result done n fin q
                usable at_end hn nl nr hm fed small
        ])

  synchronize-Processed :
      (late : Late) (start : S) (locals remotes : List ℕ) (g : Game S Snap)
      (s : Synced console start locals remotes g)
      → g.frame ≤ length locals
      → g.catchup_input_pos ≡ 0
      → Ends console
          (synchronize console late g.frame g)
          (Processed console late start locals remotes g s.done)
  unfolding synchronize
  synchronize-Processed late start locals remotes g s fed caught =
      let n = num_inputs console g in
      let counted =
        num_inputs_lem console g locals remotes s.done s.queues s.captured.at_frame s.reached
          s.small in
      let (nl, nr) = num_inputs-le console g in
      let P = Processed console late start locals remotes g s.done in
      let confirm : Game S Snap → Outcome (Game S Snap) = λ rolled.
        replay_confirmed console late.sync n 0 rolled >>= after_confirmed console late g.frame n in
      elim (Bool-cases (num_inputs console g == 0)) [
        | inl e ↦ ends g (rw e refl) (record {
          synced = s;
          same_frame = refl;
          kept = omega arith;
          progress = (let nothing : n ≡ 0 = ground arith in inl (omega (arith, counted, nothing)));
        })
        | inr e ↦ rw e (
            save_head-then console (λ headed. rollback_sync console headed >>= confirm) P g
              λ snap.
                rollback_sync-then console confirm P
                  (record g { head_state = taken console g.nes g.frame snap }) s.captured.usable
                  λ loaded loaded_as.
                    confirm-Processed late start locals remotes g
                      (record g {
                        head_state = taken console g.nes g.frame snap;
                        nes = held_by console g.sync_state loaded;
                        frame = g.sync_state.frame;
                        sync_state = record g.sync_state { rolled_back = true };
                      })
                      s.done n
                      (record {
                        local = s.queues.local;
                        remote = s.queues.remote;
                        guesses = s.queues.guesses;
                      })
                      (Captures-Confirmed console start locals remotes s.done g.sync_state g.nes
                        loaded s.captured loaded_as)
                      s.captured.at_frame refl refl caught (ground arith) nl nr counted fed s.small)
      ]

  -- What catching up leaves: the confirmed inputs are as they were.
  record Caught (late : Late) (start : S) (locals remotes : List ℕ) (g : Game S Snap) (done : ℕ)
      (out : Game S Snap) : Type 0 where
    pub synced : Synced console start locals remotes out
    pub same_done : synced.done ≡ done
    pub same_frame : out.frame ≡ g.frame
    pub stops : (out.catchup_input_pos ≡ 0) ⊎ (late.catchup out.catchup_input_pos ≡ true)

  -- A replay from the kept state on leaves the game synchronized.
  Replayed-Caught :
      (late : Late) (start : S) (locals remotes : List ℕ) (g rolled out : Game S Snap)
      (s : Synced console start locals remotes g)
      → rolled.sync_state ≡ g.sync_state
      → Queues console rolled locals remotes s.done
      → Replayed console late.catchup rolled g.frame (g.frame - s.done) out
      → Caught late start locals remotes g s.done out
  Replayed-Caught late start locals remotes g rolled out s same q r =
      subst (Caught late start locals remotes g s.done) (sym r.same) (record {
        synced = record {
          done = s.done;
          queues = record { local = q.local; remote = q.remote; guesses = q.guesses };
          captured = subst (Captures console start locals remotes s.done) (sym same) s.captured;
          reached = s.reached;
          fed = s.fed;
          small = s.small;
          pending = elim r.pending [
            | inl idle ↦ inl idle
            | inr (_, usable, number, within) ↦
                inr (usable, omega (arith, s.reached), omega (arith, s.reached))
          ];
        };
        same_done = refl;
        same_frame = refl;
        stops = elim r.pending [ inl idle ↦ inl idle | inr (slow, _, _, _) ↦ inr slow ];
      })

  catch_up-Caught :
      (late : Late) (start : S) (locals remotes : List ℕ) (g : Game S Snap)
      (s : Synced console start locals remotes g)
      → g.frame ≤ length locals
      → Ends console (catch_up console late g) (Caught late start locals remotes g s.done)
  unfolding catch_up
  catch_up-Caught late start locals remotes g s fed = elim (Bool-cases (g.catchup_input_pos == 0)) [
    | inl e ↦ ends g (rw e refl) (record {
      synced = s;
      same_done = refl;
      same_frame = refl;
      stops = (let idle : g.catchup_input_pos ≡ 0 = ground arith in inl idle);
    })
    | inr e ↦ elim s.pending [
      | inl idle ↦ (let busy : g.catchup_input_pos ≢ 0 = ground arith in absurd (busy idle))
      | inr (fresh, at_frame, ahead) ↦
          let P = Caught late start locals remotes g s.done in
          let replay : Game S Snap → Outcome (Game S Snap) = λ rolled.
            replay_local_input console late.catchup (rolled.head_state.frame - rolled.frame)
              g.catchup_input_pos rolled in
          let counted = len-Window g.local_input locals s.done s.queues.local in
          let room : g.frame - s.done ≤ g.local_input.len = omega arith in
          rw e (
            save_head-then console (λ headed. rollback_catchup console headed >>= replay) P g
              λ snap.
                rollback_catchup-then console replay P
                  (record g { head_state = taken console g.nes g.frame snap }) fresh
                  λ loaded.
                    let rolled : Game S Snap = record g {
                      head_state = taken console g.nes g.frame snap;
                      nes = held_by console g.catchup_state loaded;
                      frame = g.catchup_state.frame;
                      catchup_state = record g.catchup_state { rolled_back = true };
                    } in
                    let queues : Queues console rolled locals remotes s.done = record {
                      local = s.queues.local;
                      remote = s.queues.remote;
                      guesses = s.queues.guesses;
                    } in
                    Ends-map console (replay rolled)
                      (Replayed console late.catchup rolled g.frame (g.frame - s.done)) P
                      (replay_local_input-Replayed console late.catchup
                        (g.frame - g.catchup_state.frame) g.catchup_input_pos g.frame
                        (g.frame - s.done) rolled s.queues.local.valid s.queues.guesses.valid room
                        (omega (arith, s.queues.guesses.counted)) (omega arith) (omega arith)
                        s.small refl refl)
                      (λ out. Replayed-Caught late start locals remotes g rolled out s refl queues))
    ]
  ]

  -- What is shown of the delayed inputs, from what catching up left.
  Caught-Processed :
      (late : Late) (start : S) (locals remotes : List ℕ) (g mid out : Game S Snap) (done : ℕ)
      (c : Caught late start locals remotes g done mid)
      → Processed console late start locals remotes mid c.synced.done out
      → Processed console late start locals remotes g done out
  Caught-Processed late start locals remotes g mid out done c p = record {
    synced = p.synced;
    same_frame = p.same_frame ∙ c.same_frame;
    kept = omega (arith, c.same_done, p.kept);
    progress = elim p.progress [
      | inl all ↦ inl (all ∙ ap (min (min (length locals) (length remotes))) c.same_frame)
      | inr (inl slow) ↦
          inr (inl (ap (λ t. late.sync (p.synced.done - t)) (sym c.same_done) ∙ slow))
      | inr (inr slow) ↦ inr (inr slow)
    ];
  }

  -- On a synchronized game with a local input for every frame played, processDelayedInput does
  -- not panic of its own, whatever the clock says: it stops only at a panic of the console, which
  -- then has a call that panics. When it returns, the game is at the frame it started from, its
  -- synchronized checkpoint was taken in a state that the confirmed inputs of both players lead
  -- to, no confirmed input is lost, and all inputs of both players up to that frame are confirmed
  -- unless the clock was late.
  pub process_delayed_input-Processed :
      (late : Late) (start : S) (locals remotes : List ℕ) (g : Game S Snap)
      (s : Synced console start locals remotes g)
      → g.frame ≤ length locals
      → Ends console
          (process_delayed_input console late g)
          (Processed console late start locals remotes g s.done)
  unfolding process_delayed_input
  process_delayed_input-Processed late start locals remotes g s fed =
      let P = Processed console late start locals remotes g s.done in
      Ends-bind console (catch_up console late g) _ (Caught late start locals remotes g s.done) P
        (catch_up-Caught late start locals remotes g s fed)
        (λ mid c. elim (Bool-cases (mid.catchup_input_pos == 0)) [
          | inl e ↦
              let idle : mid.catchup_input_pos ≡ 0 = ground arith in
              let sync =
                synchronize-Processed late start locals remotes mid c.synced
                  (omega (arith, c.same_frame)) idle in
              rw e (
                subst (λ t. Ends console (synchronize console late t mid) P) c.same_frame
                  (Ends-map console (synchronize console late mid.frame mid) _ P sync
                    (λ out. Caught-Processed late start locals remotes g mid out s.done c)))
          | inr e ↦
              let busy : mid.catchup_input_pos ≢ 0 = ground arith in
              ends mid (rw e refl) (record {
                synced = c.synced;
                same_frame = c.same_frame;
                kept = omega (arith, c.same_done);
                progress = elim c.stops [
                  | inl idle ↦ absurd (busy idle)
                  | inr slow ↦ inr (inr slow)
                ];
              })
        ])

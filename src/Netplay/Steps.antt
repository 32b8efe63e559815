-- ===== src/Netplay/Steps.antt =====
-- Saving, rolling back and playing a frame of netplay/game.go, with what follows them.
use dendy.Prelude.{◌+◌, ◌<◌, ◌^◌, ◌≡◌, refl, u32, false, true, ◌==◌, arith, some, inl, inr}
use dendy.Netplay.Console.{Console, plays_fast, saves, loads}
use dendy.Netplay.Outcome.{Outcome, ◌>>=◌, Ends, stops, Option_cases}
use dendy.Netplay.Game.{
  Game, checkpoint, restored, save_sync, save_head, save_catchup, rollback_sync, rollback_head,
  rollback_catchup, play_frame_fast,
}
use dendy.Netplay.Snapshots.{taken, held_by}

module _ {S Snap : Type 0} (console : Console S Snap) where
  module _ {A : Type 0} (rest : Game S Snap → Outcome A) (P : A → Type 0) where
    -- What follows a call holds if it holds for each of its results.
    pub save_sync-then :
        (g : Game S Snap)
        → ((snap : Snap)
            → console.save_state g.nes ≡ some snap
            → Ends console (rest (record g { sync_state = taken console g.nes g.frame snap })) P)
        → Ends console (save_sync console g >>= rest) P
    unfolding save_sync checkpoint
    save_sync-then g h = elim (Option_cases (console.save_state g.nes)) [
      | inl e ↦ stops (rw e refl) (saves g.nes e)
      | inr (snap, e) ↦ rw e (h snap e)
    ]

    pub save_head-then :
        (g : Game S Snap)
        → ((snap : Snap)
            → Ends console (rest (record g { head_state = taken console g.nes g.frame snap })) P)
        → Ends console (save_head console g >>= rest) P
    unfolding save_head checkpoint
    save_head-then g h = elim (Option_cases (console.save_state g.nes)) [
      | inl e ↦ stops (rw e refl) (saves g.nes e)
      | inr (snap, e) ↦ rw e (h snap)
    ]

    pub save_catchup-then :
        (g : Game S Snap)
        → ((snap : Snap)
            → Ends console (rest (record g { catchup_state = taken console g.nes g.frame snap })) P)
        → Ends console (save_catchup console g >>= rest) P
    unfolding save_catchup checkpoint
    save_catchup-then g h = elim (Option_cases (console.save_state g.nes)) [
      | inl e ↦ stops (rw e refl) (saves g.nes e)
      | inr (snap, e) ↦ rw e (h snap)
    ]

    pub rollback_sync-then :
        (g : Game S Snap)
        → g.sync_state.rolled_back ≡ false
        → ((loaded : S)
            → console.load_state g.sync_state.state g.nes ≡ some loaded
            → Ends console
                (rest (record g {
                  nes = held_by console g.sync_state loaded;
                  frame = g.sync_state.frame;
                  sync_state = record g.sync_state { rolled_back = true };
                }))
                P)
        → Ends console (rollback_sync console g >>= rest) P
    unfolding rollback_sync restored
    rollback_sync-then g usable h =
        elim (Option_cases (console.load_state g.sync_state.state g.nes)) [
          | inl e ↦ stops (rw (usable, e) refl) (loads g.sync_state.state g.nes e)
          | inr (loaded, e) ↦ rw (usable, e) (h loaded e)
        ]

    pub rollback_head-then :
        (g : Game S Snap)
        → g.head_state.rolled_back ≡ false
        → ((loaded : S)
            → Ends console
                (rest (record g {
                  nes = held_by console g.head_state loaded;
                  frame = g.head_state.frame;
                  head_state = record g.head_state { rolled_back = true };
                }))
                P)
        → Ends console (rollback_head console g >>= rest) P
    unfolding rollback_head restored
    rollback_head-then g usable h =
        elim (Option_cases (console.load_state g.head_state.state g.nes)) [
          | inl e ↦ stops (rw (usable, e) refl) (loads g.head_state.state g.nes e)
          | inr (loaded, e) ↦ rw (usable, e) (h loaded)
        ]

    pub rollback_catchup-then :
        (g : Game S Snap)
        → g.catchup_state.rolled_back ≡ false
        → ((loaded : S)
            → Ends console
                (rest (record g {
                  nes = held_by console g.catchup_state loaded;
                  frame = g.catchup_state.frame;
                  catchup_state = record g.catchup_state { rolled_back = true };
                }))
                P)
        → Ends console (rollback_catchup console g >>= rest) P
    unfolding rollback_catchup restored
    rollback_catchup-then g usable h =
        elim (Option_cases (console.load_state g.catchup_state.state g.nes)) [
          | inl e ↦ stops (rw (usable, e) refl) (loads g.catchup_state.state g.nes e)
          | inr (loaded, e) ↦ rw (usable, e) (h loaded)
        ]

    pub play_frame_fast-then :
        (g : Game S Snap)
        → g.frame + 1 < 2 ^ 32
        → ((nes : S)
            → console.play_fast g.nes ≡ some nes
            → Ends console (rest (record g { nes = nes; frame = g.frame + 1 })) P)
        → Ends console (play_frame_fast console g >>= rest) P
    unfolding play_frame_fast
    play_frame_fast-then g small h =
        let no_wrap : u32 (g.frame + 1) ≡ g.frame + 1 = omega arith in
        let running : (g.frame + 1 == 0) ≡ false = ground arith in
        elim (Option_cases (console.play_fast g.nes)) [
          | inl e ↦ stops (rw e refl) (plays_fast g.nes e)
          | inr (nes, e) ↦ rw (e, no_wrap, running) (h nes e)
        ]

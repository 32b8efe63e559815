-- ===== src/Netplay/Replay.antt =====
-- The replay of predicted inputs, from a rolled back state to the frame it came from.
use dendy.Prelude.{
  ℕ, zero, suc, ◌+◌, ◌^◌, ◌≤◌, ◌<◌, ◌≡◌, refl, ap, ◌∙◌, ◌⊎◌, inl, inr, arith, Bool, true, false,
  Bool-cases, some, pos, get_elem?-tabulate,
}
use dendy.Ringbuf.{Buffer, at}
use dendy.Ringbuf.Valid.{IsValid, item_at}
use dendy.Ringbuf.Access.{at_some}
use dendy.Netplay.Console.{Console}
use dendy.Netplay.Outcome.{returned, ◌>>=◌, Ends, ends, Ends-map}
use dendy.Netplay.Game.{Checkpoint, Game, rollback_head, replay_local_input}
use dendy.Netplay.Snapshots.{taken, held_by}
use dendy.Netplay.Steps.{save_catchup-then, rollback_head-then, play_frame_fast-then}

pub at_in_range : (q : Buffer ℕ) (i : ℕ) → IsValid q → i < q.len → at q (pos i) ≡ some (item_at q i)
at_in_range q i v h = at_some q i v h ∙ get_elem?-tabulate q.len i (item_at q) h

module _ {S Snap : Type 0} (console : Console S Snap) where
  -- What a replay leaves: it is back at frame `end`; either it has come to the end, or the state
  -- that it reached is kept for later, at the frame of its next input.
  pub record Replayed (late : ℕ → Bool) (g : Game S Snap) (end last : ℕ) (out : Game S Snap)
      : Type 0 where
    pub nes : S
    pub head : Checkpoint Snap
    pub catchup : Checkpoint Snap
    pub next : ℕ
    pub same : out ≡ record g {
      nes = nes;
      frame = end;
      head_state = head;
      catchup_state = catchup;
      catchup_input_pos = next;
    }
    pub pending :
        (next ≡ 0)
        ⊎ ((late next ≡ true)
            × (catchup.rolled_back ≡ false)
            × (catchup.frame + last ≡ end + next)
            × (next ≤ last))

  -- The replay never runs off the inputs: it keeps the buffers and the synchronized state.
  pub replay_local_input-Replayed :
      (late : ℕ → Bool) (left input_pos end last : ℕ) (g : Game S Snap)
      → IsValid g.local_input
      → IsValid g.predicted_remote_input
      → last ≤ g.local_input.len
      → last ≤ g.predicted_remote_input.len
      → input_pos + left ≡ last
      → g.frame + left ≡ end
      → end < 2 ^ 32
      → g.head_state.rolled_back ≡ false
      → g.head_state.frame ≡ end
      → Ends console (replay_local_input console late left input_pos g) (Replayed late g end last)
  unfolding replay_local_input
  replay_local_input-Replayed late zero input_pos end last g vl vp hl hp hi hf he usable at_end =
      ends (record g { catchup_input_pos = 0 }) refl
        (record {
          nes = g.nes;
          head = g.head_state;
          catchup = g.catchup_state;
          next = 0;
          same = ap (λ (t : ℕ). record g { frame = t; catchup_input_pos = 0 }) (omega arith);
          pending = inl refl;
        })
  replay_local_input-Replayed late (suc left) input_pos end last g vl vp hl hp hi hf he usable
        at_end =
      elim (Bool-cases (late input_pos)) [
        | inl e ↦ rw e (
            save_catchup-then console
              (λ saved. do
                back ← rollback_head console saved
                returned (record back { catchup_input_pos = input_pos }))
              (Replayed late g end last) g
              λ snap.
                rollback_head-then console
                  (λ back. returned (record back { catchup_input_pos = input_pos }))
                  (Replayed late g end last)
                  (record g { catchup_state = taken console g.nes g.frame snap }) usable
                  λ loaded.
                    ends
                      (record g {
                        nes = held_by console g.head_state loaded;
                        frame = g.head_state.frame;
                        head_state = record g.head_state { rolled_back = true };
                        catchup_state = taken console g.nes g.frame snap;
                        catchup_input_pos = input_pos;
                      })
                      refl
                      (record {
                        nes = held_by console g.head_state loaded;
                        head = record g.head_state { rolled_back = true };
                        catchup = taken console g.nes g.frame snap;
                        next = input_pos;
                        same =
                            ap
                              (λ (t : ℕ). record g {
                                nes = held_by console g.head_state loaded;
                                frame = t;
                                head_state = record g.head_state { rolled_back = true };
                                catchup_state = taken console g.nes g.frame snap;
                                catchup_input_pos = input_pos;
                              })
                              at_end;
                        pending = inr (e, refl, omega arith, omega arith);
                      }))
        | inr e ↦
            let remote = item_at g.predicted_remote_input input_pos in
            let local = item_at g.local_input input_pos in
            let held : Game S Snap = record g {
              nes = console.set_local (console.set_remote g.nes remote) local;
            } in
            rw
              (
                e,
                at_in_range g.predicted_remote_input input_pos vp (omega arith),
                at_in_range g.local_input input_pos vl (omega arith),
              )
              (play_frame_fast-then console (replay_local_input console late left (suc input_pos))
                (Replayed late g end last) held (omega arith)
                λ nes _.
                  Ends-map console
                    (replay_local_input console late left (suc input_pos)
                      (record held { nes = nes; frame = g.frame + 1 }))
                    (Replayed late (record held { nes = nes; frame = g.frame + 1 }) end last)
                    (Replayed late g end last)
                    (replay_local_input-Replayed late left (suc input_pos) end last
                      (record held { nes = nes; frame = g.frame + 1 }) vl vp hl hp (omega arith)
                      (omega arith) he usable at_end)
                    (λ out r. record {
                      nes = r.nes;
                      head = r.head;
                      catchup = r.catchup;
                      next = r.next;
                      same = r.same;
                      pending = r.pending;
                    }))
      ]

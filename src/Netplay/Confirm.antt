-- ===== src/Netplay/Confirm.antt =====
-- The replay of confirmed inputs, from the synchronized state on.
use dendy.Prelude.{
  ℕ, zero, suc, ◌+◌, ◌^◌, ◌≤◌, ◌<◌, ◌≡◌, refl, ap, subst, ◌⊎◌, inl, inr, arith, Bool, true, false,
  Bool-cases, List, get_or,
}
use dendy.Ringbuf.{Buffer}
use dendy.Netplay.Console.{Console}
use dendy.Netplay.Outcome.{Outcome, returned, ◌>>=◌, Ends, ends, Ends-map}
use dendy.Netplay.Game.{Checkpoint, Game, save_sync, rollback_head, drop_inputs, replay_confirmed}
use dendy.Netplay.Snapshots.{Confirmed, frame, Captures, taken, Captures-taken, held_by}
use dendy.Netplay.Steps.{save_sync-then, rollback_head-then, play_frame_fast-then}
use dendy.Netplay.Inputs.{Window, at-Window, Guesses}
use dendy.Netplay.Queues.{Queues, drop_inputs-InputsDropped}

module _ {S Snap : Type 0} (console : Console S Snap) where
  -- The replay ran out of time after `k` inputs: these are confirmed and dropped.
  pub record Stopped (late : ℕ → Bool) (start : S) (locals remotes : List ℕ) (g : Game S Snap)
      (end done n : ℕ) (result : Bool × Game S Snap) : Type 0 where
    pub k : ℕ
    pub some_left : k < n
    pub was_late : late k ≡ true
    pub nes : S
    pub head : Checkpoint Snap
    pub sync : Checkpoint Snap
    pub local : Buffer ℕ
    pub remote : Buffer ℕ
    pub predicted : Buffer ℕ
    pub same : result ≡ (
      true,
      record g {
        nes = nes;
        frame = end;
        head_state = head;
        sync_state = sync;
        local_input = local;
        remote_input = remote;
        predicted_remote_input = predicted;
      },
    )
    pub local_window : Window local locals (done + k)
    pub remote_window : Window remote remotes (done + k)
    pub guesses : Guesses predicted local.len
    pub captured : Captures console start locals remotes (done + k) sync

  -- The replay came to its end: the console is in a confirmed state.
  pub record Finished (start : S) (locals remotes : List ℕ) (g : Game S Snap) (done n : ℕ)
      (result : Bool × Game S Snap) : Type 0 where
    pub nes : S
    pub same : result ≡ (false, record g { nes = nes; frame = done + n })
    pub confirmed : Confirmed console start locals remotes (done + n) nes

  -- Neither outcome depends on the console and the frame at the start.
  from_start :
      (late : ℕ → Bool) (start : S) (locals remotes : List ℕ) (g : Game S Snap) (nes : S)
      (number end done n : ℕ) (result : Bool × Game S Snap)
      → let moved = record g { nes = nes; frame = number } in
        Stopped late start locals remotes moved end done n result
          ⊎ Finished start locals remotes moved done n result
        → Stopped late start locals remotes g end done n result
          ⊎ Finished start locals remotes g done n result
  from_start late start locals remotes g nes number end done n result (inl o) = inl (record {
    k = o.k;
    some_left = o.some_left;
    was_late = o.was_late;
    nes = o.nes;
    head = o.head;
    sync = o.sync;
    local = o.local;
    remote = o.remote;
    predicted = o.predicted;
    same = o.same;
    local_window = o.local_window;
    remote_window = o.remote_window;
    guesses = o.guesses;
    captured = o.captured;
  })
  from_start late start locals remotes g nes number end done n result (inr o) =
      inr (record { nes = o.nes; same = o.same; confirmed = o.confirmed })

  -- Back at the head state, the `i` inputs that were confirmed are dropped.
  dropped-Stopped :
      (late : ℕ → Bool) (start : S) (locals remotes : List ℕ) (g : Game S Snap) (nes : S)
      (head sync : Checkpoint Snap) (number end done i n : ℕ)
      → late i ≡ true
      → Queues console g locals remotes done
      → i < n
      → n ≤ g.local_input.len
      → n ≤ g.remote_input.len
      → number ≡ end
      → Captures console start locals remotes (done + i) sync
      → let back = record g { nes = nes; frame = number; sync_state = sync; head_state = head } in
        Ends console
          (do dropped ← drop_inputs console i back; returned (true, dropped))
          (Stopped late start locals remotes g end done n)
  dropped-Stopped late start locals remotes g nes head sync number end done i n e q hi hl hr at_end
        captured =
      let back : Game S Snap = record g {
        nes = nes;
        frame = number;
        sync_state = sync;
        head_state = head;
      } in
      let d =
        drop_inputs-InputsDropped console back i locals remotes done
          (record { local = q.local; remote = q.remote; guesses = q.guesses }) (omega arith)
          (omega arith) in
      let dropped : Game S Snap = record back {
        local_input = d.local;
        remote_input = d.remote;
        predicted_remote_input = d.predicted;
      } in
      ends (true, dropped) (rw d.returns refl)
        (record {
          k = i;
          some_left = hi;
          was_late = e;
          nes = nes;
          head = head;
          sync = sync;
          local = d.local;
          remote = d.remote;
          predicted = d.predicted;
          same =
              ap {A = ℕ} {B = Bool × Game S Snap} (λ t. (true, record dropped { frame = t }))
                at_end;
          local_window = d.local_window;
          remote_window = d.remote_window;
          guesses = d.guesses;
          captured = captured;
        })

  -- Out of time: the state is kept as the synchronized one, and the game goes back to its head.
  stop_lem :
      (late : ℕ → Bool) (start : S) (locals remotes : List ℕ) (g : Game S Snap) (end done i n : ℕ)
      → late i ≡ true
      → Queues console g locals remotes done
      → i < n
      → n ≤ g.local_input.len
      → n ≤ g.remote_input.len
      → g.frame ≡ done + i
      → g.head_state.rolled_back ≡ false
      → g.head_state.frame ≡ end
      → Confirmed console start locals remotes (done + i) g.nes
      → Ends console
          (do
            saved ← save_sync console g
            back ← rollback_head console saved
            dropped ← drop_inputs console i back
            returned (true, dropped))
          (Stopped late start locals remotes g end done n)
  stop_lem late start locals remotes g end done i n e q hi hl hr hf usable at_end confirmed =
      let P = Stopped late start locals remotes g end done n in
      let drops : Game S Snap → Outcome (Bool × Game S Snap) =
        λ back. (do dropped ← drop_inputs console i back; returned (true, dropped)) in
      save_sync-then console (λ saved. rollback_head console saved >>= drops) P g
        λ snap saved_as.
          rollback_head-then console drops P
            (record g { sync_state = taken console g.nes g.frame snap }) usable
            λ loaded.
              dropped-Stopped late start locals remotes g (held_by console g.head_state loaded)
                (record g.head_state { rolled_back = true }) (taken console g.nes g.frame snap)
                g.head_state.frame end done i n e q hi hl hr at_end
                (Captures-taken console start locals remotes (done + i) g.nes g.frame snap confirmed
                  saved_as hf)

  -- The confirmed inputs lead along the confirmed states, as far as the time allows.
  pub replay_confirmed-Stopped_or_Finished :
      (late : ℕ → Bool) (left i n end done : ℕ) (start : S) (locals remotes : List ℕ)
      (g : Game S Snap)
      → Queues console g locals remotes done
      → i + left ≡ n
      → n ≤ g.local_input.len
      → n ≤ g.remote_input.len
      → g.frame ≡ done + i
      → done + n ≤ end
      → end < 2 ^ 32
      → g.head_state.rolled_back ≡ false
      → g.head_state.frame ≡ end
      → Confirmed console start locals remotes (done + i) g.nes
      → Ends console (replay_confirmed console late left i g) (λ result.
        Stopped late start locals remotes g end done n result
        ⊎ Finished start locals remotes g done n result)
  unfolding replay_confirmed
  replay_confirmed-Stopped_or_Finished late zero i n end done start locals remotes g q hi hl hr hf
        he hw usable at_end confirmed =
      let all : i ≡ n = omega arith in
      ends (false, g) refl
        (inr (record {
          nes = g.nes;
          same =
              ap {A = ℕ} {B = Bool × Game S Snap} (λ t. (false, record g { frame = t }))
                (omega arith);
          confirmed =
              subst (λ t. Confirmed console start locals remotes (done + t) g.nes) all confirmed;
        }))
  replay_confirmed-Stopped_or_Finished late (suc left) i n end done start locals remotes g q hi hl
        hr hf he hw usable at_end confirmed =
      elim (Bool-cases (late i)) [
        | inl e ↦ rw e (
            Ends-map console _ _ _
              (stop_lem late start locals remotes g end done i n e q (omega arith) hl hr hf usable
                at_end confirmed)
              (λ result o. inl o))
        | inr e ↦
            let local = get_or locals (done + i) 0 in
            let remote = get_or remotes (done + i) 0 in
            let held : Game S Snap = record g {
              nes = console.set_remote (console.set_local g.nes local) remote;
            } in
            rw
              (
                e,
                at-Window g.local_input locals done i q.local (omega arith),
                at-Window g.remote_input remotes done i q.remote (omega arith),
              )
              (play_frame_fast-then console (replay_confirmed console late left (suc i))
                (λ result.
                  Stopped late start locals remotes g end done n result
                  ⊎ Finished start locals remotes g done n result)
                held (omega arith)
                λ nes played.
                  let next : Game S Snap = record held { nes = nes; frame = g.frame + 1 } in
                  Ends-map console (replay_confirmed console late left (suc i) next) _ _
                    (replay_confirmed-Stopped_or_Finished late left (suc i) n end done start locals
                      remotes next
                      (record { local = q.local; remote = q.remote; guesses = q.guesses })
                      (omega arith) hl hr (omega arith) he hw usable at_end
                      (subst (λ t. Confirmed console start locals remotes t nes)
                        {x = suc (done + i)} {y = done + suc i} (omega arith)
                        (frame (done + i) g.nes nes confirmed played)))
                    (λ result.
                      from_start late start locals remotes g nes (g.frame + 1) end done n result))
      ]

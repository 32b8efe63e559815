-- ===== src/Netplay/Snapshots.antt =====
-- The states that the confirmed inputs lead to, and the checkpoints taken in them.
use dendy.Prelude.{
  ℕ, suc, ◌≤◌, ◌<◌, ◌≡◌, refl, ap₂, ◌∙◌, sym, false, arith, some, List, ◌++◌, length, get_or,
}
use dendy.Netplay.Console.{Console}
use dendy.Netplay.Inputs.{get_or-append}
use dendy.Netplay.Game.{Checkpoint}

module _ {S Snap : Type 0} (console : Console S Snap) where
  -- `Confirmed start locals remotes n s`: `s` is reached from `start` by `n` frames, each with the
  -- next inputs of both players, in order; on the way a state may have been saved and loaded again,
  -- with the buttons that were held, over any other state.
  pub data Confirmed (start : S) (locals remotes : List ℕ) : ℕ → S → Type 0 where
    first : Confirmed start locals remotes 0 start
    frame :
        (n : ℕ) (s t : S)
        → Confirmed start locals remotes n s
        → console.play_fast
            (console.set_remote (console.set_local s (get_or locals n 0)) (get_or remotes n 0))
          ≡ some t
        → Confirmed start locals remotes (suc n) t
    reloaded :
        (n : ℕ) (s t u : S) (snap : Snap)
        → Confirmed start locals remotes n s
        → console.save_state s ≡ some snap
        → console.load_state snap t ≡ some u
        → Confirmed start locals remotes n (
            console.set_remote
              (console.set_local u (console.local_buttons s))
              (console.remote_buttons s))

  -- Only the first `n` inputs of each player matter.
  pub Confirmed-ext :
      (start : S) (locals locals' remotes remotes' : List ℕ) (n : ℕ) (s : S)
      → ((i : ℕ) → i < n → get_or locals i 0 ≡ get_or locals' i 0)
      → ((i : ℕ) → i < n → get_or remotes i 0 ≡ get_or remotes' i 0)
      → Confirmed start locals remotes n s
      → Confirmed start locals' remotes' n s
  Confirmed-ext start locals locals' remotes remotes' n s hl hr first = first
  Confirmed-ext start locals locals' remotes remotes' n v hl hr (frame m s t c e) =
      frame m s t
        (Confirmed-ext start locals locals' remotes remotes' m s (λ i p. hl i (omega arith))
          (λ i p. hr i (omega arith)) c)
        (ap₂ (λ a b. console.play_fast (console.set_remote (console.set_local s a) b))
            (sym (hl m (omega arith))) (sym (hr m (omega arith)))
          ∙ e)
  Confirmed-ext start locals locals' remotes remotes' n v hl hr (reloaded m s t u snap c e f) =
      reloaded m s t u snap (Confirmed-ext start locals locals' remotes remotes' m s hl hr c) e f

  -- A checkpoint that can be rolled back to, taken in a state that `n` confirmed frames lead to.
  pub record Captures (start : S) (locals remotes : List ℕ) (n : ℕ) (cp : Checkpoint Snap)
      : Type 0 where
    pub state : S
    pub confirmed : Confirmed start locals remotes n state
    pub snapshot : console.save_state state ≡ some cp.state
    pub local_held : cp.local_input ≡ console.local_buttons state
    pub remote_held : cp.remote_input ≡ console.remote_buttons state
    pub usable : cp.rolled_back ≡ false
    pub at_frame : cp.frame ≡ n

  -- Inputs that come later do not change what a checkpoint was taken in.
  pub Captures-append_local :
      (start : S) (locals more remotes : List ℕ) (n : ℕ) (cp : Checkpoint Snap)
      → n ≤ length locals
      → Captures start locals remotes n cp
      → Captures start (locals ++ more) remotes n cp
  Captures-append_local start locals more remotes n cp h c = record {
    state = c.state;
    confirmed =
        Confirmed-ext start locals (locals ++ more) remotes remotes n c.state
          (λ i p. sym (get_or-append locals more i 0 (omega arith))) (λ i p. refl) c.confirmed;
    snapshot = c.snapshot;
    local_held = c.local_held;
    remote_held = c.remote_held;
    usable = c.usable;
    at_frame = c.at_frame;
  }

  pub Captures-append_remote :
      (start : S) (locals remotes more : List ℕ) (n : ℕ) (cp : Checkpoint Snap)
      → n ≤ length remotes
      → Captures start locals remotes n cp
      → Captures start locals (remotes ++ more) n cp
  Captures-append_remote start locals remotes more n cp h c = record {
    state = c.state;
    confirmed =
        Confirmed-ext start locals locals remotes (remotes ++ more) n c.state (λ i p. refl)
          (λ i p. sym (get_or-append remotes more i 0 (omega arith))) c.confirmed;
    snapshot = c.snapshot;
    local_held = c.local_held;
    remote_held = c.remote_held;
    usable = c.usable;
    at_frame = c.at_frame;
  }

  -- The checkpoint of a state with its snapshot.
  abbrev pub taken : S → ℕ → Snap → Checkpoint Snap
  taken nes number snap = record {
    state = snap;
    frame = number;
    local_input = console.local_buttons nes;
    remote_input = console.remote_buttons nes;
    rolled_back = false;
  }

  pub Captures-taken :
      (start : S) (locals remotes : List ℕ) (n : ℕ) (nes : S) (number : ℕ) (snap : Snap)
      → Confirmed start locals remotes n nes
      → console.save_state nes ≡ some snap
      → number ≡ n
      → Captures start locals remotes n (taken nes number snap)
  Captures-taken start locals remotes n nes number snap c e f = record {
    state = nes;
    confirmed = c;
    snapshot = e;
    local_held = refl;
    remote_held = refl;
    usable = refl;
    at_frame = f;
  }

  abbrev pub held_by : Checkpoint Snap → S → S
  held_by cp loaded = console.set_remote (console.set_local loaded cp.local_input) cp.remote_input

  -- Loading a checkpoint of a confirmed state gives a confirmed state.
  pub Captures-Confirmed :
      (start : S) (locals remotes : List ℕ) (n : ℕ) (cp : Checkpoint Snap) (nes loaded : S)
      → Captures start locals remotes n cp
      → console.load_state cp.state nes ≡ some loaded
      → Confirmed start locals remotes n (held_by cp loaded)
  Captures-Confirmed start locals remotes n cp nes loaded c e =
      rw (c.local_held, c.remote_held)
        (reloaded n c.state nes loaded cp.state c.confirmed c.snapshot e)

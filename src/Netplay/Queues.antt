-- ===== src/Netplay/Queues.antt =====
-- The inputs of a game: dropping those that are confirmed, and guessing the remote ones anew.
use dendy.Prelude.{ℕ, zero, suc, ◌+◌, ◌≤◌, ◌<◌, ◌≡◌, refl, ◌∙◌, sym, arith, List, get_or}
use dendy.Ringbuf.{Buffer}
use dendy.Netplay.Console.{Console}
use dendy.Netplay.Outcome.{Outcome, returned}
use dendy.Netplay.Game.{Game, drop_inputs, predict}
use dendy.Netplay.Inputs.{
  Window, at-Window, len-Window, trunc_front-Dropped, Guesses, trunc_front-LeavesGuesses,
  set_at-LeavesGuesses,
}

module _ {S Snap : Type 0} (console : Console S Snap) where
  -- The inputs of a game: both windows start at `done`, and there is a guess for each local input.
  pub record Queues (g : Game S Snap) (locals remotes : List ℕ) (done : ℕ) : Type 0 where
    pub local : Window g.local_input locals done
    pub remote : Window g.remote_input remotes done
    pub guesses : Guesses g.predicted_remote_input g.local_input.len

  -- What dropping `n` confirmed inputs leaves.
  pub record InputsDropped (g : Game S Snap) (n : ℕ) (locals remotes : List ℕ) (done : ℕ)
      : Type 0 where
    pub local : Buffer ℕ
    pub remote : Buffer ℕ
    pub predicted : Buffer ℕ
    pub returns :
        drop_inputs console n g
        ≡ returned (record g {
          local_input = local;
          remote_input = remote;
          predicted_remote_input = predicted;
        })
    pub local_window : Window local locals (done + n)
    pub remote_window : Window remote remotes (done + n)
    pub guesses : Guesses predicted local.len

  pub drop_inputs-InputsDropped :
      (g : Game S Snap) (n : ℕ) (locals remotes : List ℕ) (done : ℕ)
      → Queues g locals remotes done
      → n ≤ g.local_input.len
      → n ≤ g.remote_input.len
      → InputsDropped g n locals remotes done
  unfolding drop_inputs
  drop_inputs-InputsDropped g n locals remotes done q hl hr =
      let l = trunc_front-Dropped g.local_input locals done n q.local hl in
      let r = trunc_front-Dropped g.remote_input remotes done n q.remote hr in
      let p = trunc_front-LeavesGuesses g.predicted_remote_input g.local_input.len n q.guesses hl in
      record {
        local = l.out;
        remote = r.out;
        predicted = p.out;
        returns = rw (l.returns, r.returns, p.returns) refl;
        local_window = l.window;
        remote_window = r.window;
        guesses = record {
          valid = p.guesses.valid;
          counted =
              p.guesses.counted
              ∙ omega (
                arith,
                len-Window g.local_input locals done q.local,
                len-Window l.out locals (done + n) l.window,
              );
        };
      }

  -- What rebuilding the guesses leaves.
  pub record Predicted (g : Game S Snap) (result : Outcome (Game S Snap)) : Type 0 where
    pub predicted : Buffer ℕ
    pub returns : result ≡ returned (record g { predicted_remote_input = predicted })
    pub guesses : Guesses predicted g.predicted_remote_input.len

  pub predict-Predicted :
      (left i last : ℕ) (remotes : List ℕ) (done n : ℕ) (g : Game S Snap)
      → Window g.remote_input remotes done
      → last < g.remote_input.len
      → Guesses g.predicted_remote_input n
      → i + left ≤ n
      → Predicted g (predict console left i last g)
  unfolding predict
  predict-Predicted zero i last remotes done n g w hl gs hi = record {
    predicted = g.predicted_remote_input;
    returns = refl;
    guesses = record { valid = gs.valid; counted = refl };
  }
  predict-Predicted (suc left) i last remotes done n g w hl gs hi =
      let b = get_or remotes (done + last) 0 in
      let s = set_at-LeavesGuesses g.predicted_remote_input n i b gs (omega arith) in
      let r =
        predict-Predicted left (suc i) last remotes done n
          (record g { predicted_remote_input = s.out }) w hl s.guesses (omega arith) in
      record {
        predicted = r.predicted;
        returns = rw (at-Window g.remote_input remotes done last w hl, s.returns) r.returns;
        guesses = record {
          valid = r.guesses.valid;
          counted = r.guesses.counted ∙ s.guesses.counted ∙ sym gs.counted;
        };
      }

-- ===== src/Netplay/Inputs.antt =====
-- The input buffers as windows on all the inputs of a player.
use dendy.Prelude.{
  ℕ, zero, suc, ◌+◌, ◌-◌, ◌≤◌, ◌<◌, ◌≡◌, refl, ap, ◌∙◌, sym, arith, Option, some, List, [], ◌∷◌,
  ◌++◌, length, get_elem?, get_or, drop, pos, length-drop, drop_all, length-append, length-set, set,
  get_elem?-eq-get_or,
}
use dendy.Ringbuf.{Buffer, at, set_at, push_back, trunc_front}
use dendy.Ringbuf.Valid.{IsValid, contents, length-contents}
use dendy.Ringbuf.Push.{Holds, push_back-Holds}
use dendy.Ringbuf.Trunc.{trunc_front-Holds}
use dendy.Ringbuf.Access.{at_some, set_at-Holds}

module _ {ℓ} {A : Type ℓ} where
  pub drop-drop : (n k : ℕ) (xs : List A) → drop n (drop k xs) ≡ drop (k + n) xs
  drop-drop n zero xs = ap (λ t. drop t xs) {y = 0 + n} (omega arith)
  drop-drop n (suc k) [] = drop_all [] n (omega arith) ∙ sym (drop_all [] (suc k + n) (omega arith))
  drop-drop n (suc k) (x ∷ xs) =
      drop-drop n k xs ∙ ap (λ t. drop t (x ∷ xs)) {x = suc (k + n)} {y = suc k + n} (omega arith)

  pub get_or-drop : (k i : ℕ) (xs : List A) (d : A) → get_or (drop k xs) i d ≡ get_or xs (k + i) d
  get_or-drop zero i xs d = ap (λ t. get_or xs t d) {y = 0 + i} (omega arith)
  get_or-drop (suc k) i [] d = refl
  get_or-drop (suc k) i (x ∷ xs) d =
      get_or-drop k i xs d
      ∙ ap (λ t. get_or (x ∷ xs) t d) {x = suc (k + i)} {y = suc k + i} (omega arith)

  pub drop-append : (k : ℕ) (xs ys : List A) → k ≤ length xs → drop k (xs ++ ys) ≡ drop k xs ++ ys
  drop-append zero xs ys h = refl
  drop-append (suc k) [] ys h = absurd (omega arith)
  drop-append (suc k) (x ∷ xs) ys h = drop-append k xs ys (omega arith)

  pub get_or-append :
      (xs ys : List A) (i : ℕ) (d : A) → i < length xs → get_or (xs ++ ys) i d ≡ get_or xs i d
  get_or-append [] ys i d h = absurd (omega arith)
  get_or-append (x ∷ xs) ys zero d h = refl
  get_or-append (x ∷ xs) ys (suc i) d h = get_or-append xs ys i d (omega arith)

-- The buffer holds all the inputs but the first `done`, which are confirmed.
pub record Window (q : Buffer ℕ) (inputs : List ℕ) (done : ℕ) : Type 0 where
  pub valid : IsValid q
  pub holds : contents q ≡ drop done inputs
  pub within : done ≤ length inputs

pub len-Window :
    (q : Buffer ℕ) (inputs : List ℕ) (done : ℕ)
    → Window q inputs done
    → q.len ≡ length inputs - done
len-Window q inputs done w = sym (length-contents q) ∙ ap length w.holds ∙ length-drop done inputs

pub at-Window :
    (q : Buffer ℕ) (inputs : List ℕ) (done i : ℕ)
    → Window q inputs done
    → i < q.len
    → at q (pos i) ≡ some (get_or inputs (done + i) 0)
at-Window q inputs done i w h =
    at_some q i w.valid h
    ∙ ap (λ t. get_elem? t i) w.holds
    ∙ get_elem?-eq-get_or (drop done inputs) i 0
        (omega (arith, length-drop done inputs, len-Window q inputs done w))
    ∙ ap some (get_or-drop done i inputs 0)

-- What truncating a window leaves.
pub record Dropped (q : Buffer ℕ) (n : ℕ) (inputs : List ℕ) (done : ℕ) : Type 0 where
  pub out : Buffer ℕ
  pub returns : trunc_front q (pos n) ≡ some out
  pub window : Window out inputs (done + n)

pub trunc_front-Dropped :
    (q : Buffer ℕ) (inputs : List ℕ) (done n : ℕ)
    → Window q inputs done
    → n ≤ q.len
    → Dropped q n inputs done
trunc_front-Dropped q inputs done n w h =
    let t = trunc_front-Holds q n w.valid h in
    record {
      out = t.out;
      returns = t.returns;
      window = record {
        valid = t.valid;
        holds = t.holds ∙ ap (drop n) w.holds ∙ drop-drop n done inputs;
        within = omega (arith, len-Window q inputs done w, w.within);
      };
    }

-- What a push on a window leaves.
pub record Extended (q : Buffer ℕ) (b : ℕ) (inputs : List ℕ) (done : ℕ) : Type 0 where
  pub out : Buffer ℕ
  pub returns : push_back q (b ∷ []) ≡ some out
  pub window : Window out (inputs ++ (b ∷ [])) done

pub push_back-Extended :
    (q : Buffer ℕ) (inputs : List ℕ) (done b : ℕ)
    → Window q inputs done
    → q.len < q.capacity
    → Extended q b inputs done
push_back-Extended q inputs done b w h =
    let t = push_back-Holds q (b ∷ []) w.valid (omega arith) in
    record {
      out = t.out;
      returns = t.returns;
      window = record {
        valid = t.valid;
        holds =
            t.holds
            ∙ ap (λ xs. xs ++ (b ∷ [])) w.holds
            ∙ sym (drop-append done inputs (b ∷ []) w.within);
        within = omega (arith, w.within, length-append inputs (b ∷ []));
      };
    }

-- A buffer of so many guesses; what they are does not matter.
pub record Guesses (q : Buffer ℕ) (n : ℕ) : Type 0 where
  pub valid : IsValid q
  pub counted : q.len ≡ n

-- A call that leaves so many guesses.
pub record LeavesGuesses (result : Option (Buffer ℕ)) (n : ℕ) : Type 0 where
  pub out : Buffer ℕ
  pub returns : result ≡ some out
  pub guesses : Guesses out n

guesses_of_Holds :
    (q : Buffer ℕ) (result : Option (Buffer ℕ)) (xs : List ℕ) (n : ℕ)
    → Holds q result xs
    → length xs ≡ n
    → LeavesGuesses result n
guesses_of_Holds q result xs n t e = record {
  out = t.out;
  returns = t.returns;
  guesses = record {
    valid = t.valid;
    counted = sym (length-contents t.out) ∙ ap length t.holds ∙ e;
  };
}

pub trunc_front-LeavesGuesses :
    (q : Buffer ℕ) (n k : ℕ) → Guesses q n → k ≤ n → LeavesGuesses (trunc_front q (pos k)) (n - k)
trunc_front-LeavesGuesses q n k gs h =
    guesses_of_Holds q (trunc_front q (pos k)) (drop k (contents q)) (n - k)
      (trunc_front-Holds q k gs.valid (omega (arith, gs.counted)))
      (omega (arith, length-drop k (contents q), length-contents q, gs.counted))

pub push_back-LeavesGuesses :
    (q : Buffer ℕ) (n b : ℕ)
    → Guesses q n
    → n < q.capacity
    → LeavesGuesses (push_back q (b ∷ [])) (n + 1)
push_back-LeavesGuesses q n b gs h =
    guesses_of_Holds q (push_back q (b ∷ [])) (contents q ++ (b ∷ [])) (n + 1)
      (push_back-Holds q (b ∷ []) gs.valid (omega (arith, gs.counted)))
      (omega (arith, length-append (contents q) (b ∷ []), length-contents q, gs.counted))

pub set_at-LeavesGuesses :
    (q : Buffer ℕ) (n i b : ℕ) → Guesses q n → i < n → LeavesGuesses (set_at q (pos i) b) n
set_at-LeavesGuesses q n i b gs h =
    guesses_of_Holds q (set_at q (pos i) b) (set (contents q) i b) n
      (set_at-Holds q i b gs.valid (omega (arith, gs.counted)))
      (omega (arith, length-set (contents q) i b, length-contents q, gs.counted))

-- ===== src/Netplay/Outcome.antt =====
-- How an operation of a game ends: with a result, or with a panic, of the console or of the game.
use dendy.Prelude.{◌≡◌, refl, ap, ◌∙◌, subst, sym, ◌⊎◌, inl, inr, Option, none, some}
use dendy.Netplay.Console.{Console, Panics}

pub data Outcome (A : Type 0) : Type 0 where
  returned : A → Outcome A
  console_panic : Outcome A
  game_panic : Outcome A

infixl 5 ◌>>=◌
abbrev pub ◌>>=◌ : {A B : Type 0} → Outcome A → (A → Outcome B) → Outcome B
returned a >>= f = f a
console_panic >>= f = console_panic
game_panic >>= f = game_panic

-- A call of the console.
abbrev pub ask : {A : Type 0} → Option A → Outcome A
ask none = console_panic
ask (some a) = returned a

-- A call of the game's own buffers.
abbrev pub own : {A : Type 0} → Option A → Outcome A
own none = game_panic
own (some a) = returned a

pub Option_cases : {A : Type 0} (o : Option A) → (o ≡ none) ⊎ ((a : A) × (o ≡ some a))
Option_cases none = inl refl
Option_cases (some a) = inr (a, refl)

module _ {S Snap : Type 0} (console : Console S Snap) where
  -- The game does not panic: it returns a result of which `P` holds, or else stops at a panic of
  -- the console, which has a call that panics.
  pub data Ends {A : Type 0} (result : Outcome A) (P : A → Type 0) : Type 0 where
    ends : (out : A) → result ≡ returned out → P out → Ends result P
    stops : result ≡ console_panic → Panics console → Ends result P

  pub Ends-bind :
      {A B : Type 0} (result : Outcome A) (f : A → Outcome B) (P : A → Type 0) (Q : B → Type 0)
      → Ends result P
      → ((a : A) → P a → Ends (f a) Q)
      → Ends (result >>= f) Q
  Ends-bind result f P Q (ends out e p) h = rw e (h out p)
  Ends-bind result f P Q (stops e panics) h = stops (rw e refl) panics

  pub Ends-map :
      {A : Type 0} (result : Outcome A) (P Q : A → Type 0)
      → Ends result P
      → ((a : A) → P a → Q a)
      → Ends result Q
  Ends-map result P Q (ends out e p) h = ends out e (h out p)
  Ends-map result P Q (stops e panics) h = stops e panics

  -- A result that was returned has what a call's results have.
  pub Ends-result :
      {A : Type 0} (result : Outcome A) (P : A → Type 0) (out : A)
      → Ends result P
      → result ≡ returned out
      → P out
  Ends-result {A} result P out (ends a e p) r = subst P (ap value (sym e ∙ r)) p
    where
      value : Outcome A → A
      value (returned b) = b
      value console_panic = a
      value game_panic = a
  Ends-result result P out (stops e panics) r =
      absurd (let clash : console_panic ≡ returned out = sym e ∙ r in cc)

-- ===== src/Prelude/Lists.antt =====
-- Go slices as lists, measured and indexed by native numbers.
use Prim.Native.Nat.{ℕ, zero, suc, ◌+◌, ◌-◌, ◌<◌, ◌≤◌, min}
use mathlib.Core.Path.{◌≡◌, refl, ap, ap₂, ◌∙◌}
use mathlib.Core.Logic.{◌≢◌}
use mathlib.Core.List.{List, [], ◌∷◌, ◌++◌}
use mathlib.Core.Option.{Option, none, some}
use native.Mathlib.Omega.{arith}
use dendy.Prelude.Tests.{◌==◌, if◌then◌else◌}

module _ {ℓ} {A : Type ℓ} where
  abbrev pub length : List A → ℕ
  length [] = 0
  length (x ∷ xs) = suc (length xs)

  -- A read; `none` is Go's panic on an index out of range.
  abbrev pub get_elem? : List A → ℕ → Option A
  get_elem? [] i = none
  get_elem? (x ∷ xs) zero = some x
  get_elem? (x ∷ xs) (suc i) = get_elem? xs i

  abbrev pub get_or : List A → ℕ → A → A
  get_or [] i d = d
  get_or (x ∷ xs) zero d = x
  get_or (x ∷ xs) (suc i) d = get_or xs i d

  -- A write that changes nothing out of range.
  abbrev pub set : List A → ℕ → A → List A
  set [] i v = []
  set (x ∷ xs) zero v = v ∷ xs
  set (x ∷ xs) (suc i) v = x ∷ set xs i v

  abbrev pub take : ℕ → List A → List A
  take zero xs = []
  take (suc n) [] = []
  take (suc n) (x ∷ xs) = x ∷ take n xs

  abbrev pub drop : ℕ → List A → List A
  drop zero xs = xs
  drop (suc n) [] = []
  drop (suc n) (x ∷ xs) = drop n xs

  abbrev pub replicate : ℕ → A → List A
  replicate zero a = []
  replicate (suc n) a = a ∷ replicate n a

  -- The list of `f 0`, …, `f (n - 1)`.
  abbrev pub tabulate : ℕ → (ℕ → A) → List A
  tabulate zero f = []
  tabulate (suc n) f = f 0 ∷ tabulate n (λ i. f (suc i))

module _ {ℓ} {A : Type ℓ} where
  pub length-append : (xs ys : List A) → length (xs ++ ys) ≡ length xs + length ys
  length-append [] ys = omega arith
  length-append (x ∷ xs) ys = omega (arith, length-append xs ys)

  pub length-set : (xs : List A) (i : ℕ) (v : A) → length (set xs i v) ≡ length xs
  length-set [] i v = refl
  length-set (x ∷ xs) zero v = refl
  length-set (x ∷ xs) (suc i) v = ap suc (length-set xs i v)

  pub length-replicate : (n : ℕ) (a : A) → length (replicate n a) ≡ n
  length-replicate zero a = refl
  length-replicate (suc n) a = ap suc (length-replicate n a)

  pub length-drop : (n : ℕ) (xs : List A) → length (drop n xs) ≡ length xs - n
  length-drop zero xs = omega arith
  length-drop (suc n) [] = omega arith
  length-drop (suc n) (x ∷ xs) = omega (arith, length-drop n xs)

  pub length-take : (n : ℕ) (xs : List A) → length (take n xs) ≡ min n (length xs)
  length-take zero xs = omega arith
  length-take (suc n) [] = omega arith
  length-take (suc n) (x ∷ xs) = omega (arith, length-take n xs)

  pub length-tabulate : (n : ℕ) (f : ℕ → A) → length (tabulate n f) ≡ n
  length-tabulate zero f = refl
  length-tabulate (suc n) f = ap suc (length-tabulate n (λ i. f (suc i)))

  pub get_elem?-eq-get_or :
      (xs : List A) (i : ℕ) (d : A) → i < length xs → get_elem? xs i ≡ some (get_or xs i d)
  get_elem?-eq-get_or [] i d h = absurd (omega arith)
  get_elem?-eq-get_or (x ∷ xs) zero d h = refl
  get_elem?-eq-get_or (x ∷ xs) (suc i) d h = get_elem?-eq-get_or xs i d (omega arith)

  pub get_elem?_ge : (xs : List A) (i : ℕ) → length xs ≤ i → get_elem? xs i ≡ none
  get_elem?_ge [] i h = refl
  get_elem?_ge (x ∷ xs) zero h = absurd (omega arith)
  get_elem?_ge (x ∷ xs) (suc i) h = get_elem?_ge xs i (omega arith)

  pub get_elem?_last : (xs : List A) (x : A) → get_elem? (xs ++ (x ∷ [])) (length xs) ≡ some x
  get_elem?_last [] x = refl
  get_elem?_last (y ∷ xs) x = get_elem?_last xs x

  pub take_init : (xs : List A) (x : A) → take (length xs) (xs ++ (x ∷ [])) ≡ xs
  take_init [] x = refl
  take_init (y ∷ xs) x = ap (◌∷◌ y) (take_init xs x)

  pub drop_all : (xs : List A) (n : ℕ) → length xs ≤ n → drop n xs ≡ []
  drop_all [] zero h = refl
  drop_all (x ∷ xs) zero h = absurd (omega arith)
  drop_all [] (suc n) h = refl
  drop_all (x ∷ xs) (suc n) h = drop_all xs n (omega arith)

  pub get_or-set_self :
      (xs : List A) (i : ℕ) (v d : A) → i < length xs → get_or (set xs i v) i d ≡ v
  get_or-set_self [] i v d h = absurd (omega arith)
  get_or-set_self (x ∷ xs) zero v d h = refl
  get_or-set_self (x ∷ xs) (suc i) v d h = get_or-set_self xs i v d (omega arith)

  pub get_or-set_ne :
      (xs : List A) (i j : ℕ) (v d : A) → i ≢ j → get_or (set xs i v) j d ≡ get_or xs j d
  get_or-set_ne [] i j v d h = refl
  get_or-set_ne (x ∷ xs) zero zero v d h = absurd (h refl)
  get_or-set_ne (x ∷ xs) zero (suc j) v d h = refl
  get_or-set_ne (x ∷ xs) (suc i) zero v d h = refl
  get_or-set_ne (x ∷ xs) (suc i) (suc j) v d h = get_or-set_ne xs i j v d (λ e. h (ap suc e))

  pub tabulate_ext :
      (n : ℕ) (f g : ℕ → A) → ((i : ℕ) → i < n → f i ≡ g i) → tabulate n f ≡ tabulate n g
  tabulate_ext zero f g h = refl
  tabulate_ext (suc n) f g h =
      ap₂ ◌∷◌ (h 0 (omega arith))
        (tabulate_ext n (λ i. f (suc i)) (λ i. g (suc i)) (λ i p. h (suc i) (omega arith)))

  pub tabulate_snoc : (n : ℕ) (f : ℕ → A) → tabulate (suc n) f ≡ tabulate n f ++ (f n ∷ [])
  tabulate_snoc zero f = refl
  tabulate_snoc (suc n) f = ap (◌∷◌ (f 0)) (tabulate_snoc n (λ i. f (suc i)))

  pub take-tabulate : (k n : ℕ) (f : ℕ → A) → k ≤ n → take k (tabulate n f) ≡ tabulate k f
  take-tabulate zero n f h = refl
  take-tabulate (suc k) zero f h = absurd (omega arith)
  take-tabulate (suc k) (suc n) f h =
      ap (◌∷◌ (f 0)) (take-tabulate k n (λ i. f (suc i)) (omega arith))

  pub get_elem?-tabulate : (n i : ℕ) (f : ℕ → A) → i < n → get_elem? (tabulate n f) i ≡ some (f i)
  get_elem?-tabulate zero i f h = absurd (omega arith)
  get_elem?-tabulate (suc n) zero f h = refl
  get_elem?-tabulate (suc n) (suc i) f h = get_elem?-tabulate n i (λ k. f (suc k)) (omega arith)

  pub drop-tabulate :
      (k n : ℕ) (f : ℕ → A) → drop k (tabulate n f) ≡ tabulate (n - k) (λ i. f (k + i))
  drop-tabulate zero n f =
      tabulate_ext n f (λ i. f (0 + i)) (λ i p. ap f {y = 0 + i} (omega arith))
      ∙ ap (λ m. tabulate m (λ i. f (0 + i))) {y = n - 0} (omega arith)
  drop-tabulate (suc k) zero f = ap (λ m. tabulate m (λ i. f (suc k + i))) {x = 0} (omega arith)
  drop-tabulate (suc k) (suc n) f =
      drop-tabulate k n (λ i. f (suc i))
      ∙ tabulate_ext (n - k) (λ i. f (suc (k + i))) (λ i. f (suc k + i))
          (λ i p. ap f {y = suc k + i} (omega arith))
      ∙ ap (λ m. tabulate m (λ i. f (suc k + i))) {y = suc n - suc k} (omega arith)

  pub set-tabulate :
      (n k : ℕ) (f : ℕ → A) (v : A)
      → k < n
      → set (tabulate n f) k v ≡ tabulate n (λ i. if i == k then v else f i)
  set-tabulate zero k f v h = absurd (omega arith)
  set-tabulate (suc n) zero f v h =
      ap (◌∷◌ v) (tabulate_ext n (λ i. f (suc i)) _ (λ i p. ground arith))
  set-tabulate (suc n) (suc k) f v h = ap₂ ◌∷◌ (ground arith) (
      set-tabulate n k (λ i. f (suc i)) v (omega arith)
      ∙ tabulate_ext n (λ i. if i == k then v else f (suc i)) _ (λ i p. ground arith))

-- ===== src/Common/Panics.antt =====
-- What a Go function that may panic gives. `stuck` is no Go outcome: it says that a loop of the
-- model ran out of fuel.
use Prim.Native.Nat.{ℕ, ◌-◌, ◌≤◌, ◌<◌}
use mathlib.Core.Path.{◌≡◌, refl}
use mathlib.Core.Bool.{Bool, true, false, ◌&&◌}
use mathlib.Core.Logic.{◌≢◌}
use mathlib.Core.List.{List, ◌++◌}
use native.Mathlib.Omega.{arith}
use jtrpc.Common.Tests.{leb, if◌then◌else◌}
use jtrpc.Common.Lists.{
  length, take, drop, take-append_at, drop-append_at, length-append, length-take, length-drop,
  take_all,
}

pub data Outcome {ℓ} (A : Type ℓ) : Type ℓ where
  done : A → Outcome A
  panics : Outcome A
  stuck : Outcome A

infixl 5 ◌>>=◌
abbrev pub ◌>>=◌ {ℓ κ} : {A : Type ℓ} {B : Type κ} → Outcome A → (A → Outcome B) → Outcome B
done a >>= f = f a
panics >>= f = panics
stuck >>= f = stuck

-- `b[i:j]` on a slice with no spare capacity.
unfoldable pub slice : List ℕ → ℕ → ℕ → Outcome (List ℕ)
slice b i j = if leb i j && leb j (length b) then done (take (j - i) (drop i b)) else panics

pub slice_front : (n : ℕ) (xs ys : List ℕ) → n ≡ length xs → slice (xs ++ ys) 0 n ≡ done xs
unfolding slice
slice_front n xs ys e = ground (arith, length-append xs ys, take-append_at n xs ys e)

pub slice_rest :
    (n m : ℕ) (xs ys : List ℕ)
    → n ≡ length xs
    → m ≡ length (xs ++ ys)
    → slice (xs ++ ys) n m ≡ done ys
unfolding slice
slice_rest n m xs ys e f =
    ground (arith, length-append xs ys, drop-append_at n xs ys e, take_all (m - n) ys)

pub slice_lem :
    (b : List ℕ) (i j : ℕ) → i ≤ j → j ≤ length b → slice b i j ≡ done (take (j - i) (drop i b))
unfolding slice
slice_lem b i j h k = ground arith

-- The loop that gives `r` ended: the fuel was enough.
abbrev pub Ends {ℓ} : {A : Type ℓ} → Outcome A → Type ℓ
Ends r = r ≢ stuck

-- The code returned, with a value.
abbrev pub Returns {ℓ} : {A : Type ℓ} → Outcome A → Type ℓ
Returns {A} r = (a : A) × (r ≡ done a)

pub done-Ends : {A : Type 0} (a : A) → Ends (done a)
done-Ends a = λ e. cc

pub slice-Ends : (b : List ℕ) (i j : ℕ) → Ends (slice b i j)
unfolding slice
slice-Ends b i j = ground arith

pub bind-Ends :
    {A B : Type 0} (x : Outcome A) (f : A → Outcome B)
    → Ends x
    → ((a : A) → Ends (f a))
    → Ends (x >>= f)
bind-Ends (done a) f h k = k a
bind-Ends panics f h k = λ e. cc
bind-Ends stuck f h k = absurd (h refl)

pub if-Ends :
    {A : Type 0} (b : Bool) (x y : Outcome A) → Ends x → Ends y → Ends (if b then x else y)
if-Ends true x y h k = h
if-Ends false x y h k = k

pub bind-Returns :
    {A B : Type 0} (x : Outcome A) (f : A → Outcome B)
    → Returns x
    → ((a : A) → x ≡ done a → Returns (f a))
    → Returns (x >>= f)
bind-Returns (done a) f h k = k a refl
bind-Returns panics f h k = absurd (ground arith)
bind-Returns stuck f h k = absurd (ground arith)

pub if-Returns :
    {A : Type 0} (b : Bool) (x y : Outcome A)
    → (b ≡ true → Returns x)
    → (b ≡ false → Returns y)
    → Returns (if b then x else y)
if-Returns true x y h k = h refl
if-Returns false x y h k = k refl

pub slice-Returns : (b : List ℕ) (i j : ℕ) → i ≤ j → j ≤ length b → Returns (slice b i j)
slice-Returns b i j h k = (_, slice_lem b i j h k)

pub length-slice : (b : List ℕ) (i j : ℕ) (r : List ℕ) → slice b i j ≡ done r → length r ≡ j - i
unfolding slice
length-slice b i j r e = ground (arith, length-take (j - i) (drop i b), length-drop i b)

-- A slice expression whose bounds are out of range or out of order.
pub slice_over : (b : List ℕ) (i j : ℕ) → length b < j → slice b i j ≡ panics
unfolding slice
slice_over b i j h = ground arith

pub slice_inverted : (b : List ℕ) (i j : ℕ) → j < i → slice b i j ≡ panics
unfolding slice
slice_inverted b i j h = ground arith

pub bind-panics :
    {A B : Type 0} (x : Outcome A) (f : A → Outcome B)
    → Ends x
    → ((a : A) → f a ≡ panics)
    → (x >>= f) ≡ panics
bind-panics (done a) f h k = k a
bind-panics panics f h k = refl
bind-panics stuck f h k = absurd (h refl)

pub if-panics :
    {A : Type 0} (b : Bool) (x y : Outcome A)
    → x ≡ panics
    → y ≡ panics
    → (if b then x else y) ≡ panics
if-panics true x y h k = h
if-panics false x y h k = k

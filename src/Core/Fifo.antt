-- ===== src/Core/Fifo.antt =====
-- The contract of a queue of include/klstream/core: a first-in, first-out list of bounded length.
use klstream.Prelude.{
  ℕ, Bool, true, false, Option, none, some, List, [], ◌∷◌, ◌++◌, ◌==◌, if◌then◌else◌, length,
}

module _ {ℓ} {A : Type ℓ} where
  -- The queue takes `val` unless it holds `room` elements.
  abbrev pub push : ℕ → A → List A → Bool × List A
  push room val xs = if length xs == room then (false, xs) else (true, xs ++ val ∷ [])

  abbrev pub pop : List A → Option A × List A
  pop [] = (none, [])
  pop (x ∷ xs) = (some x, xs)

-- What a client can ask of a queue.
pub data Call {ℓ} (A : Type ℓ) : Type ℓ where
  put : A → Call A
  get : Call A

-- What it answers: whether the element was taken, or what came out.
pub data Reply {ℓ} (A : Type ℓ) : Type ℓ where
  pushed : Bool → Reply A
  popped : Option A → Reply A

unfoldable pub run {ℓ} : {A : Type ℓ} → ℕ → List A → List (Call A) → List (Reply A)
run room xs [] = []
run room xs (put v ∷ calls) = let (done, ys) = push room v xs in pushed done ∷ run room ys calls
run room xs (get ∷ calls) = let (out, ys) = pop xs in popped out ∷ run room ys calls

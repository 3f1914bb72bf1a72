-- ===== src/Notify/Invariant.antt =====
-- What holds between any two accesses.
use what_the_event.Common.{
  ℕ, zero, suc, ◌<◌, ◌≤◌, ◌≡◌, refl, Option, none, some, true, List, [], ◌∷◌, ◌++◌, ◌⊎◌, arith,
}
use what_the_event.Notify.System.{
  Producer, swapped, tested, linked, kick, waiting, got, State, initial,
}

-- The node whose `next` a call is about to set.
abbrev pub open_at : Producer → Option ℕ
open_at (swapped prev cur) = some prev
open_at (tested prev cur e) = some prev
open_at _ = none

-- What the locals of a call say.
abbrev pub Locals : ℕ → Producer → Type 0
Locals head (swapped prev cur) = (cur ≡ suc prev) × (prev < head)
Locals head (tested prev cur e) = (cur ≡ suc prev) × (prev < head)
Locals head _ = Unit

-- The call will write to the pipe, whatever the other threads do before the loop thread moves.
abbrev pub WillSignal : ℕ → Producer → Type 0
WillSignal tail (linked prev e) = (e ≡ true) ⊎ (prev ≡ tail)
WillSignal tail kick = Unit
WillSignal tail _ = ⊥

-- The operations of the nodes 1 to `n`.
abbrev pub items : {A : Type 0} → (ℕ → A) → ℕ → List A
items f zero = []
items f (suc n) = items f n ++ f (suc n) ∷ []

pub record Inv {A : Type 0} (s : State A) : Type 0 where
  pub ordered : s.tail ≤ s.head
  pub chained : (n m : ℕ) → s.next n ≡ some m → (m ≡ suc n) × (n < s.head)
  pub passed : (n : ℕ) → n < s.tail → s.next n ≡ some (suc n)
  pub gaps : (n : ℕ) → n < s.head → s.next n ≡ none → (i : ℕ) × (open_at (s.producers i) ≡ some n)
  pub locals : (i : ℕ) → Locals s.head (s.producers i)
  pub unset : (i n : ℕ) → open_at (s.producers i) ≡ some n → s.next n ≡ none
  pub unique :
      (i j n : ℕ) → open_at (s.producers i) ≡ some n → open_at (s.producers j) ≡ some n → i ≡ j
  pub held : (n : ℕ) → s.consumer ≡ got n → s.next s.tail ≡ some n
  pub awake :
      (n : ℕ)
      → s.consumer ≡ waiting
      → s.next s.tail ≡ some n
      → (0 < s.bytes) ⊎ ((i : ℕ) × WillSignal s.tail (s.producers i))
  pub in_order : s.ran ≡ items s.item s.tail

pub initial-Inv : {A : Type 0} (a : A) → Inv (initial a)
initial-Inv a = record {
  ordered = omega arith;
  chained = λ n m e. cc;
  passed = λ n h. absurd (omega arith);
  gaps = λ n h e. absurd (omega arith);
  locals = λ i. tt;
  unset = λ i n e. cc;
  unique = λ i j n e f. cc;
  held = λ n e. cc;
  awake = λ n e f. cc;
  in_order = refl;
}

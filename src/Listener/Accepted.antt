-- ===== src/Listener/Accepted.antt =====
-- What becomes of the sockets that arrive.
use what_the_event.Common.{
  ℕ, ◌≡◌, refl, ◌∙◌, ap, sym, Option, none, some, Bool, true, false, List, [], ◌∷◌, ◌++◌,
  append-nil, append_assoc,
}
use what_the_event.Listener.System.{
  Listener, Event, accepted, accept_failed, shut, Arrival, accept_ready, accept_all, note,
}

-- The sockets that were handed to the callback or closed, in order.
abbrev pub disposed : List Event → List ℕ
disposed [] = []
disposed (accepted s ∷ es) = s ∷ disposed es
disposed (accept_failed ∷ es) = disposed es
disposed (shut s ∷ es) = s ∷ disposed es

-- The sockets that `accept` made.
abbrev pub arrived : List Arrival → List ℕ
arrived [] = []
arrived (a ∷ more) = elim a.sock as (λ _. List ℕ) [
  | none ↦ arrived more
  | some s ↦ s ∷ arrived more
]

disposed-append : (xs ys : List Event) → disposed (xs ++ ys) ≡ disposed xs ++ disposed ys
disposed-append [] ys = refl
disposed-append (accepted s ∷ xs) ys = ap (◌∷◌ s) (disposed-append xs ys)
disposed-append (accept_failed ∷ xs) ys = disposed-append xs ys
disposed-append (shut s ∷ xs) ys = ap (◌∷◌ s) (disposed-append xs ys)

disposed-cases :
    (l : Listener) (a : Arrival) (o : Option ℕ) (b : Bool)
    → a.sock ≡ o
    → a.nonblocking ≡ b
    → disposed (accept_ready l a).events ≡ disposed l.events ++ arrived (a ∷ [])
unfolding accept_ready note
disposed-cases l a none b e k = rw e (disposed-append l.events (accept_failed ∷ []))
disposed-cases l a (some s) true e k = rw (e, k) (disposed-append l.events (accepted s ∷ []))
disposed-cases l a (some s) false e k =
    rw (e, k)
      (ap disposed (append_assoc l.events (shut s ∷ []) (accept_failed ∷ []))
        ∙ disposed-append l.events (shut s ∷ accept_failed ∷ []))

arrived-cases :
    (a : Arrival) (more : List Arrival) (o : Option ℕ)
    → a.sock ≡ o
    → arrived (a ∷ more) ≡ arrived (a ∷ []) ++ arrived more
arrived-cases a more none e = rw e refl
arrived-cases a more (some s) e = rw e refl

-- Over any number of events, every socket that `accept` made is handed to the accept callback or
-- closed, exactly once and in the order of their arrival.
pub accept_all-disposed :
    (l : Listener) (arrivals : List Arrival)
    → disposed (accept_all l arrivals).events ≡ disposed l.events ++ arrived arrivals
accept_all-disposed l [] = sym (append-nil (disposed l.events))
accept_all-disposed l (a ∷ more) =
    accept_all-disposed (accept_ready l a) more
    ∙ ap (λ x. x ++ arrived more) (disposed-cases l a _ _ refl refl)
    ∙ append_assoc (disposed l.events) (arrived (a ∷ [])) (arrived more)
    ∙ ap (◌++◌ (disposed l.events)) (sym (arrived-cases a more _ refl))

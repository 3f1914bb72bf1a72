-- ===== src/Echo/Served.antt =====
-- The events of several connections, in any order among each other.
use what_the_event.Common.{
  ℕ, zero, suc, ◌+◌, ◌<◌, ◌≤◌, ◌≡◌, refl, sym, ap, ap₂, ◌∙◌, subst, Bool, true, if◌then◌else◌, ◌==◌,
  ==_refl, ne→==, ◌≢◌, Outcome, ok, fault, bad_alloc, aborted, out_of_fuel, ◌>>=◌, List, [], ◌∷◌,
  ◌++◌, length, arith,
}
use what_the_event.Events.What.{What}
use what_the_event.Buffer.Extent.{Cell}
use what_the_event.Stream.Requests.{Requests}
use what_the_event.Stream.State.{Stream}
use what_the_event.Stream.Reading.{chunk_size}
use what_the_event.Stream.Connecting.{Answers, ready}
use what_the_event.Echo.Server.{on_available, serve}
use what_the_event.Echo.Round.{IsResting, Messages, echoed, messages_echoed}
use what_the_event.Echo.Main.{at_connection, serve_all, AllResting}

-- The events of the connection at `k`.
abbrev pub slice : ℕ → List (ℕ × What × Answers) → List (What × Answers)
slice k [] = []
slice k ((i, event, answers) ∷ events) =
    let more = slice k events in if i == k then (event, answers) ∷ more else more

-- Each event is one of a connection that there is.
abbrev pub AllBelow : ℕ → List (ℕ × What × Answers) → Type 0
AllBelow n [] = Unit
AllBelow n ((i, event, answers) ∷ events) = (i < n) × AllBelow n events

slice-own :
    (k j : ℕ) (event : What) (answers : Answers) (events : List (ℕ × What × Answers))
    → j ≡ k
    → slice k ((j, event, answers) ∷ events) ≡ (event, answers) ∷ slice k events
slice-own k j event answers events e =
    ap (λ b. if b then (event, answers) ∷ slice k events else slice k events)
      (ap (λ i. i == k) e ∙ ==_refl k)

slice-other :
    (k j : ℕ) (event : What) (answers : Answers) (events : List (ℕ × What × Answers))
    → j ≢ k
    → slice k ((j, event, answers) ∷ events) ≡ slice k events
slice-other k j event answers events n =
    ap (λ b. if b then (event, answers) ∷ slice k events else slice k events) (ne→== j k n)

pub bind_ok :
    {A B : Type 0} (o : Outcome A) (next : A → Outcome B) (y : B)
    → (o >>= next) ≡ ok y
    → (x : A) × (o ≡ ok x) × (next x ≡ ok y)
bind_ok (ok x) next y e = (x, refl, e)
bind_ok fault next y e = absurd (ground (arith, e))
bind_ok bad_alloc next y e = absurd (ground (arith, e))
bind_ok aborted next y e = absurd (ground (arith, e))
bind_ok out_of_fuel next y e = absurd (ground (arith, e))

module _ (place : Requests → ℕ) (alloc : ℕ → Bool) (fuel : ℕ) where
  -- Each of the connections, the first at `k`, serves its own events.
  abbrev AllServed : ℕ → List (ℕ × What × Answers) → List Stream → List Stream → Type 0
  AllServed k events [] [] = Unit
  AllServed k events [] (c' ∷ cs') = ⊥
  AllServed k events (c ∷ cs) [] = ⊥
  AllServed k events (c ∷ cs) (c' ∷ cs') =
      (serve place alloc fuel (slice k events) c ≡ ok c') × AllServed (suc k) events cs cs'

  -- An event of a connection before these is none of theirs.
  AllServed-skip :
      (k i : ℕ) (event : What) (answers : Answers) (events : List (ℕ × What × Answers))
      (cs cs' : List Stream)
      → i < k
      → AllServed k ((i, event, answers) ∷ events) cs cs'
      → AllServed k events cs cs'
  AllServed-skip k i event answers events [] [] h q = tt
  AllServed-skip k i event answers events [] (c' ∷ cs') h q = elim q [ ]
  AllServed-skip k i event answers events (c ∷ cs) [] h q = elim q [ ]
  AllServed-skip k i event answers events (c ∷ cs) (c' ∷ cs') h q = (
    ap (λ es. serve place alloc fuel es c)
          (sym (slice-other k i event answers events (λ e. absurd (omega (arith, e)))))
        ∙ q.0,
    AllServed-skip (suc k) i event answers events cs cs' (omega arith) q.1,
  )

  AllServed-step :
      (k i j : ℕ) (event : What) (answers : Answers) (events : List (ℕ × What × Answers))
      (cs cs' : List Stream)
      → j ≡ k + i
      → i < length cs
      → AllServed k ((j, event, answers) ∷ events) cs cs'
      → (cs₁ : List Stream) × (at_connection place alloc fuel i event answers cs ≡ ok cs₁)
        × (length cs₁ ≡ length cs)
        × AllServed k events cs₁ cs'
  unfolding serve
  AllServed-step k i j event answers events [] cs' at h q = absurd (omega arith)
  AllServed-step k zero j event answers events (c ∷ cs) [] at h q = elim q [ ]
  AllServed-step k (suc i) j event answers events (c ∷ cs) [] at h q = elim q [ ]
  AllServed-step k zero j event answers events (c ∷ cs) (c' ∷ cs') at h q =
      let mine : serve place alloc fuel ((event, answers) ∷ slice k events) c ≡ ok c' =
        ap (λ es. serve place alloc fuel es c)
          (sym (slice-own k j event answers events (omega (arith, at))))
        ∙ q.0 in
      let r = bind_ok (ready answers (on_available place) alloc fuel event c) _ c' mine in
      (
        r.0 ∷ cs,
        ap (λ o. o >>= λ x. ok (x ∷ cs)) r.1,
        refl,
        (r.2, AllServed-skip (suc k) j event answers events cs cs' (omega (arith, at)) q.1),
      )
  AllServed-step k (suc i) j event answers events (c ∷ cs) (c' ∷ cs') at h q =
      let r =
        AllServed-step (suc k) i j event answers events cs cs' (omega (arith, at)) (omega arith)
          q.1 in
      (
        c ∷ r.0,
        rw (r.1) refl,
        omega (arith, r.2),
        (
          ap (λ es. serve place alloc fuel es c)
                (sym (slice-other k j event answers events (λ e. absurd (omega (arith, e, at)))))
              ∙ q.0,
          r.3,
        ),
      )

  AllServed-over : (k : ℕ) (cs cs' : List Stream) → AllServed k [] cs cs' → cs ≡ cs'
  unfolding serve
  AllServed-over k [] [] q = refl
  AllServed-over k [] (c' ∷ cs') q = elim q [ ]
  AllServed-over k (c ∷ cs) [] q = elim q [ ]
  AllServed-over k (c ∷ cs) (c' ∷ cs') q =
      ap₂ ◌∷◌ (ground (arith, q.0)) (AllServed-over (suc k) cs cs' q.1)

  -- If each connection serves its own events, the server serves all of them, in their order.
  serve_all-each :
      (events : List (ℕ × What × Answers)) (cs cs' : List Stream)
      → AllBelow (length cs) events
      → AllServed 0 events cs cs'
      → serve_all place alloc fuel events cs ≡ ok cs'
  unfolding serve_all
  serve_all-each [] cs cs' b q = ap ok (AllServed-over 0 cs cs' q)
  serve_all-each ((i, event, answers) ∷ events) cs cs' b q =
      let r = AllServed-step 0 i i event answers events cs cs' (omega arith) b.0 q in
      rw (r.1) (serve_all-each events r.0 cs' (subst (λ n. AllBelow n events) (sym r.2) b.1) r.3)

-- For each connection, the first at `k`, its events are messages, which these are.
abbrev pub AllTalk : ℕ → List (ℕ × What × Answers) → List Stream → List (List (List Cell)) → Type 0
AllTalk k events [] [] = Unit
AllTalk k events [] (ds ∷ dss) = ⊥
AllTalk k events (c ∷ cs) [] = ⊥
AllTalk k events (c ∷ cs) (ds ∷ dss) = Messages (slice k events) ds × AllTalk (suc k) events cs dss

-- Each connection has sent its messages back, and rests.
abbrev pub AllEchoed : List Stream → List Stream → List (List (List Cell)) → Type 0
AllEchoed (c ∷ cs) (c' ∷ cs') (ds ∷ dss) =
    (c'.effects ≡ c.effects ++ echoed ds) × IsResting c' × AllEchoed cs cs' dss
AllEchoed [] [] [] = Unit
AllEchoed _ _ _ = ⊥

module _ (place : Requests → ℕ) (alloc : ℕ → Bool) (f : ℕ)
    (granted : (n : ℕ) → n ≤ chunk_size → alloc n ≡ true) where
  each_echoed :
      (k : ℕ) (events : List (ℕ × What × Answers)) (cs : List Stream)
      (dss : List (List (List Cell)))
      → AllResting cs
      → AllTalk k events cs dss
      → (cs' : List Stream) × AllServed place alloc (suc (suc f)) k events cs cs'
        × AllEchoed cs cs' dss
  each_echoed k events [] [] rest talk = ([], tt, tt)
  each_echoed k events [] (ds ∷ dss) rest talk = elim talk [ ]
  each_echoed k events (c ∷ cs) [] rest talk = elim talk [ ]
  each_echoed k events (c ∷ cs) (ds ∷ dss) rest talk =
      let one = messages_echoed place alloc f c (slice k events) ds granted rest.0 talk.0 in
      let others = each_echoed (suc k) events cs dss rest.1 talk.1 in
      (one.0 ∷ others.0, (one.1, others.1), (one.2, one.3, others.2))

  -- Connections at rest, to which short messages come, in any interleaving of the events of different
  -- connections: no event of one is lost or disturbs another; each connection sends back what came to
  -- it, every message once, whole and in order, and rests again.
  pub interleaved_echo :
      (events : List (ℕ × What × Answers)) (cs : List Stream) (dss : List (List (List Cell)))
      → AllResting cs
      → AllBelow (length cs) events
      → AllTalk 0 events cs dss
      → (cs' : List Stream) × (serve_all place alloc (suc (suc f)) events cs ≡ ok cs')
        × AllEchoed cs cs' dss
  interleaved_echo events cs dss rest below talk =
      let r = each_echoed 0 events cs dss rest talk in
      (r.0, serve_all-each place alloc (suc (suc f)) events cs r.0 below r.1, r.2)

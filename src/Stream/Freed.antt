-- ===== src/Stream/Freed.antt =====
-- The destructor frees the write requests that are left.
use what_the_event.Common.{
  ℕ, zero, suc, ◌<◌, ◌≡◌, refl, ap, subst, ◌∙◌, Option, none, some, true, ==_refl, ==→eq,
  if◌then◌else◌, Outcome, ok, List, [], ◌∷◌, length, arith, has, has-apart, AllDifferent,
}
use what_the_event.Events.What.{What}
use what_the_event.Stream.Requests.{WriteRequest, Requests, drop_front, consume_front, release}
use what_the_event.Stream.State.{Stream, destroy}
use what_the_event.Stream.Queueing.{Chain, consume_at}

-- What is left of the heap when these requests are freed.
abbrev pub without : (ℕ → Option WriteRequest) → List ℕ → ℕ → Option WriteRequest
without heap ps q = if has q ps then none else heap q

Chain-frame :
    (heap heap' : ℕ → Option WriteRequest) (p : Option ℕ) (ps : List ℕ)
    → Chain heap p ps
    → ((q : ℕ) → has q ps ≡ true → heap' q ≡ heap q)
    → Chain heap' p ps
Chain-frame heap heap' p [] e same = e
Chain-frame heap heap' p (a ∷ more) c same = (
  c.0,
  (
    c.1.0,
    same a (ground (arith, ==_refl a)) ∙ c.1.1,
    Chain-frame heap heap' c.1.0.next more c.1.2 (λ q h. same q (ground (arith, h))),
  ),
)

release-next :
    (f : ℕ) (r r' : Requests) (next : Option ℕ)
    → consume_front r ≡ ok (next, r')
    → release (suc f) r
      ≡ (elim next as (λ _. Outcome Requests) [ none ↦ ok r' | some _ ↦ release f r' ])
unfolding release
release-next f r r' next e = rw e refl

release-Chain :
    (f : ℕ) (r : Requests) (a : ℕ) (more : List ℕ)
    → Chain r.heap r.head (a ∷ more)
    → AllDifferent (a ∷ more)
    → length more < f
    → (r' : Requests) × (release f r ≡ ok r')
      × ((q : ℕ) → r'.heap q ≡ without r.heap (a ∷ more) q)
      × (r'.head ≡ none)
unfolding drop_front
release-Chain zero r a more c d h = absurd (omega arith)
release-Chain (suc f) r a [] c d h =
    let w : WriteRequest = c.1.0 in
    let next = release-next f r (drop_front r a w.next) w.next (consume_at r a w c.0 c.1.1) in
    (
      drop_front r a none,
      next
          ∙ ap
              (λ k. elim k as (λ _. Outcome Requests) [
                | none ↦ ok (drop_front r a k)
                | some _ ↦ release f (drop_front r a k)
              ])
              c.1.2,
      λ q. ground (arith, ==→eq a q, ==→eq q a),
      refl,
    )
release-Chain (suc f) r a (b ∷ more) c d h =
    let w : WriteRequest = c.1.0 in
    let next = release-next f r (drop_front r a w.next) w.next (consume_at r a w c.0 c.1.1) in
    let left : Requests = drop_front r a (some b) in
    let rest =
      release-Chain f left b more
        (Chain-frame r.heap left.heap (some b) (b ∷ more)
          (subst (λ k. Chain r.heap k (b ∷ more)) c.1.2.0 c.1.2)
          (λ q e. rw (has-apart a (b ∷ more) q d.0 e) refl))
        d.1 (omega arith) in
    (
      rest.0,
      next
          ∙ ap
              (λ k. elim k as (λ _. Outcome Requests) [
                | none ↦ ok (drop_front r a k)
                | some _ ↦ release f (drop_front r a k)
              ])
              c.1.2.0
          ∙ rest.1,
      λ q. rest.2 q ∙ ground (arith, ==→eq a q, ==→eq q a),
      rest.3,
    )

-- The destructor of a stream with requests in a chain, with as many rounds as there are requests:
-- it returns, without a free or a read of a request that was freed before; every request of the
-- chain has been freed and nothing else, and nothing is watched. The descriptor stays open.
pub destroy-frees :
    (f : ℕ) (s : Stream) (a : ℕ) (more : List ℕ)
    → Chain s.requests.heap s.requests.head (a ∷ more)
    → AllDifferent (a ∷ more)
    → length more < f
    → (s' : Stream) × (destroy f s ≡ ok s')
      × ((q : ℕ) → s'.requests.heap q ≡ without s.requests.heap (a ∷ more) q)
      × (s'.requests.head ≡ none)
      × (s'.watched ≡ What.none)
      × (s'.effects ≡ s.effects)
unfolding destroy
destroy-frees f s a more c d h =
    let r = release-Chain f s.requests a more c d h in
    (record s { watched = What.none; requests = r.0 }, rw (r.1) refl, r.2, r.3, refl, refl)

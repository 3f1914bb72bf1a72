-- ===== src/Events/Follow.antt =====
-- A handler in use: what the calls of a stream or a listener on their handler come to.
use what_the_event.Common.{
  ℕ, ◌≡◌, ◌≢◌, refl, sym, ap, subst, ◌∙◌, Option, true, false, not, if◌then◌else◌, List, [], ◌∷◌,
  Outcome, ok, aborted, ◌>>=◌, arith, Bool-cases, inl, inr,
}
use what_the_event.Events.What.{What}
use what_the_event.Events.Libevent.{Libevent, IsLibevent}
use what_the_event.Events.Handler.{EventHandler, registered, base, watched, set_fd}
use what_the_event.Events.Registration.{
  EventBase, what_eq, register_handler, register_internal, unregister, unregister_handler,
  unregister_impl, assign_and_add,
}
use what_the_event.Events.Synced.{
  IsSynced, IsOurs, what_eq→eq, register_handler-Registers, unregister-Registers,
}

-- The calls that are made on a handler: `registerHandler`, `unregister` and `setFd`.
pub data HandlerCall : Type 0 where
  watch : What → HandlerCall
  leave : HandlerCall
  retarget : Option ℕ → HandlerCall

-- What a stream or a listener knows of its handler.
pub record Watch : Type 0 where
  pub fd : Option ℕ
  pub what : What

-- A call on that.
abbrev pub follow : Watch → HandlerCall → Outcome Watch
follow w (watch what) = ok (record w { what = what })
follow w leave = ok (record w { what = What.none })
follow w (retarget fd) = if what_eq w.what What.none then ok (record w { fd = fd }) else aborted

abbrev pub follow_all : Watch → List HandlerCall → Outcome Watch
follow_all w [] = ok w
follow_all w (c ∷ more) = follow w c >>= λ w'. follow_all w' more

module _ (l : Libevent) where
  -- The call on the handler at `addr` in the event base.
  abbrev pub perform :
      EventBase l → ℕ → EventHandler → HandlerCall → Outcome (EventHandler × l.EvBase)
  perform b addr h (watch what) = register_handler l b addr h what
  perform b addr h leave = unregister l b addr h
  perform b addr h (retarget fd) = set_fd h fd >>= λ h'. ok (h', b.events)

  abbrev pub perform_all :
      EventBase l → ℕ → EventHandler → List HandlerCall → Outcome (EventHandler × l.EvBase)
  perform_all b addr h [] = ok (h, b.events)
  perform_all b addr h (c ∷ more) =
      perform b addr h c >>= λ r. perform_all (record b { events = r.1 }) addr r.0 more

  -- The handler has this descriptor, and is registered for this.
  pub record Tracks (b : EventBase l) (addr : ℕ) (h : EventHandler) (w : Watch) : Type 0 where
    pub fd : h.fd ≡ w.fd
    pub what : watched l h ≡ w.what
    pub live : registered h ≡ not (what_eq w.what What.none)
    pub synced : IsSynced l b.events addr h
    pub ours : IsOurs b h

  register_internal-live :
      (b : EventBase l) (addr : ℕ) (h h' : EventHandler) (what : What) (events : l.EvBase)
      → registered h ≡ not (what_eq (watched l h) What.none)
      → register_internal l b addr h what false ≡ ok (h', events)
      → registered h' ≡ not (what_eq what What.none)
  unfolding register_internal unregister_handler unregister_impl assign_and_add registered base
  register_internal-live b addr h h' what events live e =
      elim (Bool-cases (what_eq what (watched l h))) [
        | inl same ↦
            let now : registered h ≡ not (what_eq what What.none) =
              live
              ∙ ap (λ w. not (what_eq w What.none)) (sym (what_eq→eq what (watched l h) same)) in
            ground (arith, e, same, now)
        | inr other ↦ ground (arith, e, other)
      ]

  register_handler-live :
      (b : EventBase l) (addr : ℕ) (h h' : EventHandler) (what : What) (events : l.EvBase)
      → registered h ≡ not (what_eq (watched l h) What.none)
      → register_handler l b addr h what ≡ ok (h', events)
      → registered h' ≡ not (what_eq what What.none)
  unfolding register_handler
  register_handler-live b addr h h' what events live e = elim (Bool-cases b.in_loop_thread) [
    | inl here ↦ register_internal-live b addr h h' what events live (ground (arith, e, here))
    | inr away ↦ ground (arith, e, away)
  ]

  unregister-live :
      (b : EventBase l) (addr : ℕ) (h h' : EventHandler) (events : l.EvBase)
      → unregister l b addr h ≡ ok (h', events)
      → registered h' ≡ false
  unfolding unregister unregister_handler unregister_impl registered base
  unregister-live b addr h h' events e = ground (arith, e)

  -- What is left of libevent and of the handler after a call, or the failed assertion.
  pub data Follows (b : EventBase l) (addr : ℕ)
      : Outcome (EventHandler × l.EvBase) → Outcome Watch → Type 0 where
    both :
        (h : EventHandler) (events : l.EvBase) (w : Watch)
        → Tracks (record b { events = events }) addr h w
        → ((q : ℕ) → q ≢ addr → l.pending events q ≡ l.pending b.events q)
        → Follows b addr (ok (h, events)) (ok w)
    stopped : Follows b addr aborted aborted

  retarget-Follows :
      (b : EventBase l) (addr : ℕ) (h : EventHandler) (w : Watch) (fd : Option ℕ)
      → Tracks b addr h w
      → Follows b addr (perform b addr h (retarget fd)) (follow w (retarget fd))
  unfolding set_fd registered watched base
  retarget-Follows b addr h w fd t = elim (Bool-cases (what_eq w.what What.none)) [
    | inl off ↦
        subst (λ o. Follows b addr o (follow w (retarget fd))) (ground (arith, t.live, off))
          (subst (Follows b addr (ok (record h { fd = fd }, b.events))) (ground (arith, off)) (
            both (record h { fd = fd }) b.events (record w { fd = fd })
              (record {
                fd = refl;
                what = t.what;
                live = t.live;
                synced = record {
                  same = t.synced.same;
                  same_fd = λ e k. absurd (ground (arith, t.live, off, k));
                };
                ours = t.ours;
              })
              (λ q n. refl)))
    | inr on ↦
        subst (λ o. Follows b addr o (follow w (retarget fd))) (ground (arith, t.live, on))
          (subst (Follows b addr aborted) (ground (arith, on)) stopped)
  ]

  -- A call after one that changed only what is at `addr`.
  widened :
      (b : EventBase l) (addr : ℕ) (events : l.EvBase) (r : Outcome (EventHandler × l.EvBase))
      (o : Outcome Watch)
      → ((q : ℕ) → q ≢ addr → l.pending events q ≡ l.pending b.events q)
      → Follows (record b { events = events }) addr r o
      → Follows b addr r o
  widened b addr events _ _ others (both h later w t kept) =
      both h later w t (λ q n. kept q n ∙ others q n)
  widened b addr events _ _ others stopped = stopped

  chained :
      (b : EventBase l) (addr : ℕ) (r : Outcome (EventHandler × l.EvBase)) (o : Outcome Watch)
      (more : List HandlerCall)
      → ((h : EventHandler) (events : l.EvBase) (w : Watch)
          → Tracks (record b { events = events }) addr h w
          → Follows
              (record b { events = events })
              addr
              (perform_all (record b { events = events }) addr h more)
              (follow_all w more))
      → Follows b addr r o
      → Follows b addr
          (r >>= λ x. perform_all (record b { events = x.1 }) addr x.0 more)
          (o >>= λ w. follow_all w more)
  chained b addr _ _ more later (both h events w t others) =
      widened b addr events _ _ others (later h events w t)
  chained b addr _ _ more later stopped = stopped

  module _ (d : IsLibevent l) where
    perform-Follows :
        (b : EventBase l) (addr : ℕ) (h : EventHandler) (w : Watch) (c : HandlerCall)
        → b.in_loop_thread ≡ true
        → Tracks b addr h w
        → Follows b addr (perform b addr h c) (follow w c)
    unfolding what_eq
    perform-Follows b addr h w (watch what) here t =
        let r = register_handler-Registers l d b addr h what here t.synced t.ours in
        let alive : registered h ≡ not (what_eq (watched l h) What.none) =
          t.live ∙ ap (λ x. not (what_eq x What.none)) (sym t.what) in
        subst (λ o. Follows b addr o (ok (record w { what = what }))) (sym r.runs)
          (both r.handler r.events (record w { what = what })
            (record {
              fd = r.kept_fd ∙ t.fd;
              what = r.watches;
              live = register_handler-live b addr h r.handler what r.events alive r.runs;
              synced = r.synced;
              ours = r.ours;
            })
            r.others)
    perform-Follows b addr h w leave here t =
        let r = unregister-Registers l d b addr h here t.synced t.ours in
        subst (λ o. Follows b addr o (ok (record w { what = What.none }))) (sym r.runs)
          (both r.handler r.events (record w { what = What.none })
            (record {
              fd = r.kept_fd ∙ t.fd;
              what = r.watches;
              live = unregister-live b addr h r.handler r.events r.runs;
              synced = r.synced;
              ours = r.ours;
            })
            r.others)
    perform-Follows b addr h w (retarget fd) here t = retarget-Follows b addr h w fd t

    -- What a stream or a listener takes its handler to be is what the handler is. From a handler that
    -- belongs to no other event base and agrees with libevent, in the loop thread: any calls of
    -- `registerHandler`, `unregister` and `setFd` end as they do on a descriptor and what is watched of
    -- it, a failed assertion included, which is that of `setFd` on a registered handler; the handler
    -- agrees with libevent again, and nothing else in libevent has changed.
    pub perform_all-Follows :
        (b : EventBase l) (addr : ℕ) (h : EventHandler) (w : Watch) (calls : List HandlerCall)
        → b.in_loop_thread ≡ true
        → Tracks b addr h w
        → Follows b addr (perform_all b addr h calls) (follow_all w calls)
    perform_all-Follows b addr h w [] here t = both h b.events w t (λ q n. refl)
    perform_all-Follows b addr h w (c ∷ more) here t =
        chained b addr _ _ more
          (λ h' events w' t'.
            perform_all-Follows (record b { events = events }) addr h' w' more here t')
          (perform-Follows b addr h w c here t)

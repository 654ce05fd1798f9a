-- ===== src/Io/Ring/Refines.antt =====
-- The submission ring is the bounded queue.
use storage_engine.Base.{
  ℕ, ◌+◌, ◌^◌, ◌≤◌, ◌<◌, String, ◌≡◌, refl, sym, ap, ◌∙◌, arith, Bool, Option, some, List, [], ◌∷◌,
  ◌++◌, append_assoc, length, drop, ltb-true, ltb-false,
}
use native.Mathlib.Decide.{dec_lt}
use storage_engine.Status.{Status}
use storage_engine.Io.Ring.{
  Sqe, put_sqe, State, Answer, sub32, queue_full, notify, wake_sq_poll_if_needed, submit,
  submit_linked,
}
use storage_engine.Io.Ring.Kernel.{take_entries, take_entries-IsRing, pending-take_entries}
use storage_engine.Io.Ring.Queue.{
  Event, single, linked, take_up_to, named_sqe, linked_sqe, run, told, push_all, serve,
}
use storage_engine.Io.Ring.Submit.{
  length-pending, publish_pair, submit-open, submit_linked-open, submit_raw-room, submit_raw-full,
  submit_pair-room, submit_pair-full,
}
use storage_engine.Io.Ring.Window.{
  pending, IsRing, publish, count-suc, publish-IsRing, pending-publish,
}

-- An open executor whose ring of `2 ^ k` entries holds a queue.
pub record Represents (k fd : ℕ) (poll : Bool) (state : State) (queue : List Sqe) : Type 0 where
  pub open_fd : state.ring_fd ≡ some fd
  pub polls : state.sq_poll_enabled ≡ poll
  pub ring : IsRing k state.sq
  pub holds : pending state.sq ≡ queue

module _ (strerror : ℕ → String) (k fd : ℕ) (poll : Bool) where
  notify-told :
      (operation : String) (state : State) (answer : Answer)
      → state.sq_poll_enabled ≡ poll
      → notify strerror operation state answer ≡ told strerror poll operation answer
  unfolding notify wake_sq_poll_if_needed told
  notify-told operation state answer e = ground (arith, e)

  -- A step of the executor and what the queue makes of it.
  abbrev Follows : Status × Option State → Status × List Sqe → Type 0
  Follows (status, after) (expected, queue) =
      (status ≡ expected) × ((s : State) × (after ≡ some s) × Represents k fd poll s queue)

  module _ (state : State) (queue : List Sqe) (r : Represents k fd poll state queue) where
    abbrev used : ℕ
    used = sub32 state.sq.tail state.sq.head

    same_length : length queue ≡ used
    same_length = ap length (sym r.holds) ∙ length-pending state.sq

    fitting :
        (added : List Sqe) (accepted : Status)
        → used + length added ≤ 2 ^ k
        → push_all (2 ^ k) queue added accepted ≡ (accepted, queue ++ added)
    unfolding push_all
    fitting added accepted h =
        rw (ltb-false (2 ^ k) (length queue + length added) (omega (arith, h, same_length))) refl

    refused :
        (added : List Sqe) (accepted : Status)
        → 2 ^ k < used + length added
        → push_all (2 ^ k) queue added accepted ≡ (queue_full, queue)
    unfolding push_all
    refused added accepted h =
        rw (ltb-true (2 ^ k) (length queue + length added) (omega (arith, h, same_length))) refl

    published :
        (a : Sqe)
        → used < 2 ^ k
        → Represents k fd poll (record state { sq = publish state.sq a }) (queue ++ (a ∷ []))
    published a room = record {
      open_fd = r.open_fd;
      polls = r.polls;
      ring = publish-IsRing k state.sq a r.ring room;
      holds =
          pending-publish k state.sq a r.ring room ∙ ap (λ (l : List Sqe). l ++ (a ∷ [])) r.holds;
    }

    single-step :
        (operation : ℕ) (sqe : Sqe) (answer : Answer)
        → Follows (submit strerror (some state) operation sqe answer) (
            push_all
              (2 ^ k)
              queue
              (named_sqe operation sqe ∷ [])
              (told strerror poll "io_uring_enter submit" answer))
    single-step operation sqe answer = elim (dec_lt used (2 ^ k)) [
      | yes room ↦
          rw
            (
              submit-open strerror fd state r.open_fd operation sqe answer,
              submit_raw-room strerror k state r.ring sqe operation answer room,
              fitting (named_sqe operation sqe ∷ [])
                  (told strerror poll "io_uring_enter submit" answer) (omega (arith, room)),
            )
            (
              notify-told "io_uring_enter submit" state answer r.polls,
              (_, refl, published (named_sqe operation sqe) room),
            )
      | no full ↦
          rw
            (
              submit-open strerror fd state r.open_fd operation sqe answer,
              submit_raw-full strerror k state r.ring sqe operation answer (omega arith),
              refused (named_sqe operation sqe ∷ [])
                  (told strerror poll "io_uring_enter submit" answer) (omega (arith, full)),
            )
            (refl, (state, refl, r))
    ]

    published_pair :
        (x y : Sqe)
        → used + 2 ≤ 2 ^ k
        → Represents k fd poll
            (record state { sq = publish_pair state.sq x y })
            (queue ++ (x ∷ y ∷ []))
    unfolding put_sqe
    published_pair x y room = record {
      open_fd = r.open_fd;
      polls = r.polls;
      ring = publish-IsRing k (publish state.sq x) y once room';
      holds =
          pending-publish k (publish state.sq x) y once room'
          ∙ ap (λ (l : List Sqe). l ++ (y ∷ []))
              (pending-publish k state.sq x r.ring (omega arith)
                ∙ ap (λ (l : List Sqe). l ++ (x ∷ [])) r.holds)
          ∙ append_assoc queue (x ∷ []) (y ∷ []);
    }
      where
        once : IsRing k (publish state.sq x)
        once = publish-IsRing k state.sq x r.ring (omega arith)

        room' : sub32 (publish state.sq x).tail (publish state.sq x).head < 2 ^ k
        room' = omega (arith, count-suc k state.sq x r.ring (omega arith))

    linked_step :
        (first second : ℕ) (a b : Sqe) (answer : Answer)
        → Follows (submit_linked strerror (some state) first second a b answer) (
            push_all
              (2 ^ k)
              queue
              (linked_sqe first a ∷ named_sqe second b ∷ [])
              (told strerror poll "io_uring_enter submit linked" answer))
    linked_step first second a b answer = elim (dec_lt (2 ^ k) (used + 2)) [
      | yes full ↦
          rw
            (
              submit_linked-open strerror fd state r.open_fd first second a b answer,
              submit_pair-full strerror k state r.ring first second a b answer full,
              refused (linked_sqe first a ∷ named_sqe second b ∷ [])
                  (told strerror poll "io_uring_enter submit linked" answer) full,
            )
            (refl, (state, refl, r))
      | no fits ↦
          rw
            (
              submit_linked-open strerror fd state r.open_fd first second a b answer,
              submit_pair-room strerror k state r.ring first second a b answer
                  (omega (arith, fits)),
              fitting (linked_sqe first a ∷ named_sqe second b ∷ [])
                  (told strerror poll "io_uring_enter submit linked" answer) (omega (arith, fits)),
            )
            (
              notify-told "io_uring_enter submit linked" state answer r.polls,
              (
                _,
                refl,
                published_pair (linked_sqe first a) (named_sqe second b) (omega (arith, fits)),
              ),
            )
    ]

  -- For any sequence of single submissions, linked pairs and takings by the kernel, the executor
  -- with its ring of `2 ^ k` entries answers what a queue with that bound answers, each submission
  -- adding all of its entries behind the others or none, and it ends in a state that represents the
  -- queue. It starts open, in a state that represents a queue; the counters may wrap.
  pub run-serve :
      (events : List Event) (state : State) (queue : List Sqe)
      → Represents k fd poll state queue
      → (state' : State) × (run strerror events (some state)
          ≡ ((serve strerror (2 ^ k) poll events queue).0, some state'))
        × Represents k fd poll state' (serve strerror (2 ^ k) poll events queue).1
  unfolding run serve
  run-serve [] state queue r = (state, refl, r)
  run-serve (single operation sqe answer ∷ events) state queue r =
      let (same, (s, e, r')) = single-step state queue r operation sqe answer in
      let (last, tail, r'') = run-serve events s _ r' in (last, rw (e, tail, same) refl, r'')
  run-serve (linked first second a b answer ∷ events) state queue r =
      let (same, (s, e, r')) = linked_step state queue r first second a b answer in
      let (last, tail, r'') = run-serve events s _ r' in (last, rw (e, tail, same) refl, r'')
  run-serve (take_up_to n ∷ events) state queue r =
      run-serve events (record state { sq = take_entries n state.sq }) (drop n queue)
        (record {
          open_fd = r.open_fd;
          polls = r.polls;
          ring = take_entries-IsRing k state.sq r.ring n;
          holds = pending-take_entries k state.sq r.ring n ∙ ap (drop n) r.holds;
        })

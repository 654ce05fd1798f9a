-- ===== src/Db/Writers/Reach.antt =====
-- The writer queue in every state that the threads reach: one write at a time, in order, none lost.
use storage_engine.Base.{
  ℕ, ◌+◌, ◌≤◌, ◌≡◌, ◌≢◌, refl, sym, ap, ◌∙◌, arith, Bool, true, false, List, [], ◌∷◌, ◌++◌,
  append-nil, append_assoc, length, length-append,
}
use storage_engine.Status.{Status}
use storage_engine.Db.Writers.{
  GroupOptions, WriterQueue, is_empty, finish_inline, may_proceed, must_return, drain, finish_drain,
  stop,
}
use storage_engine.Db.Writers.Steps.{
  LoopState, waiting, gathering, committing, returned, System, drained, with_status, Step,
  Reachable, submit, inline_end, wake, leave, gather, commit, destroy, start, step,
}
use storage_engine.Db.Writers.Order.{
  count_true, active, in_flight, writers_of, IsOrdered, writers_of-append, writers_of-with_status,
  submitted-IsOrdered, drained-IsOrdered, woken-IsOrdered,
}

count_true-le : (b : Bool) → count_true b ≤ 1
count_true-le true = omega arith
count_true-le false = omega arith

nil_of_length : (ws : List ℕ) → length ws ≡ 0 → ws ≡ []
nil_of_length [] h = refl
nil_of_length (w ∷ ws) h = absurd (omega arith)

nil_of_is_empty : (ws : List ℕ) → is_empty ws ≡ true → ws ≡ []
nil_of_is_empty [] h = refl
nil_of_is_empty (w ∷ ws) h = cc h

must_return_lem :
    (q : WriterQueue) → must_return q ≡ true → (q.stop_writer ≡ true) × (q.writers ≡ [])
unfolding must_return
must_return_lem q h =
    let both : (q.stop_writer ≡ true) × (is_empty q.writers ≡ true) = ground arith in
    (both.0, nil_of_is_empty q.writers both.1)

is_empty-false : (ws : List ℕ) → ws ≢ [] → is_empty ws ≡ false
is_empty-false [] h = absurd (h refl)
is_empty-false (w ∷ ws) h = refl

free_of_count : (b : Bool) → count_true b ≡ 0 → b ≡ false
free_of_count true h = absurd (omega arith)
free_of_count false h = refl

proceeds_free :
    (q : WriterQueue)
    → is_empty q.writers ≡ false
    → q.writing ≡ false
    → (may_proceed q ≡ true) × (must_return q ≡ false)
unfolding may_proceed must_return
proceeds_free q some_wait free = ground arith

-- A caller that ends its write was the only thread with the right to write.
ends_alone :
    (s : System) (writer : ℕ) (before after : List ℕ)
    → IsOrdered s
    → s.inline ≡ before ++ (writer ∷ after)
    → length (before ++ after) + active s.loop ≡ 0
ends_alone s writer before after o e = omega (
  arith,
  o.exclusive,
  ap length e,
  length-append before (writer ∷ after),
  length-append before after,
  count_true-le s.queue.writing,
)

inline_end-IsOrdered :
    (s : System) (writer : ℕ) (before after : List ℕ) (status : Status)
    → IsOrdered s
    → s.inline ≡ before ++ (writer ∷ after)
    → IsOrdered (record s {
      queue = finish_inline s.queue;
      inline = before ++ after;
      committed_inline = (writer, status) ∷ s.committed_inline;
    })
unfolding finish_inline
inline_end-IsOrdered s writer before after status o e =
    let alone = ends_alone s writer before after o e in
    record {
      exclusive = alone;
      order = o.order;
      closed = λ stopped. nil_of_length (before ++ after) (omega (arith, alone));
      finished = o.finished;
    }

gather-IsOrdered :
    (s : System) (target_size : ℕ)
    → IsOrdered s
    → s.loop ≡ gathering target_size
    → IsOrdered (drained s (drain s.queue))
gather-IsOrdered s target_size o at =
    drained-IsOrdered s s.queue
      (o.order
        ∙ ap (λ (l : LoopState). writers_of s.committed ++ (in_flight l ++ s.queue.writers)) at)
      (ground (arith, o.exclusive, ap active at))
      (omega (arith, o.exclusive, ap active at, count_true-le s.queue.writing)) o.closed

commit-IsOrdered :
    (s : System) (group : List ℕ) (status : Status)
    → IsOrdered s
    → s.loop ≡ committing group
    → IsOrdered (record s {
      queue = finish_drain group s.queue;
      loop = waiting;
      committed = s.committed ++ with_status status group;
    })
unfolding finish_drain
commit-IsOrdered s group status o at = record {
  exclusive = omega (arith, o.exclusive, ap active at, count_true-le s.queue.writing);
  order =
      o.order
      ∙ ap (λ (l : LoopState). writers_of s.committed ++ (in_flight l ++ s.queue.writers)) at
      ∙ sym (append_assoc (writers_of s.committed) group s.queue.writers)
      ∙ ap (λ (l : List ℕ). (writers_of s.committed ++ l) ++ s.queue.writers)
          (sym (writers_of-with_status status group))
      ∙ ap (λ (l : List ℕ). l ++ s.queue.writers)
          (sym (writers_of-append s.committed (with_status status group)));
  closed = o.closed;
  finished = λ e. cc e;
}

Step-IsOrdered :
    {options : GroupOptions} {s s' : System} → Step options s s' → IsOrdered s → IsOrdered s'
unfolding stop
Step-IsOrdered (submit s writer opened) o = submitted-IsOrdered s writer o opened
Step-IsOrdered (inline_end s writer before after status e) o =
    inline_end-IsOrdered s writer before after status o e
Step-IsOrdered (wake s idle go stay) o = woken-IsOrdered _ s o idle go
Step-IsOrdered (leave s idle go) o = record {
  exclusive = omega (arith, o.exclusive, ap active idle);
  order =
      o.order
      ∙ ap (λ (l : LoopState). writers_of s.committed ++ (in_flight l ++ s.queue.writers)) idle;
  closed = o.closed;
  finished = λ e. must_return_lem s.queue go;
}
Step-IsOrdered (gather s target_size at) o = gather-IsOrdered s target_size o at
Step-IsOrdered (commit s group status at) o = commit-IsOrdered s group status o at
Step-IsOrdered (destroy s alone) o = record {
  exclusive = o.exclusive;
  order = o.order;
  closed = λ e. alone;
  finished = λ e. (refl, (o.finished e).1);
}

Reachable-IsOrdered : {options : GroupOptions} {s : System} → Reachable options s → IsOrdered s
Reachable-IsOrdered start = record {
  exclusive = refl;
  order = refl;
  closed = λ e. cc e;
  finished = λ e. cc e;
}
Reachable-IsOrdered (step s s' r t) = Step-IsOrdered t (Reachable-IsOrdered r)

-- In every reachable state at most one thread, a caller or the writer thread, is writing a group;
-- the writers that were queued are, in their order, those that have their status, those of the
-- group that is being written, and those that wait; and when the writer thread has returned, every
-- writer that was queued has its status. Writes may fail and waits may end early, and no caller is
-- inside while the database is destroyed or enters later.
pub Reachable-writers :
    {options : GroupOptions} (s : System)
    → Reachable options s
    → (length s.inline + active s.loop ≤ 1)
      × (s.queued ≡ writers_of s.committed ++ (in_flight s.loop ++ s.queue.writers))
      × (s.loop ≡ returned → s.queued ≡ writers_of s.committed)
Reachable-writers s r =
    let o = Reachable-IsOrdered r in
    (
      omega (arith, o.exclusive, count_true-le s.queue.writing),
      o.order,
      λ e.
          o.order
          ∙ ap (λ (l : List ℕ). writers_of s.committed ++ (in_flight s.loop ++ l)) (o.finished e).1
          ∙ ap (λ (l : LoopState). writers_of s.committed ++ (in_flight l ++ [])) e
          ∙ append-nil (writers_of s.committed),
    )

-- No queued writer is stuck: in a reachable state in which a writer waits, some thread is writing
-- or the writer thread may proceed from its first wait.
pub Reachable-may_proceed :
    {options : GroupOptions} (s : System)
    → Reachable options s
    → s.queue.writers ≢ []
    → length s.inline + active s.loop ≡ 0
    → (s.loop ≡ waiting) × (may_proceed s.queue ≡ true) × (must_return s.queue ≡ false)
Reachable-may_proceed s r some_wait idle =
    let o = Reachable-IsOrdered r in
    let free : s.queue.writing ≡ false =
      free_of_count s.queue.writing (omega (arith, o.exclusive)) in
    let (go, stay) = proceeds_free s.queue (is_empty-false s.queue.writers some_wait) free in
    (at s.loop refl, go, stay)
  where
    at : (l : LoopState) → s.loop ≡ l → s.loop ≡ waiting
    at waiting e = e
    at (gathering target_size) e = absurd (omega (arith, idle, ap active e))
    at (committing group) e = absurd (omega (arith, idle, ap active e))
    at returned e = absurd (some_wait ((Reachable-IsOrdered r).finished e).1)

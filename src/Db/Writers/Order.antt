-- ===== src/Db/Writers/Order.antt =====
-- The invariant of the writer queue, and how entering the queue and waking the writer thread keep it.
use storage_engine.Base.{
  ℕ, ◌+◌, ◌≡◌, refl, sym, ap, ◌∙◌, arith, Bool, true, false, Bool-cases, inl, inr, Option, none,
  some, List, [], ◌∷◌, ◌++◌, map, append-nil, append_assoc, length, not, ◌&&◌,
}
use storage_engine.Status.{Status}
use storage_engine.Db.Writers.{
  GroupOptions, WriterQueue, is_empty, enqueue_async_writer, may_proceed, choose_wait, drain,
  drain_loop,
}
use storage_engine.Db.Writers.Steps.{
  LoopState, waiting, gathering, committing, returned, System, submitted, drained, chosen, woken,
  with_status,
}

abbrev pub count_true : Bool → ℕ
count_true true = 1
count_true false = 0

-- The writer thread has taken the right to write.
abbrev pub active : LoopState → ℕ
active waiting = 0
active (gathering target_size) = 1
active (committing group) = 1
active returned = 0

abbrev pub in_flight : LoopState → List ℕ
in_flight waiting = []
in_flight (gathering target_size) = []
in_flight (committing group) = group
in_flight returned = []

abbrev pub writers_of : List (ℕ × Status) → List ℕ
writers_of ws = map (λ (w : ℕ × Status). w.0) ws

pub record IsOrdered (s : System) : Type 0 where
  pub exclusive : length s.inline + active s.loop ≡ count_true s.queue.writing
  pub order : s.queued ≡ writers_of s.committed ++ (in_flight s.loop ++ s.queue.writers)
  pub closed : s.queue.stop_writer ≡ true → s.inline ≡ []
  pub finished : s.loop ≡ returned → (s.queue.stop_writer ≡ true) × (s.queue.writers ≡ [])

drain_loop-eq : (group writers : List ℕ) → drain_loop group writers ≡ group ++ writers
unfolding drain_loop
drain_loop-eq group [] = sym (append-nil group)
drain_loop-eq group (w ∷ ws) = drain_loop-eq (group ++ (w ∷ [])) ws ∙ append_assoc group (w ∷ []) ws

pub writers_of-append :
    (xs ys : List (ℕ × Status)) → writers_of (xs ++ ys) ≡ writers_of xs ++ writers_of ys
writers_of-append [] ys = refl
writers_of-append (x ∷ xs) ys = ap (◌∷◌ x.0) (writers_of-append xs ys)

pub writers_of-with_status :
    (status : Status) (group : List ℕ) → writers_of (with_status status group) ≡ group
writers_of-with_status status [] = refl
writers_of-with_status status (w ∷ ws) = ap (◌∷◌ w) (writers_of-with_status status ws)

pub submitted-IsOrdered :
    (s : System) (writer : ℕ)
    → IsOrdered s
    → s.queue.stop_writer ≡ false
    → IsOrdered (submitted s writer)
unfolding submitted enqueue_async_writer
submitted-IsOrdered s writer o opened =
    elim (Bool-cases
      (not s.queue.writing && (is_empty s.queue.writers && not s.queue.group_commit_armed))) [
        | inl free ↦ rw free (record {
          exclusive = ground (arith, o.exclusive);
          order = o.order;
          closed = λ e. cc (opened, e);
          finished = o.finished;
        })
        | inr busy ↦ rw busy (record {
          exclusive = o.exclusive;
          order = ap (λ (l : List ℕ). l ++ (writer ∷ [])) o.order ∙ simp append_assoc;
          closed = o.closed;
          finished = λ e. cc (opened, (o.finished e).0);
        })
      ]

pub drained-IsOrdered :
    (s : System) (q : WriterQueue)
    → s.queued ≡ writers_of s.committed ++ q.writers
    → q.writing ≡ true
    → length s.inline ≡ 0
    → (q.stop_writer ≡ true → s.inline ≡ [])
    → IsOrdered (drained s (drain q))
unfolding drain
drained-IsOrdered s q order taken alone closed = record {
  exclusive = rw (taken, alone) refl;
  order =
      order
      ∙ ap (λ (l : List ℕ). writers_of s.committed ++ l)
          (sym (append-nil (drain_loop [] q.writers) ∙ drain_loop-eq [] q.writers));
  closed = closed;
  finished = λ e. cc e;
}

chosen-IsOrdered :
    (s : System) (r : Option (ℕ × ℕ) × WriterQueue)
    → s.queued ≡ writers_of s.committed ++ r.1.writers
    → r.1.writing ≡ true
    → length s.inline ≡ 0
    → (r.1.stop_writer ≡ true → s.inline ≡ [])
    → IsOrdered (chosen s r)
chosen-IsOrdered s (none, q) order taken alone closed =
    drained-IsOrdered s q order taken alone closed
chosen-IsOrdered s (some wait, q) order taken alone closed = record {
  exclusive = rw (taken, alone) refl;
  order = order;
  closed = closed;
  finished = λ e. cc e;
}

-- The second wait changes neither the queue nor the end of the thread, and takes the right to write.
choose_wait_lem :
    (options : GroupOptions) (q : WriterQueue)
    → ((choose_wait options q).1.writers ≡ q.writers)
      × ((choose_wait options q).1.writing ≡ true)
      × ((choose_wait options q).1.stop_writer ≡ q.stop_writer)
unfolding choose_wait
choose_wait_lem options q = ground arith

-- A writer thread that may proceed is alone.
pub proceeds_alone :
    (s : System) → IsOrdered s → s.loop ≡ waiting → may_proceed s.queue ≡ true → length s.inline ≡ 0
unfolding may_proceed
proceeds_alone s o idle go = elim (Bool-cases s.queue.stop_writer) [
  | inl stopped ↦ ap length (o.closed stopped)
  | inr running ↦ ground (arith, o.exclusive, ap active idle)
]

pub woken-IsOrdered :
    (options : GroupOptions) (s : System)
    → IsOrdered s
    → s.loop ≡ waiting
    → may_proceed s.queue ≡ true
    → IsOrdered (woken options s)
unfolding woken
woken-IsOrdered options s o idle go =
    let (same, taken, ends) = choose_wait_lem options s.queue in
    chosen-IsOrdered s (choose_wait options s.queue)
      (o.order
        ∙ ap (λ (l : LoopState). writers_of s.committed ++ (in_flight l ++ s.queue.writers)) idle
        ∙ ap (λ (l : List ℕ). writers_of s.committed ++ l) (sym same))
      taken (proceeds_alone s o idle go) (λ e. o.closed (sym ends ∙ e))

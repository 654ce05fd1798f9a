-- ===== src/Task/Ownership.antt =====
-- Who owns the frames of coroutines: any sequence of constructions, moves and destructions of tasks.
use storage_engine.Base.{
  ℕ, zero, suc, ◌+◌, ◌<◌, ◌≡◌, ◌≢◌, refl, sym, ap, arith, inl, inr, Bool, false, Bool-cases, ◌&&◌,
  ◌==◌, ==_iff, ltb, lt_of_ltb, if◌then◌else◌, some, List, [], ◌∷◌, ◌++◌, length, length-set,
  get_or, set, get_or-set_self, get_or-set_ne,
}
use storage_engine.Task.{Task, no_task, owned, move, destruct, move_assign}

-- The tasks that are alive, the frames that were destroyed, and the number of frames that were
-- created; they are numbered as they are created.
pub record World : Type 0 where
  pub tasks : List Task
  pub destroyed : List ℕ
  pub created : ℕ

-- `get_return_object`, the move constructor, the move assignment, the end of a task's scope.
pub data Op : Type 0 where
  call : Op
  move_from : ℕ → Op
  assign_from : (target source : ℕ) → Op
  leave : ℕ → Op

abbrev pub remove : ℕ → List Task → List Task
remove i [] = []
remove zero (t ∷ ts) = ts
remove (suc i) (t ∷ ts) = t ∷ remove i ts

-- An operation on a task that is not there does nothing.
unfoldable pub step : Op → World → World
step call w = record w {
  tasks = w.tasks ++ (record { handle = some w.created; started = false } ∷ []);
  created = w.created + 1;
}
step (move_from i) w =
    let (task, other) = move (get_or w.tasks i no_task) in
    if ltb i (length w.tasks) then record w { tasks = set w.tasks i other ++ (task ∷ []) } else w
step (assign_from i j) w =
    let (task, other, destroyed) =
      move_assign (i == j) (get_or w.tasks i no_task) (get_or w.tasks j no_task) in
    if ltb i (length w.tasks) && ltb j (length w.tasks)
    then record w { tasks = set (set w.tasks j other) i task; destroyed = destroyed ++ w.destroyed }
    else w
step (leave i) w =
    if ltb i (length w.tasks)
    then record w {
      tasks = remove i w.tasks;
      destroyed = destruct (get_or w.tasks i no_task) ++ w.destroyed;
    }
    else w

unfoldable pub steps : List Op → World → World
steps [] w = w
steps (op ∷ ops) w = steps ops (step op w)

-- How many of the frames are `h`.
abbrev pub count : ℕ → List ℕ → ℕ
count h [] = 0
count h (x ∷ xs) = (if x == h then 1 else 0) + count h xs

abbrev pub holds : ℕ → Task → ℕ
holds h task = count h (destruct task)

abbrev pub owners : ℕ → List Task → ℕ
owners h [] = 0
owners h (t ∷ ts) = holds h t + owners h ts

count-append : (h : ℕ) (xs ys : List ℕ) → count h (xs ++ ys) ≡ count h xs + count h ys
count-append h [] ys = omega arith
count-append h (x ∷ xs) ys = omega (arith, count-append h xs ys)

owners-append : (h : ℕ) (ts us : List Task) → owners h (ts ++ us) ≡ owners h ts + owners h us
owners-append h [] us = omega arith
owners-append h (t ∷ ts) us = omega (arith, owners-append h ts us)

owners-set :
    (h : ℕ) (ts : List Task) (i : ℕ) (t : Task)
    → i < length ts
    → owners h (set ts i t) + holds h (get_or ts i no_task) ≡ owners h ts + holds h t
owners-set h [] i t inside = absurd (omega arith)
owners-set h (u ∷ ts) zero t inside = omega arith
owners-set h (u ∷ ts) (suc i) t inside = omega (arith, owners-set h ts i t (omega arith))

owners-remove :
    (h : ℕ) (ts : List Task) (i : ℕ)
    → i < length ts
    → owners h (remove i ts) + holds h (get_or ts i no_task) ≡ owners h ts
owners-remove h [] i inside = absurd (omega arith)
owners-remove h (u ∷ ts) zero inside = omega arith
owners-remove h (u ∷ ts) (suc i) inside = omega (arith, owners-remove h ts i (omega arith))

-- How often a frame is owned or was destroyed.
abbrev pub known : ℕ → World → ℕ
known h w = owners h w.tasks + count h w.destroyed

abbrev pub once : ℕ → World → ℕ
once h w = if ltb h w.created then 1 else 0

holds-no_task : (h : ℕ) → holds h no_task ≡ 0
unfolding destruct owned
holds-no_task h = refl

holds-handle :
    (h : ℕ) (t : Task) (started : Bool)
    → holds h (record { handle = t.handle; started = started }) ≡ holds h t
unfolding destruct
holds-handle h t started = refl

module _ (h : ℕ) (w : World) where
  abbrev task_at : ℕ → Task
  task_at i = get_or w.tasks i no_task

  call-known : known h w ≡ once h w → known h (step call w) ≡ once h (step call w)
  unfolding step destruct owned
  call-known e =
      ground (
        arith,
        e,
        owners-append h w.tasks (record { handle = some w.created; started = false } ∷ []),
      )

  move_from-known :
      (i : ℕ)
      → i < length w.tasks
      → owners h (set w.tasks i (move (task_at i)).1 ++ ((move (task_at i)).0 ∷ []))
        ≡ owners h w.tasks
  unfolding move
  move_from-known i inside = omega (
    arith,
    owners-append h (set w.tasks i no_task)
        (record { handle = (task_at i).handle; started = (task_at i).started } ∷ []),
    owners-set h w.tasks i no_task inside,
    holds-no_task h,
  )

  -- An assignment of one task to another: the target's frame is destroyed.
  assign_apart :
      (i j : ℕ)
      → i ≢ j
      → i < length w.tasks
      → j < length w.tasks
      → owners h (
            set
              (set w.tasks j no_task)
              i
              (record { handle = (task_at j).handle; started = (task_at j).started }))
          + holds h (task_at i)
        ≡ owners h w.tasks
  assign_apart i j ne hi hj = omega (
    arith,
    owners-set h w.tasks j no_task hj,
    owners-set h (set w.tasks j no_task) i (task_at j)
        (omega (arith, hi, length-set w.tasks j no_task)),
    ap (holds h) (get_or-set_ne w.tasks j i no_task no_task (λ e. ne (sym e))),
    holds-no_task h,
  )

  assign_self :
      (i : ℕ)
      → i < length w.tasks
      → owners h (set (set w.tasks i (task_at i)) i (task_at i)) ≡ owners h w.tasks
  assign_self i inside = omega (
    arith,
    owners-set h w.tasks i (task_at i) inside,
    owners-set h (set w.tasks i (task_at i)) i (task_at i)
        (omega (arith, inside, length-set w.tasks i (task_at i))),
    ap (holds h) (get_or-set_self w.tasks i (task_at i) no_task inside),
  )

  assign-known :
      (i j : ℕ)
      → i < length w.tasks
      → j < length w.tasks
      → owners h (
            set
              (set w.tasks j (move_assign (i == j) (task_at i) (task_at j)).1)
              i
              (move_assign (i == j) (task_at i) (task_at j)).0)
          + count h (move_assign (i == j) (task_at i) (task_at j)).2
        ≡ owners h w.tasks
  unfolding move_assign destruct
  assign-known i j hi hj = elim (Bool-cases (i == j)) [
    | inl same ↦ rw (same, sym ((==_iff i j).0 same)) (omega (arith, assign_self i hi))
    | inr apart ↦ rw apart (assign_apart i j (λ e. cc (apart, (==_iff i j).1 e)) hi hj)
  ]

  step-known : (op : Op) → known h w ≡ once h w → known h (step op w) ≡ once h (step op w)
  unfolding step
  step-known call e = call-known e
  step-known (move_from i) e = elim (Bool-cases (ltb i (length w.tasks))) [
    | inl inside ↦
        rw inside (omega (arith, e, move_from-known i (lt_of_ltb i (length w.tasks) inside)))
    | inr outside ↦ rw outside e
  ]
  step-known (assign_from i j) e = elim (Bool-cases (ltb i (length w.tasks))) [
    | inr outside ↦ rw outside e
    | inl hi ↦ elim (Bool-cases (ltb j (length w.tasks))) [
      | inr outside ↦ rw (hi, outside) e
      | inl hj ↦
          rw (hi, hj)
            (omega (
              arith,
              e,
              count-append h (move_assign (i == j) (task_at i) (task_at j)).2 w.destroyed,
              assign-known i j (lt_of_ltb i (length w.tasks) hi) (lt_of_ltb j (length w.tasks) hj),
            ))
    ]
  ]
  step-known (leave i) e = elim (Bool-cases (ltb i (length w.tasks))) [
    | inl inside ↦ rw inside (
        omega (
          arith,
          e,
          count-append h (destruct (task_at i)) w.destroyed,
          owners-remove h w.tasks i (lt_of_ltb i (length w.tasks) inside),
        ))
    | inr outside ↦ rw outside e
  ]

abbrev pub no_world : World
no_world = record { tasks = []; destroyed = []; created = 0 }

steps-known-from :
    (h : ℕ) (ops : List Op) (w : World)
    → known h w ≡ once h w
    → known h (steps ops w) ≡ once h (steps ops w)
unfolding steps
steps-known-from h [] w e = e
steps-known-from h (op ∷ ops) w e = steps-known-from h ops (step op w) (step-known h w op e)

-- Whatever tasks are created, moved and destroyed, every frame that was created is owned by exactly
-- one task or was destroyed exactly once, not both, and no other frame is owned or was destroyed.
pub steps-known :
    (ops : List Op) (h : ℕ) → known h (steps ops no_world) ≡ once h (steps ops no_world)
steps-known ops h = steps-known-from h ops no_world (ground arith)

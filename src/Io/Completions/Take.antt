-- ===== src/Io/Completions/Take.antt =====
-- The inner loop hands out what the ring holds.
use storage_engine.Base.{
  ℕ, zero, suc, ◌+◌, ◌%◌, ◌^◌, ◌≤◌, ◌<◌, ◌≡◌, refl, sym, ap, ◌∙◌, arith, inl, inr, Bool, true,
  false, Bool-cases, ==_refl, ==_iff, ◌==◌, if◌then◌else◌, Option, none, some, List, [], ◌∷◌, ◌++◌,
  append_assoc, append-nil,
}
use storage_engine.Io.{Completion}
use storage_engine.Io.Ring.{add32, sub32}
use storage_engine.Io.Completions.{
  Cqe, CompletionRing, Operation, Loop, set_result, resume, complete, first_cqe, take_cqe,
  take_completions,
}
use storage_engine.Io.Completions.Effect.{posted_loop, posted, Effect, awake, wakes, effect}

abbrev pub Brings : Loop → Effect → Bool × Loop → Type 0
Brings l e (returns, last) =
    (returns ≡ e.returns)
    × (last.resumed ≡ l.resumed ++ e.woken)
    × (last.completion_loop_completions ≡ (l.completion_loop_completions + e.counted) % 2 ^ 64)
    × (posted last.cq ≡ e.left)

-- The counters of the ring and of the executor are within their words.
pub record IsLoop (l : Loop) : Type 0 where
  pub head_fits : l.cq.head < 2 ^ 32
  pub tail_fits : l.cq.tail < 2 ^ 32
  pub count_fits : l.completion_loop_completions < 2 ^ 64

abbrev popped : Loop → Loop
popped l = record l { cq = record l.cq { head = add32 l.cq.head 1 } }

abbrev left : Loop → ℕ
left l = sub32 l.cq.tail l.cq.head

posted-empty : (l : Loop) → IsLoop l → l.cq.head ≡ l.cq.tail → posted l.cq ≡ []
posted-empty l v e =
    ap (λ (n : ℕ). posted_loop l.cq n l.cq.head) {x = left l} {y = 0} (omega (arith, e))

left-popped : (l : Loop) → IsLoop l → ¬ (l.cq.head ≡ l.cq.tail) → left l ≡ suc (left (popped l))
left-popped l v ne = omega arith

posted-popped :
    (l : Loop)
    → IsLoop l
    → ¬ (l.cq.head ≡ l.cq.tail)
    → posted l.cq ≡ first_cqe l.cq ∷ posted (popped l).cq
posted-popped l v ne = ap (λ (n : ℕ). posted_loop l.cq n l.cq.head) (left-popped l v ne)

cq-take_cqe : (stopping : Bool) (l : Loop) → (take_cqe stopping l).1.cq ≡ (popped l).cq
unfolding take_cqe complete
cq-take_cqe stopping l = elim (Bool-cases ((first_cqe l.cq).user_data == 0)) [
  | inl e ↦ rw e refl
  | inr e ↦ rw e refl
]

continuation-complete :
    (l : Loop) (at : ℕ) (result : Completion) (a : ℕ)
    → ((complete l at result).operations a).continuation ≡ (l.operations a).continuation
unfolding complete set_result
continuation-complete l at result a = elim (Bool-cases (a == at)) [
  | inl e ↦ rw e refl
  | inr e ↦ rw e refl
]

resume-set_result :
    (operations : ℕ → Operation) (at : ℕ) (result : Completion)
    → resume (set_result operations at result at) ≡ awake (operations at).continuation result
unfolding resume set_result
resume-set_result operations at result =
    rw (==_refl at) (by_continuation (operations at).continuation)
  where
    by_continuation :
        (k : Option ℕ) → resume (record { continuation = k; result = result }) ≡ awake k result
    by_continuation none = refl
    by_continuation (some k) = refl

-- Completing one operation, then what the others bring about.
complete-Brings :
    (continuation : ℕ → Option ℕ) (l : Loop) (c : Cqe) (e : Effect) (result : Bool × Loop)
    → (l.operations c.user_data).continuation ≡ continuation c.user_data
    → Brings (complete l c.user_data c.res) e result
    → Brings l (wakes continuation c e) result
unfolding complete
complete-Brings continuation l c e (returns, last) same (r, w, n, p) = (
  r,
  w
      ∙ ap (λ (rs : List (ℕ × Completion)). (l.resumed ++ rs) ++ e.woken)
          (resume-set_result l.operations c.user_data c.res
            ∙ ap (λ (k : Option ℕ). awake k c.res) same)
      ∙ append_assoc l.resumed (awake (continuation c.user_data) c.res) e.woken,
  omega (arith, n),
  p,
)

nothing :
    (stopping : Bool) (continuation : ℕ → Option ℕ) (l : Loop)
    → IsLoop l
    → l.cq.head ≡ l.cq.tail
    → Brings l (effect stopping continuation (posted l.cq)) (false, l)
unfolding effect
nothing stopping continuation l v e =
    rw (posted-empty l v e) (refl, sym (append-nil l.resumed), omega (arith, v.count_fits), refl)

differ : (l : Loop) → (l.cq.head == l.cq.tail) ≡ false → ¬ (l.cq.head ≡ l.cq.tail)
differ l ne e = cc (ne, (==_iff l.cq.head l.cq.tail).1 e)

take_cqe-operation :
    (stopping : Bool) (l : Loop)
    → ((first_cqe l.cq).user_data == 0) ≡ false
    → take_cqe stopping l
      ≡ (false, complete (popped l) (first_cqe l.cq).user_data (first_cqe l.cq).res)
unfolding take_cqe
take_cqe-operation stopping l e = rw e refl

take_cqe-nop :
    (stopping : Bool) (l : Loop)
    → ((first_cqe l.cq).user_data == 0) ≡ true
    → take_cqe stopping l ≡ (stopping, popped l)
unfolding take_cqe
take_cqe-nop stopping l e = rw e refl

-- One completion and what the rest of the loop brings about.
take_cqe-Brings :
    (stopping : Bool) (continuation : ℕ → Option ℕ) (l : Loop) (rest : Bool × Loop)
    → IsLoop l
    → ((a : ℕ) → (l.operations a).continuation ≡ continuation a)
    → ((take_cqe stopping l).0 ≡ false
        → Brings (take_cqe stopping l).1 (effect stopping continuation (posted (popped l).cq)) rest)
    → Brings l
        (effect stopping continuation (first_cqe l.cq ∷ posted (popped l).cq))
        (if (take_cqe stopping l).0 then (true, (take_cqe stopping l).1) else rest)
unfolding effect
take_cqe-Brings stopping continuation l rest v same =
    elim (Bool-cases ((first_cqe l.cq).user_data == 0)) [
      | inr real ↦
          rw (take_cqe-operation stopping l real, real)
            (λ more.
              complete-Brings continuation (popped l) (first_cqe l.cq)
                (effect stopping continuation (posted (popped l).cq)) rest (same _) (more refl))
      | inl nop ↦
          rw (take_cqe-nop stopping l nop, nop)
            (elim stopping
              as (λ b.
                (b ≡ false → Brings (popped l) (effect b continuation (posted (popped l).cq)) rest)
                → Brings l
                    (if b
                      then record {
                        returns = true;
                        woken = [];
                        counted = 0;
                        left = posted (popped l).cq;
                      }
                      else effect b continuation (posted (popped l).cq))
                    (if b then (true, popped l) else rest)) [
                      | true ↦ λ more.
                          (refl, sym (append-nil l.resumed), omega (arith, v.count_fits), refl)
                      | false ↦ λ more. more refl
                    ])
    ]

continuation-take_cqe :
    (stopping : Bool) (l : Loop) (a : ℕ)
    → ((take_cqe stopping l).1.operations a).continuation ≡ (l.operations a).continuation
unfolding take_cqe
continuation-take_cqe stopping l a = elim (Bool-cases ((first_cqe l.cq).user_data == 0)) [
  | inl e ↦ rw e refl
  | inr e ↦
      rw e (continuation-complete (popped l) (first_cqe l.cq).user_data (first_cqe l.cq).res a)
]

completions-take_cqe :
    (stopping : Bool) (l : Loop)
    → IsLoop l
    → (take_cqe stopping l).1.completion_loop_completions < 2 ^ 64
unfolding take_cqe complete
completions-take_cqe stopping l v = elim (Bool-cases ((first_cqe l.cq).user_data == 0)) [
  | inl e ↦ rw e v.count_fits
  | inr e ↦ rw e (omega arith)
]

take_cqe-IsLoop : (stopping : Bool) (l : Loop) → IsLoop l → IsLoop (take_cqe stopping l).1
take_cqe-IsLoop stopping l v = record {
  head_fits = rw (cq-take_cqe stopping l) (omega arith);
  tail_fits = rw (cq-take_cqe stopping l) v.tail_fits;
  count_fits = completions-take_cqe stopping l v;
}

-- With as many rounds as the ring holds completions, or more, the inner loop of `completionLoop`
-- takes them off in order, resumes the coroutine of each operation with its result and counts the
-- operations modulo 2 ^ 64; a completion without an address ends the thread when the executor is
-- being closed and is passed over otherwise. The counters fit their words; the ring may wrap.
pub take_completions-Brings :
    (stopping : Bool) (continuation : ℕ → Option ℕ) (fuel : ℕ) (l : Loop)
    → IsLoop l
    → ((a : ℕ) → (l.operations a).continuation ≡ continuation a)
    → left l ≤ fuel
    → Brings l (effect stopping continuation (posted l.cq)) (take_completions stopping fuel l)
unfolding take_completions effect
take_completions-Brings stopping continuation zero l v same enough =
    nothing stopping continuation l v (omega (arith, v.head_fits, v.tail_fits))
take_completions-Brings stopping continuation (suc fuel) l v same enough =
    elim (Bool-cases (l.cq.head == l.cq.tail)) [
      | inl e ↦ rw e (nothing stopping continuation l v ((==_iff l.cq.head l.cq.tail).0 e))
      | inr ne ↦
          rw (ne, posted-popped l v (differ l ne))
            (take_cqe-Brings stopping continuation l
              (take_completions stopping fuel (take_cqe stopping l).1) v same
              (λ go. rw⁻¹ (ap posted (cq-take_cqe stopping l)) (
                take_completions-Brings stopping continuation fuel (take_cqe stopping l).1
                  (take_cqe-IsLoop stopping l v) (λ a. continuation-take_cqe stopping l a ∙ same a)
                  (omega (
                    arith,
                    left-popped l v (differ l ne),
                    ap (λ (cq : CompletionRing). sub32 cq.tail cq.head) (cq-take_cqe stopping l),
                  )))))
    ]

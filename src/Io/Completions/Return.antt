-- ===== src/Io/Completions/Return.antt =====
-- When the completion thread returns.
use storage_engine.Base.{
  ℕ, ◌≡◌, ◌≢◌, refl, ap, ◌∙◌, ◌⊎◌, inl, inr, Bool, true, Bool-cases, ◌==◌, ==_iff, Option, List, [],
  ◌∷◌, arith,
}
use storage_engine.Io.{Completion, done, failed}
use storage_engine.Io.Ring.{sub32}
use storage_engine.Io.Completions.{Cqe, Loop, Round, eintr, entered, completion_round}
use storage_engine.Io.Completions.Effect.{posted, effect}
use storage_engine.Io.Completions.Take.{IsLoop, take_completions-Brings}

-- A completion without an address.
abbrev pub HasNop : List Cqe → Type 0
HasNop [] = ⊥
HasNop (c ∷ cs) = (c.user_data ≡ 0) ⊎ HasNop cs

-- What ends a thread whose executor is being closed: an error other than an interruption, or a
-- completion without an address.
abbrev pub Ends : Round → Loop → Completion → Type 0
Ends r l (failed errno) = errno ≢ eintr
Ends r l (done n) = HasNop (posted (r.post l.cq))

effect-returns :
    (continuation : ℕ → Option ℕ) (cs : List Cqe)
    → HasNop cs
    → (effect true continuation cs).returns ≡ true
unfolding effect
effect-returns continuation [] h = elim h [ ]
effect-returns continuation (c ∷ cs) (inl e) = rw ((==_iff c.user_data 0).1 e) refl
effect-returns continuation (c ∷ cs) (inr later) = elim (Bool-cases (c.user_data == 0)) [
  | inl nop ↦ rw nop refl
  | inr real ↦ rw real (effect-returns continuation cs later)
]

-- While the executor is being closed, a round of `completionLoop` returns when `io_uring_enter` fails
-- with an error other than EINTR, and when it succeeds and the ring holds a completion without an
-- address. The counters fit their words.
pub completion_round-returns :
    (r : Round) (l : Loop)
    → IsLoop (record l { cq = r.post l.cq })
    → r.stopping ≡ true
    → Ends r l r.enter
    → (completion_round r l).0 ≡ true
unfolding completion_round
completion_round-returns r l v closing = by_answer r.enter
  where
    opened : Loop
    opened = record l { cq = r.post l.cq }

    count : ℕ
    count = sub32 (r.post l.cq).tail (r.post l.cq).head

    continuation : ℕ → Option ℕ
    continuation a = (l.operations a).continuation

    by_answer :
        (answer : Completion)
        → Ends r l answer
        → (entered r answer (record l { cq = r.post l.cq })).0 ≡ true
    by_answer (failed errno) ne = elim (Bool-cases (errno == eintr)) [
      | inl e ↦ absurd (ne ((==_iff errno eintr).0 e))
      | inr e ↦ rw e closing
    ]
    by_answer (done n) h =
        (take_completions-Brings r.stopping continuation count opened v (λ a. refl) (omega arith)).0
        ∙ ap (λ (b : Bool). (effect b continuation (posted (r.post l.cq))).returns) closing
        ∙ effect-returns continuation (posted (r.post l.cq)) h

-- ===== src/Db/Open.antt =====
-- src/db.cc, `Open` and the destructor: the descriptor of the log, the executor, the recovery.
-- `open(2)` and the file that it opens are parameters; the directory and the writer thread are left
-- out.
use storage_engine.Base.{
  ℕ, ◌≡◌, ◌≢◌, refl, sym, ap, ◌∙◌, inl, inr, Bool-cases, Option, none, some, if◌then◌else◌,
}
use storage_engine.Status.{Status, Result, ok, err, io_error, status_ok}
use storage_engine.Bytes.{ByteString}
use storage_engine.Io.{Completion, done, failed, errno_message}
use storage_engine.Io.Ring.{Answer}
use storage_engine.Io.Setup
use storage_engine.Io.Setup.{Executor, Options, setup_params, create, close_ring}
use storage_engine.Io.Setup.Balance.{HasDistinctMaps, Returns, fd_of, create_lem}
use storage_engine.Io.Setup.Held.{Os, descriptor, hold, release}
use storage_engine.Io.Setup.Release.{release-hold_fd, release-held_by, close_ring-held_by}
use storage_engine.Db.{Environment, Db, new_db, recover}
use storage_engine.Db.Total.{recover_total}

-- An open database: the members that the destructor releases, and the rest.
pub record Handle : Type 0 where
  pub wal_fd : ℕ
  pub executor : Option Executor
  pub db : Db

abbrev completion_on : Option ℕ → Completion
completion_on none = failed 0
completion_on (some fd) = done fd

module _ (env : Environment) (kernel : Setup.Kernel) where
  -- The destructor, and behind it that of `executor_`.
  pub close_db : (wal_fd : ℕ) → Option Executor → Os → Answer → Os
  close_db wal_fd executor os answer =
      close_ring kernel.strerror executor (release (descriptor wal_fd) os) answer

  with_recovery : (wal_fd : ℕ) → Option Executor → Os → Answer → Status × Db → Result Handle × Os
  with_recovery wal_fd executor os answer (status, db) =
      if status_ok status
      then (ok (record { wal_fd = wal_fd; executor = executor; db = db }), os)
      else (err status, close_db wal_fd executor os answer)

  -- `none` says that the fuel of `DecodeLog` ran out.
  after_recover :
      (wal_fd : ℕ)
      → Option Executor
      → Os
      → Answer
      → Option (Status × Db)
      → Option (Result Handle × Os)
  after_recover wal_fd executor os answer none = none
  after_recover wal_fd executor os answer (some r) =
      some (with_recovery wal_fd executor os answer r)

  with_executor :
      (wal_fd : ℕ)
      → ByteString
      → Answer
      → Result (Option Executor) × Os
      → Option (Result Handle × Os)
  with_executor wal_fd file answer (err status, os) =
      some (err status, release (descriptor wal_fd) os)
  with_executor wal_fd file answer (ok executor, os) =
      after_recover wal_fd executor os answer (recover env (new_db file))

  with_file : Options → ByteString → Os → Answer → Completion → Option (Result Handle × Os)
  with_file options file os answer (failed errno) =
      some (err (io_error (errno_message env.kernel.strerror "open WAL" errno)), os)
  with_file options file os answer (done wal_fd) =
      with_executor wal_fd file answer (create kernel options (hold (descriptor wal_fd) os))

  -- `opened` is the answer of `open(2)`, `answer` that of the kernel to the last operation of an
  -- executor that is closed.
  pub open_db :
      Options
      → (opened : Completion) → (file : ByteString) → Os
      → Answer
      → Option (Result Handle × Os)
  unfolding with_file with_executor after_recover with_recovery
  open_db options opened file os answer = with_file options file os answer opened

  -- What the process holds when the database that was returned is destroyed.
  pub closed_handle : Result Handle × Os → Answer → Os
  closed_handle (err status, os) answer = os
  closed_handle (ok h, os) answer = close_db h.wal_fd h.executor os answer

  module _ (options : Options) (distinct : HasDistinctMaps kernel) (wal_fd : ℕ)
      (other_fd : fd_of (kernel.io_uring_setup options.entries (setup_params options))
        ≢ some wal_fd) where
    close_db_lem :
        (executor : Option Executor) (held os : Os) (answer : Answer)
        → Returns kernel
            (fd_of (kernel.io_uring_setup options.entries (setup_params options)))
            (ok executor, held)
            (hold (descriptor wal_fd) os)
        → close_db wal_fd executor held answer ≡ os
    unfolding close_db
    close_db_lem none held os answer h = elim h [ ]
    close_db_lem (some e) held os answer (h, ring) =
        ap (λ (o : Os). close_ring kernel.strerror (some e) (release (descriptor wal_fd) o) answer)
          h
        ∙ ap (λ (o : Os). close_ring kernel.strerror (some e) o answer)
            (release-held_by wal_fd e os (λ same. other_fd (sym ring ∙ same)))
        ∙ close_ring-held_by kernel.strerror e os answer

    with_recovery_lem :
        (executor : Option Executor) (held os : Os) (answer : Answer) (r : Status × Db)
        → Returns kernel
            (fd_of (kernel.io_uring_setup options.entries (setup_params options)))
            (ok executor, held)
            (hold (descriptor wal_fd) os)
        → closed_handle (with_recovery wal_fd executor held answer r) answer ≡ os
    unfolding closed_handle with_recovery
    with_recovery_lem executor held os answer (status, db) h =
        elim (Bool-cases (status_ok status)) [
          | inl good ↦ rw good (close_db_lem executor held os answer h)
          | inr bad ↦ rw bad (close_db_lem executor held os answer h)
        ]

    with_executor_lem :
        (made : Result (Option Executor) × Os) (file : ByteString) (os : Os) (answer : Answer)
        → Returns kernel
            (fd_of (kernel.io_uring_setup options.entries (setup_params options)))
            made
            (hold (descriptor wal_fd) os)
        → (result : Result Handle × Os) × (with_executor wal_fd file answer made ≡ some result)
          × (closed_handle result answer ≡ os)
    unfolding with_executor after_recover closed_handle
    with_executor_lem (err status, held) file os answer (bad, h) =
        (_, refl, ap (release (descriptor wal_fd)) h ∙ release-hold_fd wal_fd os)
    with_executor_lem (ok executor, held) file os answer h =
        let (r, e) = recover_total env (new_db file) in
        (
          _,
          ap (after_recover wal_fd executor held answer) e,
          with_recovery_lem executor held os answer r h,
        )

  -- `Open` returns, and whichever of its steps fails, and also when it succeeds and the database is
  -- destroyed, the process ends up holding the descriptors and mappings that it held before, and
  -- nothing is released that is not held. The ring's descriptor is not that of the log, and mappings
  -- of the two rings have different addresses.
  pub closed_handle-open_db :
      (options : Options) (opened : Completion) (file : ByteString) (os : Os) (answer : Answer)
      → HasDistinctMaps kernel
      → ((wal_fd : ℕ)
          → opened ≡ done wal_fd
          → kernel.io_uring_setup options.entries (setup_params options) ≢ done wal_fd)
      → (result : Result Handle × Os) × (open_db options opened file os answer ≡ some result)
        × (closed_handle result answer ≡ os)
  unfolding open_db with_file closed_handle
  closed_handle-open_db options (failed errno) file os answer distinct other_fd = (_, refl, refl)
  closed_handle-open_db options (done wal_fd) file os answer distinct other_fd =
      with_executor_lem options distinct wal_fd (apart _ (other_fd wal_fd refl)) _ file os answer
        (create_lem kernel options (hold (descriptor wal_fd) os) distinct)
    where
      apart : (c : Completion) → c ≢ done wal_fd → fd_of c ≢ some wal_fd
      apart (failed errno) ne e = cc e
      apart (done fd) ne e = ne (ap completion_on e)

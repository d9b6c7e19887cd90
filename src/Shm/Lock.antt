-- ===== src/Shm/Lock.antt =====
-- The lock of the channel in lib/src/shm-comm/shm_notifier.c.
use lingmo_authenticate.Common.{
  ℕ, zero, suc, ◌+◌, ◌≡◌, refl, ap, ◌∙◌, List, [], ◌∷◌, replicate, arith,
}
use lingmo_authenticate.Shm.{Locker, LockOp, lock_round, unlock, lock_run}

abbrev pub unlocked : ℕ → Locker
unlocked k = record { n = 0; returned = k }

abbrev pub locked : ℕ → Locker
locked k = record { n = 1; returned = k }

lock_run-unlocked : (ops : List LockOp) (k : ℕ) → lock_run ops (unlocked k) ≡ unlocked k
unfolding lock_run
lock_run-unlocked [] k = refl
lock_run-unlocked (lock_round ∷ ops) k = lock_run-unlocked ops k
lock_run-unlocked (unlock ∷ ops) k = lock_run-unlocked ops k

lock_run-locked :
    (rounds k : ℕ) → lock_run (replicate rounds lock_round) (locked k) ≡ locked (k + rounds)
unfolding lock_run
lock_run-locked zero k = ap locked (omega arith)
lock_run-locked (suc rounds) k = lock_run-locked rounds (k + 1) ∙ ap locked (omega arith)

-- From an unlocked channel, as it is created, no sequence of calls ever makes `shmn_lock_channel`
-- return; and while the channel is locked every call of it returns at its first round, so that it
-- excludes nobody.
pub shmn_lock_channel_lem :
    ((ops : List LockOp) → lock_run ops (unlocked 0) ≡ unlocked 0)
    × ((rounds : ℕ) → lock_run (replicate rounds lock_round) (locked 0) ≡ locked rounds)
shmn_lock_channel_lem =
    (λ ops. lock_run-unlocked ops 0, λ rounds. lock_run-locked rounds 0 ∙ ap locked (omega arith))

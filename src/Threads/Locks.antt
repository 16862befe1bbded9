-- ===== src/Threads/Locks.antt =====
-- The locks of sys/thread.c. `release` gives the address of the condition in a lock.
use model_lib.Base.{
  ℕ, ◌+◌, ◌-◌, ◌%◌, ◌^◌, Bool, false, not, ◌&&◌, Option, none, some, List, [], ◌∷◌, ◌==◌,
  if◌then◌else◌,
}
use model_lib.Threads.{Thread, Lock, Sys, modify, condition_wait, condition_broadcast}

-- Equality of the owner and a thread.
abbrev pub is_owner : ℕ → Option ℕ → Bool
is_owner t none = false
is_owner t (some u) = u == t

abbrev pub set_lock : Sys → ℕ → Lock → Sys
set_lock s l k = record s { locks = λ m. if m == l then k else s.locks m }

-- What a call that may have to wait does: it returns, or waits and starts over.
pub data Attempt : Type 0 where
  returns waits : Sys → Attempt
  panics : Attempt

abbrev pub waited : Option Sys → Attempt
waited none = panics
waited (some s) = waits s

module _ (release : ℕ → ℕ) where
  -- `lock_acquire`, one round.
  unfoldable pub lock_acquire : Sys → ℕ → Attempt
  unfolding modify condition_wait
  lock_acquire s l =
      let k = s.locks l in
      if is_owner s.running k.owner
      then returns (set_lock s l (record k { cnt = (k.cnt + 1) % 2 ^ 64 }))
      else elim k.owner [
        | some u ↦ waited (condition_wait s (release l))
        | none ↦ returns (
            set_lock (modify s s.running (λ th. record th { lock_list = l ∷ th.lock_list })) l
              (record { owner = some s.running; cnt = 1 }))
      ]

  -- The lock taken out of a list; `none` if it is not there.
  unfoldable pub remove_lock : ℕ → List ℕ → Option (List ℕ)
  remove_lock l [] = none
  remove_lock l (m ∷ ms) =
      let rest = remove_lock l ms in
      if m == l then some ms else elim rest [ none ↦ none | some r ↦ some (m ∷ r) ]

  unfoldable pub unlock : Sys → ℕ → Option (List ℕ) → Option Sys
  unfolding modify
  unlock s l none = none
  unlock s l (some ms) = some (
      set_lock (modify s s.running (λ th. record th { lock_list = ms })) l
        (record (s.locks l) { owner = none }))

  unfoldable pub held_by : Option Thread → List ℕ
  held_by none = []
  held_by (some th) = th.lock_list

  unfoldable pub lock_release_completely : Sys → ℕ → Option Sys
  unfolding condition_broadcast remove_lock unlock held_by
  lock_release_completely s l =
      let s1 = condition_broadcast s (release l) in
      unlock s1 l (remove_lock l (held_by (s1.thrtab s1.running)))

  -- `lock_release`, with its assertions.
  unfoldable pub lock_release : Sys → ℕ → Option Sys
  unfolding lock_release_completely
  lock_release s l =
      let k = s.locks l in
      let s1 = set_lock s l (record k { cnt = k.cnt - 1 }) in
      if is_owner s.running k.owner && not (k.cnt == 0)
      then (if k.cnt - 1 == 0 then lock_release_completely s1 l else some s1)
      else none

  -- The loop of `release_all_thread_locks`, over the locks that the thread holds.
  unfoldable pub release_locks : Sys → List ℕ → Sys
  unfolding condition_broadcast
  release_locks s [] = s
  release_locks s (l ∷ ls) =
      release_locks
        (condition_broadcast (set_lock s l (record { owner = none; cnt = 0 })) (release l)) ls

  unfoldable pub release_all_thread_locks : Sys → ℕ → Sys
  unfolding release_locks held_by modify
  release_all_thread_locks s t =
      modify (release_locks s (held_by (s.thrtab t))) t (λ th. record th { lock_list = [] })

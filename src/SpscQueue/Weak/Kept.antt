-- ===== src/SpscQueue/Weak/Kept.antt =====
-- Every step of either thread keeps the invariant.
use hft_deribit.Prelude.{ℕ, arith}
use hft_deribit.SpscQueue.Holds.{IsCapacity}
use hft_deribit.SpscQueue.Weak.{
  State, start, Step, push_load, push_full, push_check, push_write, push_publish, push_notify,
  pop_load, pop_empty, pop_check, pop_read, pop_release, test_load, test_fails, test_holds, block,
  spurious, sure_load, Reach, begin, next,
}
use hft_deribit.SpscQueue.Weak.Invariant.{Inv}
use hft_deribit.SpscQueue.Weak.Pushes
use hft_deribit.SpscQueue.Weak.Pops
use hft_deribit.SpscQueue.Weak.Reads

module _ {A : Type 0} {n : ℕ} (c : IsCapacity n) (default : A) where
  start-Inv : Inv {A = A} n start
  start-Inv = ground (arith, c.pos)

  Step-Inv : {s t : State A} → Step n default s t → Inv n s → Inv n t
  Step-Inv (push_load v e) i = Pushes.load_keeps c i v e
  Step-Inv (push_full v h k m e l full) i = Pushes.full_keeps c i e l
  Step-Inv (push_check v h k m e l free) i = Pushes.check_keeps c i e l free
  Step-Inv (push_write v h e) i = Pushes.write_keeps c i e
  Step-Inv (push_publish v h e) i = Pushes.publish_keeps c i e
  Step-Inv (push_notify e) i = Pushes.notify_keeps c i e
  Step-Inv (pop_load call e outside) i = Pops.pop_load_keeps c i e outside
  Step-Inv (pop_empty call t k m e l same) i = Pops.empty_keeps c i e l same
  Step-Inv (pop_check call t k m e l apart) i = Pops.check_keeps c i e l apart
  Step-Inv (pop_read t e) i = Reads.read_keeps c default i e
  Step-Inv (pop_release t o e) i = Reads.release_keeps c default i e
  Step-Inv (test_load k m e l) i = Pops.test_load_keeps c i e l
  Step-Inv (test_fails h e same) i = Pops.test_fails_keeps c i e
  Step-Inv (test_holds h e apart) i = Pops.test_holds_keeps c i e apart
  Step-Inv (block e) i = Pops.block_keeps c i e
  Step-Inv (spurious e) i = Pops.spurious_keeps c i e
  Step-Inv (sure_load e) i = Pops.sure_load_keeps c i e

  pub Reach-Inv : {s : State A} → Reach n default s → Inv n s
  Reach-Inv begin = start-Inv
  Reach-Inv (next before last) = Step-Inv last (Reach-Inv before)

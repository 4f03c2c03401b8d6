-- ===== src/Queue/Contract.antt =====
-- What the queue manager relies on: a store that is a first-in first-out queue for each
-- destination, and schedulers that choose from what they are given.
use coilmq.Scheduler.Laws.{ChoosesSubscriber, ChoosesQueue}
use coilmq.Store.Interface.{FifoLaws}
use coilmq.Queue.State.{Setup}

pub record IsLawful (σ : Setup) : Type 0 where
  pub fifo : FifoLaws σ.store
  pub subscriber : ChoosesSubscriber σ.subscriber_scheduler
  pub queue : ChoosesQueue σ.queue_scheduler

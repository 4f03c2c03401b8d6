-- ===== src/Tests/Commits.antt =====
-- COMMIT at a concrete input: a transaction with one message for a topic.
use coilmq.Prelude.{◌≡◌, refl, [], ◌∷◌, ok}
use coilmq.Dict.{get, put, remove}
use coilmq.Text.{lower}
use coilmq.Frame.{Frame}
use coilmq.Host.{send_frame}
use coilmq.Queue.State.{stamp}
use coilmq.Topic as TopicManager
use coilmq.Engine.{State}
use coilmq.Protocol.Command.{command_of}
use coilmq.Protocol.Stomp10.{
  process_frame, dispatch, attempt, run_or_keep, run_method, on_send, acknowledge_receipt,
}
use coilmq.Protocol.Commit.{run_each, without, process_frame-run_each}
use coilmq.Tests.{client, session, topic_t, in_t1}

abbrev news_in_t1 : Frame
news_in_t1 = record {
  cmd = "SEND";
  headers = ("destination", topic_t) ∷ ("transaction", "t1") ∷ [];
  body = 7 ∷ [];
}

abbrev pending : State client
pending = record session { transactions = ("t1", news_in_t1 ∷ []) ∷ [] }

abbrev sent : State client
sent = (run_each client (process_frame client 1) (news_in_t1 ∷ []) pending).1

process_frame-run_each_example :
    process_frame client 2 (in_t1 "COMMIT") pending
    ≡ (ok tt, without client "t1" pending.transactions sent)
unfolding get put remove command_of lower run_each process_frame dispatch attempt run_or_keep
    run_method on_send acknowledge_receipt send_frame TopicManager.send TopicManager.send_to
    TopicManager.broadcast TopicManager.disconnect_each stamp TopicManager.attempt
process_frame-run_each_example =
    process_frame-run_each client 1 (in_t1 "COMMIT") "t1" (news_in_t1 ∷ []) pending sent refl refl
      refl refl refl refl (refl, tt) refl

-- ===== src/Tests/Sending.antt =====
-- Runs of the synchronous messages, of a new queue and of the idle rounds.
use aple.Base.{◌≡◌, ◌<◌, refl, true, false, inr, some, [], ◌∷◌, ◌++◌, replicate, arith, ◌==◌}
use aple.Base.Int.{pos, negsuc}
use aple.Msg.{MsgQueue, null_msg}
use aple.Chain.Fifo.{IsChain}
use aple.Throw.{sync_addr}
use aple.Ring.Contents.{IsValid, contents}
use aple.Peek.{is_wanted, got, peek_pass, have_pending}
use aple.Send.{dispatch_message, dispatch_modified, run_proc, copy_of, enqueue_sync, pump}
use aple.Send.Answer.{enqueue_sync_lem, sync_round_trip}
use aple.Send.Pump.{Keeps, all_dispatched, all_answers, pump_lem}
use aple.Send.Lost.{sync_after_throw_lost}
use aple.Throw.{thrown_away}
use aple.Life.{Calls, init_msg_queue, buffer_len}
use aple.Life.Ready.{init_msg_queue_lem}
use aple.Tests.{sync_node, busy_queue, empty_queue, world, take_all, scene, procs}

busy_sync : IsChain sync_addr busy_queue.sync busy_queue.last_sync
busy_sync = record { at_last = refl; distinct = (((λ e. omega (arith, e)), tt), (tt, tt)) }

enqueue_sync_lem_example :
    let k = enqueue_sync (sync_node 23 100) busy_queue in
    (k.sync ≡ busy_queue.sync ++ (sync_node 23 100 ∷ []))
    × IsChain sync_addr k.sync k.last_sync
    × (k.state.sync_msg ≡ true)
    × (0 < k.sem_value)
enqueue_sync_lem_example =
    enqueue_sync_lem (sync_node 23 100) busy_queue (inr busy_sync)
      ((λ e. omega (arith, e)), ((λ e. omega (arith, e)), tt))

wanted_400 : is_wanted take_all 400 ≡ true
unfolding is_wanted
wanted_400 = refl

sync_round_trip_example :
    (peek_pass scene take_all (enqueue_sync (sync_node 21 100) empty_queue) null_msg
      ≡ got
          (record (enqueue_sync (sync_node 21 100) empty_queue) { sync = [] })
          (copy_of (sync_node 21 100)))
    × ((dispatch_message procs world (copy_of (sync_node 21 100))).answer
        ≡ some (21, (run_proc procs world (copy_of (sync_node 21 100))).1))
sync_round_trip_example =
    sync_round_trip procs world (sync_node 21 100) empty_queue scene take_all null_msg refl refl
      wanted_400 refl (λ e. omega (arith, e)) (λ e. omega (arith, e)) refl refl

procs-Keeps : Keeps procs 1
unfolding dispatch_message dispatch_modified run_proc
procs-Keeps w m = (ground arith, ground arith)

pump_lem_example :
    (pump procs 1 4 world []
      ≡ some
          (all_dispatched procs 1 world busy_queue.sync, some (21, pos 5) ∷ some (22, pos 5) ∷ []))
    × (((all_dispatched procs 1 world busy_queue.sync).queues 1).sync ≡ [])
    × (((all_dispatched procs 1 world busy_queue.sync).queues 1).state.sync_msg ≡ false)
unfolding all_answers dispatch_message dispatch_modified run_proc
pump_lem_example = pump_lem procs 1 procs-Keeps busy_queue.sync world [] refl refl

sync_after_throw_lost_example :
    (enqueue_sync (sync_node 23 100) (thrown_away (negsuc 1) (λ h. h == 101) busy_queue)).sync
    ≡ sync_node 21 100 ∷ []
sync_after_throw_lost_example =
    sync_after_throw_lost (negsuc 1) (λ h. h == 101) busy_queue (sync_node 21 100)
      (sync_node 22 101) (sync_node 23 100) refl refl refl refl (λ e. omega (arith, e))

abbrev calls : Calls
calls = record {
  attr_init = true;
  set_type = true;
  lock_init = true;
  attr_destroy = true;
  wait_init = true;
  malloc = λ n. some (replicate n null_msg);
}

-- A length of -1 is replaced by the default of 8.
eight : buffer_len 8 (negsuc 0) ≡ 8
unfolding buffer_len
eight = refl

gives_block : calls.malloc (buffer_len 8 (negsuc 0)) ≡ some (replicate 8 null_msg)
unfolding buffer_len
gives_block = refl

init_msg_queue_lem_example :
    (q : MsgQueue) × (init_msg_queue calls 8 16 1000 (negsuc 0)
      ≡ (some q, record { lock = true; wait = true }))
    × IsValid q.ring
    × (contents q.ring ≡ [])
    × (have_pending false true q ≡ false)
init_msg_queue_lem_example =
    init_msg_queue_lem calls 8 16 1000 (negsuc 0) (replicate 8 null_msg) refl refl refl refl refl
      gives_block (omega (arith, eight)) (omega arith)

-- ===== src/Tests/Throwing.antt =====
-- Runs of the operations that throw messages away.
use aple.Base.{◌+◌, ◌≡◌, refl, List, [], ◌∷◌, map, length, keep_if, arith}
use aple.Base.Int.{negsuc}
use aple.Msg.{QMsg, SyncMsg, qs_empty}
use aple.Ring.Contents.{contents}
use aple.Throw.{is_for, throw_away_messages, sync_addr, emptied}
use aple.Throw.Whole.{Purged, thrown, throw_away_messages-Purged}
use aple.Throw.Sync.{emptied_lem}
use aple.Tests.{sync_node, busy_queue, world}

throw_away_messages-Purged_example :
    let (w', n, woken) = throw_away_messages world (negsuc 1) 1 101 in
    Purged (is_for world 101) busy_queue (w'.queues 1)
    × (n
        ≡ length (keep_if (λ (x : QMsg). is_for world 101 x.body.hwnd) busy_queue.notify)
          + length (keep_if (λ (x : SyncMsg). is_for world 101 x.body.hwnd) busy_queue.sync)
          + length (thrown (is_for world 101) (contents busy_queue.ring)))
    × (woken
        ≡ map sync_addr (keep_if (λ (x : SyncMsg). is_for world 101 x.body.hwnd) busy_queue.sync))
throw_away_messages-Purged_example =
    throw_away_messages-Purged world (negsuc 1) 1 101
      (record { room = omega arith; read_in = omega arith; write_in = omega arith })
      (record { at_last = refl; distinct = (((λ e. omega (arith, e)), tt), (tt, tt)) })

abbrev three : List SyncMsg
three = sync_node 21 100 ∷ sync_node 22 101 ∷ sync_node 23 101 ∷ []

emptied_lem_example :
    let (q', woken) = emptied (negsuc 1) busy_queue in
    (q'.sync ≡ [])
    × (q'.notify ≡ [])
    × (contents q'.ring ≡ [])
    × (q'.state ≡ qs_empty)
    × (woken ≡ map sync_addr busy_queue.sync)
emptied_lem_example = emptied_lem (negsuc 1) busy_queue

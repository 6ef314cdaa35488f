-- ===== src/Send/Pump.antt =====
-- The loop of `SendSyncMessage` over the sender's own synchronous messages.
use aple.Base.{
  ℕ, suc, ◌≡◌, refl, sym, ap, ap₂, ◌∙◌, Bool, true, false, Option, some, List, [], ◌∷◌, ◌++◌,
  length, append_assoc, append-nil, ==_refl,
}
use aple.Msg.{Msg, SyncMsg, MsgQueue}
use aple.World.{World, update_queue}
use aple.Send.{Procs, Done, Answered, dispatch_message, copy_of, pump, handle_one, without_flag}

-- Translating and dispatching a message leave the flag and the list of the synchronous messages of the queue at `q`.
abbrev pub Keeps : Procs → ℕ → Type 0
Keeps p q =
    (w : World) (m : Msg)
    → (((dispatch_message p (p.translate w m) m).world.queues q).sync ≡ (w.queues q).sync)
      × (((dispatch_message p (p.translate w m) m).world.queues q).state.sync_msg
          ≡ (w.queues q).state.sync_msg)

-- What the loop is to do: the message is taken out of the list, translated and dispatched.
abbrev dispatched : Procs → ℕ → World → SyncMsg → List SyncMsg → Done
dispatched p q w x rest =
    dispatch_message p (p.translate (update_queue w q (λ k. record k { sync = rest })) (copy_of x))
      (copy_of x)

-- The world behind the dispatches of all messages of a list, one after the other, and without the flag.
unfoldable pub all_dispatched : Procs → ℕ → World → List SyncMsg → World
all_dispatched p q w [] = update_queue w q without_flag
all_dispatched p q w (x ∷ rest) = all_dispatched p q (dispatched p q w x rest).world rest

-- What these dispatches answer, in their order.
unfoldable pub all_answers : Procs → ℕ → World → List SyncMsg → List Answered
all_answers p q w [] = []
all_answers p q w (x ∷ rest) =
    (dispatched p q w x rest).answer ∷ all_answers p q (dispatched p q w x rest).world rest

update_self :
    (w : World) (q : ℕ) (f : MsgQueue → MsgQueue) → (update_queue w q f).queues q ≡ f (w.queues q)
update_self w q f = rw (==_refl q) refl

pump_idle :
    (p : Procs) (q fuel : ℕ) (w : World) (log : List Answered)
    → (w.queues q).state.sync_msg ≡ false
    → pump p q (suc fuel) w log ≡ some (w, log)
unfolding pump
pump_idle p q fuel w log f = rw (f, pump) refl

-- A round, where the flag and the list are given.
abbrev round :
    Procs → ℕ → ℕ → World → List Answered → Bool → List SyncMsg → Option (World × List Answered)
round p q fuel w log false xs = some (w, log)
round p q fuel w log true [] = pump p q fuel (update_queue w q without_flag) log
round p q fuel w log true (x ∷ rest) =
    pump p q fuel (handle_one p q w x rest).world (log ++ ((handle_one p q w x rest).answer ∷ []))

pump-round :
    (p : Procs) (q fuel : ℕ) (w : World) (log : List Answered) (b : Bool) (xs : List SyncMsg)
    → (w.queues q).state.sync_msg ≡ b
    → (w.queues q).sync ≡ xs
    → pump p q (suc fuel) w log ≡ round p q fuel w log b xs
unfolding pump
pump-round p q fuel w log b xs f e = pump_split ∙ ap₂ (round p q fuel w log) f e
  where
    pump_split :
        pump p q (suc fuel) w log
        ≡ round p q fuel w log (w.queues q).state.sync_msg (w.queues q).sync
    pump_split =
        elim (w.queues q).state.sync_msg
          as (λ b.
            elim b as (λ c. Option (World × List Answered)) [
              | false ↦ some (w, log)
              | true ↦ elim (w.queues q).sync as (λ l. Option (World × List Answered)) [
                | [] ↦ pump p q fuel (update_queue w q without_flag) log
                | x ∷ rest ↦
                    pump p q fuel (handle_one p q w x rest).world
                      (log ++ ((handle_one p q w x rest).answer ∷ []))
              ]
            ]
            ≡ round p q fuel w log b (w.queues q).sync) [
              | false ↦ refl
              | true ↦
                  elim (w.queues q).sync
                    as (λ l.
                      elim l as (λ c. Option (World × List Answered)) [
                        | [] ↦ pump p q fuel (update_queue w q without_flag) log
                        | x ∷ rest ↦
                            pump p q fuel (handle_one p q w x rest).world
                              (log ++ ((handle_one p q w x rest).answer ∷ []))
                      ]
                      ≡ round p q fuel w log true l) [ [] ↦ refl | x ∷ rest ↦ refl ]
            ]

-- Where translating and dispatching a message leave the list and the flag alone, and the flag is set, the loop
-- ends, with as much fuel as there are messages and two rounds more: the world that it leaves is the one
-- behind the dispatch of every message of the list, each taken out and translated before, in their order; the
-- senders answered are those that these dispatches answer, in the same order; and no message and no flag is
-- left.
pub pump_lem :
    (p : Procs) (q : ℕ)
    → Keeps p q
    → (xs : List SyncMsg) (w : World) (log : List Answered) → (w.queues q).sync ≡ xs
    → (w.queues q).state.sync_msg ≡ true
    → (pump p q (suc (suc (length xs))) w log
        ≡ some (all_dispatched p q w xs, log ++ all_answers p q w xs))
      × (((all_dispatched p q w xs).queues q).sync ≡ [])
      × (((all_dispatched p q w xs).queues q).state.sync_msg ≡ false)
unfolding pump all_dispatched all_answers
pump_lem p q keeps [] w log e f = (
  pump-round p q 1 w log true [] f e
      ∙ pump_idle p q 0 (update_queue w q without_flag) log
          (ap (λ (k : MsgQueue). k.state.sync_msg) (update_self w q without_flag))
      ∙ ap (λ l. some (update_queue w q without_flag, l)) (sym (append-nil log)),
  ap (λ (k : MsgQueue). k.sync) (update_self w q without_flag) ∙ e,
  ap (λ (k : MsgQueue). k.state.sync_msg) (update_self w q without_flag),
)
pump_lem p q keeps (x ∷ xs) w log e f =
    let without : MsgQueue → MsgQueue = λ k. record k { sync = xs } in
    let d : Done = dispatched p q w x xs in
    let k = keeps (update_queue w q without) (copy_of x) in
    let (r, s, t) =
      pump_lem p q keeps xs d.world (log ++ (d.answer ∷ []))
        (k.0 ∙ ap (λ (k : MsgQueue). k.sync) (update_self w q without))
        (k.1 ∙ ap (λ (k : MsgQueue). k.state.sync_msg) (update_self w q without) ∙ f) in
    (
      pump-round p q (suc (suc (length xs))) w log true (x ∷ xs) f e
          ∙ r
          ∙ ap (λ l. some (all_dispatched p q d.world xs, l))
              (append_assoc log (d.answer ∷ []) (all_answers p q d.world xs)),
      s,
      t,
    )

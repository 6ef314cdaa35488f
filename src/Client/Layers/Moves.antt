-- ===== src/Client/Layers/Moves.antt =====
-- What the calls on layers do.
use aple.Base.{
  ℕ, ◌+◌, ◌%◌, ◌^◌, ◌≤◌, ◌<◌, ◌≡◌, refl, Bool, true, false, Option, none, some, List, ◌==◌,
  if◌then◌else◌, arith,
}
use aple.Client.Layers.{
  Answers, Limits, Globals, Moved, layer_ref, detached, client_on_layer_changed, move_answer,
  ask_move, move_to_layer, nr_nodes,
}

-- A positive number of z-order nodes is rounded up to the next multiple of 8.
pub nr_nodes_lem :
    (def n : ℕ)
    → 1 ≤ n
    → n + 7 < 2 ^ 31
    → (nr_nodes def n % 8 ≡ 0) × (n ≤ nr_nodes def n) × (nr_nodes def n < n + 8)
unfolding nr_nodes
nr_nodes_lem def n h g = (ground (arith, h, g), ground (arith, h, g), ground (arith, h, g))

-- Where `shmdt` of NULL fails, `MoveToLayer` never succeeds, and shared memory that was attached stays so.
pub move_to_layer_fails :
    (a : Answers) (k : Limits) (g : Globals) (handle_name : Bool) (handle : ℕ)
    (name : Option (List ℕ))
    → ((attached : List ℕ) → a.shmdt none attached ≡ none)
    → ((move_to_layer a k g handle_name handle name).1 ≡ false)
      × ((move_to_layer a k g handle_name handle name).0.attached ≡ g.attached)
unfolding move_to_layer client_on_layer_changed
move_to_layer_fails a k g handle_name handle name fails =
    asked (layer_ref k g handle_name handle name)
  where
    cleared : Globals
    cleared = record g { layer = 0; zorder_info = none }

    detaching :
        (layer zo : ℕ) (l : Option (List ℕ))
        → l ≡ none
        → ((detached a cleared layer zo l).1 ≡ false)
          × ((detached a cleared layer zo l).0.attached ≡ g.attached)
    detaching layer zo none e = (refl, refl)
    detaching layer zo (some l) e = absurd cc

    either_way :
        (layer zo : ℕ) (b : Bool)
        → ((if b then (g, false) else detached a cleared layer zo (a.shmdt none g.attached)).1
            ≡ false)
          × ((if b
                then (g, false)
                else detached a cleared layer zo (a.shmdt none g.attached)).0.attached
              ≡ g.attached)
    either_way layer zo true = (refl, refl)
    either_way layer zo false = detaching layer zo (a.shmdt none g.attached) (fails g.attached)

    changed :
        (layer zo : ℕ)
        → ((client_on_layer_changed a g layer zo).1 ≡ false)
          × ((client_on_layer_changed a g layer zo).0.attached ≡ g.attached)
    changed layer zo = either_way layer zo (layer == 0)

    answered :
        (m : Option Moved)
        → ((move_answer a g m).1 ≡ false) × ((move_answer a g m).0.attached ≡ g.attached)
    answered none = (refl, refl)
    answered (some m) = changed m.layer m.zo_shmid

    asked :
        (r : Option _) → ((ask_move a g r).1 ≡ false) × ((ask_move a g r).0.attached ≡ g.attached)
    asked none = (refl, refl)
    asked (some r) = answered (a.move r)

-- ===== src/Tests/Resources.antt =====
-- A client with a semaphore, a loaded cursor and a created one.
use aple.Base.{arith, ◌≡◌, refl, none, some, [], ◌∷◌, ◌==◌, if◌then◌else◌}
use aple.Server.Resources.{Store, del_from, release_from}
use aple.Server.Resources.Links.{Res, block_of, first_of, Keeps}
use aple.Server.Resources.Release.{all_calls, AllFreed, release_global_res_lem}
use aple.Server.Resources.Deletion.{del_global_res_lem}
use aple.Server.Handlers.{Procs, destroy_cursor}
use aple.Server.Handlers.Lives.{cursor_res, sem_res, destroy_cursor_lem}

abbrev procs : Procs
procs = record {
  destroy_cursor = 1;
  alloc_sem = 2;
  release_sem = 3;
  req_hw_surface = 4;
  release_hw_surface = 5;
}

abbrev sem : Res
sem = sem_res procs 10 7

abbrev loaded : Res
loaded = cursor_res 20 80 (some 1)

abbrev created : Res
created = cursor_res 30 90 none

abbrev store : Store
store = record {
  blocks = λ k.
      if k == 10
      then some (block_of sem (some 20) none)
      else if k == 20
      then some (block_of loaded (some 30) (some 10))
      else if k == 30
      then some (block_of created none (some 20))
      else none;
  global_res = some 10;
  released = [];
}

store-Keeps : Keeps store (sem ∷ loaded ∷ created ∷ [])
store-Keeps = record {
  first = refl;
  links = (refl, (refl, (refl, tt)));
  distinct = (
    ((λ e. absurd (omega arith)), ((λ e. absurd (omega arith)), tt)),
    (((λ e. absurd (omega arith)), tt), (tt, tt)),
  );
}

del_global_res_lem_example :
    (t : Store) × ((del_from 2 store 80 80 (some 10) ≡ some t)
      × Keeps t (sem ∷ created ∷ [])
      × (t.blocks 20 ≡ none)
      × (t.released ≡ (1, 80) ∷ []))
del_global_res_lem_example =
    del_global_res_lem 2 store (sem ∷ []) loaded (created ∷ []) (omega arith) store-Keeps (refl, tt)

release_global_res_lem_example :
    (t : Store) × ((release_from 3 store (some 10) ≡ some t)
      × (t.released ≡ all_calls (sem ∷ loaded ∷ created ∷ []))
      × AllFreed t.blocks (sem ∷ loaded ∷ created ∷ [])
      × (t.global_res ≡ first_of (sem ∷ loaded ∷ created ∷ [])))
release_global_res_lem_example =
    release_global_res_lem 3 store (sem ∷ loaded ∷ created ∷ []) (omega arith) store-Keeps

destroy_cursor_lem_example :
    (t : Store) × ((destroy_cursor procs 2 store 80 ≡ some t)
      × Keeps t (sem ∷ created ∷ [])
      × (t.released ≡ (1, 80) ∷ (1, 80) ∷ []))
destroy_cursor_lem_example =
    destroy_cursor_lem procs 2 store (sem ∷ []) (created ∷ []) 20 80 (some 1) (omega arith)
      store-Keeps (refl, tt)

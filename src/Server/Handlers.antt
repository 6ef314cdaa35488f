-- ===== src/Server/Handlers.antt =====
-- Handlers of source/aple/lecture-4/minigui-server.c for cursors, semaphores, surfaces and layers: what they do
-- to the resources of the client and to the layers, and the value that they send back.
pub mod Lives
use aple.Base.{
  ℕ, zero, suc, ◌+◌, ◌-◌, Bool, true, false, Option, none, some, List, [], ◌∷◌, ◌++◌, not, ◌==◌,
  leb, ltb, if◌then◌else◌,
}
use aple.Server.Resources.{Store, add_global_res, del_from}

-- The functions that stand as keys and release functions: `DestroyCursor`, `alloc_sem_for_shared_surf`,
-- `my_release_sem_for_shared_surf`, `req_hw_surface` and `release_hw_surface`.
pub record Procs : Type 0 where
  pub destroy_cursor : ℕ
  pub alloc_sem : ℕ
  pub release_sem : ℕ
  pub req_hw_surface : ℕ
  pub release_hw_surface : ℕ

-- A cursor that was made is a resource of the client; `addr` is what `malloc` gives.
abbrev pub adds_cursor : Store → Option ℕ → ℕ → Option ℕ → Store
adds_cursor s addr hcsr release_proc =
    if hcsr == 0 then s else add_global_res s addr hcsr hcsr release_proc

-- `load_cursor`, with the cursor that `LoadCursorFromFile` gives.
unfoldable pub load_cursor : Procs → Store → Option ℕ → ℕ → Store × ℕ
load_cursor p s addr hcsr = (adds_cursor s addr hcsr (some p.destroy_cursor), hcsr)

-- `load_cursor_png_file`, for a request of `len` bytes; the hot spot takes 8.
unfoldable pub load_cursor_png_file : Procs → Store → Option ℕ → ℕ → ℕ → Store × ℕ
load_cursor_png_file p s addr len hcsr =
    if leb len 9 then (s, 0) else (adds_cursor s addr hcsr (some p.destroy_cursor), hcsr)

-- `load_cursor_png_mem`; `none` is a variable that was not set.
unfoldable pub load_cursor_png_mem : Procs → Store → Option ℕ → ℕ → ℕ → Store × Option ℕ
load_cursor_png_mem p s addr len hcsr =
    if ltb len 75 then (s, none) else (adds_cursor s addr hcsr (some p.destroy_cursor), some hcsr)

-- `create_cursor` and `copy_cursor`, with the cursor that `CreateCursor` or `CopyCursor` gives.
unfoldable pub create_cursor : Store → Option ℕ → ℕ → Store × ℕ
create_cursor s addr hcsr = (adds_cursor s addr hcsr none, hcsr)

-- `DestroyCursor (hcsr)`, as a call like those of the release functions.
abbrev pub destroys : Procs → Store → ℕ → Store
destroys p s hcsr = record s { released = s.released ++ ((p.destroy_cursor, hcsr) ∷ []) }

-- `destroy_cursor`
unfoldable pub destroy_cursor : Procs → ℕ → Store → ℕ → Option Store
destroy_cursor p fuel s hcsr = del_from fuel (destroys p s hcsr) hcsr hcsr s.global_res

-- `alloc_sem_for_shared_surf`, with the number of the semaphore if there is one.
unfoldable pub alloc_sem_for_shared_surf : Procs → Store → Option ℕ → Option ℕ → Store × Option ℕ
alloc_sem_for_shared_surf p s addr none = (s, none)
alloc_sem_for_shared_surf p s addr (some n) =
    (add_global_res s addr p.alloc_sem n (some p.release_sem), some n)

-- `free_sem_for_shared_surf`
unfoldable pub free_sem_for_shared_surf : Procs → ℕ → Store → ℕ → Option Store
free_sem_for_shared_surf p fuel s sem_num = del_from fuel s p.alloc_sem sem_num s.global_res

-- `req_hw_surface`, for a request with a bucket or without one; `allocated` is the block of the request that
-- is kept, and `addr` that of the resource.
unfoldable pub req_hw_surface : Procs → ℕ → Store → Option ℕ → Option ℕ → Option ℕ → Option Store
req_hw_surface p fuel s none none addr = some s
req_hw_surface p fuel s none (some allocated) addr =
    some (add_global_res s addr p.req_hw_surface allocated (some p.release_hw_surface))
req_hw_surface p fuel s (some bucket) allocated addr =
    del_from fuel s p.req_hw_surface bucket s.global_res

-- How a request names a layer.
pub data LayerRef : Type 0 where
  by_handle : ℕ → LayerRef
  by_name : List ℕ → LayerRef

-- The layers of the server, which other files keep; a handle of 0 is NULL.
pub record Layers : Type 0 where
  pub find_layer_by_name : List ℕ → ℕ
  pub is_valid_layer : ℕ → Bool
  pub layer_of : ℕ → ℕ
  pub zorder_shmid : ℕ → ℕ
  pub move_client : ℕ → ℕ → Bool
  pub delete_layer : ℕ → Bool
  pub set_topmost_layer : ℕ → Bool
  pub topmost_name : List ℕ

-- The layer that a request names; the empty name is the client's own layer.
abbrev pub layer_named : Layers → ℕ → LayerRef → ℕ
layer_named l cli (by_handle h) = h
layer_named l cli (by_name []) = l.layer_of cli
layer_named l cli (by_name (c ∷ cs)) = l.find_layer_by_name (c ∷ cs)

-- `move_to_layer`: the layer and its shared z-order in the reply, or 0 and 0.
unfoldable pub move_to_layer : Layers → ℕ → LayerRef → ℕ × ℕ
move_to_layer l cli r =
    let dst : ℕ = layer_named l cli r in
    if dst == 0
    then (0, 0)
    else if not (l.is_valid_layer dst)
    then (0, 0)
    else if l.move_client cli dst
    then (dst, l.zorder_shmid dst)
    else (0, 0)

-- `ID_LAYEROP_DELETE`, `ID_LAYEROP_SETTOP` and any other operation.
pub data LayerOp : Type 0 where
  op_delete op_settop op_other : LayerOp

abbrev pub run_op : Layers → ℕ → LayerOp → Bool
run_op l layer op_delete = l.delete_layer layer
run_op l layer op_settop = l.set_topmost_layer layer
run_op l layer op_other = false

-- `layer_op`
unfoldable pub layer_op : Layers → ℕ → LayerRef → LayerOp → Bool
layer_op l cli r op =
    let layer : ℕ = layer_named l cli r in
    if layer == 0 then false else if not (l.is_valid_layer layer) then false else run_op l layer op

-- The static counters of `join_layer`.
pub record Counters : Type 0 where
  pub nr_layers : ℕ
  pub nr_clients : ℕ

abbrev pub layer_name_of : Layers → List ℕ → List ℕ
layer_name_of l [] = l.topmost_name
layer_name_of l (c ∷ cs) = c ∷ cs

abbrev pub counted_layer : Counters → List ℕ → Counters
counted_layer k [] = record k { nr_layers = suc k.nr_layers }
counted_layer k (c ∷ cs) = k

abbrev pub client_name_of : (ℕ → List ℕ) → Counters → List ℕ → Counters × List ℕ
client_name_of numbered k [] = (record k { nr_clients = suc k.nr_clients }, numbered k.nr_clients)
client_name_of numbered k (c ∷ cs) = (k, c ∷ cs)

-- `join_layer` up to `__mg_client_join_layer`: the counters and the two names that it is called with, where
-- `numbered` prints `Client-%d`.
unfoldable pub join_layer :
    Layers → (ℕ → List ℕ) → Counters → List ℕ → List ℕ → Counters × List ℕ × List ℕ
join_layer l numbered k layer_name client_name =
    let (m, name) = client_name_of numbered (counted_layer k layer_name) client_name in
    (m, layer_name_of l layer_name, name)

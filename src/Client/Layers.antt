-- ===== src/Client/Layers.antt =====
-- The calls of a client on layers in source/aple/lecture-4/minigui-client.c: `JoinLayer`, `GetLayerInfo`,
-- `SetTopmostLayer`, `DeleteLayer`, `MoveToLayer` and `__mg_client_on_layer_changed`.
pub mod Moves
use aple.Base.{
  ℕ, zero, suc, ◌+◌, ◌-◌, ◌%◌, ◌^◌, Bool, true, false, Option, none, some, List, [], ◌∷◌, ◌||◌,
  ◌==◌, leb, if◌then◌else◌,
}
use aple.Server.Handlers.{LayerRef, by_handle, by_name, LayerOp, op_delete, op_settop}

-- `JOINLAYERINFO`
pub record JoinInfo : Type 0 where
  pub layer_name : List ℕ
  pub client_name : List ℕ
  pub max_nr_topmosts : ℕ
  pub max_nr_normals : ℕ

-- `JOINEDCLIENTINFO`; a handle of 0 is `INV_LAYER_HANDLE`.
pub record Joined : Type 0 where
  pub cli_id : ℕ
  pub layer : ℕ
  pub zi_shmid : ℕ
  pub def_zi_shmid : ℕ

-- `LAYERINFO`
pub record LayerInfo : Type 0 where
  pub handle : ℕ
  pub nr_clients : ℕ
  pub is_topmost : Bool
  pub cli_active : ℕ

-- `MOVEDCLIENTINFO`
pub record Moved : Type 0 where
  pub layer : ℕ
  pub zo_shmid : ℕ

-- The globals of a client; `attached` are the addresses at which shared memory is attached.
pub record Globals : Type 0 where
  pub is_server : Bool
  pub client_id : ℕ
  pub layer : ℕ
  pub zorder_info : Option ℕ
  pub def_zorder_info : Option ℕ
  pub attached : List ℕ
  pub started : Bool

-- The answers of the server to requests, where `ClientRequest` succeeds, and the calls on shared memory:
-- `shmat` with the address or an error, `shmdt` with what is attached then, or an error.
pub record Answers : Type 0 where
  pub join : JoinInfo → Option Joined
  pub info : List ℕ → Option LayerInfo
  pub op : LayerOp → LayerRef → Option Bool
  pub move : LayerRef → Option Moved
  pub shmat : ℕ → Option ℕ
  pub shmdt : Option ℕ → List ℕ → Option (List ℕ)

-- `LEN_LAYER_NAME`, `LEN_CLIENT_NAME`, `DEF_NR_TOPMOSTS` and `DEF_NR_NORMALS`.
pub record Limits : Type 0 where
  pub len_layer_name : ℕ
  pub len_client_name : ℕ
  pub def_nr_topmosts : ℕ
  pub def_nr_normals : ℕ
  pub name_self_layer : List ℕ

-- `strncpy`, with the end that is written behind it.
unfoldable pub strncpy : ℕ → List ℕ → List ℕ
strncpy zero cs = []
strncpy (suc n) [] = []
strncpy (suc n) (c ∷ cs) = c ∷ strncpy n cs

-- A name in a buffer of a limited length, where NULL is the empty name.
abbrev pub copied : ℕ → Option (List ℕ) → List ℕ
copied n none = []
copied n (some name) = strncpy n name

-- `(n + 7) & ~0x07` for an `int`
abbrev pub round8 : ℕ → ℕ
round8 n = (n + 7) % 2 ^ 32 - (n + 7) % 2 ^ 32 % 8

-- A number of z-order nodes: the default where it is 0 or negative.
unfoldable pub nr_nodes : ℕ → ℕ → ℕ
nr_nodes def n = round8 (if leb (2 ^ 31) n || leb n 0 then def else n)

abbrev pub join_info : Limits → Option (List ℕ) → Option (List ℕ) → ℕ → ℕ → JoinInfo
join_info k layer_name client_name topmosts normals = record {
  layer_name = copied k.len_layer_name layer_name;
  client_name = copied k.len_client_name client_name;
  max_nr_topmosts = nr_nodes k.def_nr_topmosts topmosts;
  max_nr_normals = nr_nodes k.def_nr_normals normals;
}

abbrev pub info_answer : Option LayerInfo → ℕ × Option LayerInfo
info_answer none = (0, none)
info_answer (some i) = if i.handle == 0 then (0, none) else (i.handle, some i)

abbrev pub info_of : Answers → Option (List ℕ) → ℕ × Option LayerInfo
info_of a none = (0, none)
info_of a (some name) = info_answer (a.info name)

-- `GetLayerInfo`: the handle, and what it writes through its pointers.
unfoldable pub get_layer_info : Answers → Globals → Option (List ℕ) → ℕ × Option LayerInfo
get_layer_info a g layer_name = if g.is_server then (0, none) else info_of a layer_name

abbrev pub attach : Globals → ℕ → Globals
attach g zi = record g { attached = zi ∷ g.attached }

-- The end of `JoinLayer`.
abbrev pub start_desktop : Globals → Globals
start_desktop g = record g { started = true }

abbrev pub with_default : Globals → ℕ → Option ℕ → Globals × ℕ
with_default g layer none = (g, 0)
with_default g layer (some zi) =
    (start_desktop (record (attach g zi) { def_zorder_info = some zi }), layer)

abbrev pub with_zorder : Answers → Globals → Joined → Option ℕ → Globals × ℕ
with_zorder a g j none = (g, 0)
with_zorder a g j (some zi) =
    let h : Globals = record (attach g zi) { zorder_info = some zi } in
    if j.zi_shmid == j.def_zi_shmid
    then (start_desktop (record h { def_zorder_info = some zi }), j.layer)
    else with_default h j.layer (a.shmat j.def_zi_shmid)

abbrev pub join_answer : Answers → Globals → Option Joined → Globals × ℕ
join_answer a g none = (g, 0)
join_answer a g (some j) =
    let h : Globals = record g { client_id = j.cli_id } in
    if j.layer == 0
    then (start_desktop h, 0)
    else with_zorder a (record h { layer = j.layer }) j (a.shmat j.zi_shmid)

-- `JoinLayer`
unfoldable pub join_layer :
    Answers → Limits → Globals → Option (List ℕ) → Option (List ℕ) → ℕ → ℕ → Globals × ℕ
join_layer a k g layer_name client_name topmosts normals =
    if g.is_server
    then (g, 0)
    else if g.client_id == 0
    then join_answer a g (a.join (join_info k layer_name client_name topmosts normals))
    else (g, (get_layer_info a g (some k.name_self_layer)).0)

-- The layer that the arguments name: by its handle, or by its name, and `none` where a call returns FALSE at
-- once.
unfoldable pub layer_ref : Limits → Globals → Bool → ℕ → Option (List ℕ) → Option LayerRef
layer_ref k g handle_name handle name = if g.is_server then none else named handle_name name
  where
    named : Bool → Option (List ℕ) → Option LayerRef
    named true n = if handle == 0 then none else some (by_handle handle)
    named false none = none
    named false (some n) = some (by_name (strncpy k.len_layer_name n))

abbrev pub op_answer : Option Bool → Bool
op_answer none = false
op_answer (some r) = r

abbrev pub ask_op : Answers → LayerOp → Option LayerRef → Bool
ask_op a op none = false
ask_op a op (some r) = op_answer (a.op op r)

-- `SetTopmostLayer` and `DeleteLayer`
unfoldable pub set_topmost_layer : Answers → Limits → Globals → Bool → ℕ → Option (List ℕ) → Bool
set_topmost_layer a k g handle_name handle name =
    ask_op a op_settop (layer_ref k g handle_name handle name)

unfoldable pub delete_layer : Answers → Limits → Globals → Bool → ℕ → Option (List ℕ) → Bool
delete_layer a k g handle_name handle name =
    ask_op a op_delete (layer_ref k g handle_name handle name)

abbrev pub attach_new : Globals → ℕ → Option ℕ → Globals × Bool
attach_new g layer none = (g, false)
attach_new g layer (some zi) = (record (attach g zi) { layer = layer; zorder_info = some zi }, true)

abbrev pub detached : Answers → Globals → ℕ → ℕ → Option (List ℕ) → Globals × Bool
detached a g layer zi_shmid none = (g, false)
detached a g layer zi_shmid (some left) =
    attach_new (record g { attached = left }) layer (a.shmat zi_shmid)

-- `__mg_client_on_layer_changed`: the pointer is cleared before `shmdt` gets it.
unfoldable pub client_on_layer_changed : Answers → Globals → ℕ → ℕ → Globals × Bool
client_on_layer_changed a g layer_handle zi_shmid =
    let h : Globals = record g { layer = 0; zorder_info = none } in
    if layer_handle == 0
    then (g, false)
    else detached a h layer_handle zi_shmid (a.shmdt h.zorder_info h.attached)

abbrev pub move_answer : Answers → Globals → Option Moved → Globals × Bool
move_answer a g none = (g, false)
move_answer a g (some m) = client_on_layer_changed a g m.layer m.zo_shmid

abbrev pub ask_move : Answers → Globals → Option LayerRef → Globals × Bool
ask_move a g none = (g, false)
ask_move a g (some r) = move_answer a g (a.move r)

-- `MoveToLayer`
unfoldable pub move_to_layer :
    Answers → Limits → Globals → Bool → ℕ → Option (List ℕ) → Globals × Bool
move_to_layer a k g handle_name handle name = ask_move a g (layer_ref k g handle_name handle name)

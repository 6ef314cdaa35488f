-- ===== src/Thread/Keys.antt =====
-- The keys of thread-specific data, of source/aple/lecture-5/minigui-vxworks_pthread.c.
pub mod Words
pub mod Values
use aple.Base.{
  ℕ, zero, suc, ◌+◌, ◌*◌, ◌/◌, ◌%◌, Bool, true, false, ◌||◌, Option, none, some, List, [], ◌∷◌,
  ◌==◌, if◌then◌else◌, get_or, set, map,
}
use aple.Thread.{Consts, Err, success, einval, eagain, Info, Threads, update_info}
use aple.Thread.Exit.{key_free, value_of, store_value}

-- `_lsbit_index`, for a word: the place of its lowest bit that is set.
unfoldable pub lsbit_index : List Bool → Option ℕ
lsbit_index [] = none
lsbit_index (true ∷ bs) = some 0
lsbit_index (false ∷ bs) = elim (lsbit_index bs) [ none ↦ none | some i ↦ some (suc i) ]

-- The search for a key: the words with the bit cleared, and the key, for a first word of index `i`.
unfoldable pub take_key : List (List Bool) → ℕ → Option (List (List Bool) × ℕ)
unfolding lsbit_index
take_key [] i = none
take_key (w ∷ ws) i = elim (lsbit_index w) [
  | some k ↦ some (set w k false ∷ ws, k + i * 32)
  | none ↦ elim (take_key ws (i + 1)) [ none ↦ none | some r ↦ some (w ∷ r.0, r.1) ]
]

abbrev pub cleared_at : ℕ → ℕ → (ℕ → Info) → ℕ → Info
cleared_at key a infos k =
    if k == a then record (infos a) { values = set (infos a).values key 0 } else infos k

-- `thread->thread_data[k] = NULL` for each thread of the table, in its order.
unfoldable pub clear_key : List (Option ℕ) → ℕ → (ℕ → Info) → ℕ → Info
clear_key [] key infos = infos
clear_key (none ∷ ss) key infos = clear_key ss key infos
clear_key (some a ∷ ss) key infos = clear_key ss key (cleared_at key a infos)

-- The statics with a key taken, in the words that remain.
unfoldable pub with_key : Threads → ℕ → List (List Bool) → ℕ → Threads
unfolding clear_key
with_key v destructor words key = record v {
  keys = words;
  destructors = set v.destructors key destructor;
  infos = clear_key v.table key v.infos;
}

abbrev pub key_taken : Threads → ℕ → Option (List (List Bool) × ℕ) → Threads × Err × Option ℕ
key_taken v destructor none = (v, eagain, none)
key_taken v destructor (some r) = (with_key v destructor r.0 r.1, success, some r.1)

-- `pthread_key_create`, with the key that it stores.
unfoldable pub key_create : Threads → ℕ → Threads × Err × Option ℕ
unfolding take_key
key_create v destructor = key_taken v destructor (take_key v.keys 0)

-- `pthread_key_delete`; a key behind the words, which C writes out of bounds, changes nothing.
unfoldable pub key_delete : Threads → ℕ → Threads × Err
key_delete v key = (
  record v { keys = set v.keys (key / 32) (set (get_or v.keys (key / 32) []) (key % 32) true) },
  success,
)

-- `pthread_setspecific` in the thread at `self`.
unfoldable pub setspecific : Threads → ℕ → ℕ → ℕ → Threads × Err
unfolding key_free
setspecific v self key x =
    if key_free v key then (v, einval) else (store_value v self key x, success)

-- `pthread_getspecific` in the thread at `self`.
unfoldable pub getspecific : Threads → ℕ → ℕ → ℕ
unfolding key_free
getspecific v self key = if key_free v key then 0 else value_of v self key

-- ===== src/Server/Resources.antt =====
-- The global resources of a client in source/aple/lecture-4/minigui-server.c: a list with links in both
-- directions, in the memory of the server.
pub mod Links
pub mod Release
pub mod Deletion
use aple.Base.{
  ℕ, zero, suc, ◌≡◌, Bool, true, false, Option, none, some, List, [], ◌∷◌, ◌++◌, ◌&&◌, ◌==◌,
  if◌then◌else◌,
}

-- `struct GlobalRes`; `release_proc` is the address of the function, or NULL.
pub record GlobalRes : Type 0 where
  pub next : Option ℕ
  pub prev : Option ℕ
  pub key : ℕ
  pub res : ℕ
  pub release_proc : Option ℕ

-- The blocks at their addresses, `global_res` of the client, and the calls of the release functions so far,
-- with the resource of each.
pub record Store : Type 0 where
  pub blocks : ℕ → Option GlobalRes
  pub global_res : Option ℕ
  pub released : List (ℕ × ℕ)

abbrev pub write : (ℕ → Option GlobalRes) → ℕ → Option GlobalRes → ℕ → Option GlobalRes
write blocks p b k = if k == p then b else blocks k

abbrev pub with_prev : Option GlobalRes → Option ℕ → Option GlobalRes
with_prev none p = none
with_prev (some b) p = some (record b { prev = p })

abbrev pub with_next : Option GlobalRes → Option ℕ → Option GlobalRes
with_next none p = none
with_next (some b) p = some (record b { next = p })

-- `if (p) p->prev = q` and `if (p) p->next = q`
abbrev pub set_prev : (ℕ → Option GlobalRes) → Option ℕ → Option ℕ → ℕ → Option GlobalRes
set_prev blocks none q = blocks
set_prev blocks (some p) q = write blocks p (with_prev (blocks p) q)

abbrev pub set_next : (ℕ → Option GlobalRes) → Option ℕ → Option ℕ → ℕ → Option GlobalRes
set_next blocks none q = blocks
set_next blocks (some p) q = write blocks p (with_next (blocks p) q)

abbrev pub new_res : Store → ℕ → ℕ → Option ℕ → GlobalRes
new_res s key res release_proc = record {
  next = s.global_res;
  prev = none;
  key = key;
  res = res;
  release_proc = release_proc;
}

-- `add_global_res`, with the address that `malloc` gives, if it gives one.
unfoldable pub add_global_res : Store → Option ℕ → ℕ → ℕ → Option ℕ → Store
add_global_res s none key res release_proc = s
add_global_res s (some p) key res release_proc = record s {
  blocks =
      set_prev (write s.blocks p (some (new_res s key res release_proc))) s.global_res (some p);
  global_res = some p;
}

-- The call of the release function, if there is one.
abbrev pub calls_of : Option ℕ → ℕ → List (ℕ × ℕ)
calls_of none res = []
calls_of (some f) res = (f, res) ∷ []

abbrev pub release_calls : GlobalRes → List (ℕ × ℕ)
release_calls b = calls_of b.release_proc b.res

-- Goes on with a block, where it is there.
abbrev pub at_block : Option GlobalRes → (GlobalRes → Option Store) → Option Store
at_block none next = none
at_block (some b) next = next b

abbrev pub same_block : Option ℕ → ℕ → Bool
same_block none p = false
same_block (some q) p = q == p

-- The branch of `del_global_res` that has found the resource, in the block `b` at `p`.
unfoldable pub unlink : Store → ℕ → GlobalRes → Store
unlink s p b = record {
  blocks = write (set_prev (set_next s.blocks b.prev b.next) b.next b.prev) p none;
  global_res = if same_block s.global_res p then b.next else s.global_res;
  released = s.released ++ release_calls b;
}

-- The loop of `del_global_res`, at a block that may be NULL; `none` where it goes through a block that is
-- not there, and where the fuel ends.
unfoldable pub del_from : ℕ → Store → ℕ → ℕ → Option ℕ → Option Store
del_from fuel s key res none = some s
del_from zero s key res (some p) = none
del_from (suc fuel) s key res (some p) = at_block (s.blocks p) (λ b.
    let rest : Option Store = del_from fuel s key res b.next in
    if (b.key == key) && (b.res == res) then some (unlink s p b) else rest)

-- `del_global_res`
abbrev pub del_global_res : ℕ → Store → ℕ → ℕ → Option Store
del_global_res fuel s key res = del_from fuel s key res s.global_res

abbrev pub freed : Store → ℕ → GlobalRes → Store
freed s p b = record s { blocks = write s.blocks p none; released = s.released ++ release_calls b }

-- The loop of `__mg_release_global_res`, which leaves `global_res` as it is.
unfoldable pub release_from : ℕ → Store → Option ℕ → Option Store
release_from fuel s none = some s
release_from zero s (some p) = none
release_from (suc fuel) s (some p) =
    at_block (s.blocks p) (λ b. release_from fuel (freed s p b) b.next)

-- `__mg_release_global_res`
abbrev pub release_global_res : ℕ → Store → Option Store
release_global_res fuel s = release_from fuel s s.global_res

-- ===== src/Server/Handlers/Lives.antt =====
-- The lives of cursors and semaphores through the handlers.
use aple.Base.{
  ℕ, ◌<◌, ◌≡◌, sym, ◌∙◌, false, Option, none, some, List, [], ◌∷◌, ◌++◌, length, ◌==◌,
  if◌then◌else◌, append_assoc, subst,
}
use aple.Chain.{Apart}
use aple.Server.Resources.{Store, add_global_res, calls_of}
use aple.Server.Resources.Links.{Res, addr_of, Keeps, add-Keeps}
use aple.Server.Resources.Deletion.{Missing, del_global_res_lem}
use aple.Server.Handlers.{
  Procs, load_cursor, destroys, destroy_cursor, alloc_sem_for_shared_surf, free_sem_for_shared_surf,
}

abbrev pub sem_res : Procs → ℕ → ℕ → Res
sem_res p addr n = record {
  addr = addr;
  key = p.alloc_sem;
  res = n;
  release_proc = some p.release_sem;
}

-- A semaphore that was allocated and then, behind any number of other resources of the client with other
-- keys or values, is freed: its release function is called once, with its number, and the client has the
-- resources that it had before and those that came in between.
pub alloc-free :
    (p : Procs) (fuel : ℕ) (s : Store) (later earlier : List Res) (addr n : ℕ)
    → length later < fuel
    → Keeps s (later ++ (sem_res p addr n ∷ earlier))
    → Missing p.alloc_sem n later
    → (t : Store) × ((free_sem_for_shared_surf p fuel s n ≡ some t)
        × Keeps t (later ++ earlier)
        × (t.blocks addr ≡ none)
        × (t.released ≡ s.released ++ ((p.release_sem, n) ∷ [])))
unfolding free_sem_for_shared_surf
alloc-free p fuel s later earlier addr n h v m =
    del_global_res_lem fuel s later (sem_res p addr n) earlier h v m

-- A semaphore that is allocated is the first resource of the client.
pub alloc-Keeps :
    (p : Procs) (s : Store) (xs : List Res) (addr n : ℕ)
    → Keeps s xs
    → Apart addr_of addr xs
    → Keeps (alloc_sem_for_shared_surf p s (some addr) (some n)).0 (sem_res p addr n ∷ xs)
unfolding alloc_sem_for_shared_surf
alloc-Keeps p s xs addr n v fresh = add-Keeps s xs (sem_res p addr n) v fresh

abbrev pub cursor_res : ℕ → ℕ → Option ℕ → Res
cursor_res addr hcsr release_proc = record {
  addr = addr;
  key = hcsr;
  res = hcsr;
  release_proc = release_proc;
}

-- `destroy_cursor` of a cursor of the client, with fuel above the number of resources before it, of which none
-- has its key and value, destroys it, and then once more by its release function, where it has one; the client
-- keeps the other resources.
pub destroy_cursor_lem :
    (p : Procs) (fuel : ℕ) (s : Store) (later earlier : List Res) (addr hcsr : ℕ)
    (release_proc : Option ℕ)
    → length later < fuel
    → Keeps s (later ++ (cursor_res addr hcsr release_proc ∷ earlier))
    → Missing hcsr hcsr later
    → (t : Store) × ((destroy_cursor p fuel s hcsr ≡ some t)
        × Keeps t (later ++ earlier)
        × (t.released ≡ s.released ++ ((p.destroy_cursor, hcsr) ∷ calls_of release_proc hcsr)))
unfolding destroy_cursor
destroy_cursor_lem p fuel s later earlier addr hcsr release_proc h v m =
    let (t, (runs, keeps, gone, calls)) =
      del_global_res_lem fuel (destroys p s hcsr) later (cursor_res addr hcsr release_proc) earlier
        h (record { first = v.first; links = v.links; distinct = v.distinct }) m in
    (
      t,
      (
        runs,
        keeps,
        calls
            ∙ append_assoc s.released ((p.destroy_cursor, hcsr) ∷ []) (calls_of release_proc hcsr),
      ),
    )

-- A cursor that is loaded has `DestroyCursor` as its release function.
pub load_cursor-Keeps :
    (p : Procs) (s : Store) (xs : List Res) (addr hcsr : ℕ)
    → Keeps s xs
    → Apart addr_of addr xs
    → (hcsr == 0) ≡ false
    → Keeps (load_cursor p s (some addr) hcsr).0 (cursor_res addr hcsr (some p.destroy_cursor) ∷ xs)
unfolding load_cursor
load_cursor-Keeps p s xs addr hcsr v fresh some_cursor =
    let made : Res = cursor_res addr hcsr (some p.destroy_cursor) in
    subst
      (λ t.
        Keeps (if t then s else add_global_res s (some addr) hcsr hcsr (some p.destroy_cursor))
          (made ∷ xs))
      (sym some_cursor) (add-Keeps s xs made v fresh)

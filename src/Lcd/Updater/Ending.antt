-- ===== src/Lcd/Updater/Ending.antt =====
-- That the updating thread always comes to rest, with nothing left to show, and what `COMMLCD_VideoQuit` waits
-- for.
use aple.Base.{
  ℕ, zero, suc, ◌+◌, ◌*◌, ◌≤◌, ◌<◌, ◌≡◌, refl, sym, ap, ◌∙◌, Bool, true, false, ◌⊎◌, inl, inr,
  arith,
}
use aple.Lcd.{RectOps, Hidden, do_update, refresh}
use aple.Lcd.Pixels.{Inside, Laws, Covered}
use aple.Lcd.Dirty.{Valid}
use aple.Lcd.Updater.{
  Updater, waiting, woken, checked, gone, Engine, rounded, Updates, wakes, passes, rounds, ends,
  interrupted, Step, drawing, syncing, quitting, updating, Reach, later,
}
use aple.Lcd.Updater.Promise.{Reach-Inv, busy, is_gone}

-- A number of steps of the updating thread.
pub data Runs (point : Bool) : ℕ → Engine → Engine → Type 0 where
  halt : (s : Engine) → Runs point 0 s s
  step : {k : ℕ} {s t u : Engine} → Updates point s t → Runs point k t u → Runs point (suc k) s u

abbrev pub to_go : Updater → ℕ
to_go waiting = 1
to_go woken = 3
to_go checked = 2
to_go gone = 0

-- The steps that the updating thread can take, at most.
abbrev pub measure : Engine → ℕ
measure s = 3 * s.hidden.sem_update + to_go s.updater

rounded_lem :
    (s : Engine)
    → ((rounded s (do_update s.hidden)).canceled ≡ s.canceled)
      × (measure (rounded s (do_update s.hidden)) ≡ 3 * s.hidden.sem_update + 1)
unfolding do_update
rounded_lem s = go s.hidden.dirty
  where
    go :
        (b : Bool)
        → ((rounded s (refresh s.hidden b)).canceled ≡ s.canceled)
          × (measure (rounded s (refresh s.hidden b)) ≡ 3 * s.hidden.sem_update + 1)
    go true = (refl, refl)
    go false = (refl, refl)

Updates-measure :
    {point : Bool} {s t : Engine}
    → Updates point s t
    → (measure t < measure s) × (t.canceled ≡ s.canceled)
Updates-measure (wakes s v w full) = (omega (arith, full, ap to_go w), refl)
Updates-measure (passes s w e) = (omega (arith, ap to_go w), refl)
Updates-measure (rounds s w) = (omega (arith, ap to_go w, (rounded_lem s).1), (rounded_lem s).0)
Updates-measure (ends s w e) = (omega (arith, ap to_go w), refl)
Updates-measure (interrupted s p w e) = (omega (arith, ap to_go w), refl)

abbrev pub CanUpdate : Bool → Engine → Type 0
CanUpdate point s = (t : Engine) × Updates point s t

-- Where the updating thread takes no step.
moves_on :
    (point : Bool) (s : Engine)
    → CanUpdate point s ⊎ (s.updater ≡ gone) ⊎ ((s.updater ≡ waiting) × (s.hidden.sem_update ≡ 0))
moves_on point s = by_state s.updater refl s.canceled refl s.hidden.sem_update refl
  where
    by_state :
        (u : Updater)
        → s.updater ≡ u
        → (b : Bool) → s.canceled ≡ b
        → (v : ℕ) → s.hidden.sem_update ≡ v
        → CanUpdate point s
          ⊎ (s.updater ≡ gone)
          ⊎ ((s.updater ≡ waiting) × (s.hidden.sem_update ≡ 0))
    by_state waiting w b e zero f = inr (inr (w, f))
    by_state waiting w b e (suc v) f = inl (_, wakes s v w f)
    by_state woken w false e v f = inl (_, passes s w e)
    by_state woken w true e v f = inl (_, ends s w e)
    by_state checked w b e v f = inl (_, rounds s w)
    by_state gone w b e v f = inr (inl w)

-- Where the functions on rectangles keep their laws: from every state that the two threads reach from a device
-- in order, while it is not quit, every run of the
-- updating thread alone is finite, with a bound in the semaphore, and where it can go no further, no pixel of
-- the screen that was drawn in before the last `SyncUpdate` waits for an update.
pub no_update_is_lost :
    {o : RectOps} {point : Bool} {first : Hidden} {k : ℕ} {s t : Engine}
    → Laws o
    → Valid o first
    → Reach o point first s
    → s.canceled ≡ false
    → Runs point k s t
    → (k + measure t ≤ measure s)
      × (((x y : ℕ) → Covered t.promised x y → ¬ Inside o.screen x y) ⊎ CanUpdate point t)
no_update_is_lost {o} {point} laws v r e (halt s) = (
  omega arith,
  elim (moves_on point s) [
    | inl w ↦ inr w
    | inr (inl w) ↦ absurd (omega (arith, ap is_gone w, (Reach-Inv laws v r).quits e))
    | inr (inr (w, f)) ↦
        inl (λ x y c i. absurd (omega (arith, f, ap busy w, (Reach-Inv laws v r).due x y c i)))
  ],
)
no_update_is_lost {o} {point} laws v r e (step {k} {s} {t} {u} w more) =
    let (short, rest) =
      no_update_is_lost laws v (later r (updating w)) ((Updates-measure w).1 ∙ e) more in
    (omega (arith, short, (Updates-measure w).0), rest)

-- No step of a canceled engine whose updating thread waits on an empty semaphore, where `sem_wait` is no
-- cancellation point.
stuck :
    {o : RectOps} {s u : Engine}
    → s.canceled ≡ true
    → s.updater ≡ waiting
    → s.hidden.sem_update ≡ 0
    → ¬ Step o false s u
stuck e w f (drawing s rects g) = absurd cc
stuck e w f (syncing s g) = absurd cc
stuck e w f (quitting s g) = absurd cc
stuck e w f (updating (wakes s v h full)) = omega (arith, f, full)
stuck e w f (updating (passes s h g)) = absurd cc
stuck e w f (updating (rounds s h)) = omega (arith, ap to_go (sym w ∙ h))
stuck e w f (updating (ends s h g)) = omega (arith, ap to_go (sym w ∙ h))
stuck e w f (updating (interrupted s p h g)) = absurd cc

-- Once `COMMLCD_VideoQuit` has canceled the updating thread and waits for its end, every run of that thread
-- is finite, and where it can go no further, the thread is at its end, or `sem_wait` is no cancellation point
-- and no thread takes a step any more.
pub quit_lem :
    {o : RectOps} {point : Bool} {k : ℕ} {s t : Engine}
    → s.canceled ≡ true
    → Runs point k s t
    → (k + measure t ≤ measure s)
      × (CanUpdate point t
          ⊎ (t.updater ≡ gone)
          ⊎ ((point ≡ false) × (t.updater ≡ waiting) × ((u : Engine) → ¬ Step o point t u)))
quit_lem {o} {point} e (halt s) = (omega arith, at_rest point (moves_on point s))
  where
    at_rest :
        (p : Bool)
        → CanUpdate p s ⊎ (s.updater ≡ gone) ⊎ ((s.updater ≡ waiting) × (s.hidden.sem_update ≡ 0))
        → CanUpdate p s
          ⊎ (s.updater ≡ gone)
          ⊎ ((p ≡ false) × (s.updater ≡ waiting) × ((u : Engine) → ¬ Step o p s u))
    at_rest p (inl w) = inl w
    at_rest p (inr (inl w)) = inr (inl w)
    at_rest true (inr (inr (w, f))) = inl (_, interrupted s refl w e)
    at_rest false (inr (inr (w, f))) = inr (inr (refl, w, λ u. stuck e w f))
quit_lem {o} {point} e (step {k} {s} {t} {u} w more) =
    let (short, rest) = quit_lem {o = o} ((Updates-measure w).1 ∙ e) more in
    (omega (arith, short, (Updates-measure w).0), rest)

-- ===== src/Thread/Cancel/Deadlock.antt =====
-- What a cancellation leads to, in the thread that is cancelled and in the caller.
use aple.Base.{
  ℕ, ◌≡◌, ◌≢◌, refl, ap, ap₂, ◌∙◌, true, false, none, some, ◌==◌, ==_refl, ==_false, if◌then◌else◌,
}
use aple.Thread.{Consts, success, Threads, info_id}
use aple.Thread.Exit.{exit_thread}
use aple.Thread.Join.{check_for_cancel}
use aple.Thread.Cancel.{
  cancel, cancel_found, cancel_end, cancel_call, back, blocked, pending, testcancel, returned,
  exits, behind_exit,
}

module _ (c : Consts) (invoke : ℕ → ℕ → Threads → Threads) (fuel : ℕ) (v : Threads) (id a : ℕ)
    (found : info_id v id ≡ some a) (enabled : (v.infos a).cancelstate ≡ c.cancel_enable) where
  -- Where the thread is found, has cancellation enabled and is not of the asynchronous type, the call
  -- returns 0 with the mutex given back, and the next test for cancellation in that thread ends it.
  pub cancel_deferred :
      (v.infos a).canceltype ≢ c.cancel_asynchronous
      → (cancel_call c invoke fuel v id true ≡ back (pending v a) success true)
        × (testcancel c (pending v a) a ≡ true)
  unfolding cancel_call cancel testcancel check_for_cancel
  cancel_deferred deferred = (
    ap (λ o. cancel_end c invoke fuel false (cancel_found c v o)) found
        ∙ rw
            (
              enabled,
              ==_refl c.cancel_enable,
              ==_false (v.infos a).canceltype c.cancel_asynchronous deferred,
            )
            refl,
    rw (==_refl a, enabled, ==_refl c.cancel_enable) refl,
  )

  cancel_found-asynchronous :
      (v.infos a).canceltype ≡ c.cancel_asynchronous
      → cancel_found c v (some a) ≡ exits (pending v a) a
  cancel_found-asynchronous asynchronous =
      ap₂
        (λ x y.
          if x
          then if y then exits (pending v a) a else returned (pending v a) success
          else returned (pending v a) success)
        (ap (λ x. x == c.cancel_enable) enabled ∙ ==_refl c.cancel_enable)
        (ap (λ x. x == c.cancel_asynchronous) asynchronous ∙ ==_refl c.cancel_asynchronous)

  -- Where the thread is found, has cancellation enabled and is of the asynchronous type, and the handlers
  -- and destructors end, the call takes the mutex that it holds already: it waits for ever, with the
  -- mutex taken.
  pub cancel_asynchronous_blocks :
      (w : Threads)
      → (v.infos a).canceltype ≡ c.cancel_asynchronous
      → exit_thread c invoke fuel (pending v a) a c.canceled ≡ some w
      → cancel_call c invoke fuel v id true ≡ blocked
  unfolding cancel_call cancel
  cancel_asynchronous_blocks w asynchronous ends =
      ap (λ o. cancel_end c invoke fuel false (cancel_found c v o)) found
      ∙ ap (cancel_end c invoke fuel false) (cancel_found-asynchronous asynchronous)
      ∙ ap (behind_exit none) ends

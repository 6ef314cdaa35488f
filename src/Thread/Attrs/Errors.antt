-- ===== src/Thread/Attrs/Errors.antt =====
-- What the setters of thread attributes do to the attributes, errors included.
use aple.Base.{ℕ, ◌≡◌, ◌≢◌, ◌⊎◌, Option, none, some, arith}
use aple.Thread.{Consts, Err, success, SchedParam, Attr}
use aple.Thread.Attrs.{
  attr_setdetachstate, attr_setscope, attr_setinheritsched, attr_setschedpolicy, attr_setstacksize,
  attr_setschedparam, attr_setstackaddr, attr_getdetachstate, attr_getscope, attr_getinheritsched,
  attr_getschedpolicy, attr_getschedparam, attr_getstackaddr, attr_getstacksize,
}

-- A setter either succeeds, and the getter then gives what was set, or it fails and the attributes are
-- what they were.
abbrev pub Sets {ℓ} :
    {A : Type ℓ} → Option Attr → Option Attr × Err → (Option Attr → Err × Option A) → A → Type ℓ
Sets o r get x = ((r.1 ≡ success) × (get r.0 ≡ (success, some x))) ⊎ ((r.1 ≢ success) × (r.0 ≡ o))

-- Each of the seven setters, at any attributes, NULL included, and any argument, either succeeds, and then
-- the getter gives what was set, or it fails and leaves the attributes as they were.
pub attr_setters :
    (c : Consts) (o : Option Attr) (n : ℕ) (p : SchedParam)
    → Sets o (attr_setdetachstate c o n) attr_getdetachstate n
      × Sets o (attr_setscope c o n) attr_getscope n
      × Sets o (attr_setinheritsched c o n) attr_getinheritsched n
      × Sets o (attr_setschedpolicy c o n) attr_getschedpolicy n
      × Sets o (attr_setschedparam o (some p)) attr_getschedparam p
      × Sets o (attr_setstackaddr o n) attr_getstackaddr n
      × Sets o (attr_setstacksize c o n) attr_getstacksize n
unfolding attr_setdetachstate attr_setscope attr_setinheritsched attr_setschedpolicy
    attr_setschedparam attr_setstackaddr attr_setstacksize attr_getdetachstate attr_getscope
    attr_getinheritsched attr_getschedpolicy attr_getschedparam attr_getstackaddr attr_getstacksize
attr_setters c none n p = ground arith
attr_setters c (some a) n p = ground arith

-- ===== src/Server/Table.antt =====
-- Registered handlers are found again, and the system's handlers stay.
use aple.Base.{
  ℕ, ◌-◌, ◌^◌, ◌≤◌, ◌<◌, ◌≡◌, ◌≢◌, refl, ap, ◌∙◌, true, Option, none, some, List, [], ◌∷◌, ◌==◌,
  if◌then◌else◌, arith,
}
use aple.Server.{
  ReqRequest, Ids, register, out_of_range, get_request_handler, get_request_handler_ex,
}

-- A request id above those of the system that the table has room for.
pub record Free (c : Ids) (req_id : ℕ) : Type 0 where
  pub above : c.max_sys_reqid < req_id
  pub below : req_id ≤ c.max_reqid
  pub is_int : c.max_reqid < 2 ^ 31

-- A handler that is registered with a version, under a free id, is found with that version and not with
-- another, and `GetRequestHandlerEx` finds both; what is found under any other id is as before.
pub get-register :
    (c : Ids) (handlers : ℕ → ReqRequest) (version other req_id id u : ℕ) (h : Option ℕ)
    → Free c req_id
    → other ≢ version
    → id ≢ req_id
    → ((register c handlers version req_id h).1 ≡ true)
      × (get_request_handler c (register c handlers version req_id h).0 version req_id ≡ h)
      × (get_request_handler c (register c handlers version req_id h).0 other req_id ≡ none)
      × (get_request_handler_ex c (register c handlers version req_id h).0 req_id
          ≡ (h, some version))
      × (get_request_handler c (register c handlers version req_id h).0 u id
          ≡ get_request_handler c handlers u id)
unfolding register get_request_handler get_request_handler_ex
get-register c handlers version other req_id id u h f n m = (
  ground (arith, f.above, f.below, f.is_int),
  ground (arith, f.above, f.below, f.is_int),
  ground (arith, f.above, f.below, f.is_int, n),
  ground (arith, f.above, f.below, f.is_int),
  ground (arith, f.above, f.below, f.is_int, m),
)

-- A registration: the version, the request id and the handler.
pub record Registration : Type 0 where
  pub version : ℕ
  pub req_id : ℕ
  pub handler : Option ℕ

-- Registrations in a row.
unfoldable pub register_all : Ids → (ℕ → ReqRequest) → List Registration → ℕ → ReqRequest
register_all c handlers [] = handlers
register_all c handlers (r ∷ rs) =
    register_all c (register c handlers r.version r.req_id r.handler).0 rs

register_stays :
    (c : Ids) (handlers : ℕ → ReqRequest) (version req_id k : ℕ) (h : Option ℕ)
    → k < c.max_sys_reqid
    → (register c handlers version req_id h).0 k ≡ handlers k
unfolding register
register_stays c handlers version req_id k h l = ground (arith, l)

get_stays :
    (c : Ids) (handlers others : ℕ → ReqRequest) (req_id u : ℕ)
    → others (req_id - 1) ≡ handlers (req_id - 1)
    → get_request_handler c others u req_id ≡ get_request_handler c handlers u req_id
unfolding get_request_handler
get_stays c handlers others req_id u e =
    ap
      (λ (q : ReqRequest).
        if out_of_range c req_id then none else if q.version == u then q.handler else none)
      e

-- However many handlers are registered, under whatever ids, the system's handlers stay what they were.
pub system_handlers_stay :
    (c : Ids) (handlers : ℕ → ReqRequest) (rs : List Registration) (req_id u : ℕ)
    → 1 ≤ req_id
    → req_id ≤ c.max_sys_reqid
    → get_request_handler c (register_all c handlers rs) u req_id
      ≡ get_request_handler c handlers u req_id
unfolding register_all
system_handlers_stay c handlers [] req_id u g l = refl
system_handlers_stay c handlers (r ∷ rs) req_id u g l =
    let next : ℕ → ReqRequest = (register c handlers r.version r.req_id r.handler).0 in
    system_handlers_stay c next rs req_id u g l
    ∙ get_stays c handlers next req_id u
        (register_stays c handlers r.version r.req_id (req_id - 1) r.handler (omega (arith, g, l)))

-- ===== src/Client/Delivery.antt =====
-- A request on a connection that works: what it puts on the wire, what becomes of the messages that come
-- before the reply, and the reply.
use aple.Base.{
  ℕ, suc, ◌-◌, ◌≡◌, refl, ap, ◌∙◌, Bool, true, false, Option, none, List, [], ◌∷◌, ◌++◌, length,
  ◌&&◌, ◌==◌, if◌then◌else◌, arith,
}
use aple.Msg.{Msg, hwnd_null, hwnd_invalid}
use aple.Wire.{Piece, bytes_of}
use aple.Client.{Request, Client, Around, lock, unlock, queues, delivers}

abbrev pub plain : List ℕ → Piece
plain b = record { bytes = b; fd = none }

-- A request on the wire.
abbrev pub pieces_of : Request → List ℕ → Option ℕ → List Piece
pieces_of r ex fd =
    plain (bytes_of 4 r.id)
    ∷ plain (bytes_of 8 (length r.data_bytes))
    ∷ plain (bytes_of 8 (length ex))
    ∷ record { bytes = r.data_bytes ++ ex; fd = fd }
    ∷ []

abbrev pub plains : List (List ℕ) → List Piece
plains [] = []
plains (b ∷ bs) = plain b ∷ plains bs

module _ {S : Type 0} (e : Around S) where
  -- The bytes of messages which are no reply and do not wake the client.
  abbrev pub Quiet : List (List ℕ) → Type 0
  Quiet [] = Unit
  Quiet (b ∷ bs) =
      (length b ≡ e.sizeof_msg)
      × (((e.msg_of b).hwnd == hwnd_invalid) ≡ false)
      × (((e.msg_of b).message == e.wakeup_client) ≡ false)
      × Quiet bs

  -- The messages one after the other.
  unfoldable pub delivers_all : Client S → List (List ℕ) → Client S
  delivers_all c [] = c
  delivers_all c (b ∷ bs) = delivers_all (delivers e c (e.msg_of b)) bs

  -- The client with another connection state and lock depth.
  abbrev pub held_at : Client S → S → ℕ → Client S
  held_at c s d = record c { conn = s; lock_depth = d }

  pub delivers-held_at :
      (c : Client S) (s : S) (d : ℕ) (m : Msg)
      → delivers e (held_at c s d) m ≡ held_at (delivers e c m) s d
  delivers-held_at c s d m =
      go ((m.message == e.updatecliwin) && e.check_hwnd m.hwnd c.client_id) (m.hwnd == hwnd_null)
        (e.check_hwnd m.hwnd c.client_id)
    where
      go :
          (x y z : Bool)
          → (if x
              then record (held_at c s d) { updated = c.updated ++ (m ∷ []) }
              else if y
              then queues e (held_at c s d) (record m { hwnd = e.hwnd_desktop })
              else if z
              then queues e (held_at c s d) m
              else held_at c s d)
            ≡ held_at
                (if x
                  then record c { updated = c.updated ++ (m ∷ []) }
                  else if y
                  then queues e c (record m { hwnd = e.hwnd_desktop })
                  else if z
                  then queues e c m
                  else c)
                s
                d
      go true y z = refl
      go false true z = refl
      go false false true = refl
      go false false false = refl

  pub delivers_all-held_at :
      (c : Client S) (s : S) (d : ℕ) (bs : List (List ℕ))
      → delivers_all (held_at c s d) bs ≡ held_at (delivers_all c bs) s d
  unfolding delivers_all
  delivers_all-held_at c s d [] = refl
  delivers_all-held_at c s d (b ∷ bs) =
      ap (λ x. delivers_all x bs) (delivers-held_at c s d (e.msg_of b))
      ∙ delivers_all-held_at (delivers e c (e.msg_of b)) s d bs

  delivers-hooks : (c : Client S) (m : Msg) → (delivers e c m).hooks ≡ c.hooks
  delivers-hooks c m =
      go ((m.message == e.updatecliwin) && e.check_hwnd m.hwnd c.client_id) (m.hwnd == hwnd_null)
        (e.check_hwnd m.hwnd c.client_id)
    where
      go :
          (x y z : Bool)
          → (if x
              then record c { updated = c.updated ++ (m ∷ []) }
              else if y
              then queues e c (record m { hwnd = e.hwnd_desktop })
              else if z
              then queues e c m
              else c).hooks
            ≡ c.hooks
      go true y z = refl
      go false true z = refl
      go false false true = refl
      go false false false = refl

  pub delivers_all-hooks : (c : Client S) (bs : List (List ℕ)) → (delivers_all c bs).hooks ≡ c.hooks
  unfolding delivers_all
  delivers_all-hooks c [] = refl
  delivers_all-hooks c (b ∷ bs) =
      delivers_all-hooks (delivers e c (e.msg_of b)) bs ∙ delivers-hooks c (e.msg_of b)

  abbrev pub locked : Bool → ℕ → ℕ
  locked true d = suc d
  locked false d = d

  pub lock_lem : (c : Client S) → lock e c ≡ held_at c c.conn (locked c.hooks c.lock_depth)
  lock_lem c = go c.hooks
    where
      go :
          (b : Bool)
          → (if b then record c { lock_depth = suc c.lock_depth } else c)
            ≡ held_at c c.conn (locked b c.lock_depth)
      go true = refl
      go false = refl

  pub unlock_lem :
      (c : Client S) (b : Bool) (s : S) (d : ℕ)
      → c.hooks ≡ b
      → unlock e (held_at c s (locked b d)) ≡ held_at c s d
  unlock_lem c true s d h =
      ap (λ x. if x then held_at c s (suc d - 1) else held_at c s (suc d)) h
      ∙ ap (held_at c s) (omega arith)
  unlock_lem c false s d h = ap (λ x. if x then held_at c s (d - 1) else held_at c s d) h

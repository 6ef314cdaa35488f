-- ===== src/Lcd/Pixels.antt =====
-- The pixels of a rectangle, and what the functions of MiniGUI on rectangles promise of them.
use aple.Base.{ℕ, ◌+◌, ◌%◌, ◌^◌, ◌≤◌, ◌<◌, ◌≡◌, true, false, List, [], ◌∷◌, ◌⊎◌}
use aple.Lcd.{Rect, RectOps, GalRect, rect_of, no_rect}

-- The place of a word of 32 bits in the order of the signed integers.
unfoldable pub key : ℕ → ℕ
key a = (a + 2 ^ 31) % 2 ^ 32

abbrev pub Between : ℕ → ℕ → ℕ → Type 0
Between a x b = (key a ≤ key x) × (key x < key b)

pub record Inside (r : Rect) (x y : ℕ) : Type 0 where
  pub across : Between r.left x r.right
  pub down : Between r.top y r.bottom

-- The documented results of `IsRectEmpty`, `GetBoundRect` and `IntersectRect`.
pub record Laws (o : RectOps) : Type 0 where
  pub no_rect-empty : o.is_rect_empty no_rect ≡ true
  pub empty-Inside : (r : Rect) (x y : ℕ) → o.is_rect_empty r ≡ true → ¬ Inside r x y
  pub bound_left : (a b : Rect) (x y : ℕ) → Inside a x y → Inside (o.get_bound_rect a b) x y
  pub bound_right : (a b : Rect) (x y : ℕ) → Inside b x y → Inside (o.get_bound_rect a b) x y
  pub meet_some : (a b c : Rect) → o.intersect_rect a b ≡ (true, c) → o.is_rect_empty c ≡ false
  pub meet_in :
      (a b c : Rect) (x y : ℕ)
      → o.intersect_rect a b ≡ (true, c)
      → Inside a x y
      → Inside b x y
      → Inside c x y
  pub meet_out :
      (a b c : Rect) (x y : ℕ)
      → o.intersect_rect a b ≡ (true, c)
      → Inside c x y
      → Inside a x y × Inside b x y
  pub meet_none :
      (a b c : Rect) (x y : ℕ) → o.intersect_rect a b ≡ (false, c) → Inside a x y → ¬ Inside b x y

-- The pixel is in one of the rectangles.
abbrev pub Covered : List GalRect → ℕ → ℕ → Type 0
Covered [] x y = ⊥
Covered (r ∷ rs) x y = Inside (rect_of r) x y ⊎ Covered rs x y

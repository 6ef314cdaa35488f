-- ===== src/Tests/Rects.antt =====
-- Functions on rectangles that keep the laws, and a screen of eight times eight pixels.
use aple.Base.{
  arith, ℕ, ◌≤◌, ◌<◌, ◌≡◌, refl, sym, ap, ◌∙◌, subst, Bool, true, false, not, ◌&&◌, if◌then◌else◌,
  ltb,
}
use aple.Lcd.{Rect, RectOps}
use aple.Lcd.Pixels.{key, Inside, Laws}

abbrev pub low : ℕ → ℕ → ℕ
low a b = if ltb (key a) (key b) then a else b

abbrev pub high : ℕ → ℕ → ℕ
high a b = if ltb (key a) (key b) then b else a

abbrev pub proper : Rect → Bool
proper r = ltb (key r.left) (key r.right) && ltb (key r.top) (key r.bottom)

abbrev pub bound_of : Rect → Rect → Rect
bound_of a b = record {
  left = low a.left b.left;
  top = low a.top b.top;
  right = high a.right b.right;
  bottom = high a.bottom b.bottom;
}

abbrev pub met : Rect → Rect → Rect
met a b = record {
  left = high a.left b.left;
  top = high a.top b.top;
  right = low a.right b.right;
  bottom = low a.bottom b.bottom;
}

abbrev pub rects : RectOps
rects = record {
  is_rect_empty = λ r. not (proper r);
  get_bound_rect = bound_of;
  intersect_rect = λ a b. (proper (met a b), met a b);
  screen = record { left = 0; top = 0; right = 8; bottom = 8 };
}

low_le : (a b : ℕ) → (key (low a b) ≤ key a) × (key (low a b) ≤ key b)
low_le a b = ground arith

high_le : (a b : ℕ) → (key a ≤ key (high a b)) × (key b ≤ key (high a b))
high_le a b = ground arith

low_one : (a b c : ℕ) → c < key a → c < key b → c < key (low a b)
low_one a b c h g = ground arith

high_one : (a b c : ℕ) → key a ≤ c → key b ≤ c → key (high a b) ≤ c
high_one a b c h g = ground arith

Inside-proper : (r : Rect) (x y : ℕ) → Inside r x y → proper r ≡ true
Inside-proper r x y i = ground (arith, i.across, i.down)

off : true ≡ false → ⊥
off e = absurd cc

not-proper : (r : Rect) (x y : ℕ) → not (proper r) ≡ true → ¬ Inside r x y
not-proper r x y e i = off (sym e ∙ ap not (Inside-proper r x y i))

bound_left : (a b : Rect) (x y : ℕ) → Inside a x y → Inside (bound_of a b) x y
bound_left a b x y i = record {
  across = (
    omega (arith, i.across, (low_le a.left b.left).0),
    omega (arith, i.across, (high_le a.right b.right).0),
  );
  down = (
    omega (arith, i.down, (low_le a.top b.top).0),
    omega (arith, i.down, (high_le a.bottom b.bottom).0),
  );
}

bound_right : (a b : Rect) (x y : ℕ) → Inside b x y → Inside (bound_of a b) x y
bound_right a b x y i = record {
  across = (
    omega (arith, i.across, (low_le a.left b.left).1),
    omega (arith, i.across, (high_le a.right b.right).1),
  );
  down = (
    omega (arith, i.down, (low_le a.top b.top).1),
    omega (arith, i.down, (high_le a.bottom b.bottom).1),
  );
}

met_in : (a b : Rect) (x y : ℕ) → Inside a x y → Inside b x y → Inside (met a b) x y
met_in a b x y i j = record {
  across = (
    high_one a.left b.left (key x) i.across.0 j.across.0,
    low_one a.right b.right (key x) i.across.1 j.across.1,
  );
  down = (
    high_one a.top b.top (key y) i.down.0 j.down.0,
    low_one a.bottom b.bottom (key y) i.down.1 j.down.1,
  );
}

met_left : (a b : Rect) (x y : ℕ) → Inside (met a b) x y → Inside a x y
met_left a b x y i = record {
  across = (
    omega (arith, i.across, (high_le a.left b.left).0),
    omega (arith, i.across, (low_le a.right b.right).0),
  );
  down = (
    omega (arith, i.down, (high_le a.top b.top).0),
    omega (arith, i.down, (low_le a.bottom b.bottom).0),
  );
}

met_right : (a b : Rect) (x y : ℕ) → Inside (met a b) x y → Inside b x y
met_right a b x y i = record {
  across = (
    omega (arith, i.across, (high_le a.left b.left).1),
    omega (arith, i.across, (low_le a.right b.right).1),
  );
  down = (
    omega (arith, i.down, (high_le a.top b.top).1),
    omega (arith, i.down, (low_le a.bottom b.bottom).1),
  );
}

pub rects-Laws : Laws rects
unfolding key
rects-Laws = record {
  no_rect-empty = refl;
  empty-Inside = not-proper;
  bound_left = bound_left;
  bound_right = bound_right;
  meet_some = λ a b c e.
      ap (λ (r : Bool × Rect). not (proper r.1)) (sym e) ∙ ap not (ap (λ (r : Bool × Rect). r.0) e);
  meet_in = λ a b c x y e i j.
      subst (λ (r : Rect). Inside r x y) (ap (λ (r : Bool × Rect). r.1) e) (met_in a b x y i j);
  meet_out = λ a b c x y e i.
      let k : Inside (met a b) x y =
        subst (λ (r : Rect). Inside r x y) (ap (λ (r : Bool × Rect). r.1) (sym e)) i in
      (met_left a b x y k, met_right a b x y k);
  meet_none = λ a b c x y e i j.
      off
        (sym (Inside-proper (met a b) x y (met_in a b x y i j)) ∙ ap (λ (r : Bool × Rect). r.0) e);
}

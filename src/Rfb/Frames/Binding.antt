-- ===== src/Rfb/Frames/Binding.antt =====
-- BindToFbDev of src/utils/regirfb/framebuf.cpp.
use regiboard.Base.{
  ℕ, zero, suc, ◌+◌, ◌*◌, ◌/◌, ◌%◌, ◌^◌, ◌<◌, ◌≡◌, ◌⊎◌, inl, inr, refl, ap, ◌∙◌, Bool, true, false,
  ◌==◌, Option, none, some, length, arith, if◌then◌else◌, Bool-cases,
}
use regiboard.Base.Text.{Text}
use regiboard.Rfb.Color.{generate_palette}
use regiboard.Rfb.Frames.{
  Screen, Mode, new_screen, unbind, get_video_mode, is_wrong_depth, bind_loop, bind_tries,
  map_frames, bind_to_fb_dev,
}

-- A screen that is bound: its depth is one that can be converted, and its buffers have room.
pub record Bound (s : Screen) : Type 0 where
  pub known_depth : (s.depth ≡ 3) ⊎ (s.depth ≡ 4)
  pub size_lem : s.size ≡ s.width * s.height * s.depth % 2 ^ 32
  pub buff_0 : Text
  pub has_0 : s.frame_0.buff ≡ some buff_0
  pub room_0 : length buff_0 ≡ s.size + 1024
  pub buff_1 : Text
  pub has_1 : s.frame_1.buff ≡ some buff_1
  pub room_1 : length buff_1 ≡ s.size + 1024

-- The depths of a mode, and the modes in which a screen can be converted.
abbrev pub mode_depth : Mode → ℕ
mode_depth m = m.bits_per_pixel / 8 % 256

right_depth : (d : ℕ) → is_wrong_depth d ≡ false → (d ≡ 3) ⊎ (d ≡ 4)
unfolding is_wrong_depth
right_depth d h = ground arith

bind_loop-right :
    (left : ℕ) (modes : ℕ → Option Mode) (s : Screen)
    → (bind_loop left modes s).0 ≡ true
    → is_wrong_depth ((bind_loop left modes s).1).depth ≡ false
unfolding bind_loop
bind_loop-right zero modes s h = grind (arith, h)
bind_loop-right (suc left) modes s h =
    let s' = (get_video_mode (modes 0) s).1 in
    next (is_wrong_depth s'.depth) refl (bind_loop-right left (λ n. modes (suc n)) s') h
  where
    after : Screen
    after = (get_video_mode (modes 0) s).1

    next :
        (b : Bool)
        → is_wrong_depth after.depth ≡ b
        → ((bind_loop left (λ n. modes (suc n)) after).0 ≡ true
            → is_wrong_depth ((bind_loop left (λ n. modes (suc n)) after).1).depth ≡ false)
        → (if b then bind_loop left (λ n. modes (suc n)) after else (true, after)).0 ≡ true
        → is_wrong_depth
            ((if b then bind_loop left (λ n. modes (suc n)) after else (true, after)).1).depth
          ≡ false
    next true e ih h' = ih h'
    next false e ih h' = e

-- A try that finds no depth that can be converted.
abbrev pub Unready : Option Mode → Type 0
Unready none = Unit
Unready (some m) = is_wrong_depth (mode_depth m) ≡ true

Unready-depth :
    (o : Option Mode) (s : Screen)
    → Unready o
    → is_wrong_depth s.depth ≡ true
    → is_wrong_depth ((get_video_mode o s).1).depth ≡ true
unfolding get_video_mode
Unready-depth none s h wrong = wrong
Unready-depth (some m) s h wrong = h

bind_loop-later :
    (left : ℕ) (modes : ℕ → Option Mode) (s : Screen)
    → is_wrong_depth ((get_video_mode (modes 0) s).1).depth ≡ true
    → bind_loop (suc left) modes s
      ≡ bind_loop left (λ n. modes (suc n)) (get_video_mode (modes 0) s).1
unfolding bind_loop
bind_loop-later left modes s h = rw (h, bind_loop) refl

-- Tries that all fail.
pub bind_loop-Unready :
    (left : ℕ) (modes : ℕ → Option Mode) (s : Screen)
    → is_wrong_depth s.depth ≡ true
    → ((i : ℕ) → i < left → Unready (modes i))
    → (bind_loop left modes s).0 ≡ false
unfolding bind_loop
bind_loop-Unready zero modes s wrong h = refl
bind_loop-Unready (suc left) modes s wrong h =
    let still = Unready-depth (modes 0) s (h 0 (omega arith)) wrong in
    ap (λ (r : Bool × Screen). r.0) (bind_loop-later left modes s still)
    ∙ bind_loop-Unready left (λ n. modes (suc n)) (get_video_mode (modes 0) s).1 still
        (λ i lt. h (suc i) (omega arith))

abbrev pub InMode : Screen → Mode → Type 0
InMode s m = (s.width ≡ m.xres) × (s.height ≡ m.yres) × (s.depth ≡ mode_depth m)

-- The first try that finds a mode that can be converted.
pub bind_loop-found :
    (left k : ℕ) (modes : ℕ → Option Mode) (s : Screen) (m : Mode)
    → is_wrong_depth s.depth ≡ true
    → k < left
    → ((i : ℕ) → i < k → Unready (modes i))
    → modes k ≡ some m
    → is_wrong_depth (mode_depth m) ≡ false
    → ((bind_loop left modes s).0 ≡ true) × InMode (bind_loop left modes s).1 m
unfolding bind_loop get_video_mode
bind_loop-found zero k modes s m wrong lt h e ok = elim lt [ ]
bind_loop-found (suc left) zero modes s m wrong lt h e ok =
    rw (e, ok, bind_loop) (refl, (refl, refl, refl))
bind_loop-found (suc left) (suc k) modes s m wrong lt h e ok =
    let still = Unready-depth (modes 0) s (h 0 (omega arith)) wrong in
    rw (bind_loop-later left modes s still) (
      bind_loop-found left k (λ n. modes (suc n)) (get_video_mode (modes 0) s).1 m still
        (omega arith) (λ i lt'. h (suc i) (omega arith)) e ok)

map_frames-Bound :
    (junk : ℕ → Text) (r : Bool × Screen)
    → ((n : ℕ) → length (junk n) ≡ n)
    → (r.0 ≡ true → is_wrong_depth (r.1).depth ≡ false)
    → (map_frames junk r).0 ≡ true
    → Bound (map_frames junk r).1
unfolding map_frames
map_frames-Bound junk (false, s) full ok h = absurd (grind (arith, h))
map_frames-Bound junk (true, s) full ok h = record {
  known_depth = right_depth s.depth (ok refl);
  size_lem = refl;
  buff_0 = junk (s.width * s.height * s.depth % 2 ^ 32 + 1024);
  has_0 = refl;
  room_0 = full _;
  buff_1 = junk (s.width * s.height * s.depth % 2 ^ 32 + 1024);
  has_1 = refl;
  room_1 = full _;
}

-- When BindToFbDev returns true, the screen is bound.
pub bind-Bound :
    (junk : ℕ → Text) (modes : ℕ → Option Mode) (s : Screen)
    → ((n : ℕ) → length (junk n) ≡ n)
    → (bind_to_fb_dev junk modes s).0 ≡ true
    → Bound (bind_to_fb_dev junk modes s).1
unfolding bind_to_fb_dev
bind-Bound junk modes s full h =
    let start : Screen = record (unbind s) { is_open = true } in
    map_frames-Bound junk (bind_loop bind_tries modes start) full
      (bind_loop-right bind_tries modes start) h

map_frames-mode :
    (junk : ℕ → Text) (r : Bool × Screen) (m : Mode)
    → (r.0 ≡ true) × InMode r.1 m
    → ((map_frames junk r).0 ≡ true) × InMode (map_frames junk r).1 m
unfolding map_frames
map_frames-mode junk (false, s) m (h, k) = absurd (grind (arith, h))
map_frames-mode junk (true, s) m h = h

map_frames-false :
    (junk : ℕ → Text) (r : Bool × Screen) → r.0 ≡ false → (map_frames junk r).0 ≡ false
unfolding map_frames
map_frames-false junk (false, s) h = refl
map_frames-false junk (true, s) h = h

-- BindToFbDev on a new screen, when the first mode of a depth of 3 or 4 bytes comes at one of the first 29
-- tries: it returns true with the screen in this mode.
pub bind-found :
    (junk : ℕ → Text) (modes : ℕ → Option Mode) (off k : ℕ) (m : Mode)
    → k < 29
    → ((i : ℕ) → i < k → Unready (modes i))
    → modes k ≡ some m
    → is_wrong_depth (mode_depth m) ≡ false
    → ((bind_to_fb_dev junk modes (new_screen off)).0 ≡ true)
      × InMode (bind_to_fb_dev junk modes (new_screen off)).1 m
unfolding bind_to_fb_dev new_screen unbind is_wrong_depth
bind-found junk modes off k m lt before now ok =
    map_frames-mode junk _ m (bind_loop-found 29 k modes _ m refl lt before now ok)

-- When none of the 29 tries finds such a mode, BindToFbDev returns false.
pub bind-Unready :
    (junk : ℕ → Text) (modes : ℕ → Option Mode) (off : ℕ)
    → ((i : ℕ) → i < 29 → Unready (modes i))
    → (bind_to_fb_dev junk modes (new_screen off)).0 ≡ false
unfolding bind_to_fb_dev new_screen unbind is_wrong_depth
bind-Unready junk modes off none_ready =
    map_frames-false junk _ (bind_loop-Unready 29 modes _ refl none_ready)

-- A screen that has shown nothing yet.
pub record Fresh (s : Screen) : Type 0 where
  pub own : s.palette ≡ generate_palette
  pub first : s.cur_frame ≡ 0
  pub empty : s.frame_0.size ≡ 0

pub new_screen-Fresh : (off : ℕ) → Fresh (new_screen off)
unfolding new_screen
new_screen-Fresh off = record { own = refl; first = refl; empty = refl }

get_video_mode-Fresh : (o : Option Mode) (s : Screen) → Fresh s → Fresh (get_video_mode o s).1
unfolding get_video_mode
get_video_mode-Fresh none s h = h
get_video_mode-Fresh (some m) s h = record { own = h.own; first = h.first; empty = h.empty }

if-Fresh : (b : Bool) (r q : Bool × Screen) → Fresh r.1 → Fresh q.1 → Fresh (if b then r else q).1
if-Fresh true r q h k = h
if-Fresh false r q h k = k

bind_loop-Fresh :
    (left : ℕ) (modes : ℕ → Option Mode) (s : Screen) → Fresh s → Fresh (bind_loop left modes s).1
unfolding bind_loop
bind_loop-Fresh zero modes s h = h
bind_loop-Fresh (suc left) modes s h =
    let s' = (get_video_mode (modes 0) s).1 in
    let next = get_video_mode-Fresh (modes 0) s h in
    if-Fresh (is_wrong_depth s'.depth) (bind_loop left (λ n. modes (suc n)) s') (true, s')
      (bind_loop-Fresh left (λ n. modes (suc n)) s' next) next

map_frames-Fresh : (junk : ℕ → Text) (r : Bool × Screen) → Fresh r.1 → Fresh (map_frames junk r).1
unfolding map_frames
map_frames-Fresh junk (false, s) h = h
map_frames-Fresh junk (true, s) h = record { own = h.own; first = h.first; empty = h.empty }

open_unbound-Fresh : (s : Screen) → Fresh s → Fresh (record (unbind s) { is_open = true })
unfolding unbind
open_unbound-Fresh s h = elim (Bool-cases (s.size == 0)) [
  | inl e ↦ rw e (record { own = h.own; first = h.first; empty = h.empty })
  | inr e ↦ rw e (record { own = h.own; first = h.first; empty = h.empty })
]

pub bind-Fresh :
    (junk : ℕ → Text) (modes : ℕ → Option Mode) (s : Screen)
    → Fresh s
    → Fresh (bind_to_fb_dev junk modes s).1
unfolding bind_to_fb_dev
bind-Fresh junk modes s h =
    map_frames-Fresh junk (bind_loop bind_tries modes (record (unbind s) { is_open = true })) (
      bind_loop-Fresh bind_tries modes (record (unbind s) { is_open = true })
        (open_unbound-Fresh s h))

-- ===== src/Rfb/Requests/Serving.antt =====
-- The frames that the server of src/utils/regirfb/main.cpp sends while a task prepares the next one. A
-- request, the writes of the task into its frame and the end of the task are single steps: what a request
-- sees inside SwitchToNextFrame, where the number of the frame is out of range for a moment, is left out,
-- and so are writes into a frame while the server webapp still reads it: SetBody is taken to copy the body.
use regiboard.Base.{
  ℕ, ◌+◌, ◌*◌, ◌^◌, ◌≤◌, ◌<◌, ◌≡◌, refl, sym, subst, ap, ap₂, ◌∙◌, List, [], ◌∷◌, Bool, true, false,
  if◌then◌else◌, Option, none, some, length, arith,
}
use regiboard.Base.Text.{Text}
use regiboard.Rfb.Frames.{
  Screen, Constants, constants, frame_at, set_frame, get_frame, get_next_frame_id, frame_body,
  Prepared, returned, crash, prepare_bmp_frame, bind_to_fb_dev, Mode, new_screen,
}
use regiboard.Rfb.Color.{Quad}
use regiboard.Rfb.Color.Palette.{length-generate_palette}
use regiboard.Rfb.Frames.Binding.{Bound, Fresh, bind-Bound, bind-Fresh, new_screen-Fresh}
use regiboard.Rfb.Frames.Kept.{Kept, set_next-Kept}
use regiboard.Rfb.Frames.Switching.{set_next-Switched}
use regiboard.Rfb.Frames.Complete.{bitmap, prepare-bitmap}
use regiboard.Rfb.Requests.{Server, is_idle, send_frame}

-- The task is at work: it may have put anything into the buffer of the next frame.
abbrev pub scribbled : Text → Screen → Screen
scribbled bytes s =
    set_frame (get_next_frame_id s)
      (record (frame_at (get_next_frame_id s) s) { buff = some bytes }) s

-- The steps of the server and of its task, with the body of the response where a step is a request. The
-- memory of the screen changes as it likes: `src` is what the task has read of it.
pub data Step : Server → Option (Option Text) → Server → Type 0 where
  request : (v : Server) → Step v (some (send_frame v).0) (send_frame v).1
  work :
      (v w : Server) (bytes : Text)
      → v.task ≡ some false
      → length bytes ≡ v.screen.size + 1024
      → w ≡ record v { screen = scribbled bytes (v.screen) }
      → Step v none w
  finish :
      (v w : Server) (src : Text) (t : Screen) (done : Bool)
      → v.task ≡ some false
      → length src ≡ v.screen.size
      → (prepare_bmp_frame 1 src v.known v.screen).0 ≡ returned done t
      → w ≡ record {
        screen = t;
        known = some (prepare_bmp_frame 1 src v.known v.screen).1;
        task = some true;
      }
      → Step v none w

pub data Steps : Server → List (Option Text) → Server → Type 0 where
  stop : (v : Server) → Steps v [] v
  quiet :
      (u v w : Server) (sent : List (Option Text)) → Step u none v → Steps v sent w → Steps u sent w
  sends :
      (u v w : Server) (body : Option Text) (sent : List (Option Text))
      → Step u (some body) v
      → Steps v sent w
      → Steps u (body ∷ sent) w

abbrev screen_of : Screen → Prepared → Screen
screen_of s (returned done t) = t
screen_of s crash = s

module _ (base : Screen) (k : ℕ) (pixels : base.width * base.height ≡ 8 * k) (many : 4 ≤ k)
    (small : base.width * base.height * base.depth < 2 ^ 31)
    (full : length base.palette ≡ 256) where
  pub record Sound (v : Server) : Type 0 where
    pub kept : Kept base v.screen
    pub agree : constants v.known 1 v.screen ≡ constants none 1 v.screen

  bitmap-Kept : (s : Screen) (src : Text) → Kept base s → bitmap s src ≡ bitmap base src
  bitmap-Kept s src h = rw (h.width, h.height, h.depth, h.palette) refl

  agree-Kept :
      (s t : Screen) (known : Option Constants)
      → Kept s t
      → constants known 1 s ≡ constants none 1 s
      → constants known 1 t ≡ constants none 1 t
  unfolding constants
  agree-Kept s t none h e = refl
  agree-Kept s t (some c) h e =
      e
      ∙ ap₂ (λ (x y : ℕ). record { width = x; height = y; depth = 1 }) (sym h.width) (sym h.height)

  Kept-trans : (s t : Screen) → Kept base s → Kept s t → Kept base t
  Kept-trans s t h k' = record {
    bound = k'.bound;
    valid = k'.valid;
    width = k'.width ∙ h.width;
    height = k'.height ∙ h.height;
    depth = k'.depth ∙ h.depth;
    size = k'.size ∙ h.size;
    palette = k'.palette ∙ h.palette;
  }

  -- The task does not touch the frame that is shown.
  pub get_frame-scribbled :
      (v : Server) (bytes : Text)
      → Sound v
      → get_frame (scribbled bytes (v.screen)) ≡ get_frame v.screen
  unfolding get_frame
  get_frame-scribbled v bytes h =
      let s = v.screen in
      let same =
        set_next-Switched s (record (frame_at (get_next_frame_id s) s) { buff = some bytes })
          h.kept.valid in
      ap (λ (n : ℕ). frame_at n (scribbled bytes s)) same.next ∙ same.kept

  scribbled-Sound :
      (v : Server) (bytes : Text)
      → length bytes ≡ v.screen.size + 1024
      → Sound v
      → Sound (record v { screen = scribbled bytes (v.screen) })
  scribbled-Sound v bytes room h =
      let s = v.screen in
      let next =
        set_next-Kept s bytes (frame_at (get_next_frame_id s) s).size h.kept.valid h.kept.bound
          room in
      record {
        kept = Kept-trans s (scribbled bytes s) h.kept next;
        agree = agree-Kept s (scribbled bytes s) v.known next h.agree;
      }

  -- A finished task shows the bitmap of the memory, and keeps the screen bound in its mode.
  pub finished :
      (v : Server) (src : Text) (t : Screen) (done : Bool)
      → length src ≡ v.screen.size
      → (prepare_bmp_frame 1 src v.known v.screen).0 ≡ returned done t
      → Sound v
      → Kept v.screen t × (frame_body (get_frame t) ≡ some (bitmap base src))
  finished v src t done whole e h =
      let s = v.screen in
      let here : s.width * s.height ≡ 8 * k = rw (h.kept.width, h.kept.height) pixels in
      let fits : s.width * s.height * s.depth < 2 ^ 31 =
        rw (h.kept.width, h.kept.height, h.kept.depth) small in
      let palette : length s.palette ≡ 256 = rw h.kept.palette full in
      let (t', made, shown, kept) =
        prepare-bitmap s src k here many h.kept.valid palette h.kept.bound fits whole v.known
          h.agree in
      let same : t' ≡ t = ap (screen_of s) (sym made ∙ e) in
      (
        subst (Kept s) same kept,
        ap (λ (u : Screen). frame_body (get_frame u)) (sym same)
            ∙ shown
            ∙ ap some (bitmap-Kept s src h.kept),
      )

  finish-Sound :
      (v : Server) (src : Text) (t : Screen) (done : Bool)
      → length src ≡ v.screen.size
      → (prepare_bmp_frame 1 src v.known v.screen).0 ≡ returned done t
      → Sound v
      → Sound (record {
        screen = t;
        known = some (prepare_bmp_frame 1 src v.known v.screen).1;
        task = some true;
      })
  unfolding prepare_bmp_frame constants
  finish-Sound v src t done whole e h =
      let s = v.screen in
      let next = (finished v src t done whole e h).0 in
      record {
        kept = Kept-trans s t h.kept next;
        agree = agree-Kept s t (some (constants v.known 1 s)) next h.agree;
      }

  task-Sound :
      (v : Server) (b : Bool) → Sound v → Sound (if b then record v { task = some false } else v)
  task-Sound v true h = record { kept = h.kept; agree = h.agree }
  task-Sound v false h = h

  pub Step-Sound : (v w : Server) (o : Option (Option Text)) → Step v o w → Sound v → Sound w
  unfolding send_frame
  Step-Sound v w o (request v') h = task-Sound v (is_idle v.task) h
  Step-Sound v w o (work v' w' bytes busy room e) h = rw e (scribbled-Sound v bytes room h)
  Step-Sound v w o (finish v' w' src t done busy whole e e') h =
      rw e' (finish-Sound v src t done whole e h)

-- The server behind the start of main, with the screen that is bound.
abbrev pub started : Screen → Server
started s = record { screen = s; known = none; task = none }

pub started-empty : (s : Screen) → Bound s → Fresh s → frame_body (get_frame s) ≡ some []
unfolding get_frame frame_at frame_body
started-empty s b fresh = rw (fresh.first, fresh.empty, b.has_0) refl

started-Sound :
    (s : Screen) (k : ℕ) (pixels : s.width * s.height ≡ 8 * k) (many : 4 ≤ k)
    (small : s.width * s.height * s.depth < 2 ^ 31) (full : length s.palette ≡ 256)
    → Bound s
    → Fresh s
    → Sound s k pixels many small full (started s)
started-Sound s k pixels many small full b fresh = record {
  kept = record {
    bound = b;
    valid = omega (arith, fresh.first);
    width = refl;
    height = refl;
    depth = refl;
    size = refl;
    palette = refl;
  };
  agree = refl;
}

-- The palette of a screen that has been bound.
pub length-palette :
    (junk : ℕ → Text) (modes : ℕ → Option Mode) (off : ℕ) (s : Screen)
    → bind_to_fb_dev junk modes (new_screen off) ≡ (true, s)
    → Fresh s × (length s.palette ≡ 256)
length-palette junk modes off s e =
    let fresh : Fresh s =
      subst (λ (r : Bool × Screen). Fresh r.1) e
        (bind-Fresh junk modes (new_screen off) (new_screen-Fresh off)) in
    (fresh, ap (length {A = Quad}) fresh.own ∙ length-generate_palette)

pub bound-Sound :
    (junk : ℕ → Text) (modes : ℕ → Option Mode) (off k : ℕ) (s : Screen)
    → ((n : ℕ) → length (junk n) ≡ n)
    → (e : bind_to_fb_dev junk modes (new_screen off) ≡ (true, s))
    → (pixels : s.width * s.height ≡ 8 * k) → (many : 4 ≤ k)
    → (small : s.width * s.height * s.depth < 2 ^ 31)
    → Sound s k pixels many small (length-palette junk modes off s e).1 (started s)
bound-Sound junk modes off k s fits e pixels many small =
    let is_bound : Bound s =
      subst (λ (r : Bool × Screen). Bound r.1) e
        (bind-Bound junk modes (new_screen off) fits (ap (λ (r : Bool × Screen). r.0) e)) in
    started-Sound s k pixels many small (length-palette junk modes off s e).1 is_bound
      (length-palette junk modes off s e).0

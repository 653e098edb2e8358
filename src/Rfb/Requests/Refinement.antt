-- ===== src/Rfb/Requests/Refinement.antt =====
-- What a client of src/utils/regirfb/main.cpp may rely on: a picture of the screen that is replaced as a
-- whole, and the server with its task and its two frames as an implementation of it, in the single steps of
-- Serving.antt.
use regiboard.Base.{
  ℕ, ◌*◌, ◌^◌, ◌≤◌, ◌<◌, ◌≡◌, refl, subst, ap, ◌∙◌, List, [], ◌∷◌, Bool, true, false, if◌then◌else◌,
  Option, none, some, length,
}
use regiboard.Base.Text.{Text}
use regiboard.Rfb.Frames.{Screen, get_frame, frame_body, Mode, bind_to_fb_dev, new_screen}
use regiboard.Rfb.Frames.Complete.{bitmap}
use regiboard.Rfb.Requests.{Server, is_idle, send_frame}
use regiboard.Rfb.Requests.Serving.{
  Step, request, work, finish, Steps, stop, quiet, sends, Sound, Step-Sound, get_frame-scribbled,
  finished, started, length-palette, bound-Sound, started-empty,
}

-- The abstract server: a picture, which a request gets, and which changes only to the bitmap of a memory of
-- the screen `base`. Its runs, from a picture on, with the bodies that are sent.
pub data Album (base : Screen) : Option Text → List (Option Text) → Type 0 where
  closed : (picture : Option Text) → Album base picture []
  shown :
      (picture : Option Text) (sent : List (Option Text))
      → Album base picture sent
      → Album base picture (picture ∷ sent)
  replaced :
      (picture : Option Text) (src : Text) (sent : List (Option Text))
      → Album base (some (bitmap base src)) sent
      → Album base picture sent

-- The picture that the server shows.
abbrev pub picture_of : Server → Option Text
picture_of v = frame_body (get_frame v.screen)

abbrev emitted : Option (Option Text) → List (Option Text) → List (Option Text)
emitted none sent = sent
emitted (some body) sent = body ∷ sent

picture_of-task :
    (v : Server) (b : Bool)
    → picture_of (if b then record v { task = some false } else v) ≡ picture_of v
picture_of-task v true = refl
picture_of-task v false = refl

module _ (base : Screen) (k : ℕ) (pixels : base.width * base.height ≡ 8 * k) (many : 4 ≤ k)
    (small : base.width * base.height * base.depth < 2 ^ 31)
    (full : length base.palette ≡ 256) where
  -- A step of the server is a step of the abstract one, or none.
  Step-Album :
      (v w : Server) (o : Option (Option Text)) (sent : List (Option Text))
      → Step v o w
      → Sound base k pixels many small full v
      → Album base (picture_of w) sent
      → Album base (picture_of v) (emitted o sent)
  unfolding send_frame
  Step-Album v w o sent (request v') h later =
      shown (picture_of v) sent
        (subst (λ (p : Option Text). Album base p sent) (picture_of-task v (is_idle v.task)) later)
  Step-Album v w o sent (work v' w' bytes busy room e) h later =
      subst (λ (p : Option Text). Album base p sent)
        (ap picture_of e
          ∙ ap frame_body (get_frame-scribbled base k pixels many small full v bytes h))
        later
  Step-Album v w o sent (finish v' w' src t done busy whole e e') h later =
      replaced (picture_of v) src sent (
        subst (λ (p : Option Text). Album base p sent)
          (ap picture_of e' ∙ (finished base k pixels many small full v src t done whole e h).1)
          later)

  Steps-Album :
      (v w : Server) (sent : List (Option Text))
      → Steps v sent w
      → Sound base k pixels many small full v
      → Album base (picture_of v) sent
  Steps-Album v w sent (stop v') h = closed (picture_of v)
  Steps-Album u w sent (quiet u' v w' sent' step steps) h =
      Step-Album u v none sent' step h
        (Steps-Album v w sent' steps (Step-Sound base k pixels many small full u v none step h))
  Steps-Album u w sent (sends u' v w' body sent' step steps) h =
      Step-Album u v (some body) sent' step h (
        Steps-Album v w sent' steps
          (Step-Sound base k pixels many small full u v (some body) step h))

-- The screen has been bound, in a mode with at least 32 pixels in groups of 8 whose memory is smaller than
-- 2^31 bytes. In every sequence of requests, of writes of the task into its frame and of ends of the task,
-- where each of them is a single step, no request falls into SwitchToNextFrame, and SetBody copies the body:
-- the bodies that are sent are those of a run of the abstract server, whose picture is empty at first and is
-- replaced only as a whole, by the bitmap of a memory of the screen.
pub steps-Album :
    (junk : ℕ → Text) (modes : ℕ → Option Mode) (off k : ℕ) (s : Screen) (w : Server)
    (sent : List (Option Text))
    → ((n : ℕ) → length (junk n) ≡ n)
    → bind_to_fb_dev junk modes (new_screen off) ≡ (true, s)
    → s.width * s.height ≡ 8 * k
    → 4 ≤ k
    → s.width * s.height * s.depth < 2 ^ 31
    → Steps (started s) sent w
    → Album s (some []) sent
steps-Album junk modes off k s w sent fits e pixels many small steps =
    let known = length-palette junk modes off s e in
    let sound = bound-Sound junk modes off k s fits e pixels many small in
    subst (λ (p : Option Text). Album s p sent) (started-empty s sound.kept.bound known.0)
      (Steps-Album s k pixels many small known.1 (started s) w sent steps sound)

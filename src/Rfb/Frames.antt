-- ===== src/Rfb/Frames.antt =====
-- class Screen of src/utils/regirfb/framebuf.cpp.
pub mod Switching
pub mod Binding
pub mod Kept
pub mod Complete
pub mod Shown
use mathlib.Core.Option
use regiboard.Base.{
  ℕ, zero, suc, ◌+◌, ◌-◌, ◌*◌, ◌/◌, ◌%◌, ◌^◌, List, [], ◌∷◌, ◌++◌, Bool, true, false, not, ◌&&◌,
  ◌||◌, if◌then◌else◌, ltb, leb, ◌==◌, length, take, drop, overlay, Option, none, some,
}
use regiboard.Base.Text.{Text}
use regiboard.Rfb.Color.{Quad, generate_palette, Converted, refused, runaway, converted, convert}
use regiboard.Rfb.Bitmap.{header_size, info_size, palette_size, head_bytes}

-- Screen::Frame; none is a null pointer.
pub record Frame : Type 0 where
  pub buff : Option Text
  pub size : ℕ

pub record Screen : Type 0 where
  pub width : ℕ
  pub height : ℕ
  pub depth : ℕ
  pub is_open : Bool
  pub size : ℕ
  pub frame_off : ℕ
  pub last_up : ℕ
  pub palette : List Quad
  pub frame_0 : Frame
  pub frame_1 : Frame
  pub cur_frame : ℕ

abbrev pub no_frame : Frame
no_frame = record { buff = none; size = 0 }

-- Screen::Screen(); `off` is what the offset holds, which is not set.
unfoldable pub new_screen : ℕ → Screen
new_screen off = record {
  width = 0;
  height = 0;
  depth = 0;
  is_open = false;
  size = 0;
  frame_off = off;
  last_up = 0;
  palette = generate_palette;
  frame_0 = no_frame;
  frame_1 = no_frame;
  cur_frame = 0;
}

-- What the ioctl for the video mode gives.
pub record Mode : Type 0 where
  pub xres : ℕ
  pub yres : ℕ
  pub bits_per_pixel : ℕ

-- Screen::UnBind
unfoldable pub unbind : Screen → Screen
unbind s = if s.size == 0 then s else record s { is_open = false; size = 0 }

-- Screen::GetVideoMode; none is an error of the ioctl.
unfoldable pub get_video_mode : Option Mode → Screen → Bool × Screen
get_video_mode none s = (false, s)
get_video_mode (some m) s =
    (true, record s { width = m.xres; height = m.yres; depth = m.bits_per_pixel / 8 % 256 })

unfoldable pub is_wrong_depth : ℕ → Bool
is_wrong_depth d = not (d == 3) && not (d == 4)

-- The loop of BindToFbDev with the tries that are left; the modes are those of the tries to come.
unfoldable pub bind_loop : ℕ → (ℕ → Option Mode) → Screen → Bool × Screen
bind_loop zero modes s = (false, s)
bind_loop (suc left) modes s =
    let s' = (get_video_mode (modes 0) s).1 in
    let later = bind_loop left (λ n. modes (suc n)) s' in
    if is_wrong_depth s'.depth then later else (true, s')

abbrev pub bind_tries : ℕ
bind_tries = 29

-- What BindToFbDev does behind the loop; `junk` is what a new array holds.
unfoldable pub map_frames : (ℕ → Text) → Bool × Screen → Bool × Screen
map_frames junk (false, s) = (false, s)
map_frames junk (true, s) =
    let size = s.width * s.height * s.depth % 2 ^ 32 in
    (
      true,
      record s {
        size = size;
        frame_0 = record (s.frame_0) { buff = some (junk (size + 1024)) };
        frame_1 = record (s.frame_1) { buff = some (junk (size + 1024)) };
      },
    )

-- BindToFbDev
unfoldable pub bind_to_fb_dev : (ℕ → Text) → (ℕ → Option Mode) → Screen → Bool × Screen
bind_to_fb_dev junk modes s =
    map_frames junk (bind_loop bind_tries modes (record (unbind s) { is_open = true }))

-- FrameTimeout; `now` is the time in nanoseconds.
unfoldable pub frame_timeout : ℕ → Screen → Bool × Screen
frame_timeout now s =
    if ltb ((now + 2 ^ 64 - s.last_up) % 2 ^ 64) 250000000
    then (false, s)
    else (true, record s { last_up = now })

-- GetNextFrameId
unfoldable pub get_next_frame_id : Screen → ℕ
get_next_frame_id s = if s.cur_frame == 0 then 1 else 0

-- SwitchToNextFrame
unfoldable pub switch_to_next_frame : Screen → Screen
switch_to_next_frame s =
    let next = (s.cur_frame + 1) % 256 in record s { cur_frame = if ltb 1 next then 0 else next }

unfoldable pub frame_at : ℕ → Screen → Frame
frame_at n s = if n == 0 then s.frame_0 else s.frame_1

unfoldable pub set_frame : ℕ → Frame → Screen → Screen
set_frame n f s = if n == 0 then record s { frame_0 = f } else record s { frame_1 = f }

-- GetFrame
unfoldable pub get_frame : Screen → Frame
get_frame s = frame_at s.cur_frame s

-- The body that SendFrame gives to a response.
unfoldable pub frame_body : Frame → Option Text
frame_body f = Option.map (take f.size) f.buff

-- The constants of PrepareBMPFrame, which are set by its first call for all the later ones.
pub record Constants : Type 0 where
  pub width : ℕ
  pub height : ℕ
  pub depth : ℕ

unfoldable pub constants : Option Constants → ℕ → Screen → Constants
constants none bmp_depth s = record { width = s.width; height = s.height; depth = bmp_depth }
constants (some c) bmp_depth s = c

abbrev pub head_size : ℕ
head_size = header_size + info_size + palette_size

-- How PrepareBMPFrame ends: it returns, or it writes through a null pointer or out of a buffer, or reads
-- behind the memory of the screen.
pub data Prepared : Type 0 where
  returned : Bool → Screen → Prepared
  crash : Prepared

-- The end of PrepareBMPFrame, behind the conversion of the pixels to `bytes`.
unfoldable pub finish_frame : ℕ → Text → Screen → Screen
finish_frame body bytes s =
    let off = (head_size + body) % 2 ^ 32 in
    switch_to_next_frame (
      set_frame (get_next_frame_id s) (record { buff = some bytes; size = off })
        (record s { frame_off = off }))

-- What PrepareBMPFrame does with a conversion of the pixels `src` of the screen, whose result it does not
-- look at, into the buffer `bytes` behind its head.
unfoldable pub store_pixels : ℕ → Text → Text → Screen → Converted → Prepared
store_pixels body bytes src s refused = returned true (finish_frame body bytes s)
store_pixels body bytes src s runaway = crash
store_pixels body bytes src s (converted pixels) =
    if ltb (length bytes) (head_size + body / 8 * 8) || ltb (length src) (s.depth * (body / 8 * 8))
    then crash
    else returned true (finish_frame body (take head_size bytes ++ pixels) s)

unfoldable pub convert_frame : ℕ → Text → Text → Screen → Prepared
convert_frame body bytes src s =
    store_pixels body bytes src s (convert s.depth (drop head_size bytes) src body)

unfoldable pub prepare_into : Constants → Text → Option Text → Screen → Prepared
prepare_into c src none s = crash
prepare_into c src (some bytes) s =
    let head = head_bytes c.width c.height c.depth s.palette in
    let bytes' = overlay head bytes in
    let written = record (frame_at (get_next_frame_id s) s) { buff = some bytes' } in
    let unknown = returned false (set_frame (get_next_frame_id s) written s) in
    if ltb (length bytes) (length head)
    then crash
    else if is_wrong_depth s.depth
    then unknown
    else convert_frame (c.width * c.depth * c.height % 2 ^ 32) bytes' src s

-- PrepareBMPFrame over the memory `src` of the screen, and the constants for the next call.
unfoldable pub prepare_bmp_frame : ℕ → Text → Option Constants → Screen → Prepared × Constants
prepare_bmp_frame bmp_depth src known s =
    let c = constants known bmp_depth s in
    (prepare_into c src (frame_at (get_next_frame_id s) s).buff s, c)

-- ===== src/Rfb/Runs.antt =====
-- Runs of the model of src/utils/regirfb at concrete inputs.
use regiboard.Base.{
  ℕ, zero, suc, ◌+◌, ◌*◌, ◌<◌, ◌≡◌, inl, refl, [], ◌∷◌, ◌++◌, true, false, Option, none, some,
  length-replicate, replicate, arith, bytes_eq,
}
use regiboard.Base.Text.{Text, codes}
use regiboard.Rfb.Color.{Quad, generate_palette}
use regiboard.Rfb.Color.Palette.{length-generate_palette}
use regiboard.Rfb.Frames.{
  Screen, Frame, Mode, new_screen, unbind, get_video_mode, is_wrong_depth, bind_loop, map_frames,
  bind_to_fb_dev, get_frame, frame_body, returned, prepare_bmp_frame,
}
use regiboard.Rfb.Frames.Binding.{Bound, InMode, Unready, bind-found}
use regiboard.Rfb.Frames.Kept.{Kept}
use regiboard.Rfb.Frames.Complete.{bitmap, prepare-bitmap}
use regiboard.Rfb.Frames.Shown.{color_at}
use regiboard.Rfb.Requests.{
  Server, send_frame, is_idle, get_device_info, read_device, update, update_command, mouse_calls,
  is_one, pos, negsuc, coords_message, print_int, send, header_200, read_words, read_word, board_of,
  find, holds, starts, json_pair, extractions,
}
use regiboard.Rfb.Requests.Command.{argument, update_command-quote}
use regiboard.Rfb.Requests.Refinement.{Album, steps-Album}
use regiboard.Rfb.Requests.Serving.{request, finish, Steps, stop, quiet, sends, started}

-- A screen of 8 times 4 pixels of three bytes.
abbrev mode : Mode
mode = record { xres = 8; yres = 4; bits_per_pixel = 24 }

abbrev junk : ℕ → Text
junk n = replicate n 170

abbrev blank : Frame
blank = record { buff = some (replicate 1120 170); size = 0 }

abbrev screen : Screen
screen = record {
  width = 8;
  height = 4;
  depth = 3;
  is_open = true;
  size = 96;
  frame_off = 0;
  last_up = 0;
  palette = generate_palette;
  frame_0 = blank;
  frame_1 = blank;
  cur_frame = 0;
}

screen_lem : bind_to_fb_dev junk (λ n. some mode) (new_screen 0) ≡ (true, screen)
unfolding bind_to_fb_dev new_screen unbind get_video_mode is_wrong_depth bind_loop map_frames
screen_lem = refl

screen-Bound : Bound screen
screen-Bound = record {
  known_depth = inl refl;
  size_lem = refl;
  buff_0 = replicate 1120 170;
  has_0 = refl;
  room_0 = refl;
  buff_1 = replicate 1120 170;
  has_1 = refl;
  room_1 = refl;
}

abbrev red_pixels : Text
red_pixels = replicate 96 255

prepare-bitmap_example :
    (t : Screen) × ((prepare_bmp_frame 1 red_pixels none screen).0 ≡ returned true t)
    × (frame_body (get_frame t) ≡ some (bitmap screen red_pixels))
    × Kept screen t
prepare-bitmap_example =
    prepare-bitmap screen red_pixels 4 refl (omega arith) (omega arith) length-generate_palette
      screen-Bound (omega arith) refl none refl

abbrev red : Quad
red = color_at 3 red_pixels (1 * 8 + 5)

-- The third try finds the mode.
abbrev late : ℕ → Option Mode
late zero = none
late (suc zero) = none
late (suc (suc n)) = some mode

late-Unready : (i : ℕ) → i < 2 → Unready (late i)
late-Unready zero h = tt
late-Unready (suc zero) h = tt
late-Unready (suc (suc i)) h = absurd (omega arith)

bind-found_example :
    ((bind_to_fb_dev junk late (new_screen 0)).0 ≡ true)
    × InMode (bind_to_fb_dev junk late (new_screen 0)).1 mode
unfolding is_wrong_depth
bind-found_example = bind-found junk late 0 2 mode (omega arith) late-Unready refl refl

abbrev asked : Server
asked = record { screen = screen; known = none; task = some false }

abbrev after : Screen
after = prepare-bitmap_example.0

abbrev ready : Server
ready = record {
  screen = after;
  known = some (prepare_bmp_frame 1 red_pixels none screen).1;
  task = some true;
}

run_steps :
    Steps
      (started screen)
      (frame_body (get_frame screen) ∷ frame_body (get_frame after) ∷ [])
      (send_frame ready).1
unfolding send_frame is_idle
run_steps =
    sends (started screen) asked (send_frame ready).1 (frame_body (get_frame screen)) _
      (request (started screen))
      (quiet asked ready (send_frame ready).1 _
        (finish asked ready red_pixels after true refl refl prepare-bitmap_example.1 refl)
        (sends ready (send_frame ready).1 (send_frame ready).1 (frame_body (get_frame after)) []
          (request ready) (stop (send_frame ready).1)))

steps-Album_example :
    Album screen (some []) (frame_body (get_frame screen) ∷ frame_body (get_frame after) ∷ [])
steps-Album_example =
    steps-Album junk (λ n. some mode) 0 4 screen (send_frame ready).1 _
      (λ n. length-replicate n 170) screen_lem refl (omega arith) (omega arith) run_steps

update_command-quote_example :
    argument (update_command (codes "ftp://x" ++ b'\'' ∷ codes "; reboot '"))
    ≡ some (codes "ftp://x", codes "; reboot '" ++ codes "'")
update_command-quote_example =
    update_command-quote (codes "ftp://x") (codes "; reboot '") (ground arith)

update_test :
    update (codes "mouse" ∷ []) (record { x = pos 7; y = negsuc 1; s = pos 1; from = [] }) ≡ (
      true,
      send (record { mtype = 1; cmd = codes "got coords; x=7 y=-2 what=1"; result = codes "OK" })
          ∷ header_200
          ∷ [],
    )
unfolding update mouse_calls is_one coords_message print_int bytes_eq
update_test = refl

device_test :
    get_device_info (some (codes "quiet lcd=G1_VERTICAL board=1.2.3\n"))
    ≡ codes "{\"display\": {\"orientation\": \"vertical\"},\"board\": {\"id\": \"1.2.3\"}}"
unfolding get_device_info read_device read_words read_word board_of find holds starts json_pair
    extractions
device_test = refl

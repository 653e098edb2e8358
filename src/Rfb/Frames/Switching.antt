-- ===== src/Rfb/Frames/Switching.antt =====
-- The two frames of class Screen in src/utils/regirfb/framebuf.cpp.
use regiboard.Base.{
  ℕ, ◌*◌, ◌%◌, ◌^◌, ◌≤◌, ◌≡◌, subst, Bool, true, false, Option, none, some, arith, ltb, length,
  if◌then◌else◌, drop, overlay,
}
use regiboard.Base.Text.{Text}
use regiboard.Rfb.Color.{Converted, refused, runaway, converted, convert}
use regiboard.Rfb.Bitmap.{head_bytes}
use regiboard.Rfb.Frames.{
  Screen, Frame, Constants, constants, frame_at, set_frame, get_next_frame_id, switch_to_next_frame,
  is_wrong_depth, head_size, finish_frame, store_pixels, convert_frame, prepare_into,
  prepare_bmp_frame, Prepared, returned, crash,
}

-- A screen behind a call: the frame that was shown is as it was, and a finished frame is the other one.
pub record Switched (s : Screen) (done : Bool) (t : Screen) : Type 0 where
  pub kept : frame_at s.cur_frame t ≡ frame_at s.cur_frame s
  pub next : t.cur_frame ≡ (if done then get_next_frame_id s else s.cur_frame)
  pub valid : t.cur_frame ≤ 1
  pub palette : t.palette ≡ s.palette

abbrev Ends : Screen → Prepared → Type 0
Ends s (returned done t) = Switched s done t
Ends s crash = Unit

finish_frame-Switched :
    (s : Screen) (body : ℕ) (bytes : Text)
    → s.cur_frame ≤ 1
    → Switched s true (finish_frame body bytes s)
unfolding finish_frame switch_to_next_frame get_next_frame_id set_frame frame_at
finish_frame-Switched s body bytes h = record {
  kept = ground arith;
  next = ground arith;
  valid = ground arith;
  palette = ground arith;
}

-- A branch that may end in a crash.
guarded-Ends :
    (s t : Screen) (done b : Bool)
    → Switched s done t
    → Ends s (if b then crash else returned done t)
guarded-Ends s t done true h = tt
guarded-Ends s t done false h = h

store_pixels-Ends :
    (s : Screen) (body : ℕ) (bytes src : Text) (r : Converted)
    → s.cur_frame ≤ 1
    → Ends s (store_pixels body bytes src s r)
unfolding store_pixels
store_pixels-Ends s body bytes src refused h = finish_frame-Switched s body bytes h
store_pixels-Ends s body bytes src runaway h = tt
store_pixels-Ends s body bytes src (converted pixels) h =
    guarded-Ends s _ true _ (finish_frame-Switched s body _ h)

pub set_next-Switched :
    (s : Screen) (f : Frame)
    → s.cur_frame ≤ 1
    → Switched s false (set_frame (get_next_frame_id s) f s)
unfolding set_frame frame_at get_next_frame_id
set_next-Switched s f h = record {
  kept = ground arith;
  next = ground arith;
  valid = ground arith;
  palette = ground arith;
}

if-Ends :
    (s : Screen) (b : Bool) (p q : Prepared) → Ends s p → Ends s q → Ends s (if b then p else q)
if-Ends s true p q h k = h
if-Ends s false p q h k = k

prepare_into-Ends :
    (c : Constants) (src : Text) (o : Option Text) (s : Screen)
    → s.cur_frame ≤ 1
    → Ends s (prepare_into c src o s)
unfolding prepare_into convert_frame
prepare_into-Ends c src none s h = tt
prepare_into-Ends c src (some bytes) s h =
    let head = head_bytes c.width c.height c.depth s.palette in
    let body = c.width * c.depth * c.height % 2 ^ 32 in
    let written = record (frame_at (get_next_frame_id s) s) { buff = some (overlay head bytes) } in
    let unknown = set_frame (get_next_frame_id s) written s in
    let known = convert_frame body (overlay head bytes) src s in
    if-Ends s (ltb (length bytes) (length head)) crash
      (if is_wrong_depth s.depth then returned false unknown else known) tt
      (if-Ends s (is_wrong_depth s.depth) (returned false unknown) known
        (set_next-Switched s written h)
        (store_pixels-Ends s body (overlay head bytes) src
          (convert s.depth (drop head_size (overlay head bytes)) src body) h))

-- PrepareBMPFrame never touches the frame that is shown, whatever it returns; when it returns true, the
-- other frame is the one that is shown, and when it returns false, the same is.
pub prepare-Switched :
    (bmp_depth : ℕ) (src : Text) (known : Option Constants) (s t : Screen) (done : Bool)
    → s.cur_frame ≤ 1
    → (prepare_bmp_frame bmp_depth src known s).0 ≡ returned done t
    → Switched s done t
unfolding prepare_bmp_frame
prepare-Switched bmp_depth src known s t done h e =
    subst (Ends s) e (prepare_into-Ends (constants known bmp_depth s) src _ s h)

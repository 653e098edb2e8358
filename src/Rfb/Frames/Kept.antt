-- ===== src/Rfb/Frames/Kept.antt =====
-- What a call leaves of a screen of src/utils/regirfb/framebuf.cpp.
use regiboard.Base.{ℕ, ◌+◌, ◌%◌, ◌≤◌, ◌≡◌, refl, Bool-cases, ◌==◌, some, inl, inr, length, arith}
use regiboard.Base.Text.{Text}
use regiboard.Rfb.Frames.{
  Screen, Frame, set_frame, get_next_frame_id, switch_to_next_frame, finish_frame,
}
use regiboard.Rfb.Frames.Binding.{Bound}

-- The screen is bound in the same mode, with the same palette.
pub record Kept (s t : Screen) : Type 0 where
  pub bound : Bound t
  pub valid : t.cur_frame ≤ 1
  pub width : t.width ≡ s.width
  pub height : t.height ≡ s.height
  pub depth : t.depth ≡ s.depth
  pub size : t.size ≡ s.size
  pub palette : t.palette ≡ s.palette

-- A buffer of the right size for the next frame.
pub set_next-Kept :
    (s : Screen) (bytes : Text) (size : ℕ)
    → s.cur_frame ≤ 1
    → Bound s
    → length bytes ≡ s.size + 1024
    → Kept s (set_frame (get_next_frame_id s) (record { buff = some bytes; size = size }) s)
unfolding set_frame get_next_frame_id
set_next-Kept s bytes size h b room = elim (Bool-cases (s.cur_frame == 0)) [
  | inl e ↦ rw e (record {
    bound = record {
      known_depth = b.known_depth;
      size_lem = b.size_lem;
      buff_0 = b.buff_0;
      has_0 = b.has_0;
      room_0 = b.room_0;
      buff_1 = bytes;
      has_1 = refl;
      room_1 = room;
    };
    valid = h;
    width = refl;
    height = refl;
    depth = refl;
    size = refl;
    palette = refl;
  })
  | inr e ↦ rw e (record {
    bound = record {
      known_depth = b.known_depth;
      size_lem = b.size_lem;
      buff_0 = bytes;
      has_0 = refl;
      room_0 = room;
      buff_1 = b.buff_1;
      has_1 = b.has_1;
      room_1 = b.room_1;
    };
    valid = h;
    width = refl;
    height = refl;
    depth = refl;
    size = refl;
    palette = refl;
  })
]

-- The switch to the next frame.
switched-Kept :
    (s t : Screen) (off : ℕ)
    → Kept s t
    → Kept s (switch_to_next_frame (record t { frame_off = off }))
unfolding switch_to_next_frame
switched-Kept s t off k = record {
  bound = record {
    known_depth = k.bound.known_depth;
    size_lem = k.bound.size_lem;
    buff_0 = k.bound.buff_0;
    has_0 = k.bound.has_0;
    room_0 = k.bound.room_0;
    buff_1 = k.bound.buff_1;
    has_1 = k.bound.has_1;
    room_1 = k.bound.room_1;
  };
  valid = ground arith;
  width = k.width;
  height = k.height;
  depth = k.depth;
  size = k.size;
  palette = k.palette;
}

set_frame-off :
    (n off : ℕ) (f : Frame) (s : Screen)
    → set_frame n f (record s { frame_off = off }) ≡ record (set_frame n f s) { frame_off = off }
unfolding set_frame
set_frame-off n off f s = elim (Bool-cases (n == 0)) [ inl e ↦ rw e refl | inr e ↦ rw e refl ]

pub finish_frame-Kept :
    (s : Screen) (body : ℕ) (bytes : Text)
    → s.cur_frame ≤ 1
    → Bound s
    → length bytes ≡ s.size + 1024
    → Kept s (finish_frame body bytes s)
unfolding finish_frame
finish_frame-Kept s body bytes h b room =
    rw
      (set_frame-off (get_next_frame_id s) ((1078 + body) % 4294967296)
        (record { buff = some bytes; size = (1078 + body) % 4294967296 }) s)
      (switched-Kept s _ _ (set_next-Kept s bytes ((1078 + body) % 4294967296) h b room))

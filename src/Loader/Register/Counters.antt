-- ===== src/Loader/Register/Counters.antt =====
-- The counters of the boards in src/utils/regiloader/regiloader.cpp: what RegisterBoard makes of them and
-- what the addresses made of them look like.
use regiboard.Base.{
  ℕ, zero, suc, ◌+◌, ◌*◌, ◌%◌, ◌/◌, ◌^◌, ◌≤◌, ◌<◌, ◌≡◌, ◌≢◌, refl, ap, ◌∙◌, ◌++◌, length,
  length-append, ltb, ltb-true, ltb-false, arith, Bool-cases, inl, inr,
}
use regiboard.Base.Text.{Text, codes, hex_pair}
use regiboard.Loader.State.{SysState, get_hw_addr}
use regiboard.Loader.Register.{next_device}

-- The numbers of the boards of a batch are 1 to 255.
pub record IsCounted (s : SysState) : Type 0 where
  pub above : 1 ≤ s.device
  pub below : s.device < 256

-- The place of a board in the sequence of all boards.
abbrev pub serial : SysState → ℕ
serial s = s.batch * 255 + s.device

abbrev pub devices_after : ℕ → SysState → SysState
devices_after zero s = s
devices_after (suc n) s = devices_after n (next_device s)

-- `t` is the state with the next board: its number is in range, and it comes right behind that of `s`.
pub record Advances (s t : SysState) (n : ℕ) : Type 0 where
  pub counted : IsCounted t
  pub behind : serial t ≡ serial s + n
  pub stand : t.stand ≡ s.stand
  pub batch : t.batch ≤ s.batch + n

next_device-Advances :
    (s : SysState) → IsCounted s → s.batch + 1 < 2 ^ 32 → Advances s (next_device s) 1
unfolding next_device
next_device-Advances s c room =
    let e : (s.device + 1) % 2 ^ 32 ≡ s.device + 1 = omega arith in
    let f : (s.batch + 1) % 2 ^ 32 ≡ s.batch + 1 = omega arith in
    rw (e, f)
      (elim (Bool-cases (ltb (s.device + 1) 256)) [
        | inl fits ↦ rw fits (record {
          counted = record { above = omega arith; below = ground arith };
          behind = omega arith;
          stand = refl;
          batch = omega arith;
        })
        | inr full ↦
            let g : s.device + 1 ≡ 256 = ground arith in
            rw full (record {
              counted = record { above = omega arith; below = omega arith };
              behind = omega arith;
              stand = refl;
              batch = omega arith;
            })
      ])

-- The n-th registration behind counters in range leaves counters in range, and the number of the board
-- in the sequence of all boards has grown by n, as long as the count of the batches does not wrap.
pub devices_after-Advances :
    (n : ℕ) (s : SysState) → IsCounted s → s.batch + n < 2 ^ 32 → Advances s (devices_after n s) n
devices_after-Advances zero s c room = record {
  counted = c;
  behind = omega arith;
  stand = refl;
  batch = omega arith;
}
devices_after-Advances (suc n) s c room =
    let first = next_device-Advances s c (omega arith) in
    let rest =
      devices_after-Advances n (next_device s) first.counted (omega (arith, first.batch)) in
    record {
      counted = rest.counted;
      behind = omega (arith, first.behind, rest.behind);
      stand = rest.stand ∙ first.stand;
      batch = omega (arith, first.batch, rest.batch);
    }

-- No two boards of a stand get the same batch and number, as long as the count of the batches does not
-- wrap.
pub devices_after-differ :
    (m n : ℕ) (s : SysState)
    → IsCounted s
    → s.batch + n < 2 ^ 32
    → m < n
    → (devices_after m s).batch ≡ (devices_after n s).batch
    → (devices_after m s).device ≢ (devices_after n s).device
devices_after-differ m n s c room h same_batch same_device = omega (
  arith,
  (devices_after-Advances m s c (omega arith)).behind,
  (devices_after-Advances n s c room).behind,
  ap (λ (b : ℕ). b * 255) same_batch,
)

length-hex_pair : (n : ℕ) → n < 256 → length (hex_pair n) ≡ 2
length-hex_pair n h = elim (Bool-cases (ltb n 16)) [
  | inl low ↦ rw low refl
  | inr high ↦ rw (high, ltb-true (n / 16) 16 (omega arith)) refl
]

length-hex_pair_three : (n : ℕ) → 256 ≤ n → n < 4096 → length (hex_pair n) ≡ 3
length-hex_pair_three n h k =
    rw
      (
        ltb-false n 16 (omega arith),
        ltb-false (n / 16) 16 (omega arith),
        ltb-true (n / 16 / 16) 16 (omega arith),
      )
      refl

length-address :
    (a b c : Text)
    → length (codes "00:60:2F:" ++ a ++ codes ":" ++ b ++ codes ":" ++ c)
      ≡ 11 + length a + length b + length c
length-address a b c = omega (
  arith,
  length-append a (codes ":"),
  length-append (a ++ codes ":") b,
  length-append (a ++ codes ":" ++ b) (codes ":"),
  length-append (a ++ codes ":" ++ b ++ codes ":") c,
)

length-get_hw_addr :
    (s : SysState)
    → length (get_hw_addr s)
      ≡ 11 + length (hex_pair s.stand) + length (hex_pair s.batch) + length (hex_pair s.device)
length-get_hw_addr s = length-address (hex_pair s.stand) (hex_pair s.batch) (hex_pair s.device)

-- For a stand below 256 and a board in range the address has the 17 characters of six pairs of digits as
-- long as the batch is below 256, and one too many from there to 4095.
pub get_hw_addr-length :
    (s : SysState)
    → s.stand < 256
    → IsCounted s
    → (s.batch < 256 → length (get_hw_addr s) ≡ 17)
      × (256 ≤ s.batch → s.batch < 4096 → length (get_hw_addr s) ≡ 18)
get_hw_addr-length s h c = (
  λ low. omega (
    arith,
    length-get_hw_addr s,
    length-hex_pair s.stand h,
    length-hex_pair s.batch low,
    length-hex_pair s.device c.below,
  ),
  λ high top. omega (
    arith,
    length-get_hw_addr s,
    length-hex_pair s.stand h,
    length-hex_pair_three s.batch high top,
    length-hex_pair s.device c.below,
  ),
)

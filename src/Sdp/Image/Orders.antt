-- ===== src/Sdp/Image/Orders.antt =====
-- The turns of the loop over the commands of a DCD in src/utils/regiloader/sdp.cpp.
use regiboard.Base.{
  ℕ, zero, suc, ◌+◌, ◌-◌, ◌*◌, ◌/◌, ◌≤◌, ◌≡◌, refl, sym, ◌∙◌, List, [], ◌∷◌, Bool, true, false,
  ◌==◌, ◌&&◌, if◌then◌else◌, ltb-false, arith,
}
use regiboard.Sdp.Image.{u16_at, u32_at, DcdPair, pairs_loop, init_pairs, commands_loop}

commands_loop-end :
    (m : ℕ → ℕ) (fuel list_end p : ℕ) → list_end ≤ p → commands_loop m fuel list_end p ≡ []
unfolding commands_loop
commands_loop-end m zero list_end p le = refl
commands_loop-end m (suc fuel) list_end p le = rw (ltb-false p list_end le) refl

if-moves :
    (b : Bool) (p : ℕ) (x y : List DcdPair × ℕ) → p ≤ x.1 → p ≤ y.1 → p ≤ (if b then x else y).1
if-moves true p x y h k = h
if-moves false p x y h k = k

pairs_loop-moves : (m : ℕ → ℕ) (k p : ℕ) → p ≤ (pairs_loop m k p).1
unfolding pairs_loop
pairs_loop-moves m zero p = omega arith
pairs_loop-moves m (suc k) p =
    let rest = pairs_loop m k (p + 8) in
    let later : p ≤ rest.1 = omega (arith, pairs_loop-moves m k (p + 8)) in
    let here : p ≤ p = omega arith in
    if-moves ((u32_at m p == 0) && (u32_at m (p + 4) == 0)) p ([], p)
      (record { addr = u32_at m p; val_mask = u32_at m (p + 4) } ∷ rest.0, rest.1) here later

-- Every turn of the loop of InitDCDListOfCommands moves by four bytes at least, whatever the memory holds:
-- on a fuel of a turn for each four bytes up to the end the loop takes what it takes on any more fuel.
pub commands_loop-fuel :
    (m : ℕ → ℕ) (fuel extra list_end p : ℕ)
    → list_end ≤ p + 4 * fuel
    → commands_loop m (fuel + extra) list_end p ≡ commands_loop m fuel list_end p
unfolding commands_loop init_pairs
commands_loop-fuel m zero extra list_end p le =
    commands_loop-end m (zero + extra) list_end p (omega arith)
    ∙ sym (commands_loop-end m zero list_end p (omega arith))
commands_loop-fuel m (suc fuel) extra list_end p le =
    let moves = pairs_loop-moves m ((u16_at m (p + 2) - 4) / 8) (p + 4) in
    let more : suc fuel + extra ≡ suc (fuel + extra) = omega arith in
    rw
      (
        more,
        commands_loop-fuel m fuel extra list_end
            (pairs_loop m ((u16_at m (p + 2) - 4) / 8) (p + 4)).1 (omega arith),
      )
      refl

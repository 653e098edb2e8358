-- ===== src/Loader/Frame.antt =====
-- What the actions of src/utils/regiloader/regiloader.cpp leave alone in its global variables: only the
-- registration of a board moves its counters, and the mark of a read that failed is taken back only at
-- the start of a recipe.
pub mod Commands
pub mod Booting
pub mod Installing
pub mod Actions
pub mod Registering
use regiboard.Base.{ℕ, zero, suc, ◌≡◌, refl, ◌∙◌, Bool, true, false, if◌then◌else◌, List, [], ◌∷◌}
use regiboard.Base.Text.{Text}
use regiboard.Loader.State.{
  World, Globals, SysInfo, SysState, Call, Result, ok, waits, crash, Action, pure, ◌>>=◌, gets,
  modify,
}

-- From `w` to `w'` the counters stay, and a read that has failed stays failed.
pub record Frame (w w' : World) : Type 0 where
  pub counters : w'.globals.sys_state ≡ w.globals.sys_state
  pub failure : w.globals.parse_timeout_fail ≡ true → w'.globals.parse_timeout_fail ≡ true

abbrev pub Within : {A : Type 0} → World → Result A → Type 0
Within w (ok a w') = Frame w w'
Within w (waits w') = Frame w w'
Within w crash = Unit

-- Wherever the action stops, it has kept to the frame.
pub record Keeps {A : Type 0} (m : Action A) : Type 0 where
  pub within : (w : World) → Within w (m w)

pub Frame-refl : (w : World) → Frame w w
Frame-refl w = record { counters = refl; failure = λ h. h }

pub Frame-trans : {u v w : World} → Frame u v → Frame v w → Frame u w
Frame-trans f g = record {
  counters = g.counters ∙ f.counters;
  failure = λ h. g.failure (f.failure h);
}

Within-trans : {A : Type 0} {u v : World} (r : Result A) → Frame u v → Within v r → Within u r
Within-trans (ok a w) f h = Frame-trans f h
Within-trans (waits w) f h = Frame-trans f h
Within-trans crash f h = tt

Within-bind :
    {A B : Type 0} (u : World) (r : Result A) (f : A → Action B)
    → Within u r
    → ((a : A) → Keeps (f a))
    → Within u (◌>>=◌ (λ w. r) f u)
Within-bind u (ok a w) f h k = Within-trans (f a w) h ((k a).within w)
Within-bind u (waits w) f h k = h
Within-bind u crash f h k = tt

pub Keeps-bind :
    {A B : Type 0} {m : Action A} {f : A → Action B}
    → Keeps m
    → ((a : A) → Keeps (f a))
    → Keeps (m >>= f)
Keeps-bind {m} {f} h k = record { within = λ w. Within-bind w (m w) f (h.within w) k }

pub Keeps-pure : {A : Type 0} {a : A} → Keeps (pure a)
Keeps-pure = record { within = λ w. Frame-refl w }

pub Keeps-gets : {A : Type 0} {f : World → A} → Keeps (gets f)
Keeps-gets = record { within = λ w. Frame-refl w }

pub Keeps-if :
    {A : Type 0} (b : Bool) (m k : Action A) → Keeps m → Keeps k → Keeps (if b then m else k)
Keeps-if true m k h g = h
Keeps-if false m k h g = g

pub Keeps-waits : {A : Type 0} → Keeps {A = A} waits
Keeps-waits = record { within = λ w. Frame-refl w }

-- A change of the world that keeps to the frame.
pub Keeps-modify : {f : World → World} → ((w : World) → Frame w (f w)) → Keeps (modify f)
Keeps-modify h = record { within = h }

pub ruleset keeps_rules = (Keeps-bind, Keeps-pure, Keeps-gets, Keeps-if, Keeps-waits)

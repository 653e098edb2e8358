-- ===== src/Loader/Frame/Registering.antt =====
-- The counters of the boards over a recipe of src/utils/regiloader/regiloader.cpp.
use regiboard.Base.{
  ◌≡◌, ◌≢◌, refl, sym, ap, subst, ◌∙◌, Bool, true, false, ◌&&◌, List, [], ◌∷◌, if◌then◌else◌,
}
use regiboard.Base.Text.{Text}
use regiboard.Loader.State.{
  World, Settings, SysState, Result, ok, waits, crash, Action, pure, ◌>>=◌,
}
use regiboard.Loader.Register.{register_board, record_board, next_device, save}
use regiboard.Loader.Recipe.{ActId, register, identify, do_id, do_action, run_actions}
use regiboard.Loader.Recipe.Actions.{Done, finished, step, run_actions_iff}
use regiboard.Loader.Frame.{Frame, Keeps, Within}
use regiboard.Loader.Frame.Commands.{console_rules}
use regiboard.Loader.Frame.Actions.{do_id-Keeps}
use regiboard.Loader.Frame.Installing.{login_to_regiboard-Keeps}

abbrev is_register : ActId → Bool
is_register register = true
is_register _ = false

-- What a registration that ends so leaves in the counters.
abbrev counted : Bool → SysState → SysState
counted true s = next_device s
counted false s = s

record Moved (w : World) (b : Bool) (w' : World) : Type 0 where
  counters : w'.globals.sys_state ≡ counted b w.globals.sys_state
  failure : w.globals.parse_timeout_fail ≡ true → w'.globals.parse_timeout_fail ≡ true

abbrev Counted : World → Result Bool → Type 0
Counted w (ok b w') = Moved w b w'
Counted w (waits w') = Unit
Counted w crash = Unit

record Registers (m : Action Bool) : Type 0 where
  within : (w : World) → Counted w (m w)

Counted-trans : {u v : World} (r : Result Bool) → Frame u v → Counted v r → Counted u r
Counted-trans (ok b w) f h = record {
  counters = h.counters ∙ ap (counted b) f.counters;
  failure = λ e. h.failure (f.failure e);
}
Counted-trans (waits w) f h = tt
Counted-trans crash f h = tt

Counted-bind :
    {A : Type 0} (u : World) (r : Result A) (f : A → Action Bool)
    → Within u r
    → ((a : A) → Registers (f a))
    → Counted u (◌>>=◌ (λ w. r) f u)
Counted-bind u (ok a w) f h k = Counted-trans (f a w) h ((k a).within w)
Counted-bind u (waits w) f h k = tt
Counted-bind u crash f h k = tt

Registers-bind :
    {A : Type 0} {m : Action A} {f : A → Action Bool}
    → Keeps m
    → ((a : A) → Registers (f a))
    → Registers (m >>= f)
Registers-bind {m} {f} h k = record { within = λ w. Counted-bind w (m w) f (h.within w) k }

Registers-false : Registers (pure false)
Registers-false = record { within = λ w. record { counters = refl; failure = λ h. h } }

Registers-if : (b : Bool) (m : Action Bool) → Registers m → Registers (if b then m else pure false)
Registers-if true m h = h
Registers-if false m h = Registers-false

save-Keeps : (s : SysState) → Keeps (save s)
unfolding save
save-Keeps s = search console_rules

Counted-save :
    (w v : World) (r : Result Unit)
    → Moved w true v
    → Within v r
    → Counted w (◌>>=◌ (λ u. r) (λ a. pure true) w)
Counted-save w v (ok a u) m f = record {
  counters = f.counters ∙ m.counters;
  failure = λ h. f.failure (m.failure h);
}
Counted-save w v (waits u) m f = tt
Counted-save w v crash m f = tt

record_board-Registers : Registers record_board
unfolding record_board
record_board-Registers = record {
  within = λ w.
      Counted-save w _ _ (record { counters = refl; failure = λ h. h }) ((save-Keeps _).within _);
}

register_board-Registers : (pswd : Text) → Registers (register_board pswd)
unfolding register_board
register_board-Registers pswd =
    search
      (
        console_rules, Registers-bind, Registers-if, login_to_regiboard-Keeps,
        record_board-Registers,
      )
      depth 20

-- What an action that ends so does to the counters and to the mark of a read that failed.
record Happened (id : ActId) (w : World) (b : Bool) (w' : World) : Type 0 where
  counters : w'.globals.sys_state ≡ counted (is_register id && b) w.globals.sys_state
  failure : w.globals.parse_timeout_fail ≡ true → w'.globals.parse_timeout_fail ≡ true

abbrev Effect : ActId → World → Result Bool → Type 0
Effect id w (ok b w') = Happened id w b w'
Effect id w (waits w') = Unit
Effect id w crash = Unit

Effect-Counted : (w : World) (r : Result Bool) → Counted w r → Effect register w r
Effect-Counted w (ok b v) m = record { counters = m.counters; failure = m.failure }
Effect-Counted w (waits v) m = tt
Effect-Counted w crash m = tt

Effect-Within :
    (id : ActId) (w : World) (r : Result Bool) → is_register id ≡ false → Within w r → Effect id w r
Effect-Within id w (ok b v) h f = record { counters = rw h f.counters; failure = f.failure }
Effect-Within id w (waits v) h f = tt
Effect-Within id w crash h f = tt

not_register : (id : ActId) → is_register id ≡ false → id ≢ register
not_register id h e = let q : is_register id ≡ true = ap is_register e in cc

do_id-Effect : (set : Settings) (id : ActId) (w : World) → Effect id w (do_id set id w)
unfolding do_id
do_id-Effect set register w = Effect-Counted w _ ((register_board-Registers _).within w)
do_id-Effect set id w =
    Effect-Within id w (do_id set id w) refl ((do_id-Keeps set id (not_register id refl)).within w)

do_action-Happened :
    (set : Settings) (act : Text) (w w' : World) (b : Bool)
    → do_action set act w ≡ ok b w'
    → Happened (identify act) w b w'
unfolding do_action
do_action-Happened set act w w' b e =
    subst (Effect (identify act) w) e (do_id-Effect set (identify act) w)

-- The counters behind the actions of a recipe that are carried out.
abbrev pub registered : List Text → SysState → SysState
registered [] s = s
registered (act ∷ acts) s = registered acts (counted (is_register (identify act)) s)

and_true : (b : Bool) → (b && true) ≡ b
and_true true = refl
and_true false = refl

Done-registered :
    (set : Settings) {acts : List Text} {w w' : World}
    → Done set acts w w'
    → w'.globals.sys_state ≡ registered acts w.globals.sys_state
Done-registered set finished = refl
Done-registered set (step {act} {acts} {w} {w'} {w''} done heard rest) =
    let e = (do_action-Happened set act w w' true done).counters in
    Done-registered set rest
    ∙ ap (registered acts) (
        e
        ∙ ap (λ (b : Bool). counted b w.globals.sys_state) (and_true (is_register (identify act))))

-- A recipe that is carried out moves the counters of the boards once for each of its actions "register",
-- in whatever order the others stand, and by nothing else.
pub run_actions-registered :
    (set : Settings) (acts : List Text) (w w' : World)
    → run_actions set acts w ≡ ok true w'
    → w'.globals.sys_state ≡ registered acts w.globals.sys_state
run_actions-registered set acts w w' e = Done-registered set ((run_actions_iff set acts w w').0 e)

Done-unheard :
    (set : Settings) {act : Text} {acts : List Text} {w w' : World}
    → Done set (act ∷ acts) w w'
    → w.globals.parse_timeout_fail ≢ true
Done-unheard set (step {act} {acts} {w} {w'} done heard rest) failed =
    let h : w'.globals.parse_timeout_fail ≡ true =
      (do_action-Happened set act w w' true done).failure failed in
    let both : true ≡ false = sym h ∙ heard in cc

-- A read of the console that has failed is never forgotten inside a recipe: no recipe with an action is
-- carried out from there.
pub run_actions-unheard :
    (set : Settings) (act : Text) (acts : List Text) (w w' : World)
    → w.globals.parse_timeout_fail ≡ true
    → run_actions set (act ∷ acts) w ≢ ok true w'
run_actions-unheard set act acts w w' failed e =
    Done-unheard set ((run_actions_iff set (act ∷ acts) w w').0 e) failed

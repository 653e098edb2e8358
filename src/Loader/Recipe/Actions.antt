-- ===== src/Loader/Recipe/Actions.antt =====
-- What the loop over the actions of a recipe does in src/utils/regiloader/regiloader.cpp.
use regiboard.Base.{
  ◌≡◌, refl, sym, ap, subst, ◌∙◌, ◌↔◌, List, [], ◌∷◌, ◌++◌, Bool, true, false, ◌||◌, ◌&&◌, not,
  if◌then◌else◌, All, bytes_eq,
}
use regiboard.Base.Text.{Text, codes}
use regiboard.Loader.State.{Settings, World, Result, ok, waits, crash, pure}
use regiboard.Loader.Install.{unpack_root_fs}
use regiboard.Loader.Recipe.{
  do_action, do_id, run_actions, identify, find_name, is_set, has_utils, case_mtd_utils,
  case_install_kernel, case_install_uboot, case_install_regigraf, case_install_firmware,
  case_unpack_rootfs,
}

-- The actions of a list are carried out one after the other, each with the result `true` and none with
-- a read of the console that failed.
pub data Done (set : Settings) : List Text → World → World → Type 0 where
  finished : {w : World} → Done set [] w w
  step :
      {act : Text} {acts : List Text} {w w' w'' : World}
      → do_action set act w ≡ ok true w'
      → w'.globals.parse_timeout_fail ≡ false
      → Done set acts w' w''
      → Done set (act ∷ acts) w w''

module _ (set : Settings) where
  -- The rest of the loop behind an action with the result `done`, and `failed` of a read.
  go_on : List Text → World → Bool → Bool → Result Bool
  go_on acts w done failed = (if not done || failed then pure false else run_actions set acts) w

  after : List Text → Result Bool → Result Bool
  after acts (ok done w) = go_on acts w done w.globals.parse_timeout_fail
  after acts (waits w) = waits w
  after acts crash = crash

  run_actions-after :
      (act : Text) (acts : List Text) (w : World)
      → run_actions set (act ∷ acts) w ≡ after acts (do_action set act w)
  unfolding run_actions after go_on
  run_actions-after act acts w = elim (do_action set act w) [
    | ok b w' ↦ refl
    | waits w' ↦ refl
    | crash ↦ refl
  ]

  run_actions-step :
      (act : Text) (acts : List Text) (w : World) {w' : World} {done failed : Bool}
      → do_action set act w ≡ ok done w'
      → w'.globals.parse_timeout_fail ≡ failed
      → run_actions set (act ∷ acts) w ≡ go_on acts w' done failed
  unfolding after
  run_actions-step act acts w {w'} {done} e heard =
      run_actions-after act acts w ∙ ap (after acts) e ∙ ap (go_on acts w' done) heard

  run_actions-Done :
      {acts : List Text} {w w' : World} → Done set acts w w' → run_actions set acts w ≡ ok true w'
  unfolding run_actions go_on
  run_actions-Done finished = refl
  run_actions-Done (step {act} {acts} {w} done heard rest) =
      run_actions-step act acts w done heard ∙ run_actions-Done rest

  ok-world : {w w' : World} {b b' : Bool} → ok b w ≡ ok b' w' → w ≡ w'
  ok-world {w} e = ap world_of e
    where
      world_of : Result Bool → World
      world_of (ok b v) = v
      world_of (waits v) = v
      world_of crash = w

  false_ne_true : {w w' : World} → ok false w ≡ ok true w' → ⊥
  false_ne_true e = cc

  -- The rest of the recipe, behind an action that ends with `b` in `v`.
  Done-go_on :
      (act : Text) (acts : List Text) (w v w' : World) (b failed : Bool)
      → ((u : World) → run_actions set acts u ≡ ok true w' → Done set acts u w')
      → do_action set act w ≡ ok b v
      → v.globals.parse_timeout_fail ≡ failed
      → go_on acts v b failed ≡ ok true w'
      → Done set (act ∷ acts) w w'
  unfolding go_on
  Done-go_on act acts w v w' true false rest e heard h = step e heard (rest v h)
  Done-go_on act acts w v w' true true rest e heard h = absurd (false_ne_true h)
  Done-go_on act acts w v w' false failed rest e heard h = absurd (false_ne_true h)

  Done-after :
      (act : Text) (acts : List Text) (w w' : World) (r : Result Bool)
      → ((u : World) → run_actions set acts u ≡ ok true w' → Done set acts u w')
      → do_action set act w ≡ r
      → after acts r ≡ ok true w'
      → Done set (act ∷ acts) w w'
  unfolding after
  Done-after act acts w w' (ok b v) rest e h =
      Done-go_on act acts w v w' b v.globals.parse_timeout_fail rest e refl h
  Done-after act acts w w' (waits v) rest e h = cc
  Done-after act acts w w' crash rest e h = cc

  Done-run_actions :
      (acts : List Text) (w w' : World) → run_actions set acts w ≡ ok true w' → Done set acts w w'
  unfolding run_actions
  Done-run_actions [] w w' e = subst (Done set [] w) (ok-world e) finished
  Done-run_actions (act ∷ acts) w w' e =
      Done-after act acts w w' (do_action set act w) (λ u. Done-run_actions acts u w') refl
        (sym (run_actions-after act acts w) ∙ e)

  -- The loop returns `true` exactly when it has carried out every action, in the order of the recipe,
  -- each with the result `true` and with no read of the console that failed.
  pub run_actions_iff :
      (acts : List Text) (w w' : World) → (run_actions set acts w ≡ ok true w') ↔ Done set acts w w'
  run_actions_iff acts w w' = (Done-run_actions acts w w', run_actions-Done)

  -- When the actions `acts` are carried out and the next one returns `false` or leaves a read of the
  -- console that failed, the loop returns `false` in the state behind it: no later action is begun.
  pub run_actions-stops :
      (acts later : List Text) (act : Text) (w w' v : World) (done : Bool)
      → Done set acts w w'
      → do_action set act w' ≡ ok done v
      → (not done || v.globals.parse_timeout_fail) ≡ true
      → run_actions set (acts ++ act ∷ later) w ≡ ok false v
  unfolding go_on
  run_actions-stops [] later act w w' v done finished e h =
      run_actions-step act later w e refl
      ∙ ap (λ (b : Bool). (if b then pure false else run_actions set later) v) h
  run_actions-stops (a ∷ acts) later act w w' v done (step did heard rest) e h =
      run_actions-step a (acts ++ act ∷ later) w did heard
      ∙ run_actions-stops acts later act _ w' v done rest e h

and-false : (b : Bool) → (b && false) ≡ false
and-false true = refl
and-false false = refl

-- The cases that fall through, for settings with no TFTP server.
module _ (set : Settings) (no_ip : set.use_tftp.ip ≡ [])
    (rootfs : is_set set.rootfs_img ≡ true) where
  no_server : is_set set.use_tftp.ip ≡ false
  unfolding is_set
  no_server = ap is_set no_ip

  case_unpack_rootfs-unpacks : case_unpack_rootfs set ≡ unpack_root_fs
  unfolding case_unpack_rootfs
  case_unpack_rootfs-unpacks = rw rootfs refl

  case_install_firmware-unpacks : case_install_firmware set ≡ unpack_root_fs
  unfolding case_install_firmware
  case_install_firmware-unpacks = rw no_server case_unpack_rootfs-unpacks

  case_install_regigraf-unpacks : case_install_regigraf set ≡ unpack_root_fs
  unfolding case_install_regigraf
  case_install_regigraf-unpacks = rw no_server case_install_firmware-unpacks

  has_utils-false : has_utils set ≡ false
  unfolding has_utils
  has_utils-false = rw no_server (and-false (is_set set.mtd_utils))

  case_install_uboot-unpacks : case_install_uboot set ≡ unpack_root_fs
  unfolding case_install_uboot
  case_install_uboot-unpacks = rw has_utils-false case_install_regigraf-unpacks

  case_install_kernel-unpacks : case_install_kernel set ≡ unpack_root_fs
  unfolding case_install_kernel
  case_install_kernel-unpacks = rw has_utils-false case_install_uboot-unpacks

  case_mtd_utils-unpacks : case_mtd_utils set ≡ unpack_root_fs
  unfolding case_mtd_utils
  case_mtd_utils-unpacks = rw has_utils-false case_install_kernel-unpacks

-- When the settings name no TFTP server but a root file system, the five actions that would install
-- software from the server format the partitions and unpack the root file system instead.
pub do_action-unpacks :
    (set : Settings)
    → set.use_tftp.ip ≡ []
    → is_set set.rootfs_img ≡ true
    → All
        (λ (name : Text). do_action set name ≡ unpack_root_fs)
        (codes "mtd_utils"
          ∷ codes "install_kernel"
          ∷ codes "install_uboot"
          ∷ codes "install_regigraf"
          ∷ codes "install_firmware"
          ∷ [])
unfolding do_action do_id identify find_name bytes_eq
do_action-unpacks set no_ip rootfs = (
  case_mtd_utils-unpacks set no_ip rootfs,
  (
    case_install_kernel-unpacks set no_ip rootfs,
    (
      case_install_uboot-unpacks set no_ip rootfs,
      (
        case_install_regigraf-unpacks set no_ip rootfs,
        (case_install_firmware-unpacks set no_ip rootfs, tt),
      ),
    ),
  ),
)

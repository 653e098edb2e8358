-- ===== src/Loader/Startup/Published.antt =====
-- The files that main of src/utils/regiloader/regiloader.cpp publishes, and what a request for one of them finds.
use regiboard.Base.{
  ◌<◌, ◌≡◌, refl, sym, ap, ◌∙◌, List, [], ◌∷◌, ◌++◌, Option, none, some, Bool, true, false, ◌==◌,
  if◌then◌else◌, not, inl, inr, Bool-cases, All, length, length-append, ==-false, bytes_eq,
  bytes_eq→eq, arith,
}
use regiboard.Base.Text.{Text, codes}
use regiboard.Tftp.Session.{find_file}
use regiboard.Tftp.Server.{publish_file, insert_file}
use regiboard.Loader.State.{Settings}
use regiboard.Loader.Info.{parse_test}
use regiboard.Loader.Install.{uboot_img, kernel_img, kernel_mods, root_fs_img, mtd_utils, rbf_name}
use regiboard.Loader.Startup.{
  Files, Entry, add_file, publish_entry, publish_entries, publish_dir, publish_license,
  publish_settings, published,
}

-- A name that is known keeps its path.
find-insert_keeps :
    (o : Option Text) (name path other old : Text) (dir : Files)
    → find_file name dir ≡ o
    → find_file other dir ≡ some old
    → find_file other (insert_file o name path dir) ≡ some old
unfolding insert_file find_file
find-insert_keeps none name path other old dir h k = elim (Bool-cases (bytes_eq name other)) [
  | inl same ↦
      let q : none ≡ some old =
        sym h ∙ ap (λ (n : Text). find_file n dir) (bytes_eq→eq name other same) ∙ k in
      cc
  | inr differs ↦ rw differs k
]
find-insert_keeps (some p) name path other old dir h k = k

abbrev Kept : Text → Text → Files → Type 0
Kept other old dir = find_file other dir ≡ some old

add_file-Kept :
    (name path other old : Text) (dir : Files)
    → Kept other old dir
    → Kept other old (add_file name path dir)
unfolding add_file publish_file
add_file-Kept name path other old dir h = of_tests (length path == 0) (length name == 0)
  where
    of_tests :
        (b c : Bool)
        → Kept other old
            (if◌then◌else◌ {A = Bool × Files} b
              (false, dir)
              (if c
                then (false, dir)
                else (true, insert_file (find_file name dir) name path dir))).1
    of_tests true c = h
    of_tests false true = h
    of_tests false false = find-insert_keeps (find_file name dir) name path other old dir refl h

publish_entry-Kept :
    (rx : Text → Text → Option (List Text)) (e : Entry) (other old : Text) (dir : Files)
    → Kept other old dir
    → Kept other old (publish_entry rx e dir)
unfolding publish_entry
publish_entry-Kept rx e other old dir h =
    of_tests (bytes_eq e.extension (codes ".ipk")) (parse_test rx e.stem (codes "regigraf(.*)"))
  where
    of_tests :
        (b c : Bool)
        → Kept other old (
            if not b
            then dir
            else if c
            then add_file (codes "regigraf.ipk") e.path dir
            else add_file e.filename e.path dir)
    of_tests false c = h
    of_tests true true = add_file-Kept _ _ other old dir h
    of_tests true false = add_file-Kept _ _ other old dir h

publish_entries-Kept :
    (rx : Text → Text → Option (List Text)) (es : List Entry) (other old : Text) (dir : Files)
    → Kept other old dir
    → Kept other old (publish_entries rx es dir)
unfolding publish_entries
publish_entries-Kept rx [] other old dir h = h
publish_entries-Kept rx (e ∷ es) other old dir h =
    publish_entries-Kept rx es other old _ (publish_entry-Kept rx e other old dir h)

published-Kept :
    (rx : Text → Text → Option (List Text)) (entries : Option (List Entry)) (set : Settings)
    (other old : Text)
    → Kept other old (publish_settings set)
    → Kept other old (published rx entries set)
unfolding published publish_dir publish_license
published-Kept rx none set other old h = add_file-Kept _ _ other old _ h
published-Kept rx (some es) set other old h =
    add_file-Kept _ _ other old _ (publish_entries-Kept rx es other old _ h)

-- The files of the settings, with the constants of the program by which the functions of Loader/Install.antt
-- ask for them.
abbrev pub named_files : Settings → List (Text × Text)
named_files set =
    (uboot_img ++ codes ".bin", set.imx_img ++ codes ".bin")
    ∷ (kernel_img, set.kernel_img)
    ∷ (kernel_mods, set.kernel_mods)
    ∷ (root_fs_img, set.rootfs_img)
    ∷ (mtd_utils, set.mtd_utils)
    ∷ (rbf_name, set.rbf)
    ∷ []

abbrev pub Finds : Files → Text × Text → Type 0
Finds dir (name, path) = find_file name dir ≡ some path

abbrev pub NonEmpty : Text → Type 0
NonEmpty t = 0 < length t

image_NonEmpty : (t : Text) → NonEmpty (t ++ codes ".bin")
image_NonEmpty t = omega (arith, length-append t (codes ".bin"))

publish_file-new :
    (name path : Text) (dir : Files)
    → NonEmpty name
    → NonEmpty path
    → find_file name dir ≡ none
    → publish_file name path dir ≡ (true, (name, path) ∷ dir)
unfolding publish_file insert_file
publish_file-new name path dir hn hp h =
    rw
      (
        ==-false (length path) 0 (omega arith),
        ==-false (length name) 0 (omega arith),
        h,
        insert_file,
      )
      refl

add_file-new :
    (name path : Text) (dir : Files)
    → NonEmpty name
    → NonEmpty path
    → find_file name dir ≡ none
    → add_file name path dir ≡ (name, path) ∷ dir
unfolding add_file
add_file-new name path dir hn hp h =
    ap (λ (r : Bool × Files). r.1) (publish_file-new name path dir hn hp h)

publish_settings-All :
    (set : Settings)
    → All (λ (r : Text × Text). NonEmpty r.1) (named_files set)
    → All (Finds (publish_settings set)) (named_files set)
unfolding publish_settings find_file bytes_eq
publish_settings-All set (img, (kernel, (mods, (rootfs, (utils, (rbf, _)))))) =
    rw
      (
        add_file-new (uboot_img ++ codes ".bin") (set.imx_img ++ codes ".bin") [] (omega arith) img
            refl,
        add_file-new kernel_img set.kernel_img _ (omega arith) kernel refl,
        add_file-new kernel_mods set.kernel_mods _ (omega arith) mods refl,
        add_file-new root_fs_img set.rootfs_img _ (omega arith) rootfs refl,
        add_file-new mtd_utils set.mtd_utils _ (omega arith) utils refl,
        add_file-new rbf_name set.rbf _ (omega arith) rbf refl,
      )
      (refl, (refl, (refl, (refl, (refl, (refl, tt))))))

-- Whatever the directory of packets holds, each file that the settings name is found under the constant name
-- under which main publishes it, when none of the paths in the settings is empty.
pub published-named_files :
    (rx : Text → Text → Option (List Text)) (entries : Option (List Entry)) (set : Settings)
    → All (λ (r : Text × Text). NonEmpty r.1) (named_files set)
    → All (Finds (published rx entries set)) (named_files set)
published-named_files rx entries set h =
    let (img, (kernel, (mods, (rootfs, (utils, (rbf, end)))))) = publish_settings-All set h in
    let keep = published-Kept rx entries set in
    (
      keep _ _ img,
      (keep _ _ kernel, (keep _ _ mods, (keep _ _ rootfs, (keep _ _ utils, (keep _ _ rbf, tt))))),
    )

-- ===== src/Loader/Startup/Arguments.antt =====
-- The argument for the TFTP server and the file of the counters in src/utils/regiloader/regiloader.cpp.
use regiboard.Base.{
  ℕ, suc, ◌≡◌, refl, [], ◌∷◌, ◌++◌, Option, none, some, Bool, true, false, ◌==◌, if◌then◌else◌, All,
  length, take-append, drop-append_add,
}
use mathlib.Core.Option
use regiboard.Base.Text.{Text, decimal}
use regiboard.Loader.State.{SysState}
use regiboard.Loader.Startup.{
  find_slash, before, behind, network, Value, number, text, counters_tree, Tree, loaded, load_from,
  or_throw,
}

abbrev pub Unslashed : Text → Type 0
Unslashed t = find_slash t ≡ none

find_slash-cons : (c : ℕ) (cs : Text) → Unslashed (c ∷ cs) → ((c == b'/') ≡ false) × Unslashed cs
unfolding find_slash
find_slash-cons c cs h = split (c == b'/') (find_slash cs) h
  where
    split :
        (b : Bool) (o : Option ℕ)
        → (if b then some 0 else Option.map suc o) ≡ none
        → (b ≡ false) × (o ≡ none)
    split true o e = cc
    split false none e = (refl, refl)
    split false (some n) e = cc

find_slash-append : (t rest : Text) → Unslashed t → find_slash (t ++ b'/' ∷ rest) ≡ some (length t)
unfolding find_slash
find_slash-append [] rest h = refl
find_slash-append (c ∷ cs) rest h =
    let e = find_slash-cons c cs h in rw (e.0, find_slash-append cs rest e.1) refl

-- "address/mask" is taken apart at its slash, when the address has none.
pub network-append :
    (ip mask : Text)
    → Unslashed ip
    → network (ip ++ b'/' ∷ mask) ≡ record { ip = ip; mask = mask; port = decimal 6969 }
unfolding network before behind
network-append ip mask h = rw (find_slash-append ip mask h) (λ i. record {
  ip = take-append ip (b'/' ∷ mask) i;
  mask = drop-append_add ip (b'/' ∷ mask) 1 i;
  port = decimal 6969;
})

-- An argument for the TFTP server with no slash is taken for the address, and for the mask of the
-- network, too.
pub network_alone :
    (arg : Text) → Unslashed arg → ((network arg).ip ≡ arg) × ((network arg).mask ≡ arg)
unfolding network before behind
network_alone arg h = (rw (h, before) refl, rw (h, behind) refl)

-- What is read back of what has been put under a key.
abbrev pub Reads : Tree → Text × Value → Type 0
Reads tree (key, number n) = tree.get_unsigned key ≡ some n
Reads tree (key, text t) = tree.get_string key ≡ some t

-- The counters that Save puts into the file are the ones that LoadFrom takes out of it, whatever they
-- were before, when the file gives back what was put into it.
pub load_from-counters_tree :
    (tree : Tree) (path : Text) (s old : SysState)
    → All (Reads tree) (counters_tree s)
    → load_from (some tree) path old ≡ loaded (record s { file_path = path })
unfolding counters_tree load_from or_throw
load_from-counters_tree tree path s old (stand, (batch, (device, (lcd, (ts, _))))) =
    rw (stand, batch, device, lcd, ts) refl

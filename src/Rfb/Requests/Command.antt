-- ===== src/Rfb/Requests/Command.antt =====
-- The command of UpdateFirm in src/utils/regirfb/main.cpp, as a shell reads it.
use regiboard.Base.{
  ℕ, ◌≡◌, ◌≢◌, refl, ap, ◌∙◌, [], ◌∷◌, ◌++◌, append_assoc, All, ◌==◌, ==-false, if◌then◌else◌,
  Option, none, some, drop,
}
use mathlib.Core.Option
use regiboard.Base.Text.{Text, codes}
use regiboard.Rfb.Requests.{update_command}

-- The quoting of a shell: behind a quote all is text up to the next one. The text, and what follows it.
abbrev pub quoted : Text → Option (Text × Text)
quoted [] = none
quoted (c ∷ cs) =
    let rest = Option.map (λ (q : Text × Text). (c ∷ q.0, q.1)) (quoted cs) in
    if c == b'\'' then some ([], cs) else rest

-- The first argument behind "update" as the shell reads it.
unfoldable pub argument : Text → Option (Text × Text)
argument command = quoted (drop 27 command)

abbrev pub Unquoted : Text → Type 0
Unquoted t = All (λ (c : ℕ). c ≢ b'\'') t

quoted-Unquoted : (t rest : Text) → Unquoted t → quoted (t ++ b'\'' ∷ rest) ≡ some (t, rest)
quoted-Unquoted [] rest h = refl
quoted-Unquoted (c ∷ t) rest (ne, h) = rw (==-false c b'\'' ne, quoted-Unquoted t rest h) refl

-- An address without a quote is the argument of the command, and nothing follows it.
update_command-argument :
    (url : Text) → Unquoted url → argument (update_command url) ≡ some (url, [])
unfolding update_command argument
update_command-argument url h = quoted-Unquoted url [] h

-- For an address with a quote, the argument of the command of UpdateFirm ends at the first one, and the shell
-- reads what stands behind it in the address as a part of the command.
pub update_command-quote :
    (a b : Text)
    → Unquoted a
    → argument (update_command (a ++ b'\'' ∷ b)) ≡ some (a, b ++ codes "'")
unfolding update_command argument
update_command-quote a b h =
    ap quoted (append_assoc a (b'\'' ∷ b) (codes "'")) ∙ quoted-Unquoted a (b ++ codes "'") h

-- ===== src/Kube/Shell.antt =====
-- internal/kube/operations.go: the search for a shell in a container, ExecDefaultShellWithSizeQueue.
use mathlib.Core.List.{append-nil, append_assoc}
use beaverdeck.Base.{
  ◌≡◌, refl, sym, ap, ◌∙◌, Bool, true, false, ◌&&◌, Option, none, some, List, [], ◌∷◌, ◌++◌, any,
  Bool-cases, inl, inr, all, if◌then◌else◌,
}
use beaverdeck.Text.{Str, codes, ◌==◌, to_lower, contains}

-- A command that is run in a container: its words.
abbrev pub Command : Type 0
Command = List Str

abbrev pub candidates : List Command
candidates =
    (codes "/bin/bash" ∷ codes "-i" ∷ [])
    ∷ (codes "/bin/sh" ∷ codes "-i" ∷ [])
    ∷ (codes "/bin/ash" ∷ codes "-i" ∷ [])
    ∷ (codes "/busybox/sh" ∷ codes "-i" ∷ [])
    ∷ (codes "/busybox" ∷ codes "sh" ∷ [])
    ∷ (codes "sh" ∷ [])
    ∷ []

unfoldable pub probe_shell_command : Command → Command
probe_shell_command [] = codes "sh" ∷ codes "-c" ∷ codes "exit 0" ∷ []
probe_shell_command (program ∷ []) = program ∷ codes "-c" ∷ codes "exit 0" ∷ []
probe_shell_command (program ∷ word ∷ words) =
    if program == codes "/busybox" && word == codes "sh"
    then codes "/busybox" ∷ codes "sh" ∷ codes "-c" ∷ codes "exit 0" ∷ []
    else program ∷ codes "-c" ∷ codes "exit 0" ∷ []

-- The error of a command is its text, `none` for none.
unfoldable pub looks_like_missing_exec_binary : Option Str → Bool
looks_like_missing_exec_binary none = false
looks_like_missing_exec_binary (some error) = any (contains (to_lower error)) (
    codes "executable file not found"
    ∷ codes "no such file or directory"
    ∷ codes "not found"
    ∷ codes "stat /bin/"
    ∷ codes "exec: \"sh\""
    ∷ codes "exit code 126"
    ∷ codes "exit code 127"
    ∷ [])

-- The end of the search: the shell that is started, the error that stopped it, or the shells tried.
pub data Outcome : Type 0 where
  started : Command → Outcome
  stopped : Str → Outcome
  no_shell : List Command → Outcome

module _ (probe : Command → Option Str) where
  abbrev is_missing : Command → Bool
  is_missing candidate = looks_like_missing_exec_binary (probe (probe_shell_command candidate))

  -- What the answer to a probe leads to, when it does not look like a missing program.
  abbrev after_probe : Command → Option Str → Outcome
  after_probe candidate none = started candidate
  after_probe candidate (some error) = stopped error

  -- The loop over the candidates; `attempts` are those that are missing.
  unfoldable pub try_shells : List Command → List Command → Outcome
  try_shells attempts [] = no_shell attempts
  try_shells attempts (candidate ∷ rest) =
      let later = try_shells (attempts ++ candidate ∷ []) rest in
      if is_missing candidate
      then later
      else after_probe candidate (probe (probe_shell_command candidate))

  unfoldable pub exec_default_shell : Outcome
  exec_default_shell = try_shells [] candidates

  -- A shell of the list that is not missing, before which all are, with the answer to its probe.
  abbrev IsReached : List Command → Option Str → Command → Type 0
  IsReached shells found shell =
      (earlier : List Command) × ((later : List Command) × (shells ≡ earlier ++ shell ∷ later)
        × (all is_missing earlier ≡ true)
        × (is_missing shell ≡ false)
        × (probe (probe_shell_command shell) ≡ found))

  -- What each end of a search among shells means.
  abbrev pub IsFirstShell : List Command → List Command → Outcome → Type 0
  IsFirstShell attempts shells (started shell) = IsReached shells none shell
  IsFirstShell attempts shells (stopped error) =
      (shell : Command) × IsReached shells (some error) shell
  IsFirstShell attempts shells (no_shell tried) =
      (tried ≡ attempts ++ shells) × (all is_missing shells ≡ true)

  further :
      (candidate : Command) (rest : List Command) (found : Option Str) (shell : Command)
      → is_missing candidate ≡ true
      → IsReached rest found shell
      → IsReached (candidate ∷ rest) found shell
  unfolding all
  further candidate rest found shell missing (earlier, (later, same, gone, there, answer)) =
      (candidate ∷ earlier, (later, ap (λ l. candidate ∷ l) same, rw missing gone, there, answer))

  passed_over :
      (attempts : List Command) (candidate : Command) (rest : List Command) (o : Outcome)
      → is_missing candidate ≡ true
      → IsFirstShell (attempts ++ candidate ∷ []) rest o
      → IsFirstShell attempts (candidate ∷ rest) o
  unfolding all
  passed_over attempts candidate rest (started shell) missing reached =
      further candidate rest none shell missing reached
  passed_over attempts candidate rest (stopped error) missing (shell, reached) =
      (shell, further candidate rest (some error) shell missing reached)
  passed_over attempts candidate rest (no_shell tried) missing (same, gone) =
      (same ∙ append_assoc attempts (candidate ∷ []) rest, rw missing gone)

  taken :
      (attempts : List Command) (candidate : Command) (rest : List Command) (found : Option Str)
      → is_missing candidate ≡ false
      → probe (probe_shell_command candidate) ≡ found
      → IsFirstShell attempts (candidate ∷ rest) (after_probe candidate found)
  unfolding all
  taken attempts candidate rest none there answer = ([], (rest, refl, refl, there, answer))
  taken attempts candidate rest (some error) there answer =
      (candidate, ([], (rest, refl, refl, there, answer)))

  try_shells-IsFirstShell :
      (attempts shells : List Command) → IsFirstShell attempts shells (try_shells attempts shells)
  unfolding try_shells all
  try_shells-IsFirstShell attempts [] = (sym (append-nil attempts), refl)
  try_shells-IsFirstShell attempts (candidate ∷ rest) = elim (Bool-cases (is_missing candidate)) [
    | inl missing ↦ rw missing (
        passed_over attempts candidate rest (try_shells (attempts ++ candidate ∷ []) rest) missing
          (try_shells-IsFirstShell (attempts ++ candidate ∷ []) rest))
    | inr there ↦
        rw there (taken attempts candidate rest (probe (probe_shell_command candidate)) there refl)
  ]

  -- The search takes the first of the six shells that is not missing, all before it being so: it starts it
  -- if its probe succeeds, and stops with the error of its probe otherwise. It reports that there is no
  -- shell, with all six tried, only if all six are missing.
  pub exec_default_shell-IsFirstShell : IsFirstShell [] candidates exec_default_shell
  unfolding exec_default_shell
  exec_default_shell-IsFirstShell = try_shells-IsFirstShell [] candidates

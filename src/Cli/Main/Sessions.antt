-- ===== src/Cli/Main/Sessions.antt =====
-- What whole sessions of the client keep.
use holbertonschool_blockcha.Prelude.{
  ℕ, ◌≡◌, ◌≢◌, sym, ap, ◌∙◌, Option, none, some, List, [], ◌∷◌, ◌++◌, append_assoc, append-nil, All,
  Run, ret, ub, Ensures, Ensures-ret, Ensures-each, Option-cases, inl, inr,
}
use holbertonschool_blockcha.Prelude.Host.{Host}
use holbertonschool_blockcha.Llist.{Llist}
use holbertonschool_blockcha.Crypto.{Openssl}
use holbertonschool_blockcha.Block.Types.{Block}
use holbertonschool_blockcha.Cli.State.{Answer, done, leave, failed, State, World}
use holbertonschool_blockcha.Cli.Command.{Command, load, find_command}
use holbertonschool_blockcha.Cli.Command.Grows.{Grows, same, longer, find_command-Grows}
use holbertonschool_blockcha.Cli.Main.Words.{at_prompt}
use holbertonschool_blockcha.Cli.Main.{command_of, strtok, Session, run_line, status, main_loop}

-- The line's command is not `load`.
abbrev pub LoadsNothing : List ℕ → Type 0
LoadsNothing line = (name : List ℕ) → (strtok line).0 ≡ some name → command_of name ≢ load

module _ ⦃host : Host⦄ ⦃ll : Llist⦄ ⦃ssl : Openssl⦄ where
  abbrev pub After : (State → Type 0) → Option (Answer × State) → Type 0
  After Q none = Unit
  After Q (some (a, s)) = Q s

  abbrev pub AfterMain : (State → Type 0) → Option (ℕ × State) → Type 0
  AfterMain Q none = Unit
  AfterMain Q (some (code, s)) = Q s

  -- The chain of `s` is the front of that of `s'`.
  pub record Continues (s s' : State) : Type 0 where
    pub more : List Block
    pub chain : s'.blockchain.chain ≡ s.blockchain.chain ++ more

  Continues-on : (s s' s'' : State) → Continues s s' → Grows s' s'' → Continues s s''
  Continues-on s s' s'' e (same h) = record { more = e.more; chain = h ∙ e.chain }
  Continues-on s s' s'' e (longer b valid h) = record {
    more = e.more ++ b ∷ [];
    chain = h ∙ ap (λ l. l ++ b ∷ []) e.chain ∙ append_assoc s.blockchain.chain e.more (b ∷ []);
  }

  any_world :
      (lines : Session)
      → All (λ l. LoadsNothing l.1) lines
      → All (λ l. Unit {0} × LoadsNothing l.1) lines
  any_world [] h = tt
  any_world (l ∷ lines) (h, hs) = ((tt, h), any_world lines hs)

module _ ⦃host : Host⦄ ⦃ll : Llist⦄ ⦃ssl : Openssl⦄ (atoi : List ℕ → ℕ) where
  -- What each line of a session keeps, the session keeps.
  pub main_loop-keeps :
      (Q : State → Type 0) (lines : Session) (answer : Answer) (s : State)
      → All (λ l. (s : State) → Q s → Ensures (After Q) (run_line atoi l.0 l.1 s)) lines
      → Q s
      → Ensures (AfterMain Q) (main_loop atoi lines answer s)
  unfolding main_loop
  main_loop-keeps Q [] answer s keeps q = q
  main_loop-keeps Q ((w, []) ∷ lines) answer s (k, keeps) q =
      main_loop-keeps Q lines answer s keeps q
  main_loop-keeps Q ((w, c ∷ line) ∷ lines) answer s (k, keeps) q =
      go (run_line atoi w (c ∷ line) s) (k s q) (λ s' q'. main_loop-keeps Q lines done s' keeps q')
        (λ s' q'. main_loop-keeps Q lines failed s' keeps q')
    where
      go :
          (m : Run (Option (Answer × State)))
          → Ensures (After Q) m
          → ((s' : State) → Q s' → Ensures (AfterMain Q) (main_loop atoi lines done s'))
          → ((s' : State) → Q s' → Ensures (AfterMain Q) (main_loop atoi lines failed s'))
          → Ensures (AfterMain Q) (elim m as (λ _. Run (Option (ℕ × State))) [
            | ub ↦ ub
            | ret none ↦ ret none
            | ret (some (leave, s')) ↦ ret (some (status leave, s'))
            | ret (some (done, s')) ↦ main_loop atoi lines done s'
            | ret (some (failed, s')) ↦ main_loop atoi lines failed s'
          ])
      go ub h d f = tt
      go (ret none) h d f = tt
      go (ret (some (leave, s'))) h d f = h
      go (ret (some (done, s'))) h d f = d s' h
      go (ret (some (failed, s'))) h d f = f s' h

  -- What each command but `load` keeps.
  abbrev pub CommandsKeep : (World → Type 0) → (State → Type 0) → Type 0
  CommandsKeep P Q =
      (w : World) (c : Command) (arg1 arg2 : Option (List ℕ)) (a : Answer) (s s' : State)
      → P w
      → c ≢ load
      → Q s
      → find_command (at_prompt w) c arg1 arg2 atoi s ≡ ret (some (a, s'))
      → Q s'

  command-keeps :
      (P : World → Type 0) (Q : State → Type 0) (w : World) (c : Command)
      (arg1 arg2 : Option (List ℕ)) (s : State)
      → CommandsKeep P Q
      → P w
      → c ≢ load
      → Q s
      → Ensures (After Q) (find_command (at_prompt w) c arg1 arg2 atoi s)
  command-keeps P Q w c arg1 arg2 s keep p other q = Ensures-each (After Q) _ answered
    where
      answered :
          (o : Option (Answer × State))
          → find_command (at_prompt w) c arg1 arg2 atoi s ≡ ret o
          → After Q o
      answered none run = tt
      answered (some (a, s')) run = keep w c arg1 arg2 a s s' p other q run

  line-keeps :
      (P : World → Type 0) (Q : State → Type 0) (w : World) (line : List ℕ)
      → CommandsKeep P Q
      → P w
      → LoadsNothing line
      → (s : State) → Q s
      → Ensures (After Q) (run_line atoi w line s)
  unfolding run_line
  line-keeps P Q w line keep p nothing s q = elim (Option-cases (strtok line).0) [
    | inl e ↦ rw (run_line, e) tt
    | inr (name, e) ↦
        rw (run_line, e) (command-keeps P Q w (command_of name) _ _ s keep p (nothing name e) q)
  ]

  lines-keep :
      (P : World → Type 0) (Q : State → Type 0) (lines : Session)
      → CommandsKeep P Q
      → All (λ l. P l.0 × LoadsNothing l.1) lines
      → All (λ l. (s : State) → Q s → Ensures (After Q) (run_line atoi l.0 l.1 s)) lines
  lines-keep P Q [] keep h = tt
  lines-keep P Q ((w, line) ∷ lines) keep ((p, nothing), hs) =
      (line-keeps P Q w line keep p nothing, lines-keep P Q lines keep hs)

  -- What all the commands but `load` keep, a session without `load` keeps.
  pub session-keeps :
      (P : World → Type 0) (Q : State → Type 0) (lines : Session) (answer : Answer) (s s' : State)
      (code : ℕ)
      → CommandsKeep P Q
      → All (λ l. P l.0 × LoadsNothing l.1) lines
      → Q s
      → main_loop atoi lines answer s ≡ ret (some (code, s'))
      → Q s'
  session-keeps P Q lines answer s s' code keep h q runs =
      Ensures-ret (AfterMain Q) (main_loop-keeps Q lines answer s (lines-keep P Q lines keep h) q)
        runs

  -- When a session without the command `load` ends, the chain with which it began stands,
  -- unchanged, in front of the chain with which it ends.
  pub main_loop-Continues :
      (lines : Session) (answer : Answer) (s s' : State) (code : ℕ)
      → All (λ l. LoadsNothing l.1) lines
      → main_loop atoi lines answer s ≡ ret (some (code, s'))
      → Continues s s'
  main_loop-Continues lines answer s s' code nothing runs =
      session-keeps (λ _. Unit) (Continues s) lines answer s s' code
        (λ w c arg1 arg2 a s1 s2 _ other e run.
          Continues-on s s1 s2 e
            (find_command-Grows (at_prompt w) c arg1 arg2 atoi s1 s2 a other run))
        (any_world lines nothing)
        (record { more = []; chain = sym (append-nil s.blockchain.chain) }) runs

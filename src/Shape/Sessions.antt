-- ===== src/Shape/Sessions.antt =====
-- Whole sessions of the client keep the sizes.
use holbertonschool_blockcha.Prelude.{ℕ, ◌^◌, ◌<◌, ◌≡◌, some, List, All, length, ret}
use holbertonschool_blockcha.Prelude.Host.{Host}
use holbertonschool_blockcha.Llist.{Llist}
use holbertonschool_blockcha.Crypto.{Openssl}
use holbertonschool_blockcha.Cli.State.{done, State}
use holbertonschool_blockcha.Cli.Main.{Session, main, start}
use holbertonschool_blockcha.Cli.Main.Sessions.{LoadsNothing, session-keeps}
use holbertonschool_blockcha.Cli.Main.Words.{at_prompt}
use holbertonschool_blockcha.Shape.Reached.{Reached, started, ran}

module _ ⦃host : Host⦄ ⦃ll : Llist⦄ ⦃ssl : Openssl⦄ where
  -- The state in which `main` ends, after lines whose command is not `load`, is one that the
  -- commands reach from the first state, if `atoi` gives 32 bits and the unset arrays have 32
  -- bytes.
  pub main-Reached :
      (atoi : List ℕ → ℕ) (lines : Session) (s : State) (code : ℕ)
      → ((arg : List ℕ) → atoi arg < 2 ^ 32)
      → All (λ l. (length l.0.unset ≡ 32) × LoadsNothing l.1) lines
      → main atoi lines ≡ ret (some (code, s))
      → Reached s
  unfolding main start
  main-Reached atoi lines s code small h runs =
      session-keeps atoi (λ w. length w.unset ≡ 32) Reached lines done start s code
        (λ w c arg1 arg2 a s1 s2 array other r run.
          ran (at_prompt w) c arg1 arg2 atoi a r array small other run)
        h started runs

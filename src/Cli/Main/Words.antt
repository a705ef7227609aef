-- ===== src/Cli/Main/Words.antt =====
-- How `main` splits a line into words, against the words that the line was put together from.
use holbertonschool_blockcha.Prelude.{
  ℕ, zero, suc, ◌≡◌, ◌≢◌, refl, ap, ◌∙◌, ne→==_false, Option, none, some, List, [], ◌∷◌, ◌++◌,
  append-nil, All, get_elem?, replicate, Run, ret, ub, arith,
}
use holbertonschool_blockcha.Prelude.Bytes.{same_string}
use holbertonschool_blockcha.Prelude.Text.{codes}
use holbertonschool_blockcha.Prelude.Host.{Host}
use holbertonschool_blockcha.Llist.{Llist}
use holbertonschool_blockcha.Crypto.{Openssl}
use holbertonschool_blockcha.Cli.State.{Answer, leave, State, World}
use holbertonschool_blockcha.Cli.Command.{find_command}
use holbertonschool_blockcha.Cli.Main.{
  command_of, skip_spaces, cut_word, strtok, Session, run_line, main_loop,
}

-- Words, each with a number of spaces in front of it.
abbrev pub Words : Type 0
Words = List (ℕ × List ℕ)

-- What stands behind a word: at least one space in front of each further word, and spaces at the end.
abbrev behind : Words → ℕ → List ℕ
behind [] trailing = replicate trailing b' '
behind ((spaces, word) ∷ words) trailing =
    b' ' ∷ (replicate spaces b' ' ++ (word ++ behind words trailing))

abbrev pub line_of : Words → ℕ → List ℕ
line_of [] trailing = replicate trailing b' '
line_of ((spaces, word) ∷ words) trailing = replicate spaces b' ' ++ (word ++ behind words trailing)

-- A word has a character, and no space.
abbrev pub IsWord : List ℕ → Type 0
IsWord [] = ⊥
IsWord (c ∷ word) = (c ≢ 32) × All (λ d. d ≢ 32) word

abbrev pub AreWords : Words → Type 0
AreWords words = All (λ w. IsWord w.1) words

abbrev pub word_at : ℕ → Words → Option (List ℕ)
word_at i words = elim (get_elem? words i) [ none ↦ none | some (spaces, word) ↦ some word ]

exit-IsWord : IsWord (codes "exit")
exit-IsWord = (
  (λ e. omega (arith, e)),
  ((λ e. omega (arith, e)), ((λ e. omega (arith, e)), ((λ e. omega (arith, e)), tt))),
)

skip_spaces-replicate : (n : ℕ) (s : List ℕ) → skip_spaces (replicate n 32 ++ s) ≡ skip_spaces s
unfolding skip_spaces
skip_spaces-replicate zero s = refl
skip_spaces-replicate (suc n) s = skip_spaces-replicate n s

cut_word-append :
    (word s : List ℕ)
    → All (λ d. d ≢ 32) word
    → cut_word (word ++ s) ≡ (word ++ (cut_word s).0, (cut_word s).1)
unfolding cut_word
cut_word-append [] s h = refl
cut_word-append (c ∷ word) s (hc, h) = rw (ne→==_false c 32 hc, cut_word-append word s h) refl

-- The spaces that are left behind the words, when the first of them is cut off.
abbrev left : Words → ℕ → ℕ
left [] zero = zero
left [] (suc n) = n
left (w ∷ words) trailing = trailing

cut_behind :
    (words : Words) (trailing : ℕ)
    → cut_word (behind words trailing) ≡ ([], line_of words (left words trailing))
unfolding cut_word
cut_behind [] zero = refl
cut_behind [] (suc n) = refl
cut_behind ((spaces, word) ∷ words) trailing = refl

strtok-word :
    (spaces : ℕ) (word : List ℕ) (words : Words) (trailing : ℕ)
    → IsWord word
    → strtok (line_of ((spaces, word) ∷ words) trailing)
      ≡ (some word, line_of words (left words trailing))
unfolding strtok skip_spaces cut_word
strtok-word spaces [] words trailing h = absurd h
strtok-word spaces (c ∷ word) words trailing (hc, h) =
    let start : skip_spaces (line_of ((spaces, c ∷ word) ∷ words) trailing)
        ≡ c ∷ (word ++ behind words trailing) =
      skip_spaces-replicate spaces (c ∷ (word ++ behind words trailing))
      ∙ rw (skip_spaces, ne→==_false c 32 hc) refl in
    let cut : cut_word (c ∷ (word ++ behind words trailing))
        ≡ (c ∷ word, line_of words (left words trailing)) =
      cut_word-append (c ∷ word) (behind words trailing) (hc, h)
      ∙ rw (cut_behind words trailing, append-nil word) refl in
    rw (strtok, start, cut) refl

strtok-spaces : (trailing : ℕ) → strtok (line_of [] trailing) ≡ (none, [])
unfolding strtok skip_spaces
strtok-spaces zero = refl
strtok-spaces (suc n) = strtok-spaces n

-- No spaces are left behind a line without words.
abbrev spare : Words → ℕ → ℕ
spare [] trailing = zero
spare (w ∷ words) trailing = trailing

abbrev others : Words → Words
others [] = []
others (w ∷ words) = words

others-AreWords : (words : Words) → AreWords words → AreWords (others words)
others-AreWords [] h = tt
others-AreWords (w ∷ words) (_, h) = h

word_at-others : (words : Words) → word_at 0 (others words) ≡ word_at 1 words
word_at-others [] = refl
word_at-others (w ∷ []) = refl
word_at-others (w ∷ v ∷ words) = refl

strtok-first :
    (words : Words) (trailing : ℕ)
    → AreWords words
    → strtok (line_of words trailing)
      ≡ (word_at 0 words, line_of (others words) (left (others words) (spare words trailing)))
strtok-first [] trailing h = strtok-spaces trailing
strtok-first ((spaces, word) ∷ words) trailing (hw, h) = strtok-word spaces word words trailing hw

module _ ⦃host : Host⦄ ⦃ll : Llist⦄ ⦃ssl : Openssl⦄ where
  -- The world as `main` hands it to a command.
  abbrev pub at_prompt : World → World
  at_prompt w = record w { address_room = 130 }

module _ ⦃host : Host⦄ ⦃ll : Llist⦄ ⦃ssl : Openssl⦄ (atoi : List ℕ → ℕ) where
  -- What the words ask for: the first is the command, the next two are its arguments, and the others are
  -- not looked at.
  unfoldable pub ask : World → Words → State → Run (Option (Answer × State))
  ask w [] s = ub
  ask w ((spaces, name) ∷ words) s =
      find_command (at_prompt w) (command_of name) (word_at 0 words) (word_at 1 words) atoi s

  run_line-asks :
      (w : World) (line : List ℕ) (s : State) (name : List ℕ) (arg1 arg2 : Option (List ℕ))
      → (strtok line).0 ≡ some name
      → (strtok (strtok line).1).0 ≡ arg1
      → (strtok (strtok (strtok line).1).1).0 ≡ arg2
      → run_line atoi w line s ≡ find_command (at_prompt w) (command_of name) arg1 arg2 atoi s
  unfolding run_line
  run_line-asks w line s name arg1 arg2 h1 h2 h3 = rw (run_line, h1, h2, h3) refl

  pub run_line-words :
      (w : World) (words : Words) (trailing : ℕ) (s : State)
      → AreWords words
      → run_line atoi w (line_of words trailing) s ≡ ask w words s
  unfolding run_line ask
  run_line-words w [] trailing s h = rw (run_line, strtok-spaces trailing) refl
  run_line-words w ((n1, w1) ∷ words) trailing s (h1, h) =
      let line = line_of ((n1, w1) ∷ words) trailing in
      let t1 = left words trailing in
      let first = strtok-word n1 w1 words trailing h1 in
      let second = ap (λ r. strtok r.1) first ∙ strtok-first words t1 h in
      let third =
        ap (λ r. strtok r.1) second
        ∙ strtok-first (others words) (left (others words) (spare words t1))
            (others-AreWords words h) in
      run_line-asks w line s w1 (word_at 0 words) (word_at 1 words) (ap (λ r. r.0) first)
        (ap (λ r. r.0) second) (ap (λ r. r.0) third ∙ word_at-others words)

  exits :
      (w : World) (spaces : ℕ) (words : Words) (s : State)
      → ask w ((spaces, codes "exit") ∷ words) s ≡ ret (some (leave, s))
  unfolding ask command_of same_string find_command
  exits w spaces words s = refl

  not_empty :
      (spaces : ℕ) (words : Words) (trailing : ℕ)
      → line_of ((spaces, codes "exit") ∷ words) trailing ≢ []
  not_empty zero words trailing e = cc e
  not_empty (suc n) words trailing e = cc e

  main_loop-leaves :
      (w : World) (line : List ℕ) (lines : Session) (answer : Answer) (s : State)
      → line ≢ []
      → run_line atoi w line s ≡ ret (some (leave, s))
      → main_loop atoi ((w, line) ∷ lines) answer s ≡ ret (some (1, s))
  unfolding main_loop
  main_loop-leaves w [] lines answer s full runs = absurd (full refl)
  main_loop-leaves w (c ∷ line) lines answer s full runs = rw (main_loop, runs) refl

  -- Where the first word of a line is `exit`, whatever words and spaces stand around it, the
  -- session ends at once, with the exit status 1 and the state as it is, whatever lines follow.
  pub main_loop-exit :
      (w : World) (spaces : ℕ) (words : Words) (trailing : ℕ) (lines : Session) (answer : Answer)
      (s : State)
      → AreWords words
      → main_loop atoi ((w, line_of ((spaces, codes "exit") ∷ words) trailing) ∷ lines) answer s
        ≡ ret (some (1, s))
  main_loop-exit w spaces words trailing lines answer s h =
      let runs =
        run_line-words w ((spaces, codes "exit") ∷ words) trailing s (exit-IsWord, h)
        ∙ exits w spaces words s in
      main_loop-leaves w _ lines answer s (not_empty spaces words trailing) runs
